-- ===== src/Agent/Calls/Bounds.antt =====
-- `boundedText` (agent/agent-loop.ts): how long the kept text is and what it keeps.
use echocoding_harness.Common.{
  if-cases, ℕ, ◌-◌, ◌≤◌, ◌≡◌, refl, true, false, not, max, leb, ◌++◌, arith, length, take, drop,
  length-append, length-take, length-drop, Text, units,
}
use echocoding_harness.Agent.Calls.{
  BoundedText, bounded_text, truncation_marker, kept_chars, head_chars,
}

length-marker : length truncation_marker ≡ 19
unfolding units
length-marker = refl

abbrev tail_start : Text → ℕ → ℕ
tail_start text limit = length text - (kept_chars limit - head_chars (kept_chars limit))

length-shortened :
    (text : Text) (limit : ℕ)
    → length (
        take (head_chars (kept_chars limit)) text
        ++ truncation_marker
        ++ drop (tail_start text limit) text)
      ≤ max limit 19
length-shortened text limit = omega (
  arith,
  length-marker,
  length-append (take (head_chars (kept_chars limit)) text ++ truncation_marker)
      (drop (tail_start text limit) text),
  length-append (take (head_chars (kept_chars limit)) text) truncation_marker,
  length-take (head_chars (kept_chars limit)) text,
  length-drop (tail_start text limit) text,
)

-- The kept text is never longer than the limit, or than the marker where the limit is below it; it
-- is cut exactly when it was longer than the limit, and is the text itself where it was not.
pub bounded_text_lem :
    (text : Text) (limit : ℕ)
    → (length (bounded_text text limit).text ≤ max limit 19)
      × ((bounded_text text limit).truncated ≡ not (leb (length text) limit))
      × ((bounded_text text limit).truncated ≡ false → (bounded_text text limit).text ≡ text)
unfolding bounded_text
bounded_text_lem text limit =
    if-cases {A = BoundedText}
      (λ r.
        (length r.text ≤ max limit 19)
        × (r.truncated ≡ not (leb (length text) limit))
        × (r.truncated ≡ false → r.text ≡ text))
      (leb (length text) limit) _ _ (λ e. (ground (arith, e), ground (arith, e), λ _. refl))
      (λ e. (length-shortened text limit, ground (arith, e), λ (q : true ≡ false). absurd (cc q)))

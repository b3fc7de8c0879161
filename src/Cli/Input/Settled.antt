-- ===== src/Cli/Input/Settled.antt =====
-- The loop of the decoder ends: what is left waits for more input.
use echocoding_harness.Common.{
  ℕ, zero, suc, ◌+◌, ◌≤◌, ◌<◌, ◌≡◌, refl, sym, subst, arith, Bool-cases, inl, inr, Bool, true,
  false, ◌||◌, Option, none, some, List, [], ◌∷◌, ◌++◌, length, length-drop, if-cases, Text,
  text_eq,
}
use echocoding_harness.Cli.Input.{
  ChatInputReadResult, DelimiterKind, start, finish, newline, interrupt, Delimiter, Decoder, Round,
  take_delimiter, at_delimiter, stopped, continued, drain_round, drain, push, held_paste_marker,
  next_delimiter, newline_length, is_pasting,
}

abbrev is_none : Option Delimiter → Bool
is_none none = true
is_none (some _) = false

-- Nothing is left, or what is left may end in the front of a paste marker, or it holds no delimiter.
abbrev pub is_settled : Decoder → Bool
is_settled d =
    (text_eq d.buffer [] || held_paste_marker d.buffer)
    || is_none (next_delimiter d.buffer (is_pasting d.pasted))

-- A round goes on with a shorter buffer, or ends with a decoder that is settled.
record IsRound (d : Decoder) (r : Round) : Type 0 where
  shorter :
      text_eq d.buffer [] ≡ false → r.goes_on ≡ true → length r.decoder.buffer < length d.buffer
  settled : r.goes_on ≡ false → is_settled r.decoder ≡ true

not_empty : (t : Text) → text_eq t [] ≡ false → 0 < length t
unfolding text_eq
not_empty [] e = absurd (cc e)
not_empty (c ∷ t) e = omega arith

newline_length-positive : (t : Text) (i : ℕ) → 0 < newline_length t i
unfolding newline_length
newline_length-positive t i = ground arith

take_delimiter-IsRound :
    (d : Decoder) (k : DelimiterKind) (i : ℕ) → IsRound d (take_delimiter d k i)
unfolding text_eq
take_delimiter-IsRound d interrupt i = record {
  shorter = λ e g. absurd (cc g);
  settled = λ g. refl;
}
take_delimiter-IsRound d start i = record {
  shorter = λ e g. omega (arith, not_empty d.buffer e, length-drop (i + 6) d.buffer);
  settled = λ g. absurd (cc g);
}
take_delimiter-IsRound d finish i = record {
  shorter = λ e g. omega (arith, not_empty d.buffer e, length-drop (i + 6) d.buffer);
  settled = λ g. absurd (cc g);
}
take_delimiter-IsRound d newline i = record {
  shorter = λ e g. omega (
    arith,
    not_empty d.buffer e,
    newline_length-positive d.buffer i,
    length-drop (i + newline_length d.buffer i) d.buffer,
  );
  settled = λ g. absurd (cc g);
}

at_delimiter-IsRound :
    (d : Decoder) (o : Option Delimiter)
    → next_delimiter d.buffer (is_pasting d.pasted) ≡ o
    → IsRound d (at_delimiter d o)
at_delimiter-IsRound d none e = record {
  shorter = λ _ g. absurd (cc g);
  settled = λ _. ground (arith, e);
}
at_delimiter-IsRound d (some m) e = take_delimiter-IsRound d m.kind m.index

drain_round-IsRound : (d : Decoder) → IsRound d (drain_round d)
unfolding drain_round
drain_round-IsRound d =
    if-cases (IsRound d) (text_eq d.buffer [] || held_paste_marker d.buffer) _ _
      (λ e. record { shorter = λ _ g. absurd (cc g); settled = λ _. ground (arith, e) })
      (λ _. at_delimiter-IsRound d (next_delimiter d.buffer (is_pasting d.pasted)) refl)

empty : (t : Text) → length t ≤ 0 → text_eq t [] ≡ true
unfolding text_eq
empty [] h = refl
empty (c ∷ t) h = absurd (omega (arith, h))

continued-settled :
    (d : Decoder) (n : ℕ) (r : Round) (rest : Decoder → List ChatInputReadResult × Decoder)
    → IsRound d r
    → text_eq d.buffer [] ≡ false
    → length d.buffer ≤ suc n
    → ((e : Decoder) → length e.buffer ≤ n → is_settled (rest e).1 ≡ true)
    → is_settled (continued r rest).1 ≡ true
continued-settled d n r rest i e h ih = elim (Bool-cases r.goes_on) [
  | inl g ↦
      let last : (continued r rest).1 ≡ (rest r.decoder).1 = ground (arith, g) in
      subst (λ x. is_settled x ≡ true) (sym last) (ih r.decoder (omega (arith, h, i.shorter e g)))
  | inr g ↦
      let last : (continued r rest).1 ≡ r.decoder = ground (arith, g) in
      subst (λ x. is_settled x ≡ true) (sym last) (i.settled g)
]

-- By as many rounds as the buffer has units the loop has ended.
drain-settled : (n : ℕ) (d : Decoder) → length d.buffer ≤ n → is_settled (drain n d).1 ≡ true
unfolding drain
drain-settled zero d h = ground (arith, empty d.buffer h)
drain-settled (suc n) d h = elim (Bool-cases (text_eq d.buffer [])) [
  | inl e ↦
      let same : drain_round d ≡ stopped d = unfold drain_round in ground (arith, e) in
      subst (λ r. is_settled (continued r (drain n)).1 ≡ true) (sym same) (ground (arith, e))
  | inr e ↦
      continued-settled d n (drain_round d) (drain n) (drain_round-IsRound d) e h (drain-settled n)
]

-- After any input that it is given, the decoder has nothing left, or what is left may end in the front
-- of a paste marker, or it holds no delimiter.
pub push-settled : (chunk : Text) (d : Decoder) → is_settled (push chunk d).1 ≡ true
unfolding push
push-settled chunk d =
    drain-settled (length (d.buffer ++ chunk))
      (record { buffer = d.buffer ++ chunk; pasted = d.pasted }) (omega arith)

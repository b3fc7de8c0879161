-- ===== src/Execution/Buffer/Reference.antt =====
-- `BoundedTextBuffer` (execution/bounded-text-buffer.ts) against a description on the whole text.
use echocoding_harness.Common.{
  if_cong, ℕ, zero, suc, ◌+◌, ◌-◌, ◌≤◌, ◌≡◌, ◌≢◌, refl, ap, ◌∙◌, sym, subst, arith, false, List, [],
  ◌∷◌, ◌++◌, append-nil, append_assoc, ltb, leb, if-cases, if◌then◌else◌, length, take, drop,
  length-append, length-take, length-drop, take-take, take-append_take, take-append, take-all,
  drop-drop, drop-append, Text,
}
use echocoding_harness.Execution.Buffer.{
  Buffer, BoundedTextResult, empty, slice_last, next_head, append, marker, head_chars, cut, finish,
}

unfoldable pub append_all : List Text → Buffer → Buffer
append_all [] b = b
append_all (chunk ∷ chunks) b = append_all chunks (append chunk b)

unfoldable pub joined : List Text → Text
joined [] = []
joined (chunk ∷ chunks) = chunk ++ joined chunks

-- What the buffer holds of the text that came.
record Holds (max : ℕ) (text : Text) (b : Buffer) : Type 0 where
  limit : b.max_chars ≡ max
  counts : b.original_chars ≡ length text
  starts : b.head ≡ take max text
  ends : b.tail ≡ slice_last max text

slice_last-append :
    (n : ℕ) (s c : Text)
    → slice_last (suc n) (slice_last (suc n) s ++ c) ≡ slice_last (suc n) (s ++ c)
unfolding slice_last
slice_last-append n s c =
    let d = length s - suc n in
    let e = length (drop d s ++ c) - suc n in
    ap (drop e) (sym (drop-append d s c (omega arith)))
    ∙ drop-drop e d (length (s ++ c) - suc n) (s ++ c)
        (omega (arith, length-append (drop d s) c, length-append s c, length-drop d s))

-- The end of the end of a text that is longer.
slice_last-slice_last :
    (k n : ℕ) (s : Text)
    → 1 ≤ k
    → k ≤ n
    → n ≤ length s
    → slice_last k (slice_last n s) ≡ slice_last k s
unfolding slice_last
slice_last-slice_last zero n s one le long = absurd (omega (arith, one))
slice_last-slice_last (suc k) zero s one le long = absurd (omega (arith, le))
slice_last-slice_last (suc k) (suc n) s one le long =
    drop-drop (length (drop (length s - suc n) s) - suc k) (length s - suc n) (length s - suc k) s
      (omega (arith, length-drop (length s - suc n) s))

next_head_lem :
    (max : ℕ) (text chunk : Text) (b : Buffer)
    → Holds max text b
    → next_head chunk b ≡ take max (text ++ chunk)
next_head_lem max text chunk b h =
    if-cases (λ (t : Text). t ≡ take max (text ++ chunk)) (ltb (length b.head) b.max_chars) _ _
      (λ _. rw (h.limit, h.starts) (take-append_take max text chunk))
      (λ full. h.starts ∙ sym (take-append max text chunk (room full)))
  where
    room : ltb (length b.head) b.max_chars ≡ false → max ≤ length text
    room full = ground (arith, full, h.limit, ap length h.starts, length-take max text)

append-Holds :
    (n : ℕ) (text chunk : Text) (b : Buffer)
    → Holds (suc n) text b
    → Holds (suc n) (text ++ chunk) (append chunk b)
unfolding append
append-Holds n text [] b h = record {
  limit = h.limit;
  counts = rw (append-nil text) h.counts;
  starts = rw (append-nil text) h.starts;
  ends = rw (append-nil text) h.ends;
}
append-Holds n text (c ∷ chunk) b h = record {
  limit = h.limit;
  counts = omega (arith, h.counts, length-append text (c ∷ chunk));
  starts = next_head_lem (suc n) text (c ∷ chunk) b h;
  ends = rw (h.limit, h.ends) (slice_last-append n text (c ∷ chunk));
}

append_all-Holds :
    (n : ℕ) (text : Text) (chunks : List Text) (b : Buffer)
    → Holds (suc n) text b
    → Holds (suc n) (text ++ joined chunks) (append_all chunks b)
unfolding append_all joined
append_all-Holds n text [] b h = rw (append-nil text) h
append_all-Holds n text (chunk ∷ chunks) b h =
    rw (sym (append_assoc text chunk (joined chunks)))
      (append_all-Holds n (text ++ chunk) chunks (append chunk b) (append-Holds n text chunk b h))

empty-Holds : (n : ℕ) → Holds (suc n) [] (empty (suc n))
unfolding slice_last
empty-Holds n = record {
  limit = refl;
  counts = refl;
  starts = refl;
  ends = ap (λ (i : ℕ). drop i []) zero-minus;
}
  where
    zero-minus : 0 ≡ 0 - suc n
    zero-minus = omega arith

-- The end that `finish` takes: `slice(-0)` is the whole tail that the buffer holds.
abbrev ending : ℕ → ℕ → Text → Text
ending zero max text = slice_last max text
ending (suc k) max text = slice_last (suc k) text

-- What `finish` returns, told by the whole text.
unfoldable pub shortened : ℕ → Text → BoundedTextResult
shortened max text =
    let mark = marker (length text - max) in
    let available = max - length mark in
    if leb (length text) max
    then record { text = text; truncated = false; original_chars = length text }
    else if leb max (length mark)
    then cut (take max mark) (length text)
    else cut
        (take (head_chars available) text
          ++ mark
          ++ ending (available - head_chars available) max text)
        (length text)

ending-slice_last :
    (k n : ℕ) (text : Text)
    → k ≤ suc n
    → suc n ≤ length text
    → slice_last k (slice_last (suc n) text) ≡ ending k (suc n) text
unfolding slice_last
ending-slice_last zero n text le long = refl
ending-slice_last (suc k) n text le long =
    slice_last-slice_last (suc k) (suc n) text (omega arith) le long

abbrev held : ℕ → Text → Buffer
held max text = record {
  max_chars = max;
  head = take max text;
  tail = slice_last max text;
  original_chars = length text;
}

cut-held :
    (n available : ℕ) (mark text : Text)
    → available ≤ suc n
    → suc n ≤ length text
    → cut
        (take (head_chars available) (take (suc n) text)
          ++ mark
          ++ slice_last (available - head_chars available) (slice_last (suc n) text))
        (length text)
      ≡ cut
          (take (head_chars available) text
            ++ mark
            ++ ending (available - head_chars available) (suc n) text)
          (length text)
cut-held n available mark text le long =
    rw
      (
        take-take (head_chars available) (suc n) text (omega (arith, le)),
        ending-slice_last (available - head_chars available) n text (omega (arith, le)) long,
      )
      refl

finish-held : (n : ℕ) (text : Text) → finish (held (suc n) text) ≡ shortened (suc n) text
unfolding finish shortened
finish-held n text =
    if_cong (leb (length text) (suc n))
      (λ short.
        ap (λ t. record { text = t; truncated = false; original_chars = length text })
          (take-all (suc n) text (ground (arith, short))))
      (λ long.
        if_cong (leb (suc n) (length (marker (length text - suc n)))) (λ _. refl)
          (λ room.
            cut-held n (suc n - length (marker (length text - suc n)))
              (marker (length text - suc n)) text (omega arith) (ground (arith, long))))

held-Holds : (n : ℕ) (text : Text) (b : Buffer) → Holds (suc n) text b → b ≡ held (suc n) text
held-Holds n text b h = cc (h.limit, h.counts, h.starts, h.ends)

-- Whatever chunks the text comes in, the buffer returns what the whole text determines: the text
-- itself where it fits, and else its head and its end around a mark.
pub finish-append_all :
    (n : ℕ) (chunks : List Text)
    → finish (append_all chunks (empty (suc n))) ≡ shortened (suc n) (joined chunks)
finish-append_all n chunks =
    ap finish (
      held-Holds n (joined chunks) _ (append_all-Holds n [] chunks (empty (suc n)) (empty-Holds n)))
    ∙ finish-held n (joined chunks)

length-slice_last : (k : ℕ) (text : Text) → length (slice_last (suc k) text) ≤ suc k
unfolding slice_last
length-slice_last k text = omega (arith, length-drop (length text - suc k) text)

-- Where there is an end to take, it has no more characters than were asked for.
length-ending : (k max : ℕ) (text : Text) → 1 ≤ k → length (ending k max text) ≤ k
length-ending zero max text h = absurd (omega (arith, h))
length-ending (suc k) max text h = length-slice_last k text

length-cut :
    (available max : ℕ) (mark text : Text)
    → 2 ≤ available
    → length (
        take (head_chars available) text
        ++ mark
        ++ ending (available - head_chars available) max text)
      ≤ available + length mark
length-cut available max mark text h = omega (
  arith,
  h,
  length-append (take (head_chars available) text ++ mark)
      (ending (available - head_chars available) max text),
  length-append (take (head_chars available) text) mark,
  length-take (head_chars available) text,
  length-ending (available - head_chars available) max text (omega (arith, h)),
)

two_left : (n m : ℕ) → leb (suc n) m ≡ false → suc n ≢ m + 1 → 2 ≤ suc n - m
two_left n m room off = ground (arith, room, off)

fits : (n m l : ℕ) → leb (suc n) m ≡ false → l ≤ suc n - m + m → l ≤ suc n
fits n m l room le = ground (arith, room, le)

length-shortened :
    (n : ℕ) (text : Text)
    → suc n ≢ length (marker (length text - suc n)) + 1
    → length (shortened (suc n) text).text ≤ suc n
unfolding shortened
length-shortened n text off =
    let mark = marker (length text - suc n) in
    let available = suc n - length mark in
    if-cases {A = BoundedTextResult} (λ r. length r.text ≤ suc n) (leb (length text) (suc n)) _ _
      (λ short. ground (arith, short))
      (λ _.
        if-cases {A = BoundedTextResult} (λ r. length r.text ≤ suc n) (leb (suc n) (length mark)) _
          _ (λ _. omega (arith, length-take (suc n) mark))
          (λ room.
            fits n (length mark) _ room
              (length-cut available (suc n) mark text (two_left n (length mark) room off))))

-- Unless the limit is one more than the length of the mark, the text that the buffer returns is never
-- longer than the limit.
pub length-finish :
    (n : ℕ) (chunks : List Text)
    → suc n ≢ length (marker (length (joined chunks) - suc n)) + 1
    → length (finish (append_all chunks (empty (suc n)))).text ≤ suc n
length-finish n chunks off =
    subst (λ (r : BoundedTextResult). length r.text ≤ suc n) (sym (finish-append_all n chunks))
      (length-shortened n (joined chunks) off)

-- ===== src/Tools/Files/Text/Lines.antt =====
-- The lines of a text: put together they are the text, each ends with its line end, and only the
-- last may have none.
use echocoding_harness.Common.{
  ℕ, ◌≡◌, refl, arith, ap, sym, ◌∙◌, Bool, true, false, ◌&&◌, ◌==◌, List, [], ◌∷◌, ◌++◌, append-nil,
  append_assoc, if-cases, Text, all, not, text_eq, ◌||◌, Bool-cases, inl, inr,
}
use echocoding_harness.Tools.Files.Text.{
  split_from, split_text_lines, without_line_ending, is_break,
}

abbrev pub concat : List Text → Text
concat [] = []
concat (l ∷ ls) = l ++ concat ls

concat-split_from : (line t : Text) → concat (split_from line t) ≡ line ++ t
unfolding split_from
concat-split_from [] [] = refl
concat-split_from (c ∷ line) [] = refl
concat-split_from line (c ∷ []) = append-nil (line ++ c ∷ [])
concat-split_from line (c ∷ d ∷ t) =
    if-cases (λ ls. concat ls ≡ line ++ c ∷ d ∷ t) (c == 13 && d == 10) _ _
      (λ _.
        ap (λ r. (line ++ c ∷ d ∷ []) ++ r) (concat-split_from [] t)
        ∙ append_assoc line (c ∷ d ∷ []) t)
      (λ _.
        if-cases (λ ls. concat ls ≡ line ++ c ∷ d ∷ t) (is_break c) _ _
          (λ _.
            ap (λ r. (line ++ c ∷ []) ++ r) (concat-split_from [] (d ∷ t))
            ∙ append_assoc line (c ∷ []) (d ∷ t))
          (λ _. concat-split_from (line ++ c ∷ []) (d ∷ t) ∙ append_assoc line (c ∷ []) (d ∷ t)))

pair_cases : (c d : ℕ) → (c == 13 && d == 10) ≡ true → (c ≡ 13) × (d ≡ 10)
pair_cases c d e = ground (arith, e)

abbrev pub no_break : Text → Bool
no_break t = all (λ c. not (is_break c)) t

without-break :
    (line : Text) (c : ℕ)
    → no_break line ≡ true
    → is_break c ≡ true
    → without_line_ending (line ++ c ∷ []) ≡ line
unfolding without_line_ending
without-break [] c n b = ground (arith, b)
without-break (x ∷ []) c n b = ground (arith, n, b)
without-break (x ∷ y ∷ []) c n b = ground (arith, n, without-break (y ∷ []) c)
without-break (x ∷ y ∷ z ∷ line) c n b =
    ap (λ l. x ∷ l) (without-break (y ∷ z ∷ line) c (ground (arith, n)) b)

without-pair :
    (line : Text) → no_break line ≡ true → without_line_ending (line ++ 13 ∷ 10 ∷ []) ≡ line
unfolding without_line_ending
without-pair [] n = refl
without-pair (x ∷ []) n = refl
without-pair (x ∷ y ∷ []) n = ap (λ l. x ∷ l) (without-pair (y ∷ []) (ground (arith, n)))
without-pair (x ∷ y ∷ z ∷ line) n =
    ap (λ l. x ∷ l) (without-pair (y ∷ z ∷ line) (ground (arith, n)))

without-none : (line : Text) → no_break line ≡ true → without_line_ending line ≡ line
unfolding without_line_ending
without-none [] n = refl
without-none (x ∷ []) n = ground (arith, n)
without-none (x ∷ y ∷ []) n = ground (arith, n)
without-none (x ∷ y ∷ z ∷ line) n =
    ap (λ l. x ∷ l) (without-none (y ∷ z ∷ line) (ground (arith, n)))

no_break-append :
    (line : Text) (c : ℕ)
    → no_break line ≡ true
    → is_break c ≡ false
    → no_break (line ++ c ∷ []) ≡ true
no_break-append [] c n b = ground (arith, b)
no_break-append (x ∷ line) c n b = ground (arith, n, no_break-append line c)

-- Without its line end a line holds no line break.
abbrev pub IsLine : Text → Type 0
IsLine l = no_break (without_line_ending l) ≡ true

-- A line ends where the next one follows: in a line feed, or in a carriage return that no line feed
-- follows.
abbrev starts_feed : Text → Bool
starts_feed [] = false
starts_feed (c ∷ t) = c == 10

unfoldable pub ends_before : Text → Text → Bool
ends_before [] next = false
ends_before (c ∷ []) next = c == 10 || (c == 13 && not (starts_feed next))
ends_before (c ∷ d ∷ t) next = ends_before (d ∷ t) next

-- Each line holds something, and no line break before its end; each but the last has a line end, and
-- a carriage return and the line feed after it are not in two lines.
abbrev pub Lines : List Text → Type 0
Lines [] = Unit
Lines (l ∷ []) = (text_eq l [] ≡ false) × IsLine l
Lines (l ∷ m ∷ ls) = (text_eq l [] ≡ false) × IsLine l × (ends_before l m ≡ true) × Lines (m ∷ ls)

ends_before-pair : (line next : Text) → ends_before (line ++ 13 ∷ 10 ∷ []) next ≡ true
unfolding ends_before
ends_before-pair [] next = refl
ends_before-pair (x ∷ []) next = refl
ends_before-pair (x ∷ y ∷ line) next = ends_before-pair (y ∷ line) next

ends_before-break :
    (line : Text) (c : ℕ) (next : Text)
    → (c == 10 || (c == 13 && not (starts_feed next))) ≡ true
    → ends_before (line ++ c ∷ []) next ≡ true
unfolding ends_before
ends_before-break [] c next e = e
ends_before-break (x ∷ []) c next e = e
ends_before-break (x ∷ y ∷ line) c next e = ends_before-break (y ∷ line) c next e

not_empty : (line : Text) (c : ℕ) (t : Text) → text_eq (line ++ c ∷ t) [] ≡ false
unfolding text_eq
not_empty [] c t = refl
not_empty (x ∷ line) c t = refl

Lines-cons :
    (l : Text) (ls : List Text)
    → text_eq l [] ≡ false
    → IsLine l
    → ((m : Text) (ms : List Text) → ls ≡ m ∷ ms → ends_before l m ≡ true)
    → Lines ls
    → Lines (l ∷ ls)
Lines-cons l [] n i e h = (n, i)
Lines-cons l (m ∷ ms) n i e h = (n, i, e m ms refl, h)

-- The first line starts as the text does.
starts_feed-concat :
    (m : Text) (ms : List Text) (d : ℕ) (t : Text)
    → concat (m ∷ ms) ≡ d ∷ t
    → (d == 10) ≡ false
    → starts_feed m ≡ false
starts_feed-concat [] ms d t e n = refl
starts_feed-concat (a ∷ m) ms d t e n = ground (arith, e, n)

-- A carriage return or a line feed that is no pair with what follows ends its line.
ends-break :
    (line : Text) (c d : ℕ) (t m : Text) (ms : List Text)
    → is_break c ≡ true
    → (c == 13 && d == 10) ≡ false
    → split_from [] (d ∷ t) ≡ m ∷ ms
    → ends_before (line ++ c ∷ []) m ≡ true
ends-break line c d t m ms b n e =
    let same : concat (m ∷ ms) ≡ d ∷ t = ap concat (sym e) ∙ concat-split_from [] (d ∷ t) in
    ends_before-break line c m (ground (arith, b, n, starts_feed-concat m ms d t same))

Lines-split_from : (line t : Text) → no_break line ≡ true → Lines (split_from line t)
unfolding split_from text_eq
Lines-split_from [] [] n = tt
Lines-split_from (c ∷ line) [] n = (refl, rw (without-none (c ∷ line) n) n)
Lines-split_from line (c ∷ []) n = elim (Bool-cases (is_break c)) [
  | inl b ↦ (not_empty line c [], rw (without-break line c n b) n)
  | inr b ↦
      let m = no_break-append line c n b in
      (not_empty line c [], rw (without-none (line ++ c ∷ []) m) m)
]
Lines-split_from line (c ∷ d ∷ t) n =
    if-cases Lines (c == 13 && d == 10) _ _
      (λ e.
        let (e1, e2) = pair_cases c d e in
        Lines-cons (line ++ c ∷ d ∷ []) (split_from [] t) (not_empty line c (d ∷ []))
          (rw (e1, e2, without-pair line n) n) (λ m ms _. rw (e1, e2) (ends_before-pair line m))
          (Lines-split_from [] t refl))
      (λ p.
        if-cases Lines (is_break c) _ _
          (λ b.
            Lines-cons (line ++ c ∷ []) (split_from [] (d ∷ t)) (not_empty line c [])
              (rw (without-break line c n b) n) (λ m ms. ends-break line c d t m ms b p)
              (Lines-split_from [] (d ∷ t) refl))
          (λ b. Lines-split_from (line ++ c ∷ []) (d ∷ t) (no_break-append line c n b)))

-- The lines of a text, put together, are the text. Each line holds something, and no line break before
-- its end; each but the last has a line end, and a carriage return and a line feed that follows it are
-- not in two lines.
pub concat-split_text_lines :
    (text : Text) → (concat (split_text_lines text) ≡ text) × Lines (split_text_lines text)
unfolding split_text_lines
concat-split_text_lines text = (concat-split_from [] text, Lines-split_from [] text refl)

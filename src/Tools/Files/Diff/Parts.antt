-- ===== src/Tools/Files/Diff/Parts.antt =====
-- The changed lines with what stands before and after them.
use echocoding_harness.Common.{
  ℕ, zero, suc, ◌+◌, ◌-◌, ◌≤◌, ◌≡◌, refl, arith, ap, sym, ◌∙◌, Bool-cases, inl, inr, leb, false,
  List, [], ◌∷◌, ◌++◌, append-nil, append_assoc, length, length-append, length-drop, take,
  take-append, take-all, drop, drop-drop, Text, text_eq, text_eq_iff,
}
use echocoding_harness.Tools.Files.Text.Limit.{length-truncate_head_tail}
use echocoding_harness.Tools.Files.Diff.{
  render, common_length, reverse, prefix_length, suffix_length, previous_changed, next_changed,
  slice, diff_lines, create_diff,
}

common_length-le :
    (xs ys : List Text) → (common_length xs ys ≤ length xs) × (common_length xs ys ≤ length ys)
unfolding common_length
common_length-le [] ys = (omega arith, omega arith)
common_length-le (x ∷ xs) [] = (omega arith, omega arith)
common_length-le (x ∷ xs) (y ∷ ys) = ground (arith, common_length-le xs ys)

take-common_length :
    (xs ys : List Text) → take (common_length xs ys) xs ≡ take (common_length xs ys) ys
unfolding common_length
take-common_length [] ys = refl
take-common_length (x ∷ xs) [] = refl
take-common_length (x ∷ xs) (y ∷ ys) = ground (arith, take-common_length xs ys, text_eq_iff x y)

length-reverse : (xs : List Text) → length (reverse xs) ≡ length xs
unfolding reverse
length-reverse [] = refl
length-reverse (x ∷ xs) = omega (arith, length-append (reverse xs) (x ∷ []), length-reverse xs)

reverse-append : (xs ys : List Text) → reverse (xs ++ ys) ≡ reverse ys ++ reverse xs
unfolding reverse
reverse-append [] ys = sym (append-nil (reverse ys))
reverse-append (x ∷ xs) ys =
    ap (λ l. l ++ x ∷ []) (reverse-append xs ys) ∙ append_assoc (reverse ys) (reverse xs) (x ∷ [])

reverse-reverse : (xs : List Text) → reverse (reverse xs) ≡ xs
unfolding reverse
reverse-reverse [] = refl
reverse-reverse (x ∷ xs) =
    reverse-append (reverse xs) (x ∷ []) ∙ ap (λ l. x ∷ l) (reverse-reverse xs)

-- The last elements, from the end.
drop-reverse :
    (s : ℕ) (xs : List Text)
    → s ≤ length xs
    → drop (length xs - s) xs ≡ reverse (take s (reverse xs))
unfolding reverse
drop-reverse zero [] h = refl
drop-reverse (suc s) [] h = absurd (omega (arith, h))
drop-reverse s (x ∷ xs) h = elim (Bool-cases (leb s (length xs))) [
  | inl e ↦
      let h' : s ≤ length xs = ground (arith, e) in
      let k : length (x ∷ xs) - s ≡ suc (length xs - s) = omega (arith, h') in
      ap (λ n. drop n (x ∷ xs)) k
      ∙ drop-reverse s xs h'
      ∙ ap reverse
          (sym (take-append s (reverse xs) (x ∷ []) (omega (arith, h', length-reverse xs))))
  | inr e ↦
      let k : length (x ∷ xs) - s ≡ 0 = ground (arith, e) in
      ap (λ n. drop n (x ∷ xs)) k
      ∙ sym (reverse-reverse (x ∷ xs))
      ∙ ap reverse
          (sym (take-all s (reverse (x ∷ xs)) (ground (arith, e, length-reverse (x ∷ xs)))))
]

take-drop : (k : ℕ) (l : List Text) → take k l ++ drop k l ≡ l
take-drop zero l = refl
take-drop (suc k) [] = refl
take-drop (suc k) (x ∷ l) = ap (λ r. x ∷ r) (take-drop k l)

slice-parts : (p k : ℕ) (l : List Text) → p ≤ k → take p l ++ (slice p k l ++ drop k l) ≡ l
slice-parts zero k l h = take-drop k l
slice-parts (suc p) zero l h = absurd (omega (arith, h))
slice-parts (suc p) (suc k) [] h = refl
slice-parts (suc p) (suc k) (x ∷ l) h = ap (λ r. x ∷ r) (slice-parts p k l (omega (arith, h)))

module _ (previous next : List Text) where
  abbrev Bounded : List Text → Type 0
  Bounded l = prefix_length previous next + suffix_length previous next ≤ length l

  lengths : Bounded previous × Bounded next
  unfolding suffix_length prefix_length
  lengths =
      let p = common_length previous next in
      let (a, b) = common_length-le previous next in
      let (c, d) = common_length-le (reverse (drop p previous)) (reverse (drop p next)) in
      (
        omega (arith, a, c, length-reverse (drop p previous), length-drop p previous),
        omega (arith, b, d, length-reverse (drop p next), length-drop p next),
      )

  -- The lines after the change, from the end.
  suffix_of :
      (l : List Text)
      → Bounded l
      → drop (length l - suffix_length previous next) l
        ≡ reverse
            (take (suffix_length previous next) (reverse (drop (prefix_length previous next) l)))
  suffix_of l h =
      sym (drop-drop (length (drop p l) - s) p (length l - s) l (omega (arith, h, length-drop p l)))
      ∙ drop-reverse s (drop p l) (omega (arith, h, length-drop p l))
    where
      p : ℕ
      p = prefix_length previous next

      s : ℕ
      s = suffix_length previous next

  same_suffix :
      drop (length previous - suffix_length previous next) previous
      ≡ drop (length next - suffix_length previous next) next
  unfolding suffix_length prefix_length
  same_suffix =
      suffix_of previous lengths.0
      ∙ ap reverse (
          take-common_length (reverse (drop (common_length previous next) previous))
            (reverse (drop (common_length previous next) next)))
      ∙ sym (suffix_of next lengths.1)

  prefix_take :
      take (prefix_length previous next) previous ≡ take (prefix_length previous next) next
  unfolding prefix_length
  prefix_take = take-common_length previous next

  -- The lines of both texts are the same lines at the front, the lines that are shown as removed or as
  -- added, and the same lines at the end.
  pub changed_parts :
      (front : List Text) × (back : List Text) × (previous
        ≡ front ++ (previous_changed previous next ++ back))
      × (next ≡ front ++ (next_changed previous next ++ back))
  unfolding previous_changed next_changed
  changed_parts = (
    take p previous,
    drop (length previous - s) previous,
    sym (slice-parts p (length previous - s) previous (omega (arith, lengths))),
    sym (slice-parts p (length next - s) next (omega (arith, lengths)))
        ∙ ap (λ l. l ++ (slice p (length next - s) next ++ drop (length next - s) next))
            (sym same_front)
        ∙ ap (λ l. take p previous ++ (slice p (length next - s) next ++ l)) (sym same_suffix),
  )
    where
      p : ℕ
      p = prefix_length previous next

      s : ℕ
      s = suffix_length previous next

      same_front : take p previous ≡ take p next
      same_front = prefix_take

-- For texts that differ, the diff counts the lines of a part that is removed and of a part that is
-- added, around which the lines of both texts are the same, and its text is within the limit.
pub create_diff-parts :
    (previous next path : Text) (limit : ℕ)
    → text_eq previous next ≡ false
    → (front : List Text) × (removed : List Text) × (added : List Text) × (back : List Text)
      × (diff_lines previous ≡ front ++ (removed ++ back))
      × (diff_lines next ≡ front ++ (added ++ back))
      × ((create_diff previous next path limit).deletions ≡ length removed)
      × ((create_diff previous next path limit).additions ≡ length added)
      × (length (create_diff previous next path limit).diff ≤ limit)
unfolding create_diff
create_diff-parts previous next path limit e =
    let (front, back, a, b) = changed_parts (diff_lines previous) (diff_lines next) in
    rw e (
      front,
      previous_changed (diff_lines previous) (diff_lines next),
      next_changed (diff_lines previous) (diff_lines next),
      back,
      a,
      b,
      refl,
      refl,
      omega (
        arith,
        length-truncate_head_tail (render (diff_lines previous) (diff_lines next) path) limit,
      ),
    )

-- ===== src/Tools/Files/Edits/Pieces.antt =====
-- What a replacement does, without the search: the pieces of a text between the matches, and the one
-- place that an unambiguous edit changes.
use echocoding_harness.Common.{
  ℕ, zero, suc, ◌≤◌, ◌≡◌, refl, arith, ap, sym, ◌∙◌, subst, Bool-cases, true, false, ==_iff,
  Option-cases, none, some, List, [], ◌∷◌, ◌++◌, inl, inr, length, length-append, Text, All,
}
use echocoding_harness.Tools.Files.Errors.{ok}
use echocoding_harness.Tools.Files.Edits.{
  PatchEdit, strip_prefix, first_match, count_from, count_occurrences, split_from, split, join,
  replace_first_literal, replaced, apply_edit,
}

strip_prefix_lem : (s t rest : Text) → strip_prefix s t ≡ some rest → t ≡ s ++ rest
unfolding strip_prefix
strip_prefix_lem [] t rest e = ground (arith, e)
strip_prefix_lem (a ∷ s) [] rest e = absurd (cc e)
strip_prefix_lem (a ∷ s) (b ∷ t) rest e = ground (arith, e, strip_prefix_lem s t rest, ==_iff a b)

-- A prefix of a text is one of a longer text.
strip_prefix-append :
    (s t u rest : Text) → strip_prefix s t ≡ some rest → strip_prefix s (t ++ u) ≡ some (rest ++ u)
unfolding strip_prefix
strip_prefix-append [] t u rest e = ground (arith, e)
strip_prefix-append (a ∷ s) [] u rest e = absurd (cc e)
strip_prefix-append (a ∷ s) (b ∷ t) u rest e = ground (arith, e, strip_prefix-append s t u rest)

-- The first match stands where the parts say.
first_match_lem :
    (search content before after : Text)
    → first_match search content ≡ some (before, after)
    → content ≡ before ++ (search ++ after)
unfolding first_match
first_match_lem search [] before after e = elim (Option-cases (strip_prefix search [])) [
  | inl n ↦ absurd (ground (arith, e, n))
  | inr (rest, r) ↦ ground (arith, e, r, strip_prefix_lem search [] rest r)
]
first_match_lem search (c ∷ t) before after e = elim (Option-cases (strip_prefix search (c ∷ t))) [
  | inl n ↦ elim (Option-cases (first_match search t)) [
    | inl m ↦ absurd (ground (arith, e, n, m))
    | inr ((b, a), m) ↦ ground (arith, e, n, m, first_match_lem search t b a m)
  ]
  | inr (rest, r) ↦ ground (arith, e, r, strip_prefix_lem search (c ∷ t) rest r)
]

single :
    (q : Text) (qs : List Text) (a text : Text)
    → length (q ∷ qs) ≡ 1
    → join (q ∷ qs) text ≡ a
    → (qs ≡ []) × (q ≡ a)
unfolding join
single q [] a text l e = (refl, e)
single q (p ∷ ps) a text l e = absurd (omega (arith, l))

-- How the text after an edit stands to the one before it.
abbrev pub Pieces : PatchEdit → Text → Text → ℕ → Type 0
Pieces e content next n =
    (pieces : List Text) × (content ≡ join pieces e.old_text)
    × (next ≡ join pieces e.new_text)
    × (length pieces ≡ suc n)
    × All (λ piece. first_match e.old_text piece ≡ none) pieces
    × (e.replace_all ≡ false → n ≡ 1)

-- What an edit that is applied computes.
module _ (e : PatchEdit) (content next : Text) (n : ℕ)
    (h : apply_edit e content ≡ ok (next, n)) where
  applied_all :
      e.replace_all ≡ true
      → (next ≡ join (split content e.old_text) e.new_text)
        × (n ≡ count_occurrences content e.old_text)
  unfolding apply_edit
  applied_all a = ground (arith, h, a)

  applied_one :
      e.replace_all ≡ false
      → (count_occurrences content e.old_text ≡ 1)
        × (next ≡ replace_first_literal content e.old_text e.new_text)
        × (n ≡ 1)
  unfolding apply_edit
  applied_one a = ground (arith, h, a)

module _ (x : ℕ) (s : Text) where
  first_match-later :
      (c : ℕ) (t b a : Text)
      → strip_prefix (x ∷ s) (c ∷ t) ≡ none
      → first_match (x ∷ s) t ≡ some (b, a)
      → first_match (x ∷ s) b ≡ none
      → first_match (x ∷ s) (c ∷ b) ≡ none
  unfolding first_match
  first_match-later c t b a n m h = elim (Option-cases (strip_prefix (x ∷ s) (c ∷ b))) [
    | inl o ↦ ground (arith, o, h)
    | inr (rest, r) ↦
        let longer : strip_prefix (x ∷ s) (c ∷ (b ++ (x ∷ s ++ a))) ≡ some (rest ++ (x ∷ s ++ a)) =
          strip_prefix-append (x ∷ s) (c ∷ b) (x ∷ s ++ a) rest r in
        let whole : c ∷ t ≡ c ∷ (b ++ (x ∷ s ++ a)) =
          ap (λ w. c ∷ w) (first_match_lem (x ∷ s) t b a m) in
        absurd (cc (longer, ap (strip_prefix (x ∷ s)) whole, n))
  ]

  -- No match begins before the first one.
  first_match-before :
      (content before after : Text)
      → first_match (x ∷ s) content ≡ some (before, after)
      → first_match (x ∷ s) before ≡ none
  unfolding first_match
  first_match-before [] before after e = absurd (cc e)
  first_match-before (c ∷ t) before after e = elim (Option-cases (strip_prefix (x ∷ s) (c ∷ t))) [
    | inr (rest, r) ↦
        let b : before ≡ [] = ground (arith, e, r) in
        subst (λ w. first_match (x ∷ s) w ≡ none) (sym b) refl
    | inl n ↦ elim (Option-cases (first_match (x ∷ s) t)) [
      | inl m ↦ absurd (ground (arith, e, n, m))
      | inr ((b, a), m) ↦
          let q : before ≡ c ∷ b = ground (arith, e, n, m) in
          subst (λ w. first_match (x ∷ s) w ≡ none) (sym q)
            (first_match-later c t b a n m (first_match-before t b a m))
    ]
  ]

  split_from-cons :
      (f : ℕ) (content : Text)
      → (q : Text) × (qs : List Text) × (split_from f content (x ∷ s) ≡ q ∷ qs)
  unfolding split_from
  split_from-cons zero content = (content, [], refl)
  split_from-cons (suc f) content = elim (Option-cases (first_match (x ∷ s) content)) [
    | inl n ↦ (content, [], ground (arith, n))
    | inr ((b, a), m) ↦ (b, split_from f a (x ∷ s), ground (arith, m))
  ]

  -- The pieces, joined by the text that they were split at, are the text.
  join-split_from : (f : ℕ) (content : Text) → join (split_from f content (x ∷ s)) (x ∷ s) ≡ content
  unfolding split_from join
  join-split_from zero content = refl
  join-split_from (suc f) content = elim (Option-cases (first_match (x ∷ s) content)) [
    | inl n ↦ ground (arith, n)
    | inr ((b, a), m) ↦
        let (q, qs, e) = split_from-cons f a in
        let parts : split_from (suc f) content (x ∷ s) ≡ b ∷ q ∷ qs = ground (arith, m, e) in
        ap (λ ps. join ps (x ∷ s)) parts
        ∙ ap (λ w. b ++ (x ∷ s ++ w)) (ap (λ ps. join ps (x ∷ s)) (sym e) ∙ join-split_from f a)
        ∙ sym (first_match_lem (x ∷ s) content b a m)
  ]

  length-split_from :
      (f : ℕ) (content : Text)
      → length (split_from f content (x ∷ s)) ≡ suc (count_from f content (x ∷ s))
  unfolding split_from count_from
  length-split_from zero content = refl
  length-split_from (suc f) content = elim (Option-cases (first_match (x ∷ s) content)) [
    | inl n ↦ ground (arith, n)
    | inr ((b, a), m) ↦ ground (arith, m, length-split_from f a)
  ]

  first_match-nil : first_match (x ∷ s) [] ≡ none
  unfolding first_match strip_prefix
  first_match-nil = refl

  -- No piece holds a match: the fuel is enough.
  split_from-All :
      (f : ℕ) (content : Text)
      → length content ≤ f
      → All (λ piece. first_match (x ∷ s) piece ≡ none) (split_from f content (x ∷ s))
  unfolding split_from
  split_from-All zero [] h = (first_match-nil, tt)
  split_from-All zero (c ∷ t) h = absurd (omega (arith, h))
  split_from-All (suc f) content h = elim (Option-cases (first_match (x ∷ s) content)) [
    | inl n ↦
        let parts : split_from (suc f) content (x ∷ s) ≡ content ∷ [] = ground (arith, n) in
        subst (All (λ piece. first_match (x ∷ s) piece ≡ none)) (sym parts) (n, tt)
    | inr ((b, a), m) ↦
        let parts : split_from (suc f) content (x ∷ s) ≡ b ∷ split_from f a (x ∷ s) =
          ground (arith, m) in
        let shorter : length a ≤ f = omega (
          arith,
          h,
          ap length (first_match_lem (x ∷ s) content b a m),
          length-append b (x ∷ s ++ a),
          length-append s a,
        ) in
        subst (All (λ piece. first_match (x ∷ s) piece ≡ none)) (sym parts)
          (first_match-before content b a m, split_from-All f a shorter)
  ]

  -- For a text that is not empty: the pieces joined by it are the text again, they are one more than
  -- its matches, and none of them holds a match.
  pub split_lem :
      (content : Text)
      → (join (split content (x ∷ s)) (x ∷ s) ≡ content)
        × (length (split content (x ∷ s)) ≡ suc (count_occurrences content (x ∷ s)))
        × All (λ piece. first_match (x ∷ s) piece ≡ none) (split content (x ∷ s))
  unfolding split count_occurrences
  split_lem content = (
    join-split_from (length content) content,
    length-split_from (length content) content,
    split_from-All (length content) content (omega arith),
  )

  -- Where there is one match, replacing the first literal is replacing between the pieces.
  replace_first-join :
      (f : ℕ) (content replacement : Text)
      → count_from f content (x ∷ s) ≡ 1
      → join (split_from f content (x ∷ s)) replacement
        ≡ replaced content replacement (first_match (x ∷ s) content)
  unfolding count_from split_from join
  replace_first-join zero content replacement c = absurd (omega (arith, c))
  replace_first-join (suc f) content replacement c =
      elim (Option-cases (first_match (x ∷ s) content)) [
        | inl n ↦ absurd (ground (arith, n, c))
        | inr ((b, a), m) ↦
            let (q, qs, e) = split_from-cons f a in
            let one : length (q ∷ qs) ≡ 1 =
              ap length (sym e) ∙ length-split_from f a ∙ ground (arith, m, c) in
            let (only_, same) =
              single q qs a (x ∷ s) one
                (ap (λ ps. join ps (x ∷ s)) (sym e) ∙ join-split_from f a) in
            let parts : split_from (suc f) content (x ∷ s) ≡ b ∷ q ∷ qs = ground (arith, m, e) in
            rw m (
              ap (λ ps. join ps replacement) (parts ∙ ap (λ l. b ∷ q ∷ l) only_)
              ∙ ap (λ w. b ++ (replacement ++ w)) same)
      ]

  first :
      (content replacement : Text)
      → count_occurrences content (x ∷ s) ≡ 1
      → join (split content (x ∷ s)) replacement ≡ replace_first_literal content (x ∷ s) replacement
  unfolding count_occurrences split replace_first_literal
  first content replacement = replace_first-join (length content) content replacement

  -- An edit that is applied replaces each match of its old text, which is not empty, by the new text,
  -- and nothing else: between the pieces that the matches leave, and that hold no match, the new text
  -- stands where the old one stood. It counts the replacements, and without `replaceAll` there is one.
  pub apply_edit-Pieces :
      (e : PatchEdit) (content next : Text) (n : ℕ)
      → e.old_text ≡ x ∷ s
      → apply_edit e content ≡ ok (next, n)
      → Pieces e content next n
  apply_edit-Pieces e content next n o h = elim (Bool-cases e.replace_all) [
    | inl all_ ↦
        let (a, b) = applied_all e content next n h all_ in
        let c : n ≡ count_occurrences content (x ∷ s) = b ∙ ap (count_occurrences content) o in
        (
          split content (x ∷ s),
          rw o (sym whole),
          a ∙ ap (λ t. join (split content t) e.new_text) o,
          count ∙ ap suc (sym c),
          subst (λ t. All (λ piece. first_match t piece ≡ none) (split content (x ∷ s))) (sym o)
              none_left,
          λ w. absurd (cc (w, all_)),
        )
    | inr one ↦
        let (k, a, b) = applied_one e content next n h one in
        let k' : count_occurrences content (x ∷ s) ≡ 1 =
          ap (count_occurrences content) (sym o) ∙ k in
        (
          split content (x ∷ s),
          rw o (sym whole),
          a
              ∙ ap (λ t. replace_first_literal content t e.new_text) o
              ∙ sym (first content e.new_text k'),
          count ∙ ap suc (k' ∙ sym b),
          subst (λ t. All (λ piece. first_match t piece ≡ none) (split content (x ∷ s))) (sym o)
              none_left,
          λ _. b,
        )
  ]
    where
      whole : join (split content (x ∷ s)) (x ∷ s) ≡ content
      whole = (split_lem content).0

      count : length (split content (x ∷ s)) ≡ suc (count_occurrences content (x ∷ s))
      count = (split_lem content).1

      none_left : All (λ piece. first_match (x ∷ s) piece ≡ none) (split content (x ∷ s))
      none_left = (split_lem content).2

-- ===== src/Tools/Files/Output.antt =====
-- tools/files/output.ts: `limitRecordsHeadTail`. The length of `JSON.stringify(records)` is the
-- parameter `size`; the limits are whole numbers, as the tools pass them.
use echocoding_harness.Common.{
  ℕ, zero, suc, ◌+◌, ◌-◌, ◌/◌, ◌≤◌, min, ◌≡◌, refl, arith, ◌⊎◌, inl, inr, Bool, Bool-cases, true,
  false, ltb, leb, List, [], ◌∷◌, ◌++◌, length, length-append, length-take, length-drop, take, drop,
  if◌then◌else◌, ◌==◌,
}

pub record LimitedRecords {ℓ} (A : Type ℓ) : Type ℓ where
  pub records : List A
  pub omitted : ℕ

module _ {ℓ} {A : Type ℓ} where
  unfoldable pub select_head_tail : List A → ℕ → List A
  select_head_tail records count =
      if leb (length records) count
      then records
      else if count == 0
      then []
      else take ((count + 1) / 2) records ++ drop (length records - count / 2) records

  -- One round of the loop, for records that are too long.
  unfoldable pub shrink : List A → List A
  shrink [] = []
  shrink (a ∷ []) = []
  shrink (a ∷ b ∷ []) = a ∷ []
  shrink (a ∷ b ∷ c ∷ rest) =
      let retained = a ∷ b ∷ c ∷ rest in
      take (length retained / 2) retained
      ++ drop (length retained - (length retained - 1) / 2) retained

  module _ (size : List A → ℕ) where
    abbrev is_too_long : ℕ → List A → Bool
    is_too_long limit [] = false
    is_too_long limit (a ∷ more) = ltb limit (size (a ∷ more))

    unfoldable pub limit_from : ℕ → ℕ → List A → List A
    unfolding shrink
    limit_from zero limit retained = retained
    limit_from (suc rounds) limit retained = elim (is_too_long limit retained) [
      | true ↦ limit_from rounds limit (shrink retained)
      | false ↦ retained
    ]

    unfoldable pub limit_records_head_tail : List A → (records characters : ℕ) → LimitedRecords A
    unfolding limit_from select_head_tail
    limit_records_head_tail records maximum limit =
        let start = select_head_tail records (min (length records) maximum) in
        let retained = limit_from (length start) limit start in
        record { records = retained; omitted = length records - length retained }

  length-shrink : (a : A) (more : List A) → length (shrink (a ∷ more)) ≡ length more
  unfolding shrink
  length-shrink a [] = refl
  length-shrink a (b ∷ []) = refl
  length-shrink a (b ∷ c ∷ rest) =
      let retained = a ∷ b ∷ c ∷ rest in
      omega (
        arith,
        length-append (take (length retained / 2) retained)
            (drop (length retained - (length retained - 1) / 2) retained),
        length-take (length retained / 2) retained,
        length-drop (length retained - (length retained - 1) / 2) retained,
      )

  length-select_head_tail :
      (records : List A) (count : ℕ)
      → length (select_head_tail records count) ≡ min (length records) count
  unfolding select_head_tail
  length-select_head_tail records count = ground (
    arith,
    length-append (take ((count + 1) / 2) records) (drop (length records - count / 2) records),
    length-take ((count + 1) / 2) records,
    length-drop (length records - count / 2) records,
  )

  module _ (size : List A → ℕ) (limit : ℕ) where
    -- The rounds of the loop are enough: what is left fits, or is nothing.
    limit_from-fits :
        (rounds : ℕ) (retained : List A)
        → length retained ≤ rounds
        → ((limit_from size rounds limit retained ≡ [])
            ⊎ (size (limit_from size rounds limit retained) ≤ limit))
          × (length (limit_from size rounds limit retained) ≤ length retained)
    unfolding limit_from
    limit_from-fits zero [] h = (inl refl, omega arith)
    limit_from-fits zero (a ∷ more) h = absurd (omega (arith, h))
    limit_from-fits (suc rounds) [] h = (inl refl, omega arith)
    limit_from-fits (suc rounds) (a ∷ more) h = elim (Bool-cases (ltb limit (size (a ∷ more)))) [
      | inl long ↦
          let (fits, shorter) =
            limit_from-fits rounds (shrink (a ∷ more)) (omega (arith, h, length-shrink a more)) in
          let e : limit_from size (suc rounds) limit (a ∷ more)
              ≡ limit_from size rounds limit (shrink (a ∷ more)) =
            ground (arith, long) in
          rw e (fits, omega (arith, shorter, length-shrink a more))
      | inr short ↦
          let e : limit_from size (suc rounds) limit (a ∷ more) ≡ a ∷ more =
            ground (arith, short) in
          rw e (inr (ground (arith, short)), omega arith)
    ]

    -- The records that are kept are none or their text fits in the limit, they are at most as many as
    -- were asked for, and with the number of the omitted ones they are as many as there were.
    pub limit_records_head_tail-fits :
        (records : List A) (maximum : ℕ)
        → (((limit_records_head_tail size records maximum limit).records ≡ [])
            ⊎ (size (limit_records_head_tail size records maximum limit).records ≤ limit))
          × (length (limit_records_head_tail size records maximum limit).records ≤ maximum)
          × (length (limit_records_head_tail size records maximum limit).records
                + (limit_records_head_tail size records maximum limit).omitted
              ≡ length records)
    unfolding limit_records_head_tail
    limit_records_head_tail-fits records maximum =
        let start = select_head_tail records (min (length records) maximum) in
        let (fits, shorter) = limit_from-fits (length start) start (omega arith) in
        let e = length-select_head_tail records (min (length records) maximum) in
        (fits, omega (arith, shorter, e), omega (arith, shorter, e))

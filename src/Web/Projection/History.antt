-- ===== src/Web/Projection/History.antt =====
-- `historyGap` of web/session-projection.ts: whether a client that has seen the events up to a number
-- misses one of the events that follow.
use echocoding_harness.Common.{
  ℕ, zero, suc, ◌+◌, ◌-◌, ◌≤◌, ◌<◌, all, Bool-cases, true, ◌&&◌, inl, inr, sym, subst, ◌∙◌, ◌≡◌,
  ◌↔◌, refl, arith, Bool, false, not, ◌||◌, leb, ltb, ◌==◌, ==_iff, List, [], ◌∷◌, length, map,
  filter, if◌then◌else◌,
}
use echocoding_harness.Contracts.Event.{Event}

-- `toSorted((left, right) => left - right)`
abbrev insert_number : ℕ → List ℕ → List ℕ
insert_number n [] = n ∷ []
insert_number n (m ∷ ms) = let rest = insert_number n ms in if leb n m then n ∷ m ∷ ms else m ∷ rest

unfoldable pub sort_numbers : List ℕ → List ℕ
sort_numbers [] = []
sort_numbers (n ∷ ns) = insert_number n (sort_numbers ns)

unfoldable pub following : List Event → ℕ → List ℕ
unfolding sort_numbers
following events after = sort_numbers (filter (λ n. ltb after n) (map (λ e. e.sequence) events))

unfoldable pub gap_from : ℕ → List ℕ → Bool
gap_from expected [] = false
gap_from expected (n ∷ ns) = let rest = gap_from (n + 1) ns in not (n == expected) || rest

abbrev gap_after : ℕ → List ℕ → Bool
gap_after after [] = false
gap_after zero (n ∷ ns) = gap_from n (n ∷ ns)
gap_after (suc after) (n ∷ ns) = gap_from (suc after + 1) (n ∷ ns)

unfoldable pub history_gap : List Event → ℕ → Bool
unfolding following gap_from
history_gap events after = gap_after after (following events after)

-- How often a number stands in a list.
unfoldable pub count : ℕ → List ℕ → ℕ
count n [] = 0
count n (m ∷ ms) = if m == n then count n ms + 1 else count n ms

-- How many events have a number.
abbrev pub with_number : ℕ → List Event → ℕ
with_number n events = count n (map (λ e. e.sequence) events)

count-insert_number : (n m : ℕ) (ms : List ℕ) → count n (insert_number m ms) ≡ count n (m ∷ ms)
unfolding count
count-insert_number n m [] = refl
count-insert_number n m (k ∷ ms) = ground (arith, count-insert_number n m ms)

count-sort_numbers : (n : ℕ) (ms : List ℕ) → count n (sort_numbers ms) ≡ count n ms
unfolding count sort_numbers
count-sort_numbers n [] = refl
count-sort_numbers n (m ∷ ms) =
    ground (arith, count-insert_number n m (sort_numbers ms), count-sort_numbers n ms)

count-filter :
    (a n : ℕ) (ms : List ℕ)
    → count n (filter (λ m. ltb a m) ms) ≡ (if ltb a n then count n ms else 0)
unfolding count
count-filter a n [] = ground arith
count-filter a n (m ∷ ms) = ground (arith, count-filter a n ms)

count-following :
    (events : List Event) (a n : ℕ)
    → count n (following events a) ≡ (if ltb a n then with_number n events else 0)
unfolding following
count-following events a n =
    count-sort_numbers n _ ∙ count-filter a n (map (λ e. e.sequence) events)

-- No number is below a bound.
abbrev from_bound : ℕ → List ℕ → Bool
from_bound b ns = all (λ m. leb b m) ns

unfoldable rises : List ℕ → Bool
rises [] = true
rises (n ∷ ns) = from_bound n ns && rises ns

from_bound-insert_number :
    (b n : ℕ) (ns : List ℕ) → from_bound b (insert_number n ns) ≡ (leb b n && from_bound b ns)
from_bound-insert_number b n [] = refl
from_bound-insert_number b n (m ∷ ns) = ground (arith, from_bound-insert_number b n ns)

from_bound-less : (b c : ℕ) (ns : List ℕ) → b ≤ c → from_bound c ns ≡ true → from_bound b ns ≡ true
from_bound-less b c [] h r = refl
from_bound-less b c (m ∷ ns) h r = ground (arith, h, r, from_bound-less b c ns h)

rises-insert_number : (n : ℕ) (ns : List ℕ) → rises ns ≡ true → rises (insert_number n ns) ≡ true
unfolding rises
rises-insert_number n [] r = refl
rises-insert_number n (m ∷ ns) r =
    ground
      (arith, r, rises-insert_number n ns, from_bound-insert_number m n ns, from_bound-less n m ns)

rises-sort_numbers : (ns : List ℕ) → rises (sort_numbers ns) ≡ true
unfolding rises sort_numbers
rises-sort_numbers [] = refl
rises-sort_numbers (n ∷ ns) = rises-insert_number n (sort_numbers ns) (rises-sort_numbers ns)

from_bound-filter : (a : ℕ) (ns : List ℕ) → from_bound (a + 1) (filter (λ m. ltb a m) ns) ≡ true
from_bound-filter a [] = refl
from_bound-filter a (n ∷ ns) = ground (arith, from_bound-filter a ns)

from_bound-sort_numbers : (b : ℕ) (ns : List ℕ) → from_bound b (sort_numbers ns) ≡ from_bound b ns
unfolding sort_numbers
from_bound-sort_numbers b [] = refl
from_bound-sort_numbers b (n ∷ ns) =
    ground (arith, from_bound-insert_number b n (sort_numbers ns), from_bound-sort_numbers b ns)

count-below : (n b : ℕ) (ns : List ℕ) → n < b → from_bound b ns ≡ true → count n ns ≡ 0
unfolding count
count-below n b [] h r = refl
count-below n b (m ∷ ns) h r = ground (arith, h, r, count-below n b ns h)

-- A list is without a gap from a number on: a gapless list has each of its numbers once, and with a
-- number all those from the first on.
gap_from-count :
    (b n : ℕ) (ns : List ℕ)
    → gap_from b ns ≡ false
    → count n ns ≡ (if leb b n && ltb n (b + length ns) then 1 else 0)
unfolding gap_from count
gap_from-count b n [] g = ground arith
gap_from-count b n (m ∷ ns) g = ground (arith, g, gap_from-count (b + 1) n ns, ==_iff m b)

abbrev pub Once : ℕ → (ℕ → ℕ) → Type 0
Once b number = (n : ℕ) → b ≤ n → number n ≤ 1

abbrev pub Closed : ℕ → (ℕ → ℕ) → Type 0
Closed b number = (n : ℕ) → b ≤ n → 0 < number (n + 1) → 0 < number n

from_bound-next :
    (b : ℕ) (ns : List ℕ) → from_bound b ns ≡ true → count b ns ≡ 0 → from_bound (b + 1) ns ≡ true
unfolding count
from_bound-next b [] f c = refl
from_bound-next b (m ∷ ns) f c = ground (arith, f, c, from_bound-next b ns)

module _ (n : ℕ) (ns : List ℕ) where
  count-first : 0 < count n (n ∷ ns)
  unfolding count
  count-first = ground arith

  rest_Once : (b : ℕ) → Once b (λ k. count k (n ∷ ns)) → Once (b + 1) (λ k. count k ns)
  unfolding count
  rest_Once b once k h = ground (arith, h, once k)

  rest_Closed :
      (b : ℕ) → n ≡ b → Closed b (λ k. count k (n ∷ ns)) → Closed (b + 1) (λ k. count k ns)
  unfolding count
  rest_Closed b e closed k h more = ground (arith, e, h, more, closed k)

  -- The first number of a list without gaps is the bound.
  first-bound :
      (b : ℕ)
      → rises (n ∷ ns) ≡ true
      → from_bound b (n ∷ ns) ≡ true
      → Closed b (λ k. count k (n ∷ ns))
      → n ≡ b
  unfolding rises
  first-bound b r f closed = elim (Bool-cases (n == b)) [
    | inl e ↦ ground (arith, e)
    | inr e ↦
        let less : b < n = ground (arith, e, f) in
        let before : n - 1 + 1 ≡ n = omega (arith, less) in
        let there : 0 < count (n - 1 + 1) (n ∷ ns) =
          subst (λ k. 0 < count k (n ∷ ns)) (sym before) count-first in
        let below : from_bound n (n ∷ ns) ≡ true = ground (arith, r) in
        absurd (
          omega (
            arith,
            closed (n - 1) (omega (arith, less)) there,
            count-below (n - 1) n (n ∷ ns) (omega (arith, less)) below,
          ))
  ]

gap_from-none :
    (b : ℕ) (ns : List ℕ)
    → rises ns ≡ true
    → from_bound b ns ≡ true
    → Once b (λ n. count n ns)
    → Closed b (λ n. count n ns)
    → gap_from b ns ≡ false
unfolding gap_from rises count
gap_from-none b [] r f once closed = refl
gap_from-none b (n ∷ ns) r f once closed =
    let e : n ≡ b = first-bound n ns b r f closed in
    let single : count b ns ≡ 0 = ground (arith, e, once b (omega arith)) in
    let above : from_bound (b + 1) ns ≡ true = from_bound-next b ns (ground (arith, f)) single in
    let rest : gap_from (b + 1) ns ≡ false =
      gap_from-none (b + 1) ns (ground (arith, r)) above (rest_Once n ns b once)
        (rest_Closed n ns b e closed) in
    rw e (ground (arith, rest))

module _ (events : List Event) (after : ℕ) where
  number-following :
      (n : ℕ) → after + 1 ≤ n → with_number n events ≡ count n (following events after)
  number-following n h = ground (arith, h, count-following events after n)

  following-above : from_bound (after + 1) (following events after) ≡ true
  unfolding following
  following-above =
      from_bound-sort_numbers (after + 1) (filter (λ m. ltb after m) (map (λ e. e.sequence) events))
      ∙ from_bound-filter after (map (λ e. e.sequence) events)

  following-rises : rises (following events after) ≡ true
  unfolding following
  following-rises = rises-sort_numbers (filter (λ m. ltb after m) (map (λ e. e.sequence) events))

gap_after-from : (a : ℕ) (ns : List ℕ) → gap_after (suc a) ns ≡ gap_from (suc a + 1) ns
unfolding gap_from
gap_after-from a [] = refl
gap_after-from a (n ∷ ns) = refl

-- A client that has seen an event misses none of those that follow exactly when no number after it
-- stands twice, and with each number after it that an event has there is an event with the number
-- before it, down to the one that follows what it has seen.
pub history_gap_iff :
    (events : List Event) (after : ℕ)
    → 0 < after
    → (history_gap events after ≡ false) ↔ (
        Once (after + 1) (λ n. with_number n events)
        × Closed (after + 1) (λ n. with_number n events))
unfolding history_gap
history_gap_iff events zero h = absurd (omega (arith, h))
history_gap_iff events (suc a) h = (there, back)
  where
    listed : List ℕ
    listed = following events (suc a)

    there :
        gap_after (suc a) listed ≡ false
        → Once (suc a + 1) (λ n. with_number n events)
          × Closed (suc a + 1) (λ n. with_number n events)
    there g =
        let counted =
          λ (n : ℕ). gap_from-count (suc a + 1) n listed (sym (gap_after-from a listed) ∙ g) in
        (
          λ n b. ground (arith, number-following events (suc a) n b, counted n),
          λ n b more. ground (
            arith,
            number-following events (suc a) n b,
            b,
            more,
            counted n,
            counted (n + 1),
            number-following events (suc a) (n + 1),
          ),
        )

    back :
        Once (suc a + 1) (λ n. with_number n events)
          × Closed (suc a + 1) (λ n. with_number n events)
        → gap_after (suc a) listed ≡ false
    back (once, closed) =
        gap_after-from a listed
        ∙ gap_from-none (suc a + 1) listed (following-rises events (suc a))
            (following-above events (suc a))
            (λ n b. ground (arith, number-following events (suc a) n b, once n b))
            (λ n b more. ground (
              arith,
              number-following events (suc a) n b,
              number-following events (suc a) (n + 1),
              b,
              more,
              closed n b,
            ))

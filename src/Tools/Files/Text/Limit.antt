-- ===== src/Tools/Files/Text/Limit.antt =====
-- A text that is cut has exactly the limit, mark included: the mark that is shown is at most one
-- character longer than the mark that was measured.
use echocoding_harness.Common.{
  ℕ, zero, suc, ◌+◌, ◌-◌, ◌/◌, ◌%◌, ◌≤◌, ◌<◌, min, ◌≡◌, refl, arith, ◌==◌, [], ◌∷◌, ◌++◌, length,
  length-append, length-take, length-drop, take, if◌then◌else◌, Text, units, decimal, digits_from,
}
use echocoding_harness.Tools.Files.Text.{
  mark_of, tail_of, head_tail, shown_mark, truncate_head_tail,
}

-- The number of digits, on fuel as `digits_from`.
count_digits : ℕ → ℕ → ℕ
count_digits zero n = 0
count_digits (suc f) n = let rest = count_digits f (n / 10) in if n == 0 then 0 else suc rest

length-digits_from :
    (f n : ℕ) (acc : Text) → length (digits_from f n acc) ≡ count_digits f n + length acc
unfolding digits_from count_digits
length-digits_from zero n acc = omega arith
length-digits_from (suc f) n acc =
    ground (arith, length-digits_from f (n / 10) ((n % 10 + 48) ∷ acc))

count_digits_mono : (f g m n : ℕ) → m ≤ n → n < g → count_digits f m ≤ count_digits g n
unfolding count_digits
count_digits_mono zero g m n h k = omega arith
count_digits_mono (suc f) zero m n h k = absurd (omega (arith, k))
count_digits_mono (suc f) (suc g) m n h k = ground (arith, count_digits_mono f g (m / 10) (n / 10))

count_digits-le : (f n : ℕ) → count_digits f n ≤ n
unfolding count_digits
count_digits-le zero n = omega arith
count_digits-le (suc f) n = ground (arith, count_digits-le f (n / 10))

length-decimal : (n : ℕ) → 0 < n → length (decimal n) ≡ suc (count_digits n (n / 10))
unfolding decimal count_digits
length-decimal n h = ground (arith, length-digits_from (suc n) n [])

length-decimal_le : (n : ℕ) → 0 < n → length (decimal n) ≤ n
length-decimal_le n h = ground (arith, length-decimal n h, count_digits-le n (n / 10))

-- A number that is ten times as large has one digit more.
length-decimal_mono :
    (m n : ℕ) → 0 < n → 0 < m → m / 10 ≤ n → length (decimal m) ≤ length (decimal n) + 1
unfolding count_digits
length-decimal_mono m n h k l = ground (
  arith,
  length-decimal m k,
  length-decimal n h,
  count_digits_mono m (suc n) (m / 10) n l (omega arith),
)

length-mark_of : (n : ℕ) → length (mark_of n) ≡ length (decimal n) + 20
unfolding mark_of units
length-mark_of n = omega (arith, length-append (decimal n) (units " chars omitted …\n"))

-- The number that is shown exceeds the number that was measured by less than the mark takes.
length-mark_of_grown :
    (n : ℕ) → 0 < n → length (mark_of (n + length (mark_of n))) ≤ length (mark_of n) + 1
unfolding mark_of units decimal digits_from
length-mark_of_grown zero h = absurd (omega (arith, h))
length-mark_of_grown (suc zero) h = omega (arith, first)
  where
    first : length (mark_of (1 + length (mark_of 1))) ≡ length (mark_of 1) + 1
    first = refl
length-mark_of_grown (suc (suc k)) h = omega (
  arith,
  length-mark_of n,
  length-mark_of m,
  length-decimal_le n (omega arith),
  length-decimal_mono m n (omega arith) (omega arith)
      (omega (arith, length-mark_of n, length-decimal_le n (omega arith))),
)
  where
    n : ℕ
    n = suc (suc k)

    m : ℕ
    m = n + length (mark_of n)

length-tail_of : (n : ℕ) (text : Text) → n ≤ length text → length (tail_of n text) ≡ n
unfolding tail_of
length-tail_of n text h = ground (arith, length-drop (length text - n) text)

length-head_tail :
    (text mark : Text) (retained : ℕ)
    → retained ≤ length text
    → length (head_tail text mark retained).content ≡ retained + length mark
length-head_tail text mark retained h = omega (
  arith,
  length-append (take ((retained + 1) / 2) text) (mark ++ tail_of (retained / 2) text),
  length-append mark (tail_of (retained / 2) text),
  length-take ((retained + 1) / 2) text,
  length-tail_of (retained / 2) text (omega (arith, h)),
)

-- The mark that is shown fits in the limit where the measured one is shorter than the limit.
shown_mark_fits :
    (text : Text) (limit : ℕ)
    → limit < length text
    → length (mark_of (length text - limit)) < limit
    → length (shown_mark text limit) ≤ limit
unfolding shown_mark
shown_mark_fits text limit h k =
    let grown = length-mark_of_grown (length text - limit) (omega (arith, h)) in
    let e : length text - (limit - length (mark_of (length text - limit)))
        ≡ length text - limit + length (mark_of (length text - limit)) =
      omega (arith, h, k) in
    rw e (omega (arith, grown, k))

-- A text that is cut is as long as the limit, and one that fits is unchanged.
pub length-truncate_head_tail :
    (text : Text) (limit : ℕ)
    → length (truncate_head_tail text limit).content ≡ min limit (length text)
unfolding truncate_head_tail
length-truncate_head_tail text limit = ground (
  arith,
  length-head_tail text (shown_mark text limit) (limit - length (shown_mark text limit)),
  length-head_tail text [] limit,
  shown_mark_fits text limit,
)

-- ===== src/Execution/Buffer.antt =====
-- execution/bounded-text-buffer.ts: `BoundedTextBuffer`, which keeps the head and the tail of a text
-- that comes in chunks. The constructor wants `maxChars` positive.
pub mod Reference
use echocoding_harness.Common.{
  ℕ, zero, suc, ◌+◌, ◌-◌, ◌/◌, Bool, true, false, Option, none, some, [], ◌∷◌, ◌++◌, ltb, leb,
  if◌then◌else◌, length, take, drop, Text, units, decimal,
}

pub record Buffer : Type 0 where
  pub max_chars : ℕ
  pub head : Text
  pub tail : Text
  pub original_chars : ℕ

pub record BoundedTextResult : Type 0 where
  pub text : Text
  pub truncated : Bool
  pub original_chars : ℕ

abbrev pub empty : ℕ → Buffer
empty max = record { max_chars = max; head = []; tail = []; original_chars = 0 }

-- The constructor, where undefined is its `RangeError`.
unfoldable pub create : ℕ → Option Buffer
create zero = none
create (suc n) = some (empty (suc n))

-- `text.slice(-n)`; -0 is 0.
unfoldable pub slice_last : ℕ → Text → Text
slice_last zero text = text
slice_last (suc n) text = drop (length text - suc n) text

abbrev pub next_head : Text → Buffer → Text
next_head chunk b =
    if ltb (length b.head) b.max_chars then take b.max_chars (b.head ++ chunk) else b.head

abbrev appended : Text → Buffer → Buffer
appended chunk b = record b {
  original_chars = b.original_chars + length chunk;
  head = next_head chunk b;
  tail = slice_last b.max_chars (b.tail ++ chunk);
}

unfoldable pub append : Text → Buffer → Buffer
append [] b = b
append (c ∷ chunk) b = appended (c ∷ chunk) b

abbrev pub marker : ℕ → Text
marker dropped = units "\n... [truncated " ++ decimal dropped ++ units " or more chars] ...\n"

-- `Math.ceil(available / 2)`
abbrev pub head_chars : ℕ → ℕ
head_chars available = (available + 1) / 2

abbrev pub cut : Text → ℕ → BoundedTextResult
cut text original = record { text = text; truncated = true; original_chars = original }

unfoldable pub finish : Buffer → BoundedTextResult
finish b =
    let mark = marker (b.original_chars - b.max_chars) in
    let available = b.max_chars - length mark in
    let tail_chars = available - head_chars available in
    if leb b.original_chars b.max_chars
    then record { text = b.head; truncated = false; original_chars = b.original_chars }
    else if leb b.max_chars (length mark)
    then cut (take b.max_chars mark) b.original_chars
    else cut (take (head_chars available) b.head ++ mark ++ slice_last tail_chars b.tail)
        b.original_chars

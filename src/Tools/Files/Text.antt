-- ===== src/Tools/Files/Text.antt =====
-- tools/files/text.ts: lines of a text, and texts cut to a limit. `readTextFile` is in Tools/Files/Reading.
pub mod Lines
pub mod Limit
use echocoding_harness.Common.{
  ℕ, ◌+◌, ◌-◌, ◌*◌, ◌/◌, Bool, true, false, ◌&&◌, ◌||◌, ltb, leb, ◌==◌, List, [], ◌∷◌, ◌++◌, length,
  take, drop, if◌then◌else◌, Text, units, decimal,
}

pub record TruncatedText : Type 0 where
  pub content : Text
  pub omitted_chars : ℕ
  pub truncated : Bool

unfoldable pub mark_of : ℕ → Text
unfolding units
mark_of omitted = units "\n… " ++ (decimal omitted ++ units " chars omitted …\n")

-- The last characters, where there are some.
unfoldable pub tail_of : ℕ → Text → Text
tail_of n text = if n == 0 then [] else drop (length text - n) text

abbrev pub head_tail : Text → Text → ℕ → TruncatedText
head_tail text mark retained = record {
  content = take ((retained + 1) / 2) text ++ (mark ++ tail_of (retained / 2) text);
  omitted_chars = length text - retained;
  truncated = true;
}

-- The mark as it is shown: its number is the one that its first length gives.
unfoldable pub shown_mark : Text → ℕ → Text
unfolding mark_of
shown_mark text limit = mark_of (length text - (limit - length (mark_of (length text - limit))))

unfoldable pub truncate_head_tail : Text → ℕ → TruncatedText
unfolding tail_of shown_mark mark_of
truncate_head_tail text limit =
    if leb (length text) limit
    then record { content = text; omitted_chars = 0; truncated = false }
    else if limit == 0
    then record { content = []; omitted_chars = length text; truncated = true }
    else if ltb (length (mark_of (length text - limit))) limit
    then head_tail text (shown_mark text limit) (limit - length (shown_mark text limit))
    else head_tail text [] limit

abbrev pub is_break : ℕ → Bool
is_break c = c == 13 || c == 10

abbrev last_line : Text → List Text
last_line [] = []
last_line (c ∷ t) = (c ∷ t) ∷ []

-- The loop of `splitTextLines`, with the line that has begun.
unfoldable pub split_from : Text → Text → List Text
split_from line [] = last_line line
split_from line (c ∷ []) = (line ++ c ∷ []) ∷ []
split_from line (c ∷ d ∷ t) =
    let after_pair = split_from [] t in
    let after_break = split_from [] (d ∷ t) in
    let onward = split_from (line ++ c ∷ []) (d ∷ t) in
    if c == 13 && d == 10
    then (line ++ c ∷ d ∷ []) ∷ after_pair
    else if is_break c
    then (line ++ c ∷ []) ∷ after_break
    else onward

unfoldable pub split_text_lines : Text → List Text
unfolding split_from
split_text_lines text = split_from [] text

-- `line.replace(/(?:\r\n|\r|\n)$/u, '')`
unfoldable pub without_line_ending : Text → Text
without_line_ending [] = []
without_line_ending (c ∷ []) = if is_break c then [] else c ∷ []
without_line_ending (c ∷ d ∷ []) =
    if c == 13 && d == 10 then [] else if is_break d then c ∷ [] else c ∷ d ∷ []
without_line_ending (c ∷ d ∷ e ∷ t) = c ∷ without_line_ending (d ∷ e ∷ t)

-- `isBinary`: a zero, or more than a tenth of control characters among the first 8192 bytes.
abbrev is_control : ℕ → Bool
is_control b = ltb b 32 && (if b == 9 || b == 10 || b == 12 || b == 13 then false else true)

unfoldable pub count_control : List ℕ → ℕ
count_control [] = 0
count_control (b ∷ bs) = (if is_control b then 1 else 0) + count_control bs

unfoldable pub has_zero : List ℕ → Bool
has_zero [] = false
has_zero (b ∷ bs) = b == 0 || has_zero bs

unfoldable pub is_binary : List ℕ → Bool
unfolding count_control has_zero
is_binary bytes =
    has_zero bytes
    || (ltb 0 (length (take 8192 bytes))
        && ltb (length (take 8192 bytes)) (10 * count_control (take 8192 bytes)))

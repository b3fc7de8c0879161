-- ===== src/Tools/Files/Diff.antt =====
-- tools/files/diff.ts: `createDiff`, the lines that a write adds and removes.
pub mod Parts
use echocoding_harness.Common.{
  ℕ, suc, ◌+◌, ◌-◌, min, Bool, false, ◌&&◌, ◌==◌, List, [], ◌∷◌, ◌++◌, length, take, drop,
  if◌then◌else◌, Text, units, text_eq, decimal,
}
use echocoding_harness.Tools.Files.Text.{truncate_head_tail}

pub record DiffResult : Type 0 where
  pub diff : Text
  pub additions : ℕ
  pub deletions : ℕ
  pub truncated : Bool
  pub omitted_chars : ℕ

-- `replaceAll('\r\n', '\n').replaceAll('\r', '\n')`
unfoldable pub normalize_breaks : Text → Text
normalize_breaks [] = []
normalize_breaks (c ∷ []) = (if c == 13 then 10 else c) ∷ []
normalize_breaks (c ∷ d ∷ t) =
    let pair = normalize_breaks t in
    let onward = normalize_breaks (d ∷ t) in
    if c == 13 && d == 10 then 10 ∷ pair else (if c == 13 then 10 else c) ∷ onward

-- `split('\n')`
unfoldable pub split_lines : Text → Text → List Text
split_lines line [] = line ∷ []
split_lines line (c ∷ t) =
    let fresh = split_lines [] t in
    let onward = split_lines (line ++ c ∷ []) t in if c == 10 then line ∷ fresh else onward

-- The last line goes if it is empty.
unfoldable pub pop_empty : List Text → List Text
pop_empty [] = []
pop_empty ([] ∷ []) = []
pop_empty ((c ∷ t) ∷ []) = (c ∷ t) ∷ []
pop_empty (l ∷ m ∷ ls) = l ∷ pop_empty (m ∷ ls)

unfoldable pub diff_lines : Text → List Text
unfolding normalize_breaks split_lines pop_empty
diff_lines [] = []
diff_lines (c ∷ t) = pop_empty (split_lines [] (normalize_breaks (c ∷ t)))

-- The loop over the prefix; the loop over the suffix is the same on what is left, from the end.
unfoldable pub common_length : List Text → List Text → ℕ
common_length [] ys = 0
common_length (x ∷ xs) [] = 0
common_length (x ∷ xs) (y ∷ ys) =
    let rest = common_length xs ys in if text_eq x y then suc rest else 0

unfoldable pub reverse : List Text → List Text
reverse [] = []
reverse (x ∷ xs) = reverse xs ++ x ∷ []

unfoldable pub prefix_length : List Text → List Text → ℕ
unfolding common_length
prefix_length previous next = common_length previous next

unfoldable pub suffix_length : List Text → List Text → ℕ
unfolding common_length reverse prefix_length
suffix_length previous next =
    common_length (reverse (drop (prefix_length previous next) previous))
      (reverse (drop (prefix_length previous next) next))

abbrev pub slice : ℕ → ℕ → List Text → List Text
slice from to lines = drop from (take to lines)

unfoldable pub previous_changed : List Text → List Text → List Text
unfolding prefix_length suffix_length
previous_changed previous next =
    slice (prefix_length previous next) (length previous - suffix_length previous next) previous

unfoldable pub next_changed : List Text → List Text → List Text
unfolding prefix_length suffix_length
next_changed previous next =
    slice (prefix_length previous next) (length next - suffix_length previous next) next

abbrev marked : ℕ → List Text → List Text
marked mark [] = []
marked mark (l ∷ ls) = (mark ∷ l) ∷ marked mark ls

abbrev join_lines : List Text → Text
join_lines [] = []
join_lines (l ∷ []) = l
join_lines (l ∷ m ∷ ls) = l ++ (10 ∷ join_lines (m ∷ ls))

unfoldable pub render : List Text → List Text → Text → Text
unfolding prefix_length suffix_length previous_changed next_changed units
render previous next path =
    let prefix = prefix_length previous next in
    let suffix = suffix_length previous next in
    let start = prefix - 3 in
    let before = slice start prefix previous in
    let after =
      slice (length previous - suffix) (min (length previous) (length previous - suffix + 3))
        previous in
    let removed = previous_changed previous next in
    let added = next_changed previous next in
    join_lines (
      (units "--- a/" ++ path)
      ∷ (units "+++ b/" ++ path)
      ∷ (units "@@ -"
          ++ (decimal (start + 1)
              ++ (units ","
                  ++ (decimal (length before + length removed + length after)
                      ++ (units " +"
                          ++ (decimal (start + 1)
                              ++ (units ","
                                  ++ (decimal (length before + length added + length after)
                                      ++ units " @@"))))))))
      ∷ (marked 32 before
          ++ (marked 45 removed ++ (marked 43 added ++ (marked 32 after ++ [] ∷ [])))))

unfoldable pub create_diff : Text → Text → Text → ℕ → DiffResult
unfolding render diff_lines
create_diff previous next path limit =
    let bounded = truncate_head_tail (render (diff_lines previous) (diff_lines next) path) limit in
    if text_eq previous next
    then record { diff = []; additions = 0; deletions = 0; truncated = false; omitted_chars = 0 }
    else record {
      diff = bounded.content;
      additions = length (next_changed (diff_lines previous) (diff_lines next));
      deletions = length (previous_changed (diff_lines previous) (diff_lines next));
      truncated = bounded.truncated;
      omitted_chars = bounded.omitted_chars;
    }

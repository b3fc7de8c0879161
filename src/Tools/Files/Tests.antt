-- ===== src/Tools/Files/Tests.antt =====
-- The file tools on small texts, and on a world with one file.
use echocoding_harness.Common.{
  ℕ, zero, suc, ◌+◌, ◌≤◌, min, ◌≡◌, ◌≢◌, refl, ◌⊎◌, Bool, true, false, none, some, List, [], ◌∷◌,
  ◌++◌, length, Text, All, units, text_eq, decimal, mem_text, starts_with, drop, ◌||◌,
}
use echocoding_harness.Common.Regex.{test}
use echocoding_harness.Tools.Files.Errors.{ok}
use echocoding_harness.Tools.Files.Text.{split_text_lines, truncate_head_tail, mark_of}
use echocoding_harness.Tools.Files.Text.Lines.{concat, Lines, concat-split_text_lines}
use echocoding_harness.Tools.Files.Text.Limit.{length-truncate_head_tail}
use echocoding_harness.Tools.Files.Output.{limit_records_head_tail, limit_records_head_tail-fits}
use echocoding_harness.Tools.Files.Edits.{PatchEdit, apply_edit, first_match}
use echocoding_harness.Tools.Files.Edits.Pieces.{Pieces, apply_edit-Pieces}
use echocoding_harness.Tools.Files.Segments.{validate_relative_path, is_git_path, is_absolute}
use echocoding_harness.Tools.Files.Segments.Safe.{IsSafe, validate_relative_path-IsSafe}
use echocoding_harness.Tools.Files.Diff.{diff_lines, create_diff}
use echocoding_harness.Tools.Files.Diff.Parts.{create_diff-parts}
use echocoding_harness.Tools.Files.Resolve.{
  is_inside, Answer, found, missing, FileSystem, ResolvedWorkspacePath, resolve_workspace_path,
}
use echocoding_harness.Tools.Files.Resolve.Inside.{IsPlaced, resolve_workspace_path-IsPlaced}
use echocoding_harness.Tools.Files.Writing.{WriteOutcome, write_options, write_workspace_text}
use echocoding_harness.Tools.Files.Writing.Checked.{IsChecked, write_workspace_text-IsChecked}

abbrev three_lines : Text
three_lines = units "a\r\nb\n\rc"

lines_test :
    split_text_lines three_lines ≡ units "a\r\n" ∷ units "b\n" ∷ units "\r" ∷ units "c" ∷ []
unfolding split_text_lines units
lines_test = refl

concat-split_text_lines_example :
    (concat (split_text_lines three_lines) ≡ three_lines) × Lines (split_text_lines three_lines)
concat-split_text_lines_example = concat-split_text_lines three_lines

-- `'x'.repeat(n)`
repeated : ℕ → Text
repeated zero = []
repeated (suc n) = 120 ∷ repeated n

length-truncate_head_tail_example :
    length (truncate_head_tail (repeated 199) 100).content ≡ min 100 (length (repeated 199))
length-truncate_head_tail_example = length-truncate_head_tail (repeated 199) 100

-- Of 199 characters 122 are omitted where 77 are kept, but the mark says 121.
omitted_test : (truncate_head_tail (repeated 199) 100).omitted_chars ≡ 122
unfolding truncate_head_tail mark_of repeated units decimal
omitted_test = refl

shown_test :
    first_match (units " 121 chars omitted ") (truncate_head_tail (repeated 199) 100).content ≢ none
unfolding truncate_head_tail mark_of repeated units decimal first_match
shown_test = λ e. cc e

limit_records_head_tail-fits_example :
    ((limit_records_head_tail {A = ℕ} length (1 ∷ 2 ∷ 3 ∷ 4 ∷ 5 ∷ []) 4 2).records ≡ []
      ⊎ (length (limit_records_head_tail {A = ℕ} length (1 ∷ 2 ∷ 3 ∷ 4 ∷ 5 ∷ []) 4 2).records ≤ 2))
    × (length (limit_records_head_tail {A = ℕ} length (1 ∷ 2 ∷ 3 ∷ 4 ∷ 5 ∷ []) 4 2).records ≤ 4)
    × (length (limit_records_head_tail {A = ℕ} length (1 ∷ 2 ∷ 3 ∷ 4 ∷ 5 ∷ []) 4 2).records
          + (limit_records_head_tail {A = ℕ} length (1 ∷ 2 ∷ 3 ∷ 4 ∷ 5 ∷ []) 4 2).omitted
        ≡ 5)
limit_records_head_tail-fits_example =
    limit_records_head_tail-fits {A = ℕ} length 2 (1 ∷ 2 ∷ 3 ∷ 4 ∷ 5 ∷ []) 4

limited_test :
    (limit_records_head_tail {A = ℕ} length (1 ∷ 2 ∷ 3 ∷ 4 ∷ 5 ∷ []) 4 2).records ≡ 1 ∷ 5 ∷ []
unfolding limit_records_head_tail
limited_test = refl

abbrev edit : PatchEdit
edit = record { old_text = units "ab"; new_text = units "c"; replace_all = true }

apply_edit-Pieces_example : Pieces edit (units "xabab") (units "xcc") 2
unfolding apply_edit units text_eq
apply_edit-Pieces_example =
    apply_edit-Pieces 97 (98 ∷ []) edit (units "xabab") (units "xcc") 2 refl refl

-- Matches that overlap count once, so that an ambiguous edit is applied at the first of them.
overlap_test :
    apply_edit
      (record { old_text = units "aa"; new_text = units "b"; replace_all = false })
      (units "aaa")
    ≡ ok (units "ba", 1)
unfolding apply_edit units text_eq
overlap_test = refl

validate_relative_path-IsSafe_example : All (IsSafe (λ t. t)) (units "src" ∷ units "a.ts" ∷ [])
unfolding validate_relative_path units text_eq mem_text test
validate_relative_path-IsSafe_example =
    validate_relative_path-IsSafe (λ t. t) (units "src/./a.ts") false
      (units "src" ∷ units "a.ts" ∷ []) refl

abbrev before_text : Text
before_text = units "a\nb\nc\n"

abbrev after_text : Text
after_text = units "a\nd\ne\nc\n"

create_diff-parts_example :
    (front : List Text) × (removed : List Text) × (added : List Text) × (back : List Text)
    × (diff_lines before_text ≡ front ++ (removed ++ back))
    × (diff_lines after_text ≡ front ++ (added ++ back))
    × ((create_diff before_text after_text (units "f") 200).deletions ≡ length removed)
    × ((create_diff before_text after_text (units "f") 200).additions ≡ length added)
    × (length (create_diff before_text after_text (units "f") 200).diff ≤ 200)
unfolding units text_eq
create_diff-parts_example = create_diff-parts before_text after_text (units "f") 200 refl

diff_test :
    (create_diff before_text after_text (units "f") 200).diff
    ≡ units "--- a/f\n+++ b/f\n@@ -1,3 +1,4 @@\n a\n-b\n+d\n+e\n c\n"
unfolding create_diff units text_eq truncate_head_tail decimal
diff_test = refl

-- A world with a directory `/w` and one file in it, `/w/a`, with its text.
abbrev root : Text
root = 47 ∷ 119 ∷ []

abbrev file : Text
file = 47 ∷ 119 ∷ 47 ∷ 97 ∷ []

abbrev present : {A : Type 0} → A → Bool → Answer A
present a true = found a
present a false = missing

abbrev joined : Text → List Text → Text
joined root [] = root
joined root (s ∷ segments) = joined (root ++ (47 ∷ s)) segments

abbrev one_file : FileSystem Text
one_file = record {
  lstat = λ path w. (present tt (text_eq path root || text_eq path file), w);
  stat = λ path w. (
    present
        (record { is_file = text_eq path file; is_directory = text_eq path root; size = length w })
        (text_eq path root || text_eq path file),
    w,
  );
  realpath = λ path w. (present path (text_eq path root || text_eq path file), w);
  read_file = λ path w. (present w (text_eq path file), w);
  write_file = λ path text w. (ok tt, text);
  aborted = λ w. false;
  decode = some;
  byte_length = length;
  resolve = λ path. path;
  join = joined;
  dirname = λ path. root;
  basename = λ path. drop 3 path;
  relative = λ from path. drop 3 path;
  path_is_absolute = is_absolute;
  sep = 47 ∷ [];
  upper = λ t. t;
  lower = λ t. t;
  comparable = λ path. path;
}

abbrev placed : ResolvedWorkspacePath
placed = record { root_path = root; relative_path = 97 ∷ []; absolute_path = file; exists = true }

resolve_workspace_path-IsPlaced_example :
    IsPlaced one_file root (97 ∷ []) (write_options true) before_text placed before_text
unfolding resolve_workspace_path units text_eq mem_text starts_with validate_relative_path test
    is_git_path is_inside
resolve_workspace_path-IsPlaced_example =
    resolve_workspace_path-IsPlaced one_file root (97 ∷ []) (write_options true) before_text placed
      before_text refl

abbrev outcome : WriteOutcome
outcome = record {
  path = 97 ∷ [];
  created = false;
  bytes_written = 8;
  previous_bytes = 6;
  diff = create_diff before_text after_text (97 ∷ []) 200;
}

write_workspace_text-IsChecked_example :
    IsChecked one_file root
      (97 ∷ [])
      after_text
      200
      (some before_text)
      before_text
      outcome
      after_text
unfolding write_workspace_text units text_eq mem_text starts_with resolve_workspace_path
    validate_relative_path test is_git_path is_inside
write_workspace_text-IsChecked_example =
    write_workspace_text-IsChecked one_file root (97 ∷ []) after_text 200 (some before_text) outcome
      before_text after_text refl

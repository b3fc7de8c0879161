-- ===== src/Tools/Files/Tools.antt =====
-- tools/files/apply-patch.ts, write-file.ts and read-file.ts: `execute` of the three tools.
use echocoding_harness.Common.{
  ℕ, ◌-◌, min, Bool, true, false, ◌&&◌, ltb, ◌==◌, Option, none, some, List, [], ◌∷◌, ◌++◌, length,
  take, drop, if◌then◌else◌, Text, units, decimal,
}
use echocoding_harness.Contracts.Value.{Value, boolean, number, string, object, Fields, end, field}
use echocoding_harness.Contracts.Error.{invalid_tool_input}
use echocoding_harness.Agent.Interface.{Execution, completed}
use echocoding_harness.Tools.Files.Errors.{Result, ok, fail, error, invalid_input, failed_execution}
use echocoding_harness.Tools.Files.Validation.{
  get, assert_input_object, assert_only_keys, required_string, optional_integer,
}
use echocoding_harness.Tools.Files.Text.{TruncatedText, split_text_lines, truncate_head_tail}
use echocoding_harness.Tools.Files.Edits.{PatchEdit, apply_edits}
use echocoding_harness.Tools.Files.Edits.Parse.{parse_edits}
use echocoding_harness.Tools.Files.Resolve.{
  FileSystem, ResolveOptions, Action, ◌>>=◌, pure, raise, resolve_workspace_path,
}
use echocoding_harness.Tools.Files.Writing.{
  TextFile, WriteOutcome, check_signal, read_text_file, write_workspace_text,
}

abbrev count_field : Text → ℕ → Fields → Fields
count_field key n rest = field key (number (decimal n)) rest

-- The `catch` of the tools.
abbrev pub settle : {W : Type 0} → Text → Result Execution × W → Execution × W
settle operation (ok e, w) = (e, w)
settle operation (fail e, w) = (failed_execution e operation, w)

abbrev pub existing_file : (write : Bool) → ResolveOptions
existing_file write = record { allow_root = false; must_exist = true; write = write }

module _ {W : Type 0} (fs : FileSystem W) where
  abbrev apply_to : Bool → List PatchEdit → Text → Action W (Text × ℕ)
  apply_to aborted edits content = raise (apply_edits aborted edits content 0)

  abbrev patched : List PatchEdit → ℕ → WriteOutcome → Execution
  patched edits replacements outcome =
      completed
        (units "Applied "
          ++ (decimal (length edits)
              ++ (units " edits ("
                  ++ (decimal replacements
                      ++ (units " replacements) to " ++ (outcome.path ++ units "."))))))
        (object true (
          field (units "path") (string outcome.path) (
            count_field (units "appliedEdits") (length edits) (
              count_field (units "replacements") replacements (
                count_field (units "bytesWritten") outcome.bytes_written (
                  count_field (units "additions") outcome.diff.additions (
                    count_field (units "deletions") outcome.diff.deletions (
                      field (units "diff") (string outcome.diff.diff) (
                        count_field (units "omittedDiffChars") outcome.diff.omitted_chars
                          end)))))))))
        outcome.diff.truncated

  unfoldable pub run_patch : Text → ℕ → Value → Action W Execution
  unfolding parse_edits read_text_file write_workspace_text assert_input_object assert_only_keys
      required_string units
  run_patch root limit input = do
    _ ← check_signal fs
    fields ← raise (assert_input_object input)
    _ ← raise (assert_only_keys fields (units "path" ∷ units "edits" ∷ []))
    requested ← raise (required_string fields (units "path") false)
    edits ← raise (parse_edits (get (units "edits") fields))
    resolved ← resolve_workspace_path fs root requested (existing_file true)
    file ← read_text_file fs resolved.absolute_path
    (next, replacements) ← (λ w. apply_to (fs.aborted w) edits file.content w)
    outcome ← write_workspace_text fs root requested next limit (some file.content)
    pure (patched edits replacements outcome)

  unfoldable pub apply_patch : Text → ℕ → Value → W → Execution × W
  unfolding run_patch units
  apply_patch root limit input w = settle (units "Apply patch") (run_patch root limit input w)

  abbrev written_summary : WriteOutcome → Text
  written_summary outcome =
      if outcome.created
      then units "Created "
        ++ (outcome.path ++ (units " (" ++ (decimal outcome.bytes_written ++ units " bytes).")))
      else units "Updated "
        ++ (outcome.path
            ++ (units " ("
                ++ (decimal outcome.diff.additions
                    ++ (units " additions, "
                        ++ (decimal outcome.diff.deletions ++ units " deletions).")))))

  abbrev written : WriteOutcome → Execution
  written outcome =
      completed (written_summary outcome)
        (object true (
          field (units "path") (string outcome.path) (
            field (units "created") (boolean outcome.created) (
              count_field (units "bytesWritten") outcome.bytes_written (
                count_field (units "previousBytes") outcome.previous_bytes (
                  count_field (units "additions") outcome.diff.additions (
                    count_field (units "deletions") outcome.diff.deletions (
                      field (units "diff") (string outcome.diff.diff) (
                        count_field (units "omittedDiffChars") outcome.diff.omitted_chars
                          end)))))))))
        outcome.diff.truncated

  unfoldable pub run_write : Text → ℕ → Value → Action W Execution
  unfolding write_workspace_text assert_input_object assert_only_keys required_string units
  run_write root limit input = do
    _ ← check_signal fs
    fields ← raise (assert_input_object input)
    _ ← raise (assert_only_keys fields (units "path" ∷ units "content" ∷ []))
    requested ← raise (required_string fields (units "path") false)
    content ← raise (required_string fields (units "content") true)
    outcome ← write_workspace_text fs root requested content limit none
    pure (written outcome)

  unfoldable pub write_file : Text → ℕ → Value → W → Execution × W
  unfolding run_write units
  write_file root limit input w = settle (units "Write file") (run_write root limit input w)

  -- The lines from the first that is asked for to the last.
  abbrev last_line : ℕ → Option ℕ → ℕ
  last_line total none = total
  last_line total (some asked) = min asked total

  abbrev or_one : Option ℕ → ℕ
  or_one none = 1
  or_one (some n) = n

  abbrev concat : List Text → Text
  concat [] = []
  concat (l ∷ ls) = l ++ concat ls

  abbrev is_before : Option ℕ → ℕ → Bool
  is_before none start = false
  is_before (some last) start = ltb last start

  abbrev check_range : Option ℕ → ℕ → Action W (Unit {0})
  check_range last start = raise (
      if is_before last start
      then invalid_input
          (units "Input field \"endLine\" must be greater than or equal to \"startLine\".")
      else ok tt)

  abbrev check_start : ℕ → ℕ → Action W (Unit {0})
  check_start start total = raise (
      if ltb 0 total && ltb total start
      then error invalid_tool_input (units "LINE_RANGE_OUTSIDE_FILE")
          (units "The requested starting line is beyond the end of the file.")
      else ok tt)

  abbrev shown_start : ℕ → ℕ → ℕ
  shown_start start total = if total == 0 then 0 else start

  abbrev read_summary : Bool → Text → ℕ → ℕ → ℕ → Text
  read_summary truncated path start last total =
      if truncated
      then units "Read lines "
        ++ (decimal start
            ++ (units "-"
                ++ (decimal last ++ (units " from " ++ (path ++ units " with truncation.")))))
      else units "Read lines "
        ++ (decimal (shown_start start total)
            ++ (units "-" ++ (decimal last ++ (units " from " ++ (path ++ units ".")))))

  abbrev read_result : Text → TextFile → ℕ → ℕ → ℕ → TruncatedText → Execution
  read_result path file start last total bounded =
      completed (read_summary bounded.truncated path start last total)
        (object true (
          field (units "path") (string path) (
            field (units "content") (string bounded.content) (
              count_field (units "sizeBytes") file.size_bytes (
                count_field (units "totalLines") total (
                  count_field (units "startLine") (shown_start start total) (
                    count_field (units "endLine") last
                      (count_field (units "omittedChars") bounded.omitted_chars end))))))))
        bounded.truncated

  abbrev max_safe_integer : ℕ
  max_safe_integer = 9007199254740991

  abbrev selected : List Text → ℕ → ℕ → Text
  selected lines start last = concat (drop (start - 1) (take last lines))

  unfoldable pub run_read : Text → ℕ → Value → Action W Execution
  unfolding read_text_file assert_input_object assert_only_keys required_string optional_integer
      split_text_lines truncate_head_tail units
  run_read root limit input = do
    _ ← check_signal fs
    fields ← raise (assert_input_object input)
    _ ← raise (assert_only_keys fields (units "path" ∷ units "startLine" ∷ units "endLine" ∷ []))
    requested ← raise (required_string fields (units "path") false)
    first ← raise (optional_integer fields (units "startLine") 1 max_safe_integer)
    last ← raise (optional_integer fields (units "endLine") 1 max_safe_integer)
    _ ← check_range last (or_one first)
    resolved ← resolve_workspace_path fs root requested (existing_file false)
    file ← read_text_file fs resolved.absolute_path
    let lines : List Text = split_text_lines file.content
    let total : ℕ = length lines
    _ ← check_start (or_one first) total
    let end_line : ℕ = last_line total last
    pure (
        read_result resolved.relative_path file (or_one first) end_line total
          (truncate_head_tail (selected lines (or_one first) end_line) limit))

  unfoldable pub read_file : Text → ℕ → Value → W → Execution × W
  unfolding run_read units
  read_file root limit input w = settle (units "Read file") (run_read root limit input w)

-- ===== src/Tools/Files/Writing.antt =====
-- tools/files/text.ts, write-core.ts, write-file.ts, apply-patch.ts and read-file.ts: the tools that
-- read and write one file. What a tool returns is its summary, the content or the diff, and the flag;
-- the other data are the arguments and counts that the summary tells.
pub mod Checked
use echocoding_harness.Common.{
  ℕ, Bool, true, false, not, ◌&&◌, ltb, Option, none, some, List, [], length, if◌then◌else◌, Text,
  units, text_eq,
}
use echocoding_harness.Contracts.Error.{invalid_tool_input, tool_execution}
use echocoding_harness.Tools.Files.Errors.{tool, ok, error, violation, assert_not_aborted}
use echocoding_harness.Tools.Files.Text.{is_binary}
use echocoding_harness.Tools.Files.Diff.{DiffResult, create_diff}
use echocoding_harness.Tools.Files.Segments.{includes}
use echocoding_harness.Tools.Files.Resolve.{
  FileSystem, ResolvedWorkspacePath, ResolveOptions, Action, ◌>>=◌, pure, raise, answer, rethrow,
  resolve_workspace_path,
}

pub record TextFile : Type 0 where
  pub content : Text
  pub size_bytes : ℕ

abbrev pub max_text_file_bytes : ℕ
max_text_file_bytes = 16777216

pub record WriteOutcome : Type 0 where
  pub path : Text
  pub created : Bool
  pub bytes_written : ℕ
  pub previous_bytes : ℕ
  pub diff : DiffResult

abbrev binary : {W A : Type 0} → Text → Action W A
binary message = raise (error tool_execution (units "BINARY_FILE") message)

abbrev pub write_options : Bool → ResolveOptions
write_options must_exist = record { allow_root = false; must_exist = must_exist; write = true }

module _ {W : Type 0} (fs : FileSystem W) where
  abbrev pub check_signal : Action W (Unit {0})
  check_signal w = (assert_not_aborted (fs.aborted w), w)

  abbrev decoded : List ℕ → Option Text → Action W TextFile
  decoded bytes none = binary (units "The file is not valid UTF-8 text.")
  decoded bytes (some text) = pure (record { content = text; size_bytes = length bytes })

  unfoldable pub read_text_file : Text → Action W TextFile
  unfolding is_binary units
  read_text_file path = do
    _ ← check_signal
    answer (fs.stat path)
        (λ stats.
          if not stats.is_file
          then raise (
              error tool_execution (units "PATH_NOT_FILE")
                (units "The requested workspace path is not a regular file."))
          else if ltb max_text_file_bytes stats.size
          then raise (
              error tool_execution (units "FILE_TOO_LARGE")
                (units "The requested file is too large for a text file tool."))
          else answer (fs.read_file path)
              (λ bytes.
                if is_binary bytes
                then binary (units "Binary files are not supported by text file tools.")
                else decoded bytes (fs.decode bytes))
              rethrow rethrow)
        rethrow rethrow

  abbrev pub previous_file : ResolvedWorkspacePath → Action W TextFile
  previous_file initial =
      if initial.exists
      then read_text_file initial.absolute_path
      else pure (record { content = []; size_bytes = 0 })

  abbrev pub changed_since : Option Text → Text → Bool
  changed_since none content = false
  changed_since (some expected) content = not (text_eq content expected)

  abbrev pub check_expected : Option Text → Text → Action W (Unit {0})
  check_expected expected content = raise (
      if changed_since expected content
      then error tool_execution (units "FILE_CHANGED_DURING_PATCH")
          (units "The file changed while the patch was being prepared; no patch was written.")
      else ok tt)

  abbrev pub same_flag : Bool → Bool → Bool
  same_flag true b = b
  same_flag false b = not b

  -- `assertPathUnchanged`
  abbrev pub is_unchanged : ResolvedWorkspacePath → ResolvedWorkspacePath → Bool
  is_unchanged initial again =
      same_flag initial.exists again.exists
      && text_eq (fs.comparable initial.absolute_path) (fs.comparable again.absolute_path)

  unfoldable pub assert_path_unchanged :
      ResolvedWorkspacePath → ResolvedWorkspacePath → Action W (Unit {0})
  unfolding units
  assert_path_unchanged initial again = raise (
      if is_unchanged initial again
      then ok tt
      else violation (units "PATH_CHANGED_DURING_OPERATION") (
          units
            "The target path changed while the file operation was being prepared. Retry the operation."))

  abbrev pub write_at : Text → ResolvedWorkspacePath → WriteOutcome → Action W WriteOutcome
  write_at content again outcome = do _ ← fs.write_file again.absolute_path content; pure outcome

  -- The last step: the write itself.
  unfoldable pub perform_write :
      Text
      → ResolvedWorkspacePath
      → ResolvedWorkspacePath
      → TextFile
      → DiffResult
      → Action W WriteOutcome
  unfolding assert_path_unchanged
  perform_write content initial again previous diff = do
    _ ← assert_path_unchanged initial again
    write_at content again (record {
      path = initial.relative_path;
      created = not initial.exists;
      bytes_written = fs.byte_length content;
      previous_bytes = previous.size_bytes;
      diff = diff;
    })

  abbrev pub check_content : Text → Action W (Unit {0})
  check_content content = raise (
      if includes 0 content
      then error invalid_tool_input (units "BINARY_CONTENT_DENIED")
          (units "Text file tools cannot write content containing null bytes.")
      else ok tt)

  unfoldable pub write_workspace_text :
      (root requested content : Text)
      → (limit : ℕ) → (expected : Option Text) → Action W WriteOutcome
  unfolding read_text_file perform_write includes units
  write_workspace_text root requested content limit expected = do
    _ ← check_content content
    initial ← resolve_workspace_path fs root requested (write_options false)
    previous ← previous_file initial
    _ ← check_expected expected previous.content
    _ ← check_signal
    again ← resolve_workspace_path fs root requested (write_options initial.exists)
    perform_write content initial again previous
        (create_diff previous.content content initial.relative_path limit)

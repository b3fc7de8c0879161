-- ===== src/Tools/Files/Resolve.antt =====
-- tools/files/path-safety.ts: `resolveWorkspacePath`, over a file system on a world that every call may
-- change. What the file system answers is a value, nothing where it says ENOENT, or another error.
pub mod Returned
pub mod Inside
use echocoding_harness.Common.{
  ℕ, Bool, true, false, not, ◌||◌, Option, List, [], ◌∷◌, ◌++◌, if◌then◌else◌, Text, units, text_eq,
  starts_with,
}
use echocoding_harness.Contracts.Error.{configuration, tool_execution}
use echocoding_harness.Tools.Files.Errors.{other, Result, ok, fail, error, violation}
use echocoding_harness.Tools.Files.Segments.{validate_relative_path, is_git_path, segments_from}

pub data Answer {ℓ} (A : Type ℓ) : Type ℓ where
  found : A → Answer A
  missing broken : Answer A

pub record Stats : Type 0 where
  pub is_file : Bool
  pub is_directory : Bool
  pub size : ℕ

pub record FileSystem (W : Type 0) : Type 1 where
  pub lstat : Text → W → Answer (Unit {0}) × W
  pub stat : Text → W → Answer Stats × W
  pub realpath : Text → W → Answer Text × W
  pub read_file : Text → W → Answer (List ℕ) × W
  pub write_file : Text → Text → W → Result (Unit {0}) × W
  pub aborted : W → Bool
  -- `new TextDecoder('utf-8', { fatal: true })`, `Buffer.byteLength`
  pub decode : List ℕ → Option Text
  pub byte_length : Text → ℕ
  -- the functions of node:path, `path.resolve` of one path and `path.join` of a path and segments
  pub resolve : Text → Text
  pub join : Text → List Text → Text
  pub dirname : Text → Text
  pub basename : Text → Text
  pub relative : (root candidate : Text) → Text
  pub path_is_absolute : Text → Bool
  pub sep : Text
  pub upper : Text → Text
  pub lower : Text → Text
  -- `normalizeComparisonPath`
  pub comparable : Text → Text

pub record ResolvedWorkspacePath : Type 0 where
  pub root_path : Text
  pub relative_path : Text
  pub absolute_path : Text
  pub exists : Bool

pub record ResolveOptions : Type 0 where
  pub allow_root : Bool
  pub must_exist : Bool
  pub write : Bool

abbrev pub Action : Type 0 → Type 0 → Type 0
Action W A = W → Result A × W

abbrev pub then_run : {W A B : Type 0} → (A → Action W B) → Result A × W → Result B × W
then_run f (ok a, w) = f a w
then_run f (fail e, w) = (fail e, w)

infixl 5 ◌>>=◌
abbrev pub ◌>>=◌ : {W A B : Type 0} → Action W A → (A → Action W B) → Action W B
m >>= f = λ w. then_run f (m w)

abbrev pub pure : {W A : Type 0} → A → Action W A
pure a w = (ok a, w)

abbrev pub raise : {W A : Type 0} → Result A → Action W A
raise r w = (r, w)

abbrev pub answered :
    {W A B : Type 0}
    → (A → Action W B)
    → (on_missing on_broken : Action W B) → Answer A × W
    → Result B × W
answered f m b (found a, w) = f a w
answered f m b (missing, w) = m w
answered f m b (broken, w) = b w

-- A call of the file system, with what each answer leads to.
abbrev pub answer :
    {W A B : Type 0}
    → (W → Answer A × W)
    → (A → Action W B)
    → (on_missing on_broken : Action W B) → Action W B
answer call on_found on_missing on_broken w = answered on_found on_missing on_broken (call w)

abbrev pub not_found : {W A : Type 0} → Action W A
not_found = raise (
    error tool_execution (units "PATH_NOT_FOUND")
      (units "The requested workspace path does not exist."))

abbrev pub link_unavailable : {W A : Type 0} → Action W A
link_unavailable = raise (
    violation (units "LINK_TARGET_UNAVAILABLE") (
      units "The requested path contains a symbolic link or junction whose target is unavailable."))

-- An error of the file system that no handler takes.
abbrev pub rethrow : {W A : Type 0} → Action W A
rethrow = raise (fail other)

-- `split(/[\\/]+/u)`; what the empty segments would add is not `.git`.
abbrev pub segments_of : Text → List Text
segments_of path = segments_from [] path

module _ {W : Type 0} (fs : FileSystem W) where
  open fs use {
    lstat, stat, realpath, resolve, join, dirname, basename, relative, path_is_absolute, sep, upper,
    lower,
  }

  unfoldable pub is_inside : Text → Text → Bool
  unfolding units
  is_inside root candidate = not (
      text_eq (relative root candidate) (units "..")
      || starts_with (units ".." ++ sep) (relative root candidate)
      || path_is_absolute (relative root candidate))

  unfoldable pub ensure_inside_workspace : (link : Bool) → Text → Text → Action W (Unit {0})
  unfolding units
  ensure_inside_workspace link root candidate = raise (
      if is_inside root candidate
      then ok tt
      else if link
      then violation (units "LINK_OUTSIDE_WORKSPACE")
          (units "A symbolic link or directory junction points outside the workspace.")
      else violation (units "PATH_OUTSIDE_WORKSPACE")
          (units "The requested path is outside the workspace."))

  abbrev root_invalid : {A : Type 0} → Text → Action W A
  root_invalid message = raise (error configuration (units "WORKSPACE_ROOT_INVALID") message)

  abbrev inaccessible : {A : Type 0} → Action W A
  inaccessible =
      root_invalid (units "The configured workspace root does not exist or cannot be accessed.")

  unfoldable pub resolve_workspace_root : Text → Action W Text
  unfolding units
  resolve_workspace_root root =
      if text_eq root []
      then root_invalid (units "The workspace root is not configured.")
      else answer (realpath (resolve root))
          (λ path.
            answer (stat path)
              (λ stats.
                if stats.is_directory
                then pure path
                else root_invalid (units "The configured workspace root is not a directory."))
              inaccessible inaccessible)
          inaccessible inaccessible

  unfoldable pub assert_git_write_allowed : List Text → Action W (Unit {0})
  unfolding units
  assert_git_write_allowed segments = raise (
      if is_git_path lower segments
      then violation (units "GIT_WRITE_DENIED") (units "File tools cannot write inside .git.")
      else ok tt)

  -- `assertCanonicalGitWriteAllowed`, where the path is to be written.
  unfoldable pub check_canonical : Bool → Text → Text → Action W (Unit {0})
  check_canonical write root target =
      if write then assert_git_write_allowed (segments_of (relative root target)) else pure tt

  abbrev pub target : ResolveOptions → Text → Text → Text → Bool → Action W ResolvedWorkspacePath
  target options root path absolute exists = do
    _ ← check_canonical options.write root absolute
    pure (record {
      root_path = root;
      relative_path = path;
      absolute_path = absolute;
      exists = exists;
    })

  -- The path exists: where its links lead is in the workspace.
  unfoldable pub resolve_existing :
      ResolveOptions → Text → Text → Text → Action W ResolvedWorkspacePath
  unfolding ensure_inside_workspace check_canonical units
  resolve_existing options root path lexical =
      answer (realpath lexical)
        (λ real. do _ ← ensure_inside_workspace true root real; target options root path real true)
        link_unavailable rethrow

  abbrev pub parent_directory :
      Text → Text → Text → ResolvedWorkspacePath → Action W ResolvedWorkspacePath
  parent_directory root path parent resolved =
      answer (stat parent)
        (λ stats.
          if stats.is_directory
          then pure resolved
          else raise (
              error tool_execution (units "PARENT_NOT_DIRECTORY")
                (units "The parent of the requested workspace path is not a directory.")))
        rethrow rethrow

  -- The path does not exist: its parent does, and is in the workspace.
  unfoldable pub resolve_new : ResolveOptions → Text → Text → Text → Action W ResolvedWorkspacePath
  unfolding ensure_inside_workspace check_canonical units
  resolve_new options root path lexical =
      answer (realpath (dirname lexical))
        (λ parent. do
          _ ← ensure_inside_workspace true root parent
          resolved ← target options root path (join parent (basename lexical ∷ [])) false
          parent_directory root path parent resolved)
        (answer (lstat (dirname lexical)) (λ _. link_unavailable)
          (raise (
            error tool_execution (units "PARENT_NOT_FOUND")
              (units "The parent directory for the requested workspace path does not exist.")))
          rethrow)
        rethrow

  abbrev pub join_segments : List Text → Text
  join_segments [] = []
  join_segments (s ∷ []) = s
  join_segments (s ∷ t ∷ ts) = s ++ (47 ∷ join_segments (t ∷ ts))

  abbrev pub check_requested : Bool → List Text → Action W (Unit {0})
  check_requested write segments = if write then assert_git_write_allowed segments else pure tt

  -- What follows once the segments have passed.
  unfoldable pub resolve_segments :
      ResolveOptions → Text → List Text → Action W ResolvedWorkspacePath
  unfolding resolve_existing resolve_new assert_git_write_allowed ensure_inside_workspace units
  resolve_segments options root segments = do
    _ ← check_requested options.write segments
    _ ← ensure_inside_workspace false root (join root segments)
    answer (lstat (join root segments))
        (λ _. resolve_existing options root (join_segments segments) (join root segments))
        (if options.must_exist
          then not_found
          else resolve_new options root (join_segments segments) (join root segments))
        rethrow

  unfoldable pub resolve_workspace_path :
      Text → Text → ResolveOptions → Action W ResolvedWorkspacePath
  unfolding resolve_segments resolve_workspace_root
  resolve_workspace_path root input options = do
    root_path ← resolve_workspace_root root
    segments ← raise (validate_relative_path upper input options.allow_root)
    resolve_segments options root_path segments

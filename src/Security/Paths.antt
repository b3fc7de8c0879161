-- ===== src/Security/Paths.antt =====
-- security/central-safety-policy.ts: the paths that an input declares and those in a command.
-- `path.win32.resolve` and `toLocaleLowerCase` are parameters.
use echocoding_harness.Common.{
  starts_with, ℕ, Bool, true, false, not, ◌&&◌, ◌||◌, ◌==◌, Option, none, some, List, [], ◌∷◌, ◌++◌,
  if◌then◌else◌, Text, units, text_eq, mem_text,
}
use echocoding_harness.Common.Regex.{test, captures}
use echocoding_harness.Contracts.Value.{
  Value, string, array, object, Items, nil, cons, Fields, end, field, accessor,
}
use echocoding_harness.Security.Patterns.Paths.{
  unc_or_device_path, git_path, quoted_path, drive_path, parent_path, device_path,
  environment_variable, home_variable, environment_drive, folder_path_call, tilde_path,
  short_name_path, drive_relative,
}

-- What the policy takes from its platform.
pub record Platform : Type 0 where
  -- `path.win32.resolve(root, candidate)`; `path.win32.resolve(root)` is `resolve root []`
  pub resolve : (root candidate : Text) → Text
  pub lower : Text → Text
  -- the first 24 hexadecimal digits of the SHA-256 digest
  pub digest : Text → Text
  -- `redactText` with this workspace root
  pub redact : (text root : Text) → Text

pub record Violation : Type 0 where
  pub reason : Text
  pub rule : Text

-- `trimTrailingPathSeparators`: the loop from the end, as a recursion that keeps what is before.
abbrev keep_separator : ℕ → Text → Text
keep_separator c [] = if c == 47 || c == 92 then [] else c ∷ []
keep_separator c (d ∷ t) = c ∷ d ∷ t

unfoldable pub trim_trailing_path_separators : Text → Text
trim_trailing_path_separators [] = []
trim_trailing_path_separators (c ∷ t) = keep_separator c (trim_trailing_path_separators t)

abbrev pub is_record : Value → Bool
is_record (object _ _) = true
is_record _ = false

unfoldable pub string_items : Items → List Text
string_items nil = []
string_items (cons (string t) items) = t ∷ string_items items
string_items (cons _ items) = string_items items

abbrev pub paths_of : Value → List Text
paths_of (string t) = t ∷ []
paths_of (array items) = string_items items
paths_of _ = []

abbrev pub path_keys : List Text
path_keys =
    units "directory"
    ∷ units "directories"
    ∷ units "file"
    ∷ units "files"
    ∷ units "path"
    ∷ units "paths"
    ∷ units "target"
    ∷ []

module _ (p : Platform) where
  unfoldable pub normalized_root : Text → Text
  unfolding trim_trailing_path_separators
  normalized_root root = p.lower (trim_trailing_path_separators (p.resolve root []))

  unfoldable pub is_inside_workspace : Text → Text → Bool
  unfolding starts_with
  is_inside_workspace candidate root =
      let resolved = p.lower (p.resolve root candidate) in
      text_eq resolved (normalized_root root)
      || starts_with (normalized_root root ++ 92 ∷ []) resolved

  abbrev declared : Text → Value → List Text → List Text
  declared key v rest = if mem_text (p.lower key) path_keys then paths_of v ++ rest else rest

  unfoldable pub paths_in_fields : Fields → List Text
  unfolding string_items units
  paths_in_fields end = []
  paths_in_fields (field k v fs) = declared k v (paths_in_fields fs)
  paths_in_fields (accessor k v fs) = declared k v (paths_in_fields fs)

  unfoldable pub collect_declared_paths : Value → List Text
  collect_declared_paths (object _ fields) = paths_in_fields fields
  collect_declared_paths _ = []

  -- One round of the loop: the violation of one candidate.
  unfoldable pub candidate_violation : Text → Text → Bool → Option Violation
  unfolding unc_or_device_path git_path units
  candidate_violation candidate root deny_git =
      if test false unc_or_device_path candidate
      then some (record {
        reason = units "UNC and device paths are outside the supported workspace boundary.";
        rule = units "policy.path.unc_or_device";
      })
      else if not (is_inside_workspace candidate root)
      then some (record {
        reason = units "The normalized target escapes the fixed workspace root.";
        rule = units "policy.path.workspace_escape";
      })
      else if deny_git && test true git_path candidate
      then some (record {
        reason = units "Writing Git internal data is forbidden.";
        rule = units "policy.path.git_internal";
      })
      else none

  abbrev or_else : Option Violation → Option Violation → Option Violation
  or_else (some v) rest = some v
  or_else none rest = rest

  unfoldable pub first_violation : List Text → Text → Bool → Option Violation
  first_violation [] root deny_git = none
  first_violation (c ∷ cs) root deny_git =
      or_else (candidate_violation c root deny_git) (first_violation cs root deny_git)

  unfoldable pub declared_path_violation : Value → Text → Bool → Option Violation
  declared_path_violation input root deny_git =
      first_violation (collect_declared_paths input) root deny_git

  -- `match[1].replace(/["']$/u, '')`
  unfoldable pub trim_quote : Text → Text
  trim_quote [] = []
  trim_quote (c ∷ []) = if c == 34 || c == 39 then [] else c ∷ []
  trim_quote (c ∷ d ∷ t) = c ∷ trim_quote (d ∷ t)

  abbrev map_text : (Text → Text) → List Text → List Text
  map_text f [] = []
  map_text f (t ∷ ts) = f t ∷ map_text f ts

  unfoldable pub extract_command_paths : Text → List Text
  unfolding quoted_path drive_path parent_path trim_quote
  extract_command_paths command =
      captures false quoted_path command
      ++ (map_text trim_quote (captures false drive_path command)
          ++ captures false parent_path command)

  -- The loop over the paths of a command.
  unfoldable pub outside_path : List Text → Text → Option Text
  unfolding drive_relative units
  outside_path [] root = none
  outside_path (c ∷ cs) root =
      let rest = outside_path cs root in
      if test false drive_relative c
      then some (units "Drive-relative paths cannot prove workspace containment.")
      else if starts_with (92 ∷ 92 ∷ []) c || not (is_inside_workspace c root)
      then some (units "The command references a path outside the fixed workspace root.")
      else rest

  unfoldable pub is_dynamic : Text → Bool
  unfolding environment_variable home_variable environment_drive folder_path_call tilde_path
  is_dynamic command =
      test true environment_variable command
      || test true home_variable command
      || test true environment_drive command
      || test true folder_path_call command
      || test false tilde_path command

  unfoldable pub command_boundary_violation : Text → Text → Option Text
  unfolding device_path short_name_path units
  command_boundary_violation command root =
      if test false device_path command
      then some (units "PowerShell device paths are forbidden.")
      else if is_dynamic command
      then some (units "Dynamic environment and home paths cannot prove workspace containment.")
      else if test false short_name_path command
      then some (units "DOS short-name paths cannot prove workspace containment.")
      else outside_path (extract_command_paths command) root

-- ===== src/Tools/Files/Segments.antt =====
-- tools/files/path-safety.ts: the checks on a path before the file system is asked. `toLocaleUpperCase`
-- and `toLocaleLowerCase` are parameters.
pub mod Safe
use echocoding_harness.Common.{
  ℕ, Bool, true, false, not, ◌&&◌, ◌||◌, leb, ◌==◌, any, List, [], ◌∷◌, ◌++◌, if◌then◌else◌, Text,
  units, text_eq, mem_text,
}
use echocoding_harness.Common.Regex.{
  Re, between, set, start, finish, lit, words, choice, ◌··◌, test,
}
use echocoding_harness.Tools.Files.Errors.{Result, ok, violation}

unfoldable pub device_name : Re
unfolding lit words choice
device_name =
    start
    ·· choice (
        words ("CON" ∷ "PRN" ∷ "AUX" ∷ "NUL" ∷ [])
        ∷ (lit "COM" ·· set false (between b'1' b'9' ∷ []))
        ∷ (lit "LPT" ·· set false (between b'1' b'9' ∷ []))
        ∷ words ("CONIN$" ∷ "CONOUT$" ∷ [])
        ∷ [])
    ·· finish

-- `trimWindowsPathSuffix`
abbrev is_suffix : ℕ → Bool
is_suffix c = c == 32 || c == 46

abbrev keep_suffix : ℕ → Text → Text
keep_suffix c [] = if is_suffix c then [] else c ∷ []
keep_suffix c (d ∷ t) = c ∷ d ∷ t

unfoldable pub trim_windows_path_suffix : Text → Text
trim_windows_path_suffix [] = []
trim_windows_path_suffix (c ∷ t) = keep_suffix c (trim_windows_path_suffix t)

-- `split('.')[0]`
unfoldable pub before_dot : Text → Text
before_dot [] = []
before_dot (c ∷ t) = let rest = before_dot t in if c == 46 then [] else c ∷ rest

-- `path.posix.isAbsolute`, `path.win32.isAbsolute` and the test for a drive.
abbrev is_letter : ℕ → Bool
is_letter c = (leb 65 c && leb c 90) || (leb 97 c && leb c 122)

abbrev pub is_separator : ℕ → Bool
is_separator c = c == 47 || c == 92

unfoldable pub is_absolute : Text → Bool
is_absolute [] = false
is_absolute (c ∷ []) = is_separator c
is_absolute (c ∷ d ∷ t) = is_separator c || (is_letter c && d == 58)

unfoldable pub includes : ℕ → Text → Bool
includes x [] = false
includes x (c ∷ t) = c == x || includes x t

-- `split(/[\\/]+/u)`, without the segments that are empty or a dot.
abbrev pub kept : Text → List Text → List Text
kept segment rest = if text_eq segment [] || text_eq segment (46 ∷ []) then rest else segment ∷ rest

unfoldable pub segments_from : Text → Text → List Text
segments_from segment [] = kept segment []
segments_from segment (c ∷ t) =
    let onward = segments_from (segment ++ c ∷ []) t in
    let fresh = segments_from [] t in if is_separator c then kept segment fresh else onward

abbrev pub is_home : List Text → Bool
is_home [] = false
is_home (s ∷ _) = text_eq s (126 ∷ [])

-- `/[ .]$/u`
unfoldable pub ends_in_suffix : Text → Bool
ends_in_suffix [] = false
ends_in_suffix (c ∷ []) = is_suffix c
ends_in_suffix (c ∷ d ∷ t) = ends_in_suffix (d ∷ t)

abbrev pub is_nil : List Text → Bool
is_nil [] = true
is_nil (_ ∷ _) = false

module _ (upper : Text → Text) where
  unfoldable pub is_windows_device_name : Text → Bool
  unfolding device_name before_dot trim_windows_path_suffix
  is_windows_device_name segment =
      test false device_name (upper (before_dot (trim_windows_path_suffix segment)))

  -- The checks on the segments.
  unfoldable pub check_segments : List Text → Bool → Result (List Text)
  unfolding is_windows_device_name ends_in_suffix includes units
  check_segments segments allow_root =
      if mem_text (units "..") segments
      then violation (units "PATH_TRAVERSAL_DENIED")
          (units "Parent path segments are not allowed in workspace paths.")
      else if is_home segments
      then violation (units "HOME_PATH_DENIED")
          (units "Home-directory abbreviations are not allowed in workspace paths.")
      else if any (includes 58) segments
      then violation (units "WINDOWS_ALTERNATE_STREAM_DENIED")
          (units "Colon characters are not allowed in workspace path segments.")
      else if any ends_in_suffix segments
      then violation (units "WINDOWS_AMBIGUOUS_PATH_DENIED")
          (units "Workspace path segments cannot end with a space or dot.")
      else if any is_windows_device_name segments
      then violation (units "WINDOWS_DEVICE_PATH_DENIED")
          (units "Windows reserved device names are not allowed in workspace paths.")
      else if is_nil segments && not allow_root
      then violation (units "EMPTY_PATH_DENIED")
          (units "This file tool requires a non-empty relative path.")
      else ok segments

  unfoldable pub validate_relative_path : Text → Bool → Result (List Text)
  unfolding check_segments segments_from is_absolute includes units
  validate_relative_path input allow_root =
      if includes 0 input
      then violation (units "INVALID_PATH") (units "Workspace paths cannot contain null bytes.")
      else if is_absolute input
      then violation (units "ABSOLUTE_PATH_DENIED")
          (units "File tools accept only workspace-relative paths.")
      else check_segments (segments_from [] input) allow_root

-- `segments.some(...)` of `assertGitWriteAllowed`, with `toLocaleLowerCase`.
unfoldable pub is_git_path : (Text → Text) → List Text → Bool
unfolding trim_windows_path_suffix units
is_git_path lower segments =
    any (λ segment. text_eq (lower (trim_windows_path_suffix segment)) (units ".git")) segments

-- ===== src/Security/Patterns/Paths.antt =====
-- security/central-safety-policy.ts: the regular expressions that find paths and their boundaries.
use echocoding_harness.Common.{[], ◌∷◌, true, false}
use echocoding_harness.Common.Regex.{
  Re, between, space, digit, set, star, group, start, finish, boundary, lit, words, choice, only,
  ◌··◌, optional, plus, white,
}

unfoldable pub unc_or_device_path : Re
unfolding lit words choice only
unc_or_device_path =
    start ·· choice ((lit "\\\\" ·· set false (only "?.") ·· lit "\\") ∷ lit "\\\\" ∷ [])

unfoldable pub git_path : Re
unfolding lit words choice only
git_path =
    choice (start ∷ set false (only "\\/") ∷ [])
    ·· lit ".git"
    ·· choice (set false (only "\\/") ∷ finish ∷ [])

unfoldable pub quoted_path : Re
unfolding lit words choice only
quoted_path =
    set false (only "\"'")
    ·· group (
        set false (between b'A' b'Z' ∷ between b'a' b'z' ∷ [])
        ·· lit ":"
        ·· plus (set true (only "\"'")))
    ·· set false (only "\"'")

unfoldable pub drive_path : Re
unfolding lit words choice only
drive_path =
    choice (start ∷ set false (space ∷ only "(=,") ∷ [])
    ·· group (
        choice
          ((set false (between b'A' b'Z' ∷ between b'a' b'z' ∷ []) ·· lit ":") ∷ lit "\\\\" ∷ [])
        ·· plus (set true (space ∷ only ";|,)")))

unfoldable pub parent_path : Re
unfolding lit words choice only
parent_path =
    choice (start ∷ set false (space ∷ only "\"'(") ∷ [])
    ·· group (plus (lit ".." ·· set false (only "\\/")) ·· star (set true (space ∷ only ";|,)\"'")))

unfoldable pub device_path : Re
unfolding lit words choice only
device_path = lit "\\\\" ·· set false (only "?.") ·· lit "\\"

unfoldable pub environment_variable : Re
unfolding lit words choice only
environment_variable = choice (
    (lit "$"
      ·· optional (lit "{")
      ·· lit "env:"
      ·· set false (between b'A' b'Z' ∷ between b'a' b'z' ∷ only "_")
      ·· star (set false (between b'A' b'Z' ∷ between b'a' b'z' ∷ between b'0' b'9' ∷ only "_"))
      ·· optional (lit "}"))
    ∷ (lit "%"
        ·· set false (between b'A' b'Z' ∷ between b'a' b'z' ∷ only "_")
        ·· star (set false (between b'A' b'Z' ∷ between b'a' b'z' ∷ between b'0' b'9' ∷ only "_"))
        ·· lit "%")
    ∷ [])

unfoldable pub home_variable : Re
unfolding lit words choice only
home_variable = choice (
    (lit "$" ·· words ("HOME" ∷ "PWD" ∷ "PSScriptRoot" ∷ []) ·· boundary)
    ∷ (lit "${" ·· words ("HOME" ∷ "PWD" ∷ "PSScriptRoot" ∷ []) ·· lit "}")
    ∷ [])

unfoldable pub environment_drive : Re
unfolding lit words choice only
environment_drive =
    choice (start ∷ white ∷ [])
    ·· lit "Env:"
    ·· set false (between b'A' b'Z' ∷ between b'a' b'z' ∷ only "_*")
    ·· star (set false (between b'A' b'Z' ∷ between b'a' b'z' ∷ between b'0' b'9' ∷ only "_*"))

unfoldable pub folder_path_call : Re
unfolding lit words choice only
folder_path_call = lit "[Environment]::GetFolderPath" ·· star white ·· lit "("

unfoldable pub tilde_path : Re
unfolding lit words choice only
tilde_path =
    choice (start ∷ set false (space ∷ only "\"'(") ∷ [])
    ·· lit "~"
    ·· choice (set false (only "\\/") ∷ white ∷ finish ∷ [])

unfoldable pub short_name_path : Re
unfolding lit words choice only
short_name_path =
    choice (start ∷ set false (only "\\/") ∷ [])
    ·· star (set true (space ∷ only "\\/"))
    ·· lit "~"
    ·· plus (set false (digit ∷ []))
    ·· choice (set false (only "\\/") ∷ finish ∷ [])

unfoldable pub drive_relative : Re
unfolding lit words choice only
drive_relative =
    start
    ·· set false (between b'A' b'Z' ∷ between b'a' b'z' ∷ [])
    ·· lit ":"
    ·· set true (only "\\/")

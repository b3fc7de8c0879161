-- ===== src/Security/Patterns/Denials.antt =====
-- security/central-safety-policy.ts: the regular expressions of commands that are never run.
use echocoding_harness.Common.{[], ◌∷◌, true, false}
use echocoding_harness.Common.Regex.{
  Re, between, space, set, star, ahead, start, finish, boundary, lit, words, choice, only, ◌··◌,
  optional, plus, any_character, white,
}

unfoldable pub delete_command_pattern : Re
unfolding lit words choice only
delete_command_pattern =
    boundary
    ·· words ("Remove-Item" ∷ "ri" ∷ "rm" ∷ "del" ∷ "erase" ∷ "rmdir" ∷ "rd" ∷ [])
    ·· boundary

unfoldable pub filesystem_write_pattern : Re
unfolding lit words choice only
filesystem_write_pattern =
    boundary
    ·· words (
        "Set-Content" ∷ "Add-Content" ∷ "New-Item" ∷ "Copy-Item" ∷ "Move-Item" ∷ "Rename-Item"
        ∷ "Out-File" ∷ "Tee-Object" ∷ "Export-Clixml" ∷ "Export-Csv" ∷ "sc" ∷ "ac" ∷ "ni" ∷ "cp"
        ∷ "copy" ∷ "cpi" ∷ "mv" ∷ "move" ∷ "mi" ∷ "ren" ∷ "rni" ∷ "tee" ∷ "Remove-Item" ∷ "ri"
        ∷ "rm" ∷ "del" ∷ "erase" ∷ "rmdir" ∷ "rd" ∷ [])
    ·· boundary

unfoldable pub broad_target : Re
unfolding lit words choice only
broad_target =
    choice (start ∷ set false (space ∷ only "\"'") ∷ [])
    ·· choice (
        (lit "." ·· optional (set false (only "\\/") ·· optional (lit "*")))
        ∷ lit "*"
        ∷ (set false (between b'A' b'Z' ∷ between b'a' b'z' ∷ [])
            ·· lit ":"
            ·· set false (only "\\/"))
        ∷ set false (only "\\/")
        ∷ [])
    ·· choice (set false (space ∷ only "\"'") ∷ finish ∷ [])

unfoldable pub current_location : Re
unfolding lit words choice only
current_location = choice (
    (lit "$PWD" ·· boundary)
    ∷ (boundary ·· words ("Get-Location" ∷ "gl" ∷ "pwd" ∷ []) ·· boundary)
    ∷ (boundary
        ·· lit "Resolve-Path"
        ·· plus white
        ·· lit "."
        ·· choice (white ∷ lit ")" ∷ finish ∷ []))
    ∷ [])

unfoldable pub git_internal : Re
unfolding lit words choice only
git_internal =
    choice (start ∷ set false (space ∷ only "\"'(\\/") ∷ [])
    ·· lit ".git"
    ·· ahead (choice (set false (space ∷ only "\\/\"')") ∷ finish ∷ []))

unfoldable pub redirection : Re
unfolding lit words choice only
redirection =
    choice (start ∷ set true (only ">") ∷ [])
    ·· lit ">"
    ·· choice (lit ">" ∷ set true (only "=") ∷ [])

unfoldable pub credential_variable : Re
unfolding lit words choice only
credential_variable =
    choice ((lit "$" ·· optional (lit "{") ·· lit "env:") ∷ lit "%" ∷ [])
    ·· choice (
        words (
          "ECHO_API_KEY" ∷ "GITHUB_TOKEN" ∷ "NPM_TOKEN" ∷ "NODE_AUTH_TOKEN" ∷ "OPENAI_API_KEY" ∷ [])
        ∷ (lit "AZURE_"
            ·· star (set false (between b'A' b'Z' ∷ only "_"))
            ·· words ("KEY" ∷ "TOKEN" ∷ []))
        ∷ (lit "AWS_" ·· words ("SECRET_ACCESS_KEY" ∷ "SESSION_TOKEN" ∷ []))
        ∷ lit "GOOGLE_APPLICATION_CREDENTIALS"
        ∷ [])
    ·· choice (optional (lit "}") ∷ lit "%" ∷ [])

unfoldable pub environment_listing : Re
unfolding lit words choice only
environment_listing =
    words ("Get-ChildItem" ∷ "Get-Item" ∷ "gci" ∷ "gi" ∷ "dir" ∷ [])
    ·· plus white
    ·· optional (lit "-Path" ·· plus white)
    ·· lit "Env:"
    ·· star white
    ·· choice (finish ∷ set false (only "*") ∷ [])

unfoldable pub environment_call : Re
unfolding lit words choice only
environment_call = lit "GetEnvironmentVariables" ·· star white ·· lit "("

unfoldable pub credential_directory : Re
unfolding lit words choice only
credential_directory =
    choice (start ∷ set false (only "\\/") ∷ [])
    ·· words (".ssh" ∷ ".aws" ∷ ".azure" ∷ [])
    ·· choice (set false (only "\\/") ∷ finish ∷ [])

unfoldable pub privilege : Re
unfolding lit words choice only
privilege =
    boundary
    ·· choice (
        (lit "Start-Process"
          ·· boundary
          ·· star any_character
          ·· lit "-Verb"
          ·· plus white
          ·· lit "RunAs")
        ∷ (lit "runas" ·· optional (lit ".exe") ·· boundary)
        ∷ (lit "Set-ExecutionPolicy" ·· boundary)
        ∷ (lit "Set-MpPreference" ·· boundary)
        ∷ (lit "sc" ·· optional (lit ".exe") ·· plus white ·· words ("config" ∷ "delete" ∷ []))
        ∷ (lit "net" ·· plus white ·· lit "user" ·· boundary ·· star any_character ·· lit "/add")
        ∷ [])
    ·· boundary

unfoldable pub encoded_execution : Re
unfolding lit words choice only
encoded_execution = choice (
    (words ("-" ∷ "/" ∷ [])
      ·· words (
          "e" ∷ "en" ∷ "enc" ∷ "enco" ∷ "encod" ∷ "encode" ∷ "encoded" ∷ "encodedc" ∷ "encodedco"
          ∷ "encodedcom" ∷ "encodedcomm" ∷ "encodedcomma" ∷ "encodedcomman" ∷ "encodedcommand" ∷ [])
      ·· boundary)
    ∷ (boundary ·· words ("Invoke-Expression" ∷ "iex" ∷ []) ·· boundary)
    ∷ [])

unfoldable pub disk_command : Re
unfolding lit words choice only
disk_command =
    boundary
    ·· words ("Format-Volume" ∷ "Clear-Disk" ∷ "Initialize-Disk" ∷ "diskpart" ∷ [])
    ·· boundary

unfoldable pub system_command : Re
unfolding lit words choice only
system_command =
    boundary
    ·· choice (
        words ("Stop-Computer" ∷ "Restart-Computer" ∷ [])
        ∷ (lit "shutdown" ·· optional (lit ".exe"))
        ∷ words ("bcdedit" ∷ "takeown" ∷ [])
        ∷ (lit "vssadmin" ·· plus white ·· lit "delete")
        ∷ (lit "wbadmin" ·· plus white ·· lit "delete")
        ∷ [])
    ·· boundary

unfoldable pub registry_delete : Re
unfolding lit words choice only
registry_delete =
    boundary
    ·· lit "reg"
    ·· optional (lit ".exe")
    ·· plus white
    ·· lit "delete"
    ·· plus white
    ·· words ("HKLM" ∷ "HKEY_LOCAL_MACHINE" ∷ "HKCU" ∷ "HKEY_CURRENT_USER" ∷ [])
    ·· lit "\\"

-- ===== src/Security/Patterns/Commands.antt =====
-- security/central-safety-policy.ts: the regular expressions that classify the other commands.
use echocoding_harness.Common.{[], ◌∷◌, true, false}
use echocoding_harness.Common.Regex.{
  Re, space, set, star, start, finish, boundary, lit, words, choice, only, ◌··◌, optional, plus,
  any_character, white,
}

unfoldable pub dependency_command : Re
unfolding lit words choice only
dependency_command = choice (
    (boundary
      ·· words ("pnpm" ∷ "npm" ∷ "yarn" ∷ [])
      ·· plus white
      ·· words ("add" ∷ "install" ∷ "remove" ∷ "uninstall" ∷ "update" ∷ "upgrade" ∷ [])
      ·· boundary)
    ∷ (boundary
        ·· words ("winget" ∷ "choco" ∷ "scoop" ∷ [])
        ·· plus white
        ·· words ("install" ∷ "uninstall" ∷ "upgrade" ∷ [])
        ·· boundary)
    ∷ [])

unfoldable pub git_mutation : Re
unfolding lit words choice only
git_mutation = choice (
    (boundary
      ·· lit "git"
      ·· plus white
      ·· words (
          "add" ∷ "commit" ∷ "push" ∷ "pull" ∷ "fetch" ∷ "clone" ∷ "checkout" ∷ "switch" ∷ "merge"
          ∷ "rebase" ∷ "reset" ∷ "clean" ∷ "tag" ∷ "stash" ∷ "restore" ∷ "rm" ∷ "mv" ∷ [])
      ·· boundary)
    ∷ (boundary
        ·· lit "git"
        ·· plus white
        ·· lit "branch"
        ·· boundary
        ·· star any_character
        ·· choice
            ((lit "-" ·· set false (only "dDmM") ·· boundary) ∷ (lit "--delete" ·· boundary) ∷ []))
    ∷ [])

unfoldable pub network_access : Re
unfolding lit words choice only
network_access = choice (
    (boundary
      ·· words (
          "Invoke-WebRequest" ∷ "Invoke-RestMethod" ∷ "iwr" ∷ "irm" ∷ "curl" ∷ "wget"
          ∷ "Test-NetConnection" ∷ "ssh" ∷ "scp" ∷ "ftp" ∷ "Start-BitsTransfer" ∷ [])
      ·· boundary)
    ∷ (lit "http" ·· optional (lit "s") ·· lit "://")
    ∷ [])

unfoldable pub script_execution : Re
unfolding lit words choice only
script_execution = choice (
    (choice (start ∷ set false (space ∷ only ";&|") ∷ [])
      ·· optional (lit "&" ·· star white)
      ·· lit "."
      ·· optional (lit ".")
      ·· set false (only "\\/")
      ·· plus (set true (space ∷ []))
      ·· lit "."
      ·· words ("ps1" ∷ "cmd" ∷ "bat" ∷ [])
      ·· boundary)
    ∷ (boundary
        ·· lit "powershell"
        ·· optional (lit ".exe")
        ·· boundary
        ·· star any_character
        ·· white
        ·· lit "-File"
        ·· boundary)
    ∷ (boundary
        ·· words ("node" ∷ "python" ∷ "py" ∷ [])
        ·· plus white
        ·· set true (space ∷ only "-")
        ·· star (set true (space ∷ []))
        ·· lit "."
        ·· words ("js" ∷ "mjs" ∷ "cjs" ∷ "py" ∷ [])
        ·· boundary)
    ∷ [])

unfoldable pub compound_command : Re
unfolding lit words choice only
compound_command = choice (
    set false (only ";&|")
    ∷ (choice (start ∷ set true (only ">") ∷ [])
        ·· lit ">"
        ·· choice (lit ">" ∷ set true (only "=") ∷ []))
    ∷ [])

unfoldable pub validation_command : Re
unfolding lit words choice only
validation_command =
    start
    ·· star white
    ·· choice (
        (lit "pnpm"
          ·· plus white
          ·· words ("test" ∷ "lint" ∷ "typecheck" ∷ "check" ∷ "build" ∷ "smoke" ∷ []))
        ∷ (lit "npm"
            ·· plus white
            ·· choice (
                lit "test"
                ∷ (lit "run"
                    ·· plus white
                    ·· words ("test" ∷ "lint" ∷ "typecheck" ∷ "check" ∷ "build" ∷ []))
                ∷ []))
        ∷ [])
    ·· choice (white ∷ finish ∷ [])

unfoldable pub git_read : Re
unfolding lit words choice only
git_read =
    start
    ·· star white
    ·· lit "git"
    ·· plus white
    ·· words ("status" ∷ "diff" ∷ "log" ∷ "show" ∷ "rev-parse" ∷ [])
    ·· choice (white ∷ finish ∷ [])

unfoldable pub git_branch_list : Re
unfolding lit words choice only
git_branch_list =
    start
    ·· star white
    ·· lit "git"
    ·· plus white
    ·· lit "branch"
    ·· optional
        (plus white ·· words ("--show-current" ∷ "--list" ∷ "-a" ∷ "-r" ∷ "-v" ∷ "-vv" ∷ []))
    ·· star white
    ·· finish

unfoldable pub read_command : Re
unfolding lit words choice only
read_command =
    start
    ·· star white
    ·· words (
        "Get-ChildItem" ∷ "Get-Content" ∷ "Select-String" ∷ "Test-Path" ∷ "Get-Location"
        ∷ "Write-Output" ∷ [])
    ·· boundary

unfoldable pub local_write_command : Re
unfolding lit words choice only
local_write_command =
    start
    ·· star white
    ·· words (
        "Set-Content" ∷ "Add-Content" ∷ "New-Item" ∷ "Copy-Item" ∷ "Move-Item" ∷ "Rename-Item" ∷ [])
    ·· boundary

-- ===== src/Security/Commands.antt =====
-- security/central-safety-policy.ts: `classifyCommand`, the risk of a command.
use echocoding_harness.Common.{
  starts_with, ℕ, Bool, true, false, ◌&&◌, ◌||◌, ◌==◌, any, Option, none, some, List, [], ◌∷◌, ◌++◌,
  if◌then◌else◌, Text, units, text_eq, mem_text,
}
use echocoding_harness.Common.Regex.{test, only, is_in_set, space}
use echocoding_harness.Security.Patterns.Denials.{
  delete_command_pattern, filesystem_write_pattern, broad_target, current_location, git_internal,
  redirection, credential_variable, environment_listing, environment_call, credential_directory,
  privilege, encoded_execution, disk_command, system_command, registry_delete,
}
use echocoding_harness.Security.Patterns.Commands.{
  dependency_command, git_mutation, network_access, script_execution, compound_command,
  validation_command, git_read, git_branch_list, read_command, local_write_command,
}
use echocoding_harness.Security.Paths.{
  Platform, extract_command_paths, normalized_root, command_boundary_violation,
}

pub data RiskClassification : Type 0 where
  hard_deny ask read validation local_write : (reason rule : Text) → RiskClassification

-- `trimShellTokenEdges`
abbrev is_edge : ℕ → Bool
is_edge c = c == 34 || c == 39 || c == 40 || c == 41 || c == 123 || c == 125

unfoldable pub trim_start : Text → Text
trim_start [] = []
trim_start (c ∷ t) = let rest = trim_start t in if is_edge c then rest else c ∷ t

abbrev keep_end : ℕ → Text → Text
keep_end c [] = if is_edge c then [] else c ∷ []
keep_end c (d ∷ t) = c ∷ d ∷ t

unfoldable pub trim_end : Text → Text
trim_end [] = []
trim_end (c ∷ t) = keep_end c (trim_end t)

unfoldable pub trim_shell_token_edges : Text → Text
unfolding trim_start trim_end
trim_shell_token_edges value = trim_end (trim_start value)

-- `split(/[\s;&|]+/u)`, without the empty words, which are filtered out after the trimming.
unfoldable pub split_words : Text → Text → List Text
unfolding is_in_set only
split_words word [] = word ∷ []
split_words word (c ∷ t) =
    let rest = split_words [] t in
    let same = split_words (word ++ c ∷ []) t in
    if is_in_set false (space ∷ only ";&|") c then word ∷ rest else same

abbrev not_empty : Text → Bool
not_empty [] = false
not_empty (_ ∷ _) = true

unfoldable pub trimmed_words : List Text → List Text
unfolding trim_shell_token_edges
trimmed_words [] = []
trimmed_words (w ∷ ws) =
    let rest = trimmed_words ws in
    if not_empty (trim_shell_token_edges w) then trim_shell_token_edges w ∷ rest else rest

unfoldable pub includes_character : ℕ → Text → Bool
includes_character x [] = false
includes_character x (c ∷ t) = c == x || includes_character x t

abbrev is_forced_clean : Text → Bool
is_forced_clean argument = starts_with (units "-") argument && includes_character b'f' argument

-- The tests on what follows a word `git`.
unfoldable pub is_destructive_operation : Text → List Text → Bool
unfolding includes_character units
is_destructive_operation operation arguments =
    (text_eq operation (units "reset") && mem_text (units "--hard") arguments)
    || (text_eq operation (units "clean") && any is_forced_clean arguments)
    || (text_eq operation (units "push") && any (starts_with (units "--force")) arguments)

unfoldable pub is_destructive_git : List Text → Bool
unfolding is_destructive_operation units
is_destructive_git [] = false
is_destructive_git (w ∷ []) = false
is_destructive_git (w ∷ operation ∷ arguments) =
    (text_eq w (units "git") && is_destructive_operation operation arguments)
    || is_destructive_git (operation ∷ arguments)

-- The tests from the dependency changes on, for a command that is not denied.
unfoldable pub classify_effect : Text → RiskClassification
unfolding dependency_command git_mutation network_access delete_command_pattern script_execution
    compound_command validation_command git_read git_branch_list read_command local_write_command
    units
classify_effect command =
    if test true dependency_command command
    then ask (units "Dependency or software changes require approval.")
        (units "policy.command.dependency")
    else if test true git_mutation command
    then ask (units "Git writes, history changes, or remote operations require approval.")
        (units "policy.command.git_mutation")
    else if test true network_access command
    then ask (units "External network access requires approval.") (units "policy.command.network")
    else if test true delete_command_pattern command
    then ask (units "Deletion requires approval.") (units "policy.command.delete")
    else if test true script_execution command
    then ask (units "Executing an unclassified repository script requires approval.")
        (units "policy.command.script")
    else if test false compound_command command
    then ask (units "Compound commands, pipelines, and redirection require approval.")
        (units "policy.command.compound")
    else if test true validation_command command
    then validation (units "Known project validation command.") (units "policy.command.validation")
    else if test true git_read command
        || test true git_branch_list command
        || test true read_command command
    then read (units "Known read-only diagnostic command.") (units "policy.command.read")
    else if test true local_write_command command
    then local_write (units "Explicitly scoped workspace command write.")
        (units "policy.command.local_write")
    else ask (units "The command effect is not explicitly classified as safe.")
        (units "policy.command.unclassified")

module _ (p : Platform) where
  unfoldable pub is_destructive_git_command : Text → Bool
  unfolding is_destructive_git trimmed_words split_words
  is_destructive_git_command command =
      is_destructive_git (trimmed_words (split_words [] (p.lower command)))

  abbrev deletes_workspace_root : Text → List Text → Bool
  deletes_workspace_root root paths =
      any (λ candidate. text_eq (p.lower (p.resolve root candidate)) (normalized_root p root)) paths

  unfoldable pub is_broad_delete : Text → Text → Bool
  unfolding delete_command_pattern broad_target current_location
  is_broad_delete command root =
      if test true delete_command_pattern command
      then deletes_workspace_root root (extract_command_paths p command)
        || test false broad_target command
        || test true current_location command
      else false

  unfoldable pub writes_git_internal : Text → Bool
  unfolding git_internal filesystem_write_pattern redirection
  writes_git_internal command =
      test true git_internal command
      && (test true filesystem_write_pattern command || test false redirection command)

  unfoldable pub reads_credentials : Text → Bool
  unfolding credential_variable environment_listing environment_call credential_directory
  reads_credentials command =
      test true credential_variable command
      || test true environment_listing command
      || test true environment_call command
      || test true credential_directory command

  unfoldable pub is_destructive : Text → Text → Bool
  unfolding encoded_execution disk_command system_command registry_delete
  is_destructive command root =
      test true encoded_execution command
      || test true disk_command command
      || test true system_command command
      || test true registry_delete command
      || is_destructive_git_command command
      || is_broad_delete command root

  abbrev pub classify_inside : Text → Text → Option Text → RiskClassification
  classify_inside command root (some reason) = hard_deny reason (units "policy.command.boundary")
  classify_inside command root none =
      if writes_git_internal command
      then hard_deny (units "Direct command writes to Git internal data are forbidden.")
          (units "policy.command.git_internal")
      else if reads_credentials command
      then hard_deny (units "Credential access or environment export is forbidden.")
          (units "policy.command.credential")
      else if test true privilege command
      then hard_deny (units "Privilege escalation or system security changes are forbidden.")
          (units "policy.command.privilege")
      else if is_destructive command root
      then hard_deny (units "Encoded execution or broad destructive effects are forbidden.")
          (units "policy.command.destructive")
      else classify_effect command

  unfoldable pub classify_command : Text → Text → RiskClassification
  unfolding privilege units
  classify_command command root =
      classify_inside command root (command_boundary_violation p command root)

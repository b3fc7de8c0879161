-- ===== src/Security/Tests.antt =====
-- The policy on concrete requests, on a platform whose paths are the root and what follows it.
use echocoding_harness.Common.{
  starts_with, ℕ, ◌+◌, ◌≡◌, refl, ◌⊎◌, true, ◌&&◌, leb, some, [], ◌∷◌, ◌++◌, if◌then◌else◌, Text,
  All, units, text_eq, mem_text,
}
use echocoding_harness.Common.Regex.{test, captures}
use echocoding_harness.Contracts.Value.{string, object, end, field}
use echocoding_harness.Contracts.Event.{SafetyMode, safe, balanced, auto}
use echocoding_harness.Agent.Interface.{PolicyRequest}
use echocoding_harness.Security.Paths.{
  Platform, is_inside_workspace, normalized_root, command_boundary_violation, is_dynamic,
  outside_path, extract_command_paths, declared_path_violation, paths_in_fields, first_violation,
  collect_declared_paths,
}
use echocoding_harness.Security.Commands
use echocoding_harness.Security.Commands.{
  RiskClassification, hard_deny, read, validation, classify_command, writes_git_internal,
  reads_credentials, is_destructive, is_destructive_git_command, classify_effect, is_broad_delete,
}
use echocoding_harness.Security.Policy.{command_of, is_write_file_tool, mode_decision, evaluate}
use echocoding_harness.Security.Policy.Approvals.{
  on_outcome, without_approvals, granted, evaluate-granted,
}
use echocoding_harness.Security.Policy.Modes.{Loosens, in_mode, evaluate-Loosens}
use echocoding_harness.Security.Policy.Containment.{Contained, IsHardDenial, evaluate-Contained}
use echocoding_harness.Security.Policy.Unasked.{IsSingle, evaluate-IsSingle}

abbrev lower_unit : ℕ → ℕ
lower_unit c = if leb 65 c && leb c 90 then c + 32 else c

lower_text : Text → Text
lower_text [] = []
lower_text (c ∷ t) = lower_unit c ∷ lower_text t

resolve_path : Text → Text → Text
unfolding starts_with units
resolve_path root [] = root
resolve_path root (c ∷ t) = if starts_with (units "C:") (c ∷ t) then c ∷ t else root ++ 92 ∷ c ∷ t

abbrev platform : Platform
platform = record {
  resolve = resolve_path;
  lower = lower_text;
  digest = λ t. t;
  redact = λ text root. text;
}

abbrev root : Text
root = units "C:\\w"

abbrev request : SafetyMode → Text → PolicyRequest
request mode command = record {
  mode = mode;
  tool_name = units "run_command";
  input = object true (field (units "command") (string command) end);
  workspace_root = root;
  session_approvals = [];
}

-- The class of a command.
class_of : Text → RiskClassification
unfolding classify_command lower_text resolve_path units command_boundary_violation test is_dynamic
    outside_path extract_command_paths captures writes_git_internal reads_credentials is_destructive
    is_destructive_git_command text_eq mem_text classify_effect is_broad_delete
class_of command = classify_command platform command root

reset_test :
    class_of (units "git status && GIT reset --hard")
    ≡ hard_deny
        (units "Encoded execution or broad destructive effects are forbidden.")
        (units "policy.command.destructive")
unfolding class_of
reset_test = refl

outside_test :
    class_of (units "Get-Content C:\\other\\file")
    ≡ hard_deny
        (units "The command references a path outside the fixed workspace root.")
        (units "policy.command.boundary")
unfolding class_of starts_with is_inside_workspace normalized_root
outside_test = refl

-- `PNPM test` runs in balanced mode and is asked about in safe mode.
validation_test :
    class_of (units " PNPM test")
    ≡ validation (units "Known project validation command.") (units "policy.command.validation")
unfolding class_of
validation_test = refl

compound_test :
    class_of (units "Get-Location; node x")
    ≡ Commands.ask
        (units "Compound commands, pipelines, and redirection require approval.")
        (units "policy.command.compound")
unfolding class_of
compound_test = refl

-- A second command on a line of its own, or within a subexpression, is not seen as a compound.
second_line_test :
    class_of (units "Get-Location\nnode --version")
    ≡ read (units "Known read-only diagnostic command.") (units "policy.command.read")
unfolding class_of
second_line_test = refl

subexpression_test :
    class_of (units "Write-Output $(node --version)")
    ≡ read (units "Known read-only diagnostic command.") (units "policy.command.read")
unfolding class_of
subexpression_test = refl

evaluate-granted_example :
    evaluate platform (request safe (units "git status"))
    ≡ on_outcome
        (granted platform (request safe (units "git status")))
        (evaluate platform (without_approvals (request safe (units "git status"))))
evaluate-granted_example = evaluate-granted platform (request safe (units "git status"))

evaluate-Loosens_example :
    Loosens
      (evaluate platform (in_mode safe (request balanced (units "pnpm test"))))
      (evaluate platform (in_mode auto (request balanced (units "pnpm test"))))
evaluate-Loosens_example =
    evaluate-Loosens platform (request balanced (units "pnpm test")) safe auto refl

evaluate-Contained_example :
    IsHardDenial (evaluate platform (request auto (units "git status")))
    ⊎ All
        (Contained platform root (is_write_file_tool (units "run_command")))
        (collect_declared_paths platform (request auto (units "git status")).input)
evaluate-Contained_example = evaluate-Contained platform (request auto (units "git status")) refl

evaluate-IsSingle_example :
    (command : Text) × (command_of (request safe (units "git status")).input ≡ some command)
    × IsSingle command
unfolding evaluate declared_path_violation collect_declared_paths paths_in_fields first_violation
    mode_decision command_of classify_command lower_text resolve_path units
    command_boundary_violation test is_dynamic outside_path extract_command_paths captures
    writes_git_internal reads_credentials is_destructive is_destructive_git_command text_eq mem_text
    classify_effect is_broad_delete
evaluate-IsSingle_example =
    evaluate-IsSingle platform (request safe (units "git status")) refl refl tt

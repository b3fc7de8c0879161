-- ===== src/Security/Policy/Approvals.antt =====
-- What the approvals of a session change in a decision: an approval turns the question with its own
-- key into a permission, and nothing else.
use echocoding_harness.Common.{
  ◌≡◌, refl, Bool, true, false, Option, none, some, [], ◌++◌, if◌then◌else◌, Text, units, text_eq,
  mem_text,
}
use echocoding_harness.Contracts.Error.{Outcome, ok, thrown}
use echocoding_harness.Agent.Interface.{Decision, allow, ask, PolicyRequest}
use echocoding_harness.Security.Paths.{Platform, Violation}
use echocoding_harness.Security.Commands
use echocoding_harness.Security.Commands.{
  RiskClassification, hard_deny, read, validation, local_write, classify_command,
}
use echocoding_harness.Security.Policy.{
  is_safe, is_auto, is_full_access, is_read_file_tool, is_write_file_tool, approval_key,
  safe_reason, with_key, then_do, ask_or_approved, mode_decision, on_command, on_tool, on_violation,
  evaluate, command_of,
}

abbrev pub on_outcome : (Decision → Decision) → Outcome Decision → Outcome Decision
on_outcome f (ok d) = ok (f d)
on_outcome f (thrown e) = thrown e

-- Two conditionals on the same test, one inside.
choose :
    (f : Decision → Decision) (b : Bool) (x y x' y' : Outcome Decision)
    → x ≡ on_outcome f x'
    → y ≡ on_outcome f y'
    → (if b then x else y) ≡ on_outcome f (if b then x' else y')
choose f true x y x' y' e g = e
choose f false x y x' y' e g = g

abbrev pub without_approvals : PolicyRequest → PolicyRequest
without_approvals r = record r { session_approvals = [] }

module _ (p : Platform) (r : PolicyRequest) where
  -- What the approvals of the request make of a decision.
  abbrev pub granted : Decision → Decision
  granted (ask reason key rule) =
      if mem_text key r.session_approvals
      then allow
          (p.redact (units "Approved for this equivalent session operation: " ++ reason)
            r.workspace_root)
          (units "policy.approval.session_equivalent")
      else ask reason key rule
  granted d = d

  ask_or_approved-granted :
      (reason rule : Text)
      → ask_or_approved p r reason rule
        ≡ on_outcome granted (ask_or_approved p (without_approvals r) reason rule)
  unfolding ask_or_approved mem_text
  ask_or_approved-granted reason rule = split (approval_key p r.tool_name r.input)
    where
      split :
          (o : Outcome Text)
          → then_do o (λ key. ok (with_key p r reason rule key))
            ≡ on_outcome granted
                (then_do o (λ key. ok (with_key p (without_approvals r) reason rule key)))
      split (ok key) = refl
      split (thrown e) = refl

  mode_decision-granted :
      (c : RiskClassification)
      → mode_decision p r c ≡ on_outcome granted (mode_decision p (without_approvals r) c)
  unfolding mode_decision
  mode_decision-granted (Commands.ask reason rule) = ask_or_approved-granted _ rule
  mode_decision-granted (read reason rule) = refl
  mode_decision-granted (hard_deny reason rule) = refl
  mode_decision-granted (validation reason rule) =
      choose granted (is_safe r.mode) _ _ _ _
        (ask_or_approved-granted (safe_reason p r reason) rule) refl
  mode_decision-granted (local_write reason rule) =
      choose granted (is_auto r.mode) _ _ _ _ refl
        (ask_or_approved-granted (safe_reason p r reason) rule)

  on_command-granted :
      (o : Option Text)
      → on_command p r o ≡ on_outcome granted (on_command p (without_approvals r) o)
  on_command-granted none = refl
  on_command-granted (some command) =
      mode_decision-granted (classify_command p command r.workspace_root)

  on_tool-granted : on_tool p r ≡ on_outcome granted (on_tool p (without_approvals r))
  on_tool-granted = choose granted (is_read_file_tool r.tool_name) _ _ _ _ refl (
      choose granted (is_write_file_tool r.tool_name) _ _ _ _
        (choose granted (is_safe r.mode) _ _ _ _ (ask_or_approved-granted _ _) refl)
        (choose granted (text_eq r.tool_name (units "run_command")) _ _ _ _
          (on_command-granted (command_of r.input)) refl))

  on_violation-granted :
      (v : Option Violation)
      → on_violation p r v ≡ on_outcome granted (on_violation p (without_approvals r) v)
  on_violation-granted (some v) = refl
  on_violation-granted none = on_tool-granted

  -- The decision on a request is the one without approvals, where a question whose key the session
  -- has approved is answered with the permission.
  pub evaluate-granted : evaluate p r ≡ on_outcome granted (evaluate p (without_approvals r))
  unfolding evaluate
  evaluate-granted = choose granted (is_full_access r.mode) _ _ _ _ refl (on_violation-granted _)

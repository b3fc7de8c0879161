-- ===== src/Security/Policy.antt =====
-- security/central-safety-policy.ts: the decision of `CentralSafetyPolicy`.
pub mod Approvals
pub mod Modes
pub mod Containment
pub mod Unasked
use echocoding_harness.Common.{
  Bool, true, false, Option, none, some, [], ◌∷◌, ◌++◌, if◌then◌else◌, Text, units, text_eq,
  mem_text,
}
use echocoding_harness.Contracts.Value.{
  Value, string, undefined, array, object, Items, nil, cons, Fields, end, field, accessor,
}
use echocoding_harness.Contracts.Error.{Outcome, ok, thrown}
use echocoding_harness.Contracts.Event.{SafetyMode, safe, auto, full_access}
use echocoding_harness.Contracts.Json.{stringify}
use echocoding_harness.Tools.Normalize.{sorted}
use echocoding_harness.Agent.Interface.{Decision, allow, ask, deny, PolicyRequest}
use echocoding_harness.Security.Paths.{Platform, Violation, declared_path_violation}
use echocoding_harness.Security.Commands
use echocoding_harness.Security.Commands.{
  RiskClassification, hard_deny, read, validation, local_write, classify_command,
}

-- `canonicalize`: the properties in order, each with its value.
unfoldable mutual
  pub plain_value : Value → Value
  plain_value (array items) = array (plain_items items)
  plain_value (object _ fields) = object true (plain_fields fields)
  plain_value v = v

  pub plain_items : Items → Items
  plain_items nil = nil
  plain_items (cons v items) = cons (plain_value v) (plain_items items)

  pub plain_fields : Fields → Fields
  plain_fields end = end
  plain_fields (field k v fs) = field k (plain_value v) (plain_fields fs)
  plain_fields (accessor k v fs) = field k (plain_value v) (plain_fields fs)

unfoldable pub canonicalize : Value → Value
unfolding sorted
canonicalize v = plain_value (sorted v)

-- In a template `undefined` is its name.
abbrev or_undefined : Option Text → Text
or_undefined none = units "undefined"
or_undefined (some t) = t

abbrev pub then_do {ℓ κ} : {A : Type ℓ} {B : Type κ} → Outcome A → (A → Outcome B) → Outcome B
then_do (ok a) f = f a
then_do (thrown e) f = thrown e

abbrev pub is_full_access : SafetyMode → Bool
is_full_access full_access = true
is_full_access _ = false

abbrev pub is_safe : SafetyMode → Bool
is_safe safe = true
is_safe _ = false

abbrev pub is_auto : SafetyMode → Bool
is_auto auto = true
is_auto _ = false

abbrev command_in : Fields → Option Text
command_in end = none
command_in (field k (string t) fs) = if text_eq k (units "command") then some t else command_in fs
command_in (field k v fs) = if text_eq k (units "command") then none else command_in fs
command_in (accessor k (string t) fs) =
    if text_eq k (units "command") then some t else command_in fs
command_in (accessor k v fs) = if text_eq k (units "command") then none else command_in fs

-- `request.normalizedInput.command`, where it is a string.
unfoldable pub command_of : Value → Option Text
unfolding units
command_of (object _ fields) = command_in fields
command_of _ = none

abbrev pub is_write_file_tool : Text → Bool
is_write_file_tool name = mem_text name (units "apply_patch" ∷ units "write_file" ∷ [])

abbrev pub is_read_file_tool : Text → Bool
is_read_file_tool name =
    mem_text name (units "list_files" ∷ units "read_file" ∷ units "search_text" ∷ [])

module _ (p : Platform) where
  unfoldable pub approval_key : Text → Value → Outcome Text
  unfolding canonicalize stringify units
  approval_key tool input = then_do (stringify (canonicalize input)) λ canonical. ok (
      units "approval:" ++ (tool ++ (units ":" ++ p.digest (tool ++ (0 ∷ or_undefined canonical)))))

  abbrev safe_reason : PolicyRequest → Text → Text
  safe_reason r reason = p.redact reason r.workspace_root

  -- `askOrApproved`, once the key is there.
  abbrev pub with_key : PolicyRequest → Text → Text → Text → Decision
  with_key r reason rule key =
      if mem_text key r.session_approvals
      then allow
          (safe_reason r
            (units "Approved for this equivalent session operation: " ++ safe_reason r reason))
          (units "policy.approval.session_equivalent")
      else ask (safe_reason r reason) key rule

  unfoldable pub ask_or_approved : PolicyRequest → Text → Text → Outcome Decision
  unfolding units
  ask_or_approved r reason rule =
      then_do (approval_key r.tool_name r.input) λ key. ok (with_key r reason rule key)

  unfoldable pub mode_decision : PolicyRequest → RiskClassification → Outcome Decision
  mode_decision r (Commands.ask reason rule) = ask_or_approved r (safe_reason r reason) rule
  mode_decision r (read reason rule) = ok (allow (safe_reason r reason) rule)
  mode_decision r (validation reason rule) =
      if is_safe r.mode
      then ask_or_approved r (safe_reason r reason) rule
      else ok (allow (safe_reason r reason) rule)
  mode_decision r (local_write reason rule) =
      if is_auto r.mode
      then ok (allow (safe_reason r reason) rule)
      else ask_or_approved r (safe_reason r reason) rule
  mode_decision r (hard_deny reason rule) = ok (deny (safe_reason r reason) true rule)

  abbrev on_command : PolicyRequest → Option Text → Outcome Decision
  on_command r none = ok (
      deny (safe_reason r (units "run_command requires a normalized command string.")) false
        (units "policy.command.missing"))
  on_command r (some command) = mode_decision r (classify_command p command r.workspace_root)

  abbrev on_tool : PolicyRequest → Outcome Decision
  on_tool r =
      if is_read_file_tool r.tool_name
      then ok (
          allow (safe_reason r (units "Workspace-scoped read operation."))
            (units "policy.tool.read_workspace"))
      else if is_write_file_tool r.tool_name
      then (if is_safe r.mode
          then ask_or_approved r (units "Workspace file writes require approval in safe mode.")
              (units "policy.tool.write_safe_ask")
          else ok (
              allow (safe_reason r (units "Workspace-scoped file write allowed by this mode."))
                (units "policy.tool.write_mode_allow")))
      else if text_eq r.tool_name (units "run_command")
      then on_command r (command_of r.input)
      else ok (
          deny
            (safe_reason r
              (units "Unrecognized tools cannot bypass the centralized safety policy."))
            true (units "policy.tool.unrecognized"))

  abbrev on_violation : PolicyRequest → Option Violation → Outcome Decision
  on_violation r (some v) = ok (deny (safe_reason r v.reason) true v.rule)
  on_violation r none = on_tool r

  -- `evaluate`
  unfoldable pub evaluate : PolicyRequest → Outcome Decision
  unfolding units
  evaluate r =
      if is_full_access r.mode
      then ok (
          allow (safe_reason r (units "Registered tool allowed by confirmed Full Access mode."))
            (units "policy.tool.full_access"))
      else on_violation r
          (declared_path_violation p r.input r.workspace_root (is_write_file_tool r.tool_name))

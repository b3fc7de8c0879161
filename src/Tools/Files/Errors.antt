-- ===== src/Tools/Files/Errors.antt =====
-- tools/files/errors.ts: what the file tools throw, and the results they make of it. The details of an
-- error, which only tell the path and a count, are left out.
use echocoding_harness.Common.{Bool, false, ◌++◌, if◌then◌else◌, Text, units}
use echocoding_harness.Contracts.Error.{
  Category, cancelled, tool_execution, invalid_tool_input, workspace_violation,
}
use echocoding_harness.Agent.Interface.{Execution, failed}

pub record FileToolError : Type 0 where
  pub category : Category
  pub code : Text
  pub message : Text

-- What a `catch` of the tools may receive.
pub data Failure : Type 0 where
  tool : FileToolError → Failure
  abort_error other : Failure

pub data Result {ℓ} (A : Type ℓ) : Type ℓ where
  ok : A → Result A
  fail : Failure → Result A

infixl 5 ◌>>=◌
abbrev pub ◌>>=◌ {ℓ κ} : {A : Type ℓ} {B : Type κ} → Result A → (A → Result B) → Result B
ok a >>= f = f a
fail e >>= f = fail e

abbrev pub error {ℓ} : {A : Type ℓ} → Category → Text → Text → Result A
error category code message =
    fail (tool (record { category = category; code = code; message = message }))

unfoldable pub invalid_input {ℓ} : {A : Type ℓ} → Text → Result A
unfolding units
invalid_input message = error invalid_tool_input (units "INVALID_FILE_TOOL_INPUT") message

unfoldable pub violation {ℓ} : {A : Type ℓ} → Text → Text → Result A
violation code message = error workspace_violation code message

abbrev pub cancelled_error : FileToolError
cancelled_error = record {
  category = cancelled;
  code = units "FILE_TOOL_CANCELLED";
  message = units "The file operation was cancelled before it completed.";
}

-- `assertNotAborted`
abbrev pub assert_not_aborted : Bool → Result (Unit {0})
assert_not_aborted aborted = if aborted then fail (tool cancelled_error) else ok tt

abbrev of_tool : FileToolError → Text → Execution
of_tool e operation =
    failed (operation ++ (units " failed: " ++ e.message))
      (record { category = e.category; code = e.code; message = e.message; retryable = false })
      false

unfoldable pub failed_execution : Failure → Text → Execution
unfolding units
failed_execution (tool e) operation = of_tool e operation
failed_execution abort_error operation = of_tool cancelled_error operation
failed_execution other operation =
    failed (operation ++ units " failed because the filesystem operation did not complete.")
      (record {
        category = tool_execution;
        code = units "FILE_OPERATION_FAILED";
        message =
            units
              "The filesystem operation did not complete. Check the relative path and permissions.";
        retryable = false;
      })
      false

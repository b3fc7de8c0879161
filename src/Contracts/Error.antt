-- ===== src/Contracts/Error.antt =====
-- contracts/errors.ts: the error value, and what a JavaScript `throw` may carry. The field `cause`,
-- process-local diagnostics that no component reads back, is left out.
use echocoding_harness.Common.{Bool, true, false, Text}

pub data Category : Type 0 where
  configuration provider_auth provider_rate_limit provider_network provider_protocol : Category
  invalid_tool_input workspace_violation policy_denied tool_timeout tool_execution : Category
  storage cancelled internal : Category

pub record EchoError : Type 0 where
  pub category : Category
  pub code : Text
  pub message : Text
  pub retryable : Bool

-- A thrown value: one that `isEchoError` accepts, or anything else.
pub data Thrown : Type 0 where
  echo : EchoError → Thrown
  unknown : Thrown

-- What an awaited call settles with.
pub data Outcome {ℓ} (A : Type ℓ) : Type ℓ where
  ok : A → Outcome A
  thrown : Thrown → Outcome A

-- `error.category === 'cancelled'`, `error.category === 'storage'`.
abbrev pub is_cancelled : Category → Bool
is_cancelled cancelled = true
is_cancelled _ = false

abbrev pub is_storage : Category → Bool
is_storage storage = true
is_storage _ = false

-- ===== src/Agent/Response.antt =====
-- agent/agent-loop.ts: what the stream of a step delivers, and the errors and tests of `runSteps`.
use echocoding_harness.Common.{
  ℕ, Bool, true, false, Option, none, some, List, [], ◌∷◌, ◌++◌, Text, units,
}
use echocoding_harness.Contracts.Error.{EchoError}
use echocoding_harness.Contracts.Event.{ToolCall, FinishReason, Reasoning, StopReason}
use echocoding_harness.Agent.Interface.{
  StreamEvent, text_delta, reasoning_delta, tool_call_delta, tool_call, usage,
}
use echocoding_harness.Agent.Calls.{cancelled_error, provider_protocol_error}
use echocoding_harness.Agent.Dispatch.{ToolStopReason, policy_denied, repeated_tool_call, cancelled}

-- What a stream has delivered.
pub record Response : Type 0 where
  pub text : Text
  pub calls : List ToolCall
  pub deltas : List Reasoning
  pub finish_reason : Option FinishReason
  pub input_tokens : Option ℕ
  pub output_tokens : Option ℕ

abbrev pub no_response : Response
no_response = record {
  text = [];
  calls = [];
  deltas = [];
  finish_reason = none;
  input_tokens = none;
  output_tokens = none;
}

unfoldable pub receive : Response → StreamEvent → Response
receive r (text_delta d) = record r { text = r.text ++ d }
receive r (reasoning_delta d) = record r { deltas = r.deltas ++ d ∷ [] }
receive r (tool_call c) = record r { calls = r.calls ++ c ∷ [] }
receive r (usage i o) = record r { input_tokens = i; output_tokens = o }
receive r (StreamEvent.completed f) = record r { finish_reason = some f }
receive r (tool_call_delta _ _) = r

unfoldable pub receive_all : Response → List StreamEvent → Response
receive_all r [] = r
receive_all r (e ∷ es) = receive_all (receive r e) es

abbrev pub is_length : FinishReason → Bool
is_length FinishReason.length = true
is_length _ = false

abbrev pub is_filtered : FinishReason → Bool
is_filtered FinishReason.content_filter = true
is_filtered _ = false

abbrev pub is_empty {ℓ} : {A : Type ℓ} → List A → Bool
is_empty [] = true
is_empty (_ ∷ _) = false

abbrev pub non_empty : Text → Option Text
non_empty [] = none
non_empty (c ∷ t) = some (c ∷ t)

abbrev pub stop_reason_of : ToolStopReason → StopReason
stop_reason_of policy_denied = StopReason.policy_denied
stop_reason_of repeated_tool_call = StopReason.repeated_tool_call
stop_reason_of cancelled = StopReason.cancelled
stop_reason_of ToolStopReason.tool_error = StopReason.tool_error

-- The default argument of `finishCancelled`.
abbrev pub error_or_cancelled : Option EchoError → EchoError
error_or_cancelled none = cancelled_error
error_or_cancelled (some e) = e

abbrev pub output_limit_error : EchoError
output_limit_error =
    provider_protocol_error (units "PROVIDER_OUTPUT_LIMIT")
      (units "The response may be incomplete.")

abbrev pub filtered_error : EchoError
filtered_error =
    provider_protocol_error (units "PROVIDER_CONTENT_FILTERED")
      (units "The model response was blocked by the provider content filter.")

abbrev pub reasoning_exhausted_error : EchoError
reasoning_exhausted_error = provider_protocol_error (units "PROVIDER_REASONING_BUDGET_EXHAUSTED") (
    units "The model exhausted its output budget before producing a visible response or tool call.")

abbrev pub empty_response_error : EchoError
empty_response_error =
    provider_protocol_error (units "PROVIDER_EMPTY_RESPONSE")
      (units "The model returned an empty response.")

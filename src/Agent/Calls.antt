-- ===== src/Agent/Calls.antt =====
-- agent/agent-loop.ts: errors, the check of tool-call ids, bounded texts and tool results.
pub mod Ids
pub mod Bounds
use echocoding_harness.Common.{
  ℕ, ◌+◌, ◌-◌, ◌/◌, Bool, true, false, ◌&&◌, ◌||◌, Option, none, some, List, [], ◌∷◌, ◌++◌, leb,
  ◌==◌, if◌then◌else◌, length, take, drop, all, Text, units, mem_text, add_text,
}
use echocoding_harness.Contracts.Value.{
  Value, null, boolean, number, string, object, Fields, end, field, accessor,
}
use echocoding_harness.Contracts.Error.{
  Category, EchoError, Thrown, echo, unknown, Outcome, ok, thrown,
}
use echocoding_harness.Contracts.Event.{ToolCall, ToolResult, ToolStatus}
use echocoding_harness.Contracts.Json.{stringify}

-- `errorFromUnknown`
abbrev pub error_from_unknown : Thrown → EchoError → EchoError
error_from_unknown (echo e) fallback = e
error_from_unknown unknown fallback = fallback

abbrev pub failure : Category → Text → Text → EchoError
failure category code message = record {
  category = category;
  code = code;
  message = message;
  retryable = false;
}

abbrev pub cancelled_with : Text → EchoError
cancelled_with = failure Category.cancelled (units "TURN_CANCELLED")

abbrev pub cancelled_error : EchoError
cancelled_error = cancelled_with (units "The agent turn was cancelled.")

abbrev pub tool_failure : Text → Text → EchoError
tool_failure = failure Category.tool_execution

abbrev pub policy_error : Text → EchoError
policy_error = failure Category.policy_denied (units "POLICY_DENIED")

abbrev pub provider_protocol_error : Text → Text → EchoError
provider_protocol_error = failure Category.provider_protocol

-- The white space and line terminators that `trim` removes.
unfoldable pub is_white : ℕ → Bool
is_white c =
    (leb 9 c && leb c 13)
    || c == 32
    || c == 160
    || c == 0x1680
    || (leb 0x2000 c && leb c 0x200a)
    || c == 0x2028
    || c == 0x2029
    || c == 0x202f
    || c == 0x205f
    || c == 0x3000
    || c == 0xfeff

-- `text.trim().length === 0`
unfoldable pub is_blank : Text → Bool
unfolding is_white
is_blank t = all is_white t

abbrev pub invalid_id_error : EchoError
invalid_id_error =
    provider_protocol_error (units "PROVIDER_INVALID_TOOL_CALL_ID")
      (units "The model returned a tool call without a non-empty identifier.")

abbrev pub duplicate_id_error : EchoError
duplicate_id_error =
    provider_protocol_error (units "PROVIDER_DUPLICATE_TOOL_CALL_ID")
      (units "The model reused a tool-call identifier within the current session.")

-- The loop of `validateToolCallIds`; `ids` is the set `responseIds`.
unfoldable pub validate_from : List ToolCall → List Text → List Text → Option EchoError
validate_from [] seen ids = none
validate_from (c ∷ calls) seen ids =
    let rest = validate_from calls seen (add_text c.id ids) in
    if is_blank c.id
    then some invalid_id_error
    else if mem_text c.id seen || mem_text c.id ids
    then some duplicate_id_error
    else rest

unfoldable pub validate_tool_call_ids : List ToolCall → List Text → Option EchoError
unfolding validate_from
validate_tool_call_ids calls seen = validate_from calls seen []

abbrev pub truncation_marker : Text
truncation_marker = units "\n...[truncated]...\n"

pub record BoundedText : Type 0 where
  pub text : Text
  pub truncated : Bool

abbrev pub kept_chars : ℕ → ℕ
kept_chars limit = limit - length truncation_marker

-- `Math.ceil(kept / 2)`
abbrev pub head_chars : ℕ → ℕ
head_chars kept = (kept + 1) / 2

unfoldable pub bounded_text : Text → ℕ → BoundedText
bounded_text text limit =
    if leb (length text) limit then record { text = text; truncated = false } else record {
      text =
          take (head_chars (kept_chars limit)) text
          ++ truncation_marker
          ++ drop (length text - (kept_chars limit - head_chars (kept_chars limit))) text;
      truncated = true;
    }

-- The loop of `primitiveMetadata`.
abbrev primitive_entry : Text → Value → List (Text × Value) → List (Text × Value)
primitive_entry k null rest = (k, null) ∷ rest
primitive_entry k (string s) rest = (k, string s) ∷ rest
primitive_entry k (boolean b) rest = (k, boolean b) ∷ rest
primitive_entry k (number t) rest = (k, number t) ∷ rest
primitive_entry k _ rest = rest

abbrev primitive_entries : Fields → List (Text × Value)
primitive_entries end = []
primitive_entries (field k v fs) = primitive_entry k v (primitive_entries fs)
primitive_entries (accessor k v fs) = primitive_entry k v (primitive_entries fs)

abbrev unless_empty : List (Text × Value) → Option (List (Text × Value))
unless_empty [] = none
unless_empty (e ∷ m) = some (e ∷ m)

abbrev pub primitive_metadata : Value → Option (List (Text × Value))
primitive_metadata (object plain fields) = unless_empty (primitive_entries fields)
primitive_metadata _ = none

abbrev completed_with :
    ToolCall → Text → Value → Bool → ℕ → Outcome (Option Text) → Outcome ToolResult
completed_with c summary result truncated limit (ok (some json)) = ok (record {
  tool_call_id = c.id;
  tool_name = c.name;
  status = ToolStatus.completed;
  summary = summary;
  content = some (bounded_text json limit).text;
  metadata = primitive_metadata result;
  truncated = truncated || (bounded_text json limit).truncated;
})
-- `JSON.stringify` throws, or gives undefined, which has no length.
completed_with c summary result truncated limit (ok none) = thrown unknown
completed_with c summary result truncated limit (thrown e) = thrown e

unfoldable pub completed_result : ToolCall → Text → Value → Bool → ℕ → Outcome ToolResult
completed_result c summary result truncated limit =
    completed_with c summary result truncated limit (stringify result)

abbrev pub category_name : Category → Text
category_name Category.configuration = units "configuration"
category_name Category.provider_auth = units "provider_auth"
category_name Category.provider_rate_limit = units "provider_rate_limit"
category_name Category.provider_network = units "provider_network"
category_name Category.provider_protocol = units "provider_protocol"
category_name Category.invalid_tool_input = units "invalid_tool_input"
category_name Category.workspace_violation = units "workspace_violation"
category_name Category.policy_denied = units "policy_denied"
category_name Category.tool_timeout = units "tool_timeout"
category_name Category.tool_execution = units "tool_execution"
category_name Category.storage = units "storage"
category_name Category.cancelled = units "cancelled"
category_name Category.internal = units "internal"

abbrev plain_result : ToolCall → ToolStatus → Text → ToolResult
plain_result c status summary = record {
  tool_call_id = c.id;
  tool_name = c.name;
  status = status;
  summary = summary;
  content = none;
  metadata = none;
  truncated = false;
}

abbrev pub failed_result : ToolCall → EchoError → Text → ToolResult
failed_result c error summary = record (plain_result c ToolStatus.failed summary) {
  metadata = some (
      (units "category", string (category_name error.category))
      ∷ (units "code", string error.code)
      ∷ []);
}

abbrev pub denied_result : ToolCall → Text → ToolResult
denied_result c = plain_result c ToolStatus.denied

abbrev pub cancelled_result : ToolCall → Text → ToolResult
cancelled_result c = plain_result c ToolStatus.cancelled

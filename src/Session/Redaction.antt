-- ===== src/Session/Redaction.antt =====
-- session/redaction.ts: `redactValue` on a whole event. `redactText`, a chain of regular-expression
-- replacements, is the parameter `r`. It is taken to leave the event types and the other fixed
-- words alone, so those stay constructors; a value is a tree, in which no object occurs twice.
use echocoding_harness.Common.{true, List, [], ◌∷◌, if◌then◌else◌, Text, units, text_eq}
use mathlib.Core.Option
use echocoding_harness.Contracts.Value.{
  Value, null, boolean, number, non_finite, string, bigint, undefined, array, object, Items, nil,
  cons, Fields, end, field, accessor,
}
use echocoding_harness.Contracts.Error.{EchoError}
use echocoding_harness.Contracts.Event.{
  AgentResult, ToolCall, ToolResult, ProviderIdentity, Event, Payload, session_started,
  session_resumed, turn_started, step_started, context_projected, model_started, model_text,
  model_text_delta, model_reasoning, model_tool_call, model_completed, model_failed, model_changed,
  safety_changed, tool_requested, approval_requested, approval_granted, approval_denied,
  tool_authorized, tool_started, tool_completed, tool_failed, tool_denied, tool_cancelled,
  limit_reached, turn_completed, turn_failed, turn_cancelled,
}

-- The property is dropped: its redaction is undefined, its key is `cause`, or it is an accessor.
abbrev keep_field : Text → Value → Fields → Fields
keep_field key undefined rest = rest
keep_field key v rest = if text_eq key (units "cause") then rest else field key v rest

-- In an array an undefined item becomes null.
abbrev null_item : Value → Value
null_item undefined = null
null_item v = v

module _ (r : Text → Text) where
  unfoldable mutual
    pub redact_value : Value → Value
    redact_value null = null
    redact_value (boolean b) = boolean b
    redact_value (number t) = number t
    redact_value non_finite = non_finite
    redact_value (string s) = string (r s)
    redact_value (bigint t) = string t
    redact_value undefined = undefined
    redact_value (array items) = array (redact_items items)
    redact_value (object plain fields) = object true (redact_fields fields)

    pub redact_items : Items → Items
    redact_items nil = nil
    redact_items (cons v items) = cons (null_item (redact_value v)) (redact_items items)

    pub redact_fields : Fields → Fields
    redact_fields end = end
    redact_fields (field k v fs) = keep_field k (redact_value v) (redact_fields fs)
    redact_fields (accessor k v fs) = redact_fields fs

  abbrev redact_error : EchoError → EchoError
  redact_error e = record e { code = r e.code; message = r e.message }

  abbrev redact_call : ToolCall → ToolCall
  redact_call c = record { id = r c.id; name = r c.name; arguments = redact_value c.arguments }

  abbrev redact_metadata : List (Text × Value) → List (Text × Value)
  redact_metadata [] = []
  redact_metadata ((k, v) ∷ m) =
      let rest = redact_metadata m in
      if text_eq k (units "cause") then rest else (k, redact_value v) ∷ rest

  abbrev redact_result : ToolResult → ToolResult
  redact_result t = record t {
    tool_call_id = r t.tool_call_id;
    tool_name = r t.tool_name;
    summary = r t.summary;
    content = Option.map r t.content;
    metadata = Option.map redact_metadata t.metadata;
  }

  abbrev redact_agent_result : AgentResult → AgentResult
  redact_agent_result a = record a {
    session_id = r a.session_id;
    turn_id = r a.turn_id;
    final_text = Option.map r a.final_text;
    error = Option.map redact_error a.error;
  }

  abbrev redact_identity : ProviderIdentity → ProviderIdentity
  redact_identity p = record { endpoint_fingerprint = r p.endpoint_fingerprint }

  abbrev redact_details : List Value → List Value
  redact_details [] = []
  redact_details (v ∷ vs) = null_item (redact_value v) ∷ redact_details vs

  unfoldable pub redact_payload : Payload → Payload
  redact_payload (session_started w mode schema p model) =
      session_started (r w) mode schema (Option.map redact_identity p) (Option.map r model)
  redact_payload (session_resumed schema p model mode n) =
      session_resumed schema (redact_identity p) (r model) mode n
  redact_payload (turn_started goal) = turn_started (r goal)
  redact_payload (step_started n) = step_started n
  redact_payload (context_projected a b c) = context_projected a b c
  redact_payload (model_started p m f) = model_started (r p) (r m) (Option.map r f)
  redact_payload (model_text t p) = model_text (r t) p
  redact_payload (model_text_delta t) = model_text_delta (r t)
  redact_payload (model_reasoning x) = model_reasoning (record {
    reasoning = Option.map r x.reasoning;
    reasoning_content = Option.map r x.reasoning_content;
    reasoning_details = Option.map redact_details x.reasoning_details;
  })
  redact_payload (model_tool_call c) = model_tool_call (redact_call c)
  redact_payload (model_completed f i o) = model_completed f i o
  redact_payload (model_failed e n) = model_failed (redact_error e) n
  redact_payload (model_changed m p s) = model_changed (r m) (Option.map r p) (r s)
  redact_payload (safety_changed m p s) = safety_changed m p (r s)
  redact_payload (tool_requested c v) = tool_requested (redact_call c) (redact_value v)
  redact_payload (approval_requested i why k rule) =
      approval_requested (r i) (r why) (r k) (Option.map r rule)
  redact_payload (approval_granted i k scope) = approval_granted (r i) (r k) scope
  redact_payload (approval_denied i why rule o) =
      approval_denied (r i) (r why) (Option.map r rule) o
  redact_payload (tool_authorized i s rule why) =
      tool_authorized (r i) s (Option.map r rule) (Option.map r why)
  redact_payload (tool_started i n) = tool_started (r i) (r n)
  redact_payload (tool_completed t d) = tool_completed (redact_result t) d
  redact_payload (tool_failed t d) = tool_failed (redact_result t) d
  redact_payload (tool_denied t h rule) = tool_denied (redact_result t) h (Option.map r rule)
  redact_payload (tool_cancelled t p) = tool_cancelled (redact_result t) p
  redact_payload (limit_reached k n) = limit_reached k n
  redact_payload (turn_completed a) = turn_completed (redact_agent_result a)
  redact_payload (turn_failed a) = turn_failed (redact_agent_result a)
  redact_payload (turn_cancelled a) = turn_cancelled (redact_agent_result a)

  unfoldable pub redact_event : Event → Event
  unfolding redact_payload
  redact_event e = record e {
    id = r e.id;
    timestamp = r e.timestamp;
    session_id = r e.session_id;
    turn_id = Option.map r e.turn_id;
    step_id = Option.map r e.step_id;
    payload = redact_payload e.payload;
  }

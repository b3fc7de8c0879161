-- ===== src/Contracts/Event.antt =====
-- contracts/{agent,model,tools,safety,context,events}.ts: the event log of a session. The `type` of
-- an event and its payload are one constructor; optional fields are `Option`. Of `context.projected`
-- the optional fields, which the loop never sets, are left out, and so are `details` of an error.
use echocoding_harness.Common.{Bool, true, false, ℕ, Option, none, some, List, Text}
use echocoding_harness.Contracts.Value.{Value}
use echocoding_harness.Contracts.Error.{EchoError}

pub data SafetyMode : Type 0 where
  safe balanced auto full_access : SafetyMode

pub data StopReason : Type 0 where
  completed max_steps repeated_tool_call output_limit : StopReason
  policy_denied provider_error tool_error cancelled : StopReason

pub data Status : Type 0 where
  completed failed cancelled limited : Status

pub record AgentResult : Type 0 where
  pub session_id : Text
  pub turn_id : Text
  pub status : Status
  pub stop_reason : StopReason
  pub final_text : Option Text
  pub steps : ℕ
  pub tool_calls : ℕ
  pub error : Option EchoError

pub record ToolCall : Type 0 where
  pub id : Text
  pub name : Text
  pub arguments : Value

pub data FinishReason : Type 0 where
  stop tool_calls length content_filter unknown : FinishReason

pub record Reasoning : Type 0 where
  pub reasoning : Option Text
  pub reasoning_content : Option Text
  pub reasoning_details : Option (List Value)

pub data ToolStatus : Type 0 where
  completed failed denied cancelled : ToolStatus

pub record ToolResult : Type 0 where
  pub tool_call_id : Text
  pub tool_name : Text
  pub status : ToolStatus
  pub summary : Text
  pub content : Option Text
  pub metadata : Option (List (Text × Value))
  pub truncated : Bool

pub record ProviderIdentity : Type 0 where
  pub endpoint_fingerprint : Text

pub data ApprovalScope : Type 0 where
  once session : ApprovalScope

pub data Source : Type 0 where
  policy approval : Source

pub data DenialOutcome : Type 0 where
  denied failed : DenialOutcome

pub data CancelPhase : Type 0 where
  approval authorized execution : CancelPhase

pub data LimitKind : Type 0 where
  max_steps repeated_tool_call context_budget : LimitKind

pub data Payload : Type 0 where
  session_started :
      (workspace : Text)
      → SafetyMode
      → (schema : Option ℕ) → Option ProviderIdentity
      → (model : Option Text) → Payload
  session_resumed :
      (schema : ℕ) → ProviderIdentity → (model : Text) → SafetyMode → (turn_count : ℕ) → Payload
  turn_started : (goal : Text) → Payload
  step_started : (step : ℕ) → Payload
  context_projected : (tokens omitted truncations : ℕ) → Payload
  model_started : (provider model : Text) → Option Text → Payload
  model_text : (text : Text) → (is_partial : Bool) → Payload
  model_text_delta : (delta : Text) → Payload
  model_reasoning : Reasoning → Payload
  model_tool_call : ToolCall → Payload
  model_completed : FinishReason → (input output : Option ℕ) → Payload
  model_failed : EchoError → (attempt : Option ℕ) → Payload
  model_changed : (model : Text) → (previous : Option Text) → (source : Text) → Payload
  safety_changed : SafetyMode → (previous : Option SafetyMode) → (source : Text) → Payload
  tool_requested : ToolCall → (input : Value) → Payload
  approval_requested : (call_id reason key : Text) → (rule : Option Text) → Payload
  approval_granted : (call_id key : Text) → ApprovalScope → Payload
  approval_denied : (call_id reason : Text) → (rule : Option Text) → Option DenialOutcome → Payload
  tool_authorized : (call_id : Text) → Source → (rule reason : Option Text) → Payload
  tool_started : (call_id name : Text) → Payload
  tool_completed : ToolResult → (duration : ℕ) → Payload
  tool_failed : ToolResult → (duration : ℕ) → Payload
  tool_denied : ToolResult → (hard : Bool) → (rule : Option Text) → Payload
  tool_cancelled : ToolResult → CancelPhase → Payload
  limit_reached : LimitKind → (limit : ℕ) → Payload
  turn_completed : AgentResult → Payload
  turn_failed : AgentResult → Payload
  turn_cancelled : AgentResult → Payload

pub record Event : Type 0 where
  pub id : Text
  pub sequence : ℕ
  pub timestamp : Text
  pub session_id : Text
  pub turn_id : Option Text
  pub step_id : Option Text
  pub payload : Payload

-- `isToolTerminalEvent`, with the result of the event.
unfoldable pub terminal_result : Payload → Option ToolResult
terminal_result (tool_completed r _) = some r
terminal_result (tool_failed r _) = some r
terminal_result (tool_denied r _ _) = some r
terminal_result (tool_cancelled r _) = some r
terminal_result _ = none

unfoldable pub is_tool_terminal_event : Payload → Bool
is_tool_terminal_event (tool_completed _ _) = true
is_tool_terminal_event (tool_failed _ _) = true
is_tool_terminal_event (tool_denied _ _ _) = true
is_tool_terminal_event (tool_cancelled _ _) = true
is_tool_terminal_event _ = false

-- ===== src/Agent/Interface.antt =====
-- agent/agent-loop.ts: the options of the loop and what it is given to work with. The provider, the
-- policy, the approval handler, the tools, the session store, the observer, the clocks, the id
-- factory and the abort signal act on a state `W` of the world, which every call may change.
use echocoding_harness.Common.{ℕ, Bool, Option, List, Text}
use echocoding_harness.Contracts.Value.{Value}
use echocoding_harness.Contracts.Error.{EchoError, Outcome}
use echocoding_harness.Contracts.Event.{
  SafetyMode, ToolCall, FinishReason, Reasoning, ProviderIdentity, Event,
}
use echocoding_harness.Tools.Registry.{ToolDefinition}

pub data StreamEvent : Type 0 where
  text_delta : (delta : Text) → StreamEvent
  reasoning_delta : (delta : Reasoning) → StreamEvent
  tool_call_delta : (call_id delta : Text) → StreamEvent
  tool_call : ToolCall → StreamEvent
  usage : (input output : Option ℕ) → StreamEvent
  completed : FinishReason → StreamEvent

pub record ContextBudget : Type 0 where
  pub max_approx_tokens : ℕ
  pub reserved_output_tokens : ℕ

pub data Message : Type 0 where
  system : (content : Text) → Message
  user : (content : Text) → Message
  assistant : (content : Text) → Reasoning → List ToolCall → Message
  tool : (call_id content : Text) → Message

pub record Truncation : Type 0 where
  pub reason : Text
  pub original_size : ℕ
  pub kept_size : ℕ

pub record Projection : Type 0 where
  pub messages : List Message
  pub approximate_tokens : ℕ
  pub omitted_event_count : ℕ
  pub truncations : List Truncation

pub record ModelRequest : Type 0 where
  pub model : Text
  pub messages : List Message
  pub tools : List ToolDefinition
  pub max_output_tokens : ℕ

pub data Decision : Type 0 where
  allow : (reason rule : Text) → Decision
  ask : (reason key rule : Text) → Decision
  deny : (reason : Text) → (hard : Bool) → (rule : Text) → Decision

pub record PolicyRequest : Type 0 where
  pub mode : SafetyMode
  pub tool_name : Text
  pub input : Value
  pub workspace_root : Text
  pub session_approvals : List Text

pub data Choice : Type 0 where
  once session deny : Choice

pub record ApprovalRequest : Type 0 where
  pub call : ToolCall
  pub input : Value
  pub reason : Text
  pub key : Text
  pub turn_id : Text

pub record ToolLimits : Type 0 where
  pub timeout_ms : ℕ
  pub max_output_chars : ℕ

pub record ToolContext : Type 0 where
  pub session_id : Text
  pub turn_id : Text
  pub step_id : Text
  pub call_id : Text
  pub workspace_root : Text
  pub limits : ToolLimits

pub data Execution : Type 0 where
  completed : (summary : Text) → (result : Value) → (truncated : Bool) → Execution
  failed : (summary : Text) → EchoError → (truncated : Bool) → Execution

pub data IdKind : Type 0 where
  session turn step event : IdKind

pub record Env (W : Type 0) : Type 0 where
  pub fresh : IdKind → W → Text × W
  pub now : W → Text × W
  -- milliseconds
  pub monotonic : W → ℕ × W
  pub aborted : W → Bool
  pub append : Event → W → Outcome (Unit {0}) × W
  pub read : Text → W → Outcome (List Event) × W
  -- `onEvent`; what it throws is ignored
  pub notify : Event → W → W
  pub redact : Text → Text
  pub build : List Event → ContextBudget → Outcome Projection
  -- the events that the stream delivers, and whether it ends or throws after them
  pub stream : ModelRequest → W → (List StreamEvent × Outcome (Unit {0})) × W
  pub definitions : W → List ToolDefinition
  pub has : Text → W → Bool
  pub evaluate : PolicyRequest → W → Outcome Decision × W
  pub approve : Option (ApprovalRequest → W → Outcome Choice × W)
  -- none where the tool is not registered (any more)
  pub execute : Text → Value → ToolContext → W → Outcome (Option Execution) × W

pub record Options : Type 0 where
  pub model : Text
  pub provider_name : Text
  pub provider_identity : Option ProviderIdentity
  pub workspace_root : Text
  pub safety_mode : SafetyMode
  pub max_steps : ℕ
  pub repeated_tool_call_limit : Option ℕ
  pub context_budget : ContextBudget
  pub tool_limits : ToolLimits

-- `TurnState`, with the world beside it.
pub record State (W : Type 0) : Type 0 where
  pub world : W
  pub session_id : Text
  pub turn_id : Text
  pub events : List Event
  pub approvals : List Text
  pub signatures : List (Text × ℕ)
  pub seen_tool_call_ids : List Text
  pub sequence : ℕ
  pub steps : ℕ
  pub tool_calls : ℕ

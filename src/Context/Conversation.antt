-- ===== src/Context/Conversation.antt =====
-- context/event-context-builder.ts: `collectConversation` and its helpers. The numbers of turns are
-- one more than those of the code, so that 0 stands for its -1, before any turn.
use echocoding_harness.Common.{
  ℕ, ◌+◌, Bool, true, false, not, ◌&&◌, ◌||◌, ◌==◌, Option, none, some, List, [], ◌∷◌, ◌++◌,
  if◌then◌else◌, is_some, Text, units, text_eq,
}
use echocoding_harness.Contracts.Value.{Value}
use echocoding_harness.Contracts.Error.{EchoError, Outcome, ok, thrown}
use echocoding_harness.Contracts.Event.{
  Payload, Event, ToolCall, ToolStatus, ToolResult, Reasoning, Status, StopReason, AgentResult,
  terminal_result, turn_started, step_started, model_text, model_text_delta, model_reasoning,
  model_tool_call, turn_failed, turn_cancelled,
}
use echocoding_harness.Context.Digests.{TextKind, aggregated, delta, text_chunk, ◌>>=◌}

pub record ToolMessage : Type 0 where
  pub call_id : Text
  pub tool_name : Text
  pub status : ToolStatus
  pub content : Text

pub record ConversationTurn : Type 0 where
  pub turn_index : ℕ
  pub user : Option Text
  pub content : Text
  pub text_kind : Option TextKind
  pub tool_calls : List ToolCall
  pub reasoning : Reasoning
  pub tool_messages : List ToolMessage
  pub outcome : Option Text

abbrev pub is_empty {ℓ} : {A : Type ℓ} → List A → Bool
is_empty [] = true
is_empty (_ ∷ _) = false

-- `text !== undefined && text.length > 0`
abbrev pub is_visible : Option Text → Bool
is_visible none = false
is_visible (some t) = not (is_empty t)

unfoldable pub conversation_has_content : ConversationTurn → Bool
conversation_has_content t =
    is_visible t.user
    || not (is_empty t.content)
    || not (is_empty t.tool_calls)
    || not (is_empty t.tool_messages)
    || is_some t.outcome

abbrev pub status_name : Status → Text
status_name Status.completed = units "completed"
status_name Status.failed = units "failed"
status_name Status.cancelled = units "cancelled"
status_name Status.limited = units "limited"

abbrev pub stop_reason_name : StopReason → Text
stop_reason_name StopReason.completed = units "completed"
stop_reason_name StopReason.max_steps = units "max_steps"
stop_reason_name StopReason.repeated_tool_call = units "repeated_tool_call"
stop_reason_name StopReason.output_limit = units "output_limit"
stop_reason_name StopReason.policy_denied = units "policy_denied"
stop_reason_name StopReason.provider_error = units "provider_error"
stop_reason_name StopReason.tool_error = units "tool_error"
stop_reason_name StopReason.cancelled = units "cancelled"

abbrev pub is_output_limit : StopReason → Bool
is_output_limit StopReason.output_limit = true
is_output_limit _ = false

abbrev pub is_cancelled_status : Status → Bool
is_cancelled_status Status.cancelled = true
is_cancelled_status _ = false

abbrev pub has_code : Text → Option EchoError → Bool
has_code code none = false
has_code code (some e) = text_eq e.code code

-- `formatTurnOutcome`, for the result of a failed or cancelled turn.
unfoldable pub format_turn_outcome : AgentResult → Text
format_turn_outcome r =
    if is_output_limit r.stop_reason
    then units "Turn limited: the response may be incomplete."
    else if has_code (units "PROVIDER_REASONING_BUDGET_EXHAUSTED") r.error
    then units
        "Turn failed: provider reasoning exhausted the output budget; no tool call was executed."
    else if has_code (units "PROVIDER_EMPTY_RESPONSE") r.error
    then units "Turn failed: the model returned an empty response."
    else if is_cancelled_status r.status
    then units "Turn cancelled before a visible response or tool call completed."
    else units "Turn "
      ++ status_name r.status
      ++ units ": "
      ++ stop_reason_name r.stop_reason
      ++ units "."

abbrev count_turn : Payload → ℕ → ℕ
count_turn (turn_started _) n = n + 1
count_turn _ n = n

-- `latestTurnIndex`, by one more.
unfoldable pub latest_turn : List Event → ℕ
latest_turn [] = 0
latest_turn (e ∷ es) = count_turn e.payload (latest_turn es)

-- The variables of the loop.
pub record Collector : Type 0 where
  pub turns : List ConversationTurn
  pub current : Option ConversationTurn
  pub turn_user : Option Text
  pub pending : ℕ
  pub next : ℕ
  pub first_fragment : Bool

abbrev pub nothing_collected : Collector
nothing_collected = record {
  turns = [];
  current = none;
  turn_user = none;
  pending = 0;
  next = 0;
  first_fragment = true;
}

abbrev pub no_reasoning : Reasoning
no_reasoning = record { reasoning = none; reasoning_content = none; reasoning_details = none }

abbrev pub new_turn : ℕ → Option Text → ConversationTurn
new_turn index user = record {
  turn_index = index;
  user = user;
  content = [];
  text_kind = none;
  tool_calls = [];
  reasoning = no_reasoning;
  tool_messages = [];
  outcome = none;
}

abbrev pub prepend : Option Text → Text → Text
prepend none t = t
prepend (some s) t = s ++ t

-- One text of the reasoning of a fragment, with the text of an event.
abbrev pub joined : Option Text → Option Text → Option Text
joined old none = old
joined old (some t) = some (prepend old t)

abbrev pub joined_details : Option (List Value) → Option (List Value) → Option (List Value)
joined_details old none = old
joined_details none (some d) = some d
joined_details (some old) (some d) = some (old ++ d)

abbrev pub join_reasoning : Reasoning → Reasoning → Reasoning
join_reasoning old new = record {
  reasoning = joined old.reasoning new.reasoning;
  reasoning_content = joined old.reasoning_content new.reasoning_content;
  reasoning_details = joined_details old.reasoning_details new.reasoning_details;
}

abbrev or_summary : Option Text → Text → Text
or_summary none summary = summary
or_summary (some content) summary = content

abbrev pub message_of : ToolResult → ToolMessage
message_of r = record {
  call_id = r.tool_call_id;
  tool_name = r.tool_name;
  status = r.status;
  content = or_summary r.content r.summary;
}

module _ (latest : ℕ) where
  -- `startFragment`: the fragment, which becomes the current one.
  abbrev pub fragment_user : Collector → Option Text
  fragment_user c = if c.first_fragment && not (c.pending == latest) then c.turn_user else none

  abbrev pub start_fragment : Collector → ConversationTurn
  start_fragment c = new_turn c.pending (fragment_user c)

  -- `current ??= startFragment()`, and what the event makes of it.
  abbrev pub edit :
      Option ConversationTurn → (ConversationTurn → ConversationTurn) → Collector → Collector
  edit none f c = record c { current = some (f (start_fragment c)); first_fragment = false }
  edit (some t) f c = record c { current = some (f t) }

  abbrev pub push_user_only : Collector → Collector
  push_user_only c =
      if is_visible c.turn_user && not (c.pending == latest) && c.first_fragment
      then record c {
        turns = c.turns ++ new_turn c.pending c.turn_user ∷ [];
        first_fragment = false;
      }
      else c

  abbrev pub push_current : ConversationTurn → Collector → Collector
  push_current t c =
      if conversation_has_content t
      then record c { turns = c.turns ++ t ∷ []; current = none }
      else record c { current = none }

  abbrev pub flush : Option ConversationTurn → Collector → Collector
  flush none c = push_user_only c
  flush (some t) c = push_current t c

  unfoldable pub flush_turn : Collector → Collector
  unfolding conversation_has_content
  flush_turn c = flush c.current c

  abbrev pub open_turn : Text → Collector → Collector
  open_turn goal c = record c {
    turn_user = some goal;
    pending = c.next + 1;
    next = c.next + 1;
    first_fragment = true;
  }

  -- At `step.started` a fragment without content goes on.
  abbrev pub close_fragment : Option ConversationTurn → Collector → Collector
  close_fragment none c = c
  close_fragment (some t) c =
      if conversation_has_content t
      then record c { turns = c.turns ++ t ∷ []; current = none }
      else c

  abbrev pub kind_of : Option ConversationTurn → Option TextKind
  kind_of none = none
  kind_of (some t) = t.text_kind

  abbrev pub add_text_chunk : TextKind → Text → Collector → Outcome Collector
  add_text_chunk kind chunk c = do
    next ← text_chunk (kind_of c.current) kind chunk
    ok (edit c.current (λ t. record t { text_kind = some next.0; content = t.content ++ next.1 }) c)

  abbrev pub add_message : Option ToolResult → Option ConversationTurn → Collector → Collector
  add_message (some r) (some t) c = record c {
    current = some (record t { tool_messages = t.tool_messages ++ message_of r ∷ [] });
  }
  add_message _ _ c = c

  unfoldable pub collect_event : Payload → Collector → Outcome Collector
  unfolding flush_turn text_chunk format_turn_outcome conversation_has_content
  collect_event (turn_started goal) c = ok (open_turn goal (flush_turn c))
  collect_event (step_started _) c = ok (close_fragment c.current c)
  collect_event (model_text text _) c = add_text_chunk aggregated text c
  collect_event (model_text_delta text) c = add_text_chunk delta text c
  collect_event (model_reasoning r) c =
      ok (edit c.current (λ t. record t { reasoning = join_reasoning t.reasoning r }) c)
  collect_event (model_tool_call call) c =
      ok (edit c.current (λ t. record t { tool_calls = t.tool_calls ++ call ∷ [] }) c)
  collect_event (turn_failed r) c =
      ok (edit c.current (λ t. record t { outcome = some (format_turn_outcome r) }) c)
  collect_event (turn_cancelled r) c =
      ok (edit c.current (λ t. record t { outcome = some (format_turn_outcome r) }) c)
  collect_event p c = ok (add_message (terminal_result p) c.current c)

  unfoldable pub collect_events : List Event → Collector → Outcome Collector
  unfolding collect_event
  collect_events [] c = ok c
  collect_events (e ∷ es) c = do next ← collect_event e.payload c; collect_events es next

  abbrev pub turns_of : Outcome Collector → Outcome (List ConversationTurn)
  turns_of (ok c) = ok (flush_turn c).turns
  turns_of (thrown e) = thrown e

unfoldable pub collect_conversation : List Event → Outcome (List ConversationTurn)
unfolding collect_events
collect_conversation events =
    turns_of (latest_turn events) (collect_events (latest_turn events) events nothing_collected)

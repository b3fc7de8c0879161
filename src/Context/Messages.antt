-- ===== src/Context/Messages.antt =====
-- context/event-context-builder.ts: the messages of a turn, the measure of messages and the goal.
pub mod Pairing
use echocoding_harness.Common.{
  ℕ, ◌+◌, Bool, true, not, ◌&&◌, ◌||◌, Option, none, some, List, [], ◌∷◌, ◌++◌, any, filter,
  if◌then◌else◌, is_some, Text, units, text_eq,
}
use echocoding_harness.Contracts.Value.{Value, string, array, object, Items, nil, cons, end, field}
use echocoding_harness.Contracts.Event.{
  Payload, Event, ToolCall, ToolStatus, Reasoning, turn_started,
}
use echocoding_harness.Agent.Interface.{Message, system, user, assistant, tool, Truncation}
use echocoding_harness.Context.Trim.{
  approx_tokens_for_text, approx_tokens_for_value, TrimResult, truncate_to_limit,
}
use echocoding_harness.Context.Conversation.{ToolMessage, ConversationTurn, is_empty}

-- A call as the object that the message holds.
abbrev pub call_value : ToolCall → Value
call_value c = object true (
    field (units "id") (string c.id)
      (field (units "name") (string c.name) (field (units "arguments") c.arguments end)))

abbrev pub items_of : List Value → Items
items_of [] = nil
items_of (v ∷ vs) = cons v (items_of vs)

abbrev pub call_tokens : List ToolCall → ℕ
call_tokens [] = 0
call_tokens (c ∷ calls) = approx_tokens_for_value (call_value c) + call_tokens calls

abbrev pub or_empty : Option Text → Text
or_empty none = []
or_empty (some t) = t

abbrev pub detail_tokens : Option (List Value) → ℕ
detail_tokens none = 0
detail_tokens (some details) = approx_tokens_for_value (array (items_of details))

unfoldable pub message_tokens : Message → ℕ
message_tokens (system content) = approx_tokens_for_text content
message_tokens (user content) = approx_tokens_for_text content
message_tokens (tool _ content) = approx_tokens_for_text content
message_tokens (assistant content r calls) =
    approx_tokens_for_text content
    + call_tokens calls
    + approx_tokens_for_text (or_empty r.reasoning)
    + approx_tokens_for_text (or_empty r.reasoning_content)
    + detail_tokens r.reasoning_details

unfoldable pub projection_tokens : List Message → ℕ
unfolding message_tokens
projection_tokens [] = 0
projection_tokens (m ∷ ms) = message_tokens m + projection_tokens ms

abbrev pub tool_status_name : ToolStatus → Text
tool_status_name ToolStatus.completed = units "completed"
tool_status_name ToolStatus.failed = units "failed"
tool_status_name ToolStatus.denied = units "denied"
tool_status_name ToolStatus.cancelled = units "cancelled"

-- The result answers the call.
unfoldable pub answers : ToolMessage → ToolCall → Bool
answers r c = text_eq r.call_id c.id && text_eq r.tool_name c.name

unfoldable pub paired_calls : ConversationTurn → List ToolCall
unfolding answers
paired_calls t = filter (λ c. any (λ r. answers r c) t.tool_messages) t.tool_calls

unfoldable pub paired_results : ConversationTurn → List ToolMessage
unfolding answers paired_calls
paired_results t = filter (λ r. any (λ c. answers r c) (paired_calls t)) t.tool_messages

abbrev pub has_reasoning : Reasoning → Bool
has_reasoning r = is_some r.reasoning || is_some r.reasoning_content || is_some r.reasoning_details

unfoldable pub user_messages : Option Text → List Message
user_messages none = []
user_messages (some []) = []
user_messages (some (c ∷ t)) = user (c ∷ t) ∷ []

unfoldable pub assistant_messages : ConversationTurn → List Message
assistant_messages t =
    if not (is_empty t.content) || not (is_empty (paired_calls t)) || has_reasoning t.reasoning
    then assistant t.content t.reasoning (paired_calls t) ∷ []
    else []

abbrev pub result_message : ToolMessage → Text → Message
result_message r text =
    tool r.call_id (units "[" ++ tool_status_name r.status ++ units "] " ++ text)

unfoldable pub result_messages : ℕ → List ToolMessage → List Message
result_messages limit [] = []
result_messages limit (r ∷ rs) =
    result_message r (truncate_to_limit r.content limit).text ∷ result_messages limit rs

abbrev pub result_truncation : TrimResult → List Truncation
result_truncation trimmed =
    if trimmed.truncated
    then record {
      reason = units "tool result exceeded context limit";
      original_size = trimmed.original_size;
      kept_size = trimmed.kept_size;
    }
      ∷ []
    else []

unfoldable pub result_truncations : ℕ → List ToolMessage → List Truncation
result_truncations limit [] = []
result_truncations limit (r ∷ rs) =
    result_truncation (truncate_to_limit r.content limit) ++ result_truncations limit rs

-- `conversationMessages`, and what it adds to the truncations.
unfoldable pub conversation_messages : ℕ → ConversationTurn → List Message × List Truncation
unfolding paired_results user_messages assistant_messages result_messages result_truncations
conversation_messages limit t = (
  user_messages t.user ++ assistant_messages t ++ result_messages limit (paired_results t),
  result_truncations limit (paired_results t),
)

abbrev pub later_goal : Payload → Option Text → Option Text
later_goal p (some goal) = some goal
later_goal (turn_started goal) none = some goal
later_goal _ none = none

-- The goal of the last turn.
unfoldable pub goal_of : List Event → Option Text
goal_of [] = none
goal_of (e ∷ es) = later_goal e.payload (goal_of es)

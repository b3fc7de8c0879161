-- ===== src/Context/Tests.antt =====
-- The projection of small logs, and the theorems at them.
use echocoding_harness.Common.{
  ℕ, suc, ◌≤◌, max, ◌≡◌, refl, false, none, some, List, [], ◌∷◌, units, text_eq, decimal,
}
use echocoding_harness.Contracts.Json.{quote, stringify, stringify_items, stringify_fields}
use echocoding_harness.Contracts.Value.{null}
use echocoding_harness.Contracts.Error.{Outcome, ok, thrown}
use echocoding_harness.Contracts.Event.{
  terminal_result, Payload, Event, ToolResult, ToolStatus, turn_started, step_started, model_text,
  model_tool_call, tool_completed,
}
use echocoding_harness.Agent.Interface.{ContextBudget, Projection}
use echocoding_harness.Agent.Calls.{is_white, is_blank}
use echocoding_harness.Context.Trim.{
  approx_tokens_for_text, safe_json_stringify, approx_tokens_for_value, truncate_to_limit,
}
use echocoding_harness.Context.Digests.{
  collect_step_digests, digests_from, digest_event, text_chunk, tool_result_content,
  render_step_digest, render_summary_line, argument_text, call_lines, join_lines,
}
use echocoding_harness.Context.Conversation.{
  collect_conversation, collect_events, collect_event, flush_turn, conversation_has_content,
  latest_turn, format_turn_outcome,
}
use echocoding_harness.Context.Messages.{
  message_tokens, projection_tokens, conversation_messages, answers, paired_calls, paired_results,
  user_messages, assistant_messages, result_messages, result_truncations, goal_of,
}
use echocoding_harness.Context.Build.{
  BuilderOptions, build, build_from, keep_turns, summary_lines, summarize, fit_summary, assemble,
  fixed_messages, fixed_tokens, budget_for_messages, last_turns, omitted_events,
}
use echocoding_harness.Context.Build.Fits.{uncut, build-fits}
use echocoding_harness.Context.Build.Request.{Sendable, build-Sendable}

eval : Unit {0}
unfolding terminal_result units text_eq decimal quote stringify stringify_items stringify_fields
    is_white is_blank approx_tokens_for_text safe_json_stringify approx_tokens_for_value
    truncate_to_limit collect_step_digests digests_from digest_event text_chunk tool_result_content
    render_step_digest render_summary_line argument_text call_lines join_lines collect_conversation
    collect_events collect_event flush_turn conversation_has_content latest_turn format_turn_outcome
    message_tokens projection_tokens conversation_messages answers paired_calls paired_results
    user_messages assistant_messages result_messages result_truncations goal_of build build_from
    keep_turns summary_lines summarize fit_summary assemble fixed_messages fixed_tokens
    budget_for_messages last_turns omitted_events uncut
eval = tt

abbrev event_of : ℕ → Payload → Event
event_of n p = record {
  id = [];
  sequence = n;
  timestamp = [];
  session_id = [];
  turn_id = none;
  step_id = none;
  payload = p;
}

abbrev numbered : ℕ → List Payload → List Event
numbered n [] = []
numbered n (p ∷ ps) = event_of n p ∷ numbered (suc n) ps

abbrev read_result : ToolResult
read_result = record {
  tool_call_id = units "call-1";
  tool_name = units "read_file";
  status = ToolStatus.completed;
  summary = units "read";
  content = some (units "text");
  metadata = none;
  truncated = false;
}

-- A turn with a tool call, and the start of a second one.
abbrev two_turns : List Event
two_turns = numbered 1 (
    turn_started (units "first goal")
    ∷ step_started 1
    ∷ model_text
        (units
          "A first answer that is longer than the room which the second turn leaves for it in its request.")
        false
    ∷ model_tool_call (record { id = units "call-1"; name = units "read_file"; arguments = null })
    ∷ tool_completed read_result 5
    ∷ turn_started (units "goal")
    ∷ step_started 1
    ∷ [])

abbrev options : BuilderOptions
options = record {
  system_prompt = units "rule";
  workspace_summary = none;
  tool_result_max_chars = none;
}

abbrev budget_of : ℕ → ContextBudget
budget_of n = record { max_approx_tokens = n; reserved_output_tokens = 0 }

-- Where nothing can be built, an empty projection.
abbrev or_none : Outcome Projection → Projection
or_none (ok p) = p
or_none (thrown _) = record {
  messages = [];
  approximate_tokens = 0;
  omitted_event_count = 0;
  truncations = [];
}

abbrev wide : Projection
wide = or_none (build options two_turns (budget_of 100))

build-fits_example :
    wide.approximate_tokens
    ≤ max
        (budget_for_messages (budget_of 100))
        (fixed_tokens options (latest_turn two_turns) (goal_of two_turns))
unfolding eval
build-fits_example = build-fits options two_turns (budget_of 100) wide refl refl

build-Sendable_example : Sendable options (goal_of two_turns) wide
unfolding eval
build-Sendable_example = build-Sendable options two_turns (budget_of 100) wide refl

-- The mark of a cut summary is not counted against the budget: 21 tokens are built for 12.
over_budget_test : (or_none (build options two_turns (budget_of 12))).approximate_tokens ≡ 21
unfolding eval
over_budget_test = refl

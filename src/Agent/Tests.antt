-- ===== src/Agent/Tests.antt =====
-- The agent loop, run in the world of `Agent.Demo`, and the theorems at concrete inputs.
use echocoding_harness.Common.{units, text_eq, mem_text, add_text, lookup, insert, decimal}
use echocoding_harness.Contracts.Json.{quote, stringify, stringify_items, stringify_fields}
use echocoding_harness.Contracts.Event.{is_tool_terminal_event}
use echocoding_harness.Tools.Normalize.{
  insert_field, insert_accessor, normalize_tool_input, tool_call_signature, sorted, sorted_items,
  sorted_fields, check_node, check_items, check_fields,
}
use echocoding_harness.Session.Redaction.{redact_event, redact_value}
use echocoding_harness.Provider.Reasoning.{aggregate_reasoning}
use echocoding_harness.Agent.Action.{
  pure, throw, gets, invoke, await, settle, modify, ◌>>=◌, try_catch,
}
use echocoding_harness.Agent.Calls.{
  is_white, is_blank, validate_from, validate_tool_call_ids, bounded_text, completed_result,
}
use echocoding_harness.Agent.Emit.{
  create_event, emit, report, finish_failed, finish_limited, finish_cancelled,
}
use echocoding_harness.Agent.Dispatch.{
  elapsed, cancel, fail, lift, conclude, settle_execution, run_tool, on_throw, start_tool,
  authorize, refuse, grant, after_choice, ask_handler, request_approval, ask_user, on_decision,
  after_evaluation, evaluate, count_signature, deny_repeated, limit_repeats, after_normalization,
  dispatch_tool,
}
use echocoding_harness.Agent.Response.{receive, receive_all}
use echocoding_harness.Agent.Steps.{
  persist_payload, persist_reasoning, persist_text, complete, unless_stopped, dispatch_all,
  finish_by, finish_stopped, reach_max_steps, after_tools, run_tools, conclude_response,
  record_calls, after_validation, answered, stream_failed, ended, received, after_projection,
  project, start_step, run_step, steps_from, run_steps, execute_turn,
}
use echocoding_harness.Agent.Turn.{
  valid_options, restore, create_state, handle_turn_exception, run_turn, run, continue_session,
}
use echocoding_harness.Common.{
  ℕ, zero, suc, ◌≤◌, ◌↔◌, ◌≡◌, refl, arith, false, true, not, ◌&&◌, leb, max, length, take, drop,
  Option, none, some, List, [], ◌∷◌,
}
use echocoding_harness.Contracts.Error.{Outcome, ok, thrown, unknown}
use echocoding_harness.Contracts.Event.{
  AgentResult, Status, StopReason, Event, session_started, SafetyMode,
}
use echocoding_harness.Agent.Interface.{State, Env, deny}
use echocoding_harness.Contracts.Event.{tool_requested, turn_started}
use echocoding_harness.Contracts.Value.{null}
use echocoding_harness.Agent.Denial.{Denies, replaced, dispatch_tool-Denies}
use echocoding_harness.Agent.Protocol.Order.{follow, InOrder}
use echocoding_harness.Agent.Protocol.Closing.{Over}
use echocoding_harness.Agent.Protocol.Steps.{execute_turn-InOrder}
use echocoding_harness.Agent.Protocol.Audit.{requests, terminals, Authorizes}
use echocoding_harness.Agent.Protocol.Turns.{after, requests-eq-terminals, started-authorized}
use echocoding_harness.Agent.Ensures.{Settles}
use echocoding_harness.Agent.Keeps.Numbering.{Ascending}
use echocoding_harness.Agent.Keeps.Logs.{
  Finished, run-Finished, Continued, continue_session-Finished,
}
use echocoding_harness.Agent.Calls.Ids.{
  visible, apart, distinct, ids_of, validate_tool_call_ids_iff,
}
use echocoding_harness.Agent.Calls.Bounds.{bounded_text_lem}
use echocoding_harness.Agent.Demo.{World, demo_call, demo_env, demo_options, demo_world}

loop : Unit {0}
unfolding units text_eq mem_text add_text lookup insert decimal quote stringify stringify_items
    stringify_fields is_tool_terminal_event insert_field insert_accessor normalize_tool_input
    tool_call_signature sorted sorted_items sorted_fields check_node check_items check_fields
    redact_event redact_value aggregate_reasoning pure throw gets invoke await settle modify ◌>>=◌
    try_catch is_white is_blank validate_from validate_tool_call_ids bounded_text completed_result
    create_event emit report finish_failed finish_limited finish_cancelled elapsed cancel fail lift
    conclude settle_execution run_tool on_throw start_tool authorize refuse grant after_choice
    ask_handler request_approval ask_user on_decision after_evaluation evaluate count_signature
    deny_repeated limit_repeats after_normalization dispatch_tool receive receive_all
    persist_payload persist_reasoning persist_text complete unless_stopped dispatch_all finish_by
    finish_stopped reach_max_steps after_tools run_tools conclude_response record_calls
    after_validation answered stream_failed ended received after_projection project start_step
    run_step steps_from run_steps execute_turn valid_options restore create_state
    handle_turn_exception run_turn run continue_session
loop = tt

abbrev status_of : Outcome AgentResult → Option Status
status_of (ok r) = some r.status
status_of (thrown _) = none

run_test : status_of (run demo_env demo_options (units "fix") demo_world).0 ≡ some Status.completed
unfolding loop
run_test = refl

abbrev demo_state : State World
demo_state = create_state demo_env (units "session-1") [] demo_world

execute_turn-InOrder_example :
    Settles Over InOrder
      (execute_turn demo_env demo_options (units "fix") demo_state).0
      (execute_turn demo_env demo_options (units "fix") demo_state).1
unfolding follow create_state restore
execute_turn-InOrder_example =
    execute_turn-InOrder demo_env demo_options (units "fix") demo_state refl

abbrev demo_result : AgentResult
demo_result = record {
  session_id = units "session-1";
  turn_id = units "0";
  status = Status.completed;
  stop_reason = StopReason.completed;
  final_text = some (units "done");
  steps = 2;
  tool_calls = 1;
  error = none;
}

requests-eq-terminals_example :
    requests (after demo_env demo_options (units "fix") demo_state).events
    ≡ terminals (after demo_env demo_options (units "fix") demo_state).events
unfolding loop follow
requests-eq-terminals_example =
    requests-eq-terminals demo_env demo_options (units "fix") demo_state demo_result refl refl

-- An event that stands in for a missing one.
abbrev start_event : Event
start_event = record {
  id = units "event-1";
  sequence = 1;
  timestamp = units "2026";
  session_id = units "session-1";
  turn_id = none;
  step_id = none;
  payload = session_started (units ".") SafetyMode.balanced (some 3) none none;
}

abbrev event_at : ℕ → List Event → Event
event_at n [] = start_event
event_at zero (e ∷ es) = e
event_at (suc n) (e ∷ es) = event_at n es

abbrev demo_log : List Event
demo_log = (after demo_env demo_options (units "fix") demo_state).events

started-authorized_example : Authorizes (units "call-1") (event_at 7 demo_log).payload
unfolding loop follow
started-authorized_example =
    started-authorized demo_env demo_options (units "fix") demo_state (take 7 demo_log)
      (drop 9 demo_log) (event_at 7 demo_log) (event_at 8 demo_log) (units "call-1")
      (units "read_file") refl refl refl

run-Finished_example :
    Finished []
      (run demo_env demo_options (units "fix") demo_world).0
      (run demo_env demo_options (units "fix") demo_world).1
run-Finished_example = run-Finished demo_env demo_options (units "fix") demo_world

abbrev logged_world : World
logged_world = record demo_world { log = start_event ∷ [] }

continue_session-Finished_example :
    Continued
      (start_event ∷ [])
      (continue_session demo_env demo_options (units "session-1") (units "fix") logged_world)
unfolding Ascending
continue_session-Finished_example =
    continue_session-Finished demo_env demo_options (units "fix") (units "session-1") start_event []
      logged_world 1 refl (omega arith, omega arith)

validate_tool_call_ids_iff_example : (validate_tool_call_ids (demo_call ∷ []) [] ≡ none) ↔ (
    (visible (ids_of (demo_call ∷ []))
      && apart [] (ids_of (demo_call ∷ []))
      && distinct (ids_of (demo_call ∷ [])))
    ≡ true)
validate_tool_call_ids_iff_example = validate_tool_call_ids_iff (demo_call ∷ []) []

bounded_text_lem_example :
    (length (bounded_text (units "a text that is cut in its middle") 25).text ≤ max 25 19)
    × ((bounded_text (units "a text that is cut in its middle") 25).truncated
        ≡ not (leb (length (units "a text that is cut in its middle")) 25))
    × ((bounded_text (units "a text that is cut in its middle") 25).truncated ≡ false
        → (bounded_text (units "a text that is cut in its middle") 25).text
          ≡ units "a text that is cut in its middle")
bounded_text_lem_example = bounded_text_lem (units "a text that is cut in its middle") 25

abbrev denying_env : Env World
denying_env = record demo_env {
  evaluate = λ q w. (ok (deny (units "no") true (units "policy.tool.unrecognized")), w);
}

abbrev denying_env-Denies : Denies denying_env
denying_env-Denies = record {
  denial = λ q w. (units "no", true, units "policy.tool.unrecognized");
  denied = λ q w. refl;
}

-- Tools that fail, and no approval handler.
abbrev failing_env : Env World
failing_env = replaced denying_env (λ name input context w. (thrown unknown, w)) none

dispatch_tool-Denies_example :
    dispatch_tool denying_env demo_options (units "step") demo_call demo_state
    ≡ dispatch_tool failing_env demo_options (units "step") demo_call demo_state
dispatch_tool-Denies_example =
    dispatch_tool-Denies denying_env (λ name input context w. (thrown unknown, w)) none demo_options
      (units "step") demo_call denying_env-Denies demo_state

-- A turn that stopped after the request of a call.
abbrev open_log : List Event
open_log =
    (record start_event { payload = turn_started (units "fix") })
    ∷ (record start_event { sequence = 2; payload = tool_requested demo_call null })
    ∷ []

abbrev open_state : State World
open_state = record demo_state { world = record demo_world { log = open_log } }

-- ===== src/Session/Tests.antt =====
-- The completion of a small log.
use echocoding_harness.Common.{
  ℕ, zero, suc, ◌+◌, ◌≡◌, refl, map, lookup, insert, Option, Text, false, none, some, List, [], ◌∷◌,
  units, text_eq, mem_text, add_text,
}
use echocoding_harness.Contracts.Value.{null}
use echocoding_harness.Contracts.Error.{Outcome, ok, thrown}
use echocoding_harness.Contracts.Event.{
  Event, Payload, SafetyMode, ProviderIdentity, terminal_result, session_started, turn_started,
  step_started, model_text, tool_requested,
}
use echocoding_harness.Agent.Recovery.{terminal_ids}
use echocoding_harness.Session.Query.{to_turn_queries, turn_key, schema_version_of}
use echocoding_harness.Session.Query.Runtime.{
  SessionRuntimeState, to_runtime_state, provider_from_events, incomplete_tool_call_ids,
}
use echocoding_harness.Session.Query.Resumed.{to_runtime_state-resumed}
use echocoding_harness.Session.Query.Grouping.{
  keys_from, with_key, described_turn, to_turn_queries-described,
}
use echocoding_harness.Session.Query.Recoverable.{
  IsRecoverable, assert_recoverable_events, assert_recoverable_events-IsRecoverable,
}
use echocoding_harness.Session.Compensation.{
  Repository, Log, start, repair_calls, fail_turns, compensate_incomplete, ended_turns,
  incomplete_from, incomplete_turn_ids, last_sequence,
}
use echocoding_harness.Session.Compensation.Complete.{Complete, compensate_incomplete-Complete}

-- A repository whose world counts the appended events.
abbrev counting : Repository ℕ
counting = record {
  fresh = λ w. (units "event", w);
  now = λ w. (units "2026", w);
  append = λ e w. (ok tt, w + 1);
}

abbrev event_in_turn : ℕ → Payload → Event
event_in_turn n p = record {
  id = units "event";
  sequence = n;
  timestamp = units "2026";
  session_id = units "session";
  turn_id = some (units "turn");
  step_id = none;
  payload = p;
}

abbrev open_log : List Event
open_log =
    event_in_turn 1 (turn_started (units "goal"))
    ∷ event_in_turn 2 (
        tool_requested (record { id = units "call"; name = units "read_file"; arguments = null })
          null)
    ∷ []

abbrev or_start : Outcome Log → Log
or_start (ok log) = log
or_start (thrown _) = start []

abbrev completed : Log
completed = or_start (compensate_incomplete counting (units "session") open_log 0).0

sequence_test : completed.sequence ≡ 4
unfolding compensate_incomplete repair_calls fail_turns ended_turns incomplete_from
    incomplete_turn_ids last_sequence terminal_ids terminal_result units text_eq mem_text add_text
sequence_test = refl

compensate_incomplete-Complete_example : Complete completed
unfolding compensate_incomplete repair_calls fail_turns ended_turns incomplete_from
    incomplete_turn_ids last_sequence terminal_ids terminal_result units text_eq mem_text add_text
compensate_incomplete-Complete_example =
    compensate_incomplete-Complete counting (units "session") open_log completed 0 refl

-- A log of a session that was started, with two turns that take turns.
abbrev hex : ℕ → Text
hex zero = []
hex (suc n) = 97 ∷ hex n

abbrev identity : ProviderIdentity
identity = record { endpoint_fingerprint = hex 64 }

abbrev event_of : ℕ → Option Text → Option Text → Payload → Event
event_of n turn step p = record {
  id = units "event";
  sequence = n;
  timestamp = units "2026";
  session_id = units "session";
  turn_id = turn;
  step_id = step;
  payload = p;
}

abbrev two_turns : List Event
two_turns =
    event_of 1 none none
      (session_started (units "w") SafetyMode.safe (some 3) (some identity) (some (units "model")))
    ∷ event_of 2 (some (units "a")) none (turn_started (units "goal"))
    ∷ event_of 3 (some (units "a")) (some (units "s")) (step_started 1)
    ∷ event_of 4 (some (units "b")) none (turn_started (units "goal"))
    ∷ event_of 5 (some (units "a")) (some (units "s")) (model_text (units "text") false)
    ∷ []

to_turn_queries-described_example :
    to_turn_queries two_turns
    ≡ map (λ t. described_turn t (with_key turn_key t two_turns)) (keys_from turn_key [] two_turns)
to_turn_queries-described_example = to_turn_queries-described two_turns

order_test : keys_from turn_key [] two_turns ≡ units "a" ∷ units "b" ∷ []
unfolding keys_from add_text mem_text text_eq units
order_test = refl

assert_recoverable_events-IsRecoverable_example : IsRecoverable two_turns
unfolding assert_recoverable_events schema_version_of units text_eq lookup insert
assert_recoverable_events-IsRecoverable_example =
    assert_recoverable_events-IsRecoverable two_turns refl

abbrev resumed : Log
resumed = or_start (compensate_incomplete counting (units "session") two_turns 0).0

abbrev or_state : Outcome SessionRuntimeState → SessionRuntimeState → SessionRuntimeState
or_state (ok state) other = state
or_state (thrown _) other = other

abbrev no_state : SessionRuntimeState
no_state = record {
  session_id = [];
  workspace_name = [];
  provider = identity;
  model = ([], []);
  safety_mode = (SafetyMode.safe, []);
  turn_count = 0;
  active_turn_id = none;
  approximate_tokens = none;
  last_turn = none;
}

abbrev state : SessionRuntimeState
state = or_state (to_runtime_state (units "session") (units "w") resumed.repaired) no_state

count_test : state.turn_count ≡ 2
unfolding to_runtime_state to_turn_queries provider_from_events compensate_incomplete units lookup
    insert text_eq incomplete_turn_ids mem_text
count_test = refl

to_runtime_state-resumed_example :
    (incomplete_tool_call_ids resumed.repaired ≡ []) × (state.active_turn_id ≡ none)
unfolding to_runtime_state provider_from_events compensate_incomplete units incomplete_turn_ids
    mem_text text_eq
to_runtime_state-resumed_example =
    to_runtime_state-resumed counting (units "session") (units "w") two_turns resumed 0 state refl
      refl

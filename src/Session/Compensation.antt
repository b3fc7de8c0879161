-- ===== src/Session/Compensation.antt =====
-- `compensateIncomplete` (session/jsonl-session-repository.ts) and `incompleteTurnIds`
-- (session/session-query.ts): the completion of a log when its session is resumed. Fresh ids, the
-- clock and `append` act on a state `W` of the world.
pub mod Complete
use echocoding_harness.Common.{
  ℕ, ◌+◌, Bool, true, false, ◌&&◌, ◌||◌, Option, none, some, List, [], ◌∷◌, ◌++◌, if◌then◌else◌,
  Text, units, text_eq, mem_text, add_text,
}
use echocoding_harness.Contracts.Error.{EchoError, Outcome, ok, thrown, storage}
use echocoding_harness.Contracts.Event.{
  Event, Payload, ToolCall, ToolResult, ToolStatus, Status, StopReason, AgentResult, tool_failed,
  turn_failed, step_started, tool_requested,
}
use echocoding_harness.Agent.Calls.{failure}
use echocoding_harness.Agent.Recovery.{
  terminal_ids, requested_call, is_turn_terminal, is_turn_started,
}

pub record Repository (W : Type 0) : Type 0 where
  pub fresh : W → Text × W
  pub now : W → Text × W
  pub append : Event → W → Outcome (Unit {0}) × W

abbrev pub turn_of : Bool → Option Text → Option Text
turn_of true (some turn) = some turn
turn_of _ _ = none

abbrev pub with_turn : Option Text → List Text → List Text
with_turn none turns = turns
with_turn (some turn) turns = turn ∷ turns

-- The turns of the terminal turn events.
unfoldable pub ended_turns : List Event → List Text
ended_turns [] = []
ended_turns (e ∷ es) = with_turn (turn_of (is_turn_terminal e.payload) e.turn_id) (ended_turns es)

abbrev pub started_turn : Event → Option Text
started_turn e = turn_of (is_turn_started e.payload) e.turn_id

-- A turn joins the hung ones, which `rest` continues, unless it ended or was met before.
abbrev pub hang : Option Text → List Text → List Text → (List Text → List Text) → List Text
hang none ended seen rest = rest seen
hang (some turn) ended seen rest =
    if mem_text turn ended || mem_text turn seen then rest seen else turn ∷ rest (turn ∷ seen)

-- The loop of `incompleteTurnIds`, with the sets `terminals` and `seen`.
unfoldable pub incomplete_from : List Text → List Event → List Text → List Text
incomplete_from ended [] seen = []
incomplete_from ended (e ∷ es) seen = hang (started_turn e) ended seen (incomplete_from ended es)

unfoldable pub incomplete_turn_ids : List Event → List Text
unfolding incomplete_from ended_turns
incomplete_turn_ids events = incomplete_from (ended_turns events) events []

unfoldable pub last_sequence : ℕ → List Event → ℕ
last_sequence n [] = n
last_sequence n (e ∷ es) = last_sequence e.sequence es

-- The variables of `compensateIncomplete`.
pub record Log : Type 0 where
  pub repaired : List Event
  pub terminals : List Text
  pub sequence : ℕ

abbrev pub start : List Event → Log
start events = record {
  repaired = events;
  terminals = terminal_ids [] events;
  sequence = last_sequence 0 events;
}

abbrev pub failed_tool_result : ToolCall → ToolResult
failed_tool_result c = record {
  tool_call_id = c.id;
  tool_name = c.name;
  status = ToolStatus.failed;
  summary = units "Session storage ended before the tool terminal state was durably recorded.";
  content = none;
  metadata = none;
  truncated = false;
}

abbrev pub incomplete_error : EchoError
incomplete_error =
    failure storage (units "SESSION_TURN_INCOMPLETE")
      (units "The previous turn had no terminal event and was marked failed on resume.")

abbrev is_step : Payload → Bool
is_step (step_started _) = true
is_step _ = false

abbrev is_request : Payload → Bool
is_request (tool_requested _ _) = true
is_request _ = false

abbrev in_turn : Text → Option Text → Bool
in_turn turn none = false
in_turn turn (some t) = text_eq t turn

-- The events of a turn that pass a test.
abbrev count_in : (Payload → Bool) → Text → List Event → ℕ
count_in p turn [] = 0
count_in p turn (e ∷ es) =
    if in_turn turn e.turn_id && p e.payload then 1 + count_in p turn es else count_in p turn es

abbrev pub hung_result : Text → Text → List Event → AgentResult
hung_result session turn events = record {
  session_id = session;
  turn_id = turn;
  status = Status.failed;
  stop_reason = StopReason.tool_error;
  final_text = none;
  steps = count_in is_step turn events;
  tool_calls = count_in is_request turn events;
  error = some incomplete_error;
}

abbrev pub after : {W A B : Type 0} → Outcome A × W → (A → W → Outcome B × W) → Outcome B × W
after (ok a, w) f = f a w
after (thrown e, w) f = (thrown e, w)

-- The call of a request that has no terminal event.
abbrev pub open_call : Option ToolCall → List Text → Option ToolCall
open_call none terminals = none
open_call (some c) terminals = if mem_text c.id terminals then none else some c

module _ {W : Type 0} (repository : Repository W) (session : Text) where
  abbrev pub recovery_event : ℕ → Payload → Option Text → Option Text → W → Event × W
  recovery_event sequence payload turn step w =
      let id = repository.fresh w in
      let timestamp = repository.now id.1 in
      (
        record {
          id = id.0;
          sequence = sequence;
          timestamp = timestamp.0;
          session_id = session;
          turn_id = turn;
          step_id = step;
          payload = payload;
        },
        timestamp.1,
      )

  -- The log after a recovery event was appended; `terminals` is the set by then.
  abbrev pub appended : Log → List Text → Event × W → Outcome Log × W
  appended log terminals (e, w) = after (repository.append e w) (λ _ w. (
    ok (record {
      repaired = log.repaired ++ e ∷ [];
      terminals = terminals;
      sequence = log.sequence + 1;
    }),
    w,
  ))

  abbrev pub repair_call : Event → Option ToolCall → Log → W → Outcome Log × W
  repair_call e none log w = (ok log, w)
  repair_call e (some c) log w = appended log (add_text c.id log.terminals) (
      recovery_event (log.sequence + 1) (tool_failed (failed_tool_result c) 0) e.turn_id e.step_id
        w)

  -- The loop over the requests.
  unfoldable pub repair_calls : List Event → Log → W → Outcome Log × W
  repair_calls [] log w = (ok log, w)
  repair_calls (e ∷ es) log w =
      after (repair_call e (open_call (requested_call e.payload) log.terminals) log w)
        (repair_calls es)

  -- The loop over the hung turns.
  unfoldable pub fail_turns : List Text → Log → W → Outcome Log × W
  fail_turns [] log w = (ok log, w)
  fail_turns (turn ∷ turns) log w =
      after
        (appended log log.terminals (
          recovery_event (log.sequence + 1) (turn_failed (hung_result session turn log.repaired))
            (some turn) none w))
        (fail_turns turns)

  abbrev pub fail_hung : Log → W → Outcome Log × W
  fail_hung log w = fail_turns (incomplete_turn_ids log.repaired) log w

  unfoldable pub compensate_incomplete : List Event → W → Outcome Log × W
  unfolding repair_calls fail_turns
  compensate_incomplete events w = after (repair_calls events (start events) w) fail_hung

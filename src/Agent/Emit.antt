-- ===== src/Agent/Emit.antt =====
-- agent/agent-loop.ts: `createEvent`, `emit` and the `finish…` methods.
use echocoding_harness.Common.{◌+◌, Option, none, some, [], ◌∷◌, ◌++◌, Text}
use echocoding_harness.Contracts.Error.{EchoError}
use echocoding_harness.Contracts.Event.{
  Event, Payload, AgentResult, Status, StopReason, turn_failed, turn_cancelled,
}
use echocoding_harness.Session.Redaction.{redact_event}
use echocoding_harness.Agent.Interface.{Env, State, IdKind}
use echocoding_harness.Agent.Action.{Action, pure, gets, invoke, await, modify, ◌>>=◌, ◌>>◌}

module _ {W : Type 0} (env : Env W) where
  unfoldable pub create_event : Payload → Option Text → Option Text → Action W Event
  create_event payload step turn = do
    modify (λ s. record s { sequence = s.sequence + 1 })
    id ← invoke (env.fresh IdKind.event)
    timestamp ← invoke env.now
    sequence ← gets (λ s. s.sequence)
    session ← gets (λ s. s.session_id)
    pure (
        redact_event env.redact (record {
          id = id;
          sequence = sequence;
          timestamp = timestamp;
          session_id = session;
          turn_id = turn;
          step_id = step;
          payload = payload;
        }))

  abbrev pub push_event : Event → State W → State W
  push_event e s = record s { events = s.events ++ e ∷ [] }

  abbrev pub notify : Event → State W → State W
  notify e s = record s { world = env.notify e s.world }

  unfoldable pub emit : Payload → Option Text → Option Text → Action W (Unit {0})
  unfolding create_event
  emit payload step turn = do
    event ← create_event payload step turn
    await (env.append event)
    modify (push_event event)
    modify (notify event)

  -- `emit` with the step and the turn of the state.
  unfoldable pub report : Text → Payload → Action W (Unit {0})
  unfolding emit
  report step payload = do turn ← gets (λ s. s.turn_id); emit payload (some step) (some turn)

  abbrev pub result_of :
      Status → StopReason → Option Text → Option EchoError → State W → AgentResult
  result_of status stop_reason final_text error s = record {
    session_id = s.session_id;
    turn_id = s.turn_id;
    status = status;
    stop_reason = stop_reason;
    final_text = final_text;
    steps = s.steps;
    tool_calls = s.tool_calls;
    error = error;
  }

  -- The terminal events carry the turn and no step.
  abbrev pub finish : (AgentResult → Payload) → AgentResult → Action W AgentResult
  finish terminal result = do
    turn ← gets (λ s. s.turn_id)
    emit (terminal result) none (some turn)
    pure result

  unfoldable pub finish_failed : StopReason → Option EchoError → Action W AgentResult
  unfolding emit
  finish_failed reason error = do
    result ← gets (result_of Status.failed reason none error)
    finish turn_failed result

  unfoldable pub finish_limited : StopReason → Option Text → Option EchoError → Action W AgentResult
  unfolding emit
  finish_limited reason text error = do
    result ← gets (result_of Status.limited reason text error)
    finish turn_failed result

  unfoldable pub finish_cancelled : EchoError → Action W AgentResult
  unfolding emit
  finish_cancelled error = do
    result ← gets (result_of Status.cancelled StopReason.cancelled none (some error))
    finish turn_cancelled result

-- ===== src/Agent/Turn.antt =====
-- agent/agent-loop.ts: the constructor's checks, `createState`, `run`, `continueSession` and
-- `handleTurnException`.
use echocoding_harness.Common.{
  ℕ, Bool, true, false, ◌&&◌, Option, none, some, List, [], ◌∷◌, ltb, if◌then◌else◌, Text, units,
  add_text,
}
use echocoding_harness.Contracts.Error.{
  EchoError, Thrown, echo, Outcome, ok, thrown, storage, is_cancelled, is_storage,
}
use echocoding_harness.Contracts.Event.{
  Event, Payload, AgentResult, Status, StopReason, ApprovalScope, approval_granted, tool_requested,
  model_tool_call, session_started,
}
use echocoding_harness.Agent.Interface.{Env, Options, State, IdKind}
use echocoding_harness.Agent.Action.{Action, pure, gets, ◌>>=◌, ◌>>◌, try_catch}
use echocoding_harness.Agent.Calls.{error_from_unknown, failure, tool_failure}
use echocoding_harness.Agent.Emit.{emit, result_of}
use echocoding_harness.Agent.Steps.{execute_turn}
use echocoding_harness.Agent.Recovery.{repair_storage_failure}

abbrev event_schema_version : ℕ
event_schema_version = 3

-- The tests of the constructor; numbers are natural, and the bound of safe integers is left out.
abbrev is_small : Option ℕ → Bool
is_small none = false
is_small (some n) = ltb n 2

unfoldable pub valid_options : Options → Bool
valid_options opts =
    ltb 0 opts.max_steps && (if is_small opts.repeated_tool_call_limit then false else true)

-- The sets of `createState`.
pub record Restored : Type 0 where
  pub approvals : List Text
  pub seen : List Text
  pub sequence : ℕ

abbrev restore_payload : Payload → Restored → Restored
restore_payload (approval_granted _ key ApprovalScope.session) r = record r {
  approvals = add_text key r.approvals;
}
restore_payload (model_tool_call c) r = record r { seen = add_text c.id r.seen }
restore_payload (tool_requested c _) r = record r { seen = add_text c.id r.seen }
restore_payload _ r = r

unfoldable pub restore : List Event → Restored → Restored
restore [] r = r
restore (e ∷ es) r = restore es (record (restore_payload e.payload r) { sequence = e.sequence })

abbrev pub nothing_restored : Restored
nothing_restored = record { approvals = []; seen = []; sequence = 0 }

module _ {W : Type 0} (env : Env W) where
  unfoldable pub create_state : Text → List Event → W → State W
  create_state session prior w =
      let turn = env.fresh IdKind.turn w in
      let restored = restore prior nothing_restored in
      record {
        world = turn.1;
        session_id = session;
        turn_id = turn.0;
        events = prior;
        approvals = restored.approvals;
        signatures = [];
        seen_tool_call_ids = restored.seen;
        sequence = restored.sequence;
        steps = 0;
        tool_calls = 0;
      }

  abbrev pub turn_error : Thrown → EchoError
  turn_error e = error_from_unknown e (
      tool_failure (units "AGENT_LOOP_FAILED")
        (units "The agent loop stopped because of an internal error."))

  abbrev pub exception_result : EchoError → State W → AgentResult
  exception_result error =
      if is_cancelled error.category
      then result_of env Status.cancelled StopReason.cancelled none (some error)
      else result_of env Status.failed StopReason.tool_error none (some error)

  unfoldable pub handle_turn_exception : Thrown → Action W AgentResult
  handle_turn_exception e = do
    result ← gets (exception_result (turn_error e))
    if is_storage (turn_error e).category
        then repair_storage_failure env result (turn_error e)
        else pure tt
    pure result

  module _ (opts : Options) where
    abbrev pub session_started_payload : Payload
    session_started_payload =
        session_started (units ".") opts.safety_mode (some event_schema_version)
          opts.provider_identity (some opts.model)

    unfoldable pub run_turn : Text → Action W AgentResult
    run_turn goal = try_catch (execute_turn env opts goal) handle_turn_exception

    unfoldable pub run : Text → W → Outcome AgentResult × State W
    run goal w =
        let session = env.fresh IdKind.session w in
        try_catch (do emit env session_started_payload none none; execute_turn env opts goal)
          handle_turn_exception (create_state session.0 [] session.1)

    abbrev not_found : Thrown
    not_found = echo (
        failure storage (units "SESSION_NOT_FOUND")
          (units "The session event log could not be loaded for a continued turn."))

    abbrev pub continue_from :
        Text → Text → Outcome (List Event) → W → Outcome AgentResult × Option (State W)
    continue_from session goal (ok (e ∷ es)) w =
        let (result, s) = run_turn goal (create_state session (e ∷ es) w) in (result, some s)
    continue_from session goal (ok []) w = (thrown not_found, none)
    continue_from session goal (thrown _) w = (thrown not_found, none)

    -- Without a readable log there is no turn, and no state of one.
    unfoldable pub continue_session : Text → Text → W → Outcome AgentResult × Option (State W)
    continue_session session goal w =
        let prior = env.read session w in continue_from session goal prior.0 prior.1

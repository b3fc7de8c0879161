-- ===== src/Agent/Keeps/Loop.antt =====
-- `runSteps` and `executeTurn` (agent/agent-loop.ts) keep every property of the log that new events
-- keep.
use echocoding_harness.Common.{ℕ, zero, suc, ◌+◌, Bool, Option, none, some, List, [], ◌∷◌, Text}
use echocoding_harness.Contracts.Error.{EchoError, Outcome, ok, thrown}
use echocoding_harness.Contracts.Event.{
  Event, ToolCall, Reasoning, FinishReason, AgentResult, StopReason,
}
use echocoding_harness.Agent.Interface.{Env, Options, Projection}
use echocoding_harness.Agent.Action.{Action}
use echocoding_harness.Agent.Emit.{finish_failed, finish_limited, finish_cancelled}
use echocoding_harness.Agent.Dispatch.{ToolStop, ToolStopReason, repeated_tool_call, cancelled}
use echocoding_harness.Agent.Response.{Response}
use echocoding_harness.Agent.Steps.{
  persist_payload, persist_reasoning, persist_text, complete, unless_stopped, dispatch_all,
  finish_by, finish_stopped, reach_max_steps, after_tools, run_tools, conclude_response,
  record_calls, after_validation, answered, stream_failed, ended, received, after_projection,
  project, start_step, run_step, steps_from, run_steps, execute_turn,
}
use echocoding_harness.Agent.Keeps.Rules.{
  Keeps, IsLogProperty, Keeps-bind, Keeps-modify, Keeps-gets, Keeps-if, Keeps-pure, Keeps-invoke,
  Keeps-report, keeps_rules,
}
use echocoding_harness.Agent.Keeps.Dispatch.{Keeps-dispatch_tool}

module _ {W : Type 0} {J : List Event → ℕ → Type 0} (is : IsLogProperty J) (env : Env W)
    (opts : Options) where
  Keeps-finish_failed : (w : StopReason) (e : Option EchoError) → Keeps J (finish_failed env w e)
  unfolding finish_failed
  Keeps-finish_failed w e = search keeps_rules depth 9

  Keeps-finish_limited :
      (w : StopReason) (t : Option Text) (e : Option EchoError) → Keeps J (finish_limited env w t e)
  unfolding finish_limited
  Keeps-finish_limited w t e = search keeps_rules depth 9

  Keeps-finish_cancelled : (e : EchoError) → Keeps J (finish_cancelled env e)
  unfolding finish_cancelled
  Keeps-finish_cancelled e = search keeps_rules depth 9

  Keeps-persist_payload :
      (step : Text) (o : Option Reasoning) → Keeps J (persist_payload env opts step o)
  unfolding persist_payload
  Keeps-persist_payload step none = search keeps_rules
  Keeps-persist_payload step (some r) = search keeps_rules

  Keeps-persist_reasoning :
      (step : Text) (ds : List Reasoning) → Keeps J (persist_reasoning env opts step ds)
  unfolding persist_reasoning
  Keeps-persist_reasoning step ds = Keeps-persist_payload step _

  Keeps-persist_text : (step t : Text) (b : Bool) → Keeps J (persist_text env opts step t b)
  unfolding persist_text
  Keeps-persist_text step [] b = search keeps_rules
  Keeps-persist_text step (c ∷ t) b = search keeps_rules

  Keeps-complete : (t : Text) → Keeps J (complete env opts t)
  unfolding complete
  Keeps-complete t = search keeps_rules depth 9

  ruleset base = (
    keeps_rules, Keeps-finish_failed, Keeps-finish_limited, Keeps-finish_cancelled,
    Keeps-persist_reasoning, Keeps-persist_text, Keeps-complete,
  )

  Keeps-unless_stopped :
      (o : Option ToolStop) {m : Action W (Option ToolStop)}
      → Keeps J m
      → Keeps J (unless_stopped env opts o m)
  unfolding unless_stopped
  Keeps-unless_stopped none h = h
  Keeps-unless_stopped (some s) h = Keeps-pure _

  Keeps-dispatch_all :
      (step : Text) (calls : List ToolCall) → Keeps J (dispatch_all env opts step calls)
  unfolding dispatch_all
  Keeps-dispatch_all step [] = Keeps-pure none
  Keeps-dispatch_all step (c ∷ calls) =
      Keeps-bind _ _ (Keeps-dispatch_tool is env opts step c)
        λ o. Keeps-unless_stopped o (Keeps-dispatch_all step calls)

  Keeps-finish_by : (w : ToolStopReason) (e : Option EchoError) → Keeps J (finish_by env opts w e)
  unfolding finish_by
  Keeps-finish_by cancelled e = Keeps-finish_cancelled _
  Keeps-finish_by repeated_tool_call e = Keeps-finish_limited _ _ _
  Keeps-finish_by _ e = Keeps-finish_failed _ _

  module _ (next : Action W AgentResult) (round : ℕ) (step : Text) (goes_on : Keeps J next) where
    Keeps-after_tools : (o : Option ToolStop) → Keeps J (after_tools env opts next round step o)
    unfolding after_tools finish_stopped reach_max_steps
    Keeps-after_tools none =
        Keeps-if _ _ _ (Keeps-bind _ _ (Keeps-report is env step _) λ _. Keeps-finish_limited _ _ _)
          goes_on
    Keeps-after_tools (some s) = Keeps-finish_by s.reason s.error

    Keeps-run_tools : (calls : List ToolCall) → Keeps J (run_tools env opts next round step calls)
    unfolding run_tools
    Keeps-run_tools calls = Keeps-bind _ _ (Keeps-dispatch_all step calls) Keeps-after_tools

    Keeps-conclude_response :
        (r : Response) (f : FinishReason) (b : Bool)
        → Keeps J (conclude_response env opts next round step r f b)
    unfolding conclude_response
    Keeps-conclude_response r f b = search (base, Keeps-run_tools) depth 9

    Keeps-record_calls :
        (calls : List ToolCall) → Keeps J (record_calls env opts next round step calls)
    unfolding record_calls
    Keeps-record_calls [] = Keeps-pure tt
    Keeps-record_calls (c ∷ calls) =
        Keeps-bind _ _ (Keeps-modify _ (λ s h. h))
          λ _. Keeps-bind _ _ (Keeps-report is env step _) λ _. Keeps-record_calls calls

    Keeps-after_validation :
        (r : Response) (f : FinishReason) (b : Bool) (o : Option EchoError)
        → Keeps J (after_validation env opts next round step r f b o)
    unfolding after_validation
    Keeps-after_validation r f b none =
        search (base, Keeps-record_calls, Keeps-conclude_response) depth 9
    Keeps-after_validation r f b (some e) = search base depth 9

    Keeps-answered :
        (r : Response) (f : FinishReason) → Keeps J (answered env opts next round step r f)
    unfolding answered
    Keeps-answered r f = search (base, Keeps-after_validation) depth 9

    Keeps-stream_failed :
        (r : Response) (e : EchoError) → Keeps J (stream_failed env opts next round step r e)
    unfolding stream_failed
    Keeps-stream_failed r e = search base depth 9

    Keeps-ended :
        (r : Response) (o : Option FinishReason) → Keeps J (ended env opts next round step r o)
    unfolding ended
    Keeps-ended r none = Keeps-stream_failed r _
    Keeps-ended r (some f) = Keeps-answered r f

    Keeps-received :
        (r : Response) (o : Outcome (Unit {0})) → Keeps J (received env opts next round step r o)
    unfolding received
    Keeps-received r (ok _) = Keeps-ended r r.finish_reason
    Keeps-received r (thrown e) = Keeps-stream_failed r _

    Keeps-after_projection :
        (o : Outcome Projection) → Keeps J (after_projection env opts next round step o)
    unfolding after_projection
    Keeps-after_projection (ok p) = search (base, Keeps-received) depth 9
    Keeps-after_projection (thrown e) = search base depth 9

    Keeps-project : Keeps J (project env opts next round step)
    unfolding project
    Keeps-project = search (base, Keeps-after_projection) depth 9

  Keeps-run_step :
      (next : Action W AgentResult) (round : ℕ)
      → Keeps J next
      → Keeps J (run_step env opts next round)
  unfolding run_step start_step
  Keeps-run_step next round h = Keeps-bind _ _ (Keeps-gets _) λ aborted.
      Keeps-if aborted _ _ (Keeps-finish_cancelled _) (
        Keeps-bind _ _ (Keeps-modify _ (λ s k. k))
          λ _. Keeps-bind _ _ (Keeps-invoke _) λ step. Keeps-project next round step h)

  Keeps-steps_from : (left round : ℕ) → Keeps J (steps_from env opts left round)
  unfolding steps_from
  Keeps-steps_from zero round = Keeps-finish_limited _ _ _
  Keeps-steps_from (suc left) round = Keeps-run_step _ round (Keeps-steps_from left (round + 1))

  pub Keeps-execute_turn : (goal : Text) → Keeps J (execute_turn env opts goal)
  unfolding execute_turn run_steps
  Keeps-execute_turn goal = search (base, Keeps-steps_from) depth 9

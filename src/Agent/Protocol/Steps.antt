-- ===== src/Agent/Protocol/Steps.antt =====
-- The steps of a turn (`runSteps` and `executeTurn` of agent/agent-loop.ts) follow the order of
-- events up to the end of the turn.
use echocoding_harness.Common.{
  ℕ, zero, suc, ◌+◌, ◌≡◌, refl, true, false, not, Bool, Option, none, some, List, [], ◌∷◌, ◌&&◌,
  Text, is_some, text_eq_refl, ◌⊎◌, inl, inr,
}
use echocoding_harness.Contracts.Error.{EchoError, Outcome, ok, thrown}
use echocoding_harness.Contracts.Event.{
  AgentResult, ToolCall, FinishReason, Status, StopReason, step_started, turn_completed,
}
use echocoding_harness.Session.Redaction.{redact_payload}
use echocoding_harness.Agent.Interface.{Env, Options, State, Projection}
use echocoding_harness.Agent.Action.{Action}
use echocoding_harness.Agent.Calls.{cancelled_error, validate_tool_call_ids}
use echocoding_harness.Agent.Emit.{result_of}
use echocoding_harness.Agent.Ensures.{
  Settles, Pred, Ensures, Ensures-bind, Ensures-gets, Ensures-read, Ensures-given, Ensures-pure,
  Ensures-weaken, Ensures-some, Ensures-if, Ensures-test, Ensures-invoke, Ensures-modify,
}
use echocoding_harness.Agent.Dispatch.{
  ToolStop, ToolStopReason, repeated_tool_call, cancelled, dispatch_tool,
}
use echocoding_harness.Agent.Response.{
  Response, is_empty, is_length, is_filtered, receive_all, no_response,
}
use echocoding_harness.Agent.Steps.{
  complete, unless_stopped, dispatch_all, finish_by, finish_stopped, reach_max_steps, after_tools,
  run_tools, conclude_response, after_validation, answered as answer, stream_failed, ended,
  received, after_projection, project, start_step, run_step, steps_from, run_steps, execute_turn,
  is_log_invalid, context_error,
}
use echocoding_harness.Agent.Protocol.Order.{
  Phase, idle, opened, stepping, projected, streaming, answered, served, ending, advance, InPhase,
  InOrder,
}
use echocoding_harness.Agent.Protocol.Closing.{
  can_close, IsClosing, Over, finish_lem, finish_failed_lem, finish_limited_lem,
  finish_cancelled_lem,
}
use echocoding_harness.Agent.Protocol.Report.{in_order, Ensures-emit_phase, Ensures-report}
use echocoding_harness.Agent.Protocol.Execution.{Post}
use echocoding_harness.Agent.Protocol.Dispatch.{dispatch_tool_lem}
use echocoding_harness.Agent.Protocol.Response.{
  Responding, Shows, shown_of_responding, persist_reasoning_lem, persist_text_lem, model_failed_lem,
  model_completed_lem, record_calls_lem, ids_of,
}

-- Between two steps, and before the first.
abbrev pub is_between : Phase → Bool
is_between opened = true
is_between (served []) = true
is_between _ = false

closing_of_between : (p : Phase) → is_between p ≡ true → can_close p ≡ true
closing_of_between opened h = refl
closing_of_between (served []) h = refl
closing_of_between _ h = cc

advance-step_started :
    (p : Phase) (n : ℕ) → is_between p ≡ true → advance p (step_started n) ≡ some stepping
unfolding advance
advance-step_started opened n h = refl
advance-step_started (served []) n h = refl
advance-step_started _ n h = cc

module _ {W : Type 0} (env : Env W) (opts : Options) where
  complete_lem :
      (text : Text) → Ensures (InPhase (answered [])) (complete env opts text) Over InOrder
  unfolding complete advance redact_payload
  complete_lem text =
      Ensures-bind
        (Ensures-read (InPhase (answered [])) (λ r. r.status ≡ Status.completed)
          (result_of env Status.completed StopReason.completed (some text) none) (λ s. refl))
        λ r. Ensures-given λ e. finish_lem env (answered []) turn_completed r (rw e)

  -- The calls of a step, each with its terminal event, or the turn is to end.
  abbrev Served : Option ToolStop → Pred W
  Served none = InPhase (served [])
  Served (some _) = IsClosing

  module _ (step : Text) where
    dispatch_next :
        (c : ToolCall) (ids : List Text) (p : Phase)
        → (p ≡ answered (env.redact c.id ∷ ids)) ⊎ (p ≡ served (env.redact c.id ∷ ids))
        → Ensures (InPhase p) (dispatch_tool env opts step c) (Post env opts step c ids) InOrder
    unfolding advance redact_payload
    dispatch_next c ids p (inl e) =
        dispatch_tool_lem env opts step c ids p (rw e)
          (λ v. rw e (rw (text_eq_refl (env.redact c.id))))
    dispatch_next c ids p (inr e) =
        dispatch_tool_lem env opts step c ids p (rw e)
          (λ v. rw e (rw (text_eq_refl (env.redact c.id))))

    after_call :
        (c : ToolCall) (calls : List ToolCall) (o : Option ToolStop)
        → Ensures
            (InPhase (served (ids_of env opts step calls)))
            (dispatch_all env opts step calls)
            Served
            InOrder
        → Ensures
            (Post env opts step c (ids_of env opts step calls) o)
            (unless_stopped env opts o (dispatch_all env opts step calls))
            Served
            InOrder
    unfolding unless_stopped
    after_call c calls none rest = rest
    after_call c calls (some s) rest = Ensures-pure Served (some s)

    served_lem :
        (calls : List ToolCall)
        → Ensures
            (InPhase (served (ids_of env opts step calls)))
            (dispatch_all env opts step calls)
            Served
            InOrder
    unfolding dispatch_all
    served_lem [] = Ensures-pure Served none
    served_lem (c ∷ calls) =
        Ensures-bind (dispatch_next c (ids_of env opts step calls) _ (inr refl))
          λ o. after_call c calls o (served_lem calls)

    dispatch_all_lem :
        (c : ToolCall) (calls : List ToolCall)
        → Ensures
            (InPhase (answered (ids_of env opts step (c ∷ calls))))
            (dispatch_all env opts step (c ∷ calls))
            Served
            InOrder
    unfolding dispatch_all
    dispatch_all_lem c calls =
        Ensures-bind (dispatch_next c (ids_of env opts step calls) _ (inl refl))
          λ o. after_call c calls o (served_lem calls)

  finish_by_lem :
      (why : ToolStopReason) (error : Option EchoError) (p : Phase)
      → can_close p ≡ true
      → Ensures (InPhase p) (finish_by env opts why error) Over InOrder
  unfolding finish_by
  finish_by_lem cancelled error p h = finish_cancelled_lem env p h _
  finish_by_lem repeated_tool_call error p h = finish_limited_lem env p h _ _ _
  finish_by_lem _ error p h = finish_failed_lem env p h _ _

  module _ (next : Action W AgentResult) (round : ℕ) (step : Text)
      (goes_on : Ensures (InPhase (served [])) next Over InOrder) where
    reach_max_steps_lem :
        Ensures (InPhase (served [])) (reach_max_steps env opts next round step) Over InOrder
    unfolding reach_max_steps advance redact_payload
    reach_max_steps_lem =
        Ensures-bind (in_order (Ensures-report env step _ (served []) ending refl))
          λ _. finish_limited_lem env ending refl _ _ _

    after_tools_lem :
        (o : Option ToolStop)
        → Ensures (Served o) (after_tools env opts next round step o) Over InOrder
    unfolding after_tools finish_stopped
    after_tools_lem none = Ensures-if _ reach_max_steps_lem goes_on
    after_tools_lem (some s) = Ensures-some λ p h. finish_by_lem s.reason s.error p h

    run_tools_lem :
        (c : ToolCall) (calls : List ToolCall)
        → Ensures
            (InPhase (answered (ids_of env opts step (c ∷ calls))))
            (run_tools env opts next round step (c ∷ calls))
            Over
            InOrder
    unfolding run_tools
    run_tools_lem c calls = Ensures-bind (dispatch_all_lem step c calls) after_tools_lem

    run_some_tools :
        (calls : List ToolCall)
        → not (is_empty calls) ≡ true
        → Ensures
            (InPhase (answered (ids_of env opts step calls)))
            (run_tools env opts next round step calls)
            Over
            InOrder
    run_some_tools [] h = cc
    run_some_tools (c ∷ calls) h = run_tools_lem c calls

    complete_without_tools :
        (calls : List ToolCall) (text : Text)
        → not (is_empty calls) ≡ false
        → Ensures
            (InPhase (answered (ids_of env opts step calls)))
            (complete env opts text)
            Over
            InOrder
    complete_without_tools [] text h = complete_lem text
    complete_without_tools (c ∷ calls) text h = cc

    conclude_response_lem :
        (r : Response) (why : FinishReason) (b : Bool)
        → Ensures
            (InPhase (answered (ids_of env opts step r.calls)))
            (conclude_response env opts next round step r why b)
            Over
            InOrder
    unfolding conclude_response
    conclude_response_lem r why b =
        let p = answered (ids_of env opts step r.calls) in
        Ensures-if (is_filtered why) (finish_failed_lem env p refl _ _) (
          Ensures-if (not (is_empty r.calls) && is_length why) (finish_limited_lem env p refl _ _ _)
            (Ensures-test (not (is_empty r.calls)) (run_some_tools r.calls) λ none_left.
              Ensures-if (not (is_empty r.text) && is_length why)
                (finish_limited_lem env p refl _ _ _)
                (Ensures-if (not (is_empty r.text))
                  (complete_without_tools r.calls r.text none_left)
                  (Ensures-if (is_length why && b) (finish_failed_lem env p refl _ _)
                    (finish_failed_lem env p refl _ _)))))

    after_validation_lem :
        (r : Response) (why : FinishReason) (b : Bool) (o : Option EchoError)
        → Ensures Responding (after_validation env opts next round step r why b o) Over InOrder
    unfolding after_validation
    after_validation_lem r why b (some error) = Ensures-some λ p h.
        Ensures-bind (model_failed_lem env opts step error p h)
          λ _. finish_failed_lem env ending refl _ _
    after_validation_lem r why b none = Ensures-some λ p h.
        Ensures-weaken {P = Shows []} (λ s k. (p, shown_of_responding p h, k))
          (Ensures-bind (record_calls_lem env opts step next round r.calls []) λ _.
            Ensures-bind (model_completed_lem env opts step why r.input_tokens r.output_tokens _)
              λ _. conclude_response_lem r why b)

    answer_lem :
        (r : Response) (why : FinishReason)
        → Ensures (InPhase streaming) (answer env opts next round step r why) Over InOrder
    unfolding answer
    answer_lem r why = Ensures-bind (persist_reasoning_lem env opts step r.deltas) λ o.
        Ensures-bind (persist_text_lem env opts step r.text false) λ _.
          Ensures-bind (Ensures-gets Responding _)
            λ seen. after_validation_lem r why (is_some o) (validate_tool_call_ids r.calls seen)

    stream_failed_lem :
        (r : Response) (error : EchoError)
        → Ensures (InPhase streaming) (stream_failed env opts next round step r error) Over InOrder
    unfolding stream_failed
    stream_failed_lem r error = Ensures-bind (persist_reasoning_lem env opts step r.deltas) λ o.
        Ensures-bind (persist_text_lem env opts step r.text true) λ _. Ensures-some λ p h.
          Ensures-bind (model_failed_lem env opts step error p h) λ _.
            Ensures-bind (Ensures-gets (InPhase ending) _) λ aborted.
              Ensures-if _ (finish_cancelled_lem env ending refl _)
                (finish_failed_lem env ending refl _ _)

    ended_lem :
        (r : Response) (o : Option FinishReason)
        → Ensures (InPhase streaming) (ended env opts next round step r o) Over InOrder
    unfolding ended
    ended_lem r none = stream_failed_lem r _
    ended_lem r (some why) = answer_lem r why

    received_lem :
        (r : Response) (o : Outcome (Unit {0}))
        → Ensures (InPhase streaming) (received env opts next round step r o) Over InOrder
    unfolding received
    received_lem r (thrown e) = stream_failed_lem r _
    received_lem r (ok _) = ended_lem r r.finish_reason

    after_projection_lem :
        (o : Outcome Projection)
        → Ensures (InPhase stepping) (after_projection env opts next round step o) Over InOrder
    unfolding after_projection advance redact_payload
    after_projection_lem (thrown e) =
        Ensures-if
          (is_log_invalid env opts next round step (context_error env opts next round step e))
          (finish_failed_lem env stepping refl _ _)
          (Ensures-bind (in_order (Ensures-report env step _ stepping ending refl))
            λ _. finish_failed_lem env ending refl _ _)
    after_projection_lem (ok p) =
        Ensures-bind (in_order (Ensures-report env step _ stepping projected refl)) λ _.
          Ensures-bind (in_order (Ensures-report env step _ projected streaming refl)) λ _.
            Ensures-bind (Ensures-gets (InPhase streaming) _) λ request.
              Ensures-bind (Ensures-invoke (λ s w k. k) (env.stream request))
                λ streamed. received_lem (receive_all no_response streamed.0) streamed.1

    project_lem :
        (p : Phase)
        → is_between p ≡ true
        → Ensures (InPhase p) (project env opts next round step) Over InOrder
    unfolding project redact_payload
    project_lem p h =
        Ensures-bind
          (in_order (Ensures-report env step _ p stepping (advance-step_started p round h)))
          λ _. Ensures-bind (Ensures-gets (InPhase stepping) _) λ events. after_projection_lem _

  run_step_lem :
      (next : Action W AgentResult) (round : ℕ) (p : Phase)
      → Ensures (InPhase (served [])) next Over InOrder
      → is_between p ≡ true
      → Ensures (InPhase p) (run_step env opts next round) Over InOrder
  unfolding run_step start_step
  run_step_lem next round p goes_on h = Ensures-bind (Ensures-gets (InPhase p) _) λ aborted.
      Ensures-if aborted (finish_cancelled_lem env p (closing_of_between p h) cancelled_error) (
        Ensures-bind (Ensures-modify (InPhase p) (InPhase p) _ (λ s k. k)) λ _.
          Ensures-bind (Ensures-invoke (λ s w k. k) _)
            λ step. project_lem next round step goes_on p h)

  steps_from_lem :
      (left round : ℕ) (p : Phase)
      → is_between p ≡ true
      → Ensures (InPhase p) (steps_from env opts left round) Over InOrder
  unfolding steps_from
  steps_from_lem zero round p h = finish_limited_lem env p (closing_of_between p h) _ _ _
  steps_from_lem (suc left) round p h =
      run_step_lem _ round p (steps_from_lem left (round + 1) (served []) refl) h

  execute_turn_lem :
      (goal : Text) → Ensures (InPhase idle) (execute_turn env opts goal) Over InOrder
  unfolding execute_turn run_steps advance redact_payload
  execute_turn_lem goal = Ensures-bind (Ensures-gets (InPhase idle) _) λ turn.
      Ensures-bind (in_order (Ensures-emit_phase env _ none (some turn) idle opened refl))
        λ _. steps_from_lem opts.max_steps 1 opened refl

  -- From a log that follows the order and has no open turn, `executeTurn` either returns with a log
  -- that follows the order and has no open turn, or throws with a log that follows the order so far.
  pub execute_turn-InOrder :
      (goal : Text) (s : State W)
      → InPhase idle s
      → Settles Over InOrder (execute_turn env opts goal s).0 (execute_turn env opts goal s).1
  execute_turn-InOrder goal s h = (execute_turn_lem goal).at s h

-- ===== src/Agent/Protocol/Execution.antt =====
-- An authorized tool call (the second half of `dispatchTool` in agent/agent-loop.ts) follows the order
-- of events.
use echocoding_harness.Common.{
  ℕ, ◌≡◌, refl, ap, ◌∙◌, arith, Bool, Option, none, some, List, Text, text_eq_refl,
}
use echocoding_harness.Contracts.Value.{Value}
use echocoding_harness.Contracts.Error.{EchoError, Thrown, Outcome, ok, thrown, is_storage}
use echocoding_harness.Contracts.Event.{
  ToolCall, ToolResult, CancelPhase, tool_cancelled, tool_failed, tool_completed, tool_started,
}
use echocoding_harness.Session.Redaction.{redact_payload}
use echocoding_harness.Agent.Interface.{Env, Options, Execution}
use echocoding_harness.Agent.Action.{◌>>=◌, ◌>>◌, pure}
use echocoding_harness.Agent.Calls.{cancelled_result, failed_result, completed_result}
use echocoding_harness.Agent.Emit.{report}
use echocoding_harness.Agent.Ensures.{
  Pred, Ensures, Ensures-bind, Ensures-gets, Ensures-pure, Ensures-throw, Ensures-weaken,
  Ensures-if, Ensures-invoke, Ensures-await, Ensures-try_catch, Ensures-given, Ensures-never,
}
use echocoding_harness.Agent.Dispatch.{
  ToolStop, elapsed, cancel, fail, lift, conclude, settle_execution, run_tool, on_throw, start_tool,
  thrown_error,
}
use echocoding_harness.Agent.Protocol.Order.{
  Stage, tool, running, authorized, ending, served, advance, InPhase, InOrder,
}
use echocoding_harness.Agent.Protocol.Closing.{IsClosing}
use echocoding_harness.Agent.Protocol.Report.{in_order, Ensures-report}

module _ {W : Type 0} (env : Env W) (opts : Options) (step : Text) (call : ToolCall)
    (ids : List Text) where
  abbrev pub id : Text
  id = env.redact call.id

  -- Either the call has its terminal event and the next one may follow, or the turn is to end.
  abbrev pub Post : Option ToolStop → Pred W
  Post none = InPhase (served ids)
  Post (some _) = IsClosing

  pub cancel_lem :
      (stage : Stage) (phase : CancelPhase) (summary : Text) (error : EchoError)
      → advance
          (tool stage id ids)
          (redact_payload env.redact (tool_cancelled (cancelled_result call summary) phase))
        ≡ some ending
      → Ensures
          (InPhase (tool stage id ids))
          (cancel env opts step call phase summary error)
          Post
          (InPhase (tool stage id ids))
  unfolding cancel
  cancel_lem stage phase summary error h =
      Ensures-bind (Ensures-report env step _ (tool stage id ids) ending h)
        (λ _. Ensures-weaken (λ s k. (ending, refl, k)) (Ensures-pure Post _))

  pub fail_lem :
      (stage : Stage) (error : EchoError) (summary : Text) (duration : ℕ)
      → advance
          (tool stage id ids)
          (redact_payload env.redact (tool_failed (failed_result call error summary) duration))
        ≡ some (served ids)
      → Ensures
          (InPhase (tool stage id ids))
          (fail env opts step call error summary duration)
          Post
          (InPhase (tool stage id ids))
  unfolding fail
  fail_lem stage error summary duration h =
      Ensures-bind (Ensures-report env step _ (tool stage id ids) (served ids) h)
        (λ _. Ensures-pure Post none)

  abbrev Run : Pred W
  Run = InPhase (tool running id ids)

  fail_running :
      (error : EchoError) (summary : Text) (duration : ℕ)
      → Ensures Run (fail env opts step call error summary duration) Post Run
  unfolding advance redact_payload
  fail_running error summary duration =
      fail_lem running error summary duration (rw (text_eq_refl id))

  cancel_running :
      (summary : Text) (error : EchoError)
      → Ensures Run (cancel env opts step call CancelPhase.execution summary error) Post Run
  unfolding advance redact_payload
  cancel_running summary error =
      cancel_lem running CancelPhase.execution summary error (rw (text_eq_refl id))

  -- The result of a completed call keeps the call's id.
  call_id-completed_result :
      (summary : Text) (v : Value) (b : Bool) (n : ℕ) (r : ToolResult)
      → completed_result call summary v b n ≡ ok r
      → r.tool_call_id ≡ call.id
  unfolding completed_result
  call_id-completed_result summary v b n r e = ground arith

  complete_lem :
      (o : Outcome ToolResult) (duration : ℕ)
      → ((r : ToolResult) → o ≡ ok r → r.tool_call_id ≡ call.id)
      → Ensures Run
          (do
            message ← lift env opts step call o
            report env step (tool_completed message duration)
            pure none)
          Post
          Run
  unfolding lift advance redact_payload
  complete_lem (ok r) duration h =
      Ensures-bind (Ensures-weaken (λ s k. (refl, k)) (Ensures-pure (λ m s. (m ≡ r) × Run s) r))
        (λ m. Ensures-given λ same.
          Ensures-bind
            (Ensures-report env step (tool_completed m duration) (tool running id ids) (served ids)
              (let e : m.tool_call_id ≡ call.id =
                  ap (λ (t : ToolResult). t.tool_call_id) same ∙ h r refl in
                rw (e, text_eq_refl id)))
            (λ _. Ensures-pure Post none))
  complete_lem (thrown e) duration h =
      Ensures-bind (Ensures-throw (λ _ _. ⊥) e) (λ m. Ensures-never)

  conclude_lem :
      (x : Execution) (duration : ℕ) → Ensures Run (conclude env opts step call x duration) Post Run
  unfolding conclude
  conclude_lem (Execution.failed summary error b) duration = fail_running error summary duration
  conclude_lem (Execution.completed summary v b) duration =
      complete_lem (completed_result call summary v b opts.tool_limits.max_output_chars) duration
        (call_id-completed_result summary v b opts.tool_limits.max_output_chars)

  settle_execution_lem :
      (x : Option Execution) (duration : ℕ)
      → Ensures Run (settle_execution env opts step call x duration) Post Run
  unfolding settle_execution
  settle_execution_lem none duration = Ensures-throw Post _
  settle_execution_lem (some x) duration =
      Ensures-bind (Ensures-gets Run _)
        (λ aborted. Ensures-if _ (cancel_running _ _) (conclude_lem x duration))

  elapsed_lem : (started : ℕ) → Ensures Run (elapsed env opts step call started) (λ _. Run) Run
  unfolding elapsed
  elapsed_lem started =
      Ensures-bind (Ensures-invoke (λ s w k. k) env.monotonic) (λ now. Ensures-pure (λ _. Run) _)

  run_tool_lem :
      (input : Value) (started : ℕ)
      → Ensures Run (run_tool env opts step call input started) Post Run
  unfolding run_tool
  run_tool_lem input started = Ensures-bind (Ensures-gets Run _) λ context.
      Ensures-bind (Ensures-await (λ s w k. k) (λ s k. k) (env.execute call.name input context))
        λ x. Ensures-bind (elapsed_lem started) λ duration. settle_execution_lem x duration

  on_throw_lem :
      (started : ℕ) (e : Thrown) → Ensures Run (on_throw env opts step call started e) Post Run
  unfolding on_throw
  on_throw_lem started e =
      Ensures-if (is_storage (thrown_error env opts step call e).category) (Ensures-throw Post _) (
        Ensures-bind (elapsed_lem started) λ duration.
          Ensures-bind (Ensures-gets Run _)
            λ aborted. Ensures-if _ (cancel_running _ _) (fail_running _ _ duration))

  pub start_tool_lem :
      (input : Value)
      → Ensures
          (InPhase (tool authorized id ids))
          (start_tool env opts step call input)
          Post
          InOrder
  unfolding start_tool advance redact_payload
  start_tool_lem input =
      Ensures-bind
        (in_order (
          Ensures-report env step (tool_started call.id call.name) (tool authorized id ids)
            (tool running id ids) (rw (text_eq_refl id))))
        λ _. in_order (
          Ensures-bind (Ensures-invoke (λ s w k. k) env.monotonic)
            λ started. Ensures-try_catch (run_tool_lem input started) (on_throw_lem started))

-- ===== src/Agent/Protocol/Dispatch.antt =====
-- `dispatchTool` (agent/agent-loop.ts) follows the order of events, from the call's request on.
use echocoding_harness.Common.{ℕ, ◌≡◌, refl, true, Option, none, some, List, Text, text_eq_refl}
use echocoding_harness.Contracts.Value.{Value, null}
use echocoding_harness.Contracts.Error.{EchoError, Outcome, ok, thrown}
use echocoding_harness.Contracts.Event.{
  Payload, ToolCall, CancelPhase, Source, DenialOutcome, tool_authorized, tool_requested,
}
use echocoding_harness.Session.Redaction.{redact_payload}
use echocoding_harness.Tools.Normalize.{Normalization, normalized, refused}
use echocoding_harness.Agent.Interface.{
  Env, Options, State, ApprovalRequest, Choice, Decision, allow, ask, deny,
}
use echocoding_harness.Agent.Action.{pure}
use echocoding_harness.Agent.Emit.{report}
use echocoding_harness.Agent.Ensures.{
  Pred, Ensures, Ensures-bind, Ensures-gets, Ensures-pure, Ensures-weaken, Ensures-if,
  Ensures-settle, Ensures-modify,
}
use echocoding_harness.Agent.Dispatch.{
  ToolStop, ToolStopReason, fail, authorize, refuse, grant, after_choice, request_approval,
  ask_handler, ask_user, on_decision, after_evaluation, evaluate, count_signature, deny_repeated,
  limit_repeats, after_normalization, dispatch_tool, await_cancelled,
}
use echocoding_harness.Agent.Protocol.Order.{
  Phase, Stage, tool, requested, limiting, asking, refused as turned_down, granted, authorized,
  ending, served, advance, InPhase, InOrder,
}
use echocoding_harness.Agent.Protocol.Report.{in_order, Ensures-report}
use echocoding_harness.Agent.Protocol.Closing.{can_close, IsClosing}
use echocoding_harness.Agent.Protocol.Execution.{id, Post, cancel_lem, fail_lem, start_tool_lem}

module _ {W : Type 0} (env : Env W) (opts : Options) (step : Text) (call : ToolCall)
    (ids : List Text) where
  abbrev At : Stage → Pred W
  At stage = InPhase (tool stage (id env opts step call ids) ids)

  abbrev Result : Option ToolStop → Pred W
  Result = Post env opts step call ids

  -- An event of the call, whose id the automaton compares.
  abbrev Moves : Stage → Payload → Phase → Type 0
  Moves stage payload q =
      advance (tool stage (id env opts step call ids) ids) (redact_payload env.redact payload)
      ≡ some q

  abbrev at : Stage → Phase
  at stage = tool stage (id env opts step call ids) ids

  says :
      (stage : Stage) (payload : Payload) (q : Phase)
      → Moves stage payload q
      → Ensures (At stage) (report env step payload) (λ _. InPhase q) InOrder
  says stage payload q h = in_order (Ensures-report env step payload (at stage) q h)

  stops : (s : ToolStop) → Ensures (InPhase ending) (pure (some s)) Result InOrder
  stops s = Ensures-weaken (λ s k. (ending, refl, k)) (Ensures-pure Result _)

  authorize_lem :
      (stage : Stage) (input : Value) (source : Source) (reason rule : Text)
      → Moves stage (tool_authorized call.id source (some rule) (some reason)) (at authorized)
      → Ensures (At stage) (authorize env opts step call input source reason rule) Result InOrder
  unfolding authorize advance redact_payload
  authorize_lem stage input source reason rule h =
      Ensures-bind (says stage _ (at authorized) h) λ _.
        Ensures-bind (Ensures-gets (At authorized) _) λ aborted.
          Ensures-if _
            (in_order (
              cancel_lem env opts step call ids authorized CancelPhase.authorized _ _
                (rw (text_eq_refl (id env opts step call ids)))))
            (start_tool_lem env opts step call ids input)

  refuse_lem :
      (reason rule : Text) (outcome : DenialOutcome) (why : ToolStopReason) (error : EchoError)
      → Ensures (At asking) (refuse env opts step call reason rule outcome why error) Result InOrder
  unfolding refuse advance redact_payload
  refuse_lem reason rule outcome why error =
      Ensures-bind (says asking _ (at turned_down) (rw (text_eq_refl (id env opts step call ids))))
        λ _.
          Ensures-bind (says turned_down _ ending (rw (text_eq_refl (id env opts step call ids))))
            λ _. stops _

  await_cancelled_lem : Ensures (At asking) (await_cancelled env opts step call) Result InOrder
  unfolding advance redact_payload
  await_cancelled_lem = in_order (
      cancel_lem env opts step call ids asking CancelPhase.approval _ _
        (rw (text_eq_refl (id env opts step call ids))))

  grant_lem :
      (input : Value) (reason key rule : Text) (choice : Choice)
      → Ensures (At asking) (grant env opts step call input reason key rule choice) Result InOrder
  unfolding grant advance redact_payload
  grant_lem input reason key rule choice =
      Ensures-bind (says asking _ (at granted) (rw (text_eq_refl (id env opts step call ids)))) λ _.
        authorize_lem granted input Source.approval reason rule
          (rw (text_eq_refl (id env opts step call ids)))

  after_choice_lem :
      (input : Value) (reason key rule : Text) (o : Outcome Choice)
      → Ensures (At asking) (after_choice env opts step call input reason key rule o) Result InOrder
  unfolding after_choice
  after_choice_lem input reason key rule (thrown e) =
      Ensures-bind (Ensures-gets (At asking) _)
        λ aborted. Ensures-if aborted await_cancelled_lem (refuse_lem _ _ _ _ _)
  after_choice_lem input reason key rule (ok Choice.deny) = refuse_lem _ _ _ _ _
  after_choice_lem input reason key rule (ok Choice.session) =
      Ensures-bind (Ensures-modify (At asking) (At asking) _ (λ s k. k))
        λ _. grant_lem input reason key rule Choice.session
  after_choice_lem input reason key rule (ok Choice.once) =
      grant_lem input reason key rule Choice.once

  ask_handler_lem :
      (h : Option (ApprovalRequest → W → Outcome Choice × W)) (f : State W → ApprovalRequest)
      → Ensures (At asking) (ask_handler env opts step call h f) (λ _. At asking) InOrder
  unfolding ask_handler
  ask_handler_lem none f = Ensures-pure (λ _. At asking) _
  ask_handler_lem (some handler) f =
      Ensures-bind (Ensures-gets (At asking) f)
        λ request. Ensures-settle (λ s w k. k) (handler request)

  ask_user_lem :
      (input : Value) (reason key rule : Text)
      → Ensures (At requested) (ask_user env opts step call input reason key rule) Result InOrder
  unfolding ask_user request_approval advance redact_payload
  ask_user_lem input reason key rule =
      Ensures-bind (says requested _ (at asking) (rw (text_eq_refl (id env opts step call ids))))
        λ _. Ensures-bind (Ensures-gets (At asking) _) λ aborted.
          Ensures-if aborted await_cancelled_lem
            (Ensures-bind (ask_handler_lem env.approve _) (after_choice_lem input reason key rule))

  on_decision_lem :
      (input : Value) (d : Decision)
      → Ensures (At requested) (on_decision env opts step call input d) Result InOrder
  unfolding on_decision advance redact_payload
  on_decision_lem input (deny reason hard rule) =
      Ensures-bind (says requested _ ending (rw (text_eq_refl (id env opts step call ids))))
        λ _. stops _
  on_decision_lem input (allow reason rule) =
      authorize_lem requested input Source.policy reason rule
        (rw (text_eq_refl (id env opts step call ids)))
  on_decision_lem input (ask reason key rule) = ask_user_lem input reason key rule

  fail_requested :
      (error : EchoError) (summary : Text)
      → Ensures (At requested) (fail env opts step call error summary 0) Result InOrder
  unfolding advance redact_payload
  fail_requested error summary = in_order (
      fail_lem env opts step call ids requested error summary 0
        (rw (text_eq_refl (id env opts step call ids))))

  Result-IsClosing : (o : Option ToolStop) (s : State W) → Result o s → IsClosing s
  Result-IsClosing none s h = (served ids, refl, h)
  Result-IsClosing (some _) s h = h

  after_evaluation_lem :
      (input : Value) (o : Outcome Decision)
      → Ensures (At requested) (after_evaluation env opts step call input o) Result InOrder
  unfolding after_evaluation
  after_evaluation_lem input (ok d) = on_decision_lem input d
  after_evaluation_lem input (thrown e) =
      Ensures-bind (fail_requested _ _)
        λ o. Ensures-weaken (Result-IsClosing o) (Ensures-pure Result _)

  evaluate_lem :
      (input : Value) → Ensures (At requested) (evaluate env opts step call input) Result InOrder
  unfolding evaluate
  evaluate_lem input = Ensures-bind (Ensures-gets (At requested) _) λ request.
      Ensures-bind (Ensures-settle (λ s w k. k) (env.evaluate request)) (after_evaluation_lem input)

  deny_repeated_lem :
      (n : ℕ) → Ensures (At requested) (deny_repeated env opts step call n) Result InOrder
  unfolding deny_repeated advance redact_payload
  deny_repeated_lem n = Ensures-bind (says requested _ (at limiting) refl) λ _.
      Ensures-bind (says limiting _ ending (rw (text_eq_refl (id env opts step call ids))))
        λ _. stops _

  count_signature_lem :
      (signature : Text)
      → Ensures
          (At requested)
          (count_signature env opts step call signature)
          (λ _. At requested)
          InOrder
  unfolding count_signature
  count_signature_lem signature = Ensures-bind (Ensures-gets (At requested) _) λ n.
      Ensures-bind (Ensures-modify (At requested) (At requested) _ (λ s k. k))
        λ _. Ensures-pure (λ _. At requested) n

  limit_repeats_lem :
      (input : Value)
      → Ensures (At requested) (limit_repeats env opts step call input) Result InOrder
  unfolding limit_repeats
  limit_repeats_lem input =
      Ensures-bind (count_signature_lem _)
        λ n. Ensures-if _ (deny_repeated_lem n) (evaluate_lem input)

  -- A phase in which this call is the next to be made.
  module _ (p : Phase) (closable : can_close p ≡ true)
      (next : (v : Value)
        → advance p (redact_payload env.redact (tool_requested call v)) ≡ some (at requested)) where
    asks :
        (v : Value)
        → Ensures (InPhase p) (report env step (tool_requested call v)) (λ _. At requested) InOrder
    asks v = in_order (Ensures-report env step _ p (at requested) (next v))

    after_normalization_lem :
        (n : Normalization)
        → Ensures (InPhase p) (after_normalization env opts step call n) Result InOrder
    unfolding after_normalization
    after_normalization_lem (refused error) = Ensures-bind (asks null) λ _. fail_requested _ _
    after_normalization_lem (normalized input) = Ensures-bind (asks input) λ _.
        Ensures-bind (Ensures-gets (At requested) _)
          λ registered. Ensures-if registered (limit_repeats_lem input) (fail_requested _ _)

    pub dispatch_tool_lem : Ensures (InPhase p) (dispatch_tool env opts step call) Result InOrder
    unfolding dispatch_tool
    dispatch_tool_lem = Ensures-bind (Ensures-gets (InPhase p) _) λ aborted.
        Ensures-if aborted (Ensures-weaken (λ s k. (p, closable, k)) (Ensures-pure Result _)) (
          Ensures-bind (Ensures-modify (InPhase p) (InPhase p) _ (λ s k. k))
            λ _. after_normalization_lem _)

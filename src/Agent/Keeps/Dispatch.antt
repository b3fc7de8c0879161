-- ===== src/Agent/Keeps/Dispatch.antt =====
-- `dispatchTool` (agent/agent-loop.ts) keeps every property of the log that new events keep.
use echocoding_harness.Common.{ℕ, Option, none, some, List, Text}
use echocoding_harness.Contracts.Value.{Value}
use echocoding_harness.Contracts.Error.{EchoError, Thrown, Outcome, ok, thrown}
use echocoding_harness.Contracts.Event.{
  Event, ToolCall, ToolResult, CancelPhase, Source, DenialOutcome,
}
use echocoding_harness.Tools.Normalize.{Normalization, normalized, refused}
use echocoding_harness.Agent.Interface.{
  Env, Options, State, Execution, Choice, Decision, ApprovalRequest, allow, ask, deny,
}
use echocoding_harness.Agent.Dispatch.{
  ToolStopReason, elapsed, cancel, fail, lift, conclude, settle_execution, run_tool, on_throw,
  start_tool, authorize, refuse, grant, after_choice, ask_handler, request_approval, ask_user,
  on_decision, after_evaluation, evaluate, count_signature, deny_repeated, limit_repeats,
  after_normalization, dispatch_tool,
}
use echocoding_harness.Agent.Keeps.Rules.{
  Keeps, IsLogProperty, Keeps-bind, Keeps-modify, Keeps-gets, Keeps-if, Keeps-pure, keeps_rules,
}

module _ {W : Type 0} {J : List Event → ℕ → Type 0} (is : IsLogProperty J) (env : Env W)
    (opts : Options) (step : Text) (call : ToolCall) where
  Keeps-cancel :
      (p : CancelPhase) (t : Text) (e : EchoError) → Keeps J (cancel env opts step call p t e)
  unfolding cancel
  Keeps-cancel p t e = search keeps_rules

  Keeps-fail : (e : EchoError) (t : Text) (n : ℕ) → Keeps J (fail env opts step call e t n)
  unfolding fail
  Keeps-fail e t n = search keeps_rules

  Keeps-elapsed : (n : ℕ) → Keeps J (elapsed env opts step call n)
  unfolding elapsed
  Keeps-elapsed n = search keeps_rules

  Keeps-lift : (o : Outcome ToolResult) → Keeps J (lift env opts step call o)
  unfolding lift
  Keeps-lift (ok r) = search keeps_rules
  Keeps-lift (thrown e) = search keeps_rules

  ruleset base = (keeps_rules, Keeps-cancel, Keeps-fail, Keeps-elapsed, Keeps-lift)

  Keeps-conclude : (x : Execution) (n : ℕ) → Keeps J (conclude env opts step call x n)
  unfolding conclude
  Keeps-conclude (Execution.failed t e b) n = search base
  Keeps-conclude (Execution.completed t v b) n = search base

  Keeps-settle_execution :
      (x : Option Execution) (n : ℕ) → Keeps J (settle_execution env opts step call x n)
  unfolding settle_execution
  Keeps-settle_execution none n = search base
  Keeps-settle_execution (some x) n = search (base, Keeps-conclude)

  Keeps-run_tool : (v : Value) (n : ℕ) → Keeps J (run_tool env opts step call v n)
  unfolding run_tool
  Keeps-run_tool v n = search (base, Keeps-settle_execution) depth 9

  Keeps-on_throw : (n : ℕ) (e : Thrown) → Keeps J (on_throw env opts step call n e)
  unfolding on_throw
  Keeps-on_throw n e = search base depth 9

  Keeps-start_tool : (v : Value) → Keeps J (start_tool env opts step call v)
  unfolding start_tool
  Keeps-start_tool v = search (base, Keeps-run_tool, Keeps-on_throw) depth 9

  Keeps-authorize :
      (v : Value) (s : Source) (t u : Text) → Keeps J (authorize env opts step call v s t u)
  unfolding authorize
  Keeps-authorize v s t u = search (base, Keeps-start_tool) depth 9

  Keeps-refuse :
      (t u : Text) (d : DenialOutcome) (w : ToolStopReason) (e : EchoError)
      → Keeps J (refuse env opts step call t u d w e)
  unfolding refuse
  Keeps-refuse t u d w e = search base depth 9

  Keeps-grant :
      (v : Value) (t k u : Text) (c : Choice) → Keeps J (grant env opts step call v t k u c)
  unfolding grant
  Keeps-grant v t k u c = search (base, Keeps-authorize) depth 9

  Keeps-after_choice :
      (v : Value) (t k u : Text) (o : Outcome Choice)
      → Keeps J (after_choice env opts step call v t k u o)
  unfolding after_choice
  Keeps-after_choice v t k u (thrown e) = search (base, Keeps-refuse) depth 9
  Keeps-after_choice v t k u (ok Choice.deny) = Keeps-refuse _ _ _ _ _
  Keeps-after_choice v t k u (ok Choice.session) =
      Keeps-bind _ _ (Keeps-modify _ (λ s h. h)) λ _. Keeps-grant v t k u Choice.session
  Keeps-after_choice v t k u (ok Choice.once) = Keeps-grant v t k u Choice.once

  Keeps-ask_handler :
      (h : Option (ApprovalRequest → W → Outcome Choice × W)) (f : State W → ApprovalRequest)
      → Keeps J (ask_handler env opts step call h f)
  unfolding ask_handler
  Keeps-ask_handler none f = search base
  Keeps-ask_handler (some handler) f = search base

  Keeps-ask_user : (v : Value) (t k u : Text) → Keeps J (ask_user env opts step call v t k u)
  unfolding ask_user request_approval
  Keeps-ask_user v t k u = search (base, Keeps-ask_handler, Keeps-after_choice) depth 9

  Keeps-on_decision : (v : Value) (d : Decision) → Keeps J (on_decision env opts step call v d)
  unfolding on_decision
  Keeps-on_decision v (deny t h u) = search base
  Keeps-on_decision v (allow t u) = Keeps-authorize v Source.policy t u
  Keeps-on_decision v (ask t k u) = Keeps-ask_user v t k u

  Keeps-after_evaluation :
      (v : Value) (o : Outcome Decision) → Keeps J (after_evaluation env opts step call v o)
  unfolding after_evaluation
  Keeps-after_evaluation v (ok d) = Keeps-on_decision v d
  Keeps-after_evaluation v (thrown e) = search base

  Keeps-evaluate : (v : Value) → Keeps J (evaluate env opts step call v)
  unfolding evaluate
  Keeps-evaluate v = search (base, Keeps-after_evaluation) depth 9

  Keeps-count_signature : (t : Text) → Keeps J (count_signature env opts step call t)
  unfolding count_signature
  Keeps-count_signature t =
      Keeps-bind _ _ (Keeps-gets _)
        λ n. Keeps-bind _ _ (Keeps-modify _ (λ s h. h)) λ _. Keeps-pure n

  Keeps-deny_repeated : (n : ℕ) → Keeps J (deny_repeated env opts step call n)
  unfolding deny_repeated
  Keeps-deny_repeated n = search base depth 9

  Keeps-limit_repeats : (v : Value) → Keeps J (limit_repeats env opts step call v)
  unfolding limit_repeats
  Keeps-limit_repeats v =
      search (base, Keeps-count_signature, Keeps-deny_repeated, Keeps-evaluate) depth 9

  Keeps-after_normalization :
      (n : Normalization) → Keeps J (after_normalization env opts step call n)
  unfolding after_normalization
  Keeps-after_normalization (refused e) = search base depth 9
  Keeps-after_normalization (normalized v) = search (base, Keeps-limit_repeats) depth 9

  pub Keeps-dispatch_tool : Keeps J (dispatch_tool env opts step call)
  unfolding dispatch_tool
  Keeps-dispatch_tool = Keeps-bind _ _ (Keeps-gets _) λ aborted.
      Keeps-if aborted _ _ (Keeps-pure _)
        (Keeps-bind _ _ (Keeps-modify _ (λ s h. h)) λ _. Keeps-after_normalization _)

-- ===== src/Agent/Denial.antt =====
-- `dispatchTool` (agent/agent-loop.ts) under a policy that denies: neither the tools nor the approval
-- handler are asked.
use mathlib.Core.Path.{fun_ext}
use echocoding_harness.Common.{
  ◌≡◌, refl, ap, ◌+◌, leb, if◌then◌else◌, sym, subst, Bool, Option, Text,
}
use echocoding_harness.Contracts.Value.{Value}
use echocoding_harness.Contracts.Error.{Outcome, ok}
use echocoding_harness.Contracts.Event.{ToolCall, tool_requested}
use echocoding_harness.Agent.Calls.{cancelled_error}
use echocoding_harness.Tools.Normalize.{
  Normalization, normalized, refused, normalize_tool_input, tool_call_signature,
}
use echocoding_harness.Agent.Interface.{
  Env, Options, State, PolicyRequest, deny, ApprovalRequest, Choice, ToolContext, Execution,
}
use echocoding_harness.Agent.Action.{Action, pure, gets, settle, invoke, await, modify, ◌>>=◌, ◌>>◌}
use echocoding_harness.Agent.Emit.{create_event, emit, report}
use echocoding_harness.Agent.Dispatch.{
  ToolStop, stop, cancelled, not_registered, policy_request, evaluate, after_evaluation,
  on_decision, fail, repeat_limit, count_signature, deny_repeated, limit_repeats,
  after_normalization, dispatch_tool,
}

-- The policy denies whatever it is asked, in every state of the world.
pub record Denies {W : Type 0} (env : Env W) : Type 0 where
  pub denial : PolicyRequest → W → Text × Bool × Text
  pub denied :
      (q : PolicyRequest) (w : W)
      → (env.evaluate q w).0 ≡ ok (deny (denial q w).0 (denial q w).1 (denial q w).2)

module _ {W : Type 0} (env : Env W)
    (run : Text → Value → ToolContext → W → Outcome (Option Execution) × W)
    (ask : Option (ApprovalRequest → W → Outcome Choice × W)) where
  -- The same surroundings with other tools and another approval handler.
  abbrev pub replaced : Env W
  replaced = record env { execute = run; approve = ask }

  module _ (opts : Options) (step : Text) (call : ToolCall) (d : Denies env) where
    -- The state after the policy was asked.
    abbrev asked : State W → Value → State W
    asked s input = record s {
      world = (env.evaluate (policy_request env opts step call input s) s.world).1;
    }

    evaluate-replaced :
        (input : Value) (s : State W)
        → evaluate env opts step call input s ≡ evaluate replaced opts step call input s
    unfolding evaluate gets settle ◌>>=◌ after_evaluation on_decision report emit create_event pure
        modify invoke await
    evaluate-replaced input s =
        subst
          (λ o.
            after_evaluation env opts step call input o (asked s input)
            ≡ after_evaluation replaced opts step call input o (asked s input))
          (sym (d.denied (policy_request env opts step call input s) s.world)) refl

    evaluate-eq :
        (input : Value) → evaluate env opts step call input ≡ evaluate replaced opts step call input
    evaluate-eq input = fun_ext (evaluate-replaced input)

    limit_repeats-eq :
        (input : Value)
        → limit_repeats env opts step call input ≡ limit_repeats replaced opts step call input
    unfolding limit_repeats count_signature deny_repeated report emit create_event gets modify ◌>>=◌
        pure invoke await
    limit_repeats-eq input =
        ap
          (λ next. (do
            repeated ← count_signature env opts step call (tool_call_signature call.name input)
            if leb (repeat_limit env opts step call) repeated
                then deny_repeated env opts step call repeated
                else next))
          (evaluate-eq input)

    after_normalization-eq :
        (n : Normalization)
        → after_normalization env opts step call n ≡ after_normalization replaced opts step call n
    unfolding after_normalization fail report emit create_event gets modify ◌>>=◌ pure invoke await
    after_normalization-eq (refused error) = refl
    after_normalization-eq (normalized input) =
        ap
          (λ (next : Action W (Option ToolStop)). (do
            report env step (tool_requested call input)
            registered ← gets (λ s. env.has call.name s.world)
            if registered
                then next
                else fail env opts step call (not_registered call.name)
                    (not_registered call.name).message 0))
          (limit_repeats-eq input)

    -- Under a policy that denies every request, a call is dispatched with the same outcome and the same
    -- effects on the log, the state and the world, whatever the tools and the approval handler would do.
    pub dispatch_tool-Denies :
        (s : State W) → dispatch_tool env opts step call s ≡ dispatch_tool replaced opts step call s
    unfolding dispatch_tool gets modify ◌>>=◌ pure
    dispatch_tool-Denies s =
        ap
          (λ (next : Action W (Option ToolStop)).
            (do
              aborted ← gets (λ s. env.aborted s.world)
              if aborted
                  then pure (stop cancelled cancelled_error)
                  else do modify (λ s. record s { tool_calls = s.tool_calls + 1 }); next)
              s)
          (after_normalization-eq (normalize_tool_input call.arguments))

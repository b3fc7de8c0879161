-- ===== src/Agent/Dispatch.antt =====
-- agent/agent-loop.ts: `dispatchTool`, one helper for each of its stages.
use echocoding_harness.Common.{
  ℕ, ◌+◌, ◌-◌, Bool, false, ◌||◌, Option, none, some, ◌++◌, leb, if◌then◌else◌, Text, units, lookup,
  insert, add_text, decimal,
}
use echocoding_harness.Contracts.Value.{Value, null}
use echocoding_harness.Contracts.Error.{
  EchoError, Thrown, echo, Outcome, ok, thrown, invalid_tool_input, is_cancelled, is_storage,
}
use echocoding_harness.Contracts.Event.{
  ToolCall, ToolResult, Source, ApprovalScope, DenialOutcome, CancelPhase, LimitKind,
  tool_requested, tool_failed, tool_denied, tool_cancelled, tool_completed, tool_authorized,
  tool_started, limit_reached, approval_requested, approval_granted, approval_denied,
}
use echocoding_harness.Tools.Normalize.{
  Normalization, normalized, refused, normalize_tool_input, tool_call_signature,
}
use echocoding_harness.Agent.Interface.{
  Env, Options, State, Decision, allow, ask, deny, PolicyRequest, Choice, ApprovalRequest,
  ToolContext, Execution,
}
use echocoding_harness.Agent.Action.{
  Action, pure, throw, gets, invoke, await, settle, modify, ◌>>=◌, ◌>>◌, try_catch,
}
use echocoding_harness.Agent.Calls.{
  error_from_unknown, failure, cancelled_error, cancelled_with, tool_failure, policy_error,
  completed_result, failed_result, denied_result, cancelled_result,
}
use echocoding_harness.Agent.Emit.{report}

pub data ToolStopReason : Type 0 where
  policy_denied repeated_tool_call cancelled tool_error : ToolStopReason

pub record ToolStop : Type 0 where
  pub reason : ToolStopReason
  pub error : Option EchoError

abbrev pub stop : ToolStopReason → EchoError → Option ToolStop
stop reason error = some (record { reason = reason; error = some error })

abbrev pub default_repeated_tool_call_limit : ℕ
default_repeated_tool_call_limit = 10

abbrev pub or_default : Option ℕ → ℕ
or_default none = default_repeated_tool_call_limit
or_default (some n) = n

abbrev pub or_zero : Option ℕ → ℕ
or_zero none = 0
or_zero (some n) = n

abbrev pub not_registered : Text → EchoError
not_registered name =
    failure invalid_tool_input (units "TOOL_NOT_REGISTERED")
      (units "Tool \"" ++ name ++ units "\" is not registered.")

abbrev pub scope_of : Choice → ApprovalScope
scope_of Choice.session = ApprovalScope.session
scope_of _ = ApprovalScope.once

module _ {W : Type 0} (env : Env W) (opts : Options) (step : Text) (call : ToolCall) where
  abbrev pub signal_aborted : Action W Bool
  signal_aborted = gets (λ s. env.aborted s.world)

  abbrev pub repeat_limit : ℕ
  repeat_limit = or_default opts.repeated_tool_call_limit

  -- `Math.max(0, Math.round(this.monotonicNow() - started))`
  unfoldable pub elapsed : ℕ → Action W ℕ
  elapsed started = do now ← invoke env.monotonic; pure (now - started)

  unfoldable pub cancel : CancelPhase → Text → EchoError → Action W (Option ToolStop)
  cancel phase summary error = do
    report env step (tool_cancelled (cancelled_result call summary) phase)
    pure (stop cancelled error)

  unfoldable pub fail : EchoError → Text → ℕ → Action W (Option ToolStop)
  fail error summary duration = do
    report env step (tool_failed (failed_result call error summary) duration)
    pure none

  unfoldable pub lift : Outcome ToolResult → Action W ToolResult
  lift (ok r) = pure r
  lift (thrown e) = throw e

  -- The end of the `try` block, after the abort test.
  unfoldable pub conclude : Execution → ℕ → Action W (Option ToolStop)
  conclude (Execution.failed summary error _) duration = fail error summary duration
  conclude (Execution.completed summary result truncated) duration = do
    message ←
        lift (completed_result call summary result truncated opts.tool_limits.max_output_chars)
    report env step (tool_completed message duration)
    pure none

  abbrev pub summary_of : Execution → Text
  summary_of (Execution.failed summary _ _) = summary
  summary_of (Execution.completed summary _ _) = summary

  abbrev pub failed_by_cancel : Execution → Bool
  failed_by_cancel (Execution.failed _ error _) = is_cancelled error.category
  failed_by_cancel (Execution.completed _ _ _) = false

  unfoldable pub settle_execution : Option Execution → ℕ → Action W (Option ToolStop)
  settle_execution none duration = throw (
      echo (
        tool_failure (units "TOOL_NOT_REGISTERED")
          (units "Tool \"" ++ call.name ++ units "\" is not registered.")))
  settle_execution (some execution) duration = do
    aborted ← signal_aborted
    if aborted || failed_by_cancel execution
        then cancel CancelPhase.execution (summary_of execution)
            (cancelled_with (summary_of execution))
        else conclude execution duration

  abbrev pub context_of : State W → ToolContext
  context_of s = record {
    session_id = s.session_id;
    turn_id = s.turn_id;
    step_id = step;
    call_id = call.id;
    workspace_root = opts.workspace_root;
    limits = opts.tool_limits;
  }

  -- The `try` block round the execution.
  unfoldable pub run_tool : Value → ℕ → Action W (Option ToolStop)
  run_tool input started = do
    context ← gets context_of
    execution ← await (env.execute call.name input context)
    duration ← elapsed started
    settle_execution execution duration

  abbrev pub thrown_error : Thrown → EchoError
  thrown_error e =
      error_from_unknown e
        (tool_failure (units "TOOL_EXECUTION_THROWN") (units "The tool failed unexpectedly."))

  abbrev pub or_cancelled : EchoError → EchoError
  or_cancelled error = if is_cancelled error.category then error else cancelled_error

  -- Its `catch` block.
  unfoldable pub on_throw : ℕ → Thrown → Action W (Option ToolStop)
  on_throw started e =
      if is_storage (thrown_error e).category then throw (echo (thrown_error e)) else do
        duration ← elapsed started
        aborted ← signal_aborted
        if aborted || is_cancelled (thrown_error e).category
            then cancel CancelPhase.execution (thrown_error e).message
                (or_cancelled (thrown_error e))
            else fail (thrown_error e) (thrown_error e).message duration

  unfoldable pub start_tool : Value → Action W (Option ToolStop)
  start_tool input = do
    report env step (tool_started call.id call.name)
    started ← invoke env.monotonic
    try_catch (run_tool input started) (on_throw started)

  unfoldable pub authorize : Value → Source → Text → Text → Action W (Option ToolStop)
  authorize input source reason rule = do
    report env step (tool_authorized call.id source (some rule) (some reason))
    aborted ← signal_aborted
    if aborted
        then cancel CancelPhase.authorized (units "Cancelled before tool execution.")
            cancelled_error
        else start_tool input

  -- The denial after an approval request.
  unfoldable pub refuse :
      Text → Text → DenialOutcome → ToolStopReason → EchoError → Action W (Option ToolStop)
  refuse reason rule outcome stop_reason error = do
    report env step (approval_denied call.id reason (some rule) (some outcome))
    report env step (tool_denied (denied_result call reason) false (some rule))
    pure (stop stop_reason error)

  abbrev pub await_cancelled : Action W (Option ToolStop)
  await_cancelled =
      cancel CancelPhase.approval (units "Cancelled while awaiting approval.") cancelled_error

  abbrev pub approval_failed : EchoError
  approval_failed =
      tool_failure (units "APPROVAL_FAILED") (units "The approval request could not be completed.")

  abbrev pub denial_reason : Text
  denial_reason = elim env.approve [
    | none ↦ units "Approval is required and non-interactive execution defaults to deny."
    | some _ ↦ units "The user denied this operation."
  ]

  unfoldable pub grant : Value → Text → Text → Text → Choice → Action W (Option ToolStop)
  grant input reason key rule choice = do
    report env step (approval_granted call.id key (scope_of choice))
    authorize input Source.approval reason rule

  unfoldable pub after_choice :
      Value → Text → Text → Text → Outcome Choice → Action W (Option ToolStop)
  after_choice input reason key rule (thrown e) = do
    aborted ← signal_aborted
    if aborted
        then await_cancelled
        else refuse approval_failed.message rule DenialOutcome.failed tool_error approval_failed
  after_choice input reason key rule (ok Choice.deny) =
      refuse denial_reason rule DenialOutcome.denied policy_denied (policy_error denial_reason)
  after_choice input reason key rule (ok Choice.session) = do
    modify (λ s. record s { approvals = add_text key s.approvals })
    grant input reason key rule Choice.session
  after_choice input reason key rule (ok Choice.once) = grant input reason key rule Choice.once

  abbrev pub approval_request : Value → Text → Text → State W → ApprovalRequest
  approval_request input reason key s = record {
    call = call;
    input = input;
    reason = reason;
    key = key;
    turn_id = s.turn_id;
  }

  -- Without a handler the choice is to deny.
  unfoldable pub ask_handler :
      Option (ApprovalRequest → W → Outcome Choice × W)
      → (State W → ApprovalRequest)
      → Action W (Outcome Choice)
  ask_handler none request_of = pure (ok Choice.deny)
  ask_handler (some handler) request_of = do request ← gets request_of; settle (handler request)

  unfoldable pub request_approval : Value → Text → Text → Action W (Outcome Choice)
  unfolding ask_handler
  request_approval input reason key = ask_handler env.approve (approval_request input reason key)

  unfoldable pub ask_user : Value → Text → Text → Text → Action W (Option ToolStop)
  ask_user input reason key rule = do
    report env step (approval_requested call.id reason key (some rule))
    aborted ← signal_aborted
    if aborted then await_cancelled else do
      choice ← request_approval input reason key
      after_choice input reason key rule choice

  unfoldable pub on_decision : Value → Decision → Action W (Option ToolStop)
  on_decision input (deny reason hard rule) = do
    report env step (tool_denied (denied_result call reason) hard (some rule))
    pure (stop policy_denied (policy_error reason))
  on_decision input (allow reason rule) = authorize input Source.policy reason rule
  on_decision input (ask reason key rule) = ask_user input reason key rule

  abbrev pub evaluation_failed : EchoError
  evaluation_failed =
      tool_failure (units "POLICY_EVALUATION_FAILED")
        (units "The safety policy could not evaluate the tool request.")

  unfoldable pub after_evaluation : Value → Outcome Decision → Action W (Option ToolStop)
  after_evaluation input (ok decision) = on_decision input decision
  after_evaluation input (thrown e) = do
    fail evaluation_failed evaluation_failed.message 0
    pure (stop tool_error evaluation_failed)

  abbrev pub policy_request : Value → State W → PolicyRequest
  policy_request input s = record {
    mode = opts.safety_mode;
    tool_name = call.name;
    input = input;
    workspace_root = opts.workspace_root;
    session_approvals = s.approvals;
  }

  unfoldable pub evaluate : Value → Action W (Option ToolStop)
  evaluate input = do
    request ← gets (policy_request input)
    outcome ← settle (env.evaluate request)
    after_evaluation input outcome

  unfoldable pub count_signature : Text → Action W ℕ
  count_signature signature = do
    repeated ← gets (λ s. or_zero (lookup signature s.signatures) + 1)
    modify (λ s. record s { signatures = insert signature repeated s.signatures })
    pure repeated

  unfoldable pub deny_repeated : ℕ → Action W (Option ToolStop)
  deny_repeated repeated = do
    report env step (limit_reached LimitKind.repeated_tool_call repeat_limit)
    report env step (
        tool_denied
          (denied_result call
            (units "Equivalent tool call repeated " ++ decimal repeated ++ units " times."))
          false none)
    pure (some (record { reason = repeated_tool_call; error = none }))

  unfoldable pub limit_repeats : Value → Action W (Option ToolStop)
  limit_repeats input = do
    repeated ← count_signature (tool_call_signature call.name input)
    if leb repeat_limit repeated then deny_repeated repeated else evaluate input

  unfoldable pub after_normalization : Normalization → Action W (Option ToolStop)
  after_normalization (refused error) = do
    report env step (tool_requested call null)
    fail error error.message 0
  after_normalization (normalized input) = do
    report env step (tool_requested call input)
    registered ← gets (λ s. env.has call.name s.world)
    if registered
        then limit_repeats input
        else fail (not_registered call.name) (not_registered call.name).message 0

  unfoldable pub dispatch_tool : Action W (Option ToolStop)
  dispatch_tool = do
    aborted ← signal_aborted
    if aborted then pure (stop cancelled cancelled_error) else do
      modify (λ s. record s { tool_calls = s.tool_calls + 1 })
      after_normalization (normalize_tool_input call.arguments)

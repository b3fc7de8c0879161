-- ===== src/Agent/Steps.antt =====
-- agent/agent-loop.ts: `runSteps`, with one helper for each stage of a step, and `executeTurn`.
use echocoding_harness.Common.{
  ℕ, zero, suc, ◌+◌, Bool, true, false, not, ◌&&◌, ◌||◌, Option, none, some, List, [], ◌∷◌, ◌==◌,
  if◌then◌else◌, length, Text, units, text_eq, add_text, is_some,
}
use mathlib.Core.Option
use echocoding_harness.Contracts.Error.{
  EchoError, Thrown, Outcome, ok, thrown, is_cancelled, is_storage,
}
use echocoding_harness.Contracts.Event.{
  ToolCall, FinishReason, Reasoning, Status, StopReason, LimitKind, AgentResult, turn_started,
  step_started, context_projected, model_started, model_text, model_reasoning, model_tool_call,
  model_completed, model_failed, limit_reached, turn_completed,
}
use echocoding_harness.Provider.Reasoning.{aggregate_reasoning}
use echocoding_harness.Agent.Interface.{Env, Options, State, Projection, ModelRequest, IdKind}
use echocoding_harness.Agent.Action.{Action, pure, gets, invoke, modify, ◌>>=◌, ◌>>◌}
use echocoding_harness.Agent.Calls.{
  error_from_unknown, cancelled_error, provider_protocol_error, validate_tool_call_ids,
}
use echocoding_harness.Agent.Emit.{
  emit, report, result_of, finish, finish_failed, finish_limited, finish_cancelled,
}
use echocoding_harness.Agent.Dispatch.{
  ToolStop, ToolStopReason, repeated_tool_call, cancelled, dispatch_tool,
}
use echocoding_harness.Agent.Response.{
  Response, no_response, receive_all, is_length, is_filtered, is_empty, non_empty, stop_reason_of,
  error_or_cancelled, output_limit_error, filtered_error, reasoning_exhausted_error,
  empty_response_error,
}

module _ {W : Type 0} (env : Env W) (opts : Options) where
  unfoldable pub persist_payload : Text → Option Reasoning → Action W (Option Reasoning)
  persist_payload step none = pure none
  persist_payload step (some payload) = do
    report env step (model_reasoning payload)
    pure (some payload)

  unfoldable pub persist_reasoning : Text → List Reasoning → Action W (Option Reasoning)
  unfolding persist_payload
  persist_reasoning step deltas = persist_payload step (aggregate_reasoning deltas)

  unfoldable pub persist_text : Text → Text → Bool → Action W (Unit {0})
  persist_text step [] is_partial = pure tt
  persist_text step (c ∷ t) is_partial = report env step (model_text (c ∷ t) is_partial)

  unfoldable pub complete : Text → Action W AgentResult
  complete text = do
    result ← gets (result_of env Status.completed StopReason.completed (some text) none)
    finish env turn_completed result

  -- The loop over the calls goes on unless the last one stops the turn.
  unfoldable pub unless_stopped :
      Option ToolStop → Action W (Option ToolStop) → Action W (Option ToolStop)
  unless_stopped none rest = rest
  unless_stopped (some s) rest = pure (some s)

  unfoldable pub dispatch_all : Text → List ToolCall → Action W (Option ToolStop)
  dispatch_all step [] = pure none
  dispatch_all step (c ∷ calls) = do
    outcome ← dispatch_tool env opts step c
    unless_stopped outcome (dispatch_all step calls)

  unfoldable pub finish_by : ToolStopReason → Option EchoError → Action W AgentResult
  finish_by cancelled error = finish_cancelled env (error_or_cancelled error)
  finish_by repeated_tool_call error = finish_limited env StopReason.repeated_tool_call none none
  finish_by reason error = finish_failed env (stop_reason_of reason) error

  unfoldable pub finish_stopped : ToolStop → Action W AgentResult
  unfolding finish_by
  finish_stopped s = finish_by s.reason s.error

  module _ (next : Action W AgentResult) (round : ℕ) (step : Text) where
    unfoldable pub reach_max_steps : Action W AgentResult
    reach_max_steps = do
      report env step (limit_reached LimitKind.max_steps opts.max_steps)
      finish_limited env StopReason.max_steps none none

    -- After the tool calls of a step; `next` is the rest of the loop.
    unfoldable pub after_tools : Option ToolStop → Action W AgentResult
    after_tools (some s) = finish_stopped s
    after_tools none = if round == opts.max_steps then reach_max_steps else next

    unfoldable pub run_tools : List ToolCall → Action W AgentResult
    run_tools calls = do outcome ← dispatch_all step calls; after_tools outcome

    abbrev pub fail_response : EchoError → Action W AgentResult
    fail_response error = finish_failed env StopReason.provider_error (some error)

    unfoldable pub conclude_response : Response → FinishReason → Bool → Action W AgentResult
    conclude_response r reason has_reasoning =
        let has_text = not (is_empty r.text) in
        let has_tools = not (is_empty r.calls) in
        if is_filtered reason
        then fail_response filtered_error
        else if has_tools && is_length reason
        then finish_limited env StopReason.output_limit (non_empty r.text) (some output_limit_error)
        else if has_tools
        then run_tools r.calls
        else if has_text && is_length reason
        then finish_limited env StopReason.output_limit (some r.text) (some output_limit_error)
        else if has_text
        then complete r.text
        else if is_length reason && has_reasoning
        then fail_response reasoning_exhausted_error
        else fail_response empty_response_error

    unfoldable pub record_calls : List ToolCall → Action W (Unit {0})
    record_calls [] = pure tt
    record_calls (c ∷ calls) = do
      modify (λ s. record s { seen_tool_call_ids = add_text c.id s.seen_tool_call_ids })
      report env step (model_tool_call c)
      record_calls calls

    unfoldable pub after_validation :
        Response → FinishReason → Bool → Option EchoError → Action W AgentResult
    after_validation r reason has_reasoning (some error) = do
      report env step (model_failed error none)
      finish_failed env StopReason.provider_error (some error)
    after_validation r reason has_reasoning none = do
      record_calls r.calls
      report env step (model_completed reason r.input_tokens r.output_tokens)
      conclude_response r reason has_reasoning

    unfoldable pub answered : Response → FinishReason → Action W AgentResult
    answered r reason = do
      aggregated ← persist_reasoning step r.deltas
      persist_text step r.text false
      seen ← gets (λ s. s.seen_tool_call_ids)
      after_validation r reason (is_some aggregated) (validate_tool_call_ids r.calls seen)

    abbrev pub or_turn_cancelled : EchoError → EchoError
    or_turn_cancelled error = if is_cancelled error.category then error else cancelled_error

    unfoldable pub stream_failed : Response → EchoError → Action W AgentResult
    stream_failed r error = do
      persist_reasoning step r.deltas
      persist_text step r.text true
      report env step (model_failed error none)
      aborted ← gets (λ s. env.aborted s.world)
      if is_cancelled error.category || aborted
          then finish_cancelled env (or_turn_cancelled error)
          else finish_failed env StopReason.provider_error (some error)

    abbrev pub stream_error : Thrown → EchoError
    stream_error e = error_from_unknown e (
        provider_protocol_error (units "PROVIDER_STREAM_FAILED")
          (units "The model request failed."))

    abbrev pub incomplete_error : EchoError
    incomplete_error =
        provider_protocol_error (units "PROVIDER_STREAM_INCOMPLETE")
          (units "The model stream ended without a completion event.")

    -- The stream has ended, with a completion event or without.
    unfoldable pub ended : Response → Option FinishReason → Action W AgentResult
    ended r none = stream_failed r incomplete_error
    ended r (some reason) = answered r reason

    unfoldable pub received : Response → Outcome (Unit {0}) → Action W AgentResult
    received r (thrown e) = stream_failed r (stream_error e)
    received r (ok _) = ended r r.finish_reason

    abbrev pub request_of : Projection → State W → ModelRequest
    request_of p s = record {
      model = opts.model;
      messages = p.messages;
      tools = env.definitions s.world;
      max_output_tokens = opts.context_budget.reserved_output_tokens;
    }

    abbrev pub context_error : Thrown → EchoError
    context_error e = error_from_unknown e (
        provider_protocol_error (units "CONTEXT_ATOMIC_GROUP_EXCEEDED") (
          units
            "The current turn reasoning, tool calls, and tool results cannot fit in the remaining approximate context budget."))

    abbrev pub is_log_invalid : EchoError → Bool
    is_log_invalid error =
        is_storage error.category && text_eq error.code (units "SESSION_LOG_INVALID")

    unfoldable pub after_projection : Outcome Projection → Action W AgentResult
    after_projection (thrown e) =
        if is_log_invalid (context_error e)
        then finish_failed env StopReason.provider_error (some (context_error e))
        else do
          report env step
              (limit_reached LimitKind.context_budget opts.context_budget.max_approx_tokens)
          finish_failed env StopReason.provider_error (some (context_error e))
    after_projection (ok p) = do
      report env step
          (context_projected p.approximate_tokens p.omitted_event_count (length p.truncations))
      report env step (
          model_started opts.provider_name opts.model
            (Option.map (λ i. i.endpoint_fingerprint) opts.provider_identity))
      request ← gets (request_of p)
      streamed ← invoke (env.stream request)
      received (receive_all no_response streamed.0) streamed.1

    unfoldable pub project : Action W AgentResult
    project = do
      report env step (step_started round)
      events ← gets (λ s. s.events)
      after_projection (env.build events opts.context_budget)

  unfoldable pub start_step : Action W AgentResult → ℕ → Action W AgentResult
  start_step next round = do
    modify (λ s. record s { steps = round })
    step ← invoke (env.fresh IdKind.step)
    project next round step

  unfoldable pub run_step : Action W AgentResult → ℕ → Action W AgentResult
  run_step next round = do
    aborted ← gets (λ s. env.aborted s.world)
    if aborted then finish_cancelled env cancelled_error else start_step next round

  -- The loop, by the rounds that are left.
  unfoldable pub steps_from : ℕ → ℕ → Action W AgentResult
  steps_from zero round = finish_limited env StopReason.max_steps none none
  steps_from (suc left) round = run_step (steps_from left (round + 1)) round

  unfoldable pub run_steps : Action W AgentResult
  run_steps = steps_from opts.max_steps 1

  unfoldable pub execute_turn : Text → Action W AgentResult
  execute_turn goal = do
    turn ← gets (λ s. s.turn_id)
    emit env (turn_started goal) none (some turn)
    run_steps

-- ===== src/Session/Query/Resumed.antt =====
-- What a session tells of itself once its log was completed: session/session-query.ts after
-- `compensateIncomplete` of session/jsonl-session-repository.ts.
use echocoding_harness.Common.{
  ◌≡◌, refl, ap, sym, ◌∙◌, arith, true, Option, none, some, List, [], ◌∷◌, Text,
}
use echocoding_harness.Contracts.Error.{Outcome, ok, thrown}
use echocoding_harness.Contracts.Event.{Event, ToolCall, ProviderIdentity}
use echocoding_harness.Agent.Recovery.{requested_call, terminal_ids}
use echocoding_harness.Session.Compensation.{
  Repository, Log, compensate_incomplete, incomplete_turn_ids,
}
use echocoding_harness.Session.Compensation.Complete.{
  in_calls, answered, compensate_incomplete-Complete,
}
use echocoding_harness.Session.Query.Runtime.{
  SessionRuntimeState, to_runtime_state, provider_from_events, with_ok, runtime_state,
  incomplete_tool_call_ids, calls_without_end, join_call, head,
}

join_call-answered :
    (o : Option ToolCall) (ended seen : List Text) (rest : List Text → List Text)
    → in_calls ended o ≡ true
    → ((s : List Text) → rest s ≡ [])
    → join_call o ended seen rest ≡ []
join_call-answered none ended seen rest a r = r seen
join_call-answered (some c) ended seen rest a r = ground (arith, a, r seen)

calls_without_end-answered :
    (ended : List Text) (es : List Event)
    → answered ended es ≡ true
    → (seen : List Text) → calls_without_end ended es seen ≡ []
unfolding calls_without_end answered
calls_without_end-answered ended [] a seen = refl
calls_without_end-answered ended (e ∷ es) a seen =
    join_call-answered (requested_call e.payload) ended seen (calls_without_end ended es)
      (ground (arith, a)) (calls_without_end-answered ended es (ground (arith, a)))

active_of : Outcome SessionRuntimeState → Option Text
active_of (ok state) = state.active_turn_id
active_of (thrown _) = none

active-none :
    (session workspace : Text) (events : List Event) (state : SessionRuntimeState)
    (o : Outcome ProviderIdentity)
    → incomplete_turn_ids events ≡ []
    → with_ok (runtime_state session workspace events) o ≡ ok state
    → state.active_turn_id ≡ none
unfolding active_of
active-none session workspace events state (ok provider) n e = sym (ap active_of e) ∙ ap head n
active-none session workspace events state (thrown x) n e = absurd (cc e)

module _ {W : Type 0} (repository : Repository W) where
  -- When a session is resumed and its log was completed, no tool call is incomplete, and the state that
  -- the session tells has no active turn.
  pub to_runtime_state-resumed :
      (session workspace : Text) (events : List Event) (log : Log) (w : W)
      (state : SessionRuntimeState)
      → (compensate_incomplete repository session events w).0 ≡ ok log
      → to_runtime_state session workspace log.repaired ≡ ok state
      → (incomplete_tool_call_ids log.repaired ≡ []) × (state.active_turn_id ≡ none)
  unfolding to_runtime_state incomplete_tool_call_ids
  to_runtime_state-resumed session workspace events log w state h e =
      let complete = compensate_incomplete-Complete repository session events log w h in
      (
        calls_without_end-answered (terminal_ids [] log.repaired) log.repaired
            complete.requests_answered [],
        active-none session workspace log.repaired state (provider_from_events log.repaired)
            complete.no_turn_hangs e,
      )

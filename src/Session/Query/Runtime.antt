-- ===== src/Session/Query/Runtime.antt =====
-- session/session-query.ts: the state of a session, its summary and its view, from its log.
-- `maxApproxTokens` is left out as it is in the events.
use echocoding_harness.Common.{
  ℕ, zero, suc, ◌||◌, Option, none, some, List, [], ◌∷◌, filter, length, if◌then◌else◌, Text, units,
  text_eq, mem_text, add_text,
}
use echocoding_harness.Contracts.Error.{Outcome, ok, thrown, echo, storage}
use echocoding_harness.Contracts.Event.{
  Event, Payload, SafetyMode, balanced, Status, StopReason, AgentResult, ToolCall, ProviderIdentity,
  ApprovalScope, session_started, session_resumed, context_projected, model_changed, safety_changed,
  approval_granted, model_tool_call, tool_requested,
}
use echocoding_harness.Agent.Calls.{failure}
use echocoding_harness.Agent.Recovery.{requested_call, is_turn_started, terminal_ids}
use echocoding_harness.Session.Compensation.{incomplete_turn_ids}
use echocoding_harness.Session.Query.{
  TurnQuery, or_else, last_of, or, result_of, to_turn_queries, schema_version_of,
}

-- `sessionApprovalsFrom`, `seenToolCallIdsFrom`.
abbrev add_approval : Payload → List Text → List Text
add_approval (approval_granted _ key ApprovalScope.session) approvals = add_text key approvals
add_approval _ approvals = approvals

unfoldable pub approvals_from : List Text → List Event → List Text
approvals_from approvals [] = approvals
approvals_from approvals (e ∷ es) = approvals_from (add_approval e.payload approvals) es

unfoldable pub session_approvals_from : List Event → List Text
unfolding approvals_from
session_approvals_from events = approvals_from [] events

abbrev add_call : Payload → List Text → List Text
add_call (model_tool_call c) ids = add_text c.id ids
add_call (tool_requested c _) ids = add_text c.id ids
add_call _ ids = ids

unfoldable pub calls_from : List Text → List Event → List Text
calls_from ids [] = ids
calls_from ids (e ∷ es) = calls_from (add_call e.payload ids) es

unfoldable pub seen_tool_call_ids_from : List Event → List Text
unfolding calls_from
seen_tool_call_ids_from events = calls_from [] events

-- `lastModel`, `lastSafetyMode`, `lastSource`; the sources are texts.
abbrev model_of : Payload → Option Text
model_of (model_changed model _ _) = some model
model_of (session_resumed _ _ model _ _) = some model
model_of (session_started _ _ _ _ model) = model
model_of _ = none

unfoldable pub last_model : List Event → Text
unfolding last_of
last_model events = or [] (last_of model_of events)

abbrev mode_of : Payload → Option SafetyMode
mode_of (safety_changed mode _ _) = some mode
mode_of (session_resumed _ _ _ mode _) = some mode
mode_of (session_started _ mode _ _ _) = some mode
mode_of _ = none

unfoldable pub last_safety_mode : List Event → SafetyMode
unfolding last_of
last_safety_mode events = or balanced (last_of mode_of events)

abbrev as_source : Text → Text
as_source source = if text_eq source (units "slash") then units "session" else source

abbrev model_source_of : Payload → Option Text
model_source_of (model_changed _ _ source) = some (as_source source)
model_source_of _ = none

abbrev safety_source_of : Payload → Option Text
safety_source_of (safety_changed _ _ source) = some (as_source source)
safety_source_of _ = none

unfoldable pub last_source : (Payload → Option Text) → List Event → Text
unfolding last_of units
last_source of_kind events = or (units "session") (last_of of_kind events)

abbrev no_provider : Outcome ProviderIdentity
no_provider = thrown (
    echo (
      failure storage (units "SESSION_LOG_INCOMPATIBLE")
        (units "The session is missing a version-2 Provider identity.")))

abbrev provider_or : Payload → Outcome ProviderIdentity → Outcome ProviderIdentity
provider_or (session_started _ _ _ (some provider) _) rest = ok provider
provider_or (session_resumed _ provider _ _ _) rest = ok provider
provider_or _ rest = rest

unfoldable pub provider_from_events : List Event → Outcome ProviderIdentity
unfolding units
provider_from_events [] = no_provider
provider_from_events (e ∷ es) = provider_or e.payload (provider_from_events es)

pub record LastTurn : Type 0 where
  pub status : Status
  pub stop_reason : StopReason
  pub steps : ℕ
  pub tool_calls : ℕ

abbrev summary_of : Option AgentResult → Option LastTurn
summary_of none = none
summary_of (some r) = some (record {
  status = r.status;
  stop_reason = r.stop_reason;
  steps = r.steps;
  tool_calls = r.tool_calls;
})

unfoldable pub last_turn_summary : List TurnQuery → Option LastTurn
unfolding last_of
last_turn_summary [] = none
last_turn_summary (t ∷ ts) =
    or_else (last_turn_summary ts) (summary_of (last_of result_of t.events))

pub record SessionRuntimeState : Type 0 where
  pub session_id : Text
  pub workspace_name : Text
  pub provider : ProviderIdentity
  pub model : Text × Text
  pub safety_mode : SafetyMode × Text
  pub turn_count : ℕ
  pub active_turn_id : Option Text
  pub approximate_tokens : Option ℕ
  pub last_turn : Option LastTurn

abbrev pub head : List Text → Option Text
head [] = none
head (t ∷ _) = some t

abbrev tokens_of : Payload → Option ℕ
tokens_of (context_projected tokens _ _) = some tokens
tokens_of _ = none

abbrev pub runtime_state : Text → Text → List Event → ProviderIdentity → SessionRuntimeState
runtime_state session workspace events provider = record {
  session_id = session;
  workspace_name = workspace;
  provider = provider;
  model = (last_model events, last_source model_source_of events);
  safety_mode = (last_safety_mode events, last_source safety_source_of events);
  turn_count = length (to_turn_queries events);
  active_turn_id = head (incomplete_turn_ids events);
  approximate_tokens = last_of tokens_of events;
  last_turn = last_turn_summary (to_turn_queries events);
}

abbrev pub with_ok : {A B : Type 0} → (A → B) → Outcome A → Outcome B
with_ok f (ok a) = ok (f a)
with_ok f (thrown e) = thrown e

unfoldable pub to_runtime_state :
    (session workspace : Text) → List Event → Outcome SessionRuntimeState
unfolding last_model last_safety_mode last_source last_turn_summary last_of
to_runtime_state session workspace events =
    with_ok (runtime_state session workspace events) (provider_from_events events)

unfoldable pub last_timestamp : Text → List Event → Text
last_timestamp t [] = t
last_timestamp t (e ∷ es) = last_timestamp e.timestamp es

pub record SessionSummary : Type 0 where
  pub session_id : Text
  pub updated_at : Text
  pub turn_count : ℕ
  pub event_schema_version : ℕ
  pub provider : ProviderIdentity
  pub model : Text
  pub safety_mode : SafetyMode

-- What a summary says where the log is silent.
pub record Fallback : Type 0 where
  pub updated_at : Text
  pub provider : ProviderIdentity
  pub model : Text
  pub event_schema_version : ℕ

abbrev or_number : ℕ → ℕ → ℕ
or_number zero fallback = fallback
or_number (suc n) fallback = suc n

abbrev or_text : Text → Text → Text
or_text [] fallback = fallback
or_text (c ∷ t) fallback = c ∷ t

abbrev summary : Text → List Event → Fallback → ProviderIdentity → SessionSummary
summary session events fallback provider = record {
  session_id = session;
  updated_at = last_timestamp fallback.updated_at events;
  turn_count = length (filter (λ e. is_turn_started e.payload) events);
  event_schema_version = or_number (schema_version_of events) fallback.event_schema_version;
  provider = provider;
  model = or_text (last_model events) fallback.model;
  safety_mode = last_safety_mode events;
}

abbrev provider_of : List Event → Fallback → Outcome ProviderIdentity
provider_of [] fallback = ok fallback.provider
provider_of (e ∷ es) fallback = provider_from_events (e ∷ es)

unfoldable pub to_session_summary : Text → List Event → Fallback → Outcome SessionSummary
unfolding last_timestamp last_model last_safety_mode provider_from_events
to_session_summary session events fallback =
    with_ok (summary session events fallback) (provider_of events fallback)

pub record SessionQueryView : Type 0 where
  pub session_id : Text
  pub event_schema_version : ℕ
  pub runtime : SessionRuntimeState
  pub turns : List TurnQuery
  pub events : List Event

abbrev query_view : Text → List Event → SessionRuntimeState → SessionQueryView
query_view session events runtime = record {
  session_id = session;
  event_schema_version = schema_version_of events;
  runtime = runtime;
  turns = to_turn_queries events;
  events = events;
}

unfoldable pub to_query_view : (session workspace : Text) → List Event → Outcome SessionQueryView
unfolding to_runtime_state
to_query_view session workspace events =
    with_ok (query_view session events) (to_runtime_state session workspace events)

-- `incompleteToolCallIds`: a request joins unless its call ended or was met before.
abbrev pub join_call : Option ToolCall → List Text → List Text → (List Text → List Text) → List Text
join_call none ended seen rest = rest seen
join_call (some c) ended seen rest =
    if mem_text c.id ended || mem_text c.id seen then rest seen else c.id ∷ rest (c.id ∷ seen)

unfoldable pub calls_without_end : List Text → List Event → List Text → List Text
calls_without_end ended [] seen = []
calls_without_end ended (e ∷ es) seen =
    join_call (requested_call e.payload) ended seen (calls_without_end ended es)

unfoldable pub incomplete_tool_call_ids : List Event → List Text
unfolding calls_without_end
incomplete_tool_call_ids events = calls_without_end (terminal_ids [] events) events []

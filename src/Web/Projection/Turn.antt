-- ===== src/Web/Projection/Turn.antt =====
-- web/session-projection.ts: a turn and a session as the browser is told of them, and the gap in the
-- history of a client.
use echocoding_harness.Common.{
  ℕ, Bool, Option, none, some, List, [], ◌∷◌, if◌then◌else◌, Text, units, text_eq, mem_text,
}
use echocoding_harness.Contracts.Event.{
  Event, Payload, SafetyMode, Status, AgentResult, ToolResult, turn_started, model_text,
  model_tool_call, tool_requested, tool_started, approval_requested, terminal_result,
}
use echocoding_harness.Context.Conversation.{stop_reason_name}
use echocoding_harness.Session.Query.{StepQuery, TurnQuery, or, last_of, result_of}
use echocoding_harness.Session.Query.Runtime.{SessionQueryView, last_timestamp}
use echocoding_harness.Web.Projection.{
  SessionPhase, ChatToolSummaryStatus, ApprovalRequest, bound_text, tool_name_of, tool_status,
  require_text, session_phase, session_short_id, session_title, pending_approval_from,
}

pub record ChatResponse : Type 0 where
  pub step : ℕ
  pub text : Text
  pub is_partial : Bool

pub record ToolSummary : Type 0 where
  pub tool_call_id : Text
  pub name : Text
  pub status : ChatToolSummaryStatus
  pub result_summary : Option Text

pub record ChatTurn : Type 0 where
  pub turn_id : Text
  pub started_at : Text
  pub user_text : Text
  pub responses : List ChatResponse
  pub tool_summaries : List ToolSummary
  pub status : SessionPhase
  pub stop_reason : Option Text

-- `new Date(0).toISOString()`
abbrev epoch : Text
epoch = units "1970-01-01T00:00:00.000Z"

-- The goal and the time of the first `turn.started`.
abbrev start_or : Payload → Text → Option (Text × Text) → Option (Text × Text)
start_or (turn_started goal) timestamp rest = some (goal, timestamp)
start_or _ timestamp rest = rest

unfoldable pub start_of : List Event → Option (Text × Text)
start_of [] = none
start_of (e ∷ es) = start_or e.payload e.timestamp (start_of es)

abbrev started_at_of : Option (Text × Text) → List Event → Text
started_at_of (some (_, timestamp)) events = timestamp
started_at_of none [] = epoch
started_at_of none (e ∷ _) = e.timestamp

-- The call for which an event adds a summary.
abbrev call_of : Payload → Option Text
call_of (model_tool_call c) = some c.id
call_of (tool_requested c _) = some c.id
call_of (tool_started id _) = some id
call_of (approval_requested id _ _ _) = some id
call_of _ = none

abbrev last_text_of : Payload → Option (Text × Bool)
last_text_of (model_text text is_partial) = some (text, is_partial)
last_text_of _ = none

abbrev summary_for : Text → Option ToolResult → Option Text
summary_for id none = none
summary_for id (some r) = if text_eq r.tool_call_id id then some r.summary else none

abbrev phase_or_running : Option Status → Option AgentResult → SessionPhase
phase_or_running (some s) terminal = SessionPhase.ended s
phase_or_running none (some r) = SessionPhase.ended r.status
phase_or_running none none = SessionPhase.running

abbrev reason_of : Option AgentResult → Option Text
reason_of none = none
reason_of (some r) = some (bound_text (stop_reason_name r.stop_reason) 512)

module _ (redact : Text → Text) where
  abbrev shown : Text → ℕ → Text
  shown value max = bound_text (redact value) max

  abbrev response_of : ℕ → Option (Text × Bool) → List ChatResponse → List ChatResponse
  response_of step none rest = rest
  response_of step (some (text, is_partial)) rest =
      record { step = step; text = shown text 65536; is_partial = is_partial } ∷ rest

  unfoldable pub responses_of : List StepQuery → List ChatResponse
  unfolding bound_text last_of
  responses_of [] = []
  responses_of (s ∷ ss) = response_of s.step (last_of last_text_of s.events) (responses_of ss)

  abbrev shown_result : Option Text → Option Text
  shown_result none = none
  shown_result (some []) = none
  shown_result (some (c ∷ t)) = some (shown (c ∷ t) 2048)

  unfoldable pub tool_result_summary : List Event → Text → Option Text
  unfolding bound_text last_of
  tool_result_summary events id =
      shown_result (last_of (λ p. summary_for id (terminal_result p)) events)

  abbrev tool_summary : List Event → Text → ToolSummary
  tool_summary events id = record {
    tool_call_id = id;
    name = require_text redact (tool_name_of events id) (units "tool") 512;
    status = tool_status events id;
    result_summary = tool_result_summary events id;
  }

  abbrev summarize :
      List Event → Option Text → List Text → (List Text → List ToolSummary) → List ToolSummary
  summarize all none seen rest = rest seen
  summarize all (some id) seen rest =
      if mem_text id seen then rest seen else tool_summary all id ∷ rest (id ∷ seen)

  -- The loop over the events of a turn, with the set `seen`.
  unfoldable pub summaries_from : List Event → List Event → List Text → List ToolSummary
  unfolding tool_result_summary tool_name_of tool_status require_text units
  summaries_from all [] seen = []
  summaries_from all (e ∷ es) seen = summarize all (call_of e.payload) seen (summaries_from all es)

  abbrev goal_of : Option (Text × Text) → Text
  goal_of none = []
  goal_of (some (goal, _)) = shown goal 65536

  unfoldable pub project_chat_turn : TurnQuery → ChatTurn
  unfolding bound_text start_of responses_of summaries_from last_of units
  project_chat_turn turn = record {
    turn_id = turn.turn_id;
    started_at = started_at_of (start_of turn.events) turn.events;
    user_text = goal_of (start_of turn.events);
    responses = responses_of turn.steps;
    tool_summaries = summaries_from turn.events turn.events [];
    status = phase_or_running turn.status (last_of result_of turn.events);
    stop_reason = reason_of (last_of result_of turn.events);
  }

  abbrev last_turn : List TurnQuery → Option ChatTurn → Option ChatTurn
  last_turn [] found = found
  last_turn (t ∷ ts) found = last_turn ts (some (project_chat_turn t))

  unfoldable pub current_chat_turn : SessionQueryView → Option ChatTurn
  unfolding project_chat_turn
  current_chat_turn view = last_turn view.turns none

pub record SessionSummary : Type 0 where
  pub id : Text
  pub short_id : Text
  pub title : Text
  pub updated_at : Text
  pub turn_count : ℕ
  pub phase : SessionPhase
  pub model : Text
  pub safety_mode : SafetyMode

pub record SessionRuntime : Type 0 where
  pub summary : SessionSummary
  pub used_approx_tokens : ℕ
  pub pending_approval : Option ApprovalRequest

module _ (redact : Text → Text) (active_session active_turn : Option Text) where
  unfoldable pub project_session_summary : SessionQueryView → SessionSummary
  unfolding session_short_id session_title session_phase bound_text last_timestamp units
  project_session_summary view = record {
    id = view.session_id;
    short_id = session_short_id view.session_id;
    title = session_title redact view;
    updated_at = last_timestamp epoch view.events;
    turn_count = view.runtime.turn_count;
    phase = session_phase view active_session active_turn;
    model = bound_text view.runtime.model.0 512;
    safety_mode = view.runtime.safety_mode.0;
  }

  unfoldable pub project_session_runtime : SessionQueryView → SessionRuntime
  unfolding project_session_summary pending_approval_from
  project_session_runtime view = record {
    summary = project_session_summary view;
    used_approx_tokens = or 0 view.runtime.approximate_tokens;
    pending_approval = pending_approval_from redact view;
  }

-- ===== src/Web/Projection/Tests.antt =====
-- The projection of a small log.
use echocoding_harness.Common.{
  arith, ℕ, ◌≡◌, ◌↔◌, refl, false, true, Option, some, none, List, [], ◌∷◌, units, text_eq,
  starts_with,
}
use echocoding_harness.Contracts.Event.{
  terminal_result, Event, Payload, SafetyMode, ApprovalScope, turn_started, approval_requested,
  approval_granted,
}
use echocoding_harness.Session.Query.{to_turn_queries}
use echocoding_harness.Session.Query.Runtime.{SessionQueryView}
use echocoding_harness.Web.Projection.{
  Request, ChatToolSummaryStatus, open_request, pending_approval_from, session_short_id,
  tool_status,
}
use echocoding_harness.Web.Projection.Pending.{IsOf, IsLastOpen, pending_approval_from-IsLastOpen}
use echocoding_harness.Web.Projection.History.{
  history_gap, Once, Closed, with_number, history_gap_iff,
}

abbrev event_at : ℕ → Payload → Event
event_at n p = record {
  id = units "event";
  sequence = n;
  timestamp = units "2026";
  session_id = units "session-12-34";
  turn_id = some (units "turn");
  step_id = none;
  payload = p;
}

-- Two approvals are asked for; the first is granted.
abbrev log : List Event
log =
    event_at 1 (turn_started (units "goal"))
    ∷ event_at 2 (approval_requested (units "a") (units "why") (units "key") none)
    ∷ event_at 3 (approval_granted (units "a") (units "key") ApprovalScope.once)
    ∷ event_at 5 (approval_requested (units "b") (units "why") (units "key") none)
    ∷ []

abbrev view : SessionQueryView
view = record {
  session_id = units "session-12-34";
  event_schema_version = 3;
  runtime = record {
    session_id = units "session-12-34";
    workspace_name = units "w";
    provider = record { endpoint_fingerprint = [] };
    model = (units "m", units "session");
    safety_mode = (SafetyMode.safe, units "session");
    turn_count = 1;
    active_turn_id = some (units "turn");
    approximate_tokens = none;
    last_turn = none;
  };
  turns = to_turn_queries log;
  events = log;
}

open_test :
    open_request log
    ≡ some (record {
      turn_id = units "turn";
      tool_call_id = units "b";
      reason = units "why";
      key = units "key";
    })
unfolding open_request units text_eq
open_test = refl

waiting_test : tool_status log (units "b") ≡ ChatToolSummaryStatus.awaiting_approval
unfolding tool_status units text_eq terminal_result
waiting_test = refl

short_test : session_short_id view.session_id ≡ units "1234"
unfolding session_short_id units starts_with
short_test = refl

pending_approval_from-IsLastOpen_example :
    (o : Option Request) × IsOf (pending_approval_from (λ t. t) view) o × IsLastOpen view.events o
pending_approval_from-IsLastOpen_example = pending_approval_from-IsLastOpen (λ t. t) view

-- The event 4 is missing.
gap_test : history_gap log 2 ≡ true
unfolding history_gap
gap_test = refl

history_gap_iff_example :
    (history_gap log 2 ≡ false)
    ↔ (Once 3 (λ n. with_number n log) × Closed 3 (λ n. with_number n log))
history_gap_iff_example = history_gap_iff log 2 (omega arith)

-- ===== src/Web/Projection.antt =====
-- web/session-projection.ts: what the browser is told of a session, from its view. `redactText` with its
-- redaction is the parameter `redact`; the capabilities and the trace records are left out.
pub mod Pending
pub mod Turn
pub mod History
mod Tests
use echocoding_harness.Common.{
  ℕ, zero, suc, Bool, true, false, ◌||◌, leb, any, Option, none, some, List, [], ◌∷◌, ◌++◌, length,
  take, drop, if◌then◌else◌, Text, units, text_eq, starts_with, ◌==◌,
}
use echocoding_harness.Contracts.Event.{
  Event, Payload, Status, ToolResult, ToolStatus, turn_started, model_tool_call, tool_requested,
  tool_started, approval_requested, approval_granted, approval_denied, terminal_result,
}
use echocoding_harness.Agent.Calls.{is_white}
use echocoding_harness.Session.Query.{or_else, last_of}
use echocoding_harness.Session.Query.Runtime.{SessionQueryView, LastTurn}

pub data SessionPhase : Type 0 where
  idle running : SessionPhase
  ended : Status → SessionPhase

pub data ChatToolSummaryStatus : Type 0 where
  running awaiting_approval : ChatToolSummaryStatus
  ended : ToolStatus → ChatToolSummaryStatus

-- `slice(0, max)`
unfoldable pub bound_text : Text → ℕ → Text
bound_text value max = if leb (length value) max then value else take max value

-- `trim()`
unfoldable pub trim_start : Text → Text
trim_start [] = []
trim_start (c ∷ t) = let rest = trim_start t in if is_white c then rest else c ∷ t

abbrev keep_white : ℕ → Text → Text
keep_white c [] = if is_white c then [] else c ∷ []
keep_white c (d ∷ t) = c ∷ d ∷ t

unfoldable pub trim_end : Text → Text
trim_end [] = []
trim_end (c ∷ t) = keep_white c (trim_end t)

abbrev pub or_fallback : Text → Text → Text
or_fallback [] fallback = fallback
or_fallback (c ∷ t) fallback = c ∷ t

-- The call that an event names, and its tool.
abbrev pub named_call : Payload → Option (Text × Text)
named_call (model_tool_call c) = some (c.id, c.name)
named_call (tool_requested c _) = some (c.id, c.name)
named_call (tool_started id name) = some (id, name)
named_call _ = none

abbrev name_if : Text → Option (Text × Text) → Text → Text
name_if id none rest = rest
name_if id (some (j, name)) rest = if text_eq j id then name else rest

unfoldable pub tool_name_of : List Event → Text → Text
unfolding units
tool_name_of [] id = units "tool"
tool_name_of (e ∷ es) id = name_if id (named_call e.payload) (tool_name_of es id)

abbrev result_for : Text → Option ToolResult → Bool
result_for id none = false
result_for id (some r) = text_eq r.tool_call_id id

-- The call that an answer to an approval settles.
abbrev answers : Text → Payload → Bool
answers id (approval_granted j _ _) = text_eq j id
answers id (approval_denied j _ _ _) = text_eq j id
answers id _ = false

unfoldable pub is_settled_approval : Text → Event → Bool
is_settled_approval id e = result_for id (terminal_result e.payload) || answers id e.payload

-- A request of an approval in a turn: the turn, the call, the reason and the key.
pub record Request : Type 0 where
  pub turn_id : Text
  pub tool_call_id : Text
  pub reason : Text
  pub key : Text

abbrev pub request_of : Option Text → Payload → Option Request
request_of (some turn) (approval_requested id reason key _) =
    some (record { turn_id = turn; tool_call_id = id; reason = reason; key = key })
request_of _ _ = none

abbrev pub if_open : Option Request → List Event → Option Request
if_open none later = none
if_open (some r) later = if any (is_settled_approval r.tool_call_id) later then none else some r

-- The loop of `pendingApprovalFrom`, from the last event.
unfoldable pub open_request : List Event → Option Request
unfolding is_settled_approval
open_request [] = none
open_request (e ∷ es) = or_else (open_request es) (if_open (request_of e.turn_id e.payload) es)

abbrev status_for : Text → Payload → Option ToolResult → Option ChatToolSummaryStatus
status_for id p (some r) =
    if text_eq r.tool_call_id id then some (ChatToolSummaryStatus.ended r.status) else none
status_for id (approval_denied j _ _ _) none =
    if text_eq j id then some (ChatToolSummaryStatus.ended ToolStatus.denied) else none
status_for id (approval_requested j _ _ _) none =
    if text_eq j id then some ChatToolSummaryStatus.awaiting_approval else none
status_for id (tool_started j _) none =
    if text_eq j id then some ChatToolSummaryStatus.running else none
status_for id _ none = none

abbrev or_running : Option ChatToolSummaryStatus → ChatToolSummaryStatus
or_running none = ChatToolSummaryStatus.running
or_running (some s) = s

unfoldable pub tool_status : List Event → Text → ChatToolSummaryStatus
unfolding last_of
tool_status events id = or_running (last_of (λ p. status_for id p (terminal_result p)) events)

abbrev phase_of : Option LastTurn → SessionPhase
phase_of none = SessionPhase.idle
phase_of (some t) = SessionPhase.ended t.status

abbrev is_active : Text → Option Text → Option Text → Bool
is_active session (some active) (some turn) = text_eq active session
is_active session _ _ = false

abbrev is_running : Option Text → Bool
is_running none = false
is_running (some _) = true

unfoldable pub session_phase : SessionQueryView → (session turn : Option Text) → SessionPhase
session_phase view session turn =
    if is_active view.session_id session turn || is_running view.runtime.active_turn_id
    then SessionPhase.running
    else elim view.runtime.turn_count [
      | zero ↦ SessionPhase.idle
      | suc n ↦ phase_of view.runtime.last_turn
    ]

-- The parts of a session's identifier: without `session-` at its front and without dashes.
abbrev without_dashes : Text → Text
without_dashes [] = []
without_dashes (c ∷ t) = let rest = without_dashes t in if c == 45 then rest else c ∷ rest

unfoldable pub session_short_id : Text → Text
unfolding units
session_short_id id =
    or_fallback
      (take 8 (without_dashes (if starts_with (units "session-") id then drop 8 id else id)))
      (take 8 id)

pub record ApprovalRequest : Type 0 where
  pub session_id : Text
  pub turn_id : Text
  pub tool_call_id : Text
  pub tool_name : Text
  pub approval_key : Text
  pub action_summary : Text
  pub risk_reason : Text

module _ (redact : Text → Text) where
  unfoldable pub require_text : Text → Text → ℕ → Text
  unfolding bound_text trim_start trim_end
  require_text value fallback max =
      or_fallback (trim_end (trim_start (bound_text (redact value) max))) fallback

  abbrev approval_for : SessionQueryView → Request → Text → ApprovalRequest
  approval_for view r tool_name = record {
    session_id = view.session_id;
    turn_id = r.turn_id;
    tool_call_id = r.tool_call_id;
    tool_name = tool_name;
    approval_key = bound_text r.key 128;
    action_summary = require_text (units "Approve " ++ tool_name) tool_name 2048;
    risk_reason = require_text r.reason (units "Approval required.") 2048;
  }

  abbrev pub approval_of : SessionQueryView → Option Request → Option ApprovalRequest
  approval_of view none = none
  approval_of view (some r) = some (
      approval_for view r
        (require_text (tool_name_of view.events r.tool_call_id) (units "tool") 512))

  unfoldable pub pending_approval_from : SessionQueryView → Option ApprovalRequest
  unfolding open_request tool_name_of require_text units
  pending_approval_from view = approval_of view (open_request view.events)

  abbrev title_or : Payload → Text → Text → Text
  title_or (turn_started goal) id rest = require_text goal (session_short_id id) 512
  title_or _ id rest = rest

  unfoldable pub title_from : Text → List Event → Text
  unfolding session_short_id require_text
  title_from id [] = session_short_id id
  title_from id (e ∷ es) = title_or e.payload id (title_from id es)

  unfoldable pub session_title : SessionQueryView → Text
  unfolding title_from
  session_title view = title_from view.session_id view.events

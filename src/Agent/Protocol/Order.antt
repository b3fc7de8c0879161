-- ===== src/Agent/Protocol/Order.antt =====
-- The order that the events of a session follow, as an automaton over the log of the agent loop
-- (agent/agent-loop.ts). It is a specification, written apart from the loop: a turn is a row of
-- steps, a step a projection, a model response and its tool calls in the order of the response, and
-- a tool call ends in one terminal event after it was authorized or refused.
use echocoding_harness.Common.{
  Bool, true, false, ◌≡◌, refl, Option, none, some, List, [], ◌∷◌, ◌++◌, Text, text_eq,
}
use echocoding_harness.Contracts.Event.{
  Event, Payload, Status, LimitKind, Source, CancelPhase, session_started, session_resumed,
  model_changed, safety_changed, turn_started, step_started, context_projected, model_started,
  model_text, model_reasoning, model_tool_call, model_completed, model_failed, tool_requested,
  approval_requested, approval_granted, approval_denied, tool_authorized, tool_started,
  tool_completed, tool_failed, tool_denied, tool_cancelled, limit_reached, turn_completed,
  turn_failed, turn_cancelled,
}
use echocoding_harness.Agent.Interface.{State}

-- Where a tool call stands.
pub data Stage : Type 0 where
  requested limiting asking refused granted authorized running : Stage

pub data Phase : Type 0 where
  -- no turn; a turn with no step yet; a step before, and after, its projection
  idle opened stepping projected : Phase
  -- the response: nothing yet, reasoning, text
  streaming reasoned texted : Phase
  -- the tool calls of the response so far
  calling : List Text → Phase
  -- the response is complete, with the calls to make; at least one call was made
  answered served : List Text → Phase
  -- a call in progress, and those behind it
  tool : Stage → Text → List Text → Phase
  -- only the end of the turn may follow
  ending : Phase

abbrev pub is_completed : Status → Bool
is_completed Status.completed = true
is_completed _ = false

abbrev pub is_failed : Status → Bool
is_failed Status.failed = true
is_failed Status.limited = true
is_failed _ = false

abbrev pub is_cancelled : Status → Bool
is_cancelled Status.cancelled = true
is_cancelled _ = false

abbrev when : Bool → Phase → Option Phase
when true p = some p
when false p = none

-- The end of a turn that did not complete.
abbrev close : Payload → Option Phase
close (turn_failed r) = when (is_failed r.status) idle
close (turn_cancelled r) = when (is_cancelled r.status) idle
close _ = none

abbrev from_idle : Payload → Option Phase
from_idle (session_started _ _ _ _ _) = some idle
from_idle (session_resumed _ _ _ _ _) = some idle
from_idle (model_changed _ _ _) = some idle
from_idle (safety_changed _ _ _) = some idle
from_idle (turn_started _) = some opened
from_idle _ = none

abbrev from_opened : Payload → Option Phase
from_opened (step_started _) = some stepping
from_opened p = close p

abbrev from_stepping : Payload → Option Phase
from_stepping (context_projected _ _ _) = some projected
from_stepping (limit_reached LimitKind.context_budget _) = some ending
from_stepping p = close p

abbrev from_projected : Payload → Option Phase
from_projected (model_started _ _ _) = some streaming
from_projected _ = none

abbrev from_texted : Payload → Option Phase
from_texted (model_tool_call c) = some (calling (c.id ∷ []))
from_texted (model_completed _ _ _) = some (answered [])
from_texted (model_failed _ _) = some ending
from_texted _ = none

abbrev from_reasoned : Payload → Option Phase
from_reasoned (model_text _ _) = some texted
from_reasoned p = from_texted p

abbrev from_streaming : Payload → Option Phase
from_streaming (model_reasoning _) = some reasoned
from_streaming p = from_reasoned p

abbrev from_calling : List Text → Payload → Option Phase
from_calling ids (model_tool_call c) = some (calling (ids ++ c.id ∷ []))
from_calling ids (model_completed _ _ _) = some (answered ids)
from_calling ids _ = none

-- The next call is the first of those that are left.
abbrev from_pending : List Text → Payload → Option Phase
from_pending [] p = close p
from_pending (id ∷ ids) (tool_requested c _) = when (text_eq c.id id) (tool requested id ids)
from_pending (id ∷ ids) p = close p

abbrev from_answered : List Text → Payload → Option Phase
from_answered [] (turn_completed r) = when (is_completed r.status) idle
from_answered ids p = from_pending ids p

abbrev from_served : List Text → Payload → Option Phase
from_served [] (step_started _) = some stepping
from_served [] (limit_reached LimitKind.max_steps _) = some ending
from_served ids p = from_pending ids p

module _ (id : Text) (ids : List Text) where
  abbrev from_requested : Payload → Option Phase
  from_requested (tool_failed r _) = when (text_eq r.tool_call_id id) (served ids)
  from_requested (limit_reached LimitKind.repeated_tool_call _) = some (tool limiting id ids)
  from_requested (tool_denied r _ _) = when (text_eq r.tool_call_id id) ending
  from_requested (approval_requested i _ _ _) = when (text_eq i id) (tool asking id ids)
  from_requested (tool_authorized i Source.policy _ _) =
      when (text_eq i id) (tool authorized id ids)
  from_requested _ = none

  abbrev from_limiting : Payload → Option Phase
  from_limiting (tool_denied r _ _) = when (text_eq r.tool_call_id id) ending
  from_limiting _ = none

  abbrev from_asking : Payload → Option Phase
  from_asking (tool_cancelled r CancelPhase.approval) = when (text_eq r.tool_call_id id) ending
  from_asking (approval_denied i _ _ _) = when (text_eq i id) (tool refused id ids)
  from_asking (approval_granted i _ _) = when (text_eq i id) (tool granted id ids)
  from_asking _ = none

  abbrev from_granted : Payload → Option Phase
  from_granted (tool_authorized i Source.approval _ _) =
      when (text_eq i id) (tool authorized id ids)
  from_granted _ = none

  abbrev from_authorized : Payload → Option Phase
  from_authorized (tool_cancelled r CancelPhase.authorized) =
      when (text_eq r.tool_call_id id) ending
  from_authorized (tool_started i _) = when (text_eq i id) (tool running id ids)
  from_authorized _ = none

  abbrev from_running : Payload → Option Phase
  from_running (tool_completed r _) = when (text_eq r.tool_call_id id) (served ids)
  from_running (tool_failed r _) = when (text_eq r.tool_call_id id) (served ids)
  from_running (tool_cancelled r CancelPhase.execution) = when (text_eq r.tool_call_id id) ending
  from_running _ = none

unfoldable pub advance : Phase → Payload → Option Phase
advance idle p = from_idle p
advance opened p = from_opened p
advance stepping p = from_stepping p
advance projected p = from_projected p
advance streaming p = from_streaming p
advance reasoned p = from_reasoned p
advance texted p = from_texted p
advance (calling ids) p = from_calling ids p
advance (answered ids) p = from_answered ids p
advance (served ids) p = from_served ids p
advance (tool requested id ids) p = from_requested id ids p
advance (tool limiting id ids) p = from_limiting id ids p
advance (tool asking id ids) p = from_asking id ids p
advance (tool refused id ids) p = from_limiting id ids p
advance (tool granted id ids) p = from_granted id ids p
advance (tool authorized id ids) p = from_authorized id ids p
advance (tool running id ids) p = from_running id ids p
advance ending p = close p

abbrev pub advance_from : Option Phase → Payload → Option Phase
advance_from none p = none
advance_from (some q) p = advance q p

unfoldable pub follow : Option Phase → List Event → Option Phase
follow o [] = o
follow o (e ∷ es) = follow (advance_from o e.payload) es

pub follow-append :
    (o : Option Phase) (es : List Event) (e : Event)
    → follow o (es ++ e ∷ []) ≡ advance_from (follow o es) e.payload
unfolding follow
follow-append o [] e = refl
follow-append o (d ∷ es) e = follow-append (advance_from o d.payload) es e

-- The log of a state has been followed from the start of the session up to a phase.
abbrev pub InPhase : {W : Type 0} → Phase → State W → Type 0
InPhase p s = follow (some idle) s.events ≡ some p

-- The log of a state is the beginning of one that follows the order.
abbrev pub InOrder : {W : Type 0} → State W → Type 0
InOrder s = (p : Phase) × InPhase p s

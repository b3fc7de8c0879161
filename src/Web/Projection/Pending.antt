-- ===== src/Web/Projection/Pending.antt =====
-- Which approval the browser is told to wait for.
use echocoding_harness.Common.{
  ◌≡◌, refl, ap, sym, ◌∙◌, subst, arith, Bool-cases, inl, inr, Bool, true, false, ◌&&◌, any, Option,
  none, some, List, [], ◌∷◌, ◌++◌, Text,
}
use echocoding_harness.Contracts.Event.{Event}
use echocoding_harness.Session.Query.{or_else}
use echocoding_harness.Session.Query.Runtime.{SessionQueryView}
use echocoding_harness.Web.Projection.{
  Request, ApprovalRequest, request_of, if_open, open_request, is_settled_approval, approval_of,
  pending_approval_from,
}

abbrev is_answered : Option Request → List Event → Bool
is_answered none later = true
is_answered (some r) later = any (is_settled_approval r.tool_call_id) later

-- Every request of an approval in a turn is settled by a later event.
unfoldable pub all_settled : List Event → Bool
all_settled [] = true
all_settled (e ∷ es) = is_answered (request_of e.turn_id e.payload) es && all_settled es

-- What the approval says of the log: its request is the last one that no later event settles.
abbrev pub IsLastOpen : List Event → Option Request → Type 0
IsLastOpen events none = all_settled events ≡ true
IsLastOpen events (some r) =
    (before : List Event) × (request : Event) × (later : List Event) × (events
      ≡ before ++ (request ∷ later))
    × (request_of request.turn_id request.payload ≡ some r)
    × (any (is_settled_approval r.tool_call_id) later ≡ false)
    × (all_settled later ≡ true)

IsLastOpen-first :
    (e : Event) (es : List Event) (o : Option Request)
    → request_of e.turn_id e.payload ≡ o
    → all_settled es ≡ true
    → IsLastOpen (e ∷ es) (if_open o es)
unfolding all_settled
IsLastOpen-first e es none q settled = rw q settled
IsLastOpen-first e es (some r) q settled =
    elim (Bool-cases (any (is_settled_approval r.tool_call_id) es)) [
      | inl a ↦
          let closed : if_open (some r) es ≡ none = ground (arith, a) in
          let all : all_settled (e ∷ es) ≡ true =
            rw q (ap (λ b. b && all_settled es) a ∙ settled) in
          subst (IsLastOpen (e ∷ es)) (sym closed) all
      | inr a ↦
          let open_ : if_open (some r) es ≡ some r = ground (arith, a) in
          subst (IsLastOpen (e ∷ es)) (sym open_) ([], e, es, refl, q, a, settled)
    ]

IsLastOpen-step :
    (e : Event) (es : List Event) (o : Option Request)
    → IsLastOpen es o
    → IsLastOpen (e ∷ es) (or_else o (if_open (request_of e.turn_id e.payload) es))
IsLastOpen-step e es (some r) (before, request, later, parts, named, open_, settled) =
    (e ∷ before, request, later, ap (λ l. e ∷ l) parts, named, open_, settled)
IsLastOpen-step e es none settled =
    IsLastOpen-first e es (request_of e.turn_id e.payload) refl settled

open_request-IsLastOpen : (events : List Event) → IsLastOpen events (open_request events)
unfolding open_request all_settled
open_request-IsLastOpen [] = refl
open_request-IsLastOpen (e ∷ es) =
    IsLastOpen-step e es (open_request es) (open_request-IsLastOpen es)

-- The call and the turn that an approval names are those of a request.
abbrev pub IsOf : Option ApprovalRequest → Option Request → Type 0
IsOf none o = o ≡ none
IsOf (some a) o =
    (r : Request) × (o ≡ some r) × (a.tool_call_id ≡ r.tool_call_id) × (a.turn_id ≡ r.turn_id)

-- The approval that the browser is told to wait for is the last request in a turn that no later event
-- settles; where there is no approval, every request in a turn is settled.
pub pending_approval_from-IsLastOpen :
    (redact : Text → Text) (view : SessionQueryView)
    → (o : Option Request) × IsOf (pending_approval_from redact view) o × IsLastOpen view.events o
unfolding pending_approval_from
pending_approval_from-IsLastOpen redact view = (
  open_request view.events,
  named (open_request view.events),
  open_request-IsLastOpen view.events,
)
  where
    named : (o : Option Request) → IsOf (approval_of redact view o) o
    named none = refl
    named (some r) = (r, refl, refl, refl)

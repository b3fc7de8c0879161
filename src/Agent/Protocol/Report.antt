-- ===== src/Agent/Protocol/Report.antt =====
-- One event of the loop is one step of the order of events.
use echocoding_harness.Common.{◌≡◌, Option, some, Text}
use echocoding_harness.Contracts.Event.{Payload}
use echocoding_harness.Session.Redaction.{redact_payload}
use echocoding_harness.Agent.Interface.{Env}
use echocoding_harness.Agent.Action.{Action}
use echocoding_harness.Agent.Emit.{emit, report}
use echocoding_harness.Agent.Ensures.{
  Pred, Ensures, Ensures-bind, Ensures-gets, Ensures-mono, Ensures-emit,
}
use echocoding_harness.Agent.Protocol.Order.{Phase, advance, follow-append, InPhase, InOrder}

-- What throws in a phase leaves a log in order.
pub in_order :
    {W A : Type 0} {p : Phase} {m : Action W A} {Q : A → Pred W}
    → Ensures (InPhase p) m Q (InPhase p)
    → Ensures (InPhase p) m Q InOrder
in_order {p} h = Ensures-mono (λ a s k. k) (λ s k. (p, k)) h

module _ {W : Type 0} (env : Env W) where
  pub Ensures-emit_phase :
      (payload : Payload) (step turn : Option Text) (p q : Phase)
      → advance p (redact_payload env.redact payload) ≡ some q
      → Ensures (InPhase p) (emit env payload step turn) (λ _. InPhase q) (InPhase p)
  Ensures-emit_phase payload step turn p q h =
      Ensures-emit env payload step turn (InPhase p) (InPhase q) (InPhase p) (λ s w k. k)
        (λ s w k. k) (λ s e same _ k. rw (follow-append, k, same) h) (λ s k. k)

  pub Ensures-report :
      (step : Text) (payload : Payload) (p q : Phase)
      → advance p (redact_payload env.redact payload) ≡ some q
      → Ensures (InPhase p) (report env step payload) (λ _. InPhase q) (InPhase p)
  unfolding report
  Ensures-report step payload p q h =
      Ensures-bind (Ensures-gets (InPhase p) (λ s. s.turn_id))
        (λ turn. Ensures-emit_phase payload (some step) (some turn) p q h)

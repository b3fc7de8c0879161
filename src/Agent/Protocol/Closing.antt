-- ===== src/Agent/Protocol/Closing.antt =====
-- The end of a turn: `finishFailed`, `finishLimited` and `finishCancelled` (agent/agent-loop.ts) close
-- the turn in the order of events.
use echocoding_harness.Common.{◌≡◌, refl, true, false, Bool, Option, none, some, [], ◌∷◌, Text}
use echocoding_harness.Contracts.Error.{EchoError}
use echocoding_harness.Contracts.Event.{
  AgentResult, Status, StopReason, Payload, turn_failed, turn_cancelled,
}
use echocoding_harness.Session.Redaction.{redact_payload}
use echocoding_harness.Agent.Interface.{Env, State}
use echocoding_harness.Agent.Emit.{
  result_of, finish, finish_failed, finish_limited, finish_cancelled,
}
use echocoding_harness.Agent.Ensures.{
  Pred, Ensures, Ensures-bind, Ensures-gets, Ensures-read, Ensures-given, Ensures-pure,
}
use echocoding_harness.Agent.Protocol.Order.{
  Phase, idle, opened, stepping, answered, served, ending, is_failed, is_cancelled, advance,
  InPhase, InOrder,
}
use echocoding_harness.Agent.Protocol.Report.{in_order, Ensures-emit_phase}

-- The phases in which a turn may end without completing.
abbrev pub can_close : Phase → Bool
can_close opened = true
can_close stepping = true
can_close (answered _) = true
can_close (served _) = true
can_close ending = true
can_close _ = false

abbrev pub IsClosing : {W : Type 0} → State W → Type 0
IsClosing s = (p : Phase) × (can_close p ≡ true) × InPhase p s

pub advance-turn_failed :
    (p : Phase) (r : AgentResult)
    → can_close p ≡ true
    → is_failed r.status ≡ true
    → advance p (turn_failed r) ≡ some idle
unfolding advance
advance-turn_failed opened r h k = rw k
advance-turn_failed stepping r h k = rw k
advance-turn_failed (answered []) r h k = rw k
advance-turn_failed (answered (_ ∷ _)) r h k = rw k
advance-turn_failed (served []) r h k = rw k
advance-turn_failed (served (_ ∷ _)) r h k = rw k
advance-turn_failed ending r h k = rw k
advance-turn_failed _ r h k = cc

pub advance-turn_cancelled :
    (p : Phase) (r : AgentResult)
    → can_close p ≡ true
    → is_cancelled r.status ≡ true
    → advance p (turn_cancelled r) ≡ some idle
unfolding advance
advance-turn_cancelled opened r h k = rw k
advance-turn_cancelled stepping r h k = rw k
advance-turn_cancelled (answered []) r h k = rw k
advance-turn_cancelled (answered (_ ∷ _)) r h k = rw k
advance-turn_cancelled (served []) r h k = rw k
advance-turn_cancelled (served (_ ∷ _)) r h k = rw k
advance-turn_cancelled ending r h k = rw k
advance-turn_cancelled _ r h k = cc

-- The turn is over, whatever the result.
abbrev pub Over : {W : Type 0} → AgentResult → Pred W
Over r = InPhase idle

module _ {W : Type 0} (env : Env W) (p : Phase) where
  pub finish_lem :
      (terminal : AgentResult → Payload) (r : AgentResult)
      → advance p (redact_payload env.redact (terminal r)) ≡ some idle
      → Ensures (InPhase p) (finish env terminal r) Over InOrder
  finish_lem terminal r h = Ensures-bind (Ensures-gets (InPhase p) _) λ turn.
      Ensures-bind (in_order (Ensures-emit_phase env (terminal r) none (some turn) p idle h))
        λ _. Ensures-pure Over r

  module _ (closable : can_close p ≡ true) where
    pub finish_failed_lem :
        (why : StopReason) (error : Option EchoError)
        → Ensures (InPhase p) (finish_failed env why error) Over InOrder
    unfolding finish_failed redact_payload
    finish_failed_lem why error =
        Ensures-bind
          (Ensures-read (InPhase p) (λ r. r.status ≡ Status.failed)
            (result_of env Status.failed why none error) (λ s. refl))
          λ r. Ensures-given λ e. finish_lem turn_failed r (advance-turn_failed p _ closable (rw e))

    pub finish_limited_lem :
        (why : StopReason) (text : Option Text) (error : Option EchoError)
        → Ensures (InPhase p) (finish_limited env why text error) Over InOrder
    unfolding finish_limited redact_payload
    finish_limited_lem why text error =
        Ensures-bind
          (Ensures-read (InPhase p) (λ r. r.status ≡ Status.limited)
            (result_of env Status.limited why text error) (λ s. refl))
          λ r. Ensures-given λ e. finish_lem turn_failed r (advance-turn_failed p _ closable (rw e))

    pub finish_cancelled_lem :
        (error : EchoError) → Ensures (InPhase p) (finish_cancelled env error) Over InOrder
    unfolding finish_cancelled redact_payload
    finish_cancelled_lem error =
        Ensures-bind
          (Ensures-read (InPhase p) (λ r. r.status ≡ Status.cancelled)
            (result_of env Status.cancelled StopReason.cancelled none (some error)) (λ s. refl))
          λ r.
            Ensures-given
              λ e. finish_lem turn_cancelled r (advance-turn_cancelled p _ closable (rw e))

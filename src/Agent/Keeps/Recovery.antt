-- ===== src/Agent/Keeps/Recovery.antt =====
-- The repair of a log after a storage failure (agent/agent-loop.ts) keeps every property of the log
-- that new events keep, and throws nothing.
use echocoding_harness.Common.{
  ℕ, ◌+◌, ◌≤◌, ◌≡◌, refl, max, Option, none, some, List, [], ◌∷◌, Text, arith,
}
use echocoding_harness.Contracts.Error.{EchoError, Outcome, ok, thrown}
use echocoding_harness.Contracts.Event.{Event, Payload, ToolCall, AgentResult}
use echocoding_harness.Session.Redaction.{redact_event}
use echocoding_harness.Agent.Interface.{Env, State}
use echocoding_harness.Agent.Action.{◌>>=◌, ◌>>◌, invoke, gets, pure, modify}
use echocoding_harness.Agent.Emit.{create_event, push_event, notify}
use echocoding_harness.Agent.Recovery.{
  Repair, max_sequence, read_persisted, after_append, repair_call, repair_requested, repair_event,
  remember_if, repair_events, append_terminal, repair_turn, repair_log, repair_storage_failure,
}
use echocoding_harness.Agent.Ensures.{
  Pred, Ensures, Ensures-bind, Ensures-gets, Ensures-pure, Ensures-if, Ensures-settle,
  Ensures-modify, Ensures-weaken,
}
use echocoding_harness.Agent.Keeps.Rules.{Held, IsLogProperty}

max_sequence-ge : (n : ℕ) (es : List Event) → n ≤ max_sequence n es
unfolding max_sequence
max_sequence-ge n [] = omega arith
max_sequence-ge n (e ∷ es) = omega (arith, max_sequence-ge (max n e.sequence) es)

module _ {W : Type 0} {J : List Event → ℕ → Type 0} (is : IsLogProperty J) (env : Env W) where
  abbrev Nothrow : Pred W
  Nothrow s = ⊥

  -- An event with the last number that was used up, not in the log yet.
  abbrev Numbered : Event → Pred W
  Numbered e s = (n : ℕ) × (s.sequence ≡ n + 1) × (e.sequence ≡ n + 1) × J s.events n

  create_event_lem :
      (payload : Payload) (step turn : Option Text)
      → Ensures (Held J) (create_event env payload step turn) Numbered Nothrow
  unfolding create_event ◌>>=◌ modify invoke gets pure redact_event
  create_event_lem payload step turn = record { at = λ s h. (s.sequence, refl, refl, h) }

  Numbered-Held : (e : Event) (s : State W) → Numbered e s → Held J s
  Numbered-Held e s (n, at, same, h) = is.raises s.events n s.sequence (omega arith) h

  Numbered-push : (e : Event) (s : State W) → Numbered e s → Held J (push_event env e s)
  Numbered-push e s (n, at, same, h) = rw at (is.grows s.events n e same h)

  read_persisted_lem : Ensures (Held J) (read_persisted env) (λ _. Held J) Nothrow
  unfolding read_persisted
  read_persisted_lem =
      Ensures-bind (Ensures-gets (Held J) _) λ session. Ensures-settle (λ s w h. h) _

  remember_lem :
      (e : Event)
      → Ensures
          (Numbered e)
          (do modify (push_event env e); modify (notify env e))
          (λ _. Held J)
          Nothrow
  remember_lem e =
      Ensures-bind (Ensures-modify (Numbered e) (Held J) _ (Numbered-push e))
        λ _. Ensures-modify (Held J) (Held J) _ (λ s h. h)

  after_append_lem :
      (c : ToolCall) (e : Event) (r : Repair) (o : Outcome (Unit {0}))
      → Ensures (Numbered e) (after_append env c e r o) (λ _. Held J) Nothrow
  unfolding after_append
  after_append_lem c e r (ok _) = Ensures-bind (remember_lem e) λ _. Ensures-pure (λ _. Held J) _
  after_append_lem c e r (thrown x) =
      Ensures-weaken (Numbered-Held e)
        (Ensures-bind read_persisted_lem λ refreshed. Ensures-pure (λ _. Held J) _)

  module _ (error : EchoError) where
    repair_call_lem :
        (c : ToolCall) (step : Option Text) (r : Repair)
        → Ensures (Held J) (repair_call env error c step r) (λ _. Held J) Nothrow
    unfolding repair_call
    repair_call_lem c step r = Ensures-bind (Ensures-gets (Held J) _) λ turn.
        Ensures-bind (create_event_lem _ step (some turn)) λ e.
          Ensures-bind (Ensures-settle (λ s w h. h) (env.append e)) λ o. after_append_lem c e _ o

    repair_requested_lem :
        (o : Option ToolCall) (step : Option Text) (r : Repair)
        → Ensures (Held J) (repair_requested env error o step r) (λ _. Held J) Nothrow
    unfolding repair_requested
    repair_requested_lem none step r = Ensures-pure (λ _. Held J) r
    repair_requested_lem (some c) step r =
        Ensures-if _ (Ensures-pure (λ _. Held J) r) (repair_call_lem c step r)

    repair_events_lem :
        (es : List Event) (r : Repair)
        → Ensures (Held J) (repair_events env error es r) (λ _. Held J) Nothrow
    unfolding repair_events repair_event
    repair_events_lem [] r = Ensures-pure (λ _. Held J) r
    repair_events_lem (e ∷ es) r =
        Ensures-bind (repair_requested_lem _ e.step_id r) (repair_events_lem es)

  raise_lem :
      (es : List Event)
      → Ensures
          (Held J)
          (modify (λ s. record s { sequence = max_sequence s.sequence es }))
          (λ _. Held J)
          Nothrow
  raise_lem es =
      Ensures-modify (Held J) (Held J) _
        (λ s h. is.raises s.events s.sequence _ (max_sequence-ge s.sequence es) h)

  remember_if_lem :
      (e : Event) (o : Outcome (Unit {0}))
      → Ensures (Numbered e) (remember_if env e o) (λ _. Held J) Nothrow
  remember_if_lem e (ok _) = remember_lem e
  remember_if_lem e (thrown x) = Ensures-weaken (Numbered-Held e) (Ensures-pure (λ _. Held J) tt)

  append_terminal_lem :
      (result : AgentResult) (es : List Event)
      → Ensures (Held J) (append_terminal env result es) (λ _. Held J) Nothrow
  unfolding append_terminal
  append_terminal_lem result es = Ensures-bind (raise_lem es) λ _.
      Ensures-bind (Ensures-gets (Held J) _) λ turn.
        Ensures-bind (create_event_lem _ none (some turn))
          λ e. Ensures-bind (Ensures-settle (λ s w h. h) (env.append e)) (remember_if_lem e)

  repair_log_lem :
      (result : AgentResult) (error : EchoError) (o : Outcome (List Event))
      → Ensures (Held J) (repair_log env result error o) (λ _. Held J) Nothrow
  unfolding repair_log repair_turn
  repair_log_lem result error (thrown x) = Ensures-pure (λ _. Held J) tt
  repair_log_lem result error (ok es) = Ensures-bind (raise_lem es) λ _.
      Ensures-bind (repair_events_lem error es _)
        λ r. Ensures-if _ (append_terminal_lem result r.persisted) (Ensures-pure (λ _. Held J) tt)

  pub repair_storage_failure_lem :
      (result : AgentResult) (error : EchoError)
      → Ensures (Held J) (repair_storage_failure env result error) (λ _. Held J) (λ _. ⊥)
  unfolding repair_storage_failure
  repair_storage_failure_lem result error =
      Ensures-bind read_persisted_lem (repair_log_lem result error)

-- ===== src/Agent/Repaired/Loop.antt =====
-- The loop of `repairStorageFailure` (agent/agent-loop.ts) over a store that takes every event.
use echocoding_harness.Common.{
  ◌≡◌, refl, ap, sym, ◌∙◌, subst, arith, Bool, true, false, ◌&&◌, ◌||◌, Option, none, some, List,
  [], ◌∷◌, ◌++◌, append_assoc, Text, text_eq, text_eq_iff, mem_text, add_text, mem_text-add_text,
}
use echocoding_harness.Contracts.Error.{EchoError, Outcome, ok, thrown}
use echocoding_harness.Contracts.Event.{Event, Payload, ToolCall, terminal_result}
use echocoding_harness.Session.Redaction.{redact_event, redact_payload}
use echocoding_harness.Session.Compensation.Complete.{in_calls, answered, terminal_ids-append}
use echocoding_harness.Agent.Interface.{Env}
use echocoding_harness.Agent.Action.{◌>>=◌, ◌>>◌, invoke, gets, pure, modify, settle}
use echocoding_harness.Agent.Emit.{create_event, push_event, notify}
use echocoding_harness.Agent.Recovery.{
  Repair, terminal_ids, add_terminal, requested_call, recovery_payload, is_repaired, after_append,
  repair_call, repair_requested, repair_event, repair_events,
}
use echocoding_harness.Agent.Ensures.{
  Pred, Ensures, Ensures-bind, Ensures-gets, Ensures-pure, Ensures-test, Ensures-modify,
  Ensures-given, Ensures-weaken, Ensures-mono,
}
use echocoding_harness.Agent.Repaired.Fresh.{repeats, fresh, fresh-last}

-- The redaction keeps the id of a call.
abbrev keeps_id : (Text → Text) → Option ToolCall → Bool
keeps_id redact none = true
keeps_id redact (some c) = text_eq (redact c.id) c.id

-- The redaction keeps the ids of the calls that a log requests.
unfoldable pub keeps_ids : (Text → Text) → List Event → Bool
keeps_ids redact [] = true
keeps_ids redact (e ∷ es) = keeps_id redact (requested_call e.payload) && keeps_ids redact es

-- The variables of the loop agree with each other.
pub record IsSound (r : Repair) : Type 0 where
  pub agrees : (k : Text) → mem_text k r.terminal ≡ mem_text k (terminal_ids [] r.persisted)
  pub known : (k : Text) → mem_text k r.repaired ≡ true → mem_text k r.terminal ≡ true

abbrev pub Grows : Repair → Repair → Type 0
Grows r r' = (k : Text) → mem_text k r.terminal ≡ true → mem_text k r'.terminal ≡ true

in_calls-Grows :
    (r r' : Repair) (o : Option ToolCall)
    → Grows r r'
    → in_calls r.terminal o ≡ true
    → in_calls r'.terminal o ≡ true
in_calls-Grows r r' none g h = refl
in_calls-Grows r r' (some c) g h = g c.id h

-- The loop after the failure of a call was recorded.
abbrev recorded : ToolCall → Event → Repair → Repair
recorded c e r = record {
  persisted = r.persisted ++ e ∷ [];
  terminal = add_text c.id r.terminal;
  repaired = add_text c.id r.repaired;
}

IsSound-recorded :
    (c : ToolCall) (e : Event) (r : Repair)
    → ((k : Text)
        → mem_text k (add_terminal (terminal_result e.payload) (terminal_ids [] r.persisted))
          ≡ (text_eq c.id k || mem_text k (terminal_ids [] r.persisted)))
    → IsSound r
    → IsSound (recorded c e r)
IsSound-recorded c e r told sound = record {
  agrees = λ k.
      mem_text-add_text c.id k r.terminal
      ∙ ap (λ b. text_eq c.id k || b) (sound.agrees k)
      ∙ sym (told k)
      ∙ ap (mem_text k) (sym (terminal_ids-append [] r.persisted e));
  known = λ k h. ground (
    arith,
    h,
    mem_text-add_text c.id k r.terminal,
    mem_text-add_text c.id k r.repaired,
    sound.known k,
  );
}

-- What the loop has done about a request.
abbrev Answers : Option ToolCall → Repair → Repair → Type 0
Answers o r r' = IsSound r' × Grows r r' × (in_calls r'.terminal o ≡ true)

Answers-recorded :
    {W : Type 0} (env : Env W) (error : EchoError) (c : ToolCall) (e : Event) (r : Repair)
    → e.payload ≡ redact_payload env.redact (recovery_payload env error c)
    → text_eq (env.redact c.id) c.id ≡ true
    → IsSound r
    → Answers (some c) r (recorded c e r)
unfolding terminal_result redact_payload
Answers-recorded env error c e r shown kept sound = (
  IsSound-recorded c e r
      (λ k.
        subst
          (λ p.
            mem_text k (add_terminal (terminal_result p) (terminal_ids [] r.persisted))
            ≡ (text_eq c.id k || mem_text k (terminal_ids [] r.persisted)))
          (sym shown)
          (mem_text-add_text (env.redact c.id) k (terminal_ids [] r.persisted)
            ∙ ap (λ i. text_eq i k || mem_text k (terminal_ids [] r.persisted))
                ((text_eq_iff (env.redact c.id) c.id).0 kept)))
      sound,
  λ k h. ground (arith, h, mem_text-add_text c.id k r.terminal),
  ground (arith, mem_text-add_text c.id c.id r.terminal, text_eq_iff c.id c.id),
)

repeats-recorded :
    {W : Type 0} (env : Env W) (error : EchoError) (c : ToolCall) (e : Event) (r : Repair)
    → e.payload ≡ redact_payload env.redact (recovery_payload env error c)
    → text_eq (env.redact c.id) c.id ≡ true
    → mem_text c.id r.terminal ≡ false
    → IsSound r
    → repeats (terminal_result e.payload) (terminal_ids [] r.persisted) ≡ false
unfolding terminal_result redact_payload
repeats-recorded env error c e r shown kept new sound =
    ap (λ p. repeats (terminal_result p) (terminal_ids [] r.persisted)) shown
    ∙ ap (λ i. mem_text i (terminal_ids [] r.persisted))
        ((text_eq_iff (env.redact c.id) c.id).0 kept)
    ∙ sym (sound.agrees c.id)
    ∙ new

module _ {W : Type 0} (env : Env W) (accepts : (e : Event) (w : W) → (env.append e w).0 ≡ ok tt)
    (base es : List Event) where
  -- The loop has added the same events to the log of the session and to its own list.
  abbrev pub Held : List Event → Pred W
  Held persisted s =
      (added : List Event) × (s.events ≡ base ++ added)
      × (persisted ≡ es ++ added)
      × (fresh (terminal_ids [] es) added ≡ true)

  abbrev pub Never : Pred W
  Never s = ⊥

  -- A created event holds the redacted payload, and leaves the logs alone.
  pub create_event_lem :
      (p : List Event) (payload : Payload) (step turn : Option Text)
      → Ensures
          (Held p)
          (create_event env payload step turn)
          (λ e s. (e.payload ≡ redact_payload env.redact payload) × Held p s)
          Never
  unfolding create_event ◌>>=◌ modify invoke gets pure redact_event
  create_event_lem p payload step turn = record { at = λ s h. (refl, h) }

  pub append_lem :
      (p : List Event) (e : Event)
      → Ensures (Held p) (settle (env.append e)) (λ o s. (o ≡ ok tt) × Held p s) Never
  unfolding settle
  append_lem p e = record { at = λ s h. (accepts e s.world, h) }

  pub remember_lem :
      (p : List Event) (e : Event)
      → repeats (terminal_result e.payload) (terminal_ids [] p) ≡ false
      → Ensures
          (Held p)
          (do modify (push_event env e); modify (notify env e))
          (λ _. Held (p ++ e ∷ []))
          Never
  remember_lem p e new =
      Ensures-bind
        (Ensures-modify (Held p) (Held (p ++ e ∷ [])) _ (λ s (added, told, same, once). (
          added ++ e ∷ [],
          ap (λ l. l ++ e ∷ []) told ∙ append_assoc base added (e ∷ []),
          ap (λ l. l ++ e ∷ []) same ∙ append_assoc es added (e ∷ []),
          fresh-last es added p e same new once,
        )))
        λ _. Ensures-modify (Held (p ++ e ∷ [])) (Held (p ++ e ∷ [])) _ (λ s h. h)

  -- A step of the loop, with what is known of the variables before it.
  abbrev Step : Option ToolCall → Repair → Repair → Pred W
  Step o r r' s = Answers o r r' × Held r'.persisted s

  module _ (error : EchoError) where
    after_append_lem :
        (c : ToolCall) (e : Event) (r : Repair) (o : Outcome (Unit {0}))
        → repeats (terminal_result e.payload) (terminal_ids [] r.persisted) ≡ false
        → Answers (some c) r (recorded c e r)
        → o ≡ ok tt
        → Ensures
            (Held r.persisted)
            (after_append env c e (record r { repaired = add_text c.id r.repaired }) o)
            (Step (some c) r)
            Never
    unfolding after_append
    after_append_lem c e r (ok _) new known h = Ensures-bind (remember_lem r.persisted e new) λ _.
        Ensures-weaken (λ s held. (known, held)) (Ensures-pure (Step (some c) r) (recorded c e r))
    after_append_lem c e r (thrown x) new known h = absurd (cc h)

    repair_call_lem :
        (c : ToolCall) (step : Option Text) (r : Repair)
        → text_eq (env.redact c.id) c.id ≡ true
        → mem_text c.id r.terminal ≡ false
        → IsSound r
        → Ensures (Held r.persisted) (repair_call env error c step r) (Step (some c) r) Never
    unfolding repair_call
    repair_call_lem c step r kept lacking sound =
        Ensures-bind (Ensures-gets (Held r.persisted) _) λ turn.
          Ensures-bind (create_event_lem r.persisted _ step (some turn)) λ e. Ensures-given λ shown.
            Ensures-bind (append_lem r.persisted e) λ o. Ensures-given (
              after_append_lem c e r o (repeats-recorded env error c e r shown kept lacking sound)
                (Answers-recorded env error c e r shown kept sound))

    repair_requested_lem :
        (o : Option ToolCall) (step : Option Text) (r : Repair)
        → keeps_id env.redact o ≡ true
        → IsSound r
        → Ensures (Held r.persisted) (repair_requested env error o step r) (Step o r) Never
    unfolding repair_requested
    repair_requested_lem none step r kept sound =
        Ensures-weaken (λ s held. ((sound, (λ k h. h), refl), held)) (Ensures-pure (Step none r) r)
    repair_requested_lem (some c) step r kept sound =
        Ensures-test (is_repaired env error c r)
          (λ h.
            Ensures-weaken
              (λ s held. ((sound, (λ k h. h), ground (arith, h, sound.known c.id)), held))
              (Ensures-pure (Step (some c) r) r))
          (λ h. repair_call_lem c step r kept (ground (arith, h)) sound)

    -- The whole loop over the requests of a log.
    abbrev pub Processed : List Event → Repair → Repair → Pred W
    Processed todo r r' s =
        (IsSound r' × Grows r r' × (answered r'.terminal todo ≡ true)) × Held r'.persisted s

    pub repair_events_lem :
        (todo : List Event) (r : Repair)
        → keeps_ids env.redact todo ≡ true
        → IsSound r
        → Ensures (Held r.persisted) (repair_events env error todo r) (Processed todo r) Never
    unfolding repair_events repair_event keeps_ids answered
    repair_events_lem [] r kept sound =
        Ensures-weaken (λ s held. ((sound, (λ k h. h), refl), held))
          (Ensures-pure (Processed [] r) r)
    repair_events_lem (e ∷ todo) r kept sound =
        Ensures-bind
          (repair_requested_lem (requested_call e.payload) e.step_id r (ground (arith, kept)) sound)
          λ mid. Ensures-given λ (good, more, done).
            Ensures-mono
              (λ r' s ((sound', grows, others), held). (
                (
                  sound',
                  (λ k h. grows k (more k h)),
                  ground
                      (arith, others, in_calls-Grows mid r' (requested_call e.payload) grows done),
                ),
                held,
              ))
              (λ s h. h) (repair_events_lem todo mid (ground (arith, kept)) good)

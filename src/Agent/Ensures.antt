-- ===== src/Agent/Ensures.antt =====
-- Hoare triples for the methods of the loop: from `P` a method returns a value into `Q`, or throws
-- with `E` true of the state that is left.
use echocoding_harness.Common.{
  Bool, true, false, ◌+◌, arith, ◌≡◌, refl, [], ◌∷◌, ◌++◌, Option, Text, if◌then◌else◌,
}
use echocoding_harness.Contracts.Error.{Thrown, Outcome, ok, thrown}
use echocoding_harness.Contracts.Event.{Event, Payload}
use echocoding_harness.Session.Redaction.{redact_event, redact_payload}
use echocoding_harness.Agent.Interface.{Env, State, IdKind}
use echocoding_harness.Agent.Action.{
  Action, pure, throw, gets, invoke, await, settle, modify, ◌>>=◌, continue, handle, try_catch,
}
use echocoding_harness.Agent.Emit.{emit}

abbrev pub Pred : Type 0 → Type 1
Pred W = State W → Type 0

abbrev pub Settles : {W A : Type 0} → (A → Pred W) → Pred W → Outcome A → Pred W
Settles Q E (ok a) s = Q a s
Settles Q E (thrown e) s = E s

pub record Ensures {W A : Type 0} (P : Pred W) (m : Action W A) (Q : A → Pred W) (E : Pred W)
    : Type 0 where
  pub at : (s : State W) → P s → Settles Q E (m s).0 (m s).1

module _ {W A : Type 0} {E : Pred W} where
  pub Ensures-pure : (Q : A → Pred W) (a : A) → Ensures (Q a) (pure a) Q E
  unfolding pure
  Ensures-pure Q a = record { at = λ s h. h }

  pub Ensures-throw : (Q : A → Pred W) (e : Thrown) → Ensures E (throw e) Q E
  unfolding throw
  Ensures-throw Q e = record { at = λ s h. h }

  -- What is read is any value.
  pub Ensures-gets : (P : Pred W) (f : State W → A) → Ensures P (gets f) (λ _. P) E
  unfolding gets
  Ensures-gets P f = record { at = λ s h. h }

  module _ {P : Pred W} {m : Action W A} {Q : A → Pred W} where
    pub Ensures-weaken :
        {P' : Pred W} → ((s : State W) → P' s → P s) → Ensures P m Q E → Ensures P' m Q E
    Ensures-weaken f h = record { at = λ s p. h.at s (f s p) }

module _ {W A : Type 0} (E E' : Pred W) (Q Q' : A → Pred W) where
  Settles-mono :
      (o : Outcome A) (s : State W)
      → ((a : A) → Q a s → Q' a s)
      → (E s → E' s)
      → Settles Q E o s
      → Settles Q' E' o s
  Settles-mono (ok a) s f g h = f a h
  Settles-mono (thrown e) s f g h = g h

module _ {W A : Type 0} {E E' : Pred W} {Q Q' : A → Pred W} where
  pub Ensures-mono :
      {P : Pred W} {m : Action W A}
      → ((a : A) (s : State W) → Q a s → Q' a s)
      → ((s : State W) → E s → E' s)
      → Ensures P m Q E
      → Ensures P m Q' E'
  Ensures-mono {m} f g h = record {
    at = λ s p. Settles-mono E E' Q Q' (m s).0 (m s).1 (λ a. f a (m s).1) (g (m s).1) (h.at s p);
  }

module _ {W A B : Type 0} {E : Pred W} where
  Settles-continue :
      {R : A → Pred W} {Q : B → Pred W} (o : Outcome A) (s : State W) (f : A → Action W B)
      → ((a : A) → Ensures (R a) (f a) Q E)
      → Settles R E o s
      → Settles Q E (continue o f s).0 (continue o f s).1
  Settles-continue (ok a) s f k h = (k a).at s h
  Settles-continue (thrown e) s f k h = h

  pub Ensures-bind :
      {P : Pred W} {R : A → Pred W} {Q : B → Pred W} {m : Action W A} {f : A → Action W B}
      → Ensures P m R E
      → ((a : A) → Ensures (R a) (f a) Q E)
      → Ensures P (m >>= f) Q E
  unfolding ◌>>=◌
  Ensures-bind {m} {f} h k = record { at = λ s p. Settles-continue (m s).0 (m s).1 f k (h.at s p) }

module _ {W A : Type 0} {E F : Pred W} where
  Settles-handle :
      {Q : A → Pred W} (o : Outcome A) (s : State W) (f : Thrown → Action W A)
      → ((e : Thrown) → Ensures F (f e) Q E)
      → Settles Q F o s
      → Settles Q E (handle o f s).0 (handle o f s).1
  Settles-handle (ok a) s f k h = h
  Settles-handle (thrown e) s f k h = (k e).at s h

  pub Ensures-try_catch :
      {P : Pred W} {Q : A → Pred W} {m : Action W A} {f : Thrown → Action W A}
      → Ensures P m Q F
      → ((e : Thrown) → Ensures F (f e) Q E)
      → Ensures P (try_catch m f) Q E
  unfolding try_catch
  Ensures-try_catch {m} {f} h k = record {
    at = λ s p. Settles-handle (m s).0 (m s).1 f k (h.at s p);
  }

-- A fact beside the state becomes a hypothesis.
pub Ensures-given :
    {W A F : Type 0} {P : Pred W} {Q : A → Pred W} {E : Pred W} {m : Action W A}
    → (F → Ensures P m Q E)
    → Ensures (λ s. F × P s) m Q E
Ensures-given h = record { at = λ s (f, p). (h f).at s p }

-- A value that the state shows becomes a variable.
pub Ensures-some :
    {W A X : Type 0} {F : X → Type 0} {P : X → Pred W} {Q : A → Pred W} {E : Pred W}
    {m : Action W A}
    → ((x : X) → F x → Ensures (P x) m Q E)
    → Ensures (λ s. (x : X) × F x × P x s) m Q E
Ensures-some h = record { at = λ s (x, f, p). (h x f).at s p }

-- What is read, with a fact about it.
pub Ensures-read :
    {W A : Type 0} {E : Pred W} (P : Pred W) (F : A → Type 0) (f : State W → A)
    → ((s : State W) → F (f s))
    → Ensures P (gets f) (λ a s. F a × P s) E
unfolding gets
Ensures-read P F f h = record { at = λ s p. (h s, p) }

-- Nothing follows a throw.
pub Ensures-never :
    {W A : Type 0} {Q : A → Pred W} {E : Pred W} {m : Action W A} → Ensures (λ _. ⊥) m Q E
Ensures-never = record { at = λ s h. absurd h }

pub Ensures-if :
    {W A : Type 0} {P : Pred W} {Q : A → Pred W} {E : Pred W} (b : Bool) {m n : Action W A}
    → Ensures P m Q E
    → Ensures P n Q E
    → Ensures P (if b then m else n) Q E
Ensures-if true h k = h
Ensures-if false h k = k

-- A branch that needs the test.
pub Ensures-test :
    {W A : Type 0} {P : Pred W} {Q : A → Pred W} {E : Pred W} (b : Bool) {m n : Action W A}
    → (b ≡ true → Ensures P m Q E)
    → (b ≡ false → Ensures P n Q E)
    → Ensures P (if b then m else n) Q E
Ensures-test true h k = h refl
Ensures-test false h k = k refl

pub Ensures-modify :
    {W : Type 0} {E : Pred W} (P Q : Pred W) (f : State W → State W)
    → ((s : State W) → P s → Q (f s))
    → Ensures P (modify f) (λ _. Q) E
unfolding modify
Ensures-modify P Q f h = record { at = h }

-- A predicate that the world plays no part in.
abbrev pub IsStable : {W : Type 0} → Pred W → Type 0
IsStable {W} P = (s : State W) (w : W) → P s → P (record s { world = w })

module _ {W A : Type 0} {P E : Pred W} (stable : IsStable P) where
  pub Ensures-invoke : (f : W → A × W) → Ensures P (invoke f) (λ _. P) E
  unfolding invoke
  Ensures-invoke f = record { at = λ s h. stable s (f s.world).1 h }

  pub Ensures-settle : (f : W → Outcome A × W) → Ensures P (settle f) (λ _. P) E
  unfolding settle
  Ensures-settle f = record { at = λ s h. stable s (f s.world).1 h }

module _ {W A : Type 0} {P E : Pred W} (stable : IsStable P)
    (fails : (s : State W) → P s → E s) where
  Settles-await : (o : Outcome A) (s : State W) → P s → Settles (λ _. P) E o s
  Settles-await (ok a) s h = h
  Settles-await (thrown e) s h = fails s h

  pub Ensures-await : (f : W → Outcome A × W) → Ensures P (await f) (λ _. P) E
  unfolding await
  Ensures-await f = record {
    at = λ s h.
        Settles-await (f s.world).0 (record s { world = (f s.world).1 }) (stable s (f s.world).1 h);
  }

-- `emit` adds one event with the next sequence number, or throws with that number used up.
module _ {W : Type 0} (env : Env W) (payload : Payload) (step turn : Option Text) where
  event_of : State W → Event
  event_of s =
      let id = env.fresh IdKind.event s.world in
      let timestamp = env.now id.1 in
      redact_event env.redact (record {
        id = id.0;
        sequence = s.sequence + 1;
        timestamp = timestamp.0;
        session_id = s.session_id;
        turn_id = turn;
        step_id = step;
        payload = payload;
      })

  world_of : State W → W
  world_of s = (env.now (env.fresh IdKind.event s.world).1).1

  settled : Event → State W → Outcome (Unit {0}) → W → Outcome (Unit {0}) × State W
  settled e s (ok _) w = (
    ok tt,
    record s { sequence = s.sequence + 1; events = s.events ++ e ∷ []; world = env.notify e w },
  )
  settled e s (thrown x) w = (thrown x, record s { sequence = s.sequence + 1; world = w })

  emit-eq-settled :
      (s : State W)
      → emit env payload step turn s
        ≡ settled
            (event_of s)
            s
            (env.append (event_of s) (world_of s)).0
            (env.append (event_of s) (world_of s)).1
  unfolding emit settled event_of world_of ◌>>=◌ modify invoke gets await pure
  emit-eq-settled s = ground arith

  -- The state after the event `e`, and after a failed append.
  abbrev pub grown : Event → State W → State W
  grown e s = record s { sequence = s.sequence + 1; events = s.events ++ e ∷ [] }

  abbrev pub spent : State W → State W
  spent s = record s { sequence = s.sequence + 1 }

  module _ (P Q E : Pred W) (stable : IsStable Q) (stable_error : IsStable E)
      (grows : (s : State W) (e : Event)
        → e.payload ≡ redact_payload env.redact payload
        → e.sequence ≡ s.sequence + 1
        → P s
        → Q (grown e s))
      (fails : (s : State W) → P s → E (spent s)) where
    settled-Settles :
        (s : State W) (o : Outcome (Unit {0})) (w : W)
        → P s
        → Settles (λ _. Q) E (settled (event_of s) s o w).0 (settled (event_of s) s o w).1
    unfolding settled event_of redact_event
    settled-Settles s (ok _) w h =
        stable (grown (event_of s) s) (env.notify (event_of s) w) (grows s (event_of s) refl refl h)
    settled-Settles s (thrown x) w h = stable_error (spent s) w (fails s h)

    pub Ensures-emit : Ensures P (emit env payload step turn) (λ _. Q) E
    Ensures-emit = record { at = λ s h. rw (emit-eq-settled s) (settled-Settles s _ _ h) }

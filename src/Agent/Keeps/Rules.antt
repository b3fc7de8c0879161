-- ===== src/Agent/Keeps/Rules.antt =====
-- `Keeps J m`: whether `m` returns or throws, `J` of the log and the counter stays true.
use echocoding_harness.Common.{
  ℕ, ◌+◌, ◌≤◌, ◌≡◌, arith, Bool, Option, List, [], ◌∷◌, ◌++◌, Text, if◌then◌else◌,
}
use echocoding_harness.Contracts.Error.{Thrown, Outcome}
use echocoding_harness.Contracts.Event.{Event, Payload}
use echocoding_harness.Agent.Interface.{Env, State}
use echocoding_harness.Agent.Action.{
  Action, pure, throw, gets, invoke, await, settle, modify, ◌>>=◌, try_catch,
}
use echocoding_harness.Agent.Emit.{emit, report}
use echocoding_harness.Agent.Ensures.{
  Pred, Ensures, Ensures-pure, Ensures-throw, Ensures-gets, Ensures-bind, Ensures-if,
  Ensures-invoke, Ensures-settle, Ensures-await, Ensures-modify, Ensures-try_catch, Ensures-emit,
}

abbrev pub Held : {W : Type 0} → (List Event → ℕ → Type 0) → Pred W
Held J s = J s.events s.sequence

pub record Keeps {W A : Type 0} (J : List Event → ℕ → Type 0) (m : Action W A) : Type 0 where
  pub triple : Ensures (Held J) m (λ _. Held J) (Held J)

-- A property that a new event with the next number, and a higher counter, leave true.
pub record IsLogProperty (J : List Event → ℕ → Type 0) : Type 0 where
  pub grows :
      (es : List Event) (n : ℕ) (e : Event) → e.sequence ≡ n + 1 → J es n → J (es ++ e ∷ []) (n + 1)
  pub raises : (es : List Event) (n m : ℕ) → n ≤ m → J es n → J es m

module _ {W A : Type 0} {J : List Event → ℕ → Type 0} where
  pub Keeps-pure : (a : A) → Keeps {W = W} J (pure a)
  Keeps-pure a = record { triple = Ensures-pure (λ _. Held J) a }

  pub Keeps-throw : (e : Thrown) → Keeps {W = W} {A = A} J (throw e)
  Keeps-throw e = record { triple = Ensures-throw (λ _. Held J) e }

  pub Keeps-gets : (f : State W → A) → Keeps J (gets f)
  Keeps-gets f = record { triple = Ensures-gets (Held J) f }

  pub Keeps-invoke : (f : W → A × W) → Keeps J (invoke f)
  Keeps-invoke f = record { triple = Ensures-invoke (λ s w h. h) f }

  pub Keeps-settle : (f : W → Outcome A × W) → Keeps J (settle f)
  Keeps-settle f = record { triple = Ensures-settle (λ s w h. h) f }

  pub Keeps-await : (f : W → Outcome A × W) → Keeps J (await f)
  Keeps-await f = record { triple = Ensures-await (λ s w h. h) (λ s h. h) f }

  pub Keeps-if :
      (b : Bool) (m n : Action W A) → Keeps J m → Keeps J n → Keeps J (if b then m else n)
  Keeps-if b m n h k = record { triple = Ensures-if b h.triple k.triple }

  pub Keeps-try_catch :
      (m : Action W A) (f : Thrown → Action W A)
      → Keeps J m
      → ((e : Thrown) → Keeps J (f e))
      → Keeps J (try_catch m f)
  Keeps-try_catch m f h k = record { triple = Ensures-try_catch h.triple (λ e. (k e).triple) }

pub Keeps-bind :
    {W A B : Type 0} {J : List Event → ℕ → Type 0} (m : Action W A) (f : A → Action W B)
    → Keeps J m
    → ((a : A) → Keeps J (f a))
    → Keeps J (m >>= f)
Keeps-bind m f h k = record { triple = Ensures-bind h.triple (λ a. (k a).triple) }

module _ {W : Type 0} {J : List Event → ℕ → Type 0} where
  -- A change beside the log.
  pub Keeps-modify :
      (f : State W → State W) → ((s : State W) → Held J s → Held J (f s)) → Keeps J (modify f)
  Keeps-modify f h = record { triple = Ensures-modify (Held J) (Held J) f h }

  module _ (is : IsLogProperty J) (env : Env W) where
    pub Keeps-emit :
        (payload : Payload) (step turn : Option Text) → Keeps J (emit env payload step turn)
    Keeps-emit payload step turn = record {
      triple =
          Ensures-emit env payload step turn (Held J) (Held J) (Held J) (λ s w h. h) (λ s w h. h)
            (λ s e _ same h. is.grows s.events s.sequence e same h)
            (λ s h. is.raises s.events s.sequence (s.sequence + 1) (omega arith) h);
    }

    pub Keeps-report : (step : Text) (payload : Payload) → Keeps J (report env step payload)
    unfolding report
    Keeps-report step payload = Keeps-bind _ _ (Keeps-gets _) (λ turn. Keeps-emit payload _ _)

pub ruleset keeps_rules = (
  Keeps-pure, Keeps-throw, Keeps-gets, Keeps-invoke, Keeps-settle, Keeps-await, Keeps-if,
  Keeps-try_catch, Keeps-bind, Keeps-modify, Keeps-emit, Keeps-report,
)

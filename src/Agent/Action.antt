-- ===== src/Agent/Action.antt =====
-- Methods of the loop: they change the state, await the world, and may throw. What was done before a
-- throw stays done.
use echocoding_harness.Common.{Bool, true, false}
use echocoding_harness.Contracts.Error.{Thrown, Outcome, ok, thrown}
use echocoding_harness.Agent.Interface.{State}

abbrev pub Action : Type 0 → Type 0 → Type 0
Action W A = State W → Outcome A × State W

module _ {W A : Type 0} where
  unfoldable pub pure : A → Action W A
  pure a s = (ok a, s)

  unfoldable pub throw : Thrown → Action W A
  throw e s = (thrown e, s)

  -- A part of the state.
  unfoldable pub gets : (State W → A) → Action W A
  gets f s = (ok (f s), s)

  -- A call that acts on the world alone.
  unfoldable pub invoke : (W → A × W) → Action W A
  invoke f s = let (a, w) = f s.world in (ok a, record s { world = w })

  -- An awaited call that may throw.
  unfoldable pub await : (W → Outcome A × W) → Action W A
  await f s = let (a, w) = f s.world in (a, record s { world = w })

  -- An awaited call whose settlement is inspected, as in `try { … } catch`.
  unfoldable pub settle : (W → Outcome A × W) → Action W (Outcome A)
  settle f s = let (a, w) = f s.world in (ok a, record s { world = w })

unfoldable pub modify : {W : Type 0} → (State W → State W) → Action W (Unit {0})
modify f s = (ok tt, f s)

module _ {W A B : Type 0} where
  abbrev pub continue : Outcome A → (A → Action W B) → Action W B
  continue (ok a) f s = f a s
  continue (thrown e) f s = (thrown e, s)

  infixl 10 ◌>>=◌ ◌>>◌
  unfoldable pub ◌>>=◌ : Action W A → (A → Action W B) → Action W B
  ◌>>=◌ m f s = let (a, s') = m s in continue a f s'

  abbrev pub ◌>>◌ : Action W A → Action W B → Action W B
  m >> n = m >>= λ _. n

module _ {W A : Type 0} where
  abbrev pub handle : Outcome A → (Thrown → Action W A) → Action W A
  handle (ok a) f s = (ok a, s)
  handle (thrown e) f s = f e s

  -- `try { m } catch (error) { f(error) }`.
  unfoldable pub try_catch : Action W A → (Thrown → Action W A) → Action W A
  try_catch m f s = let (a, s') = m s in handle a f s'

-- `if (test) m`.
abbrev pub when : {W : Type 0} → Bool → Action W (Unit {0}) → Action W (Unit {0})
when true m = m
when false m = pure tt

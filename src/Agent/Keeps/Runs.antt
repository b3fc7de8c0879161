-- ===== src/Agent/Keeps/Runs.antt =====
-- `run` and `continueSession` (agent/agent-loop.ts): whatever the store, the tools and the other
-- parts of the world do, a turn returns a result, and its log stays numbered and grows at its end.
use echocoding_harness.Common.{ℕ, ◌≡◌, refl, none, List, [], Text}
use echocoding_harness.Contracts.Error.{Thrown, Outcome, ok, thrown}
use echocoding_harness.Contracts.Event.{Event, AgentResult}
use echocoding_harness.Agent.Interface.{Env, Options, State, IdKind}
use echocoding_harness.Agent.Turn.{run, run_turn, create_state, handle_turn_exception, restore}
use echocoding_harness.Agent.Ensures.{
  Settles, Ensures, Ensures-bind, Ensures-gets, Ensures-pure, Ensures-if, Ensures-try_catch,
}
use echocoding_harness.Agent.Keeps.Rules.{Held, IsLogProperty, Keeps-bind, Keeps-emit}
use echocoding_harness.Agent.Keeps.Loop.{Keeps-execute_turn}
use echocoding_harness.Agent.Keeps.Recovery.{repair_storage_failure_lem}

pub Settles-returned :
    {W A : Type 0} (J : List Event → ℕ → Type 0) (o : Outcome A) (s : State W)
    → Settles (λ _. Held J) (λ _. ⊥) o s
    → ((a : A) × (o ≡ ok a)) × Held J s
Settles-returned J (ok a) s h = ((a, refl), h)
Settles-returned J (thrown e) s h = absurd h

module _ {W : Type 0} {J : List Event → ℕ → Type 0} (is : IsLogProperty J) (env : Env W) where
  handle_turn_exception_lem :
      (e : Thrown) → Ensures (Held J) (handle_turn_exception env e) (λ _. Held J) (λ _. ⊥)
  unfolding handle_turn_exception
  handle_turn_exception_lem e = Ensures-bind (Ensures-gets (Held J) _) λ result.
      Ensures-bind
        (Ensures-if _ (repair_storage_failure_lem is env result _) (Ensures-pure (λ _. Held J) tt))
        λ _. Ensures-pure (λ _. Held J) result

  pub run_turn_lem :
      (opts : Options) (goal : Text)
      → Ensures (Held J) (run_turn env opts goal) (λ _. Held J) (λ _. ⊥)
  unfolding run_turn
  run_turn_lem opts goal =
      Ensures-try_catch (Keeps-execute_turn is env opts goal).triple handle_turn_exception_lem

  pub run_lem :
      (opts : Options) (goal : Text) (w : W)
      → J [] 0
      → ((r : AgentResult) × ((run env opts goal w).0 ≡ ok r)) × Held J (run env opts goal w).1
  unfolding run create_state restore
  run_lem opts goal w h = Settles-returned J _ _ (
      (Ensures-try_catch
          (Keeps-bind _ _ (Keeps-emit is env _ none none)
            λ _. Keeps-execute_turn is env opts goal).triple
          handle_turn_exception_lem).at
        (create_state env (env.fresh IdKind.session w).0 [] (env.fresh IdKind.session w).1) h)

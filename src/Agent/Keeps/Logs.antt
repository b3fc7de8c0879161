-- ===== src/Agent/Keeps/Logs.antt =====
-- `run`, `continueSession`, `createState` (agent/agent-loop.ts): every turn returns, numbers its
-- events upwards, and leaves the events that are already in the log as they are.
use echocoding_harness.Common.{
  ℕ, ◌≡◌, refl, sym, subst, Option, some, none, List, [], ◌∷◌, Text, arith,
}
use echocoding_harness.Contracts.Error.{Outcome, ok}
use echocoding_harness.Contracts.Event.{Event, AgentResult}
use echocoding_harness.Agent.Interface.{Env, Options, State}
use echocoding_harness.Agent.Turn.{
  run, run_turn, continue_session, continue_from, create_state, restore, Restored, nothing_restored,
}
use echocoding_harness.Agent.Keeps.Rules.{IsLogProperty}
use echocoding_harness.Agent.Keeps.Runs.{run_lem, run_turn_lem, Settles-returned}
use echocoding_harness.Agent.Keeps.Numbering.{
  Ascending, Ascending-IsLogProperty, Extends, Extends-refl, Extends-IsLogProperty,
}

Ascending-restore :
    (lo n : ℕ) (es : List Event) (r : Restored)
    → r.sequence ≡ lo
    → Ascending lo es n
    → Ascending lo es (restore es r).sequence
unfolding Ascending restore
Ascending-restore lo n [] r same h = omega (arith, same)
Ascending-restore lo n (e ∷ es) r same (h, rest) =
    (h, Ascending-restore e.sequence n es _ refl rest)

-- Two log properties at once.
abbrev Both : (J K : List Event → ℕ → Type 0) → List Event → ℕ → Type 0
Both J K es n = J es n × K es n

Both-IsLogProperty :
    {J K : List Event → ℕ → Type 0} → IsLogProperty J → IsLogProperty K → IsLogProperty (Both J K)
Both-IsLogProperty j k = record {
  grows = λ es n e same h. (j.grows es n e same h.0, k.grows es n e same h.1);
  raises = λ es n m le h. (j.raises es n m le h.0, k.raises es n m le h.1);
}

-- What a turn that returned `r` in `s` shows, when the log was `old` before it.
pub record Finished {W : Type 0} (old : List Event) (o : Outcome AgentResult) (s : State W)
    : Type 0 where
  pub result : AgentResult
  pub returned : o ≡ ok result
  pub ascending : Ascending 0 s.events s.sequence
  pub extends : Extends old s.events

-- The same for a turn that may not have started.
unfoldable pub Continued :
    {W : Type 0} → List Event → Outcome AgentResult × Option (State W) → Type 0
Continued old (o, none) = ⊥
Continued old (o, some s) = Finished old o s

module _ {W : Type 0} (env : Env W) (opts : Options) (goal : Text) where
  -- Whatever its environment does, `run` returns a result and never throws; the numbers of the
  -- events in its log are positive and strictly increase, and none is above the counter.
  pub run-Finished : (w : W) → Finished [] (run env opts goal w).0 (run env opts goal w).1
  unfolding Ascending
  run-Finished w =
      let ((r, same), (up, ext)) =
        run_lem (Both-IsLogProperty Ascending-IsLogProperty (Extends-IsLogProperty [])) env opts
          goal w (omega arith, Extends-refl []) in
      record { result = r; returned = same; ascending = up; extends = ext }

  continue_from_lem :
      (session : Text) (e : Event) (es : List Event) (w : W) (n : ℕ)
      → Ascending 0 (e ∷ es) n
      → Continued (e ∷ es) (continue_from env opts session goal (ok (e ∷ es)) w)
  unfolding Continued create_state run_turn
  continue_from_lem session e es w n h =
      let start = create_state env session (e ∷ es) w in
      let ((r, same), (up, ext)) =
        Settles-returned (Both (Ascending 0) (λ log n. Extends (e ∷ es) log)) _ _ (
          (run_turn_lem
              (Both-IsLogProperty Ascending-IsLogProperty (Extends-IsLogProperty (e ∷ es))) env opts
              goal).at
            start
            (Ascending-restore 0 n (e ∷ es) nothing_restored refl h, Extends-refl (e ∷ es))) in
      record { result = r; returned = same; ascending = up; extends = ext }

  -- When the log of the session can be read, is not empty and numbers its events upwards,
  -- `continueSession` returns a result and never throws, whatever its environment does; the new log
  -- is the old one with events added at its end, and its numbers strictly increase.
  pub continue_session-Finished :
      (session : Text) (e : Event) (es : List Event) (w : W) (n : ℕ)
      → (env.read session w).0 ≡ ok (e ∷ es)
      → Ascending 0 (e ∷ es) n
      → Continued (e ∷ es) (continue_session env opts session goal w)
  unfolding continue_session
  continue_session-Finished session e es w n read h =
      subst
        (λ prior.
          Continued (e ∷ es) (continue_from env opts session goal prior (env.read session w).1))
        (sym read) (continue_from_lem session e es (env.read session w).1 n h)

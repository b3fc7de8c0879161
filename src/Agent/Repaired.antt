-- ===== src/Agent/Repaired.antt =====
-- `repairStorageFailure` (agent/agent-loop.ts) over a store that is read and takes every event.
pub mod Fresh
pub mod Loop
use echocoding_harness.Common.{◌≡◌, true, List, [], ◌++◌, any}
use echocoding_harness.Contracts.Error.{ok}
use echocoding_harness.Contracts.Event.{Event}
use echocoding_harness.Session.Compensation.Complete.{answered}
use echocoding_harness.Agent.Interface.{Env}
use echocoding_harness.Agent.Recovery.{Repair, terminal_ids, is_turn_terminal, is_turn_started}
use echocoding_harness.Agent.Ensures.{Pred, Ensures}
use echocoding_harness.Agent.Repaired.Fresh.{fresh}
use echocoding_harness.Agent.Repaired.Loop.{Held}

-- A log with the events that a repair added: no call that has an end gets another one, each request
-- is answered, and where a turn was started some turn is ended.
pub record IsRepaired (es added : List Event) : Type 0 where
  pub once : fresh (terminal_ids [] es) added ≡ true
  pub requests : answered (terminal_ids [] (es ++ added)) es ≡ true
  pub turns :
      any (λ e. is_turn_started e.payload) es ≡ true
      → any (λ e. is_turn_terminal e.payload) (es ++ added) ≡ true

module _ {W : Type 0} (env : Env W) (accepts : (e : Event) (w : W) → (env.append e w).0 ≡ ok tt)
    (base es : List Event) where
  -- What the loop and the end of the turn have made of the list.
  abbrev Ended : List Event → Pred W
  Ended p s =
      Held env accepts base es p s
      × (answered (terminal_ids [] p) es ≡ true)
      × (any (λ e. is_turn_started e.payload) p ≡ true
          → any (λ e. is_turn_terminal e.payload) p ≡ true)

  abbrev Finished : Pred W
  Finished s = (p : List Event) × Ended p s

  abbrev first_repair : Repair
  first_repair = record { persisted = es; terminal = terminal_ids [] es; repaired = [] }

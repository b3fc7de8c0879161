-- ===== src/Agent/Protocol/Turns.antt =====
-- What `executeTurn` (agent/agent-loop.ts) leaves in the log of the session.
use echocoding_harness.Common.{◌≡◌, arith, some, List, ◌∷◌, ◌++◌, Text}
use echocoding_harness.Contracts.Error.{Outcome, ok, thrown}
use echocoding_harness.Contracts.Event.{Event, AgentResult, tool_started}
use echocoding_harness.Agent.Interface.{Env, Options, State}
use echocoding_harness.Agent.Steps.{execute_turn}
use echocoding_harness.Agent.Ensures.{Settles}
use echocoding_harness.Agent.Protocol.Order.{idle, InPhase, InOrder}
use echocoding_harness.Agent.Protocol.Closing.{Over}
use echocoding_harness.Agent.Protocol.Audit.{
  requests, terminals, follow_balance, Authorizes, follow-Authorizes,
}
use echocoding_harness.Agent.Protocol.Steps.{execute_turn-InOrder}

module _ {W : Type 0} where
  Settles-InOrder : (o : Outcome AgentResult) (s : State W) → Settles Over InOrder o s → InOrder s
  Settles-InOrder (ok r) s h = (idle, h)
  Settles-InOrder (thrown e) s h = h

  Settles-ok :
      (o : Outcome AgentResult) (s : State W) {r : AgentResult}
      → o ≡ ok r
      → Settles Over InOrder o s
      → InPhase idle s
  Settles-ok (ok r) s e h = h
  Settles-ok (thrown x) s e h = absurd (cc)

module _ {W : Type 0} (env : Env W) (opts : Options) (goal : Text) (s : State W) where
  abbrev pub after : State W
  after = (execute_turn env opts goal s).1

  -- When `executeTurn` returns, the log holds as many terminal tool events as tool requests.
  pub requests-eq-terminals :
      (r : AgentResult)
      → InPhase idle s
      → (execute_turn env opts goal s).0 ≡ ok r
      → requests after.events ≡ terminals after.events
  requests-eq-terminals r h e = omega (
    arith,
    follow_balance idle idle after.events (
        Settles-ok (execute_turn env opts goal s).0 after e
          (execute_turn-InOrder env opts goal s h)),
  )

  -- Whether `executeTurn` returns or throws, every start of a tool stands in the log right after the
  -- event that authorized the same call.
  pub started-authorized :
      (es rest : List Event) (a b : Event) (id name : Text)
      → InPhase idle s
      → after.events ≡ es ++ a ∷ b ∷ rest
      → b.payload ≡ tool_started id name
      → Authorizes id a.payload
  started-authorized es rest a b id name h split e =
      let (p, in_phase) =
        Settles-InOrder (execute_turn env opts goal s).0 after
          (execute_turn-InOrder env opts goal s h) in
      follow-Authorizes (some idle) es a b rest p id name (rw split at in_phase) e

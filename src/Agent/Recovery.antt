-- ===== src/Agent/Recovery.antt =====
-- agent/agent-loop.ts: `repairStorageFailure`, the best-effort completion of a log after its store
-- failed.
use echocoding_harness.Common.{
  ℕ, max, Bool, true, false, not, ◌&&◌, ◌||◌, Option, none, some, List, [], ◌∷◌, ◌++◌,
  if◌then◌else◌, any, Text, units, mem_text, add_text,
}
use echocoding_harness.Contracts.Error.{EchoError, Outcome, ok, thrown}
use echocoding_harness.Contracts.Event.{
  ToolCall, ToolResult, Event, Payload, tool_requested, tool_failed, turn_started, turn_completed,
  turn_failed, turn_cancelled, AgentResult, terminal_result,
}
use echocoding_harness.Agent.Interface.{Env}
use echocoding_harness.Agent.Action.{Action, pure, gets, settle, modify, ◌>>=◌, ◌>>◌}
use echocoding_harness.Agent.Calls.{failed_result}
use echocoding_harness.Agent.Emit.{create_event, push_event, notify}

unfoldable pub max_sequence : ℕ → List Event → ℕ
max_sequence n [] = n
max_sequence n (e ∷ es) = max_sequence (max n e.sequence) es

abbrev pub add_terminal : Option ToolResult → List Text → List Text
add_terminal none ids = ids
add_terminal (some r) ids = add_text r.tool_call_id ids

-- `ids` and the calls of the terminal events of a log.
unfoldable pub terminal_ids : List Text → List Event → List Text
terminal_ids ids [] = ids
terminal_ids ids (e ∷ es) = terminal_ids (add_terminal (terminal_result e.payload) ids) es

abbrev pub is_turn_terminal : Payload → Bool
is_turn_terminal (turn_completed _) = true
is_turn_terminal (turn_failed _) = true
is_turn_terminal (turn_cancelled _) = true
is_turn_terminal _ = false

abbrev pub is_turn_started : Payload → Bool
is_turn_started (turn_started _) = true
is_turn_started _ = false

-- The call of a `tool.requested` event.
abbrev pub requested_call : Payload → Option ToolCall
requested_call (tool_requested c _) = some c
requested_call _ = none

-- The variables of the loop over the persisted events.
pub record Repair : Type 0 where
  pub persisted : List Event
  pub terminal : List Text
  pub repaired : List Text

abbrev refresh : Outcome (List Event) → Repair → Repair
refresh (thrown _) r = r
refresh (ok events) r = record r { persisted = events; terminal = terminal_ids r.terminal events }

module _ {W : Type 0} (env : Env W) where
  -- `readPersistedEvents`, where undefined is a thrown outcome.
  unfoldable pub read_persisted : Action W (Outcome (List Event))
  read_persisted = do session ← gets (λ s. s.session_id); settle (env.read session)

  abbrev pub remember : Event → Action W (Unit {0})
  remember e = do modify (push_event env e); modify (notify env e)

  unfoldable pub after_append : ToolCall → Event → Repair → Outcome (Unit {0}) → Action W Repair
  unfolding read_persisted
  after_append c e r (ok _) = do
    remember e
    pure (record r { persisted = r.persisted ++ e ∷ []; terminal = add_text c.id r.terminal })
  after_append c e r (thrown _) = do refreshed ← read_persisted; pure (refresh refreshed r)

  module _ (error : EchoError) where
    abbrev pub recovery_payload : ToolCall → Payload
    recovery_payload c =
        tool_failed
          (failed_result c error
            (units "Session storage failed before the tool terminal state was durably recorded."))
          0

    unfoldable pub repair_call : ToolCall → Option Text → Repair → Action W Repair
    unfolding after_append
    repair_call c step r = do
      turn ← gets (λ s. s.turn_id)
      e ← create_event env (recovery_payload c) step (some turn)
      appended ← settle (env.append e)
      after_append c e (record r { repaired = add_text c.id r.repaired }) appended

    abbrev pub is_repaired : ToolCall → Repair → Bool
    is_repaired c r = mem_text c.id r.terminal || mem_text c.id r.repaired

    unfoldable pub repair_requested : Option ToolCall → Option Text → Repair → Action W Repair
    unfolding repair_call
    repair_requested none step r = pure r
    repair_requested (some c) step r = if is_repaired c r then pure r else repair_call c step r

    unfoldable pub repair_event : Event → Repair → Action W Repair
    unfolding repair_requested
    repair_event e r = repair_requested (requested_call e.payload) e.step_id r

    unfoldable pub repair_events : List Event → Repair → Action W Repair
    unfolding repair_event
    repair_events [] r = pure r
    repair_events (e ∷ es) r = do next ← repair_event e r; repair_events es next

  abbrev pub needs_terminal : List Event → Bool
  needs_terminal persisted =
      not (any (λ e. is_turn_terminal e.payload) persisted)
      && any (λ e. is_turn_started e.payload) persisted

  abbrev pub remember_if : Event → Outcome (Unit {0}) → Action W (Unit {0})
  remember_if e (ok _) = remember e
  remember_if e (thrown _) = pure tt

  unfoldable pub append_terminal : AgentResult → List Event → Action W (Unit {0})
  append_terminal result persisted = do
    modify (λ s. record s { sequence = max_sequence s.sequence persisted })
    turn ← gets (λ s. s.turn_id)
    e ← create_event env (turn_failed result) none (some turn)
    appended ← settle (env.append e)
    remember_if e appended

  unfoldable pub repair_turn : AgentResult → List Event → Action W (Unit {0})
  unfolding append_terminal
  repair_turn result persisted =
      if needs_terminal persisted then append_terminal result persisted else pure tt

  unfoldable pub repair_log : AgentResult → EchoError → Outcome (List Event) → Action W (Unit {0})
  unfolding repair_events repair_turn
  repair_log result error (thrown _) = pure tt
  repair_log result error (ok persisted) = do
    modify (λ s. record s { sequence = max_sequence s.sequence persisted })
    repair ←
        repair_events error persisted
          (record { persisted = persisted; terminal = terminal_ids [] persisted; repaired = [] })
    repair_turn result repair.persisted

  unfoldable pub repair_storage_failure : AgentResult → EchoError → Action W (Unit {0})
  unfolding read_persisted repair_log
  repair_storage_failure result error = do
    persisted ← read_persisted
    repair_log result error persisted

-- ===== src/Application/Coordinator.antt =====
-- application/active-turn-coordinator.ts: `ActiveTurnCoordinator`. A step is what runs between two
-- awaits; `serialize` lets one work at a time be under way, so that the awaits of that work are a
-- phase. A promise of `service.runTurn` is a number. The waiter rejects only when it is aborted, which
-- happens after the race, so that the race is lost only when the promise of the turn has settled.
pub mod Links
pub mod Alone
use echocoding_harness.Common.{
  ℕ, ◌+◌, Bool, true, false, not, ◌&&◌, ◌==◌, Option, none, some, List, [], ◌∷◌, if◌then◌else◌,
  Text, text_eq,
}

-- `ActiveTurn`
pub record ActiveTurn : Type 0 where
  pub session : Text
  pub turn : Text
  pub promise : ℕ

pub data Phase : Type 0 where
  -- no work is under way
  idle : Phase
  -- `submitTurn` awaits the race
  starting : (session : Text) → (promise : ℕ) → Phase
  -- `deleteSession` awaits `service.cancelTurn`, then the promise, then `service.deleteSession`
  cancelling stopping : (session : Text) → (current : ActiveTurn) → Phase
  deleting : (session : Text) → (stopped : Bool) → Phase

-- A turn that the service runs: its promise has not settled.
pub record Running : Type 0 where
  pub session : Text
  pub promise : ℕ

pub record Coordinator : Type 0 where
  pub active : Option ActiveTurn
  pub phase : Phase
  pub running : List Running
  pub next : ℕ

abbrev pub at_start : Coordinator
at_start = record { active = none; phase = idle; running = []; next = 0 }

-- `cancelTurn`: whether the service is asked to cancel the turn.
abbrev is_current : Option ActiveTurn → Text → Text → Bool
is_current none session turn = false
is_current (some a) session turn = text_eq a.session session && text_eq a.turn turn

unfoldable pub cancel_turn : Text → Text → Coordinator → Bool
cancel_turn session turn c = is_current c.active session turn

-- `submitTurn`, up to the race: undefined where a turn is active.
abbrev begin_turn : Text → Option ActiveTurn → Coordinator → Coordinator
begin_turn session (some a) c = c
begin_turn session none c = record c {
  phase = starting session c.next;
  running = record { session = session; promise = c.next } ∷ c.running;
  next = c.next + 1;
}

abbrev submit_in : Text → Phase → Coordinator → Coordinator
submit_in session idle c = begin_turn session c.active c
submit_in session _ c = c

unfoldable pub submit_turn : Text → Coordinator → Coordinator
submit_turn session c = submit_in session c.phase c

-- `this.active?.promise === promise`
abbrev pub is_promise : ℕ → Option ActiveTurn → Bool
is_promise p none = false
is_promise p (some a) = a.promise == p

abbrev pub is_settled : ℕ → List Running → Bool
is_settled p [] = true
is_settled p (r ∷ rs) = not (r.promise == p) && is_settled p rs

-- The race is won, with the id of the turn.
abbrev win : Text → Phase → Coordinator → Coordinator
win turn (starting session p) c = record c {
  active = some (record { session = session; turn = turn; promise = p });
  phase = idle;
}
win turn _ c = c

unfoldable pub win_race : Text → Coordinator → Coordinator
win_race turn c = win turn c.phase c

-- The race is lost: the `catch` block.
abbrev lose : Phase → Coordinator → Coordinator
lose (starting session p) c =
    if is_settled p c.running then record c { active = none; phase = idle } else c
lose _ c = c

unfoldable pub lose_race : Coordinator → Coordinator
lose_race c = lose c.phase c

-- The promise of a turn settles.
abbrev pub without : ℕ → List Running → List Running
without p [] = []
without p (r ∷ rs) = let rest = without p rs in if r.promise == p then rest else r ∷ rest

unfoldable pub settle : ℕ → Coordinator → Coordinator
settle p c = record c { running = without p c.running }

-- `if (this.active?.promise === promise) this.active = undefined`
abbrev pub cleared : ℕ → Option ActiveTurn → Option ActiveTurn
cleared p o = if is_promise p o then none else o

-- The `finally` callback of a promise that has settled.
unfoldable pub release : ℕ → Coordinator → Coordinator
release p c = if is_settled p c.running then record c { active = cleared p c.active } else c

-- `deleteSession`, up to its first await.
abbrev delete_active : Text → Option ActiveTurn → Coordinator → Coordinator
delete_active session none c = record c { phase = deleting session false }
delete_active session (some a) c =
    if text_eq a.session session
    then record c { phase = cancelling session a }
    else record c { phase = deleting session false }

abbrev delete_in : Text → Phase → Coordinator → Coordinator
delete_in session idle c = delete_active session c.active c
delete_in session _ c = c

unfoldable pub delete_session : Text → Coordinator → Coordinator
delete_session session c = delete_in session c.phase c

-- What a deletion awaits comes to an end; a rejection ends the work. The promise of the current turn
-- is passed once it has settled.
abbrev proceed : Bool → Phase → Coordinator → Coordinator
proceed false (starting session p) c = c
proceed false _ c = record c { phase = idle }
proceed true (cancelling session a) c = record c { phase = stopping session a }
proceed true (stopping session a) c =
    if is_settled a.promise c.running
    then record c { active = cleared a.promise c.active; phase = deleting session true }
    else c
proceed true (deleting session stopped) c = record c { phase = idle }
proceed true _ c = c

unfoldable pub continue_deletion : Bool → Coordinator → Coordinator
continue_deletion fulfilled c = proceed fulfilled c.phase c

pub data Step : Type 0 where
  submits : (session : Text) → Step
  wins : (turn : Text) → Step
  loses : Step
  settles releases : (promise : ℕ) → Step
  deletes : (session : Text) → Step
  continues : (fulfilled : Bool) → Step

unfoldable pub step : Step → Coordinator → Coordinator
unfolding submit_turn win_race lose_race settle release delete_session continue_deletion
step (submits session) = submit_turn session
step (wins turn) = win_race turn
step loses = lose_race
step (settles p) = settle p
step (releases p) = release p
step (deletes session) = delete_session session
step (continues fulfilled) = continue_deletion fulfilled

unfoldable pub run_steps : List Step → Coordinator → Coordinator
run_steps [] c = c
run_steps (s ∷ ss) c = run_steps ss (step s c)

-- ===== src/Application/Coordinator/Alone.antt =====
-- `ActiveTurnCoordinator` (application/active-turn-coordinator.ts) never lets two turns run at once.
use echocoding_harness.Common.{
  ap, ℕ, ◌≤◌, ◌≡◌, refl, arith, Bool, true, false, if-cases, Option, none, some, List, [], ◌∷◌,
  length, Text, text_eq,
}
use echocoding_harness.Application.Coordinator.{
  ActiveTurn, Phase, idle, starting, cancelling, stopping, deleting, Running, Coordinator, at_start,
  is_settled, cleared, submit_turn, win_race, lose_race, settle, release, delete_session,
  continue_deletion, Step, submits, wins, loses, settles, releases, deletes, continues, step,
  run_steps,
}
use echocoding_harness.Application.Coordinator.Links.{
  Linked, Quiet, Fresh, InvOf, Inv, Linked-without, Fresh-without, Quiet-without, Linked-cleared,
  Same-cleared, Quiet-stopped, Quiet-other, Fresh-settled, Fresh-Linked, Quiet-none, Fresh-begin,
}

module _ (o : Option ActiveTurn) (rs : List Running) (n : ℕ) where
  abbrev at_phase : Phase → Coordinator
  at_phase p = record { active = o; phase = p; running = rs; next = n }

  settle-Inv : (q : ℕ) (p : Phase) → Inv (at_phase p) → Inv (settle q (at_phase p))
  unfolding settle
  settle-Inv q idle h = Linked-without q o rs h
  settle-Inv q (starting session p) h = (h.0, Fresh-without session p q rs h.1)
  settle-Inv q (cancelling session a) h = (h.0, Linked-without q o rs h.1)
  settle-Inv q (stopping session a) h = (h.0, Linked-without q o rs h.1)
  settle-Inv q (deleting session b) h = (Linked-without q o rs h.0, Quiet-without session q rs h.1)

  cleared-Inv :
      (q : ℕ) (p : Phase)
      → is_settled q rs ≡ true
      → Inv (at_phase p)
      → Inv (record (at_phase p) { active = cleared q o })
  cleared-Inv q idle s h = Linked-cleared q o rs s h
  cleared-Inv q (starting session p) s h = (ap (cleared q) h.0, h.1)
  cleared-Inv q (cancelling session a) s h = (Same-cleared q a o h.0, Linked-cleared q o rs s h.1)
  cleared-Inv q (stopping session a) s h = (Same-cleared q a o h.0, Linked-cleared q o rs s h.1)
  cleared-Inv q (deleting session b) s h = (Linked-cleared q o rs s h.0, h.1)

  release-Inv : (q : ℕ) (p : Phase) → Inv (at_phase p) → Inv (release q (at_phase p))
  unfolding release
  release-Inv q p h = if-cases Inv (is_settled q rs) _ _ (λ s. cleared-Inv q p s h) (λ _. h)

  win_race-Inv : (turn : Text) (p : Phase) → Inv (at_phase p) → Inv (win_race turn (at_phase p))
  unfolding win_race
  win_race-Inv turn (starting session p) h = Fresh-Linked session turn p rs h.1
  win_race-Inv turn idle h = h
  win_race-Inv turn (cancelling session a) h = h
  win_race-Inv turn (stopping session a) h = h
  win_race-Inv turn (deleting session b) h = h

  lose_race-Inv : (p : Phase) → Inv (at_phase p) → Inv (lose_race (at_phase p))
  unfolding lose_race
  lose_race-Inv (starting session p) h =
      if-cases Inv (is_settled p rs) _ _ (λ s. Fresh-settled session p rs s h.1) (λ _. h)
  lose_race-Inv idle h = h
  lose_race-Inv (cancelling session a) h = h
  lose_race-Inv (stopping session a) h = h
  lose_race-Inv (deleting session b) h = h

  continue-Inv : (b : Bool) (p : Phase) → Inv (at_phase p) → Inv (continue_deletion b (at_phase p))
  unfolding continue_deletion
  continue-Inv false idle h = h
  continue-Inv false (starting session p) h = h
  continue-Inv false (cancelling session a) h = h.1
  continue-Inv false (stopping session a) h = h.1
  continue-Inv false (deleting session b) h = h.0
  continue-Inv true idle h = h
  continue-Inv true (starting session p) h = h
  continue-Inv true (cancelling session a) h = h
  continue-Inv true (stopping session a) h =
      if-cases Inv (is_settled a.promise rs) _ _
        (λ s. (Linked-cleared a.promise o rs s h.1, Quiet-stopped session a o rs s h.0 h.1))
        (λ _. h)
  continue-Inv true (deleting session b) h = h.0

submit_turn-Inv :
    (session : Text) (o : Option ActiveTurn) (p : Phase) (rs : List Running) (n : ℕ)
    → Inv (at_phase o rs n p)
    → Inv (submit_turn session (at_phase o rs n p))
unfolding submit_turn
submit_turn-Inv session none idle rs n h = (refl, Fresh-begin session n rs h)
submit_turn-Inv session (some a) idle rs n h = h
submit_turn-Inv session o (starting _ _) rs n h = h
submit_turn-Inv session o (cancelling _ _) rs n h = h
submit_turn-Inv session o (stopping _ _) rs n h = h
submit_turn-Inv session o (deleting _ _) rs n h = h

delete_session-Inv :
    (session : Text) (o : Option ActiveTurn) (p : Phase) (rs : List Running) (n : ℕ)
    → Inv (at_phase o rs n p)
    → Inv (delete_session session (at_phase o rs n p))
unfolding delete_session
delete_session-Inv session none idle rs n h = (h, Quiet-none session rs h)
delete_session-Inv session (some a) idle rs n h =
    if-cases Inv (text_eq a.session session) _ _ (λ _. (refl, h))
      (λ other. (h, Quiet-other session a rs other h))
delete_session-Inv session o (starting _ _) rs n h = h
delete_session-Inv session o (cancelling _ _) rs n h = h
delete_session-Inv session o (stopping _ _) rs n h = h
delete_session-Inv session o (deleting _ _) rs n h = h

step-Inv : (s : Step) (c : Coordinator) → Inv c → Inv (step s c)
unfolding step
step-Inv (submits session) c h = submit_turn-Inv session c.active c.phase c.running c.next h
step-Inv (wins turn) c h = win_race-Inv c.active c.running c.next turn c.phase h
step-Inv loses c h = lose_race-Inv c.active c.running c.next c.phase h
step-Inv (settles q) c h = settle-Inv c.active c.running c.next q c.phase h
step-Inv (releases q) c h = release-Inv c.active c.running c.next q c.phase h
step-Inv (deletes session) c h = delete_session-Inv session c.active c.phase c.running c.next h
step-Inv (continues b) c h = continue-Inv c.active c.running c.next b c.phase h

run_steps-Inv : (ss : List Step) (c : Coordinator) → Inv c → Inv (run_steps ss c)
unfolding run_steps
run_steps-Inv [] c h = h
run_steps-Inv (s ∷ ss) c h = run_steps-Inv ss (step s c) (step-Inv s c h)

length-Linked : (o : Option ActiveTurn) (rs : List Running) → Linked o rs → length rs ≤ 1
length-Linked o [] h = omega arith
length-Linked none (_ ∷ _) h = absurd h
length-Linked (some a) (_ ∷ []) h = omega arith
length-Linked (some a) (_ ∷ _ ∷ _) h = absurd h

length-Fresh : (session : Text) (p : ℕ) (rs : List Running) → Fresh session p rs → length rs ≤ 1
length-Fresh session p [] h = omega arith
length-Fresh session p (_ ∷ []) h = omega arith
length-Fresh session p (_ ∷ _ ∷ _) h = absurd h

length-Inv : (p : Phase) (o : Option ActiveTurn) (rs : List Running) → InvOf p o rs → length rs ≤ 1
length-Inv idle o rs h = length-Linked o rs h
length-Inv (starting session p) o rs h = length-Fresh session p rs h.1
length-Inv (cancelling session a) o rs h = length-Linked o rs h.1
length-Inv (stopping session a) o rs h = length-Linked o rs h.1
length-Inv (deleting session b) o rs h = length-Linked o rs h.0

-- While a deletion lets the service delete the session, no turn of that session runs.
unfoldable pub DeletesQuietly : Coordinator → Type 0
DeletesQuietly c =
    (session : Text) (stopped : Bool) → c.phase ≡ deleting session stopped → Quiet session c.running

deleting-Quiet :
    (p : Phase) (o : Option ActiveTurn) (rs : List Running) (session : Text) (stopped : Bool)
    → p ≡ deleting session stopped
    → InvOf p o rs
    → Quiet session rs
deleting-Quiet p o rs session stopped e h = (rw e at h).1

-- After any sequence of submissions, races, settlements, releases and deletions, at most one turn
-- runs, and while the service deletes a session no turn of that session runs.
pub run_steps-Alone :
    (ss : List Step)
    → (length (run_steps ss at_start).running ≤ 1) × DeletesQuietly (run_steps ss at_start)
unfolding DeletesQuietly
run_steps-Alone ss =
    let c = run_steps ss at_start in
    let h = run_steps-Inv ss at_start tt in
    (
      length-Inv c.phase c.active c.running h,
      λ session stopped e. deleting-Quiet c.phase c.active c.running session stopped e h,
    )

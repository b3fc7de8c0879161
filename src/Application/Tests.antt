-- ===== src/Application/Tests.antt =====
-- A history of the coordinator of turns.
use echocoding_harness.Common.{◌≤◌, ◌≡◌, refl, true, [], ◌∷◌, length, List, units, text_eq}
use echocoding_harness.Application.Coordinator.{
  Step, submits, wins, settles, deletes, continues, at_start, step, run_steps, submit_turn,
  win_race, settle, release, delete_session, continue_deletion, deleting,
}
use echocoding_harness.Application.Coordinator.Alone.{DeletesQuietly, run_steps-Alone}

-- A turn starts, a second one is refused, and the session of the first is deleted.
abbrev history : List Step
history =
    submits (units "a")
    ∷ wins (units "t1")
    ∷ submits (units "b")
    ∷ deletes (units "a")
    ∷ continues true
    ∷ settles 0
    ∷ continues true
    ∷ []

deleting_test : (run_steps history at_start).phase ≡ deleting (units "a") true
unfolding run_steps step submit_turn win_race settle release delete_session continue_deletion units
    text_eq
deleting_test = refl

run_steps-Alone_example :
    (length (run_steps history at_start).running ≤ 1) × DeletesQuietly (run_steps history at_start)
run_steps-Alone_example = run_steps-Alone history

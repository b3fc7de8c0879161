-- ===== src/Web/Tests.antt =====
-- The idempotency store at concrete requests, and the event hub at a concrete run.
use echocoding_harness.Common.{
  ℕ, false, ◌++◌, some, none, arith, remove, ◌≤◌, ◌≡◌, refl, true, false, List, [], ◌∷◌, Text,
  units, text_eq, lookup, insert,
}
use echocoding_harness.Contracts.Event.{Event, turn_started}
use echocoding_harness.Web.Hub.{
  Lease, live, Step, run_steps, hub_step, publish, to_listeners, to_listener, bucket, subscribe,
  add_listener, has_listener, listener_eq, claim_stream, lease_at, set_lease, close_stream, release,
  unsubscribe, delete_listener, wait_for_turn_started, handover, handover_round, sort, insert_event,
  was_seen, publishing, subscribing, waiting, claiming, handing_over, taking_next, closing,
  format_sse_event,
}
use echocoding_harness.Web.Hub.Views.{emitted}
use echocoding_harness.Web.Hub.Single.{Single, run_steps-Single}
use echocoding_harness.Web.Hub.Channel.{published, Rising}
use echocoding_harness.Web.Hub.Refine.{next_lease, claimed, claim_stream-delivers}
use echocoding_harness.Web.Idempotency.{
  Request, Store, empty, replay, conflict, begin, commit, idempotency_key,
  normalize_idempotency_route, trim_slashes,
}
use echocoding_harness.Web.Idempotency.History.{
  Op, begins, commits, run_all, executions, executions-at_most_one, begin-commit,
}

-- The methods of the tests are in capitals.
abbrev upper : Text → Text
upper t = t

abbrev request : Request
request = record { method = units "POST"; route = units "/turns/"; request_id = units "r1" }

abbrev key : Text
key = idempotency_key upper request

key_test : key ≡ units "POST /turns r1"
unfolding idempotency_key normalize_idempotency_route trim_slashes units
key_test = refl

abbrev history : List (Op ℕ)
history =
    begins request (units "f")
    ∷ begins request (units "f")
    ∷ commits key 7
    ∷ commits key 8
    ∷ begins request (units "g")
    ∷ []

executions_test : executions upper key history empty ≡ 1
unfolding executions run_all begin commit idempotency_key normalize_idempotency_route trim_slashes
    units text_eq lookup insert
executions_test = refl

executions-at_most_one_example : executions upper key history empty ≤ 1
executions-at_most_one_example = executions-at_most_one upper key history empty

abbrev begun : Store ℕ
begun = (begin upper request (units "f") empty).1

begin-commit_example :
    (text_eq (units "f") (units "f") ≡ true
      → (begin upper request (units "f") (run_all upper history (commit key 7 begun))).0 ≡ replay 7)
    × (text_eq (units "f") (units "f") ≡ false
        → (begin upper request (units "f") (run_all upper history (commit key 7 begun))).0
          ≡ conflict)
unfolding begin idempotency_key normalize_idempotency_route trim_slashes units text_eq lookup insert
begin-commit_example = begin-commit upper request (units "f") (units "f") [] 7 history begun refl

-- A lease of session s whose client attaches while events come in: two wait, one comes between the
-- rounds of the loop, and one when the stream is live.
abbrev event : ℕ → Event
event n = record {
  id = [];
  sequence = n;
  timestamp = [];
  session_id = units "s";
  turn_id = some (units "t");
  step_id = none;
  payload = turn_started (units "goal");
}

abbrev earlier : List Step
earlier = subscribing (units "s") 7 ∷ claiming (units "r") ∷ publishing (event 1) ∷ closing ∷ []

abbrev later : List Step
later =
    waiting (units "s") 3 false
    ∷ publishing (event 2)
    ∷ publishing (event 4)
    ∷ handing_over 1
    ∷ taking_next 1
    ∷ publishing (event 5)
    ∷ taking_next 1
    ∷ taking_next 1
    ∷ taking_next 1
    ∷ publishing (event 6)
    ∷ []

abbrev final_lease : Lease
final_lease = record { session = units "s"; pipe = live; released = false; on_release = none }

claim_stream-delivers_example :
    (emitted (next_lease earlier) (claimed earlier (units "s") later).calls ++ []
      ≡ published (units "s") later)
    × (final_lease.pipe ≡ live
        → emitted (next_lease earlier) (claimed earlier (units "s") later).calls
          ≡ published (units "s") later)
unfolding run_steps hub_step publish to_listeners to_listener bucket subscribe add_listener
    has_listener listener_eq claim_stream lease_at set_lease close_stream release unsubscribe
    delete_listener wait_for_turn_started handover handover_round sort insert_event was_seen units
    text_eq lookup insert remove Rising published
claim_stream-delivers_example =
    claim_stream-delivers earlier later (units "s") refl (omega arith) final_lease refl refl

delivered_test :
    emitted (next_lease earlier) (claimed earlier (units "s") later).calls
    ≡ event 2 ∷ event 4 ∷ event 5 ∷ event 6 ∷ []
unfolding run_steps hub_step publish to_listeners to_listener bucket subscribe add_listener
    has_listener listener_eq claim_stream lease_at set_lease close_stream release unsubscribe
    delete_listener wait_for_turn_started handover handover_round sort insert_event was_seen units
    text_eq lookup insert remove emitted
delivered_test = refl

run_steps-Single_example : Single (claimed earlier (units "s") later)
unfolding run_steps
run_steps-Single_example = run_steps-Single (
    subscribing (units "s") 7
    ∷ claiming (units "r")
    ∷ publishing (event 1)
    ∷ closing
    ∷ claiming (units "s")
    ∷ later)

format_test :
    format_sse_event (units "e") (units "{}") (some (units "4"))
    ≡ units "id: 4" ++ 10 ∷ units "event: e" ++ 10 ∷ units "data: {}" ++ 10 ∷ 10 ∷ []
unfolding format_sse_event units
format_test = refl

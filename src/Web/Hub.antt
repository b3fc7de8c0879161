-- ===== src/Web/Hub.antt =====
-- web/sse-hub.ts: `createSessionEventHub`. A listener is named by what created it, a lease by its
-- number in the order of the claims. The loop of `handover` runs in rounds, and what the call of
-- `emit` at the end of a round does is the steps before the next round. The listeners of subscribers
-- do not change the subscriptions while an event is published.
pub mod Views
pub mod Alike
pub mod Single
pub mod Channel
pub mod Delivery
pub mod Handover
pub mod Refine
use echocoding_harness.Common.{
  ℕ, zero, suc, Bool, true, false, ◌||◌, ◌==◌, leb, Option, none, some, List, [], ◌∷◌, ◌++◌, length,
  if◌then◌else◌, Text, lookup, insert, remove, units,
}
use echocoding_harness.Contracts.Event.{Event, Payload, turn_started}

-- `StreamPipe`: while `handover` runs, the live listener collects into its queue.
pub data Pipe : Type 0 where
  buffer : List Event → Pipe
  collecting : (queue : List Event) → (seen : List ℕ) → Pipe
  live : Pipe

-- `InternalLease`
pub record Lease : Type 0 where
  pub session : Text
  pub pipe : Pipe
  pub released : Bool
  pub on_release : Option ℕ

pub data Listener : Type 0 where
  stream : ℕ → Listener
  waiter subscriber : ℕ → Listener

unfoldable pub listener_eq : Listener → Listener → Bool
listener_eq (stream a) (stream b) = a == b
listener_eq (waiter a) (waiter b) = a == b
listener_eq (subscriber a) (subscriber b) = a == b
listener_eq _ _ = false

-- What the hub calls.
pub data Call : Type 0 where
  emits : (lease : ℕ) → Event → Call
  deliver : (id : ℕ) → Event → Call
  resolve : (id : ℕ) → (turn : Text) → Call
  reject : (id : ℕ) → Call
  released : (handler : ℕ) → Call

abbrev pub Listeners : Type 0
Listeners = List (Text × List Listener)

pub record Hub : Type 0 where
  pub listeners : Listeners
  pub leases : List Lease
  pub current : Option ℕ
  pub calls : List Call

abbrev pub create_session_event_hub : Hub
create_session_event_hub = record { listeners = []; leases = []; current = none; calls = [] }

unfoldable pub has_listener : Listener → List Listener → Bool
has_listener l [] = false
has_listener l (x ∷ xs) = listener_eq l x || has_listener l xs

unfoldable pub add_listener : Listener → List Listener → List Listener
add_listener l xs = if has_listener l xs then xs else xs ++ l ∷ []

unfoldable pub delete_listener : Listener → List Listener → List Listener
delete_listener l [] = []
delete_listener l (x ∷ xs) =
    let rest = delete_listener l xs in if listener_eq l x then rest else x ∷ rest

abbrev pub or_empty : Option (List Listener) → List Listener
or_empty none = []
or_empty (some xs) = xs

unfoldable pub bucket : Text → Listeners → List Listener
bucket session m = or_empty (lookup session m)

unfoldable pub subscribe : Text → Listener → Listeners → Listeners
subscribe session l m = insert session (add_listener l (bucket session m)) m

abbrev pub set_bucket : Text → List Listener → Listeners → Listeners
set_bucket session [] m = remove session m
set_bucket session (x ∷ xs) m = insert session (x ∷ xs) m

abbrev pub unsubscribe_from : Text → Listener → Option (List Listener) → Listeners → Listeners
unsubscribe_from session l none m = m
unsubscribe_from session l (some current) m = set_bucket session (delete_listener l current) m

-- The function that `subscribe` returns.
unfoldable pub unsubscribe : Text → Listener → Listeners → Listeners
unsubscribe session l m = unsubscribe_from session l (lookup session m) m

unfoldable pub lease_at : ℕ → List Lease → Option Lease
lease_at k [] = none
lease_at zero (l ∷ ls) = some l
lease_at (suc k) (l ∷ ls) = lease_at k ls

unfoldable pub set_lease : ℕ → Lease → List Lease → List Lease
set_lease k l [] = []
set_lease zero l (_ ∷ ls) = l ∷ ls
set_lease (suc k) l (x ∷ ls) = x ∷ set_lease k l ls

abbrev pub put_lease : ℕ → Lease → Hub → Hub
put_lease k l h = record h { leases = set_lease k l h.leases }

abbrev pub call : Call → Hub → Hub
call c h = record h { calls = h.calls ++ c ∷ [] }

-- The listener of a stream, by its pipe.
abbrev pub into_pipe : ℕ → Event → Lease → Pipe → Hub → Hub
into_pipe k e l (buffer events) h = put_lease k (record l { pipe = buffer (events ++ e ∷ []) }) h
into_pipe k e l (collecting queue seen) h =
    put_lease k (record l { pipe = collecting (queue ++ e ∷ []) seen }) h
into_pipe k e l live h = call (emits k e) h

abbrev pub to_stream : ℕ → Event → Option Lease → Hub → Hub
to_stream k e none h = h
to_stream k e (some l) h = if l.released then h else into_pipe k e l l.pipe h

-- The listener of `waitForTurnStarted`; `finish` unsubscribes it.
abbrev pub to_waiter : ℕ → Text → Payload → Option Text → Hub → Hub
to_waiter n session (turn_started _) (some turn) h =
    call (resolve n turn) (record h { listeners = unsubscribe session (waiter n) h.listeners })
to_waiter n session _ _ h = h

unfoldable pub to_listener : Event → Listener → Hub → Hub
to_listener e (stream k) h = to_stream k e (lease_at k h.leases) h
to_listener e (waiter n) h = to_waiter n e.session_id e.payload e.turn_id h
to_listener e (subscriber n) h = call (deliver n e) h

unfoldable pub to_listeners : Event → List Listener → Hub → Hub
to_listeners e [] h = h
to_listeners e (l ∷ ls) h = to_listeners e ls (to_listener e l h)

unfoldable pub publish : Event → Hub → Hub
publish e h = to_listeners e (bucket e.session_id h.listeners) h

-- `waitForTurnStarted`, and the abort of its signal.
unfoldable pub wait_for_turn_started : Text → ℕ → (aborted : Bool) → Hub → Hub
wait_for_turn_started session n aborted h =
    if aborted
    then call (reject n) (record h {
      listeners = unsubscribe session (waiter n) (subscribe session (waiter n) h.listeners);
    })
    else record h { listeners = subscribe session (waiter n) h.listeners }

unfoldable pub abort_wait : Text → ℕ → Hub → Hub
abort_wait session n h =
    if has_listener (waiter n) (bucket session h.listeners)
    then call (reject n) (record h { listeners = unsubscribe session (waiter n) h.listeners })
    else h

abbrev pub new_lease : Text → Lease
new_lease session = record {
  session = session;
  pipe = buffer [];
  released = false;
  on_release = none;
}

abbrev pub claim_when : Text → Option ℕ → Hub → Hub
claim_when session (some _) h = h
claim_when session none h = record h {
  listeners = subscribe session (stream (length h.leases)) h.listeners;
  leases = h.leases ++ new_lease session ∷ [];
  current = some (length h.leases);
}

unfoldable pub claim_stream : Text → Hub → Hub
claim_stream session h = claim_when session h.current h

-- `queue.sort(bySequence)`, a stable sort.
unfoldable pub insert_event : Event → List Event → List Event
insert_event e [] = e ∷ []
insert_event e (x ∷ xs) =
    let rest = insert_event e xs in if leb e.sequence x.sequence then e ∷ x ∷ xs else x ∷ rest

unfoldable pub sort : List Event → List Event
sort [] = []
sort (e ∷ es) = insert_event e (sort es)

-- `handover`, up to its loop.
abbrev pub collect_pipe : Pipe → Pipe
collect_pipe (buffer events) = collecting events []
collect_pipe p = p

abbrev pub start_handover : ℕ → Option Lease → Hub → Hub
start_handover k none h = h
start_handover k (some l) h =
    if l.released then h else put_lease k (record l { pipe = collect_pipe l.pipe }) h

unfoldable pub handover : ℕ → Hub → Hub
handover k h = start_handover k (lease_at k h.leases) h

unfoldable pub was_seen : ℕ → List ℕ → Bool
was_seen n [] = false
was_seen n (m ∷ ms) = n == m || was_seen n ms

-- One round of the loop of `handover`, on the sorted queue.
abbrev pub take_next : ℕ → Lease → List Event → List ℕ → Hub → Hub
take_next k l [] seen h = put_lease k (record l { pipe = live }) h
take_next k l (next ∷ queue) seen h =
    if was_seen next.sequence seen
    then put_lease k (record l { pipe = collecting queue seen }) h
    else call (emits k next)
        (put_lease k (record l { pipe = collecting queue (seen ++ next.sequence ∷ []) }) h)

abbrev pub round_in : ℕ → Lease → Pipe → Hub → Hub
round_in k l (collecting queue seen) h = take_next k l (sort queue) seen h
round_in k l _ h = h

abbrev pub round_of : ℕ → Option Lease → Hub → Hub
round_of k none h = h
round_of k (some l) h = round_in k l l.pipe h

unfoldable pub handover_round : ℕ → Hub → Hub
handover_round k h = round_of k (lease_at k h.leases) h

abbrev pub register_handler : ℕ → ℕ → Option Lease → Hub → Hub
register_handler k handler none h = h
register_handler k handler (some l) h = put_lease k (record l { on_release = some handler }) h

unfoldable pub set_on_release : ℕ → ℕ → Hub → Hub
set_on_release k handler h = register_handler k handler (lease_at k h.leases) h

abbrev pub is_current : ℕ → Option ℕ → Bool
is_current k none = false
is_current k (some j) = j == k

abbrev pub run_handler : Option ℕ → Hub → Hub
run_handler none h = h
run_handler (some handler) h = call (released handler) h

-- `release`
abbrev pub close_lease : ℕ → Lease → Hub → Hub
close_lease k l h = record h {
  leases = set_lease k (record l { released = true }) h.leases;
  listeners = unsubscribe l.session (stream k) h.listeners;
  current = if is_current k h.current then none else h.current;
}

abbrev pub release_lease : ℕ → Option Lease → Hub → Hub
release_lease k none h = h
release_lease k (some l) h = if l.released then h else run_handler l.on_release (close_lease k l h)

unfoldable pub release : ℕ → Hub → Hub
release k h = release_lease k (lease_at k h.leases) h

abbrev pub release_current : Option ℕ → Hub → Hub
release_current none h = h
release_current (some k) h = release k h

unfoldable pub close_stream : Hub → Hub
close_stream h = release_current h.current h

abbrev pub release_when : Option ℕ → Hub → Hub
release_when none h = close_stream h
release_when (some k) h = if is_current k h.current then close_stream h else h

unfoldable pub release_stream : Option ℕ → Hub → Hub
release_stream lease h = release_when lease h

abbrev newline : Text
newline = 10 ∷ []

-- One call from outside, or one round of a loop of `handover`.
pub data Step : Type 0 where
  publishing : Event → Step
  subscribing unsubscribing : (session : Text) → (id : ℕ) → Step
  waiting : (session : Text) → (id : ℕ) → (aborted : Bool) → Step
  aborting : (session : Text) → (id : ℕ) → Step
  claiming : (session : Text) → Step
  handing_over taking_next : (lease : ℕ) → Step
  registering : (lease handler : ℕ) → Step
  releasing : (lease : ℕ) → Step
  releasing_stream : (lease : Option ℕ) → Step
  closing : Step

unfoldable pub hub_step : Step → Hub → Hub
hub_step (publishing e) h = publish e h
hub_step (subscribing session id) h = record h {
  listeners = subscribe session (subscriber id) h.listeners;
}
hub_step (unsubscribing session id) h = record h {
  listeners = unsubscribe session (subscriber id) h.listeners;
}
hub_step (waiting session id aborted) h = wait_for_turn_started session id aborted h
hub_step (aborting session id) h = abort_wait session id h
hub_step (claiming session) h = claim_stream session h
hub_step (handing_over k) h = handover k h
hub_step (taking_next k) h = handover_round k h
hub_step (registering k handler) h = set_on_release k handler h
hub_step (releasing k) h = release k h
hub_step (releasing_stream lease) h = release_stream lease h
hub_step closing h = close_stream h

unfoldable pub run_steps : List Step → Hub → Hub
run_steps [] h = h
run_steps (s ∷ ss) h = run_steps ss (hub_step s h)

-- `formatSseEvent`
abbrev id_line : Option Text → Text
id_line none = []
id_line (some id) = units "id: " ++ id ++ newline

unfoldable pub format_sse_event : (event content : Text) → (id : Option Text) → Text
unfolding units
format_sse_event event content id =
    id_line id
    ++ units "event: "
    ++ event
    ++ newline
    ++ units "data: "
    ++ content
    ++ newline
    ++ newline

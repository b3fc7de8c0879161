-- ===== src/Web/Hub/Alike.antt =====
-- Hubs that the invariant of Single does not tell apart, and the steps that lead from one to another.
use echocoding_harness.Common.{
  ℕ, ◌≡◌, refl, arith, ap, ◌∙◌, if-cases, is_some, ==_iff, Bool, false, not, ◌==◌, ==_iff, Option,
  none, some, List, [], ◌∷◌, if◌then◌else◌, Text, text_eq,
}
use echocoding_harness.Contracts.Event.{Event, Payload, turn_started}
use echocoding_harness.Web.Hub.{
  Pipe, buffer, collecting, live, Lease, Listener, stream, waiter, subscriber, Call, emits, Hub,
  bucket, subscribe, unsubscribe, lease_at, put_lease, call, to_stream, into_pipe, to_waiter,
  to_listener, to_listeners, start_handover, take_next, was_seen, sort, round_in, round_of,
  register_handler, wait_for_turn_started, abort_wait, has_listener,
}
use echocoding_harness.Web.Hub.Views.{
  emitted, emitted_by, emitted_quiet, count, of_stream, count-add_other, count-delete_listener,
  bucket-subscribe, bucket-unsubscribe, lease_at-set_lease,
}

-- How often the listener of a lease stands in the bucket of a session.
abbrev pub expected : Option Lease → Text → ℕ
expected none t = 0
expected (some l) t = if l.released then 0 else if text_eq l.session t then 1 else 0

abbrev pub is_open : Option Lease → Bool
is_open none = false
is_open (some l) = not l.released

-- Two hubs that the invariant does not tell apart.
pub record Alike (g h : Hub) : Type 0 where
  pub counts : (k : ℕ) (t : Text) → count k (bucket t h.listeners) ≡ count k (bucket t g.listeners)
  pub expects :
      (k : ℕ) (t : Text) → expected (lease_at k h.leases) t ≡ expected (lease_at k g.leases) t
  pub opens : (k : ℕ) → is_open (lease_at k h.leases) ≡ is_open (lease_at k g.leases)
  pub exists : (k : ℕ) → is_some (lease_at k h.leases) ≡ is_some (lease_at k g.leases)
  pub silent :
      (k : ℕ) → is_some (lease_at k g.leases) ≡ false → emitted k h.calls ≡ emitted k g.calls
  pub currents : h.current ≡ g.current

pub Alike-refl : (h : Hub) → Alike h h
Alike-refl h = record {
  counts = λ k t. refl;
  expects = λ k t. refl;
  opens = λ k. refl;
  exists = λ k. refl;
  silent = λ k _. refl;
  currents = refl;
}

pub Alike-trans : {f g h : Hub} → Alike f g → Alike g h → Alike f h
Alike-trans a b = record {
  counts = λ k t. b.counts k t ∙ a.counts k t;
  expects = λ k t. b.expects k t ∙ a.expects k t;
  opens = λ k. b.opens k ∙ a.opens k;
  exists = λ k. b.exists k ∙ a.exists k;
  silent = λ k e. b.silent k (a.exists k ∙ e) ∙ a.silent k e;
  currents = b.currents ∙ a.currents;
}

-- A call that emits nothing for a lease that is not claimed yet.
pub Alike-call :
    (c : Call) {g h : Hub}
    → ((k : ℕ) → is_some (lease_at k g.leases) ≡ false → emitted_by k c [] ≡ [])
    → Alike g h
    → Alike g (call c h)
Alike-call c {g} {h} quiet a = record {
  counts = a.counts;
  expects = a.expects;
  opens = a.opens;
  exists = a.exists;
  silent = λ k e. emitted_quiet k c h.calls (quiet k e) ∙ a.silent k e;
  currents = a.currents;
}

pub Alike-emit :
    (j : ℕ) (e : Event) (l : Lease) {g h : Hub}
    → lease_at j g.leases ≡ some l
    → Alike g h
    → Alike g (call (emits j e) h)
Alike-emit j e l {g} q = Alike-call (emits j e) λ k n.
    if-cases (λ es. es ≡ []) (j == k) (e ∷ []) []
      (λ same.
        let same' : j ≡ k = (==_iff j k).0 same in
        absurd (cc (n, ap is_some q, ap (λ i. is_some (lease_at i g.leases)) same')))
      (λ _. refl)

-- A lease is put back with the same session, as open as it was.
pub Alike-put_lease :
    (k : ℕ) (l l' : Lease) (h : Hub)
    → lease_at k h.leases ≡ some l
    → l'.session ≡ l.session
    → l'.released ≡ l.released
    → Alike h (put_lease k l' h)
Alike-put_lease k l l' h e es er = record {
  counts = λ j t. refl;
  expects = λ j t. ground (arith, lease_at-set_lease j k l' h.leases, ==_iff k j);
  opens = λ j. ground (arith, lease_at-set_lease j k l' h.leases, ==_iff k j);
  exists = λ j. ground (arith, lease_at-set_lease j k l' h.leases, ==_iff k j);
  silent = λ j _. refl;
  currents = refl;
}

-- A listener of another kind comes or goes.
module _ (h : Hub) (session : Text) (l : Listener) (other : (k : ℕ) → of_stream k l ≡ false) where
  pub Alike-subscribe : Alike h (record h { listeners = subscribe session l h.listeners })
  Alike-subscribe = record {
    counts = λ k t. ground (
      arith,
      bucket-subscribe t session l h.listeners,
      other k,
      count-add_other k l (bucket t h.listeners),
    );
    expects = λ k t. refl;
    opens = λ k. refl;
    exists = λ k. refl;
    silent = λ k _. refl;
    currents = refl;
  }

  pub Alike-unsubscribe : Alike h (record h { listeners = unsubscribe session l h.listeners })
  Alike-unsubscribe = record {
    counts = λ k t. ground (
      arith,
      bucket-unsubscribe t session l h.listeners,
      other k,
      count-delete_listener k l (bucket t h.listeners),
    );
    expects = λ k t. refl;
    opens = λ k. refl;
    exists = λ k. refl;
    silent = λ k _. refl;
    currents = refl;
  }

pub Alike-into_pipe :
    (k : ℕ) (e : Event) (l : Lease) (p : Pipe) (h : Hub)
    → lease_at k h.leases ≡ some l
    → Alike h (into_pipe k e l p h)
Alike-into_pipe k e l (buffer events) h q = Alike-put_lease k l _ h q refl refl
Alike-into_pipe k e l (collecting queue seen) h q = Alike-put_lease k l _ h q refl refl
Alike-into_pipe k e l live h q = Alike-emit k e l q (Alike-refl h)

pub Alike-to_stream :
    (k : ℕ) (e : Event) (o : Option Lease) (h : Hub)
    → lease_at k h.leases ≡ o
    → Alike h (to_stream k e o h)
Alike-to_stream k e none h q = Alike-refl h
Alike-to_stream k e (some l) h q =
    if-cases (Alike h) l.released _ _ (λ _. Alike-refl h) (λ _. Alike-into_pipe k e l l.pipe h q)

pub Alike-to_waiter :
    (n : ℕ) (s : Text) (p : Payload) (t : Option Text) (h : Hub) → Alike h (to_waiter n s p t h)
Alike-to_waiter n s (turn_started _) (some t) h =
    Alike-call _ (λ k _. refl) (Alike-unsubscribe h s (waiter n) (λ k. refl))
Alike-to_waiter n s _ _ h = Alike-refl h

pub Alike-to_listener : (e : Event) (l : Listener) (h : Hub) → Alike h (to_listener e l h)
unfolding to_listener
Alike-to_listener e (stream k) h = Alike-to_stream k e _ h refl
Alike-to_listener e (waiter n) h = Alike-to_waiter n e.session_id e.payload e.turn_id h
Alike-to_listener e (subscriber n) h = Alike-call _ (λ k _. refl) (Alike-refl h)

pub Alike-to_listeners : (e : Event) (ls : List Listener) (h : Hub) → Alike h (to_listeners e ls h)
unfolding to_listeners
Alike-to_listeners e [] h = Alike-refl h
Alike-to_listeners e (l ∷ ls) h =
    Alike-trans (Alike-to_listener e l h) (Alike-to_listeners e ls (to_listener e l h))

pub Alike-handover :
    (k : ℕ) (o : Option Lease) (h : Hub) → lease_at k h.leases ≡ o → Alike h (start_handover k o h)
Alike-handover k none h q = Alike-refl h
Alike-handover k (some l) h q =
    if-cases (Alike h) l.released _ _ (λ _. Alike-refl h) (λ _. Alike-put_lease k l _ h q refl refl)

pub Alike-take_next :
    (k : ℕ) (l : Lease) (queue : List Event) (seen : List ℕ) (h : Hub)
    → lease_at k h.leases ≡ some l
    → Alike h (take_next k l queue seen h)
Alike-take_next k l [] seen h q = Alike-put_lease k l _ h q refl refl
Alike-take_next k l (next ∷ queue) seen h q =
    if-cases (Alike h) (was_seen next.sequence seen) _ _ (λ _. Alike-put_lease k l _ h q refl refl)
      (λ _. Alike-emit k next l q (Alike-put_lease k l _ h q refl refl))

pub Alike-round_in :
    (k : ℕ) (l : Lease) (p : Pipe) (h : Hub)
    → lease_at k h.leases ≡ some l
    → Alike h (round_in k l p h)
Alike-round_in k l (buffer events) h q = Alike-refl h
Alike-round_in k l (collecting queue seen) h q = Alike-take_next k l (sort queue) seen h q
Alike-round_in k l live h q = Alike-refl h

pub Alike-round :
    (k : ℕ) (o : Option Lease) (h : Hub) → lease_at k h.leases ≡ o → Alike h (round_of k o h)
Alike-round k none h q = Alike-refl h
Alike-round k (some l) h q = Alike-round_in k l l.pipe h q

pub Alike-register :
    (k handler : ℕ) (o : Option Lease) (h : Hub)
    → lease_at k h.leases ≡ o
    → Alike h (register_handler k handler o h)
Alike-register k handler none h q = Alike-refl h
Alike-register k handler (some l) h q = Alike-put_lease k l _ h q refl refl

pub Alike-wait : (s : Text) (n : ℕ) (b : Bool) (h : Hub) → Alike h (wait_for_turn_started s n b h)
unfolding wait_for_turn_started
Alike-wait s n b h =
    let added = Alike-subscribe h s (waiter n) (λ k. refl) in
    if-cases (Alike h) b _ _
      (λ _.
        Alike-call _ (λ k _. refl)
          (Alike-trans added (Alike-unsubscribe _ s (waiter n) (λ k. refl))))
      (λ _. added)

pub Alike-abort : (s : Text) (n : ℕ) (h : Hub) → Alike h (abort_wait s n h)
unfolding abort_wait
Alike-abort s n h =
    if-cases (Alike h) (has_listener (waiter n) (bucket s h.listeners)) _ _
      (λ _. Alike-call _ (λ k _. refl) (Alike-unsubscribe h s (waiter n) (λ k. refl)))
      (λ _. Alike-refl h)

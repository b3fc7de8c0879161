-- ===== src/Web/Hub/Single.antt =====
-- The hub's invariant: the current lease is the one lease that is not released, its listener stands
-- once, in the bucket of its session, and nothing was emitted for a lease that is not claimed yet.
use echocoding_harness.Common.{
  ℕ, ◌≡◌, refl, arith, ap, ◌∙◌, sym, if-cases, is_some, ==_iff, subst, Bool-cases, true, false,
  ◌==◌, ==_iff, Option, inl, inr, none, some, List, [], ◌∷◌, length, Text, lookup,
}
use echocoding_harness.Web.Hub.{
  Lease, stream, subscriber, Hub, create_session_event_hub, bucket, lease_at, is_current,
  claim_when, new_lease, run_handler, close_lease, release_lease, release_current, release,
  release_when, close_stream, publish, handover, handover_round, set_on_release, claim_stream,
  release_stream, publishing, subscribing, unsubscribing, waiting, aborting, claiming, handing_over,
  taking_next, registering, releasing, releasing_stream, closing, Step, hub_step, run_steps,
}
use echocoding_harness.Web.Hub.Views.{
  emitted, count, count-add_listener, count-add_other, count-delete_listener, bucket-subscribe,
  bucket-unsubscribe, lease_at-set_lease, lease_at-append, lease_at-length,
}
use echocoding_harness.Web.Hub.Alike.{
  expected, is_open, Alike, Alike-refl, Alike-call, Alike-subscribe, Alike-unsubscribe,
  Alike-to_listeners, Alike-handover, Alike-round, Alike-register, Alike-wait, Alike-abort,
}

pub record Single (h : Hub) : Type 0 where
  pub listens :
      (k : ℕ) (t : Text) → count k (bucket t h.listeners) ≡ expected (lease_at k h.leases) t
  pub unborn : (k : ℕ) → is_some (lease_at k h.leases) ≡ false → emitted k h.calls ≡ []
  pub one : (k : ℕ) → is_open (lease_at k h.leases) ≡ is_current k h.current

Single-Alike : {g h : Hub} → Alike g h → Single g → Single h
Single-Alike a s = record {
  listens = λ k t. a.counts k t ∙ s.listens k t ∙ sym (a.expects k t);
  unborn = λ k e. a.silent k (sym (a.exists k) ∙ e) ∙ s.unborn k (sym (a.exists k) ∙ e);
  one = λ k. a.opens k ∙ s.one k ∙ sym (ap (is_current k) a.currents);
}

count_fresh : (h : Hub) (t : Text) → Single h → count (length h.leases) (bucket t h.listeners) ≡ 0
count_fresh h t i =
    i.listens (length h.leases) t ∙ ap (λ o. expected o t) (lease_at-length h.leases)

Single-claim :
    (s : Text) (o : Option ℕ) (h : Hub) → h.current ≡ o → Single h → Single (claim_when s o h)
Single-claim s (some j) h e i = i
Single-claim s none h e i = record {
  listens = λ k t. claim_listens k t;
  unborn = λ k n. i.unborn k (ground (arith, n, lease_at-append k h.leases (new_lease s)));
  one = λ k. ground (
    arith,
    i.one k,
    ap (is_current k) e,
    lease_at-append k h.leases (new_lease s),
    ==_iff (length h.leases) k,
  );
}
  where
    claim_listens :
        (k : ℕ) (t : Text)
        → count k (bucket t (claim_when s none h).listeners)
          ≡ expected (lease_at k (claim_when s none h).leases) t
    claim_listens k t = elim (Bool-cases (length h.leases == k)) [
      | inl same ↦
          let q : length h.leases ≡ k = ground (arith, ==_iff (length h.leases) k) in
          ground (
            arith,
            q,
            same,
            subst (λ j. count j (bucket t h.listeners) ≡ 0) q (count_fresh h t i),
            lease_at-append k h.leases (new_lease s),
            bucket-subscribe t s (stream (length h.leases)) h.listeners,
            count-add_listener k (stream (length h.leases)) (bucket t h.listeners),
          )
      | inr other ↦ ground (
        arith,
        other,
        i.listens k t,
        lease_at-append k h.leases (new_lease s),
        bucket-subscribe t s (stream (length h.leases)) h.listeners,
        count-add_other k (stream (length h.leases)) (bucket t h.listeners),
      )
    ]

Single-run_handler : (o : Option ℕ) (h : Hub) → Single h → Single (run_handler o h)
Single-run_handler none h i = i
Single-run_handler (some n) h i = Single-Alike (Alike-call _ (λ k _. refl) (Alike-refl h)) i

Single-closed :
    (k : ℕ) (l : Lease) (h : Hub)
    → lease_at k h.leases ≡ some l
    → l.released ≡ false
    → Single h
    → Single (close_lease k l h)
Single-closed k l h q open_ i = record {
  listens = λ j t. ground (
    arith,
    i.listens j t,
    lease_at-set_lease j k (record l { released = true }) h.leases,
    bucket-unsubscribe t l.session (stream k) h.listeners,
    count-delete_listener j (stream k) (bucket t h.listeners),
    ap (λ o. expected o t) q,
    ap (λ i. expected (lease_at i h.leases) t),
    ==_iff k j,
  );
  unborn = λ j n. i.unborn j (
      ground (
        arith,
        n,
        lease_at-set_lease j k (record l { released = true }) h.leases,
        ap is_some q,
        ==_iff k j,
      ));
  one = λ j. ground (
    arith,
    i.one j,
    i.one k,
    lease_at-set_lease j k (record l { released = true }) h.leases,
    ap is_open q,
    ==_iff k j,
  );
}

Single-release_lease :
    (k : ℕ) (o : Option Lease) (h : Hub)
    → lease_at k h.leases ≡ o
    → Single h
    → Single (release_lease k o h)
Single-release_lease k none h q i = i
Single-release_lease k (some l) h q i =
    if-cases Single l.released _ _ (λ _. i)
      (λ e. Single-run_handler l.on_release _ (Single-closed k l h q e i))

Single-close_stream : (o : Option ℕ) (h : Hub) → Single h → Single (release_current o h)
unfolding release
Single-close_stream none h i = i
Single-close_stream (some k) h i = Single-release_lease k _ h refl i

Single-release_when : (o : Option ℕ) (h : Hub) → Single h → Single (release_when o h)
unfolding close_stream
Single-release_when none h i = Single-close_stream h.current h i
Single-release_when (some k) h i =
    if-cases Single (is_current k h.current) _ _ (λ _. Single-close_stream h.current h i) (λ _. i)

pub Single-hub_step : (s : Step) (h : Hub) → Single h → Single (hub_step s h)
unfolding hub_step publish handover handover_round set_on_release claim_stream release
    release_stream close_stream
Single-hub_step (publishing e) h = Single-Alike (Alike-to_listeners e _ h)
Single-hub_step (subscribing s n) h = Single-Alike (Alike-subscribe h s (subscriber n) (λ k. refl))
Single-hub_step (unsubscribing s n) h =
    Single-Alike (Alike-unsubscribe h s (subscriber n) (λ k. refl))
Single-hub_step (waiting s n b) h = Single-Alike (Alike-wait s n b h)
Single-hub_step (aborting s n) h = Single-Alike (Alike-abort s n h)
Single-hub_step (claiming s) h = Single-claim s h.current h refl
Single-hub_step (handing_over k) h = Single-Alike (Alike-handover k _ h refl)
Single-hub_step (taking_next k) h = Single-Alike (Alike-round k _ h refl)
Single-hub_step (registering k n) h = Single-Alike (Alike-register k n _ h refl)
Single-hub_step (releasing k) h = Single-release_lease k _ h refl
Single-hub_step (releasing_stream o) h = Single-release_when o h
Single-hub_step closing h = Single-close_stream h.current h

-- A hub that has run no step.
Single-start : Single create_session_event_hub
unfolding count bucket lookup lease_at emitted
Single-start = record { listens = λ k t. refl; unborn = λ k _. refl; one = λ k. refl }

-- Any sequence of steps keeps the invariant.
pub Single-run_steps : (ss : List Step) (h : Hub) → Single h → Single (run_steps ss h)
unfolding run_steps
Single-run_steps [] h i = i
Single-run_steps (s ∷ ss) h i = Single-run_steps ss (hub_step s h) (Single-hub_step s h i)

-- After any sequence of calls to a new hub, a lease is open exactly when it is the current stream, and
-- its listener stands once in the bucket of its session and in no other; the listener of a lease that
-- is released, or not yet claimed, stands in no bucket.
pub run_steps-Single : (ss : List Step) → Single (run_steps ss create_session_event_hub)
run_steps-Single ss = Single-run_steps ss create_session_event_hub Single-start

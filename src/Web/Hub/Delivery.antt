-- ===== src/Web/Hub/Delivery.antt =====
-- A published event reaches the channel of a lease once where the listener of the lease stands once in
-- the bucket, and not at all where it stands in no bucket.
use echocoding_harness.Common.{
  ℕ, ◌≡◌, refl, arith, ap, subst, ◌∙◌, sym, if-cases, Bool-cases, false, ◌==◌, ==_iff, Option, inl,
  inr, none, some, List, [], ◌∷◌, ◌++◌, append_assoc, Text,
}
use echocoding_harness.Contracts.Event.{Event, Payload, turn_started}
use echocoding_harness.Web.Hub.{
  Pipe, buffer, collecting, live, Lease, Listener, stream, waiter, subscriber, Call, emits, deliver,
  resolve, Hub, call, lease_at, put_lease, to_stream, into_pipe, to_waiter, to_listener,
  to_listeners,
}
use echocoding_harness.Web.Hub.Views.{
  emitted_by, emitted, emitted-append, emitted_quiet, count, of_stream, lease_at-set_lease,
}
use echocoding_harness.Web.Hub.Channel.{Carries}

module _ (k : ℕ) (s : Text) where
  abbrev pub Tracked : Option Lease → List Event → List Event → Type 0
  Tracked none sent all_ = ⊥
  Tracked (some l) sent all_ = (l.session ≡ s) × (l.released ≡ false → Carries l.pipe sent all_)

  -- The lease of the hub carries the channel.
  abbrev pub Track : Hub → List Event → Type 0
  Track h all_ = Tracked (lease_at k h.leases) (emitted k h.calls) all_

  abbrev pub Untouched : Hub → Hub → Type 0
  Untouched g h =
      (lease_at k h.leases ≡ lease_at k g.leases) × (emitted k h.calls ≡ emitted k g.calls)

  pub Untouched-refl : (h : Hub) → Untouched h h
  Untouched-refl h = (refl, refl)

  pub Track-Untouched :
      (g h : Hub) (all_ : List Event) → Untouched g h → Track g all_ → Track h all_
  Track-Untouched g h all_ (a, b) t = rw (a, b) t

  pub Untouched-call : (c : Call) (h : Hub) → emitted_by k c [] ≡ [] → Untouched h (call c h)
  Untouched-call c h e = (refl, emitted_quiet k c h.calls e)

  pub Untouched-put_lease :
      (j : ℕ) (l : Lease) (h : Hub) → (j == k) ≡ false → Untouched h (put_lease j l h)
  Untouched-put_lease j l h e = (ground (arith, lease_at-set_lease k j l h.leases), refl)

  pub Track-put_lease :
      (l l' : Lease) (h : Hub) (all_ : List Event)
      → lease_at k h.leases ≡ some l
      → l'.session ≡ s
      → (l'.released ≡ false → Carries l'.pipe (emitted k h.calls) all_)
      → Track (put_lease k l' h) all_
  Track-put_lease l l' h all_ q es f = rw (found) (es, f)
    where
      found : lease_at k (put_lease k l' h).leases ≡ some l'
      found = ground (arith, lease_at-set_lease k k l' h.leases, ==_iff k k)

  -- What is called after a change of the lease.
  pub Track-emit :
      (e : Event) (h : Hub) (l : Lease) (all_ : List Event)
      → lease_at k h.leases ≡ some l
      → l.session ≡ s
      → (l.released ≡ false → Carries l.pipe (emitted k h.calls ++ e ∷ []) all_)
      → Track (call (emits k e) h) all_
  Track-emit e h l all_ q es f = rw (q, sent) (es, f)
    where
      sent : emitted k (call (emits k e) h).calls ≡ emitted k h.calls ++ e ∷ []
      sent = ground (arith, emitted-append k h.calls (emits k e), ==_iff k k)

  -- The listeners.
  Untouched-into_pipe :
      (j : ℕ) (e : Event) (l : Lease) (p : Pipe) (h : Hub)
      → (j == k) ≡ false
      → Untouched h (into_pipe j e l p h)
  Untouched-into_pipe j e l (buffer events) h n = Untouched-put_lease j _ h n
  Untouched-into_pipe j e l (collecting queue seen) h n = Untouched-put_lease j _ h n
  Untouched-into_pipe j e l live h n = Untouched-call (emits j e) h (ground arith)

  Untouched-to_stream :
      (j : ℕ) (e : Event) (o : Option Lease) (h : Hub)
      → (j == k) ≡ false
      → Untouched h (to_stream j e o h)
  Untouched-to_stream j e none h n = Untouched-refl h
  Untouched-to_stream j e (some l) h n =
      if-cases (Untouched h) l.released _ _ (λ _. Untouched-refl h)
        (λ _. Untouched-into_pipe j e l l.pipe h n)

  Untouched-to_waiter :
      (n : ℕ) (t : Text) (p : Payload) (u : Option Text) (h : Hub)
      → Untouched h (to_waiter n t p u h)
  Untouched-to_waiter n t (turn_started _) (some u) h =
      (refl, emitted_quiet k (resolve n u) h.calls refl)
  Untouched-to_waiter n t _ _ h = Untouched-refl h

  Track-into_pipe :
      (e : Event) (l : Lease) (p : Pipe) (h : Hub) (all_ : List Event)
      → lease_at k h.leases ≡ some l
      → l.session ≡ s
      → Carries p (emitted k h.calls) all_
      → p ≡ l.pipe
      → Track (into_pipe k e l p h) (all_ ++ e ∷ [])
  Track-into_pipe e l (buffer events) h all_ q es (a, b) r =
      Track-put_lease l _ h _ q es (λ _. (a, ap (λ x. x ++ e ∷ []) b))
  Track-into_pipe e l (collecting queue seen) h all_ q es (a, b) r =
      Track-put_lease l _ h _ q es
        (λ _. (a, sym (append_assoc _ queue _) ∙ ap (λ x. x ++ e ∷ []) b))
  Track-into_pipe e l live h all_ q es a r = Track-emit e h l _ q es (λ _.
      subst (λ p. Carries p (emitted k h.calls ++ e ∷ []) (all_ ++ e ∷ [])) r
        (ap (λ x. x ++ e ∷ []) a))

  Track-to_stream :
      (e : Event) (o : Option Lease) (h : Hub) (all_ : List Event)
      → lease_at k h.leases ≡ o
      → Tracked o (emitted k h.calls) all_
      → Track (to_stream k e o h) (all_ ++ e ∷ [])
  Track-to_stream e (some l) h all_ q (es, f) =
      if-cases (λ h'. Track h' (all_ ++ e ∷ [])) l.released _ _
        (λ r. rw q (es, λ o. absurd (cc (r, o))))
        (λ o. Track-into_pipe e l l.pipe h all_ q es (f o) refl)
  Track-to_stream e none h all_ q t = absurd t

  -- A listener of another kind, or of another lease.
  Untouched-to_listener :
      (e : Event) (l : Listener) (h : Hub) → of_stream k l ≡ false → Untouched h (to_listener e l h)
  unfolding to_listener
  Untouched-to_listener e (stream j) h n = Untouched-to_stream j e (lease_at j h.leases) h n
  Untouched-to_listener e (waiter n) h _ = Untouched-to_waiter n e.session_id e.payload e.turn_id h
  Untouched-to_listener e (subscriber n) h _ = Untouched-call (deliver n e) h refl

  Track-other :
      (e : Event) (l : Listener) (h : Hub) (all_ : List Event)
      → of_stream k l ≡ false
      → Track h all_
      → Track (to_listener e l h) all_
  Track-other e l h all_ n =
      Track-Untouched h (to_listener e l h) all_ (Untouched-to_listener e l h n)

  Track-own :
      (e : Event) (j : ℕ) (h : Hub) (all_ : List Event)
      → j ≡ k
      → Track h all_
      → Track (to_listener e (stream j) h) (all_ ++ e ∷ [])
  unfolding to_listener
  Track-own e j h all_ q t = rw q (Track-to_stream e (lease_at k h.leases) h all_ refl t)

  -- A bucket without the listener of the lease leaves the channel alone.
  pub Track-quiet :
      (e : Event) (ls : List Listener) (h : Hub) (all_ : List Event)
      → count k ls ≡ 0
      → Track h all_
      → Track (to_listeners e ls h) all_
  unfolding to_listeners count
  Track-quiet e [] h all_ c t = t
  Track-quiet e (stream j ∷ ls) h all_ c t =
      Track-quiet e ls (to_listener e (stream j) h) all_ (omega (arith, c))
        (Track-other e (stream j) h all_ (ground arith) t)
  Track-quiet e (waiter j ∷ ls) h all_ c t =
      Track-quiet e ls (to_listener e (waiter j) h) all_ c (Track-other e (waiter j) h all_ refl t)
  Track-quiet e (subscriber j ∷ ls) h all_ c t =
      Track-quiet e ls (to_listener e (subscriber j) h) all_ c
        (Track-other e (subscriber j) h all_ refl t)

  -- A bucket with the listener once hands the event over once.
  pub Track-heard :
      (e : Event) (ls : List Listener) (h : Hub) (all_ : List Event)
      → count k ls ≡ 1
      → Track h all_
      → Track (to_listeners e ls h) (all_ ++ e ∷ [])
  unfolding to_listeners count
  Track-heard e [] h all_ c t = absurd (omega (arith, c))
  Track-heard e (stream j ∷ ls) h all_ c t = elim (Bool-cases (j == k)) [
    | inl own ↦
        Track-quiet e ls (to_listener e (stream j) h) _ (ground arith)
          (Track-own e j h all_ (ground (arith, ==_iff j k)) t)
    | inr other ↦
        Track-heard e ls (to_listener e (stream j) h) all_ (ground arith)
          (Track-other e (stream j) h all_ other t)
  ]
  Track-heard e (waiter j ∷ ls) h all_ c t =
      Track-heard e ls (to_listener e (waiter j) h) all_ c (Track-other e (waiter j) h all_ refl t)
  Track-heard e (subscriber j ∷ ls) h all_ c t =
      Track-heard e ls (to_listener e (subscriber j) h) all_ c
        (Track-other e (subscriber j) h all_ refl t)

-- ===== src/Web/Hub/Handover.antt =====
-- What the steps on leases do to the channel of one lease: a handover and its rounds hand over what
-- waits, in order; a claim, a registration or a release changes nothing in the channel of another.
use echocoding_harness.Common.{
  ℕ, ◌≡◌, refl, arith, ap, subst, ◌∙◌, sym, if-cases, Bool-cases, true, false, ◌==◌, ==_iff, Option,
  Option-cases, inl, inr, none, some, List, [], ◌∷◌, ◌++◌, append-nil, append_assoc, length, Text,
  is_some,
}
use echocoding_harness.Contracts.Event.{Event}
use echocoding_harness.Web.Hub.{
  Pipe, buffer, collecting, live, Lease, emits, released, Hub, lease_at, put_lease, sort, was_seen,
  is_current, start_handover, collect_pipe, take_next, round_in, round_of, register_handler,
  run_handler, close_lease, release_lease, release_current, release_when, release, close_stream,
  new_lease, claim_when,
}
use echocoding_harness.Web.Hub.Views.{
  emitted, emitted_quiet, lease_at-set_lease, lease_at-append, lease_at-length,
}
use echocoding_harness.Web.Hub.Channel.{
  Rising, Rising-append_right, sort-Rising, was_seen-Rising, Carries, sequences-append,
}
use echocoding_harness.Web.Hub.Delivery.{
  Tracked, Track, Untouched, Track-Untouched, Untouched-put_lease, Track-put_lease, Track-emit,
}

module _ (k : ℕ) (s : Text) where
  -- A step on another lease.
  pub Untouched-start_handover :
      (j : ℕ) (o : Option Lease) (h : Hub)
      → (j == k) ≡ false
      → Untouched k s h (start_handover j o h)
  Untouched-start_handover j none h n = (refl, refl)
  Untouched-start_handover j (some l) h n =
      if-cases (Untouched k s h) l.released _ _ (λ _. (refl, refl))
        (λ _. Untouched-put_lease k s j _ h n)

  Untouched-take_next :
      (j : ℕ) (l : Lease) (q : List Event) (seen : List ℕ) (h : Hub)
      → (j == k) ≡ false
      → Untouched k s h (take_next j l q seen h)
  Untouched-take_next j l [] seen h n = Untouched-put_lease k s j _ h n
  Untouched-take_next j l (e ∷ q) seen h n =
      if-cases (Untouched k s h) (was_seen e.sequence seen) _ _
        (λ _. Untouched-put_lease k s j _ h n)
        (λ _.
          let (a, _) =
            Untouched-put_lease k s j (record l { pipe = collecting q (seen ++ e.sequence ∷ []) }) h
              n in
          (a, emitted_quiet k (emits j e) h.calls (ground arith)))

  Untouched-round_in :
      (j : ℕ) (l : Lease) (p : Pipe) (h : Hub)
      → (j == k) ≡ false
      → Untouched k s h (round_in j l p h)
  Untouched-round_in j l (buffer events) h n = (refl, refl)
  Untouched-round_in j l (collecting q seen) h n = Untouched-take_next j l (sort q) seen h n
  Untouched-round_in j l live h n = (refl, refl)

  pub Untouched-round_of :
      (j : ℕ) (o : Option Lease) (h : Hub) → (j == k) ≡ false → Untouched k s h (round_of j o h)
  Untouched-round_of j none h n = (refl, refl)
  Untouched-round_of j (some l) h n = Untouched-round_in j l l.pipe h n

  pub Untouched-register :
      (j m : ℕ) (o : Option Lease) (h : Hub)
      → (j == k) ≡ false
      → Untouched k s h (register_handler j m o h)
  Untouched-register j m none h n = (refl, refl)
  Untouched-register j m (some l) h n = Untouched-put_lease k s j _ h n

  pub Untouched-run_handler : (o : Option ℕ) (h : Hub) → Untouched k s h (run_handler o h)
  Untouched-run_handler none h = (refl, refl)
  Untouched-run_handler (some m) h = (refl, emitted_quiet k (released m) h.calls refl)

  Track-run_handler :
      (o : Option ℕ) (h : Hub) (all_ : List Event)
      → Track k s h all_
      → Track k s (run_handler o h) all_
  Track-run_handler o h all_ =
      Track-Untouched k s h (run_handler o h) all_ (Untouched-run_handler o h)

  -- The lease itself: the loop of `handover` starts, takes the next event or ends.
  pub Track-start_handover :
      (o : Option Lease) (h : Hub) (all_ : List Event)
      → lease_at k h.leases ≡ o
      → Tracked k s o (emitted k h.calls) all_
      → Track k s (start_handover k o h) all_
  Track-start_handover (some l) h all_ q (es, f) =
      if-cases (λ h'. Track k s h' all_) l.released _ _ (λ r. rw q (es, f))
        (λ r. Track-put_lease k s l _ h all_ q es (λ _. collected l.pipe (f r)))
    where
      collected :
          (p : Pipe)
          → Carries p (emitted k h.calls) all_
          → Carries (collect_pipe p) (emitted k h.calls) all_
      collected (buffer events) (a, b) = rw (a, b) (refl, refl)
      collected (collecting queue seen) c = c
      collected live c = c
  Track-start_handover none h all_ q t = absurd t

  Track-take_next :
      (l : Lease) (queue : List Event) (seen : List ℕ) (h : Hub) (all_ : List Event)
      → lease_at k h.leases ≡ some l
      → l.session ≡ s
      → Rising all_
      → (l.released ≡ false → Carries (collecting queue seen) (emitted k h.calls) all_)
      → Track k s (take_next k l queue seen h) all_
  Track-take_next l [] seen h all_ q es r f =
      Track-put_lease k s l _ h all_ q es (λ o. let (_, b) = f o in sym (append-nil _) ∙ b)
  Track-take_next l (e ∷ queue) seen h all_ q es r f =
      if-cases (λ h'. Track k s h' all_) (was_seen e.sequence seen) _ _
        (λ old. Track-put_lease k s l _ h all_ q es (λ o. absurd (cc (old, fresh o))))
        (λ new.
          Track-emit k s e (put_lease k moved h) moved all_
            (ground (arith, lease_at-set_lease k k moved h.leases, ==_iff k k)) es
            (λ o.
              let (a, b) = f o in
              (
                ap (λ ns. ns ++ e.sequence ∷ []) a ∙ sym (sequences-append _ e),
                append_assoc _ (e ∷ []) queue ∙ b,
              )))
    where
      moved : Lease
      moved = record l { pipe = collecting queue (seen ++ e.sequence ∷ []) }

      fresh : l.released ≡ false → was_seen e.sequence seen ≡ false
      fresh o =
          let (a, b) = f o in
          rw a (was_seen-Rising (emitted k h.calls) e queue (subst Rising (sym b) r))

  Track-round_in :
      (l : Lease) (p : Pipe) (h : Hub) (all_ : List Event)
      → lease_at k h.leases ≡ some l
      → l.session ≡ s
      → Rising all_
      → (l.released ≡ false → Carries p (emitted k h.calls) all_)
      → (l.released ≡ false → Carries l.pipe (emitted k h.calls) all_)
      → Track k s (round_in k l p h) all_
  Track-round_in l (buffer events) h all_ q es r f g = rw q (es, g)
  Track-round_in l live h all_ q es r f g = rw q (es, g)
  Track-round_in l (collecting queue seen) h all_ q es r f g = elim (Bool-cases l.released) [
    | inl gone ↦ Track-take_next l (sort queue) seen h all_ q es r (λ o. absurd (cc (gone, o)))
    | inr open_ ↦
        let (a, b) = f open_ in
        let rest : Rising queue =
          Rising-append_right (emitted k h.calls) queue (subst Rising (sym b) r) in
        rw (sort-Rising queue rest) (Track-take_next l queue seen h all_ q es r f)
  ]

  pub Track-round_of :
      (o : Option Lease) (h : Hub) (all_ : List Event)
      → lease_at k h.leases ≡ o
      → Rising all_
      → Tracked k s o (emitted k h.calls) all_
      → Track k s (round_of k o h) all_
  Track-round_of (some l) h all_ q r (es, f) = Track-round_in l l.pipe h all_ q es r f f
  Track-round_of none h all_ q r t = absurd t

  pub Track-register :
      (m : ℕ) (o : Option Lease) (h : Hub) (all_ : List Event)
      → lease_at k h.leases ≡ o
      → Tracked k s o (emitted k h.calls) all_
      → Track k s (register_handler k m o h) all_
  Track-register m (some l) h all_ q (es, f) = Track-put_lease k s l _ h all_ q es f
  Track-register m none h all_ q t = absurd t

  -- A release of this lease or of another.
  Track-close_lease :
      (j : ℕ) (l : Lease) (h : Hub) (all_ : List Event)
      → lease_at j h.leases ≡ some l
      → Track k s h all_
      → Track k s (close_lease j l h) all_
  Track-close_lease j l h all_ q t = elim (Bool-cases (j == k)) [
    | inl same ↦
        let same' : j ≡ k = (==_iff j k).0 same in
        let q' : lease_at k h.leases ≡ some l = subst (λ i. lease_at i h.leases ≡ some l) same' q in
        let t' : Tracked k s (some l) (emitted k h.calls) all_ =
          subst (λ o. Tracked k s o (emitted k h.calls) all_) q' t in
        subst (λ i. Track k s (close_lease i l h) all_) (sym same')
          (Track-put_lease k s l (record l { released = true }) h all_ q' t'.0 (λ o. absurd (cc o)))
    | inr other ↦
        Track-Untouched k s h (close_lease j l h) all_ (Untouched-put_lease k s j _ h other) t
  ]

  pub Track-release_lease :
      (j : ℕ) (o : Option Lease) (h : Hub) (all_ : List Event)
      → lease_at j h.leases ≡ o
      → Track k s h all_
      → Track k s (release_lease j o h) all_
  Track-release_lease j none h all_ q t = t
  Track-release_lease j (some l) h all_ q t =
      if-cases (λ h'. Track k s h' all_) l.released _ _ (λ _. t)
        (λ _. Track-run_handler l.on_release _ all_ (Track-close_lease j l h all_ q t))

  pub Track-release_current :
      (o : Option ℕ) (h : Hub) (all_ : List Event)
      → Track k s h all_
      → Track k s (release_current o h) all_
  unfolding release
  Track-release_current none h all_ t = t
  Track-release_current (some j) h all_ t = Track-release_lease j _ h all_ refl t

  pub Track-release_when :
      (o : Option ℕ) (h : Hub) (all_ : List Event)
      → Track k s h all_
      → Track k s (release_when o h) all_
  unfolding close_stream
  Track-release_when none h all_ t = Track-release_current h.current h all_ t
  Track-release_when (some j) h all_ t =
      if-cases (λ h'. Track k s h' all_) (is_current j h.current) _ _
        (λ _. Track-release_current h.current h all_ t) (λ _. t)

  pub Track-claim :
      (session : Text) (o : Option ℕ) (h : Hub) (all_ : List Event)
      → Track k s h all_
      → Track k s (claim_when session o h) all_
  Track-claim session (some _) h all_ t = t
  Track-claim session none h all_ t = elim (Option-cases (lease_at k h.leases)) [
    | inl e ↦ absurd (subst (λ o. Tracked k s o (emitted k h.calls) all_) e t)
    | inr (l, e) ↦ Track-Untouched k s h (claim_when session none h) all_ (claimed l e, refl) t
  ]
    where
      claimed :
          (l : Lease)
          → lease_at k h.leases ≡ some l
          → lease_at k (h.leases ++ new_lease session ∷ []) ≡ lease_at k h.leases
      claimed l e = ground (
        arith,
        lease_at-append k h.leases (new_lease session),
        lease_at-length h.leases,
        ==_iff (length h.leases) k,
        ap (λ i. is_some (lease_at i h.leases)),
        e,
      )

  -- A step on lease `j`, by what it does to the lease and to the others.
  pub Track-on_lease :
      (j : ℕ) (f : ℕ → Option Lease → Hub → Hub) (h : Hub) (all_ : List Event)
      → (Track k s h all_ → Track k s (f k (lease_at k h.leases) h) all_)
      → ((j == k) ≡ false → Untouched k s h (f j (lease_at j h.leases) h))
      → Track k s h all_
      → Track k s (f j (lease_at j h.leases) h) all_
  Track-on_lease j f h all_ own other t = elim (Bool-cases (j == k)) [
    | inl same ↦
        subst (λ i. Track k s (f i (lease_at i h.leases) h) all_) (sym ((==_iff j k).0 same))
          (own t)
    | inr n ↦ Track-Untouched k s h (f j (lease_at j h.leases) h) all_ (other n) t
  ]

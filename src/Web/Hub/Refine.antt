-- ===== src/Web/Hub/Refine.antt =====
-- The refinement: whatever the interleaving of publications with the rounds of a handover, the client
-- of a lease is handed the events of its session in order, each once.
use echocoding_harness.Common.{
  ℕ, ◌≡◌, refl, arith, ap, subst, ◌∙◌, sym, if-cases, Bool-cases, Bool, true, false, ==_iff,
  Option-cases, inl, inr, none, some, List, [], ◌∷◌, ◌++◌, append-nil, append_assoc, length, Text,
  text_eq, text_eq_iff, is_some,
}
use echocoding_harness.Contracts.Event.{Event}
use echocoding_harness.Web.Hub.{
  Pipe, buffer, collecting, live, Lease, waiter, reject, Hub, to_listeners, bucket, lease_at,
  start_handover, round_of, register_handler, release, close_stream, release_stream, new_lease,
  claim_stream, publish, handover, handover_round, set_on_release, wait_for_turn_started,
  abort_wait, has_listener, create_session_event_hub, Step, hub_step, run_steps, publishing,
  subscribing, unsubscribing, waiting, aborting, claiming, handing_over, taking_next, registering,
  releasing, releasing_stream, closing,
}
use echocoding_harness.Web.Hub.Views.{
  count, emitted, emitted_quiet, lease_at-append, lease_at-length,
}
use echocoding_harness.Web.Hub.Single.{Single, Single-hub_step, run_steps-Single}
use echocoding_harness.Web.Hub.Alike.{expected}
use echocoding_harness.Web.Hub.Channel.{
  waiting_in, published_by, published, published-append, Rising, Rising-append_left, Carries,
}
use echocoding_harness.Web.Hub.Delivery.{
  Tracked, Track, Untouched, Track-Untouched, Track-quiet, Track-heard,
}
use echocoding_harness.Web.Hub.Handover.{
  Untouched-start_handover, Untouched-round_of, Untouched-register, Track-start_handover,
  Track-round_of, Track-register, Track-release_lease, Track-release_current, Track-release_when,
  Track-claim, Track-on_lease,
}

module _ (k : ℕ) (s : Text) where
  Track-released :
      (l : Lease) (h : Hub) (all_ more : List Event)
      → lease_at k h.leases ≡ some l
      → l.released ≡ true
      → Track k s h all_
      → Track k s h more
  Track-released l h all_ more q r t =
      let t' : Tracked k s (some l) (emitted k h.calls) all_ =
        subst (λ o. Tracked k s o (emitted k h.calls) all_) q t in
      rw q (t'.0, λ o. absurd (cc (o, r)))

  -- An event of the session reaches the channel, another does not.
  Track-publish :
      (e : Event) (h : Hub) (all_ : List Event)
      → Single h
      → Track k s h all_
      → Track k s (publish e h) (all_ ++ published_by s (publishing e) [])
  unfolding publish
  Track-publish e h all_ i t = elim (Option-cases (lease_at k h.leases)) [
    | inl q ↦ absurd (subst (λ o. Tracked k s o (emitted k h.calls) all_) q t)
    | inr (l, q) ↦
        let t' : Tracked k s (some l) (emitted k h.calls) all_ =
          subst (λ o. Tracked k s o (emitted k h.calls) all_) q t in
        let c : count k (bucket e.session_id h.listeners) ≡ expected (some l) e.session_id =
          i.listens k e.session_id ∙ ap (λ o. expected o e.session_id) q in
        elim (Bool-cases l.released) [
          | inl gone ↦
              Track-quiet k s e (bucket e.session_id h.listeners) h _ (ground (arith, c, gone))
                (Track-released l h all_ _ q gone t)
          | inr open_ ↦
              if-cases
                (λ es. Track k s (to_listeners e (bucket e.session_id h.listeners) h) (all_ ++ es))
                (text_eq e.session_id s) (e ∷ []) []
                (λ same.
                  Track-heard k s e (bucket e.session_id h.listeners) h all_
                    (ground (
                      arith,
                      c,
                      open_,
                      t'.0,
                      same,
                      text_eq_iff e.session_id s,
                      text_eq_iff l.session e.session_id,
                    ))
                    t)
                (λ other. rw (append-nil all_) (
                  Track-quiet k s e (bucket e.session_id h.listeners) h all_
                    (ground (
                      arith,
                      c,
                      open_,
                      t'.0,
                      other,
                      text_eq_iff e.session_id s,
                      text_eq_iff l.session e.session_id,
                    ))
                    t))
        ]
  ]

  Track-wait :
      (t : Text) (n : ℕ) (b : Bool) (h : Hub) → Untouched k s h (wait_for_turn_started t n b h)
  unfolding wait_for_turn_started
  Track-wait t n b h =
      if-cases (Untouched k s h) b _ _ (λ _. (refl, emitted_quiet k (reject n) h.calls refl))
        (λ _. (refl, refl))

  Track-abort : (t : Text) (n : ℕ) (h : Hub) → Untouched k s h (abort_wait t n h)
  unfolding abort_wait
  Track-abort t n h =
      if-cases (Untouched k s h) (has_listener (waiter n) (bucket t h.listeners)) _ _
        (λ _. (refl, emitted_quiet k (reject n) h.calls refl)) (λ _. (refl, refl))

  -- A step that publishes nothing.
  Track-step :
      (x : Step) (h : Hub) (all_ : List Event)
      → published_by s x [] ≡ []
      → Rising all_
      → Single h
      → Track k s h all_
      → Track k s (hub_step x h) all_
  unfolding hub_step handover handover_round set_on_release claim_stream release release_stream
      close_stream
  Track-step (publishing e) h all_ p r i t =
      subst (λ es. Track k s (publish e h) es) (ap (λ es. all_ ++ es) p ∙ append-nil all_)
        (Track-publish e h all_ i t)
  Track-step (subscribing _ n) h all_ _ r i t = t
  Track-step (unsubscribing _ n) h all_ _ r i t = t
  Track-step (waiting u n b) h all_ _ r i t =
      Track-Untouched k s h (wait_for_turn_started u n b h) all_ (Track-wait u n b h) t
  Track-step (aborting u n) h all_ _ r i t =
      Track-Untouched k s h (abort_wait u n h) all_ (Track-abort u n h) t
  Track-step (claiming u) h all_ _ r i t = Track-claim k s u h.current h all_ t
  Track-step (handing_over j) h all_ _ r i t =
      Track-on_lease k s j start_handover h all_
        (Track-start_handover k s (lease_at k h.leases) h all_ refl)
        (Untouched-start_handover k s j (lease_at j h.leases) h) t
  Track-step (taking_next j) h all_ _ r i t =
      Track-on_lease k s j round_of h all_ (Track-round_of k s (lease_at k h.leases) h all_ refl r)
        (Untouched-round_of k s j (lease_at j h.leases) h) t
  Track-step (registering j m) h all_ _ r i t =
      Track-on_lease k s j (λ i. register_handler i m) h all_
        (Track-register k s m (lease_at k h.leases) h all_ refl)
        (Untouched-register k s j m (lease_at j h.leases) h) t
  Track-step (releasing j) h all_ _ r i t =
      Track-release_lease k s j (lease_at j h.leases) h all_ refl t
  Track-step (releasing_stream o) h all_ _ r i t = Track-release_when k s o h all_ t
  Track-step closing h all_ _ r i t = Track-release_current k s h.current h all_ t

  Track-hub_step :
      (x : Step) (h : Hub) (all_ : List Event)
      → Rising all_
      → Single h
      → Track k s h all_
      → Track k s (hub_step x h) (all_ ++ published_by s x [])
  unfolding hub_step
  Track-hub_step (publishing e) h all_ r i t = Track-publish e h all_ i t
  Track-hub_step (subscribing u n) h all_ r i t =
      rw (append-nil all_) (Track-step (subscribing u n) h all_ refl r i t)
  Track-hub_step x h all_ r i t = rw (append-nil all_) (Track-step x h all_ refl r i t)

  Track-run_steps :
      (xs : List Step) (h : Hub) (all_ : List Event)
      → Rising (all_ ++ published s xs)
      → Single h
      → Track k s h all_
      → Track k s (run_steps xs h) (all_ ++ published s xs)
  unfolding run_steps published
  Track-run_steps [] h all_ r i t = subst (λ es. Track k s h es) (sym (append-nil all_)) t
  Track-run_steps (x ∷ xs) h all_ r i t =
      let e : all_ ++ published s (x ∷ xs) ≡ (all_ ++ published_by s x []) ++ published s xs =
        ap (λ es. all_ ++ es) (sym (published-append s x xs)) ∙ sym (append_assoc all_ _ _) in
      subst (λ es. Track k s (run_steps xs (hub_step x h)) es) (sym e)
        (Track-run_steps xs (hub_step x h) (all_ ++ published_by s x []) (subst Rising e r)
          (Single-hub_step x h i)
          (Track-hub_step x h all_ (Rising-append_left all_ (published s (x ∷ xs)) r) i t))

-- The lease that a claim makes carries the empty channel.
Track-claimed :
    (s : Text) (h : Hub)
    → Single h
    → h.current ≡ none
    → Track (length h.leases) s (hub_step (claiming s) h) []
unfolding hub_step claim_stream
Track-claimed s h i e = rw (e, made) (refl, λ _. (none_emitted, refl))
  where
    made : lease_at (length h.leases) (h.leases ++ new_lease s ∷ []) ≡ some (new_lease s)
    made = ground (
      arith,
      lease_at-append (length h.leases) h.leases (new_lease s),
      ==_iff (length h.leases) (length h.leases),
    )

    none_emitted : emitted (length h.leases) h.calls ≡ []
    none_emitted = i.unborn (length h.leases) (ap is_some (lease_at-length h.leases))

waiting_in-Carries :
    (p : Pipe) (sent all_ : List Event) → Carries p sent all_ → sent ++ waiting_in p ≡ all_
waiting_in-Carries (buffer events) sent all_ (a, b) = rw (a, b) refl
waiting_in-Carries (collecting queue seen) sent all_ (a, b) = b
waiting_in-Carries live sent all_ a = append-nil sent ∙ a

-- A new hub after some steps, the number of the next lease, and the hub once a session is claimed and
-- further steps are run.
abbrev pub started : List Step → Hub
started before = run_steps before create_session_event_hub

abbrev pub next_lease : List Step → ℕ
next_lease before = length (started before).leases

abbrev pub claimed : List Step → Text → List Step → Hub
claimed before s after = run_steps after (hub_step (claiming s) (started before))

-- After any steps on a new hub, let no stream be current, a session be claimed and any steps follow,
-- whose events of that session have rising numbers. As long as the lease is not released, what its
-- client was handed, followed by what waits in the pipe, is the events published to the session since
-- the claim, in order; once the handover has ended, the client was handed all of them.
pub claim_stream-delivers :
    (before after : List Step) (s : Text)
    → (started before).current ≡ none
    → Rising (published s after)
    → (l : Lease) → lease_at (next_lease before) (claimed before s after).leases ≡ some l
    → l.released ≡ false
    → (emitted (next_lease before) (claimed before s after).calls ++ waiting_in l.pipe
        ≡ published s after)
      × (l.pipe ≡ live
          → emitted (next_lease before) (claimed before s after).calls ≡ published s after)
claim_stream-delivers before after s e r l q o =
    (whole, λ p. sym (append-nil _) ∙ ap (λ w. sent ++ waiting_in w) (sym p) ∙ whole)
  where
    sent : List Event
    sent = emitted (next_lease before) (claimed before s after).calls

    track : Track (next_lease before) s (claimed before s after) (published s after)
    track =
        Track-run_steps (next_lease before) s after (hub_step (claiming s) (started before)) [] r
          (Single-hub_step (claiming s) (started before) (run_steps-Single before))
          (Track-claimed s (started before) (run_steps-Single before) e)

    whole : sent ++ waiting_in l.pipe ≡ published s after
    whole =
        waiting_in-Carries l.pipe sent _
          ((subst (λ x. Tracked (next_lease before) s x sent (published s after)) q track).1 o)

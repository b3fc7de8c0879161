-- ===== src/Application/Coordinator/Links.antt =====
-- What ties the turns that run to the state of the coordinator
-- (application/active-turn-coordinator.ts), and how it survives its changes.
use echocoding_harness.Common.{
  ℕ, ◌≡◌, refl, sym, arith, true, false, ◌==◌, if-cases, Option, none, some, List, [], ◌∷◌, Text,
  text_eq,
}
use echocoding_harness.Application.Coordinator.{
  ActiveTurn, Phase, idle, starting, cancelling, stopping, deleting, Running, Coordinator,
  is_settled, without, cleared,
}

-- The running turn, if there is one, is the only one, and the active one.
abbrev pub Linked : Option ActiveTurn → List Running → Type 0
Linked o [] = Unit
Linked none (_ ∷ _) = ⊥
Linked (some a) (r ∷ []) = (a.promise ≡ r.promise) × (a.session ≡ r.session)
Linked (some a) (_ ∷ _ ∷ _) = ⊥

-- What is active is the turn that the deletion found.
abbrev pub Same : ActiveTurn → Option ActiveTurn → Type 0
Same a none = Unit
Same a (some b) = b.promise ≡ a.promise

-- No turn of the session runs.
abbrev pub Quiet : Text → List Running → Type 0
Quiet session [] = Unit
Quiet session (r ∷ rs) = (text_eq r.session session ≡ false) × Quiet session rs

-- Only the promise of the turn that is being started runs.
abbrev pub Fresh : Text → ℕ → List Running → Type 0
Fresh session p [] = Unit
Fresh session p (r ∷ []) = (r.promise ≡ p) × (r.session ≡ session)
Fresh session p (_ ∷ _ ∷ _) = ⊥

-- The invariant, by the phase.
abbrev pub InvOf : Phase → Option ActiveTurn → List Running → Type 0
InvOf idle o rs = Linked o rs
InvOf (starting session p) o rs = (o ≡ none) × Fresh session p rs
InvOf (cancelling session a) o rs = Same a o × Linked o rs
InvOf (stopping session a) o rs = Same a o × Linked o rs
InvOf (deleting session stopped) o rs = Linked o rs × Quiet session rs

abbrev pub Inv : Coordinator → Type 0
Inv c = InvOf c.phase c.active c.running

pub Linked-without :
    (p : ℕ) (o : Option ActiveTurn) (rs : List Running) → Linked o rs → Linked o (without p rs)
Linked-without p o [] h = tt
Linked-without p none (r ∷ rs) h = absurd h
Linked-without p (some a) (r ∷ []) h =
    if-cases (Linked (some a)) (r.promise == p) [] (r ∷ []) (λ _. tt) (λ _. h)
Linked-without p (some a) (_ ∷ _ ∷ _) h = absurd h

pub Fresh-without :
    (session : Text) (p q : ℕ) (rs : List Running)
    → Fresh session p rs
    → Fresh session p (without q rs)
Fresh-without session p q [] h = tt
Fresh-without session p q (r ∷ []) h =
    if-cases (Fresh session p) (r.promise == q) [] (r ∷ []) (λ _. tt) (λ _. h)
Fresh-without session p q (_ ∷ _ ∷ _) h = absurd h

pub Quiet-without :
    (session : Text) (p : ℕ) (rs : List Running) → Quiet session rs → Quiet session (without p rs)
Quiet-without session p [] h = tt
Quiet-without session p (r ∷ rs) (q, h) =
    if-cases (Quiet session) (r.promise == p) (without p rs) (r ∷ without p rs)
      (λ _. Quiet-without session p rs h) (λ _. (q, Quiet-without session p rs h))

-- A settled promise is not that of a running turn, so that the link outlives its release.
pub Linked-cleared :
    (p : ℕ) (o : Option ActiveTurn) (rs : List Running)
    → is_settled p rs ≡ true
    → Linked o rs
    → Linked (cleared p o) rs
Linked-cleared p none rs s h = h
Linked-cleared p (some a) [] s h = tt
Linked-cleared p (some a) (r ∷ []) s h =
    if-cases (λ o. Linked o (r ∷ [])) (a.promise == p) none (some a)
      (λ same. absurd (clash same (h.0))) (λ _. h)
  where
    clash : (a.promise == p) ≡ true → a.promise ≡ r.promise → ⊥
    clash same link = ground (arith, same, link, s)
Linked-cleared p (some a) (_ ∷ _ ∷ _) s h = absurd h

pub Same-cleared :
    (p : ℕ) (a : ActiveTurn) (o : Option ActiveTurn) → Same a o → Same a (cleared p o)
Same-cleared p a none h = tt
Same-cleared p a (some b) h = if-cases (Same a) (b.promise == p) none (some b) (λ _. tt) (λ _. h)

-- A promise of the turn that a deletion stopped is settled, so that no turn of the session runs.
pub Quiet-stopped :
    (session : Text) (a : ActiveTurn) (o : Option ActiveTurn) (rs : List Running)
    → is_settled a.promise rs ≡ true
    → Same a o
    → Linked o rs
    → Quiet session rs
Quiet-stopped session a o [] s h l = tt
Quiet-stopped session a none (_ ∷ _) s h l = absurd l
Quiet-stopped session a (some b) (r ∷ []) s h l = absurd (clash h l.0)
  where
    clash : b.promise ≡ a.promise → b.promise ≡ r.promise → ⊥
    clash same link = ground (arith, same, link, s)
Quiet-stopped session a (some b) (_ ∷ _ ∷ _) s h l = absurd l

pub Quiet-other :
    (session : Text) (a : ActiveTurn) (rs : List Running)
    → text_eq a.session session ≡ false
    → Linked (some a) rs
    → Quiet session rs
Quiet-other session a [] h l = tt
Quiet-other session a (r ∷ []) h l = (rw l.1 at h, tt)
Quiet-other session a (_ ∷ _ ∷ _) h l = absurd l

pub Linked-none : (o : Option ActiveTurn) (rs : List Running) → o ≡ none → Linked o rs → rs ≡ []
Linked-none o [] e h = refl
Linked-none none (_ ∷ _) e h = absurd h
Linked-none (some a) (_ ∷ _) e h = absurd (cc e)

-- A settled start leaves nothing running.
pub Fresh-settled :
    (session : Text) (p : ℕ) (rs : List Running)
    → is_settled p rs ≡ true
    → Fresh session p rs
    → Linked none rs
Fresh-settled session p [] s h = tt
Fresh-settled session p (r ∷ []) s h = absurd (clash h.0)
  where
    clash : r.promise ≡ p → ⊥
    clash same = ground (arith, same, s)
Fresh-settled session p (_ ∷ _ ∷ _) s h = absurd h

pub Fresh-Linked :
    (session turn : Text) (p : ℕ) (rs : List Running)
    → Fresh session p rs
    → Linked (some (record { session = session; turn = turn; promise = p })) rs
Fresh-Linked session turn p [] h = tt
Fresh-Linked session turn p (r ∷ []) h = (sym h.0, sym h.1)
Fresh-Linked session turn p (_ ∷ _ ∷ _) h = absurd h

pub Quiet-none : (session : Text) (rs : List Running) → Linked none rs → Quiet session rs
Quiet-none session [] h = tt
Quiet-none session (_ ∷ _) h = absurd h

pub Fresh-begin :
    (session : Text) (n : ℕ) (rs : List Running)
    → Linked none rs
    → Fresh session n (record { session = session; promise = n } ∷ rs)
Fresh-begin session n [] h = (refl, refl)
Fresh-begin session n (_ ∷ _) h = absurd h

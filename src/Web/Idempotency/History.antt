-- ===== src/Web/Idempotency/History.antt =====
-- Histories of the store of web/idempotency.ts: every sequence of `begin` and `commit`.
use echocoding_harness.Common.{
  subst, sym, if-cases, ◌⊎◌, inl, inr, ℕ, ◌+◌, ◌≤◌, ◌≡◌, refl, arith, true, false, Option, none,
  some, is_some, List, [], ◌∷◌, ◌++◌, if◌then◌else◌, Text, text_eq, text_eq_iff, text_eq_refl,
  lookup, lookup-insert,
}
use echocoding_harness.Web.Idempotency.{
  Request, Record, pending, completed, Begin, execute, replay, conflict, Store, begin, begin_on,
  commit, commit_on, idempotency_key,
}

pub data Op (T : Type 0) : Type 0 where
  begins : Request → (fingerprint : Text) → Op T
  commits : (key : Text) → (response : T) → Op T

module _ {T : Type 0} (upper : Text → Text) where
  abbrev pub after : Op T → Store T → Store T
  after (begins r fp) s = (begin upper r fp s).1
  after (commits key response) s = commit key response s

  unfoldable pub run_all : List (Op T) → Store T → Store T
  run_all [] s = s
  run_all (op ∷ ops) s = run_all ops (after op s)

  abbrev is_execute : Text → Begin T → ℕ
  is_execute key (execute k _ _) = if text_eq k key then 1 else 0
  is_execute key _ = 0

  abbrev executes : Text → Op T → Store T → ℕ
  executes key (begins r fp) s = is_execute key (begin upper r fp s).0
  executes key (commits _ _) s = 0

  -- How often a history tells a caller to execute under the key.
  unfoldable pub executions : Text → List (Op T) → Store T → ℕ
  executions key [] s = 0
  executions key (op ∷ ops) s = executes key op s + executions key ops (after op s)

  -- A key that has a record keeps one, and is not executed again.
  abbrev Known : Text → Begin T × Store T → Type 0
  Known key r = (is_execute key r.0 ≡ 0) × (is_some (lookup key r.1.records) ≡ true)

  begin_on-Known :
      (key k id fp : Text) (o : Option (Record T)) (s : Store T)
      → lookup k s.records ≡ o
      → is_some (lookup key s.records) ≡ true
      → Known key (begin_on k id fp o s)
  begin_on-Known key k id fp none s e h =
      ground (arith, e, h, text_eq_iff k key, lookup-insert k key (pending fp []) s.records)
  begin_on-Known key k id fp (some (completed f r)) s e h =
      if-cases {A = Begin T × Store T} (Known key) (text_eq f fp) _ _ (λ _. (refl, h))
        (λ _. (refl, h))
  begin_on-Known key k id fp (some (pending f ws)) s e h =
      if-cases {A = Begin T × Store T} (Known key) (text_eq f fp) _ _
        (λ _. (
          refl,
          ground (arith, h, lookup-insert k key (pending f (ws ++ s.next_waiter ∷ [])) s.records),
        ))
        (λ _. (refl, h))

  commit_on-known :
      (key k : Text) (response : T) (o : Option (Record T)) (s : Store T)
      → is_some (lookup key s.records) ≡ true
      → is_some (lookup key (commit_on k response o s).records) ≡ true
  commit_on-known key k response none s h = h
  commit_on-known key k response (some (completed f r)) s h = h
  commit_on-known key k response (some (pending f ws)) s h =
      ground (arith, h, lookup-insert k key (completed f response) s.records)

  step-known :
      (key : Text) (op : Op T) (s : Store T)
      → is_some (lookup key s.records) ≡ true
      → (executes key op s ≡ 0) × (is_some (lookup key (after op s).records) ≡ true)
  unfolding begin commit
  step-known key (begins r fp) s h =
      begin_on-Known key (idempotency_key upper r) r.request_id fp _ s refl h
  step-known key (commits k response) s h = (refl, commit_on-known key k response _ s h)

  executions-known :
      (key : Text) (ops : List (Op T)) (s : Store T)
      → is_some (lookup key s.records) ≡ true
      → executions key ops s ≡ 0
  unfolding executions
  executions-known key [] s h = refl
  executions-known key (op ∷ ops) s h =
      let (now, kept) = step-known key op s h in
      omega (arith, now, executions-known key ops (after op s) kept)

  -- What a begin makes of a key: it executes it, and then the key has a record, or it does not.
  abbrev Once : Text → Begin T × Store T → Type 0
  Once key r =
      (is_execute key r.0 ≡ 0)
      ⊎ ((is_execute key r.0 ≡ 1) × (is_some (lookup key r.1.records) ≡ true))

  begin_on-Once :
      (key k id fp : Text) (o : Option (Record T)) (s : Store T) → Once key (begin_on k id fp o s)
  begin_on-Once key k id fp none s =
      ground (arith, text_eq_iff k key, lookup-insert k key (pending fp []) s.records)
  begin_on-Once key k id fp (some (completed f r)) s =
      if-cases {A = Begin T × Store T} (Once key) (text_eq f fp) _ _ (λ _. inl refl) (λ _. inl refl)
  begin_on-Once key k id fp (some (pending f ws)) s =
      if-cases {A = Begin T × Store T} (Once key) (text_eq f fp) _ _ (λ _. inl refl) (λ _. inl refl)

  step-once :
      (key : Text) (op : Op T) (s : Store T)
      → (executes key op s ≡ 0)
        ⊎ ((executes key op s ≡ 1) × (is_some (lookup key (after op s).records) ≡ true))
  unfolding begin
  step-once key (begins r fp) s = begin_on-Once key (idempotency_key upper r) r.request_id fp _ s
  step-once key (commits k response) s = inl refl

  -- In every history of a store, at most one caller is told to execute under a key.
  pub executions-at_most_one :
      (key : Text) (ops : List (Op T)) (s : Store T) → executions key ops s ≤ 1
  unfolding executions
  executions-at_most_one key [] s = omega arith
  executions-at_most_one key (op ∷ ops) s = elim (step-once key op s) [
    | inl none_now ↦ omega (arith, none_now, executions-at_most_one key ops (after op s))
    | inr (now, known) ↦ omega (arith, now, executions-known key ops (after op s) known)
  ]

  -- A completed record stays.
  begin_on-completed :
      (key k id fp f : Text) (response : T) (o : Option (Record T)) (s : Store T)
      → lookup k s.records ≡ o
      → lookup key s.records ≡ some (completed f response)
      → lookup key (begin_on k id fp o s).1.records ≡ some (completed f response)
  begin_on-completed key k id fp f response none s e h =
      ground (arith, e, h, text_eq_iff k key, lookup-insert k key (pending fp []) s.records)
  begin_on-completed key k id fp f response (some (completed f' r)) s e h =
      if-cases {A = Begin T × Store T} (λ r. lookup key r.1.records ≡ some (completed f response))
        (text_eq f' fp) _ _ (λ _. h) (λ _. h)
  begin_on-completed key k id fp f response (some (pending f' ws)) s e h =
      if-cases {A = Begin T × Store T} (λ r. lookup key r.1.records ≡ some (completed f response))
        (text_eq f' fp) _ _
        (λ _. ground (
          arith,
          e,
          h,
          text_eq_iff k key,
          lookup-insert k key (pending f' (ws ++ s.next_waiter ∷ [])) s.records,
        ))
        (λ _. h)

  commit_on-completed :
      (key k f : Text) (response r : T) (o : Option (Record T)) (s : Store T)
      → lookup k s.records ≡ o
      → lookup key s.records ≡ some (completed f response)
      → lookup key (commit_on k r o s).records ≡ some (completed f response)
  commit_on-completed key k f response r none s e h = h
  commit_on-completed key k f response r (some (completed _ _)) s e h = h
  commit_on-completed key k f response r (some (pending f' ws)) s e h =
      ground (arith, e, h, text_eq_iff k key, lookup-insert k key (completed f' r) s.records)

  run_all-completed :
      (key f : Text) (response : T) (ops : List (Op T)) (s : Store T)
      → lookup key s.records ≡ some (completed f response)
      → lookup key (run_all ops s).records ≡ some (completed f response)
  unfolding run_all begin commit
  run_all-completed key f response [] s h = h
  run_all-completed key f response (begins r fp ∷ ops) s h =
      run_all-completed key f response ops _
        (begin_on-completed key (idempotency_key upper r) r.request_id fp f response _ s refl h)
  run_all-completed key f response (commits k r ∷ ops) s h =
      run_all-completed key f response ops _ (commit_on-completed key k f response r _ s refl h)

  abbrev Replays : Text → Text → T → Text → Begin T × Store T → Type 0
  Replays f fp response key r =
      (text_eq f fp ≡ true → r.0 ≡ replay response) × (text_eq f fp ≡ false → r.0 ≡ conflict)

  begin_on-Replays :
      (key id f fp : Text) (response : T) (o : Option (Record T)) (s : Store T)
      → o ≡ some (completed f response)
      → Replays f fp response key (begin_on key id fp o s)
  begin_on-Replays key id f fp response o s e =
      subst (λ o. Replays f fp response key (begin_on key id fp o s)) (sym e)
        (if-cases {A = Begin T × Store T} (Replays f fp response key) (text_eq f fp) _ _
          (λ same. (λ _. refl, λ (other : text_eq f fp ≡ false). absurd (cc (same, other))))
          (λ other. (λ (same : text_eq f fp ≡ true). absurd (cc (same, other)), λ _. refl)))

  commit-completed :
      (key f : Text) (ws : List ℕ) (response : T) (s : Store T)
      → lookup key s.records ≡ some (pending f ws)
      → lookup key (commit key response s).records ≡ some (completed f response)
  unfolding commit
  commit-completed key f ws response s e =
      subst (λ o. lookup key (commit_on key response o s).records ≡ some (completed f response))
        (sym e)
        (ground (arith, text_eq_refl key, lookup-insert key key (completed f response) s.records))

  -- Once a response is committed for a pending key, then whatever begins and commits come after, a
  -- begin under the key gets that response if its fingerprint is the first one's, and else a conflict.
  pub begin-commit :
      (r : Request) (f fp : Text) (ws : List ℕ) (response : T) (ops : List (Op T)) (s : Store T)
      → lookup (idempotency_key upper r) s.records ≡ some (pending f ws)
      → (text_eq f fp ≡ true
          → (begin upper r fp (run_all ops (commit (idempotency_key upper r) response s))).0
            ≡ replay response)
        × (text_eq f fp ≡ false
            → (begin upper r fp (run_all ops (commit (idempotency_key upper r) response s))).0
              ≡ conflict)
  unfolding begin
  begin-commit r f fp ws response ops s e =
      begin_on-Replays (idempotency_key upper r) r.request_id f fp response _ _ (
        run_all-completed (idempotency_key upper r) f response ops _
          (commit-completed (idempotency_key upper r) f ws response s e))

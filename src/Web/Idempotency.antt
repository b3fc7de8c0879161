-- ===== src/Web/Idempotency.antt =====
-- web/idempotency.ts: `createIdempotencyStore` and the keys of its records. `toUpperCase` is a
-- parameter. A waiter is the number of the promise that it resolves; what a commit resolves is kept
-- in the order in which it happens.
pub mod History
use echocoding_harness.Common.{
  ℕ, ◌+◌, ◌==◌, Option, none, some, List, [], ◌∷◌, ◌++◌, if◌then◌else◌, Text, text_eq, lookup,
  insert,
}

pub record Request : Type 0 where
  pub method : Text
  pub route : Text
  pub request_id : Text

-- `route.replace(/\/+$/u, '')`: the slashes at the end go.
abbrev keep_slash : ℕ → Text → Text
keep_slash c [] = if c == 47 then [] else c ∷ []
keep_slash c (d ∷ t) = c ∷ d ∷ t

unfoldable pub trim_slashes : Text → Text
trim_slashes [] = []
trim_slashes (c ∷ t) = keep_slash c (trim_slashes t)

abbrev or_root : Text → Text
or_root [] = 47 ∷ []
or_root (c ∷ t) = c ∷ t

unfoldable pub normalize_idempotency_route : Text → Text
normalize_idempotency_route route = or_root (trim_slashes route)

pub data Record (T : Type 0) : Type 0 where
  pending : (fingerprint : Text) → (waiters : List ℕ) → Record T
  completed : (fingerprint : Text) → (response : T) → Record T

pub data Begin (T : Type 0) : Type 0 where
  execute : (key request_id fingerprint : Text) → Begin T
  replay : (response : T) → Begin T
  inflight : (waiter : ℕ) → Begin T
  conflict : Begin T

pub record Store (T : Type 0) : Type 0 where
  pub records : List (Text × Record T)
  pub next_waiter : ℕ
  pub resolved : List (ℕ × T)

module _ {T : Type 0} where
  abbrev pub empty : Store T
  empty = record { records = []; next_waiter = 0; resolved = [] }

  abbrev pub put : Text → Record T → Store T → Store T
  put key r s = record s { records = insert key r s.records }

  abbrev pub wait : Text → Text → List ℕ → Store T → Begin T × Store T
  wait key fingerprint waiters s = (
    inflight s.next_waiter,
    record s {
      records = insert key (pending fingerprint (waiters ++ s.next_waiter ∷ [])) s.records;
      next_waiter = s.next_waiter + 1;
    },
  )

  -- The record that the key has.
  abbrev pub begin_on : Text → Text → Text → Option (Record T) → Store T → Begin T × Store T
  begin_on key id fingerprint none s =
      (execute key id fingerprint, put key (pending fingerprint []) s)
  begin_on key id fingerprint (some (completed fp response)) s =
      if text_eq fp fingerprint then (replay response, s) else (conflict, s)
  begin_on key id fingerprint (some (pending fp waiters)) s =
      if text_eq fp fingerprint then wait key fp waiters s else (conflict, s)

  -- `settleWaiters`
  abbrev pub settle_waiters : List ℕ → T → List (ℕ × T)
  settle_waiters [] response = []
  settle_waiters (w ∷ ws) response = (w, response) ∷ settle_waiters ws response

  abbrev pub commit_on : Text → T → Option (Record T) → Store T → Store T
  commit_on key response (some (pending fp waiters)) s = record s {
    records = insert key (completed fp response) s.records;
    resolved = s.resolved ++ settle_waiters waiters response;
  }
  commit_on key response _ s = s

  -- The `commit` of an execution that `begin` handed out under the key.
  unfoldable pub commit : Text → T → Store T → Store T
  commit key response s = commit_on key response (lookup key s.records) s

module _ (to_upper_case : Text → Text) where
  unfoldable pub idempotency_key : Request → Text
  idempotency_key r =
      to_upper_case r.method ++ 32 ∷ normalize_idempotency_route r.route ++ 32 ∷ r.request_id

  unfoldable pub begin : {T : Type 0} → Request → Text → Store T → Begin T × Store T
  unfolding idempotency_key
  begin r fingerprint s =
      begin_on (idempotency_key r) r.request_id fingerprint (lookup (idempotency_key r) s.records) s

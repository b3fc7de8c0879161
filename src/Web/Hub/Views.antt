-- ===== src/Web/Hub/Views.antt =====
-- What the operations do to the buckets of the listeners and to the leases, each as an equation.
use echocoding_harness.Common.{
  ℕ, ◌∙◌, append-nil, ap, zero, suc, ◌+◌, ◌≡◌, refl, arith, Bool, false, ◌==◌, ==_iff, Option,
  Option-cases, inl, inr, none, some, List, [], ◌∷◌, ◌++◌, length, if◌then◌else◌, Text, text_eq,
  text_eq_iff, lookup, lookup-insert, lookup-remove,
}
use echocoding_harness.Contracts.Event.{Event}
use echocoding_harness.Web.Hub.{
  Call, emits, deliver, resolve, reject, released, Lease, Listener, stream, waiter, subscriber,
  listener_eq, Listeners, has_listener, add_listener, delete_listener, or_empty, bucket, subscribe,
  set_bucket, unsubscribe, lease_at, set_lease,
}

-- How often the listener of a stream stands in a bucket.
unfoldable pub count : ℕ → List Listener → ℕ
count k [] = 0
count k (stream j ∷ ls) = (if j == k then 1 else 0) + count k ls
count k (waiter _ ∷ ls) = count k ls
count k (subscriber _ ∷ ls) = count k ls

abbrev pub of_stream : ℕ → Listener → Bool
of_stream k (stream j) = j == k
of_stream k _ = false

pub count-append :
    (k : ℕ) (ls : List Listener) (l : Listener)
    → count k (ls ++ l ∷ []) ≡ count k ls + count k (l ∷ [])
unfolding count
count-append k [] l = omega arith
count-append k (stream j ∷ ls) l = omega (arith, count-append k ls l)
count-append k (waiter j ∷ ls) l = omega (arith, count-append k ls l)
count-append k (subscriber j ∷ ls) l = omega (arith, count-append k ls l)

pub count_none : (k : ℕ) (ls : List Listener) → count k ls ≡ 0 → has_listener (stream k) ls ≡ false
unfolding count has_listener listener_eq
count_none k [] e = refl
count_none k (stream j ∷ ls) e = ground (arith, count_none k ls)
count_none k (waiter j ∷ ls) e = count_none k ls e
count_none k (subscriber j ∷ ls) e = count_none k ls e

pub count-add_listener :
    (k : ℕ) (l : Listener) (ls : List Listener)
    → count k ls ≡ 0
    → count k (add_listener l ls) ≡ (if of_stream k l then 1 else 0)
unfolding count add_listener
count-add_listener k (stream j) ls e =
    ground (arith, count-append k ls (stream j), count_none k ls e, ==_iff j k)
count-add_listener k (waiter j) ls e = ground (arith, count-append k ls (waiter j))
count-add_listener k (subscriber j) ls e = ground (arith, count-append k ls (subscriber j))

-- Another listener is added.
pub count-add_other :
    (k : ℕ) (l : Listener) (ls : List Listener)
    → of_stream k l ≡ false
    → count k (add_listener l ls) ≡ count k ls
unfolding count add_listener
count-add_other k (stream j) ls e = ground (arith, count-append k ls (stream j))
count-add_other k (waiter j) ls e = ground (arith, count-append k ls (waiter j))
count-add_other k (subscriber j) ls e = ground (arith, count-append k ls (subscriber j))

pub count-delete_listener :
    (k : ℕ) (l : Listener) (ls : List Listener)
    → count k (delete_listener l ls) ≡ (if of_stream k l then 0 else count k ls)
unfolding count delete_listener listener_eq
count-delete_listener k l [] = ground arith
count-delete_listener k (stream i) (stream j ∷ ls) =
    ground (arith, count-delete_listener k (stream i) ls)
count-delete_listener k (stream i) (waiter j ∷ ls) = count-delete_listener k (stream i) ls
count-delete_listener k (stream i) (subscriber j ∷ ls) = count-delete_listener k (stream i) ls
count-delete_listener k (waiter i) (stream j ∷ ls) =
    omega (arith, count-delete_listener k (waiter i) ls)
count-delete_listener k (waiter i) (waiter j ∷ ls) =
    ground (arith, count-delete_listener k (waiter i) ls)
count-delete_listener k (waiter i) (subscriber j ∷ ls) = count-delete_listener k (waiter i) ls
count-delete_listener k (subscriber i) (stream j ∷ ls) =
    omega (arith, count-delete_listener k (subscriber i) ls)
count-delete_listener k (subscriber i) (waiter j ∷ ls) = count-delete_listener k (subscriber i) ls
count-delete_listener k (subscriber i) (subscriber j ∷ ls) =
    ground (arith, count-delete_listener k (subscriber i) ls)

pub bucket-subscribe :
    (t session : Text) (l : Listener) (m : Listeners)
    → bucket t (subscribe session l m)
      ≡ (if text_eq session t then add_listener l (bucket t m) else bucket t m)
unfolding bucket subscribe
bucket-subscribe t session l m = ground (
  arith,
  lookup-insert session t (add_listener l (or_empty (lookup session m))) m,
  text_eq_iff session t,
)

bucket-set_bucket :
    (t session : Text) (ls : List Listener) (m : Listeners)
    → bucket t (set_bucket session ls m) ≡ (if text_eq session t then ls else bucket t m)
unfolding bucket
bucket-set_bucket t session [] m = ground (arith, lookup-remove session t m)
bucket-set_bucket t session (x ∷ ls) m = ground (arith, lookup-insert session t (x ∷ ls) m)

bucket_missing :
    (t : Text) (l : Listener) (m : Listeners)
    → lookup t m ≡ none
    → delete_listener l (bucket t m) ≡ bucket t m
unfolding bucket delete_listener
bucket_missing t l m e = rw e refl

bucket_found :
    (t : Text) (ls : List Listener) (m : Listeners) → lookup t m ≡ some ls → bucket t m ≡ ls
unfolding bucket
bucket_found t ls m e = rw e refl

pub bucket-unsubscribe :
    (t session : Text) (l : Listener) (m : Listeners)
    → bucket t (unsubscribe session l m)
      ≡ (if text_eq session t then delete_listener l (bucket t m) else bucket t m)
unfolding unsubscribe
bucket-unsubscribe t session l m = elim (Option-cases (lookup session m)) [
  | inl e ↦ rw e (ground (arith, text_eq_iff session t, bucket_missing t l m))
  | inr (ls, e) ↦ rw e (
      ground (
        arith,
        bucket-set_bucket t session (delete_listener l ls) m,
        text_eq_iff session t,
        bucket_found t ls m,
      ))
]

abbrev pub over : Option Lease → Lease → Option Lease
over none l = none
over (some _) l = some l

pub lease_at-set_lease :
    (j k : ℕ) (l : Lease) (ls : List Lease)
    → lease_at j (set_lease k l ls) ≡ (if k == j then over (lease_at j ls) l else lease_at j ls)
unfolding lease_at set_lease
lease_at-set_lease j k l [] = ground arith
lease_at-set_lease zero zero l (x ∷ ls) = refl
lease_at-set_lease (suc j) zero l (x ∷ ls) = ground arith
lease_at-set_lease zero (suc k) l (x ∷ ls) = ground arith
lease_at-set_lease (suc j) (suc k) l (x ∷ ls) = ground (arith, lease_at-set_lease j k l ls)

pub lease_at-append :
    (j : ℕ) (ls : List Lease) (l : Lease)
    → lease_at j (ls ++ l ∷ []) ≡ (if length ls == j then some l else lease_at j ls)
unfolding lease_at
lease_at-append zero [] l = refl
lease_at-append (suc j) [] l = ground arith
lease_at-append zero (x ∷ ls) l = ground arith
lease_at-append (suc j) (x ∷ ls) l = ground (arith, lease_at-append j ls l)

pub lease_at-length : (ls : List Lease) → lease_at (length ls) ls ≡ none
unfolding lease_at
lease_at-length [] = refl
lease_at-length (x ∷ ls) = lease_at-length ls

abbrev pub emitted_by : ℕ → Call → List Event → List Event
emitted_by k (emits j e) rest = if j == k then e ∷ rest else rest
emitted_by k _ rest = rest

-- What a client was handed through a lease.
unfoldable pub emitted : ℕ → List Call → List Event
emitted k [] = []
emitted k (c ∷ cs) = emitted_by k c (emitted k cs)

pub emitted-append :
    (k : ℕ) (cs : List Call) (c : Call)
    → emitted k (cs ++ c ∷ []) ≡ emitted k cs ++ emitted_by k c []
unfolding emitted
emitted-append k [] c = refl
emitted-append k (emits j e ∷ cs) c = ground (arith, emitted-append k cs c)
emitted-append k (deliver j e ∷ cs) c = emitted-append k cs c
emitted-append k (resolve j t ∷ cs) c = emitted-append k cs c
emitted-append k (reject j ∷ cs) c = emitted-append k cs c
emitted-append k (released j ∷ cs) c = emitted-append k cs c

pub emitted_quiet :
    (k : ℕ) (c : Call) (cs : List Call)
    → emitted_by k c [] ≡ []
    → emitted k (cs ++ c ∷ []) ≡ emitted k cs
emitted_quiet k c cs e = emitted-append k cs c ∙ ap (λ es. emitted k cs ++ es) e ∙ append-nil _

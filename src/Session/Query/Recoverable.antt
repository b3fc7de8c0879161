-- ===== src/Session/Query/Recoverable.antt =====
-- `assertRecoverableEvents` of session/session-query.ts, which a log passes before its session is
-- resumed. Events are typed here: the checks of the types of events and fields are left out, and
-- `isProviderIdentity` is the test of its fingerprint.
use echocoding_harness.Common.{
  ℕ, ◌≡◌, ◌⊎◌, refl, ap, arith, Bool-cases, inl, inr, Bool, true, false, not, ◌&&◌, ◌||◌, ◌==◌, leb,
  any, all, Option, none, some, List, [], ◌∷◌, ◌++◌, length, if◌then◌else◌, Text, units, text_eq,
  text_eq_iff, lookup, insert, lookup-insert,
}
use echocoding_harness.Contracts.Error.{Outcome, ok, thrown, echo, storage}
use echocoding_harness.Contracts.Event.{
  Event, Payload, ProviderIdentity, Reasoning, model_reasoning, model_text, model_text_delta,
}
use echocoding_harness.Agent.Calls.{failure}
use echocoding_harness.Session.Query.{first_started, schema_version_of}

abbrev invalid : Text → Outcome (Unit {0})
invalid message = thrown (echo (failure storage (units "SESSION_LOG_INVALID") message))

abbrev incompatible : Text → Outcome (Unit {0})
incompatible message = thrown (echo (failure storage (units "SESSION_LOG_INCOMPATIBLE") message))

abbrev or_empty : Option Text → Text
or_empty none = []
or_empty (some t) = t

abbrev step_or_id : Option Text → Text → Text
step_or_id none id = id
step_or_id (some step) id = step

unfoldable pub step_text_key : Event → Text
unfolding units
step_text_key e = or_empty e.turn_id ++ (units "::" ++ step_or_id e.step_id e.id)

-- The kind of a text event: aggregated, or incremental.
abbrev pub text_kind : Payload → Option Bool
text_kind (model_text _ _) = some true
text_kind (model_text_delta _) = some false
text_kind _ = none

-- What the map `seen` tells of a key.
pub record Kinds : Type 0 where
  pub aggregated : Bool
  pub delta : Bool

abbrev pub Seen : Type 0
Seen = List (Text × Kinds)

abbrev pub kinds_or : Option Kinds → Kinds
kinds_or none = record { aggregated = false; delta = false }
kinds_or (some k) = k

abbrev pub add_kind : Bool → Kinds → Kinds
add_kind true k = record { aggregated = true; delta = k.delta }
add_kind false k = record { aggregated = k.aggregated; delta = true }

abbrev pub is_mixed : Kinds → Bool
is_mixed k = k.aggregated && k.delta

abbrev pub next_seen : Option Bool → Text → Seen → Seen
next_seen none key seen = seen
next_seen (some kind) key seen = insert key (add_kind kind (kinds_or (lookup key seen))) seen

abbrev pub mixes : Option Bool → Text → Seen → Bool
mixes none key seen = false
mixes (some kind) key seen = is_mixed (add_kind kind (kinds_or (lookup key seen)))

unfoldable pub mixed_from : Seen → List Event → Bool
mixed_from seen [] = false
mixed_from seen (e ∷ es) =
    let rest = mixed_from (next_seen (text_kind e.payload) (step_text_key e) seen) es in
    mixes (text_kind e.payload) (step_text_key e) seen || rest

unfoldable pub assert_exclusive_step_text : List Event → Outcome (Unit {0})
unfolding mixed_from units
assert_exclusive_step_text events =
    if mixed_from [] events
    then invalid
        (units "The session event log mixes aggregated and incremental text in the same step.")
    else ok tt

-- `/^[0-9a-f]{64}$/u`
abbrev is_hex : ℕ → Bool
is_hex c = (leb 48 c && leb c 57) || (leb 97 c && leb c 102)

unfoldable pub is_provider_identity : ProviderIdentity → Bool
is_provider_identity p = (length p.endpoint_fingerprint == 64) && all is_hex p.endpoint_fingerprint

abbrev check_provider : Option (Option ℕ × Option ProviderIdentity) → Outcome (Unit {0})
check_provider (some (_, some provider)) =
    if is_provider_identity provider
    then ok tt
    else incompatible (units "The session Provider identity is not a branded endpoint fingerprint.")
check_provider _ = incompatible (units "The session is missing a version-2 Provider identity.")

abbrev pub then_check : Outcome (Unit {0}) → Outcome (Unit {0}) → Outcome (Unit {0})
then_check (ok _) next = next
then_check (thrown e) next = thrown e

abbrev check_version : ℕ → Outcome (Unit {0})
check_version version =
    if not (version == 1) && (not (version == 2) && not (version == 3))
    then incompatible (units "The session event schema version is not supported.")
    else if version == 1
    then incompatible
        (units "P0 session logs cannot be resumed because they lack a Provider identity.")
    else ok tt

abbrev is_some : {A : Type 0} → Option A → Bool
is_some none = false
is_some (some _) = true

-- `isReasoningPayload`, `isModelTextPayload`
abbrev pub is_reasoning_payload : Reasoning → Bool
is_reasoning_payload r =
    is_some r.reasoning || is_some r.reasoning_content || is_some r.reasoning_details

abbrev pub is_model_text_payload : Text → Bool
is_model_text_payload text = not (text_eq text [])

abbrev check_payload : Payload → Outcome (Unit {0})
check_payload (model_reasoning r) =
    if is_reasoning_payload r
    then ok tt
    else invalid (units "The session event log contains a damaged reasoning payload.")
check_payload (model_text text _) =
    if is_model_text_payload text
    then ok tt
    else invalid (units "The session event log contains a damaged aggregated text payload.")
check_payload _ = ok tt

unfoldable pub check_payloads : List Event → Outcome (Unit {0})
unfolding units
check_payloads [] = ok tt
check_payloads (e ∷ es) = then_check (check_payload e.payload) (check_payloads es)

unfoldable pub assert_recoverable_events : List Event → Outcome (Unit {0})
unfolding assert_exclusive_step_text schema_version_of check_payloads is_provider_identity units
assert_recoverable_events [] = invalid (units "The session event log is empty.")
assert_recoverable_events (e ∷ es) = then_check (check_version (schema_version_of (e ∷ es))) (
    then_check (check_payloads (e ∷ es))
      (then_check (assert_exclusive_step_text (e ∷ es)) (check_provider (first_started (e ∷ es)))))

-- A text event of a kind in a step.
abbrev is_kind : Bool → Option Bool → Bool
is_kind kind none = false
is_kind true (some k) = k
is_kind false (some k) = not k

abbrev pub has_text : Bool → Text → Event → Bool
has_text kind key e = is_kind kind (text_kind e.payload) && text_eq (step_text_key e) key

kinds_at : Text → Seen → Kinds
kinds_at key seen = kinds_or (lookup key seen)

kinds_at-next_seen :
    (o : Option Bool) (at key : Text) (seen : Seen)
    → ((kinds_at key (next_seen o at seen)).aggregated
        ≡ ((kinds_at key seen).aggregated || (is_kind true o && text_eq at key)))
      × ((kinds_at key (next_seen o at seen)).delta
          ≡ ((kinds_at key seen).delta || (is_kind false o && text_eq at key)))
unfolding kinds_at
kinds_at-next_seen none at key seen = ground arith
kinds_at-next_seen (some true) at key seen = ground (
  arith,
  text_eq_iff at key,
  ap (λ (k : Text). lookup k seen),
  lookup-insert at key (add_kind true (kinds_or (lookup at seen))) seen,
)
kinds_at-next_seen (some false) at key seen = ground (
  arith,
  text_eq_iff at key,
  ap (λ (k : Text). lookup k seen),
  lookup-insert at key (add_kind false (kinds_or (lookup at seen))) seen,
)

is_mixed-next_seen :
    (o : Option Bool) (at key : Text) (seen : Seen)
    → mixes o at seen ≡ false
    → is_mixed (kinds_at key seen) ≡ false
    → is_mixed (kinds_at key (next_seen o at seen)) ≡ false
unfolding kinds_at
is_mixed-next_seen none at key seen m h = h
is_mixed-next_seen (some kind) at key seen m h =
    ground (arith, m, h, lookup-insert at key (add_kind kind (kinds_or (lookup at seen))) seen)

mixed_from_lem :
    (es : List Event) (seen : Seen) (key : Text)
    → mixed_from seen es ≡ false
    → is_mixed (kinds_at key seen) ≡ false
    → (((kinds_at key seen).aggregated || any (has_text true key) es)
        && ((kinds_at key seen).delta || any (has_text false key) es))
      ≡ false
unfolding mixed_from
mixed_from_lem [] seen key m h = ground (arith, h)
mixed_from_lem (e ∷ es) seen key m h =
    let o = text_kind e.payload in
    let at = step_text_key e in
    let one : mixes o at seen ≡ false = ground (arith, m) in
    let more : mixed_from (next_seen o at seen) es ≡ false = ground (arith, m) in
    ground (
      arith,
      kinds_at-next_seen o at key seen,
      mixed_from_lem es (next_seen o at seen) key more (is_mixed-next_seen o at key seen one h),
    )

-- In a log that passes no step has both aggregated and incremental text.
pub assert_exclusive-has_text :
    (events : List Event) (key : Text)
    → assert_exclusive_step_text events ≡ ok tt
    → (any (has_text true key) events && any (has_text false key) events) ≡ false
unfolding assert_exclusive_step_text lookup
assert_exclusive-has_text events key e = elim (Bool-cases (mixed_from [] events)) [
  | inl m ↦ absurd (ground (arith, e, m))
  | inr m ↦ unfold kinds_at in mixed_from_lem events [] key m refl
]

abbrev pub is_sound : Payload → Bool
is_sound (model_reasoning r) = is_reasoning_payload r
is_sound (model_text text _) = is_model_text_payload text
is_sound _ = true

-- What a log is from which a session may be resumed.
pub record IsRecoverable (events : List Event) : Type 0 where
  pub version : (schema_version_of events ≡ 2) ⊎ (schema_version_of events ≡ 3)
  pub provider :
      (schema : Option ℕ) × (identity : ProviderIdentity) × (first_started events
        ≡ some (schema, some identity))
      × (is_provider_identity identity ≡ true)
  pub payloads : all (λ e. is_sound e.payload) events ≡ true
  pub exclusive :
      (key : Text) → (any (has_text true key) events && any (has_text false key) events) ≡ false

passed : (a b : Outcome (Unit {0})) → then_check a b ≡ ok tt → (a ≡ ok tt) × (b ≡ ok tt)
passed (ok tt) b e = (refl, e)
passed (thrown x) b e = absurd (cc e)

payload_passed : (p : Payload) → check_payload p ≡ ok tt → is_sound p ≡ true
payload_passed (model_reasoning r) e = ground (arith, e)
payload_passed (model_text text p) e = ground (arith, e)
payload_passed _ e = refl

payloads_passed :
    (es : List Event) → check_payloads es ≡ ok tt → all (λ e. is_sound e.payload) es ≡ true
unfolding check_payloads
payloads_passed [] e = refl
payloads_passed (f ∷ es) e =
    let (one, more) = passed (check_payload f.payload) _ e in
    ground (arith, payload_passed f.payload one, payloads_passed es more)

version_passed : (version : ℕ) → check_version version ≡ ok tt → (version ≡ 2) ⊎ (version ≡ 3)
version_passed version e = ground (arith, e)

provider_passed :
    (first : Option (Option ℕ × Option ProviderIdentity))
    → check_provider first ≡ ok tt
    → (schema : Option ℕ) × (identity : ProviderIdentity) × (first ≡ some (schema, some identity))
      × (is_provider_identity identity ≡ true)
provider_passed none e = absurd (cc e)
provider_passed (some (schema, none)) e = absurd (cc e)
provider_passed (some (schema, some identity)) e = (schema, identity, refl, ground (arith, e))

-- A log that passes has a supported version that is not the first, an identity of the provider in its
-- first `session.started` event, no model.reasoning event without any of its three fields, no
-- model.text event whose text is empty, and no step with both aggregated and incremental text.
pub assert_recoverable_events-IsRecoverable :
    (events : List Event) → assert_recoverable_events events ≡ ok tt → IsRecoverable events
unfolding assert_recoverable_events
assert_recoverable_events-IsRecoverable [] e = absurd (cc e)
assert_recoverable_events-IsRecoverable (e ∷ es) h =
    let (v, rest) = passed (check_version (schema_version_of (e ∷ es))) _ h in
    let (d, later) = passed (check_payloads (e ∷ es)) _ rest in
    let (x, p) = passed (assert_exclusive_step_text (e ∷ es)) _ later in
    record {
      version = version_passed (schema_version_of (e ∷ es)) v;
      provider = provider_passed (first_started (e ∷ es)) p;
      payloads = payloads_passed (e ∷ es) d;
      exclusive = λ key. assert_exclusive-has_text (e ∷ es) key x;
    }

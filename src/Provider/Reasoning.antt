-- ===== src/Provider/Reasoning.antt =====
-- provider/reasoning.ts: `aggregateReasoning`, the reasoning of one response from its deltas.
use echocoding_harness.Common.{
  Bool, true, false, ◌&&◌, ◌||◌, not, Option, none, some, List, [], ◌∷◌, ◌++◌, if◌then◌else◌, all,
  Text, units, text_eq, is_some, mem_text,
}
use echocoding_harness.Contracts.Value.{Value, string, object, Fields, end, field, accessor}
use echocoding_harness.Contracts.Event.{Reasoning}

-- The variables of the first loop.
pub record Collected : Type 0 where
  pub reasoning : Option Text
  pub reasoning_content : Option Text
  pub details : List Value
  pub observed : Bool

abbrev pub no_deltas : Collected
no_deltas = record { reasoning = none; reasoning_content = none; details = []; observed = false }

-- `${text ?? ''}${delta}`, where the delta is there.
abbrev append_text : Option Text → Option Text → Option Text
append_text old none = old
append_text none (some t) = some t
append_text (some s) (some t) = some (s ++ t)

abbrev append_details : List Value → Option (List Value) → List Value
append_details old none = old
append_details old (some vs) = old ++ vs

unfoldable pub collect : Collected → List Reasoning → Collected
collect c [] = c
collect c (d ∷ ds) =
    collect
      (record {
        reasoning = append_text c.reasoning d.reasoning;
        reasoning_content = append_text c.reasoning_content d.reasoning_content;
        details = append_details c.details d.reasoning_details;
        observed =
            c.observed
            || is_some d.reasoning
            || is_some d.reasoning_content
            || is_some d.reasoning_details;
      })
      ds

abbrev plain_text_keys : List Text
plain_text_keys = units "type" ∷ units "text" ∷ units "format" ∷ units "index" ∷ []

abbrev keys_plain : Fields → Bool
keys_plain end = true
keys_plain (field k v fs) = mem_text k plain_text_keys && keys_plain fs
keys_plain (accessor k v fs) = mem_text k plain_text_keys && keys_plain fs

abbrev property : Text → Fields → Option Value
property key end = none
property key (field k v fs) = if text_eq k key then some v else property key fs
property key (accessor k v fs) = if text_eq k key then some v else property key fs

abbrev as_text : Option Value → Option Text
as_text (some (string t)) = some t
as_text _ = none

abbrev is_text : Option Text → Text → Bool
is_text none t = false
is_text (some s) t = text_eq s t

-- The text of a detail that `isRedundantPlainTextDetail` accepts.
unfoldable pub plain_text_detail : Value → Option Text
plain_text_detail (object _ fs) =
    if keys_plain fs && is_text (as_text (property (units "type") fs)) (units "reasoning.text")
    then as_text (property (units "text") fs)
    else none
plain_text_detail _ = none

abbrev join_details : List Value → Text
join_details [] = []
join_details (v ∷ vs) = elim (plain_text_detail v) [
  | none ↦ join_details vs
  | some t ↦ t ++ join_details vs
]

abbrev is_empty {ℓ} : {A : Type ℓ} → List A → Bool
is_empty [] = true
is_empty (_ ∷ _) = false

abbrev pub unless_empty {ℓ} : {A : Type ℓ} → List A → Option (List A)
unless_empty [] = none
unless_empty (v ∷ vs) = some (v ∷ vs)

-- Every detail is plain text, and their texts together are not empty.
abbrev is_plain : List Value → Bool
is_plain details =
    not (is_empty details)
    && all (λ v. is_some (plain_text_detail v)) details
    && not (is_empty (join_details details))

abbrev payload_of : Option Text → Option Text → Option (List Value) → Option Reasoning
payload_of none none none = none
payload_of r c d = some (record { reasoning = r; reasoning_content = c; reasoning_details = d })

unfoldable pub canonical : Collected → Option Reasoning
unfolding plain_text_detail
canonical c =
    if not (is_plain c.details)
    then payload_of c.reasoning c.reasoning_content (unless_empty c.details)
    else if not (is_some c.reasoning) && not (is_some c.reasoning_content)
    then payload_of (some (join_details c.details)) c.reasoning_content none
    else if is_text c.reasoning (join_details c.details)
        || is_text c.reasoning_content (join_details c.details)
    then payload_of c.reasoning c.reasoning_content none
    else payload_of c.reasoning c.reasoning_content (unless_empty c.details)

unfoldable pub aggregate_reasoning : List Reasoning → Option Reasoning
unfolding collect canonical
aggregate_reasoning deltas =
    let c = collect no_deltas deltas in if c.observed then canonical c else none

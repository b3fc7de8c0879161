-- ===== src/Agent/Calls/Ids.antt =====
-- `validateToolCallIds` (agent/agent-loop.ts) against a description of the responses it lets pass.
use echocoding_harness.Common.{
  ◌≡◌, ◌↔◌, refl, Bool, true, not, ◌&&◌, none, List, [], ◌∷◌, arith, Text, mem_text, add_text,
  text_eq, text_eq_iff, mem_text-add_text,
}
use echocoding_harness.Contracts.Event.{ToolCall}
use echocoding_harness.Agent.Calls.{is_blank, validate_from, validate_tool_call_ids}

abbrev pub ids_of : List ToolCall → List Text
ids_of [] = []
ids_of (c ∷ calls) = c.id ∷ ids_of calls

-- No text stands twice in the list.
unfoldable pub distinct : List Text → Bool
distinct [] = true
distinct (x ∷ xs) = not (mem_text x xs) && distinct xs

-- None of the ids is in `used`.
unfoldable pub apart : List Text → List Text → Bool
apart used [] = true
apart used (i ∷ ids) = not (mem_text i used) && apart used ids

-- None of the ids is blank.
unfoldable pub visible : List Text → Bool
visible [] = true
visible (i ∷ ids) = not (is_blank i) && visible ids

text_eq-sym : (x y : Text) → text_eq x y ≡ text_eq y x
text_eq-sym x y = ground (arith, text_eq_iff x y, text_eq_iff y x)

-- To use `x` too, the ids must leave it out.
apart-add_text :
    (x : Text) (used ids : List Text)
    → apart (add_text x used) ids ≡ (apart used ids && not (mem_text x ids))
unfolding apart mem_text
apart-add_text x used [] = refl
apart-add_text x used (i ∷ ids) =
    ground (arith, mem_text-add_text x i used, text_eq-sym x i, apart-add_text x used ids)

validate_from_iff :
    (calls : List ToolCall) (seen ids : List Text)
    → (validate_from calls seen ids ≡ none) ↔ (
        (visible (ids_of calls)
          && apart seen (ids_of calls)
          && apart ids (ids_of calls)
          && distinct (ids_of calls))
        ≡ true)
unfolding validate_from visible apart distinct
validate_from_iff [] seen ids = (λ _. refl, λ _. refl)
validate_from_iff (c ∷ calls) seen ids = ground (
  arith,
  apart-add_text c.id ids (ids_of calls),
  validate_from_iff calls seen (add_text c.id ids),
)

apart-nil : (ids : List Text) → apart [] ids ≡ true
unfolding apart mem_text
apart-nil [] = refl
apart-nil (i ∷ ids) = apart-nil ids

-- A response passes exactly when no id is blank, none was seen in the session, and no two agree.
pub validate_tool_call_ids_iff :
    (calls : List ToolCall) (seen : List Text)
    → (validate_tool_call_ids calls seen ≡ none)
      ↔ ((visible (ids_of calls) && apart seen (ids_of calls) && distinct (ids_of calls)) ≡ true)
unfolding validate_tool_call_ids
validate_tool_call_ids_iff calls seen =
    ground (arith, validate_from_iff calls seen [], apart-nil (ids_of calls))

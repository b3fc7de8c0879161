-- ===== src/Provider/Streaming.antt =====
-- provider/stream-aggregation.ts: `collectStreamedToolCalls`. The map is the list of its entries in the
-- order in which they were added; an index is a whole number that JSON writes in digits.
pub mod Fragments
use echocoding_harness.Common.{
  ℕ, leb, ◌==◌, Option, none, some, List, [], ◌∷◌, ◌++◌, map, if◌then◌else◌, Text, units, decimal,
}
use echocoding_harness.Contracts.Value.{Value, number, string, object, Fields, end}
use echocoding_harness.Tools.Files.Validation.{get, digits_value}

-- What was collected of a call.
pub record Collected : Type 0 where
  pub id : Text
  pub name : Text
  pub args : Text

abbrev pub Entries : Type 0
Entries = List (ℕ × Collected)

pub record FunctionToolCall : Type 0 where
  pub id : Text
  pub name : Text
  pub arguments : Text

abbrev pub find : ℕ → Entries → Option Collected
find i [] = none
find i ((j, c) ∷ m) = let rest = find i m in if j == i then some c else rest

-- `collected.set`
abbrev pub store : ℕ → Collected → Entries → Entries
store i c [] = (i, c) ∷ []
store i c ((j, d) ∷ m) = let rest = store i c m in if j == i then (j, c) ∷ m else (j, d) ∷ rest

abbrev pub or_new : Option Collected → Collected
or_new none = record { id = []; name = []; args = [] }
or_new (some c) = c

-- `isRecord`, with the fields of the record.
abbrev pub fields_of : Value → Fields
fields_of (object _ fields) = fields
fields_of _ = end

abbrev index_in : Value → Option ℕ
index_in (number t) = digits_value 0 t
index_in _ = none

unfoldable pub index_of : Value → Option ℕ
unfolding get digits_value units
index_of fragment = index_in (get (units "index") (fields_of fragment))

-- A text, or the empty one for another value.
abbrev text_in : Value → Text
text_in (string t) = t
text_in _ = []

unfoldable pub id_of : Value → Text
unfolding get units
id_of fragment = text_in (get (units "id") (fields_of fragment))

unfoldable pub name_of : Value → Text
unfolding get units
name_of fragment =
    text_in (get (units "name") (fields_of (get (units "function") (fields_of fragment))))

unfoldable pub arguments_of : Value → Text
unfolding get units
arguments_of fragment =
    text_in (get (units "arguments") (fields_of (get (units "function") (fields_of fragment))))

-- `typeof raw === 'string' && raw.length > 0`
abbrev pub or_current : Text → Text → Text
or_current [] current = current
or_current (c ∷ t) current = c ∷ t

unfoldable pub merge : Value → Collected → Collected
unfolding id_of name_of arguments_of
merge fragment current = record {
  id = or_current (id_of fragment) current.id;
  name = or_current (name_of fragment) current.name;
  args = current.args ++ arguments_of fragment;
}

abbrev pub collect_at : Option ℕ → Value → Entries → Entries
collect_at none fragment m = m
collect_at (some i) fragment m = store i (merge fragment (or_new (find i m))) m

unfoldable pub collect_from : List Value → Entries → Entries
unfolding index_of merge
collect_from [] m = m
collect_from (f ∷ fs) m = collect_from fs (collect_at (index_of f) f m)

-- `sort(([a], [b]) => a - b)`
unfoldable pub insert_entry : ℕ → Collected → Entries → Entries
insert_entry i c [] = (i, c) ∷ []
insert_entry i c ((j, d) ∷ m) =
    let rest = insert_entry i c m in if leb i j then (i, c) ∷ (j, d) ∷ m else (j, d) ∷ rest

unfoldable pub sort_entries : Entries → Entries
unfolding insert_entry
sort_entries [] = []
sort_entries ((i, c) ∷ m) = insert_entry i c (sort_entries m)

abbrev pub or_call : Text → ℕ → Text
or_call [] i = units "call_" ++ decimal i
or_call (c ∷ t) i = c ∷ t

unfoldable pub tool_call : ℕ × Collected → FunctionToolCall
unfolding units
tool_call (i, c) = record { id = or_call c.id i; name = c.name; arguments = c.args }

unfoldable pub collected_entries : List Value → Entries
unfolding collect_from sort_entries
collected_entries fragments = sort_entries (collect_from fragments [])

unfoldable pub collect_streamed_tool_calls : List Value → List FunctionToolCall
unfolding collected_entries tool_call
collect_streamed_tool_calls fragments = map tool_call (collected_entries fragments)

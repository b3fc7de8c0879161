-- ===== src/Tools/Normalize.antt =====
-- tools/tool-registry.ts: `normalizeToolInput` and `toolCallSignature`.
pub mod Order
pub mod Bounds
use echocoding_harness.Common.{
  ℕ, ◌+◌, Bool, true, false, ◌||◌, [], ◌∷◌, ◌++◌, ltb, if◌then◌else◌, Text, units, Option, none,
  some, ◌==◌,
}
use echocoding_harness.Contracts.Value.{
  Value, null, boolean, number, non_finite, string, bigint, undefined, array, object, Items, nil,
  cons, Fields, end, field, accessor,
}
use echocoding_harness.Contracts.Error.{EchoError, invalid_tool_input, Outcome, ok, thrown}
use echocoding_harness.Contracts.Json.{stringify}

abbrev pub max_input_depth : ℕ
max_input_depth = 32

abbrev pub max_input_nodes : ℕ
max_input_nodes = 10000

-- A value, or the message of the `TypeError`.
pub data Checked (A : Type 0) : Type 0 where
  valid : A → Checked A
  invalid : Text → Checked A

infixl 5 ◌>>=◌
abbrev pub ◌>>=◌ : {A B : Type 0} → Checked A → (A → Checked B) → Checked B
valid a >>= f = f a
invalid m >>= f = invalid m

-- The order of `Array.prototype.sort` on strings, by code units.
unfoldable pub text_lt : Text → Text → Bool
text_lt [] [] = false
text_lt [] (_ ∷ _) = true
text_lt (_ ∷ _) [] = false
text_lt (a ∷ s) (b ∷ t) = if ltb a b then true else if a == b then text_lt s t else false

-- `Object.keys(value).sort()`, as an insertion sort of the properties. The properties of every
-- nested object are put in order at once; a value is then checked in that order.
unfoldable pub insert_field : Text → Value → Fields → Fields
insert_field k v end = field k v end
insert_field k v (field j w fs) =
    if text_lt j k then field j w (insert_field k v fs) else field k v (field j w fs)
insert_field k v (accessor j w fs) =
    if text_lt j k then accessor j w (insert_field k v fs) else field k v (accessor j w fs)

unfoldable pub insert_accessor : Text → Value → Fields → Fields
insert_accessor k v end = accessor k v end
insert_accessor k v (field j w fs) =
    if text_lt j k then field j w (insert_accessor k v fs) else accessor k v (field j w fs)
insert_accessor k v (accessor j w fs) =
    if text_lt j k then accessor j w (insert_accessor k v fs) else accessor k v (accessor j w fs)

unfoldable mutual
  pub sorted : Value → Value
  sorted (array items) = array (sorted_items items)
  sorted (object plain fields) = object plain (sorted_fields fields)
  sorted null = null
  sorted (boolean b) = boolean b
  sorted (number t) = number t
  sorted non_finite = non_finite
  sorted (string s) = string s
  sorted (bigint t) = bigint t
  sorted undefined = undefined

  pub sorted_items : Items → Items
  sorted_items nil = nil
  sorted_items (cons v items) = cons (sorted v) (sorted_items items)

  pub sorted_fields : Fields → Fields
  sorted_fields end = end
  sorted_fields (field k v fs) = insert_field k (sorted v) (sorted_fields fs)
  sorted_fields (accessor k v fs) = insert_accessor k (sorted v) (sorted_fields fs)

-- `state.nodes` counts the nodes met so far; a node enters with its depth. The results carry the count.
abbrev pub enter : ℕ → ℕ → Checked ℕ
enter depth nodes =
    if ltb max_input_depth depth || ltb max_input_nodes (nodes + 1)
    then invalid (units "Tool arguments exceed the supported structural limits.")
    else valid (nodes + 1)

unfoldable mutual
  pub check_node : Value → ℕ → ℕ → Checked (Value × ℕ)
  check_node null depth nodes = do n ← enter depth nodes; valid (null, n)
  check_node (boolean b) depth nodes = do n ← enter depth nodes; valid (boolean b, n)
  check_node (number t) depth nodes = do n ← enter depth nodes; valid (number t, n)
  check_node (string s) depth nodes = do n ← enter depth nodes; valid (string s, n)
  check_node non_finite depth nodes = do
    n ← enter depth nodes
    invalid (units "Tool arguments must contain finite numbers.")
  check_node (bigint t) depth nodes = do
    n ← enter depth nodes
    invalid (units "Tool arguments must be JSON-compatible.")
  check_node undefined depth nodes = do
    n ← enter depth nodes
    invalid (units "Tool arguments must be JSON-compatible.")
  check_node (array items) depth nodes = do
    n ← enter depth nodes
    checked ← check_items items (depth + 1) n
    valid (array checked.0, checked.1)
  check_node (object false fields) depth nodes = do
    n ← enter depth nodes
    invalid (units "Tool arguments must use plain JSON objects.")
  check_node (object true fields) depth nodes = do
    n ← enter depth nodes
    checked ← check_fields fields (depth + 1) n
    valid (object true checked.0, checked.1)

  pub check_items : Items → ℕ → ℕ → Checked (Items × ℕ)
  check_items nil depth nodes = valid (nil, nodes)
  check_items (cons v items) depth nodes = do
    first ← check_node v depth nodes
    rest ← check_items items depth first.1
    valid (cons first.0 rest.0, rest.1)

  pub check_fields : Fields → ℕ → ℕ → Checked (Fields × ℕ)
  check_fields end depth nodes = valid (end, nodes)
  check_fields (field k v fs) depth nodes = do
    first ← check_node v depth nodes
    rest ← check_fields fs depth first.1
    valid (field k first.0 rest.0, rest.1)
  check_fields (accessor k v fs) depth nodes =
      invalid (units "Tool arguments must not contain accessors.")

abbrev pub invalid_input : Text → EchoError
invalid_input message = record {
  category = invalid_tool_input;
  code = units "INVALID_TOOL_ARGUMENTS";
  message = message;
  retryable = false;
}

pub data Normalization : Type 0 where
  normalized : Value → Normalization
  refused : EchoError → Normalization

abbrev to_normalization : Checked (Value × ℕ) → Normalization
to_normalization (valid (v, n)) = normalized v
to_normalization (invalid m) = refused (invalid_input m)

unfoldable pub normalize_tool_input : Value → Normalization
unfolding sorted check_node
normalize_tool_input value = to_normalization (check_node (sorted value) 0 0)

-- The text of the arguments is that of a normalized value, which is always printable.
abbrev printed : Outcome (Option Text) → Text
printed (ok (some t)) = t
printed (ok none) = units "undefined"
printed (thrown e) = []

unfoldable pub tool_call_signature : Text → Value → Text
tool_call_signature name input = name ++ 0 ∷ printed (stringify input)

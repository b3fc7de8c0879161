-- ===== src/Tools/Files/Validation.antt =====
-- tools/files/validation.ts: the checks on the arguments of the file tools. A number is kept by its
-- JSON text, which for a whole number in the range of the tools is its digits.
use echocoding_harness.Common.{
  ℕ, ◌+◌, ◌-◌, ◌*◌, Bool, not, ◌&&◌, ◌||◌, ltb, leb, Option, none, some, List, [], ◌∷◌, ◌++◌,
  if◌then◌else◌, Text, units, text_eq, mem_text, decimal,
}
use echocoding_harness.Contracts.Value.{
  Value, boolean, number, string, undefined, object, Fields, end, field, accessor,
}
use echocoding_harness.Tools.Files.Errors.{Result, ok, invalid_input}

-- `input[key]`
unfoldable pub get : Text → Fields → Value
get key end = undefined
get key (field k v fs) = if text_eq k key then v else get key fs
get key (accessor k v fs) = if text_eq k key then v else get key fs

unfoldable pub assert_input_object : Value → Result Fields
unfolding units
assert_input_object (object _ fields) = ok fields
assert_input_object _ = invalid_input (units "Tool input must be a JSON object.")

abbrev field_error : {A : Type 0} → Text → Text → Result A
field_error key rest = invalid_input (units "Input field \"" ++ (key ++ rest))

abbrev pub string_or_error : Text → Bool → Value → Result Text
string_or_error key allow_empty (string t) =
    if text_eq t [] && not allow_empty
    then field_error key (units "\" must be a non-empty string.")
    else ok t
string_or_error key allow_empty _ = field_error key (units "\" must be a non-empty string.")

unfoldable pub required_string : Fields → Text → (allow_empty : Bool) → Result Text
unfolding get units
required_string input key allow_empty = string_or_error key allow_empty (get key input)

abbrev string_if_any : Text → Value → Result (Option Text)
string_if_any key undefined = ok none
string_if_any key (string t) = ok (some t)
string_if_any key _ = field_error key (units "\" must be a string when provided.")

unfoldable pub optional_string : Fields → Text → Result (Option Text)
unfolding get units
optional_string input key = string_if_any key (get key input)

abbrev boolean_if_any : Text → Value → Result (Option Bool)
boolean_if_any key undefined = ok none
boolean_if_any key (boolean b) = ok (some b)
boolean_if_any key _ = field_error key (units "\" must be a boolean when provided.")

unfoldable pub optional_boolean : Fields → Text → Result (Option Bool)
unfolding get units
optional_boolean input key = boolean_if_any key (get key input)

-- The number that digits write.
unfoldable pub digits_value : ℕ → Text → Option ℕ
digits_value n [] = some n
digits_value n (c ∷ t) =
    let rest = digits_value (n * 10 + (c - 48)) t in if leb 48 c && leb c 57 then rest else none

abbrev in_range : Text → ℕ → ℕ → Option ℕ → Result (Option ℕ)
in_range key low high none = field_error key (
    units "\" must be an integer between "
    ++ (decimal low ++ (units " and " ++ (decimal high ++ units "."))))
in_range key low high (some n) =
    if ltb n low || ltb high n
    then field_error key (
        units "\" must be an integer between "
        ++ (decimal low ++ (units " and " ++ (decimal high ++ units "."))))
    else ok (some n)

abbrev integer_if_any : Text → ℕ → ℕ → Value → Result (Option ℕ)
integer_if_any key low high undefined = ok none
integer_if_any key low high (number t) = in_range key low high (digits_value 0 t)
integer_if_any key low high _ = in_range key low high none

unfoldable pub optional_integer : Fields → Text → (minimum maximum : ℕ) → Result (Option ℕ)
unfolding get digits_value units
optional_integer input key minimum maximum = integer_if_any key minimum maximum (get key input)

abbrev checked_key : Text → List Text → Result (Unit {0}) → Result (Unit {0})
checked_key key allowed rest =
    if mem_text key allowed
    then rest
    else invalid_input (units "Unknown input field \"" ++ (key ++ units "\"."))

unfoldable pub assert_only_keys : Fields → List Text → Result (Unit {0})
unfolding units
assert_only_keys end allowed = ok tt
assert_only_keys (field k v fs) allowed = checked_key k allowed (assert_only_keys fs allowed)
assert_only_keys (accessor k v fs) allowed = checked_key k allowed (assert_only_keys fs allowed)

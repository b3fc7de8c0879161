-- ===== src/Contracts/Json.antt =====
-- `JSON.stringify` of the language, for the values of `Contracts.Value`: what a tool call and a tool
-- result are printed with. `toJSON` methods are not modelled, nor is the order in which JavaScript
-- enumerates property names that are array indices.
use echocoding_harness.Common.{
  ◌≡◌, refl, ℕ, ◌+◌, ◌/◌, ◌%◌, Bool, true, false, ◌&&◌, Option, none, some, [], ◌∷◌, ◌++◌, ltb, leb,
  ◌==◌, if◌then◌else◌, Text, units,
}
use echocoding_harness.Contracts.Value.{
  Value, null, boolean, number, non_finite, string, bigint, undefined, array, object, Items, nil,
  cons, Fields, end, field, accessor,
}
use echocoding_harness.Contracts.Error.{Outcome, ok, thrown, unknown}

hex_digit : ℕ → ℕ
hex_digit d = if ltb d 10 then 48 + d else 87 + d

unicode_escape : ℕ → Text
unfolding hex_digit
unicode_escape c =
    b'\\'
    ∷ b'u'
    ∷ hex_digit (c / 4096 % 16)
    ∷ hex_digit (c / 256 % 16)
    ∷ hex_digit (c / 16 % 16)
    ∷ hex_digit (c % 16)
    ∷ []

is_high : ℕ → Bool
is_high c = leb 55296 c && ltb c 56320

is_low : ℕ → Bool
is_low c = leb 56320 c && ltb c 57344

-- One code unit that is no half of a surrogate pair.
escape_unit : ℕ → Text
unfolding unicode_escape is_high is_low
escape_unit c =
    if c == 34
    then 92 ∷ 34 ∷ []
    else if c == 92
    then 92 ∷ 92 ∷ []
    else if c == 8
    then 92 ∷ b'b' ∷ []
    else if c == 9
    then 92 ∷ b't' ∷ []
    else if c == 10
    then 92 ∷ b'n' ∷ []
    else if c == 12
    then 92 ∷ b'f' ∷ []
    else if c == 13
    then 92 ∷ b'r' ∷ []
    else if ltb c 32
    then unicode_escape c
    else if is_high c
    then unicode_escape c
    else if is_low c
    then unicode_escape c
    else c ∷ []

escape : Text → Text
unfolding escape_unit
escape [] = []
escape (c ∷ []) = escape_unit c
escape (c ∷ d ∷ s) =
    let paired = c ∷ d ∷ escape s in
    let single = escape_unit c ++ escape (d ∷ s) in if is_high c && is_low d then paired else single

unfoldable pub quote : Text → Text
unfolding escape
quote s = 34 ∷ escape s ++ 34 ∷ []

infixl 5 ◌>>=◌
abbrev ◌>>=◌ {ℓ κ} : {A : Type ℓ} {B : Type κ} → Outcome A → (A → Outcome B) → Outcome B
ok a >>= f = f a
thrown e >>= f = thrown e

abbrev comma : Bool → Text
comma true = []
comma false = 44 ∷ []

abbrev or_null : Option Text → Text
or_null none = units "null"
or_null (some t) = t

-- `undefined` has no text: it is left out of an object, and null in an array.
abbrev member : Bool → Text → Option Text → Text
member first key none = []
member first key (some t) = comma first ++ quote key ++ 58 ∷ t

abbrev still_first : Bool → Option Text → Bool
still_first first none = first
still_first first (some _) = false

unfoldable mutual
  pub stringify : Value → Outcome (Option Text)
  stringify null = ok (some (units "null"))
  stringify (boolean true) = ok (some (units "true"))
  stringify (boolean false) = ok (some (units "false"))
  stringify (number t) = ok (some t)
  stringify non_finite = ok (some (units "null"))
  stringify (string s) = ok (some (quote s))
  stringify (bigint t) = thrown unknown
  stringify undefined = ok none
  stringify (array items) = do
    inside ← stringify_items true items
    ok (some (91 ∷ inside ++ 93 ∷ []))
  stringify (object plain fields) = do
    inside ← stringify_fields true fields
    ok (some (123 ∷ inside ++ 125 ∷ []))

  pub stringify_items : Bool → Items → Outcome Text
  stringify_items first nil = ok []
  stringify_items first (cons v items) = do
    t ← stringify v
    rest ← stringify_items false items
    ok (comma first ++ or_null t ++ rest)

  pub stringify_fields : Bool → Fields → Outcome Text
  stringify_fields first end = ok []
  stringify_fields first (field key v fields) = do
    t ← stringify v
    rest ← stringify_fields (still_first first t) fields
    ok (member first key t ++ rest)
  stringify_fields first (accessor key v fields) = do
    t ← stringify v
    rest ← stringify_fields (still_first first t) fields
    ok (member first key t ++ rest)

stringify_test :
    stringify
      (object true (field (units "a") undefined (field (units "b\n") (array (cons null nil)) end)))
    ≡ ok (some (units "{\"b\\n\":[null]}"))
unfolding stringify quote units
stringify_test = refl

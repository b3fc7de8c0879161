-- ===== src/Contracts/Value.antt =====
-- Values of type `unknown`: what a model, a tool or a log may hand over. A finite number is kept
-- by its JSON text, since the program only passes it on and prints it.
use echocoding_harness.Common.{Bool, true, false, Text}

mutual
  pub data Value : Type 0 where
    null : Value
    boolean : Bool → Value
    number : Text → Value
    -- NaN and the infinities
    non_finite : Value
    string : Text → Value
    bigint : Text → Value
    -- undefined, functions and symbols
    undefined : Value
    array : Items → Value
    -- the flag tells whether the prototype is `Object.prototype` or null
    object : Bool → Fields → Value

  pub data Items : Type 0 where
    nil : Items
    cons : Value → Items → Items

  -- the own enumerable properties; an accessor with the value that its getter returns
  pub data Fields : Type 0 where
    end : Fields
    field : Text → Value → Fields → Fields
    accessor : Text → Value → Fields → Fields

-- `typeof value === 'string'`.
abbrev pub is_string : Value → Bool
is_string (string s) = true
is_string _ = false

-- ===== src/Tools/Normalize/Order.antt =====
-- The order of the keys that `normalizeToolInput` (tools/tool-registry.ts) makes: what it hands on has
-- the properties of each object in order, and they are the same properties.
use echocoding_harness.Common.{◌≡◌, refl, arith, Bool, true, false, not, [], ◌∷◌, Text, if-cases}
use echocoding_harness.Contracts.Value.{
  Value, null, boolean, number, non_finite, string, bigint, undefined, array, object, Items, nil,
  cons, Fields, end, field, accessor,
}
use echocoding_harness.Tools.Normalize.{
  text_lt, insert_field, insert_accessor, sorted, sorted_items, sorted_fields,
}

-- No key before one that is greater, by code units.
abbrev pub not_after : Text → Fields → Bool
not_after k end = true
not_after k (field j v fs) = not (text_lt j k)
not_after k (accessor j v fs) = not (text_lt j k)

-- The keys of every object in the value are in order.
unfoldable mutual
  pub InOrder : Value → Type 0
  InOrder (array items) = InOrderItems items
  InOrder (object plain fields) = InOrderFields fields
  InOrder null = Unit
  InOrder (boolean b) = Unit
  InOrder (number t) = Unit
  InOrder non_finite = Unit
  InOrder (string s) = Unit
  InOrder (bigint t) = Unit
  InOrder undefined = Unit

  pub InOrderItems : Items → Type 0
  InOrderItems nil = Unit
  InOrderItems (cons v items) = InOrder v × InOrderItems items

  pub InOrderFields : Fields → Type 0
  InOrderFields end = Unit
  InOrderFields (field k v fs) = (not_after k fs ≡ true) × InOrder v × InOrderFields fs
  InOrderFields (accessor k v fs) = (not_after k fs ≡ true) × InOrder v × InOrderFields fs

-- The second value is the first one with the properties of its objects in another order.
mutual
  pub data Arranged : Value → Value → Type 0 where
    same : (v : Value) → Arranged v v
    in_array : {a b : Items} → ArrangedItems a b → Arranged (array a) (array b)
    in_object :
        {plain : Bool} {a b : Fields}
        → ArrangedFields a b
        → Arranged (object plain a) (object plain b)

  pub data ArrangedItems : Items → Items → Type 0 where
    no_items : ArrangedItems nil nil
    each :
        {v w : Value} {a b : Items}
        → Arranged v w
        → ArrangedItems a b
        → ArrangedItems (cons v a) (cons w b)

  pub data ArrangedFields : Fields → Fields → Type 0 where
    no_fields : ArrangedFields end end
    keep_field :
        {v w : Value} {a b : Fields} (k : Text)
        → Arranged v w
        → ArrangedFields a b
        → ArrangedFields (field k v a) (field k w b)
    keep_accessor :
        {v w : Value} {a b : Fields} (k : Text)
        → Arranged v w
        → ArrangedFields a b
        → ArrangedFields (accessor k v a) (accessor k w b)
    swap_fields :
        (j k : Text) (v w : Value) (a : Fields)
        → ArrangedFields (field j v (field k w a)) (field k w (field j v a))
    swap_field_accessor :
        (j k : Text) (v w : Value) (a : Fields)
        → ArrangedFields (field j v (accessor k w a)) (accessor k w (field j v a))
    swap_accessor_field :
        (j k : Text) (v w : Value) (a : Fields)
        → ArrangedFields (accessor j v (field k w a)) (field k w (accessor j v a))
    swap_accessors :
        (j k : Text) (v w : Value) (a : Fields)
        → ArrangedFields (accessor j v (accessor k w a)) (accessor k w (accessor j v a))
    then_ : {a b c : Fields} → ArrangedFields a b → ArrangedFields b c → ArrangedFields a c

unchanged : (a : Fields) → ArrangedFields a a
unchanged end = no_fields
unchanged (field k v a) = keep_field k (same v) (unchanged a)
unchanged (accessor k v a) = keep_accessor k (same v) (unchanged a)

Arranged-insert_field :
    (k : Text) (v : Value) (a : Fields) → ArrangedFields (field k v a) (insert_field k v a)
unfolding insert_field
Arranged-insert_field k v end = unchanged (field k v end)
Arranged-insert_field k v (field j w a) =
    if-cases (ArrangedFields (field k v (field j w a))) (text_lt j k) _ _
      (λ _. then_ (swap_fields k j v w a) (keep_field j (same w) (Arranged-insert_field k v a)))
      (λ _. unchanged (field k v (field j w a)))
Arranged-insert_field k v (accessor j w a) =
    if-cases (ArrangedFields (field k v (accessor j w a))) (text_lt j k) _ _
      (λ _.
        then_ (swap_field_accessor k j v w a)
          (keep_accessor j (same w) (Arranged-insert_field k v a)))
      (λ _. unchanged (field k v (accessor j w a)))

Arranged-insert_accessor :
    (k : Text) (v : Value) (a : Fields) → ArrangedFields (accessor k v a) (insert_accessor k v a)
unfolding insert_accessor
Arranged-insert_accessor k v end = unchanged (accessor k v end)
Arranged-insert_accessor k v (field j w a) =
    if-cases (ArrangedFields (accessor k v (field j w a))) (text_lt j k) _ _
      (λ _.
        then_ (swap_accessor_field k j v w a)
          (keep_field j (same w) (Arranged-insert_accessor k v a)))
      (λ _. unchanged (accessor k v (field j w a)))
Arranged-insert_accessor k v (accessor j w a) =
    if-cases (ArrangedFields (accessor k v (accessor j w a))) (text_lt j k) _ _
      (λ _.
        then_ (swap_accessors k j v w a)
          (keep_accessor j (same w) (Arranged-insert_accessor k v a)))
      (λ _. unchanged (accessor k v (accessor j w a)))

mutual
  unfolding sorted

  pub Arranged-sorted : (v : Value) → Arranged v (sorted v)
  Arranged-sorted (array items) = in_array (Arranged-sorted_items items)
  Arranged-sorted (object plain fields) = in_object (Arranged-sorted_fields fields)
  Arranged-sorted null = same null
  Arranged-sorted (boolean b) = same (boolean b)
  Arranged-sorted (number t) = same (number t)
  Arranged-sorted non_finite = same non_finite
  Arranged-sorted (string s) = same (string s)
  Arranged-sorted (bigint t) = same (bigint t)
  Arranged-sorted undefined = same undefined

  Arranged-sorted_items : (items : Items) → ArrangedItems items (sorted_items items)
  Arranged-sorted_items nil = no_items
  Arranged-sorted_items (cons v items) = each (Arranged-sorted v) (Arranged-sorted_items items)

  Arranged-sorted_fields : (fs : Fields) → ArrangedFields fs (sorted_fields fs)
  Arranged-sorted_fields end = no_fields
  Arranged-sorted_fields (field k v fs) =
      then_ (keep_field k (Arranged-sorted v) (Arranged-sorted_fields fs))
        (Arranged-insert_field k (sorted v) (sorted_fields fs))
  Arranged-sorted_fields (accessor k v fs) =
      then_ (keep_accessor k (Arranged-sorted v) (Arranged-sorted_fields fs))
        (Arranged-insert_accessor k (sorted v) (sorted_fields fs))

-- Of two texts only one comes before the other.
text_lt-asymmetric : (s t : Text) → text_lt s t ≡ true → text_lt t s ≡ false
unfolding text_lt
text_lt-asymmetric [] [] e = refl
text_lt-asymmetric [] (b ∷ t) e = refl
text_lt-asymmetric (a ∷ s) [] e = absurd (cc e)
text_lt-asymmetric (a ∷ s) (b ∷ t) e = ground (arith, e, text_lt-asymmetric s t)

not_after-insert_field :
    (j k : Text) (v : Value) (fs : Fields)
    → not_after j fs ≡ true
    → text_lt k j ≡ false
    → not_after j (insert_field k v fs) ≡ true
unfolding insert_field
not_after-insert_field j k v end h l = ground (arith, l)
not_after-insert_field j k v (field i w fs) h l = ground (arith, h, l)
not_after-insert_field j k v (accessor i w fs) h l = ground (arith, h, l)

not_after-insert_accessor :
    (j k : Text) (v : Value) (fs : Fields)
    → not_after j fs ≡ true
    → text_lt k j ≡ false
    → not_after j (insert_accessor k v fs) ≡ true
unfolding insert_accessor
not_after-insert_accessor j k v end h l = ground (arith, l)
not_after-insert_accessor j k v (field i w fs) h l = ground (arith, h, l)
not_after-insert_accessor j k v (accessor i w fs) h l = ground (arith, h, l)

InOrder-insert_field :
    (k : Text) (v : Value) (fs : Fields)
    → InOrder v
    → InOrderFields fs
    → InOrderFields (insert_field k v fs)
unfolding insert_field InOrder
InOrder-insert_field k v end o h = (refl, o, tt)
InOrder-insert_field k v (field j w fs) o (first, p, rest) =
    if-cases InOrderFields (text_lt j k) _ _
      (λ l. (
        not_after-insert_field j k v fs first (text_lt-asymmetric j k l),
        p,
        InOrder-insert_field k v fs o rest,
      ))
      (λ l. (ground (arith, l), o, (first, p, rest)))
InOrder-insert_field k v (accessor j w fs) o (first, p, rest) =
    if-cases InOrderFields (text_lt j k) _ _
      (λ l. (
        not_after-insert_field j k v fs first (text_lt-asymmetric j k l),
        p,
        InOrder-insert_field k v fs o rest,
      ))
      (λ l. (ground (arith, l), o, (first, p, rest)))

InOrder-insert_accessor :
    (k : Text) (v : Value) (fs : Fields)
    → InOrder v
    → InOrderFields fs
    → InOrderFields (insert_accessor k v fs)
unfolding insert_accessor InOrder
InOrder-insert_accessor k v end o h = (refl, o, tt)
InOrder-insert_accessor k v (field j w fs) o (first, p, rest) =
    if-cases InOrderFields (text_lt j k) _ _
      (λ l. (
        not_after-insert_accessor j k v fs first (text_lt-asymmetric j k l),
        p,
        InOrder-insert_accessor k v fs o rest,
      ))
      (λ l. (ground (arith, l), o, (first, p, rest)))
InOrder-insert_accessor k v (accessor j w fs) o (first, p, rest) =
    if-cases InOrderFields (text_lt j k) _ _
      (λ l. (
        not_after-insert_accessor j k v fs first (text_lt-asymmetric j k l),
        p,
        InOrder-insert_accessor k v fs o rest,
      ))
      (λ l. (ground (arith, l), o, (first, p, rest)))

mutual
  unfolding sorted InOrder

  pub InOrder-sorted : (v : Value) → InOrder (sorted v)
  InOrder-sorted (array items) = InOrder-sorted_items items
  InOrder-sorted (object plain fields) = InOrder-sorted_fields fields
  InOrder-sorted null = tt
  InOrder-sorted (boolean b) = tt
  InOrder-sorted (number t) = tt
  InOrder-sorted non_finite = tt
  InOrder-sorted (string s) = tt
  InOrder-sorted (bigint t) = tt
  InOrder-sorted undefined = tt

  InOrder-sorted_items : (items : Items) → InOrderItems (sorted_items items)
  InOrder-sorted_items nil = tt
  InOrder-sorted_items (cons v items) = (InOrder-sorted v, InOrder-sorted_items items)

  InOrder-sorted_fields : (fs : Fields) → InOrderFields (sorted_fields fs)
  InOrder-sorted_fields end = tt
  InOrder-sorted_fields (field k v fs) =
      InOrder-insert_field k (sorted v) (sorted_fields fs) (InOrder-sorted v)
        (InOrder-sorted_fields fs)
  InOrder-sorted_fields (accessor k v fs) =
      InOrder-insert_accessor k (sorted v) (sorted_fields fs) (InOrder-sorted v)
        (InOrder-sorted_fields fs)

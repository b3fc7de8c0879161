-- ===== src/Tools/Normalize/Bounds.antt =====
-- The limits of `normalizeToolInput` (tools/tool-registry.ts): what it lets pass is small and shallow.
use mathlib.Core.Path.{ap₂}
use echocoding_harness.Common.{ℕ, ◌+◌, ◌≤◌, ◌≡◌, refl, ap, sym, subst, arith, true, false, Text}
use echocoding_harness.Contracts.Value.{
  Value, null, boolean, number, non_finite, string, bigint, undefined, array, object, Items, nil,
  cons, Fields, end, field, accessor,
}
use echocoding_harness.Tools.Normalize.Order.{InOrder, Arranged, InOrder-sorted, Arranged-sorted}
use echocoding_harness.Tools.Normalize.{
  Checked, valid, invalid, ◌>>=◌, enter, sorted, check_node, check_items, check_fields, normalized,
  to_normalization, normalize_tool_input,
}

-- The nodes of a value, and the depth of its deepest one.
unfoldable mutual
  pub nodes : Value → ℕ
  nodes (array items) = 1 + nodes_items items
  nodes (object plain fields) = 1 + nodes_fields fields
  nodes null = 1
  nodes (boolean b) = 1
  nodes (number t) = 1
  nodes non_finite = 1
  nodes (string s) = 1
  nodes (bigint t) = 1
  nodes undefined = 1

  pub nodes_items : Items → ℕ
  nodes_items nil = 0
  nodes_items (cons v items) = nodes v + nodes_items items

  pub nodes_fields : Fields → ℕ
  nodes_fields end = 0
  nodes_fields (field k v fs) = nodes v + nodes_fields fs
  nodes_fields (accessor k v fs) = nodes v + nodes_fields fs

-- Every node of the value lies at most at the limit, when the value itself lies at a depth.
unfoldable mutual
  pub Shallow : ℕ → Value → Type 0
  Shallow d (array items) = (d ≤ 32) × ShallowItems (d + 1) items
  Shallow d (object plain fields) = (d ≤ 32) × ShallowFields (d + 1) fields
  Shallow d null = d ≤ 32
  Shallow d (boolean b) = d ≤ 32
  Shallow d (number t) = d ≤ 32
  Shallow d non_finite = d ≤ 32
  Shallow d (string s) = d ≤ 32
  Shallow d (bigint t) = d ≤ 32
  Shallow d undefined = d ≤ 32

  pub ShallowItems : ℕ → Items → Type 0
  ShallowItems d nil = Unit
  ShallowItems d (cons v items) = Shallow d v × ShallowItems d items

  pub ShallowFields : ℕ → Fields → Type 0
  ShallowFields d end = Unit
  ShallowFields d (field k v fs) = Shallow d v × ShallowFields d fs
  ShallowFields d (accessor k v fs) = Shallow d v × ShallowFields d fs

bind-valid :
    {A B : Type 0} (m : Checked A) (f : A → Checked B) (b : B)
    → (m >>= f) ≡ valid b
    → (a : A) × (m ≡ valid a) × (f a ≡ valid b)
bind-valid (valid a) f b h = (a, refl, h)
bind-valid (invalid t) f b h = absurd (cc)

enter-valid : (d n k : ℕ) → enter d n ≡ valid k → (k ≡ n + 1) × (d ≤ 32) × (k ≤ 10000)
enter-valid d n k h = ground (arith, h)

-- What a check that passed shows of a value at depth `d`, met after `n` nodes.
record Passed (d n : ℕ) (v : Value) (r : Value × ℕ) : Type 0 where
  same : r.0 ≡ v
  counted : r.1 ≡ n + nodes v
  bounded : r.1 ≤ 10000
  shallow : Shallow d v

record PassedItems (d n : ℕ) (items : Items) (r : Items × ℕ) : Type 0 where
  same : r.0 ≡ items
  counted : r.1 ≡ n + nodes_items items
  bounded : n ≤ 10000 → r.1 ≤ 10000
  shallow : ShallowItems d items

record PassedFields (d n : ℕ) (fs : Fields) (r : Fields × ℕ) : Type 0 where
  same : r.0 ≡ fs
  counted : r.1 ≡ n + nodes_fields fs
  bounded : n ≤ 10000 → r.1 ≤ 10000
  shallow : ShallowFields d fs

valid-injective : {A : Type 0} {a b : A} → valid a ≡ valid b → a ≡ b
valid-injective h = cc

-- A value without parts.
leaf-Passed :
    (v : Value) (d n : ℕ) (r : Value × ℕ)
    → nodes v ≡ 1
    → (d ≤ 32 → Shallow d v)
    → (enter d n >>= λ k. valid (v, k)) ≡ valid r
    → Passed d n v r
leaf-Passed v d n r one shallow h =
    let (k, entered, rest) = bind-valid (enter d n) (λ k. valid (v, k)) r h in
    let (next, deep, many) = enter-valid d n k entered in
    subst (Passed d n v) (valid-injective rest) (record {
      same = refl;
      counted = omega (arith, next, one);
      bounded = many;
      shallow = shallow deep;
    })

-- A value that is refused once it was entered.
refused-Passed :
    (m : Text) (v : Value) (d n : ℕ) (r : Value × ℕ)
    → (enter d n >>= λ k. invalid m) ≡ valid r
    → Passed d n v r
refused-Passed m v d n r h =
    let (k, entered, rest) = bind-valid (enter d n) (λ k. invalid m) r h in absurd (never m r rest)
  where
    never : (m : Text) (r : Value × ℕ) → invalid m ≡ valid r → ⊥
    never m r e = absurd (cc e)

array-Passed :
    (items : Items) (d n k : ℕ) (c : Items × ℕ) (r : Value × ℕ)
    → enter d n ≡ valid k
    → PassedItems (d + 1) k items c
    → valid (array c.0, c.1) ≡ valid r
    → Passed d n (array items) r
unfolding nodes Shallow
array-Passed items d n k c r entered p h =
    let (next, deep, many) = enter-valid d n k entered in
    subst (Passed d n (array items)) (valid-injective h) (record {
      same = ap array p.same;
      counted = omega (arith, next, p.counted);
      bounded = p.bounded many;
      shallow = (deep, p.shallow);
    })

object-Passed :
    (fs : Fields) (d n k : ℕ) (c : Fields × ℕ) (r : Value × ℕ)
    → enter d n ≡ valid k
    → PassedFields (d + 1) k fs c
    → valid (object true c.0, c.1) ≡ valid r
    → Passed d n (object true fs) r
unfolding nodes Shallow
object-Passed fs d n k c r entered p h =
    let (next, deep, many) = enter-valid d n k entered in
    subst (Passed d n (object true fs)) (valid-injective h) (record {
      same = ap (object true) p.same;
      counted = omega (arith, next, p.counted);
      bounded = p.bounded many;
      shallow = (deep, p.shallow);
    })

mutual
  unfolding check_node nodes Shallow

  check_node-Passed :
      (v : Value) (d n : ℕ) (r : Value × ℕ) → check_node v d n ≡ valid r → Passed d n v r
  check_node-Passed null d n r h = leaf-Passed null d n r refl (λ s. s) h
  check_node-Passed (boolean b) d n r h = leaf-Passed (boolean b) d n r refl (λ s. s) h
  check_node-Passed (number t) d n r h = leaf-Passed (number t) d n r refl (λ s. s) h
  check_node-Passed (string s) d n r h = leaf-Passed (string s) d n r refl (λ s. s) h
  check_node-Passed non_finite d n r h = refused-Passed _ non_finite d n r h
  check_node-Passed (bigint t) d n r h = refused-Passed _ (bigint t) d n r h
  check_node-Passed undefined d n r h = refused-Passed _ undefined d n r h
  check_node-Passed (object false fs) d n r h = refused-Passed _ (object false fs) d n r h
  check_node-Passed (array items) d n r h =
      let (k, entered, rest) =
        bind-valid (enter d n) (λ k. check_items items (d + 1) k >>= λ c. valid (array c.0, c.1)) r
          h in
      let (c, checked, last) =
        bind-valid (check_items items (d + 1) k) (λ c. valid (array c.0, c.1)) r rest in
      array-Passed items d n k c r entered (check_items-Passed items (d + 1) k c checked) last
  check_node-Passed (object true fs) d n r h =
      let (k, entered, rest) =
        bind-valid (enter d n)
          (λ k. check_fields fs (d + 1) k >>= λ c. valid (object true c.0, c.1)) r h in
      let (c, checked, last) =
        bind-valid (check_fields fs (d + 1) k) (λ c. valid (object true c.0, c.1)) r rest in
      object-Passed fs d n k c r entered (check_fields-Passed fs (d + 1) k c checked) last

  check_items-Passed :
      (items : Items) (d n : ℕ) (r : Items × ℕ)
      → check_items items d n ≡ valid r
      → PassedItems d n items r
  check_items-Passed nil d n r h =
      subst (PassedItems d n nil) (valid-injective h)
        (record { same = refl; counted = omega arith; bounded = λ b. b; shallow = tt })
  check_items-Passed (cons v items) d n r h =
      let (a, first, rest) =
        bind-valid (check_node v d n)
          (λ a. check_items items d a.1 >>= λ c. valid (cons a.0 c.0, c.1)) r h in
      let (c, others, last) =
        bind-valid (check_items items d a.1) (λ c. valid (cons a.0 c.0, c.1)) r rest in
      let p = check_node-Passed v d n a first in
      let q = check_items-Passed items d a.1 c others in
      subst (PassedItems d n (cons v items)) (valid-injective last) (record {
        same = ap₂ cons p.same q.same;
        counted = omega (arith, p.counted, q.counted);
        bounded = λ _. q.bounded p.bounded;
        shallow = (p.shallow, q.shallow);
      })

  check_fields-Passed :
      (fs : Fields) (d n : ℕ) (r : Fields × ℕ)
      → check_fields fs d n ≡ valid r
      → PassedFields d n fs r
  check_fields-Passed end d n r h =
      subst (PassedFields d n end) (valid-injective h)
        (record { same = refl; counted = omega arith; bounded = λ b. b; shallow = tt })
  check_fields-Passed (accessor k v fs) d n r h = absurd (cc h)
  check_fields-Passed (field k v fs) d n r h =
      let (a, first, rest) =
        bind-valid (check_node v d n)
          (λ a. check_fields fs d a.1 >>= λ c. valid (field k a.0 c.0, c.1)) r h in
      let (c, others, last) =
        bind-valid (check_fields fs d a.1) (λ c. valid (field k a.0 c.0, c.1)) r rest in
      let p = check_node-Passed v d n a first in
      let q = check_fields-Passed fs d a.1 c others in
      subst (PassedFields d n (field k v fs)) (valid-injective last) (record {
        same = ap₂ (field k) p.same q.same;
        counted = omega (arith, p.counted, q.counted);
        bounded = λ _. q.bounded p.bounded;
        shallow = (p.shallow, q.shallow);
      })

of_checked :
    (v w : Value) (o : Checked (Value × ℕ))
    → check_node v 0 0 ≡ o
    → to_normalization o ≡ normalized w
    → (w ≡ v) × (nodes w ≤ 10000) × Shallow 0 w
of_checked v w (invalid m) checked h = absurd (cc h)
of_checked v w (valid (u, n)) checked h =
    let p = check_node-Passed v 0 0 (u, n) checked in
    let same : w ≡ v = cc (h, p.same) in
    (
      same,
      subst (λ u. nodes u ≤ 10000) (sym same) (omega (arith, p.counted, p.bounded)),
      subst (Shallow 0) (sym same) p.shallow,
    )

-- Arguments that pass are handed on with the keys of each object in order, by code units, and are
-- otherwise unchanged; they have at most 10000 nodes, and none of these lies deeper than 32.
pub normalize_tool_input-bounds :
    (v w : Value)
    → normalize_tool_input v ≡ normalized w
    → InOrder w × Arranged v w × (nodes w ≤ 10000) × Shallow 0 w
unfolding normalize_tool_input
normalize_tool_input-bounds v w h =
    let (same, few, shallow) = of_checked (sorted v) w (check_node (sorted v) 0 0) refl h in
    (
      subst InOrder (sym same) (InOrder-sorted v),
      subst (Arranged v) (sym same) (Arranged-sorted v),
      few,
      shallow,
    )

-- ===== src/Common/Regex.antt =====
-- Regular expressions of the language with the flag u, matched by backtracking: the alternatives in
-- order, repetitions greedy, a repetition of nothing refused. `i` is the flag i. With it letters are
-- compared by simple case folding, in which the long s and the Kelvin sign are s and k.
use Prim.Native.String.{String}
use Prim.Native.Char.{code}
use Prim.Native.Nat.{ℕ, zero, suc, ◌+◌, ◌-◌, ◌*◌, ◌/◌, ◌%◌}
use mathlib.Core.Path.{◌≡◌, refl}
use mathlib.Core.Bool.{Bool, true, false, xor, ◌&&◌, ◌||◌}
use mathlib.Core.Option.{Option, none, some}
use mathlib.Core.List.{List, [], ◌∷◌}
use echocoding_harness.Common.Tests.{ltb, leb, ◌==◌, if◌then◌else◌}
use echocoding_harness.Common.Lists.{length, take, any}
use echocoding_harness.Common.Strings.{Text, units}

-- An item of a class: `a-z`, `\s`, `\d` or `\w`.
pub data Item : Type 0 where
  between : (low high : ℕ) → Item
  space digit word : Item

pub data Re : Type 0 where
  nothing : Re
  set : (negated : Bool) → List Item → Re
  seq alt : Re → Re → Re
  star : Re → Re
  -- the group that is captured, and a lookahead
  group ahead : Re → Re
  -- `^`, `$` and `\b`
  start finish boundary : Re

-- A place in a text: the characters before it, the last one first, and those after it.
pub record Place : Type 0 where
  pub before : List ℕ
  pub after : List ℕ
  pub captured : Option (List ℕ)

is_space : ℕ → Bool
is_space c =
    (leb 9 c && leb c 13)
    || c == 32
    || c == 160
    || c == 5760
    || (leb 8192 c && leb c 8202)
    || c == 8232
    || c == 8233
    || c == 8239
    || c == 8287
    || c == 12288
    || c == 65279

is_digit : ℕ → Bool
is_digit c = leb 48 c && leb c 57

is_upper : ℕ → Bool
is_upper c = leb 65 c && leb c 90

is_lower : ℕ → Bool
is_lower c = leb 97 c && leb c 122

is_word : ℕ → Bool
unfolding is_digit is_upper is_lower
is_word c = is_digit c || is_upper c || is_lower c || c == 95

-- The other characters that a character is compared equal to under the flag i.
variants : ℕ → List ℕ
unfolding is_upper is_lower
variants c =
    if c == 75 || c == 107 || c == 8490
    then 75 ∷ 107 ∷ 8490 ∷ []
    else if c == 83 || c == 115 || c == 383
    then 83 ∷ 115 ∷ 383 ∷ []
    else if is_upper c
    then (c + 32) ∷ []
    else if is_lower c
    then (c - 32) ∷ []
    else []

in_item : ℕ → Item → Bool
unfolding is_space is_digit is_word
in_item c (between low high) = leb low c && leb c high
in_item c space = is_space c
in_item c digit = is_digit c
in_item c word = is_word c

module _ (i : Bool) where
  unfoldable pub is_in_set : List Item → ℕ → Bool
  unfolding in_item variants
  is_in_set items c = any (in_item c) items || (i && any (λ d. any (in_item d) items) (variants c))

  word_before : List ℕ → Bool
  unfolding is_in_set
  word_before [] = false
  word_before (c ∷ _) = is_in_set (word ∷ []) c

  at_boundary : Place → Bool
  unfolding word_before
  at_boundary p = xor (word_before p.before) (word_before p.after)

  abbrev Rest : Type 0
  Rest = Place → Option Place

  abbrev step_over : Bool → List Item → List ℕ → Rest → Place → Option Place
  step_over negated items [] k p = none
  step_over negated items (c ∷ s) k p = elim (xor (is_in_set items c) negated) [
    | true ↦ k (record p { before = c ∷ p.before; after = s })
    | false ↦ none
  ]

  -- One more round of a greedy repetition, unless it takes nothing; then what follows it.
  repeat : (Rest → Rest) → ℕ → Rest → Rest
  repeat m zero k p = k p
  repeat m (suc f) k p =
      elim (m
        (λ q. elim (ltb (length q.after) (length p.after)) [ true ↦ repeat m f k q | false ↦ none ])
        p) [ some q ↦ some q | none ↦ k p ]

  abbrev is_empty : List ℕ → Bool
  is_empty [] = true
  is_empty (_ ∷ _) = false

  abbrev capture : Place → Place → Place
  capture p q = record q { captured = some (take (length p.after - length q.after) p.after) }

  unfoldable pub match : Re → Rest → Rest
  unfolding repeat at_boundary is_in_set word_before in_item is_space is_digit is_word is_upper
      is_lower variants xor
  match nothing k p = k p
  match (set negated items) k p = step_over negated items p.after k p
  match (seq r s) k p = match r (match s k) p
  match (alt r s) k p = elim (match r k p) [ some q ↦ some q | none ↦ match s k p ]
  match (star r) k p = repeat (match r) (suc (length p.after)) k p
  match (group r) k p = match r (λ q. k (capture p q)) p
  match (ahead r) k p = elim (match r (λ q. some q) p) [
    | some q ↦ k (record p { captured = q.captured })
    | none ↦ none
  ]
  match start k p = elim (is_empty p.before) [ true ↦ k p | false ↦ none ]
  match finish k p = elim (is_empty p.after) [ true ↦ k p | false ↦ none ]
  match boundary k p = elim (at_boundary p) [ true ↦ k p | false ↦ none ]

  -- The first place from which the expression matches: that place and the end of the match.
  unfoldable pub search_from : Re → List ℕ → List ℕ → Option (Place × Place)
  unfolding match
  search_from r before [] =
      let p : Place = record { before = before; after = []; captured = none } in
      elim (match r (λ q. some q) p) [ some q ↦ some (p, q) | none ↦ none ]
  search_from r before (c ∷ s) =
      let p : Place = record { before = before; after = c ∷ s; captured = none } in
      elim (match r (λ q. some q) p) [ some q ↦ some (p, q) | none ↦ search_from r (c ∷ before) s ]

-- A surrogate pair is one character.
unfoldable pub characters : Text → List ℕ
characters [] = []
characters (c ∷ []) = c ∷ []
characters (c ∷ d ∷ s) =
    let pair = characters s in
    let single = characters (d ∷ s) in
    if leb 55296 c && ltb c 56320 && leb 56320 d && ltb d 57344
    then (65536 + (c - 55296) * 1024 + (d - 56320)) ∷ pair
    else c ∷ single

-- Back to code units.
unfoldable pub code_units : List ℕ → Text
code_units [] = []
code_units (c ∷ s) =
    let rest = code_units s in
    if ltb c 65536
    then c ∷ rest
    else (55296 + (c - 65536) / 1024) ∷ (56320 + (c - 65536) % 1024) ∷ rest

abbrev pub found : Option (Place × Place) → Bool
found none = false
found (some _) = true

-- `expression.test(text)`
unfoldable pub test : Bool → Re → Text → Bool
unfolding search_from characters
test i r s = found (search_from i r [] (characters s))

-- What `text.matchAll(expression)` captures, match after match; an empty match moves on by one.
abbrev or_none : Option (List ℕ) → List Text → List Text
or_none none rest = rest
or_none (some t) rest = code_units t ∷ rest

abbrev advance : Place → List ℕ → Option Place
advance q [] = none
advance q (c ∷ s) = some (record q { before = c ∷ q.before; after = s })

abbrev move_on : Place → Place → Option Place
move_on p q = elim (ltb (length q.after) (length p.after)) [
  | true ↦ some q
  | false ↦ advance q q.after
]

captures_from : ℕ → Bool → Re → Option Place → List Text
unfolding search_from code_units
captures_from zero i r p = []
captures_from (suc f) i r none = []
captures_from (suc f) i r (some p) = elim (search_from i r p.before p.after) [
  | none ↦ []
  | some (a, q) ↦ or_none q.captured (captures_from f i r (move_on a q))
]

unfoldable pub captures : Bool → Re → Text → List Text
unfolding captures_from characters
captures i r s =
    captures_from (suc (length (characters s))) i r
      (some (record { before = []; after = characters s; captured = none }))

-- Short forms.
unfoldable pub only : String → List Item
only String.[] = []
only (String.◌∷◌ c s) = between (code c) (code c) ∷ only s

unfoldable pub lit : String → Re
lit String.[] = nothing
lit (String.◌∷◌ c s) = seq (set false (between (code c) (code c) ∷ [])) (lit s)

infixr 6 ◌··◌
abbrev pub ◌··◌ : Re → Re → Re
r ·· s = seq r s

unfoldable pub choice : List Re → Re
choice [] = set false []
choice (r ∷ []) = r
choice (r ∷ s ∷ rs) = alt r (choice (s ∷ rs))

unfoldable pub words : List String → Re
unfolding lit
words [] = set false []
words (w ∷ []) = lit w
words (w ∷ v ∷ ws) = alt (lit w) (words (v ∷ ws))

abbrev pub optional : Re → Re
optional r = alt r nothing

abbrev pub plus : Re → Re
plus r = seq r (star r)

abbrev pub any_character : Re
any_character = set true []

abbrev pub white : Re
white = set false (space ∷ [])

boundary_test :
    test true (boundary ·· words ("rm" ∷ "del" ∷ []) ·· boundary) (units "x; DEL y") ≡ true
unfolding test search_from match words characters units repeat at_boundary is_in_set word_before
    in_item is_space is_digit is_word is_upper is_lower variants xor
boundary_test = refl

captures_test :
    captures false (lit "'" ·· group (plus (set true (only "'"))) ·· lit "'") (units "a 'b c' 'd'")
    ≡ units "b c" ∷ units "d" ∷ []
unfolding captures search_from match lit only characters code_units units
captures_test = refl

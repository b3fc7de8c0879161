-- ===== src/Provider/Streaming/Fragments.antt =====
-- What is collected of each call, from the fragments that have its index.
use echocoding_harness.Common.{
  ℕ, ◌≤◌, ◌≡◌, refl, ap, sym, ◌∙◌, arith, ◌&&◌, Bool, true, false, not, ltb, ◌==◌, ==_iff, all,
  Option, none, some, List, [], ◌∷◌, ◌++◌, append-nil, append_assoc, map, filter, if◌then◌else◌,
  Text,
}
use echocoding_harness.Contracts.Value.{Value}
use echocoding_harness.Provider.Streaming.{
  Collected, Entries, find, store, or_new, index_of, id_of, name_of, arguments_of, or_current,
  merge, collect_at, collect_from, insert_entry, sort_entries, tool_call, collected_entries,
  collect_streamed_tool_calls,
}

find-store :
    (i j : ℕ) (c : Collected) (m : Entries)
    → find j (store i c m) ≡ (if i == j then some c else find j m)
find-store i j c [] = ground arith
find-store i j c ((k, d) ∷ m) =
    ground (arith, find-store i j c m, ==_iff k i, ==_iff k j, ==_iff i j)

find-insert_entry :
    (i j : ℕ) (c : Collected) (m : Entries)
    → find j (insert_entry i c m) ≡ (if i == j then some c else find j m)
unfolding insert_entry
find-insert_entry i j c [] = ground arith
find-insert_entry i j c ((k, d) ∷ m) = ground (arith, find-insert_entry i j c m)

find-sort_entries : (j : ℕ) (m : Entries) → find j (sort_entries m) ≡ find j m
unfolding sort_entries
find-sort_entries j [] = refl
find-sort_entries j ((i, c) ∷ m) =
    ground (arith, find-insert_entry i j c (sort_entries m), find-sort_entries j m)

-- The indices rise.
unfoldable pub rises : Entries → Bool
rises [] = true
rises ((i, c) ∷ m) = all (λ e. ltb i e.0) m && rises m

abbrev absent : ℕ → Entries → Bool
absent i m = all (λ e. not (e.0 == i)) m

-- Each index has one entry.
once : Entries → Bool
once [] = true
once ((i, c) ∷ m) = absent i m && once m

abbrev above : ℕ → Entries → Bool
above b m = all (λ e. ltb b e.0) m

above-insert_entry :
    (b i : ℕ) (c : Collected) (m : Entries) → above b (insert_entry i c m) ≡ (ltb b i && above b m)
unfolding insert_entry
above-insert_entry b i c [] = refl
above-insert_entry b i c ((k, d) ∷ m) = ground (arith, above-insert_entry b i c m)

above-less : (a b : ℕ) (m : Entries) → a ≤ b → above b m ≡ true → above a m ≡ true
above-less a b [] h r = refl
above-less a b ((k, d) ∷ m) h r = ground (arith, h, r, above-less a b m h)

absent-insert_entry :
    (b i : ℕ) (c : Collected) (m : Entries)
    → absent b (insert_entry i c m) ≡ (not (i == b) && absent b m)
unfolding insert_entry
absent-insert_entry b i c [] = refl
absent-insert_entry b i c ((k, d) ∷ m) = ground (arith, absent-insert_entry b i c m)

absent-sort_entries : (b : ℕ) (m : Entries) → absent b (sort_entries m) ≡ absent b m
unfolding sort_entries
absent-sort_entries b [] = refl
absent-sort_entries b ((i, c) ∷ m) =
    ground (arith, absent-insert_entry b i c (sort_entries m), absent-sort_entries b m)

absent-store :
    (b i : ℕ) (c : Collected) (m : Entries) → absent b (store i c m) ≡ (not (i == b) && absent b m)
absent-store b i c [] = refl
absent-store b i c ((k, d) ∷ m) =
    ground (arith, absent-store b i c m, ==_iff k i, ==_iff k b, ==_iff i b)

once-store : (i : ℕ) (c : Collected) (m : Entries) → once m ≡ true → once (store i c m) ≡ true
unfolding once
once-store i c [] u = refl
once-store i c ((k, d) ∷ m) u =
    ground (arith, u, once-store i c m, absent-store k i c m, ==_iff k i, ==_iff i k)

once-collect_at :
    (o : Option ℕ) (f : Value) (m : Entries) → once m ≡ true → once (collect_at o f m) ≡ true
once-collect_at none f m u = u
once-collect_at (some i) f m u = once-store i (merge f (or_new (find i m))) m u

once-collect_from :
    (fs : List Value) (m : Entries) → once m ≡ true → once (collect_from fs m) ≡ true
unfolding collect_from
once-collect_from [] m u = u
once-collect_from (f ∷ fs) m u =
    once-collect_from fs (collect_at (index_of f) f m) (once-collect_at (index_of f) f m u)

rises-insert_entry :
    (i : ℕ) (c : Collected) (m : Entries)
    → absent i m ≡ true
    → rises m ≡ true
    → rises (insert_entry i c m) ≡ true
unfolding rises insert_entry
rises-insert_entry i c [] a r = refl
rises-insert_entry i c ((k, d) ∷ m) a r = ground (
  arith,
  a,
  r,
  rises-insert_entry i c m,
  above-insert_entry k i c m,
  above-less i k m,
  ==_iff k i,
)

rises-sort_entries : (m : Entries) → once m ≡ true → rises (sort_entries m) ≡ true
unfolding rises sort_entries once
rises-sort_entries [] u = refl
rises-sort_entries ((i, c) ∷ m) u =
    rises-insert_entry i c (sort_entries m) (ground (arith, u, absent-sort_entries i m))
      (rises-sort_entries m (ground (arith, u)))

-- The fragments of an index.
abbrev is_index : ℕ → Option ℕ → Bool
is_index i none = false
is_index i (some j) = j == i

abbrev pub with_index : ℕ → List Value → List Value
with_index i = filter (λ f. is_index i (index_of f))

-- The last text that is not empty, or the empty one.
abbrev pub last_text : (Value → Text) → List Value → Text
last_text f [] = []
last_text f (v ∷ vs) = or_current (last_text f vs) (f v)

abbrev pub texts : (Value → Text) → List Value → Text
texts f [] = []
texts f (v ∷ vs) = f v ++ texts f vs

-- The call that fragments with one index tell: the last id and the last name, and all arguments in order.
abbrev pub described : List Value → Option Collected
described [] = none
described (v ∷ vs) = some (record {
  id = last_text id_of (v ∷ vs);
  name = last_text name_of (v ∷ vs);
  args = texts arguments_of (v ∷ vs);
})

or_current-nil : (t : Text) → or_current t [] ≡ t
or_current-nil [] = refl
or_current-nil (c ∷ t) = refl

or_current_assoc : (a b c : Text) → or_current a (or_current b c) ≡ or_current (or_current a b) c
or_current_assoc [] b c = refl
or_current_assoc (x ∷ a) b c = refl

-- The fragments of one index, merged in their order.
absorb : List Value → Option Collected → Option Collected
absorb [] o = o
absorb (v ∷ vs) o = absorb vs (some (merge v (or_new o)))

find-collect_at :
    (o : Option ℕ) (f : Value) (m : Entries) (i : ℕ)
    → find i (collect_at o f m)
      ≡ (if is_index i o then some (merge f (or_new (find i m))) else find i m)
find-collect_at none f m i = refl
find-collect_at (some j) f m i =
    ground
      (arith, find-store j i (merge f (or_new (find j m))) m, ==_iff j i, ap (λ (k : ℕ). find k m))

find-collect_from :
    (fs : List Value) (m : Entries) (i : ℕ)
    → find i (collect_from fs m) ≡ absorb (with_index i fs) (find i m)
unfolding collect_from absorb
find-collect_from [] m i = refl
find-collect_from (f ∷ fs) m i =
    find-collect_from fs (collect_at (index_of f) f m) i
    ∙ ap (absorb (with_index i fs)) (find-collect_at (index_of f) f m i)
    ∙ one (is_index i (index_of f))
  where
    one :
        (b : Bool)
        → absorb (with_index i fs) (if b then some (merge f (or_new (find i m))) else find i m)
          ≡ absorb (if b then f ∷ with_index i fs else with_index i fs) (find i m)
    one true = refl
    one false = refl

absorb-some :
    (vs : List Value) (c : Collected)
    → absorb vs (some c)
      ≡ some (record {
        id = or_current (last_text id_of vs) c.id;
        name = or_current (last_text name_of vs) c.name;
        args = c.args ++ texts arguments_of vs;
      })
unfolding absorb merge
absorb-some [] c = λ i. some (record { id = c.id; name = c.name; args = sym (append-nil c.args) i })
absorb-some (v ∷ vs) c = absorb-some vs (merge v c) ∙ λ i. some (record {
  id = or_current_assoc (last_text id_of vs) (id_of v) c.id i;
  name = or_current_assoc (last_text name_of vs) (name_of v) c.name i;
  args = append_assoc c.args (arguments_of v) (texts arguments_of vs) i;
})

absorb-described : (vs : List Value) → absorb vs none ≡ described vs
unfolding absorb merge
absorb-described [] = refl
absorb-described (v ∷ vs) = absorb-some vs (merge v (or_new none)) ∙ λ i. some (record {
  id = or_current (last_text id_of vs) (or_current-nil (id_of v) i);
  name = or_current (last_text name_of vs) (or_current-nil (name_of v) i);
  args = texts arguments_of (v ∷ vs);
})

-- The tool calls are those of entries whose indices rise, and the entry of an index holds the last id
-- and the last name that fragments with this index tell, and all their arguments in order; where no
-- fragment has the index there is no entry.
pub collect_streamed-described :
    (fragments : List Value)
    → (entries : Entries) × (collect_streamed_tool_calls fragments ≡ map tool_call entries)
      × (rises entries ≡ true)
      × ((i : ℕ) → find i entries ≡ described (with_index i fragments))
unfolding collect_streamed_tool_calls collected_entries once
collect_streamed-described fragments = (
  collected_entries fragments,
  refl,
  rises-sort_entries (collect_from fragments []) (once-collect_from fragments [] refl),
  λ i.
      find-sort_entries i (collect_from fragments [])
      ∙ find-collect_from fragments [] i
      ∙ absorb-described (with_index i fragments),
)

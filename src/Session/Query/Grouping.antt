-- ===== src/Session/Query/Grouping.antt =====
-- The grouping of events against its description.
use echocoding_harness.Common.{
  ◌≡◌, refl, ap, sym, ◌∙◌, arith, Option-cases, inl, inr, Bool, true, false, Option, none, some,
  List, [], ◌∷◌, ◌++◌, map, append-nil, append_assoc, filter, if◌then◌else◌, Text, text_eq,
  text_eq_iff, mem_text, mem_text-append, add_text, lookup, lookup-insert,
}
use echocoding_harness.Contracts.Event.{Event}
use echocoding_harness.Session.Query.{
  TurnQuery, Groups, no_groups, group_event, group_from, or_nil, view_groups, turn_status,
  step_query, turn_key, step_key, turn_query, to_turn_queries,
}

abbrev pub is_key : Text → Option Text → Bool
is_key k none = false
is_key k (some j) = text_eq j k

-- The keys of the events, each once, in the order in which they come first.
abbrev add_key : Option Text → List Text → List Text
add_key none keys = keys
add_key (some k) keys = add_text k keys

unfoldable pub keys_from : (Event → Option Text) → List Text → List Event → List Text
keys_from key keys [] = keys
keys_from key keys (e ∷ es) = keys_from key (add_key (key e) keys) es

-- The events of a key, in their order.
abbrev pub with_key : (Event → Option Text) → Text → List Event → List Event
with_key key k = filter (λ e. is_key k (key e))

abbrev is_some : Option (List Event) → Bool
is_some none = false
is_some (some _) = true

events_of : Text → Groups → List Event
events_of k g = or_nil (lookup k g.grouped)

-- The keys of the map are those of the list.
abbrev Same : Groups → Type 0
Same g = (k : Text) → mem_text k g.order ≡ is_some (lookup k g.grouped)

module _ (k : Text) (e : Event) (g : Groups) where
  Same-group_event : Same g → Same (group_event (some k) e g)
  unfolding mem_text
  Same-group_event s j = elim (Option-cases (lookup k g.grouped)) [
    | inl n ↦ rw n (
        ground
          (arith, lookup-insert k j (e ∷ []) g.grouped, mem_text-append j g.order (k ∷ []), s j, n))
    | inr (es, h) ↦ rw h (
        ground (
          arith,
          lookup-insert k j (es ++ e ∷ []) g.grouped,
          s j,
          h,
          text_eq_iff k j,
          ap (λ (i : Text). lookup i g.grouped),
        ))
  ]

  order-group_event : Same g → (group_event (some k) e g).order ≡ add_text k g.order
  unfolding add_text
  order-group_event s = elim (Option-cases (lookup k g.grouped)) [
    | inl n ↦ ground (arith, s k, n)
    | inr (es, h) ↦ ground (arith, s k, h)
  ]

  events_of-group_event :
      (j : Text)
      → events_of j (group_event (some k) e g) ≡ events_of j g ++ filter (λ _. text_eq k j) (e ∷ [])
  unfolding events_of
  events_of-group_event j = elim (Option-cases (lookup k g.grouped)) [
    | inl n ↦ rw n (
        ground (
          arith,
          lookup-insert k j (e ∷ []) g.grouped,
          n,
          text_eq_iff k j,
          ap (λ (i : Text). lookup i g.grouped),
          append-nil (or_nil (lookup j g.grouped)),
        ))
    | inr (es, h) ↦ rw h (
        ground (
          arith,
          lookup-insert k j (es ++ e ∷ []) g.grouped,
          h,
          text_eq_iff k j,
          ap (λ (i : Text). lookup i g.grouped),
          append-nil (or_nil (lookup j g.grouped)),
        ))
  ]

module _ (key : Event → Option Text) where
  Same-step : (o : Option Text) (e : Event) (g : Groups) → Same g → Same (group_event o e g)
  Same-step none e g s = s
  Same-step (some k) e g s = Same-group_event k e g s

  order-step :
      (o : Option Text) (e : Event) (g : Groups)
      → Same g
      → (group_event o e g).order ≡ add_key o g.order
  order-step none e g s = refl
  order-step (some k) e g s = order-group_event k e g s

  events_of-step :
      (o : Option Text) (e : Event) (g : Groups) (j : Text)
      → events_of j (group_event o e g) ≡ events_of j g ++ filter (λ _. is_key j o) (e ∷ [])
  events_of-step none e g j = sym (append-nil (events_of j g))
  events_of-step (some k) e g j = events_of-group_event k e g j

  order-group_from :
      (es : List Event) (g : Groups)
      → Same g
      → (group_from key es g).order ≡ keys_from key g.order es
  unfolding group_from keys_from
  order-group_from [] g s = refl
  order-group_from (e ∷ es) g s =
      order-group_from es (group_event (key e) e g) (Same-step (key e) e g s)
      ∙ ap (λ keys. keys_from key keys es) (order-step (key e) e g s)

  events_of-group_from :
      (es : List Event) (g : Groups) (j : Text)
      → events_of j (group_from key es g) ≡ events_of j g ++ with_key key j es
  unfolding group_from
  events_of-group_from [] g j = sym (append-nil (events_of j g))
  events_of-group_from (e ∷ es) g j =
      events_of-group_from es (group_event (key e) e g) j
      ∙ ap (λ l. l ++ with_key key j es) (events_of-step (key e) e g j)
      ∙ append_assoc (events_of j g) (filter (λ _. is_key j (key e)) (e ∷ [])) (with_key key j es)
      ∙ ap (λ l. events_of j g ++ l) (one j e (is_key j (key e)) es)
    where
      one :
          (j : Text) (e : Event) (b : Bool) (es : List Event)
          → filter (λ _. b) (e ∷ []) ++ with_key key j es
            ≡ (if b then e ∷ with_key key j es else with_key key j es)
      one j e true es = refl
      one j e false es = refl

  Same-no_groups : Same no_groups
  unfolding lookup mem_text
  Same-no_groups k = refl

  view_groups_lem :
      {A : Type 0} (view : Text → List Event → A) (es : List Event)
      → view_groups view (group_from key es no_groups)
        ≡ map (λ k. view k (with_key key k es)) (keys_from key [] es)
  unfolding events_of lookup
  view_groups_lem view es =
      ap (map (λ k. view k (events_of k (group_from key es no_groups))))
        (order-group_from es no_groups Same-no_groups)
      ∙ ap (λ (f : Text → List Event). map (λ k. view k (f k)) (keys_from key [] es))
          (λ i k. events_of-group_from es no_groups k i)

-- The description: for every key the events that have it.
abbrev pub described_turn : Text → List Event → TurnQuery
described_turn id events = record {
  turn_id = id;
  status = turn_status events;
  steps = map (λ k. step_query k (with_key step_key k events)) (keys_from step_key [] events);
  events = events;
}

-- The view of a log has a turn for each turn id, in the order in which they come first, with the
-- events of that id in their order, and each turn has its steps in the same way.
pub to_turn_queries-described :
    (events : List Event)
    → to_turn_queries events
      ≡ map (λ t. described_turn t (with_key turn_key t events)) (keys_from turn_key [] events)
unfolding to_turn_queries
to_turn_queries-described events =
    view_groups_lem turn_key turn_query events
    ∙ ap
        (λ (f : Text → List Event → TurnQuery).
          map (λ t. f t (with_key turn_key t events)) (keys_from turn_key [] events))
        (λ i t es. record {
          turn_id = t;
          status = turn_status es;
          steps = view_groups_lem step_key step_query es i;
          events = es;
        })

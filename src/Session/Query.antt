-- ===== src/Session/Query.antt =====
-- session/session-query.ts: the turns of a log with their steps, and its schema version.
pub mod Runtime
pub mod Grouping
pub mod Recoverable
pub mod Resumed
use echocoding_harness.Common.{
  ℕ, Option, none, some, List, [], ◌∷◌, ◌++◌, map, Text, lookup, insert,
}
use echocoding_harness.Contracts.Event.{
  Event, Payload, Status, AgentResult, ProviderIdentity, session_started, step_started,
  turn_completed, turn_failed, turn_cancelled,
}

pub record StepQuery : Type 0 where
  pub step_id : Text
  pub step : ℕ
  pub events : List Event

pub record TurnQuery : Type 0 where
  pub turn_id : Text
  pub status : Option Status
  pub steps : List StepQuery
  pub events : List Event

-- The variables of the loops of `toTurnQueries`: `order` and `grouped`, `stepOrder` and `steps`.
pub record Groups : Type 0 where
  pub order : List Text
  pub grouped : List (Text × List Event)

abbrev pub no_groups : Groups
no_groups = record { order = []; grouped = [] }

abbrev pub add_to_group : Text → Event → Groups → Option (List Event) → Groups
add_to_group k e g none = record {
  order = g.order ++ k ∷ [];
  grouped = insert k (e ∷ []) g.grouped;
}
add_to_group k e g (some existing) = record {
  order = g.order;
  grouped = insert k (existing ++ e ∷ []) g.grouped;
}

abbrev pub group_event : Option Text → Event → Groups → Groups
group_event none e g = g
group_event (some k) e g = add_to_group k e g (lookup k g.grouped)

unfoldable pub group_from : (Event → Option Text) → List Event → Groups → Groups
group_from key [] g = g
group_from key (e ∷ es) g = group_from key es (group_event (key e) e g)

abbrev pub or_nil : Option (List Event) → List Event
or_nil none = []
or_nil (some es) = es

-- The groups in their order, each with a view of its key and its events.
abbrev pub view_groups : {A : Type 0} → (Text → List Event → A) → Groups → List A
view_groups view g = map (λ k. view k (or_nil (lookup k g.grouped))) g.order

-- The last event, from the end, for which there is an answer.
abbrev pub or_else : {A : Type 0} → Option A → Option A → Option A
or_else none o = o
or_else (some a) o = some a

unfoldable pub last_of : {A : Type 0} → (Payload → Option A) → List Event → Option A
last_of f [] = none
last_of f (e ∷ es) = or_else (last_of f es) (f e.payload)

abbrev pub or : {A : Type 0} → A → Option A → A
or a none = a
or a (some b) = b

abbrev pub result_of : Payload → Option AgentResult
result_of (turn_completed r) = some r
result_of (turn_failed r) = some r
result_of (turn_cancelled r) = some r
result_of _ = none

abbrev status_of : Option AgentResult → Option Status
status_of none = none
status_of (some r) = some r.status

unfoldable pub turn_status : List Event → Option Status
unfolding last_of
turn_status events = status_of (last_of result_of events)

-- The number of the first `step.started` of the events, or 0.
abbrev number_or : Payload → ℕ → ℕ
number_or (step_started n) rest = n
number_or _ rest = rest

unfoldable pub step_number : List Event → ℕ
step_number [] = 0
step_number (e ∷ es) = number_or e.payload (step_number es)

abbrev pub step_query : Text → List Event → StepQuery
step_query id events = record { step_id = id; step = step_number events; events = events }

abbrev pub turn_key : Event → Option Text
turn_key e = e.turn_id

abbrev pub step_key : Event → Option Text
step_key e = e.step_id

abbrev pub turn_query : Text → List Event → TurnQuery
turn_query id events = record {
  turn_id = id;
  status = turn_status events;
  steps = view_groups step_query (group_from step_key events no_groups);
  events = events;
}

unfoldable pub to_turn_queries : List Event → List TurnQuery
unfolding group_from turn_status step_number
to_turn_queries events = view_groups turn_query (group_from turn_key events no_groups)

-- The first `session.started`, with its version and provider.
abbrev started_or :
    Payload
    → Option (Option ℕ × Option ProviderIdentity)
    → Option (Option ℕ × Option ProviderIdentity)
started_or (session_started _ _ schema provider _) rest = some (schema, provider)
started_or _ rest = rest

unfoldable pub first_started : List Event → Option (Option ℕ × Option ProviderIdentity)
first_started [] = none
first_started (e ∷ es) = started_or e.payload (first_started es)

abbrev pub version_or : Option (Option ℕ × Option ProviderIdentity) → ℕ
version_or (some (some version, _)) = version
version_or _ = 1

unfoldable pub schema_version_of : List Event → ℕ
unfolding first_started
schema_version_of events = version_or (first_started events)

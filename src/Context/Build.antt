-- ===== src/Context/Build.antt =====
-- context/event-context-builder.ts: the class `EventContextBuilder` and `build`.
pub mod Budget
pub mod Fits
pub mod Request
use echocoding_harness.Common.{
  ℕ, zero, suc, ◌+◌, ◌-◌, ◌*◌, max, Bool, true, false, not, ◌&&◌, ◌==◌, Option, none, some, List,
  [], ◌∷◌, ◌++◌, leb, if◌then◌else◌, length, take, drop, Text, units,
}
use echocoding_harness.Contracts.Error.{EchoError, Category, echo, unknown, Outcome, ok, thrown}
use echocoding_harness.Contracts.Event.{Event}
use echocoding_harness.Agent.Interface.{
  ContextBudget, Message, system, user, Truncation, Projection,
}
use echocoding_harness.Agent.Calls.{failure}
use echocoding_harness.Context.Trim.{truncate_to_limit}
use echocoding_harness.Context.Digests.{
  StepDigest, collect_step_digests, render_step_digest, join_lines, ◌>>=◌,
}
use echocoding_harness.Context.Conversation.{
  ConversationTurn, is_empty, latest_turn, collect_conversation,
}
use echocoding_harness.Context.Messages.{
  projection_tokens, conversation_messages, goal_of, has_reasoning,
}

pub record BuilderOptions : Type 0 where
  pub system_prompt : Text
  pub workspace_summary : Option Text
  pub tool_result_max_chars : Option ℕ

abbrev pub tool_result_default_max_chars : ℕ
tool_result_default_max_chars = 4000

abbrev pub result_limit : Option ℕ → ℕ
result_limit none = tool_result_default_max_chars
result_limit (some n) = n

abbrev pub atomic_group_error : EchoError
atomic_group_error = failure Category.internal (units "CONTEXT_ATOMIC_GROUP_EXCEEDED") (
    units
      "The current turn reasoning, tool calls, and tool results cannot fit in the remaining approximate context budget.")

unfoldable pub budget_for_messages : ContextBudget → ℕ
budget_for_messages b = max 1 (b.max_approx_tokens - b.reserved_output_tokens)

abbrev pub summary_messages_of : Option Text → List Message
summary_messages_of none = []
summary_messages_of (some t) = system t ∷ []

unfoldable pub fixed_messages : BuilderOptions → List Message
fixed_messages o = system o.system_prompt ∷ summary_messages_of o.workspace_summary

abbrev pub goal_messages : Option Text → List Message
goal_messages none = []
goal_messages (some goal) = user goal ∷ []

-- `conversation.slice(-n || undefined)`
unfoldable pub last_turns : ℕ → List ConversationTurn → List ConversationTurn
last_turns zero turns = turns
last_turns (suc n) turns = drop (length turns - suc n) turns

abbrev pub reversed : List ConversationTurn → List ConversationTurn → List ConversationTurn
reversed [] acc = acc
reversed (t ∷ ts) acc = reversed ts (t ∷ acc)

-- What the loop over the turns leaves: the turns from `start` on are kept, with their messages.
pub record Kept : Type 0 where
  pub turns : List (ℕ × List Message)
  pub used : ℕ
  pub start : ℕ
  pub truncations : List Truncation

module _ (limit latest remaining : ℕ) where
  abbrev pub is_atomic : ConversationTurn → List Message → List (ℕ × List Message) → Bool
  is_atomic t messages kept = (t.turn_index == latest) && is_empty kept && not (is_empty messages)

  -- Where a turn does not fit: the loop stops, or throws on the current turn.
  abbrev pub stop_keeping : Bool → Kept → Outcome Kept
  stop_keeping true k = thrown (echo atomic_group_error)
  stop_keeping false k = ok k

  -- The loop, from the last turn back.
  unfoldable pub keep_turns : List ConversationTurn → Kept → Outcome Kept
  keep_turns [] k = ok k
  keep_turns (t ∷ ts) k =
      let (messages, cuts) = conversation_messages limit t in
      let cost = projection_tokens messages in
      let rest = keep_turns ts (record {
        turns = (t.turn_index, messages) ∷ k.turns;
        used = k.used + cost;
        start = length ts;
        truncations = k.truncations ++ cuts;
      }) in
      if leb (k.used + cost) remaining
      then rest
      else stop_keeping (is_atomic t messages k.turns)
          (record k { truncations = k.truncations ++ cuts })

abbrev pub one_if : Bool → ℕ
one_if true = 1
one_if false = 0

abbrev pub turn_events : ConversationTurn → ℕ
turn_events t =
    1
    + length t.tool_calls
    + length t.tool_messages
    + one_if (not (is_empty t.content))
    + one_if (has_reasoning t.reasoning)

unfoldable pub omitted_events : List ConversationTurn → ℕ
omitted_events [] = 0
omitted_events (t ∷ ts) = turn_events t + omitted_events ts

abbrev with_outcome : Option Text → Text → Text
with_outcome none digest = digest
with_outcome (some outcome) digest = digest ++ 10 ∷ outcome

-- The digest of the same place; a missing one is read, which throws.
unfoldable pub summary_lines : List ConversationTurn → List StepDigest → Outcome (List Text)
summary_lines [] ds = ok []
summary_lines (t ∷ ts) [] = thrown unknown
summary_lines (t ∷ ts) (d ∷ ds) = do
  digest ← render_step_digest d
  rest ← summary_lines ts ds
  ok (with_outcome t.outcome digest ∷ rest)

abbrev pub non_empty_message : Text → List Message
non_empty_message [] = []
non_empty_message (c ∷ t) = user (c ∷ t) ∷ []

abbrev pub summary_cut : ℕ → ℕ → Truncation
summary_cut original kept = record {
  reason = units "older step summaries exceeded remaining budget";
  original_size = original;
  kept_size = kept;
}

-- The summary of the omitted turns, after `used` tokens.
unfoldable pub fit_summary : Text → ℕ → ℕ → List Message × List Truncation
fit_summary text used remaining =
    let trimmed = truncate_to_limit text ((remaining - used) * 4) in
    if leb (used + projection_tokens (user text ∷ [])) remaining
    then (user text ∷ [], [])
    else if leb 1 ((remaining - used) * 4)
    then (non_empty_message trimmed.text, summary_cut trimmed.original_size trimmed.kept_size ∷ [])
    else ([], summary_cut (length text) 0 ∷ [])

unfoldable pub summarize :
    List ConversationTurn → List Text → ℕ → ℕ → List Message × List Truncation
unfolding fit_summary
summarize [] lines used remaining = ([], [])
summarize (t ∷ ts) lines used remaining = fit_summary (join_lines lines) used remaining

-- The messages of the turns that are, or are not, the latest.
abbrev pub messages_where : (ℕ → Bool) → List (ℕ × List Message) → List Message
messages_where p [] = []
messages_where p ((i, messages) ∷ rest) =
    let others = messages_where p rest in if p i then messages ++ others else others

module _ (o : BuilderOptions) (latest : ℕ) (goal : Option Text) where
  unfoldable pub assemble : Kept → List Message → List Message
  assemble k summary =
      fixed_messages o
      ++ summary
      ++ messages_where (λ i. not (i == latest)) k.turns
      ++ goal_messages goal
      ++ messages_where (λ i. i == latest) k.turns

  unfoldable pub fixed_tokens : ℕ
  fixed_tokens = projection_tokens (fixed_messages o) + projection_tokens (goal_messages goal)

  abbrev pub remaining_tokens : ContextBudget → ℕ
  remaining_tokens b = budget_for_messages b - fixed_tokens

  abbrev pub nothing_kept : List ConversationTurn → Kept
  nothing_kept turns = record { turns = []; used = 0; start = length turns; truncations = [] }

  abbrev pub projection_of : Kept → ℕ → List Message × List Truncation → Projection
  projection_of k omitted summary = record {
    messages = assemble k summary.0;
    approximate_tokens = projection_tokens (assemble k summary.0);
    omitted_event_count = omitted;
    truncations = k.truncations ++ summary.1;
  }

  abbrev pub kept_turns : List ConversationTurn → ContextBudget → Outcome Kept
  kept_turns turns b =
      keep_turns (result_limit o.tool_result_max_chars) latest (remaining_tokens b)
        (reversed turns []) (nothing_kept turns)

  abbrev pub with_lines :
      List ConversationTurn → ContextBudget → Kept → List Text → Outcome Projection
  with_lines turns b k lines = ok (
      projection_of k (omitted_events (take k.start turns))
        (summarize (take k.start turns) lines k.used (remaining_tokens b)))

  abbrev pub with_kept :
      List ConversationTurn → List StepDigest → ContextBudget → Kept → Outcome Projection
  with_kept turns digests b k = summary_lines (take k.start turns) digests >>= with_lines turns b k

  unfoldable pub build_from :
      List ConversationTurn → List StepDigest → ContextBudget → Outcome Projection
  unfolding keep_turns summary_lines summarize assemble
  build_from turns digests b = kept_turns turns b >>= with_kept turns digests b

module _ (o : BuilderOptions) (events : List Event) (b : ContextBudget) where
  abbrev pub with_conversation : List StepDigest → List ConversationTurn → Outcome Projection
  with_conversation digests conversation =
      build_from o (latest_turn events) (goal_of events) (last_turns (length digests) conversation)
        digests b

  abbrev pub with_digests : List StepDigest → Outcome Projection
  with_digests digests = collect_conversation events >>= with_conversation digests

  unfoldable pub build : Outcome Projection
  unfolding build_from
  build = collect_step_digests events >>= with_digests

-- ===== src/Context/Build/Request.antt =====
-- The messages that `build` (context/event-context-builder.ts) hands over: the system messages and the
-- goal are there, and every tool message has its call.
use echocoding_harness.Common.{
  ℕ, ◌+◌, ◌≡◌, refl, ap, Bool, true, not, ◌==◌, Option, none, some, List, [], ◌∷◌, ◌++◌,
  append_assoc, append-nil, if-cases, leb, length, take, subst, Text, ◌*◌, ◌-◌,
}
use echocoding_harness.Contracts.Error.{ok}
use echocoding_harness.Contracts.Event.{Event}
use echocoding_harness.Agent.Interface.{
  ContextBudget, Message, system, user, Truncation, Projection,
}
use echocoding_harness.Context.Trim.{truncate_to_limit}
use echocoding_harness.Context.Digests.{StepDigest, collect_step_digests, join_lines}
use echocoding_harness.Context.Conversation.{ConversationTurn, collect_conversation, latest_turn}
use echocoding_harness.Context.Messages.{goal_of, projection_tokens}
use echocoding_harness.Context.Messages.Pairing.{
  answered_from, Closed, conversation_messages-Closed,
}
use echocoding_harness.Context.Build.{
  kept_turns, with_kept, with_lines, with_conversation, with_digests, Kept, messages_where,
  BuilderOptions, build_from, build, fixed_messages, summary_messages_of, assemble, goal_messages,
  result_limit, remaining_tokens, nothing_kept, reversed, summary_lines, fit_summary, summarize,
  non_empty_message, last_turns, projection_of, omitted_events,
}
use echocoding_harness.Context.Build.Budget.{keep_turns_lem, bind-ok, ok-injective}

-- Messages that can stand before closed ones.
pub record Joins (ms : List Message) : Type 0 where
  pub closes : (rest : List Message) → Closed rest → Closed (ms ++ rest)

Joins-nil : Joins []
Joins-nil = record { closes = λ rest c. c }

Joins-append : (ms ns : List Message) → Joins ms → Joins ns → Joins (ms ++ ns)
Joins-append ms ns h k = record {
  closes = λ rest c. rw (append_assoc ms ns rest) (h.closes (ns ++ rest) (k.closes rest c));
}

Joins-user : (t : Text) → Joins (user t ∷ [])
unfolding answered_from
Joins-user t = record { closes = λ rest c. record { answered = λ ids. c.answered [] } }

Joins-system : (t : Text) → Joins (system t ∷ [])
unfolding answered_from
Joins-system t = record { closes = λ rest c. record { answered = λ ids. c.answered [] } }

Joins-goal : (goal : Option Text) → Joins (goal_messages goal)
Joins-goal none = Joins-nil
Joins-goal (some t) = Joins-user t

Joins-fixed : (o : BuilderOptions) → Joins (fixed_messages o)
unfolding fixed_messages
Joins-fixed o =
    Joins-append (system o.system_prompt ∷ []) _ (Joins-system o.system_prompt)
      (second o.workspace_summary)
  where
    second : (s : Option Text) → Joins (summary_messages_of s)
    second none = Joins-nil
    second (some t) = Joins-system t

Joins-non_empty : (t : Text) → Joins (non_empty_message t)
Joins-non_empty [] = Joins-nil
Joins-non_empty (c ∷ t) = Joins-user (c ∷ t)

Joins-summary :
    (turns : List ConversationTurn) (lines : List Text) (used remaining : ℕ)
    → Joins (summarize turns lines used remaining).0
unfolding summarize fit_summary
Joins-summary [] lines used remaining = Joins-nil
Joins-summary (t ∷ ts) lines used remaining =
    if-cases {A = List Message × List Truncation} (λ s. Joins s.0)
      (leb (used + projection_tokens (user (join_lines lines) ∷ [])) remaining) _ _
      (λ _. Joins-user (join_lines lines))
      (λ _.
        if-cases {A = List Message × List Truncation} (λ s. Joins s.0)
          (leb 1 ((remaining - used) * 4)) _ _
          (λ _.
            Joins-non_empty (truncate_to_limit (join_lines lines) ((remaining - used) * 4)).text)
          (λ _. Joins-nil))

-- All the messages that the loop keeps.
abbrev AllJoin : List (ℕ × List Message) → Type 0
AllJoin [] = Unit
AllJoin ((i, ms) ∷ rest) = Joins ms × AllJoin rest

Joins-where :
    (p : ℕ → Bool) (groups : List (ℕ × List Message))
    → AllJoin groups
    → Joins (messages_where p groups)
Joins-where p [] h = Joins-nil
Joins-where p ((i, ms) ∷ rest) (j, h) =
    if-cases Joins (p i) _ _ (λ _. Joins-append ms (messages_where p rest) j (Joins-where p rest h))
      (λ _. Joins-where p rest h)

module _ (o : BuilderOptions) (latest : ℕ) (goal : Option Text) where
  kept_turns-AllJoin :
      (turns : List ConversationTurn) (b : ContextBudget) (k : Kept)
      → kept_turns o latest goal turns b ≡ ok k
      → AllJoin k.turns
  kept_turns-AllJoin turns b k =
      keep_turns_lem (result_limit o.tool_result_max_chars) latest
        (remaining_tokens o latest goal b) (λ k. AllJoin k.turns)
        (λ t ts k le h. (
          record {
            closes = λ rest c.
                conversation_messages-Closed (result_limit o.tool_result_max_chars) t rest c;
          },
          h,
        ))
        (λ k cuts h. h) (reversed turns []) (nothing_kept o latest goal turns) k tt

  Joins-assemble :
      (k : Kept) (summary : List Message)
      → AllJoin k.turns
      → Joins summary
      → Joins (assemble o latest goal k summary)
  unfolding assemble
  Joins-assemble k summary h j =
      Joins-append _ _
        (Joins-append _ _
          (Joins-append _ _ (Joins-append _ _ (Joins-fixed o) j)
            (Joins-where (λ i. not (i == latest)) k.turns h))
          (Joins-goal goal))
        (Joins-where (λ i. i == latest) k.turns h)

Joins-answered : (ms : List Message) → Joins ms → answered_from [] ms ≡ true
unfolding answered_from
Joins-answered ms j =
    subst (λ l. answered_from [] l ≡ true) (append-nil ms)
      ((j.closes [] (record { answered = λ ids. refl })).answered [])

-- What every projection has: the system messages first, the goal, and a call before each tool message.
pub record Sendable (o : BuilderOptions) (goal : Option Text) (p : Projection) : Type 0 where
  pub before : List Message
  pub after : List Message
  pub shape : p.messages ≡ fixed_messages o ++ before ++ goal_messages goal ++ after
  pub paired : answered_from [] p.messages ≡ true

module _ (o : BuilderOptions) (latest : ℕ) (goal : Option Text) where
  assemble-Sendable :
      (k : Kept) (omitted : ℕ) (summary : List Message × List Truncation)
      → AllJoin k.turns
      → Joins summary.0
      → Sendable o goal (projection_of o latest goal k omitted summary)
  unfolding assemble
  assemble-Sendable k omitted summary h j = record {
    before = summary.0 ++ messages_where (λ i. not (i == latest)) k.turns;
    after = messages_where (λ i. i == latest) k.turns;
    shape =
        ap (λ m. m ++ goal_messages goal ++ messages_where (λ i. i == latest) k.turns)
          (append_assoc (fixed_messages o) summary.0 _);
    paired = Joins-answered _ (Joins-assemble o latest goal k summary.0 h j);
  }

  build_from-Sendable :
      (turns : List ConversationTurn) (digests : List StepDigest) (b : ContextBudget)
      (p : Projection)
      → build_from o latest goal turns digests b ≡ ok p
      → Sendable o goal p
  unfolding build_from
  build_from-Sendable turns digests b p e =
      let (k, kept, rest) =
        bind-ok (kept_turns o latest goal turns b) (with_kept o latest goal turns digests b) p e in
      let (lines, _, same) =
        bind-ok (summary_lines (take k.start turns) digests) (with_lines o latest goal turns b k) p
          rest in
      subst (Sendable o goal) (ok-injective same) (
        assemble-Sendable k (omitted_events (take k.start turns)) _
          (kept_turns-AllJoin o latest goal turns b k kept)
          (Joins-summary (take k.start turns) lines k.used (remaining_tokens o latest goal b)))

module _ (o : BuilderOptions) (events : List Event) (b : ContextBudget) (p : Projection) where
  -- A projection begins with the system messages and holds the goal of the last turn, whatever the
  -- budget omits, and each of its tool messages answers a call of the assistant message before it.
  pub build-Sendable : build o events b ≡ ok p → Sendable o (goal_of events) p
  unfolding build
  build-Sendable e =
      let (digests, _, rest) =
        bind-ok (collect_step_digests events) (with_digests o events b) p e in
      let (conversation, _, same) =
        bind-ok (collect_conversation events) (with_conversation o events b digests) p rest in
      build_from-Sendable o (latest_turn events) (goal_of events)
        (last_turns (length digests) conversation) digests b p same

-- ===== src/Context/Build/Fits.antt =====
-- A projection of `build` (context/event-context-builder.ts) stays in the budget, unless the summary
-- of older turns was cut.
use echocoding_harness.Common.{
  ℕ, ◌+◌, ◌-◌, ◌*◌, ◌≤◌, max, ◌≡◌, refl, Bool, true, false, not, ◌&&◌, ◌==◌, Option, List, [], ◌∷◌,
  ◌++◌, leb, if-cases, length, take, arith, subst, Text, units, text_eq, text_eq_refl,
}
use echocoding_harness.Contracts.Error.{ok}
use echocoding_harness.Contracts.Event.{Event}
use echocoding_harness.Agent.Interface.{ContextBudget, Message, user, Truncation, Projection}
use echocoding_harness.Context.Digests.{StepDigest, collect_step_digests, join_lines}
use echocoding_harness.Context.Conversation.{ConversationTurn, collect_conversation, latest_turn}
use echocoding_harness.Context.Messages.{projection_tokens, goal_of}
use echocoding_harness.Context.Build.{
  kept_turns, with_kept, with_lines, with_conversation, with_digests, Kept, BuilderOptions,
  build_from, build, fixed_messages, fixed_tokens, budget_for_messages, assemble, goal_messages,
  result_limit, remaining_tokens, nothing_kept, reversed, summary_lines, fit_summary, summarize,
  projection_of, omitted_events, summary_cut, last_turns,
}
use echocoding_harness.Context.Build.Budget.{
  Counted, Counted-grown, keep_turns_lem, bind-ok, ok-injective, group_tokens,
  projection_tokens-append, messages_where-tokens,
}

-- No entry says that the summary of older turns was cut.
unfoldable pub uncut : List Truncation → Bool
uncut [] = true
uncut (c ∷ cuts) =
    not (text_eq c.reason (units "older step summaries exceeded remaining budget")) && uncut cuts

uncut-append : (cuts more : List Truncation) → uncut (cuts ++ more) ≡ true → uncut more ≡ true
unfolding uncut
uncut-append [] more h = h
uncut-append (c ∷ cuts) more h = ground (arith, uncut-append cuts more)

summary_cut-uncut : (m n : ℕ) → uncut (summary_cut m n ∷ []) ≡ false
unfolding uncut
summary_cut-uncut m n =
    ground (arith, text_eq_refl (units "older step summaries exceeded remaining budget"))

no_cut : (m n : ℕ) → uncut (summary_cut m n ∷ []) ≡ true → ⊥
no_cut m n h = absurd (cc (summary_cut-uncut m n))

abbrev Room : ℕ → ℕ → List Message × List Truncation → Type 0
Room used remaining s = uncut s.1 ≡ true → used + projection_tokens s.0 ≤ remaining

fit_summary-Room :
    (text : Text) (used remaining : ℕ) → Room used remaining (fit_summary text used remaining)
unfolding fit_summary
fit_summary-Room text used remaining =
    if-cases (Room used remaining) (leb (used + projection_tokens (user text ∷ [])) remaining) _ _
      (λ fits _. ground (arith, fits))
      (λ _.
        if-cases (Room used remaining) (leb 1 ((remaining - used) * 4)) _ _
          (λ _ h. absurd (no_cut _ _ h)) (λ _ h. absurd (no_cut _ _ h)))

summarize-Room :
    (turns : List ConversationTurn) (lines : List Text) (used remaining : ℕ)
    → used ≤ remaining
    → Room used remaining (summarize turns lines used remaining)
unfolding summarize projection_tokens
summarize-Room [] lines used remaining le h = ground (arith, le)
summarize-Room (t ∷ ts) lines used remaining le h =
    fit_summary-Room (join_lines lines) used remaining h

parts-tokens :
    (f s p g c : List Message) (n : ℕ)
    → projection_tokens p + projection_tokens c ≡ n
    → projection_tokens (f ++ s ++ p ++ g ++ c)
      ≡ projection_tokens f + projection_tokens g + (n + projection_tokens s)
parts-tokens f s p g c n h = omega (
  arith,
  h,
  projection_tokens-append (f ++ s ++ p ++ g) c,
  projection_tokens-append (f ++ s ++ p) g,
  projection_tokens-append (f ++ s) p,
  projection_tokens-append f s,
)

module _ (o : BuilderOptions) (latest : ℕ) (goal : Option Text) where
  assemble-tokens :
      (k : Kept) (summary : List Message)
      → projection_tokens (assemble o latest goal k summary)
        ≡ fixed_tokens o latest goal + (group_tokens k.turns + projection_tokens summary)
  unfolding assemble fixed_tokens
  assemble-tokens k summary =
      parts-tokens (fixed_messages o) summary _ (goal_messages goal) _ (group_tokens k.turns)
        (messages_where-tokens (λ i. i == latest) k.turns)

  -- What the loop keeps, with a summary that was not cut.
  projection-fits :
      (k : Kept) (omitted : ℕ) (lines : List Text) (turns : List ConversationTurn)
      (b : ContextBudget)
      → Counted (remaining_tokens o latest goal b) k
      → uncut
          (projection_of o latest goal k omitted
            (summarize turns lines k.used (remaining_tokens o latest goal b))).truncations
        ≡ true
      → (projection_of o latest goal k omitted
          (summarize turns lines k.used (remaining_tokens o latest goal b))).approximate_tokens
        ≤ max (budget_for_messages b) (fixed_tokens o latest goal)
  projection-fits k omitted lines turns b c h = omega (
    arith,
    c.counted,
    assemble-tokens k (summarize turns lines k.used (remaining_tokens o latest goal b)).0,
    summarize-Room turns lines k.used (remaining_tokens o latest goal b) c.fits
        (uncut-append k.truncations _ h),
  )

  kept_turns-Counted :
      (turns : List ConversationTurn) (b : ContextBudget) (k : Kept)
      → kept_turns o latest goal turns b ≡ ok k
      → Counted (remaining_tokens o latest goal b) k
  kept_turns-Counted turns b k =
      keep_turns_lem (result_limit o.tool_result_max_chars) latest
        (remaining_tokens o latest goal b) (Counted (remaining_tokens o latest goal b))
        (Counted-grown (result_limit o.tool_result_max_chars) latest
          (remaining_tokens o latest goal b))
        (λ k cuts h. record { counted = h.counted; fits = h.fits }) (reversed turns [])
        (nothing_kept o latest goal turns) k (record { counted = refl; fits = omega arith })

  build_from-fits :
      (turns : List ConversationTurn) (digests : List StepDigest) (b : ContextBudget)
      (p : Projection)
      → build_from o latest goal turns digests b ≡ ok p
      → uncut p.truncations ≡ true
      → p.approximate_tokens ≤ max (budget_for_messages b) (fixed_tokens o latest goal)
  unfolding build_from
  build_from-fits turns digests b p e h =
      let (k, kept, rest) =
        bind-ok (kept_turns o latest goal turns b) (with_kept o latest goal turns digests b) p e in
      let (lines, _, same) =
        bind-ok (summary_lines (take k.start turns) digests) (with_lines o latest goal turns b k) p
          rest in
      subst
        (λ (q : Projection).
          uncut q.truncations ≡ true
          → q.approximate_tokens ≤ max (budget_for_messages b) (fixed_tokens o latest goal))
        (ok-injective same)
        (projection-fits k (omitted_events (take k.start turns)) lines (take k.start turns) b
          (kept_turns-Counted turns b k kept))
        h

module _ (o : BuilderOptions) (events : List Event) (b : ContextBudget) (p : Projection) where
  -- Unless the projection records that the summary of older turns was cut, its approximate tokens stay
  -- in the budget for messages, or in what the fixed messages and the goal take where that is more.
  pub build-fits :
      build o events b ≡ ok p
      → uncut p.truncations ≡ true
      → p.approximate_tokens
        ≤ max (budget_for_messages b) (fixed_tokens o (latest_turn events) (goal_of events))
  unfolding build
  build-fits e h =
      let (digests, _, rest) =
        bind-ok (collect_step_digests events) (with_digests o events b) p e in
      let (conversation, _, same) =
        bind-ok (collect_conversation events) (with_conversation o events b digests) p rest in
      build_from-fits o (latest_turn events) (goal_of events)
        (last_turns (length digests) conversation) digests b p same h

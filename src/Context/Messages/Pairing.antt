-- ===== src/Context/Messages/Pairing.antt =====
-- The pairing of calls and results in `conversationMessages` (context/event-context-builder.ts).
use echocoding_harness.Common.{
  append_assoc, not, ◌||◌, ℕ, ◌≡◌, refl, Bool, true, false, ◌&&◌, Option, none, some, List, [], ◌∷◌,
  ◌++◌, any, all, arith, all-filter, all_mono, if◌then◌else◌, Text, text_eq_iff, mem_text,
}
use echocoding_harness.Contracts.Event.{ToolCall, Reasoning}
use echocoding_harness.Agent.Interface.{Message, system, user, assistant, tool}
use echocoding_harness.Context.Conversation.{ToolMessage, ConversationTurn, is_empty}
use echocoding_harness.Context.Messages.{
  has_reasoning, answers, paired_calls, paired_results, user_messages, assistant_messages,
  result_messages, conversation_messages,
}

abbrev pub ids_of : List ToolCall → List Text
ids_of [] = []
ids_of (c ∷ calls) = c.id ∷ ids_of calls

-- Each tool message answers a call of the assistant message before it, with no other message than
-- tool messages in between; `ids` are the calls that may be answered first.
unfoldable pub answered_from : List Text → List Message → Bool
answered_from ids [] = true
answered_from ids (system _ ∷ ms) = answered_from [] ms
answered_from ids (user _ ∷ ms) = answered_from [] ms
answered_from ids (assistant _ _ calls ∷ ms) = answered_from (ids_of calls) ms
answered_from ids (tool id _ ∷ ms) = mem_text id ids && answered_from ids ms

-- Messages that answer nothing before them.
pub record Closed (ms : List Message) : Type 0 where
  pub answered : (ids : List Text) → answered_from ids ms ≡ true

any-answers :
    (r : ToolMessage) (calls : List ToolCall)
    → any (λ c. answers r c) calls ≡ true
    → mem_text r.call_id (ids_of calls) ≡ true
unfolding answers mem_text
any-answers r [] h = h
any-answers r (c ∷ calls) h =
    ground (arith, any-answers r calls, text_eq_iff r.call_id c.id, text_eq_iff c.id r.call_id)

results-answered :
    (limit : ℕ) (ids : List Text) (rs : List ToolMessage) (rest : List Message)
    → all (λ r. mem_text r.call_id ids) rs ≡ true
    → Closed rest
    → answered_from ids (result_messages limit rs ++ rest) ≡ true
unfolding result_messages answered_from
results-answered limit ids [] rest h c = c.answered ids
results-answered limit ids (r ∷ rs) rest h c = ground (arith, results-answered limit ids rs rest)

assistant-answered :
    (limit : ℕ) (content : Text) (r : Reasoning) (b : Bool) (calls : List ToolCall)
    (rs : List ToolMessage) (ids : List Text) (rest : List Message)
    → (b ≡ false → calls ≡ [])
    → all (λ r. mem_text r.call_id (ids_of calls)) rs ≡ true
    → Closed rest
    → answered_from ids
        ((if b then assistant content r calls ∷ [] else []) ++ (result_messages limit rs ++ rest))
      ≡ true
unfolding answered_from result_messages mem_text
assistant-answered limit content r true calls rs ids rest f h c =
    results-answered limit (ids_of calls) rs rest h c
assistant-answered limit content r false calls [] ids rest f h c = c.answered ids
assistant-answered limit content r false [] (_ ∷ _) ids rest f h c = absurd (cc)
assistant-answered limit content r false (_ ∷ _) (_ ∷ _) ids rest f h c = absurd (cc (f refl))

user-answered :
    (u : Option Text) (ids : List Text) (rest : List Message)
    → Closed rest
    → answered_from ids (user_messages u ++ rest) ≡ true
unfolding answered_from user_messages
user-answered none ids rest c = c.answered ids
user-answered (some []) ids rest c = c.answered ids
user-answered (some (_ ∷ _)) ids rest c = c.answered []

-- The results that a turn keeps answer calls that it keeps.
paired_results-all :
    (t : ConversationTurn)
    → all (λ r. mem_text r.call_id (ids_of (paired_calls t))) (paired_results t) ≡ true
unfolding paired_results
paired_results-all t =
    all_mono (λ r. any (λ c. answers r c) (paired_calls t))
      (λ r. mem_text r.call_id (ids_of (paired_calls t))) (paired_results t)
      (λ r. any-answers r (paired_calls t))
      (all-filter (λ r. any (λ c. answers r c) (paired_calls t)) t.tool_messages)

-- Without an assistant message no call is kept.
no_assistant :
    (t : ConversationTurn)
    → (not (is_empty t.content) || not (is_empty (paired_calls t)) || has_reasoning t.reasoning)
      ≡ false
    → paired_calls t ≡ []
no_assistant t h = nothing (paired_calls t) (ground (arith, h))
  where
    nothing : (calls : List ToolCall) → is_empty calls ≡ true → calls ≡ []
    nothing [] h = refl
    nothing (_ ∷ _) h = absurd (cc)

turn-answered :
    (limit : ℕ) (t : ConversationTurn) (ids : List Text) (rest : List Message)
    → Closed rest
    → answered_from ids (assistant_messages t ++ (result_messages limit (paired_results t) ++ rest))
      ≡ true
unfolding assistant_messages
turn-answered limit t ids rest c =
    assistant-answered limit t.content t.reasoning _ (paired_calls t) (paired_results t) ids rest
      (no_assistant t) (paired_results-all t) c

-- The messages of a turn, before messages that answer nothing, answer nothing before them, and each
-- tool message among them answers a call of the assistant message right before it.
pub conversation_messages-Closed :
    (limit : ℕ) (t : ConversationTurn) (rest : List Message)
    → Closed rest
    → Closed ((conversation_messages limit t).0 ++ rest)
unfolding conversation_messages
conversation_messages-Closed limit t rest c = record {
  answered = λ ids.
      rw
        (
          append_assoc (user_messages t.user ++ assistant_messages t)
              (result_messages limit (paired_results t)) rest,
          append_assoc (user_messages t.user) (assistant_messages t)
              (result_messages limit (paired_results t) ++ rest),
        )
        (user-answered t.user ids _
          (record { answered = λ ids'. turn-answered limit t ids' rest c }));
}

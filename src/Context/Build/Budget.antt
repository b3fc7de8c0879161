-- ===== src/Context/Build/Budget.antt =====
-- The measure of what `build` (context/event-context-builder.ts) keeps.
use echocoding_harness.Common.{
  if-cases, ℕ, ◌+◌, ◌≤◌, ◌≡◌, refl, Bool, true, false, not, List, [], ◌∷◌, ◌++◌, leb, length, arith,
  subst,
}
use echocoding_harness.Contracts.Error.{Outcome, ok, thrown}
use echocoding_harness.Agent.Interface.{Message, Truncation}
use echocoding_harness.Context.Digests.{◌>>=◌}
use echocoding_harness.Context.Conversation.{ConversationTurn}
use echocoding_harness.Context.Messages.{projection_tokens, conversation_messages}
use echocoding_harness.Context.Build.{Kept, keep_turns, stop_keeping, messages_where}

pub bind-ok :
    {A B : Type 0} (m : Outcome A) (f : A → Outcome B) (b : B)
    → (m >>= f) ≡ ok b
    → (a : A) × (m ≡ ok a) × (f a ≡ ok b)
bind-ok (ok a) f b h = (a, refl, h)
bind-ok (thrown e) f b h = absurd (cc)

pub ok-injective : {A : Type 0} {a b : A} → ok a ≡ ok b → a ≡ b
ok-injective h = cc

module _ (limit latest remaining : ℕ) where
  abbrev pub cost_of : ConversationTurn → ℕ
  cost_of t = projection_tokens (conversation_messages limit t).0

  -- The state of the loop after it kept a turn that has `ts` before it.
  abbrev pub grown : ConversationTurn → List ConversationTurn → Kept → Kept
  grown t ts k = record {
    turns = (t.turn_index, (conversation_messages limit t).0) ∷ k.turns;
    used = k.used + cost_of t;
    start = length ts;
    truncations = k.truncations ++ (conversation_messages limit t).1;
  }

  abbrev pub with_cuts : List Truncation → Kept → Kept
  with_cuts cuts k = record k { truncations = k.truncations ++ cuts }

  module _ (P : Kept → Type 0)
      (grow : (t : ConversationTurn) (ts : List ConversationTurn) (k : Kept)
        → k.used + cost_of t ≤ remaining
        → P k
        → P (grown t ts k))
      (cut : (k : Kept) (cuts : List Truncation) → P k → P (with_cuts cuts k)) where
    stop_keeping_lem :
        (b : Bool) (k k' : Kept) → P k → stop_keeping limit latest remaining b k ≡ ok k' → P k'
    stop_keeping_lem true k k' h e = absurd (cc)
    stop_keeping_lem false k k' h e = subst P (cc) h

    -- What the loop starts with and every kept turn keeps, it ends with.
    pub keep_turns_lem :
        (ts : List ConversationTurn) (k k' : Kept)
        → P k
        → keep_turns limit latest remaining ts k ≡ ok k'
        → P k'
    unfolding keep_turns
    keep_turns_lem [] k k' h e = subst P (cc) h
    keep_turns_lem (t ∷ ts) k k' h e =
        if-cases (λ o. o ≡ ok k' → P k') (leb (k.used + cost_of t) remaining) _ _
          (λ fits. keep_turns_lem ts (grown t ts k) k' (grow t ts k (ground (arith, fits)) h))
          (λ _. stop_keeping_lem _ (with_cuts (conversation_messages limit t).1 k) k' (cut k _ h)) e

abbrev pub group_tokens : List (ℕ × List Message) → ℕ
group_tokens [] = 0
group_tokens ((i, messages) ∷ rest) = projection_tokens messages + group_tokens rest

pub projection_tokens-append :
    (ms ns : List Message)
    → projection_tokens (ms ++ ns) ≡ projection_tokens ms + projection_tokens ns
unfolding projection_tokens
projection_tokens-append [] ns = omega arith
projection_tokens-append (m ∷ ms) ns = omega (arith, projection_tokens-append ms ns)

-- The turns that pass a test and those that do not have all the tokens.
pub messages_where-tokens :
    (p : ℕ → Bool) (groups : List (ℕ × List Message))
    → projection_tokens (messages_where (λ i. not (p i)) groups)
        + projection_tokens (messages_where p groups)
      ≡ group_tokens groups
unfolding projection_tokens
messages_where-tokens p [] = omega arith
messages_where-tokens p ((i, messages) ∷ rest) = ground (
  arith,
  messages_where-tokens p rest,
  projection_tokens-append messages (messages_where (λ i. not (p i)) rest),
  projection_tokens-append messages (messages_where p rest),
)

-- The loop counts the tokens of the turns that it keeps, and they fit.
pub record Counted (remaining : ℕ) (k : Kept) : Type 0 where
  pub counted : group_tokens k.turns ≡ k.used
  pub fits : k.used ≤ remaining

pub Counted-grown :
    (limit latest remaining : ℕ) (t : ConversationTurn) (ts : List ConversationTurn) (k : Kept)
    → k.used + cost_of limit latest remaining t ≤ remaining
    → Counted remaining k
    → Counted remaining (grown limit latest remaining t ts k)
Counted-grown limit latest remaining t ts k le h = record {
  counted = omega (arith, h.counted);
  fits = le;
}

-- ===== src/Agent/Protocol/Response.antt =====
-- The response of a step (agent/agent-loop.ts): what is kept of its reasoning, its text and its tool
-- calls follows the order of events.
use echocoding_harness.Common.{
  ℕ, ◌≡◌, refl, true, false, Bool, Option, none, some, List, [], ◌∷◌, ◌++◌, append-nil,
  append_assoc, arith, Text,
}
use echocoding_harness.Contracts.Error.{EchoError}
use echocoding_harness.Contracts.Event.{
  AgentResult, ToolCall, Reasoning, FinishReason, model_text, model_tool_call, model_completed,
  model_failed,
}
use echocoding_harness.Provider.Reasoning.{aggregate_reasoning}
use echocoding_harness.Session.Redaction.{redact_payload}
use echocoding_harness.Agent.Interface.{Env, Options}
use echocoding_harness.Agent.Action.{Action}
use echocoding_harness.Agent.Emit.{report}
use echocoding_harness.Agent.Ensures.{
  Pred, Ensures, Ensures-bind, Ensures-pure, Ensures-weaken, Ensures-some, Ensures-modify,
  Ensures-mono,
}
use echocoding_harness.Agent.Steps.{persist_payload, persist_reasoning, persist_text, record_calls}
use echocoding_harness.Agent.Protocol.Order.{
  Phase, streaming, reasoned, texted, calling, answered, ending, advance, InPhase, InOrder,
}
use echocoding_harness.Agent.Protocol.Report.{in_order, Ensures-report}

-- The phases of a response with no text yet, and with no tool call yet.
abbrev pub is_fresh : Phase → Bool
is_fresh streaming = true
is_fresh reasoned = true
is_fresh _ = false

abbrev pub is_responding : Phase → Bool
is_responding streaming = true
is_responding reasoned = true
is_responding texted = true
is_responding _ = false

-- The tool calls that the response has shown so far.
abbrev pub shown : Phase → Option (List Text)
shown streaming = some []
shown reasoned = some []
shown texted = some []
shown (calling ids) = some ids
shown _ = none

abbrev pub Fresh : {W : Type 0} → Pred W
Fresh s = (p : Phase) × (is_fresh p ≡ true) × InPhase p s

abbrev pub Responding : {W : Type 0} → Pred W
Responding s = (p : Phase) × (is_responding p ≡ true) × InPhase p s

abbrev pub Shows : {W : Type 0} → List Text → Pred W
Shows ids s = (p : Phase) × (shown p ≡ some ids) × InPhase p s

pub shown_of_responding : (p : Phase) → is_responding p ≡ true → shown p ≡ some []
shown_of_responding streaming h = refl
shown_of_responding reasoned h = refl
shown_of_responding texted h = refl
shown_of_responding _ h = cc

responding_of_fresh : (p : Phase) → is_fresh p ≡ true → is_responding p ≡ true
responding_of_fresh streaming h = refl
responding_of_fresh reasoned h = refl
responding_of_fresh _ h = cc

advance-model_text :
    (p : Phase) (t : Text) (b : Bool) → is_fresh p ≡ true → advance p (model_text t b) ≡ some texted
unfolding advance
advance-model_text streaming t b h = refl
advance-model_text reasoned t b h = refl
advance-model_text _ t b h = cc

advance-model_failed :
    (p : Phase) (e : EchoError) (n : Option ℕ)
    → is_responding p ≡ true
    → advance p (model_failed e n) ≡ some ending
unfolding advance
advance-model_failed streaming e n h = refl
advance-model_failed reasoned e n h = refl
advance-model_failed texted e n h = refl
advance-model_failed _ e n h = cc

advance-model_tool_call :
    (p : Phase) (c : ToolCall) (ids : List Text)
    → shown p ≡ some ids
    → advance p (model_tool_call c) ≡ some (calling (ids ++ c.id ∷ []))
unfolding advance
advance-model_tool_call streaming c ids h = ground arith
advance-model_tool_call reasoned c ids h = ground arith
advance-model_tool_call texted c ids h = ground arith
advance-model_tool_call (calling _) c ids h = ground arith
advance-model_tool_call _ c ids h = cc

advance-model_completed :
    (p : Phase) (f : FinishReason) (i o : Option ℕ) (ids : List Text)
    → shown p ≡ some ids
    → advance p (model_completed f i o) ≡ some (answered ids)
unfolding advance
advance-model_completed streaming f i o ids h = ground arith
advance-model_completed reasoned f i o ids h = ground arith
advance-model_completed texted f i o ids h = ground arith
advance-model_completed (calling _) f i o ids h = ground arith
advance-model_completed _ f i o ids h = cc

module _ {W : Type 0} (env : Env W) (opts : Options) (step : Text) where
  persist_payload_lem :
      (o : Option Reasoning)
      → Ensures (InPhase streaming) (persist_payload env opts step o) (λ _. Fresh) InOrder
  unfolding persist_payload advance redact_payload
  persist_payload_lem none =
      Ensures-weaken (λ s k. (streaming, refl, k)) (Ensures-pure (λ _. Fresh) none)
  persist_payload_lem (some payload) =
      Ensures-bind (in_order (Ensures-report env step _ streaming reasoned refl))
        λ _. Ensures-weaken (λ s k. (reasoned, refl, k)) (Ensures-pure (λ _. Fresh) (some payload))

  pub persist_reasoning_lem :
      (deltas : List Reasoning)
      → Ensures (InPhase streaming) (persist_reasoning env opts step deltas) (λ _. Fresh) InOrder
  unfolding persist_reasoning
  persist_reasoning_lem deltas = persist_payload_lem (aggregate_reasoning deltas)

  pub persist_text_lem :
      (text : Text) (b : Bool)
      → Ensures Fresh (persist_text env opts step text b) (λ _. Responding) InOrder
  unfolding persist_text redact_payload
  persist_text_lem [] b =
      Ensures-weaken (λ s (p, f, k). (p, responding_of_fresh p f, k))
        (Ensures-pure (λ _. Responding) tt)
  persist_text_lem (c ∷ t) b = Ensures-some λ p f.
      Ensures-mono (λ _ s k. (texted, refl, k)) (λ s k. k)
        (in_order (Ensures-report env step _ p texted (advance-model_text p _ b f)))

  pub model_failed_lem :
      (error : EchoError) (p : Phase)
      → is_responding p ≡ true
      → Ensures
          (InPhase p)
          (report env step (model_failed error none))
          (λ _. InPhase ending)
          InOrder
  unfolding redact_payload
  model_failed_lem error p h =
      in_order (Ensures-report env step _ p ending (advance-model_failed p _ none h))

  pub model_completed_lem :
      (f : FinishReason) (i o : Option ℕ) (ids : List Text)
      → Ensures
          (Shows ids)
          (report env step (model_completed f i o))
          (λ _. InPhase (answered ids))
          InOrder
  unfolding redact_payload
  model_completed_lem f i o ids = Ensures-some λ p h.
      in_order (Ensures-report env step _ p (answered ids) (advance-model_completed p f i o ids h))

  abbrev pub ids_of : List ToolCall → List Text
  ids_of [] = []
  ids_of (c ∷ calls) = env.redact c.id ∷ ids_of calls

  module _ (next : Action W AgentResult) (round : ℕ) where
    pub record_calls_lem :
        (calls : List ToolCall) (ids : List Text)
        → Ensures
            (Shows ids)
            (record_calls env opts next round step calls)
            (λ _. Shows (ids ++ ids_of calls))
            InOrder
    unfolding record_calls redact_payload
    record_calls_lem [] ids = rw append-nil (Ensures-pure (λ _. Shows ids) tt)
    record_calls_lem (c ∷ calls) ids = Ensures-some λ p h.
        Ensures-bind (Ensures-modify (InPhase p) (InPhase p) _ (λ s k. k)) λ _.
          Ensures-bind
            (in_order (
              Ensures-report env step _ p (calling (ids ++ env.redact c.id ∷ []))
                (advance-model_tool_call p _ ids h)))
            λ _.
              Ensures-weaken {P = Shows (ids ++ env.redact c.id ∷ [])}
                (λ s k. (calling (ids ++ env.redact c.id ∷ []), refl, k))
                (rw (← append_assoc ids (env.redact c.id ∷ []) (ids_of calls))
                  (record_calls_lem calls (ids ++ env.redact c.id ∷ [])))

-- ===== src/Agent/Protocol/Audit.antt =====
-- What a log that follows the order of events says of its tool calls.
use echocoding_harness.Common.{
  ℕ, ◌+◌, ◌≡◌, refl, true, arith, Bool, Option, none, some, List, [], ◌∷◌, ◌++◌, Text, text_eq_iff,
  Option-cases, inl, inr,
}
use echocoding_harness.Contracts.Event.{
  Event, Payload, Source, is_tool_terminal_event, tool_requested, tool_authorized, tool_started,
}
use echocoding_harness.Agent.Protocol.Order.{
  Phase, tool, requested, limiting, asking, refused, granted, running, authorized, ending, served,
  answered, calling, opened, stepping, projected, streaming, reasoned, texted, advance,
  advance_from, follow, idle,
}

-- 1 where a tool call is in progress.
abbrev pub in_progress : Phase → ℕ
in_progress (tool _ _ _) = 1
in_progress _ = 0

abbrev pub one_if_requested : Payload → ℕ
one_if_requested (tool_requested _ _) = 1
one_if_requested _ = 0

abbrev one_if : Bool → ℕ
one_if true = 1
one_if Bool.false = 0

abbrev pub one_if_terminal : Payload → ℕ
one_if_terminal p = one_if (is_tool_terminal_event p)

pub requests : List Event → ℕ
requests [] = 0
requests (e ∷ es) = one_if_requested e.payload + requests es

pub terminals : List Event → ℕ
terminals [] = 0
terminals (e ∷ es) = one_if_terminal e.payload + terminals es

advance_balance :
    (p q : Phase) (e : Payload)
    → advance p e ≡ some q
    → one_if_requested e + in_progress p ≡ one_if_terminal e + in_progress q
unfolding advance is_tool_terminal_event
advance_balance idle q e h = ground arith
advance_balance opened q e h = ground arith
advance_balance stepping q e h = ground arith
advance_balance projected q e h = ground arith
advance_balance streaming q e h = ground arith
advance_balance reasoned q e h = ground arith
advance_balance texted q e h = ground arith
advance_balance (calling ids) q e h = ground arith
advance_balance (answered []) q e h = ground arith
advance_balance (answered (id ∷ ids)) q e h = ground arith
advance_balance (served []) q e h = ground arith
advance_balance (served (id ∷ ids)) q e h = ground arith
advance_balance (tool requested id ids) q e h = ground arith
advance_balance (tool limiting id ids) q e h = ground arith
advance_balance (tool asking id ids) q e h = ground arith
advance_balance (tool refused id ids) q e h = ground arith
advance_balance (tool granted id ids) q e h = ground arith
advance_balance (tool authorized id ids) q e h = ground arith
advance_balance (tool running id ids) q e h = ground arith
advance_balance ending q e h = ground arith

follow-none : (es : List Event) → follow none es ≡ none
unfolding follow
follow-none [] = refl
follow-none (e ∷ es) = follow-none es

pub follow_balance :
    (p q : Phase) (es : List Event)
    → follow (some p) es ≡ some q
    → requests es + in_progress p ≡ terminals es + in_progress q
unfolding follow requests terminals
follow_balance p q [] h = ground arith
follow_balance p q (e ∷ es) h = elim (Option-cases (advance p e.payload)) [
  | inl e0 ↦ cc (rw e0 at h, follow-none es)
  | inr (p', e1) ↦
      omega (arith, advance_balance p p' e.payload e1, follow_balance p' q es (rw e1 at h))
]

advance-tool_started :
    (p q : Phase) (i n : Text)
    → advance p (tool_started i n) ≡ some q
    → (id : Text) × (ids : List Text) × (p ≡ tool authorized id ids) × (i ≡ id)
unfolding advance
advance-tool_started (tool authorized id ids) q i n h =
    (id, ids, refl, ground (arith, text_eq_iff i id))
advance-tool_started (answered []) q i n h = cc
advance-tool_started (answered (_ ∷ _)) q i n h = cc
advance-tool_started (served []) q i n h = cc
advance-tool_started (served (_ ∷ _)) q i n h = cc
advance-tool_started _ q i n h = cc

-- `a` authorizes the call `id`.
abbrev pub Authorizes : Text → Payload → Type 0
Authorizes id (tool_authorized i _ _ _) = i ≡ id
Authorizes id _ = ⊥

advance-Authorizes :
    (p : Phase) (a : Payload) (id : Text) (ids : List Text)
    → advance p a ≡ some (tool authorized id ids)
    → Authorizes id a
unfolding advance
advance-Authorizes (tool requested id' ids') (tool_authorized i Source.policy r w) id ids h =
    ground (arith, text_eq_iff i id')
advance-Authorizes (tool granted id' ids') (tool_authorized i Source.approval r w) id ids h =
    ground (arith, text_eq_iff i id')
advance-Authorizes (tool requested id' ids') a id ids h = ground arith
advance-Authorizes (tool granted id' ids') a id ids h = ground arith
advance-Authorizes (answered []) a id ids h = ground arith
advance-Authorizes (answered (_ ∷ _)) a id ids h = ground arith
advance-Authorizes (served []) a id ids h = ground arith
advance-Authorizes (served (_ ∷ _)) a id ids h = ground arith
advance-Authorizes _ a id ids h = ground arith

follow-eq-some :
    (o : Option Phase) (es : List Event) (q : Phase)
    → follow o es ≡ some q
    → (p : Phase) × (o ≡ some p)
follow-eq-some none es q h = absurd (cc (follow-none es))
follow-eq-some (some p) es q h = (p, refl)

advance_from-eq-some :
    (o : Option Phase) (e : Payload) (q : Phase)
    → advance_from o e ≡ some q
    → (p : Phase) × (o ≡ some p) × (advance p e ≡ some q)
advance_from-eq-some none e q h = absurd (cc)
advance_from-eq-some (some p) e q h = (p, refl, h)

started_after :
    (o : Option Phase) (a b : Event) (rest : List Event) (q : Phase) (i n : Text)
    → follow (advance_from (advance_from o a.payload) b.payload) rest ≡ some q
    → b.payload ≡ tool_started i n
    → Authorizes i a.payload
started_after o a b rest q i n h e =
    let (r, hr) = follow-eq-some _ rest q h in
    let (p, hp, advanced) = advance_from-eq-some (advance_from o a.payload) b.payload r hr in
    let (id, ids, at_authorized, same) = advance-tool_started p r i n (rw e at advanced) in
    let (p', _, before) = advance_from-eq-some o a.payload p hp in
    rw same (advance-Authorizes p' a.payload id ids (rw at_authorized at before))

-- In a log that follows the order, a tool starts right after it was authorized.
pub follow-Authorizes :
    (o : Option Phase) (es : List Event) (a b : Event) (rest : List Event) (q : Phase) (i n : Text)
    → follow o (es ++ a ∷ b ∷ rest) ≡ some q
    → b.payload ≡ tool_started i n
    → Authorizes i a.payload
unfolding follow
follow-Authorizes o [] a b rest q i n h e = started_after o a b rest q i n h e
follow-Authorizes o (d ∷ es) a b rest q i n h e =
    follow-Authorizes (advance_from o d.payload) es a b rest q i n h e

-- ===== src/Agent/Repaired/Fresh.antt =====
-- Events that tell the end of a call which had none (`repairStorageFailure`, agent/agent-loop.ts).
use echocoding_harness.Common.{
  ◌≡◌, refl, ap, sym, ◌∙◌, arith, Bool, true, false, ◌&&◌, not, Option, none, some, List, [], ◌∷◌,
  ◌++◌, Text, mem_text,
}
use echocoding_harness.Contracts.Event.{Event, ToolResult, terminal_result}
use echocoding_harness.Agent.Recovery.{terminal_ids, add_terminal}

-- An event tells the end of a call of the list.
abbrev pub repeats : Option ToolResult → List Text → Bool
repeats none ids = false
repeats (some t) ids = mem_text t.tool_call_id ids

-- No event tells the end of a call of the list, or of one that an event before it tells.
unfoldable pub fresh : List Text → List Event → Bool
fresh ids [] = true
fresh ids (e ∷ es) =
    not (repeats (terminal_result e.payload) ids)
    && fresh (add_terminal (terminal_result e.payload) ids) es

fresh-append :
    (ids : List Text) (es : List Event) (e : Event)
    → fresh ids (es ++ e ∷ [])
      ≡ (fresh ids es && not (repeats (terminal_result e.payload) (terminal_ids ids es)))
unfolding fresh terminal_ids
fresh-append ids [] e = ground arith
fresh-append ids (x ∷ es) e =
    ground (arith, fresh-append (add_terminal (terminal_result x.payload) ids) es e)

terminal_ids-both :
    (ids : List Text) (es fs : List Event)
    → terminal_ids ids (es ++ fs) ≡ terminal_ids (terminal_ids ids es) fs
unfolding terminal_ids
terminal_ids-both ids [] fs = refl
terminal_ids-both ids (e ∷ es) fs =
    terminal_ids-both (add_terminal (terminal_result e.payload) ids) es fs

pub fresh-last :
    (es added p : List Event) (e : Event)
    → p ≡ es ++ added
    → repeats (terminal_result e.payload) (terminal_ids [] p) ≡ false
    → fresh (terminal_ids [] es) added ≡ true
    → fresh (terminal_ids [] es) (added ++ e ∷ []) ≡ true
fresh-last es added p e same new h =
    let kept =
      ap (repeats (terminal_result e.payload)) (sym (terminal_ids-both [] es added))
      ∙ ap (λ l. repeats (terminal_result e.payload) (terminal_ids [] l)) (sym same)
      ∙ new in
    fresh-append (terminal_ids [] es) added e ∙ both _ _ h kept
  where
    both : (a b : Bool) → a ≡ true → b ≡ false → (a && not b) ≡ true
    both a b h k = ground (arith, h, k)

-- ===== src/Agent/Keeps/Numbering.antt =====
-- agent/agent-loop.ts: the numbers of the events of a session, and the log as one that only grows.
use echocoding_harness.Common.{
  ℕ, ◌+◌, ◌≤◌, ◌<◌, ◌≡◌, ap, ◌∙◌, sym, List, [], ◌∷◌, ◌++◌, append-nil, append_assoc, arith,
}
use echocoding_harness.Contracts.Event.{Event}
use echocoding_harness.Agent.Keeps.Rules.{IsLogProperty}

-- The numbers of `es` lie above `lo`, each above the one before it, and none lies above `hi`.
unfoldable pub Ascending : ℕ → List Event → ℕ → Type 0
Ascending lo [] hi = lo ≤ hi
Ascending lo (e ∷ es) hi = (lo < e.sequence) × Ascending e.sequence es hi

pub Ascending-append :
    (lo hi : ℕ) (es : List Event) (e : Event)
    → e.sequence ≡ hi + 1
    → Ascending lo es hi
    → Ascending lo (es ++ e ∷ []) (hi + 1)
unfolding Ascending
Ascending-append lo hi [] e same h = (omega (arith, same, h), omega (arith, same))
Ascending-append lo hi (x ∷ es) e same (h, rest) =
    (h, Ascending-append x.sequence hi es e same rest)

pub Ascending-raise : (lo n m : ℕ) (es : List Event) → n ≤ m → Ascending lo es n → Ascending lo es m
unfolding Ascending
Ascending-raise lo n m [] le h = omega (arith, le, h)
Ascending-raise lo n m (x ∷ es) le (h, rest) = (h, Ascending-raise x.sequence n m es le rest)

pub Ascending-IsLogProperty : IsLogProperty (Ascending 0)
Ascending-IsLogProperty = record {
  grows = λ es n e same h. Ascending-append 0 n es e same h;
  raises = λ es n m le h. Ascending-raise 0 n m es le h;
}

-- `es` starts with `old`.
pub record Extends (old es : List Event) : Type 0 where
  pub rest : List Event
  pub split : es ≡ old ++ rest

pub Extends-refl : (es : List Event) → Extends es es
Extends-refl es = record { rest = []; split = sym (append-nil es) }

pub Extends-IsLogProperty : (old : List Event) → IsLogProperty (λ es n. Extends old es)
Extends-IsLogProperty old = record {
  grows = λ es n e same h. record {
    rest = h.rest ++ e ∷ [];
    split = ap (λ l. l ++ e ∷ []) h.split ∙ append_assoc old h.rest (e ∷ []);
  };
  raises = λ es n m le h. h;
}

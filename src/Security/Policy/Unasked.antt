-- ===== src/Security/Policy/Unasked.antt =====
-- The commands that run without a question: their text holds no separator of commands.
use echocoding_harness.Common.{
  ℕ, ◌≡◌, refl, arith, ap, Bool-cases, Bool, true, false, Option, none, some, List, [], ◌∷◌, inl,
  inr, if◌then◌else◌, Text, All, units, mem_text, text_eq,
}
use echocoding_harness.Common.Regex.{
  Re, Item, alt, set, choice, only, test, match, search_from, characters, is_in_set, found,
}
use echocoding_harness.Contracts.Error.{Outcome, ok, thrown}
use echocoding_harness.Agent.Interface.{Decision, ask, PolicyRequest}
use echocoding_harness.Security.Patterns.Commands.{compound_command}
use echocoding_harness.Security.Patterns.Denials.{redirection}
use echocoding_harness.Security.Paths.{Platform, Violation}
use echocoding_harness.Security.Commands
use echocoding_harness.Security.Commands.{
  RiskClassification, hard_deny, read, validation, local_write, classify_command, classify_effect,
  classify_inside,
}
use echocoding_harness.Security.Policy.{
  is_full_access, is_read_file_tool, is_write_file_tool, approval_key, safe_reason, then_do,
  ask_or_approved, mode_decision, on_command, on_violation, evaluate, command_of,
}
use echocoding_harness.Security.Policy.Approvals.{without_approvals}
use echocoding_harness.Security.Policy.Modes.{Allowed}

-- Where an expression that begins with a class of its own as an alternative matches nowhere, no
-- character is in the class.
search_from-All :
    (items : List Item) (r : Re) (before s : List ℕ)
    → found (search_from false (alt (set false items) r) before s) ≡ false
    → All (λ c. is_in_set false items c ≡ false) s
unfolding search_from match
search_from-All items r before [] e = tt
search_from-All items r before (c ∷ s) e = elim (Bool-cases (is_in_set false items c)) [
  | inl in_ ↦ absurd (ground (arith, e, in_))
  | inr out ↦ (out, search_from-All items r (c ∷ before) s (ground (arith, e, out)))
]

abbrev separators : List Item
separators = only ";&|"

-- `command` holds no `;`, no `&` and no `|`.
abbrev pub IsSingle : Text → Type 0
IsSingle command = All (λ c. is_in_set false separators c ≡ false) (characters command)

IsSingle-compound :
    (command : Text) → test false compound_command command ≡ false → IsSingle command
unfolding test compound_command redirection choice
IsSingle-compound command e = search_from-All separators redirection [] (characters command) e

-- The classes that some mode runs without a question.
abbrev is_unasked : RiskClassification → Bool
is_unasked (Commands.ask _ _) = false
is_unasked (hard_deny _ _) = false
is_unasked _ = true

-- A compound command is asked about, whatever else holds of it.
compound_asked :
    (command : Text)
    → is_unasked (classify_effect command) ≡ true
    → test false compound_command command ≡ false
unfolding classify_effect
compound_asked command u = ground (arith, u)

unasked_inside :
    (p : Platform) (command root : Text) (v : Option Text)
    → is_unasked (classify_inside p command root v) ≡ true
    → is_unasked (classify_effect command) ≡ true
unasked_inside p command root v u = ground (arith, u)

IsSingle-classify :
    (p : Platform) (command root : Text)
    → is_unasked (classify_command p command root) ≡ true
    → IsSingle command
unfolding classify_command
IsSingle-classify p command root u =
    IsSingle-compound command (compound_asked command (unasked_inside p command root _ u))

-- The third test decides.
on_run_command :
    (b c d : Bool) (x y z w : Outcome Decision)
    → b ≡ false
    → c ≡ false
    → d ≡ true
    → Allowed (if b then x else if c then y else if d then z else w)
    → Allowed z
on_run_command false false true x y z w _ _ _ a = a
on_run_command true c d x y z w e _ _ a = absurd (cc e)
on_run_command false true d x y z w _ e _ a = absurd (cc e)
on_run_command false false false x y z w _ _ e a = absurd (cc e)

module _ (p : Platform) (r : PolicyRequest) where
  ask_not-Allowed :
      (reason rule : Text) → ¬ (Allowed (ask_or_approved p (without_approvals r) reason rule))
  unfolding ask_or_approved mem_text
  ask_not-Allowed reason rule = asked (approval_key p r.tool_name r.input)
    where
      asked :
          (o : Outcome Text)
          → ¬ (Allowed (then_do o (λ key. ok (ask (safe_reason p r reason) key rule))))
      asked (ok key) a = a
      asked (thrown e) a = a

  unasked-Allowed :
      (c : RiskClassification)
      → Allowed (mode_decision p (without_approvals r) c)
      → is_unasked c ≡ true
  unfolding mode_decision
  unasked-Allowed (Commands.ask reason rule) a = absurd (ask_not-Allowed _ rule a)
  unasked-Allowed (hard_deny reason rule) a = absurd a
  unasked-Allowed (read reason rule) a = refl
  unasked-Allowed (validation reason rule) a = refl
  unasked-Allowed (local_write reason rule) a = refl

  IsSingle-on_command :
      (o : Option Text)
      → Allowed (on_command p (without_approvals r) o)
      → (command : Text) × (o ≡ some command) × IsSingle command
  IsSingle-on_command none a = absurd a
  IsSingle-on_command (some command) a = (
    command,
    refl,
    IsSingle-classify p command r.workspace_root
        (unasked-Allowed (classify_command p command r.workspace_root) a),
  )

  IsSingle-on_violation :
      (v : Option Violation)
      → r.tool_name ≡ units "run_command"
      → Allowed (on_violation p (without_approvals r) v)
      → (command : Text) × (command_of r.input ≡ some command) × IsSingle command
  unfolding mem_text units text_eq
  IsSingle-on_violation (some v) e a = absurd a
  IsSingle-on_violation none e a = IsSingle-on_command (command_of r.input) (
      on_run_command (is_read_file_tool r.tool_name) (is_write_file_tool r.tool_name)
        (text_eq r.tool_name (units "run_command")) _ _ _ _ (ap is_read_file_tool e)
        (ap is_write_file_tool e) (ap (λ t. text_eq t (units "run_command")) e) a)

  -- Outside full access and without approvals, a command that runs without a question holds no `;`,
  -- no `&` and no `|`.
  pub evaluate-IsSingle :
      is_full_access r.mode ≡ false
      → r.tool_name ≡ units "run_command"
      → Allowed (evaluate p (without_approvals r))
      → (command : Text) × (command_of r.input ≡ some command) × IsSingle command
  unfolding evaluate
  evaluate-IsSingle m e a = IsSingle-on_violation _ e (rw m at a)

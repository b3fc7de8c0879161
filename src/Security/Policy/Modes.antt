-- ===== src/Security/Policy/Modes.antt =====
-- The decisions of the modes against each other: between safe, balanced and auto a looser mode turns
-- questions into permissions and changes nothing else.
use echocoding_harness.Common.{
  ◌≡◌, refl, arith, Bool, true, false, Option, none, some, inl, inr, ◌⊎◌, if◌then◌else◌, Text,
  units, text_eq,
}
use echocoding_harness.Contracts.Error.{Outcome, ok, thrown}
use echocoding_harness.Contracts.Event.{SafetyMode, safe, balanced, auto}
use echocoding_harness.Agent.Interface.{Decision, allow, ask, deny, PolicyRequest}
use echocoding_harness.Security.Paths.{Platform, Violation, declared_path_violation}
use echocoding_harness.Security.Commands
use echocoding_harness.Security.Commands.{
  RiskClassification, hard_deny, read, validation, local_write, classify_command,
}
use echocoding_harness.Security.Policy.{
  is_safe, is_auto, is_full_access, is_read_file_tool, is_write_file_tool, approval_key,
  safe_reason, then_do, with_key, ask_or_approved, mode_decision, on_command, on_tool, on_violation,
  evaluate, command_of,
}

abbrev pub Allowed : Outcome Decision → Type 0
Allowed (ok (allow _ _)) = Unit
Allowed _ = ⊥

-- The first decision stands, or was a question or an error where the second permits.
abbrev pub Loosens : Outcome Decision → Outcome Decision → Type 0
Loosens (ok (allow reason rule)) d = Allowed d
Loosens (ok (ask reason key rule)) d = (d ≡ ok (ask reason key rule)) ⊎ Allowed d
Loosens (ok (deny reason hard rule)) d = d ≡ ok (deny reason hard rule)
Loosens (thrown e) d = (d ≡ thrown e) ⊎ Allowed d

abbrev pub looser : SafetyMode → SafetyMode → Bool
looser safe safe = true
looser safe balanced = true
looser safe auto = true
looser balanced balanced = true
looser balanced auto = true
looser auto auto = true
looser _ _ = false

Loosens-refl : (d : Outcome Decision) → Loosens d d
Loosens-refl (ok (allow reason rule)) = tt
Loosens-refl (ok (ask reason key rule)) = inl refl
Loosens-refl (ok (deny reason hard rule)) = refl
Loosens-refl (thrown e) = inl refl

Loosens-if :
    (b : Bool) (x y x' y' : Outcome Decision)
    → Loosens x x'
    → Loosens y y'
    → Loosens (if b then x else y) (if b then x' else y')
Loosens-if true x y x' y' e f = e
Loosens-if false x y x' y' e f = f

-- Instead of a question there is a permission.
Loosens-question :
    (p : Platform) (r : PolicyRequest) (reason rule : Text) (d : Outcome Decision)
    → Allowed d
    → Loosens (ask_or_approved p r reason rule) d
unfolding ask_or_approved
Loosens-question p r reason rule d a = asked (approval_key p r.tool_name r.input)
  where
    decided : (b : Bool) (x y k z : Text) → Loosens (ok (if b then allow x y else ask k z rule)) d
    decided true x y k z = a
    decided false x y k z = inr a

    asked : (o : Outcome Text) → Loosens (then_do o (λ key. ok (with_key p r reason rule key))) d
    asked (ok key) = decided _ _ _ _ _
    asked (thrown e) = inr a

abbrev pub in_mode : SafetyMode → PolicyRequest → PolicyRequest
in_mode m r = record r { mode = m }

is_safe_back : (m n : SafetyMode) → looser m n ≡ true → is_safe n ≡ true → is_safe m ≡ true
is_safe_back m n l e = ground arith

is_auto_on : (m n : SafetyMode) → looser m n ≡ true → is_auto m ≡ true → is_auto n ≡ true
is_auto_on m n l e = ground arith

not_full :
    (m n : SafetyMode) → looser m n ≡ true → (is_full_access m ≡ false) × (is_full_access n ≡ false)
not_full m n l = ground arith

module _ (p : Platform) (r : PolicyRequest) where
  -- A question on a test that holds less often in the looser mode, or fails more often.
  Loosens-asks :
      (b c : Bool) (reason rule reason' rule' : Text)
      → (c ≡ true → b ≡ true)
      → Loosens
          (if b then ask_or_approved p r reason rule else ok (allow reason' rule'))
          (if c then ask_or_approved p r reason rule else ok (allow reason' rule'))
  Loosens-asks true true reason rule _ _ f = Loosens-refl (ask_or_approved p r reason rule)
  Loosens-asks true false reason rule _ _ f = Loosens-question p r reason rule _ tt
  Loosens-asks false true reason rule _ _ f = absurd (cc (f refl))
  Loosens-asks false false reason rule _ _ f = tt

  Loosens-allows :
      (b c : Bool) (reason rule : Text)
      → (b ≡ true → c ≡ true)
      → Loosens
          (if b then ok (allow reason rule) else ask_or_approved p r reason rule)
          (if c then ok (allow reason rule) else ask_or_approved p r reason rule)
  Loosens-allows true true reason rule f = tt
  Loosens-allows true false reason rule f = absurd (cc (f refl))
  Loosens-allows false true reason rule f = Loosens-question p r reason rule _ tt
  Loosens-allows false false reason rule f = Loosens-refl (ask_or_approved p r reason rule)

  mode_decision-Loosens :
      (m n : SafetyMode) (c : RiskClassification)
      → looser m n ≡ true
      → Loosens (mode_decision p (in_mode m r) c) (mode_decision p (in_mode n r) c)
  unfolding mode_decision ask_or_approved
  mode_decision-Loosens m n (Commands.ask reason rule) l =
      Loosens-refl (ask_or_approved p r (safe_reason p r reason) rule)
  mode_decision-Loosens m n (read reason rule) l = tt
  mode_decision-Loosens m n (hard_deny reason rule) l = refl
  mode_decision-Loosens m n (validation reason rule) l =
      Loosens-asks (is_safe m) (is_safe n) (safe_reason p r reason) rule _ _ (is_safe_back m n l)
  mode_decision-Loosens m n (local_write reason rule) l =
      Loosens-allows (is_auto m) (is_auto n) (safe_reason p r reason) rule (is_auto_on m n l)

  on_tool-Loosens :
      (m n : SafetyMode)
      → looser m n ≡ true
      → Loosens (on_tool p (in_mode m r)) (on_tool p (in_mode n r))
  unfolding ask_or_approved
  on_tool-Loosens m n l = Loosens-if (is_read_file_tool r.tool_name) _ _ _ _ tt (
      Loosens-if (is_write_file_tool r.tool_name) _ _ _ _
        (Loosens-asks (is_safe m) (is_safe n) _ _ _ _ (is_safe_back m n l))
        (Loosens-if (text_eq r.tool_name (units "run_command")) _ _ _ _
          (on_command-Loosens (command_of r.input)) refl))
    where
      on_command-Loosens :
          (o : Option Text) → Loosens (on_command p (in_mode m r) o) (on_command p (in_mode n r) o)
      on_command-Loosens none = refl
      on_command-Loosens (some command) =
          mode_decision-Loosens m n (classify_command p command r.workspace_root) l

  on_violation-Loosens :
      (m n : SafetyMode) (v : Option Violation)
      → looser m n ≡ true
      → Loosens (on_violation p (in_mode m r) v) (on_violation p (in_mode n r) v)
  on_violation-Loosens m n (some v) l = refl
  on_violation-Loosens m n none l = on_tool-Loosens m n l

  -- Between safe, balanced and auto, a looser mode permits what the stricter one permits, denies what
  -- it denies and with the same reason, and leaves a question as it is or permits.
  pub evaluate-Loosens :
      (m n : SafetyMode)
      → looser m n ≡ true
      → Loosens (evaluate p (in_mode m r)) (evaluate p (in_mode n r))
  unfolding evaluate
  evaluate-Loosens m n l =
      let (a, b) = not_full m n l in
      rw (a, b)
        (on_violation-Loosens m n
          (declared_path_violation p r.input r.workspace_root (is_write_file_tool r.tool_name)) l)

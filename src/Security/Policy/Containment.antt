-- ===== src/Security/Policy/Containment.antt =====
-- What is never permitted outside full access: an input that declares a path out of the workspace.
use echocoding_harness.Common.{
  ◌≡◌, refl, arith, Bool, true, false, Option-cases, none, List, [], ◌∷◌, inl, inr, ◌⊎◌, Text, All,
}
use echocoding_harness.Common.Regex.{test}
use echocoding_harness.Contracts.Error.{Outcome, ok}
use echocoding_harness.Agent.Interface.{Decision, deny, PolicyRequest}
use echocoding_harness.Security.Patterns.Paths.{unc_or_device_path, git_path}
use echocoding_harness.Security.Paths.{
  Platform, is_inside_workspace, collect_declared_paths, candidate_violation, first_violation,
  declared_path_violation,
}
use echocoding_harness.Security.Policy.{is_full_access, is_write_file_tool, evaluate}

-- A path in the workspace, which is no device path and, where `deny_git`, not in `.git`.
pub record Contained (p : Platform) (root : Text) (deny_git : Bool) (path : Text) : Type 0 where
  pub inside : is_inside_workspace p path root ≡ true
  pub no_device : test false unc_or_device_path path ≡ false
  pub no_git : deny_git ≡ true → test true git_path path ≡ false

abbrev pub IsHardDenial : Outcome Decision → Type 0
IsHardDenial (ok (deny reason hard rule)) = hard ≡ true
IsHardDenial _ = ⊥

module _ (p : Platform) (root : Text) (deny_git : Bool) where
  Contained-candidate :
      (path : Text)
      → candidate_violation p path root deny_git ≡ none
      → Contained p root deny_git path
  unfolding candidate_violation
  Contained-candidate path e = record {
    inside = ground arith;
    no_device = ground arith;
    no_git = λ d. ground arith;
  }

  Contained-first :
      (paths : List Text)
      → first_violation p paths root deny_git ≡ none
      → All (Contained p root deny_git) paths
  unfolding first_violation
  Contained-first [] e = tt
  Contained-first (c ∷ cs) e = elim (Option-cases (candidate_violation p c root deny_git)) [
    | inl clean ↦ (Contained-candidate c clean, Contained-first cs (ground arith))
    | inr (v, bad) ↦ absurd (ground arith)
  ]

-- Outside full access a request is denied hard, or every path that its input declares lies in the
-- workspace, is no UNC or device path, and where the tool writes files is not in `.git`.
pub evaluate-Contained :
    (p : Platform) (r : PolicyRequest)
    → is_full_access r.mode ≡ false
    → IsHardDenial (evaluate p r)
      ⊎ All
          (Contained p r.workspace_root (is_write_file_tool r.tool_name))
          (collect_declared_paths p r.input)
unfolding evaluate declared_path_violation
evaluate-Contained p r m =
    elim (Option-cases (
      first_violation p (collect_declared_paths p r.input) r.workspace_root
        (is_write_file_tool r.tool_name))) [
          | inl e ↦ inr (Contained-first p r.workspace_root (is_write_file_tool r.tool_name) _ e)
          | inr (v, e) ↦ inl (rw (m, e) refl)
        ]

-- ===== src/Tools/Files/Resolve/Returned.antt =====
-- What is known of the parts of an action on files that returns.
use echocoding_harness.Common.{◌≡◌, refl, Bool, true, false, ◌⊎◌, inl, inr, if◌then◌else◌}
use echocoding_harness.Tools.Files.Errors.{Failure, Result, ok, fail}
use echocoding_harness.Tools.Files.Resolve.{
  Answer, found, missing, broken, Action, ◌>>=◌, then_run, raise, answer, answered, pure,
}

module _ {W A B : Type 0} where
  -- Inversion of a bind that returns: its first part returns, and then the rest does.
  pub bind-ok :
      (m : Action W A) (f : A → Action W B) (w : W) (b : B) (v : W)
      → (m >>= f) w ≡ (ok b, v)
      → (a : A) × (u : W) × (m w ≡ (ok a, u)) × (f a u ≡ (ok b, v))
  bind-ok m f w b v h = split (m w) refl h
    where
      split :
          (r : Result A × W)
          → m w ≡ r
          → then_run f r ≡ (ok b, v)
          → (a : A) × (u : W) × (m w ≡ (ok a, u)) × (f a u ≡ (ok b, v))
      split (ok a, u) q h' = (a, u, q, h')
      split (fail e, u) q h' = absurd (cc h')

  pub raise-ok :
      (r : Result A) (f : A → Action W B) (w : W) (b : B) (v : W)
      → (raise r >>= f) w ≡ (ok b, v)
      → (a : A) × (r ≡ ok a) × (f a w ≡ (ok b, v))
  raise-ok (ok a) f w b v h = (a, refl, h)
  raise-ok (fail e) f w b v h = absurd (cc h)

  -- A call of the file system that is answered, where the other answers lead nowhere.
  pub answer-ok :
      (call : W → Answer A × W) (f : A → Action W B) (m n : Action W B) (w : W) (b : B) (v : W)
      → answer call f m n w ≡ (ok b, v)
      → ((a : A) × (u : W) × (call w ≡ (found a, u)) × (f a u ≡ (ok b, v)))
        ⊎ (((u : W) × (call w ≡ (missing, u)) × (m u ≡ (ok b, v))) ⊎ ((u : W) × (n u ≡ (ok b, v))))
  answer-ok call f m n w b v h = split (call w) refl h
    where
      split :
          (r : Answer A × W)
          → call w ≡ r
          → answered f m n r ≡ (ok b, v)
          → ((a : A) × (u : W) × (call w ≡ (found a, u)) × (f a u ≡ (ok b, v)))
            ⊎ (((u : W) × (call w ≡ (missing, u)) × (m u ≡ (ok b, v)))
                ⊎ ((u : W) × (n u ≡ (ok b, v))))
      split (found a, u) q h' = inl (a, u, q, h')
      split (missing, u) q h' = inr (inl (u, q, h'))
      split (broken, u) q h' = inr (inr (u, h'))

  -- The same where the other answers are refused.
  pub found-ok :
      (call : W → Answer A × W) (f : A → Action W B) (e e' : Failure) (w : W) (b : B) (v : W)
      → answer call f (raise (fail e)) (raise (fail e')) w ≡ (ok b, v)
      → (a : A) × (u : W) × (call w ≡ (found a, u)) × (f a u ≡ (ok b, v))
  found-ok call f e e' w b v h =
      elim (answer-ok call f (raise (fail e)) (raise (fail e')) w b v h) [
        | inl r ↦ r
        | inr (inl (u, q, k)) ↦ absurd (cc k)
        | inr (inr (u, k)) ↦ absurd (cc k)
      ]

module _ {W A : Type 0} (w : W) (a : A) (v : W) where
  pub pure-ok : (b : A) → pure b w ≡ (ok a, v) → (b ≡ a) × (w ≡ v)
  pure-ok b h = (cc h, cc h)

  -- An action under a test that fails where the test does, or where it holds.
  pub if-ok :
      (c : Bool) (m : Action W A) (e : Failure)
      → (if c then m else raise (fail e)) w ≡ (ok a, v)
      → (c ≡ true) × (m w ≡ (ok a, v))
  if-ok true m e h = (refl, h)
  if-ok false m e h = absurd (cc h)

  pub unless-ok :
      (c : Bool) (m : Action W A) (e : Failure)
      → (if c then raise (fail e) else m) w ≡ (ok a, v)
      → (c ≡ false) × (m w ≡ (ok a, v))
  unless-ok true m e h = absurd (cc h)
  unless-ok false m e h = (refl, h)

  -- A test before an action.
  pub guard-ok :
      (c : Bool) (e : Failure) (f : Unit {0} → Action W A)
      → (raise (if c then ok tt else fail e) >>= f) w ≡ (ok a, v)
      → (c ≡ true) × (f tt w ≡ (ok a, v))
  guard-ok true e f h = (refl, h)
  guard-ok false e f h = absurd (cc h)

  pub deny-ok :
      (c : Bool) (e : Failure) (f : Unit {0} → Action W A)
      → (raise (if c then fail e else ok tt) >>= f) w ≡ (ok a, v)
      → (c ≡ false) × (f tt w ≡ (ok a, v))
  deny-ok true e f h = absurd (cc h)
  deny-ok false e f h = (refl, h)

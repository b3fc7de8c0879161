-- ===== src/Tools/Files/Segments/Safe.antt =====
-- What a path that passes is made of.
use echocoding_harness.Common.{
  ℕ, ◌≡◌, refl, arith, subst, if-cases, Bool, true, false, not, ◌||◌, any, all, List, [], ◌∷◌, ◌++◌,
  Text, All, units, text_eq, mem_text,
}
use echocoding_harness.Tools.Files.Errors.{ok, violation}
use echocoding_harness.Tools.Files.Segments.{
  is_separator, segments_from, includes, ends_in_suffix, is_windows_device_name, check_segments,
  validate_relative_path, kept,
}

abbrev no_separator : Text → Bool
no_separator t = all (λ c. not (is_separator c)) t

-- A segment that names a file or directory under its parent on every platform.
pub record IsSafe (upper : Text → Text) (segment : Text) : Type 0 where
  pub not_empty : text_eq segment [] ≡ false
  pub not_here : text_eq segment (46 ∷ []) ≡ false
  pub not_parent : text_eq segment (units "..") ≡ false
  pub whole : no_separator segment ≡ true
  pub no_stream : includes 58 segment ≡ false
  pub unambiguous : ends_in_suffix segment ≡ false
  pub no_device : is_windows_device_name upper segment ≡ false

record IsKept (segment : Text) : Type 0 where
  not_empty : text_eq segment [] ≡ false
  not_here : text_eq segment (46 ∷ []) ≡ false
  whole : no_separator segment ≡ true

kept-IsKept :
    (segment : Text) (rest : List Text)
    → no_separator segment ≡ true
    → All IsKept rest
    → All IsKept (kept segment rest)
kept-IsKept segment rest n r =
    if-cases (All IsKept) (text_eq segment [] || text_eq segment (46 ∷ [])) _ _ (λ _. r)
      (λ e. (record { not_empty = ground (arith, e); not_here = ground (arith, e); whole = n }, r))

no_separator-append :
    (segment : Text) (c : ℕ)
    → no_separator segment ≡ true
    → is_separator c ≡ false
    → no_separator (segment ++ c ∷ []) ≡ true
no_separator-append [] c n e = ground (arith, e)
no_separator-append (x ∷ segment) c n e = ground (arith, n, no_separator-append segment c)

segments_from-IsKept :
    (segment t : Text) → no_separator segment ≡ true → All IsKept (segments_from segment t)
unfolding segments_from
segments_from-IsKept segment [] n = kept-IsKept segment [] n tt
segments_from-IsKept segment (c ∷ t) n =
    if-cases (All IsKept) (is_separator c) _ _
      (λ _. kept-IsKept segment _ n (segments_from-IsKept [] t refl))
      (λ e. segments_from-IsKept (segment ++ c ∷ []) t (no_separator-append segment c n e))

module _ (upper : Text → Text) where
  -- The checks, for each segment.
  IsSafe-All :
      (segments : List Text)
      → All IsKept segments
      → mem_text (units "..") segments ≡ false
      → any (includes 58) segments ≡ false
      → any ends_in_suffix segments ≡ false
      → any (is_windows_device_name upper) segments ≡ false
      → All (IsSafe upper) segments
  unfolding mem_text
  IsSafe-All [] k a b c d = tt
  IsSafe-All (s ∷ segments) (k, ks) a b c d = (
    record {
      not_empty = k.not_empty;
      not_here = k.not_here;
      not_parent = ground (arith, a);
      whole = k.whole;
      no_stream = ground (arith, b);
      unambiguous = ground (arith, c);
      no_device = ground (arith, d);
    },
    IsSafe-All segments ks (ground (arith, a)) (ground (arith, b)) (ground (arith, c))
        (ground (arith, d)),
  )

  check_segments-IsSafe :
      (segments checked : List Text) (allow_root : Bool)
      → All IsKept segments
      → check_segments upper segments allow_root ≡ ok checked
      → All (IsSafe upper) checked
  unfolding check_segments violation
  check_segments-IsSafe segments checked allow_root k e =
      let (a, b, c, d, same) = facts in
      subst (All (IsSafe upper)) same (IsSafe-All segments k a b c d)
    where
      facts :
          (mem_text (units "..") segments ≡ false)
          × (any (includes 58) segments ≡ false)
          × (any ends_in_suffix segments ≡ false)
          × (any (is_windows_device_name upper) segments ≡ false)
          × (segments ≡ checked)
      facts = ground (arith, e)

  -- A path that passes is made of segments that are neither empty nor a dot nor two dots, hold no
  -- separator and no colon, do not end in a space or a dot, and are no device name of Windows.
  pub validate_relative_path-IsSafe :
      (input : Text) (allow_root : Bool) (segments : List Text)
      → validate_relative_path upper input allow_root ≡ ok segments
      → All (IsSafe upper) segments
  unfolding validate_relative_path violation
  validate_relative_path-IsSafe input allow_root segments e =
      check_segments-IsSafe (segments_from [] input) segments allow_root
        (segments_from-IsKept [] input refl) (ground (arith, e))

-- ===== src/Tools/Files/Resolve/Inside.antt =====
-- What a path that is resolved has passed, and in which order the file system was asked.
use echocoding_harness.Common.{
  ◌≡◌, sym, subst, ap, arith, text_eq, Bool, true, false, ◌⊎◌, inl, inr, List, [], ◌∷◌, Text,
  if◌then◌else◌,
}
use echocoding_harness.Tools.Files.Errors.{ok, violation}
use echocoding_harness.Tools.Files.Segments.{validate_relative_path, is_git_path}
use echocoding_harness.Tools.Files.Resolve.{
  found, missing, Stats, FileSystem, ResolvedWorkspacePath, ResolveOptions, Action, ◌>>=◌, target,
  join_segments, is_inside, ensure_inside_workspace, resolve_workspace_root,
  assert_git_write_allowed, check_canonical, resolve_existing, resolve_new, resolve_segments,
  resolve_workspace_path, segments_of, pure, parent_directory,
}
use echocoding_harness.Tools.Files.Resolve.Returned.{
  bind-ok, raise-ok, answer-ok, found-ok, pure-ok, if-ok, unless-ok, guard-ok,
}

module _ {W : Type 0} (fs : FileSystem W) where
  open fs use {lstat, stat, realpath, resolve, join, dirname, basename, relative, upper, lower}

  -- The path exists: the file system has followed its links, and where they lead is inside the root.
  pub record IsExisting (root lexical : Text) (before : W) (r : ResolvedWorkspacePath) (after : W)
      : Type 0 where
    pub looked : W
    pub exists : r.exists ≡ true
    pub present : lstat lexical before ≡ (found tt, looked)
    pub followed : realpath lexical looked ≡ (found r.absolute_path, after)
    pub inside : is_inside fs root r.absolute_path ≡ true

  -- The path does not exist, and need not: it is the last name of the requested path under the
  -- directory to which the links of its parent lead, which is inside the root.
  pub record IsNew (root lexical : Text) (before : W) (r : ResolvedWorkspacePath) (after : W)
      : Type 0 where
    pub looked : W
    pub linked : W
    pub parent : Text
    pub stats : Stats
    pub exists : r.exists ≡ false
    pub absent : lstat lexical before ≡ (missing, looked)
    pub followed : realpath (dirname lexical) looked ≡ (found parent, linked)
    pub inside : is_inside fs root parent ≡ true
    pub named : r.absolute_path ≡ join parent (basename lexical ∷ [])
    pub directory : (stat parent linked ≡ (found stats, after)) × (stats.is_directory ≡ true)

  -- Where a path lies that is to be read or, with `write`, written; `before` and `after` are the worlds
  -- before and after it was resolved.
  pub record IsPlaced (root input : Text) (options : ResolveOptions) (before : W)
      (r : ResolvedWorkspacePath) (after : W) : Type 0 where
    pub rooted : W
    pub checked : W
    pub stats : Stats
    pub segments : List Text
    pub real_root : realpath (resolve root) before ≡ (found r.root_path, rooted)
    pub root_directory :
        (stat r.root_path rooted ≡ (found stats, checked)) × (stats.is_directory ≡ true)
    pub passed : validate_relative_path upper input options.allow_root ≡ ok segments
    pub path : r.relative_path ≡ join_segments fs segments
    pub inside : is_inside fs r.root_path (join r.root_path segments) ≡ true
    pub placed :
        IsExisting r.root_path (join r.root_path segments) checked r after
        ⊎ ((options.must_exist ≡ false)
            × IsNew r.root_path (join r.root_path segments) checked r after)
    pub no_git :
        options.write ≡ true
        → (is_git_path lower segments ≡ false)
          × (is_git_path lower (segments_of (relative r.root_path r.absolute_path)) ≡ false)

  inside-ok :
      {A : Type 0} (link : Bool) (root candidate : Text) (f : Unit {0} → Action W A) (w : W) (a : A)
      (v : W)
      → (ensure_inside_workspace fs link root candidate >>= f) w ≡ (ok a, v)
      → (is_inside fs root candidate ≡ true) × (f tt w ≡ (ok a, v))
  unfolding ensure_inside_workspace violation
  inside-ok true root candidate f w a v h = guard-ok w a v (is_inside fs root candidate) _ f h
  inside-ok false root candidate f w a v h = guard-ok w a v (is_inside fs root candidate) _ f h

  git-ok :
      {A : Type 0} (write : Bool) (segments : List Text) (f : Unit {0} → Action W A) (w : W) (a : A)
      (v : W)
      → ((if write then assert_git_write_allowed fs segments else pure tt) >>= f) w ≡ (ok a, v)
      → (write ≡ true → is_git_path lower segments ≡ false) × (f tt w ≡ (ok a, v))
  unfolding assert_git_write_allowed violation
  git-ok false segments f w a v h = (λ e. absurd (cc e), h)
  git-ok true segments f w a v h =
      let (t, passed, rest) = raise-ok (assert_git_write_allowed fs segments w).0 f w a v h in
      (λ _. ground (arith, passed), rest)

  -- The root that is resolved is a directory.
  root-ok :
      (root path : Text) (w v : W)
      → resolve_workspace_root fs root w ≡ (ok path, v)
      → (u : W) × (stats : Stats) × (realpath (resolve root) w ≡ (found path, u))
        × (stat path u ≡ (found stats, v))
        × (stats.is_directory ≡ true)
  unfolding resolve_workspace_root
  root-ok root path w v h =
      let (_, asked) = unless-ok w path v (text_eq root []) _ _ h in
      let (real, u, q, rest) = found-ok (realpath (resolve root)) _ _ _ w path v asked in
      let (stats, x, q', rest') = found-ok (stat real) _ _ _ u path v rest in
      let (dir, done) = if-ok x path v stats.is_directory _ _ rest' in
      let (same, last) = pure-ok x path v real done in
      (u, stats, cc (q, same), cc (q', same, last), dir)

  -- What a path that was made keeps of the parts that it was made of.
  abbrev Made : ResolveOptions → Text → Text → ResolvedWorkspacePath → Type 0
  Made options root path r =
      (r.root_path ≡ root)
      × (r.relative_path ≡ path)
      × (options.write ≡ true
          → is_git_path lower (segments_of (relative root r.absolute_path)) ≡ false)

  target-ok :
      (options : ResolveOptions) (root path absolute : Text) (exists : Bool) (w v : W)
      (r : ResolvedWorkspacePath)
      → target fs options root path absolute exists w ≡ (ok r, v)
      → Made options root path r × (r.absolute_path ≡ absolute) × (r.exists ≡ exists) × (w ≡ v)
  unfolding check_canonical
  target-ok options root path absolute exists w v r h =
      let (git, done) = git-ok options.write (segments_of (relative root absolute)) _ w r v h in
      let (same, last) = pure-ok w r v _ done in
      let absolute_same : absolute ≡ r.absolute_path =
        ap (λ (p : ResolvedWorkspacePath). p.absolute_path) same in
      (
        (
          sym (ap (λ (p : ResolvedWorkspacePath). p.root_path) same),
          sym (ap (λ (p : ResolvedWorkspacePath). p.relative_path) same),
          subst
              (λ t.
                options.write ≡ true → is_git_path lower (segments_of (relative root t)) ≡ false)
              absolute_same git,
        ),
        sym absolute_same,
        sym (ap (λ (p : ResolvedWorkspacePath). p.exists) same),
        last,
      )

  existing-ok :
      (options : ResolveOptions) (root path lexical : Text) (w u v : W) (r : ResolvedWorkspacePath)
      → lstat lexical w ≡ (found tt, u)
      → resolve_existing fs options root path lexical u ≡ (ok r, v)
      → Made options root path r × IsExisting root lexical w r v
  unfolding resolve_existing violation
  existing-ok options root path lexical w u v r present h =
      let (real, x, followed, rest) = found-ok (realpath lexical) _ _ _ u r v h in
      let (inside, rest') = inside-ok true root real _ x r v rest in
      let (made, absolute, exists, last) = target-ok options root path real true x v r rest' in
      (
        made,
        record {
          looked = u;
          exists = exists;
          present = present;
          followed = cc (followed, absolute, last);
          inside = cc (inside, absolute);
        },
      )

  new-ok :
      (options : ResolveOptions) (root path lexical : Text) (w u v : W) (r : ResolvedWorkspacePath)
      → lstat lexical w ≡ (missing, u)
      → resolve_new fs options root path lexical u ≡ (ok r, v)
      → Made options root path r × IsNew root lexical w r v
  unfolding resolve_new violation
  new-ok options root path lexical w u v r absent h =
      let (parent, x, followed, rest) = parent_found in
      let absolute = join parent (basename lexical ∷ []) in
      let (inside, rest') = inside-ok true root parent _ x r v rest in
      let (resolved, y, done, last) =
        bind-ok (target fs options root path absolute false) _ x r v rest' in
      let (made, named, exists, still) =
        target-ok options root path absolute false x y resolved done in
      let (stats, z, asked, end_) = found-ok (stat parent) _ _ _ y r v last in
      let (dir, returned) = if-ok z r v stats.is_directory _ _ end_ in
      let (same, over) = pure-ok z r v resolved returned in
      (
        subst (Made options root path) same made,
        record {
          looked = u;
          linked = x;
          parent = parent;
          stats = stats;
          exists = cc (exists, same);
          absent = absent;
          followed = followed;
          inside = inside;
          named = cc (named, same);
          directory = (cc (asked, still, over), dir);
        },
      )
    where
      parent_found :
          (parent : Text) × (x : W) × (realpath (dirname lexical) u ≡ (found parent, x))
          × ((ensure_inside_workspace fs true root parent >>= λ _.
                  (target fs options root path (join parent (basename lexical ∷ [])) false
                    >>= λ resolved. parent_directory fs root path parent resolved))
                x
              ≡ (ok r, v))
      parent_found = elim (answer-ok (realpath (dirname lexical)) _ _ _ u r v h) [
        | inl a ↦ a
        | inr (inl (x, q, k)) ↦
            let (t, y, q', k') = found-ok (lstat (dirname lexical)) _ _ _ x r v k in absurd (cc k')
        | inr (inr (x, k)) ↦ absurd (cc k)
      ]

  segments-ok :
      (options : ResolveOptions) (root : Text) (segments : List Text) (w v : W)
      (r : ResolvedWorkspacePath)
      → resolve_segments fs options root segments w ≡ (ok r, v)
      → (options.write ≡ true → is_git_path lower segments ≡ false)
        × (is_inside fs root (join root segments) ≡ true)
        × Made options root (join_segments fs segments) r
        × (IsExisting root (join root segments) w r v
            ⊎ ((options.must_exist ≡ false) × IsNew root (join root segments) w r v))
  unfolding resolve_segments
  segments-ok options root segments w v r h =
      let (git, rest) = git-ok options.write segments _ w r v h in
      let (inside, rest') = inside-ok false root (join root segments) _ w r v rest in
      elim (answer-ok (lstat (join root segments)) _ _ _ w r v rest') [
        | inl (t, u, q, k) ↦
            let (made, existing) =
              existing-ok options root (join_segments fs segments) (join root segments) w u v r q
                k in
            (git, inside, made, inl existing)
        | inr (inl (u, q, k)) ↦
            let (need, k') = unless-ok u r v options.must_exist _ _ k in
            let (made, new) =
              new-ok options root (join_segments fs segments) (join root segments) w u v r q k' in
            (git, inside, made, inr (need, new))
        | inr (inr (u, k)) ↦ absurd (cc k)
      ]

  -- A path is resolved as follows, each call of the file system in the world that the one before left.
  -- The links of the root are followed, and it is a directory. The requested path passes the checks, and
  -- lies under the root by its name. Where it exists, its links are followed, and where they lead is
  -- inside the root. Where it does not exist, which is only accepted where it need not, the links of its
  -- parent are followed, where they lead is a directory inside the root, and the path is its last name
  -- under that directory. Where it is to be written, neither the requested path nor the one that was
  -- resolved has a segment `.git`.
  pub resolve_workspace_path-IsPlaced :
      (root input : Text) (options : ResolveOptions) (before : W) (r : ResolvedWorkspacePath)
      (after : W)
      → resolve_workspace_path fs root input options before ≡ (ok r, after)
      → IsPlaced root input options before r after
  unfolding resolve_workspace_path
  resolve_workspace_path-IsPlaced root input options before r after h =
      let (path, checked, found_root, rest) =
        bind-ok (resolve_workspace_root fs root) _ before r after h in
      let (rooted, stats, real, asked, dir) = root-ok root path before checked found_root in
      let (segments, passed, rest') =
        raise-ok (validate_relative_path upper input options.allow_root) _ checked r after rest in
      let (git, inside, (root_same, named, canonical), placed) =
        segments-ok options path segments checked after r rest' in
      let back : path ≡ r.root_path = sym root_same in
      record {
        rooted = rooted;
        checked = checked;
        stats = stats;
        segments = segments;
        real_root = subst (λ p. realpath (resolve root) before ≡ (found p, rooted)) back real;
        root_directory = (subst (λ p. stat p rooted ≡ (found stats, checked)) back asked, dir);
        passed = passed;
        path = named;
        inside = subst (λ p. is_inside fs p (join p segments) ≡ true) back inside;
        placed =
            subst
              (λ p.
                IsExisting p (join p segments) checked r after
                ⊎ ((options.must_exist ≡ false) × IsNew p (join p segments) checked r after))
              back placed;
        no_git = λ w. (
          git w,
          subst (λ p. is_git_path lower (segments_of (relative p r.absolute_path)) ≡ false) back
              (canonical w),
        );
      }

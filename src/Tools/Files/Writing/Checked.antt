-- ===== src/Tools/Files/Writing/Checked.antt =====
-- What a write that succeeds has checked, in the worlds in which it did.
use echocoding_harness.Common.{
  ◌≡◌, refl, sym, arith, Bool, true, false, not, ◌⊎◌, inl, inr, Option, none, some, [], Text,
  text_eq_iff, ℕ, if◌then◌else◌,
}
use echocoding_harness.Tools.Files.Errors.{ok, violation}
use echocoding_harness.Tools.Files.Diff.{create_diff}
use echocoding_harness.Tools.Files.Segments.{includes}
use echocoding_harness.Tools.Files.Resolve.{
  FileSystem, ResolvedWorkspacePath, pure, resolve_workspace_path,
}
use echocoding_harness.Tools.Files.Resolve.Inside.{IsPlaced, resolve_workspace_path-IsPlaced}
use echocoding_harness.Tools.Files.Resolve.Returned.{bind-ok, guard-ok, deny-ok, pure-ok}
use echocoding_harness.Tools.Files.Writing.{
  TextFile, WriteOutcome, read_text_file, previous_file, changed_since, is_unchanged, same_flag,
  assert_path_unchanged, write_options, perform_write, write_workspace_text,
}

module _ {W : Type 0} (fs : FileSystem W) (root requested content : Text) (limit : ℕ)
    (expected : Option Text) where
  -- The content that is there: that of the file that exists, or the empty one.
  abbrev pub IsPrevious : ResolvedWorkspacePath → W → TextFile → W → Type 0
  IsPrevious initial w previous v =
      ((initial.exists ≡ true) × (read_text_file fs initial.absolute_path w ≡ (ok previous, v)))
      ⊎ ((initial.exists ≡ false) × (previous.content ≡ []) × (previous.size_bytes ≡ 0) × (w ≡ v))

  -- A write between two worlds, with the worlds between its steps.
  pub record IsChecked (before : W) (outcome : WriteOutcome) (after : W) : Type 0 where
    pub initial : ResolvedWorkspacePath
    pub previous : TextFile
    pub again : ResolvedWorkspacePath
    pub first : W
    pub second : W
    pub third : W
    pub text : includes 0 content ≡ false
    pub placed : IsPlaced fs root requested (write_options false) before initial first
    pub read : IsPrevious initial first previous second
    pub compared : (t : Text) → expected ≡ some t → previous.content ≡ t
    pub running : fs.aborted second ≡ false
    pub placed_again : IsPlaced fs root requested (write_options initial.exists) second again third
    pub unchanged :
        (initial.exists ≡ again.exists)
        × (fs.comparable initial.absolute_path ≡ fs.comparable again.absolute_path)
    pub written : fs.write_file again.absolute_path content third ≡ (ok tt, after)
    pub told : outcome ≡ record {
      path = initial.relative_path;
      created = not initial.exists;
      bytes_written = fs.byte_length content;
      previous_bytes = previous.size_bytes;
      diff = create_diff previous.content content initial.relative_path limit;
    }

  unchanged_since :
      (o : Option Text) (t content : Text)
      → changed_since fs o content ≡ false
      → o ≡ some t
      → content ≡ t
  unchanged_since none t content e q = absurd (cc q)
  unchanged_since (some u) t content e q = ground (arith, e, q, text_eq_iff content u)

  same_flag_lem : (a b : Bool) → same_flag fs a b ≡ true → a ≡ b
  same_flag_lem true b e = sym e
  same_flag_lem false b e = ground (arith, e)

  is_unchanged_lem :
      (initial again : ResolvedWorkspacePath)
      → is_unchanged fs initial again ≡ true
      → (initial.exists ≡ again.exists)
        × (fs.comparable initial.absolute_path ≡ fs.comparable again.absolute_path)
  is_unchanged_lem initial again e = (
    same_flag_lem initial.exists again.exists (ground (arith, e)),
    (text_eq_iff (fs.comparable initial.absolute_path) (fs.comparable again.absolute_path)).0
        (ground (arith, e)),
  )

  IsPrevious-ok :
      (initial : ResolvedWorkspacePath) (b : Bool) (w : W) (previous : TextFile) (v : W)
      → initial.exists ≡ b
      → (if b
            then read_text_file fs initial.absolute_path
            else pure (record { content = []; size_bytes = 0 }))
          w
        ≡ (ok previous, v)
      → IsPrevious initial w previous v
  IsPrevious-ok initial true w previous v e h = inl (e, h)
  IsPrevious-ok initial false w previous v e h =
      let (same, last) = pure-ok w previous v _ h in inr (e, cc same, cc same, last)

  -- A write that succeeds has a content without null bytes and does the following, each step in the world
  -- that the one before left. It resolves the requested path for writing and reads the content that is
  -- there, which is the expected one where one is expected. It is not aborted, resolves the path for
  -- writing once more, which exists as before and is the same path, and writes the content to what this
  -- second resolution gave as the last thing that it does. It returns the path, the number of bytes and
  -- the diff from the content that was there.
  pub write_workspace_text-IsChecked :
      (outcome : WriteOutcome) (before after : W)
      → write_workspace_text fs root requested content limit expected before ≡ (ok outcome, after)
      → IsChecked before outcome after
  unfolding write_workspace_text perform_write assert_path_unchanged violation
  write_workspace_text-IsChecked outcome before after h =
      let (text, h1) = deny-ok before outcome after (includes 0 content) _ _ h in
      let (initial, first, resolved, h2) =
        bind-ok (resolve_workspace_path fs root requested (write_options false)) _ before outcome
          after h1 in
      let (previous, second, read, h3) =
        bind-ok (previous_file fs initial) _ first outcome after h2 in
      let (same, h4) =
        deny-ok second outcome after (changed_since fs expected previous.content) _ _ h3 in
      let (running, h5) = deny-ok second outcome after (fs.aborted second) _ _ h4 in
      let (again, third, resolved_again, h6) =
        bind-ok (resolve_workspace_path fs root requested (write_options initial.exists)) _ second
          outcome after h5 in
      let (unchanged, h7) = guard-ok third outcome after (is_unchanged fs initial again) _ _ h6 in
      let (t, last, written, h8) =
        bind-ok (fs.write_file again.absolute_path content) _ third outcome after h7 in
      let (told, over) = pure-ok last outcome after _ h8 in
      record {
        initial = initial;
        previous = previous;
        again = again;
        first = first;
        second = second;
        third = third;
        text = text;
        placed =
            resolve_workspace_path-IsPlaced fs root requested (write_options false) before initial
              first resolved;
        read = IsPrevious-ok initial initial.exists first previous second refl read;
        compared = λ t e. unchanged_since expected t previous.content same e;
        running = running;
        placed_again =
            resolve_workspace_path-IsPlaced fs root requested (write_options initial.exists) second
              again third resolved_again;
        unchanged = is_unchanged_lem initial again unchanged;
        written = cc (written, over);
        told = sym told;
      }

-- ===== src/Tools/Files/Edits.antt =====
-- tools/files/apply-patch.ts: the edits of a patch and what they make of a text.
pub mod Pieces
pub mod Parse
use echocoding_harness.Common.{
  ℕ, zero, suc, ◌+◌, Bool, not, ◌&&◌, ltb, ◌==◌, Option, none, some, List, [], ◌∷◌, ◌++◌, length,
  if◌then◌else◌, Text, units,
}
use echocoding_harness.Contracts.Error.{tool_execution}
use echocoding_harness.Tools.Files.Errors.{Result, ok, error, ◌>>=◌, assert_not_aborted}

pub record PatchEdit : Type 0 where
  pub old_text : Text
  pub new_text : Text
  pub replace_all : Bool

-- What follows a prefix.
unfoldable pub strip_prefix : Text → Text → Option Text
strip_prefix [] t = some t
strip_prefix (_ ∷ _) [] = none
strip_prefix (a ∷ s) (b ∷ t) = let rest = strip_prefix s t in if a == b then rest else none

-- `content.indexOf(search)`, as what stands before and after the first match.
unfoldable pub first_match : Text → Text → Option (Text × Text)
unfolding strip_prefix
first_match search [] = elim (strip_prefix search []) [ some rest ↦ some ([], rest) | none ↦ none ]
first_match search (c ∷ t) = elim (strip_prefix search (c ∷ t)) [
  | some rest ↦ some ([], rest)
  | none ↦ elim (first_match search t) [
    | some (before, after) ↦ some (c ∷ before, after)
    | none ↦ none
  ]
]

-- The loop of `countOccurrences`; a match takes at least one character.
unfoldable pub count_from : ℕ → Text → Text → ℕ
unfolding first_match
count_from zero content search = 0
count_from (suc f) content search = elim (first_match search content) [
  | some (before, after) ↦ suc (count_from f after search)
  | none ↦ 0
]

unfoldable pub count_occurrences : Text → Text → ℕ
unfolding count_from
count_occurrences content search = count_from (length content) content search

-- `content.split(search)` and `pieces.join(text)`.
unfoldable pub split_from : ℕ → Text → Text → List Text
unfolding first_match
split_from zero content search = content ∷ []
split_from (suc f) content search = elim (first_match search content) [
  | some (before, after) ↦ before ∷ split_from f after search
  | none ↦ content ∷ []
]

unfoldable pub split : Text → Text → List Text
unfolding split_from
split content search = split_from (length content) content search

unfoldable pub join : List Text → Text → Text
join [] text = []
join (p ∷ []) text = p
join (p ∷ q ∷ ps) text = p ++ (text ++ join (q ∷ ps) text)

abbrev pub replaced : Text → Text → Option (Text × Text) → Text
replaced content replacement (some (before, after)) = before ++ (replacement ++ after)
replaced content replacement none = content

-- `replaceFirstLiteral`, of a text that is found.
unfoldable pub replace_first_literal : Text → Text → Text → Text
unfolding first_match
replace_first_literal content search replacement =
    replaced content replacement (first_match search content)

-- One round of the loop over the edits: the text and the number of replacements.
unfoldable pub apply_edit : PatchEdit → Text → Result (Text × ℕ)
unfolding units count_occurrences split join replace_first_literal
apply_edit e content =
    if count_occurrences content e.old_text == 0
    then error tool_execution (units "PATCH_CONTEXT_NOT_FOUND")
        (units "A patch edit did not match the current file content; no changes were written.")
    else if ltb 1 (count_occurrences content e.old_text) && not e.replace_all
    then error tool_execution (units "PATCH_CONTEXT_AMBIGUOUS")
        (units "A patch edit matched more than once; use replaceAll or provide more context.")
    else if e.replace_all
    then ok (join (split content e.old_text) e.new_text, count_occurrences content e.old_text)
    else ok (replace_first_literal content e.old_text e.new_text, 1)

-- The loop runs between two awaits, so that the signal does not change in it.
unfoldable pub apply_edits : (aborted : Bool) → List PatchEdit → Text → ℕ → Result (Text × ℕ)
unfolding apply_edit
apply_edits aborted [] content replacements = ok (content, replacements)
apply_edits aborted (e ∷ es) content replacements = do
  _ ← assert_not_aborted aborted
  (next, n) ← apply_edit e content
  apply_edits aborted es next (replacements + n)

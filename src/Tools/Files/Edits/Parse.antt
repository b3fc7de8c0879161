-- ===== src/Tools/Files/Edits/Parse.antt =====
-- tools/files/apply-patch.ts: `parseEdits`, the checks on the edits of a patch.
use echocoding_harness.Common.{
  ℕ, suc, Bool, true, false, ltb, ◌==◌, Option, none, some, List, [], ◌∷◌, if◌then◌else◌, Text,
  units, text_eq,
}
use echocoding_harness.Contracts.Value.{Value, array, Items, nil, cons}
use echocoding_harness.Contracts.Error.{invalid_tool_input}
use echocoding_harness.Tools.Files.Errors.{Result, ok, error, invalid_input, ◌>>=◌}
use echocoding_harness.Tools.Files.Validation.{
  assert_input_object, assert_only_keys, required_string, optional_boolean,
}
use echocoding_harness.Tools.Files.Edits.{PatchEdit}

abbrev or_false : Option Bool → Bool
or_false none = false
or_false (some b) = b

abbrev new_edit : Text → Text → Option Bool → Result PatchEdit
new_edit old new all =
    if text_eq old new
    then invalid_input (units "A patch edit must change its matched text.")
    else ok (record { old_text = old; new_text = new; replace_all = or_false all })

-- The checks on one edit.
unfoldable pub parse_edit : Value → Result PatchEdit
unfolding assert_input_object assert_only_keys required_string optional_boolean units
parse_edit candidate = do
  fields ← assert_input_object candidate
  _ ← assert_only_keys fields (units "oldText" ∷ units "newText" ∷ units "replaceAll" ∷ [])
  old ← required_string fields (units "oldText") false
  new ← required_string fields (units "newText") true
  all_ ← optional_boolean fields (units "replaceAll")
  new_edit old new all_

unfoldable pub parse_items : Items → Result (List PatchEdit)
unfolding parse_edit
parse_items nil = ok []
parse_items (cons v items) = do e ← parse_edit v; es ← parse_items items; ok (e ∷ es)

unfoldable pub count_items : Items → ℕ
count_items nil = 0
count_items (cons _ items) = suc (count_items items)

abbrev edits_error : Result (List PatchEdit)
edits_error =
    error invalid_tool_input (units "INVALID_FILE_TOOL_INPUT")
      (units "Input field \"edits\" must contain between 1 and 100 patch edits.")

unfoldable pub parse_edits : Value → Result (List PatchEdit)
unfolding parse_items count_items units
parse_edits (array items) =
    if count_items items == 0
    then edits_error
    else if ltb 100 (count_items items)
    then edits_error
    else parse_items items
parse_edits _ = edits_error

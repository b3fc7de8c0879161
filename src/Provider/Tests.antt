-- ===== src/Provider/Tests.antt =====
-- Tool calls from a few fragments.
use echocoding_harness.Common.{
  ℕ, ◌≡◌, refl, true, List, [], ◌∷◌, map, text_eq, Text, units, decimal,
}
use echocoding_harness.Contracts.Value.{Value, number, string, object, field, end}
use echocoding_harness.Tools.Files.Validation.{get, digits_value}
use echocoding_harness.Provider.Streaming.{
  Entries, find, index_of, merge, tool_call, collect_streamed_tool_calls, sort_entries,
}
use echocoding_harness.Provider.Streaming.Fragments.{
  described, with_index, rises, collect_streamed-described,
}

abbrev fragment : Text → Text → Text → Value
fragment index id arguments = object true (
    field (units "index") (number index) (
      field (units "id") (string id) (
        field (units "function") (object true (field (units "arguments") (string arguments) end))
          end)))

abbrev fragments : List Value
fragments =
    fragment (units "1") (units "") (units "{")
    ∷ fragment (units "0") (units "a") (units "{}")
    ∷ fragment (units "1") (units "") (units "}")
    ∷ []

-- The second call has no id: it takes one from its index.
calls_test :
    collect_streamed_tool_calls fragments
    ≡ record { id = units "a"; name = []; arguments = units "{}" }
      ∷ record { id = units "call_1"; name = []; arguments = units "{}" }
      ∷ []
unfolding collect_streamed_tool_calls sort_entries merge index_of tool_call get digits_value units
    text_eq decimal
calls_test = refl

collect_streamed-described_example :
    (entries : Entries) × (collect_streamed_tool_calls fragments ≡ map tool_call entries)
    × (rises entries ≡ true)
    × ((i : ℕ) → find i entries ≡ described (with_index i fragments))
collect_streamed-described_example = collect_streamed-described fragments

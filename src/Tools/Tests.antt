-- ===== src/Tools/Tests.antt =====
-- The theorems on the registry at concrete tools.
use echocoding_harness.Common.{
  ◌≤◌, ◌≡◌, refl, true, none, List, [], ◌∷◌, Text, text_eq, units, is_some, mem_text, add_text,
  lookup, insert,
}
use echocoding_harness.Contracts.Value.{
  Value, null, object, field, end, string, array, cons, nil, number,
}
use echocoding_harness.Tools.Normalize.{
  sorted, insert_field, text_lt, check_node, normalize_tool_input,
}
use echocoding_harness.Tools.Normalize.Order.{InOrder, Arranged}
use echocoding_harness.Tools.Normalize.Bounds.{nodes, Shallow, normalize_tool_input-bounds}
use echocoding_harness.Tools.Registry.{
  Tool, Registry, create, done, register_extension, unregister_extension, find_tool, claim_names,
  add_tools,
}
use echocoding_harness.Tools.Registry.Extensions.{
  registered, named, or_else, find_tool-register_extension, unregister_extension-register_extension,
}

abbrev tool_named : Text → Tool Text
tool_named name = record {
  definition = record { name = name; description = units "tool"; input_schema = null };
  run = name;
}

abbrev one_tool : Registry Text
one_tool = record {
  entries = (units "read_file", tool_named (units "read_file")) ∷ [];
  extension_tools = [];
}

abbrev extension_id : Text
extension_id = units "ext"

abbrev extension_tools : List (Tool Text)
extension_tools = tool_named (units "echo") ∷ tool_named (units "count") ∷ []

abbrev two_more : Registry Text
two_more = registered extension_id extension_tools one_tool (units "echo" ∷ units "count" ∷ [])

find_tool-register_extension_example :
    (find_tool two_more (units "echo")
      ≡ or_else (named (units "echo") extension_tools) (find_tool one_tool (units "echo")))
    × (is_some (named (units "echo") extension_tools) ≡ true
        → find_tool one_tool (units "echo") ≡ none)
unfolding register_extension claim_names units lookup text_eq mem_text add_text
find_tool-register_extension_example =
    find_tool-register_extension extension_id extension_tools one_tool two_more refl (units "echo")

unregister_extension-register_extension_example :
    (find_tool (unregister_extension extension_id two_more).0 (units "echo")
      ≡ find_tool one_tool (units "echo"))
    × ((unregister_extension extension_id two_more).1 ≡ true)
unfolding register_extension claim_names units lookup text_eq mem_text add_text
unregister_extension-register_extension_example =
    unregister_extension-register_extension extension_id extension_tools one_tool two_more refl
      (units "echo")

create_test : create (tool_named (units "read_file") ∷ []) ≡ done one_tool
unfolding create add_tools units lookup insert
create_test = refl

abbrev two_keys : Value
two_keys = object true (
    field (units "path") (string (units "a.ts"))
      (field (units "lines") (array (cons (number (units "1")) (cons null nil))) end))

abbrev ordered_keys : Value
ordered_keys = object true (
    field (units "lines") (array (cons (number (units "1")) (cons null nil)))
      (field (units "path") (string (units "a.ts")) end))

normalize_tool_input-bounds_example :
    InOrder ordered_keys
    × Arranged two_keys ordered_keys
    × (nodes ordered_keys ≤ 10000)
    × Shallow 0 ordered_keys
unfolding normalize_tool_input sorted insert_field text_lt check_node units
normalize_tool_input-bounds_example = normalize_tool_input-bounds two_keys ordered_keys refl

-- ===== src/Tools/Registry.antt =====
-- tools/tool-registry.ts: `ToolRegistry`, the tools by name and the names that each extension owns.
pub mod Extensions
use echocoding_harness.Common.{
  Bool, true, false, Option, none, some, List, [], ◌∷◌, map, if◌then◌else◌, Text, mem_text,
  add_text, lookup, insert, remove, is_some,
}
use echocoding_harness.Contracts.Value.{Value}

pub record ToolDefinition : Type 0 where
  pub name : Text
  pub description : Text
  pub input_schema : Value

-- A tool with its `execute` function of type `F`.
pub record Tool (F : Type 0) : Type 0 where
  pub definition : ToolDefinition
  pub run : F

pub data RegistryError : Type 0 where
  registered_twice : Text → RegistryError
  empty_extension_id : RegistryError
  extension_registered : Text → RegistryError
  extension_tool_twice : Text → RegistryError
  already_registered : Text → RegistryError

pub data Result (A : Type 0) : Type 0 where
  done : A → Result A
  failed : RegistryError → Result A

infixl 5 ◌>>=◌
abbrev pub ◌>>=◌ : {A B : Type 0} → Result A → (A → Result B) → Result B
done a >>= f = f a
failed e >>= f = failed e

module _ {F : Type 0} where
  abbrev pub tool_name : Tool F → Text
  tool_name t = t.definition.name

  -- The loop of the constructor.
  unfoldable pub add_tools : List (Tool F) → List (Text × Tool F) → Result (List (Text × Tool F))
  add_tools [] entries = done entries
  add_tools (t ∷ ts) entries =
      let rest = add_tools ts (insert (tool_name t) t entries) in
      if is_some (lookup (tool_name t) entries)
      then failed (registered_twice (tool_name t))
      else rest

  -- The names of an extension's tools, if none is taken.
  unfoldable pub claim_names : List (Tool F) → List (Text × Tool F) → List Text → Result (List Text)
  claim_names [] entries names = done names
  claim_names (t ∷ ts) entries names =
      let rest = claim_names ts entries (add_text (tool_name t) names) in
      if mem_text (tool_name t) names
      then failed (extension_tool_twice (tool_name t))
      else if is_some (lookup (tool_name t) entries)
      then failed (already_registered (tool_name t))
      else rest

  unfoldable pub set_tools : List (Tool F) → List (Text × Tool F) → List (Text × Tool F)
  set_tools [] entries = entries
  set_tools (t ∷ ts) entries = set_tools ts (insert (tool_name t) t entries)

  unfoldable pub delete_names : List Text → List (Text × Tool F) → List (Text × Tool F)
  delete_names [] entries = entries
  delete_names (n ∷ ns) entries = delete_names ns (remove n entries)

pub record Registry (F : Type 0) : Type 0 where
  pub entries : List (Text × Tool F)
  pub extension_tools : List (Text × List Text)

abbrev is_empty : Text → Bool
is_empty [] = true
is_empty (_ ∷ _) = false

abbrev or_empty : Option (List Text) → List Text
or_empty none = []
or_empty (some names) = names

abbrev owner_in : Text → List (Text × List Text) → Option Text
owner_in name [] = none
owner_in name ((id, names) ∷ rest) = if mem_text name names then some id else owner_in name rest

module _ {F : Type 0} where
  unfoldable pub create : List (Tool F) → Result (Registry F)
  unfolding add_tools
  create tools = do
    entries ← add_tools tools []
    done (record { entries = entries; extension_tools = [] })

  unfoldable pub definitions : Registry F → List ToolDefinition
  definitions r = map (λ e. e.1.definition) r.entries

  unfoldable pub has : Registry F → Text → Bool
  has r name = is_some (lookup name r.entries)

  unfoldable pub owner_of : Registry F → Text → Option Text
  owner_of r name = owner_in name r.extension_tools

  abbrev claim : Text → List (Tool F) → Registry F → Result (List Text) → Result (Registry F)
  claim id tools r (failed e) = failed e
  claim id tools r (done names) = done (record {
    entries = set_tools tools r.entries;
    extension_tools = insert id names r.extension_tools;
  })

  unfoldable pub register_extension : Text → List (Tool F) → Registry F → Result (Registry F)
  register_extension id tools r =
      if is_empty id
      then failed empty_extension_id
      else if is_some (lookup id r.extension_tools)
      then failed (extension_registered id)
      else claim id tools r (claim_names tools r.entries [])

  abbrev release : Text → Registry F → Option (List Text) → Registry F × Bool
  release id r none = (r, false)
  release id r (some names) = (
    record {
      entries = delete_names names r.entries;
      extension_tools = remove id r.extension_tools;
    },
    true,
  )

  unfoldable pub unregister_extension : Text → Registry F → Registry F × Bool
  unregister_extension id r = release id r (lookup id r.extension_tools)

  unfoldable pub extension_tool_names : Registry F → Text → List Text
  extension_tool_names r id = or_empty (lookup id r.extension_tools)

  -- `execute` runs the tool that is found, with its input and context.
  unfoldable pub find_tool : Registry F → Text → Option (Tool F)
  find_tool r name = lookup name r.entries

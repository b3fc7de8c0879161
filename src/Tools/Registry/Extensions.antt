-- ===== src/Tools/Registry/Extensions.antt =====
-- `registerExtension` and `unregisterExtension` (tools/tool-registry.ts) on the tools that a name finds.
use echocoding_harness.Common.{
  subst, sym, ap, ◌∙◌, text_eq_refl, ◌≡◌, refl, true, false, ◌||◌, Option, none, some, List, [],
  ◌∷◌, arith, if◌then◌else◌, is_some, Text, mem_text, add_text, text_eq, text_eq_iff, lookup,
  insert, remove, lookup-insert, lookup-remove, mem_text-add_text,
}
use echocoding_harness.Tools.Registry.{
  register_extension, unregister_extension, find_tool, release, Tool, tool_name, Result, done,
  failed, Registry, claim_names, set_tools, delete_names, claim, register_extension,
}

module _ {F : Type 0} where
  -- The tool of a list that bears the name.
  unfoldable pub named : Text → List (Tool F) → Option (Tool F)
  named j [] = none
  named j (t ∷ ts) = if text_eq (tool_name t) j then some t else named j ts

  abbrev pub or_else : Option (Tool F) → Option (Tool F) → Option (Tool F)
  or_else none o = o
  or_else (some t) o = some t

  lookup-delete_names :
      (j : Text) (ns : List Text) (es : List (Text × Tool F))
      → lookup j (delete_names ns es) ≡ (if mem_text j ns then none else lookup j es)
  unfolding delete_names mem_text
  lookup-delete_names j [] es = refl
  lookup-delete_names j (n ∷ ns) es =
      ground (arith, lookup-delete_names j ns (remove n es), lookup-remove n j es)

  -- What a claim of names shows of one name `j`: the claimed names are those of the tools and those
  -- of `acc`, and a claimed tool's name is found neither in the entries nor in `acc`.
  claim_names_lem :
      (j : Text) (ts : List (Tool F)) (es : List (Text × Tool F)) (acc names : List Text)
      → claim_names ts es acc ≡ done names
      → (mem_text j names ≡ (mem_text j acc || is_some (named j ts)))
        × (is_some (named j ts) ≡ true → (lookup j es ≡ none) × (mem_text j acc ≡ false))
  unfolding claim_names named
  claim_names_lem j [] es acc names e = ground arith
  claim_names_lem j (t ∷ ts) es acc names e = ground (
    arith,
    claim_names_lem j ts es (add_text (tool_name t) acc) names,
    mem_text-add_text (tool_name t) j acc,
    text_eq_iff (tool_name t) j,
  )

  -- Once the names are claimed, setting the tools adds what each name finds among them.
  lookup-set_tools :
      (j : Text) (ts : List (Tool F)) (es es' : List (Text × Tool F)) (acc names : List Text)
      → claim_names ts es acc ≡ done names
      → lookup j (set_tools ts es') ≡ or_else (named j ts) (lookup j es')
  unfolding set_tools named claim_names
  lookup-set_tools j [] es es' acc names e = refl
  lookup-set_tools j (t ∷ ts) es es' acc names e = ground (
    arith,
    lookup-set_tools j ts es (insert (tool_name t) t es') (add_text (tool_name t) acc) names,
    lookup-insert (tool_name t) j t es',
    claim_names_lem j ts es (add_text (tool_name t) acc) names,
    mem_text-add_text (tool_name t) j acc,
    text_eq_iff (tool_name t) j,
  )

abbrev pub registered : {F : Type 0} → Text → List (Tool F) → Registry F → List Text → Registry F
registered id tools r names = record {
  entries = set_tools tools r.entries;
  extension_tools = insert id names r.extension_tools;
}

-- A registration that succeeds claimed the names of its tools, for an extension that was not there.
record Registered {F : Type 0} (id : Text) (tools : List (Tool F)) (r r' : Registry F)
    : Type 0 where
  names : List Text
  claimed : claim_names tools r.entries [] ≡ done names
  absent : lookup id r.extension_tools ≡ none
  result : r' ≡ registered id tools r names

module _ {F : Type 0} (id : Text) (tools : List (Tool F)) (r r' : Registry F) where
  claim_lem :
      (o : Result (List Text))
      → claim_names tools r.entries [] ≡ o
      → lookup id r.extension_tools ≡ none
      → claim id tools r o ≡ done r'
      → Registered id tools r r'
  claim_lem (failed x) same absent e = absurd (cc)
  claim_lem (done names) same absent e = record {
    names = names;
    claimed = same;
    absent = absent;
    result = cc;
  }

  register_extension-passed :
      register_extension id tools r ≡ done r'
      → (lookup id r.extension_tools ≡ none)
        × (claim id tools r (claim_names tools r.entries []) ≡ done r')
  unfolding register_extension
  register_extension-passed e = ground arith

  register_extension_lem : register_extension id tools r ≡ done r' → Registered id tools r r'
  register_extension_lem e =
      let (absent, passed) = register_extension-passed e in
      claim_lem (claim_names tools r.entries []) refl absent passed

  -- After an extension is registered, a name finds the extension's tool of that name, and where it
  -- has none, what it found before; the names of the extension were free.
  pub find_tool-register_extension :
      register_extension id tools r ≡ done r'
      → (j : Text)
      → (find_tool r' j ≡ or_else (named j tools) (find_tool r j))
        × (is_some (named j tools) ≡ true → find_tool r j ≡ none)
  unfolding find_tool
  find_tool-register_extension e j =
      let g = register_extension_lem e in
      (
        ap (λ (s : Registry F). lookup j s.entries) g.result
            ∙ lookup-set_tools j tools r.entries r.entries [] g.names g.claimed,
        λ h. ((claim_names_lem j tools r.entries [] g.names g.claimed).1 h).0,
      )

  restored :
      (names : List Text)
      → claim_names tools r.entries [] ≡ done names
      → (j : Text) → lookup j (delete_names names (set_tools tools r.entries)) ≡ lookup j r.entries
  unfolding mem_text
  restored names claimed j = ground (
    arith,
    lookup-delete_names j names (set_tools tools r.entries),
    lookup-set_tools j tools r.entries r.entries [] names claimed,
    claim_names_lem j tools r.entries [] names claimed,
  )

  found : (names : List Text) → lookup id (insert id names r.extension_tools) ≡ some names
  found names = ground (arith, lookup-insert id id names r.extension_tools, text_eq_refl id)

  unregister-registered :
      (names : List Text)
      → claim_names tools r.entries [] ≡ done names
      → (j : Text)
      → (find_tool (unregister_extension id (registered id tools r names)).0 j ≡ find_tool r j)
        × ((unregister_extension id (registered id tools r names)).1 ≡ true)
  unfolding find_tool unregister_extension
  unregister-registered names claimed j =
      subst
        (λ o.
          (lookup j (release id (registered id tools r names) o).0.entries ≡ lookup j r.entries)
          × ((release id (registered id tools r names) o).1 ≡ true))
        (sym (found names)) (restored names claimed j, refl)

  -- Unregistering an extension right after it was registered succeeds, and every name finds what it
  -- found before.
  pub unregister_extension-register_extension :
      register_extension id tools r ≡ done r'
      → (j : Text)
      → (find_tool (unregister_extension id r').0 j ≡ find_tool r j)
        × ((unregister_extension id r').1 ≡ true)
  unregister_extension-register_extension e j =
      let g = register_extension_lem e in
      subst
        (λ s.
          (find_tool (unregister_extension id s).0 j ≡ find_tool r j)
          × ((unregister_extension id s).1 ≡ true))
        (sym g.result) (unregister-registered g.names g.claimed j)

-- ===== src/Tool/Registry/Keys.antt =====
-- Laws of the registry (tool/registry.go).
use vagent.Common.{
  ◌≡◌, String, eq_iff, true, List, [], ◌∷◌, Option, none, some, Option-cases, inl, inr, arith,
  lookup, insert, lookup-insert, lookup-delete, All, Bool-cases,
}
use vagent.Tool.Registry.{
  ToolDef, Entry, Registry, register, register_if_absent, unregister, merge_one, merge_entries,
  merge, set_external_caller, keep_listed, is_listed,
}

module _ {P H : Type 0} where
  -- Every entry stands under the name of its tool.
  abbrev pub AllKeyed : List (String × Entry P H) → Type 0
  AllKeyed entries =
      (name : String) (e : Entry P H) → lookup name entries ≡ some e → e.tool_def.name ≡ name

  insert-keyed :
      (d : ToolDef P) (handler : Option H) (entries : List (String × Entry P H))
      → AllKeyed entries
      → AllKeyed (insert d.name (record { tool_def = d; handler = handler }) entries)
  insert-keyed d handler entries k name e at = ground (
    arith,
    lookup-insert d.name name (record { tool_def = d; handler = handler }) entries,
    eq_iff d.name name,
    k name e,
  )

  lookup-merge_one :
      (d : ToolDef P) (entries : List (String × Entry P H)) (name : String) (e : Entry P H)
      → lookup name entries ≡ some e
      → lookup name (merge_one d entries) ≡ some e
  unfolding merge_one
  lookup-merge_one d entries name e at = ground (
    arith,
    lookup-insert d.name name (record { tool_def = d; handler = none }) entries,
    eq_iff d.name name,
  )

  lookup-merge_entries :
      (ds : List (ToolDef P)) (entries : List (String × Entry P H)) (name : String) (e : Entry P H)
      → lookup name entries ≡ some e
      → lookup name (merge_entries ds entries) ≡ some e
  unfolding merge_entries
  lookup-merge_entries [] entries name e at = at
  lookup-merge_entries (d ∷ ds) entries name e at =
      lookup-merge_entries ds (merge_one d entries) name e (lookup-merge_one d entries name e at)

  merge_one-keyed :
      (d : ToolDef P) (entries : List (String × Entry P H))
      → AllKeyed entries
      → AllKeyed (merge_one d entries)
  unfolding merge_one
  merge_one-keyed d entries k name e at = elim (Option-cases (lookup d.name entries)) [
    | inr (old, there) ↦ k name e (ground (arith, there))
    | inl gone ↦ ground (
      arith,
      gone,
      lookup-insert d.name name (record { tool_def = d; handler = none }) entries,
      eq_iff d.name name,
      k name e,
    )
  ]

  merge_entries-keyed :
      (ds : List (ToolDef P)) (entries : List (String × Entry P H))
      → AllKeyed entries
      → AllKeyed (merge_entries ds entries)
  unfolding merge_entries
  merge_entries-keyed [] entries k = k
  merge_entries-keyed (d ∷ ds) entries k =
      merge_entries-keyed ds (merge_one d entries) (merge_one-keyed d entries k)

-- The calls that change a registry.
pub data Call (P H X : Type 0) : Type 0 where
  registers registers_if_absent : ToolDef P → Option H → Call P H X
  unregisters : String → Call P H X
  merges : List (ToolDef P) → Call P H X
  sets_caller : X → Call P H X

module _ {P H X : Type 0} where
  abbrev pub apply_call : Call P H X → Registry P H X → Registry P H X
  apply_call (registers d h) r = register d h r
  apply_call (registers_if_absent d h) r = (register_if_absent d h r).0
  apply_call (unregisters name) r = unregister name r
  apply_call (merges ds) r = merge ds r
  apply_call (sets_caller x) r = set_external_caller x r

  abbrev pub apply_calls : List (Call P H X) → Registry P H X → Registry P H X
  apply_calls [] r = r
  apply_calls (c ∷ cs) r = apply_calls cs (apply_call c r)

  call-keyed :
      (c : Call P H X) (r : Registry P H X) → AllKeyed r.entries → AllKeyed (apply_call c r).entries
  unfolding register register_if_absent unregister merge set_external_caller
  call-keyed (registers d h) r k name e at = insert-keyed d h r.entries k name e at
  call-keyed (registers_if_absent d h) r k name e at =
      elim (Option-cases (lookup d.name r.entries)) [
        | inr (old, there) ↦ k name e (ground (arith, there))
        | inl gone ↦ insert-keyed d h r.entries k name e (ground (arith, gone))
      ]
  call-keyed (unregisters n) r k name e at =
      ground (arith, lookup-delete n name r.entries, k name e)
  call-keyed (merges ds) r k name e at = merge_entries-keyed ds r.entries k name e at
  call-keyed (sets_caller x) r k name e at = k name e at

  -- After any calls on a new registry, every tool stands under its own name.
  pub apply_calls-keyed :
      (cs : List (Call P H X)) (r : Registry P H X)
      → AllKeyed r.entries
      → AllKeyed (apply_calls cs r).entries
  apply_calls-keyed [] r k = k
  apply_calls-keyed (c ∷ cs) r k = apply_calls-keyed cs (apply_call c r) (call-keyed c r k)

  -- Merging external tools never replaces a tool that is there, nor its handler.
  pub lookup-merge :
      (ds : List (ToolDef P)) (r : Registry P H X) (name : String) (e : Entry P H)
      → lookup name r.entries ≡ some e
      → lookup name (merge ds r).entries ≡ some e
  unfolding merge
  lookup-merge ds r name e at = lookup-merge_entries ds r.entries name e at

keep_listed-All :
    {P : Type 0} (names : List String) (ds : List (ToolDef P))
    → All (λ d. is_listed names d.name ≡ true) (keep_listed names ds)
unfolding keep_listed
keep_listed-All names [] = tt
keep_listed-All names (d ∷ ds) = elim (Bool-cases (is_listed names d.name)) [
  | inl listed ↦ rw listed (listed, keep_listed-All names ds)
  | inr other ↦ rw other (keep_listed-All names ds)
]

-- ===== src/Tool/Registry.antt =====
-- The registry of tools (tool/registry.go, schema/tooldef.go). JSON schemas `P`, handlers `H` and the
-- external caller `X` are types of the caller's; `run` and `call` say how they answer in a world `W`.
pub mod Keys
mod Tests
use vagent.Common.{
  String, str_eq, Bool, true, false, ◌||◌, List, [], ◌∷◌, map, Option, none, some, lookup, insert,
  delete, if◌then◌else◌,
}

pub record ToolDef (P : Type 0) : Type 0 where
  pub name : String
  pub description : String
  pub parameters : P
  pub force_use : Bool
  pub source : String
  pub mcp_server_uri : String
  pub agent_id : String
  pub read_only : Bool

pub record Entry (P H : Type 0) : Type 0 where
  pub tool_def : ToolDef P
  -- `none` for an external tool.
  pub handler : Option H

pub record Registry (P H X : Type 0) : Type 0 where
  pub entries : List (String × Entry P H)
  pub external_caller : Option X

pub data ToolError (E : Type 0) : Type 0 where
  not_found no_handler already_registered : String → ToolError E
  call_failed : E → ToolError E

pub data ToolOutcome (R E : Type 0) : Type 0 where
  answered : R → ToolOutcome R E
  refused : ToolError E → ToolOutcome R E

module _ {P H X : Type 0} where
  unfoldable pub new_registry : Option X → Registry P H X
  new_registry caller = record { entries = []; external_caller = caller }

  unfoldable pub register : ToolDef P → Option H → Registry P H X → Registry P H X
  register d handler r = record r {
    entries = insert d.name (record { tool_def = d; handler = handler }) r.entries;
  }

  -- The new registry, and the name that was taken.
  unfoldable pub register_if_absent :
      ToolDef P → Option H → Registry P H X → Registry P H X × Option String
  unfolding register
  register_if_absent d handler r = elim (lookup d.name r.entries) [
    | some _ ↦ (r, some d.name)
    | none ↦ (register d handler r, none)
  ]

  unfoldable pub unregister : String → Registry P H X → Registry P H X
  unregister name r = record r { entries = delete name r.entries }

  unfoldable pub get : String → Registry P H X → Option (ToolDef P)
  get name r = elim (lookup name r.entries) [ none ↦ none | some e ↦ some e.tool_def ]

  unfoldable pub list_defs : Registry P H X → List (ToolDef P)
  list_defs r = map (λ e. e.1.tool_def) r.entries

module _ {P H : Type 0} where
  -- The body of the loop of `Merge`.
  unfoldable pub merge_one : ToolDef P → List (String × Entry P H) → List (String × Entry P H)
  merge_one d entries = elim (lookup d.name entries) [
    | some _ ↦ entries
    | none ↦ insert d.name (record { tool_def = d; handler = none }) entries
  ]

  unfoldable pub merge_entries :
      List (ToolDef P) → List (String × Entry P H) → List (String × Entry P H)
  unfolding merge_one
  merge_entries [] entries = entries
  merge_entries (d ∷ ds) entries = merge_entries ds (merge_one d entries)

module _ {P H X : Type 0} where
  unfoldable pub merge : List (ToolDef P) → Registry P H X → Registry P H X
  unfolding merge_entries
  merge ds r = record r { entries = merge_entries ds r.entries }

  unfoldable pub set_external_caller : X → Registry P H X → Registry P H X
  set_external_caller caller r = record r { external_caller = some caller }

-- `Execute`: a local handler, else the external caller.
unfoldable pub execute :
    {P H X W R E : Type 0}
    → (H → String → String → W → ToolOutcome R E × W)
    → (X → String → String → W → ToolOutcome R E × W)
    → Registry P H X
    → String
    → String
    → W
    → ToolOutcome R E × W
execute run call r name args w = elim (lookup name r.entries) [
  | none ↦ (refused (not_found name), w)
  | some e ↦ elim e.handler [
    | some h ↦ run h name args w
    | none ↦ elim r.external_caller [
      | some x ↦ call x name args w
      | none ↦ (refused (no_handler name), w)
    ]
  ]
]

abbrev pub is_listed : List String → String → Bool
is_listed [] x = false
is_listed (y ∷ ys) x = str_eq y x || is_listed ys x

-- The loop of `FilterTools`.
unfoldable pub keep_listed : {P : Type 0} → List String → List (ToolDef P) → List (ToolDef P)
keep_listed names [] = []
keep_listed names (d ∷ ds) =
    let rest = keep_listed names ds in if is_listed names d.name then d ∷ rest else rest

-- `FilterTools`: an empty whitelist lets every tool through.
unfoldable pub filter_tools : {P : Type 0} → List (ToolDef P) → List String → List (ToolDef P)
unfolding keep_listed
filter_tools defs [] = defs
filter_tools defs (n ∷ ns) = keep_listed (n ∷ ns) defs

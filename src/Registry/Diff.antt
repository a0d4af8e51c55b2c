-- ===== src/Registry/Diff.antt =====
-- packages/registry/src/diff.ts: `diffCapabilities`. `sha256_hex` is the digest of node:crypto.
pub mod Laws
use mavio_mcp.Base.{
  ℕ, suc, String, Bool, Option, none, some, List, [], ◌∷◌, ◌++◌, str_eq, if◌then◌else◌,
}
use mavio_mcp.Base.Map.{Map, get, set, has}
use mavio_mcp.Json.{Json, str, obj, Fields, end, field, to_fields}
use mavio_mcp.Json.Print.{stringify}
use mavio_mcp.Core.{ToolDefinition, ServerCapabilities}

pub record ToolChange : Type 0 where
  pub name : String
  pub before : Option ToolDefinition
  pub after : Option ToolDefinition

pub record CapabilityDiff : Type 0 where
  pub added : List ToolChange
  pub removed : List ToolChange
  pub changed : List ToolChange
  pub unchanged : ℕ

abbrev tools_of : Option (List ToolDefinition) → List ToolDefinition
tools_of none = []
tools_of (some tools) = tools

-- `new Map(entries)`: a later tool takes the place of an earlier one of its name.
unfoldable pub by_name : Map ToolDefinition → List ToolDefinition → Map ToolDefinition
by_name m [] = m
by_name m (t ∷ ts) = by_name (set t.name t m) ts

unfoldable pub named_tools : ServerCapabilities → Map ToolDefinition
named_tools caps = by_name [] (tools_of caps.tools)

abbrev description_field : Option String → Fields → Fields
description_field none fs = fs
description_field (some s) fs = field "description" (str s) fs

-- The fields of a tool are in the order of their declaration.
abbrev pub tool_json : ToolDefinition → Json
tool_json t = obj (
    field "name" (str t.name)
      (description_field t.description (field "inputSchema" (obj (to_fields t.input_schema)) end)))

-- The loop over the tools before.
unfoldable pub removed_tools : Map ToolDefinition → Map ToolDefinition → List ToolChange
removed_tools after [] = []
removed_tools after ((name, tool) ∷ before) =
    let rest = removed_tools after before in
    elim (get name after) [
      | none ↦ record { name = name; before = some tool; after = none } ∷ rest
      | some _ ↦ rest
    ]

module _ (sha256_hex : String → String) where
  abbrev pub hash : ToolDefinition → String
  hash t = sha256_hex (stringify (tool_json t))

  -- The loop over the tools after; `removed` is filled in later.
  unfoldable pub compare_tools : Map ToolDefinition → Map ToolDefinition → CapabilityDiff
  compare_tools before [] = record { added = []; removed = []; changed = []; unchanged = 0 }
  compare_tools before ((name, tool) ∷ after) =
      let rest = compare_tools before after in
      elim (get name before) [
        | none ↦ record rest {
          added = record { name = name; before = none; after = some tool } ∷ rest.added;
        }
        | some prior ↦
            if str_eq (hash prior) (hash tool)
            then record rest { unchanged = suc rest.unchanged }
            else record rest {
              changed =
                  record { name = name; before = some prior; after = some tool } ∷ rest.changed;
            }
      ]

  unfoldable pub diff_capabilities : ServerCapabilities → ServerCapabilities → CapabilityDiff
  diff_capabilities a b =
      let before = named_tools a in
      let after = named_tools b in
      record (compare_tools before after) { removed = removed_tools after before }

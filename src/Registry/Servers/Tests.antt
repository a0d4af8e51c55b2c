-- ===== src/Registry/Servers/Tests.antt =====
-- The registry of servers and the difference of capabilities at concrete inputs.
use mavio_mcp.Base.Sort.{sort_by}
use mavio_mcp.Base.{
  ◌≡◌, refl, String, Bool, true, false, Option, none, some, List, [], ◌∷◌, map, All, str_eq,
}
use mavio_mcp.Core.{stdio, from_mcp, approved, healthy, ToolDefinition, ServerCapabilities}
use mavio_mcp.Registry.{not_found}
use mavio_mcp.Registry.Servers.{
  RegisterInput, Database, register, update_server, update_spec, approve, reject, unregister,
  update_status, get_server, to_descriptor,
}
use mavio_mcp.Registry.Servers.Statements.{ListFilter, list_servers, any_status}
use mavio_mcp.Registry.Servers.Approval.{
  Operation, registers, approves, rejects, updates_status, step, run, IsConsistent,
  run-IsConsistent, is_approved_in, run-unapproved,
}
use mavio_mcp.Registry.Servers.Listing.{list_servers-approved}
use mavio_mcp.Registry.Diff.{diff_capabilities, compare_tools, removed_tools, named_tools, by_name}
use mavio_mcp.Registry.Diff.Laws.{names}
use mavio_mcp.Json.Print.{stringify}

registry : Unit {0}
unfolding register update_server update_spec approve reject unregister update_status get_server
    to_descriptor list_servers sort_by step run diff_capabilities compare_tools removed_tools
    named_tools by_name stringify mavio_mcp.Json.to_fields mavio_mcp.Json.Print.quoted
registry = tt

abbrev input : String → Bool → RegisterInput
input id auto = record {
  id = id;
  workspace_id = "w";
  project_id = "p";
  name = id;
  transport = stdio (record { command = "run"; args = none; env = none; cwd = none });
  source_type = from_mcp;
  tags = none;
  version = some "1";
  metadata = none;
  submitted_by = some "dev";
  auto_approve = auto;
}

abbrev empty : Database
empty = record { servers = []; capability_snapshots = [] }

abbrev history : List Operation
history =
    registers (input "b" true) 1
    ∷ registers (input "a" false) 2
    ∷ updates_status "a" healthy 3
    ∷ rejects "a" "boss" "no" 4
    ∷ registers (input "b" true) 5
    ∷ registers (input "c" true) 6
    ∷ []

abbrev no_filter : ListFilter
no_filter = record { workspace_id = none; project_id = none; approval_status = none }

abbrev alphabetical : String → String → Bool
alphabetical a b = str_eq a "a"

registry_tests :
    (is_approved_in (run empty history) "a" ≡ false)
    × (is_approved_in (run empty history) "b" ≡ false)
    × (is_approved_in (run empty (approves "b" "boss" 7 ∷ [])) "b" ≡ false)
    × (is_approved_in (run (run empty history) (approves "b" "boss" 7 ∷ [])) "b" ≡ true)
    × (map (λ d. d.id) (list_servers alphabetical (run empty history) no_filter) ≡ "c" ∷ [])
    × (map
          (λ d. d.id)
          (list_servers alphabetical
            (run empty history)
            (record no_filter { approval_status = some any_status }))
        ≡ "a" ∷ "b" ∷ "c" ∷ [])
    × ((unregister empty "x").1 ≡ not_found "server x")
unfolding registry
registry_tests = (refl, refl, refl, refl, refl, refl, refl)

run-IsConsistent_example : IsConsistent (run empty history)
run-IsConsistent_example = run-IsConsistent empty history tt

run-unapproved_example : is_approved_in (run empty history) "a" ≡ false
run-unapproved_example = run-unapproved "a" empty history refl refl

list_servers-approved_example :
    All
      (λ d. d.approval_status ≡ some approved)
      (list_servers alphabetical (run empty history) no_filter)
list_servers-approved_example =
    list_servers-approved alphabetical (run empty history) no_filter refl

abbrev digest : String → String
digest s = s

abbrev tool : String → Option String → ToolDefinition
tool name description = record { name = name; description = description; input_schema = [] }

abbrev with_tools : List ToolDefinition → ServerCapabilities
with_tools tools = record {
  tools = some tools;
  resources = none;
  prompts = none;
  server_info = none;
}

abbrev old : ServerCapabilities
old = with_tools (tool "a" none ∷ tool "b" none ∷ [])

abbrev new_ : ServerCapabilities
new_ = with_tools (tool "b" (some "B") ∷ tool "c" none ∷ tool "d" none ∷ [])

diff_tests :
    let d = diff_capabilities digest old new_ in
    (names d.added ≡ "c" ∷ "d" ∷ [])
    × (names d.removed ≡ "a" ∷ [])
    × (names d.changed ≡ "b" ∷ [])
    × (d.unchanged ≡ 0)
unfolding registry
diff_tests = (refl, refl, refl, refl)

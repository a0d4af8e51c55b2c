-- ===== src/Router/Handle.antt =====
-- apps/server/src/router.service.ts: `handle`, which answers a frame, `invokeAndReturn`, and the
-- listing of all tools. `region` is the environment's MAVIO_REGION.
use Prim.Native.String.{◌++◌}
use mavio_mcp.Base.{
  ℕ, String, Bool, true, not, ◌||◌, Option, none, some, List, [], ◌∷◌, ◌++◌ as append, map, str_eq,
  if◌then◌else◌, keep,
}
use mavio_mcp.Json.{
  Json, null, str, arr, obj, Items, nil, cons, Fields, end, field, prop, truthy, to_fields,
}
use mavio_mcp.Core.{
  ToolDefinition, ServerCapabilities, ServerDescriptor, Principal, FrameId, number_id, McpFrame,
}
use mavio_mcp.Sessions.McpSession.{set_client_info}
use mavio_mcp.Router.{Attempt, resolved, thrown, RouterState, Backends}
use mavio_mcp.Router.Names.{split_name, full_name}
use mavio_mcp.Router.Request.{Clock, result_frame, error_frame, given, metadata_field}
use mavio_mcp.Router.Dispatch.{load_capabilities}
use mavio_mcp.Router.Finish.{in_world}
use mavio_mcp.Router.Service.{call_tool}

pub record ListedTool : Type 0 where
  pub tool : ToolDefinition
  pub server : String

-- `!tag || tag === region`, for a region that is given.
abbrev pub in_region : String → Option Json → Bool
in_region region none = true
in_region region (some (str tag)) = str_eq tag "" || str_eq tag region
in_region region (some j) = not (truthy j)

unfoldable pub filter_by_region : Option String → List ServerDescriptor → List ServerDescriptor
filter_by_region region servers = elim (given region) [
  | none ↦ servers
  | some r ↦ keep (λ s. in_region r (metadata_field "region" s)) servers
]

abbrev pub tools_of : Option ServerCapabilities → List ToolDefinition
tools_of none = []
tools_of (some caps) = elim caps.tools [ none ↦ [] | some tools ↦ tools ]

abbrev pub listed : String → ToolDefinition → ListedTool
listed server_id t = record {
  tool = record t { name = full_name server_id t.name };
  server = server_id;
}

abbrev description_field : Option String → Fields → Fields
description_field none fs = fs
description_field (some s) fs = field "description" (str s) fs

abbrev listed_json : ListedTool → Json
listed_json l = obj (
    field "name" (str l.tool.name) (
      description_field l.tool.description (
        field "inputSchema" (obj (to_fields l.tool.input_schema))
          (field "server" (str l.server) end))))

abbrev listed_items : List ListedTool → Items
listed_items [] = nil
listed_items (t ∷ ts) = cons (listed_json t) (listed_items ts)

abbrev pub or_empty : Option Json → Json
or_empty none = obj end
or_empty (some null) = obj end
or_empty (some j) = j

abbrev server_info : Json
server_info = obj (
    field "protocolVersion" (str "2024-11-05") (
      field "serverInfo"
        (obj (field "name" (str "mavio-mcp") (field "version" (str "0.1.0-mvp") end)))
        (field "capabilities" (obj (field "tools" (obj end) end)) end)))

module _ {W : Type 0} (b : Backends W) where
  open b use {get_server_list, registry_list, set_server_list}

  unfoldable pub load_servers : Option String → W → W × List ServerDescriptor
  load_servers region w = elim (get_server_list w) [
    | some cached ↦ (w, filter_by_region region cached)
    | none ↦
        let servers = registry_list w in
        (set_server_list w servers, filter_by_region region servers)
  ]

  -- The loop of `listAllTools`.
  unfoldable pub list_tools_of : W → List ServerDescriptor → W × List ListedTool
  list_tools_of w [] = (w, [])
  list_tools_of w (s ∷ servers) =
      let (w1, caps) = load_capabilities b w s.id in
      let (w2, out) = list_tools_of w1 servers in
      (w2, append (map (listed s.id) (tools_of caps)) out)

  unfoldable pub list_all_tools : Option String → W → W × List ListedTool
  list_all_tools region w = let (w', servers) = load_servers region w in list_tools_of w' servers

  module _ (to_iso_string : ℕ → String) (sha1_hex : String → String) where
    -- `callTool` on the full name of the tool.
    unfoldable pub call_named :
        RouterState W
        → Option FrameId
        → String
        → Json
        → Option Principal
        → Option String
        → Clock
        → RouterState W × Attempt McpFrame
    call_named s id fq_name args principal session_id clock = elim (split_name fq_name) [
      | none ↦
          (s, resolved (error_frame id 32602 "tool name must be namespaced: serverId.toolName"))
      | some (server_id, tool_name) ↦
          call_tool b to_iso_string sha1_hex s
            (record {
              frame_id = id;
              fq_name = fq_name;
              server_id = server_id;
              tool_name = tool_name;
              args = args;
              principal = principal;
              session_id = session_id;
            })
            clock
    ]

    -- `tools/call`, on `params.name`.
    unfoldable pub call_param :
        RouterState W
        → McpFrame
        → Json
        → Option Principal
        → Option String
        → Clock
        → Option Json
        → RouterState W × Attempt McpFrame
    call_param s frame params principal session_id clock none =
        (s, resolved (error_frame frame.id 32602 "missing tool name"))
    call_param s frame params principal session_id clock (some (str name)) =
        if str_eq name ""
        then (s, resolved (error_frame frame.id 32602 "missing tool name"))
        else call_named s frame.id name (or_empty (prop "arguments" params)) principal session_id
            clock
    call_param s frame params principal session_id clock (some name) =
        if truthy name
        then (s, thrown "fqName.indexOf is not a function")
        else (s, resolved (error_frame frame.id 32602 "missing tool name"))

    abbrev pub client_info : McpFrame → Option Json
    client_info frame = elim frame.params [
      | none ↦ none
      | some params ↦ elim (prop "clientInfo" params) [
        | none ↦ none
        | some info ↦ if truthy info then some info else none
      ]
    ]

    abbrev with_client_info : RouterState W → Option String → Option Json → RouterState W
    with_client_info s none info = s
    with_client_info s (some id) none = s
    with_client_info s (some id) (some info) = record s {
      mcp_sessions = set_client_info s.mcp_sessions id info;
    }

    unfoldable pub handle :
        Option String
        → RouterState W
        → McpFrame
        → Option Principal
        → Option String
        → Clock
        → RouterState W × Attempt McpFrame
    handle region s frame principal session_id clock = elim frame.method [
      | none ↦ (s, resolved (error_frame frame.id 32601 "method not supported: ?"))
      | some method ↦
          if str_eq method "initialize"
          then (
            with_client_info s (given session_id) (client_info frame),
            resolved (result_frame frame.id server_info),
          )
          else if str_eq method "tools/list"
          then (let (w, tools) = list_all_tools region s.world in
              (
                in_world w s,
                resolved
                    (result_frame frame.id (obj (field "tools" (arr (listed_items tools)) end))),
              ))
          else if str_eq method "tools/call"
          then call_param s frame (or_empty frame.params) principal session_id clock
              (prop "name" (or_empty frame.params))
          else (s, resolved (error_frame frame.id 32601 ("method not supported: " ++ method)))
    ]

    unfoldable pub invoke_and_return :
        RouterState W
        → String
        → Json
        → Option Principal
        → Option String
        → ℕ
        → Clock
        → RouterState W × Attempt McpFrame
    invoke_and_return s fq_name args principal session_id now clock =
        call_named s (some (number_id now)) fq_name args principal session_id clock

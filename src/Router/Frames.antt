-- ===== src/Router/Frames.antt =====
-- apps/server/src/router.service.ts: the answers of `handle`, for every method.
use mavio_mcp.Base.{◌≡◌, ◌⊎◌, ℕ, String, true, Option, none, some}
use mavio_mcp.Json.{Json, str, truthy, prop, as_text}
use mavio_mcp.Core.{Principal, FrameId, McpFrame}
use mavio_mcp.Router.{RouterState, Backends}
use mavio_mcp.Router.Names.{split_name}
use mavio_mcp.Router.Request.{ToolCall, Clock}
use mavio_mcp.Router.Answers.{Answers}
use mavio_mcp.Router.Counts.{Fails}
use mavio_mcp.Router.Handle.{or_empty}

module _ {W : Type 0} (b : Backends W) (to_iso_string : ℕ → String)
    (sha1_hex : String → String) where
  abbrev the_call :
      Option FrameId → String → String → String → Json → Option Principal → Option String → ToolCall
  the_call id fq_name server_id tool_name args principal session_id = record {
    frame_id = id;
    fq_name = fq_name;
    server_id = server_id;
    tool_name = tool_name;
    args = args;
    principal = principal;
    session_id = session_id;
  }

  -- Why the call of a tool by its full name throws.
  abbrev pub NamedFails :
      RouterState W
      → Option FrameId
      → String
      → Json
      → Option Principal
      → Option String
      → Clock
      → String
      → Type 0
  NamedFails s id name args principal session_id clock m =
      (server_id : String) × (tool_name : String) × (split_name name ≡ some (server_id, tool_name))
      × Fails b to_iso_string sha1_hex s
          (the_call id name server_id tool_name args principal session_id) clock m

  -- Why `tools/call` throws: `params.name` is there, truthy and no text, or the call of the tool
  -- that it names throws.
  abbrev pub CallFails :
      RouterState W
      → McpFrame
      → Json
      → Option Principal
      → Option String
      → Clock
      → Option Json
      → String
      → Type 0
  CallFails s frame params principal session_id clock name m =
      ((v : Json) × (name ≡ some v)
        × (truthy v ≡ true)
        × (as_text v ≡ none)
        × (m ≡ "fqName.indexOf is not a function"))
      ⊎ ((text : String) × (name ≡ some (str text))
          × NamedFails s frame.id text (or_empty (prop "arguments" params)) principal session_id
              clock m)

  -- Why `handle` throws.
  abbrev pub FrameFails :
      RouterState W → McpFrame → Option Principal → Option String → Clock → String → Type 0
  FrameFails s frame principal session_id clock m =
      (frame.method ≡ some "tools/call")
      × CallFails s frame (or_empty frame.params) principal session_id clock
          (prop "name" (or_empty frame.params)) m

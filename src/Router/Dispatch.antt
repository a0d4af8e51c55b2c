-- ===== src/Router/Dispatch.antt =====
-- apps/server/src/router.service.ts: `loadCapabilities`, `dispatchByKind` and
-- `dispatchNativeMcp`. The calls of the servers themselves are those of `Backends`.
use mavio_mcp.Base.{ℕ, String, Bool, false, not, Option, none, some}
use mavio_mcp.Base.Map.{Map}
use mavio_mcp.Json.{Json, str, obj, end, field}
use mavio_mcp.Core.{http, sql, graphql, ServerCapabilities, ServerDescriptor, number_id, McpFrame}
use mavio_mcp.Router.{DispatchResult, Attempt, resolved, thrown, Backends}
use mavio_mcp.Router.Request.{no_frame, meta, sql_result, graphql_result, native_result}
use mavio_mcp.Router.Report.{Ending, answered}

abbrev forwarded : ℕ → String → Json → McpFrame
forwarded id tool_name args = record no_frame {
  id = some (number_id id);
  method = some "tools/call";
  params = some (obj (field "name" (str tool_name) (field "arguments" args end)));
}

abbrev pub is_answer : Ending → Bool
is_answer (answered r) = not r.is_error
is_answer _ = false

module _ {W : Type 0} (b : Backends W) where
  open b use {
    registry_get, latest_capabilities, get_capabilities, set_capabilities, can, check_rate_limit,
    resolve_for_dispatch, dispatch_open_api, dispatch_sql, dispatch_graphql, open_session,
    send_frame, close_session,
  }

  unfoldable pub load_capabilities : W → String → W × Option ServerCapabilities
  load_capabilities w id = elim (get_capabilities w id) [
    | some caps ↦ (w, some caps)
    | none ↦ elim (latest_capabilities w id) [
      | none ↦ (w, none)
      | some caps ↦ (set_capabilities w id caps, some caps)
    ]
  ]

  unfoldable pub dispatch_native_mcp :
      W → ServerDescriptor → String → Json → ℕ → W × Attempt DispatchResult
  dispatch_native_mcp w d tool_name args now =
      let (w1, opened) = open_session w d.transport in
      elim opened [
        | thrown m ↦ (w1, thrown m)
        | resolved session ↦
            let (w2, response) = send_frame w1 session (forwarded now tool_name args) in
            (close_session w2 session, native_result response)
      ]

  unfoldable pub dispatch_by_kind :
      W → ServerDescriptor → String → Map Json → Json → ℕ → W × Attempt DispatchResult
  dispatch_by_kind w d tool_name schema args now =
      let native = dispatch_native_mcp w d tool_name args now in
      elim d.transport [
        | http t ↦ elim (meta "x-mavio-http" schema) [
          | none ↦ native
          | some m ↦ dispatch_open_api w t.base_url m args
        ]
        | sql t ↦ elim (meta "x-mavio-sql" schema) [
          | none ↦ native
          | some m ↦ let (w', r) = dispatch_sql w d.id (sql t) m args in (w', sql_result r)
        ]
        | graphql t ↦ elim (meta "x-mavio-graphql" schema) [
          | none ↦ native
          | some m ↦ let (w', r) = dispatch_graphql w (graphql t) m args in (w', graphql_result r)
        ]
        | _ ↦ native
      ]

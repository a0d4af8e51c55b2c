-- ===== src/Events/Dispatcher.antt =====
-- apps/server/src/event-dispatcher.service.ts: `EventDispatcherService`. The router and the
-- stores behind it are those of Router; the schemas are compiled and run by ajv, which is an
-- argument, and so the cache of compiled schemas is left out.
pub mod Ingress
pub mod Policy
mod Tests
use Prim.Native.String.{◌++◌}
use mavio_mcp.Base.{
  ℕ, String, Bool, true, false, not, ◌&&◌, ◌||◌, Option, none, some, List, [], ◌∷◌, if◌then◌else◌,
}
use mavio_mcp.Json.{Json, truthy}
use mavio_mcp.Core.{ApprovalStatus, pending, approved, rejected, Principal, PrincipalType, McpFrame}
use mavio_mcp.Registry.{Result, value, not_found}
use mavio_mcp.Registry.Routes.{EventRoute, Routes, EventSourceType, get_route}
use mavio_mcp.Router.{Attempt, resolved, thrown, RouterState, Backends}
use mavio_mcp.Router.Request.{Clock}
use mavio_mcp.Router.Names.{full_name}
use mavio_mcp.Router.Handle.{invoke_and_return}
use mavio_mcp.Events.Render.{render_args}

pub data DispatchOutcome : Type 0 where
  ok error not_ready auth_failed schema_invalid owner_missing : DispatchOutcome

pub record AuthVerdict : Type 0 where
  pub ok : Bool
  pub reason : Option String

pub record DispatchInput : Type 0 where
  pub route_id : String
  pub body : Json
  pub auth_verdict : Option AuthVerdict
  pub correlation_id : Option String

pub record DispatchResult : Type 0 where
  pub outcome : DispatchOutcome
  pub correlation_id : String
  pub frame : Option McpFrame
  pub reason : Option String
  pub schema_errors : Option String

-- A line of the audit log or of the metrics.
pub data IngressEntry : Type 0 where
  ingress_total : EventSourceType → String → DispatchOutcome → IngressEntry
  ingress_denied : String → String → Option String → IngressEntry
  ingress_audit : String → String → String → String → Bool → IngressEntry

pub record StoredPrincipal : Type 0 where
  pub id : String
  pub type : PrincipalType
  pub workspace_id : String

pub record DispatcherState (W : Type 0) : Type 0 where
  pub routes : Routes
  pub router : RouterState W
  pub log : List IngressEntry

abbrev pub is_ready : EventRoute → Bool
is_ready r =
    r.enabled && (elim r.approval_status [ pending ↦ false | approved ↦ true | rejected ↦ false ])

abbrev pub verdict_of : Option AuthVerdict → AuthVerdict
verdict_of none = record { ok = true; reason = none }
verdict_of (some v) = v

abbrev correlation : Option String → String → String
correlation none random = random
correlation (some id) random = id

abbrev bare : DispatchOutcome → String → Option String → DispatchResult
bare outcome correlation_id reason = record {
  outcome = outcome;
  correlation_id = correlation_id;
  frame = none;
  reason = reason;
  schema_errors = none;
}

abbrev bool_text : Bool → String
bool_text true = "true"
bool_text false = "false"

abbrev status_text : ApprovalStatus → String
status_text pending = "pending"
status_text approved = "approved"
status_text rejected = "rejected"

abbrev outcome_of : McpFrame → DispatchOutcome
outcome_of f = elim f.error [ none ↦ ok | some e ↦ error ]

abbrev is_ok : DispatchOutcome → Bool
is_ok ok = true
is_ok _ = false

-- The principal that the router is called for: the owner of the route, with no scopes.
abbrev pub owner_principal : StoredPrincipal → Principal
owner_principal p = record {
  id = p.id;
  type = p.type;
  workspace_id = p.workspace_id;
  scopes = [];
  attributes = none;
}

module _ {W : Type 0} where
  abbrev pub note : IngressEntry → DispatcherState W → DispatcherState W
  note e s = record s { log = e ∷ s.log }

  -- `validate_schema` gives the errors of a body, `none` where it is valid; `find_by_id` is that
  -- of `RbacRepository`.
  module _ (b : Backends W) (to_iso_string : ℕ → String) (sha1_hex : String → String)
      (validate_schema : Json → Json → Option String)
      (find_by_id : String → Option StoredPrincipal) where
    abbrev pub finished :
        DispatcherState W
        → EventRoute
        → String
        → Principal
        → RouterState W × Attempt McpFrame
        → DispatcherState W × Attempt DispatchResult
    finished s r id owner (router, thrown m) = (record s { router = router }, thrown m)
    finished s r id owner (router, resolved frame) =
        let outcome = outcome_of frame in
        let counted =
          note (ingress_total r.source_type r.id outcome) (record s { router = router }) in
        (
          note
              (ingress_audit r.id (full_name r.mcp_target.server_id r.mcp_target.tool_name) owner.id
                id (is_ok outcome))
              counted,
          resolved (record {
            outcome = outcome;
            correlation_id = id;
            frame = some frame;
            reason = none;
            schema_errors = none;
          }),
        )

    abbrev pub invoke :
        DispatcherState W
        → EventRoute
        → Json
        → Principal
        → ℕ
        → Clock
        → RouterState W × Attempt McpFrame
    invoke s r body owner now clock =
        invoke_and_return b to_iso_string sha1_hex s.router
          (full_name r.mcp_target.server_id r.mcp_target.tool_name)
          (render_args r.mcp_target.args_template body) (some owner) none now clock

    unfoldable pub find_owner :
        DispatcherState W
        → EventRoute
        → Json
        → String
        → ℕ
        → Clock
        → DispatcherState W × Attempt DispatchResult
    find_owner s r body id now clock = elim (find_by_id r.principal_id) [
      | none ↦ (s, resolved (bare owner_missing id (some r.principal_id)))
      | some p ↦ finished s r id (owner_principal p) (invoke s r body (owner_principal p) now clock)
    ]

    abbrev pub errors_of : EventRoute → Json → Option String
    errors_of r body = elim r.schema_json [
      | none ↦ none
      | some schema ↦ if truthy schema then validate_schema schema body else none
    ]

    unfoldable pub check_schema :
        DispatcherState W
        → EventRoute
        → Json
        → String
        → ℕ
        → Clock
        → DispatcherState W × Attempt DispatchResult
    check_schema s r body id now clock = elim (errors_of r body) [
      | none ↦ find_owner s r body id now clock
      | some errors ↦ (
        note (ingress_denied r.id id (some "schema_invalid"))
            (note (ingress_total r.source_type r.id schema_invalid) s),
        resolved (record (bare schema_invalid id none) { schema_errors = some errors }),
      )
    ]

    unfoldable pub check_auth :
        DispatcherState W
        → EventRoute
        → DispatchInput
        → String
        → ℕ
        → Clock
        → DispatcherState W × Attempt DispatchResult
    check_auth s r input id now clock =
        let verdict = verdict_of input.auth_verdict in
        if verdict.ok then check_schema s r input.body id now clock else (
          note (ingress_denied r.id id verdict.reason)
              (note (ingress_total r.source_type r.id auth_failed) s),
          resolved (bare auth_failed id verdict.reason),
        )

    unfoldable pub dispatch_event :
        DispatcherState W
        → DispatchInput
        → String
        → ℕ
        → Clock
        → DispatcherState W × Attempt DispatchResult
    dispatch_event s input random now clock =
        let id = correlation input.correlation_id random in
        elim (get_route s.routes input.route_id) [
          | not_found m ↦ (s, resolved (bare not_ready id (some (m ++ " not found"))))
          | value r ↦ if is_ready r then check_auth s r input id now clock else (
            note (ingress_total r.source_type r.id not_ready) s,
            resolved (
                bare not_ready id (
                  some (
                    "enabled="
                    ++ (bool_text r.enabled ++ (" approval=" ++ status_text r.approval_status))))),
          )
        ]

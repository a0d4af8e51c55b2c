-- ===== src/Registry/Routes.antt =====
-- packages/registry/src/event-route-repo.ts: `EventRouteRepository`, over the table
-- `event_routes`. The clock is an argument, and so is the order of texts of the database.
use Prim.Native.String.{◌++◌}
use mavio_mcp.Base.Sort.{sort_by}
use mavio_mcp.Base.{
  ℕ, String, Bool, true, false, ◌&&◌, Option, none, some, List, if◌then◌else◌, keep,
}
use mavio_mcp.Base.Map.{Map, get, set, delete, values}
use mavio_mcp.Json.{Json}
use mavio_mcp.Core.{ApprovalStatus, pending, approved, rejected}
use mavio_mcp.Registry.{Result, value, not_found}
use mavio_mcp.Registry.Servers.Statements.{StatusFilter, filter_text, filter_status}

pub data EventSourceType : Type 0 where
  webhook kafka nats : EventSourceType

pub data EventMatch : Type 0 where
  webhook_match : String → Option String → EventMatch
  stream_match : String → Option String → EventMatch

pub record McpTarget : Type 0 where
  pub server_id : String
  pub tool_name : String
  pub args_template : Option (Map Json)

pub data AuthType : Type 0 where
  hmac mtls oidc no_auth : AuthType

pub record EventAuth : Type 0 where
  pub type : AuthType
  pub secret_ref : Option String
  pub issuer_url : Option String
  pub audience : Option String

-- A row of the table, which is the route that `toRoute` makes of it.
pub record EventRoute : Type 0 where
  pub id : String
  pub workspace_id : String
  pub project_id : String
  pub name : String
  pub source_type : EventSourceType
  pub event_match : EventMatch
  pub mcp_target : McpTarget
  pub principal_id : String
  pub schema_ref : Option String
  pub schema_json : Option Json
  pub auth : EventAuth
  pub enabled : Bool
  pub approval_status : ApprovalStatus
  pub submitted_by : Option String
  pub approved_by : Option String
  pub approved_at : Option ℕ
  pub rejection_reason : Option String
  pub created_at : ℕ
  pub updated_at : ℕ

pub record CreateEventRouteInput : Type 0 where
  pub id : String
  pub workspace_id : String
  pub project_id : String
  pub name : String
  pub source_type : EventSourceType
  pub event_match : EventMatch
  pub mcp_target : McpTarget
  pub principal_id : String
  pub schema_ref : Option String
  pub schema_json : Option Json
  pub auth : Option EventAuth
  pub submitted_by : Option String
  pub auto_approve : Bool

abbrev pub Routes : Type 0
Routes = Map EventRoute

abbrev no_event_auth : EventAuth
no_event_auth = record { type = no_auth; secret_ref = none; issuer_url = none; audience = none }

abbrev auth_or_none : Option EventAuth → EventAuth
auth_or_none none = no_event_auth
auth_or_none (some auth) = auth

-- The row that `create` inserts; the table makes `enabled` true.
abbrev pub new_route : CreateEventRouteInput → ℕ → EventRoute
new_route input now = record {
  id = input.id;
  workspace_id = input.workspace_id;
  project_id = input.project_id;
  name = input.name;
  source_type = input.source_type;
  event_match = input.event_match;
  mcp_target = input.mcp_target;
  principal_id = input.principal_id;
  schema_ref = input.schema_ref;
  schema_json = input.schema_json;
  auth = auth_or_none input.auth;
  enabled = true;
  approval_status = if input.auto_approve then approved else pending;
  submitted_by = input.submitted_by;
  approved_by = if input.auto_approve then input.submitted_by else none;
  approved_at = if input.auto_approve then some now else none;
  rejection_reason = none;
  created_at = now;
  updated_at = now;
}

-- The row after the conflict clause of `create`.
abbrev pub recreated : CreateEventRouteInput → ℕ → EventRoute → EventRoute
recreated input now row = record row {
  name = input.name;
  event_match = input.event_match;
  mcp_target = input.mcp_target;
  schema_ref = input.schema_ref;
  schema_json = input.schema_json;
  auth = auth_or_none input.auth;
  approval_status = pending;
  submitted_by = input.submitted_by;
  approved_by = none;
  approved_at = none;
  rejection_reason = none;
  updated_at = now;
}

abbrev pub created : CreateEventRouteInput → ℕ → Option EventRoute → EventRoute
created input now none = new_route input now
created input now (some row) = recreated input now row

unfoldable pub create_route : Routes → CreateEventRouteInput → ℕ → Routes × EventRoute
create_route routes input now =
    let row = created input now (get input.id routes) in (set input.id row routes, row)

abbrev missing_route : String → String
missing_route id = "event_route " ++ id

unfoldable pub get_route : Routes → String → Result EventRoute
get_route routes id = elim (get id routes) [
  | none ↦ not_found (missing_route id)
  | some row ↦ value row
]

unfoldable pub update_route :
    Routes → String → (EventRoute → EventRoute) → Routes × Result EventRoute
update_route routes id change = elim (get id routes) [
  | none ↦ (routes, not_found (missing_route id))
  | some row ↦ (set id (change row) routes, value (change row))
]

unfoldable pub approve_route : Routes → String → String → ℕ → Routes × Result EventRoute
approve_route routes id approver now = update_route routes id (λ row. record row {
  approval_status = approved;
  approved_by = some approver;
  approved_at = some now;
  rejection_reason = none;
  updated_at = now;
})

unfoldable pub reject_route : Routes → String → String → String → ℕ → Routes × Result EventRoute
reject_route routes id approver reason now = update_route routes id (λ row. record row {
  approval_status = rejected;
  approved_by = some approver;
  approved_at = some now;
  rejection_reason = some reason;
  updated_at = now;
})

unfoldable pub set_enabled : Routes → String → Bool → ℕ → Routes × Result EventRoute
set_enabled routes id enabled now =
    update_route routes id (λ row. record row { enabled = enabled; updated_at = now })

unfoldable pub delete_route : Routes → String → Routes × Result Bool
delete_route routes id = elim (get id routes) [
  | none ↦ (routes, not_found (missing_route id))
  | some row ↦ (delete id routes, value true)
]

pub record ListEventRouteFilter : Type 0 where
  pub workspace_id : Option String
  pub project_id : Option String
  pub source_type : Option EventSourceType
  pub approval_status : Option StatusFilter
  pub enabled_only : Bool

abbrev same_source : EventSourceType → EventSourceType → Bool
same_source webhook webhook = true
same_source kafka kafka = true
same_source nats nats = true
same_source _ _ = false

abbrev filter_source : Option EventSourceType → EventSourceType → Bool
filter_source none source = true
filter_source (some s) source = same_source source s

abbrev pub selects : ListEventRouteFilter → EventRoute → Bool
selects f row =
    filter_text f.workspace_id row.workspace_id
    && (filter_text f.project_id row.project_id
        && (filter_source f.source_type row.source_type
            && (filter_status f.approval_status row.approval_status
                && (if f.enabled_only then row.enabled else true))))

unfoldable pub list_routes :
    (String → String → Bool) → Routes → ListEventRouteFilter → List EventRoute
list_routes text_before routes f =
    sort_by (λ a b. text_before a.id b.id) (keep (selects f) (values routes))

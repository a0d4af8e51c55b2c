-- ===== src/Router/Example.antt =====
-- A gateway for the examples: its world counts the frames that the one upstream server got.
use mavio_mcp.Base.{ℕ, suc, String, true, false, none, some, List, [], ◌∷◌, str_eq, if◌then◌else◌}
use mavio_mcp.Json.{str}
use mavio_mcp.Core.{
  ServerDescriptor, ServerCapabilities, ws, from_mcp, approved, pending, ApprovalStatus, Principal,
  user, McpFrame,
}
use mavio_mcp.Core.Breaker.{new_breaker}
use mavio_mcp.Sessions.McpSession.{new_store, register, sse}
use mavio_mcp.Router.{Backends, RouterState, found_server, not_found_error, resolved, thrown, skip}
use mavio_mcp.Router.Request.{Clock}

abbrev pub server : String → ApprovalStatus → ServerDescriptor
server id status = record {
  id = id;
  workspace_id = "w";
  project_id = "p";
  name = id;
  transport = ws (record { url = "ws://up"; headers = none; auth = none; subprotocol = none });
  source_type = from_mcp;
  tags = none;
  version = none;
  metadata = none;
  status = none;
  last_checked_at = none;
  approval_status = some status;
  submitted_by = none;
  approved_by = none;
  approved_at = none;
  rejection_reason = none;
}

abbrev pub no_frame : McpFrame
no_frame = record { id = none; method = none; params = none; result = none; error = none }

abbrev pub echo : ServerCapabilities
echo = record {
  tools = some (record { name = "echo"; description = none; input_schema = [] } ∷ []);
  resources = none;
  prompts = none;
  server_info = none;
}

-- A server `up` that is approved and one `new` that is not; the policy engine denies everyone.
abbrev pub backends : Backends ℕ
backends = record {
  registry_get = λ w id.
      if str_eq id "up"
      then found_server (server "up" approved)
      else if str_eq id "new"
      then found_server (server "new" pending)
      else not_found_error "none";
  registry_list = λ w. server "up" approved ∷ [];
  latest_capabilities = λ w id. some echo;
  get_server_list = λ w. none;
  set_server_list = λ w servers. w;
  get_capabilities = λ w id. none;
  set_capabilities = λ w id caps. w;
  can = λ w p action r. record { allowed = false; reason = "no"; matched = none };
  check_rate_limit =
      λ w scope limit seconds. (w, record { allowed = true; remaining = 1; reset_at = 0 });
  resolve_for_dispatch = λ w p d. (w, skip);
  dispatch_open_api = λ w url m args. (w, thrown "none");
  dispatch_sql = λ w id t m args. (w, thrown "none");
  dispatch_graphql = λ w t m args. (w, thrown "none");
  open_session = λ w t. (w, resolved 0);
  send_frame = λ w session f. (suc w, resolved (record no_frame { result = some (str "hi") }));
  close_session = λ w session. w;
}

abbrev pub state : RouterState ℕ
state = record {
  world = 0;
  breaker =
      new_breaker
        (record { failure_threshold = none; reset_ms = none; half_open_max_calls = none });
  mcp_sessions =
      register (new_store (record { limits = none; loop_guard = none; session_ttl_ms = none })) "s"
        sse none 0;
  log = [];
}

abbrev pub clock : Clock
clock = record { checked_at = 1; called_at = 2; settled_at = 3; latency_ms = 1 }

abbrev pub iso : ℕ → String
iso n = ""

abbrev pub digest : String → String
digest s = s

abbrev pub caller : List String → Principal
caller scopes = record {
  id = "u";
  type = user;
  workspace_id = "w";
  scopes = scopes;
  attributes = none;
}

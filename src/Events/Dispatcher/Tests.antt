-- ===== src/Events/Dispatcher/Tests.antt =====
-- The dispatcher of events at concrete inputs, in front of the example gateway.
use mavio_mcp.Base.{
  ℕ, ◌≡◌, refl, ◌⊎◌, String, Bool, true, false, Option, none, some, List, [], ◌∷◌, str_eq,
  if◌then◌else◌,
}
use mavio_mcp.Json.{Json, null, num, str, arr, obj, nil, cons, end, field}
use mavio_mcp.Core.{approved, service}
use mavio_mcp.Registry.{value}
use mavio_mcp.Registry.Routes.{
  EventRoute, CreateEventRouteInput, Routes, webhook, webhook_match, get_route, create_route,
  approve_route, update_route, set_enabled, list_routes,
}
use mavio_mcp.Router.Example.{backends, state, clock, iso, digest}
use mavio_mcp.Events.Render.{
  render_args, render_entries, render_value, read_template, strip_prefix, path_segments, walk,
}
use mavio_mcp.Events.Dispatcher.{
  DispatcherState, DispatchInput, StoredPrincipal, dispatch_event, check_auth, check_schema,
  find_owner, verdict_of, errors_of,
}
use mavio_mcp.Events.Dispatcher.Policy.{Allowed, dispatch_event-Allowed}
use mavio_mcp.Router.Gates.{dispatches}
use mavio_mcp.Router.Handle.{invoke_and_return}
use mavio_mcp.Router.Names.{full_name}
use mavio_mcp.Events.Dispatcher.Ingress.{dispatch_event-router}

events : Unit {0}
unfolding get_route create_route approve_route update_route set_enabled list_routes dispatch_event
    check_auth check_schema find_owner render_args render_entries render_value read_template
    strip_prefix path_segments walk mavio_mcp.Json.prop mavio_mcp.Json.lookup_field
    mavio_mcp.Base.Text.read mavio_mcp.Base.Text.show
events = tt

abbrev body : Json
body =
    obj (field "user" (obj (field "id" (num 7) end)) (field "tags" (arr (cons (str "x") nil)) end))

render_tests :
    (render_args none (str "hi") ≡ obj (field "body" (str "hi") end))
    × (render_args none body ≡ body)
    × (render_args
          (some (("a", str "${body.user.id}") ∷ ("b", str "${body}") ∷ ("c", str "${body.}") ∷ []))
          body
        ≡ obj (field "a" (num 7) (field "b" body (field "c" (str "${body.}") end))))
    × (render_args
          (some (("t", str "${body.tags.0}") ∷ ("n", str "${body.no.way}") ∷ ("k", num 1) ∷ []))
          body
        ≡ obj (field "t" (str "x") (field "k" (num 1) end)))
unfolding events
render_tests = (refl, refl, refl, refl)

abbrev input : String → Bool → CreateEventRouteInput
input id auto = record {
  id = id;
  workspace_id = "w";
  project_id = "p";
  name = id;
  source_type = webhook;
  event_match = webhook_match "/hook" none;
  mcp_target = record { server_id = "up"; tool_name = "echo"; args_template = none };
  principal_id = "owner";
  schema_ref = none;
  schema_json = some null;
  auth = none;
  submitted_by = none;
  auto_approve = auto;
}

abbrev routes : Routes
routes = (create_route (create_route [] (input "ready" true) 1).0 (input "new" false) 2).0

abbrev dispatcher : DispatcherState ℕ
dispatcher = record { routes = routes; router = state; log = [] }

-- Bodies that are texts are invalid.
abbrev validate : Json → Json → Option String
validate schema (str s) = some "no object"
validate schema j = none

abbrev find_by_id : String → Option StoredPrincipal
find_by_id id = some (record { id = id; type = service; workspace_id = "w" })

abbrev event : String → Json → DispatchInput
event id body = record { route_id = id; body = body; auth_verdict = none; correlation_id = none }

dispatch_event-router_example :
    let s' =
      (dispatch_event backends iso digest validate find_by_id dispatcher
        (event "ready" body)
        "c"
        5
        clock).0 in
    (s'.router ≡ state)
    ⊎ ((r : EventRoute) × (p : StoredPrincipal) × (get_route routes "ready" ≡ value r)
        × (r.enabled ≡ true)
        × (r.approval_status ≡ approved)
        × ((verdict_of none).ok ≡ true)
        × (errors_of backends iso digest validate find_by_id r body ≡ none)
        × (find_by_id r.principal_id ≡ some p)
        × (s'.router
            ≡ (invoke_and_return backends iso digest dispatcher.router
                (full_name r.mcp_target.server_id r.mcp_target.tool_name)
                (render_args r.mcp_target.args_template body)
                (some (record {
                  id = p.id;
                  type = p.type;
                  workspace_id = p.workspace_id;
                  scopes = [];
                  attributes = none;
                }))
                none
                5
                clock).0))
dispatch_event-router_example =
    dispatch_event-router backends iso digest validate find_by_id dispatcher (event "ready" body)
      "c" 5 clock

-- The example policy engine denies everyone, so the event reaches no server.
dispatch_event-Allowed_example :
    let s' =
      (dispatch_event backends iso digest validate find_by_id dispatcher
        (event "ready" body)
        "c"
        5
        clock).0 in
    (dispatches s'.router.log ≡ [])
    ⊎ ((r : EventRoute) × (p : StoredPrincipal) × (get_route routes "ready" ≡ value r)
        × (r.enabled ≡ true)
        × (r.approval_status ≡ approved)
        × (find_by_id r.principal_id ≡ some p)
        × Allowed backends 0 p (full_name r.mcp_target.server_id r.mcp_target.tool_name))
dispatch_event-Allowed_example =
    dispatch_event-Allowed backends iso digest validate find_by_id dispatcher (event "ready" body)
      "c" 5 clock

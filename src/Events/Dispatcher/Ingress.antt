-- ===== src/Events/Dispatcher/Ingress.antt =====
-- apps/server/src/event-dispatcher.service.ts: which events call a tool, and for whom.
use mavio_mcp.Base.{
  arith, ℕ, String, true, ◌≡◌, refl, ◌⊎◌, inl, inr, Option, none, some, [], Bool-cases,
  Option-cases,
}
use mavio_mcp.Json.{Json}
use mavio_mcp.Core.{ApprovalStatus, pending, approved, rejected, McpFrame}
use mavio_mcp.Registry.{Result, value, not_found}
use mavio_mcp.Registry.Routes.{EventRoute, get_route}
use mavio_mcp.Router.{Attempt, resolved, thrown, RouterState, Backends}
use mavio_mcp.Router.Request.{Clock}
use mavio_mcp.Router.Names.{full_name}
use mavio_mcp.Router.Handle.{invoke_and_return}
use mavio_mcp.Events.Render.{render_args}
use mavio_mcp.Events.Dispatcher.{
  DispatcherState, DispatchInput, StoredPrincipal, is_ready, verdict_of, owner_principal, finished,
  find_owner, errors_of, check_schema, check_auth, dispatch_event,
}

ApprovalStatus-cases : (s : ApprovalStatus) → (s ≡ approved) ⊎ ((s ≡ pending) ⊎ (s ≡ rejected))
ApprovalStatus-cases approved = inl refl
ApprovalStatus-cases pending = inr (inl refl)
ApprovalStatus-cases rejected = inr (inr refl)

is_ready-approved :
    (r : EventRoute) → is_ready r ≡ true → (r.enabled ≡ true) × (r.approval_status ≡ approved)
is_ready-approved r h = elim (ApprovalStatus-cases r.approval_status) [
  | inl approval ↦ (ground arith, approval)
  | inr (inl waiting) ↦ absurd (ground arith)
  | inr (inr refusal) ↦ absurd (ground arith)
]

Result-cases :
    {A : Type 0} (r : Result A) → ((m : String) × (r ≡ not_found m)) ⊎ ((a : A) × (r ≡ value a))
Result-cases (not_found m) = inl (m, refl)
Result-cases (value a) = inr (a, refl)

module _ {W : Type 0} (b : Backends W) (to_iso_string : ℕ → String) (sha1_hex : String → String)
    (validate_schema : Json → Json → Option String)
    (find_by_id : String → Option StoredPrincipal) where
  finished-router :
      (s : DispatcherState W) (r : EventRoute) (id : String) (p : StoredPrincipal)
      (answer : RouterState W × Attempt McpFrame)
      → (finished b to_iso_string sha1_hex validate_schema find_by_id s r id
          (owner_principal p)
          answer).0.router
        ≡ answer.0
  finished-router s r id p (router, thrown m) = refl
  finished-router s r id p (router, resolved frame) = refl

  -- An event leaves the router as it was, or its route is there, enabled and approved, its
  -- adapter's verdict is good, its body fits the schema of the route and the route's owner is there;
  -- then the state of the router is what one call leaves, for the owner without any scope and
  -- without a session, with the tool of the route and the rendered arguments.
  pub dispatch_event-router :
      (s : DispatcherState W) (input : DispatchInput) (random : String) (now : ℕ) (clock : Clock)
      → let s' =
          (dispatch_event b to_iso_string sha1_hex validate_schema find_by_id s input random now
            clock).0 in
        (s'.router ≡ s.router)
        ⊎ ((r : EventRoute) × (p : StoredPrincipal) × (get_route s.routes input.route_id ≡ value r)
            × (r.enabled ≡ true)
            × (r.approval_status ≡ approved)
            × ((verdict_of input.auth_verdict).ok ≡ true)
            × (errors_of b to_iso_string sha1_hex validate_schema find_by_id r input.body ≡ none)
            × (find_by_id r.principal_id ≡ some p)
            × (s'.router
                ≡ (invoke_and_return b to_iso_string sha1_hex s.router
                    (full_name r.mcp_target.server_id r.mcp_target.tool_name)
                    (render_args r.mcp_target.args_template input.body)
                    (some (record {
                      id = p.id;
                      type = p.type;
                      workspace_id = p.workspace_id;
                      scopes = [];
                      attributes = none;
                    }))
                    none
                    now
                    clock).0))
  unfolding dispatch_event check_auth check_schema find_owner
  dispatch_event-router s input random now clock =
      elim (Result-cases (get_route s.routes input.route_id)) [
        | inl (m, missing) ↦ rw (dispatch_event, missing) (inl refl)
        | inr (r, found) ↦ elim (Bool-cases (is_ready r)) [
          | inr unready ↦ rw (dispatch_event, found, unready) (inl refl)
          | inl ready ↦ elim (Bool-cases (verdict_of input.auth_verdict).ok) [
            | inr denied ↦ rw (dispatch_event, found, ready, check_auth, denied) (inl refl)
            | inl trusted ↦
                elim (Option-cases
                  (errors_of b to_iso_string sha1_hex validate_schema find_by_id r input.body)) [
                    | inr (errors, invalid) ↦
                        rw
                          (dispatch_event, found, ready, check_auth, trusted, check_schema, invalid)
                          (inl refl)
                    | inl valid ↦ elim (Option-cases (find_by_id r.principal_id)) [
                      | inl unowned ↦
                          rw
                            (
                              dispatch_event, found, ready, check_auth, trusted, check_schema,
                              valid, find_owner, unowned,
                            )
                            (inl refl)
                      | inr (p, owned) ↦
                          rw
                            (
                              dispatch_event, found, ready, check_auth, trusted, check_schema,
                              valid, find_owner, owned,
                            )
                            (inr (
                              r,
                              p,
                              refl,
                              (is_ready-approved r ready).0,
                              (is_ready-approved r ready).1,
                              refl,
                              valid,
                              owned,
                              finished-router s r _ p _,
                            ))
                    ]
                  ]
          ]
        ]
      ]

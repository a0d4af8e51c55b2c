-- ===== src/Events/Dispatcher/Policy.antt =====
-- apps/server/src/event-dispatcher.service.ts and router.service.ts together: an event acts with
-- the rights of its route's owner.
use mavio_mcp.Base.{
  ℕ, String, true, ◌≡◌, refl, ap, ◌∙◌, ◌⊎◌, inl, inr, Option, none, some, Option-cases,
}
use mavio_mcp.Json.{Json}
use mavio_mcp.Core.{approved}
use mavio_mcp.Rbac.{ResourceRef}
use mavio_mcp.Rbac.Actions.{tool_invoke}
use mavio_mcp.Registry.{value}
use mavio_mcp.Registry.Routes.{EventRoute, get_route}
use mavio_mcp.Router.{RouterState, Backends}
use mavio_mcp.Router.Request.{Clock}
use mavio_mcp.Router.Names.{split_name, full_name}
use mavio_mcp.Router.Gates.{dispatches, call_tool-dispatches}
use mavio_mcp.Router.Handle.{call_named, invoke_and_return}
use mavio_mcp.Events.Dispatcher.{
  DispatcherState, DispatchInput, StoredPrincipal, owner_principal, dispatch_event,
}
use mavio_mcp.Events.Dispatcher.Ingress.{dispatch_event-router}

module _ {W : Type 0} (b : Backends W) where
  open b use {can}

  -- The policy engine lets the owner invoke the tool that the name is split into.
  abbrev pub Allowed : W → StoredPrincipal → String → Type 0
  Allowed w p name =
      (server : String) × (tool : String) × (res : ResourceRef) × (split_name name
        ≡ some (server, tool))
      × (res.server ≡ some server)
      × (res.tool ≡ some tool)
      × ((can w (owner_principal p) tool_invoke res).allowed ≡ true)

  module _ (to_iso_string : ℕ → String) (sha1_hex : String → String) where
    invoke-Allowed :
        (s : RouterState W) (name : String) (args : Json) (p : StoredPrincipal) (now : ℕ)
        (clock : Clock)
        → (dispatches
              (invoke_and_return b to_iso_string sha1_hex s name args
                (some (owner_principal p))
                none
                now
                clock).0.log
            ≡ dispatches s.log)
          ⊎ Allowed s.world p name
    unfolding invoke_and_return call_named
    invoke-Allowed s name args p now clock = elim (Option-cases (split_name name)) [
      | inl bare ↦ rw (invoke_and_return, call_named, bare) (inl refl)
      | inr ((server, tool), split) ↦
          rw (invoke_and_return, call_named, split)
            (elim (call_tool-dispatches b to_iso_string sha1_hex s _ clock) [
              | inl same ↦ inl same
              | inr (d, found, approval, authorized, known, sent) ↦
                  inr (server, tool, _, refl, refl, refl, authorized)
            ])
    ]

    module _ (validate_schema : Json → Json → Option String)
        (find_by_id : String → Option StoredPrincipal) where
      -- An event sends nothing to an upstream server, or its route is enabled and approved and the
      -- policy engine lets the route's owner invoke the tool of the route.
      pub dispatch_event-Allowed :
          (s : DispatcherState W) (input : DispatchInput) (random : String) (now : ℕ)
          (clock : Clock)
          → let s' =
              (dispatch_event b to_iso_string sha1_hex validate_schema find_by_id s input random now
                clock).0 in
            (dispatches s'.router.log ≡ dispatches s.router.log)
            ⊎ ((r : EventRoute) × (p : StoredPrincipal) × (get_route s.routes input.route_id
                  ≡ value r)
                × (r.enabled ≡ true)
                × (r.approval_status ≡ approved)
                × (find_by_id r.principal_id ≡ some p)
                × Allowed s.router.world p
                    (full_name r.mcp_target.server_id r.mcp_target.tool_name))
      dispatch_event-Allowed s input random now clock =
          elim (dispatch_event-router b to_iso_string sha1_hex validate_schema find_by_id s input
            random now clock) [
              | inl same ↦ inl (ap (λ r. dispatches r.log) same)
              | inr (r, p, found, enabled, approval, trusted, valid, owned, called) ↦
                  elim (invoke-Allowed s.router
                    (full_name r.mcp_target.server_id r.mcp_target.tool_name) _ p now clock) [
                      | inl same ↦ inl (ap (λ r. dispatches r.log) called ∙ same)
                      | inr allowed ↦ inr (r, p, found, enabled, approval, owned, allowed)
                    ]
            ]

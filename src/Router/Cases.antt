-- ===== src/Router/Cases.antt =====
-- apps/server/src/router.service.ts: the cases of the results that the gates test.
use mavio_mcp.Base.{ℕ, String, ◌≡◌, refl, ◌⊎◌, inl, inr, Option}
use mavio_mcp.Core.{ServerDescriptor}
use mavio_mcp.Core.Breaker.{Admission, CircuitOpenError, admitted, refused}
use mavio_mcp.Sessions.McpSession.{pre_call, is_allowed}
use mavio_mcp.Sessions.McpSession
use mavio_mcp.Router.{
  found_server, not_found_error, other_error, skip, ready, consent_required, Lookup,
  UpstreamResolution, DispatchInjection,
}

pub Admission-cases : (a : Admission) → ((e : CircuitOpenError) × (a ≡ refused e)) ⊎ (a ≡ admitted)
Admission-cases admitted = inr refl
Admission-cases (refused e) = inl (e, refl)

pub Verdict-cases :
    (v : McpSession.Verdict)
    → (v ≡ McpSession.allowed)
      ⊎ ((code : ℕ) × (message : String) × (v ≡ McpSession.refused code message))
Verdict-cases McpSession.allowed = inl refl
Verdict-cases (McpSession.refused code message) = inr (code, message, refl)

pub Lookup-cases :
    (r : Lookup)
    → ((d : ServerDescriptor) × (r ≡ found_server d))
      ⊎ (((m : String) × (r ≡ not_found_error m)) ⊎ ((m : String) × (r ≡ other_error m)))
Lookup-cases (found_server d) = inl (d, refl)
Lookup-cases (not_found_error m) = inr (inl (m, refl))
Lookup-cases (other_error m) = inr (inr (m, refl))

pub add_reason : {A B C D : Type 0} → B → A ⊎ (C × D) → A ⊎ (B × C × D)
add_reason b (inl a) = inl a
add_reason b (inr (c, d)) = inr (b, c, d)

pub UpstreamResolution-cases :
    (r : UpstreamResolution)
    → (r ≡ skip)
      ⊎ (((i : DispatchInjection) × (r ≡ ready i))
          ⊎ ((provider : String) × (url : Option String) × (r ≡ consent_required provider url)))
UpstreamResolution-cases skip = inl refl
UpstreamResolution-cases (ready i) = inr (inl (i, refl))
UpstreamResolution-cases (consent_required provider url) = inr (inr (provider, url, refl))

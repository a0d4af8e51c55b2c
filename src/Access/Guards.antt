-- ===== src/Access/Guards.antt =====
-- apps/server/src/auth.guard.ts and rbac.guard.ts: `ApiKeyGuard` and `RbacGuard`, after the
-- middleware of csrf.middleware.ts, in the order in which a request meets them.
use Prim.Native.String.{◌++◌}
use mavio_mcp.Base.{
  ℕ, String, Bool, true, Option, none, some, List, [], ◌∷◌, any, str_eq, if◌then◌else◌,
}
use mavio_mcp.Base.Words.{trim, split_on}
use mavio_mcp.Core.{Principal, PrincipalType}
use mavio_mcp.Rbac.{ResourceRef, Decision}
use mavio_mcp.Access.{Url, HttpRequest, Settings}
use mavio_mcp.Access.Csrf.{next, forbidden, csrf_protection}
use mavio_mcp.Access.Sessions.{Redis, SessionCodec}
use mavio_mcp.Access.Principals.{
  Resolution, known, nobody, unauthorized, resolve_principal, given_text,
}

pub record PermissionRequirement : Type 0 where
  pub action : String
  pub resource : Option (HttpRequest → ResourceRef)

pub record DenyNote : Type 0 where
  pub actor_id : Option String
  pub actor_type : Option PrincipalType
  pub resource : Option ResourceRef
  pub required : String
  pub reason : String
  pub ip : Option String

-- How a request is let in, or which exception it meets.
pub data Admission : Type 0 where
  admitted : Principal → Admission
  csrf_forbidden : String → Admission
  unauthorized_exception : String → Admission
  forbidden_exception : String → Admission

abbrev no_resource : ResourceRef
no_resource = record { workspace = none; project = none; server = none; tool = none }

abbrev pub resource_of : PermissionRequirement → HttpRequest → ResourceRef
resource_of r req = elim r.resource [ none ↦ no_resource | some f ↦ f req ]

abbrev pub has_star : Principal → Bool
has_star p = any (λ s. str_eq s "*") p.scopes

-- What `canActivate` makes of what the resolver tells.
abbrev pub answer : Resolution → Resolution
answer (known p) = known p
answer nobody = unauthorized "invalid api key"
answer (unauthorized m) = unauthorized m

first_part : List String → String
first_part [] = ""
first_part (part ∷ parts) = part

-- `clientIp` of audit.module.ts.
unfoldable pub client_ip : HttpRequest → Option String
unfolding trim split_on first_part
client_ip req = elim (given_text req.forwarded_for) [
  | some forwarded ↦ some (trim (first_part (split_on b',' forwarded)))
  | none ↦ elim req.ip [ some ip ↦ some ip | none ↦ req.remote_address ]
]

-- How a known principal leaves the second guard.
abbrev pub admission : Principal → Option String → Admission
admission p none = admitted p
admission p (some m) = forbidden_exception m

-- The policy engine, a parameter of the guard.
module _ (can : Principal → String → ResourceRef → Decision) where
  -- `RbacGuard.canActivate`: the records of refusals, and the message of the exception, if any.
  unfoldable pub rbac_guard :
      List DenyNote
      → Option PermissionRequirement
      → HttpRequest
      → Option Principal
      → List DenyNote × Option String
  unfolding client_ip
  rbac_guard log requirement req principal = elim requirement [
    | none ↦ (log, none)
    | some r ↦ elim principal [
      | none ↦ (
        record {
          actor_id = none;
          actor_type = none;
          resource = none;
          required = r.action;
          reason = "no principal";
          ip = client_ip req;
        }
            ∷ log,
        some "no principal",
      )
      | some p ↦
          if has_star p
          then (log, none)
          else (let decision = can p r.action (resource_of r req) in
              if decision.allowed then (log, none) else (
                record {
                  actor_id = some p.id;
                  actor_type = some p.type;
                  resource = some (resource_of r req);
                  required = r.action;
                  reason = decision.reason;
                  ip = client_ip req;
                }
                    ∷ log,
                some ("denied: " ++ (r.action ++ (" (" ++ (decision.reason ++ ")")))),
              ))
    ]
  ]

  module _ {W : Type 0} (redis : Redis W) (codec : SessionCodec)
      (parse_cookie : String → String → Option String) (find_by_api_key : String → Option Principal)
      (parse_url : String → Option Url) where
    -- `ApiKeyGuard.canActivate`.
    unfoldable pub api_key_guard : Settings → W → HttpRequest → ℕ → W × Resolution
    api_key_guard settings w req now =
        let (w', r) =
          resolve_principal redis codec parse_cookie find_by_api_key settings w req true now in
        (w', answer r)

    -- A request to an endpoint under both guards.
    unfoldable pub let_in :
        Settings
        → W
        → List DenyNote
        → Option PermissionRequirement
        → HttpRequest
        → ℕ
        → W × (List DenyNote × Admission)
    let_in settings w log requirement req now = elim (csrf_protection parse_url settings req) [
      | forbidden m ↦ (w, (log, csrf_forbidden m))
      | next ↦
          let (w', r) = api_key_guard settings w req now in
          elim r [
            | known p ↦
                let (log', thrown) = rbac_guard log requirement req (some p) in
                (w', (log', admission p thrown))
            | nobody ↦ (w', (log, unauthorized_exception "invalid api key"))
            | unauthorized m ↦ (w', (log, unauthorized_exception m))
          ]
    ]

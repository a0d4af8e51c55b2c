-- ===== src/UpstreamAuth/Tokens/Tests.antt =====
-- The tokens of a dispatch at concrete inputs.
use mavio_mcp.Base.{ℕ, ◌≡◌, refl, Option, none, some, [], ◌∷◌, inl}
use mavio_mcp.Base.Map.{Map}
use mavio_mcp.Json.{str, null}
use mavio_mcp.Core.{ServerDescriptor, Principal, user, approved}
use mavio_mcp.Router.{skip, consent_required, UpstreamResolution, DispatchInjection}
use mavio_mcp.Router.Example.{server}
use mavio_mcp.UpstreamAuth.Keyring.{Checked, fine, mavio_error}
use mavio_mcp.UpstreamAuth.Credentials.{UpstreamToken, get_token, revoke, token_of}
use mavio_mcp.UpstreamAuth.Tokens.{
  Provider, denied, refreshed, TokenService, build_consent_url, persist, mint_token, refresh_token,
  resolve_with, resolve_for_dispatch,
}
use mavio_mcp.UpstreamAuth.Tokens.Grants.{
  GrantedTo, resolve_for_dispatch-GrantedTo, refresh_token-failed,
}
use mavio_mcp.UpstreamAuth.Example.{crypto, wrapper, random, encoding, table, row}

tokens : Unit {0}
unfolding build_consent_url persist mint_token refresh_token resolve_with resolve_for_dispatch
    get_token revoke mavio_mcp.UpstreamAuth.Credentials.to_token
    mavio_mcp.UpstreamAuth.Credentials.token_of mavio_mcp.UpstreamAuth.Credentials.put
    mavio_mcp.UpstreamAuth.Credentials.upsert mavio_mcp.UpstreamAuth.Credentials.update_where
    mavio_mcp.UpstreamAuth.Credentials.payload_of mavio_mcp.UpstreamAuth.Vault.encrypt
    mavio_mcp.UpstreamAuth.Vault.decrypt mavio_mcp.UpstreamAuth.Vault.local_key_wrapper
    mavio_mcp.UpstreamAuth.Vault.local_wrap mavio_mcp.UpstreamAuth.Vault.local_unwrap
    mavio_mcp.UpstreamAuth.Vault.local_primary mavio_mcp.Json.Print.stringify mavio_mcp.Json.prop
    mavio_mcp.Json.lookup_field
tokens = tt

abbrev no_injection : DispatchInjection
no_injection = record { env = none; headers = some (("authorization", "Bearer at") ∷ []) }

-- A provider that refuses to refresh and cannot mint.
abbrev slack : Provider
slack = record {
  mint = none;
  refresh = λ t. mavio_error "invalid_grant" "SLACK";
  inject = λ c. no_injection;
  authorize = λ p state base. fine (some "https://slack.example/consent");
}

abbrev registry : Map Provider
registry = ("slack", slack) ∷ []

abbrev u1 : Principal
u1 = record { id = "u1"; type = user; workspace_id = "w"; scopes = []; attributes = none }

abbrev service : TokenService
service = record { credentials = table; metrics = [] }

abbrev with_provider : ServerDescriptor
with_provider = record (server "srv" approved) {
  metadata = some (("upstreamOAuthProvider", str "slack") ∷ []);
}

abbrev resolution :
    ℕ
    → TokenService
    → Option Principal
    → ServerDescriptor
    → TokenService × Checked UpstreamResolution
resolution now s principal d =
    resolve_for_dispatch crypto wrapper encoding random "https://mavio" "st" now registry s
      principal d

tokens_tests :
    ((resolution 10 service (some u1) (server "srv" approved)).1 ≡ fine skip)
    × ((resolution 10 service none with_provider).1 ≡ fine (consent_required "slack" none))
    × ((resolution 10 service none with_provider).0.metrics ≡ denied "slack" "no_principal" ∷ [])
    × ((resolution 10
          (record service { credentials = (revoke table "u1" "slack").0 })
          (some u1)
          with_provider).1
        ≡ fine (consent_required "slack" (some "https://slack.example/consent")))
    × ((resolution 10 service (some u1) with_provider).1
        ≡ fine (consent_required "slack" (some "https://slack.example/consent")))
    × ((resolution 10 service (some u1) with_provider).0.metrics
        ≡ denied "slack" "refresh_failed" ∷ refreshed "slack" "failed" ∷ [])
unfolding tokens
tokens_tests = (refl, refl, refl, refl, refl, refl)

-- A token that lives longer than a minute.
abbrev lasting : TokenService
lasting = record {
  credentials = record table { rows = record (row 0 "u1" "v1") { expires_at = some 90000 } ∷ [] };
  metrics = [];
}

resolve_for_dispatch-GrantedTo_example :
    GrantedTo crypto wrapper encoding random "https://mavio" "st" 10 registry lasting
      (some u1)
      with_provider
      (resolution 10 lasting (some u1) with_provider).1
resolve_for_dispatch-GrantedTo_example =
    resolve_for_dispatch-GrantedTo crypto wrapper encoding random "https://mavio" "st" 10 registry
      lasting (some u1) with_provider

abbrev stale_token : UpstreamToken
stale_token = token_of (row 0 "u1" "v1") null

refresh_token-failed_example :
    ((refresh_token crypto wrapper encoding random "" "st" 10 service slack "u1" "slack"
        stale_token).1
      ≡ consent_required "slack" (build_consent_url slack "u1" "st" ""))
    × (get_token crypto wrapper encoding
          (refresh_token crypto wrapper encoding random "" "st" 10 service slack "u1" "slack"
            stale_token).0.credentials
          "u1"
          "slack"
        ≡ fine none)
refresh_token-failed_example =
    refresh_token-failed crypto wrapper encoding random "" "st" 10 service slack "u1" "slack"
      stale_token (inl (_, refl))

-- ===== src/UpstreamAuth/Tokens.antt =====
-- apps/server/src/upstream-auth.module.ts: `UpstreamTokenService`. A provider is a plugin, or a
-- client of a remote server: the argument `Provider` has what it answers in this call.
pub mod Grants
mod Tests
use mavio_mcp.Base.{
  ℕ, ◌+◌, String, Bool, true, false, Option, none, some, List, [], ◌∷◌, ◌++◌, leb, str_eq,
  if◌then◌else◌,
}
use mavio_mcp.Base.Map.{Map, get}
use mavio_mcp.Json.{Json, str}
use mavio_mcp.Core.{ServerDescriptor, Principal}
use mavio_mcp.Router.{UpstreamResolution, skip, consent_required, ready, DispatchInjection}
use mavio_mcp.Router.Request.{given, metadata_field}
use mavio_mcp.UpstreamAuth.Keyring.{Checked, fine, failed}
use mavio_mcp.UpstreamAuth.Vault.{Crypto, Draws, KeyWrapper}
use mavio_mcp.UpstreamAuth.Credentials.{
  Encoding, UpstreamToken, UpstreamTokenInput, Credentials, put, get_token, revoke,
}

pub record UpstreamCredential : Type 0 where
  pub access_token : String
  pub refresh_token : Option String
  pub token_type : Option String
  pub scopes : Option (List String)
  pub expires_at : Option ℕ
  pub issuer : Option String
  pub subject : Option String

-- `cred`, from the table or from the provider.
pub data Held : Type 0 where
  stored : UpstreamToken → Held
  issued : UpstreamCredential → Held

-- `authorize` is on the principal, the state and the base of the callback.
pub record Provider : Type 0 where
  pub mint : Option (String → Checked UpstreamCredential)
  pub refresh : UpstreamToken → Checked UpstreamCredential
  pub inject : Held → DispatchInjection
  pub authorize : String → String → String → Checked (Option String)

pub data TokenEvent : Type 0 where
  denied : String → String → TokenEvent
  refreshed : String → String → TokenEvent

pub record TokenService : Type 0 where
  pub credentials : Credentials
  pub metrics : List TokenEvent

abbrev count : TokenEvent → TokenService → TokenService
count e s = record s { metrics = e ∷ s.metrics }

abbrev pub is_expiring_soon : UpstreamToken → ℕ → Bool
is_expiring_soon t now = elim t.expires_at [ none ↦ false | some at ↦ leb at (now + 60000) ]

-- The state of the consent and the address of the server, "" where it is not set.
unfoldable pub build_consent_url : Provider → String → String → String → Option String
build_consent_url provider principal_id state base =
    if str_eq base ""
    then none
    else elim (provider.authorize principal_id state base) [ failed e ↦ none | fine url ↦ url ]

abbrev pub input_of : String → String → UpstreamCredential → UpstreamTokenInput
input_of principal_id provider_id c = record {
  principal_id = principal_id;
  provider_id = provider_id;
  access_token = c.access_token;
  refresh_token = c.refresh_token;
  token_type = c.token_type;
  scopes = c.scopes;
  expires_at = c.expires_at;
  issuer = c.issuer;
  subject = c.subject;
}

-- The metadata is a text, as the cast of the code says.
abbrev pub provider_id_of : Option Json → Option String
provider_id_of (some (str s)) = given (some s)
provider_id_of _ = none

abbrev pub in_table : Credentials → TokenService → TokenService
in_table c s = record s { credentials = c }

module _ (crypto : Crypto) (wrapper : KeyWrapper) (encoding : Encoding) (random : ℕ → Draws)
    (base : String) (state : String) (now : ℕ) where
  -- A credential of the provider after `persist`, or that this failed.
  unfoldable pub persist :
      TokenService → String → String → UpstreamCredential → TokenService × Checked UpstreamToken
  persist s principal_id provider_id c =
      let (table, result) =
        put crypto wrapper encoding random s.credentials (input_of principal_id provider_id c)
          now in
      (in_table table s, result)

  abbrev pub ask : Provider → String → String → UpstreamResolution
  ask provider principal_id provider_id =
      consent_required provider_id (build_consent_url provider principal_id state base)

  -- The block `try { cred = await provider.mint(...) ... }`.
  unfoldable pub mint_token :
      TokenService → Provider → String → String → TokenService × UpstreamResolution
  unfolding persist
  mint_token s provider principal_id provider_id =
      let fail : TokenService → TokenService × UpstreamResolution =
        λ t. (count (denied provider_id "mint_failed") t, ask provider principal_id provider_id) in
      elim provider.mint [
        | none ↦
            (count (denied provider_id "no_credential") s, ask provider principal_id provider_id)
        | some mint ↦ elim (mint principal_id) [
          | failed e ↦ fail s
          | fine c ↦
              let (s', result) = persist s principal_id provider_id c in
              elim result [
                | failed e ↦ fail s'
                | fine t ↦
                    (count (refreshed provider_id "minted") s', ready (provider.inject (issued c)))
              ]
        ]
      ]

  -- The block `try { const refreshed = await provider.refresh(cred) ... }`.
  unfoldable pub refresh_token :
      TokenService → Provider → String → String → UpstreamToken → TokenService × UpstreamResolution
  unfolding persist
  refresh_token s provider principal_id provider_id t =
      let fail : TokenService → TokenService × UpstreamResolution = λ u. (
        in_table (revoke u.credentials principal_id provider_id).0 (
            count (denied provider_id "refresh_failed") (count (refreshed provider_id "failed") u)),
        ask provider principal_id provider_id,
      ) in
      elim (provider.refresh t) [
        | failed e ↦ fail s
        | fine c ↦
            let (s', result) = persist s principal_id provider_id c in
            elim result [
              | failed e ↦ fail s'
              | fine t' ↦
                  (count (refreshed provider_id "refreshed") s', ready (provider.inject (issued c)))
            ]
      ]

  unfoldable pub resolve_with :
      TokenService → Provider → String → String → TokenService × Checked UpstreamResolution
  resolve_with s provider principal_id provider_id =
      elim (get_token crypto wrapper encoding s.credentials principal_id provider_id) [
        | failed e ↦ (s, failed e)
        | fine none ↦ let (s', r) = mint_token s provider principal_id provider_id in (s', fine r)
        | fine (some t) ↦
            if is_expiring_soon t now
            then (let (s', r) = refresh_token s provider principal_id provider_id t in (s', fine r))
            else (s, fine (ready (provider.inject (stored t))))
      ]

  unfoldable pub resolve_for_dispatch :
      Map Provider
      → TokenService
      → Option Principal
      → ServerDescriptor
      → TokenService × Checked UpstreamResolution
  resolve_for_dispatch registry s principal descriptor =
      elim (provider_id_of (metadata_field "upstreamOAuthProvider" descriptor)) [
        | none ↦ (s, fine skip)
        | some provider_id ↦ elim principal [
          | none ↦ (
            count (denied provider_id "no_principal") s,
            fine (consent_required provider_id none),
          )
          | some p ↦ elim (get provider_id registry) [
            | none ↦ (
              count (denied provider_id "unknown_provider") s,
              fine (consent_required provider_id none),
            )
            | some provider ↦ resolve_with s provider p.id provider_id
          ]
        ]
      ]

-- ===== src/UpstreamAuth/Credentials.antt =====
-- packages/upstream-auth/src/repo.ts: `PrincipalUpstreamCredentialsRepository`. The five columns
-- of an envelope are one field of a row. `random` is what `randomBytes` gives to each attempt to
-- encrypt, `Encoding` is `Buffer` and `JSON.parse` of the host, `before` the collation of ids.
pub mod Rows
pub mod Secrets
pub mod Refinement
pub mod Stale
pub mod Sweeps
pub mod Stuck
pub mod Reads
mod Tests
use mathlib.Core.List.{◌++◌ as append_list}
use mavio_mcp.Base.Sort.{sort_by}
use mavio_mcp.Base.{
  ℕ, suc, ◌+◌, String, Bool, true, false, not, ◌&&◌, Option, none, some, List, [], ◌∷◌, str_eq, ltb,
  ◌==◌, if◌then◌else◌, length, take, keep, find, any, map,
}
use mavio_mcp.Base.Map.{Map, get, set}
use mavio_mcp.Json.{Json, null, str, obj, field, end, prop}
use mavio_mcp.Json.Print.{stringify}
use mavio_mcp.UpstreamAuth.Keyring.{MavioError, Checked, fine, failed, mavio_error}
use mavio_mcp.UpstreamAuth.Vault.{
  Bytes, ◌>>=◌, Crypto, Draws, KeyWrapper, Envelope, encrypt, decrypt, rewrap,
}

-- `Buffer.from(s, "utf8")`, `toString("utf8")` and `JSON.parse`.
pub record Encoding : Type 0 where
  pub to_bytes : String → Bytes
  pub from_bytes : Bytes → String
  pub parse : String → Option Json

pub record CredentialRow : Type 0 where
  pub id : ℕ
  pub principal_id : String
  pub provider_id : String
  pub envelope : Envelope
  pub token_type : String
  pub scopes : List String
  pub expires_at : Option ℕ
  pub issuer : Option String
  pub subject : Option String
  pub updated_at : ℕ

-- The two fields of the payload are what `JSON.parse` gave, `none` for undefined.
pub record UpstreamToken : Type 0 where
  pub principal_id : String
  pub provider_id : String
  pub access_token : Option Json
  pub refresh_token : Option Json
  pub token_type : String
  pub scopes : List String
  pub expires_at : Option ℕ
  pub issuer : Option String
  pub subject : Option String
  pub key_id : String
  pub updated_at : ℕ

pub record UpstreamTokenInput : Type 0 where
  pub principal_id : String
  pub provider_id : String
  pub access_token : String
  pub refresh_token : Option String
  pub token_type : Option String
  pub scopes : Option (List String)
  pub expires_at : Option ℕ
  pub issuer : Option String
  pub subject : Option String

-- The table, the next value of its key, and the number of attempts to encrypt so far.
pub record Credentials : Type 0 where
  pub rows : List CredentialRow
  pub next_id : ℕ
  pub drawn : ℕ

pub record Metadata : Type 0 where
  pub provider_id : String
  pub token_type : String
  pub scopes : List String
  pub expires_at : Option ℕ
  pub issuer : Option String
  pub subject : Option String
  pub key_id : String
  pub updated_at : ℕ

pub record Sweep : Type 0 where
  pub rewrapped : ℕ
  pub scanned : ℕ

abbrev pub or_else {ℓ} : {A : Type ℓ} → Option A → A → A
or_else none a = a
or_else (some b) a = b

abbrev pub owns : String → String → CredentialRow → Bool
owns principal_id provider_id r =
    str_eq r.principal_id principal_id && str_eq r.provider_id provider_id

-- `UPDATE ... WHERE`.
unfoldable pub update_where {ℓ} : {A : Type ℓ} → (A → Bool) → (A → A) → List A → List A
update_where p f [] = []
update_where p f (r ∷ rs) = (if p r then f r else r) ∷ update_where p f rs

abbrev pub drew : Credentials → Credentials
drew s = record s { drawn = suc s.drawn }

abbrev pub payload_json : String → Option String → Json
payload_json access refresh = obj (
    field "access" (str access)
      (field "refresh" (elim refresh [ none ↦ null | some t ↦ str t ]) end))

unfoldable pub payload_of : String → Option String → String
payload_of access refresh = stringify (payload_json access refresh)

-- The columns that the insertion and the update on conflict both write.
abbrev pub written : UpstreamTokenInput → Envelope → CredentialRow → CredentialRow
written input env r = record r {
  envelope = env;
  token_type = or_else input.token_type "Bearer";
  scopes = or_else input.scopes [];
  expires_at = input.expires_at;
  issuer = input.issuer;
  subject = input.subject;
}

abbrev pub new_row : Credentials → UpstreamTokenInput → Envelope → ℕ → CredentialRow
new_row s input env now = record {
  id = s.next_id;
  principal_id = input.principal_id;
  provider_id = input.provider_id;
  envelope = env;
  token_type = or_else input.token_type "Bearer";
  scopes = or_else input.scopes [];
  expires_at = input.expires_at;
  issuer = input.issuer;
  subject = input.subject;
  updated_at = now;
}

-- `insert ... on conflict (principal_id, provider_id) do update`.
unfoldable pub upsert : Credentials → UpstreamTokenInput → Envelope → ℕ → Credentials
unfolding update_where
upsert s input env now =
    if any (owns input.principal_id input.provider_id) s.rows
    then record s {
      rows =
          update_where (owns input.principal_id input.provider_id)
            (λ r. record (written input env r) { updated_at = now }) s.rows;
    }
    else record s {
      rows = append_list s.rows (new_row s input env now ∷ []);
      next_id = suc s.next_id;
    }

-- `DELETE ... WHERE`, and whether a row went.
unfoldable pub revoke : Credentials → String → String → Credentials × Bool
revoke s principal_id provider_id = (
  record s { rows = keep (λ r. not (owns principal_id provider_id r)) s.rows },
  any (owns principal_id provider_id) s.rows,
)

unfoldable pub list_by_principal : (String → String → Bool) → Credentials → String → List Metadata
list_by_principal before s principal_id =
    map
      (λ (r : CredentialRow). record {
        provider_id = r.provider_id;
        token_type = r.token_type;
        scopes = r.scopes;
        expires_at = r.expires_at;
        issuer = r.issuer;
        subject = r.subject;
        key_id = r.envelope.key_id;
        updated_at = r.updated_at;
      })
      (sort_by (λ a b. before a.provider_id b.provider_id)
        (keep (λ r. str_eq r.principal_id principal_id) s.rows))

unfoldable pub count_rows : Map ℕ → List CredentialRow → Map ℕ
count_rows counts [] = counts
count_rows counts (r ∷ rs) =
    count_rows (set r.envelope.key_id (suc (or_else (get r.envelope.key_id counts) 0)) counts) rs

unfoldable pub count_by_key_id : Credentials → Map ℕ
unfolding count_rows
count_by_key_id s = count_rows [] s.rows

abbrev pub set_envelope : ℕ → Envelope → ℕ → List CredentialRow → List CredentialRow
set_envelope id env now =
    update_where (λ r. r.id == id) (λ r. record r { envelope = env; updated_at = now })

abbrev pub is_stale : String → CredentialRow → Bool
is_stale primary_id r = not (str_eq r.envelope.key_id primary_id)

-- `WHERE key_id != primary ORDER BY updated_at LIMIT limit`; rows of the same time stay in order.
abbrev pub stale_rows : String → ℕ → List CredentialRow → List CredentialRow
stale_rows primary_id limit rows =
    take limit (sort_by (λ a b. ltb a.updated_at b.updated_at) (keep (is_stale primary_id) rows))

-- A token, with its secrets from the parsed payload.
unfoldable pub token_of : CredentialRow → Json → UpstreamToken
token_of r parsed = record {
  principal_id = r.principal_id;
  provider_id = r.provider_id;
  access_token = prop "access" parsed;
  refresh_token = elim (prop "refresh" parsed) [ none ↦ none | some null ↦ none | some t ↦ some t ];
  token_type = r.token_type;
  scopes = r.scopes;
  expires_at = r.expires_at;
  issuer = r.issuer;
  subject = r.subject;
  key_id = r.envelope.key_id;
  updated_at = r.updated_at;
}

module _ (crypto : Crypto) (wrapper : KeyWrapper) (encoding : Encoding) where
  unfoldable pub to_token : CredentialRow → Checked UpstreamToken
  to_token r = decrypt crypto wrapper r.envelope >>= λ plaintext.
      elim (encoding.parse (encoding.from_bytes plaintext)) [
        | none ↦ mavio_error "Unexpected token in JSON" "SyntaxError"
        | some null ↦ mavio_error "Cannot read properties of null (reading 'access')" "TypeError"
        | some parsed ↦ fine (token_of r parsed)
      ]

  unfoldable pub put :
      (ℕ → Draws) → Credentials → UpstreamTokenInput → ℕ → Credentials × Checked UpstreamToken
  unfolding upsert
  put random s input now =
      elim (encrypt crypto wrapper (random s.drawn)
        (encoding.to_bytes (payload_of input.access_token input.refresh_token))) [
          | failed e ↦ (drew s, failed e)
          | fine env ↦
              let s' : Credentials = upsert (drew s) input env now in
              (
                s',
                elim (find (owns input.principal_id input.provider_id) s'.rows) [
                  | none ↦ mavio_error "no result" "NoResultError"
                  | some r ↦ to_token r
                ],
              )
        ]

  -- `null` where there is no row.
  unfoldable pub get_token : Credentials → String → String → Checked (Option UpstreamToken)
  get_token s principal_id provider_id = elim (find (owns principal_id provider_id) s.rows) [
    | none ↦ fine none
    | some r ↦ to_token r >>= λ t. fine (some t)
  ]

module _ (crypto : Crypto) (wrapper : KeyWrapper) (random : ℕ → Draws) where
  -- The loop of `rewrapStale` on one row, and whether it was rewrapped.
  unfoldable pub rewrap_row : Credentials → CredentialRow → ℕ → Credentials × Bool
  unfolding update_where
  rewrap_row s r now = elim (rewrap crypto wrapper (random s.drawn) r.envelope) [
    | failed e ↦ (drew s, false)
    | fine next ↦
        if str_eq next.key_id r.envelope.key_id
        then (drew s, false)
        else (record (drew s) { rows = set_envelope r.id next now s.rows }, true)
  ]

  unfoldable pub rewrap_rows : Credentials → List CredentialRow → ℕ → Credentials × ℕ
  unfolding rewrap_row
  rewrap_rows s [] now = (s, 0)
  rewrap_rows s (r ∷ rs) now =
      let (s', done) = rewrap_row s r now in
      let (s'', n) = rewrap_rows s' rs now in (s'', (if done then 1 else 0) + n)

  unfoldable pub rewrap_stale : Credentials → ℕ → ℕ → Credentials × Checked Sweep
  unfolding rewrap_rows
  rewrap_stale s limit now = elim wrapper.primary_key_id [
    | failed e ↦ (s, failed e)
    | fine primary_id ↦
        let rows = stale_rows primary_id limit s.rows in
        let (s', n) = rewrap_rows s rows now in
        (s', fine (record { rewrapped = n; scanned = length rows }))
  ]

  -- `rewrap(principalId, providerId)`.
  unfoldable pub rewrap_token : Credentials → String → String → ℕ → Credentials × Checked (Unit {0})
  rewrap_token s principal_id provider_id now = elim (find (owns principal_id provider_id) s.rows) [
    | none ↦ (s, fine tt)
    | some r ↦ elim (rewrap crypto wrapper (random s.drawn) r.envelope) [
      | failed e ↦ (drew s, failed e)
      | fine next ↦
          if str_eq next.key_id r.envelope.key_id
          then (drew s, fine tt)
          else (record (drew s) { rows = set_envelope r.id next now s.rows }, fine tt)
    ]
  ]

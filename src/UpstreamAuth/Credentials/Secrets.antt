-- ===== src/UpstreamAuth/Credentials/Secrets.antt =====
-- packages/upstream-auth/src/repo.ts: what the table hides, and a store without keys that the
-- repository implements.
use mathlib.Core.List.{◌++◌ as append_list, map-append}
use mavio_mcp.Base.{
  ℕ, suc, ◌<◌, String, Bool, not, ◌&&◌, Option, List, [], ◌∷◌, ◌≡◌, refl, ◌∙◌, inl, inr, arith,
  Bool-cases, str_eq, ◌==◌, if◌then◌else◌, keep, any, map, All-map, All-append,
}
use mavio_mcp.UpstreamAuth.Keyring.{Checked, fine}
use mavio_mcp.UpstreamAuth.Vault.{Bytes, Envelope}
use mavio_mcp.UpstreamAuth.Credentials.Rows.{
  IsTable, Agree, update_where-DistinctIds, update_where-below, snoc-DistinctIds,
}
use mavio_mcp.UpstreamAuth.Credentials.{
  CredentialRow, UpstreamTokenInput, Credentials, or_else, owns, update_where, payload_of, written,
  new_row, upsert, set_envelope,
}

pub record Secret : Type 0 where
  pub principal_id : String
  pub provider_id : String
  pub payload : Checked Bytes
  pub token_type : String
  pub scopes : List String
  pub expires_at : Option ℕ
  pub issuer : Option String
  pub subject : Option String

abbrev pub belongs : String → String → Secret → Bool
belongs principal_id provider_id x =
    str_eq x.principal_id principal_id && str_eq x.provider_id provider_id

abbrev pub secret_of_input : UpstreamTokenInput → Bytes → Secret
secret_of_input input payload = record {
  principal_id = input.principal_id;
  provider_id = input.provider_id;
  payload = fine payload;
  token_type = or_else input.token_type "Bearer";
  scopes = or_else input.scopes [];
  expires_at = input.expires_at;
  issuer = input.issuer;
  subject = input.subject;
}

abbrev pub replaced : UpstreamTokenInput → Bytes → Secret → Secret
replaced input payload x = record (secret_of_input input payload) {
  principal_id = x.principal_id;
  provider_id = x.provider_id;
}

pub data Command : Type 0 where
  put_token : UpstreamTokenInput → ℕ → Command
  revoke_token : String → String → Command
  sweep : ℕ → ℕ → Command
  rewrap_one : String → String → ℕ → Command

-- The store without keys. To wrap again is not seen.
abbrev pub spec_step : (String → Bytes) → List Secret → Command → List Secret
spec_step to_bytes xs (put_token input now) =
    let payload = to_bytes (payload_of input.access_token input.refresh_token) in
    if any (belongs input.principal_id input.provider_id) xs
    then update_where (belongs input.principal_id input.provider_id) (replaced input payload) xs
    else append_list xs (secret_of_input input payload ∷ [])
spec_step to_bytes xs (revoke_token p q) = keep (λ x. not (belongs p q x)) xs
spec_step to_bytes xs (sweep limit now) = xs
spec_step to_bytes xs (rewrap_one p q now) = xs

abbrev pub spec_run : (String → Bytes) → List Secret → List Command → List Secret
spec_run to_bytes xs [] = xs
spec_run to_bytes xs (c ∷ cs) = spec_run to_bytes (spec_step to_bytes xs c) cs

module _ (hidden : Envelope → Checked Bytes) where
  abbrev pub secret_of : CredentialRow → Secret
  secret_of r = record {
    principal_id = r.principal_id;
    provider_id = r.provider_id;
    payload = hidden r.envelope;
    token_type = r.token_type;
    scopes = r.scopes;
    expires_at = r.expires_at;
    issuer = r.issuer;
    subject = r.subject;
  }

  pub secrets-set_envelope :
      (row : CredentialRow) (next : Envelope) (now : ℕ) (rows : List CredentialRow)
      → hidden next ≡ hidden row.envelope
      → Agree hidden row rows
      → map secret_of (set_envelope row.id next now rows) ≡ map secret_of rows
  unfolding update_where
  secrets-set_envelope row next now [] same h = refl
  secrets-set_envelope row next now (r ∷ rs) same (agree, h) = elim (Bool-cases (r.id == row.id)) [
    | inl hit ↦
        rw hit (cc (same, agree (ground arith), secrets-set_envelope row next now rs same h))
    | inr miss ↦ rw miss (cc (secrets-set_envelope row next now rs same h))
  ]

  any-secrets :
      (p q : String) (rows : List CredentialRow)
      → any (belongs p q) (map secret_of rows) ≡ any (owns p q) rows
  any-secrets p q [] = refl
  any-secrets p q (r ∷ rs) = ground (arith, any-secrets p q rs)

  secrets-written :
      (p q : String) (input : UpstreamTokenInput) (env : Envelope) (now : ℕ) (payload : Bytes)
      (rows : List CredentialRow)
      → hidden env ≡ fine payload
      → map secret_of
          (update_where (owns p q) (λ r. record (written input env r) { updated_at = now }) rows)
        ≡ update_where (belongs p q) (replaced input payload) (map secret_of rows)
  unfolding update_where
  secrets-written p q input env now payload [] h = refl
  secrets-written p q input env now payload (r ∷ rs) h = elim (Bool-cases (owns p q r)) [
    | inl hit ↦ rw hit (cc (h, secrets-written p q input env now payload rs h))
    | inr miss ↦ rw miss (cc (secrets-written p q input env now payload rs h))
  ]

  pub secrets-upsert :
      (s : Credentials) (input : UpstreamTokenInput) (env : Envelope) (now : ℕ) (payload : Bytes)
      → hidden env ≡ fine payload
      → map secret_of (upsert s input env now).rows ≡ (
          if any (belongs input.principal_id input.provider_id) (map secret_of s.rows)
          then update_where
              (belongs input.principal_id input.provider_id)
              (replaced input payload)
              (map secret_of s.rows)
          else append_list (map secret_of s.rows) (secret_of_input input payload ∷ []))
  unfolding upsert
  secrets-upsert s input env now payload h =
      rw (any-secrets input.principal_id input.provider_id s.rows)
        (elim (Bool-cases (any (owns input.principal_id input.provider_id) s.rows)) [
          | inl hit ↦
              rw hit (
                secrets-written input.principal_id input.provider_id input env now payload s.rows h)
          | inr miss ↦ rw miss (map-append secret_of s.rows (new_row s input env now ∷ []) ∙ cc h)
        ])

  pub secrets-keep :
      (p q : String) (rows : List CredentialRow)
      → map secret_of (keep (λ r. not (owns p q r)) rows)
        ≡ keep (λ x. not (belongs p q x)) (map secret_of rows)
  secrets-keep p q [] = refl
  secrets-keep p q (r ∷ rs) = ground (arith, secrets-keep p q rs)

pub upsert-IsTable :
    (s : Credentials) (input : UpstreamTokenInput) (env : Envelope) (now : ℕ)
    → IsTable s
    → IsTable (upsert s input env now)
unfolding upsert
upsert-IsTable s input env now h =
    elim (Bool-cases (any (owns input.principal_id input.provider_id) s.rows)) [
      | inl hit ↦ rw hit (record {
        distinct = update_where-DistinctIds _ _ s.rows (λ r. refl) h.distinct;
        below = update_where-below _ _ s.next_id s.rows (λ r. refl) h.below;
      })
      | inr miss ↦ rw miss (record {
        distinct = snoc-DistinctIds s.rows (new_row s input env now) h.below h.distinct;
        below =
            All-append (λ r. r.id < suc s.next_id) s.rows (new_row s input env now ∷ [])
              (All-map (λ r. r.id < s.next_id) (λ r. r.id < suc s.next_id) (λ r l. omega (arith, l))
                s.rows h.below)
              (omega arith, tt);
      })
    ]

pub set_envelope-IsTable :
    (s : Credentials) (id : ℕ) (env : Envelope) (now : ℕ)
    → IsTable s
    → IsTable (record s { rows = set_envelope id env now s.rows })
set_envelope-IsTable s id env now h = record {
  distinct = update_where-DistinctIds _ _ s.rows (λ r. refl) h.distinct;
  below = update_where-below _ _ s.next_id s.rows (λ r. refl) h.below;
}

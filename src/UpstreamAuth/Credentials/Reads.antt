-- ===== src/UpstreamAuth/Credentials/Reads.antt =====
-- packages/upstream-auth/src/repo.ts: `get` after `put`.
use mathlib.Core.List.{◌++◌ as append_list}
use mavio_mcp.Base.{
  ℕ, String, Bool, true, false, Option, none, some, List, [], ◌∷◌, ◌≡◌, refl, sym, ap, ◌∙◌, inl,
  inr, arith, eq_iff, Bool-cases, find, any,
}
use mavio_mcp.Json.{Json, null, str, prop}
use mavio_mcp.UpstreamAuth.Keyring.{fine}
use mavio_mcp.UpstreamAuth.Vault.{Crypto, Draws, KeyWrapper, Envelope, encrypt, decrypt}
use mavio_mcp.UpstreamAuth.Vault.Faithful.{IsCrypto, IsDraws, IsWrapper, decrypt-encrypt}
use mavio_mcp.UpstreamAuth.Credentials.{
  Encoding, CredentialRow, UpstreamToken, UpstreamTokenInput, Credentials, owns, update_where, drew,
  written, new_row, upsert, payload_json, payload_of, token_of, to_token, put, get_token,
}

-- The host reads back the payload of a token.
abbrev pub Reads : Encoding → String → Option String → Type 0
Reads encoding access refresh =
    encoding.parse (encoding.from_bytes (encoding.to_bytes (payload_of access refresh)))
    ≡ some (payload_json access refresh)

find-update_where :
    (p : CredentialRow → Bool) (f : CredentialRow → CredentialRow) (rows : List CredentialRow)
    → ((r : CredentialRow) → p (f r) ≡ p r)
    → any p rows ≡ true
    → (r : CredentialRow) × (find p (update_where p f rows) ≡ some (f r))
unfolding update_where
find-update_where p f [] keeps h = absurd (cc)
find-update_where p f (r ∷ rs) keeps h = elim (Bool-cases (p r)) [
  | inl hit ↦ (r, rw hit (rw (keeps r) (rw hit refl)))
  | inr miss ↦
      let (q, found) = find-update_where p f rs keeps (ground (arith, miss, h)) in
      (q, rw miss (rw miss found))
]

find-append :
    (p : CredentialRow → Bool) (rows : List CredentialRow) (r : CredentialRow)
    → any p rows ≡ false
    → p r ≡ true
    → find p (append_list rows (r ∷ [])) ≡ some r
find-append p [] r h hit = rw hit refl
find-append p (q ∷ qs) r h hit = ground (arith, find-append p qs r)

-- The row of a token that was put.
abbrev Holds : UpstreamTokenInput → Envelope → CredentialRow → Type 0
Holds input env r = (r.envelope ≡ env) × (r.expires_at ≡ input.expires_at)

find-upsert :
    (s : Credentials) (input : UpstreamTokenInput) (env : Envelope) (now : ℕ)
    → (r : CredentialRow) × (find
          (owns input.principal_id input.provider_id)
          (upsert s input env now).rows
        ≡ some r)
      × Holds input env r
unfolding upsert
find-upsert s input env now =
    let mine = owns input.principal_id input.provider_id in
    elim (Bool-cases (any mine s.rows)) [
      | inl present ↦
          let (r, found) =
            find-update_where mine (λ r. record (written input env r) { updated_at = now }) s.rows
              (λ r. refl) present in
          (record (written input env r) { updated_at = now }, rw present found, (refl, refl))
      | inr absent ↦ (
        new_row s input env now,
        rw absent (
            find-append mine s.rows (new_row s input env now) absent (
              ground (
                arith,
                eq_iff input.principal_id input.principal_id,
                eq_iff input.provider_id input.provider_id,
              ))),
        (refl, refl),
      )
    ]

abbrev refresh_json : Option String → Option Json
refresh_json none = none
refresh_json (some r) = some (str r)

module _ (crypto : Crypto) (wrapper : KeyWrapper) (encoding : Encoding) where
  to_token-payload :
      (r : CredentialRow) (access : String) (refresh : Option String)
      → decrypt crypto wrapper r.envelope ≡ fine (encoding.to_bytes (payload_of access refresh))
      → Reads encoding access refresh
      → (t : UpstreamToken) × (to_token crypto wrapper encoding r ≡ fine t)
        × (t.access_token ≡ some (str access))
        × (t.refresh_token ≡ refresh_json refresh)
        × (t.expires_at ≡ r.expires_at)
        × (t.key_id ≡ r.envelope.key_id)
  unfolding to_token token_of prop mavio_mcp.Json.lookup_field
  to_token-payload r access none opened reads =
      (token_of r (payload_json access none), rw opened (rw reads refl), refl, refl, refl, refl)
  to_token-payload r access (some refresh) opened reads = (
    token_of r (payload_json access (some refresh)),
    rw opened (rw reads refl),
    refl,
    refl,
    refl,
    refl,
  )

  put-found :
      (random : ℕ → Draws) (s : Credentials) (input : UpstreamTokenInput) (now : ℕ) (env : Envelope)
      (r : CredentialRow) (t : UpstreamToken)
      → encrypt crypto wrapper
          (random s.drawn)
          (encoding.to_bytes (payload_of input.access_token input.refresh_token))
        ≡ fine env
      → find (owns input.principal_id input.provider_id) (upsert (drew s) input env now).rows
        ≡ some r
      → to_token crypto wrapper encoding r ≡ fine t
      → ((put crypto wrapper encoding random s input now).1 ≡ fine t)
        × (get_token crypto wrapper encoding
              (put crypto wrapper encoding random s input now).0
              input.principal_id
              input.provider_id
            ≡ fine (some t))
  unfolding put get_token
  put-found random s input now env r t made found read =
      (simp (put, made, found, read), simp (put, get_token, made, found, read))

module _ (crypto : Crypto) (honest : IsCrypto crypto) (wrapper : KeyWrapper)
    (faithful : IsWrapper wrapper) (encoding : Encoding) (random : ℕ → Draws)
    (sizes : (n : ℕ) → IsDraws (random n)) where
  -- `put` returns a token, `get` returns the same one, and it has the two secrets of the input, its
  -- expiry and the primary key, whether or not there was a row. The host reads back the payload.
  pub get_token-put :
      (s : Credentials) (input : UpstreamTokenInput) (now : ℕ)
      → Reads encoding input.access_token input.refresh_token
      → (t : UpstreamToken) × ((put crypto wrapper encoding random s input now).1 ≡ fine t)
        × (get_token crypto wrapper encoding
              (put crypto wrapper encoding random s input now).0
              input.principal_id
              input.provider_id
            ≡ fine (some t))
        × (t.access_token ≡ some (str input.access_token))
        × (t.refresh_token ≡ refresh_json input.refresh_token)
        × (t.expires_at ≡ input.expires_at)
        × (wrapper.primary_key_id ≡ fine t.key_id)
  get_token-put s input now reads =
      let (env, made, opens, key) =
        decrypt-encrypt crypto honest wrapper faithful (random s.drawn)
          (encoding.to_bytes (payload_of input.access_token input.refresh_token)) (sizes s.drawn) in
      let (r, found, (same, expires)) = find-upsert (drew s) input env now in
      let (t, read, access, refresh, expires', key') =
        to_token-payload crypto wrapper encoding r input.access_token input.refresh_token
          (ap (λ e. decrypt crypto wrapper e) same ∙ opens) reads in
      let (returned, stored) =
        put-found crypto wrapper encoding random s input now env r t made found read in
      (
        t,
        returned,
        stored,
        access,
        refresh,
        expires' ∙ expires,
        key ∙ ap fine (sym (key' ∙ ap (λ (e : Envelope). e.key_id) same)),
      )

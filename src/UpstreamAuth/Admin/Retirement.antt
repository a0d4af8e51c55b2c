-- ===== src/UpstreamAuth/Admin/Retirement.antt =====
-- apps/server/src/vault-admin.controller.ts: a key that is retired without force is not in use.
use mathlib.Core.Path.{subst}
use mavio_mcp.Base.{
  ℕ, suc, ◌+◌, String, Bool, false, some, List, [], ◌∷◌, ◌≡◌, refl, ap, inl, inr, arith, eq_iff,
  Bool-cases, str_eq, ltb, ltb→le, length, keep, All,
}
use mavio_mcp.Base.Map.{Map, get, set, get-set}
use mavio_mcp.UpstreamAuth.Keyring
use mavio_mcp.UpstreamAuth.Keyring.{
  MavioError, Checked, Checked-cases, fine, failed, KekEntry, has_id, get_kek, remove_first,
}
use mavio_mcp.UpstreamAuth.Vault.{Bytes, Crypto, Envelope, local_key_wrapper, local_unwrap, decrypt}
use mavio_mcp.UpstreamAuth.Credentials.{
  CredentialRow, Credentials, or_else, count_rows, count_by_key_id,
}
use mavio_mcp.UpstreamAuth.Admin.Aliasing.{read_kek-shared}
use mavio_mcp.UpstreamAuth.Admin.{VaultAdmin, vault_keys, with_kek, retire_at, retire}

abbrev uses : String → CredentialRow → Bool
uses key_id r = str_eq r.envelope.key_id key_id

-- `countByKeyId` counts the rows under each key.
count_rows-get :
    (key_id : String) (counts : Map ℕ) (rows : List CredentialRow)
    → or_else (get key_id (count_rows counts rows)) 0
      ≡ or_else (get key_id counts) 0 + length (keep (uses key_id) rows)
unfolding count_rows
count_rows-get key_id counts [] = omega arith
count_rows-get key_id counts (r ∷ rs) =
    let key = r.envelope.key_id in
    let n = suc (or_else (get key counts) 0) in
    ground (
      arith,
      eq_iff key key_id,
      get-set key key_id n counts,
      count_rows-get key_id (set key n counts) rs,
    )

none_use :
    (key_id : String) (rows : List CredentialRow)
    → length (keep (uses key_id) rows) ≡ 0
    → All (λ r. uses key_id r ≡ false) rows
none_use key_id [] h = tt
none_use key_id (r ∷ rs) h = (ground (arith, h), none_use key_id rs (ground (arith, h)))

get_kek-remove_first :
    (key_id other : String) (entries : List KekEntry)
    → str_eq other key_id ≡ false
    → get_kek (remove_first key_id entries) other ≡ get_kek entries other
unfolding remove_first
get_kek-remove_first key_id other [] apart = refl
get_kek-remove_first key_id other (e ∷ es) apart = ground (
  arith,
  eq_iff other key_id,
  eq_iff e.key_id key_id,
  eq_iff e.key_id other,
  get_kek-remove_first key_id other es apart,
)

module _ (crypto : Crypto) where
  local_unwrap-get_kek :
      (entries others : List KekEntry) (key_id : String) (wrapped_dek : Bytes)
      → get_kek others key_id ≡ get_kek entries key_id
      → local_unwrap crypto others key_id wrapped_dek
        ≡ local_unwrap crypto entries key_id wrapped_dek
  unfolding local_unwrap
  local_unwrap-get_kek entries others key_id wrapped_dek same = rw (local_unwrap, same) refl

  decrypt-get_kek :
      (entries others : List KekEntry) (env : Envelope)
      → get_kek others env.key_id ≡ get_kek entries env.key_id
      → decrypt crypto (local_key_wrapper crypto others) env
        ≡ decrypt crypto (local_key_wrapper crypto entries) env
  unfolding decrypt local_key_wrapper
  decrypt-get_kek entries others env same =
      rw (local_unwrap-get_kek entries others env.key_id env.wrapped_dek same) refl

retire-remove_first :
    (entries others : List KekEntry) (key_id : String)
    → Keyring.retire entries key_id ≡ fine others
    → others ≡ remove_first key_id entries
unfolding Keyring.retire
retire-remove_first entries others key_id made = ground (arith, made)

with_kek-shared :
    {A : Type 0} (environment : Checked (List KekEntry)) (s : VaultAdmin) (a : ℕ)
    (f : VaultAdmin → ℕ → VaultAdmin × Checked A)
    → s.shared ≡ some a
    → with_kek environment s f ≡ f s a
unfolding with_kek
with_kek-shared {A} environment s a f held =
    let go : VaultAdmin × Checked ℕ → VaultAdmin × Checked A =
      λ r. elim r.1 [ failed e ↦ (r.0, failed e) | fine b ↦ f r.0 b ] in
    ap go (read_kek-shared environment s a held)

module _ (crypto : Crypto) (environment : Checked (List KekEntry)) where
  -- The credentials can be opened, or not, as before.
  abbrev pub SameReading : List KekEntry → List KekEntry → List CredentialRow → Type 0
  SameReading entries others rows =
      All
        (λ r.
          decrypt crypto (local_key_wrapper crypto others) r.envelope
          ≡ decrypt crypto (local_key_wrapper crypto entries) r.envelope)
        rows

  SameReading-refl :
      (entries : List KekEntry) (rows : List CredentialRow) → SameReading entries entries rows
  SameReading-refl entries [] = tt
  SameReading-refl entries (r ∷ rs) = (refl, SameReading-refl entries rs)

  remove_first-SameReading :
      (entries : List KekEntry) (key_id : String) (rows : List CredentialRow)
      → All (λ r. uses key_id r ≡ false) rows
      → SameReading entries (remove_first key_id entries) rows
  remove_first-SameReading entries key_id [] unused = tt
  remove_first-SameReading entries key_id (r ∷ rs) (apart, unused) = (
    decrypt-get_kek crypto entries (remove_first key_id entries) r.envelope
        (get_kek-remove_first key_id r.envelope.key_id entries apart),
    remove_first-SameReading entries key_id rs unused,
  )

  retire_at-SameReading :
      (s : VaultAdmin) (key_id : String) (remaining : ℕ) (force : Bool) (now : ℕ)
      (rows : List CredentialRow)
      → All (λ r. uses key_id r ≡ false) rows
      → SameReading
          (vault_keys s)
          (vault_keys (retire_at environment s s.vault key_id remaining force now).0)
          rows
  unfolding retire_at
  retire_at-SameReading s key_id remaining force now rows unused =
      elim (Checked-cases (Keyring.retire (vault_keys s) key_id)) [
        | inl (e, refused) ↦ rw (retire_at, refused) (SameReading-refl (vault_keys s) rows)
        | inr (others, made) ↦
            rw (retire_at, made)
              (subst (λ es. SameReading (vault_keys s) es rows)
                (ground (arith, retire-remove_first (vault_keys s) others key_id made))
                (remove_first-SameReading (vault_keys s) key_id rows unused))
      ]

  -- A request to retire a key without force, taken or refused, leaves what each row of the table
  -- gives when it is opened, where the vault reads the provider that the request acts on.
  pub retire-SameReading :
      (s : VaultAdmin) (creds : Credentials) (key_id : String) (now : ℕ)
      → s.shared ≡ some s.vault
      → SameReading
          (vault_keys s)
          (vault_keys (retire environment s creds key_id false now).0)
          creds.rows
  unfolding retire count_by_key_id
  retire-SameReading s creds key_id now aliased =
      let remaining = or_else (get key_id (count_by_key_id creds)) 0 in
      elim (Bool-cases (str_eq key_id "")) [
        | inl absent ↦ rw (retire, absent) (SameReading-refl (vault_keys s) creds.rows)
        | inr present ↦ elim (Bool-cases (ltb 0 remaining)) [
          | inl used ↦
              rw (retire, present) (rw (retire, used) (SameReading-refl (vault_keys s) creds.rows))
          | inr unused ↦
              rw (retire, present)
                (rw (retire, unused)
                  (rw (with_kek-shared environment s s.vault _ aliased) (
                    retire_at-SameReading s key_id remaining false now creds.rows (
                      none_use key_id creds.rows (
                        omega (
                          arith,
                          ltb→le 0 remaining unused,
                          count_rows-get key_id [] creds.rows,
                        ))))))
        ]
      ]

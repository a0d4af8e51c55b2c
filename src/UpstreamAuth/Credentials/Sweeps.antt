-- ===== src/UpstreamAuth/Credentials/Sweeps.antt =====
-- packages/upstream-auth/src/repo.ts and apps/server/src/vault-rewrap.service.ts: sweeps that move
-- every row to the primary key, and sweeps that get stuck.
use mathlib.Core.Path.{subst}
use mavio_mcp.Base.{
  ℕ, ◌≤◌, ◌<◌, String, true, false, Option, none, some, List, [], ◌∷◌, ◌≡◌, ◌≢◌, refl, sym, ◌∙◌,
  inl, inr, arith, Bool-cases, str_eq, ltb, ltb→lt, ltb→le, if◌then◌else◌, length, All,
}
use mavio_mcp.Base.Map.{get}
use Prim.Native.String.{◌++◌}
use mavio_mcp.Base.Text.{show}
use mavio_mcp.UpstreamAuth.Keyring.{Checked-cases, fine, failed}
use mavio_mcp.UpstreamAuth.Vault.{Crypto, Draws, KeyWrapper, decrypt, rewrap}
use mavio_mcp.UpstreamAuth.Vault.Faithful.{IsCrypto, IsDraws, IsWrapper, decrypt-rewrap}
use mavio_mcp.UpstreamAuth.Credentials.{
  CredentialRow, Credentials, count_by_key_id, is_stale, stale_rows, rewrap_row, rewrap_rows,
  rewrap_stale,
}
use mavio_mcp.UpstreamAuth.Credentials.Rows.{IsTable}
use mavio_mcp.UpstreamAuth.Credentials.Refinement.{
  view, rewrap_stale-Kept, rewrap_stale-rows, rewrap-fresh,
}
use mavio_mcp.UpstreamAuth.Credentials.Stale.{
  InTable, Opens, Opens-secrets, count_rows-none, fine_inj, first_stale, secrets-Opens, stale_count,
  stale_count-set_envelope, stale_count-set_envelope-le, str_ne_of,
}

-- `VaultRewrapService.sweep`, with what it writes to the console.
unfoldable pub sweep_service :
    Crypto → KeyWrapper → (ℕ → Draws) → Credentials → ℕ → ℕ → Credentials × Option String
sweep_service crypto wrapper random s batch now =
    let (s', result) = rewrap_stale crypto wrapper random s batch now in
    (
      s',
      elim result [
        | failed e ↦ some ("[vault-rewrap] sweep failed: " ++ e.message)
        | fine w ↦
            if ltb 0 w.scanned
            then some ("[vault-rewrap] rewrapped " ++ (show w.rewrapped ++ ("/" ++ show w.scanned)))
            else none
      ],
    )

-- The ticks of the service, at these times.
abbrev pub sweeps : Crypto → KeyWrapper → (ℕ → Draws) → ℕ → Credentials → List ℕ → Credentials
sweeps crypto wrapper random batch s [] = s
sweeps crypto wrapper random batch s (now ∷ times) =
    sweeps crypto wrapper random batch (sweep_service crypto wrapper random s batch now).0 times

module _ (crypto : Crypto) (honest : IsCrypto crypto) (wrapper : KeyWrapper)
    (faithful : IsWrapper wrapper) (random : ℕ → Draws) (sizes : (n : ℕ) → IsDraws (random n)) where
  rewrap_row-le :
      (primary_id : String) (s : Credentials) (r : CredentialRow) (now : ℕ)
      → wrapper.primary_key_id ≡ fine primary_id
      → stale_count primary_id (rewrap_row crypto wrapper random s r now).0.rows
        ≤ stale_count primary_id s.rows
  unfolding rewrap_row
  rewrap_row-le primary_id s r now known =
      elim (Checked-cases (rewrap crypto wrapper (random s.drawn) r.envelope)) [
        | inl (e, closed) ↦ rw (rewrap_row, closed) (omega arith)
        | inr (next, made) ↦ elim (Bool-cases (str_eq next.key_id r.envelope.key_id)) [
          | inl same ↦ rw (rewrap_row, made) (rw same (omega arith))
          | inr moved ↦
              rw (rewrap_row, made)
                (rw moved (
                  stale_count-set_envelope-le primary_id r.id now next s.rows (
                    fine_inj (
                      sym (
                        rewrap-fresh crypto honest wrapper faithful (random s.drawn) r.envelope next
                          (sizes s.drawn) made)
                      ∙ known))))
        ]
      ]

  rewrap_rows-le :
      (primary_id : String) (s : Credentials) (rows : List CredentialRow) (now : ℕ)
      → wrapper.primary_key_id ≡ fine primary_id
      → stale_count primary_id (rewrap_rows crypto wrapper random s rows now).0.rows
        ≤ stale_count primary_id s.rows
  unfolding rewrap_rows
  rewrap_rows-le primary_id s [] now known = omega arith
  rewrap_rows-le primary_id s (r ∷ rs) now known = omega (
    arith,
    rewrap_row-le primary_id s r now known,
    rewrap_rows-le primary_id (rewrap_row crypto wrapper random s r now).0 rs now known,
  )

  rewrap_row-lt :
      (primary_id : String) (s : Credentials) (r : CredentialRow) (now : ℕ)
      → wrapper.primary_key_id ≡ fine primary_id
      → is_stale primary_id r ≡ true
      → InTable primary_id s.rows r
      → Opens (decrypt crypto wrapper) r
      → stale_count primary_id (rewrap_row crypto wrapper random s r now).0.rows
        < stale_count primary_id s.rows
  unfolding rewrap_row
  rewrap_row-lt primary_id s r now known stale inside (body, opened) =
      let (next, made, _, fresh) =
        decrypt-rewrap crypto honest wrapper faithful (random s.drawn) r.envelope body
          (sizes s.drawn) opened in
      let key : next.key_id ≡ primary_id = fine_inj (sym fresh ∙ known) in
      let moved : str_eq next.key_id r.envelope.key_id ≡ false =
        str_ne_of next.key_id r.envelope.key_id primary_id key stale in
      rw (rewrap_row, made)
        (rw moved (stale_count-set_envelope primary_id r now next s.rows key inside))

  sweep-le :
      (primary_id : String) (s : Credentials) (limit now : ℕ)
      → wrapper.primary_key_id ≡ fine primary_id
      → stale_count primary_id (rewrap_stale crypto wrapper random s limit now).0.rows
        ≤ stale_count primary_id s.rows
  sweep-le primary_id s limit now known =
      rw (rewrap_stale-rows crypto wrapper random s limit now primary_id known)
        (rewrap_rows-le primary_id s (stale_rows primary_id limit s.rows) now known)

  sweep-lt :
      (primary_id : String) (s : Credentials) (limit now : ℕ)
      → wrapper.primary_key_id ≡ fine primary_id
      → 1 ≤ limit
      → 1 ≤ stale_count primary_id s.rows
      → All (Opens (decrypt crypto wrapper)) s.rows
      → stale_count primary_id (rewrap_stale crypto wrapper random s limit now).0.rows
        < stale_count primary_id s.rows
  unfolding rewrap_rows
  sweep-lt primary_id s limit now known positive work open_all =
      let (r, rs, rows, stale, inside, opens) =
        first_stale (Opens (decrypt crypto wrapper)) primary_id limit s.rows positive work
          open_all in
      let t = (rewrap_row crypto wrapper random s r now).0 in
      rw (rewrap_stale-rows crypto wrapper random s limit now primary_id known) (
        rw rows (
          omega (
            arith,
            rewrap_row-lt primary_id s r now known stale inside opens,
            rewrap_rows-le primary_id t rs now known,
          )))

  sweeps-clean :
      (primary_id : String) (s : Credentials) (batch : ℕ) (times : List ℕ)
      → wrapper.primary_key_id ≡ fine primary_id
      → 1 ≤ batch
      → IsTable s
      → All (Opens (decrypt crypto wrapper)) s.rows
      → stale_count primary_id s.rows ≤ length times
      → (stale_count primary_id (sweeps crypto wrapper random batch s times).rows ≡ 0)
        × (view crypto wrapper (sweeps crypto wrapper random batch s times) ≡ view crypto wrapper s)
  unfolding sweep_service
  sweeps-clean primary_id s batch [] known positive table opens enough =
      (omega (arith, enough), refl)
  sweeps-clean primary_id s batch (now ∷ times) known positive table opens enough =
      let t = (rewrap_stale crypto wrapper random s batch now).0 in
      let (same, table') =
        rewrap_stale-Kept crypto honest wrapper faithful random sizes s batch now table in
      let opens' = secrets-Opens (decrypt crypto wrapper) t.rows (
        subst (λ xs. All (λ x. (body : List ℕ) × (x.payload ≡ fine body)) xs) (sym same)
          (Opens-secrets (decrypt crypto wrapper) s.rows opens)) in
      let fewer : stale_count primary_id t.rows ≤ length times =
        elim (Bool-cases (ltb 0 (stale_count primary_id s.rows))) [
          | inl work ↦ omega (
            arith,
            enough,
            sweep-lt primary_id s batch now known positive (ltb→lt 0 _ work) opens,
          )
          | inr idle ↦ omega (arith, ltb→le 0 _ idle, sweep-le primary_id s batch now known)
        ] in
      let (clean, rest) =
        sweeps-clean primary_id t batch times known positive (table' table) opens' fewer in
      (clean, rest ∙ same)

  -- Sweeps come to an end of their work: from a table whose every row can be opened, after as many
  -- ticks with a positive batch as rows are under other keys, `countByKeyId` counts no key but
  -- the primary one, and the table holds the secrets that it held.
  pub sweeps_complete :
      (primary_id : String) (s : Credentials) (batch : ℕ) (times : List ℕ)
      → wrapper.primary_key_id ≡ fine primary_id
      → 1 ≤ batch
      → IsTable s
      → All (Opens (decrypt crypto wrapper)) s.rows
      → stale_count primary_id s.rows ≤ length times
      → ((key_id : String)
          → key_id ≢ primary_id
          → get key_id (count_by_key_id (sweeps crypto wrapper random batch s times)) ≡ none)
        × (view crypto wrapper (sweeps crypto wrapper random batch s times) ≡ view crypto wrapper s)
  unfolding count_by_key_id
  sweeps_complete primary_id s batch times known positive table opens enough =
      let (clean, same) = sweeps-clean primary_id s batch times known positive table opens enough in
      (
        λ key_id other.
            count_rows-none primary_id key_id [] (sweeps crypto wrapper random batch s times).rows
              other clean refl,
        same,
      )

-- ===== src/UpstreamAuth/Credentials/Stuck.antt =====
-- packages/upstream-auth/src/repo.ts: `rewrapStale` takes the rows that were touched the longest
-- time ago, and skips those that it cannot open without touching them.
use mathlib.Core.Path.{subst}
use mavio_mcp.Base.{
  ℕ, String, List, [], ◌∷◌, ◌≡◌, refl, sym, ap, ◌∙◌, true, arith, keep, All, All-take,
  All-keep_cons,
}
use mavio_mcp.Base.Sort.{All-sort_by}
use mavio_mcp.UpstreamAuth.Keyring.{MavioError, fine, failed}
use mavio_mcp.UpstreamAuth.Vault.{Crypto, Draws, KeyWrapper, decrypt}
use mavio_mcp.UpstreamAuth.Credentials.{
  CredentialRow, Credentials, drew, is_stale, stale_rows, rewrap_row, rewrap_rows, rewrap_stale,
}
use mavio_mcp.UpstreamAuth.Credentials.Refinement.{rewrap-closed, rewrap_stale-rows}
use mavio_mcp.UpstreamAuth.Credentials.Sweeps.{sweep_service, sweeps}
use mavio_mcp.Base.{All-zip}

module _ (crypto : Crypto) (wrapper : KeyWrapper) (random : ℕ → Draws) where
  -- The row is under the key of an entry that was retired, or damaged.
  abbrev pub Closed : CredentialRow → Type 0
  Closed r = (e : MavioError) × (decrypt crypto wrapper r.envelope ≡ failed e)

  rewrap_rows-stuck :
      (primary_id : String) (s : Credentials) (rows : List CredentialRow) (now : ℕ)
      → wrapper.primary_key_id ≡ fine primary_id
      → All (λ r. (is_stale primary_id r ≡ true) × Closed r) rows
      → ((rewrap_rows crypto wrapper random s rows now).0.rows ≡ s.rows)
        × ((rewrap_rows crypto wrapper random s rows now).1 ≡ 0)
  unfolding rewrap_rows rewrap_row
  rewrap_rows-stuck primary_id s [] now known h = (refl, refl)
  rewrap_rows-stuck primary_id s (r ∷ rs) now known ((stale, (e, closed)), h) =
      rw
        (
          rewrap_row,
          rewrap-closed crypto wrapper (random s.drawn) r.envelope primary_id e known
              (ground (arith, stale)) closed,
        )
        (let (same, none_done) = rewrap_rows-stuck primary_id (drew s) rs now known h in
          (same, omega (arith, none_done)))

  stale_rows-stale :
      (primary_id : String) (limit : ℕ) (rows : List CredentialRow)
      → All (λ r. is_stale primary_id r ≡ true) (stale_rows primary_id limit rows)
  stale_rows-stale primary_id limit rows = All-take _ limit _ (All-sort_by _ _ _ (stale_all rows))
    where
      stale_all :
          (rows : List CredentialRow)
          → All (λ r. is_stale primary_id r ≡ true) (keep (is_stale primary_id) rows)
      stale_all [] = tt
      stale_all (r ∷ rs) =
          All-keep_cons (λ q. is_stale primary_id q ≡ true) (is_stale primary_id) r rs (λ h. h)
            (stale_all rs)

  -- Where none of the rows that a sweep takes can be opened, no tick of the service rewraps a row,
  -- ever: the rows that it would take next stay behind those, although they can be opened.
  pub sweeps-stuck :
      (primary_id : String) (s : Credentials) (batch : ℕ) (times : List ℕ)
      → wrapper.primary_key_id ≡ fine primary_id
      → All Closed (stale_rows primary_id batch s.rows)
      → (sweeps crypto wrapper random batch s times).rows ≡ s.rows
  unfolding sweep_service
  sweeps-stuck primary_id s batch [] known closed = refl
  sweeps-stuck primary_id s batch (now ∷ times) known closed =
      let t = (rewrap_stale crypto wrapper random s batch now).0 in
      let same : t.rows ≡ s.rows =
        ap (λ u. u.rows) (rewrap_stale-rows crypto wrapper random s batch now primary_id known)
        ∙ (rewrap_rows-stuck primary_id s (stale_rows primary_id batch s.rows) now known (
            All-zip (λ r. is_stale primary_id r ≡ true) Closed _
              (stale_rows-stale primary_id batch s.rows) closed)).0 in
      sweeps-stuck primary_id t batch times known
        (subst (λ rows. All Closed (stale_rows primary_id batch rows)) (sym same) closed)
      ∙ same

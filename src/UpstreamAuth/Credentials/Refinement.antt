-- ===== src/UpstreamAuth/Credentials/Refinement.antt =====
-- packages/upstream-auth/src/repo.ts: the repository implements a store of secrets in which the
-- keys of the vault, and the rewrapping of rows, cannot be seen.
use mathlib.Core.Path.{subst}
use mavio_mcp.Base.{
  ℕ, ◌<◌, String, true, false, not, some, List, [], ◌∷◌, ◌≡◌, refl, sym, ap, ◌∙◌, inl, inr, eq_iff,
  Bool-cases, Option-cases, str_eq, ltb, find, map, All, All-map, All-take, All-keep, All-find,
}
use mavio_mcp.Base.Sort.{All-sort_by}
use mavio_mcp.UpstreamAuth.Credentials.Secrets.{
  Secret, Command, put_token, revoke_token, sweep, rewrap_one, spec_step, spec_run, secret_of,
  secrets-set_envelope, secrets-upsert, secrets-keep, upsert-IsTable, set_envelope-IsTable,
}
use mavio_mcp.UpstreamAuth.Keyring.{MavioError, Checked-cases, fine, failed}
use mavio_mcp.UpstreamAuth.Vault.{Crypto, Draws, KeyWrapper, Envelope, encrypt, decrypt, rewrap}
use mavio_mcp.UpstreamAuth.Vault.Faithful.{
  IsCrypto, IsDraws, IsWrapper, decrypt-encrypt, decrypt-rewrap,
}
use mavio_mcp.UpstreamAuth.Credentials.Rows.{
  IsTable, Agree, Agree-self, Agree-set_envelope, keep-DistinctIds,
}
use mavio_mcp.UpstreamAuth.Credentials.{
  Encoding, CredentialRow, UpstreamTokenInput, Credentials, owns, drew, payload_of, revoke,
  stale_rows, is_stale, put, rewrap_row, rewrap_rows, rewrap_stale, rewrap_token,
}

abbrev pub view : Crypto → KeyWrapper → Credentials → List Secret
view crypto wrapper s = map (secret_of (decrypt crypto wrapper)) s.rows

module _ (crypto : Crypto) (wrapper : KeyWrapper) where
  rewrap-current :
      (draws : Draws) (env : Envelope) (primary_id : String)
      → wrapper.primary_key_id ≡ fine primary_id
      → str_eq env.key_id primary_id ≡ true
      → rewrap crypto wrapper draws env ≡ fine env
  unfolding rewrap
  rewrap-current draws env primary_id known same = rw known (rw same refl)

  pub rewrap-closed :
      (draws : Draws) (env : Envelope) (primary_id : String) (e : MavioError)
      → wrapper.primary_key_id ≡ fine primary_id
      → str_eq env.key_id primary_id ≡ false
      → decrypt crypto wrapper env ≡ failed e
      → rewrap crypto wrapper draws env ≡ failed e
  unfolding rewrap decrypt encrypt
  rewrap-closed draws env primary_id e known stale closed = rw known (rw stale (rw closed refl))

  pub rewrap_stale-rows :
      (random : ℕ → Draws) (s : Credentials) (limit now : ℕ) (primary_id : String)
      → wrapper.primary_key_id ≡ fine primary_id
      → (rewrap_stale crypto wrapper random s limit now).0
        ≡ (rewrap_rows crypto wrapper random s (stale_rows primary_id limit s.rows) now).0
  unfolding rewrap_stale
  rewrap_stale-rows random s limit now primary_id known = simp (rewrap_stale, known)

module _ (crypto : Crypto) (honest : IsCrypto crypto) (wrapper : KeyWrapper)
    (faithful : IsWrapper wrapper) where
  -- What is wrapped again hides what it hid, also where it cannot be opened.
  pub rewrap-hidden :
      (draws : Draws) (env next : Envelope)
      → IsDraws draws
      → rewrap crypto wrapper draws env ≡ fine next
      → decrypt crypto wrapper next ≡ decrypt crypto wrapper env
  unfolding rewrap
  rewrap-hidden draws env next drawn made = elim (Checked-cases (decrypt crypto wrapper env)) [
    | inr (body, opened) ↦
        let (next', made', opens, _) =
          decrypt-rewrap crypto honest wrapper faithful draws env body drawn opened in
        cc (made, made', opens, opened)
    | inl (e, closed) ↦
        let (w, _, _, primary_id) = faithful.unwraps draws drawn in
        elim (Bool-cases (str_eq env.key_id w.key_id)) [
          | inl same ↦ cc (rewrap-current crypto wrapper draws env w.key_id primary_id same, made)
          | inr stale ↦
              absurd (
                cc
                  (rewrap-closed crypto wrapper draws env w.key_id e primary_id stale closed, made))
        ]
  ]

  -- What is wrapped again is under the primary key.
  pub rewrap-fresh :
      (draws : Draws) (env next : Envelope)
      → IsDraws draws
      → rewrap crypto wrapper draws env ≡ fine next
      → wrapper.primary_key_id ≡ fine next.key_id
  unfolding rewrap
  rewrap-fresh draws env next drawn made = elim (Checked-cases (decrypt crypto wrapper env)) [
    | inr (body, opened) ↦
        let (next', made', _, primary_id) =
          decrypt-rewrap crypto honest wrapper faithful draws env body drawn opened in
        cc (made, made', primary_id)
    | inl (e, closed) ↦
        let (w, _, _, primary_id) = faithful.unwraps draws drawn in
        elim (Bool-cases (str_eq env.key_id w.key_id)) [
          | inl same ↦ cc (
            rewrap-current crypto wrapper draws env w.key_id primary_id same,
            made,
            primary_id,
            (eq_iff env.key_id w.key_id).0 same,
          )
          | inr stale ↦
              absurd (
                cc
                  (rewrap-closed crypto wrapper draws env w.key_id e primary_id stale closed, made))
        ]
  ]

  module _ (random : ℕ → Draws) (sizes : (n : ℕ) → IsDraws (random n)) where
    -- The table shows the same secrets, and stays a table.
    abbrev Kept : Credentials → Credentials → Type 0
    Kept s t = (view crypto wrapper t ≡ view crypto wrapper s) × (IsTable s → IsTable t)

    pub rewrap_row-Kept :
        (s : Credentials) (r : CredentialRow) (now : ℕ)
        → Agree (decrypt crypto wrapper) r s.rows
        → Kept s (rewrap_row crypto wrapper random s r now).0
    unfolding rewrap_row
    rewrap_row-Kept s r now agree =
        elim (Checked-cases (rewrap crypto wrapper (random s.drawn) r.envelope)) [
          | inl (e, closed) ↦
              rw (rewrap_row, closed) (refl, λ h. record { distinct = h.distinct; below = h.below })
          | inr (next, made) ↦ elim (Bool-cases (str_eq next.key_id r.envelope.key_id)) [
            | inl same ↦
                rw (rewrap_row, made)
                  (rw same (refl, λ h. record { distinct = h.distinct; below = h.below }))
            | inr moved ↦
                rw (rewrap_row, made)
                  (rw moved (
                    secrets-set_envelope (decrypt crypto wrapper) r next now s.rows
                        (rewrap-hidden (random s.drawn) r.envelope next (sizes s.drawn) made) agree,
                    λ h.
                        set_envelope-IsTable (drew s) r.id next now
                          (record { distinct = h.distinct; below = h.below }),
                  ))
          ]
        ]

    rewrap_row-Agree :
        (s : Credentials) (r other : CredentialRow) (now : ℕ)
        → Agree (decrypt crypto wrapper) r s.rows
        → Agree (decrypt crypto wrapper) other s.rows
        → Agree (decrypt crypto wrapper) other (rewrap_row crypto wrapper random s r now).0.rows
    unfolding rewrap_row
    rewrap_row-Agree s r other now agree agrees =
        elim (Checked-cases (rewrap crypto wrapper (random s.drawn) r.envelope)) [
          | inl (e, closed) ↦ rw (rewrap_row, closed) agrees
          | inr (next, made) ↦ elim (Bool-cases (str_eq next.key_id r.envelope.key_id)) [
            | inl same ↦ rw (rewrap_row, made) (rw same agrees)
            | inr moved ↦
                rw (rewrap_row, made)
                  (rw moved (
                    Agree-set_envelope (decrypt crypto wrapper) r other next now s.rows
                      (rewrap-hidden (random s.drawn) r.envelope next (sizes s.drawn) made) agree
                      agrees))
          ]
        ]

    rewrap_rows-Kept :
        (s : Credentials) (rows : List CredentialRow) (now : ℕ)
        → All (λ r. Agree (decrypt crypto wrapper) r s.rows) rows
        → Kept s (rewrap_rows crypto wrapper random s rows now).0
    unfolding rewrap_rows
    rewrap_rows-Kept s [] now h = (refl, λ k. k)
    rewrap_rows-Kept s (r ∷ rs) now (agree, h) =
        let s' = (rewrap_row crypto wrapper random s r now).0 in
        let (same, table) = rewrap_row-Kept s r now agree in
        let (rest, table') = rewrap_rows-Kept s' rs now (
          All-map (λ o. Agree (decrypt crypto wrapper) o s.rows)
            (λ o. Agree (decrypt crypto wrapper) o s'.rows)
            (λ o agrees. rewrap_row-Agree s r o now agree agrees) rs h) in
        (rest ∙ same, λ k. table' (table k))

    pub rewrap_stale-Kept :
        (s : Credentials) (limit now : ℕ)
        → IsTable s
        → Kept s (rewrap_stale crypto wrapper random s limit now).0
    rewrap_stale-Kept s limit now h =
        let (w, _, _, primary_id) = faithful.unwraps (random 0) (sizes 0) in
        subst (Kept s)
          (sym (rewrap_stale-rows crypto wrapper random s limit now w.key_id primary_id))
          (rewrap_rows-Kept s (stale_rows w.key_id limit s.rows) now (
            All-take _ limit _ (
              All-sort_by _ (λ a b. ltb a.updated_at b.updated_at) _
                (All-keep _ (is_stale w.key_id) s.rows
                  (Agree-self (decrypt crypto wrapper) s.rows h.distinct)))))

    rewrap_token-row :
        (s : Credentials) (p q : String) (now : ℕ) (r : CredentialRow)
        → find (owns p q) s.rows ≡ some r
        → (rewrap_token crypto wrapper random s p q now).0
          ≡ (rewrap_row crypto wrapper random s r now).0
    unfolding rewrap_token rewrap_row
    rewrap_token-row s p q now r found =
        elim (Checked-cases (rewrap crypto wrapper (random s.drawn) r.envelope)) [
          | inl (e, closed) ↦ simp (rewrap_token, rewrap_row, found, closed)
          | inr (next, made) ↦ elim (Bool-cases (str_eq next.key_id r.envelope.key_id)) [
            | inl same ↦ simp (rewrap_token, rewrap_row, found, made, same)
            | inr moved ↦ simp (rewrap_token, rewrap_row, found, made, moved)
          ]
        ]

    rewrap_token-Kept :
        (s : Credentials) (p q : String) (now : ℕ)
        → IsTable s
        → Kept s (rewrap_token crypto wrapper random s p q now).0
    unfolding rewrap_token
    rewrap_token-Kept s p q now h = elim (Option-cases (find (owns p q) s.rows)) [
      | inl missing ↦ rw (rewrap_token, missing) (refl, λ k. k)
      | inr (r, found) ↦ subst (Kept s) (sym (rewrap_token-row s p q now r found)) (
          rewrap_row-Kept s r now (
            All-find (λ o. Agree (decrypt crypto wrapper) o s.rows) (owns p q) s.rows r found
              (Agree-self (decrypt crypto wrapper) s.rows h.distinct)))
    ]

  module _ (encoding : Encoding) (random : ℕ → Draws) (sizes : (n : ℕ) → IsDraws (random n)) where
    put-view :
        (s : Credentials) (input : UpstreamTokenInput) (now : ℕ)
        → (view crypto wrapper (put crypto wrapper encoding random s input now).0
            ≡ spec_step encoding.to_bytes (view crypto wrapper s) (put_token input now))
          × (IsTable s → IsTable (put crypto wrapper encoding random s input now).0)
    unfolding put
    put-view s input now =
        let (env, made, opens, _) =
          decrypt-encrypt crypto honest wrapper faithful (random s.drawn)
            (encoding.to_bytes (payload_of input.access_token input.refresh_token))
            (sizes s.drawn) in
        rw (put, made)
          (
            secrets-upsert (decrypt crypto wrapper) (drew s) input env now _ opens,
            λ h.
                upsert-IsTable (drew s) input env now
                  (record { distinct = h.distinct; below = h.below }),
          )

    revoke-view :
        (s : Credentials) (p q : String)
        → (view crypto wrapper (revoke s p q).0
            ≡ spec_step encoding.to_bytes (view crypto wrapper s) (revoke_token p q))
          × (IsTable s → IsTable (revoke s p q).0)
    unfolding revoke
    revoke-view s p q = (
      secrets-keep (decrypt crypto wrapper) p q s.rows,
      λ h. record {
        distinct = keep-DistinctIds (λ r. not (owns p q r)) s.rows h.distinct;
        below = All-keep (λ r. r.id < s.next_id) (λ r. not (owns p q r)) s.rows h.below;
      },
    )

    -- One command of the repository.
    abbrev pub step : Credentials → Command → Credentials
    step s (put_token input now) = (put crypto wrapper encoding random s input now).0
    step s (revoke_token p q) = (revoke s p q).0
    step s (sweep limit now) = (rewrap_stale crypto wrapper random s limit now).0
    step s (rewrap_one p q now) = (rewrap_token crypto wrapper random s p q now).0

    abbrev pub run : Credentials → List Command → Credentials
    run s [] = s
    run s (c ∷ cs) = run (step s c) cs

    step-refines :
        (s : Credentials) (c : Command)
        → IsTable s
        → (view crypto wrapper (step s c) ≡ spec_step encoding.to_bytes (view crypto wrapper s) c)
          × IsTable (step s c)
    step-refines s (put_token input now) h =
        let (same, table) = put-view s input now in (same, table h)
    step-refines s (revoke_token p q) h = let (same, table) = revoke-view s p q in (same, table h)
    step-refines s (sweep limit now) h =
        let (same, table) = rewrap_stale-Kept random sizes s limit now h in (same, table h)
    step-refines s (rewrap_one p q now) h =
        let (same, table) = rewrap_token-Kept random sizes s p q now h in (same, table h)

    -- After any commands, all under one wrapper that keeps its promise, as the ciphers do, the table
    -- holds the secrets that the store without keys holds, in its order, and is a table with
    -- distinct ids. The commands store and revoke tokens and rewrap rows, one or a sweep of them.
    pub run-refines :
        (s : Credentials) (cs : List Command)
        → IsTable s
        → (view crypto wrapper (run s cs) ≡ spec_run encoding.to_bytes (view crypto wrapper s) cs)
          × IsTable (run s cs)
    run-refines s [] h = (refl, h)
    run-refines s (c ∷ cs) h =
        let (same, table) = step-refines s c h in
        let (rest, table') = run-refines (step s c) cs table in
        (rest ∙ ap (λ xs. spec_run encoding.to_bytes xs cs) same, table')

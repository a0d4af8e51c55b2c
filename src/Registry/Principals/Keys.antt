-- ===== src/Registry/Principals/Keys.antt =====
-- packages/registry/src/rbac-repo.ts: which key finds which principal.
use mathlib.Core.Path.{subst}
use mavio_mcp.Base.{
  String, Bool, true, false, Option, none, some, List, [], ◌∷◌, ◌≡◌, ◌≢◌, refl, ap, ◌∙◌, inl, inr,
  arith, eq_iff, Bool-cases, Option-cases, any, find, str_eq, if◌then◌else◌,
}
use mavio_mcp.Registry.Principals.{
  PrincipalRow, RbacTables, RegisteredPrincipal, IssuedApiKey, Reply, resolved, to_principal,
  principal_or_null, has_id, has_hash, set_hash, clashes, find_by_id, find_by_api_key,
  issue_api_key,
}

-- No two rows have one id or one hash.
abbrev pub IsTable : List PrincipalRow → Type 0
IsTable [] = Unit
IsTable (row ∷ rows) =
    (any (has_id row.id) rows ≡ false)
    × ((hash : String) → has_hash hash row ≡ true → any (has_hash hash) rows ≡ false)
    × IsTable rows

-- The row, unless it is the one with the id.
abbrev pub but_for : String → Option PrincipalRow → Option PrincipalRow
but_for id none = none
but_for id (some row) = if has_id id row then none else some row

abbrev keyed : String → Option PrincipalRow → Option PrincipalRow
keyed hash none = none
keyed hash (some row) = some (record row { api_key_hash = some hash })

find-none :
    (p : PrincipalRow → Bool) (rows : List PrincipalRow) → any p rows ≡ false → find p rows ≡ none
find-none p [] e = refl
find-none p (row ∷ rows) e = ground (arith, e, find-none p rows)

-- Where no row has the id, nothing is written and no row that is found has it.
pub set_hash-absent :
    (id hash : String) (rows : List PrincipalRow)
    → any (has_id id) rows ≡ false
    → set_hash id hash rows ≡ rows
set_hash-absent id hash [] e = refl
set_hash-absent id hash (row ∷ rows) e = ground (arith, e, set_hash-absent id hash rows)

but_for-absent :
    (id : String) (p : PrincipalRow → Bool) (rows : List PrincipalRow)
    → any (has_id id) rows ≡ false
    → but_for id (find p rows) ≡ find p rows
but_for-absent id p [] e = refl
but_for-absent id p (row ∷ rows) e = ground (arith, e, but_for-absent id p rows)

-- After the update, the hash finds the row with the id, and another one what it found, if that is
-- another row.
find-set_hash-same :
    (id hash : String) (rows : List PrincipalRow)
    → clashes id hash rows ≡ false
    → find (has_hash hash) (set_hash id hash rows) ≡ keyed hash (find (has_id id) rows)
find-set_hash-same id hash [] e = refl
find-set_hash-same id hash (row ∷ rows) e =
    ground (arith, e, eq_iff hash hash, find-set_hash-same id hash rows)

find-set_hash-other :
    (id hash other : String) (rows : List PrincipalRow)
    → IsTable rows
    → hash ≢ other
    → find (has_hash other) (set_hash id hash rows) ≡ but_for id (find (has_hash other) rows)
find-set_hash-other id hash other [] t e = refl
find-set_hash-other id hash other (row ∷ rows) (ids, hashes, t) e =
    elim (Bool-cases (has_id id row)) [
      | inl same ↦
          let absent = subst (λ i. any (has_id i) rows ≡ false) ((eq_iff row.id id).0 same) ids in
          let unchanged = set_hash-absent id hash rows absent in
          let apart = but_for-absent id (has_hash other) rows absent in
          elim (Bool-cases (has_hash other row)) [
            | inl held ↦
                let gone = find-none (has_hash other) rows (hashes other held) in
                ground (arith, same, unchanged, held, gone, e, eq_iff hash other)
            | inr free ↦ ground (arith, same, unchanged, free, apart, e, eq_iff hash other)
          ]
      | inr differs ↦ ground (arith, differs, find-set_hash-other id hash other rows t e)
    ]

abbrev pub named : String → Option RegisteredPrincipal → Option RegisteredPrincipal
named id none = none
named id (some p) = if str_eq p.id id then none else some p

module _ (sha256 : String → String) (injective : (k l : String) → sha256 k ≡ sha256 l → k ≡ l) where
  or_null-but_for :
      (id : String) (found : Option PrincipalRow)
      → principal_or_null (but_for id found) ≡ named id (principal_or_null found)
  or_null-but_for id none = refl
  or_null-but_for id (some row) = ground arith

  abbrev principal_or : RegisteredPrincipal → Reply IssuedApiKey → RegisteredPrincipal
  principal_or p (resolved issued) = issued.principal
  principal_or p _ = p

  -- What a key finds once another key is issued to `id`, of which `holder` was told.
  abbrev After : RbacTables → String → String → RbacTables × Reply IssuedApiKey → Type 0
  After t id key r =
      (issued : IssuedApiKey)
      → r.1 ≡ resolved issued
      → (find_by_id t id ≡ some issued.principal)
        × (find_by_api_key sha256 r.0 key ≡ some issued.principal)
        × ((other : String)
            → key ≢ other
            → find_by_api_key sha256 r.0 other ≡ named id (find_by_api_key sha256 t other))

  issue_api_key-After :
      (t : RbacTables) (id key : String)
      → IsTable t.principals
      → After t id key (issue_api_key sha256 t id key)
  unfolding issue_api_key find_by_id find_by_api_key
  issue_api_key-After t id key table = elim (Option-cases (find (has_id id) t.principals)) [
    | inl absent ↦ rw (issue_api_key, absent) (λ issued e. absurd (cc e))
    | inr (row, found) ↦ elim (Bool-cases (clashes id (sha256 key) t.principals)) [
      | inl taken ↦ rw (issue_api_key, found) (rw taken (λ issued e. absurd (cc e)))
      | inr free ↦
          rw (issue_api_key, found)
            (rw free (λ issued e.
              let same = ap (principal_or (to_principal row)) e in
              (
                ap some same,
                ap principal_or_null (
                      find-set_hash-same id (sha256 key) t.principals free
                      ∙ ap (keyed (sha256 key)) found)
                    ∙ ap some same,
                λ other apart.
                    ap principal_or_null (
                      find-set_hash-other id (sha256 key) (sha256 other) t.principals table
                        (λ equal. apart (injective key other equal)))
                    ∙ or_null-but_for id (find (has_hash (sha256 other)) t.principals),
              )))
    ]
  ]

  -- A key that is issued finds its principal, and from then on the key that it had before finds
  -- nobody; the other keys find whom they found. This holds where no two rows have one id or one
  -- hash, and the digest is injective.
  pub find_by_api_key-issue_api_key :
      (t : RbacTables) (id key : String) (issued : IssuedApiKey) (other : String)
      → IsTable t.principals
      → (issue_api_key sha256 t id key).1 ≡ resolved issued
      → key ≢ other
      → (find_by_id t id ≡ some issued.principal)
        × (find_by_api_key sha256 (issue_api_key sha256 t id key).0 key ≡ some issued.principal)
        × (find_by_api_key sha256 (issue_api_key sha256 t id key).0 other
            ≡ named id (find_by_api_key sha256 t other))
  find_by_api_key-issue_api_key t id key issued other table e apart =
      let (known, found, others) = issue_api_key-After t id key table issued e in
      (known, found, others other apart)

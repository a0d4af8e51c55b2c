-- ===== src/Registry/Principals/Tables.antt =====
-- packages/registry/src/rbac-repo.ts: the statements keep ids and key hashes apart.
use mathlib.Core.Path.{subst}
use mavio_mcp.Base.{
  String, Bool, false, none, List, [], ◌∷◌, ◌++◌, ◌≡◌, ◌≢◌, refl, sym, ◌∙◌, inl, inr, arith, eq_iff,
  Bool-cases, Option-cases, any, find,
}
use mavio_mcp.Registry.Principals.{
  PrincipalRow, RbacTables, RegisteredPrincipal, has_id, has_hash, set_hash, clashes, issue_api_key,
  new_principal_row, create_principal, ensure_principal,
}
use mavio_mcp.Registry.Principals.Keys.{IsTable, set_hash-absent}

-- The statements that write principals.
pub data Statement : Type 0 where
  creates : RegisteredPrincipal → Statement
  ensures : RegisteredPrincipal → Statement
  issues : String → String → Statement

module _ (sha256 : String → String) where
  unfoldable pub perform : RbacTables → Statement → RbacTables
  unfolding create_principal ensure_principal issue_api_key
  perform t (creates p) = (create_principal t p).0
  perform t (ensures p) = (ensure_principal t p).0
  perform t (issues id key) = (issue_api_key sha256 t id key).0

  unfoldable pub perform_all : RbacTables → List Statement → RbacTables
  unfolding perform
  perform_all t [] = t
  perform_all t (s ∷ ss) = perform_all (perform t s) ss

find-absent :
    (p : PrincipalRow → Bool) (rows : List PrincipalRow) → find p rows ≡ none → any p rows ≡ false
find-absent p [] e = refl
find-absent p (row ∷ rows) e = elim (Bool-cases (p row)) [
  | inl here ↦ absurd (ground (arith, here, e))
  | inr elsewhere ↦ ground (arith, elsewhere, e, find-absent p rows)
]

any-snoc :
    (p : PrincipalRow → Bool) (rows : List PrincipalRow) (row : PrincipalRow)
    → any p rows ≡ false
    → p row ≡ false
    → any p (rows ++ (row ∷ [])) ≡ false
any-snoc p [] row e f = ground (arith, f)
any-snoc p (r ∷ rows) row e f = ground (arith, e, f, any-snoc p rows row)

-- A row without key and with a new id may be inserted.
insert-IsTable :
    (rows : List PrincipalRow) (p : RegisteredPrincipal)
    → any (has_id p.id) rows ≡ false
    → IsTable rows
    → IsTable (rows ++ (new_principal_row p ∷ []))
insert-IsTable [] p e t = (refl, λ hash h. refl, tt)
insert-IsTable (row ∷ rows) p e (ids, hashes, t) = (
  any-snoc (has_id row.id) rows (new_principal_row p) ids
      (ground (arith, e, eq_iff row.id p.id, eq_iff p.id row.id)),
  λ hash h. any-snoc (has_hash hash) rows (new_principal_row p) (hashes hash h) refl,
  insert-IsTable rows p (ground (arith, e)) t,
)

any_id-set_hash :
    (i id hash : String) (rows : List PrincipalRow)
    → any (has_id i) (set_hash id hash rows) ≡ any (has_id i) rows
any_id-set_hash i id hash [] = refl
any_id-set_hash i id hash (row ∷ rows) = ground (arith, any_id-set_hash i id hash rows)

any_hash-set_hash :
    (other id hash : String) (rows : List PrincipalRow)
    → hash ≢ other
    → any (has_hash other) rows ≡ false
    → any (has_hash other) (set_hash id hash rows) ≡ false
any_hash-set_hash other id hash [] ne e = refl
any_hash-set_hash other id hash (row ∷ rows) ne e =
    ground (arith, ne, e, eq_iff hash other, any_hash-set_hash other id hash rows)

clashes-any :
    (id hash : String) (rows : List PrincipalRow)
    → any (has_id id) rows ≡ false
    → clashes id hash rows ≡ false
    → any (has_hash hash) rows ≡ false
clashes-any id hash [] e c = refl
clashes-any id hash (row ∷ rows) e c = ground (arith, e, c, clashes-any id hash rows)

set_hash-IsTable :
    (id hash : String) (rows : List PrincipalRow)
    → clashes id hash rows ≡ false
    → IsTable rows
    → IsTable (set_hash id hash rows)
set_hash-IsTable id hash [] c t = tt
set_hash-IsTable id hash (row ∷ rows) c (ids, hashes, t) = elim (Bool-cases (has_id id row)) [
  | inl same ↦
      let absent = subst (λ i. any (has_id i) rows ≡ false) ((eq_iff row.id id).0 same) ids in
      let unchanged = set_hash-absent id hash rows absent in
      let free = clashes-any id hash rows absent (ground (arith, same, c)) in
      rw same (
        rw unchanged (
          ids,
          λ h held. subst (λ x. any (has_hash x) rows ≡ false) ((eq_iff hash h).0 held) free,
          t,
        ))
  | inr differs ↦
      let apart : has_hash hash row ≡ false = ground (arith, differs, c) in
      rw differs (
        any_id-set_hash row.id id hash rows ∙ ids,
        λ h held.
            any_hash-set_hash h id hash rows
              (λ same. absurd (cc (sym (subst (λ x. has_hash x row ≡ false) same apart) ∙ held)))
              (hashes h held),
        set_hash-IsTable id hash rows (ground (arith, differs, c)) t,
      )
]

module _ (sha256 : String → String) where
  create_principal-IsTable :
      (t : RbacTables) (p : RegisteredPrincipal)
      → IsTable t.principals
      → IsTable (create_principal t p).0.principals
  unfolding create_principal
  create_principal-IsTable t p h = elim (Option-cases (find (has_id p.id) t.principals)) [
    | inl absent ↦
        rw (create_principal, absent)
          (insert-IsTable t.principals p (find-absent (has_id p.id) t.principals absent) h)
    | inr (row, found) ↦ rw (create_principal, found) h
  ]

  ensure_principal-IsTable :
      (t : RbacTables) (p : RegisteredPrincipal)
      → IsTable t.principals
      → IsTable (ensure_principal t p).0.principals
  unfolding ensure_principal
  ensure_principal-IsTable t p h = elim (Option-cases (find (has_id p.id) t.principals)) [
    | inl absent ↦
        rw (ensure_principal, absent)
          (insert-IsTable t.principals p (find-absent (has_id p.id) t.principals absent) h)
    | inr (row, found) ↦ rw (ensure_principal, found) h
  ]

  issue_api_key-IsTable :
      (t : RbacTables) (id key : String)
      → IsTable t.principals
      → IsTable (issue_api_key sha256 t id key).0.principals
  unfolding issue_api_key
  issue_api_key-IsTable t id key h = elim (Option-cases (find (has_id id) t.principals)) [
    | inl absent ↦ rw (issue_api_key, absent) h
    | inr (row, found) ↦ elim (Bool-cases (clashes id (sha256 key) t.principals)) [
      | inl taken ↦ rw (issue_api_key, found) (rw taken h)
      | inr free ↦
          rw (issue_api_key, found) (rw free (set_hash-IsTable id (sha256 key) t.principals free h))
    ]
  ]

  perform-IsTable :
      (t : RbacTables) (s : Statement)
      → IsTable t.principals
      → IsTable (perform sha256 t s).principals
  unfolding perform
  perform-IsTable t (creates p) h = create_principal-IsTable t p h
  perform-IsTable t (ensures p) h = ensure_principal-IsTable t p h
  perform-IsTable t (issues id key) h = issue_api_key-IsTable t id key h

  -- However principals are created and keys issued, no two rows of the table have one id or one
  -- key hash.
  pub perform_all-IsTable :
      (t : RbacTables) (ss : List Statement)
      → IsTable t.principals
      → IsTable (perform_all sha256 t ss).principals
  unfolding perform_all
  perform_all-IsTable t [] h = h
  perform_all-IsTable t (s ∷ ss) h =
      perform_all-IsTable (perform sha256 t s) ss (perform-IsTable t s h)

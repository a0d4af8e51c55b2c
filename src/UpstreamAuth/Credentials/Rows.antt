-- ===== src/UpstreamAuth/Credentials/Rows.antt =====
-- packages/upstream-auth/src/repo.ts: the ids of the rows of principal_upstream_credentials.
use mathlib.Core.List.{◌++◌ as append_list}
use mavio_mcp.Base.{
  ℕ, ◌<◌, Bool, false, List, [], ◌∷◌, ◌≡◌, refl, sym, ◌∙◌, inl, inr, arith, Bool-cases, ◌==◌, keep,
  any, any-append, All, All-map, any-All, All-zip,
}
use mavio_mcp.UpstreamAuth.Keyring.{Checked}
use mavio_mcp.UpstreamAuth.Vault.{Bytes, Envelope}
use mavio_mcp.UpstreamAuth.Credentials.{CredentialRow, Credentials, update_where, set_envelope}

-- Ids are distinct, and below the next one.
abbrev pub DistinctIds : List CredentialRow → Type 0
DistinctIds [] = Unit
DistinctIds (r ∷ rs) = (any (λ q. q.id == r.id) rs ≡ false) × DistinctIds rs

pub record IsTable (s : Credentials) : Type 0 where
  pub distinct : DistinctIds s.rows
  pub below : All (λ r. r.id < s.next_id) s.rows

module _ (hidden : Envelope → Checked Bytes) where
  -- The rows with the id of `row` hide what it hides.
  abbrev pub Agree : CredentialRow → List CredentialRow → Type 0
  Agree row rows = All (λ r. r.id ≡ row.id → hidden r.envelope ≡ hidden row.envelope) rows

  Agree-others :
      (row : CredentialRow) (rows : List CredentialRow)
      → any (λ q. q.id == row.id) rows ≡ false
      → Agree row rows
  Agree-others row rows new =
      All-map (λ q. (q.id == row.id) ≡ false)
        (λ r. r.id ≡ row.id → hidden r.envelope ≡ hidden row.envelope)
        (λ q other same. absurd (ground arith)) rows (any-All (λ q. q.id == row.id) rows new)

  pub Agree-self : (rows : List CredentialRow) → DistinctIds rows → All (λ row. Agree row rows) rows
  Agree-self [] h = tt
  Agree-self (r ∷ rs) (new, h) = (
    (λ _. refl, Agree-others r rs new),
    All-zip (λ row. r.id ≡ row.id → hidden r.envelope ≡ hidden row.envelope) (λ row. Agree row rs)
        rs
        (All-map (λ q. (q.id == r.id) ≡ false)
          (λ row. r.id ≡ row.id → hidden r.envelope ≡ hidden row.envelope)
          (λ q other same. absurd (ground arith)) rs (any-All (λ q. q.id == r.id) rs new))
        (Agree-self rs h),
  )

  pub Agree-set_envelope :
      (row other : CredentialRow) (next : Envelope) (now : ℕ) (rows : List CredentialRow)
      → hidden next ≡ hidden row.envelope
      → Agree row rows
      → Agree other rows
      → Agree other (set_envelope row.id next now rows)
  unfolding update_where
  Agree-set_envelope row other next now [] same h k = tt
  Agree-set_envelope row other next now (r ∷ rs) same (agree, h) (agrees, k) =
      elim (Bool-cases (r.id == row.id)) [
        | inl hit ↦ rw hit (
          λ e. same ∙ sym (agree (ground arith)) ∙ agrees e,
          Agree-set_envelope row other next now rs same h k,
        )
        | inr miss ↦ rw miss (agrees, Agree-set_envelope row other next now rs same h k)
      ]

any-update_where :
    (p : CredentialRow → Bool) (f : CredentialRow → CredentialRow) (n : ℕ)
    (rows : List CredentialRow)
    → ((r : CredentialRow) → (f r).id ≡ r.id)
    → any (λ q. q.id == n) (update_where p f rows) ≡ any (λ q. q.id == n) rows
unfolding update_where
any-update_where p f n [] keeps = refl
any-update_where p f n (r ∷ rs) keeps = ground (arith, keeps r, any-update_where p f n rs keeps)

pub update_where-DistinctIds :
    (p : CredentialRow → Bool) (f : CredentialRow → CredentialRow) (rows : List CredentialRow)
    → ((r : CredentialRow) → (f r).id ≡ r.id)
    → DistinctIds rows
    → DistinctIds (update_where p f rows)
unfolding update_where
update_where-DistinctIds p f [] keeps h = tt
update_where-DistinctIds p f (r ∷ rs) keeps (new, h) = (
  any-update_where p f _ rs keeps ∙ ground (arith, keeps r),
  update_where-DistinctIds p f rs keeps h,
)

pub update_where-below :
    (p : CredentialRow → Bool) (f : CredentialRow → CredentialRow) (n : ℕ)
    (rows : List CredentialRow)
    → ((r : CredentialRow) → (f r).id ≡ r.id)
    → All (λ r. r.id < n) rows
    → All (λ r. r.id < n) (update_where p f rows)
unfolding update_where
update_where-below p f n [] keeps h = tt
update_where-below p f n (r ∷ rs) keeps (less, h) =
    (ground (arith, keeps r), update_where-below p f n rs keeps h)

any-keep :
    (p q : CredentialRow → Bool) (rows : List CredentialRow)
    → any p rows ≡ false
    → any p (keep q rows) ≡ false
any-keep p q [] h = refl
any-keep p q (r ∷ rs) h = ground (arith, any-keep p q rs)

pub keep-DistinctIds :
    (p : CredentialRow → Bool) (rows : List CredentialRow)
    → DistinctIds rows
    → DistinctIds (keep p rows)
keep-DistinctIds p [] h = tt
keep-DistinctIds p (r ∷ rs) (new, h) =
    ground (arith, any-keep (λ q. q.id == r.id) p rs new, keep-DistinctIds p rs h)

pub snoc-DistinctIds :
    (rows : List CredentialRow) (r : CredentialRow)
    → All (λ q. q.id < r.id) rows
    → DistinctIds rows
    → DistinctIds (append_list rows (r ∷ []))
snoc-DistinctIds [] r less h = (refl, tt)
snoc-DistinctIds (q ∷ qs) r (below, less) (new, h) =
    (ground (arith, any-append (λ q'. q'.id == q.id) qs (r ∷ [])), snoc-DistinctIds qs r less h)

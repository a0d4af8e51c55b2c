-- ===== src/UpstreamAuth/Credentials/Stale.antt =====
-- packages/upstream-auth/src/repo.ts: the rows that are under another key than the primary one.
use mavio_mcp.Base.{
  ℕ, zero, suc, ◌≤◌, ◌<◌, String, true, false, not, ◌&&◌, none, List, [], ◌∷◌, ◌≡◌, ◌≢◌, refl, sym,
  ◌∙◌, inl, inr, arith, eq_iff, Bool-cases, str_eq, ltb, ◌==◌, length, keep, any, map, take, All,
  All-map, All-keep, All-keep_cons, All-zip,
}
use mavio_mcp.Base.Map.{Map, get, set, get-set_ne}
use mavio_mcp.Base.Sort.{sort_by, All-sort_by, length-sort_by}
use mavio_mcp.UpstreamAuth.Keyring.{Checked, fine}
use mavio_mcp.UpstreamAuth.Vault.{Envelope}
use mavio_mcp.UpstreamAuth.Credentials.{
  CredentialRow, or_else, update_where, count_rows, set_envelope, is_stale, stale_rows,
}
use mavio_mcp.UpstreamAuth.Credentials.Secrets.{secret_of}

pub fine_inj : {A : Type 0} {a b : A} → fine a ≡ fine b → a ≡ b
fine_inj {A} {a} {b} e = cc e

pub str_ne_of : (a b p : String) → a ≡ p → not (str_eq b p) ≡ true → str_eq a b ≡ false
str_ne_of a b p same other = ground (arith, eq_iff a b, eq_iff b p)

abbrev pub stale_count : String → List CredentialRow → ℕ
stale_count primary_id rows = length (keep (is_stale primary_id) rows)

-- A stale row with the id of `r` is in the table.
abbrev pub InTable : String → List CredentialRow → CredentialRow → Type 0
InTable primary_id rows r = any (λ q. (q.id == r.id) && is_stale primary_id q) rows ≡ true

pub stale_count-set_envelope-le :
    (primary_id : String) (id now : ℕ) (next : Envelope) (rows : List CredentialRow)
    → next.key_id ≡ primary_id
    → stale_count primary_id (set_envelope id next now rows) ≤ stale_count primary_id rows
unfolding update_where
stale_count-set_envelope-le primary_id id now next [] fresh = omega arith
stale_count-set_envelope-le primary_id id now next (r ∷ rs) fresh = ground (
  arith,
  fresh,
  eq_iff next.key_id primary_id,
  stale_count-set_envelope-le primary_id id now next rs fresh,
)

pub stale_count-set_envelope :
    (primary_id : String) (r : CredentialRow) (now : ℕ) (next : Envelope)
    (rows : List CredentialRow)
    → next.key_id ≡ primary_id
    → InTable primary_id rows r
    → stale_count primary_id (set_envelope r.id next now rows) < stale_count primary_id rows
unfolding update_where
stale_count-set_envelope primary_id r now next [] fresh h = absurd (cc)
stale_count-set_envelope primary_id r now next (q ∷ qs) fresh h = ground (
  arith,
  fresh,
  eq_iff next.key_id primary_id,
  stale_count-set_envelope-le primary_id r.id now next qs fresh,
  stale_count-set_envelope primary_id r now next qs fresh,
)

abbrev pub Opens : (Envelope → Checked (List ℕ)) → CredentialRow → Type 0
Opens hidden r = (body : List ℕ) × (hidden r.envelope ≡ fine body)

pub keep-InTable :
    (primary_id : String) (rows : List CredentialRow)
    → All
        (λ r. (is_stale primary_id r ≡ true) × InTable primary_id rows r)
        (keep (is_stale primary_id) rows)
keep-InTable primary_id [] = tt
keep-InTable primary_id (r ∷ rs) =
    let rest =
      All-map (λ q. (is_stale primary_id q ≡ true) × InTable primary_id rs q)
        (λ q. (is_stale primary_id q ≡ true) × InTable primary_id (r ∷ rs) q)
        (λ q h. (h.0, ground (arith, h.1))) (keep (is_stale primary_id) rs)
        (keep-InTable primary_id rs) in
    All-keep_cons (λ q. (is_stale primary_id q ≡ true) × InTable primary_id (r ∷ rs) q)
      (is_stale primary_id) r rs (λ stale. (stale, ground (arith, stale))) rest

-- The first row of a sweep that has work to do.
pub first_stale :
    (P : CredentialRow → Type 0) (primary_id : String) (limit : ℕ) (rows : List CredentialRow)
    → 1 ≤ limit
    → 1 ≤ stale_count primary_id rows
    → All P rows
    → (r : CredentialRow) × (rs : List CredentialRow) × (stale_rows primary_id limit rows ≡ r ∷ rs)
      × (is_stale primary_id r ≡ true)
      × InTable primary_id rows r
      × P r
first_stale P primary_id (suc limit) rows positive some_stale h =
    let by_time = λ (a b : CredentialRow). ltb a.updated_at b.updated_at in
    let stale = keep (is_stale primary_id) rows in
    let marked =
      All-sort_by (λ r. ((is_stale primary_id r ≡ true) × InTable primary_id rows r) × P r) by_time
        stale
        (All-zip (λ r. (is_stale primary_id r ≡ true) × InTable primary_id rows r) P stale
          (keep-InTable primary_id rows) (All-keep P (is_stale primary_id) rows h)) in
    pick (sort_by by_time stale) (length-sort_by by_time stale) marked
  where
    pick :
        (sorted : List CredentialRow)
        → length sorted ≡ stale_count primary_id rows
        → All (λ r. ((is_stale primary_id r ≡ true) × InTable primary_id rows r) × P r) sorted
        → (r : CredentialRow) × (rs : List CredentialRow) × (take (suc limit) sorted ≡ r ∷ rs)
          × (is_stale primary_id r ≡ true)
          × InTable primary_id rows r
          × P r
    pick [] size k = absurd (omega (arith, size, some_stale))
    pick (r ∷ rs) size (((stale, inside), p), k) = (r, take limit rs, refl, stale, inside, p)
first_stale P primary_id zero rows positive some_stale h = absurd (omega (arith, positive))

-- Where no row is stale, no other key is counted.
pub count_rows-none :
    (primary_id key_id : String) (counts : Map ℕ) (rows : List CredentialRow)
    → key_id ≢ primary_id
    → stale_count primary_id rows ≡ 0
    → get key_id counts ≡ none
    → get key_id (count_rows counts rows) ≡ none
unfolding count_rows
count_rows-none primary_id key_id counts [] other clean h = h
count_rows-none primary_id key_id counts (r ∷ rs) other clean h =
    let key = r.envelope.key_id in
    let n = suc (or_else (get key counts) 0) in
    elim (Bool-cases (str_eq key primary_id)) [
      | inl same ↦
          count_rows-none primary_id key_id (set key n counts) rs other
            (ground (arith, clean, same))
            (get-set_ne n counts (λ e. other (sym e ∙ (eq_iff key primary_id).0 same)) ∙ h)
      | inr stale ↦ absurd (ground (arith, clean, stale))
    ]

pub Opens-secrets :
    (hidden : Envelope → Checked (List ℕ)) (rows : List CredentialRow)
    → All (Opens hidden) rows
    → All (λ x. (body : List ℕ) × (x.payload ≡ fine body)) (map (secret_of hidden) rows)
Opens-secrets hidden [] h = tt
Opens-secrets hidden (r ∷ rs) (o, h) = (o, Opens-secrets hidden rs h)

pub secrets-Opens :
    (hidden : Envelope → Checked (List ℕ)) (rows : List CredentialRow)
    → All (λ x. (body : List ℕ) × (x.payload ≡ fine body)) (map (secret_of hidden) rows)
    → All (Opens hidden) rows
secrets-Opens hidden [] h = tt
secrets-Opens hidden (r ∷ rs) (o, h) = (o, secrets-Opens hidden rs h)

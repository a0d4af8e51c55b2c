-- ===== src/UpstreamAuth/Admin/Aliasing.antt =====
-- apps/server/src/vault-admin.controller.ts: which provider the admin's requests act on.
use mathlib.Core.Path.{subst}
use mavio_mcp.Base.{
  ℕ, suc, ◌<◌, String, Bool, not, ◌&&◌, ◌||◌, none, some, List, [], ◌∷◌, ◌≡◌, ◌≢◌, refl, sym, ap,
  ◌∙◌, inl, inr, arith, Bool-cases, Option-cases, str_eq, ltb, ◌==◌, length,
}
use mavio_mcp.Base.Map.{get}
use mavio_mcp.UpstreamAuth.Keyring
use mavio_mcp.UpstreamAuth.Keyring.{MavioError, Checked, Checked-cases, fine, failed, KekEntry}
use mavio_mcp.UpstreamAuth.Credentials.{Credentials, or_else, count_by_key_id}
use mavio_mcp.UpstreamAuth.Admin.{
  VaultAdmin, KeyEvent, vault_keys, store, reset_shared_kek, new_kek, read_kek, with_kek, rotate_at,
  rotate, retire_at, retire, status_view, status,
}

pub data AdminRequest : Type 0 where
  rotate_key : String → String → ℕ → AdminRequest
  retire_key : Credentials → String → Bool → ℕ → AdminRequest
  read_status : Credentials → AdminRequest
  reload : AdminRequest

-- The vault reads a provider that the variable does not hold.
pub record Detached (s : VaultAdmin) : Type 0 where
  pub allocated : s.vault < s.next
  pub apart : (a : ℕ) → s.shared ≡ some a → a ≢ s.vault

-- The vault and its keyring stay, and it stays detached.
pub record Frozen (s t : VaultAdmin) : Type 0 where
  pub detached : Detached t
  pub same_vault : t.vault ≡ s.vault
  pub same_keys : vault_keys t ≡ vault_keys s

Frozen-refl : (s : VaultAdmin) → Detached s → Frozen s s
Frozen-refl s h = record { detached = h; same_vault = refl; same_keys = refl }

Frozen-trans : (s t u : VaultAdmin) → Frozen s t → Frozen t u → Frozen s u
Frozen-trans s t u h k = record {
  detached = k.detached;
  same_vault = k.same_vault ∙ h.same_vault;
  same_keys = k.same_keys ∙ h.same_keys;
}

reset-Detached : (s : VaultAdmin) → s.vault < s.next → Frozen s (reset_shared_kek s)
unfolding reset_shared_kek
reset-Detached s h = record {
  detached = record { allocated = h; apart = λ a e. absurd (cc e) };
  same_vault = refl;
  same_keys = refl;
}

module _ (environment : Checked (List KekEntry)) where
  pub read_kek-shared :
      (s : VaultAdmin) (a : ℕ) → s.shared ≡ some a → read_kek environment s ≡ (s, fine a)
  unfolding read_kek
  read_kek-shared s a held = simp (read_kek, held)

module _ (environment : Checked (List KekEntry)) (from_base64 : String → List ℕ)
    (before : String → String → Bool) where
  abbrev allocate : VaultAdmin → List KekEntry → VaultAdmin
  allocate s entries = record (store s.next entries s) { next = suc s.next; shared = some s.next }

  -- What a request sees of the state after the provider was found.
  abbrev Located : VaultAdmin → VaultAdmin × Checked ℕ → Type 0
  Located s r = Frozen s r.0 × ((a : ℕ) → r.1 ≡ fine a → a ≢ s.vault)

  read_kek-new : (s : VaultAdmin) → s.shared ≡ none → read_kek environment s ≡ new_kek s environment
  unfolding read_kek
  read_kek-new s missing = simp (read_kek, missing)

  allocate-Frozen :
      (s : VaultAdmin) (entries : List KekEntry) → Detached s → Frozen s (allocate s entries)
  allocate-Frozen s entries h = record {
    detached = record {
      allocated = omega (arith, h.allocated);
      apart = λ a e same. ground (arith, h.allocated, e, same);
    };
    same_vault = refl;
    same_keys = ground (arith, h.allocated);
  }

  read_kek-Located : (s : VaultAdmin) → Detached s → Located s (read_kek environment s)
  unfolding new_kek
  read_kek-Located s h = elim (Option-cases s.shared) [
    | inr (a, held) ↦
        subst (Located s) (sym (read_kek-shared environment s a held))
          (Frozen-refl s h, λ b e. subst (λ c. c ≢ s.vault) (cc e) (h.apart a held))
    | inl missing ↦ elim (Checked-cases environment) [
      | inl (e, refused) ↦
          subst (Located s) (sym (read_kek-new s missing ∙ ap (new_kek s) refused))
            (Frozen-refl s h, λ b e'. absurd (cc e'))
      | inr (entries, made) ↦
          subst (Located s) (sym (read_kek-new s missing ∙ ap (new_kek s) made))
            (allocate-Frozen s entries h, λ b e same. ground (arith, h.allocated, e, same))
    ]
  ]

  store-Frozen :
      (s : VaultAdmin) (address : ℕ) (entries : List KekEntry) (published : List String)
      (audit : List KeyEvent)
      → Detached s
      → address ≢ s.vault
      → Frozen s (record (store address entries s) { published = published; audit = audit })
  store-Frozen s address entries published audit h other = record {
    detached = record { allocated = h.allocated; apart = h.apart };
    same_vault = refl;
    same_keys = ground (arith, other);
  }

  rotate_at-Frozen :
      (s : VaultAdmin) (address : ℕ) (next : KekEntry) (now : ℕ)
      → Detached s
      → address ≢ s.vault
      → Frozen s (rotate_at environment s address next now).0
  unfolding rotate_at
  rotate_at-Frozen s address next now h other =
      elim (Checked-cases (Keyring.rotate (s.instances address) next)) [
        | inl (e, refused) ↦ rw (rotate_at, refused) (Frozen-refl s h)
        | inr (entries, made) ↦ rw (rotate_at, made) (store-Frozen s address entries _ _ h other)
      ]

  retire_at-Frozen :
      (s : VaultAdmin) (address : ℕ) (key_id : String) (remaining : ℕ) (force : Bool) (now : ℕ)
      → Detached s
      → address ≢ s.vault
      → Frozen s (retire_at environment s address key_id remaining force now).0
  unfolding retire_at
  retire_at-Frozen s address key_id remaining force now h other =
      elim (Checked-cases (Keyring.retire (s.instances address) key_id)) [
        | inl (e, refused) ↦ rw (retire_at, refused) (Frozen-refl s h)
        | inr (entries, made) ↦ rw (retire_at, made) (store-Frozen s address entries _ _ h other)
      ]

  abbrev pub serve : VaultAdmin → AdminRequest → VaultAdmin
  serve s (rotate_key key_id material now) =
      (rotate environment s key_id material from_base64 now).0
  serve s (retire_key creds key_id force now) = (retire environment s creds key_id force now).0
  serve s (read_status creds) = (status environment before s creds).0
  serve s reload = reset_shared_kek s

  abbrev pub serve_all : VaultAdmin → List AdminRequest → VaultAdmin
  serve_all s [] = s
  serve_all s (r ∷ rs) = serve_all (serve s r) rs

  with_kek-Frozen :
      {A : Type 0} (s : VaultAdmin) (f : VaultAdmin → ℕ → VaultAdmin × Checked A)
      → Detached s
      → ((s' : VaultAdmin) (a : ℕ) → Detached s' → a ≢ s'.vault → Frozen s' (f s' a).0)
      → Frozen s (with_kek environment s f).0
  unfolding with_kek
  with_kek-Frozen s f h acts =
      let (frozen, apart) = read_kek-Located s h in
      elim (Checked-cases (read_kek environment s).1) [
        | inl (e, refused) ↦ rw (with_kek, refused) frozen
        | inr (a, found) ↦
            rw (with_kek, found)
              (Frozen-trans s _ _ frozen (
                acts (read_kek environment s).0 a frozen.detached
                  (λ same. apart a found (same ∙ frozen.same_vault))))
      ]

  rotate-Frozen :
      (s : VaultAdmin) (key_id material : String) (now : ℕ)
      → Detached s
      → Frozen s (rotate environment s key_id material from_base64 now).0
  unfolding rotate
  rotate-Frozen s key_id material now h =
      let next : KekEntry = record { key_id = key_id; material = from_base64 material } in
      elim (Bool-cases (str_eq key_id "" || str_eq material "")) [
        | inl absent ↦ rw (rotate, absent) (Frozen-refl s h)
        | inr present ↦ elim (Bool-cases (length (from_base64 material) == 32)) [
          | inr other ↦ rw (rotate, present) (rw (rotate, other) (Frozen-refl s h))
          | inl size ↦
              rw (rotate, present)
                (rw (rotate, size)
                  (with_kek-Frozen s (λ s' a. rotate_at environment s' a next now) h
                    (λ s' a h' apart. rotate_at-Frozen s' a next now h' apart)))
        ]
      ]

  retire-Frozen :
      (s : VaultAdmin) (creds : Credentials) (key_id : String) (force : Bool) (now : ℕ)
      → Detached s
      → Frozen s (retire environment s creds key_id force now).0
  unfolding retire
  retire-Frozen s creds key_id force now h =
      let remaining = or_else (get key_id (count_by_key_id creds)) 0 in
      elim (Bool-cases (str_eq key_id "")) [
        | inl absent ↦ rw (retire, absent) (Frozen-refl s h)
        | inr present ↦ elim (Bool-cases (ltb 0 remaining && not force)) [
          | inl used ↦ rw (retire, present) (rw (retire, used) (Frozen-refl s h))
          | inr unused ↦
              rw (retire, present)
                (rw (retire, unused)
                  (with_kek-Frozen s (λ s' a. retire_at environment s' a key_id remaining force now)
                    h (λ s' a h' apart. retire_at-Frozen s' a key_id remaining force now h' apart)))
        ]
      ]

  serve-Frozen : (s : VaultAdmin) (r : AdminRequest) → Detached s → Frozen s (serve s r)
  unfolding status
  serve-Frozen s (rotate_key key_id material now) h = rotate-Frozen s key_id material now h
  serve-Frozen s (retire_key creds key_id force now) h = retire-Frozen s creds key_id force now h
  serve-Frozen s (read_status creds) h =
      with_kek-Frozen s (λ s' a. (s', status_view before (s'.instances a) (count_by_key_id creds)))
        h (λ s' a h' apart. Frozen-refl s' h')
  serve-Frozen s reload h = reset-Detached s h.allocated

  serve_all-Frozen :
      (s : VaultAdmin) (rs : List AdminRequest) → Detached s → Frozen s (serve_all s rs)
  serve_all-Frozen s [] h = Frozen-refl s h
  serve_all-Frozen s (r ∷ rs) h =
      let first = serve-Frozen s r h in
      Frozen-trans s (serve s r) (serve_all (serve s r) rs) first
        (serve_all-Frozen (serve s r) rs first.detached)

  -- After a reload message the vault of the process keeps the keyring that it had, whatever
  -- requests to rotate, retire and show keys, and whatever messages follow: the vault reads the
  -- provider that it was built with, and the requests act on a provider made anew.
  pub reload-freezes :
      (s : VaultAdmin) (rs : List AdminRequest)
      → s.vault < s.next
      → vault_keys (serve_all (reset_shared_kek s) rs) ≡ vault_keys s
  reload-freezes s rs allocated =
      let first = reset-Detached s allocated in
      (serve_all-Frozen (reset_shared_kek s) rs first.detached).same_keys ∙ first.same_keys

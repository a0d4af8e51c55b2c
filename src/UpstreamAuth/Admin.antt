-- ===== src/UpstreamAuth/Admin.antt =====
-- apps/server/src/vault-admin.controller.ts, and the local branch of `buildKeyWrapper` of
-- upstream-auth.module.ts. An `EnvKekProvider` is an object that is shared: `instances` is the
-- memory of those made so far, `vault` the one that the vault reads, `shared` the variable
-- `sharedKek`. `environment` is what the constructor of a provider gives on the environment.
pub mod Retirement
pub mod Aliasing
mod Tests
use Prim.Native.String.{◌++◌}
use mathlib.Core.List.{◌++◌ as append_list}
use mavio_mcp.Base.{
  ℕ, suc, ◌+◌, String, Bool, true, false, not, ◌&&◌, ◌||◌, Option, none, some, List, [], ◌∷◌, map,
  str_eq, ltb, ◌==◌, if◌then◌else◌, length, any,
}
use mavio_mcp.Base.Map.{Map, get, values}
use mavio_mcp.Base.Sort.{sort_by}
use mavio_mcp.Base.Text.{show}
use mavio_mcp.Json.{num, str, obj, field, end}
use mavio_mcp.Json.Print.{stringify}
use mavio_mcp.UpstreamAuth.Keyring
use mavio_mcp.UpstreamAuth.Keyring.{
  MavioError, Checked, fine, failed, mavio_error, KekEntry, primary,
}
use mavio_mcp.UpstreamAuth.Credentials.{Credentials, or_else, count_by_key_id}

-- What an admin did, as the audit log has it.
pub data KeyEvent : Type 0 where
  key_rotated : String → KeyEvent
  key_retired : String → ℕ → Bool → KeyEvent

pub record VaultAdmin : Type 0 where
  pub instances : ℕ → List KekEntry
  pub next : ℕ
  pub vault : ℕ
  pub shared : Option ℕ
  pub published : List String
  pub audit : List KeyEvent

pub record KeyRows : Type 0 where
  pub key_id : String
  pub row_count : ℕ

pub record StatusView : Type 0 where
  pub primary_key_id : String
  pub keys : List KeyRows
  pub total_rows : ℕ

abbrev pub vault_keys : VaultAdmin → List KekEntry
vault_keys s = s.instances s.vault

abbrev pub store : ℕ → List KekEntry → VaultAdmin → VaultAdmin
store address entries s = record s {
  instances = λ a. if a == address then entries else s.instances a;
}

-- `kek.primary.keyId`, which throws on an empty keyring.
abbrev primary_key_id : List KekEntry → Checked String
primary_key_id [] = mavio_error "Cannot read properties of undefined (reading 'keyId')" "TypeError"
primary_key_id (e ∷ es) = fine e.key_id

-- `resetSharedKek`, which each replica calls when a message comes, the sender too.
unfoldable pub reset_shared_kek : VaultAdmin → VaultAdmin
reset_shared_kek s = record s { shared = none }

abbrev log_event : VaultAdmin → String → KeyEvent → VaultAdmin
log_event s message event = record s {
  published = append_list s.published (message ∷ []);
  audit = append_list s.audit (event ∷ []);
}

abbrev reload_message : String → String → ℕ → String
reload_message op key_id now =
    stringify (obj (field "op" (str op) (field "keyId" (str key_id) (field "at" (num now) end))))

-- `known.add(k)` for each key.
abbrev add_known : List String → List String → List String
add_known known [] = known
add_known known (k ∷ ks) =
    add_known (if any (λ j. str_eq j k) known then known else append_list known (k ∷ [])) ks

abbrev sum : List ℕ → ℕ
sum [] = 0
sum (n ∷ ns) = n + sum ns

-- `sharedKek = new EnvKekProvider()`, where the constructor does not throw.
unfoldable pub new_kek : VaultAdmin → Checked (List KekEntry) → VaultAdmin × Checked ℕ
new_kek s (failed e) = (s, failed e)
new_kek s (fine entries) =
    (record (store s.next entries s) { next = suc s.next; shared = some s.next }, fine s.next)

-- The view of `status`, on the keyring and the counts.
unfoldable pub status_view : (String → String → Bool) → List KekEntry → Map ℕ → Checked StatusView
status_view before entries counts =
    let known = add_known (map (λ e. e.key_id) entries) (map (λ p. p.0) counts) in
    elim (primary_key_id entries) [
      | failed e ↦ failed e
      | fine id ↦ fine (record {
        primary_key_id = id;
        keys =
            map (λ k. record { key_id = k; row_count = or_else (get k counts) 0 })
              (sort_by before known);
        total_rows = sum (values counts);
      })
    ]

module _ (environment : Checked (List KekEntry)) where
  -- `readKek`, with the address of the provider.
  unfoldable pub read_kek : VaultAdmin → VaultAdmin × Checked ℕ
  unfolding new_kek
  read_kek s = elim s.shared [ some address ↦ (s, fine address) | none ↦ new_kek s environment ]

  -- A handler from `readKek()` on.
  unfoldable pub with_kek :
      {A : Type 0} → VaultAdmin → (VaultAdmin → ℕ → VaultAdmin × Checked A) → VaultAdmin × Checked A
  unfolding read_kek
  with_kek s f =
      let (s', found) = read_kek s in
      elim found [ failed e ↦ (s', failed e) | fine address ↦ f s' address ]

  -- `new LocalKeyWrapper(readKek())` for the vault.
  unfoldable pub build_key_wrapper : VaultAdmin → VaultAdmin × Checked ℕ
  unfolding with_kek
  build_key_wrapper s = with_kek s (λ s' address. (record s' { vault = address }, fine address))

  -- `kek.rotate`, and the rest of the handler.
  unfoldable pub rotate_at : VaultAdmin → ℕ → KekEntry → ℕ → VaultAdmin × Checked String
  rotate_at s address next now = elim (Keyring.rotate (s.instances address) next) [
    | failed e ↦ (s, failed e)
    | fine entries ↦ (
      log_event (store address entries s) (reload_message "rotate" next.key_id now)
          (key_rotated next.key_id),
      primary_key_id entries,
    )
  ]

  -- The handler of `rotate`; `from_base64` is the decoding of Node.
  unfoldable pub rotate :
      VaultAdmin → String → String → (String → List ℕ) → ℕ → VaultAdmin × Checked String
  unfolding with_kek rotate_at
  rotate s key_id material from_base64 now =
      if str_eq key_id "" || str_eq material ""
      then (s, mavio_error "keyId and material required" "Error")
      else if length (from_base64 material) == 32
      then with_kek s (λ s' address.
        rotate_at s' address (record { key_id = key_id; material = from_base64 material }) now)
      else (
        s,
        mavio_error
            ("material must decode to 32 bytes (got "
              ++ (show (length (from_base64 material)) ++ ")"))
            "Error",
      )

  unfoldable pub retire_at : VaultAdmin → ℕ → String → ℕ → Bool → ℕ → VaultAdmin × Checked String
  retire_at s address key_id remaining force now =
      elim (Keyring.retire (s.instances address) key_id) [
        | failed e ↦ (s, failed e)
        | fine entries ↦ (
          log_event (store address entries s) (reload_message "retire" key_id now)
              (key_retired key_id remaining force),
          fine key_id,
        )
      ]

  -- The handler of `retire`, on the table of credentials.
  unfoldable pub retire : VaultAdmin → Credentials → String → Bool → ℕ → VaultAdmin × Checked String
  unfolding with_kek retire_at
  retire s creds key_id force now =
      let remaining = or_else (get key_id (count_by_key_id creds)) 0 in
      if str_eq key_id ""
      then (s, mavio_error "keyId required" "Error")
      else if ltb 0 remaining && not force
      then (
        s,
        mavio_error
            (show remaining
              ++ (" rows still reference keyId "
                  ++ (key_id ++ " — rewrap first or pass force:true")))
            "Error",
      )
      else with_kek s (λ s' address. retire_at s' address key_id remaining force now)

  unfoldable pub status :
      (String → String → Bool) → VaultAdmin → Credentials → VaultAdmin × Checked StatusView
  unfolding with_kek status_view
  status before s creds =
      with_kek s
        (λ s' address. (s', status_view before (s'.instances address) (count_by_key_id creds)))

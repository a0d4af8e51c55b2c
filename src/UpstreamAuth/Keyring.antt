-- ===== src/UpstreamAuth/Keyring.antt =====
-- packages/upstream-auth/src/keyring.ts: `EnvKekProvider` and `parseKeyring`. The bytes of a key
-- are those that `Buffer.from(text, "base64")` of Node gives, which is an argument.
pub mod Rotation
mod Tests
use Prim.Native.Char.{code}
use Prim.Native.String.{◌++◌}
use Prim.Native.String
use mathlib.Core.List.{◌++◌ as append_list}
use mavio_mcp.Base.{
  ◌≡◌, refl, ◌⊎◌, inl, inr, ℕ, zero, suc, String, Bool, true, false, ◌&&◌, ◌||◌, not, Option, none,
  some, List, [], ◌∷◌, ltb, ◌==◌, str_eq, if◌then◌else◌, length, any, find,
}
use mavio_mcp.Base.Text.{show}
use mavio_mcp.Base.Words.{trim}

pub record MavioError : Type 0 where
  pub message : String
  pub code : String

pub data Checked {ℓ} (A : Type ℓ) : Type ℓ where
  fine : A → Checked A
  failed : MavioError → Checked A

pub Checked-cases {ℓ} :
    {A : Type ℓ} (c : Checked A) → ((m : MavioError) × (c ≡ failed m)) ⊎ ((a : A) × (c ≡ fine a))
Checked-cases (failed m) = inl (m, refl)
Checked-cases (fine a) = inr (a, refl)

pub record KekEntry : Type 0 where
  pub key_id : String
  pub material : List ℕ

abbrev pub mavio_error {ℓ} : {A : Type ℓ} → String → String → Checked A
mavio_error message code = failed (record { message = message; code = code })

abbrev pub has_id : String → KekEntry → Bool
has_id key_id e = str_eq e.key_id key_id

-- `primary`; there is none where the keyring is empty.
abbrev pub primary : List KekEntry → Option KekEntry
primary [] = none
primary (e ∷ es) = some e

abbrev pub get_kek : List KekEntry → String → Option KekEntry
get_kek entries key_id = find (has_id key_id) entries

unfoldable pub rotate : List KekEntry → KekEntry → Checked (List KekEntry)
rotate entries next =
    if any (has_id next.key_id) entries
    then mavio_error ("key id already present: " ++ next.key_id) "VAULT_KEYRING_DUP"
    else fine (next ∷ entries)

-- `splice(idx, 1)` at the first entry with the id.
unfoldable pub remove_first : String → List KekEntry → List KekEntry
remove_first key_id [] = []
remove_first key_id (e ∷ es) = if has_id key_id e then es else e ∷ remove_first key_id es

abbrev pub is_primary : String → List KekEntry → Bool
is_primary key_id [] = false
is_primary key_id (e ∷ es) = has_id key_id e

unfoldable pub retire : List KekEntry → String → Checked (List KekEntry)
retire entries key_id =
    if any (has_id key_id) entries
    then if is_primary key_id entries && ltb 1 (length entries)
      then mavio_error ("cannot retire primary key " ++ (key_id ++ " — rotate first"))
          "VAULT_KEYRING_PRIMARY"
      else fine (remove_first key_id entries)
    else mavio_error ("key id not found: " ++ key_id) "VAULT_KEYRING_MISS"

-- `text.split(",")`: the part before the first comma, and the other parts.
unfoldable pub split_commas : String → String × List String
split_commas String.[] = ("", [])
split_commas (String.◌∷◌ c s) =
    let (part, parts) = split_commas s in
    if code c == b',' then ("", part ∷ parts) else (String.◌∷◌ c part, parts)

-- The texts before and after the first colon.
unfoldable pub split_colon : String → Option (String × String)
split_colon String.[] = none
split_colon (String.◌∷◌ c s) =
    let rest = split_colon s in
    if code c == b':'
    then some ("", s)
    else elim rest [ none ↦ none | some (before, after) ↦ some (String.◌∷◌ c before, after) ]

module _ (from_base64 : String → List ℕ) where
  -- An entry after its trimmed id and material, given the entries so far.
  unfoldable pub add_entry : List KekEntry → String → String → Checked (List KekEntry)
  add_entry entries key_id b64 =
      if str_eq key_id ""
      then mavio_error "empty keyId in keyring" "VAULT_KEYRING_FORMAT"
      else if any (has_id key_id) entries
      then mavio_error ("duplicate keyId in keyring: " ++ key_id) "VAULT_KEYRING_DUP"
      else if length (from_base64 b64) == 32
      then fine (append_list entries (record { key_id = key_id; material = from_base64 b64 } ∷ []))
      else mavio_error
          ("key "
            ++ (key_id
                ++ (": expected 32 bytes (AES-256), got " ++ show (length (from_base64 b64)))))
          "VAULT_KEYRING_LEN"

  -- The loop of `parseKeyring` on one chunk.
  unfoldable pub parse_chunk : List KekEntry → String → Checked (List KekEntry)
  parse_chunk entries chunk =
      let trimmed = trim chunk in
      if str_eq trimmed "" then fine entries else elim (split_colon trimmed) [
        | none ↦
            mavio_error ("bad keyring entry (missing \"keyId:material\"): " ++ trimmed)
              "VAULT_KEYRING_FORMAT"
        | some (before, after) ↦ add_entry entries (trim before) (trim after)
      ]

  unfoldable pub parse_chunks : List KekEntry → List String → Checked (List KekEntry)
  parse_chunks entries [] = fine entries
  parse_chunks entries (chunk ∷ chunks) = elim (parse_chunk entries chunk) [
    | failed e ↦ failed e
    | fine entries' ↦ parse_chunks entries' chunks
  ]

  unfoldable pub parse_keyring : String → Checked (List KekEntry)
  parse_keyring raw = let (part, parts) = split_commas raw in parse_chunks [] (part ∷ parts)

  abbrev checked_entries : Checked (List KekEntry) → Checked (List KekEntry)
  checked_entries (failed e) = failed e
  checked_entries (fine []) =
      mavio_error "MAVIO_VAULT_KEYRING parsed to no keys" "VAULT_KEYRING_EMPTY"
  checked_entries (fine (e ∷ es)) = fine (e ∷ es)

  abbrev zeros : ℕ → List ℕ
  zeros zero = []
  zeros (suc n) = 0 ∷ zeros n

  abbrev without_keyring : Bool → Checked (List KekEntry)
  without_keyring true =
      mavio_error "MAVIO_VAULT_KEYRING is required in production" "VAULT_KEYRING_MISSING"
  without_keyring false = fine (record { key_id = "dev-ephemeral"; material = zeros 32 } ∷ [])

  -- The constructor, on MAVIO_VAULT_KEYRING and whether NODE_ENV is production.
  unfoldable pub new_provider : Option String → Bool → Checked (List KekEntry)
  new_provider none production = without_keyring production
  new_provider (some raw) production =
      if str_eq (trim raw) ""
      then without_keyring production
      else checked_entries (parse_keyring raw)

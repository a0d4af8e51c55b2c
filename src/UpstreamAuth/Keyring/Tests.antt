-- ===== src/UpstreamAuth/Keyring/Tests.antt =====
-- The keyring at concrete inputs.
use mavio_mcp.Base.{
  ℕ, zero, suc, ◌≡◌, refl, String, Bool, true, false, Option, none, some, List, [], ◌∷◌, ◌⊎◌,
  str_eq, if◌then◌else◌, length,
}
use mavio_mcp.Base.Words.{trim, trim_start, trim_end}
use mavio_mcp.UpstreamAuth.Keyring.{
  KekEntry, fine, mavio_error, primary, rotate, retire, remove_first, parse_keyring, parse_chunks,
  parse_chunk, add_entry, split_commas, split_colon, new_provider,
}
use mavio_mcp.UpstreamAuth.Keyring.Rotation.{IsKeyring, retire-primary}

keyring : Unit {0}
unfolding rotate retire remove_first parse_keyring parse_chunks parse_chunk add_entry split_commas
    split_colon trim trim_start trim_end new_provider mavio_mcp.Base.Text.show
keyring = tt

abbrev bytes : ℕ → List ℕ
bytes zero = []
bytes (suc n) = 7 ∷ bytes n

-- Stands for the decoding of base64.
abbrev decode : String → List ℕ
decode s = if str_eq s "short" then bytes 5 else bytes 32

abbrev key : String → KekEntry
key id = record { key_id = id; material = bytes 32 }

keyring_tests :
    (parse_keyring decode " v2:abc , v1: def,," ≡ fine (key "v2" ∷ key "v1" ∷ []))
    × (parse_keyring decode "v1:abc,v1:def"
        ≡ mavio_error "duplicate keyId in keyring: v1" "VAULT_KEYRING_DUP")
    × (parse_keyring decode "v1:short"
        ≡ mavio_error "key v1: expected 32 bytes (AES-256), got 5" "VAULT_KEYRING_LEN")
    × (rotate (key "v1" ∷ []) (key "v2") ≡ fine (key "v2" ∷ key "v1" ∷ []))
    × (retire (key "v1" ∷ []) "v1" ≡ fine [])
    × (new_provider decode none true
        ≡ mavio_error "MAVIO_VAULT_KEYRING is required in production" "VAULT_KEYRING_MISSING")
unfolding keyring
keyring_tests = (refl, refl, refl, refl, refl, refl)

abbrev no_keys : List KekEntry
no_keys = []

retire-primary_example :
    IsKeyring []
    × ((primary [] ≡ some (key "v1")) ⊎ ((no_keys ≡ []) × (length (key "v1" ∷ []) ≡ 1)))
unfolding keyring
retire-primary_example = retire-primary (key "v1" ∷ []) "v1" [] (refl, refl, tt) refl

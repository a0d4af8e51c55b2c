-- ===== src/UpstreamAuth/Example.antt =====
-- Ciphers, a keyring and a table for the tests of packages/upstream-auth. The ciphers hide nothing.
use mavio_mcp.Base.{ℕ, zero, suc, refl, arith, String, none, some, List, [], ◌∷◌}
use mavio_mcp.UpstreamAuth.Keyring.{fine, KekEntry}
use mavio_mcp.UpstreamAuth.Keyring.Rotation.{IsKeyring}
use mavio_mcp.UpstreamAuth.Vault.{Crypto, Draws, KeyWrapper, Envelope, local_key_wrapper}
use mavio_mcp.UpstreamAuth.Vault.Faithful.{
  IsCrypto, IsDraws, IsWrapper, local_key_wrapper-IsWrapper,
}
use mavio_mcp.UpstreamAuth.Credentials.{
  Encoding, CredentialRow, UpstreamTokenInput, Credentials, payload_json,
}
use mavio_mcp.UpstreamAuth.Credentials.Rows.{IsTable}

abbrev pub zeros : ℕ → List ℕ
zeros zero = []
zeros (suc n) = 0 ∷ zeros n

abbrev pub crypto : Crypto
crypto = record {
  create_cipher = λ key iv. fine (λ body. (body, zeros 16));
  create_decipher = λ key iv tag. fine (λ text. some text);
}

pub crypto-IsCrypto : IsCrypto crypto
crypto-IsCrypto = record {
  opens = λ key iv body h k. (λ b. (b, zeros 16), refl, refl, (λ t. some t, refl, refl));
}

abbrev pub key : String → KekEntry
key id = record { key_id = id; material = zeros 32 }

abbrev pub ring : List KekEntry
ring = key "v2" ∷ key "v1" ∷ []

pub ring-IsKeyring : IsKeyring ring
ring-IsKeyring = (refl, refl, (refl, refl, tt))

abbrev pub wrapper : KeyWrapper
wrapper = local_key_wrapper crypto ring

pub wrapper-IsWrapper : IsWrapper wrapper
wrapper-IsWrapper =
    local_key_wrapper-IsWrapper crypto crypto-IsCrypto (key "v2") (key "v1" ∷ []) ring-IsKeyring

abbrev pub random : ℕ → Draws
random n = record { dek = zeros 32; wrap_iv = zeros 12; iv = zeros 12 }

pub random-IsDraws : (n : ℕ) → IsDraws (random n)
random-IsDraws n = record { dek = refl; wrap_iv = refl; iv = refl }

-- The host, on the one payload of the tests.
abbrev pub encoding : Encoding
encoding = record {
  to_bytes = λ s. 1 ∷ [];
  from_bytes = λ b. "payload";
  parse = λ s. some (payload_json "at" (some "rt"));
}

abbrev pub envelope : String → Envelope
envelope key_id = record {
  key_id = key_id;
  wrapped_dek = zeros 60;
  iv = zeros 12;
  auth_tag = zeros 16;
  ciphertext = 1 ∷ [];
}

abbrev pub row : ℕ → String → String → CredentialRow
row id principal_id key_id = record {
  id = id;
  principal_id = principal_id;
  provider_id = "slack";
  envelope = envelope key_id;
  token_type = "Bearer";
  scopes = [];
  expires_at = some 5000;
  issuer = none;
  subject = none;
  updated_at = id;
}

-- A row under each of the two keys.
abbrev pub table : Credentials
table = record { rows = row 0 "u1" "v1" ∷ row 1 "u2" "v2" ∷ []; next_id = 2; drawn = 0 }

pub table-IsTable : IsTable table
table-IsTable = record { distinct = (refl, (refl, tt)); below = (omega arith, (omega arith, tt)) }

-- A row under a key that was retired comes before one that could be rewrapped.
abbrev pub stuck_table : Credentials
stuck_table = record { rows = row 0 "u1" "v0" ∷ row 1 "u2" "v1" ∷ []; next_id = 2; drawn = 0 }

abbrev pub input : UpstreamTokenInput
input = record {
  principal_id = "u1";
  provider_id = "slack";
  access_token = "at";
  refresh_token = some "rt";
  token_type = none;
  scopes = none;
  expires_at = some 900000;
  issuer = none;
  subject = none;
}

-- ===== src/UpstreamAuth/Vault.antt =====
-- packages/upstream-auth/src/vault.ts and `LocalKeyWrapper` of key-wrapper.ts: envelopes. The
-- ciphers are those of node:crypto, the argument `Crypto`; `Draws` is what `randomBytes` gives.
pub mod Faithful
use Prim.Native.String.{◌++◌}
use mathlib.Core.List.{◌++◌ as append_list}
use mavio_mcp.Base.{
  ℕ, ◌+◌, String, Option, none, some, List, [], ◌∷◌, str_eq, if◌then◌else◌, length, take, drop, ltb,
  map,
}
use mavio_mcp.UpstreamAuth.Keyring.{
  MavioError, Checked, fine, failed, mavio_error, KekEntry, primary, get_kek,
}

abbrev pub Bytes : Type 0
Bytes = List ℕ

infixl 5 ◌>>=◌
abbrev pub ◌>>=◌ {ℓ κ} : {A : Type ℓ} {B : Type κ} → Checked A → (A → Checked B) → Checked B
fine a >>= f = f a
failed e >>= f = failed e

-- A cipher after `createCipheriv` maps a text to its ciphertext and tag. A decipher has no result
-- where `final` throws. Both constructors throw on keys, vectors and tags of other lengths.
pub record Crypto : Type 0 where
  pub create_cipher : Bytes → Bytes → Checked (Bytes → Bytes × Bytes)
  pub create_decipher : Bytes → Bytes → Bytes → Checked (Bytes → Option Bytes)

-- The random bytes of one `encrypt`: the key, the vector of the wrapper and the vector.
pub record Draws : Type 0 where
  pub dek : Bytes
  pub wrap_iv : Bytes
  pub iv : Bytes

pub record Wrapped : Type 0 where
  pub key_id : String
  pub wrapped_dek : Bytes

-- `wrap` takes the random vector that it may draw first.
pub record KeyWrapper : Type 0 where
  pub primary_key_id : Checked String
  pub wrap : Bytes → Bytes → Checked Wrapped
  pub unwrap : String → Bytes → Checked Bytes
  pub list_key_ids : Checked (List String)

pub record Envelope : Type 0 where
  pub key_id : String
  pub wrapped_dek : Bytes
  pub iv : Bytes
  pub auth_tag : Bytes
  pub ciphertext : Bytes

abbrev pub iv_len : ℕ
iv_len = 12

-- Reading a property of `undefined`.
abbrev type_error {ℓ} : {A : Type ℓ} → Checked A
type_error = mavio_error "Cannot read properties of undefined" "TypeError"

abbrev or_error {ℓ} : {A : Type ℓ} → Option A → String → String → Checked A
or_error none message code = mavio_error message code
or_error (some a) message code = fine a

module _ (crypto : Crypto) where
  open crypto use {create_cipher, create_decipher}

  module _ (entries : List KekEntry) where
    unfoldable pub local_primary : Checked KekEntry
    local_primary = elim (primary entries) [ none ↦ type_error | some e ↦ fine e ]

    unfoldable pub local_wrap : Bytes → Bytes → Checked Wrapped
    unfolding local_primary
    local_wrap wrap_iv dek = do
      kek ← local_primary
      cipher ← create_cipher kek.material wrap_iv
      let sealed = cipher dek
      fine (record {
        key_id = kek.key_id;
        wrapped_dek = append_list wrap_iv (append_list sealed.1 sealed.0);
      })

    unfoldable pub local_unwrap : String → Bytes → Checked Bytes
    local_unwrap key_id wrapped_dek = elim (get_kek entries key_id) [
      | none ↦
          mavio_error ("no local KEK for keyId " ++ (key_id ++ " — was it retired prematurely?"))
            "VAULT_UNKNOWN_KEY"
      | some kek ↦
          if ltb (length wrapped_dek) (iv_len + 16)
          then mavio_error "wrappedDek too short" "VAULT_CORRUPT"
          else do
            decipher ←
                create_decipher kek.material (take iv_len wrapped_dek)
                  (take 16 (drop iv_len wrapped_dek))
            or_error (decipher (drop (iv_len + 16) wrapped_dek))
                ("DEK unwrap failed for keyId " ++ key_id) "VAULT_UNWRAP_FAIL"
    ]

    unfoldable pub local_key_wrapper : KeyWrapper
    unfolding local_primary
    local_key_wrapper = record {
      primary_key_id = local_primary >>= λ kek. fine kek.key_id;
      wrap = local_wrap;
      unwrap = local_unwrap;
      list_key_ids = fine (map (λ e. e.key_id) entries);
    }

  module _ (wrapper : KeyWrapper) where
    open wrapper use {primary_key_id, wrap, unwrap}

    unfoldable pub encrypt : Draws → Bytes → Checked Envelope
    encrypt draws body = do
      wrapped ← wrap draws.wrap_iv draws.dek
      cipher ← create_cipher draws.dek draws.iv
      let sealed = cipher body
      fine (record {
        key_id = wrapped.key_id;
        wrapped_dek = wrapped.wrapped_dek;
        iv = draws.iv;
        auth_tag = sealed.1;
        ciphertext = sealed.0;
      })

    unfoldable pub decrypt : Envelope → Checked Bytes
    decrypt env = do
      dek ← unwrap env.key_id env.wrapped_dek
      decipher ← create_decipher dek env.iv env.auth_tag
      or_error (decipher env.ciphertext) ("payload decrypt failed under keyId " ++ env.key_id)
          "VAULT_DECRYPT_FAIL"

    unfoldable pub rewrap : Draws → Envelope → Checked Envelope
    rewrap draws env = do
      primary_id ← primary_key_id
      if str_eq env.key_id primary_id
          then fine env
          else decrypt env >>= λ plaintext. encrypt draws plaintext

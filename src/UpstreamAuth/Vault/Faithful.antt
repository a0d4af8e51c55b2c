-- ===== src/UpstreamAuth/Vault/Faithful.antt =====
-- packages/upstream-auth/src/vault.ts and key-wrapper.ts: an envelope opens again. `IsCrypto` is
-- what node:crypto documents of AES-256-GCM, `IsWrapper` is what a `KeyWrapper` promises.
use mathlib.Core.List.{append_assoc}
use mavio_mcp.Base.{
  ◌≤◌, String, Option, some, List, ◌∷◌, ◌++◌, ◌≡◌, refl, sym, ap, ◌∙◌, inl, inr, true, Bool-cases,
  arith, eq_iff, str_eq, length, length-append, drop, take-append, drop-append, le→ltb,
}
use mavio_mcp.UpstreamAuth.Keyring.{fine, KekEntry}
use mavio_mcp.UpstreamAuth.Keyring.Rotation.{IsKeyring}
use mavio_mcp.UpstreamAuth.Vault.{
  Bytes, Crypto, Draws, Wrapped, KeyWrapper, Envelope, local_primary, local_wrap, local_unwrap,
  local_key_wrapper, encrypt, decrypt, rewrap,
}

abbrev pub OpensAgain : Crypto → Bytes → Bytes → Bytes → Type 0
OpensAgain crypto key iv body =
    (cipher : Bytes → Bytes × Bytes) × (crypto.create_cipher key iv ≡ fine cipher)
    × (length (cipher body).1 ≡ 16)
    × ((decipher : Bytes → Option Bytes) × (crypto.create_decipher key iv (cipher body).1
          ≡ fine decipher)
        × (decipher (cipher body).0 ≡ some body))

pub str_eq_refl : (s : String) → str_eq s s ≡ true
str_eq_refl s = ground (arith, eq_iff s s)

pub record IsCrypto (crypto : Crypto) : Type 0 where
  pub opens :
      (key iv body : Bytes) → length key ≡ 32 → length iv ≡ 12 → OpensAgain crypto key iv body

pub record IsDraws (draws : Draws) : Type 0 where
  pub dek : length draws.dek ≡ 32
  pub wrap_iv : length draws.wrap_iv ≡ 12
  pub iv : length draws.iv ≡ 12

abbrev pub Unwraps : KeyWrapper → Draws → Type 0
Unwraps wrapper draws =
    (w : Wrapped) × (wrapper.wrap draws.wrap_iv draws.dek ≡ fine w)
    × (wrapper.unwrap w.key_id w.wrapped_dek ≡ fine draws.dek)
    × (wrapper.primary_key_id ≡ fine w.key_id)

pub record IsWrapper (wrapper : KeyWrapper) : Type 0 where
  pub unwraps : (draws : Draws) → IsDraws draws → Unwraps wrapper draws

module _ (crypto : Crypto) (honest : IsCrypto crypto) where
  local_unwrap-sealed :
      (kek : KekEntry) (entries : List KekEntry) (iv tag body dek : Bytes)
      (decipher : Bytes → Option Bytes)
      → length iv ≡ 12
      → length tag ≡ 16
      → crypto.create_decipher kek.material iv tag ≡ fine decipher
      → decipher body ≡ some dek
      → local_unwrap crypto (kek ∷ entries) kek.key_id (iv ++ (tag ++ body)) ≡ fine dek
  unfolding local_unwrap
  local_unwrap-sealed kek entries iv tag body dek decipher iv_size tag_size opened result =
      rw (local_unwrap, str_eq_refl kek.key_id)
        (rw (le→ltb (length (iv ++ (tag ++ body))) 28 long) (
          rw (take-append 12 iv (tag ++ body) iv_size) (
            rw (drop-append 12 iv (tag ++ body) iv_size)
              (rw (take-append 16 tag body tag_size) (rw opened (rw at_body (rw result refl)))))))
    where
      long : 28 ≤ length (iv ++ (tag ++ body))
      long =
          omega (arith, length-append iv (tag ++ body), length-append tag body, iv_size, tag_size)

      at_body : drop 28 (iv ++ (tag ++ body)) ≡ body
      at_body =
          rw (← append_assoc iv tag body) (
            drop-append 28 (iv ++ tag) body
              (omega (arith, length-append iv tag, iv_size, tag_size)))

  -- The local wrapper keeps the promise of the interface, on a keyring that is not empty.
  pub local_key_wrapper-IsWrapper :
      (kek : KekEntry) (entries : List KekEntry)
      → IsKeyring (kek ∷ entries)
      → IsWrapper (local_key_wrapper crypto (kek ∷ entries))
  unfolding local_key_wrapper local_wrap local_primary
  local_key_wrapper-IsWrapper kek entries ring = record {
    unwraps = λ draws sizes.
        let (cipher, made, tag_size, (decipher, opened, result)) =
          honest.opens kek.material draws.wrap_iv draws.dek ring.1 sizes.wrap_iv in
        (
          record {
            key_id = kek.key_id;
            wrapped_dek = draws.wrap_iv ++ ((cipher draws.dek).1 ++ (cipher draws.dek).0);
          },
          rw made refl,
          local_unwrap-sealed kek entries draws.wrap_iv (cipher draws.dek).1 (cipher draws.dek).0
              draws.dek decipher sizes.wrap_iv tag_size opened result,
          refl,
        );
  }

  module _ (wrapper : KeyWrapper) (faithful : IsWrapper wrapper) where
    pub decrypt-encrypt :
        (draws : Draws) (body : Bytes)
        → IsDraws draws
        → (env : Envelope) × (encrypt crypto wrapper draws body ≡ fine env)
          × (decrypt crypto wrapper env ≡ fine body)
          × (wrapper.primary_key_id ≡ fine env.key_id)
    unfolding encrypt decrypt
    decrypt-encrypt draws body sizes =
        let (w, wrapped, unwrapped, primary_id) = faithful.unwraps draws sizes in
        let (cipher, made, _, (decipher, opened, result)) =
          honest.opens draws.dek draws.iv body sizes.dek sizes.iv in
        (
          record {
            key_id = w.key_id;
            wrapped_dek = w.wrapped_dek;
            iv = draws.iv;
            auth_tag = (cipher body).1;
            ciphertext = (cipher body).0;
          },
          rw wrapped (rw made refl),
          rw unwrapped (rw opened (rw result refl)),
          primary_id,
        )

    -- Whatever the key of an envelope, what it hides stays.
    pub decrypt-rewrap :
        (draws : Draws) (env : Envelope) (body : Bytes)
        → IsDraws draws
        → decrypt crypto wrapper env ≡ fine body
        → (next : Envelope) × (rewrap crypto wrapper draws env ≡ fine next)
          × (decrypt crypto wrapper next ≡ fine body)
          × (wrapper.primary_key_id ≡ fine next.key_id)
    unfolding rewrap decrypt encrypt
    decrypt-rewrap draws env body sizes hidden =
        let (w, wrapped, unwrapped, primary_id) = faithful.unwraps draws sizes in
        elim (Bool-cases (str_eq env.key_id w.key_id)) [
          | inl same ↦ (
            env,
            rw primary_id (rw same refl),
            hidden,
            primary_id ∙ ap fine (sym ((eq_iff env.key_id w.key_id).0 same)),
          )
          | inr stale ↦
              let (next, made, opens, key) = decrypt-encrypt draws body sizes in
              (next, rw primary_id (rw stale (rw hidden made)), opens, key)
        ]

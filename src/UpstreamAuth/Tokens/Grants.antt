-- ===== src/UpstreamAuth/Tokens/Grants.antt =====
-- apps/server/src/upstream-auth.module.ts: what a dispatch is given, and what a failed refresh
-- leaves.
use mavio_mcp.Base.{
  ℕ, String, true, false, not, Option, none, some, List, [], ◌∷◌, ◌≡◌, refl, sym, ◌∙◌, ◌⊎◌, inl,
  inr, arith, Bool-cases, Option-cases, keep, find,
}
use mavio_mcp.Base.Map.{Map, get}
use mavio_mcp.Core.{ServerDescriptor, Principal}
use mavio_mcp.Router.{UpstreamResolution, skip, consent_required, ready, DispatchInjection}
use mavio_mcp.Router.Request.{metadata_field}
use mavio_mcp.UpstreamAuth.Keyring.{MavioError, Checked, Checked-cases, fine, failed}
use mavio_mcp.UpstreamAuth.Vault.{Crypto, Draws, KeyWrapper}
use mavio_mcp.UpstreamAuth.Credentials.{
  Encoding, CredentialRow, UpstreamToken, owns, put, get_token, revoke,
}
use mavio_mcp.UpstreamAuth.Tokens.{
  UpstreamCredential, stored, issued, Provider, TokenService, is_expiring_soon, input_of,
  build_consent_url, provider_id_of, persist, mint_token, refresh_token, resolve_with,
  resolve_for_dispatch,
}

find-revoked :
    (p q : String) (rows : List CredentialRow)
    → find (owns p q) (keep (λ r. not (owns p q r)) rows) ≡ none
find-revoked p q [] = refl
find-revoked p q (r ∷ rs) = ground (arith, find-revoked p q rs)

ready_inj : {i j : DispatchInjection} → ready i ≡ ready j → i ≡ j
ready_inj {i} {j} e = cc e

module _ (crypto : Crypto) (wrapper : KeyWrapper) (encoding : Encoding) (random : ℕ → Draws)
    (base : String) (state : String) (now : ℕ) where
  abbrev pub reads : TokenService → String → String → Checked (Option UpstreamToken)
  reads s p q = get_token crypto wrapper encoding s.credentials p q

  -- The provider issued the credential, and the repository took it.
  abbrev pub Persisted : TokenService → String → String → UpstreamCredential → Type 0
  Persisted s p q c =
      (t : UpstreamToken) × ((put crypto wrapper encoding random s.credentials (input_of p q c)
          now).1
        ≡ fine t)

  -- Why a dispatch may carry the injection: a stored token that is not about to expire, one minted
  -- where none is stored, or one refreshed where the stored one is about to expire.
  pub data Granted (provider : Provider) (s : TokenService) (p q : String)
      (injection : DispatchInjection) : Type 0 where
    from_table :
        (t : UpstreamToken)
        → reads s p q ≡ fine (some t)
        → is_expiring_soon t now ≡ false
        → injection ≡ provider.inject (stored t)
        → Granted provider s p q injection
    from_mint :
        (mint : String → Checked UpstreamCredential) (c : UpstreamCredential)
        → reads s p q ≡ fine none
        → provider.mint ≡ some mint
        → mint p ≡ fine c
        → Persisted s p q c
        → injection ≡ provider.inject (issued c)
        → Granted provider s p q injection
    from_refresh :
        (t : UpstreamToken) (c : UpstreamCredential)
        → reads s p q ≡ fine (some t)
        → is_expiring_soon t now ≡ true
        → provider.refresh t ≡ fine c
        → Persisted s p q c
        → injection ≡ provider.inject (issued c)
        → Granted provider s p q injection

  -- A resolution that is ready is granted.
  abbrev pub Sound : Provider → TokenService → String → String → UpstreamResolution → Type 0
  Sound provider s p q r =
      (injection : DispatchInjection) → r ≡ ready injection → Granted provider s p q injection

  mint_token-Sound :
      (s : TokenService) (provider : Provider) (p q : String)
      → reads s p q ≡ fine none
      → Sound provider s p q
          (mint_token crypto wrapper encoding random base state now s provider p q).1
  unfolding mint_token
  mint_token-Sound s provider p q empty = elim (Option-cases provider.mint) [
    | inl unable ↦ rw (mint_token, unable) (λ i e. absurd (cc e))
    | inr (mint, able) ↦ elim (Checked-cases (mint p)) [
      | inl (m, refused) ↦ rw (mint_token, able) (rw refused (λ i e. absurd (cc e)))
      | inr (c, minted) ↦
          elim (Checked-cases (persist crypto wrapper encoding random base state now s p q c).1) [
            | inl (m, lost) ↦ rw (mint_token, able) (rw minted (rw lost (λ i e. absurd (cc e))))
            | inr (t, kept) ↦ λ i e.
                from_mint mint c empty able minted (t, kept)
                  (ready_inj (sym e ∙ simp (mint_token, able, minted, kept)))
          ]
    ]
  ]

  refresh_token-Sound :
      (s : TokenService) (provider : Provider) (p q : String) (t : UpstreamToken)
      → reads s p q ≡ fine (some t)
      → is_expiring_soon t now ≡ true
      → Sound provider s p q
          (refresh_token crypto wrapper encoding random base state now s provider p q t).1
  unfolding refresh_token
  refresh_token-Sound s provider p q t read soon = elim (Checked-cases (provider.refresh t)) [
    | inl (m, refused) ↦ rw (refresh_token, refused) (λ i e. absurd (cc e))
    | inr (c, renewed) ↦
        elim (Checked-cases (persist crypto wrapper encoding random base state now s p q c).1) [
          | inl (m, lost) ↦ rw (refresh_token, renewed) (rw lost (λ i e. absurd (cc e)))
          | inr (t', kept) ↦ λ i e.
              from_refresh t c read soon renewed (t', kept)
                (ready_inj (sym e ∙ simp (refresh_token, renewed, kept)))
        ]
  ]

  abbrev SoundResult :
      Provider → TokenService → String → String → Checked UpstreamResolution → Type 0
  SoundResult provider s p q r =
      (injection : DispatchInjection)
      → r ≡ fine (ready injection)
      → Granted provider s p q injection

  resolve_with-Sound :
      (s : TokenService) (provider : Provider) (p q : String)
      → SoundResult provider s p q
          (resolve_with crypto wrapper encoding random base state now s provider p q).1
  unfolding resolve_with
  resolve_with-Sound s provider p q = elim (Checked-cases (reads s p q)) [
    | inl (m, broken) ↦ rw (resolve_with, broken) (λ i e. absurd (cc e))
    | inr (none, empty) ↦
        rw (resolve_with, empty) (λ i e. mint_token-Sound s provider p q empty i (cc e))
    | inr (some t, read) ↦ elim (Bool-cases (is_expiring_soon t now)) [
      | inl soon ↦
          rw (resolve_with, read)
            (rw soon (λ i e. refresh_token-Sound s provider p q t read soon i (cc e)))
      | inr fresh ↦ rw (resolve_with, read) (rw fresh (λ i e. from_table t read fresh (cc e)))
    ]
  ]

  abbrev resolve :
      Map Provider
      → TokenService
      → Option Principal
      → ServerDescriptor
      → TokenService × Checked UpstreamResolution
  resolve registry s principal d =
      resolve_for_dispatch crypto wrapper encoding random base state now registry s principal d

  module _ (registry : Map Provider) (s : TokenService) (principal : Option Principal)
      (d : ServerDescriptor) where
    unnamed_skip :
        provider_id_of (metadata_field "upstreamOAuthProvider" d) ≡ none
        → (resolve registry s principal d).1 ≡ fine skip
    unfolding resolve_for_dispatch
    unnamed_skip unnamed = simp (resolve_for_dispatch, unnamed)

    module _ (q : String)
        (named : provider_id_of (metadata_field "upstreamOAuthProvider" d) ≡ some q) where
      anonymous_asks :
          principal ≡ none → (resolve registry s principal d).1 ≡ fine (consent_required q none)
      unfolding resolve_for_dispatch
      anonymous_asks anonymous = simp (resolve_for_dispatch, named, anonymous)

      module _ (caller : Principal) (known : principal ≡ some caller) where
        unknown_asks :
            get q registry ≡ none
            → (resolve registry s principal d).1 ≡ fine (consent_required q none)
        unfolding resolve_for_dispatch
        unknown_asks missing = simp (resolve_for_dispatch, named, known, missing)

        known_resolves :
            (provider : Provider)
            → get q registry ≡ some provider
            → (resolve registry s principal d).1
              ≡ (resolve_with crypto wrapper encoding random base state now s provider caller.id
                  q).1
        unfolding resolve_for_dispatch
        known_resolves provider found = simp (resolve_for_dispatch, named, known, found)

  -- What is known of a resolution that is ready.
  abbrev pub GrantedTo :
      Map Provider
      → TokenService
      → Option Principal
      → ServerDescriptor
      → Checked UpstreamResolution
      → Type 0
  GrantedTo registry s principal d r =
      (injection : DispatchInjection)
      → r ≡ fine (ready injection)
      → (caller : Principal) × (q : String) × (provider : Provider) × (principal ≡ some caller)
        × (provider_id_of (metadata_field "upstreamOAuthProvider" d) ≡ some q)
        × (get q registry ≡ some provider)
        × Granted provider s caller.id q injection

  -- A resolution that is ready is for a principal, names a provider of the registry, and carries
  -- that provider's injection of a token stored for the two and not about to expire, of one minted
  -- and persisted where none was stored, or of one refreshed and persisted where the stored one
  -- was about to expire.
  pub resolve_for_dispatch-GrantedTo :
      (registry : Map Provider) (s : TokenService) (principal : Option Principal)
      (d : ServerDescriptor)
      → GrantedTo registry s principal d
          (resolve_for_dispatch crypto wrapper encoding random base state now registry s principal
            d).1
  unfolding resolve_for_dispatch
  resolve_for_dispatch-GrantedTo registry s principal d =
      elim (Option-cases (provider_id_of (metadata_field "upstreamOAuthProvider" d))) [
        | inl unnamed ↦ λ i e. absurd (cc (e, unnamed_skip registry s principal d unnamed))
        | inr (q, named) ↦ elim (Option-cases principal) [
          | inl anonymous ↦
              λ i e. absurd (cc (e, anonymous_asks registry s principal d q named anonymous))
          | inr (caller, known) ↦ elim (Option-cases (get q registry)) [
            | inl missing ↦ λ i e.
                absurd (cc (e, unknown_asks registry s principal d q named caller known missing))
            | inr (provider, found) ↦ λ i e. (
              caller,
              q,
              provider,
              known,
              named,
              found,
              resolve_with-Sound s provider caller.id q i (
                  sym (known_resolves registry s principal d q named caller known provider found)
                  ∙ e),
            )
          ]
        ]
      ]

  -- A refresh that the provider refuses, or whose token cannot be kept, takes the stored token
  -- away and asks for consent.
  pub refresh_token-failed :
      (s : TokenService) (provider : Provider) (p q : String) (t : UpstreamToken)
      → ((e : MavioError) × (provider.refresh t ≡ failed e))
        ⊎ ((c : UpstreamCredential) × (e : MavioError) × (provider.refresh t ≡ fine c)
            × ((put crypto wrapper encoding random s.credentials (input_of p q c) now).1
                ≡ failed e))
      → ((refresh_token crypto wrapper encoding random base state now s provider p q t).1
          ≡ consent_required q (build_consent_url provider p state base))
        × (get_token crypto wrapper encoding
              (refresh_token crypto wrapper encoding random base state now s provider p q
                t).0.credentials
              p
              q
            ≡ fine none)
  unfolding refresh_token get_token revoke persist
  refresh_token-failed s provider p q t (inl (e, refused)) = (
    simp (refresh_token, refused),
    simp (refresh_token, get_token, revoke, refused, find-revoked p q s.credentials.rows),
  )
  refresh_token-failed s provider p q t (inr (c, e, renewed, lost)) =
      let table = (put crypto wrapper encoding random s.credentials (input_of p q c) now).0 in
      (
        simp (refresh_token, renewed, lost),
        simp (refresh_token, get_token, revoke, renewed, lost, find-revoked p q table.rows),
      )

-- ===== src/Access/Vouching.antt =====
-- apps/server/src/principal-resolver.ts: who vouches for the principal of a request.
use mathlib.Core.Path.{subst}
use mavio_mcp.Base.{
  ℕ, String, true, Option, none, some, ◌≡◌, sym, ap, ◌∙◌, inl, inr, eq_iff, Bool-cases,
  Option-cases, str_eq, ltb, ltb→le, ◌≤◌,
}
use mavio_mcp.Core.{Principal}
use mavio_mcp.Access.{HttpRequest, Settings}
use mavio_mcp.Access.Sessions.{SessionData, Redis, SessionCodec, read_session, session_key}
use mavio_mcp.Access.Principals.{
  Resolution, known, given_text, bearer_token, federated_principal, session_principal,
  root_principal, stored_principal, session_id, fallback, resolve_api_key, resolve_bearer,
  resolve_principal,
}

module _ {W : Type 0} (redis : Redis W) (codec : SessionCodec)
    (parse_cookie : String → String → Option String)
    (find_by_api_key : String → Option Principal) where
  -- Who vouches for a principal.
  pub data Vouched (settings : Settings) (w : W) (req : HttpRequest) (now : ℕ) (p : Principal)
      : Type 0 where
    by_federation : federated_principal settings req ≡ some p → Vouched settings w req now p
    by_session :
        (sid : String) (d : SessionData)
        → session_id redis codec parse_cookie find_by_api_key req ≡ some sid
        → (read_session redis codec w sid now).1 ≡ some d
        → now ≤ d.expires_at
        → p ≡ session_principal d
        → Vouched settings w req now p
    by_admin_key :
        (token : String)
        → bearer_token req.authorization ≡ some token
        → given_text settings.admin_api_key ≡ some token
        → p ≡ root_principal "admin"
        → Vouched settings w req now p
    by_api_key :
        (token : String) (stored : Principal)
        → bearer_token req.authorization ≡ some token
        → find_by_api_key token ≡ some stored
        → p ≡ stored_principal stored
        → Vouched settings w req now p
    by_default :
        given_text settings.admin_api_key ≡ none
        → p ≡ root_principal "dev"
        → Vouched settings w req now p

  module _ (settings : Settings) (w : W) (req : HttpRequest) (now : ℕ) where
    abbrev pub Sound : Resolution → Type 0
    Sound r = (p : Principal) → r ≡ known p → Vouched settings w req now p

    -- A session that is read has not expired.
    abbrev Lively : Option SessionData → Type 0
    Lively found = (d : SessionData) → found ≡ some d → now ≤ d.expires_at

    abbrev or_data : SessionData → Option SessionData → SessionData
    or_data d none = d
    or_data d (some c) = c

    read_session-Lively : (sid : String) → Lively (read_session redis codec w sid now).1
    unfolding read_session
    read_session-Lively sid = elim (Option-cases (redis.get w now (session_key sid))) [
      | inl gone ↦ rw (read_session, gone) (λ d e. absurd (cc e))
      | inr (raw, kept) ↦ elim (Bool-cases (str_eq raw "")) [
        | inl blank ↦ rw (read_session, kept) (rw blank (λ d e. absurd (cc e)))
        | inr text ↦ elim (Option-cases (codec.read_session raw)) [
          | inl bad ↦
              rw (read_session, kept) (rw text (rw (read_session, bad) (λ d e. absurd (cc e))))
          | inr (c, parsed) ↦ elim (Bool-cases (ltb c.expires_at now)) [
            | inl over ↦
                rw (read_session, kept)
                  (rw text (rw (read_session, parsed) (rw over (λ d e. absurd (cc e)))))
            | inr lasts ↦
                rw (read_session, kept)
                  (rw text (
                    rw (read_session, parsed)
                      (rw lasts (λ d e.
                        subst (λ (x : SessionData). now ≤ x.expires_at) (ap (or_data c) e)
                          (ltb→le c.expires_at now lasts)))))
          ]
        ]
      ]
    ]

    known_inj : {p q : Principal} → known p ≡ known q → p ≡ q
    known_inj {p} {q} e = cc e

    fallback-Sound : Sound (fallback redis codec parse_cookie find_by_api_key settings true)
    unfolding fallback
    fallback-Sound = elim (Option-cases (given_text settings.admin_api_key)) [
      | inl unset ↦ rw (fallback, unset) (λ p e. by_default unset (known_inj (sym e)))
      | inr (key, set) ↦ rw (fallback, set) (λ p e. absurd (cc e))
    ]

    resolve_api_key-Sound :
        (token : String)
        → bearer_token req.authorization ≡ some token
        → Sound (resolve_api_key redis codec parse_cookie find_by_api_key settings token true)
    unfolding resolve_api_key
    resolve_api_key-Sound token sent = elim (Option-cases (find_by_api_key token)) [
      | inl unknown ↦ rw (resolve_api_key, unknown) fallback-Sound
      | inr (stored, found) ↦
          rw (resolve_api_key, found)
            (λ p e. by_api_key token stored sent found (known_inj (sym e)))
    ]

    resolve_bearer-Sound :
        Sound (resolve_bearer redis codec parse_cookie find_by_api_key settings req true)
    unfolding resolve_bearer
    resolve_bearer-Sound = elim (Option-cases (bearer_token req.authorization)) [
      | inl silent ↦ rw (resolve_bearer, silent) fallback-Sound
      | inr (token, sent) ↦ elim (Option-cases (given_text settings.admin_api_key)) [
        | inl unset ↦
            rw (resolve_bearer, sent)
              (rw (resolve_bearer, unset) (resolve_api_key-Sound token sent))
        | inr (key, set) ↦ elim (Bool-cases (str_eq token key)) [
          | inl same ↦
              rw (resolve_bearer, sent)
                (rw (resolve_bearer, set)
                  (rw same (λ p e.
                    by_admin_key token sent (set ∙ ap some (sym ((eq_iff token key).0 same)))
                      (known_inj (sym e)))))
          | inr other ↦
              rw (resolve_bearer, sent)
                (rw (resolve_bearer, set) (rw other (resolve_api_key-Sound token sent)))
        ]
      ]
    ]

    pub resolve_principal-Sound :
        Sound (resolve_principal redis codec parse_cookie find_by_api_key settings w req true now).1
    unfolding resolve_principal
    resolve_principal-Sound = elim (Option-cases (federated_principal settings req)) [
      | inr (f, vouched) ↦
          rw (resolve_principal, vouched) (λ p e. by_federation (vouched ∙ ap some (known_inj e)))
      | inl own ↦ elim (Option-cases (session_id redis codec parse_cookie find_by_api_key req)) [
        | inl no_session ↦
            rw (resolve_principal, own) (rw (resolve_principal, no_session) resolve_bearer-Sound)
        | inr (sid, sent) ↦ elim (Option-cases (read_session redis codec w sid now).1) [
          | inl over ↦
              rw (resolve_principal, own)
                (rw (resolve_principal, sent) (rw (resolve_principal, over) resolve_bearer-Sound))
          | inr (d, read) ↦
              rw (resolve_principal, own)
                (rw (resolve_principal, sent)
                  (rw (resolve_principal, read)
                    (λ p e.
                      by_session sid d sent read (read_session-Lively sid d read)
                        (known_inj (sym e)))))
        ]
      ]
    ]

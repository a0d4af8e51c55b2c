-- ===== src/Access/Origins.antt =====
-- apps/server/src/csrf.middleware.ts: which requests pass the middleware.
use mavio_mcp.Base.{
  String, true, false, Option, some, List, ◌≡◌, ◌⊎◌, inl, inr, arith, Bool-cases, Option-cases, any,
  length, str_eq, ltb, ltb→le,
}
use mavio_mcp.Base.Words.{comma_list}
use mavio_mcp.Access.{Url, HttpRequest, Settings}
use mavio_mcp.Access.Csrf.{
  CsrfVerdict, next, is_unsafe, has_session_cookie, claimed_origin, is_trusted_origin,
  csrf_protection, or_empty, is_local,
}

-- The address that the request says it comes from is one of those that are configured, or, where
-- none is, one of this machine.
abbrev pub FromTrusted : (String → Option Url) → Settings → HttpRequest → Type 0
FromTrusted parse_url settings req =
    let configured = comma_list (or_empty settings.trusted_origins) in
    (url : Url) × (parse_url (claimed_origin req) ≡ some url)
    × ((any (λ o. str_eq o url.origin) configured ≡ true)
        ⊎ ((length configured ≡ 0)
            × ((u : Url) × (parse_url url.origin ≡ some u) × (is_local u.hostname ≡ true))))

-- No page of another site sent the request with the cookie of a session.
abbrev pub SafeOrigin : (String → Option Url) → Settings → HttpRequest → Type 0
SafeOrigin parse_url settings req =
    (is_unsafe req.method ≡ false)
    ⊎ ((has_session_cookie req ≡ false) ⊎ FromTrusted parse_url settings req)

module _ (parse_url : String → Option Url) (settings : Settings) (req : HttpRequest) where
  abbrev configured : List String
  configured = comma_list (or_empty settings.trusted_origins)

  is_trusted_origin-FromTrusted :
      is_trusted_origin parse_url (claimed_origin req) configured ≡ true
      → FromTrusted parse_url settings req
  unfolding is_trusted_origin
  is_trusted_origin-FromTrusted e = elim (Option-cases (parse_url (claimed_origin req))) [
    | inl bad ↦ absurd (ground (arith, bad, e))
    | inr (url, parsed) ↦ (
      url,
      parsed,
      elim (Bool-cases (ltb 0 (length configured))) [
        | inl some_configured ↦ inl (ground (arith, parsed, some_configured, e))
        | inr none_configured ↦ elim (Option-cases (parse_url url.origin)) [
          | inl bad ↦ absurd (ground (arith, parsed, none_configured, bad, e))
          | inr (u, again) ↦ inr (
            omega (arith, ltb→le 0 (length configured) none_configured),
            (u, again, ground (arith, parsed, none_configured, again, e)),
          )
        ]
      ],
    )
  ]

  -- What `next()` of the middleware tells.
  abbrev NextIsSafe : CsrfVerdict → Type 0
  NextIsSafe v = v ≡ next → SafeOrigin parse_url settings req

  pub csrf_protection-SafeOrigin : NextIsSafe (csrf_protection parse_url settings req)
  unfolding csrf_protection
  csrf_protection-SafeOrigin = elim (Bool-cases (is_unsafe req.method)) [
    | inr safe ↦ λ e. inl safe
    | inl unsafe ↦ elim (Bool-cases (has_session_cookie req)) [
      | inr no_cookie ↦ λ e. inr (inl no_cookie)
      | inl cookie ↦ elim (Bool-cases (str_eq (claimed_origin req) "")) [
        | inl silent ↦ rw (csrf_protection, unsafe) (rw cookie (rw silent (λ e. absurd (cc e))))
        | inr claims ↦
            elim (Bool-cases (is_trusted_origin parse_url (claimed_origin req) configured)) [
              | inl trusted ↦ λ e. inr (inr (is_trusted_origin-FromTrusted trusted))
              | inr other ↦
                  rw (csrf_protection, unsafe)
                    (rw cookie (rw claims (rw other (λ e. absurd (cc e)))))
            ]
      ]
    ]
  ]

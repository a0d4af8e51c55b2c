-- ===== src/Access/Csrf.antt =====
-- apps/server/src/csrf.middleware.ts: `csrfProtection` and `isTrustedOrigin`. `parse_url` is
-- `new URL`, which has no result where it throws.
use Prim.Native.String.{◌++◌}
use mavio_mcp.Base.{
  String, Bool, false, not, ◌||◌, Option, none, some, List, any, length, str_eq, ltb, if◌then◌else◌,
}
use mavio_mcp.Base.Words.{trim, split_on, comma_list, starts_with}
use mavio_mcp.Access.{Url, HttpRequest, Settings}

pub data CsrfVerdict : Type 0 where
  next : CsrfVerdict
  forbidden : String → CsrfVerdict

abbrev pub or_empty : Option String → String
or_empty none = ""
or_empty (some s) = s

abbrev pub is_unsafe : String → Bool
is_unsafe method =
    str_eq method "POST"
    || (str_eq method "PUT" || (str_eq method "PATCH" || str_eq method "DELETE"))

unfoldable pub has_session_cookie : HttpRequest → Bool
unfolding trim split_on
has_session_cookie req =
    any (λ c. starts_with "mavio_sid=" (trim c)) (split_on b';' (or_empty req.cookie))

-- `origin || referer`.
unfoldable pub claimed_origin : HttpRequest → String
claimed_origin req =
    if str_eq (or_empty req.origin) "" then or_empty req.referer else or_empty req.origin

abbrev pub is_local : String → Bool
is_local hostname = str_eq hostname "localhost" || str_eq hostname "127.0.0.1"

module _ (parse_url : String → Option Url) where
  unfoldable pub is_trusted_origin : String → List String → Bool
  is_trusted_origin header configured = elim (parse_url header) [
    | none ↦ false
    | some url ↦
        if ltb 0 (length configured)
        then any (λ o. str_eq o url.origin) configured
        else elim (parse_url url.origin) [ none ↦ false | some u ↦ is_local u.hostname ]
  ]

  unfoldable pub csrf_protection : Settings → HttpRequest → CsrfVerdict
  unfolding comma_list
  csrf_protection settings req =
      if not (is_unsafe req.method)
      then next
      else if not (has_session_cookie req)
      then next
      else if str_eq (claimed_origin req) ""
      then forbidden "CSRF: missing Origin/Referer on session-cookie request"
      else if is_trusted_origin (claimed_origin req)
          (comma_list (or_empty settings.trusted_origins))
      then next
      else forbidden ("CSRF: origin " ++ (claimed_origin req ++ " not in trusted list"))

-- ===== src/Access/Principals.antt =====
-- apps/server/src/principal-resolver.ts and federated-auth.ts: who sends a request. The package
-- cookie and the store of API keys stand outside.
use Prim.Native.Char.{code}
use Prim.Native.String.{String, ◌++◌}
use mavio_mcp.Base.{ℕ, Bool, false, not, ◌||◌, Option, none, some, List, str_eq, if◌then◌else◌}
use mavio_mcp.Base.Words.{is_blank, trim_start, comma_list, after_letters, same_letters}
use mavio_mcp.Core.{Principal, user, service}
use mavio_mcp.Access.{Peer, HttpRequest, Settings}
use mavio_mcp.Access.Sessions.{SessionData, Redis, SessionCodec, read_session}

abbrev enabled : Option String → Bool
enabled none = false
enabled (some s) = str_eq s "1"

-- A text that is there and not empty.
abbrev pub given_text : Option String → Option String
given_text none = none
given_text (some s) = if str_eq s "" then none else some s

abbrev or_text : String → Option String → String
or_text d none = d
or_text d (some s) = s

unfoldable pub trusted_header_principal : Settings → HttpRequest → Option Principal
unfolding comma_list same_letters
trusted_header_principal settings req =
    if not (enabled settings.trusted_proxy_enabled)
    then none
    else elim (given_text req.auth_subject) [
      | none ↦ none
      | some subject ↦ some (record {
        id = subject;
        type = if same_letters (or_text "user" req.auth_type) "service" then service else user;
        workspace_id = or_text "default" req.auth_workspace;
        scopes = comma_list (or_text "" req.auth_scopes);
        attributes = none;
      })
    ]

abbrev is_refused : Peer → Bool
is_refused peer = elim peer.authorized [ none ↦ false | some ok ↦ not ok ]

unfoldable pub mtls_principal : Settings → HttpRequest → Option Principal
mtls_principal settings req = if not (enabled settings.mtls_enabled) then none else elim req.peer [
  | none ↦ none
  | some peer ↦
      if not peer.has_certificate || is_refused peer
      then none
      else elim (given_text peer.common_name) [
        | none ↦ none
        | some name ↦ some (record {
          id = "cn:" ++ name;
          type = service;
          workspace_id = or_text "default" settings.mtls_workspace;
          scopes = List.[];
          attributes = none;
        })
      ]
]

-- `trustedHeaderPrincipal(req) ?? mtlsPrincipal(req)`.
unfoldable pub federated_principal : Settings → HttpRequest → Option Principal
federated_principal settings req = elim (trusted_header_principal settings req) [
  | some p ↦ some p
  | none ↦ mtls_principal settings req
]

-- The last character of a text.
last_char : String → String
last_char String.[] = ""
last_char (String.◌∷◌ c s) = let rest = last_char s in if str_eq s "" then String.◌∷◌ c "" else rest

-- `/^Bearer\s+(.+)$/i`, on a header in one line: after the blanks, or the last blank of several.
unfoldable pub bearer_token : Option String → Option String
unfolding trim_start last_char
bearer_token none = none
bearer_token (some header) = elim (after_letters "bearer" header) [
  | none ↦ none
  | some String.[] ↦ none
  | some (String.◌∷◌ c s) ↦
      if is_blank (code c)
      then if str_eq (trim_start s) "" then given_text (some (last_char s)) else some (trim_start s)
      else none
]

-- How `resolvePrincipalFromRequest` ends.
pub data Resolution : Type 0 where
  known : Principal → Resolution
  nobody : Resolution
  unauthorized : String → Resolution

abbrev pub session_principal : SessionData → Principal
session_principal d = record {
  id = d.principal_id;
  type = user;
  workspace_id = d.workspace_id;
  scopes = List.[];
  attributes = none;
}

abbrev pub root_principal : String → Principal
root_principal id = record {
  id = id;
  type = service;
  workspace_id = "default";
  scopes = List.◌∷◌ "*" List.[];
  attributes = none;
}

abbrev pub stored_principal : Principal → Principal
stored_principal p = record p { scopes = List.[]; attributes = none }

module _ {W : Type 0} (redis : Redis W) (codec : SessionCodec)
    (parse_cookie : String → String → Option String)
    (find_by_api_key : String → Option Principal) where
  -- The session id of the cookie `mavio_sid`.
  abbrev pub session_id : HttpRequest → Option String
  session_id req = elim (given_text req.cookie) [
    | none ↦ none
    | some header ↦ given_text (parse_cookie header "mavio_sid")
  ]

  -- Where no credential is known.
  unfoldable pub fallback : Settings → Bool → Resolution
  fallback settings strict = elim (given_text settings.admin_api_key) [
    | none ↦ known (root_principal "dev")
    | some key ↦ if strict then unauthorized "invalid api key" else nobody
  ]

  unfoldable pub resolve_api_key : Settings → String → Bool → Resolution
  unfolding fallback
  resolve_api_key settings token strict = elim (find_by_api_key token) [
    | some p ↦ known (stored_principal p)
    | none ↦ fallback settings strict
  ]

  -- The bearer part, once there is no session.
  unfoldable pub resolve_bearer : Settings → HttpRequest → Bool → Resolution
  unfolding fallback resolve_api_key
  resolve_bearer settings req strict = elim (bearer_token req.authorization) [
    | none ↦ fallback settings strict
    | some token ↦ elim (given_text settings.admin_api_key) [
      | none ↦ resolve_api_key settings token strict
      | some key ↦
          if str_eq token key
          then known (root_principal "admin")
          else resolve_api_key settings token strict
    ]
  ]

  unfoldable pub resolve_principal : Settings → W → HttpRequest → Bool → ℕ → W × Resolution
  unfolding resolve_bearer
  resolve_principal settings w req strict now = elim (federated_principal settings req) [
    | some p ↦ (w, known p)
    | none ↦ elim (session_id req) [
      | none ↦ (w, resolve_bearer settings req strict)
      | some sid ↦
          let (w', session) = read_session redis codec w sid now in
          elim session [
            | some d ↦ (w', known (session_principal d))
            | none ↦ (w', resolve_bearer settings req strict)
          ]
    ]
  ]

-- ===== src/Access/Tests.antt =====
-- Access on concrete requests.
use mavio_mcp.Base.{
  ℕ, ◌≡◌, refl, String, true, Option, none, some, List, [], ◌∷◌, arith, eq_iff, str_eq,
  if◌then◌else◌, suc, ◌+◌, ◌*◌, ltb,
}
use mavio_mcp.Base.Text.{show}
use mavio_mcp.Base.Words.{
  after_prefix, trim_end, after_letters, same_letters, comma_list, trim_start, split_on, trim,
}
use mavio_mcp.Core.{Principal, user, service}
use mavio_mcp.Rbac.{ResourceRef, Decision}
use mavio_mcp.Access.{Url, HttpRequest, Settings}
use mavio_mcp.Access.Csrf.{
  forbidden, has_session_cookie, claimed_origin, is_trusted_origin, csrf_protection,
}
use mavio_mcp.Access.Sessions.{
  SessionData, OidcState, Redis, SessionCodec, create_session, destroy_session, read_session,
  save_state, consume_state,
}
use mavio_mcp.Access.Principals.{
  unauthorized, trusted_header_principal, mtls_principal, federated_principal, bearer_token,
  fallback, resolve_api_key, resolve_bearer, resolve_principal, root_principal,
}
use mavio_mcp.Access.Guards.{
  PermissionRequirement, admitted, forbidden_exception, rbac_guard, api_key_guard, let_in,
}
use mavio_mcp.Access.Origins.{SafeOrigin}
use mavio_mcp.Access.Vouching.{Vouched}
use mavio_mcp.Access.Admission.{Permitted, let_in-Admitted}
use mavio_mcp.Access.Windows.{
  Counters, CounterLaws, check, intercept, passed, asked, min, bucket_key, passed-min,
}

abbrev quiet : HttpRequest
quiet = record {
  method = "GET";
  cookie = none;
  origin = none;
  referer = none;
  authorization = none;
  auth_subject = none;
  auth_type = none;
  auth_workspace = none;
  auth_scopes = none;
  peer = none;
  ip = some "10.0.0.1";
  forwarded_for = none;
  remote_address = none;
}

abbrev settings : Settings
settings = record {
  trusted_origins = some "https://a.example, https://b.example";
  trusted_proxy_enabled = none;
  mtls_enabled = none;
  mtls_workspace = none;
  admin_api_key = some "root-key";
}

abbrev parse_url : String → Option Url
parse_url s = if str_eq s "" then none else some (record { origin = s; hostname = s })

-- A store of one key, whose time to live is kept.
abbrev Cell : Type 0
Cell = Option (String × String × ℕ)

abbrev redis : Redis Cell
redis = record {
  get = λ w now key. elim w [
    | none ↦ none
    | some (k, v, until) ↦ if str_eq k key then if ltb now until then some v else none else none
  ];
  set_ex = λ w now key v ttl. some (key, v, now + ttl * 1000);
  del = λ w key. none;
}

abbrev ann_session : SessionData
ann_session = record {
  principal_id = "ann";
  provider_id = "okta";
  workspace_id = "w";
  email = none;
  display_name = none;
  created_at = 0;
  expires_at = 5000;
}

abbrev login_state : OidcState
login_state = record {
  provider_id = "okta";
  code_verifier = "v";
  nonce = "n";
  state = "s";
  return_to = "/";
}

abbrev codec : SessionCodec
codec = record {
  write_session = λ d. d.principal_id;
  read_session = λ s. if str_eq s "ann" then some ann_session else none;
  write_state = λ d. d.state;
  read_state = λ s. if str_eq s "s" then some login_state else none;
}

abbrev parse_cookie : String → String → Option String
parse_cookie header name = if str_eq header "mavio_sid=1" then some "1" else none

abbrev ann : Principal
ann = record { id = "ann"; type = user; workspace_id = "w"; scopes = []; attributes = none }

abbrev find_by_api_key : String → Option Principal
find_by_api_key token = if str_eq token "k-ann" then some ann else none

abbrev policy : Principal → String → ResourceRef → Decision
policy p action resource = record {
  allowed = str_eq action "server:list";
  reason = "rule";
  matched = none;
}

abbrev lists_servers : PermissionRequirement
lists_servers = record { action = "server:list"; resource = none }

abbrev deletes_servers : PermissionRequirement
deletes_servers = record { action = "server:delete"; resource = none }

-- Ann's browser posts from a page of the first origin.
abbrev post : HttpRequest
post = record quiet {
  method = "POST";
  cookie = some "mavio_sid=1";
  origin = some "https://a.example";
}

abbrev with_key : String → HttpRequest
with_key header = record quiet { authorization = some header }

abbrev logged_in : Cell
logged_in = some ("mavio:sess:1", "ann", 5000)

Opened : Unit {0}
unfolding has_session_cookie claimed_origin is_trusted_origin csrf_protection create_session
    destroy_session read_session save_state consume_state trusted_header_principal mtls_principal
    federated_principal bearer_token fallback resolve_api_key resolve_bearer resolve_principal
    rbac_guard api_key_guard let_in check intercept passed asked after_prefix trim_end after_letters
    same_letters comma_list trim_start split_on trim show
Opened = tt

ann_posts :
    (let_in policy redis codec parse_cookie find_by_api_key parse_url settings logged_in []
      (some lists_servers)
      post
      4000).1.1
    ≡ admitted ann
unfolding Opened
ann_posts = refl

-- Later the session is over, and there is an admin key.
session_over :
    (resolve_principal redis codec parse_cookie find_by_api_key settings logged_in post true 6000).1
    ≡ unauthorized "invalid api key"
unfolding Opened
session_over = refl

evil_page :
    csrf_protection parse_url settings (record post { origin = some "https://evil.example" })
    ≡ forbidden "CSRF: origin https://evil.example not in trusted list"
unfolding Opened
evil_page = refl

tokens :
    (bearer_token (some "bEARER   k-ann") ≡ some "k-ann")
    × ((bearer_token (some "Bearerk-ann") ≡ none) × (bearer_token (some "Bearer  ") ≡ some " "))
unfolding Opened
tokens = (refl, (refl, refl))

denied :
    (let_in policy redis codec parse_cookie find_by_api_key parse_url settings none []
      (some deletes_servers)
      (with_key "Bearer k-ann")
      0).1.1
    ≡ forbidden_exception "denied: server:delete (rule)"
unfolding Opened
denied = refl

root :
    (let_in policy redis codec parse_cookie find_by_api_key parse_url settings none []
      (some deletes_servers)
      (with_key "Bearer root-key")
      0).1.1
    ≡ admitted (root_principal "admin")
unfolding Opened
root = refl

-- A state of the OIDC exchange is consumed once.
once :
    let w = save_state redis codec none login_state 600 0 in
    let (w1, first) = consume_state redis codec w "s" 10 in
    (first ≡ some login_state) × ((consume_state redis codec w1 "s" 20).1 ≡ none)
unfolding Opened
once = (refl, refl)

proxied :
    trusted_header_principal
      (record settings { trusted_proxy_enabled = some "1" })
      (record quiet {
        auth_subject = some "bob";
        auth_type = some "SERVICE";
        auth_scopes = some "a, ,b";
      })
    ≡ some (record {
      id = "bob";
      type = service;
      workspace_id = "default";
      scopes = "a" ∷ ("b" ∷ []);
      attributes = none;
    })
unfolding Opened
proxied = refl

let_in-Admitted_example :
    SafeOrigin parse_url settings post
    × Vouched redis codec parse_cookie find_by_api_key settings logged_in post 4000 ann
    × Permitted policy (some lists_servers) post ann
let_in-Admitted_example =
    let_in-Admitted policy redis codec parse_cookie find_by_api_key parse_url settings logged_in []
      (some lists_servers) post 4000 ann ann_posts

-- Counters that are kept forever.
abbrev forever : Counters (String → ℕ)
forever = record {
  incr_expire =
      λ w now key ttl. ((λ k. if str_eq key k then suc (w k) else w k), some (suc (w key)));
}

abbrev stays : (String → ℕ) → ℕ → String → ℕ
stays w now key = w key

forever_laws : CounterLaws forever stays
forever_laws = record {
  replies = λ w now key ttl. refl;
  keeps = λ w now t key ttl later within. ground (arith, eq_iff key key);
  frames = λ w now t key other ttl apart. ground (arith, eq_iff key other, apart);
}

-- Three requests with one key and one without, in one minute.
abbrev burst : List (HttpRequest × ℕ)
burst =
    (with_key "a", 60000)
    ∷ ((quiet, 60001) ∷ ((with_key "a", 60002) ∷ ((with_key "a", 119999) ∷ [])))

passed-min_example :
    passed forever (bucket_key "a" 1) 1 2 (λ k. 0) burst ≡ min 2 (asked (bucket_key "a" 1) 1 burst)
passed-min_example =
    passed-min forever stays forever_laws (bucket_key "a" 1) 1 1 (λ k. 0) 0 burst
      (λ t later within. refl)
      (omega arith, refl, (omega arith, refl, (omega arith, refl, (omega arith, refl, tt))))

three_asked : asked (bucket_key "a" 1) 1 burst ≡ 3
unfolding Opened
three_asked = refl

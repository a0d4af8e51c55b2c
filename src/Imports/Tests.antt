-- ===== src/Imports/Tests.antt =====
-- Imports at concrete inputs.
use mavio_mcp.Base.{
  ℕ, suc, ◌≡◌, refl, String, Bool, true, false, Option, none, some, List, [], ◌∷◌, map,
}
use mavio_mcp.Json.{str}
use mavio_mcp.Core.{ServerDescriptor}
use mavio_mcp.Registry.Servers.{
  register, update_server, update_spec, approve, reject, get_server, to_descriptor,
}
use mavio_mcp.Registry.Servers.Statements.{snapshot_capabilities, list_servers, latest_capabilities}
use mavio_mcp.Router.{resolved, thrown}
use mavio_mcp.Imports.{ImportSqlBody, sql_tables, SpecCodec, Importers, Imports}
use mavio_mcp.Imports.Records.{track_import, accept, reject_import, list_pending}
use mavio_mcp.Imports.Runs.{
  submit, import_openapi, import_sql, import_graphql_schema, import_mcp_mirror, run_blueprint,
  approve_import,
}
use mavio_mcp.Imports.Approve.{Settled, approve_import-Settled}
use mavio_mcp.Imports.Submit.{post_sql, Waits, serve_import, serve_import-Waits}

imports : Unit {0}
unfolding track_import submit import_openapi import_sql import_graphql_schema import_mcp_mirror
    run_blueprint accept approve_import reject_import list_pending register update_server
    update_spec approve reject get_server to_descriptor snapshot_capabilities list_servers
    latest_capabilities mavio_mcp.Base.Sort.sort_by
imports = tt

abbrev body : ImportSqlBody
body = record {
  target = record {
    id = "db";
    workspace_id = "w";
    project_id = "p";
    tags = none;
    upstream_oauth_provider = some "keycloak";
  };
  dsn = "postgres://x";
  allowed_tables = none;
  read_only = none;
}

abbrev codec : SpecCodec
codec = record { write = λ spec. str "spec"; read = λ v. some (sql_tables body) }

-- The world counts the connections to databases.
abbrev importers : Importers ℕ
importers = record {
  load_openapi = λ w url path. (w, thrown "no document");
  build_blueprint = λ doc base_url. thrown "no document";
  import_postgres = λ w dsn tables. (
    suc w,
    resolved
        (record { server_name = "db"; server_version = "15"; address = "users" ∷ []; tools = [] }),
  );
  import_graphql = λ w endpoint headers. (w, thrown "unreachable");
  import_mcp = λ w transport name. (w, thrown "unreachable");
}

abbrev empty : Imports ℕ
empty = record {
  database = record { servers = []; capability_snapshots = [] };
  world = 0;
  invalidated = [];
  runs = [];
  audit = [];
}

abbrev waiting : Imports ℕ
waiting = (import_sql codec empty body (some "dev") 5).0

imports_tests :
    ((approve_import codec importers waiting "db" (some "root") 9 "s1").1
      ≡ resolved (record { tool_count = 0; server_name = "db" }))
    × ((approve_import codec importers waiting "db" (some "root") 9 "s1").0.world ≡ 1)
    × (waiting.world ≡ 0)
    × ((approve_import codec importers waiting "no" none 9 "s1").1 ≡ thrown "server no")
    × (map (λ (d : ServerDescriptor). d.id) (list_pending (λ a b. false) waiting) ≡ "db" ∷ [])
    × ((reject_import waiting "db" none none 9).0.invalidated ≡ "db" ∷ [])
    × (list_pending (λ a b. false) (reject_import waiting "db" none none 9).0 ≡ [])
unfolding imports
imports_tests = (refl, refl, refl, refl, refl, refl, refl)

approve_import-Settled_example :
    Settled codec importers waiting "db"
      (some "root")
      9
      (approve_import codec importers waiting "db" (some "root") 9 "s1")
approve_import-Settled_example =
    approve_import-Settled codec importers waiting "db" (some "root") 9 "s1"

serve_import-Waits_example :
    Waits codec "db"
      (sql_tables body)
      empty
      (serve_import codec empty (post_sql body) (some "dev") 5)
serve_import-Waits_example = serve_import-Waits codec empty (post_sql body) (some "dev") 5 refl

-- ===== src/Imports/Runs.antt =====
-- apps/server/src/imports.controller.ts: submitting an import, and running its importer at approval.
use Prim.Native.String.{◌++◌}
use mathlib.Core.List.{◌++◌ as append_list}
use mavio_mcp.Base.{ℕ, String, true, false, Option, none, some, [], ◌∷◌}
use mavio_mcp.Json.{Json}
use mavio_mcp.Core.{
  TransportDescriptor, http, sql, graphql, SourceType, from_openapi, from_sql, from_graphql,
  from_mcp, pending,
}
use mavio_mcp.Registry.{value, not_found}
use mavio_mcp.Registry.Servers.{RegisterInput, register, get_server}
use mavio_mcp.Router.{Attempt, resolved, thrown}
use mavio_mcp.Router.Request.{status_text}
use mavio_mcp.Imports.{
  Approved, Blueprint, Found, ImportGraphqlBody, ImportMcpBody, ImportOpenApiBody, ImportSpec,
  ImportSqlBody, Importers, Imports, SpecCodec, Submitted, Target, found_blueprint, kind_of,
  metadata_for, mirrored, no_spec_message, or_default, spec_of, openapi, sql_tables, graphql_schema,
  mcp, other,
}
use mavio_mcp.Imports.Records.{track_import, probe_failed, accept}

module _ {W : Type 0} (importers : Importers W) where
  -- `loadOpenApi`, then `buildBlueprint` on the document.
  abbrev pub built : Attempt Json → Option String → Attempt (Found String)
  built (thrown message) base_url = thrown message
  built (resolved doc) base_url = importers.build_blueprint doc base_url

  unfoldable pub run_blueprint : W → ImportSpec → W × Attempt Blueprint
  run_blueprint w (openapi b) =
      let (w', doc) = importers.load_openapi w b.url b.path in
      (
        w',
        found_blueprint
            (λ address. http (record { base_url = address; headers = none; auth = none }))
            (built doc b.base_url),
      )
  run_blueprint w (sql_tables b) =
      let (w', bp) = importers.import_postgres w b.dsn b.allowed_tables in
      (
        w',
        found_blueprint
            (λ tables. sql (record {
              dsn = b.dsn;
              allowed_tables = some tables;
              read_only = some (or_default true b.read_only);
            }))
            bp,
      )
  run_blueprint w (graphql_schema b) =
      let (w', bp) = importers.import_graphql w b.endpoint b.headers in
      (
        w',
        found_blueprint
            (λ address. graphql (record { endpoint = address; headers = b.headers; auth = none }))
            bp,
      )
  run_blueprint w (mcp b) =
      let (w', bp) = importers.import_mcp w b.transport b.name in (w', mirrored b.transport bp)
  run_blueprint w (other kind) = (w, thrown ("unknown import kind: " ++ kind))

module _ {W : Type 0} (codec : SpecCodec) where
  -- `this.registry.register(...)` and the answer, which all four endpoints share.
  unfoldable pub submit :
      Imports W
      → Target
      → String
      → SourceType
      → TransportDescriptor
      → ImportSpec
      → Option String
      → ℕ
      → Imports W × Attempt Submitted
  unfolding track_import
  submit s t name source_type transport spec submitted_by now =
      let input : RegisterInput = record {
        id = t.id;
        workspace_id = t.workspace_id;
        project_id = t.project_id;
        name = name;
        transport = transport;
        source_type = source_type;
        tags = t.tags;
        version = none;
        metadata = some (append_list (metadata_for t) (("importSpec", codec.write spec) ∷ []));
        submitted_by = submitted_by;
        auto_approve = false;
      } in
      let (database, submitted) = register s.database input now in
      track_import (record s { database = database }) (kind_of spec) t.id
        (resolved (record {
          approval_status = status_text (some (or_default pending submitted.approval_status));
          snapshot_deferred = true;
        }))

  unfoldable pub import_openapi :
      Imports W → ImportOpenApiBody → Option String → ℕ → Imports W × Attempt Submitted
  unfolding submit
  import_openapi s body submitted_by now =
      submit s body.target body.target.id from_openapi
        (http (record { base_url = or_default "" body.base_url; headers = none; auth = none }))
        (openapi body) submitted_by now

  unfoldable pub import_sql :
      Imports W → ImportSqlBody → Option String → ℕ → Imports W × Attempt Submitted
  unfolding submit
  import_sql s body submitted_by now =
      submit s body.target body.target.id from_sql
        (sql (record {
          dsn = body.dsn;
          allowed_tables = some (or_default [] body.allowed_tables);
          read_only = some (or_default true body.read_only);
        }))
        (sql_tables body) submitted_by now

  unfoldable pub import_graphql_schema :
      Imports W → ImportGraphqlBody → Option String → ℕ → Imports W × Attempt Submitted
  unfolding submit
  import_graphql_schema s body submitted_by now =
      submit s body.target body.target.id from_graphql
        (graphql (record { endpoint = body.endpoint; headers = body.headers; auth = none }))
        (graphql_schema body) submitted_by now

  unfoldable pub import_mcp_mirror :
      Imports W → ImportMcpBody → Option String → ℕ → Imports W × Attempt Submitted
  unfolding submit
  import_mcp_mirror s body submitted_by now =
      submit s body.target (or_default body.target.id body.name) from_mcp body.transport (mcp body)
        submitted_by now

module _ {W : Type 0} (codec : SpecCodec) (importers : Importers W) where
  -- `approve(id, req)` by a principal, or by nobody that is known.
  unfoldable pub approve_import :
      Imports W → String → Option String → ℕ → String → Imports W × Attempt Approved
  unfolding run_blueprint accept
  approve_import s id principal_id now snapshot_id = elim (get_server s.database id) [
    | not_found message ↦ (s, thrown message)
    | value server ↦ elim (spec_of codec server) [
      | none ↦ (s, thrown (no_spec_message id))
      | some spec ↦
          let (w, result) = run_blueprint importers s.world spec in
          elim result [
            | thrown message ↦ (probe_failed (record s { world = w }) id message, thrown message)
            | resolved bp ↦
                accept (record s { world = w }) id (or_default "unknown" principal_id) spec bp now
                  snapshot_id
          ]
    ]
  ]

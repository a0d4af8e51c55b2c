-- ===== src/Imports/Submit.antt =====
-- apps/server/src/imports.controller.ts: a submission waits, and what it holds is what is run.
use mathlib.Core.List.{◌++◌ as append_list}
use mavio_mcp.Base.{
  ℕ, String, true, false, Option, none, some, [], ◌∷◌, ◌≡◌, refl, ap, ◌∙◌, inl, inr, arith,
  Bool-cases, Option-cases, str_eq,
}
use mavio_mcp.Base.Map.{Map, get, get-set_self}
use mavio_mcp.Json.{Json}
use mavio_mcp.Core.{TransportDescriptor, SourceType, pending}
use mavio_mcp.Registry.Servers.{ServerRow, RegisterInput, to_descriptor, register, registered}
use mavio_mcp.Imports.Approve.{Attempt-cases, failed_answer, accepted_answer, accept-world}
use mavio_mcp.Router.Request.{status_text}
use mavio_mcp.Router.{Attempt, resolved}
use mavio_mcp.Imports.{
  Target, openapi, sql_tables, graphql_schema, mcp, ImportSpec, SpecCodec, Importers, Imports,
  Submitted, or_default, ImportOpenApiBody, ImportSqlBody, ImportGraphqlBody, ImportMcpBody,
  spec_of, metadata_for,
}
use mavio_mcp.Imports.Records.{track_import}
use mavio_mcp.Imports.Runs.{
  submit, import_openapi, import_sql, import_graphql_schema, import_mcp_mirror, run_blueprint,
  approve_import,
}

-- A request to one of the four endpoints.
pub data ImportRequest : Type 0 where
  post_openapi : ImportOpenApiBody → ImportRequest
  post_sql : ImportSqlBody → ImportRequest
  post_graphql : ImportGraphqlBody → ImportRequest
  post_mcp : ImportMcpBody → ImportRequest

abbrev pub spec_in : ImportRequest → ImportSpec
spec_in (post_openapi b) = openapi b
spec_in (post_sql b) = sql_tables b
spec_in (post_graphql b) = graphql_schema b
spec_in (post_mcp b) = mcp b

abbrev pub target_of : ImportRequest → Target
target_of (post_openapi b) = b.target
target_of (post_sql b) = b.target
target_of (post_graphql b) = b.target
target_of (post_mcp b) = b.target

get-import_entry :
    (t : Target) (v : Json)
    → get "importSpec" (append_list (metadata_for t) (("importSpec", v) ∷ [])) ≡ some v
get-import_entry t v = elim (Option-cases t.upstream_oauth_provider) [
  | inl absent ↦ rw (metadata_for, absent) refl
  | inr (p, given) ↦ elim (Bool-cases (str_eq p "")) [
    | inl blank ↦ rw (metadata_for, given) (rw blank refl)
    | inr named ↦ rw (metadata_for, given) (rw named refl)
  ]
]

-- A row that `register` writes without auto-approval.
registered-pending :
    (input : RegisterInput) (now : ℕ) (o : Option ServerRow) (m : Map Json)
    → input.auto_approve ≡ false
    → input.metadata ≡ some m
    → ((registered input now o).approval_status ≡ pending)
      × ((registered input now o).approved_by ≡ none)
      × ((registered input now o).metadata ≡ m)
registered-pending input now none m manual e = ground (arith, manual, e)
registered-pending input now (some row) m manual e = (refl, refl, ground (arith, e))

module _ {W : Type 0} (codec : SpecCodec) where
  abbrev pub serve_import :
      Imports W → ImportRequest → Option String → ℕ → Imports W × Attempt Submitted
  serve_import s (post_openapi b) who now = import_openapi codec s b who now
  serve_import s (post_sql b) who now = import_sql codec s b who now
  serve_import s (post_graphql b) who now = import_graphql_schema codec s b who now
  serve_import s (post_mcp b) who now = import_mcp_mirror codec s b who now

  -- The row waits for an approval, holds the spec, and no server was touched.
  pub record Waits (id : String) (spec : ImportSpec) (s : Imports W)
      (r : Imports W × Attempt Submitted) : Type 0 where
    pub row : ServerRow
    pub stored : get id r.0.database.servers ≡ some row
    pub status : row.approval_status ≡ pending
    pub nobody : row.approved_by ≡ none
    pub holds : spec_of codec (to_descriptor row) ≡ some spec
    pub untouched : r.0.world ≡ s.world
    pub answer : r.1 ≡ resolved (record { approval_status = "pending"; snapshot_deferred = true })

  submit-Waits :
      (s : Imports W) (t : Target) (name : String) (source : SourceType)
      (transport : TransportDescriptor) (spec : ImportSpec) (who : Option String) (now : ℕ)
      → codec.read (codec.write spec) ≡ some spec
      → Waits t.id spec s (submit codec s t name source transport spec who now)
  unfolding submit register track_import to_descriptor
  submit-Waits s t name source transport spec who now reads =
      let m = append_list (metadata_for t) (("importSpec", codec.write spec) ∷ []) in
      let input : RegisterInput = record {
        id = t.id;
        workspace_id = t.workspace_id;
        project_id = t.project_id;
        name = name;
        transport = transport;
        source_type = source;
        tags = t.tags;
        version = none;
        metadata = some m;
        submitted_by = who;
        auto_approve = false;
      } in
      let written = registered input now (get t.id s.database.servers) in
      let (waiting, nobody, kept) =
        registered-pending input now (get t.id s.database.servers) m refl refl in
      record {
        row = written;
        stored = get-set_self t.id written s.database.servers;
        status = waiting;
        nobody = nobody;
        holds =
            ap
              (λ (xs : Map Json). elim (get "importSpec" xs) [
                | none ↦ none
                | some v ↦ codec.read v
              ])
              kept
            ∙ ap (λ (o : Option Json). elim o [ none ↦ none | some v ↦ codec.read v ])
                (get-import_entry t (codec.write spec))
            ∙ reads;
        untouched = refl;
        answer =
            ap
              (λ status.
                resolved (record {
                  approval_status = status_text (some status);
                  snapshot_deferred = true;
                }))
              waiting;
      }

  -- A submission to any of the four endpoints leaves the upstream servers alone; its server waits
  -- for an approval by nobody so far, also where it was approved before, and its metadata reads
  -- back as the spec that was submitted.
  pub serve_import-Waits :
      (s : Imports W) (request : ImportRequest) (who : Option String) (now : ℕ)
      → codec.read (codec.write (spec_in request)) ≡ some (spec_in request)
      → Waits (target_of request).id (spec_in request) s (serve_import s request who now)
  unfolding import_openapi import_sql import_graphql_schema import_mcp_mirror
  serve_import-Waits s (post_openapi b) who now reads =
      submit-Waits s b.target _ _ _ _ who now reads
  serve_import-Waits s (post_sql b) who now reads = submit-Waits s b.target _ _ _ _ who now reads
  serve_import-Waits s (post_graphql b) who now reads =
      submit-Waits s b.target _ _ _ _ who now reads
  serve_import-Waits s (post_mcp b) who now reads = submit-Waits s b.target _ _ _ _ who now reads

  -- An approval right after a submission changes the upstream servers as the blueprint of what was
  -- submitted does, once, from what they were before the submission.
  pub serve_import-approve :
      (importers : Importers W) (s : Imports W) (request : ImportRequest) (who : Option String)
      (now : ℕ) (approver : Option String) (later : ℕ) (snapshot_id : String)
      → codec.read (codec.write (spec_in request)) ≡ some (spec_in request)
      → (approve_import codec importers
          (serve_import s request who now).0
          (target_of request).id
          approver
          later
          snapshot_id).0.world
        ≡ (run_blueprint importers s.world (spec_in request)).0
  serve_import-approve importers s request who now approver later snapshot_id reads =
      let w = serve_import-Waits s request who now reads in
      let t = (serve_import s request who now).0 in
      elim (Attempt-cases (run_blueprint importers t.world (spec_in request)).1) [
        | inl (m, failed) ↦
            ap (λ r. r.0.world)
              (failed_answer codec importers t (target_of request).id approver later snapshot_id
                w.row w.stored (spec_in request) w.holds m failed)
            ∙ ap (λ v. (run_blueprint importers v (spec_in request)).0) w.untouched
        | inr (bp, found) ↦
            ap (λ r. r.0.world)
              (accepted_answer codec importers t (target_of request).id approver later snapshot_id
                w.row w.stored (spec_in request) w.holds bp found)
            ∙ accept-world codec importers
                (record t { world = (run_blueprint importers t.world (spec_in request)).0 })
                (target_of request).id (or_default "unknown" approver) (spec_in request) bp later
                snapshot_id w.row w.stored
            ∙ ap (λ v. (run_blueprint importers v (spec_in request)).0) w.untouched
      ]

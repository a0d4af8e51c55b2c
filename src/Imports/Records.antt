-- ===== src/Imports/Records.antt =====
-- apps/server/src/imports.controller.ts: what is written of an import, in the registry, the audit and the
-- records of importers.
-- Statements of the database and `router.invalidate` succeed here.
use mavio_mcp.Base.{ℕ, String, Bool, Option, none, some, List, ◌∷◌}
use mavio_mcp.Json.{num, str, obj, field, end}
use mavio_mcp.Core.{pending, ServerDescriptor}
use mavio_mcp.Registry.{value, not_found}
use mavio_mcp.Registry.Servers.{SpecPatch, update_spec, approve, reject}
use mavio_mcp.Registry.Servers.Statements.{only, list_servers, snapshot_capabilities}
use mavio_mcp.Router.{Attempt, resolved, thrown}
use mavio_mcp.Imports.{Approved, Blueprint, ImportSpec, Imports, kind_of, or_default}

module _ {W : Type 0} where
  -- `trackImport` on a body that resolves, or throws and is thrown again.
  unfoldable pub track_import :
      {A : Type 0} → Imports W → String → String → Attempt A → Imports W × Attempt A
  track_import s kind server (resolved a) = (
    record s {
      runs = record { kind = kind; outcome = "ok" } ∷ s.runs;
      audit =
          record {
            action = "server.import.submit";
            server = server;
            kind = some kind;
            outcome = "ok";
            metadata = obj (field "kind" (str kind) end);
          }
          ∷ s.audit;
    },
    resolved a,
  )
  track_import s kind server (thrown message) = (
    record s {
      runs = record { kind = kind; outcome = "error" } ∷ s.runs;
      audit =
          record {
            action = "server.import.submit";
            server = server;
            kind = some kind;
            outcome = "error";
            metadata = obj (field "kind" (str kind) (field "error" (str message) end));
          }
          ∷ s.audit;
    },
    thrown message,
  )

  abbrev pub probe_failed : Imports W → String → String → Imports W
  probe_failed s id message = record s {
    audit =
        record {
          action = "server.approve";
          server = id;
          kind = none;
          outcome = "error";
          metadata = obj (field "phase" (str "probe") (field "error" (str message) end));
        }
        ∷ s.audit;
  }

  abbrev pub approval_done : Imports W → String → ImportSpec → Blueprint → Imports W
  approval_done s id spec bp = record s {
    invalidated = id ∷ s.invalidated;
    audit =
        record {
          action = "server.approve";
          server = id;
          kind = none;
          outcome = "ok";
          metadata =
              obj (field "toolCount" (num bp.tool_count) (field "kind" (str (kind_of spec)) end));
        }
        ∷ s.audit;
  }

  -- `approve` once the blueprint is there. The last argument is the id of the snapshot.
  unfoldable pub accept :
      Imports W
      → String
      → String
      → ImportSpec
      → Blueprint
      → ℕ
      → String
      → Imports W × Attempt Approved
  accept s id approver spec bp now snapshot_id =
      let patch : SpecPatch = record {
        name = some bp.server_name;
        transport = some bp.transport;
        version = some (some bp.server_version);
        metadata = none;
      } in
      let (updated, patched) = update_spec s.database id patch now in
      elim patched [
        | not_found message ↦ (record s { database = updated }, thrown message)
        | value _ ↦
            let snapped =
              snapshot_capabilities updated snapshot_id id bp.server_version bp.capabilities now in
            let (database, result) = approve snapped id approver now in
            elim result [
              | not_found message ↦ (record s { database = database }, thrown message)
              | value _ ↦ (
                approval_done (record s { database = database }) id spec bp,
                resolved (record { tool_count = bp.tool_count; server_name = bp.server_name }),
              )
            ]
      ]

  unfoldable pub reject_import :
      Imports W → String → Option String → Option String → ℕ → Imports W × Attempt (Unit {0})
  reject_import s id principal_id reason now =
      let (database, result) =
        reject s.database id (or_default "unknown" principal_id) (or_default "" reason) now in
      elim result [
        | not_found message ↦ (record s { database = database }, thrown message)
        | value _ ↦ (
          record s {
            database = database;
            invalidated = id ∷ s.invalidated;
            audit =
                record {
                  action = "server.reject";
                  server = id;
                  kind = none;
                  outcome = "ok";
                  metadata = obj (field "reason" (str (or_default "" reason)) end);
                }
                ∷ s.audit;
          },
          resolved tt,
        )
      ]

  unfoldable pub list_pending : (String → String → Bool) → Imports W → List ServerDescriptor
  list_pending text_before s =
      list_servers text_before s.database
        (record { workspace_id = none; project_id = none; approval_status = some (only pending) })

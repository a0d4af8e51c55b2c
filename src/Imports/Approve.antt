-- ===== src/Imports/Approve.antt =====
-- apps/server/src/imports.controller.ts: what an approval does, and what a failed one leaves.
use mathlib.Core.Path.{subst}
use mavio_mcp.Base.{
  ℕ, String, Option, none, some, List, ◌∷◌, ◌≡◌, refl, sym, ap, ◌⊎◌, inl, inr, Option-cases,
}
use mavio_mcp.Base.Map.{get, get-set_self}
use mavio_mcp.Core.{approved}
use mavio_mcp.Registry.{value}
use mavio_mcp.Registry.Servers.{
  ServerRow, Database, SpecPatch, to_descriptor, update_server, update_spec, approve, get_server,
  patched, approved_row, store, missing_server,
}
use mavio_mcp.Registry.Servers.Statements.{snapshot_capabilities}
use mavio_mcp.Router.{Attempt, resolved, thrown}
use mavio_mcp.Imports.{
  ImportSpec, SpecCodec, Importers, no_spec_message, Blueprint, Imports, Approved, or_default,
  spec_of,
}
use mavio_mcp.Imports.Records.{probe_failed, approval_done, accept}
use mavio_mcp.Imports.Runs.{run_blueprint, approve_import}

pub Attempt-cases {ℓ} :
    {A : Type ℓ} (r : Attempt A) → ((m : String) × (r ≡ thrown m)) ⊎ ((a : A) × (r ≡ resolved a))
Attempt-cases (thrown m) = inl (m, refl)
Attempt-cases (resolved a) = inr (a, refl)

update_server-found :
    (db : Database) (id : String) (change : ServerRow → ServerRow) (row : ServerRow)
    → get id db.servers ≡ some row
    → update_server db id change ≡ (store db id (change row), value (to_descriptor (change row)))
unfolding update_server
update_server-found db id change row present = simp (update_server, present)

abbrev pub patch_of : Blueprint → SpecPatch
patch_of bp = record {
  name = some bp.server_name;
  transport = some bp.transport;
  version = some (some bp.server_version);
  metadata = none;
}

abbrev pub accepted_row : Blueprint → String → ℕ → ServerRow → ServerRow
accepted_row bp approver now row = approved_row approver now (patched (patch_of bp) now row)

abbrev pub snapped : Database → String → Blueprint → ℕ → String → ServerRow → Database
snapped db id bp now snapshot_id row =
    snapshot_capabilities (store db id (patched (patch_of bp) now row)) snapshot_id id
      bp.server_version bp.capabilities now

module _ {W : Type 0} (codec : SpecCodec) (importers : Importers W) where
  -- The row after the approval has what the blueprint found.
  pub record Accepted (bp : Blueprint) (approver : String) (now : ℕ) (id : String)
      (before : List String) (t : Imports W) : Type 0 where
    pub row : ServerRow
    pub stored : get id t.database.servers ≡ some row
    pub transport : row.transport ≡ bp.transport
    pub version : row.version ≡ some bp.server_version
    pub status : row.approval_status ≡ approved
    pub approver_kept : row.approved_by ≡ some approver
    pub told : t.invalidated ≡ id ∷ before

  pub accept-found :
      (s : Imports W) (id approver : String) (spec : ImportSpec) (bp : Blueprint) (now : ℕ)
      (snapshot_id : String) (row : ServerRow)
      → get id s.database.servers ≡ some row
      → accept s id approver spec bp now snapshot_id ≡ (
        approval_done
            (record s {
              database =
                  store
                    (snapped s.database id bp now snapshot_id row)
                    id
                    (accepted_row bp approver now row);
            })
            id
            spec
            bp,
        resolved (record { tool_count = bp.tool_count; server_name = bp.server_name }),
      )
  unfolding accept update_spec approve snapshot_capabilities
  accept-found s id approver spec bp now snapshot_id row present =
      let change = patched (patch_of bp) now in
      simp (
        accept,
        update_server-found s.database id change row present,
        update_server-found (snapped s.database id bp now snapshot_id row) id
            (approved_row approver now) (change row)
            (get-set_self id (change row) s.database.servers),
      )

  -- What is known of an approval by its outcome.
  abbrev pub Settled :
      Imports W → String → Option String → ℕ → Imports W × Attempt Approved → Type 0
  Settled s id principal_id now r =
      ((message : String)
        → r.1 ≡ thrown message
        → (r.0.database ≡ s.database) × (r.0.invalidated ≡ s.invalidated))
      × ((done : Approved)
          → r.1 ≡ resolved done
          → (row : ServerRow) × (spec : ImportSpec) × (bp : Blueprint) × (get id s.database.servers
              ≡ some row)
            × (spec_of codec (to_descriptor row) ≡ some spec)
            × ((run_blueprint importers s.world spec).1 ≡ resolved bp)
            × (r.0.world ≡ (run_blueprint importers s.world spec).0)
            × Accepted bp (or_default "unknown" principal_id) now id s.invalidated r.0)

  accept-Accepted :
      (s : Imports W) (id approver : String) (spec : ImportSpec) (bp : Blueprint) (now : ℕ)
      (snapshot_id : String) (row : ServerRow)
      → get id s.database.servers ≡ some row
      → Accepted bp approver now id s.invalidated (accept s id approver spec bp now snapshot_id).0
  accept-Accepted s id approver spec bp now snapshot_id row present =
      subst (λ r. Accepted bp approver now id s.invalidated r.0)
        (sym (accept-found s id approver spec bp now snapshot_id row present))
        (record {
          row = accepted_row bp approver now row;
          stored =
              get-set_self id (accepted_row bp approver now row)
                (snapped s.database id bp now snapshot_id row).servers;
          transport = refl;
          version = refl;
          status = refl;
          approver_kept = refl;
          told = refl;
        })

  pub accept-world :
      (s : Imports W) (id approver : String) (spec : ImportSpec) (bp : Blueprint) (now : ℕ)
      (snapshot_id : String) (row : ServerRow)
      → get id s.database.servers ≡ some row
      → (accept s id approver spec bp now snapshot_id).0.world ≡ s.world
  accept-world s id approver spec bp now snapshot_id row present =
      ap (λ r. r.0.world) (accept-found s id approver spec bp now snapshot_id row present)

  module _ (s : Imports W) (id : String) (principal_id : Option String) (now : ℕ)
      (snapshot_id : String) where
    abbrev pub outcome : Imports W × Attempt Approved
    outcome = approve_import codec importers s id principal_id now snapshot_id

    missing_answer : get id s.database.servers ≡ none → outcome ≡ (s, thrown (missing_server id))
    unfolding approve_import get_server
    missing_answer missing = simp (approve_import, get_server, missing)

    module _ (row : ServerRow) (present : get id s.database.servers ≡ some row) where
      unspecified_answer :
          spec_of codec (to_descriptor row) ≡ none → outcome ≡ (s, thrown (no_spec_message id))
      unfolding approve_import get_server
      unspecified_answer unspecified = simp (approve_import, get_server, present, unspecified)

      module _ (spec : ImportSpec) (known : spec_of codec (to_descriptor row) ≡ some spec) where
        pub failed_answer :
            (m : String)
            → (run_blueprint importers s.world spec).1 ≡ thrown m
            → outcome ≡ (
              probe_failed (record s { world = (run_blueprint importers s.world spec).0 }) id m,
              thrown m,
            )
        unfolding approve_import get_server
        failed_answer m failed = simp (approve_import, get_server, present, known, failed)

        pub accepted_answer :
            (bp : Blueprint)
            → (run_blueprint importers s.world spec).1 ≡ resolved bp
            → outcome
              ≡ accept
                  (record s { world = (run_blueprint importers s.world spec).0 })
                  id
                  (or_default "unknown" principal_id)
                  spec
                  bp
                  now
                  snapshot_id
        unfolding approve_import get_server
        accepted_answer bp found = simp (approve_import, get_server, present, known, found)

    -- An approval that throws leaves the registry and tells the router nothing. One that is done
    -- ran the blueprint of the spec that the row held, once, and the row then has its transport and
    -- version and is approved by the caller, and the router is told.
    pub approve_import-Settled : Settled s id principal_id now outcome
    approve_import-Settled = elim (Option-cases (get id s.database.servers)) [
      | inl missing ↦
          subst (Settled s id principal_id now) (sym (missing_answer missing))
            (λ m e. (refl, refl), λ done e. absurd (cc e))
      | inr (row, present) ↦ elim (Option-cases (spec_of codec (to_descriptor row))) [
        | inl unspecified ↦
            subst (Settled s id principal_id now) (sym (unspecified_answer row present unspecified))
              (λ m e. (refl, refl), λ done e. absurd (cc e))
        | inr (spec, known) ↦ elim (Attempt-cases (run_blueprint importers s.world spec).1) [
          | inl (m, failed) ↦
              subst (Settled s id principal_id now)
                (sym (failed_answer row present spec known m failed))
                (λ m' e. (refl, refl), λ done e. absurd (cc e))
          | inr (bp, found) ↦
              subst (Settled s id principal_id now)
                (sym (accepted_answer row present spec known bp found))
                (let s' : Imports W = record s {
                  world = (run_blueprint importers s.world spec).0;
                } in
                  let at =
                    accept-found s' id (or_default "unknown" principal_id) spec bp now snapshot_id
                      row present in
                  (
                    λ m e. absurd (cc (e, ap (λ r. r.1) at)),
                    λ done e. (
                      row,
                      spec,
                      bp,
                      present,
                      known,
                      found,
                      ap (λ r. r.0.world) at,
                      accept-Accepted s' id (or_default "unknown" principal_id) spec bp now
                          snapshot_id row present,
                    ),
                  ))
        ]
      ]
    ]

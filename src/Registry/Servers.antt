-- ===== src/Registry/Servers.antt =====
-- packages/registry/src/index.ts: `Registry`, over the tables `servers` and
-- `capability_snapshots`. The clock and the ids of snapshots are arguments, and so is the order of
-- texts by which the database sorts.
pub mod Approval
pub mod Statements
pub mod Listing
mod Tests
use Prim.Native.String.{◌++◌}
use mavio_mcp.Base.{
  ℕ, String, Bool, true, false, Option, none, some, List, [], ◌∷◌, map, leb, str_eq, if◌then◌else◌,
  keep, find,
}
use mavio_mcp.Base.Map.{Map, get, set, delete, values}
use mavio_mcp.Json.{Json}
use mavio_mcp.Core.{
  TransportDescriptor, ServerCapabilities, SourceType, ServerStatus, unknown, ApprovalStatus,
  pending, approved, rejected, ServerDescriptor,
}
use mavio_mcp.Registry.{Result, value, not_found}

pub record RegisterInput : Type 0 where
  pub id : String
  pub workspace_id : String
  pub project_id : String
  pub name : String
  pub transport : TransportDescriptor
  pub source_type : SourceType
  pub tags : Option (List String)
  pub version : Option String
  pub metadata : Option (Map Json)
  pub submitted_by : Option String
  pub auto_approve : Bool

pub record ServerRow : Type 0 where
  pub id : String
  pub workspace_id : String
  pub project_id : String
  pub name : String
  pub source_type : SourceType
  pub transport : TransportDescriptor
  pub version : Option String
  pub metadata : Map Json
  pub tags : List String
  pub status : ServerStatus
  pub updated_at : ℕ
  pub approval_status : ApprovalStatus
  pub submitted_by : Option String
  pub approved_by : Option String
  pub approved_at : Option ℕ
  pub rejection_reason : Option String

pub record SnapshotRow : Type 0 where
  pub id : String
  pub server_id : String
  pub version : String
  pub capabilities : ServerCapabilities
  pub taken_at : ℕ

pub record Database : Type 0 where
  pub servers : Map ServerRow
  pub capability_snapshots : List SnapshotRow

abbrev or_default {ℓ} : {A : Type ℓ} → A → Option A → A
or_default d none = d
or_default d (some a) = a

unfoldable pub to_descriptor : ServerRow → ServerDescriptor
to_descriptor row = record {
  id = row.id;
  workspace_id = row.workspace_id;
  project_id = row.project_id;
  name = row.name;
  transport = row.transport;
  source_type = row.source_type;
  tags = some row.tags;
  version = row.version;
  metadata = some row.metadata;
  status = some row.status;
  last_checked_at = some row.updated_at;
  approval_status = some row.approval_status;
  submitted_by = row.submitted_by;
  approved_by = row.approved_by;
  approved_at = row.approved_at;
  rejection_reason = row.rejection_reason;
}

-- The row that `register` inserts.
abbrev pub new_row : RegisterInput → ℕ → ServerRow
new_row input now = record {
  id = input.id;
  workspace_id = input.workspace_id;
  project_id = input.project_id;
  name = input.name;
  source_type = input.source_type;
  transport = input.transport;
  version = input.version;
  metadata = or_default [] input.metadata;
  tags = or_default [] input.tags;
  status = unknown;
  updated_at = now;
  approval_status = if input.auto_approve then approved else pending;
  submitted_by = input.submitted_by;
  approved_by = if input.auto_approve then input.submitted_by else none;
  approved_at = if input.auto_approve then some now else none;
  rejection_reason = none;
}

-- The row after the conflict clause of `register`.
abbrev pub resubmitted : RegisterInput → ℕ → ServerRow → ServerRow
resubmitted input now row = record row {
  name = input.name;
  transport = input.transport;
  tags = or_default [] input.tags;
  metadata = or_default [] input.metadata;
  approval_status = pending;
  submitted_by = input.submitted_by;
  approved_by = none;
  approved_at = none;
  rejection_reason = none;
  updated_at = now;
}

abbrev pub registered : RegisterInput → ℕ → Option ServerRow → ServerRow
registered input now none = new_row input now
registered input now (some row) = resubmitted input now row

abbrev pub store : Database → String → ServerRow → Database
store db id row = record db { servers = set id row db.servers }

unfoldable pub register : Database → RegisterInput → ℕ → Database × ServerDescriptor
register db input now =
    let row = registered input now (get input.id db.servers) in
    (store db input.id row, to_descriptor row)

abbrev pub missing_server : String → String
missing_server id = "server " ++ id

-- `update ... where id = ... returning *`, and the error where there is no row.
unfoldable pub update_server :
    Database → String → (ServerRow → ServerRow) → Database × Result ServerDescriptor
update_server db id change = elim (get id db.servers) [
  | none ↦ (db, not_found (missing_server id))
  | some row ↦ (store db id (change row), value (to_descriptor (change row)))
]

pub record SpecPatch : Type 0 where
  pub name : Option String
  pub transport : Option TransportDescriptor
  pub version : Option (Option String)
  pub metadata : Option (Map Json)

abbrev pub patched : SpecPatch → ℕ → ServerRow → ServerRow
patched patch now row = record row {
  updated_at = now;
  name = or_default row.name patch.name;
  transport = or_default row.transport patch.transport;
  version = or_default row.version patch.version;
  metadata = or_default row.metadata patch.metadata;
}

unfoldable pub update_spec : Database → String → SpecPatch → ℕ → Database × Result ServerDescriptor
update_spec db id patch now = update_server db id (patched patch now)

abbrev pub approved_row : String → ℕ → ServerRow → ServerRow
approved_row approver now row = record row {
  approval_status = approved;
  approved_by = some approver;
  approved_at = some now;
  rejection_reason = none;
  updated_at = now;
}

unfoldable pub approve : Database → String → String → ℕ → Database × Result ServerDescriptor
approve db id approver now = update_server db id (approved_row approver now)

abbrev pub rejected_row : String → String → ℕ → ServerRow → ServerRow
rejected_row approver reason now row = record row {
  approval_status = rejected;
  approved_by = some approver;
  approved_at = some now;
  rejection_reason = some reason;
  updated_at = now;
}

unfoldable pub reject : Database → String → String → String → ℕ → Database × Result ServerDescriptor
reject db id approver reason now = update_server db id (rejected_row approver reason now)

unfoldable pub unregister : Database → String → Database × Result Bool
unregister db id = elim (get id db.servers) [
  | none ↦ (db, not_found (missing_server id))
  | some row ↦ (record db { servers = delete id db.servers }, value true)
]

unfoldable pub get_server : Database → String → Result ServerDescriptor
get_server db id = elim (get id db.servers) [
  | none ↦ not_found (missing_server id)
  | some row ↦ value (to_descriptor row)
]

abbrev pub with_status : ServerStatus → ℕ → ServerRow → ServerRow
with_status status now row = record row { status = status; updated_at = now }

unfoldable pub update_status : Database → String → ServerStatus → ℕ → Database
update_status db id status now = (update_server db id (with_status status now)).0

-- ===== src/Registry/Servers/Statements.antt =====
-- packages/registry/src/index.ts: the queries of `Registry`, on the rows of the tables.
use mavio_mcp.Base.{
  ℕ, zero, suc, String, Bool, true, false, ◌&&◌, Option, none, some, List, [], ◌∷◌, map, ltb,
  str_eq, if◌then◌else◌, keep, find,
}
use mavio_mcp.Base.Map.{values}
use mavio_mcp.Base.Sort.{sort_by}
use mavio_mcp.Core.{
  ServerCapabilities, ApprovalStatus, pending, approved, rejected, ServerDescriptor,
}
use mavio_mcp.Registry.Servers.{ServerRow, SnapshotRow, Database, to_descriptor}

abbrev pub same_status : ApprovalStatus → ApprovalStatus → Bool
same_status pending pending = true
same_status approved approved = true
same_status rejected rejected = true
same_status _ _ = false

pub data StatusFilter : Type 0 where
  any_status : StatusFilter
  only : ApprovalStatus → StatusFilter

pub record ListFilter : Type 0 where
  pub workspace_id : Option String
  pub project_id : Option String
  pub approval_status : Option StatusFilter

-- `if (filter.x) q.where(column, "=", filter.x)`.
abbrev pub filter_text : Option String → String → Bool
filter_text none column = true
filter_text (some s) column = if str_eq s "" then true else str_eq column s

abbrev pub filter_status : Option StatusFilter → ApprovalStatus → Bool
filter_status none status = same_status status approved
filter_status (some any_status) status = true
filter_status (some (only s)) status = same_status status s

abbrev pub selected : ListFilter → ServerRow → Bool
selected f row =
    filter_text f.workspace_id row.workspace_id
    && (filter_text f.project_id row.project_id
        && filter_status f.approval_status row.approval_status)

unfoldable pub list_servers :
    (String → String → Bool) → Database → ListFilter → List ServerDescriptor
list_servers text_before db f =
    map to_descriptor
      (sort_by (λ a b. text_before a.id b.id) (keep (selected f) (values db.servers)))

unfoldable pub snapshot_capabilities :
    Database → String → String → String → ServerCapabilities → ℕ → Database
snapshot_capabilities db id server_id version capabilities now = record db {
  capability_snapshots =
      record {
        id = id;
        server_id = server_id;
        version = version;
        capabilities = capabilities;
        taken_at = now;
      }
      ∷ db.capability_snapshots;
}

-- The snapshots of a server, the newest first.
abbrev pub snapshots_of : Database → String → List SnapshotRow
snapshots_of db server_id =
    sort_by (λ a b. ltb b.taken_at a.taken_at)
      (keep (λ s. str_eq s.server_id server_id) db.capability_snapshots)

abbrev pub first_of : List SnapshotRow → Option ServerCapabilities
first_of [] = none
first_of (s ∷ ss) = some s.capabilities

unfoldable pub latest_capabilities : Database → String → Option ServerCapabilities
latest_capabilities db server_id = first_of (snapshots_of db server_id)

abbrev take_first : {A : Type 0} → ℕ → List A → List A
take_first zero xs = []
take_first (suc n) [] = []
take_first (suc n) (x ∷ xs) = x ∷ take_first n xs

unfoldable pub list_snapshots : Database → String → Option ℕ → List SnapshotRow
list_snapshots db server_id none = take_first 25 (snapshots_of db server_id)
list_snapshots db server_id (some limit) = take_first limit (snapshots_of db server_id)

unfoldable pub get_snapshot : Database → String → Option SnapshotRow
get_snapshot db id = find (λ s. str_eq s.id id) db.capability_snapshots

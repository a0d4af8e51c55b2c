-- ===== src/Registry.antt =====
-- packages/registry/src: the repositories. A table is the map of its rows by their primary key; a
-- statement of the database does what SQL says of it, and a JSON column holds the value itself.
pub mod Servers
pub mod Diff
pub mod Routes
pub mod Principals
use Prim.Native.String.{◌++◌}
use mavio_mcp.Base.{String}

-- A promise that resolves, or rejects with `NotFoundError`; the text is what was not found.
pub data Result {ℓ} (A : Type ℓ) : Type ℓ where
  value : A → Result A
  not_found : String → Result A

-- ===== src/UpstreamAuth/Admin/Tests.antt =====
-- The vault_admin of the vault at concrete inputs.
use mavio_mcp.Base.{
  ℕ, ◌<◌, ◌≡◌, refl, arith, String, Bool, true, false, Option, none, some, List, [], ◌∷◌, ltb, All,
}
use mavio_mcp.UpstreamAuth.Keyring
use mavio_mcp.UpstreamAuth.Keyring.{Checked, fine, mavio_error, KekEntry}
use mavio_mcp.UpstreamAuth.Credentials.{Credentials, count_by_key_id}
use mavio_mcp.UpstreamAuth.Admin.{
  VaultAdmin, StatusView, vault_keys, reset_shared_kek, read_kek, build_key_wrapper, rotate_at,
  rotate, retire_at, retire, status_view, status,
}
use mavio_mcp.UpstreamAuth.Admin.Aliasing.{
  AdminRequest, rotate_key, read_status, reload, serve_all, reload-freezes,
}
use mavio_mcp.UpstreamAuth.Admin.Retirement.{SameReading, retire-SameReading}
use mavio_mcp.UpstreamAuth.Example.{zeros, crypto, key, ring, table}

vault_admin : Unit {0}
unfolding mavio_mcp.UpstreamAuth.Admin.new_kek mavio_mcp.UpstreamAuth.Admin.with_kek read_kek
    build_key_wrapper rotate_at rotate retire_at retire status_view status reset_shared_kek
    Keyring.rotate Keyring.retire Keyring.remove_first count_by_key_id
    mavio_mcp.UpstreamAuth.Credentials.count_rows mavio_mcp.Base.Sort.sort_by
    mavio_mcp.Base.Text.show mavio_mcp.Json.Print.stringify
vault_admin = tt

abbrev environment : Checked (List KekEntry)
environment = fine ring

abbrev decode : String → List ℕ
decode s = zeros 32

abbrev unbuilt : VaultAdmin
unbuilt = record {
  instances = λ a. [];
  next = 0;
  vault = 0;
  shared = none;
  published = [];
  audit = [];
}

-- The process after the vault was built.
abbrev booted : VaultAdmin
booted = record {
  instances = λ a. ring;
  next = 1;
  vault = 0;
  shared = some 0;
  published = [];
  audit = [];
}

abbrev requests : List AdminRequest
requests = rotate_key "v3" "material" 5 ∷ reload ∷ read_status table ∷ []

abbrev before : String → String → Bool
before a b = false

admin_tests :
    ((build_key_wrapper environment unbuilt).1 ≡ fine 0)
    × (vault_keys (build_key_wrapper environment unbuilt).0 ≡ ring)
    × ((rotate environment booted "v3" "material" decode 5).1 ≡ fine "v3")
    × (vault_keys (rotate environment booted "v3" "material" decode 5).0 ≡ key "v3" ∷ ring)
    × ((rotate environment booted "v2" "material" decode 5).1
        ≡ mavio_error "key id already present: v2" "VAULT_KEYRING_DUP")
    × ((rotate environment booted "" "material" decode 5).1
        ≡ mavio_error "keyId and material required" "Error")
    × ((retire environment booted table "v1" false 5).1
        ≡ mavio_error "1 rows still reference keyId v1 — rewrap first or pass force:true" "Error")
    × ((retire environment booted table "v1" true 5).1 ≡ fine "v1")
    × ((rotate environment booted "v3" "material" decode 5).0.published
        ≡ "{\"op\":\"rotate\",\"keyId\":\"v3\",\"at\":5}" ∷ [])
    × ((status environment before booted table).1
        ≡ fine (record {
          primary_key_id = "v2";
          keys =
              record { key_id = "v2"; row_count = 1 }
              ∷ record { key_id = "v1"; row_count = 1 }
              ∷ [];
          total_rows = 2;
        }))
unfolding vault_admin
admin_tests = (refl, refl, refl, refl, refl, refl, refl, refl, refl, refl)

reload-freezes_example :
    vault_keys (serve_all environment decode before (reset_shared_kek booted) requests)
    ≡ vault_keys booted
reload-freezes_example = reload-freezes environment decode before booted requests (omega arith)

retire-SameReading_example :
    SameReading crypto environment
      (vault_keys booted)
      (vault_keys (retire environment booted table "v0" false 5).0)
      table.rows
retire-SameReading_example = retire-SameReading crypto environment booted table "v0" 5 refl

-- ===== src/Registry/Principals/Tests.antt =====
-- The repository of principals at concrete inputs.
use mavio_mcp.Base.{
  ℕ, ◌≡◌, ◌≢◌, refl, ap, String, Bool, true, false, none, some, Option, List, [], ◌∷◌, ◌++◌, any,
  str_eq, arith, eq_iff, find,
}
use mavio_mcp.Core.{user, service}
use mavio_mcp.Rbac.{RoleAssignment}
use mavio_mcp.Registry.Principals.{
  RbacTables, RegisteredPrincipal, resolved, missing, violation, create_principal, ensure_principal,
  find_by_id, find_by_api_key, issue_api_key, list_principals, list_roles, get_role,
  sync_builtin_roles, upsert_roles, assign, unassign, list_assignments, assignments_for,
  role_provider,
}
use mavio_mcp.Registry.Principals.Keys.{IsTable, find_by_api_key-issue_api_key, named}
use mavio_mcp.Registry.Principals.Tables.{Statement, creates, ensures, issues, perform, perform_all}

Unfolded : Unit {0}
unfolding create_principal ensure_principal find_by_id find_by_api_key issue_api_key list_principals
    list_roles get_role sync_builtin_roles upsert_roles assign unassign list_assignments
    assignments_for role_provider perform perform_all
Unfolded = tt

abbrev ann : RegisteredPrincipal
ann = record { id = "ann"; type = user; display_name = "Ann"; workspace_id = "w" }

abbrev bot : RegisteredPrincipal
bot = record { id = "bot"; type = service; display_name = "Bot"; workspace_id = "w" }

abbrev empty_tables : RbacTables
empty_tables = record { principals = []; roles = []; assignments = [] }

abbrev digest : String → String
digest key = key

abbrev history : List Statement
history =
    creates ann
    ∷ (ensures bot
        ∷ (creates ann ∷ (issues "ann" "k1" ∷ (issues "bot" "k1" ∷ (issues "ann" "k2" ∷ [])))))

abbrev filled : RbacTables
filled = record {
  principals =
      record {
        id = "ann";
        type = user;
        display_name = "Ann";
        workspace_id = "w";
        api_key_hash = some "k2";
      }
      ∷ (record {
        id = "bot";
        type = service;
        display_name = "Bot";
        workspace_id = "w";
        api_key_hash = none;
      }
          ∷ []);
  roles = [];
  assignments = [];
}

history_fills : perform_all digest empty_tables history ≡ filled
unfolding Unfolded
history_fills = refl

old_key : find_by_api_key digest filled "k1" ≡ none
unfolding Unfolded
old_key = refl

nobody_issues : (issue_api_key digest filled "eve" "k3").1 ≡ missing "principal eve"
unfolding Unfolded
nobody_issues = refl

reissued :
    (issue_api_key digest filled "bot" "k4").1
    ≡ resolved (record { principal = bot; api_key = "k4" })
unfolding Unfolded
reissued = refl

abbrev views : RoleAssignment
views = record {
  principal_id = "ann";
  role_name = "viewer";
  scope = record { workspace = some "w"; project = none; server = none; tool = none };
}

stored : (assign filled "a1" views).1 ≡ resolved true
unfolding Unfolded
stored = refl

foreign_key : (assign filled "a1" (record views { principal_id = "eve" })).1 ≡ violation
unfolding Unfolded
foreign_key = refl

six_roles :
    find
      (λ name. str_eq name "viewer")
      (mavio_mcp.Base.map
        (λ r. r.name)
        (list_roles (sync_builtin_roles (sync_builtin_roles filled))))
    ≡ some "viewer"
unfolding Unfolded
six_roles = refl

filled-IsTable : IsTable filled.principals
filled-IsTable = (refl, λ hash h. refl, (refl, λ hash h. refl, tt))

abbrev new_key : String
new_key = "k4"

abbrev ann_key : String
ann_key = "k2"

is_k4 : String → Bool
is_k4 k = str_eq k "k4"

apart : new_key ≢ ann_key
unfolding is_k4
apart e = absurd (cc (ap is_k4 e))

find_by_api_key-issue_api_key_example :
    (find_by_id filled "bot" ≡ some bot)
    × (find_by_api_key digest (issue_api_key digest filled "bot" "k4").0 "k4" ≡ some bot)
    × (find_by_api_key digest (issue_api_key digest filled "bot" "k4").0 "k2"
        ≡ named "bot" (find_by_api_key digest filled "k2"))
find_by_api_key-issue_api_key_example =
    find_by_api_key-issue_api_key digest (λ k l e. e) filled "bot" "k4"
      (record { principal = bot; api_key = "k4" }) "k2" filled-IsTable reissued apart

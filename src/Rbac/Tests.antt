-- ===== src/Rbac/Tests.antt =====
-- The access control engine at concrete inputs: those of packages/rbac/src/engine.test.ts.
use mavio_mcp.Base.{
  ◌≡◌, refl, ◌↔◌, String, true, false, none, some, List, [], ◌∷◌, arith, any, str_eq, find,
  Bool-cases, inl, inr,
}
use mavio_mcp.Rbac.Actions
use mavio_mcp.Rbac.Roles.{any_scope, allowing, get_builtin_role}
use mavio_mcp.Rbac.{ResourceRef, deny, Role, RoleAssignment, RoleProvider, Decision}
use mavio_mcp.Rbac.Engine.{
  Effective, action_matches, scope_contains, family, ends_in_wildcard, applies, decide, can,
  decided, expand, expand_from, collect_role_permissions, visit_parents, contains,
}
use mavio_mcp.Rbac.Decisions.{Undenied, decide-allowed_iff}
use mavio_mcp.Rbac.Expansion.{can-total}
use mavio_mcp.Rbac.Scopes.{Grants, can-Grants}
use mavio_mcp.Rbac.Repeats.{can_repeated}

engine : Unit {0}
unfolding action_matches scope_contains family ends_in_wildcard applies decide can expand
    expand_from collect_role_permissions visit_parents get_builtin_role
engine = tt

abbrev in_workspace : String → ResourceRef
in_workspace w = record { workspace = some w; project = none; server = none; tool = none }

abbrev on_server : String → ResourceRef
on_server s = record { workspace = none; project = none; server = some s; tool = none }

abbrev assignment : String → ResourceRef → RoleAssignment
assignment name scope = record { principal_id = "u1"; role_name = name; scope = scope }

-- Two roles that inherit each other; one of them denies on a server.
abbrev guarded : Role
guarded = record {
  name = "guarded";
  inherits = some ("base" ∷ []);
  permissions =
      record { action = Actions.tool_invoke; scope = on_server "secret"; effect = deny } ∷ [];
}

abbrev base : Role
base = record {
  name = "base";
  inherits = some ("guarded" ∷ "missing" ∷ []);
  permissions = allowing Actions.tool_invoke ∷ allowing "server:*" ∷ [];
}

abbrev known : List Role
known = guarded ∷ base ∷ []

abbrev provider : List RoleAssignment → RoleProvider
provider as_ = record {
  get_role = λ n. find (λ r. str_eq r.name n) known;
  assignments_for = λ _. as_;
}

abbrev one : RoleProvider
one = provider (assignment "guarded" (in_workspace "a") ∷ [])

abbrev two : RoleProvider
two = provider (assignment "base" (in_workspace "a") ∷ assignment "base" (in_workspace "b") ∷ [])

abbrev tool_in : String → ResourceRef
tool_in w = record { workspace = some w; project = none; server = some "s"; tool = some "t" }

abbrev secret_in : String → ResourceRef
secret_in w = record { workspace = some w; project = none; server = some "secret"; tool = some "t" }

abbrev granted : Decision
granted = record { allowed = true; reason = "allow"; matched = some (allowing Actions.tool_invoke) }

engine_tests :
    (can one 3 "u1" Actions.tool_invoke (tool_in "a") ≡ some granted)
    × (can one 3 "u1" Actions.tool_invoke (secret_in "a")
        ≡ some (record {
          allowed = false;
          reason = "explicit deny";
          matched =
              some (record {
                action = Actions.tool_invoke;
                scope = on_server "secret";
                effect = deny;
              });
        }))
    × (can one 3 "u1" Actions.tool_invoke (tool_in "b")
        ≡ some (record { allowed = false; reason = "no matching permission"; matched = none }))
    × (can two 3 "u1" Actions.tool_invoke (tool_in "b")
        ≡ some (record { allowed = false; reason = "no matching permission"; matched = none }))
    × (action_matches "server:*" Actions.server_read ≡ true)
    × (action_matches "server:*" Actions.tool_invoke ≡ false)
unfolding engine
engine_tests = (refl, refl, refl, refl, refl, refl)

can-Grants_example : (e : Effective) × Grants one "u1" Actions.tool_invoke (tool_in "a") e
can-Grants_example =
    can-Grants one 3 "u1" Actions.tool_invoke (tool_in "a") granted engine_tests.0 refl

abbrev two_permissions : List Effective
two_permissions =
    record { permission = allowing Actions.tool_invoke; assignment_scope = any_scope }
    ∷ record {
      permission = record { action = "tool:*"; scope = on_server "secret"; effect = deny };
      assignment_scope = any_scope;
    }
    ∷ []

decide-allowed_iff_example :
    ((decide Actions.tool_invoke (secret_in "a") two_permissions none).allowed ≡ true) ↔ (
      Undenied Actions.tool_invoke (secret_in "a") two_permissions
      × (any (applies Actions.tool_invoke (secret_in "a")) two_permissions ≡ true))
decide-allowed_iff_example = decide-allowed_iff Actions.tool_invoke (secret_in "a") two_permissions

abbrev names : List String
names = "guarded" ∷ "base" ∷ []

known_names : (n : String) (r : Role) → one.get_role n ≡ some r → contains r.name names ≡ true
known_names n r h = elim (Bool-cases (str_eq "guarded" n)) [
  | inl first ↦ let e : guarded ≡ r = ground arith in rw (← e)
  | inr other ↦ elim (Bool-cases (str_eq "base" n)) [
    | inl second ↦ let e : base ≡ r = ground arith in rw (← e)
    | inr neither ↦ absurd (ground arith)
  ]
]

can-total_example : (d : Decision) × (can one 3 "u1" Actions.tool_invoke (tool_in "a") ≡ some d)
can-total_example =
    can-total one names known_names 3 "u1" Actions.tool_invoke (tool_in "a") (omega arith)

-- The second of three assignments, of another role, stands between the two.
abbrev three : RoleProvider
three = provider (
    assignment "base" (in_workspace "a")
    ∷ assignment "guarded" (in_workspace "c")
    ∷ assignment "base" (in_workspace "b")
    ∷ [])

can_repeated_example :
    can three 3 "u1" Actions.tool_invoke (tool_in "b")
    ≡ decided three Actions.tool_invoke (tool_in "b") (
        expand three 3
          (assignment "base" (in_workspace "a") ∷ assignment "guarded" (in_workspace "c") ∷ []))
can_repeated_example =
    can_repeated three (assignment "base" (in_workspace "a")) (assignment "base" (in_workspace "b"))
      [] (assignment "guarded" (in_workspace "c") ∷ []) [] 2 "u1" Actions.tool_invoke (tool_in "b")
      refl refl

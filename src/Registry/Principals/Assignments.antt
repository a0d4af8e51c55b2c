-- ===== src/Registry/Principals/Assignments.antt =====
-- packages/registry/src/rbac-repo.ts: what the policy engine reads of the tables.
use mavio_mcp.Base.{
  String, Bool, true, false, not, List, [], ◌∷◌, ◌++◌, ◌≡◌, refl, ap, ◌∙◌, inl, inr, arith, eq_iff,
  Bool-cases, Option-cases, map, keep, keep-append, any, find, str_eq, if◌then◌else◌,
}
use mavio_mcp.Rbac.{RoleAssignment}
use mavio_mcp.Registry.Principals.{
  AssignmentRow, RbacTables, Reply, resolved, has_id, assignment_row, to_assignment, assign,
  unassign, assignments_for,
}

map-append :
    (xs ys : List AssignmentRow)
    → map to_assignment (xs ++ ys) ≡ map to_assignment xs ++ map to_assignment ys
map-append [] ys = refl
map-append (x ∷ xs) ys = ap (λ zs. to_assignment x ∷ zs) (map-append xs ys)

abbrev of : String → List AssignmentRow → List AssignmentRow
of p rows = keep (λ row. str_eq row.principal_id p) rows

abbrev if_of : String → RoleAssignment → List RoleAssignment
if_of p a = if str_eq a.principal_id p then a ∷ [] else []

-- What `assign` adds for the engine.
abbrev Assigned : RbacTables → RoleAssignment → RbacTables × Reply Bool → Type 0
Assigned t a (t', reply) =
    reply ≡ resolved true → (p : String) → assignments_for t' p ≡ assignments_for t p ++ if_of p a

one_row :
    (p id : String) (a : RoleAssignment)
    → map to_assignment (of p (assignment_row id a ∷ [])) ≡ if_of p a
one_row p id a = elim (Bool-cases (str_eq a.principal_id p)) [
  | inl its ↦ ground (arith, its)
  | inr another ↦ ground (arith, another)
]

-- An assignment that is stored is what the engine is told of its principal, scope included, after
-- what it was told before, and it is told nothing new of the others.
pub assign-Assigned :
    (t : RbacTables) (id : String) (a : RoleAssignment) → Assigned t a (assign t id a)
unfolding assign assignments_for
assign-Assigned t id a = elim (Option-cases (find (has_id a.principal_id) t.principals)) [
  | inl absent ↦ rw (assign, absent) (λ e p. absurd (cc e))
  | inr (row, found) ↦
      rw (assign, found)
        (λ e p.
          ap (map to_assignment)
            (keep-append (λ r. str_eq r.principal_id p) t.assignments (assignment_row id a ∷ []))
          ∙ (map-append (of p t.assignments) (of p (assignment_row id a ∷ []))
              ∙ ap (λ zs. map to_assignment (of p t.assignments) ++ zs) (one_row p id a)))
]

keep-unassigned :
    (id : String) (rows : List AssignmentRow)
    → any (λ row. str_eq row.id id) rows ≡ false
    → keep (λ row. not (str_eq row.id id)) rows ≡ rows
keep-unassigned id [] e = refl
keep-unassigned id (row ∷ rows) e = ground (arith, e, keep-unassigned id rows)

keep-new :
    (id : String) (a : RoleAssignment) (rows : List AssignmentRow)
    → any (λ row. str_eq row.id id) rows ≡ false
    → keep (λ row. not (str_eq row.id id)) (rows ++ (assignment_row id a ∷ [])) ≡ rows
keep-new id a [] e = ground (arith, eq_iff id id)
keep-new id a (row ∷ rows) e = ground (arith, e, keep-new id a rows)

-- Under a new id, `unassign` takes back what `assign` did.
pub unassign-assign :
    (t : RbacTables) (id : String) (a : RoleAssignment)
    → any (λ row. str_eq row.id id) t.assignments ≡ false
    → unassign (assign t id a).0 id ≡ t
unfolding assign unassign
unassign-assign t id a new = elim (Option-cases (find (has_id a.principal_id) t.principals)) [
  | inl absent ↦
      rw (assign, absent)
        (ap (λ rows. record t { assignments = rows }) (keep-unassigned id t.assignments new))
  | inr (row, found) ↦
      rw (assign, found)
        (ap (λ rows. record t { assignments = rows }) (keep-new id a t.assignments new))
]

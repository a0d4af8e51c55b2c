-- ===== src/Registry/Servers/Approval.antt =====
-- packages/registry/src/index.ts: the approval of servers under any sequence of operations.
use mavio_mcp.Base.{
  ℕ, String, Bool, true, false, ◌&&◌, ◌||◌, ◌≡◌, refl, ap, sym, ◌∙◌, Option, none, some, List, [],
  ◌∷◌, arith, eq_iff, inl, inr, Bool-cases, Option-cases, if◌then◌else◌, str_eq, any,
}
use mavio_mcp.Base.Map.{
  get, AllValues, AllValues-set, AllValues-delete, AllValues-get, get-set, get-delete,
}
use mavio_mcp.Core.{ServerStatus, ApprovalStatus, pending, approved, rejected}
use mavio_mcp.Registry.Servers.{
  RegisterInput, ServerRow, SpecPatch, Database, register, registered, store, update_server,
  update_spec, with_status, patched, approve, approved_row, reject, rejected_row, unregister,
  update_status,
}

-- The operations that write the table of servers.
pub data Operation : Type 0 where
  registers : RegisterInput → ℕ → Operation
  updates_spec : String → SpecPatch → ℕ → Operation
  approves : String → String → ℕ → Operation
  rejects : String → String → String → ℕ → Operation
  unregisters : String → Operation
  updates_status : String → ServerStatus → ℕ → Operation

unfoldable pub step : Database → Operation → Database
step db (registers input now) = (register db input now).0
step db (updates_spec id patch now) = (update_spec db id patch now).0
step db (approves id approver now) = (approve db id approver now).0
step db (rejects id approver reason now) = (reject db id approver reason now).0
step db (unregisters id) = (unregister db id).0
step db (updates_status id status now) = update_status db id status now

unfoldable pub run : Database → List Operation → Database
run db [] = db
run db (op ∷ ops) = run (step db op) ops

-- What the columns of an approval hold, by its status.
abbrev Decided : ApprovalStatus → Option String → Option ℕ → Option String → Type 0
Decided pending by at reason = (by ≡ none) × (at ≡ none) × (reason ≡ none)
Decided approved by at reason = ((t : ℕ) × (at ≡ some t)) × (reason ≡ none)
Decided rejected by at reason =
    ((a : String) × (by ≡ some a)) × ((t : ℕ) × (at ≡ some t)) × ((r : String) × (reason ≡ some r))

abbrev pub Consistent : ServerRow → Type 0
Consistent row = Decided row.approval_status row.approved_by row.approved_at row.rejection_reason

abbrev pub IsConsistent : Database → Type 0
IsConsistent db = AllValues Consistent db.servers

update_server-IsConsistent :
    (db : Database) (id : String) (change : ServerRow → ServerRow)
    → ((row : ServerRow) → Consistent row → Consistent (change row))
    → IsConsistent db
    → IsConsistent (update_server db id change).0
unfolding update_server
update_server-IsConsistent db id change keeps h = elim (Option-cases (get id db.servers)) [
  | inl missing ↦ rw (update_server, missing) h
  | inr (row, found) ↦
      rw (update_server, found)
        (AllValues-set Consistent id (change row) db.servers
          (keeps row (AllValues-get Consistent id db.servers row h found)) h)
]

registered-Consistent :
    (input : RegisterInput) (now : ℕ) (o : Option ServerRow) → Consistent (registered input now o)
registered-Consistent input now none = elim (Bool-cases input.auto_approve) [
  | inl auto ↦ rw auto ((now, refl), refl)
  | inr asked ↦ rw asked (refl, refl, refl)
]
registered-Consistent input now (some row) = (refl, refl, refl)

step-IsConsistent : (db : Database) (op : Operation) → IsConsistent db → IsConsistent (step db op)
unfolding step register update_spec approve reject unregister update_status
step-IsConsistent db (registers input now) h =
    AllValues-set Consistent input.id _ db.servers
      (registered-Consistent input now (get input.id db.servers)) h
step-IsConsistent db (updates_spec id patch now) h =
    update_server-IsConsistent db id (patched patch now) (λ row k. k) h
step-IsConsistent db (approves id approver now) h =
    update_server-IsConsistent db id (approved_row approver now) (λ row k. ((now, refl), refl)) h
step-IsConsistent db (rejects id approver reason now) h =
    update_server-IsConsistent db id (rejected_row approver reason now)
      (λ row k. ((approver, refl), (now, refl), (reason, refl))) h
step-IsConsistent db (unregisters id) h = elim (Option-cases (get id db.servers)) [
  | inl missing ↦ rw (step, unregister, missing) h
  | inr (row, found) ↦ rw (step, unregister, found) (AllValues-delete Consistent id db.servers h)
]
step-IsConsistent db (updates_status id status now) h =
    update_server-IsConsistent db id (with_status status now) (λ row k. k) h

-- Any operations keep the approval columns of all servers consistent: a pending server has no
-- approver, no date and no reason; an approved one has a date and no reason; a rejected one has
-- an approver, a date and a reason.
pub run-IsConsistent :
    (db : Database) (ops : List Operation) → IsConsistent db → IsConsistent (run db ops)
unfolding run
run-IsConsistent db [] h = h
run-IsConsistent db (op ∷ ops) h = run-IsConsistent (step db op) ops (step-IsConsistent db op h)

or_false : (a b : Bool) → (a || b) ≡ false → (a ≡ false) × (b ≡ false)
or_false a b h = ground arith

abbrev row_approved : Option ServerRow → Bool
row_approved none = false
row_approved (some row) = elim row.approval_status [
  | pending ↦ false
  | approved ↦ true
  | rejected ↦ false
]

abbrev pub is_approved_in : Database → String → Bool
is_approved_in db id = row_approved (get id db.servers)

-- The operations that may approve a server: its approval, and its registration with
-- `autoApprove`.
abbrev pub may_approve : String → Operation → Bool
may_approve id (registers input now) = input.auto_approve && str_eq input.id id
may_approve id (approves id' approver now) = str_eq id' id
may_approve id _ = false

registered-unapproved :
    (input : RegisterInput) (now : ℕ) (o : Option ServerRow)
    → input.auto_approve ≡ false
    → row_approved (some (registered input now o)) ≡ false
registered-unapproved input now none asked = rw asked refl
registered-unapproved input now (some row) asked = refl

store-approved :
    (id id' : String) (db : Database) (row : ServerRow)
    → is_approved_in (store db id' row) id
      ≡ (if str_eq id' id then row_approved (some row) else is_approved_in db id)
store-approved id id' db row =
    ap row_approved (get-set id' id row db.servers)
    ∙ elim (Bool-cases (str_eq id' id)) [ inl same ↦ rw same refl | inr other ↦ rw other refl ]

update_server-unapproved :
    (id id' : String) (db : Database) (change : ServerRow → ServerRow)
    → ((row : ServerRow)
        → str_eq id' id ≡ true
        → row_approved (some row) ≡ false
        → row_approved (some (change row)) ≡ false)
    → is_approved_in db id ≡ false
    → is_approved_in (update_server db id' change).0 id ≡ false
unfolding update_server
update_server-unapproved id id' db change keeps h = elim (Option-cases (get id' db.servers)) [
  | inl missing ↦ rw (update_server, missing) h
  | inr (row, found) ↦
      rw (update_server, found)
        (store-approved id id' db (change row) ∙ elim (Bool-cases (str_eq id' id)) [
          | inl same ↦ rw same (
              keeps row same (
                ap row_approved (sym found)
                ∙ ap (λ k. row_approved (get k db.servers)) (ground (arith, eq_iff id' id))
                ∙ h))
          | inr other ↦ rw other h
        ])
]

step-unapproved :
    (id : String) (db : Database) (op : Operation)
    → may_approve id op ≡ false
    → is_approved_in db id ≡ false
    → is_approved_in (step db op) id ≡ false
unfolding step register update_spec approve reject unregister update_status
step-unapproved id db (registers input now) n h =
    store-approved id input.id db _ ∙ elim (Bool-cases (str_eq input.id id)) [
      | inl same ↦
          rw same (registered-unapproved input now (get input.id db.servers) (ground arith))
      | inr other ↦ rw other h
    ]
step-unapproved id db (updates_spec id' patch now) n h =
    update_server-unapproved id id' db (patched patch now) (λ row same k. k) h
step-unapproved id db (approves id' approver now) n h =
    update_server-unapproved id id' db (approved_row approver now) (λ row same k. absurd (cc)) h
step-unapproved id db (rejects id' approver reason now) n h =
    update_server-unapproved id id' db (rejected_row approver reason now) (λ row same k. refl) h
step-unapproved id db (unregisters id') n h = elim (Option-cases (get id' db.servers)) [
  | inl missing ↦ rw (step, unregister, missing) h
  | inr (row, found) ↦
      rw (step, unregister, found)
        (ap row_approved (get-delete id' id db.servers)
          ∙ elim (Bool-cases (str_eq id' id)) [ inl same ↦ rw same refl | inr other ↦ rw other h ])
]
step-unapproved id db (updates_status id' status now) n h =
    update_server-unapproved id id' db (with_status status now) (λ row same k. k) h

-- A server that is not approved, or not there, is not approved after any operations without an
-- approval of it and without a registration of it with `autoApprove`.
pub run-unapproved :
    (id : String) (db : Database) (ops : List Operation)
    → any (may_approve id) ops ≡ false
    → is_approved_in db id ≡ false
    → is_approved_in (run db ops) id ≡ false
unfolding run
run-unapproved id db [] n h = h
run-unapproved id db (op ∷ ops) n h =
    let (now_, later) = or_false (may_approve id op) (any (may_approve id) ops) n in
    run-unapproved id (step db op) ops later (step-unapproved id db op now_ h)

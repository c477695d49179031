-- ===== src/Lifecycle/GrantAdministration.antt =====
-- The calls about tasks leave the table of grants as it is, those about admissions also that of tasks.
use threadmesh.Prelude.{
  ℕ, ◌≡◌, inl, inr, Bool, true, false, String, Option, none, some, arith, find, pair_eq, string_eq,
  nat_eq, ok, Option-cases, Result-cases,
}
use threadmesh.Vocabulary.{ActorType, TaskRef}
use threadmesh.Coordinator.{
  TaskRow, AdmissionRow, Key, Disposition, MessageRow, Db, Principal, Platform,
}
use threadmesh.Coordinator.Mailbox.{control_plane}
use threadmesh.Coordinator.Tasks.{
  NewTask, Runtime, register_task, registered_or_inserted, find_incarnation, update_task_state,
  update_task_runtime, attach_task, rotate_task_incarnation,
}
use threadmesh.Coordinator.Admission.{
  Admission, AdapterEvidence, prepare_context_admission, confirm_context_admission, confirmed,
  is_proven,
}
use threadmesh.Lifecycle.GrantCalls.{KeepsTables}

-- A call that leaves the table of grants as it is.
abbrev pub KeepsGrants : Db → Db → Type 0
KeepsGrants db db' = db'.grants ≡ db.grants

registered_or_inserted-grants :
    (owner : ActorType × String) (n : NewTask) (db db' : Db) (o : Option TaskRow) (t : TaskRow)
    → registered_or_inserted owner n db o ≡ ok (db', t)
    → KeepsGrants db db'
unfolding registered_or_inserted
registered_or_inserted-grants owner n db db' none t h = ground arith
registered_or_inserted-grants owner n db db' (some row) t h = ground arith

pub register-grants :
    (n : NewTask) (p : Principal) (db db' : Db) (t : TaskRow)
    → register_task n p db ≡ ok (db', t)
    → KeepsGrants db db'
unfolding register_task
register-grants n p db db' t h = elim (Result-cases (control_plane p)) [
  | inl (owner, e) ↦
      registered_or_inserted-grants owner n db db' (find_incarnation n.ref.incarnation_id db.tasks)
        t (ground arith)
  | inr (error, e) ↦ absurd (ground arith)
]

pub update_state-grants :
    (x : Platform) (ref : TaskRef) (state : String) (revision : ℕ) (p : Principal) (db db' : Db)
    (t : TaskRow)
    → update_task_state x ref state revision p db ≡ ok (db', t)
    → KeepsGrants db db'
unfolding update_task_state
update_state-grants x ref state revision p db db' t h = ground arith

pub update_runtime-grants :
    (ref : TaskRef) (r : Runtime) (revision : ℕ) (p : Principal) (db db' : Db) (t : TaskRow)
    → update_task_runtime ref r revision p db ≡ ok (db', t)
    → KeepsGrants db db'
unfolding update_task_runtime
update_runtime-grants ref r revision p db db' t h = ground arith

pub attach-grants :
    (ref : TaskRef) (text : String) (revision : ℕ) (p : Principal) (db db' : Db) (t : TaskRow)
    → attach_task ref text revision p db ≡ ok (db', t)
    → KeepsGrants db db'
unfolding attach_task
attach-grants ref text revision p db db' t h = ground arith

pub rotate-grants :
    (now : ℕ) (ref : TaskRef) (n : NewTask) (revision : ℕ) (p : Principal) (db db' : Db)
    (t : TaskRow)
    → rotate_task_incarnation now ref n revision p db ≡ ok (db', t)
    → KeepsGrants db db'
unfolding rotate_task_incarnation
rotate-grants now ref n revision p db db' t h = ground arith

pub admit-tables :
    (x : Platform) (now : ℕ) (nonce : String) (key : Key) (revision : ℕ) (p : Principal)
    (db db' : Db) (a : Admission)
    → prepare_context_admission x now nonce key revision p db ≡ ok (db', a)
    → KeepsTables db db'
unfolding prepare_context_admission
admit-tables x now nonce key revision p db db' a h = ground arith

confirmed-tables :
    (key : Key) (row : MessageRow) (a : AdmissionRow) (preverified : Bool) (db db' : Db)
    (d : Disposition)
    → confirmed key row a preverified db ≡ ok (db', d)
    → KeepsTables db db'
confirmed-tables key row a true db db' d h = ground arith
confirmed-tables key row a false db db' d h = ground arith

pub confirm-tables :
    (x : Platform) (provenance : Bool) (key : Key) (revision : ℕ) (token : String)
    (evidence : AdapterEvidence) (p : Principal) (db db' : Db) (d : Disposition)
    → confirm_context_admission x provenance key revision token evidence p db ≡ ok (db', d)
    → KeepsTables db db'
unfolding confirm_context_admission
confirm-tables x provenance key revision token evidence p db db' d h =
    elim (Option-cases (find key db.messages)) [
      | inl e ↦ absurd (ground arith)
      | inr (row, m) ↦ elim (Option-cases (find key db.admissions)) [
        | inl e ↦ absurd (ground arith)
        | inr (a, c) ↦ elim (Result-cases (is_proven provenance row a)) [
          | inl (preverified, q) ↦ confirmed-tables key row a preverified db db' d (ground arith)
          | inr (e, q) ↦ absurd (ground arith)
        ]
      ]
    ]

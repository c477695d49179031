-- ===== src/Lifecycle/TaskTable.antt =====
-- What the calls about tasks do to the table of tasks: a task more, or one task updated, which stays
-- retired if it was.
use threadmesh.Prelude.{
  ℕ, ◌≡◌, refl, sym, ap, ◌∙◌, inl, inr, true, String, Option, none, some, List, [], ◌∷◌, ◌++◌,
  if◌then◌else◌, Bool-cases, arith, pair_eq, string_eq, nat_eq, ok, Result-cases,
}
use threadmesh.Vocabulary.{is_present}
use threadmesh.Lifecycle.Trace.{after}
use threadmesh.Coordinator.{Db, Principal, Platform}
use mathlib.Core.List.{append-nil}
use threadmesh.Vocabulary.{TaskRef, ActorType, same_task_ref}
use threadmesh.Coordinator.{TaskRow, find_task}
use threadmesh.Coordinator.Mailbox.{control_plane}
use threadmesh.Coordinator.Tasks.{
  NewTask, Runtime, register_task, registered_or_inserted, find_incarnation, update_task,
  update_task_state, update_task_runtime, attach_task, rotate_task_incarnation, with_state,
  with_runtime, with_adapter, retired,
}

-- An update that keeps who a task is and that it is retired.
pub record KeepsTask (f : TaskRow → TaskRow) : Type 0 where
  pub same_ref : (t : TaskRow) → (f t).snapshot.ref ≡ t.snapshot.ref
  pub stays_retired :
      (t : TaskRow)
      → is_present t.snapshot.retired_at ≡ true
      → is_present (f t).snapshot.retired_at ≡ true

-- What a call does to the table of tasks.
pub data TasksMove (before after : List TaskRow) : Type 0 where
  same : after ≡ before → TasksMove before after
  updated :
      (ref : TaskRef) (f : TaskRow → TaskRow) (rows : List TaskRow)
      → KeepsTask f
      → after ≡ update_task ref f before ++ rows
      → TasksMove before after
  inserted : (rows : List TaskRow) → after ≡ before ++ rows → TasksMove before after

-- The task is in the table, and retired.
pub record IsRetired (ref : TaskRef) (tasks : List TaskRow) : Type 0 where
  pub row : TaskRow
  pub found : find_task ref tasks ≡ some row
  pub is_retired : is_present row.snapshot.retired_at ≡ true

pub find_task-append :
    (ref : TaskRef) (t : TaskRow) (tasks rows : List TaskRow)
    → find_task ref tasks ≡ some t
    → find_task ref (tasks ++ rows) ≡ some t
unfolding find_task
find_task-append ref t [] rows h = absurd (ground arith)
find_task-append ref t (u ∷ tasks) rows h = elim (Bool-cases (same_task_ref u.snapshot.ref ref)) [
  | inl is ↦ rw is (rw is at h)
  | inr other ↦ rw other (find_task-append ref t tasks rows (rw other at h))
]

-- The row that an update makes of another.
abbrev pub updated_row : TaskRef → (TaskRow → TaskRow) → TaskRow → TaskRow
updated_row ref f t = if same_task_ref t.snapshot.ref ref then f t else t

updated_row-ref :
    (ref : TaskRef) (f : TaskRow → TaskRow) (t : TaskRow)
    → KeepsTask f
    → (updated_row ref f t).snapshot.ref ≡ t.snapshot.ref
updated_row-ref ref f t keeps = elim (Bool-cases (same_task_ref t.snapshot.ref ref)) [
  | inl is ↦ rw is (keeps.same_ref t)
  | inr other ↦ rw other refl
]

pub find_task-update :
    (ref other : TaskRef) (f : TaskRow → TaskRow) (t : TaskRow) (tasks : List TaskRow)
    → KeepsTask f
    → find_task ref tasks ≡ some t
    → find_task ref (update_task other f tasks) ≡ some (updated_row other f t)
unfolding find_task update_task
find_task-update ref other f t [] keeps h = absurd (ground arith)
find_task-update ref other f t (u ∷ tasks) keeps h =
    elim (Bool-cases (same_task_ref u.snapshot.ref ref)) [
      | inl is ↦
          let same_row : u ≡ t = ground arith in
          rw (updated_row-ref other f u keeps, is) (ap (λ r. some (updated_row other f r)) same_row)
      | inr differs ↦
          rw (updated_row-ref other f u keeps, differs)
            (find_task-update ref other f t tasks keeps (rw differs at h))
    ]

pub TasksMove-IsRetired :
    (ref : TaskRef) (before after : List TaskRow)
    → TasksMove before after
    → IsRetired ref before
    → IsRetired ref after
TasksMove-IsRetired ref before after (same e) r = rw e r
TasksMove-IsRetired ref before after (inserted rows e) r = rw e (record {
  row = r.row;
  found = find_task-append ref r.row before rows r.found;
  is_retired = r.is_retired;
})
TasksMove-IsRetired ref before after (updated other f rows keeps e) r = rw e (record {
  row = updated_row other f r.row;
  found =
      find_task-append ref (updated_row other f r.row) (update_task other f before) rows
        (find_task-update ref other f r.row before keeps r.found);
  is_retired = elim (Bool-cases (same_task_ref r.row.snapshot.ref other)) [
    | inl is ↦ rw is (keeps.stays_retired r.row r.is_retired)
    | inr differs ↦ rw differs r.is_retired
  ];
})

registered-TasksMove :
    (owner : ActorType × String) (n : NewTask) (db db' : Db) (o : Option TaskRow) (t : TaskRow)
    → registered_or_inserted owner n db o ≡ ok (db', t)
    → TasksMove db.tasks db'.tasks
unfolding registered_or_inserted
registered-TasksMove owner n db db' none t h = inserted (t ∷ []) (ground arith)
registered-TasksMove owner n db db' (some row) t h = same (ground arith)

pub register_task-TasksMove :
    (n : NewTask) (p : Principal) (db db' : Db) (t : TaskRow)
    → register_task n p db ≡ ok (db', t)
    → TasksMove db.tasks db'.tasks
unfolding register_task
register_task-TasksMove n p db db' t h = elim (Result-cases (control_plane p)) [
  | inl (owner, e) ↦
      registered-TasksMove owner n db db' (find_incarnation n.ref.incarnation_id db.tasks) t
        (ground arith)
  | inr (error, e) ↦ absurd (ground arith)
]

pub update_task_state-TasksMove :
    (x : Platform) (ref : TaskRef) (state : String) (revision : ℕ) (p : Principal) (db db' : Db)
    (t : TaskRow)
    → update_task_state x ref state revision p db ≡ ok (db', t)
    → TasksMove db.tasks db'.tasks
unfolding update_task_state
update_task_state-TasksMove x ref state revision p db db' t h =
    let made : db'.tasks ≡ update_task ref (with_state state) db.tasks = ground arith in
    updated ref (with_state state) [] (record { same_ref = λ u. refl; stays_retired = λ u r. r })
      (made ∙ sym (append-nil _))

pub update_task_runtime-TasksMove :
    (ref : TaskRef) (runtime : Runtime) (revision : ℕ) (p : Principal) (db db' : Db) (t : TaskRow)
    → update_task_runtime ref runtime revision p db ≡ ok (db', t)
    → TasksMove db.tasks db'.tasks
unfolding update_task_runtime
update_task_runtime-TasksMove ref runtime revision p db db' t h =
    let made : db'.tasks ≡ update_task ref (with_runtime runtime) db.tasks = ground arith in
    updated ref (with_runtime runtime) []
      (record { same_ref = λ u. refl; stays_retired = λ u r. r }) (made ∙ sym (append-nil _))

pub attach_task-TasksMove :
    (ref : TaskRef) (text : String) (revision : ℕ) (p : Principal) (db db' : Db) (t : TaskRow)
    → attach_task ref text revision p db ≡ ok (db', t)
    → TasksMove db.tasks db'.tasks
unfolding attach_task
attach_task-TasksMove ref text revision p db db' t h =
    let made : db'.tasks ≡ update_task ref (with_adapter text) db.tasks = ground arith in
    updated ref (with_adapter text) [] (record { same_ref = λ u. refl; stays_retired = λ u r. r })
      (made ∙ sym (append-nil _))

pub rotate_task-TasksMove :
    (now : ℕ) (previous : TaskRef) (next : NewTask) (revision : ℕ) (p : Principal) (db db' : Db)
    (t : TaskRow)
    → rotate_task_incarnation now previous next revision p db ≡ ok (db', t)
    → TasksMove db.tasks db'.tasks
unfolding rotate_task_incarnation
rotate_task-TasksMove now previous next revision p db db' t h =
    updated previous (retired now) (t ∷ [])
      (record { same_ref = λ u. refl; stays_retired = λ u r. refl }) (ground arith)

-- ===== src/Lifecycle/Administration.antt =====
-- The methods on tasks and the installation of grants as moves of the specification.
use threadmesh.Prelude.{
  ℕ, ◌≡◌, inl, inr, String, Option, none, some, arith, pair_eq, string_eq, nat_eq, ok, Result-cases,
}
use threadmesh.Vocabulary.{ActorType, TaskRef}
use threadmesh.Coordinator.{TaskRow, GrantDocument, Db, Principal, Platform}
use threadmesh.Coordinator.Mailbox.{control_plane}
use threadmesh.Coordinator.Tasks.{
  NewTask, Runtime, register_task, registered_or_inserted, find_incarnation, update_task_state,
  update_task_runtime, attach_task, rotate_task_incarnation,
}
use threadmesh.Coordinator.Grants.{install_grant}

-- A call that leaves the messages, their submissions and the grants as they are.
pub record KeepsMail (db db' : Db) : Type 0 where
  pub same_messages : db'.messages ≡ db.messages
  pub same_submissions : db'.submissions ≡ db.submissions

registered_or_inserted-KeepsMail :
    (owner : ActorType × String) (n : NewTask) (db db' : Db) (o : Option TaskRow) (t : TaskRow)
    → registered_or_inserted owner n db o ≡ ok (db', t)
    → KeepsMail db db'
unfolding registered_or_inserted
registered_or_inserted-KeepsMail owner n db db' none t h = ground arith
registered_or_inserted-KeepsMail owner n db db' (some row) t h = ground arith

pub register_task-KeepsMail :
    (n : NewTask) (p : Principal) (db db' : Db) (t : TaskRow)
    → register_task n p db ≡ ok (db', t)
    → KeepsMail db db'
unfolding register_task
register_task-KeepsMail n p db db' t h = elim (Result-cases (control_plane p)) [
  | inl (owner, e) ↦
      registered_or_inserted-KeepsMail owner n db db'
        (find_incarnation n.ref.incarnation_id db.tasks) t (ground arith)
  | inr (error, e) ↦ absurd (ground arith)
]

pub update_task_state-KeepsMail :
    (x : Platform) (ref : TaskRef) (state : String) (revision : ℕ) (p : Principal) (db db' : Db)
    (t : TaskRow)
    → update_task_state x ref state revision p db ≡ ok (db', t)
    → KeepsMail db db'
unfolding update_task_state
update_task_state-KeepsMail x ref state revision p db db' t h = ground arith

pub update_task_runtime-KeepsMail :
    (ref : TaskRef) (r : Runtime) (revision : ℕ) (p : Principal) (db db' : Db) (t : TaskRow)
    → update_task_runtime ref r revision p db ≡ ok (db', t)
    → KeepsMail db db'
unfolding update_task_runtime
update_task_runtime-KeepsMail ref r revision p db db' t h = ground arith

pub attach_task-KeepsMail :
    (ref : TaskRef) (text : String) (revision : ℕ) (p : Principal) (db db' : Db) (t : TaskRow)
    → attach_task ref text revision p db ≡ ok (db', t)
    → KeepsMail db db'
unfolding attach_task
attach_task-KeepsMail ref text revision p db db' t h = ground arith

pub rotate_task_incarnation-KeepsMail :
    (now : ℕ) (ref : TaskRef) (n : NewTask) (revision : ℕ) (p : Principal) (db db' : Db)
    (t : TaskRow)
    → rotate_task_incarnation now ref n revision p db ≡ ok (db', t)
    → KeepsMail db db'
unfolding rotate_task_incarnation
rotate_task_incarnation-KeepsMail now ref n revision p db db' t h = ground arith

pub install_grant-KeepsMail :
    (x : Platform) (g : GrantDocument) (p : Principal) (db db' : Db)
    → install_grant x g p db ≡ ok db'
    → KeepsMail db db'
unfolding install_grant
install_grant-KeepsMail x g p db db' h = ground arith

-- ===== src/Lifecycle/Retirement.antt =====
-- Retired incarnations of tasks, and what can still be done with their messages.
use mathlib.Core.Path.{subst}
use threadmesh.Prelude.{
  ℕ, ◌≡◌, refl, sym, ap, ◌⊎◌, inl, inr, Bool, true, String, Option, none, some, List, [], ◌∷◌, ◌++◌,
  Option-cases, Bool-cases, arith, find, pair_eq, string_eq, nat_eq, Result, ok, Result-cases,
}
use threadmesh.Lifecycle.Authority.{IsCurrentlyAuthorized}
use threadmesh.Lifecycle.History.{Follows-refl}
use threadmesh.Lifecycle.Trace.{Event, after, dispatches}
use threadmesh.Coordinator.{Key, MessageRow, Db, Principal, Platform, Error}
use threadmesh.Coordinator.Grants.{install_grant}
use threadmesh.Coordinator.Calls.{
  registers, updates_state, updates_runtime, attaches, rotates, installs, revokes, expires, admits,
  confirms, task_is, was_revoked, were_expired, admission_is, Call, submits, claims, acknowledges,
  responds, fails, prepares, begins, records, reconciles, Response, was_begun, was_submitted,
  was_claimed, disposition_is, was_prepared, was_recorded, was_reconciled, answered, perform,
}
use threadmesh.Lifecycle.CallLocality.{answered-ok}
use threadmesh.Lifecycle.Sweeps.{revoke_grant-ok, RevokesGrant}
use threadmesh.Lifecycle.Expirations.{expire_due_messages-ExpiresDue}
use threadmesh.Lifecycle.GrantCalls.{
  submit-tables, claim_pending-tables, prepare-tables, begin-tables, record-tables,
  reconcile-tables, respond-tables, acknowledge-tables, fail-tables,
}
use threadmesh.Lifecycle.GrantAdministration.{admit-tables, confirm-tables}
use threadmesh.Lifecycle.Stopping.{stopped_dispatches}
use threadmesh.Vocabulary.{TaskRef, ActorType, same_task_ref}
use threadmesh.Lifecycle.Stopping.{stopped_dispatches}
use threadmesh.Coordinator.{TaskRow, find_task, GrantRow, GrantDocument}
use threadmesh.Coordinator.Mailbox.{control_plane}
use threadmesh.Coordinator.Grants.{replayed_or_installed, find_grant}
use threadmesh.Coordinator.Tasks.{NewTask, update_task, rotate_task_incarnation, retired}
use threadmesh.Lifecycle.TaskTable.{
  KeepsTask, TasksMove, same, IsRetired, find_task-append, find_task-update, updated_row,
  TasksMove-IsRetired, register_task-TasksMove, update_task_state-TasksMove,
  update_task_runtime-TasksMove, attach_task-TasksMove, rotate_task-TasksMove,
}

installed-tasks :
    (x : Platform) (g : GrantDocument) (owner : ActorType × String) (db db' : Db)
    (o : Option GrantRow)
    → replayed_or_installed x g owner db o ≡ ok db'
    → db'.tasks ≡ db.tasks
installed-tasks x g owner db db' (some row) h = ground arith
installed-tasks x g owner db db' none h = ground arith

install_grant-tasks :
    (x : Platform) (g : GrantDocument) (p : Principal) (db db' : Db)
    → install_grant x g p db ≡ ok db'
    → db'.tasks ≡ db.tasks
unfolding install_grant
install_grant-tasks x g p db db' h = elim (Result-cases (control_plane p)) [
  | inl (owner, e) ↦
      installed-tasks x g owner db db' (find_grant g.grant.grant_id db.grants) (ground arith)
  | inr (error, e) ↦ absurd (ground arith)
]

RevokesGrant-tasks :
    (id : String) (now : ℕ) (db db' : Db) (replay : Bool)
    → ((replay ≡ true) × (db' ≡ db)) ⊎ RevokesGrant id now db db'
    → db'.tasks ≡ db.tasks
RevokesGrant-tasks id now db db' replay (inl (again, e)) = ap (λ d. d.tasks) e
RevokesGrant-tasks id now db db' replay (inr w) = w.same_tasks

keeping :
    {A : Type 0} (f : A → Response) (m : Result Error (Db × A)) (db db' : Db) (response : Response)
    → answered f m ≡ ok (db', response)
    → ((a : A) → m ≡ ok (db', a) → db'.tasks ≡ db.tasks)
    → TasksMove db.tasks db'.tasks
keeping f m db db' response h keep =
    let (a, ran, e) = answered-ok f m db' response h in same (keep a ran)

-- A successful call leaves the table of tasks, adds to it, or updates one task.
perform-TasksMove :
    (x : Platform) (now : ℕ) (p : Principal) (call : Call) (db db' : Db) (response : Response)
    → perform x now p call db ≡ ok (db', response)
    → TasksMove db.tasks db'.tasks
unfolding perform
perform-TasksMove x now p (submits e) db db' r h =
    keeping was_submitted _ db db' r h λ a ran. (submit-tables x now e p db db' a ran).1
perform-TasksMove x now p (claims key revision token) db db' r h =
    keeping was_claimed _ db db' r h
      λ a ran. (claim_pending-tables now key revision token p db db' a ran).1
perform-TasksMove x now p (acknowledges key token d revision) db db' r h =
    keeping disposition_is _ db db' r h
      λ a ran. (acknowledge-tables now key token d revision p db db' a ran).1
perform-TasksMove x now p (responds key d revision reason) db db' r h =
    keeping disposition_is _ db db' r h
      λ a ran. (respond-tables now key d revision reason p db db' a ran).1
perform-TasksMove x now p (fails key revision reason) db db' r h =
    keeping disposition_is _ db db' r h
      λ a ran. (fail-tables x key revision reason p db db' a ran).1
perform-TasksMove x now p (prepares key revision id idempotency_key) db db' r h =
    keeping was_prepared _ db db' r h
      λ a ran. (prepare-tables x now id idempotency_key key revision p db db' a ran).1
perform-TasksMove x now p (begins id revision) db db' r h =
    keeping was_begun _ db db' r h λ a ran. (begin-tables x now id revision p db db' a ran).1
perform-TasksMove x now p (records id revision receipt) db db' r h =
    keeping was_recorded _ db db' r h
      λ a ran. (record-tables x id revision receipt p db db' a ran).1
perform-TasksMove x now p (reconciles id revision c) db db' r h =
    keeping was_reconciled _ db db' r h λ a ran. (reconcile-tables x id revision c p db db' a ran).1
perform-TasksMove x now p (registers n) db db' r h =
    let (a, ran, e) = answered-ok task_is _ db' r h in register_task-TasksMove n p db db' a ran
perform-TasksMove x now p (updates_state ref state revision) db db' r h =
    let (a, ran, e) = answered-ok task_is _ db' r h in
    update_task_state-TasksMove x ref state revision p db db' a ran
perform-TasksMove x now p (updates_runtime ref runtime revision) db db' r h =
    let (a, ran, e) = answered-ok task_is _ db' r h in
    update_task_runtime-TasksMove ref runtime revision p db db' a ran
perform-TasksMove x now p (attaches ref text revision) db db' r h =
    let (a, ran, e) = answered-ok task_is _ db' r h in
    attach_task-TasksMove ref text revision p db db' a ran
perform-TasksMove x now p (rotates previous next revision) db db' r h =
    let (a, ran, e) = answered-ok task_is _ db' r h in
    rotate_task-TasksMove now previous next revision p db db' a ran
perform-TasksMove x now p (installs g) db db' r h = elim (Result-cases (install_grant x g p db)) [
  | inl (mid, ran) ↦ same (install_grant-tasks x g p db db' (ground arith))
  | inr (e, failed) ↦ absurd (ground arith)
]
perform-TasksMove x now p (revokes id version) db db' r h =
    let (a, ran, e) = answered-ok was_revoked _ db' r h in
    same (RevokesGrant-tasks id now db db' _ (revoke_grant-ok now id version p db db' a ran))
perform-TasksMove x now p (expires limit) db db' r h =
    keeping were_expired _ db db' r h
      λ a ran. (expire_due_messages-ExpiresDue x now limit p db db' a ran).same_tasks
perform-TasksMove x now p (admits key revision nonce) db db' r h =
    keeping admission_is _ db db' r h
      λ a ran. (admit-tables x now nonce key revision p db db' a ran).1
perform-TasksMove x now p (confirms key revision token evidence provenance) db db' r h =
    keeping disposition_is _ db db' r h
      λ a ran. (confirm-tables x provenance key revision token evidence p db db' a ran).1

after-IsRetired :
    (x : Platform) (e : Event) (ref : TaskRef) (db : Db)
    → IsRetired ref db.tasks
    → IsRetired ref (after x e db).tasks
unfolding after
after-IsRetired x e ref db d = elim (Result-cases (perform x e.time e.principal e.call db)) [
  | inl ((db', response), ran) ↦ rw ran (
      TasksMove-IsRetired ref db.tasks db'.tasks
        (perform-TasksMove x e.time e.principal e.call db db' response ran) d)
  | inr (error, failed) ↦ rw failed d
]

-- What is authorized has its two tasks in the table, and live.
IsCurrentlyAuthorized-retired :
    (db : Db) (now : ℕ) (row : MessageRow) (ref : TaskRef)
    → IsCurrentlyAuthorized db now row
    → IsRetired ref db.tasks
    → ¬ ((row.envelope.sender ≡ ref) ⊎ (row.envelope.target ≡ ref))
IsCurrentlyAuthorized-retired db now row ref c r (inl is) =
    let (e, s, t, g, current, at, input, a) = c.authorized in
    let stored : find_task row.envelope.sender db.tasks ≡ some r.row = rw is r.found in
    ground (arith, ap (λ i. i.source_task) input, stored, a.tasks_current.source_live, r.is_retired)
IsCurrentlyAuthorized-retired db now row ref c r (inr is) =
    let (e, s, t, g, current, at, input, a) = c.authorized in
    let stored : find_task row.envelope.target db.tasks ≡ some r.row = rw is r.found in
    ground (arith, ap (λ i. i.target_task) input, stored, a.tasks_current.target_live, r.is_retired)

find_task-same :
    (ref : TaskRef) (tasks : List TaskRow) (t : TaskRow)
    → find_task ref tasks ≡ some t
    → same_task_ref t.snapshot.ref ref ≡ true
unfolding find_task
find_task-same ref [] t h = absurd (ground arith)
find_task-same ref (u ∷ tasks) t h = elim (Bool-cases (same_task_ref u.snapshot.ref ref)) [
  | inl is ↦ let same_row : u ≡ t = ground arith in rw (← same_row) is
  | inr differs ↦ find_task-same ref tasks t (rw differs at h)
]

retired-KeepsTask : (now : ℕ) → KeepsTask (retired now)
retired-KeepsTask now = record { same_ref = λ u. refl; stays_retired = λ u r. refl }

rotate_task-IsRetired :
    (now : ℕ) (previous : TaskRef) (next : NewTask) (revision : ℕ) (p : Principal) (db db' : Db)
    (t : TaskRow)
    → rotate_task_incarnation now previous next revision p db ≡ ok (db', t)
    → IsRetired previous db'.tasks
unfolding rotate_task_incarnation
rotate_task-IsRetired now previous next revision p db db' t h =
    elim (Option-cases (find_task previous db.tasks)) [
      | inl e ↦ absurd (ground arith)
      | inr (old, e) ↦
          let made : db'.tasks ≡ update_task previous (retired now) db.tasks ++ t ∷ [] =
            ground arith in
          rw made (record {
            row = updated_row previous (retired now) old;
            found =
                find_task-append previous (updated_row previous (retired now) old)
                  (update_task previous (retired now) db.tasks) (t ∷ [])
                  (find_task-update previous previous (retired now) old db.tasks
                    (retired-KeepsTask now) e);
            is_retired = rw (find_task-same previous db.tasks old e) refl;
          })
    ]

-- Once an incarnation of a task is rotated out, no message that it sent or that is meant for it is
-- ever handed to the adapter again: not by any later calls of any callers at any times, whatever is
-- registered or granted later.
pub rotate_stops_dispatch :
    (x : Platform) (now : ℕ) (previous : TaskRef) (next : NewTask) (revision : ℕ) (p : Principal)
    (db db' : Db) (t : TaskRow) (k : Key) (row : MessageRow)
    → rotate_task_incarnation now previous next revision p db ≡ ok (db', t)
    → find k db'.messages ≡ some row
    → (row.envelope.sender ≡ previous) ⊎ (row.envelope.target ≡ previous)
    → (es : List Event) → dispatches x k es db' ≡ 0
rotate_stops_dispatch x now previous next revision p db db' t k row rotated stored of es =
    stopped_dispatches x k row (λ d. IsRetired previous d.tasks)
      (λ e d. after-IsRetired x e previous d)
      (λ d at later gone follows c.
        IsCurrentlyAuthorized-retired d at later previous c gone (
          subst (λ e. (e.sender ≡ previous) ⊎ (e.target ≡ previous)) (sym follows.same_envelope)
            of))
      es db' (rotate_task-IsRetired now previous next revision p db db' t rotated)
      (row, stored, Follows-refl row)

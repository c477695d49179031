-- ===== src/Coordinator/Tasks.antt =====
-- The tasks of the coordinator (src/coordinator/sqlite-coordinator.mjs): registerTask, getTask,
-- updateTaskState, updateTaskRuntime, attachTask and rotateTaskIncarnation. A row of `tasks` and its row
-- of `task_metadata` are inserted together and are one row here; `created_at` is left out. A field of a
-- runtime is checked to be a string or a whole number by its type; an adapter reference is its JSON text.
use threadmesh.Prelude.{
  ℕ, ◌+◌, Bool, true, false, not, ◌&&◌, ◌||◌, String, Option, none, some, List, [], ◌∷◌, ◌++◌, ◌==◌,
  string_eq, nat_eq, pair_eq, option_eq, ltb, Result, ok, ◌>>=◌, ◌>>◌, throw_if, or_throw,
  if◌then◌else◌,
}
use threadmesh.Vocabulary.{ActorType, actor_type_eq, TaskRef, same_task_ref, millis, is_present}
use threadmesh.Policy.{TaskSnapshot}
use threadmesh.Coordinator.{
  TaskRow, Db, Principal, task, user, policy, Error, Platform, is_task_principal, find_task,
}
use threadmesh.Coordinator.Mailbox.{control_plane}

pub record Runtime : Type 0 where
  pub run_id : Option String
  pub objective_version : Option ℕ
  pub checkpoint : Option String

abbrev is_empty_text : Option String → Bool
is_empty_text none = false
is_empty_text (some s) = s == ""

-- assertRuntimeSnapshot of a runtime that is given
abbrev pub assert_runtime : Runtime → Result Error (Unit {0})
assert_runtime r =
    throw_if
      (is_empty_text r.run_id
        || (is_empty_text r.checkpoint
            || not (
                is_present r.run_id
                || (is_present r.objective_version || is_present r.checkpoint))))
      Error.task_runtime_invalid

abbrev pub assert_optional_runtime : Option Runtime → Result Error (Unit {0})
assert_optional_runtime none = ok tt
assert_optional_runtime (some r) = assert_runtime r

abbrev pub no_runtime : Runtime
no_runtime = record { run_id = none; objective_version = none; checkpoint = none }

-- `runtime ?? {}`
abbrev pub runtime_or_empty : Option Runtime → Runtime
runtime_or_empty none = no_runtime
runtime_or_empty (some r) = r

-- runtimeSnapshot
abbrev pub runtime_of : TaskRow → Runtime
runtime_of t = record {
  run_id = t.snapshot.run_id;
  objective_version = t.snapshot.objective_version;
  checkpoint = t.snapshot.checkpoint;
}

abbrev pub same_runtime : Runtime → Runtime → Bool
same_runtime a b =
    (a.run_id == b.run_id)
    && ((a.objective_version == b.objective_version) && (a.checkpoint == b.checkpoint))

-- What is registered; `state` is the argument after its default "idle".
pub record NewTask : Type 0 where
  pub ref : TaskRef
  pub harness : String
  pub state : String
  pub adapter_ref : Option String
  pub runtime : Option Runtime

-- `SELECT * FROM tasks WHERE incarnation_id = ?`
unfoldable pub find_incarnation : String → List TaskRow → Option TaskRow
find_incarnation id [] = none
find_incarnation id (t ∷ tasks) =
    if t.snapshot.ref.incarnation_id == id then some t else find_incarnation id tasks

-- A principal that owns the task, by its kind and name.
abbrev pub is_owner : Principal → TaskRow → Bool
is_owner (task ref) t = false
is_owner (user name) t = (ActorType.user == t.owner_kind) && (name == t.owner_principal_id)
is_owner (policy name) t = (ActorType.policy == t.owner_kind) && (name == t.owner_principal_id)

abbrev pub is_policy : Principal → Bool
is_policy (task ref) = false
is_policy (user name) = false
is_policy (policy name) = true

-- #assertTaskOwnerOrSelf
abbrev pub assert_owner_or_self : Principal → TaskRow → Result Error (Unit {0})
assert_owner_or_self principal t =
    throw_if
      (not (is_owner principal t)
        && (not (is_policy principal) && not (is_task_principal principal t.snapshot.ref)))
      Error.task_not_authorized

-- #taskRecord, with #taskMetadata
abbrev pub task_at : Db → TaskRef → Result Error TaskRow
task_at db ref = or_throw (find_task ref db.tasks) Error.task_not_registered

-- Every row of the task, updated.
unfoldable pub update_task : TaskRef → (TaskRow → TaskRow) → List TaskRow → List TaskRow
update_task ref f [] = []
update_task ref f (t ∷ tasks) =
    (if same_task_ref t.snapshot.ref ref then f t else t) ∷ update_task ref f tasks

abbrev pub snapshot_with : Runtime → TaskSnapshot → TaskSnapshot
snapshot_with r s = record s {
  run_id = r.run_id;
  objective_version = r.objective_version;
  checkpoint = r.checkpoint;
}

abbrev pub new_row : ActorType × String → NewTask → TaskRow
new_row (kind, name) n = record {
  harness = n.harness;
  state = n.state;
  revision = 0;
  snapshot = snapshot_with (runtime_or_empty n.runtime) (record {
    ref = n.ref;
    retired_at = none;
    run_id = none;
    objective_version = none;
    checkpoint = none;
  });
  owner_kind = kind;
  owner_principal_id = name;
  adapter_ref = n.adapter_ref;
}

-- The replay test: the task is as it would be registered now.
unfoldable pub is_same_task : ActorType × String → NewTask → TaskRow → Bool
is_same_task (kind, name) n t =
    (t.owner_kind == kind)
    && ((t.owner_principal_id == name)
        && ((t.harness == n.harness)
            && ((t.state == n.state)
                && ((t.adapter_ref == n.adapter_ref)
                    && same_runtime (runtime_of t) (runtime_or_empty n.runtime)))))

unfoldable pub registered_or_inserted :
    ActorType × String → NewTask → Db → Option TaskRow → Result Error (Db × TaskRow)
registered_or_inserted owner n db (some t) = do
  throw_if (not (t.snapshot.ref.task_id == n.ref.task_id)) Error.incarnation_id_conflict
  throw_if (not (is_same_task owner n t)) Error.idempotency_conflict
  ok (db, t)
registered_or_inserted owner n db none =
    ok (record db { tasks = db.tasks ++ new_row owner n ∷ [] }, new_row owner n)

unfoldable pub register_task : NewTask → Principal → Db → Result Error (Db × TaskRow)
register_task n principal db = do
  owner ← control_plane principal
  throw_if (n.ref.task_id == "" || (n.ref.incarnation_id == "" || n.harness == ""))
      Error.task_invalid
  assert_optional_runtime n.runtime
  registered_or_inserted owner n db (find_incarnation n.ref.incarnation_id db.tasks)

-- getTask
abbrev pub get_task : TaskRef → Principal → Db → Result Error TaskRow
get_task ref principal db = do t ← task_at db ref; assert_owner_or_self principal t; ok t

-- The checks that the updates of a task share, with the task.
abbrev pub assert_updatable : TaskRef → ℕ → Principal → Db → Result Error TaskRow
assert_updatable ref expected_revision principal db = do
  t ← get_task ref principal db
  throw_if (is_present t.snapshot.retired_at) Error.task_retired
  throw_if (not (t.revision == expected_revision)) Error.revision_conflict
  ok t

-- The update, and the task that it gives.
abbrev pub task_updated : TaskRef → (TaskRow → TaskRow) → TaskRow → Db → Db × TaskRow
task_updated ref f t db = (record db { tasks = update_task ref f db.tasks }, f t)

abbrev pub with_state : String → TaskRow → TaskRow
with_state state t = record t { state = state; revision = t.revision + 1 }

unfoldable pub update_task_state :
    Platform → TaskRef → String → ℕ → Principal → Db → Result Error (Db × TaskRow)
update_task_state x ref state expected_revision principal db = do
  throw_if (state == "" || ltb 64 (x.text_length state)) Error.task_state_invalid
  t ← assert_updatable ref expected_revision principal db
  ok (task_updated ref (with_state state) t db)

abbrev pub with_runtime : Runtime → TaskRow → TaskRow
with_runtime r t = record t { snapshot = snapshot_with r t.snapshot; revision = t.revision + 1 }

unfoldable pub update_task_runtime :
    TaskRef → Runtime → ℕ → Principal → Db → Result Error (Db × TaskRow)
update_task_runtime ref r expected_revision principal db = do
  assert_runtime r
  t ← assert_updatable ref expected_revision principal db
  ok (task_updated ref (with_runtime r) t db)

abbrev pub with_adapter : String → TaskRow → TaskRow
with_adapter adapter_ref t = record t { adapter_ref = some adapter_ref; revision = t.revision + 1 }

unfoldable pub attach_task : TaskRef → String → ℕ → Principal → Db → Result Error (Db × TaskRow)
attach_task ref adapter_ref expected_revision principal db = do
  t ← assert_updatable ref expected_revision principal db
  ok (task_updated ref (with_adapter adapter_ref) t db)

-- The previous incarnation, archived.
abbrev pub retired : ℕ → TaskRow → TaskRow
retired now t = record t {
  state = "archived";
  revision = t.revision + 1;
  snapshot = record t.snapshot { retired_at = some (millis now) };
}

abbrev pub assert_owner : Principal → TaskRow → Result Error (Unit {0})
assert_owner principal t =
    throw_if (not (is_policy principal) && not (is_owner principal t)) Error.task_not_authorized

-- `next.harness` is the argument after its default, the harness of the current incarnation.
unfoldable pub rotate_task_incarnation :
    ℕ → TaskRef → NewTask → ℕ → Principal → Db → Result Error (Db × TaskRow)
rotate_task_incarnation now previous next expected_revision principal db = do
  owner ← control_plane principal
  assert_optional_runtime next.runtime
  t ← task_at db previous
  assert_owner principal t
  throw_if (is_present t.snapshot.retired_at) Error.task_retired
  throw_if (not (t.revision == expected_revision)) Error.revision_conflict
  throw_if (not (next.ref.task_id == previous.task_id)) Error.task_rotation_id_mismatch
  throw_if (is_present (find_incarnation next.ref.incarnation_id db.tasks))
      Error.incarnation_id_conflict
  let row : TaskRow = new_row (t.owner_kind, t.owner_principal_id) next
  ok (record db { tasks = update_task previous (retired now) db.tasks ++ row ∷ [] }, row)

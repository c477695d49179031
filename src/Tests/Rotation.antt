-- ===== src/Tests/Rotation.antt =====
-- The theorem on rotated incarnations, applied to the sample database.
use threadmesh.Prelude.{◌≡◌, refl, inr, none, some, [], ◌∷◌, ok, string_eq, pair_eq, find}
use threadmesh.Coordinator.{Db, TaskRow, user, find_task}
use threadmesh.Coordinator.Mailbox.{control_plane}
use threadmesh.Coordinator.Tasks.{
  NewTask, find_incarnation, update_task, rotate_task_incarnation, new_row, retired,
}
use threadmesh.Vocabulary.{ActorType}
use threadmesh.Lifecycle.Trace.{dispatches}
use threadmesh.Lifecycle.Retirement.{rotate_stops_dispatch}
use threadmesh.Tests.Samples.{
  accepted_db, accepted_disposition, message_with, platform, key_1, worker, lead_row, worker_row,
}
use threadmesh.Tests.Coordinator.{begin_event}

abbrev successor : NewTask
successor = record {
  ref = record { task_id = "worker"; incarnation_id = "inc_work_02" };
  harness = "codex";
  state = "idle";
  adapter_ref = some "codex:thread_10";
  runtime = none;
}

abbrev successor_row : TaskRow
successor_row = new_row (ActorType.user, "ada") successor

abbrev rotated_db : Db
rotated_db = record accepted_db { tasks = lead_row ∷ retired 1500 worker_row ∷ successor_row ∷ [] }

rotates_worker :
    rotate_task_incarnation 1500 worker successor 0 (user "ada") accepted_db
    ≡ ok (rotated_db, successor_row)
unfolding rotate_task_incarnation control_plane find_task find_incarnation update_task
rotates_worker = refl

rotate_stops_dispatch_example :
    dispatches platform key_1 (begin_event ∷ begin_event ∷ []) rotated_db ≡ 0
unfolding find
rotate_stops_dispatch_example =
    rotate_stops_dispatch platform 1500 worker successor 0 (user "ada") accepted_db rotated_db
      successor_row key_1 (message_with accepted_disposition) rotates_worker refl (inr refl)
      (begin_event ∷ begin_event ∷ [])

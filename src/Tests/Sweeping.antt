-- ===== src/Tests/Sweeping.antt =====
-- The theorems on the expiry of due messages, applied to the sample database.
use threadmesh.Prelude.{
  String, ◌+◌, ◌≡◌, refl, ok, arith, min, ltb, length, string_eq, pair_eq, find,
}
use threadmesh.Vocabulary.{ActorType}
use threadmesh.Coordinator.{Db, user, find_task}
use threadmesh.Coordinator.Mailbox.{control_plane}
use threadmesh.Coordinator.Tasks.{find_incarnation}
use threadmesh.Coordinator.Expiry.{bounded_limit, is_due, due_count, Expired, expire_due_messages}
use threadmesh.Lifecycle.Trace.{run}
use threadmesh.Lifecycle.Swept.{Swept}
use threadmesh.Lifecycle.Overdue.{expire_due_messages_exact, sweeps_drain, sweeps_of}
use threadmesh.Tests.Samples.{accepted_db, platform}

abbrev ada : ActorType × String
ada = (ActorType.user, "ada")

is_ada : control_plane (user "ada") ≡ ok ada
unfolding control_plane
is_ada = refl

one_is_due : due_count platform 6000 ada accepted_db accepted_db.messages ≡ 1
unfolding due_count find find_task find_incarnation
one_is_due = refl

expire_due_messages_exact_example :
    (db' : Db) × (r : Expired) × (expire_due_messages platform 6000 0 (user "ada") accepted_db
      ≡ ok (db', r))
    × Swept
        (is_due platform 6000 ada accepted_db)
        (bounded_limit 0)
        accepted_db.messages
        db'.messages
        r.expired_messages
    × (db' ≡ record accepted_db { messages = db'.messages; audit_events = db'.audit_events })
    × (length r.expired_messages
        ≡ min (due_count platform 6000 ada accepted_db accepted_db.messages) (bounded_limit 0))
    × (due_count platform 6000 ada db' db'.messages + length r.expired_messages
        ≡ due_count platform 6000 ada accepted_db accepted_db.messages)
    × (r.has_more ≡ ltb 0 (due_count platform 6000 ada db' db'.messages))
expire_due_messages_exact_example =
    expire_due_messages_exact platform 6000 0 (user "ada") ada accepted_db is_ada

sweeps_drain_example :
    let last : Db = run platform (sweeps_of 6000 10 (user "ada") 1) accepted_db in
    due_count platform 6000 ada last last.messages ≡ 0
sweeps_drain_example =
    sweeps_drain platform 6000 10 (user "ada") ada is_ada 1 accepted_db (omega (arith, one_is_due))

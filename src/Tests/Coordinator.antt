-- ===== src/Tests/Coordinator.antt =====
-- The theorems on the coordinator and the dispatcher, applied to the sample database.
use threadmesh.Prelude.{
  inl, ℕ, ◌+◌, ◌≡◌, refl, false, some, [], ◌∷◌, ok, arith, string_eq, pair_eq, find, put,
}
use threadmesh.States.{Decision, ReasonCode}
use threadmesh.Disposition.{is_disposition_transition_allowed, is_decision_reason_allowed}
use threadmesh.Policy.{
  evaluate_relationship_policy, check_policy, is_state_changing_intent, is_elevated,
  check_freshness, check_expectations, incarnation_is_stale, is_superseded, scope_mismatches,
  differs,
}
use threadmesh.Coordinator.{
  Key, Db, Disposition, MessageRow, SubmissionRow, task, prepared, outcome_unknown,
  is_task_principal, latest_grant, find_task, active_grant_for, assert_current_authorization,
  audited, EventType,
}
use threadmesh.Coordinator.Mailbox.{respond, decided}
use threadmesh.Coordinator.Submissions.{submission_key, is_taken, prepare_adapter_submission}
use threadmesh.Coordinator.Attempts.{begin_adapter_submission, record_adapter_receipt}
use threadmesh.Coordinator.Calls.{Response, was_begun, begins, perform}
use threadmesh.Lifecycle.{view, Move}
use threadmesh.Lifecycle.Locality.{is_about, IsLocal}
use threadmesh.Lifecycle.Refinement.{label_of, perform-Move}
use threadmesh.Lifecycle.Trace.{
  Event, run, after, label_at_event, dispatches, releases, occupied, dispatch_balance,
}
use threadmesh.Lifecycle.History.{HasFollowed, run-Follows}
use threadmesh.Lifecycle.Consistency.{IsConsistent, run-IsConsistent}
use threadmesh.Lifecycle.Stranded.{respond_strands}
use threadmesh.Lifecycle.Submissions.{Rows}
use threadmesh.Lifecycle.Authority.{MayBegin, begin_adapter_submission-MayBegin}
use threadmesh.Dispatcher.{dispatch, finish}
use threadmesh.Dispatcher.Safety.{dispatch_never_retries, WrittenAhead, dispatch_writes_ahead}
use threadmesh.Tests.Samples.{
  accepted_db, accepted_disposition, message_with, in_doubt_db, submission_1, platform, key_1,
  worker, adapters_1, request_1, steer_worker,
}

-- The message, accepted and handed over to the adapter registry, before the adapter is called.
abbrev prepared_db : Db
prepared_db = record accepted_db { submissions = (key_1, submission_1 prepared) ∷ [] }

abbrev begun_db : Db
begun_db = audited key_1 EventType.adapter_attempt_started 1 in_doubt_db

abbrev begun : Response
begun = was_begun (record {
  replay = false;
  submission = submission_1 outcome_unknown;
  dispatch = some ("codex:thread_9", steer_worker);
})

abbrev pub begin_event : Event
begin_event = record { time = 1100; principal = task worker; call = begins "sub_1" 1 }

begins_fresh :
    perform platform 1100 (task worker) (begins "sub_1" 1) prepared_db ≡ ok (begun_db, begun)
unfolding perform begin_adapter_submission submission_key find put is_task_principal
    assert_current_authorization active_grant_for latest_grant find_task
    evaluate_relationship_policy check_policy is_state_changing_intent is_elevated check_freshness
    check_expectations incarnation_is_stale is_superseded scope_mismatches differs
    is_disposition_transition_allowed
begins_fresh = refl

perform-Move_example :
    Move
      (label_of prepared_db (begins "sub_1" 1) begun key_1)
      (view key_1 prepared_db)
      (view key_1 begun_db)
    × IsLocal (is_about prepared_db (begins "sub_1" 1) key_1) prepared_db begun_db key_1
perform-Move_example =
    perform-Move platform 1100 (task worker) (begins "sub_1" 1) prepared_db begun_db begun
      begins_fresh key_1

dispatch_balance_example :
    ◌≡◌ {A = ℕ}
      (dispatches platform key_1 (begin_event ∷ begin_event ∷ []) prepared_db
        + occupied (find key_1 prepared_db.submissions))
      (releases platform key_1 (begin_event ∷ begin_event ∷ []) prepared_db
        + occupied
            (find key_1 (run platform (begin_event ∷ begin_event ∷ []) prepared_db).submissions))
dispatch_balance_example =
    dispatch_balance platform key_1 (begin_event ∷ begin_event ∷ []) prepared_db

dispatched_once : dispatches platform key_1 (begin_event ∷ begin_event ∷ []) prepared_db ≡ 1
unfolding dispatches label_at_event after perform begin_adapter_submission submission_key find put
    is_task_principal assert_current_authorization active_grant_for latest_grant find_task
    evaluate_relationship_policy check_policy is_state_changing_intent is_elevated check_freshness
    check_expectations incarnation_is_stale is_superseded scope_mismatches differs
    is_disposition_transition_allowed
dispatched_once = refl

run-Follows_example :
    HasFollowed
      (message_with accepted_disposition)
      (view key_1 (run platform (begin_event ∷ []) prepared_db))
unfolding find
run-Follows_example =
    run-Follows platform key_1 (begin_event ∷ []) prepared_db (message_with accepted_disposition)
      refl

abbrev revoked_disposition : Disposition
revoked_disposition = decided Decision.revoked ReasonCode.revoked accepted_disposition

abbrev revoked_db : Db
revoked_db =
    audited key_1 EventType.receiver_decided 2
      (record in_doubt_db { messages = (key_1, message_with revoked_disposition) ∷ [] })

revokes :
    respond 1500 key_1 Decision.revoked 1 ReasonCode.revoked (task worker) in_doubt_db
    ≡ ok (revoked_db, revoked_disposition)
unfolding respond is_decision_reason_allowed find put is_task_principal
    is_disposition_transition_allowed
revokes = refl

respond_strands_example :
    find key_1 (run platform (begin_event ∷ []) revoked_db).submissions
    ≡ some (submission_1 outcome_unknown)
unfolding find
respond_strands_example =
    respond_strands platform 1500 key_1 Decision.revoked 1 ReasonCode.revoked (task worker)
      in_doubt_db revoked_db revoked_disposition (submission_1 outcome_unknown)
      (message_with accepted_disposition) refl refl refl refl revokes (begin_event ∷ [])

dispatch_never_retries_example :
    ((dispatch platform adapters_1 request_1 (λ db. db) in_doubt_db).submits ≡ 0)
    × ((dispatch platform adapters_1 request_1 (λ db. db) in_doubt_db).db ≡ in_doubt_db)
unfolding find
dispatch_never_retries_example =
    dispatch_never_retries platform adapters_1 request_1 (λ db. db) in_doubt_db refl

dispatch_calls : (dispatch platform adapters_1 request_1 (λ db. db) accepted_db).submits ≡ 1
unfolding dispatch finish prepare_adapter_submission begin_adapter_submission record_adapter_receipt
    submission_key is_taken find put is_task_principal assert_current_authorization active_grant_for
    latest_grant find_task evaluate_relationship_policy check_policy is_state_changing_intent
    is_elevated check_freshness check_expectations incarnation_is_stale is_superseded
    scope_mismatches differs is_disposition_transition_allowed
dispatch_calls = refl

dispatch_writes_ahead_example :
    WrittenAhead platform adapters_1 request_1
      (λ db. db)
      (dispatch platform adapters_1 request_1 (λ db. db) accepted_db)
unfolding find
dispatch_writes_ahead_example =
    dispatch_writes_ahead platform adapters_1 request_1 (λ db. db) accepted_db (inl refl)
      dispatch_calls

in_doubt-IsConsistent : (k : Key) → IsConsistent (view k in_doubt_db)
unfolding find
in_doubt-IsConsistent k = ground arith

run-IsConsistent_example : IsConsistent (view key_1 (run platform (begin_event ∷ []) in_doubt_db))
run-IsConsistent_example =
    run-IsConsistent platform (begin_event ∷ []) in_doubt_db in_doubt-IsConsistent key_1

begins_once :
    begin_adapter_submission platform 1100 "sub_1" 1 (task worker) prepared_db
    ≡ ok (
      begun_db,
      record {
        replay = false;
        submission = submission_1 outcome_unknown;
        dispatch = some ("codex:thread_9", steer_worker);
      },
    )
unfolding begin_adapter_submission submission_key find put is_task_principal
    assert_current_authorization active_grant_for latest_grant find_task
    evaluate_relationship_policy check_policy is_state_changing_intent is_elevated check_freshness
    check_expectations incarnation_is_stale is_superseded scope_mismatches differs
    is_disposition_transition_allowed
begins_once = refl

begin_adapter_submission-MayBegin_example :
    (key : Key) × (s : SubmissionRow) × (row : MessageRow) × Rows prepared_db "sub_1" key s row
    × MayBegin prepared_db 1100 (task worker) s row
begin_adapter_submission-MayBegin_example =
    begin_adapter_submission-MayBegin platform 1100 "sub_1" 1 (task worker) prepared_db begun_db _
      begins_once

-- ===== src/Tests/Dispatching.antt =====
-- The theorems on a dispatch that goes through, applied to the sample database.
use threadmesh.Prelude.{◌≡◌, refl, some, ok, string_eq, pair_eq, find}
use threadmesh.Disposition.{is_disposition_transition_allowed}
use threadmesh.Policy.{
  evaluate_relationship_policy, check_policy, is_state_changing_intent, is_elevated,
  check_freshness, check_expectations, incarnation_is_stale, is_superseded, scope_mismatches,
  differs,
}
use threadmesh.Coordinator.{
  is_task_principal, latest_grant, find_task, active_grant_for, assert_current_authorization,
}
use threadmesh.Coordinator.Submissions.{submission_key, is_taken}
use threadmesh.Coordinator.Attempts.{attempt_started, receipt_stored, submitted}
use threadmesh.Dispatcher.{dispatch, Dispatch, recorded}
use threadmesh.Dispatcher.Delivery.{IsReady, first_submission, delivered, dispatch_delivers}
use threadmesh.Tests.Samples.{
  accepted_db, accepted_disposition, message_with, platform, key_1, adapters_1, answering,
  receipt_1, request_1,
}

accepted_db-IsReady :
    IsReady platform adapters_1 request_1 accepted_db
      (message_with accepted_disposition)
      "codex:thread_9"
unfolding find submission_key is_taken is_task_principal assert_current_authorization
    active_grant_for latest_grant find_task evaluate_relationship_policy check_policy
    is_state_changing_intent is_elevated check_freshness check_expectations incarnation_is_stale
    is_superseded scope_mismatches differs is_disposition_transition_allowed
accepted_db-IsReady = record {
  found = refl;
  unsubmitted = refl;
  by_target = refl;
  authorized = refl;
  not_expired = refl;
  submittable = refl;
  bound = refl;
  new_id = refl;
  fits_prepared = refl;
  fits_started = refl;
  unique = refl;
}

dispatch_delivers_example :
    let result : Dispatch = dispatch platform adapters_1 request_1 (λ d. d) accepted_db in
    let first =
      first_submission platform request_1 (message_with accepted_disposition) "codex:thread_9" in
    (result.submits ≡ 1)
    × (result.result
        ≡ ok (recorded (delivered platform (message_with accepted_disposition) first receipt_1)))
    × (find key_1 result.db.messages ≡ some (message_with (submitted accepted_disposition)))
    × (find key_1 result.db.submissions
        ≡ some (receipt_stored platform receipt_1 (attempt_started first)))
unfolding find
dispatch_delivers_example =
    dispatch_delivers platform adapters_1 request_1 accepted_db (message_with accepted_disposition)
      "codex:thread_9" answering receipt_1 accepted_db-IsReady refl refl refl refl

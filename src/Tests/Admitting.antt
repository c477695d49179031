-- ===== src/Tests/Admitting.antt =====
-- The theorems on context admissions, applied to a suggestion that its receiver accepted.
use threadmesh.Prelude.{
  ◌≡◌, refl, true, false, none, some, [], ◌∷◌, ok, err, string_eq, pair_eq, find, put,
  if◌then◌else◌,
}
use threadmesh.States.{Delivery}
use threadmesh.Vocabulary.{Intent}
use threadmesh.Disposition.{is_disposition_transition_allowed}
use threadmesh.Policy.{
  evaluate_relationship_policy, check_policy, is_state_changing_intent, is_elevated,
  check_freshness, check_expectations, incarnation_is_stale, is_superseded, scope_mismatches,
  differs,
}
use threadmesh.Coordinator.{
  outcome_unknown, AdmissionRow, Db, MessageRow, task, Error, audited, EventType, is_task_principal,
  latest_grant, find_task, active_grant_for, assert_current_authorization,
}
use threadmesh.Coordinator.Mailbox.{with_disposition}
use threadmesh.Coordinator.Admission.{
  Admission, AdapterEvidence, prepare_context_admission, confirm_context_admission,
  recover_context_admission, new_admission, admission_of, admitted, completed, may_be_admitted,
  is_proven, is_context_adapter_ref, evidence_matches, assert_evidence, admission_token_is_taken,
  assert_admission_state,
}
use threadmesh.Lifecycle.Recovery.{prepare-recover, prepare-confirm-recover}
use threadmesh.Lifecycle.Trace.{run}
use threadmesh.Lifecycle.Stranded.{confirm_strands}
use threadmesh.Tests.Coordinator.{begin_event}
use threadmesh.Tests.Samples.{
  submission_1, accepted_db, accepted_disposition, message_with, platform, key_1, worker,
  steer_worker,
}

abbrev suggestion : MessageRow
suggestion = record (message_with accepted_disposition) {
  envelope = record steer_worker { intent = Intent.suggest };
}

abbrev suggested_db : Db
suggested_db = record accepted_db { messages = (key_1, suggestion) ∷ [] }

abbrev claim : AdmissionRow
claim = new_admission platform key_1 suggestion 1 "nonce_1" "codex:thread_9"

abbrev claimed_db : Db
claimed_db =
    audited key_1 EventType.context_admission_claimed 1
      (record suggested_db { admissions = (key_1, claim) ∷ [] })

abbrev admission : Admission
admission = admission_of platform suggestion claim

claims :
    prepare_context_admission platform 1000 "nonce_1" key_1 1 (task worker) suggested_db
    ≡ ok (claimed_db, admission)
unfolding prepare_context_admission find put is_task_principal assert_current_authorization
    active_grant_for latest_grant find_task evaluate_relationship_policy check_policy
    is_state_changing_intent is_elevated check_freshness check_expectations incarnation_is_stale
    is_superseded scope_mismatches differs is_disposition_transition_allowed assert_admission_state
    is_context_adapter_ref admission_token_is_taken
claims = refl

prepare-recover_example :
    (row : MessageRow) × (find key_1 suggested_db.messages ≡ some row)
    × (recover_context_admission platform false key_1 (task worker) claimed_db ≡ (
        if may_be_admitted row.disposition.delivery
        then ok (true, admission)
        else err Error.context_admission_binding_invalid))
prepare-recover_example =
    prepare-recover platform 1000 false "nonce_1" key_1 1 (task worker) suggested_db claimed_db
      admission claims

abbrev evidence : AdapterEvidence
evidence = record {
  session_id = none;
  thread_id = some "thread_9";
  turn_id = some "turn_5";
  snapshot_digest = some "snapshot_9";
  stop_reason = none;
  turn_status = some "completed";
  result_status = none;
  exit_code = none;
  tool_use_count = none;
}

abbrev admitted_db : Db
admitted_db =
    audited key_1 EventType.context_admitted 2
      (record (with_disposition key_1 suggestion (admitted accepted_disposition) claimed_db) {
        admissions = (key_1, completed claim) ∷ [];
      })

confirms :
    confirm_context_admission platform false key_1 1 "nonce_1" evidence (task worker) claimed_db
    ≡ ok (admitted_db, admitted accepted_disposition)
unfolding confirm_context_admission find put is_task_principal is_proven is_context_adapter_ref
    evidence_matches assert_evidence
confirms = refl

prepare-confirm-recover_example :
    (recover_context_admission platform false key_1 (task worker) admitted_db
      ≡ ok (false, admission))
    × ((admitted accepted_disposition).delivery ≡ Delivery.context_admitted)
    × ((admitted accepted_disposition).revision ≡ 2)
prepare-confirm-recover_example =
    prepare-confirm-recover platform 1000 false false "nonce_1" "nonce_1" key_1 1 evidence
      (task worker) suggested_db claimed_db admitted_db admission (admitted accepted_disposition)
      claims confirms

-- The same, while the outcome of an attempt to submit the message is unknown.
abbrev both_db : Db
both_db = record claimed_db { submissions = (key_1, submission_1 outcome_unknown) ∷ [] }

abbrev stranded_db : Db
stranded_db = record admitted_db { submissions = (key_1, submission_1 outcome_unknown) ∷ [] }

confirms_in_doubt :
    confirm_context_admission platform false key_1 1 "nonce_1" evidence (task worker) both_db
    ≡ ok (stranded_db, admitted accepted_disposition)
unfolding confirm_context_admission find put is_task_principal is_proven is_context_adapter_ref
    evidence_matches assert_evidence
confirms_in_doubt = refl

confirm_strands_example :
    find key_1 (run platform (begin_event ∷ []) stranded_db).submissions
    ≡ some (submission_1 outcome_unknown)
unfolding find
confirm_strands_example =
    confirm_strands platform false key_1 1 "nonce_1" evidence (task worker) both_db stranded_db
      (admitted accepted_disposition) (submission_1 outcome_unknown) suggestion refl refl refl refl
      confirms_in_doubt refl (begin_event ∷ [])

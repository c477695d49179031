-- ===== src/Coordinator/Attempts.antt =====
-- The attempts of adapter submissions (src/coordinator/sqlite-coordinator.mjs):
-- beginAdapterSubmission, recordAdapterReceipt and reconcileAdapterSubmission.
use threadmesh.Prelude.{
  ℕ, ◌+◌, Bool, true, false, not, ◌||◌, String, Option, none, some, List, [], ◌∷◌, ◌==◌, string_eq,
  nat_eq, pair_eq, option_eq, Result, ok, err, ◌>>=◌, ◌>>◌, throw_if, put, includes,
}
use threadmesh.States.{Delivery, Decision, delivery_eq, decision_eq}
use threadmesh.Vocabulary.{Instant, millis, nan}
use threadmesh.Policy.{Envelope}
use threadmesh.Coordinator.{
  Key, Disposition, MessageRow, SubmissionState, prepared, outcome_unknown, receipt_recorded,
  manual_reconciliation, SubmissionRow, EventType, Db, Principal, Receipt, Error, Platform,
  assert_task_principal, assert_current_authorization, assert_not_expired, assert_submission,
  audited,
}
use threadmesh.Coordinator.Mailbox.{with_disposition}
use threadmesh.Coordinator.Submissions.{
  assert_adapter_submission_state, adapter_ref_of, submission_with_message,
}

abbrev is_prepared : SubmissionState → Bool
is_prepared prepared = true
is_prepared _ = false

abbrev is_outcome_unknown : SubmissionState → Bool
is_outcome_unknown outcome_unknown = true
is_outcome_unknown _ = false

pub record Begun : Type 0 where
  pub replay : Bool
  pub submission : SubmissionRow
  pub dispatch : Option (String × Envelope)

abbrev pub with_submission : Key → SubmissionRow → Db → Db
with_submission key s db = record db { submissions = put key s db.submissions }

-- The row that is `outcome-unknown` from now on, before the adapter is called.
abbrev pub attempt_started : SubmissionRow → SubmissionRow
attempt_started s = record s { state = outcome_unknown }

abbrev pub attempt_after :
    Platform
    → ℕ
    → Key
    → SubmissionRow
    → MessageRow
    → Db
    → SubmissionState
    → Result Error (Db × Begun)
attempt_after x expected_revision key s row db outcome_unknown = do
  assert_submission x key row s
  ok (db, record { replay = true; submission = s; dispatch = none })
attempt_after x expected_revision key s row db state = do
  adapter_ref ← adapter_ref_of db row
  throw_if (not (x.adapter_ref_digest adapter_ref == s.adapter_ref_digest))
      Error.adapter_ref_changed
  throw_if (not (is_prepared state)) Error.adapter_submission_state_conflict
  assert_submission x key row (attempt_started s)
  ok (
    audited key EventType.adapter_attempt_started expected_revision
        (with_submission key (attempt_started s) db),
    record {
      replay = false;
      submission = attempt_started s;
      dispatch = some (adapter_ref, row.envelope);
    },
  )

unfoldable pub begin_adapter_submission :
    Platform → ℕ → String → ℕ → Principal → Db → Result Error (Db × Begun)
begin_adapter_submission x now id expected_revision principal db = do
  (key, s, row) ← submission_with_message db id
  assert_task_principal principal row.envelope.target
  assert_current_authorization db now row
  assert_not_expired now row
  assert_adapter_submission_state row expected_revision
  throw_if (not (s.expected_revision == expected_revision)) Error.revision_or_state_conflict
  attempt_after x expected_revision key s row db s.state

pub record Recorded : Type 0 where
  pub replay : Bool
  pub submission : SubmissionRow
  pub disposition : Disposition

abbrev pub is_nan : Instant → Bool
is_nan (millis t) = false
is_nan nan = true

abbrev pub submitted : Disposition → Disposition
submitted d = record d { revision = d.revision + 1; delivery = Delivery.adapter_submitted }

abbrev pub receipt_stored : Platform → Receipt → SubmissionRow → SubmissionRow
receipt_stored x receipt s = record s {
  state = receipt_recorded;
  receipt_json = some (x.receipt_json receipt);
}

-- The `delivery_state IN (…)` of the update.
abbrev pub may_be_submitted : Delivery → Bool
may_be_submitted delivery =
    includes
      (Delivery.durably_received ∷ Delivery.receiver_notified ∷ Delivery.checkpoint_offered
        ∷ Delivery.context_admitted ∷ [])
      delivery

abbrev pub record_after :
    Platform
    → ℕ
    → Receipt
    → Key
    → SubmissionRow
    → MessageRow
    → Db
    → SubmissionState
    → Result Error (Db × Recorded)
record_after x expected_revision receipt key s row db receipt_recorded = do
  throw_if (not (s.receipt_json == some (x.receipt_json receipt))) Error.adapter_receipt_conflict
  assert_submission x key row s
  ok (db, record { replay = true; submission = s; disposition = row.disposition })
record_after x expected_revision receipt key s row db state = do
  assert_adapter_submission_state row expected_revision
  throw_if (not (is_outcome_unknown state) || not (s.expected_revision == expected_revision))
      Error.adapter_submission_state_conflict
  throw_if
      (not (row.disposition.revision == expected_revision)
        || (not (row.disposition.decision == Decision.accepted)
            || not (may_be_submitted row.disposition.delivery)))
      Error.revision_or_state_conflict
  assert_submission x key row (receipt_stored x receipt s)
  let d : Disposition = submitted row.disposition
  ok (
    audited key EventType.adapter_receipt_recorded d.revision
        (with_submission key (receipt_stored x receipt s) (with_disposition key row d db)),
    record { replay = false; submission = receipt_stored x receipt s; disposition = d },
  )

unfoldable pub record_adapter_receipt :
    Platform → String → ℕ → Receipt → Principal → Db → Result Error (Db × Recorded)
record_adapter_receipt x id expected_revision receipt principal db = do
  throw_if (receipt.adapter_operation_id == "" || is_nan receipt.accepted_at)
      Error.adapter_receipt_invalid
  (key, s, row) ← submission_with_message db id
  assert_task_principal principal row.envelope.target
  record_after x expected_revision receipt key s row db s.state

pub data Resolution : Type 0 where
  confirmed_submitted confirmed_not_submitted manual_required unknown_resolution : Resolution

pub record Reconciliation : Type 0 where
  pub resolution : Resolution
  pub evidence_refs : List String
  pub receipt : Option Receipt

-- `reconciliation.receipt?.evidenceRefs ?? reconciliation.evidenceRefs`
abbrev pub with_evidence : List String → Receipt → Receipt
with_evidence refs receipt = elim receipt.evidence_refs [
  | none ↦ record receipt { evidence_refs = some refs }
  | some own ↦ receipt
]

abbrev pub reconciled : SubmissionState → List String → SubmissionRow → SubmissionRow
reconciled state refs s = record s { state = state; reconciliation = some refs }

-- The branch of a resolution that is no receipt.
abbrev pub reconcile_as :
    Platform
    → SubmissionState
    → String
    → ℕ
    → List String
    → Principal
    → Db
    → Result Error (Db × SubmissionRow)
reconcile_as x state id expected_revision refs principal db = do
  (key, s, row) ← submission_with_message db id
  assert_task_principal principal row.envelope.target
  throw_if
      (not (is_outcome_unknown s.state)
        || (not (s.expected_revision == expected_revision)
            || not (row.disposition.revision == expected_revision)))
      Error.adapter_submission_state_conflict
  assert_submission x key row (reconciled state refs s)
  ok (
    audited key EventType.adapter_submission_reconciled expected_revision
        (with_submission key (reconciled state refs s) db),
    reconciled state refs s,
  )

abbrev pub submission_of : Result Error (Db × Recorded) → Result Error (Db × SubmissionRow)
submission_of r = r >>= λ q. ok (q.0, q.1.submission)

-- A missing receipt is an object without an operation id.
abbrev reconcile_submitted :
    Platform
    → String
    → ℕ
    → List String
    → Option Receipt
    → Principal
    → Db
    → Result Error (Db × SubmissionRow)
reconcile_submitted x id expected_revision refs none principal db =
    err Error.adapter_receipt_invalid
reconcile_submitted x id expected_revision refs (some receipt) principal db =
    submission_of
      (record_adapter_receipt x id expected_revision (with_evidence refs receipt) principal db)

abbrev pub reconcile_by :
    Platform
    → String
    → ℕ
    → Reconciliation
    → Principal
    → Db
    → Resolution
    → Result Error (Db × SubmissionRow)
reconcile_by x id expected_revision r principal db Resolution.confirmed_submitted =
    reconcile_submitted x id expected_revision r.evidence_refs r.receipt principal db
reconcile_by x id expected_revision r principal db Resolution.confirmed_not_submitted =
    reconcile_as x SubmissionState.confirmed_not_submitted id expected_revision r.evidence_refs
      principal db
reconcile_by x id expected_revision r principal db Resolution.manual_required =
    reconcile_as x manual_reconciliation id expected_revision r.evidence_refs principal db
reconcile_by x id expected_revision r principal db Resolution.unknown_resolution =
    err Error.adapter_reconciliation_invalid

abbrev pub is_unknown : Resolution → Bool
is_unknown Resolution.unknown_resolution = true
is_unknown _ = false

abbrev pub is_empty : List String → Bool
is_empty [] = true
is_empty (ref ∷ refs) = false

unfoldable pub reconcile_adapter_submission :
    Platform → String → ℕ → Reconciliation → Principal → Db → Result Error (Db × SubmissionRow)
reconcile_adapter_submission x id expected_revision r principal db = do
  throw_if (is_unknown r.resolution) Error.adapter_reconciliation_invalid
  throw_if (is_empty r.evidence_refs) Error.adapter_reconciliation_evidence_required
  reconcile_by x id expected_revision r principal db r.resolution

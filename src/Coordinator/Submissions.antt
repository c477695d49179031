-- ===== src/Coordinator/Submissions.antt =====
-- Adapter submissions of the coordinator (src/coordinator/sqlite-coordinator.mjs):
-- prepareAdapterSubmission, and the checks and lookups that the other methods on submissions share.
-- The two random UUIDs of a new submission are arguments; timestamps of rows are left out. An adapter
-- reference and a receipt are kept as their JSON texts.
use threadmesh.Prelude.{
  ℕ, Bool, true, false, not, ◌&&◌, ◌||◌, String, Option, none, some, List, [], ◌∷◌, ◌==◌, string_eq,
  nat_eq, pair_eq, option_eq, Result, ok, err, ◌>>=◌, ◌>>◌, throw_if, or_throw, if◌then◌else◌, find,
  put,
}
use threadmesh.States.{Delivery, Decision, delivery_eq, decision_eq}
use threadmesh.Disposition.{Machine, is_disposition_transition_allowed}
use threadmesh.Policy.{Envelope}
use threadmesh.Coordinator.{
  Key, MessageRow, prepared, confirmed_not_submitted, SubmissionRow, TaskRow, EventType, Db,
  Principal, Error, Platform, assert_task_principal, assert_current_authorization,
  assert_not_expired, assert_submission, message_at, audited, find_task,
}

-- #assertAdapterSubmissionState
abbrev pub assert_adapter_submission_state : MessageRow → ℕ → Result Error (Unit {0})
assert_adapter_submission_state row expected_revision =
    throw_if
      (not (row.disposition.revision == expected_revision)
        || (not (row.disposition.decision == Decision.accepted)
            || not (
                is_disposition_transition_allowed Machine.delivery row.disposition.delivery
                  Delivery.adapter_submitted)))
      Error.revision_or_state_conflict

-- The UNIQUE constraints on `submission_id` and `adapter_idempotency_key`, against the rows of other
-- messages.
unfoldable pub is_taken : Key → String → String → List (Key × SubmissionRow) → Bool
is_taken key id idempotency_key [] = false
is_taken key id idempotency_key ((k, s) ∷ rows) =
    (not (k == key) && (s.submission_id == id || s.adapter_idempotency_key == idempotency_key))
    || is_taken key id idempotency_key rows

abbrev bound_adapter : Option TaskRow → Result Error String
bound_adapter none = err Error.target_adapter_not_bound
bound_adapter (some t) = or_throw t.adapter_ref Error.target_adapter_not_bound

-- The adapter that the target task is bound to.
abbrev pub adapter_ref_of : Db → MessageRow → Result Error String
adapter_ref_of db row = bound_adapter (find_task row.envelope.target db.tasks)

-- `addressed` is the adapter reference and the envelope, where the response has them.
pub record Prepared : Type 0 where
  pub replay : Bool
  pub addressed : Option (String × Envelope)
  pub submission : SubmissionRow

abbrev pub new_submission : Platform → String → String → ℕ → MessageRow → String → SubmissionRow
new_submission x id idempotency_key expected_revision row adapter_ref = record {
  submission_id = id;
  expected_revision = expected_revision;
  envelope_digest = row.envelope_digest;
  adapter_ref_digest = x.adapter_ref_digest adapter_ref;
  adapter_idempotency_key = idempotency_key;
  state = prepared;
  receipt_json = none;
  reconciliation = none;
}

-- The `DELETE` of a submission that was confirmed as not submitted and the `INSERT` of the new one.
abbrev pub inserted_submission :
    Platform → String → String → Key → ℕ → MessageRow → String → Db → Result Error (Db × Prepared)
inserted_submission x id idempotency_key key expected_revision row adapter_ref db = do
  throw_if (is_taken key id idempotency_key db.submissions) Error.unique_constraint_failed
  let s : SubmissionRow = new_submission x id idempotency_key expected_revision row adapter_ref
  assert_submission x key row s
  ok (
    audited key EventType.adapter_submission_prepared expected_revision
        (record db { submissions = put key s db.submissions }),
    record { replay = false; addressed = some (adapter_ref, row.envelope); submission = s },
  )

-- The checks that a submission needs before it is made, with the adapter it goes to.
abbrev pub assert_submittable : ℕ → ℕ → MessageRow → Db → Result Error String
assert_submittable now expected_revision row db = do
  assert_current_authorization db now row
  assert_not_expired now row
  assert_adapter_submission_state row expected_revision
  adapter_ref_of db row

abbrev pub prepare_after :
    Platform
    → ℕ
    → String
    → String
    → Key
    → ℕ
    → MessageRow
    → Db
    → Option SubmissionRow
    → Result Error (Db × Prepared)
prepare_after x now id idempotency_key key expected_revision row db none = do
  adapter_ref ← assert_submittable now expected_revision row db
  inserted_submission x id idempotency_key key expected_revision row adapter_ref db
prepare_after x now id idempotency_key key expected_revision row db (some s) = elim s.state [
  | prepared ↦ do
    adapter_ref ← assert_submittable now expected_revision row db
    throw_if (not (s.expected_revision == expected_revision)) Error.adapter_submission_in_flight
    assert_submission x key row s
    ok (db, record { replay = true; addressed = some (adapter_ref, row.envelope); submission = s })
  | confirmed_not_submitted ↦ do
    adapter_ref ← assert_submittable now expected_revision row db
    inserted_submission x id idempotency_key key expected_revision row adapter_ref db
  | _ ↦ do
    throw_if (not (s.expected_revision == expected_revision)) Error.adapter_submission_in_flight
    assert_submission x key row s
    ok (db, record { replay = true; addressed = none; submission = s })
]

unfoldable pub prepare_adapter_submission :
    Platform → ℕ → String → String → Key → ℕ → Principal → Db → Result Error (Db × Prepared)
prepare_adapter_submission x now id idempotency_key key expected_revision principal db = do
  row ← message_at db key
  assert_task_principal principal row.envelope.target
  prepare_after x now id idempotency_key key expected_revision row db (find key db.submissions)

-- The primary key of the submission with an id.
unfoldable pub submission_key : String → List (Key × SubmissionRow) → Option Key
submission_key id [] = none
submission_key id ((k, s) ∷ rows) = if s.submission_id == id then some k else submission_key id rows

-- #submissionWithMessage: the key, the submission and its message.
abbrev pub submission_with_message : Db → String → Result Error (Key × SubmissionRow × MessageRow)
submission_with_message db id = do
  key ← or_throw (submission_key id db.submissions) Error.adapter_submission_not_found
  s ← or_throw (find key db.submissions) Error.adapter_submission_not_found
  row ← message_at db key
  ok (key, s, row)

-- ===== src/Dispatcher.antt =====
-- The durable dispatcher (src/dispatcher/durable-dispatcher.mjs): one dispatch of an accepted message
-- to the adapter of its target task, over the coordinator's methods.
-- An adapter is the external program behind a kind: whether it supports a message, and what its
-- `submit` gives for an attempt, a receipt or (`none`) an exception or an object that is no receipt.
-- While `submit` is awaited the coordinator may serve other calls: `meanwhile` is what they do to
-- the database. Each method is a transaction of its own, so the database is a result also where the
-- dispatch throws; so is the number of times that `submit` was called.
mod Answers
pub mod Safety
pub mod Delivery
use threadmesh.Prelude.{
  ℕ, Bool, true, false, not, ◌&&◌, ◌||◌, String, Option, none, some, List, [], ◌∷◌, Result, ok, err,
  ◌>>=◌, ◌>>◌, throw_if, if◌then◌else◌, Eq, ◌==◌, string_eq, find,
}
use threadmesh.Policy.{Envelope}
use threadmesh.Coordinator.{
  Key, Disposition, Db, Principal, Platform, Error, assert_submission, Receipt, SubmissionState,
  prepared, outcome_unknown, receipt_recorded, confirmed_not_submitted, manual_reconciliation,
  SubmissionRow, MessageRow,
}
use threadmesh.Coordinator.Mailbox.{fail_delivery}
use threadmesh.Coordinator.Submissions.{
  Prepared, prepare_adapter_submission, submission_with_message,
}
use threadmesh.Coordinator.Attempts.{
  Begun, Recorded, begin_adapter_submission, record_adapter_receipt,
}

pub record Adapter : Type 0 where
  pub supports : String → Envelope → Bool
  pub submit : SubmissionRow → String → Envelope → Option Receipt

-- The registered adapters, by kind, and the `kind` of an adapter reference.
pub record Adapters : Type 0 where
  pub registered : List (String × Adapter)
  pub kind_of : String → String

pub data DispatchResult : Type 0 where
  already_recorded already_unknown already_manual : SubmissionRow → DispatchResult
  unsupported : Disposition → DispatchResult
  begun_elsewhere : SubmissionRow → DispatchResult
  outcome_is_unknown : SubmissionRow → DispatchResult
  recorded : Recorded → DispatchResult

pub record Dispatch : Type 0 where
  pub db : Db
  pub submits : ℕ
  pub result : Result Error DispatchResult

-- The arguments of a dispatch, with the time and the two UUIDs that the coordinator would draw.
pub record Request : Type 0 where
  pub time : ℕ
  pub key : Key
  pub expected_revision : ℕ
  pub principal : Principal
  pub submission_id : String
  pub idempotency_key : String

abbrev ended : Db → Result Error DispatchResult → Dispatch
ended db result = record { db = db; submits = 0; result = result }

abbrev submitted_with : Db → Result Error DispatchResult → Dispatch
submitted_with db result = record { db = db; submits = 1; result = result }

-- `getAdapterSubmission`, which the target task may always read.
abbrev read_submission : Platform → Db → String → Result Error DispatchResult
read_submission x db id = do
  (key, s, row) ← submission_with_message db id
  assert_submission x key row s
  ok (outcome_is_unknown s)

abbrev record_answer : Db → Result Error (Db × Recorded) → Dispatch
record_answer db (ok (db', r)) = submitted_with db' (ok (recorded r))
record_answer db (err e) = submitted_with db (err e)

-- After `adapter.submit`: the receipt is recorded, or the outcome stays unknown.
unfoldable pub finish : Platform → Request → SubmissionRow → Option Receipt → Db → Dispatch
finish x q s none db = submitted_with db (read_submission x db s.submission_id)
finish x q s (some receipt) db =
    record_answer db
      (record_adapter_receipt x s.submission_id q.expected_revision receipt q.principal db)

abbrev begin_answer :
    Platform → Adapter → Request → (Db → Db) → Db → Result Error (Db × Begun) → Dispatch
begin_answer x adapter q meanwhile db (err e) = ended db (err e)
begin_answer x adapter q meanwhile db (ok (db', b)) = elim b.dispatch [
  | none ↦ ended db' (ok (begun_elsewhere b.submission))
  | some (ref, e) ↦
      if b.replay
      then ended db' (ok (begun_elsewhere b.submission))
      else finish x q b.submission (adapter.submit b.submission ref e) (meanwhile db')
]

abbrev fail_answer : Db → Result Error (Db × Disposition) → Dispatch
fail_answer db (ok (db', d)) = ended db' (ok (unsupported d))
fail_answer db (err e) = ended db (err e)

-- `this.adapters.get(kind)`, if it supports the message.
abbrev supporting : Adapters → String → Envelope → Option Adapter
supporting adapters ref e = elim (find (adapters.kind_of ref) adapters.registered) [
  | none ↦ none
  | some adapter ↦ if adapter.supports ref e then some adapter else none
]

-- The dispatch of a submission that is prepared.
abbrev attempt : Platform → Request → (Db → Db) → SubmissionRow → Db → Option Adapter → Dispatch
attempt x q meanwhile s db none =
    fail_answer db
      (fail_delivery x q.key q.expected_revision "adapter-kind-unsupported" q.principal db)
attempt x q meanwhile s db (some adapter) =
    begin_answer x adapter q meanwhile db
      (begin_adapter_submission x q.time s.submission_id q.expected_revision q.principal db)

-- A response without an adapter reference would be a TypeError; it has one for every other state.
abbrev attempt_addressed :
    Platform
    → Adapters
    → Request
    → (Db → Db)
    → SubmissionRow
    → Db
    → Option (String × Envelope)
    → Dispatch
attempt_addressed x adapters q meanwhile s db none = ended db (err Error.target_adapter_not_bound)
attempt_addressed x adapters q meanwhile s db (some (ref, e)) =
    attempt x q meanwhile s db (supporting adapters ref e)

abbrev dispatch_by_state :
    Platform → Adapters → Request → (Db → Db) → Prepared → Db → SubmissionState → Dispatch
dispatch_by_state x adapters q meanwhile r db receipt_recorded =
    ended db (ok (already_recorded r.submission))
dispatch_by_state x adapters q meanwhile r db outcome_unknown =
    ended db (ok (already_unknown r.submission))
dispatch_by_state x adapters q meanwhile r db manual_reconciliation =
    ended db (ok (already_manual r.submission))
dispatch_by_state x adapters q meanwhile r db prepared =
    attempt_addressed x adapters q meanwhile r.submission db r.addressed
dispatch_by_state x adapters q meanwhile r db confirmed_not_submitted =
    attempt_addressed x adapters q meanwhile r.submission db r.addressed

abbrev dispatch_prepared :
    Platform → Adapters → Request → (Db → Db) → Db → Result Error (Db × Prepared) → Dispatch
dispatch_prepared x adapters q meanwhile db (err e) = ended db (err e)
dispatch_prepared x adapters q meanwhile db (ok (db', r)) =
    dispatch_by_state x adapters q meanwhile r db' r.submission.state

unfoldable pub dispatch : Platform → Adapters → Request → (Db → Db) → Db → Dispatch
dispatch x adapters q meanwhile db = dispatch_prepared x adapters q meanwhile db (
    prepare_adapter_submission x q.time q.submission_id q.idempotency_key q.key q.expected_revision
      q.principal db)

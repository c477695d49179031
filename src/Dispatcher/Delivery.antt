-- ===== src/Dispatcher/Delivery.antt =====
-- A dispatch that meets no obstacle: what it does, and that it comes to an end with a receipt.
use threadmesh.Prelude.{
  ℕ, ◌+◌, ◌≡◌, refl, inl, inr, Bool, true, false, not, ◌&&◌, ◌||◌, String, none, some, arith, ok,
  ◌==◌, string_eq, pair_eq, nat_eq, find, put, find-put_self, beq_refl,
}
use threadmesh.States.{Decision, decision_eq, delivery_eq}
use threadmesh.Disposition.{is_disposition_transition_allowed}
use threadmesh.Coordinator.{
  Db, Platform, Receipt, SubmissionRow, MessageRow, assert_task_principal,
  assert_current_authorization, active_grant_for, assert_not_expired, audited, EventType,
}
use threadmesh.Coordinator.Mailbox.{with_disposition}
use threadmesh.Coordinator.Submissions.{
  prepare_adapter_submission, submission_key, is_taken, adapter_ref_of,
  assert_adapter_submission_state, new_submission,
}
use threadmesh.Coordinator.Attempts.{
  Recorded, begin_adapter_submission, record_adapter_receipt, attempt_started, submitted,
  receipt_stored, with_submission, is_nan, may_be_submitted,
}
use threadmesh.Dispatcher.Answers.{submission_key-put}
use threadmesh.Dispatcher.{
  Adapter, Adapters, Request, Dispatch, dispatch, finish, supporting, recorded,
}

-- A receipt with an operation and a time.
abbrev pub is_valid_receipt : Receipt → Bool
is_valid_receipt receipt =
    not (receipt.adapter_operation_id == "") && not (is_nan receipt.accepted_at)

valid_receipt :
    (receipt : Receipt)
    → is_valid_receipt receipt ≡ true
    → (receipt.adapter_operation_id == "") || is_nan receipt.accepted_at ≡ false
valid_receipt receipt h = ground arith

-- A message and a request that nothing stands in the way of.
pub record IsReady (x : Platform) (adapters : Adapters) (q : Request) (db : Db) (row : MessageRow)
    (ref : String) : Type 0 where
  pub found : find q.key db.messages ≡ some row
  pub unsubmitted : find q.key db.submissions ≡ none
  pub by_target : assert_task_principal q.principal row.envelope.target ≡ ok tt
  pub authorized : assert_current_authorization db q.time row ≡ ok tt
  pub not_expired : assert_not_expired q.time row ≡ ok tt
  pub submittable : assert_adapter_submission_state row q.expected_revision ≡ ok tt
  pub bound : adapter_ref_of db row ≡ ok ref
  pub new_id : submission_key q.submission_id db.submissions ≡ none
  pub fits_prepared :
      x.submission_is_valid q.key row.envelope.target
        (new_submission x q.submission_id q.idempotency_key q.expected_revision row ref)
      ≡ true
  pub fits_started :
      x.submission_is_valid q.key row.envelope.target (
        attempt_started
          (new_submission x q.submission_id q.idempotency_key q.expected_revision row ref))
      ≡ true
  pub unique : is_taken q.key q.submission_id q.idempotency_key db.submissions ≡ false

abbrev pub first_submission : Platform → Request → MessageRow → String → SubmissionRow
first_submission x q row ref =
    new_submission x q.submission_id q.idempotency_key q.expected_revision row ref

abbrev prepared_db : Request → SubmissionRow → Db → Db
prepared_db q s db =
    audited q.key EventType.adapter_submission_prepared q.expected_revision
      (record db { submissions = put q.key s db.submissions })

prepares :
    (x : Platform) (adapters : Adapters) (q : Request) (db : Db) (row : MessageRow) (ref : String)
    → IsReady x adapters q db row ref
    → prepare_adapter_submission x q.time q.submission_id q.idempotency_key q.key
        q.expected_revision q.principal db
      ≡ ok (
        prepared_db q (first_submission x q row ref) db,
        record {
          replay = false;
          addressed = some (ref, row.envelope);
          submission = first_submission x q row ref;
        },
      )
unfolding prepare_adapter_submission
prepares x adapters q db row ref r =
    rw
      (
        r.found, r.by_target, r.unsubmitted, r.authorized, r.not_expired, r.submittable, r.bound,
        r.unique, r.fits_prepared,
      )
      refl

abbrev begun_db : Request → SubmissionRow → Db → Db
begun_db q s db =
    audited q.key EventType.adapter_attempt_started q.expected_revision
      (with_submission q.key (attempt_started s) (prepared_db q s db))

-- The authorization of a message does not depend on the submissions.
assert_current_authorization-prepared :
    (q : Request) (s : SubmissionRow) (db : Db) (now : ℕ) (row : MessageRow)
    → assert_current_authorization (prepared_db q s db) now row
      ≡ assert_current_authorization db now row
unfolding assert_current_authorization active_grant_for
assert_current_authorization-prepared q s db now row = refl

-- The two tests of a submittable state agree.
submittable-may_be_submitted :
    (row : MessageRow) (revision : ℕ)
    → assert_adapter_submission_state row revision ≡ ok tt
    → (not (row.disposition.revision == revision)
        || (not (row.disposition.decision == Decision.accepted)
            || not (may_be_submitted row.disposition.delivery)))
      ≡ false
unfolding is_disposition_transition_allowed
submittable-may_be_submitted row revision h = ground arith

begins :
    (x : Platform) (adapters : Adapters) (q : Request) (db : Db) (row : MessageRow) (ref : String)
    → IsReady x adapters q db row ref
    → let s : SubmissionRow = first_submission x q row ref in
      begin_adapter_submission x q.time q.submission_id q.expected_revision q.principal
        (prepared_db q s db)
      ≡ ok (
        begun_db q s db,
        record {
          replay = false;
          submission = attempt_started s;
          dispatch = some (ref, row.envelope);
        },
      )
unfolding begin_adapter_submission
begins x adapters q db row ref r =
    let s : SubmissionRow = first_submission x q row ref in
    rw
      (
        submission_key-put q.submission_id q.key s db.submissions refl (inl r.new_id),
        find-put_self q.key s db.submissions,
        r.found,
        r.by_target,
        assert_current_authorization-prepared q s db q.time row,
        r.authorized,
        r.not_expired,
        r.submittable,
        beq_refl q.expected_revision,
        r.bound,
        beq_refl s.adapter_ref_digest,
        r.fits_started,
      )
      refl

abbrev recorded_db : Platform → Request → MessageRow → SubmissionRow → Receipt → Db → Db
recorded_db x q row s receipt db =
    audited q.key EventType.adapter_receipt_recorded (row.disposition.revision + 1) (
      with_submission q.key (receipt_stored x receipt (attempt_started s))
        (with_disposition q.key row (submitted row.disposition) (begun_db q s db)))

abbrev pub delivered : Platform → MessageRow → SubmissionRow → Receipt → Recorded
delivered x row s receipt = record {
  replay = false;
  submission = receipt_stored x receipt (attempt_started s);
  disposition = submitted row.disposition;
}

records :
    (x : Platform) (adapters : Adapters) (q : Request) (db : Db) (row : MessageRow) (ref : String)
    (receipt : Receipt)
    → IsReady x adapters q db row ref
    → is_valid_receipt receipt ≡ true
    → x.submission_is_valid q.key row.envelope.target
        (receipt_stored x receipt (attempt_started (first_submission x q row ref)))
      ≡ true
    → let s : SubmissionRow = first_submission x q row ref in
      record_adapter_receipt x q.submission_id q.expected_revision receipt q.principal
        (begun_db q s db)
      ≡ ok (recorded_db x q row s receipt db, delivered x row s receipt)
unfolding record_adapter_receipt
records x adapters q db row ref receipt r valid fits =
    let s : SubmissionRow = first_submission x q row ref in
    rw
      (
        valid_receipt receipt valid,
        submission_key-put q.submission_id q.key (attempt_started s) (put q.key s db.submissions)
            refl
            (inr (submission_key-put q.submission_id q.key s db.submissions refl (inl r.new_id))),
        find-put_self q.key (attempt_started s) (put q.key s db.submissions),
        r.found,
        r.by_target,
        r.submittable,
        beq_refl q.expected_revision,
        submittable-may_be_submitted row q.expected_revision r.submittable,
        fits,
      )
      refl

-- A message that nothing stands in the way of (the schema accepts the submission as it is prepared and
-- as its attempt is started), with an adapter that supports it and answers with a receipt that is valid
-- and that the schema accepts in the submission, is delivered by one dispatch: the adapter is called once, and afterwards the message is
-- adapter-submitted at the next revision and its submission holds the receipt.
pub dispatch_delivers :
    (x : Platform) (adapters : Adapters) (q : Request) (db : Db) (row : MessageRow) (ref : String)
    (adapter : Adapter) (receipt : Receipt)
    → IsReady x adapters q db row ref
    → supporting adapters ref row.envelope ≡ some adapter
    → adapter.submit (attempt_started (first_submission x q row ref)) ref row.envelope
      ≡ some receipt
    → is_valid_receipt receipt ≡ true
    → x.submission_is_valid q.key row.envelope.target
        (receipt_stored x receipt (attempt_started (first_submission x q row ref)))
      ≡ true
    → let result : Dispatch = dispatch x adapters q (λ d. d) db in
      (result.submits ≡ 1)
      × (result.result ≡ ok (recorded (delivered x row (first_submission x q row ref) receipt)))
      × (find q.key result.db.messages
          ≡ some (record row { disposition = submitted row.disposition }))
      × (find q.key result.db.submissions
          ≡ some (receipt_stored x receipt (attempt_started (first_submission x q row ref))))
unfolding dispatch finish
dispatch_delivers x adapters q db row ref adapter receipt r supports answers valid fits =
    let s : SubmissionRow = first_submission x q row ref in
    rw
      (
        prepares x adapters q db row ref r,
        supports,
        begins x adapters q db row ref r,
        answers,
        records x adapters q db row ref receipt r valid fits,
      )
      (
        refl,
        refl,
        find-put_self q.key (record row { disposition = submitted row.disposition }) db.messages,
        find-put_self q.key (receipt_stored x receipt (attempt_started s))
            (put q.key (attempt_started s) (put q.key s db.submissions)),
      )

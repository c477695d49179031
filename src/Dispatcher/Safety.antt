-- ===== src/Dispatcher/Safety.antt =====
-- When a dispatch calls an adapter, and what is stored then.
use threadmesh.Prelude.{
  ℕ, ◌≡◌, refl, sym, ◌⊎◌, inl, inr, String, Option, none, some, Result, ok, err, string_eq, pair_eq,
  find, find-put_self, arith, Bool-cases,
}
use mathlib.Core.Path.{subst}
use threadmesh.Policy.{Envelope}
use threadmesh.Coordinator.Mailbox.{fail_delivery}
use threadmesh.Coordinator.{
  Key, Disposition, Db, Principal, Platform, Error, Receipt, SubmissionState, prepared,
  outcome_unknown, receipt_recorded, confirmed_not_submitted, manual_reconciliation, SubmissionRow,
  MessageRow,
}
use threadmesh.Coordinator.Submissions.{Prepared, prepare_adapter_submission, adapter_ref_of}
use threadmesh.Coordinator.Attempts.{
  Begun, Recorded, begin_adapter_submission, record_adapter_receipt, attempt_started,
}
use threadmesh.Dispatcher.Answers.{HasOwnId, IsAddressed, prepare-IsAddressed, begin-dispatch}
use threadmesh.Lifecycle.Trace.{occupied}
use threadmesh.Dispatcher.{
  Adapter, Adapters, Request, Dispatch, finish, record_answer, fail_answer, supporting,
  dispatch_by_state, begin_answer, attempt, attempt_addressed, dispatch_prepared, dispatch,
}

-- What a prepare answers for a message that an adapter may have: its submission, and no change.
prepare_occupied :
    (x : Platform) (now : ℕ) (id idempotency_key : String) (key : Key) (revision : ℕ)
    (p : Principal) (db db' : Db) (r : Prepared)
    → occupied (find key db.submissions) ≡ 1
    → prepare_adapter_submission x now id idempotency_key key revision p db ≡ ok (db', r)
    → (db' ≡ db) × (occupied (some r.submission) ≡ 1)
unfolding prepare_adapter_submission
prepare_occupied x now id idempotency_key key revision p db db' r busy h = ground arith

-- A dispatch of a message that an adapter may have (its outcome unknown, its receipt on record, or
-- given to manual reconciliation) calls no adapter and changes nothing.
pub dispatch_never_retries :
    (x : Platform) (adapters : Adapters) (q : Request) (meanwhile : Db → Db) (db : Db)
    → occupied (find q.key db.submissions) ≡ 1
    → ((dispatch x adapters q meanwhile db).submits ≡ 0)
      × ((dispatch x adapters q meanwhile db).db ≡ db)
unfolding dispatch
dispatch_never_retries x adapters q meanwhile db busy =
    go
      (prepare_adapter_submission x q.time q.submission_id q.idempotency_key q.key
        q.expected_revision q.principal db)
      refl
  where
    go :
        (m : Result Error (Db × Prepared))
        → prepare_adapter_submission x q.time q.submission_id q.idempotency_key q.key
            q.expected_revision q.principal db
          ≡ m
        → ((dispatch_prepared x adapters q meanwhile db m).submits ≡ 0)
          × ((dispatch_prepared x adapters q meanwhile db m).db ≡ db)
    go (err e) ran = (refl, refl)
    go (ok (db', r)) ran = ground (
      arith,
      prepare_occupied x q.time q.submission_id q.idempotency_key q.key q.expected_revision
          q.principal db db' r busy ran,
    )

-- What a dispatch does with the answer of the adapter to a submission, on the database after the call:
-- the receipt is recorded if the coordinator takes it, and nothing else is written.
abbrev pub AnswersWith :
    Platform → Request → SubmissionRow → Option Receipt → Db → Dispatch → Type 0
AnswersWith x q s none db d = d.db ≡ db
AnswersWith x q s (some receipt) db d =
    ((r : Recorded) × (record_adapter_receipt x s.submission_id q.expected_revision receipt
          q.principal db
        ≡ ok (d.db, r)))
    ⊎ ((e : Error) × (record_adapter_receipt x s.submission_id q.expected_revision receipt
            q.principal db
          ≡ err e)
        × (d.db ≡ db))

-- What is stored when the adapter is called, which adapter that is, and what the dispatch does with
-- its answer.
pub record WrittenAhead (x : Platform) (adapters : Adapters) (q : Request) (meanwhile : Db → Db)
    (d : Dispatch) : Type 0 where
  pub stored : Db
  pub row : MessageRow
  pub submission : SubmissionRow
  pub ref : String
  pub adapter : Adapter
  pub message : find q.key stored.messages ≡ some row
  pub written : find q.key stored.submissions ≡ some submission
  pub is_unknown : submission.state ≡ outcome_unknown
  pub bound : adapter_ref_of stored row ≡ ok ref
  pub chosen : supporting adapters ref row.envelope ≡ some adapter
  pub answered :
      AnswersWith x q submission (adapter.submit submission ref row.envelope) (meanwhile stored) d

fail_submits : (db : Db) (m : Result Error (Db × Disposition)) → (fail_answer db m).submits ≡ 1 → ⊥
fail_submits db (ok (db', d)) h = ground arith
fail_submits db (err e) h = ground arith

finish-AnswersWith :
    (x : Platform) (q : Request) (s : SubmissionRow) (o : Option Receipt) (db : Db)
    → AnswersWith x q s o db (finish x q s o db)
unfolding finish
finish-AnswersWith x q s none db = refl
finish-AnswersWith x q s (some receipt) db =
    go (record_adapter_receipt x s.submission_id q.expected_revision receipt q.principal db) refl
  where
    go :
        (m : Result Error (Db × Recorded))
        → record_adapter_receipt x s.submission_id q.expected_revision receipt q.principal db ≡ m
        → AnswersWith x q s (some receipt) db (record_answer db m)
    go (ok (db', r)) ran = inl (r, ran)
    go (err e) ran = inr (e, ran, refl)

-- From here on, one dispatch, its call of the adapter and the adapters there are.
module _ (x : Platform) (adapters : Adapters) (q : Request) (meanwhile : Db → Db) where
  begin_written :
      (db : Db) (r : Prepared) (row : MessageRow) (ref : String) (adapter : Adapter)
      (m : Result Error (Db × Begun))
      → IsAddressed q.key db r row ref
      → supporting adapters ref row.envelope ≡ some adapter
      → begin_adapter_submission x q.time r.submission.submission_id q.expected_revision q.principal
          db
        ≡ m
      → (begin_answer x adapter q meanwhile db m).submits ≡ 1
      → WrittenAhead x adapters q meanwhile (begin_answer x adapter q meanwhile db m)
  begin_written db r row ref adapter (err e) a chosen ran called = absurd (ground arith)
  begin_written db r row ref adapter (ok (db', b)) a chosen ran called =
      elim (Bool-cases b.replay) [
        | inl again ↦ absurd (ground arith)
        | inr fresh ↦
            let (to, started, messages, tasks, submissions) =
              begin-dispatch x q.time q.expected_revision q.principal q.key db db' r row ref b a ran
                fresh in
            let done =
              finish x q b.submission (adapter.submit b.submission ref row.envelope)
                (meanwhile db') in
            let same : begin_answer x adapter q meanwhile db (ok (db', b)) ≡ done =
              (rw (to, fresh) refl) in
            record {
              stored = db';
              row = row;
              submission = b.submission;
              ref = ref;
              adapter = adapter;
              message = rw messages a.message;
              written =
                  rw (submissions, started)
                    (find-put_self q.key (attempt_started r.submission) db.submissions);
              is_unknown = rw started refl;
              bound = rw tasks a.bound;
              chosen = chosen;
              answered =
                  subst
                    (AnswersWith x q b.submission (adapter.submit b.submission ref row.envelope)
                      (meanwhile db'))
                    (sym same)
                    (finish-AnswersWith x q b.submission
                      (adapter.submit b.submission ref row.envelope) (meanwhile db'));
            }
      ]

  attempt_written :
      (db : Db) (r : Prepared) (row : MessageRow) (ref : String) (o : Option Adapter)
      → IsAddressed q.key db r row ref
      → supporting adapters ref row.envelope ≡ o
      → (attempt x q meanwhile r.submission db o).submits ≡ 1
      → WrittenAhead x adapters q meanwhile (attempt x q meanwhile r.submission db o)
  attempt_written db r row ref none a chosen called = absurd (
      fail_submits db
        (fail_delivery x q.key q.expected_revision "adapter-kind-unsupported" q.principal db)
        called)
  attempt_written db r row ref (some adapter) a chosen called =
      begin_written db r row ref adapter _ a chosen refl called

  addressed_written :
      (db db' : Db) (r : Prepared) (o : Option (String × Envelope))
      → HasOwnId q.key db.submissions
      → prepare_adapter_submission x q.time q.submission_id q.idempotency_key q.key
          q.expected_revision q.principal db
        ≡ ok (db', r)
      → r.addressed ≡ o
      → (attempt_addressed x adapters q meanwhile r.submission db' o).submits ≡ 1
      → WrittenAhead x adapters q meanwhile
          (attempt_addressed x adapters q meanwhile r.submission db' o)
  addressed_written db db' r none own ran at called = absurd (ground arith)
  addressed_written db db' r (some to) own ran at called =
      let (row, ref, a) =
        prepare-IsAddressed x q.time q.submission_id q.idempotency_key q.key q.expected_revision
          q.principal db db' r to own ran at in
      let is : to ≡ (ref, row.envelope) = ground (arith, a.goes_to) in
      subst
        (λ t.
          (attempt_addressed x adapters q meanwhile r.submission db' (some t)).submits ≡ 1
          → WrittenAhead x adapters q meanwhile
              (attempt_addressed x adapters q meanwhile r.submission db' (some t)))
        (sym is) (attempt_written db' r row ref _ a refl) called

  prepared_written :
      (db : Db) (m : Result Error (Db × Prepared))
      → HasOwnId q.key db.submissions
      → prepare_adapter_submission x q.time q.submission_id q.idempotency_key q.key
          q.expected_revision q.principal db
        ≡ m
      → (dispatch_prepared x adapters q meanwhile db m).submits ≡ 1
      → WrittenAhead x adapters q meanwhile (dispatch_prepared x adapters q meanwhile db m)
  prepared_written db (err e) own ran called = absurd (ground arith)
  prepared_written db (ok (db', r)) own ran called = by_state r.submission.state called
    where
      by_state :
          (state : SubmissionState)
          → (dispatch_by_state x adapters q meanwhile r db' state).submits ≡ 1
          → WrittenAhead x adapters q meanwhile
              (dispatch_by_state x adapters q meanwhile r db' state)
      by_state receipt_recorded c = absurd (ground arith)
      by_state outcome_unknown c = absurd (ground arith)
      by_state manual_reconciliation c = absurd (ground arith)
      by_state prepared c = addressed_written db db' r r.addressed own ran refl c
      by_state confirmed_not_submitted c = addressed_written db db' r r.addressed own ran refl c

-- Whenever a dispatch calls an adapter, on a database where the id of the message's submission is no
-- other submission's, it is the adapter that the target task is bound to and that supports the
-- message, and before the call a submission of the dispatched message is stored as
-- `outcome-unknown`. After the call nothing is written but the receipt that this adapter gave for
-- that submission, by recordAdapterReceipt: if the adapter gave none, or the coordinator refuses it,
-- the database is what other calls made of it meanwhile.
pub dispatch_writes_ahead :
    (x : Platform) (adapters : Adapters) (q : Request) (meanwhile : Db → Db) (db : Db)
    → HasOwnId q.key db.submissions
    → (dispatch x adapters q meanwhile db).submits ≡ 1
    → WrittenAhead x adapters q meanwhile (dispatch x adapters q meanwhile db)
unfolding dispatch
dispatch_writes_ahead x adapters q meanwhile db own called =
    prepared_written x adapters q meanwhile db _ own refl called

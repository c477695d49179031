-- ===== src/Lifecycle/AttemptLocality.antt =====
-- That a call on adapter submissions leaves the rows of all messages but its own.
use threadmesh.Prelude.{
  ℕ, ◌≡◌, inl, inr, String, List, arith, ◌==◌, pair_eq, string_eq, ok, Option-cases,
}
use threadmesh.Coordinator.{Key, SubmissionRow, SubmissionState, Db, Principal, Platform, Receipt}
use threadmesh.Coordinator.Submissions.{Prepared, prepare_adapter_submission, submission_key}
use threadmesh.Coordinator.Attempts.{
  Begun, Recorded, begin_adapter_submission, record_adapter_receipt, Reconciliation, Resolution,
  reconcile_adapter_submission, reconcile_by, reconcile_as, with_evidence,
}
use threadmesh.Lifecycle.Prepare.{prepare-ok, prepare_after-ok}
use threadmesh.Lifecycle.Submissions.{begin-ok}
use threadmesh.Lifecycle.Receipts.{record-ok}
use threadmesh.Lifecycle.Reconcile.{reconcile_as-ok, submission_of-ok}
use threadmesh.Lifecycle.Locality.{is_at, IsLocal, written-IsLocal, unchanged-IsLocal}

pub prepare-IsLocal :
    (x : Platform) (now : ℕ) (id idempotency_key : String) (key : Key) (revision : ℕ)
    (p : Principal) (db db' : Db) (r : Prepared)
    → prepare_adapter_submission x now id idempotency_key key revision p db ≡ ok (db', r)
    → (k : Key) → IsLocal (key == k) db db' k
prepare-IsLocal x now id idempotency_key key revision p db db' r h k =
    let (row, found, ran) = prepare-ok x now id idempotency_key key revision p db db' r h in
    elim (prepare_after-ok x now id idempotency_key key revision row db db' r _ ran) [
      | inl same ↦ unchanged-IsLocal _ db db' k same
      | inr (ready, free, waiting, revision_is, m, w) ↦
          written-IsLocal key db db' (inl m) (inr (r.submission, w)) k
    ]

pub begin-IsLocal :
    (x : Platform) (now : ℕ) (id : String) (revision : ℕ) (p : Principal) (db db' : Db) (b : Begun)
    → begin_adapter_submission x now id revision p db ≡ ok (db', b)
    → (k : Key) → IsLocal (is_at (submission_key id db.submissions) k) db db' k
begin-IsLocal x now id revision p db db' b h k =
    let (key, s, row, rows, ran) = begin-ok x now id revision p db db' b h in
    elim ran [
      | inl (again, same) ↦ unchanged-IsLocal _ db db' k same
      | inr (fresh, waiting, ready, revision_is, m, w, answer) ↦
          rw rows.0 (written-IsLocal key db db' (inl m) (inr (_, w)) k)
    ]

pub record-IsLocal :
    (x : Platform) (id : String) (revision : ℕ) (receipt : Receipt) (p : Principal) (db db' : Db)
    (r : Recorded)
    → record_adapter_receipt x id revision receipt p db ≡ ok (db', r)
    → (k : Key) → IsLocal (is_at (submission_key id db.submissions) k) db db' k
record-IsLocal x id revision receipt p db db' r h k =
    let (key, s, row, rows, ran) = record-ok x id revision receipt p db db' r h in
    elim ran [
      | inl same ↦ unchanged-IsLocal _ db db' k same
      | inr (ready, unknown, revision_is, m, w) ↦
          rw rows.0 (written-IsLocal key db db' (inr (_, m)) (inr (_, w)) k)
    ]

reconcile_as-IsLocal :
    (x : Platform) (state : SubmissionState) (id : String) (revision : ℕ) (refs : List String)
    (p : Principal) (db db' : Db) (r : SubmissionRow)
    → reconcile_as x state id revision refs p db ≡ ok (db', r)
    → (k : Key) → IsLocal (is_at (submission_key id db.submissions) k) db db' k
reconcile_as-IsLocal x state id revision refs p db db' r h k =
    let (key, s, row, rows, unknown, revision_is, m, w) =
      reconcile_as-ok x state id revision refs p db db' r h in
    rw rows.0 (written-IsLocal key db db' (inl m) (inr (_, w)) k)

reconcile_by-IsLocal :
    (x : Platform) (id : String) (revision : ℕ) (r : Reconciliation) (p : Principal) (db db' : Db)
    (q : SubmissionRow) (resolution : Resolution)
    → reconcile_by x id revision r p db resolution ≡ ok (db', q)
    → (k : Key) → IsLocal (is_at (submission_key id db.submissions) k) db db' k
reconcile_by-IsLocal x id revision r p db db' q Resolution.confirmed_submitted h k =
    elim (Option-cases r.receipt) [
      | inl missing ↦ absurd (ground arith)
      | inr (receipt, given) ↦
          let (a, recorded) =
            submission_of-ok
              (record_adapter_receipt x id revision (with_evidence r.evidence_refs receipt) p db)
              db' q (ground arith) in
          record-IsLocal x id revision (with_evidence r.evidence_refs receipt) p db db' a recorded k
    ]
reconcile_by-IsLocal x id revision r p db db' q Resolution.confirmed_not_submitted h k =
    reconcile_as-IsLocal x _ id revision r.evidence_refs p db db' q h k
reconcile_by-IsLocal x id revision r p db db' q Resolution.manual_required h k =
    reconcile_as-IsLocal x _ id revision r.evidence_refs p db db' q h k
reconcile_by-IsLocal x id revision r p db db' q Resolution.unknown_resolution h k =
    absurd (ground arith)

pub reconcile-IsLocal :
    (x : Platform) (id : String) (revision : ℕ) (r : Reconciliation) (p : Principal) (db db' : Db)
    (q : SubmissionRow)
    → reconcile_adapter_submission x id revision r p db ≡ ok (db', q)
    → (k : Key) → IsLocal (is_at (submission_key id db.submissions) k) db db' k
unfolding reconcile_adapter_submission
reconcile-IsLocal x id revision r p db db' q h =
    reconcile_by-IsLocal x id revision r p db db' q r.resolution (ground arith)

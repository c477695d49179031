-- ===== src/Lifecycle/Reconcile.antt =====
-- reconcileAdapterSubmission as a move of the specification.
use threadmesh.Prelude.{
  ℕ, ◌≡◌, refl, sym, inl, inr, String, Option, none, some, List, arith, put, pair_eq, string_eq,
  nat_eq, Result, ok, err, Option-cases,
}
use mathlib.Core.Path.{subst}
use threadmesh.Coordinator.{
  Key, MessageRow, SubmissionRow, SubmissionState, outcome_unknown, manual_reconciliation, Db,
  Principal, Platform, Error,
}
use threadmesh.Coordinator.Submissions.{submission_key}
use threadmesh.Coordinator.Attempts.{
  Recorded, record_adapter_receipt, Reconciliation, Resolution, reconcile_as, reconciled,
  reconcile_adapter_submission, reconcile_by, submission_of, with_evidence,
}
use threadmesh.Lifecycle.Writes.{submission-Move, label_at, label_at-quiet}
use threadmesh.Lifecycle.Submissions.{Rows, swm_ok}
use threadmesh.Lifecycle.Receipts.{record-Move}
use threadmesh.Lifecycle.{view, Label, quiet, released, Move, release, escalate}

-- Only the confirmation that nothing was submitted frees the message for a new submission.
abbrev pub resolution_label : Resolution → Label
resolution_label Resolution.confirmed_not_submitted = released
resolution_label _ = quiet

-- The label of a call by submission id, seen from a message.
abbrev pub label_by_id : Option Key → Label → Key → Label
label_by_id none l k = quiet
label_by_id (some key) l k = label_at key l k

pub reconcile_as-ok :
    (x : Platform) (state : SubmissionState) (id : String) (revision : ℕ) (refs : List String)
    (p : Principal) (db db' : Db) (r : SubmissionRow)
    → reconcile_as x state id revision refs p db ≡ ok (db', r)
    → (key : Key) × (s : SubmissionRow) × (row : MessageRow) × Rows db id key s row
      × (s.state ≡ outcome_unknown)
      × (s.expected_revision ≡ row.disposition.revision)
      × (db'.messages ≡ db.messages)
      × (db'.submissions ≡ put key (reconciled state refs s) db.submissions)
reconcile_as-ok x state id revision refs p db db' r h =
    let (key, s, row, rows, ran) = swm_ok db id _ _ h in
    (
      key,
      s,
      row,
      rows,
      ground arith,
      ground (
        arith,
        nat_eq.beq_iff row.disposition.revision revision,
        nat_eq.beq_iff s.expected_revision revision,
      ),
      ground arith,
      ground arith,
    )

quiet_by_id : (o : Option Key) (k : Key) → label_by_id o quiet k ≡ quiet
quiet_by_id none k = refl
quiet_by_id (some key) k = label_at-quiet key k

pub submission_of-ok :
    (m : Result Error (Db × Recorded)) (db' : Db) (q : SubmissionRow)
    → submission_of m ≡ ok (db', q)
    → (a : Recorded) × (m ≡ ok (db', a))
submission_of-ok (ok (db, a)) db' q h = (a, ground arith)
submission_of-ok (err e) db' q h = absurd (ground arith)

reconcile_by-Move :
    (x : Platform) (id : String) (revision : ℕ) (r : Reconciliation) (p : Principal) (db db' : Db)
    (q : SubmissionRow) (resolution : Resolution)
    → reconcile_by x id revision r p db resolution ≡ ok (db', q)
    → (k : Key)
    → Move
        (label_by_id (submission_key id db.submissions) (resolution_label resolution) k)
        (view k db)
        (view k db')
reconcile_by-Move x id revision r p db db' q Resolution.confirmed_submitted h k =
    elim (Option-cases r.receipt) [
      | inl missing ↦ absurd (ground arith)
      | inr (receipt, given) ↦
          let (a, recorded) =
            submission_of-ok
              (record_adapter_receipt x id revision (with_evidence r.evidence_refs receipt) p db)
              db' q (ground arith) in
          subst (λ l. Move l (view k db) (view k db'))
            (sym (quiet_by_id (submission_key id db.submissions) k))
            (record-Move x id revision (with_evidence r.evidence_refs receipt) p db db' a recorded
              k)
    ]
reconcile_by-Move x id revision r p db db' q Resolution.confirmed_not_submitted h k =
    let (key, s, row, rows, unknown, revision_is, m, w) =
      reconcile_as-ok x SubmissionState.confirmed_not_submitted id revision r.evidence_refs p db db'
        q h in
    rw rows.0 (
      submission-Move key (reconciled SubmissionState.confirmed_not_submitted r.evidence_refs s) db
        db' released m w (release row s r.evidence_refs refl rows.2 rows.1 unknown revision_is refl)
        k)
reconcile_by-Move x id revision r p db db' q Resolution.manual_required h k =
    let (key, s, row, rows, unknown, revision_is, m, w) =
      reconcile_as-ok x manual_reconciliation id revision r.evidence_refs p db db' q h in
    rw rows.0 (
      submission-Move key (reconciled manual_reconciliation r.evidence_refs s) db db' quiet m w
        (escalate row s r.evidence_refs refl rows.2 rows.1 unknown revision_is refl) k)
reconcile_by-Move x id revision r p db db' q Resolution.unknown_resolution h k =
    absurd (ground arith)

pub reconcile-Move :
    (x : Platform) (id : String) (revision : ℕ) (r : Reconciliation) (p : Principal) (db db' : Db)
    (q : SubmissionRow)
    → reconcile_adapter_submission x id revision r p db ≡ ok (db', q)
    → (k : Key)
    → Move
        (label_by_id (submission_key id db.submissions) (resolution_label r.resolution) k)
        (view k db)
        (view k db')
unfolding reconcile_adapter_submission
reconcile-Move x id revision r p db db' q h =
    reconcile_by-Move x id revision r p db db' q r.resolution (ground arith)

-- ===== src/Lifecycle/Prepare.antt =====
-- prepareAdapterSubmission as a move of the specification.
use threadmesh.Prelude.{
  ℕ, ◌≡◌, refl, ◌⊎◌, inl, inr, true, String, Option, none, some, arith, find, put, pair_eq,
  string_eq, nat_eq, ok, Option-cases,
}
use threadmesh.States.{Decision, decision_eq}
use threadmesh.Coordinator.{Key, MessageRow, SubmissionRow, prepared, Db, Principal, Platform}
use threadmesh.Coordinator.Submissions.{Prepared, prepare_adapter_submission, prepare_after}
use threadmesh.Lifecycle.Writes.{no_change, quiet_submission-Move}
use threadmesh.Lifecycle.{view, quiet, Move, prepare, IsSubmittable, is_free}

pub prepare_after-ok :
    (x : Platform) (now : ℕ) (id idempotency_key : String) (key : Key) (revision : ℕ)
    (row : MessageRow) (db db' : Db) (r : Prepared) (o : Option SubmissionRow)
    → prepare_after x now id idempotency_key key revision row db o ≡ ok (db', r)
    → (db' ≡ db)
      ⊎ (IsSubmittable row
          × (is_free o ≡ true)
          × (r.submission.state ≡ prepared)
          × (r.submission.expected_revision ≡ row.disposition.revision)
          × (db'.messages ≡ db.messages)
          × (db'.submissions ≡ put key r.submission db.submissions))
prepare_after-ok x now id idempotency_key key revision row db db' r none h = ground (
  arith,
  nat_eq.beq_iff row.disposition.revision revision,
  decision_eq.beq_iff row.disposition.decision Decision.accepted,
)
prepare_after-ok x now id idempotency_key key revision row db db' r (some s) h = ground (
  arith,
  nat_eq.beq_iff row.disposition.revision revision,
  decision_eq.beq_iff row.disposition.decision Decision.accepted,
)

pub prepare-ok :
    (x : Platform) (now : ℕ) (id idempotency_key : String) (key : Key) (revision : ℕ)
    (p : Principal) (db db' : Db) (r : Prepared)
    → prepare_adapter_submission x now id idempotency_key key revision p db ≡ ok (db', r)
    → (row : MessageRow) × (find key db.messages ≡ some row)
      × (prepare_after x now id idempotency_key key revision row db (find key db.submissions)
          ≡ ok (db', r))
unfolding prepare_adapter_submission
prepare-ok x now id idempotency_key key revision p db db' r h =
    elim (Option-cases (find key db.messages)) [
      | inl e ↦ absurd (ground arith)
      | inr (row, e) ↦ (row, e, ground arith)
    ]

pub prepare-Move :
    (x : Platform) (now : ℕ) (id idempotency_key : String) (key : Key) (revision : ℕ)
    (p : Principal) (db db' : Db) (r : Prepared)
    → prepare_adapter_submission x now id idempotency_key key revision p db ≡ ok (db', r)
    → (k : Key) → Move quiet (view k db) (view k db')
prepare-Move x now id idempotency_key key revision p db db' r h =
    let (row, found, ran) = prepare-ok x now id idempotency_key key revision p db db' r h in
    elim (prepare_after-ok x now id idempotency_key key revision row db db' r _ ran) [
      | inl same ↦ no_change db db' same
      | inr (ready, free, waiting, revision_is, m, w) ↦
          quiet_submission-Move key r.submission db db' m w
            (prepare row r.submission refl found ready free waiting revision_is refl)
    ]

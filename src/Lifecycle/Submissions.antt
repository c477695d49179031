-- ===== src/Lifecycle/Submissions.antt =====
-- beginAdapterSubmission as a move of the specification.
use threadmesh.Prelude.{
  ℕ, ◌≡◌, refl, ◌⊎◌, inl, inr, true, false, String, some, arith, if◌then◌else◌, find, put, pair_eq,
  string_eq, nat_eq, Result, ok, ◌>>=◌, Option-cases,
}
use threadmesh.States.{Decision, decision_eq}
use threadmesh.Coordinator.{
  Key, MessageRow, SubmissionRow, prepared, Db, Principal, Platform, Error,
}
use threadmesh.Coordinator.Submissions.{
  assert_adapter_submission_state, submission_key, submission_with_message,
}
use threadmesh.Coordinator.Attempts.{Begun, begin_adapter_submission, attempt_started}
use threadmesh.Lifecycle.Writes.{no_change, submission-Move, label_at}
use threadmesh.Lifecycle.{view, Label, quiet, dispatched, Move, begin, IsSubmittable}

submission_state-IsSubmittable :
    (row : MessageRow) (revision : ℕ)
    → assert_adapter_submission_state row revision ≡ ok tt
    → IsSubmittable row × (row.disposition.revision ≡ revision)
submission_state-IsSubmittable row revision h = ground (
  arith,
  nat_eq.beq_iff row.disposition.revision revision,
  decision_eq.beq_iff row.disposition.decision Decision.accepted,
)

-- The rows that a call by submission id works on.
abbrev pub Rows : Db → String → Key → SubmissionRow → MessageRow → Type 0
Rows db id key s row =
    (submission_key id db.submissions ≡ some key)
    × (find key db.submissions ≡ some s)
    × (find key db.messages ≡ some row)

pub swm_ok :
    (db : Db) (id : String) {A : Type 0} (f : Key × SubmissionRow × MessageRow → Result Error A)
    (a : A)
    → (submission_with_message db id >>= f) ≡ ok a
    → (key : Key) × (s : SubmissionRow) × (row : MessageRow) × Rows db id key s row
      × (f (key, s, row) ≡ ok a)
swm_ok db id f a h = elim (Option-cases (submission_key id db.submissions)) [
  | inl e ↦ absurd (ground arith)
  | inr (key, e) ↦ elim (Option-cases (find key db.submissions)) [
    | inl m ↦ absurd (ground arith)
    | inr (s, m) ↦ elim (Option-cases (find key db.messages)) [
      | inl n ↦ absurd (ground arith)
      | inr (row, n) ↦ (key, s, row, (e, m, n), ground arith)
    ]
  ]
]

-- What a successful begin was.
abbrev pub BeginsWith : String → Db → Db → Begun → Key → SubmissionRow → MessageRow → Type 0
BeginsWith id db db' b key s row =
    ((b.replay ≡ true) × (db' ≡ db))
    ⊎ ((b.replay ≡ false)
        × (s.state ≡ prepared)
        × IsSubmittable row
        × (s.expected_revision ≡ row.disposition.revision)
        × (db'.messages ≡ db.messages)
        × (db'.submissions ≡ put key (attempt_started s) db.submissions)
        × (b.submission ≡ attempt_started s))

pub begin-ok :
    (x : Platform) (now : ℕ) (id : String) (revision : ℕ) (p : Principal) (db db' : Db) (b : Begun)
    → begin_adapter_submission x now id revision p db ≡ ok (db', b)
    → (key : Key) × (s : SubmissionRow) × (row : MessageRow) × Rows db id key s row
      × BeginsWith id db db' b key s row
unfolding begin_adapter_submission
begin-ok x now id revision p db db' b h =
    let (key, s, row, rows, ran) = swm_ok db id _ _ h in
    (
      key,
      s,
      row,
      rows,
      ground (
        arith,
        nat_eq.beq_iff row.disposition.revision revision,
        nat_eq.beq_iff s.expected_revision revision,
        decision_eq.beq_iff row.disposition.decision Decision.accepted,
      ),
    )

-- The label of a begin, seen from a message: only a fresh begin hands the message to the adapter.
abbrev pub begin_label : Key → Begun → Key → Label
begin_label key b k = if b.replay then quiet else label_at key dispatched k

pub begin-Move :
    (x : Platform) (now : ℕ) (id : String) (revision : ℕ) (p : Principal) (db db' : Db) (b : Begun)
    → begin_adapter_submission x now id revision p db ≡ ok (db', b)
    → (key : Key) × (submission_key id db.submissions ≡ some key)
      × ((k : Key) → Move (begin_label key b k) (view k db) (view k db'))
begin-Move x now id revision p db db' b h =
    let (key, s, row, rows, ran) = begin-ok x now id revision p db db' b h in
    (key, rows.0, moves key s row rows ran)
  where
    moves :
        (key : Key) (s : SubmissionRow) (row : MessageRow)
        → Rows db id key s row
        → BeginsWith id db db' b key s row
        → (k : Key) → Move (begin_label key b k) (view k db) (view k db')
    moves key s row rows (inl (again, same)) k = rw again (no_change db db' same k)
    moves key s row rows (inr (fresh, waiting, ready, revision_is, m, w, answer)) k = rw fresh (
        submission-Move key (attempt_started s) db db' dispatched m w
          (begin row s refl rows.2 rows.1 ready waiting revision_is refl) k)

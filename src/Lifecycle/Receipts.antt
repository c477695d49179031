-- ===== src/Lifecycle/Receipts.antt =====
-- recordAdapterReceipt as a move of the specification.
use threadmesh.Prelude.{
  ℕ, ◌≡◌, refl, ◌⊎◌, inl, inr, String, arith, put, pair_eq, string_eq, nat_eq, ok,
  throw_if->>-eq-ok,
}
use mathlib.Core.Path.{subst}
use threadmesh.States.{Decision, decision_eq}
use threadmesh.Coordinator.{
  Key, MessageRow, SubmissionRow, outcome_unknown, Db, Principal, Platform, Receipt,
}
use threadmesh.Coordinator.Attempts.{
  Recorded, record_adapter_receipt, record_after, submitted, receipt_stored,
}
use threadmesh.Lifecycle.Writes.{no_change, both-Move, label_at-quiet}
use threadmesh.Lifecycle.Submissions.{Rows, swm_ok}
use threadmesh.Lifecycle.{view, quiet, Move, acknowledge, IsSubmittable}

-- What a successful receipt wrote.
abbrev pub RecordsWith : Platform → Receipt → Db → Db → Key → SubmissionRow → MessageRow → Type 0
RecordsWith x receipt db db' key s row =
    (db' ≡ db)
    ⊎ (IsSubmittable row
        × (s.state ≡ outcome_unknown)
        × (s.expected_revision ≡ row.disposition.revision)
        × (db'.messages
            ≡ put key (record row { disposition = submitted row.disposition }) db.messages)
        × (db'.submissions ≡ put key (receipt_stored x receipt s) db.submissions))

record_after-ok :
    (x : Platform) (revision : ℕ) (receipt : Receipt) (key : Key) (s : SubmissionRow)
    (row : MessageRow) (db db' : Db) (r : Recorded)
    → record_after x revision receipt key s row db s.state ≡ ok (db', r)
    → RecordsWith x receipt db db' key s row
record_after-ok x revision receipt key s row db db' r h = ground (
  arith,
  nat_eq.beq_iff row.disposition.revision revision,
  nat_eq.beq_iff s.expected_revision revision,
  decision_eq.beq_iff row.disposition.decision Decision.accepted,
)

pub record-ok :
    (x : Platform) (id : String) (revision : ℕ) (receipt : Receipt) (p : Principal) (db db' : Db)
    (r : Recorded)
    → record_adapter_receipt x id revision receipt p db ≡ ok (db', r)
    → (key : Key) × (s : SubmissionRow) × (row : MessageRow) × Rows db id key s row
      × RecordsWith x receipt db db' key s row
unfolding record_adapter_receipt
record-ok x id revision receipt p db db' r h =
    let (ready, ran) = throw_if->>-eq-ok _ _ _ h in
    let (key, s, row, rows, wrote) = swm_ok db id _ _ ran in
    let (owner, stored) = throw_if->>-eq-ok _ _ _ wrote in
    (key, s, row, rows, record_after-ok x revision receipt key s row db db' r stored)

pub record-Move :
    (x : Platform) (id : String) (revision : ℕ) (receipt : Receipt) (p : Principal) (db db' : Db)
    (r : Recorded)
    → record_adapter_receipt x id revision receipt p db ≡ ok (db', r)
    → (k : Key) → Move quiet (view k db) (view k db')
record-Move x id revision receipt p db db' r h =
    let (key, s, row, rows, ran) = record-ok x id revision receipt p db db' r h in
    elim ran [
      | inl same ↦ no_change db db' same
      | inr (ready, unknown, revision_is, m, w) ↦ λ k.
          subst (λ l. Move l (view k db) (view k db')) (label_at-quiet key k)
            (both-Move key (receipt_stored x receipt s) db db' quiet _ m w
              (acknowledge row s (x.receipt_json receipt) refl rows.2 rows.1 ready unknown
                revision_is refl)
              k)
    ]

-- ===== src/Lifecycle/Stranded.antt =====
-- Decisions on a message whose submission has an unknown outcome, and admissions of it (respond,
-- confirmContextAdmission, recordAdapterReceipt and reconcileAdapterSubmission).
use threadmesh.Prelude.{
  ℕ, ◌<◌, ◌≡◌, ap, ◌∙◌, inl, inr, Bool, true, false, String, some, List, arith, find, put, pair_eq,
  string_eq, ok, find-put_self, Option-cases, Result-cases,
}
use threadmesh.States.{Decision, Delivery, ReasonCode, delivery_eq}
use threadmesh.Coordinator.{
  Key, Db, Platform, MessageRow, AdmissionRow, Disposition, SubmissionRow, outcome_unknown,
  Principal,
}
use threadmesh.Coordinator.Mailbox.{respond}
use threadmesh.Coordinator.Admission.{
  AdapterEvidence, confirm_context_admission, confirmed, admitted, is_proven,
}
use threadmesh.Lifecycle.{
  View, view, Label, Move, stay, arrive, decide, fail, expire, admit, prepare, begin, acknowledge,
  release, escalate,
}
use threadmesh.Lifecycle.Mailbox.{respond-ok}
use threadmesh.Lifecycle.Trace.{Event, run, run_keeps}

-- The message has moved past the revision of its attempt.
abbrev pub IsStranded : SubmissionRow → View → Type 0
IsStranded s v =
    (v.submission ≡ some s)
    × ((row : MessageRow) × (v.message ≡ some row)
        × (s.expected_revision < row.disposition.revision))

Move-IsStranded :
    (s : SubmissionRow)
    → s.state ≡ outcome_unknown
    → (l : Label) (v w : View) → Move l v w
    → IsStranded s v
    → IsStranded s w
Move-IsStranded s u l v w (stay q e) (sub, (row, m, late)) =
    (ground arith, (row, ground arith, late))
Move-IsStranded s u l v w (arrive new q n d e) (sub, (row, m, late)) = absurd (ground arith)
Move-IsStranded s u l v w (decide mid c reason q n a r e) (sub, (row, m, late)) =
    (ground arith, (_, ap {A = View} (λ t. t.message) e, ground arith))
Move-IsStranded s u l v w (fail mid reason q n a i e) (sub, (row, m, late)) = absurd (ground arith)
Move-IsStranded s u l v w (expire mid q n a i e) (sub, (row, m, late)) = absurd (ground arith)
Move-IsStranded s u l v w (admit mid q n c a e) (sub, (row, m, late)) =
    (ground arith, (_, ap {A = View} (λ t. t.message) e, ground arith))
Move-IsStranded s u l v w (prepare mid t q n ready f st rev e) (sub, (row, m, late)) =
    absurd (ground arith)
Move-IsStranded s u l v w (begin mid t q n old ready st rev e) (sub, (row, m, late)) =
    absurd (ground arith)
Move-IsStranded s u l v w (acknowledge mid t receipt q n old ready st rev e) (sub, (row, m, late)) =
    absurd (ground arith)
Move-IsStranded s u l v w (release mid t refs q n old st rev e) (sub, (row, m, late)) =
    absurd (ground arith)
Move-IsStranded s u l v w (escalate mid t refs q n old st rev e) (sub, (row, m, late)) =
    absurd (ground arith)

respond-IsStranded :
    (now : ℕ) (key : Key) (c : Decision) (revision : ℕ) (reason : ReasonCode) (p : Principal)
    (db db' : Db) (d : Disposition) (s : SubmissionRow) (row : MessageRow)
    → find key db.submissions ≡ some s
    → find key db.messages ≡ some row
    → s.expected_revision ≡ row.disposition.revision
    → respond now key c revision reason p db ≡ ok (db', d)
    → IsStranded s (view key db')
respond-IsStranded now key c revision reason p db db' d s row sub msg at h =
    let (mid, found, allowed, reasonable, wrote, kept) =
      respond-ok now key c revision reason p db db' d h in
    let same : mid ≡ row = cc (found, msg) in
    (ground arith, (_, ap (find key) wrote ∙ find-put_self key _ db.messages, ground arith))

-- If the receiver decides on a message (it can still revoke what it accepted) while the outcome of
-- its attempt is unknown, at the revision of the message, then in every later history of the
-- modelled calls the submission stays as it is, its outcome unknown: no receipt and no
-- reconciliation is ever recorded for it.
pub respond_strands :
    (x : Platform) (now : ℕ) (key : Key) (c : Decision) (revision : ℕ) (reason : ReasonCode)
    (p : Principal) (db db' : Db) (d : Disposition) (s : SubmissionRow) (row : MessageRow)
    → find key db.submissions ≡ some s
    → find key db.messages ≡ some row
    → s.state ≡ outcome_unknown
    → s.expected_revision ≡ row.disposition.revision
    → respond now key c revision reason p db ≡ ok (db', d)
    → (es : List Event) → find key (run x es db').submissions ≡ some s
respond_strands x now key c revision reason p db db' d s row sub msg unknown at h es =
    (run_keeps (IsStranded s) key (Move-IsStranded s unknown) x es db'
      (respond-IsStranded now key c revision reason p db db' d s row sub msg at h)).0

-- The writes of a confirmation, in its two branches.
confirmed-messages :
    (key : Key) (row : MessageRow) (a : AdmissionRow) (provenance preverified : Bool) (db db' : Db)
    (d : Disposition)
    → is_proven provenance row a ≡ ok preverified
    → confirmed key row a preverified db ≡ ok (db', d)
    → d.delivery ≡ Delivery.context_admitted
    → (db'.messages ≡ put key (record row { disposition = admitted row.disposition }) db.messages)
      × (db'.submissions ≡ db.submissions)
unfolding is_proven
confirmed-messages key row a provenance true db db' d proven h is =
    absurd (ground (arith, delivery_eq.beq_iff row.disposition.delivery Delivery.adapter_submitted))
confirmed-messages key row a provenance false db db' d proven h is = (ground arith, ground arith)

confirm-messages :
    (x : Platform) (provenance : Bool) (key : Key) (revision : ℕ) (token : String)
    (evidence : AdapterEvidence) (p : Principal) (db db' : Db) (d : Disposition) (row : MessageRow)
    → find key db.messages ≡ some row
    → confirm_context_admission x provenance key revision token evidence p db ≡ ok (db', d)
    → d.delivery ≡ Delivery.context_admitted
    → (db'.messages ≡ put key (record row { disposition = admitted row.disposition }) db.messages)
      × (db'.submissions ≡ db.submissions)
unfolding confirm_context_admission
confirm-messages x provenance key revision token evidence p db db' d row msg h is =
    elim (Option-cases (find key db.admissions)) [
      | inl e ↦ absurd (ground arith)
      | inr (a, c) ↦ elim (Result-cases (is_proven provenance row a)) [
        | inl (preverified, q) ↦
            confirmed-messages key row a provenance preverified db db' d q (ground arith) is
        | inr (e, q) ↦ absurd (ground arith)
      ]
    ]

-- If a context admission of a message is confirmed, which makes it context-admitted, while the
-- outcome of its attempt is unknown, at the revision of the message, then in every later history of
-- the modelled calls the submission stays as it is, its outcome unknown.
pub confirm_strands :
    (x : Platform) (provenance : Bool) (key : Key) (revision : ℕ) (token : String)
    (evidence : AdapterEvidence) (p : Principal) (db db' : Db) (d : Disposition) (s : SubmissionRow)
    (row : MessageRow)
    → find key db.submissions ≡ some s
    → find key db.messages ≡ some row
    → s.state ≡ outcome_unknown
    → s.expected_revision ≡ row.disposition.revision
    → confirm_context_admission x provenance key revision token evidence p db ≡ ok (db', d)
    → d.delivery ≡ Delivery.context_admitted
    → (es : List Event) → find key (run x es db').submissions ≡ some s
confirm_strands x provenance key revision token evidence p db db' d s row sub msg unknown at h is
      es =
    let (wrote, kept) =
      confirm-messages x provenance key revision token evidence p db db' d row msg h is in
    (run_keeps (IsStranded s) key (Move-IsStranded s unknown) x es db' (
      rw kept sub,
      (_, ap (find key) wrote ∙ find-put_self key _ db.messages, omega (arith, at)),
    )).0

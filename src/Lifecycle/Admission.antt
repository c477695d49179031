-- ===== src/Lifecycle/Admission.antt =====
-- prepareContextAdmission and confirmContextAdmission as moves of the specification.
use threadmesh.Prelude.{
  ℕ, ◌≡◌, refl, inl, inr, Bool, true, false, not, ◌&&◌, String, some, arith, find, pair_eq,
  string_eq, nat_eq, ok, Option-cases, Result-cases,
}
use threadmesh.States.{Delivery, Decision, decision_eq, delivery_eq}
use threadmesh.Disposition.{Machine, is_disposition_transition_allowed}
use threadmesh.Coordinator.{Key, Disposition, MessageRow, AdmissionRow, Db, Principal, Platform}
use threadmesh.Coordinator.Admission.{
  Admission, AdapterEvidence, prepare_context_admission, confirm_context_admission, is_ordinary,
  confirmed, is_proven,
}
use threadmesh.Lifecycle.Administration.{KeepsMail}
use threadmesh.Lifecycle.Writes.{message-Move, no-Move}
use threadmesh.Lifecycle.{view, quiet, Move, admit}

pub prepare_context_admission-KeepsMail :
    (x : Platform) (now : ℕ) (nonce : String) (key : Key) (revision : ℕ) (p : Principal)
    (db db' : Db) (a : Admission)
    → prepare_context_admission x now nonce key revision p db ≡ ok (db', a)
    → KeepsMail db db'
unfolding prepare_context_admission
prepare_context_admission-KeepsMail x now nonce key revision p db db' a h = ground arith

is_ordinary-admits :
    (row : MessageRow) (revision : ℕ)
    → is_ordinary row revision ≡ true
    → (row.disposition.decision ≡ Decision.accepted)
      × (is_disposition_transition_allowed Machine.delivery row.disposition.delivery
            Delivery.context_admitted
          ≡ true)
unfolding is_disposition_transition_allowed
is_ordinary-admits row revision h =
    ground (arith, decision_eq.beq_iff row.disposition.decision Decision.accepted)

confirmed-Move :
    (key : Key) (row : MessageRow) (a : AdmissionRow) (revision : ℕ) (preverified : Bool)
    (db db' : Db) (d : Disposition)
    → find key db.messages ≡ some row
    → (not (is_ordinary row revision) && not preverified) ≡ false
    → confirmed key row a preverified db ≡ ok (db', d)
    → (k : Key) → Move quiet (view k db) (view k db')
confirmed-Move key row a revision true db db' d found fit h =
    no-Move db db' (ground arith) (ground arith)
confirmed-Move key row a revision false db db' d found fit h =
    let (accepted, allowed) = is_ordinary-admits row revision (ground arith) in
    message-Move key _ db db' (ground arith) (ground arith)
      (admit row refl found accepted allowed refl)

pub confirm_context_admission-Move :
    (x : Platform) (provenance : Bool) (key : Key) (revision : ℕ) (token : String)
    (evidence : AdapterEvidence) (p : Principal) (db db' : Db) (d : Disposition)
    → confirm_context_admission x provenance key revision token evidence p db ≡ ok (db', d)
    → (k : Key) → Move quiet (view k db) (view k db')
unfolding confirm_context_admission
confirm_context_admission-Move x provenance key revision token evidence p db db' d h =
    elim (Option-cases (find key db.messages)) [
      | inl e ↦ absurd (ground arith)
      | inr (row, m) ↦ elim (Option-cases (find key db.admissions)) [
        | inl e ↦ absurd (ground arith)
        | inr (a, c) ↦ elim (Result-cases (is_proven provenance row a)) [
          | inl (preverified, q) ↦
              confirmed-Move key row a revision preverified db db' d m (ground arith) (ground arith)
          | inr (e, q) ↦ absurd (ground arith)
        ]
      ]
    ]

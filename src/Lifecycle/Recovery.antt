-- ===== src/Lifecycle/Recovery.antt =====
-- recoverContextAdmission after prepareContextAdmission and confirmContextAdmission.
use threadmesh.Prelude.{
  ℕ, ◌+◌, ◌≡◌, refl, ◌∙◌, inl, inr, Bool, true, false, String, some, arith, find, put, pair_eq,
  string_eq, nat_eq, ok, err, Option-cases, Result-cases, beq_refl, find-put_self, if◌then◌else◌,
}
use threadmesh.States.{Delivery, Decision, decision_eq, delivery_eq}
use threadmesh.Coordinator.{
  assert_task_principal, Key, Disposition, MessageRow, AdmissionRow, Db, Principal, Platform, Error,
}
use threadmesh.Coordinator.Submissions.{adapter_ref_of}
use threadmesh.Coordinator.Admission.{
  Admission, AdapterEvidence, prepare_context_admission, confirm_context_admission, may_be_admitted,
  confirmed, admitted, is_proven, recover_context_admission, binding_is_valid, new_admission,
  admission_of, admission_stored, completed, assert_admission_state, is_context_adapter_ref,
}

-- What a preparation has checked and stored.
record Prepares (x : Platform) (nonce : String) (key : Key) (revision : ℕ) (p : Principal)
    (db db' : Db) (a : Admission) : Type 0 where
  row : MessageRow
  text : String
  found : find key db.messages ≡ some row
  same_messages : db'.messages ≡ db.messages
  stored : db'.admissions ≡ put key (new_admission x key row revision nonce text) db.admissions
  is : a ≡ admission_of x row (new_admission x key row revision nonce text)
  is_context : is_context_adapter_ref (x.parsed_adapter_ref text) ≡ true
  accepted : row.disposition.decision ≡ Decision.accepted
  at_revision : row.disposition.revision ≡ revision
  by_target : assert_task_principal p row.envelope.target ≡ ok tt

prepare_context_admission-Prepares :
    (x : Platform) (now : ℕ) (nonce : String) (key : Key) (revision : ℕ) (p : Principal)
    (db db' : Db) (a : Admission)
    → prepare_context_admission x now nonce key revision p db ≡ ok (db', a)
    → Prepares x nonce key revision p db db' a
unfolding prepare_context_admission assert_admission_state
prepare_context_admission-Prepares x now nonce key revision p db db' a h =
    elim (Option-cases (find key db.messages)) [
      | inl e ↦ absurd (ground arith)
      | inr (row, e) ↦ elim (Result-cases (adapter_ref_of db row)) [
        | inr (error, f) ↦ absurd (ground arith)
        | inl (text, f) ↦
            let ran : admission_stored x key row (new_admission x key row revision nonce text) db
                ≡ ok (db', a) =
              ground arith in
            record {
              row = row;
              text = text;
              found = e;
              same_messages = ground arith;
              stored = ground arith;
              is = ground arith;
              is_context = ground arith;
              accepted =
                  ground (arith, decision_eq.beq_iff row.disposition.decision Decision.accepted);
              at_revision = ground (arith, nat_eq.beq_iff row.disposition.revision revision);
              by_target = ground arith;
            }
      ]
    ]

-- A claim at the revision of its message is not taken for a verified one.
is_proven-fresh :
    (provenance : Bool) (row : MessageRow) (a : AdmissionRow)
    → row.disposition.revision ≡ a.expected_revision
    → is_proven provenance row a ≡ ok false
unfolding is_proven
is_proven-fresh provenance row a same = ground arith

binding_is_valid-fresh :
    (x : Platform) (nonce text : String) (key : Key) (row : MessageRow) (revision : ℕ)
    → row.disposition.decision ≡ Decision.accepted
    → row.disposition.revision ≡ revision
    → binding_is_valid x key row (new_admission x key row revision nonce text) false
      ≡ may_be_admitted row.disposition.delivery
unfolding binding_is_valid
binding_is_valid-fresh x nonce text key row revision accepted same =
    let claim : AdmissionRow = new_admission x key row revision nonce text in
    rw
      (
        beq_refl claim.adapter_ref_digest,
        beq_refl claim.admission_token,
        (nat_eq.beq_iff row.disposition.revision revision).1 same,
        (decision_eq.beq_iff row.disposition.decision Decision.accepted).1 accepted,
      )
      refl

-- The answer of a recovery, on rows and a claim that are there.
recovered :
    (x : Platform) (provenance : Bool) (key : Key) (p : Principal) (db : Db) (row : MessageRow)
    (a : AdmissionRow)
    → find key db.messages ≡ some row
    → find key db.admissions ≡ some a
    → assert_task_principal p row.envelope.target ≡ ok tt
    → is_context_adapter_ref (x.parsed_adapter_ref a.adapter_ref) ≡ true
    → is_proven provenance row a ≡ ok false
    → recover_context_admission x provenance key p db ≡ (
        if binding_is_valid x key row a false
        then ok (a.is_in_flight, admission_of x row a)
        else err Error.context_admission_binding_invalid)
unfolding recover_context_admission
recovered x provenance key p db row a m c t r f = rw (m, c, t, r, f) (ground arith)

-- What is prepared is recovered as it was prepared, still in flight, if its message is durably-received
-- or checkpoint-offered; for a message in any other delivery state the recovery throws
-- `context_admission_binding_invalid`.
pub prepare-recover :
    (x : Platform) (now : ℕ) (provenance : Bool) (nonce : String) (key : Key) (revision : ℕ)
    (p : Principal) (db db' : Db) (a : Admission)
    → prepare_context_admission x now nonce key revision p db ≡ ok (db', a)
    → (row : MessageRow) × (find key db.messages ≡ some row)
      × (recover_context_admission x provenance key p db' ≡ (
          if may_be_admitted row.disposition.delivery
          then ok (true, a)
          else err Error.context_admission_binding_invalid))
prepare-recover x now provenance nonce key revision p db db' a h =
    let w = prepare_context_admission-Prepares x now nonce key revision p db db' a h in
    let claim : AdmissionRow = new_admission x key w.row revision nonce w.text in
    let claimed : find key db'.admissions ≡ some claim =
      rw w.stored (find-put_self key claim db.admissions) in
    let kept : find key db'.messages ≡ some w.row = rw w.same_messages w.found in
    (
      w.row,
      w.found,
      recovered x provenance key p db' w.row claim kept claimed w.by_target w.is_context
            (is_proven-fresh provenance w.row claim w.at_revision)
          ∙ rw
              (
                binding_is_valid-fresh x nonce w.text key w.row revision w.accepted w.at_revision,
                w.is,
              )
              refl,
    )

-- A confirmation of a claim at the revision of its message writes the disposition and the claim.
confirm_fresh :
    (x : Platform) (provenance : Bool) (key : Key) (revision : ℕ) (token : String)
    (evidence : AdapterEvidence) (p : Principal) (db db' : Db) (row : MessageRow) (a : AdmissionRow)
    (d : Disposition)
    → find key db.messages ≡ some row
    → find key db.admissions ≡ some a
    → is_proven provenance row a ≡ ok false
    → confirm_context_admission x provenance key revision token evidence p db ≡ ok (db', d)
    → confirmed key row a false db ≡ ok (db', d)
unfolding confirm_context_admission
confirm_fresh x provenance key revision token evidence p db db' row a d m c f h = ground arith

abbrev with_admitted : MessageRow → MessageRow
with_admitted row = record row { disposition = admitted row.disposition }

binding_is_valid-completed :
    (x : Platform) (nonce text : String) (key : Key) (row : MessageRow) (revision : ℕ)
    → row.disposition.revision ≡ revision
    → binding_is_valid x key
        (with_admitted row)
        (completed (new_admission x key row revision nonce text))
        false
      ≡ true
unfolding binding_is_valid
binding_is_valid-completed x nonce text key row revision same =
    let claim : AdmissionRow = new_admission x key row revision nonce text in
    rw
      (
        beq_refl claim.adapter_ref_digest,
        beq_refl claim.admission_token,
        same,
        beq_refl (revision + 1),
      )
      refl

is_proven-completed :
    (provenance : Bool) (row : MessageRow) (a : AdmissionRow)
    → row.disposition.revision ≡ a.expected_revision
    → is_proven provenance (with_admitted row) (completed a) ≡ ok false
unfolding is_proven
is_proven-completed provenance row a same = ground arith

-- An admission that is prepared and then confirmed is recovered as completed, with all that was
-- prepared, and its message is context-admitted at the next revision.
pub prepare-confirm-recover :
    (x : Platform) (now : ℕ) (during later : Bool) (nonce token : String) (key : Key) (revision : ℕ)
    (evidence : AdapterEvidence) (p : Principal) (db db' last : Db) (a : Admission)
    (d : Disposition)
    → prepare_context_admission x now nonce key revision p db ≡ ok (db', a)
    → confirm_context_admission x during key revision token evidence p db' ≡ ok (last, d)
    → (recover_context_admission x later key p last ≡ ok (false, a))
      × (d.delivery ≡ Delivery.context_admitted)
      × (d.revision ≡ revision + 1)
prepare-confirm-recover x now during later nonce token key revision evidence p db db' last a d
      prepares confirms =
    let w = prepare_context_admission-Prepares x now nonce key revision p db db' a prepares in
    let claim : AdmissionRow = new_admission x key w.row revision nonce w.text in
    let claimed : find key db'.admissions ≡ some claim =
      rw w.stored (find-put_self key claim db.admissions) in
    let kept : find key db'.messages ≡ some w.row = rw w.same_messages w.found in
    let wrote =
      confirm_fresh x during key revision token evidence p db' last w.row claim d kept claimed
        (is_proven-fresh during w.row claim w.at_revision) confirms in
    let admits : d ≡ admitted w.row.disposition = ground arith in
    let moved : last.messages ≡ put key (with_admitted w.row) db'.messages = ground arith in
    let done : last.admissions ≡ put key (completed claim) db'.admissions = ground arith in
    (
      recovered x later key p last (with_admitted w.row) (completed claim)
            (rw moved (find-put_self key (with_admitted w.row) db'.messages))
            (rw done (find-put_self key (completed claim) db'.admissions)) w.by_target w.is_context
            (is_proven-completed later w.row claim w.at_revision)
          ∙ rw (binding_is_valid-completed x nonce w.text key w.row revision w.at_revision, w.is)
              refl,
      rw admits refl,
      rw (admits, w.at_revision) refl,
    )

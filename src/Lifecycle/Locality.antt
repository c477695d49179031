-- ===== src/Lifecycle/Locality.antt =====
-- Which messages a call of the coordinator is about, and that it leaves the rows of all others.
use threadmesh.Prelude.{
  ℕ, ◌≡◌, refl, ap, ◌∙◌, ◌⊎◌, inl, inr, Bool, true, false, String, Option, none, some, List, arith,
  ◌==◌, find, put, find-put, pair_eq, string_eq, ok, Option-cases, Result-cases, Bool-cases,
}
use threadmesh.States.{Decision, ReasonCode}
use threadmesh.Disposition.{default_decision_reasons}
use threadmesh.Policy.{Envelope}
use threadmesh.Coordinator.{
  Key, key_of, Disposition, MessageRow, Db, Principal, Platform, AdmissionRow,
}
use threadmesh.Coordinator.Mailbox.{Submitted, submit, replayed_or_inserted, respond, fail_delivery}
use threadmesh.Coordinator.Claims.{acknowledge_pending}
use threadmesh.Coordinator.Submissions.{submission_key}
use threadmesh.Coordinator.Admission.{
  AdapterEvidence, confirm_context_admission, confirmed, is_proven, admitted,
}
use threadmesh.Coordinator.Calls.{
  Call, submits, acknowledges, responds, fails, prepares, begins, records, reconciles, revokes,
  expires, confirms,
}
use threadmesh.Lifecycle.Writes.{unchanged_view}
use threadmesh.Lifecycle.Mailbox.{respond-ok, fail_delivery-ok}
use threadmesh.Lifecycle.Claims.{acknowledge-ok}
use threadmesh.Lifecycle.{view}

-- Whether a message is the one with the key, if there is a key.
abbrev pub is_at : Option Key → Key → Bool
is_at none k = false
is_at (some key) k = key == k

-- Whether a message is one that a call is about. A revocation and an expiry are about many, a call on
-- tasks, an installation, a claim or a prepared admission about none.
abbrev pub is_about : Db → Call → Key → Bool
is_about db (submits e) k = key_of e == k
is_about db (acknowledges key token d revision) k = key == k
is_about db (responds key d revision reason) k = key == k
is_about db (fails key revision reason) k = key == k
is_about db (prepares key revision id idempotency_key) k = key == k
is_about db (begins id revision) k = is_at (submission_key id db.submissions) k
is_about db (records id revision receipt) k = is_at (submission_key id db.submissions) k
is_about db (reconciles id revision r) k = is_at (submission_key id db.submissions) k
is_about db (confirms key revision token evidence provenance) k = key == k
is_about db (revokes id version) k = true
is_about db (expires limit) k = true
is_about db call k = false

-- A call that is about a message, or leaves its rows.
abbrev pub IsLocal : Bool → Db → Db → Key → Type 0
IsLocal about db db' k = (about ≡ true) ⊎ (view k db' ≡ view k db)

-- A table in which at most the row with the key is written.
abbrev pub IsWrittenAt : {V : Type 0} → Key → List (Key × V) → List (Key × V) → Type 0
IsWrittenAt {V} key t t' = (t' ≡ t) ⊎ ((v : V) × (t' ≡ put key v t))

IsWrittenAt-find :
    {V : Type 0} (key k : Key) (t t' : List (Key × V))
    → (key == k) ≡ false
    → IsWrittenAt key t t'
    → find k t' ≡ find k t
IsWrittenAt-find key k t t' other (inl same) = ap (find k) same
IsWrittenAt-find key k t t' other (inr (v, put_it)) = rw put_it (find-put key k v t ∙ rw other refl)

pub written-IsLocal :
    (key : Key) (db db' : Db)
    → IsWrittenAt key db.messages db'.messages
    → IsWrittenAt key db.submissions db'.submissions
    → (k : Key) → IsLocal (key == k) db db' k
written-IsLocal key db db' m s k = elim (Bool-cases (key == k)) [
  | inl same ↦ inl same
  | inr other ↦ inr (
      rw
        (
          IsWrittenAt-find key k db.messages db'.messages other m,
          IsWrittenAt-find key k db.submissions db'.submissions other s,
        )
        refl)
]

pub unchanged-IsLocal : (about : Bool) (db db' : Db) (k : Key) → db' ≡ db → IsLocal about db db' k
unchanged-IsLocal about db db' k same = inr (ap {A = Db} (view k) same)

inserted-IsLocal :
    (x : Platform) (now : ℕ) (e : Envelope) (db db' : Db) (r : Submitted) (o : Option MessageRow)
    → replayed_or_inserted x now e db o ≡ ok (db', r)
    → (k : Key) → IsLocal (key_of e == k) db db' k
inserted-IsLocal x now e db db' r (some row) h k = unchanged-IsLocal _ db db' k (ground arith)
inserted-IsLocal x now e db db' r none h k =
    written-IsLocal (key_of e) db db' (inr (r.row, ground arith)) (inl (ground arith)) k

pub submit-IsLocal :
    (x : Platform) (now : ℕ) (e : Envelope) (p : Principal) (db db' : Db) (r : Submitted)
    → submit x now e p db ≡ ok (db', r)
    → (k : Key) → IsLocal (key_of e == k) db db' k
unfolding submit
submit-IsLocal x now e p db db' r h =
    inserted-IsLocal x now e db db' r (find (key_of e) db.messages) (ground arith)

pub respond-IsLocal :
    (now : ℕ) (key : Key) (c : Decision) (revision : ℕ) (reason : ReasonCode) (p : Principal)
    (db db' : Db) (d : Disposition)
    → respond now key c revision reason p db ≡ ok (db', d)
    → (k : Key) → IsLocal (key == k) db db' k
respond-IsLocal now key c revision reason p db db' d h =
    let (row, found, allowed, reasonable, wrote, kept) =
      respond-ok now key c revision reason p db db' d h in
    written-IsLocal key db db' (inr (_, wrote)) (inl kept)

pub fail_delivery-IsLocal :
    (x : Platform) (key : Key) (revision : ℕ) (reason : String) (p : Principal) (db db' : Db)
    (d : Disposition)
    → fail_delivery x key revision reason p db ≡ ok (db', d)
    → (k : Key) → IsLocal (key == k) db db' k
fail_delivery-IsLocal x key revision reason p db db' d h =
    let (row, found, allowed, sure, wrote, kept) =
      fail_delivery-ok x key revision reason p db db' d h in
    written-IsLocal key db db' (inr (_, wrote)) (inl kept)

pub acknowledge-IsLocal :
    (now : ℕ) (key : Key) (token : String) (c : Decision) (revision : ℕ) (p : Principal)
    (db db' : Db) (d : Disposition)
    → acknowledge_pending now key token c revision p db ≡ ok (db', d)
    → (k : Key) → IsLocal (key == k) db db' k
acknowledge-IsLocal now key token c revision p db db' d h k =
    let (mid, ran, m, s) = acknowledge-ok now key token c revision p db db' d h in
    elim (Option-cases (default_decision_reasons c)) [
      | inl e ↦ absurd (ground arith)
      | inr (reason, e) ↦
          rw (unchanged_view mid db' m s k)
            (respond-IsLocal now key c revision reason p db mid d (ground arith) k)
    ]

confirmed-IsLocal :
    (key : Key) (row : MessageRow) (a : AdmissionRow) (preverified : Bool) (db db' : Db)
    (d : Disposition)
    → confirmed key row a preverified db ≡ ok (db', d)
    → (k : Key) → IsLocal (key == k) db db' k
confirmed-IsLocal key row a true db db' d h =
    written-IsLocal key db db' (inl (ground arith)) (inl (ground arith))
confirmed-IsLocal key row a false db db' d h =
    written-IsLocal key db db'
      (inr (record row { disposition = admitted row.disposition }, ground arith))
      (inl (ground arith))

pub confirm-IsLocal :
    (x : Platform) (provenance : Bool) (key : Key) (revision : ℕ) (token : String)
    (evidence : AdapterEvidence) (p : Principal) (db db' : Db) (d : Disposition)
    → confirm_context_admission x provenance key revision token evidence p db ≡ ok (db', d)
    → (k : Key) → IsLocal (key == k) db db' k
unfolding confirm_context_admission
confirm-IsLocal x provenance key revision token evidence p db db' d h =
    elim (Option-cases (find key db.messages)) [
      | inl e ↦ absurd (ground arith)
      | inr (row, m) ↦ elim (Option-cases (find key db.admissions)) [
        | inl e ↦ absurd (ground arith)
        | inr (a, c) ↦ elim (Result-cases (is_proven provenance row a)) [
          | inl (preverified, q) ↦ confirmed-IsLocal key row a preverified db db' d (ground arith)
          | inr (e, q) ↦ absurd (ground arith)
        ]
      ]
    ]

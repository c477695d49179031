-- ===== src/Lifecycle/Mailbox.antt =====
-- submit, respond and failDelivery as moves of the specification.
use threadmesh.Prelude.{
  ℕ, ◌≡◌, refl, inl, inr, true, false, String, Option, none, some, arith, find, put, pair_eq,
  string_eq, ok, Option-cases,
}
use threadmesh.States.{Delivery, Decision, ReasonCode}
use threadmesh.Disposition.{Machine, is_disposition_transition_allowed, is_decision_reason_allowed}
use threadmesh.Policy.{Envelope}
use threadmesh.Coordinator.{Key, key_of, Disposition, MessageRow, Db, Principal, Platform}
use threadmesh.Coordinator.Mailbox.{
  Submitted, submit, replayed_or_inserted, decided, respond, fail_delivery, delivery_failed,
  is_in_doubt,
}
use threadmesh.Lifecycle.Writes.{message-Move, no_change}
use threadmesh.Lifecycle.{view, quiet, Move, arrive, decide, fail}

pub respond-ok :
    (now : ℕ) (key : Key) (c : Decision) (revision : ℕ) (reason : ReasonCode) (p : Principal)
    (db db' : Db) (d : Disposition)
    → respond now key c revision reason p db ≡ ok (db', d)
    → (row : MessageRow) × (find key db.messages ≡ some row)
      × (is_disposition_transition_allowed Machine.decision row.disposition.decision c ≡ true)
      × (is_decision_reason_allowed c reason ≡ true)
      × (db'.messages
          ≡ put key (record row { disposition = decided c reason row.disposition }) db.messages)
      × (db'.submissions ≡ db.submissions)
unfolding respond
respond-ok now key c revision reason p db db' d h = elim (Option-cases (find key db.messages)) [
  | inl e ↦ absurd (ground arith)
  | inr (row, e) ↦ (row, e, ground arith, ground arith, ground arith, ground arith)
]

pub respond-Move :
    (now : ℕ) (key : Key) (c : Decision) (revision : ℕ) (reason : ReasonCode) (p : Principal)
    (db db' : Db) (d : Disposition)
    → respond now key c revision reason p db ≡ ok (db', d)
    → (k : Key) → Move quiet (view k db) (view k db')
respond-Move now key c revision reason p db db' d h =
    let (row, found, allowed, reasonable, wrote, kept) =
      respond-ok now key c revision reason p db db' d h in
    message-Move key _ db db' wrote kept (decide row c reason refl found allowed reasonable refl)

pub fail_delivery-ok :
    (x : Platform) (key : Key) (revision : ℕ) (reason : String) (p : Principal) (db db' : Db)
    (d : Disposition)
    → fail_delivery x key revision reason p db ≡ ok (db', d)
    → (row : MessageRow) × (find key db.messages ≡ some row)
      × (is_disposition_transition_allowed Machine.delivery row.disposition.delivery Delivery.failed
          ≡ true)
      × (is_in_doubt (find key db.submissions) ≡ false)
      × (db'.messages
          ≡ put key
              (record row {
                disposition = delivery_failed (x.sliced_reason reason) row.disposition;
              })
              db.messages)
      × (db'.submissions ≡ db.submissions)
unfolding fail_delivery
fail_delivery-ok x key revision reason p db db' d h = elim (Option-cases (find key db.messages)) [
  | inl e ↦ absurd (ground arith)
  | inr (row, e) ↦ (row, e, ground arith, ground arith, ground arith, ground arith)
]

pub fail_delivery-Move :
    (x : Platform) (key : Key) (revision : ℕ) (reason : String) (p : Principal) (db db' : Db)
    (d : Disposition)
    → fail_delivery x key revision reason p db ≡ ok (db', d)
    → (k : Key) → Move quiet (view k db) (view k db')
fail_delivery-Move x key revision reason p db db' d h =
    let (row, found, allowed, sure, wrote, kept) =
      fail_delivery-ok x key revision reason p db db' d h in
    message-Move key _ db db' wrote kept
      (fail row (x.sliced_reason reason) refl found allowed sure refl)

replayed_or_inserted-Move :
    (x : Platform) (now : ℕ) (e : Envelope) (db db' : Db) (r : Submitted) (o : Option MessageRow)
    → find (key_of e) db.messages ≡ o
    → replayed_or_inserted x now e db o ≡ ok (db', r)
    → (k : Key) → Move quiet (view k db) (view k db')
replayed_or_inserted-Move x now e db db' r (some row) found h = no_change db db' (ground arith)
replayed_or_inserted-Move x now e db db' r none found h =
    message-Move (key_of e) r.row db db' (ground arith) (ground arith)
      (arrive r.row refl found (ground arith) refl)

pub submit-Move :
    (x : Platform) (now : ℕ) (e : Envelope) (p : Principal) (db db' : Db) (r : Submitted)
    → submit x now e p db ≡ ok (db', r)
    → (k : Key) → Move quiet (view k db) (view k db')
unfolding submit
submit-Move x now e p db db' r h =
    replayed_or_inserted-Move x now e db db' r (find (key_of e) db.messages) refl (ground arith)

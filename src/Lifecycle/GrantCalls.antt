-- ===== src/Lifecycle/GrantCalls.antt =====
-- The calls about messages and submissions leave the tables of grants and of tasks as they are.
use threadmesh.Prelude.{
  ℕ, ◌≡◌, inl, inr, String, Option, none, some, List, arith, find, pair_eq, string_eq, nat_eq, ok,
  Option-cases, Result-cases,
}
use threadmesh.Disposition.{default_decision_reasons}
use threadmesh.States.{Decision, ReasonCode}
use threadmesh.Coordinator.{
  SubmissionRow, SubmissionState, Key, Disposition, Db, Principal, Platform,
}
use threadmesh.Coordinator.Mailbox.{Submitted, submit, respond, fail_delivery}
use threadmesh.Coordinator.Claims.{Claimed, claim_pending, acknowledge_pending, respond_by_default}
use threadmesh.Coordinator.Submissions.{Prepared, prepare_adapter_submission}
use threadmesh.Coordinator.Attempts.{
  Begun, Recorded, begin_adapter_submission, record_adapter_receipt, reconcile_adapter_submission,
  Reconciliation, Resolution, reconcile_as, reconcile_by, with_evidence,
}

-- A call that leaves the tables of grants and of tasks as they are.
abbrev pub KeepsTables : Db → Db → Type 0
KeepsTables db db' = (db'.grants ≡ db.grants) × (db'.tasks ≡ db.tasks)

pub submit-tables :
    (x : Platform) (now : ℕ) (e : _) (p : Principal) (db db' : Db) (r : Submitted)
    → submit x now e p db ≡ ok (db', r)
    → KeepsTables db db'
unfolding submit
submit-tables x now e p db db' r h = ground arith

pub claim_pending-tables :
    (now : ℕ) (key : Key) (revision : ℕ) (token : String) (p : Principal) (db db' : Db)
    (r : Claimed)
    → claim_pending now key revision token p db ≡ ok (db', r)
    → KeepsTables db db'
unfolding claim_pending
claim_pending-tables now key revision token p db db' r h = ground arith

pub prepare-tables :
    (x : Platform) (now : ℕ) (id adapter_key : String) (key : Key) (revision : ℕ) (p : Principal)
    (db db' : Db) (r : Prepared)
    → prepare_adapter_submission x now id adapter_key key revision p db ≡ ok (db', r)
    → KeepsTables db db'
unfolding prepare_adapter_submission
prepare-tables x now id adapter_key key revision p db db' r h = ground arith

pub begin-tables :
    (x : Platform) (now : ℕ) (id : String) (revision : ℕ) (p : Principal) (db db' : Db) (r : Begun)
    → begin_adapter_submission x now id revision p db ≡ ok (db', r)
    → KeepsTables db db'
unfolding begin_adapter_submission
begin-tables x now id revision p db db' r h = ground arith

pub record-tables :
    (x : Platform) (id : String) (revision : ℕ) (receipt : _) (p : Principal) (db db' : Db)
    (r : Recorded)
    → record_adapter_receipt x id revision receipt p db ≡ ok (db', r)
    → KeepsTables db db'
unfolding record_adapter_receipt
record-tables x id revision receipt p db db' r h = ground arith

reconcile_as-tables :
    (x : Platform) (state : SubmissionState) (id : String) (revision : ℕ) (refs : List String)
    (p : Principal) (db db' : Db) (r : SubmissionRow)
    → reconcile_as x state id revision refs p db ≡ ok (db', r)
    → KeepsTables db db'
reconcile_as-tables x state id revision refs p db db' r h = ground arith

reconcile_by-tables :
    (x : Platform) (id : String) (revision : ℕ) (c : Reconciliation) (p : Principal) (db db' : Db)
    (r : SubmissionRow) (resolution : Resolution)
    → reconcile_by x id revision c p db resolution ≡ ok (db', r)
    → KeepsTables db db'
reconcile_by-tables x id revision c p db db' r Resolution.confirmed_not_submitted h =
    reconcile_as-tables x _ id revision c.evidence_refs p db db' r h
reconcile_by-tables x id revision c p db db' r Resolution.manual_required h =
    reconcile_as-tables x _ id revision c.evidence_refs p db db' r h
reconcile_by-tables x id revision c p db db' r Resolution.unknown_resolution h =
    absurd (ground arith)
reconcile_by-tables x id revision c p db db' r Resolution.confirmed_submitted h =
    elim (Option-cases c.receipt) [
      | inl e ↦ absurd (ground arith)
      | inr (receipt, e) ↦
          elim (Result-cases
            (record_adapter_receipt x id revision (with_evidence c.evidence_refs receipt) p db)) [
              | inr (error, failed) ↦ absurd (ground arith)
              | inl ((mid, q), ran) ↦ ground (
                arith,
                record-tables x id revision (with_evidence c.evidence_refs receipt) p db mid q ran,
              )
            ]
    ]

pub reconcile-tables :
    (x : Platform) (id : String) (revision : ℕ) (c : Reconciliation) (p : Principal) (db db' : Db)
    (r : SubmissionRow)
    → reconcile_adapter_submission x id revision c p db ≡ ok (db', r)
    → KeepsTables db db'
unfolding reconcile_adapter_submission
reconcile-tables x id revision c p db db' r h =
    reconcile_by-tables x id revision c p db db' r c.resolution (ground arith)

pub respond-tables :
    (now : ℕ) (key : Key) (c : Decision) (revision : ℕ) (reason : ReasonCode) (p : Principal)
    (db db' : Db) (d : Disposition)
    → respond now key c revision reason p db ≡ ok (db', d)
    → KeepsTables db db'
unfolding respond
respond-tables now key c revision reason p db db' d h = ground arith

respond_by_default-tables :
    (now : ℕ) (key : Key) (c : Decision) (revision : ℕ) (p : Principal) (db db' : Db)
    (o : Option ReasonCode) (d : Disposition)
    → respond_by_default now key c revision p db o ≡ ok (db', d)
    → KeepsTables db db'
respond_by_default-tables now key c revision p db db' none d h = absurd (ground arith)
respond_by_default-tables now key c revision p db db' (some reason) d h =
    respond-tables now key c revision reason p db db' d h

pub acknowledge-tables :
    (now : ℕ) (key : Key) (token : String) (c : Decision) (revision : ℕ) (p : Principal)
    (db db' : Db) (d : Disposition)
    → acknowledge_pending now key token c revision p db ≡ ok (db', d)
    → KeepsTables db db'
unfolding acknowledge_pending
acknowledge-tables now key token c revision p db db' d h =
    elim (Option-cases (find key db.claims)) [
      | inl e ↦ absurd (ground arith)
      | inr (row, e) ↦
          elim (Result-cases
            (respond_by_default now key c revision p db (default_decision_reasons c))) [
              | inr (error, failed) ↦ absurd (ground arith)
              | inl ((mid, m), ran) ↦ ground (
                arith,
                respond_by_default-tables now key c revision p db mid (default_decision_reasons c) m
                    ran,
              )
            ]
    ]

pub fail-tables :
    (x : Platform) (key : Key) (revision : ℕ) (reason : String) (p : Principal) (db db' : Db)
    (d : Disposition)
    → fail_delivery x key revision reason p db ≡ ok (db', d)
    → KeepsTables db db'
unfolding fail_delivery
fail-tables x key revision reason p db db' d h = ground arith

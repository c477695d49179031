-- ===== src/Lifecycle/Claims.antt =====
-- claimPending and acknowledgePending as moves of the specification.
use threadmesh.Prelude.{
  ℕ, ◌≡◌, inl, inr, String, arith, find, pair_eq, string_eq, Result, ok, err, ◌>>=◌, Option-cases,
}
use threadmesh.States.{Decision}
use threadmesh.Disposition.{default_decision_reasons}
use threadmesh.Coordinator.{Key, Disposition, ClaimRow, Db, Principal, Error}
use threadmesh.Coordinator.Claims.{
  Claimed, claim_pending, acknowledge_pending, respond_by_default, mark_acknowledged,
}
use threadmesh.Lifecycle.Writes.{no-Move, unchanged_view}
use threadmesh.Lifecycle.Mailbox.{respond-Move}
use threadmesh.Lifecycle.{view, quiet, Move}

pub claim_pending-keeps :
    (now : ℕ) (key : Key) (revision : ℕ) (token : String) (p : Principal) (db db' : Db)
    (r : Claimed)
    → claim_pending now key revision token p db ≡ ok (db', r)
    → (db'.messages ≡ db.messages) × (db'.submissions ≡ db.submissions)
unfolding claim_pending
claim_pending-keeps now key revision token p db db' r h = ground arith

pub claim_pending-Move :
    (now : ℕ) (key : Key) (revision : ℕ) (token : String) (p : Principal) (db db' : Db)
    (r : Claimed)
    → claim_pending now key revision token p db ≡ ok (db', r)
    → (k : Key) → Move quiet (view k db) (view k db')
claim_pending-Move now key revision token p db db' r h =
    let (m, s) = claim_pending-keeps now key revision token p db db' r h in no-Move db db' m s

-- The response within an acknowledgement.
abbrev pub Responded : Db → Db → Result Error (Db × Disposition) → Disposition → Type 0
Responded db db' m d =
    (mid : Db) × (m ≡ ok (mid, d))
    × (db'.messages ≡ mid.messages)
    × (db'.submissions ≡ mid.submissions)

finish-ok :
    (m : Result Error (Db × Disposition)) (key : Key) (c : ClaimRow) (db db' : Db) (d : Disposition)
    → (m >>= mark_acknowledged key c) ≡ ok (db', d)
    → Responded db db' m d
finish-ok (ok (mid, e)) key c db db' d h = (mid, ground arith, ground arith, ground arith)
finish-ok (err e) key c db db' d h = absurd (ground arith)

pub acknowledge-ok :
    (now : ℕ) (key : Key) (token : String) (c : Decision) (revision : ℕ) (p : Principal)
    (db db' : Db) (d : Disposition)
    → acknowledge_pending now key token c revision p db ≡ ok (db', d)
    → Responded db db' (respond_by_default now key c revision p db (default_decision_reasons c)) d
unfolding acknowledge_pending
acknowledge-ok now key token c revision p db db' d h = elim (Option-cases (find key db.claims)) [
  | inl e ↦ absurd (ground arith)
  | inr (row, e) ↦ finish-ok _ key row db db' d (ground arith)
]

pub acknowledge_pending-Move :
    (now : ℕ) (key : Key) (token : String) (c : Decision) (revision : ℕ) (p : Principal)
    (db db' : Db) (d : Disposition)
    → acknowledge_pending now key token c revision p db ≡ ok (db', d)
    → (k : Key) → Move quiet (view k db) (view k db')
acknowledge_pending-Move now key token c revision p db db' d h k =
    let (mid, ran, m, s) = acknowledge-ok now key token c revision p db db' d h in
    elim (Option-cases (default_decision_reasons c)) [
      | inl e ↦ absurd (ground arith)
      | inr (reason, e) ↦
          rw (unchanged_view mid db' m s k)
            (respond-Move now key c revision reason p db mid d (ground arith) k)
    ]

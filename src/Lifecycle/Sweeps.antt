-- ===== src/Lifecycle/Sweeps.antt =====
-- revokeGrant and expireDueMessages, which go through all messages, as moves of the specification.
use mathlib.Core.Path.{subst}
use threadmesh.Prelude.{
  ℕ, ◌+◌, ◌≡◌, refl, sym, ◌⊎◌, inl, inr, true, false, String, Option, none, some, List, [], ◌∷◌,
  arith, ◌==◌, find, pair_eq, string_eq, nat_eq, ok, if◌then◌else◌, Bool-cases, Option-cases,
  Result-cases, beq_sound,
}
use threadmesh.States.{Decision, ReasonCode, decision_eq}
use threadmesh.Vocabulary.{Instant, is_present}
use threadmesh.Disposition.{Machine, is_disposition_transition_allowed, is_decision_reason_allowed}
use threadmesh.Policy.{Grant}
use threadmesh.Lifecycle.Writes.{no_change}
use threadmesh.Coordinator.{EventType, audited, Key, MessageRow, GrantRow, Db, Principal}
use threadmesh.Coordinator.Grants.{
  is_queued, revoked_row, revoke_row, revoke_rows, audit_revoked, Revoked, replayed_or_revoked,
  revoke_grant, mark_revoked, find_grant,
}
use threadmesh.Lifecycle.{view, quiet, Move, stay, decide}

-- A table whose rows are rewritten one by one, under the same keys.
pub data Rewrites (R : Key → MessageRow → MessageRow → Type 0)
    : List (Key × MessageRow) → List (Key × MessageRow) → Type 0 where
  done : Rewrites R [] []
  step :
      (k : Key) (r r' : MessageRow) (rows rows' : List (Key × MessageRow))
      → R k r r'
      → Rewrites R rows rows'
      → Rewrites R ((k, r) ∷ rows) ((k, r') ∷ rows')

-- What a rewrite does to the row that is found under a key.
abbrev pub Rewritten :
    (Key → MessageRow → MessageRow → Type 0) → Key → Option MessageRow → Option MessageRow → Type 0
Rewritten R k none o = o ≡ none
Rewritten R k (some r) o = (r' : MessageRow) × (o ≡ some r') × R k r r'

pub find-Rewritten :
    (R : Key → MessageRow → MessageRow → Type 0) (rows rows' : List (Key × MessageRow))
    → Rewrites R rows rows'
    → (k : Key) → Rewritten R k (find k rows) (find k rows')
unfolding find
find-Rewritten R _ _ done k = refl
find-Rewritten R _ _ (step j r r' rows rows' related rest) k = elim (Bool-cases (j == k)) [
  | inl same ↦ rw same (r', refl, subst (λ i. R i r r') (beq_sound j k same) related)
  | inr other ↦ rw other (find-Rewritten R rows rows' rest k)
]

-- A sweep is a move of every message, where each row that it rewrites is one.
pub Rewrites-Move :
    (R : Key → MessageRow → MessageRow → Type 0) (db db' : Db)
    → Rewrites R db.messages db'.messages
    → db'.submissions ≡ db.submissions
    → ((k : Key) (r r' : MessageRow)
        → find k db.messages ≡ some r
        → R k r r'
        → Move quiet (view k db) (record (view k db) { message = some r' }))
    → (k : Key) → Move quiet (view k db) (view k db')
Rewrites-Move R db db' rewrites same moves k =
    go (find k db.messages) refl (find-Rewritten R db.messages db'.messages rewrites k)
  where
    go :
        (o : Option MessageRow)
        → find k db.messages ≡ o
        → Rewritten R k o (find k db'.messages)
        → Move quiet (view k db) (view k db')
    go none found is = stay refl (ground arith)
    go (some r) found (r', is, related) =
        let same_view : view k db' ≡ record (view k db) { message = some r' } = ground arith in
        subst (λ w. Move quiet (view k db) w) (sym same_view) (moves k r r' found related)

-- What a revocation does to a row.
abbrev pub RevokedRow : Db → Grant → Key → MessageRow → MessageRow → Type 0
RevokedRow db g k r r' =
    ((r' ≡ r) × (is_queued db g k r ≡ false))
    ⊎ ((r' ≡ revoked_row r)
        × (is_queued db g k r ≡ true)
        × (is_disposition_transition_allowed Machine.decision r.disposition.decision
              Decision.revoked
            ≡ true))

revoke_row-RevokedRow :
    (db : Db) (g : Grant) (k : Key) (r r' : MessageRow)
    → revoke_row db g k r ≡ ok r'
    → RevokedRow db g k r r'
unfolding revoke_row
revoke_row-RevokedRow db g k r r' h = elim (Bool-cases (is_queued db g k r)) [
  | inl queued ↦ inr (ground arith)
  | inr other ↦ inl (ground arith)
]

revoke_rows-Rewrites :
    (db : Db) (g : Grant) (rows rows' : List (Key × MessageRow))
    → revoke_rows db g rows ≡ ok rows'
    → Rewrites (RevokedRow db g) rows rows'
unfolding revoke_rows
revoke_rows-Rewrites db g [] rows' h =
    let is : rows' ≡ [] = ground arith in subst (Rewrites (RevokedRow db g) []) (sym is) done
revoke_rows-Rewrites db g ((k, r) ∷ rows) rows' h = elim (Result-cases (revoke_row db g k r)) [
  | inr (e, failed) ↦ absurd (ground arith)
  | inl (r', ran) ↦ elim (Result-cases (revoke_rows db g rows)) [
    | inr (e, failed) ↦ absurd (ground arith)
    | inl (rest, went) ↦
        let is : rows' ≡ (k, r') ∷ rest = ground arith in
        subst (Rewrites (RevokedRow db g) ((k, r) ∷ rows)) (sym is) (
          step k r r' rows rest (revoke_row-RevokedRow db g k r r' ran)
            (revoke_rows-Rewrites db g rows rest went))
  ]
]

-- Two databases with the same tables but for the audit events.
pub record SameTables (db db' : Db) : Type 0 where
  pub same_messages : db'.messages ≡ db.messages
  pub same_submissions : db'.submissions ≡ db.submissions
  pub same_grants : db'.grants ≡ db.grants
  pub same_tasks : db'.tasks ≡ db.tasks

audit_revoked-SameTables :
    (before : Db) (g : Grant) (rows : List (Key × MessageRow)) (db : Db)
    → SameTables db (audit_revoked before g rows db)
unfolding audit_revoked
audit_revoked-SameTables before g [] db = record {
  same_messages = refl;
  same_submissions = refl;
  same_grants = refl;
  same_tasks = refl;
}
audit_revoked-SameTables before g ((k, r) ∷ rows) db = ground (
  arith,
  audit_revoked-SameTables before g rows (
      if is_queued before g k r
      then audited k EventType.authorization_revoked (r.disposition.revision + 1) db
      else db),
)

-- What a revocation that is no replay writes.
pub record RevokesGrant (id : String) (now : ℕ) (db db' : Db) : Type 0 where
  pub grant : Grant
  pub same_id : grant.grant_id ≡ id
  pub exists : is_present (find_grant id db.grants) ≡ true
  pub sweep : Rewrites (RevokedRow db grant) db.messages db'.messages
  pub same_submissions : db'.submissions ≡ db.submissions
  pub marked : db'.grants ≡ mark_revoked id now db.grants
  pub same_tasks : db'.tasks ≡ db.tasks

find_grant-same_id :
    (id : String) (grants : List GrantRow) (g : GrantRow)
    → find_grant id grants ≡ some g
    → g.grant.grant_id ≡ id
unfolding find_grant
find_grant-same_id id [] g h = absurd (ground arith)
find_grant-same_id id (x ∷ grants) g h =
    ground (arith, string_eq.beq_iff x.grant.grant_id id, find_grant-same_id id grants g)

revoked-RevokesGrant :
    (now : ℕ) (id : String) (g : GrantRow) (db db' : Db) (r : Revoked) (o : Option Instant)
    → find_grant id db.grants ≡ some g
    → g.grant.grant_id ≡ id
    → replayed_or_revoked now g db o ≡ ok (db', r)
    → ((r.replay ≡ true) × (db' ≡ db)) ⊎ RevokesGrant id now db db'
revoked-RevokesGrant now id g db db' r (some at) found same h = inl (ground arith, ground arith)
revoked-RevokesGrant now id g db db' r none found same h =
    elim (Result-cases (revoke_rows db g.grant db.messages)) [
      | inr (e, failed) ↦ absurd (ground arith)
      | inl (rows, ran) ↦
          let mid : Db = record db {
            grants = mark_revoked g.grant.grant_id now db.grants;
            messages = rows;
          } in
          let audits = audit_revoked-SameTables db g.grant db.messages mid in
          let is : db' ≡ audit_revoked db g.grant db.messages mid = ground arith in
          inr (record {
            grant = g.grant;
            same_id = same;
            exists = rw found refl;
            sweep =
                rw (is, audits.same_messages)
                  (revoke_rows-Rewrites db g.grant db.messages rows ran);
            same_submissions = rw (is, audits.same_submissions) refl;
            marked = rw (is, audits.same_grants, same) refl;
            same_tasks = rw (is, audits.same_tasks) refl;
          })
    ]

pub revoke_grant-ok :
    (now : ℕ) (id : String) (version : Option ℕ) (p : Principal) (db db' : Db) (r : Revoked)
    → revoke_grant now id version p db ≡ ok (db', r)
    → ((r.replay ≡ true) × (db' ≡ db)) ⊎ RevokesGrant id now db db'
unfolding revoke_grant
revoke_grant-ok now id version p db db' r h = elim (Option-cases (find_grant id db.grants)) [
  | inl e ↦ absurd (ground arith)
  | inr (g, e) ↦
      revoked-RevokesGrant now id g db db' r g.grant.revoked_at e
        (find_grant-same_id id db.grants g e) (ground arith)
]

RevokedRow-Move :
    (db : Db) (g : Grant) (k : Key) (r r' : MessageRow)
    → find k db.messages ≡ some r
    → RevokedRow db g k r r'
    → Move quiet (view k db) (record (view k db) { message = some r' })
unfolding is_decision_reason_allowed
RevokedRow-Move db g k r r' found (inl (same, free)) = stay refl (ground arith)
RevokedRow-Move db g k r r' found (inr (is, queued, allowed)) =
    decide r Decision.revoked ReasonCode.revoked refl found allowed refl (ground arith)

pub revoke_grant-Move :
    (now : ℕ) (id : String) (version : Option ℕ) (p : Principal) (db db' : Db) (r : Revoked)
    → revoke_grant now id version p db ≡ ok (db', r)
    → (k : Key) → Move quiet (view k db) (view k db')
revoke_grant-Move now id version p db db' r h = elim (revoke_grant-ok now id version p db db' r h) [
  | inl same ↦ no_change db db' same.1
  | inr w ↦
      Rewrites-Move (RevokedRow db w.grant) db db' w.sweep w.same_submissions
        (RevokedRow-Move db w.grant)
]

-- ===== src/Lifecycle/Revocation.antt =====
-- A revoked grant and what can still be done under it.
use threadmesh.Prelude.{
  ℕ, ◌≡◌, sym, ap, ◌∙◌, ◌⊎◌, inl, inr, Bool, true, false, String, Option, some, List, arith, find,
  pair_eq, string_eq, nat_eq, Result, ok, Result-cases,
}
use threadmesh.Vocabulary.{is_present}
use threadmesh.Lifecycle.Authority.{IsCurrentlyAuthorized}
use threadmesh.Lifecycle.History.{Move-HasFollowed, Follows-refl}
use threadmesh.Lifecycle.Trace.{Event, after, dispatches}
use threadmesh.Coordinator.{Key, MessageRow, Db, Principal, Platform, Error}
use threadmesh.Coordinator.Grants.{install_grant, revoke_grant, Revoked}
use threadmesh.Coordinator.Calls.{
  registers, updates_state, updates_runtime, attaches, rotates, installs, revokes, expires, admits,
  confirms, task_is, was_revoked, were_expired, admission_is, Call, submits, claims, acknowledges,
  responds, fails, prepares, begins, records, reconciles, Response, was_begun, was_submitted,
  was_claimed, disposition_is, was_prepared, was_recorded, was_reconciled, answered, perform,
}
use threadmesh.Lifecycle.CallLocality.{answered-ok}
use threadmesh.Lifecycle.Sweeps.{revoke_grant-ok, revoke_grant-Move, RevokesGrant}
use threadmesh.Lifecycle.Expirations.{expire_due_messages-ExpiresDue}
use threadmesh.Lifecycle.GrantTable.{
  GrantsMove, same, marked, IsDead, GrantsMove-IsDead, mark_revoked-IsDead, latest_grant-IsDead,
  install_grant-GrantsMove,
}
use threadmesh.Lifecycle.GrantCalls.{
  submit-tables, claim_pending-tables, prepare-tables, begin-tables, record-tables,
  reconcile-tables, respond-tables, acknowledge-tables, fail-tables,
}
use threadmesh.Lifecycle.GrantAdministration.{
  KeepsGrants, register-grants, update_state-grants, update_runtime-grants, attach-grants,
  rotate-grants, admit-tables, confirm-tables,
}
use threadmesh.Lifecycle.Stopping.{stopped_dispatches}

keeping :
    {A : Type 0} (f : A → Response) (m : Result Error (Db × A)) (db db' : Db) (response : Response)
    → answered f m ≡ ok (db', response)
    → ((a : A) → m ≡ ok (db', a) → KeepsGrants db db')
    → GrantsMove db.grants db'.grants
keeping f m db db' response h keep =
    let (a, ran, e) = answered-ok f m db' response h in same (keep a ran)

RevokesGrant-GrantsMove :
    (id : String) (now : ℕ) (db db' : Db) (replay : Bool)
    → ((replay ≡ true) × (db' ≡ db)) ⊎ RevokesGrant id now db db'
    → GrantsMove db.grants db'.grants
RevokesGrant-GrantsMove id now db db' replay (inl (again, e)) = same (ap (λ d. d.grants) e)
RevokesGrant-GrantsMove id now db db' replay (inr r) = marked id now r.marked

-- A successful call leaves the table of grants, adds a grant, or marks one as revoked.
pub perform-GrantsMove :
    (x : Platform) (now : ℕ) (p : Principal) (call : Call) (db db' : Db) (response : Response)
    → perform x now p call db ≡ ok (db', response)
    → GrantsMove db.grants db'.grants
unfolding perform
perform-GrantsMove x now p (submits e) db db' r h =
    keeping was_submitted _ db db' r h λ a ran. (submit-tables x now e p db db' a ran).0
perform-GrantsMove x now p (claims key revision token) db db' r h =
    keeping was_claimed _ db db' r h
      λ a ran. (claim_pending-tables now key revision token p db db' a ran).0
perform-GrantsMove x now p (acknowledges key token d revision) db db' r h =
    keeping disposition_is _ db db' r h
      λ a ran. (acknowledge-tables now key token d revision p db db' a ran).0
perform-GrantsMove x now p (responds key d revision reason) db db' r h =
    keeping disposition_is _ db db' r h
      λ a ran. (respond-tables now key d revision reason p db db' a ran).0
perform-GrantsMove x now p (fails key revision reason) db db' r h =
    keeping disposition_is _ db db' r h
      λ a ran. (fail-tables x key revision reason p db db' a ran).0
perform-GrantsMove x now p (prepares key revision id idempotency_key) db db' r h =
    keeping was_prepared _ db db' r h
      λ a ran. (prepare-tables x now id idempotency_key key revision p db db' a ran).0
perform-GrantsMove x now p (begins id revision) db db' r h =
    keeping was_begun _ db db' r h λ a ran. (begin-tables x now id revision p db db' a ran).0
perform-GrantsMove x now p (records id revision receipt) db db' r h =
    keeping was_recorded _ db db' r h
      λ a ran. (record-tables x id revision receipt p db db' a ran).0
perform-GrantsMove x now p (reconciles id revision c) db db' r h =
    keeping was_reconciled _ db db' r h λ a ran. (reconcile-tables x id revision c p db db' a ran).0
perform-GrantsMove x now p (registers n) db db' r h =
    keeping task_is _ db db' r h λ a ran. register-grants n p db db' a ran
perform-GrantsMove x now p (updates_state ref state revision) db db' r h =
    keeping task_is _ db db' r h λ a ran. update_state-grants x ref state revision p db db' a ran
perform-GrantsMove x now p (updates_runtime ref runtime revision) db db' r h =
    keeping task_is _ db db' r h λ a ran. update_runtime-grants ref runtime revision p db db' a ran
perform-GrantsMove x now p (attaches ref text revision) db db' r h =
    keeping task_is _ db db' r h λ a ran. attach-grants ref text revision p db db' a ran
perform-GrantsMove x now p (rotates previous next revision) db db' r h =
    keeping task_is _ db db' r h λ a ran. rotate-grants now previous next revision p db db' a ran
perform-GrantsMove x now p (installs g) db db' r h = elim (Result-cases (install_grant x g p db)) [
  | inl (mid, ran) ↦ install_grant-GrantsMove x g p db db' (ground arith)
  | inr (e, failed) ↦ absurd (ground arith)
]
perform-GrantsMove x now p (revokes id version) db db' r h =
    let (a, ran, e) = answered-ok was_revoked _ db' r h in
    RevokesGrant-GrantsMove id now db db' _ (revoke_grant-ok now id version p db db' a ran)
perform-GrantsMove x now p (expires limit) db db' r h =
    keeping were_expired _ db db' r h
      λ a ran. (expire_due_messages-ExpiresDue x now limit p db db' a ran).same_grants
perform-GrantsMove x now p (admits key revision nonce) db db' r h =
    keeping admission_is _ db db' r h
      λ a ran. (admit-tables x now nonce key revision p db db' a ran).0
perform-GrantsMove x now p (confirms key revision token evidence provenance) db db' r h =
    keeping disposition_is _ db db' r h
      λ a ran. (confirm-tables x provenance key revision token evidence p db db' a ran).0

-- Nothing that is authorized under a dead grant.
IsCurrentlyAuthorized-dead :
    (db : Db) (now : ℕ) (row : MessageRow) (id : String)
    → IsCurrentlyAuthorized db now row
    → IsDead id db.grants
    → ¬ (row.grant_id ≡ id)
IsCurrentlyAuthorized-dead db now row id c d same_id =
    let (e, s, t, g, current, at, is, a) = c.authorized in
    let same : some c.grant ≡ some g = sym c.latest ∙ ap (λ i. i.grant) is in
    let revoked : is_present c.grant.revoked_at ≡ true =
      latest_grant-IsDead row.envelope db.grants c.grant id c.latest (c.same_grant ∙ same_id)
        d.all_revoked in
    ground (arith, a.not_revoked)

-- A revocation that is no replay leaves the grant dead.
revoke_grant-IsDead :
    (now : ℕ) (id : String) (version : Option ℕ) (p : Principal) (db db' : Db) (r : Revoked)
    → revoke_grant now id version p db ≡ ok (db', r)
    → r.replay ≡ false
    → IsDead id db'.grants
revoke_grant-IsDead now id version p db db' r h fresh =
    elim (revoke_grant-ok now id version p db db' r h) [
      | inl (again, is) ↦ absurd (ground arith)
      | inr w ↦ rw w.marked (mark_revoked-IsDead id now db.grants w.exists)
    ]

after-IsDead :
    (x : Platform) (e : Event) (id : String) (db : Db)
    → IsDead id db.grants
    → IsDead id (after x e db).grants
unfolding after
after-IsDead x e id db d = elim (Result-cases (perform x e.time e.principal e.call db)) [
  | inl ((db', response), ran) ↦ rw ran (
      GrantsMove-IsDead id db.grants db'.grants
        (perform-GrantsMove x e.time e.principal e.call db db' response ran) d)
  | inr (error, failed) ↦ rw failed d
]

-- Once a grant is revoked, no message that was stored under it is ever handed to the adapter again:
-- not by any later calls of any callers at any times, whatever grants are installed later.
pub revoke_grant_stops_dispatch :
    (x : Platform) (now : ℕ) (id : String) (version : Option ℕ) (p : Principal) (db db' : Db)
    (r : Revoked) (k : Key) (row : MessageRow)
    → revoke_grant now id version p db ≡ ok (db', r)
    → r.replay ≡ false
    → find k db.messages ≡ some row
    → row.grant_id ≡ id
    → (es : List Event) → dispatches x k es db' ≡ 0
revoke_grant_stops_dispatch x now id version p db db' r k row revoked_ok fresh stored same_id es =
    stopped_dispatches x k row (λ d. IsDead id d.grants) (λ e d. after-IsDead x e id d)
      (λ d at later dead follows c.
        IsCurrentlyAuthorized-dead d at later id c dead (follows.same_grant ∙ same_id))
      es db' (revoke_grant-IsDead now id version p db db' r revoked_ok fresh)
      (Move-HasFollowed row _ _ _ (revoke_grant-Move now id version p db db' r revoked_ok k)
        (row, stored, Follows-refl row))

-- ===== src/Lifecycle/Refinement.antt =====
-- The calls of the coordinator as moves of the specification.
use threadmesh.Prelude.{
  ℕ, ◌≡◌, sym, inl, inr, Result-cases, Bool, true, false, Option, none, some, arith, Result, ok,
}
use mathlib.Core.Path.{subst}
use threadmesh.Coordinator.{Key, Db, Principal, Platform, Error}
use threadmesh.Coordinator.Submissions.{submission_key}
use threadmesh.Coordinator.Attempts.{Begun}
use threadmesh.Coordinator.Calls.{
  registers, updates_state, updates_runtime, attaches, rotates, installs, revokes, expires, admits,
  confirms, task_is, was_revoked, were_expired, admission_is, Call, submits, claims, acknowledges,
  responds, fails, prepares, begins, records, reconciles, Response, was_begun, was_submitted,
  was_claimed, disposition_is, was_prepared, was_recorded, was_reconciled, answered, perform,
}
use threadmesh.Lifecycle.Writes.{no-Move}
use threadmesh.Lifecycle.Locality.{is_about, IsLocal}
use threadmesh.Lifecycle.CallLocality.{answered-ok, perform-IsLocal}
use threadmesh.Lifecycle.Administration.{
  KeepsMail, register_task-KeepsMail, update_task_state-KeepsMail, update_task_runtime-KeepsMail,
  attach_task-KeepsMail, rotate_task_incarnation-KeepsMail, install_grant-KeepsMail,
}
use threadmesh.Coordinator.Grants.{install_grant}
use threadmesh.Lifecycle.Sweeps.{revoke_grant-Move}
use threadmesh.Lifecycle.Expirations.{expire_due_messages-Move}
use threadmesh.Lifecycle.Admission.{
  prepare_context_admission-KeepsMail, confirm_context_admission-Move,
}
use threadmesh.Lifecycle.Mailbox.{submit-Move, respond-Move, fail_delivery-Move}
use threadmesh.Lifecycle.Claims.{claim_pending-Move, acknowledge_pending-Move}
use threadmesh.Lifecycle.Prepare.{prepare-Move}
use threadmesh.Lifecycle.Submissions.{begin-Move, begin_label}
use threadmesh.Lifecycle.Receipts.{record-Move}
use threadmesh.Lifecycle.Reconcile.{reconcile-Move, resolution_label, label_by_id}
use threadmesh.Lifecycle.{view, Label, quiet, dispatched, Move}

abbrev pub begun_label : Bool → Label
begun_label true = quiet
begun_label false = dispatched

-- What a successful call tells the world about a message: a begin that is no replay hands it to the
-- adapter, and a reconciliation as not submitted frees it.
abbrev pub label_of : Db → Call → Response → Key → Label
label_of db (begins id revision) (was_begun b) k =
    label_by_id (submission_key id db.submissions) (begun_label b.replay) k
label_of db (reconciles id revision r) (was_reconciled s) k =
    label_by_id (submission_key id db.submissions) (resolution_label r.resolution) k
label_of db call response k = quiet

-- A move of a call whose response carries no label.
quiet_call :
    {A : Type 0} (f : A → Response) (m : Result Error (Db × A)) (db db' : Db) (response : Response)
    (k : Key) (l : Response → Label)
    → answered f m ≡ ok (db', response)
    → ((a : A) → m ≡ ok (db', a) → Move (l (f a)) (view k db) (view k db'))
    → Move (l response) (view k db) (view k db')
quiet_call f m db db' response k l h move =
    let (a, ran, e) = answered-ok f m db' response h in
    subst (λ r. Move (l r) (view k db) (view k db')) (sym e) (move a ran)

begin_label-agrees :
    (o : Option Key) (key : Key) (b : Begun) (k : Key)
    → o ≡ some key
    → begin_label key b k ≡ label_by_id o (begun_label b.replay) k
begin_label-agrees none key b k h = absurd (ground arith)
begin_label-agrees (some j) key b k h = ground arith

KeepsMail-Move : (db db' : Db) → KeepsMail db db' → (k : Key) → Move quiet (view k db) (view k db')
KeepsMail-Move db db' w k = no-Move db db' w.same_messages w.same_submissions k

-- The move of each call, for every message.
moved :
    (x : Platform) (now : ℕ) (p : Principal) (call : Call) (db db' : Db) (response : Response)
    → perform x now p call db ≡ ok (db', response)
    → (k : Key) → Move (label_of db call response k) (view k db) (view k db')
unfolding perform
moved x now p (submits e) db db' response h k =
    quiet_call was_submitted _ db db' response k (λ r. label_of db (submits e) r k) h
      λ a ran. submit-Move x now e p db db' a ran k
moved x now p (claims key revision token) db db' response h k =
    quiet_call was_claimed _ db db' response k (λ r. label_of db (claims key revision token) r k) h
      λ a ran. claim_pending-Move now key revision token p db db' a ran k
moved x now p (acknowledges key token d revision) db db' response h k =
    quiet_call disposition_is _ db db' response k
      (λ r. label_of db (acknowledges key token d revision) r k) h
      λ a ran. acknowledge_pending-Move now key token d revision p db db' a ran k
moved x now p (responds key d revision reason) db db' response h k =
    quiet_call disposition_is _ db db' response k
      (λ r. label_of db (responds key d revision reason) r k) h
      λ a ran. respond-Move now key d revision reason p db db' a ran k
moved x now p (fails key revision reason) db db' response h k =
    quiet_call disposition_is _ db db' response k (λ r. label_of db (fails key revision reason) r k)
      h λ a ran. fail_delivery-Move x key revision reason p db db' a ran k
moved x now p (prepares key revision id idempotency_key) db db' response h k =
    quiet_call was_prepared _ db db' response k
      (λ r. label_of db (prepares key revision id idempotency_key) r k) h
      λ a ran. prepare-Move x now id idempotency_key key revision p db db' a ran k
moved x now p (begins id revision) db db' response h k =
    quiet_call was_begun _ db db' response k (λ r. label_of db (begins id revision) r k) h
      λ b ran.
        let (key, found, moves) = begin-Move x now id revision p db db' b ran in
        subst (λ l. Move l (view k db) (view k db'))
          (begin_label-agrees (submission_key id db.submissions) key b k found) (moves k)
moved x now p (records id revision receipt) db db' response h k =
    quiet_call was_recorded _ db db' response k (λ r. label_of db (records id revision receipt) r k)
      h λ a ran. record-Move x id revision receipt p db db' a ran k
moved x now p (reconciles id revision r) db db' response h k =
    quiet_call was_reconciled _ db db' response k (λ q. label_of db (reconciles id revision r) q k)
      h λ a ran. reconcile-Move x id revision r p db db' a ran k
moved x now p (registers n) db db' response h k =
    quiet_call task_is _ db db' response k (λ r. label_of db (registers n) r k) h
      λ a ran. KeepsMail-Move db db' (register_task-KeepsMail n p db db' a ran) k
moved x now p (updates_state ref state revision) db db' response h k =
    quiet_call task_is _ db db' response k (λ r. label_of db (updates_state ref state revision) r k)
      h
      λ a ran.
        KeepsMail-Move db db' (update_task_state-KeepsMail x ref state revision p db db' a ran) k
moved x now p (updates_runtime ref runtime revision) db db' response h k =
    quiet_call task_is _ db db' response k
      (λ r. label_of db (updates_runtime ref runtime revision) r k) h
      λ a ran.
        KeepsMail-Move db db' (update_task_runtime-KeepsMail ref runtime revision p db db' a ran) k
moved x now p (attaches ref text revision) db db' response h k =
    quiet_call task_is _ db db' response k (λ r. label_of db (attaches ref text revision) r k) h
      λ a ran. KeepsMail-Move db db' (attach_task-KeepsMail ref text revision p db db' a ran) k
moved x now p (rotates previous next revision) db db' response h k =
    quiet_call task_is _ db db' response k (λ r. label_of db (rotates previous next revision) r k) h
      λ a ran.
        KeepsMail-Move db db'
          (rotate_task_incarnation-KeepsMail now previous next revision p db db' a ran) k
moved x now p (installs g) db db' response h k = elim (Result-cases (install_grant x g p db)) [
  | inl (mid, ran) ↦ KeepsMail-Move db db' (install_grant-KeepsMail x g p db db' (ground arith)) k
  | inr (e, failed) ↦ absurd (ground arith)
]
moved x now p (revokes id version) db db' response h k =
    quiet_call was_revoked _ db db' response k (λ r. label_of db (revokes id version) r k) h
      λ a ran. revoke_grant-Move now id version p db db' a ran k
moved x now p (expires limit) db db' response h k =
    quiet_call were_expired _ db db' response k (λ r. label_of db (expires limit) r k) h
      λ a ran. expire_due_messages-Move x now limit p db db' a ran k
moved x now p (admits key revision nonce) db db' response h k =
    quiet_call admission_is _ db db' response k (λ r. label_of db (admits key revision nonce) r k) h
      λ a ran.
        KeepsMail-Move db db'
          (prepare_context_admission-KeepsMail x now nonce key revision p db db' a ran) k
moved x now p (confirms key revision token evidence provenance) db db' response h k =
    quiet_call disposition_is _ db db' response k
      (λ r. label_of db (confirms key revision token evidence provenance) r k) h
      λ a ran.
        confirm_context_admission-Move x provenance key revision token evidence p db db' a ran k

-- A successful call, whatever it is, moves every message as the specification allows: by a move with
-- the label that the call shows for that message, which is quiet for a message that the call is not
-- about; and the rows of a message that the call is not about stay as they are. A revocation and an
-- expiry may be about every message, a call by submission id about the message of that submission, a
-- claim and the preparation of an admission about none, and any other call about the message that it
-- names, if any.
pub perform-Move :
    (x : Platform) (now : ℕ) (p : Principal) (call : Call) (db db' : Db) (response : Response)
    → perform x now p call db ≡ ok (db', response)
    → (k : Key)
    → Move (label_of db call response k) (view k db) (view k db')
      × IsLocal (is_about db call k) db db' k
perform-Move x now p call db db' response h k =
    (moved x now p call db db' response h k, perform-IsLocal x now p call db db' response h k)

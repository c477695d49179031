-- ===== src/Lifecycle/CallLocality.antt =====
-- Each call of the coordinator leaves the rows of the messages that it is not about.
use threadmesh.Prelude.{ℕ, ◌≡◌, inl, inr, refl, Result-cases, Bool, arith, Result, ok, err}
use threadmesh.Coordinator.{Key, Db, Principal, Platform, Error}
use threadmesh.Coordinator.Calls.{
  registers, updates_state, updates_runtime, attaches, rotates, installs, revokes, expires, admits,
  confirms, task_is, admission_is, Call, submits, claims, acknowledges, responds, fails, prepares,
  begins, records, reconciles, Response, was_begun, was_submitted, was_claimed, disposition_is,
  was_prepared, was_recorded, was_reconciled, answered, perform,
}
use threadmesh.Lifecycle.Locality.{is_about, IsLocal}
use threadmesh.Lifecycle.Locality.{
  submit-IsLocal, respond-IsLocal, fail_delivery-IsLocal, acknowledge-IsLocal, confirm-IsLocal,
}
use threadmesh.Lifecycle.Claims.{claim_pending-keeps}
use threadmesh.Lifecycle.AttemptLocality.{
  prepare-IsLocal, begin-IsLocal, record-IsLocal, reconcile-IsLocal,
}
use threadmesh.Lifecycle.Writes.{unchanged_view}
use threadmesh.Lifecycle.Administration.{
  KeepsMail, register_task-KeepsMail, update_task_state-KeepsMail, update_task_runtime-KeepsMail,
  attach_task-KeepsMail, rotate_task_incarnation-KeepsMail, install_grant-KeepsMail,
}
use threadmesh.Coordinator.Grants.{install_grant}
use threadmesh.Lifecycle.Admission.{prepare_context_admission-KeepsMail}

pub answered-ok :
    {A : Type 0} (f : A → Response) (m : Result Error (Db × A)) (db' : Db) (response : Response)
    → answered f m ≡ ok (db', response)
    → (a : A) × (m ≡ ok (db', a)) × (response ≡ f a)
answered-ok f (ok (db, a)) db' response h = (a, ground arith, ground arith)
answered-ok f (err e) db' response h = absurd (ground arith)

IsLocal-call :
    {A : Type 0} (f : A → Response) (m : Result Error (Db × A)) (about : Bool) (db db' : Db)
    (response : Response) (k : Key)
    → answered f m ≡ ok (db', response)
    → ((a : A) → m ≡ ok (db', a) → IsLocal about db db' k)
    → IsLocal about db db' k
IsLocal-call f m about db db' response k h step =
    let (a, ran, e) = answered-ok f m db' response h in step a ran

KeepsMail-IsLocal :
    (about : Bool) (db db' : Db) (k : Key) → KeepsMail db db' → IsLocal about db db' k
KeepsMail-IsLocal about db db' k w =
    inr (unchanged_view db db' w.same_messages w.same_submissions k)

pub perform-IsLocal :
    (x : Platform) (now : ℕ) (p : Principal) (call : Call) (db db' : Db) (response : Response)
    → perform x now p call db ≡ ok (db', response)
    → (k : Key) → IsLocal (is_about db call k) db db' k
unfolding perform
perform-IsLocal x now p (submits e) db db' response h k =
    IsLocal-call was_submitted _ _ db db' response k h
      λ a ran. submit-IsLocal x now e p db db' a ran k
perform-IsLocal x now p (claims key revision token) db db' response h k =
    IsLocal-call was_claimed _ _ db db' response k h λ a ran.
      let (m, s) = claim_pending-keeps now key revision token p db db' a ran in
      inr (unchanged_view db db' m s k)
perform-IsLocal x now p (acknowledges key token d revision) db db' response h k =
    IsLocal-call disposition_is _ _ db db' response k h
      λ a ran. acknowledge-IsLocal now key token d revision p db db' a ran k
perform-IsLocal x now p (responds key d revision reason) db db' response h k =
    IsLocal-call disposition_is _ _ db db' response k h
      λ a ran. respond-IsLocal now key d revision reason p db db' a ran k
perform-IsLocal x now p (fails key revision reason) db db' response h k =
    IsLocal-call disposition_is _ _ db db' response k h
      λ a ran. fail_delivery-IsLocal x key revision reason p db db' a ran k
perform-IsLocal x now p (prepares key revision id idempotency_key) db db' response h k =
    IsLocal-call was_prepared _ _ db db' response k h
      λ a ran. prepare-IsLocal x now id idempotency_key key revision p db db' a ran k
perform-IsLocal x now p (begins id revision) db db' response h k =
    IsLocal-call was_begun _ _ db db' response k h
      λ a ran. begin-IsLocal x now id revision p db db' a ran k
perform-IsLocal x now p (records id revision receipt) db db' response h k =
    IsLocal-call was_recorded _ _ db db' response k h
      λ a ran. record-IsLocal x id revision receipt p db db' a ran k
perform-IsLocal x now p (reconciles id revision r) db db' response h k =
    IsLocal-call was_reconciled _ _ db db' response k h
      λ a ran. reconcile-IsLocal x id revision r p db db' a ran k
perform-IsLocal x now p (registers n) db db' response h k =
    IsLocal-call task_is _ _ db db' response k h
      λ a ran. KeepsMail-IsLocal _ db db' k (register_task-KeepsMail n p db db' a ran)
perform-IsLocal x now p (updates_state ref state revision) db db' response h k =
    IsLocal-call task_is _ _ db db' response k h λ a ran.
      KeepsMail-IsLocal _ db db' k (update_task_state-KeepsMail x ref state revision p db db' a ran)
perform-IsLocal x now p (updates_runtime ref runtime revision) db db' response h k =
    IsLocal-call task_is _ _ db db' response k h λ a ran.
      KeepsMail-IsLocal _ db db' k
        (update_task_runtime-KeepsMail ref runtime revision p db db' a ran)
perform-IsLocal x now p (attaches ref text revision) db db' response h k =
    IsLocal-call task_is _ _ db db' response k h
      λ a ran. KeepsMail-IsLocal _ db db' k (attach_task-KeepsMail ref text revision p db db' a ran)
perform-IsLocal x now p (rotates previous next revision) db db' response h k =
    IsLocal-call task_is _ _ db db' response k h λ a ran.
      KeepsMail-IsLocal _ db db' k
        (rotate_task_incarnation-KeepsMail now previous next revision p db db' a ran)
perform-IsLocal x now p (installs g) db db' response h k =
    elim (Result-cases (install_grant x g p db)) [
      | inl (mid, ran) ↦
          KeepsMail-IsLocal _ db db' k (install_grant-KeepsMail x g p db db' (ground arith))
      | inr (e, failed) ↦ absurd (ground arith)
    ]
perform-IsLocal x now p (revokes id version) db db' response h k = inl refl
perform-IsLocal x now p (expires limit) db db' response h k = inl refl
perform-IsLocal x now p (admits key revision nonce) db db' response h k =
    IsLocal-call admission_is _ _ db db' response k h λ a ran.
      KeepsMail-IsLocal _ db db' k
        (prepare_context_admission-KeepsMail x now nonce key revision p db db' a ran)
perform-IsLocal x now p (confirms key revision token evidence provenance) db db' response h k =
    IsLocal-call disposition_is _ _ db db' response k h
      λ a ran. confirm-IsLocal x provenance key revision token evidence p db db' a ran k

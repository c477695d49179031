-- ===== src/Coordinator/Calls.antt =====
-- The calls of the coordinator that are modelled, as one step: a call at a time, on a database.
use threadmesh.Prelude.{ℕ, Bool, String, Option, Result, ok, ◌>>=◌}
use threadmesh.Vocabulary.{TaskRef}
use threadmesh.States.{Decision, ReasonCode}
use threadmesh.Policy.{Envelope}
use threadmesh.Coordinator.{
  Key, Disposition, Db, Principal, Error, Platform, Receipt, SubmissionRow, TaskRow, GrantDocument,
}
use threadmesh.Coordinator.Tasks.{
  NewTask, Runtime, register_task, update_task_state, update_task_runtime, attach_task,
  rotate_task_incarnation,
}
use threadmesh.Coordinator.Grants.{Revoked, install_grant, revoke_grant}
use threadmesh.Coordinator.Expiry.{Expired, expire_due_messages}
use threadmesh.Coordinator.Admission.{
  Admission, AdapterEvidence, prepare_context_admission, confirm_context_admission,
}
use threadmesh.Coordinator.Mailbox.{Submitted, submit, respond, fail_delivery}
use threadmesh.Coordinator.Claims.{Claimed, claim_pending, acknowledge_pending}
use threadmesh.Coordinator.Submissions.{Prepared, prepare_adapter_submission}
use threadmesh.Coordinator.Attempts.{
  Begun, Recorded, Reconciliation, begin_adapter_submission, record_adapter_receipt,
  reconcile_adapter_submission,
}

pub data Call : Type 0 where
  submits : Envelope → Call
  claims : Key → ℕ → String → Call
  acknowledges : Key → String → Decision → ℕ → Call
  responds : Key → Decision → ℕ → ReasonCode → Call
  fails : Key → ℕ → String → Call
  prepares : Key → ℕ → String → String → Call
  begins : String → ℕ → Call
  records : String → ℕ → Receipt → Call
  reconciles : String → ℕ → Reconciliation → Call
  registers : NewTask → Call
  updates_state : TaskRef → String → ℕ → Call
  updates_runtime : TaskRef → Runtime → ℕ → Call
  attaches : TaskRef → String → ℕ → Call
  rotates : TaskRef → NewTask → ℕ → Call
  installs : GrantDocument → Call
  revokes : String → Option ℕ → Call
  expires : ℕ → Call
  admits : Key → ℕ → String → Call
  confirms : Key → ℕ → String → AdapterEvidence → Bool → Call

pub data Response : Type 0 where
  was_submitted : Submitted → Response
  was_claimed : Claimed → Response
  disposition_is : Disposition → Response
  was_prepared : Prepared → Response
  was_begun : Begun → Response
  was_recorded : Recorded → Response
  was_reconciled : SubmissionRow → Response
  task_is : TaskRow → Response
  was_installed : Response
  was_revoked : Revoked → Response
  were_expired : Expired → Response
  admission_is : Admission → Response

abbrev pub answered :
    {A : Type 0} → (A → Response) → Result Error (Db × A) → Result Error (Db × Response)
answered f r = r >>= λ q. ok (q.0, f q.1)

unfoldable pub perform : Platform → ℕ → Principal → Call → Db → Result Error (Db × Response)
perform x now principal (submits e) db = answered was_submitted (submit x now e principal db)
perform x now principal (claims key revision token) db =
    answered was_claimed (claim_pending now key revision token principal db)
perform x now principal (acknowledges key token decision revision) db =
    answered disposition_is (acknowledge_pending now key token decision revision principal db)
perform x now principal (responds key decision revision reason) db =
    answered disposition_is (respond now key decision revision reason principal db)
perform x now principal (fails key revision reason) db =
    answered disposition_is (fail_delivery x key revision reason principal db)
perform x now principal (prepares key revision id idempotency_key) db =
    answered was_prepared
      (prepare_adapter_submission x now id idempotency_key key revision principal db)
perform x now principal (begins id revision) db =
    answered was_begun (begin_adapter_submission x now id revision principal db)
perform x now principal (records id revision receipt) db =
    answered was_recorded (record_adapter_receipt x id revision receipt principal db)
perform x now principal (reconciles id revision r) db =
    answered was_reconciled (reconcile_adapter_submission x id revision r principal db)
perform x now principal (registers n) db = answered task_is (register_task n principal db)
perform x now principal (updates_state ref state revision) db =
    answered task_is (update_task_state x ref state revision principal db)
perform x now principal (updates_runtime ref runtime revision) db =
    answered task_is (update_task_runtime ref runtime revision principal db)
perform x now principal (attaches ref adapter_ref revision) db =
    answered task_is (attach_task ref adapter_ref revision principal db)
perform x now principal (rotates previous next revision) db =
    answered task_is (rotate_task_incarnation now previous next revision principal db)
perform x now principal (installs g) db =
    install_grant x g principal db >>= λ db'. ok (db', was_installed)
perform x now principal (revokes id version) db =
    answered was_revoked (revoke_grant now id version principal db)
perform x now principal (expires limit) db =
    answered were_expired (expire_due_messages x now limit principal db)
perform x now principal (admits key revision nonce) db =
    answered admission_is (prepare_context_admission x now nonce key revision principal db)
perform x now principal (confirms key revision token evidence provenance) db =
    answered disposition_is
      (confirm_context_admission x provenance key revision token evidence principal db)

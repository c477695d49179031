-- ===== src/Lifecycle/Authority.antt =====
-- Who may start an attempt, and under what authority.
use threadmesh.Prelude.{
  ℕ, ◌≡◌, refl, true, String, some, arith, pair_eq, string_eq, nat_eq, Result, ok, err,
}
use threadmesh.States.{Decision, decision_eq}
use threadmesh.Vocabulary.{same_task_ref_iff}
use threadmesh.Policy.{Envelope, Grant, Verdict, evaluate_relationship_policy}
use threadmesh.Policy.Soundness.{IsAuthorized, allow_iff}
use threadmesh.Policy.Checks.{NotPassed, has_passed_iff}
use threadmesh.Coordinator.{
  Key, MessageRow, SubmissionRow, Db, Principal, task, user, policy, Error, Platform,
  is_task_principal, latest_grant, policy_input, granted_or_denied, active_grant_for,
  assert_current_authorization,
}
use threadmesh.Coordinator.Attempts.{Begun, begin_adapter_submission}
use threadmesh.Lifecycle.Submissions.{Rows, swm_ok}

-- The grant that is the latest of the message's channel now, and that the message was stored under.
pub record IsCurrentlyAuthorized (db : Db) (now : ℕ) (row : MessageRow) : Type 0 where
  pub authorized : IsAuthorized (policy_input db now row.envelope)
  pub grant : Grant
  pub latest : latest_grant row.envelope db.grants ≡ some grant
  pub same_grant : grant.grant_id ≡ row.grant_id
  pub same_version : grant.grant_version ≡ row.grant_version

active_grant_for-IsAuthorized :
    (db : Db) (now : ℕ) (e : Envelope) (g : Grant)
    → active_grant_for db now e ≡ ok g
    → IsAuthorized (policy_input db now e) × (latest_grant e db.grants ≡ some g)
unfolding active_grant_for
active_grant_for-IsAuthorized db now e g h =
    go (evaluate_relationship_policy (policy_input db now e)).decision refl h
  where
    go :
        (v : Verdict)
        → (evaluate_relationship_policy (policy_input db now e)).decision ≡ v
        → granted_or_denied v (latest_grant e db.grants) ≡ ok g
        → IsAuthorized (policy_input db now e) × (latest_grant e db.grants ≡ some g)
    go Verdict.allow allowed granted = ((allow_iff (policy_input db now e)).0 allowed, ground arith)
    go Verdict.deny allowed granted = absurd (ground arith)

assert_current_authorization-IsCurrentlyAuthorized :
    (db : Db) (now : ℕ) (row : MessageRow)
    → assert_current_authorization db now row ≡ ok tt
    → IsCurrentlyAuthorized db now row
unfolding assert_current_authorization
assert_current_authorization-IsCurrentlyAuthorized db now row h =
    go (active_grant_for db now row.envelope) refl
  where
    go :
        (m : Result Error Grant)
        → active_grant_for db now row.envelope ≡ m
        → IsCurrentlyAuthorized db now row
    go (err e) ran = absurd (ground arith)
    go (ok g) ran =
        let (authorized, latest) = active_grant_for-IsAuthorized db now row.envelope g ran in
        record {
          authorized = authorized;
          grant = g;
          latest = latest;
          same_grant = ground (arith, string_eq.beq_iff g.grant_id row.grant_id);
          same_version = ground (arith, nat_eq.beq_iff g.grant_version row.grant_version);
        }

is_task_principal_sound :
    (p : Principal) (row : MessageRow)
    → is_task_principal p row.envelope.target ≡ true
    → p ≡ task row.envelope.target
unfolding is_task_principal
is_task_principal_sound (task ref) row h = ground (arith, same_task_ref_iff ref row.envelope.target)
is_task_principal_sound (user name) row h = absurd (ground arith)
is_task_principal_sound (policy name) row h = absurd (ground arith)

-- What holds of the rows when an attempt is begun.
pub record MayBegin (db : Db) (now : ℕ) (p : Principal) (s : SubmissionRow) (row : MessageRow)
    : Type 0 where
  pub by_target : p ≡ task row.envelope.target
  pub currently_authorized : IsCurrentlyAuthorized db now row
  pub not_expired : NotPassed (some row.envelope.expires_at) now
  pub accepted : row.disposition.decision ≡ Decision.accepted
  pub at_revision : s.expected_revision ≡ row.disposition.revision

-- An attempt is begun (or its begin repeated) only by the target task of the message, of an
-- accepted message that has not expired, at the revision that the submission was prepared at, and
-- only while the policy authorizes the message under the latest grant of its channel, which is the
-- grant and the version that the message was stored under.
pub begin_adapter_submission-MayBegin :
    (x : Platform) (now : ℕ) (id : String) (revision : ℕ) (p : Principal) (db db' : Db) (b : Begun)
    → begin_adapter_submission x now id revision p db ≡ ok (db', b)
    → (key : Key) × (s : SubmissionRow) × (row : MessageRow) × Rows db id key s row
      × MayBegin db now p s row
unfolding begin_adapter_submission
begin_adapter_submission-MayBegin x now id revision p db db' b h =
    let (key, s, row, rows, ran) = swm_ok db id _ _ h in
    (
      key,
      s,
      row,
      rows,
      record {
        by_target = is_task_principal_sound p row (ground arith);
        currently_authorized =
            assert_current_authorization-IsCurrentlyAuthorized db now row (ground arith);
        not_expired = (has_passed_iff (some row.envelope.expires_at) now).0 (ground arith);
        accepted = ground (arith, decision_eq.beq_iff row.disposition.decision Decision.accepted);
        at_revision = ground (
          arith,
          nat_eq.beq_iff row.disposition.revision revision,
          nat_eq.beq_iff s.expected_revision revision,
        );
      },
    )

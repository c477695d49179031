-- ===== src/Lifecycle.antt =====
-- The life of one message, as the coordinator promises it: what a caller may see of the message and
-- of its adapter submission, and the moves between such views.
pub mod Writes
pub mod Mailbox
pub mod Submissions
pub mod Prepare
pub mod Receipts
pub mod Reconcile
pub mod Claims
pub mod Administration
pub mod Sweeps
pub mod Expirations
pub mod Admission
pub mod Locality
pub mod AttemptLocality
pub mod CallLocality
pub mod Refinement
pub mod Trace
pub mod Consistency
pub mod History
pub mod Stranded
pub mod GrantCalls
pub mod GrantAdministration
pub mod Stopping
pub mod Revocation
pub mod TaskTable
pub mod Retirement
pub mod Recovery
pub mod Swept
pub mod Overdue
pub mod GrantTable
pub mod Authority
use threadmesh.Prelude.{
  ℕ, ◌≡◌, Bool, true, false, String, Option, none, some, List, find, pair_eq, string_eq,
}
use threadmesh.States.{Delivery, Decision, ReasonCode}
use threadmesh.Disposition.{Machine, is_disposition_transition_allowed, is_decision_reason_allowed}
use threadmesh.Coordinator.{
  Key, MessageRow, SubmissionState, prepared, outcome_unknown, confirmed_not_submitted,
  manual_reconciliation, receipt_recorded, SubmissionRow, Db,
}
use threadmesh.Coordinator.Mailbox.{received, decided, delivery_failed, is_in_doubt}
use threadmesh.Coordinator.Expiry.{expired, has_unknown_outcome}
use threadmesh.Coordinator.Admission.{admitted}
use threadmesh.Coordinator.Attempts.{attempt_started, submitted, reconciled}

-- The rows of one message.
pub record View : Type 0 where
  pub message : Option MessageRow
  pub submission : Option SubmissionRow

abbrev pub view : Key → Db → View
view key db = record { message = find key db.messages; submission = find key db.submissions }

-- Whether a new submission may be prepared: there is none, or it was confirmed as not submitted.
abbrev pub is_free : Option SubmissionRow → Bool
is_free none = true
is_free (some s) = elim s.state [ confirmed_not_submitted ↦ true | _ ↦ false ]

-- What a move tells the world outside.
pub data Label : Type 0 where
  quiet dispatched released : Label

-- A message that its receiver accepted, and that may still go to the adapter.
pub record IsSubmittable (row : MessageRow) : Type 0 where
  pub accepted : row.disposition.decision ≡ Decision.accepted
  pub deliverable :
      is_disposition_transition_allowed Machine.delivery row.disposition.delivery
        Delivery.adapter_submitted
      ≡ true

pub data Move (l : Label) (v w : View) : Type 0 where
  stay : l ≡ quiet → w ≡ v → Move l v w
  arrive :
      (row : MessageRow)
      → l ≡ quiet
      → v.message ≡ none
      → row.disposition ≡ received
      → w ≡ record v { message = some row }
      → Move l v w
  decide :
      (row : MessageRow) (d : Decision) (reason : ReasonCode)
      → l ≡ quiet
      → v.message ≡ some row
      → is_disposition_transition_allowed Machine.decision row.disposition.decision d ≡ true
      → is_decision_reason_allowed d reason ≡ true
      → w ≡ record v {
        message = some (record row { disposition = decided d reason row.disposition });
      }
      → Move l v w
  fail :
      (row : MessageRow) (reason : String)
      → l ≡ quiet
      → v.message ≡ some row
      → is_disposition_transition_allowed Machine.delivery row.disposition.delivery Delivery.failed
        ≡ true
      → is_in_doubt v.submission ≡ false
      → w ≡ record v {
        message = some (record row { disposition = delivery_failed reason row.disposition });
      }
      → Move l v w
  expire :
      (row : MessageRow)
      → l ≡ quiet
      → v.message ≡ some row
      → is_disposition_transition_allowed Machine.delivery row.disposition.delivery Delivery.expired
        ≡ true
      → has_unknown_outcome v.submission ≡ false
      → w ≡ record v { message = some (record row { disposition = expired row.disposition }) }
      → Move l v w
  admit :
      (row : MessageRow)
      → l ≡ quiet
      → v.message ≡ some row
      → row.disposition.decision ≡ Decision.accepted
      → is_disposition_transition_allowed Machine.delivery row.disposition.delivery
          Delivery.context_admitted
        ≡ true
      → w ≡ record v { message = some (record row { disposition = admitted row.disposition }) }
      → Move l v w
  prepare :
      (row : MessageRow) (s : SubmissionRow)
      → l ≡ quiet
      → v.message ≡ some row
      → IsSubmittable row
      → is_free v.submission ≡ true
      → s.state ≡ prepared
      → s.expected_revision ≡ row.disposition.revision
      → w ≡ record v { submission = some s }
      → Move l v w
  begin :
      (row : MessageRow) (s : SubmissionRow)
      → l ≡ dispatched
      → v.message ≡ some row
      → v.submission ≡ some s
      → IsSubmittable row
      → s.state ≡ prepared
      → s.expected_revision ≡ row.disposition.revision
      → w ≡ record v { submission = some (attempt_started s) }
      → Move l v w
  acknowledge :
      (row : MessageRow) (s : SubmissionRow) (receipt : String)
      → l ≡ quiet
      → v.message ≡ some row
      → v.submission ≡ some s
      → IsSubmittable row
      → s.state ≡ outcome_unknown
      → s.expected_revision ≡ row.disposition.revision
      → w ≡ record {
        message = some (record row { disposition = submitted row.disposition });
        submission = some (record s { state = receipt_recorded; receipt_json = some receipt });
      }
      → Move l v w
  release :
      (row : MessageRow) (s : SubmissionRow) (refs : List String)
      → l ≡ released
      → v.message ≡ some row
      → v.submission ≡ some s
      → s.state ≡ outcome_unknown
      → s.expected_revision ≡ row.disposition.revision
      → w ≡ record v { submission = some (reconciled confirmed_not_submitted refs s) }
      → Move l v w
  escalate :
      (row : MessageRow) (s : SubmissionRow) (refs : List String)
      → l ≡ quiet
      → v.message ≡ some row
      → v.submission ≡ some s
      → s.state ≡ outcome_unknown
      → s.expected_revision ≡ row.disposition.revision
      → w ≡ record v { submission = some (reconciled manual_reconciliation refs s) }
      → Move l v w

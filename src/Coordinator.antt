-- ===== src/Coordinator.antt =====
-- The state of the coordinator (src/coordinator/sqlite-coordinator.mjs): the tables of its database
-- that the life of a message touches, the checks that its methods share, and its errors.
-- A row of `messages` and the row of `dispositions` with the same primary key are one row here, since
-- they are inserted together and always read by a join. A method is a function from the database to
-- the new database and the response, or an error; it runs in one immediate transaction, so an error
-- leaves the database as it was. `clock()` is read once for a call, and is its argument `now`.
pub mod Mailbox
pub mod Calls
pub mod Claims
pub mod Attempts
pub mod Submissions
pub mod Tasks
pub mod Grants
pub mod Expiry
pub mod Admission
use threadmesh.Prelude.{
  ℕ, zero, suc, ◌+◌, ◌≡◌, Bool, true, false, not, ◌&&◌, ◌||◌, String, Option, none, some, List, [],
  ◌∷◌, Eq, ◌==◌, string_eq, nat_eq, pair_eq, nat_beq, ltb, Result, ok, err, ◌>>=◌, ◌>>◌, throw_if,
  or_throw, if◌then◌else◌, find, includes,
}
use threadmesh.States.{
  Delivery, Decision, Outcome, ReasonCode, delivery_eq, decision_eq, outcome_eq, reason_eq,
}
use threadmesh.Vocabulary.{
  TaskRef, same_task_ref, Instant, instant_le, is_present, ActorType, actor_type_eq,
}
use threadmesh.Disposition.{Machine, is_disposition_transition_allowed}
use threadmesh.Policy.{
  Envelope, TaskSnapshot, Grant, PolicyInput, Verdict, evaluate_relationship_policy,
}

-- (sender_incarnation_id, message_id)
abbrev pub Key : Type 0
Key = String × String

abbrev pub key_of : Envelope → Key
key_of e = (e.sender.incarnation_id, e.message_id)

-- Columns of `dispositions`.
pub record Disposition : Type 0 where
  pub revision : ℕ
  pub delivery : Delivery
  pub decision : Decision
  pub reason_code : Option ReasonCode
  pub failure_reason : Option String
  pub outcome : Outcome

-- A row of `messages`; its columns that repeat a part of the envelope are read from the envelope.
pub record MessageRow : Type 0 where
  pub envelope : Envelope
  pub envelope_digest : String
  pub grant_id : String
  pub grant_version : ℕ
  pub disposition : Disposition

pub data ClaimState : Type 0 where
  claimed acknowledged : ClaimState

-- A row of `mailbox_claims`.
pub record ClaimRow : Type 0 where
  pub receiver : TaskRef
  pub claim_token : String
  pub expected_revision : ℕ
  pub state : ClaimState
  pub expires_at : Instant

pub data SubmissionState : Type 0 where
  prepared outcome_unknown receipt_recorded : SubmissionState
  confirmed_not_submitted manual_reconciliation : SubmissionState

-- A row of `adapter_submissions`.
pub record SubmissionRow : Type 0 where
  pub submission_id : String
  pub expected_revision : ℕ
  pub envelope_digest : String
  pub adapter_ref_digest : String
  pub adapter_idempotency_key : String
  pub state : SubmissionState
  pub receipt_json : Option String
  pub reconciliation : Option (List String)

-- A row of `admission_claims`; the claimed and completed times are left out.
pub record AdmissionRow : Type 0 where
  pub nonce : String
  pub admission_token : String
  pub expected_revision : ℕ
  pub grant_id : String
  pub grant_version : ℕ
  pub adapter_ref : String
  pub adapter_ref_digest : String
  pub is_in_flight : Bool

-- A row of `grants`: the grant with its column `revoked_at`, the issuer and the text of `grant_json`.
pub record GrantRow : Type 0 where
  pub grant : Grant
  pub granted_by_type : ActorType
  pub granted_by_id : String
  pub grant_json : String

-- A grant as it is presented for installation.
pub record GrantDocument : Type 0 where
  pub grant : Grant
  pub granted_by_type : ActorType
  pub granted_by_id : String
  pub authority : String
  pub authorized_by_type : ActorType
  pub authorized_by_id : String
  pub integrity_digest : String

-- What a context admission token is a digest of.
pub record AdmissionBinding : Type 0 where
  pub key : Key
  pub expected_revision : ℕ
  pub envelope_digest : String
  pub grant_id : String
  pub grant_version : ℕ
  pub nonce : String
  pub adapter_ref_digest : String

-- The fields of a parsed adapter reference that the coordinator reads.
pub record AdapterRef : Type 0 where
  pub kind : String
  pub session_id : Option String
  pub thread_id : Option String
  pub snapshot_digest : Option String

-- A row of `tasks` joined with its `task_metadata`; `revision` and the runtime are the latter's.
pub record TaskRow : Type 0 where
  pub harness : String
  pub state : String
  pub revision : ℕ
  pub snapshot : TaskSnapshot
  pub owner_kind : ActorType
  pub owner_principal_id : String
  pub adapter_ref : Option String

pub data EventType : Type 0 where
  message_durably_received mailbox_claimed receiver_decided delivery_failed : EventType
  adapter_submission_prepared adapter_attempt_started : EventType
  adapter_receipt_recorded adapter_submission_reconciled : EventType
  authorization_revoked message_expired : EventType
  context_admission_claimed context_admitted : EventType

-- A row of `audit_events`.
pub record AuditEvent : Type 0 where
  pub key : Key
  pub event_type : EventType
  pub revision : ℕ

pub record Db : Type 0 where
  pub tasks : List TaskRow
  pub grants : List GrantRow
  pub messages : List (Key × MessageRow)
  pub claims : List (Key × ClaimRow)
  pub submissions : List (Key × SubmissionRow)
  pub admissions : List (Key × AdmissionRow)
  pub audit_events : List AuditEvent

-- The caller that the transport authenticated.
pub data Principal : Type 0 where
  task : TaskRef → Principal
  user : String → Principal
  policy : String → Principal

pub data Error : Type 0 where
  envelope_invalid control_plane_authority_required authenticated_principal_mismatch : Error
  sender_actor_requires_control_plane task_not_registered task_not_authorized : Error
  policy_denied message_expired idempotency_conflict message_not_found : Error
  revision_or_state_conflict revision_conflict decision_reason_invalid : Error
  mailbox_already_acknowledged mailbox_claim_invalid mailbox_claim_expired : Error
  delivery_failure_reason_invalid external_outcome_unknown : Error
  adapter_submission_in_flight adapter_submission_not_found : Error
  adapter_submission_state_conflict target_adapter_not_bound adapter_ref_changed : Error
  adapter_receipt_invalid adapter_receipt_conflict adapter_reconciliation_invalid : Error
  adapter_reconciliation_evidence_required unique_constraint_failed invalid_time_value : Error
  grant_invalid grant_issuer_invalid grant_authorization_invalid grant_not_active : Error
  grant_scope_not_authorized grant_revoke_not_authorized task_retired task_invalid : Error
  task_runtime_invalid task_state_invalid incarnation_id_conflict : Error
  task_rotation_id_mismatch task_metadata_missing : Error
  context_admission_intent_unsupported context_admission_in_flight : Error
  context_admission_missing context_admission_ref_invalid context_admission_token_invalid : Error
  context_admission_binding_invalid preverified_admission_provenance_invalid : Error
  target_adapter_ref_invalid adapter_evidence_mismatch protocol_object_invalid : Error

-- The fields of an adapter's receipt that the coordinator reads.
pub record Receipt : Type 0 where
  pub adapter_operation_id : String
  pub accepted_at : Instant
  pub evidence_refs : Option (List String)

-- What the coordinator calls and the repository does not define by itself: schema validation (ajv),
-- the SHA-256 digests, the texts that JSON and string slicing make, and SQLite's comparison of the text
-- of a message's `expiresAt` with the text of a time (`expiry_text_passed`). `submission_is_valid` is
-- the schema validation of a submission, from its key, the receiver and the row; `envelope_is_valid`
-- and `grant_is_valid` stand for assertProtocolObject of those kinds, its comparisons of `createdAt`,
-- which no method of the coordinator reads, included.
pub record Platform : Type 0 where
  pub envelope_is_valid : Envelope → Bool
  pub envelope_digest : Envelope → String
  pub adapter_ref_digest : String → String
  pub sliced_reason : String → String
  pub receipt_json : Receipt → String
  pub submission_is_valid : Key → TaskRef → SubmissionRow → Bool
  pub grant_is_valid : GrantDocument → Bool
  pub grant_authorization_digest : GrantDocument → String
  pub grant_json : GrantDocument → String
  pub parsed_adapter_ref : String → AdapterRef
  pub admission_token : AdmissionBinding → String
  pub text_length : String → ℕ
  pub expiry_text_passed : Envelope → ℕ → Bool

-- assertTaskPrincipal
unfoldable pub is_task_principal : Principal → TaskRef → Bool
is_task_principal (task ref) expected = same_task_ref ref expected
is_task_principal (user name) expected = false
is_task_principal (policy name) expected = false

abbrev pub assert_task_principal : Principal → TaskRef → Result Error (Unit {0})
assert_task_principal principal ref =
    throw_if (not (is_task_principal principal ref)) authenticated_principal_mismatch

abbrev pub same_channel : Envelope → Grant → Bool
same_channel e g =
    g.relationship_id == e.relationship_id
    && (same_task_ref g.source e.sender && same_task_ref g.target e.target)

abbrev newer_grant : Grant → Option Grant → Option Grant
newer_grant g none = some g
newer_grant g (some h) = if ltb g.grant_version h.grant_version then some h else some g

-- `ORDER BY grant_version DESC LIMIT 1`, over the grants of the channel.
unfoldable pub latest_grant : Envelope → List GrantRow → Option Grant
latest_grant e [] = none
latest_grant e (g ∷ grants) =
    let rest = latest_grant e grants in
    if same_channel e g.grant then newer_grant g.grant rest else rest

unfoldable pub find_task : TaskRef → List TaskRow → Option TaskRow
find_task ref [] = none
find_task ref (t ∷ tasks) = if same_task_ref t.snapshot.ref ref then some t else find_task ref tasks

abbrev snapshot_of : Option TaskRow → Option TaskSnapshot
snapshot_of none = none
snapshot_of (some t) = some t.snapshot

-- The policy's input in #activeGrantFor.
abbrev pub policy_input : Db → ℕ → Envelope → PolicyInput
policy_input db now e = record {
  envelope = some e;
  grant = latest_grant e db.grants;
  current_grant = latest_grant e db.grants;
  source_task = snapshot_of (find_task e.sender db.tasks);
  target_task = snapshot_of (find_task e.target db.tasks);
  now = some now;
}

abbrev pub granted_or_denied : Verdict → Option Grant → Result Error Grant
granted_or_denied Verdict.allow grant = or_throw grant policy_denied
granted_or_denied Verdict.deny grant = err policy_denied

-- #activeGrantFor
unfoldable pub active_grant_for : Db → ℕ → Envelope → Result Error Grant
active_grant_for db now e =
    granted_or_denied (evaluate_relationship_policy (policy_input db now e)).decision
      (latest_grant e db.grants)

-- #assertCurrentAuthorization
unfoldable pub assert_current_authorization : Db → ℕ → MessageRow → Result Error (Unit {0})
assert_current_authorization db now row = do
  grant ← active_grant_for db now row.envelope
  throw_if (not (grant.grant_id == row.grant_id) || not (grant.grant_version == row.grant_version))
      policy_denied

abbrev pub assert_not_expired : ℕ → MessageRow → Result Error (Unit {0})
assert_not_expired now row = throw_if (instant_le row.envelope.expires_at now) message_expired

-- #message
abbrev pub message_at : Db → Key → Result Error MessageRow
message_at db key = or_throw (find key db.messages) message_not_found

-- #adapterSubmission: each method answers with a submission that the schema accepts, or throws inside
-- its transaction, which rolls it back.
abbrev pub assert_submission : Platform → Key → MessageRow → SubmissionRow → Result Error (Unit {0})
assert_submission x key row s =
    throw_if (not (x.submission_is_valid key row.envelope.target s)) protocol_object_invalid

-- #audit
abbrev pub audited : Key → EventType → ℕ → Db → Db
audited key event revision db = record db {
  audit_events = record { key = key; event_type = event; revision = revision } ∷ db.audit_events;
}

-- ===== src/Coordinator/Mailbox.antt =====
-- The mailbox methods of the coordinator (src/coordinator/sqlite-coordinator.mjs) on a message itself:
-- submit, respond and failDelivery.
use threadmesh.Prelude.{
  ℕ, ◌+◌, Bool, true, false, not, ◌&&◌, ◌||◌, String, Option, none, some, [], ◌∷◌, ◌==◌, string_eq,
  nat_eq, pair_eq, option_eq, Result, ok, err, ◌>>=◌, ◌>>◌, throw_if, or_throw, if◌then◌else◌, find,
  put, includes,
}
use threadmesh.States.{
  Delivery, Decision, Outcome, ReasonCode, delivery_eq, decision_eq, outcome_eq, reason_eq,
}
use threadmesh.Vocabulary.{same_task_ref, instant_le, ActorType, actor_type_eq}
use threadmesh.Disposition.{Machine, is_disposition_transition_allowed, is_decision_reason_allowed}
use threadmesh.Policy.{Envelope}
use threadmesh.Coordinator.{
  Key, key_of, Disposition, MessageRow, outcome_unknown, receipt_recorded, SubmissionRow, EventType,
  Db, Principal, task, user, policy, Error, Platform, assert_task_principal, find_task,
  active_grant_for, assert_current_authorization, message_at, audited,
}

-- A user or policy principal with a name (assertControlPlanePrincipal), as its kind and name.
unfoldable pub control_plane : Principal → Result Error (ActorType × String)
control_plane (task ref) = err Error.control_plane_authority_required
control_plane (user name) =
    if name == "" then err Error.control_plane_authority_required else ok (ActorType.user, name)
control_plane (policy name) =
    if name == "" then err Error.control_plane_authority_required else ok (ActorType.policy, name)

-- The owner's check of `submit`, for a sender that is no task.
unfoldable pub assert_sender_owned : Db → Envelope → ActorType × String → Result Error (Unit {0})
assert_sender_owned db e (kind, name) = do
  throw_if (not (e.actor_type == kind) || not (e.actor_id == some name))
      Error.authenticated_principal_mismatch
  row ← or_throw (find_task e.sender db.tasks) Error.task_not_registered
  throw_if
      (not (kind == ActorType.policy)
        && (not (row.owner_kind == kind) || not (row.owner_principal_id == name)))
      Error.task_not_authorized

unfoldable pub assert_sender : Db → Envelope → Principal → Result Error (Unit {0})
assert_sender db e (task ref) = do
  throw_if (not (same_task_ref ref e.sender)) Error.authenticated_principal_mismatch
  throw_if (not (e.actor_type == ActorType.agent)) Error.sender_actor_requires_control_plane
assert_sender db e (user name) =
    control_plane (user name) >>= λ owner. assert_sender_owned db e owner
assert_sender db e (policy name) =
    control_plane (policy name) >>= λ owner. assert_sender_owned db e owner

-- The disposition of a new message.
abbrev pub received : Disposition
received = record {
  revision = 0;
  delivery = Delivery.durably_received;
  decision = Decision.pending;
  reason_code = none;
  failure_reason = none;
  outcome = Outcome.not_observed;
}

pub record Submitted : Type 0 where
  pub replay : Bool
  pub row : MessageRow

abbrev pub replayed_or_inserted :
    Platform → ℕ → Envelope → Db → Option MessageRow → Result Error (Db × Submitted)
replayed_or_inserted x now e db (some row) =
    if row.envelope_digest == x.envelope_digest e
    then ok (db, record { replay = true; row = row })
    else err Error.idempotency_conflict
replayed_or_inserted x now e db none = do
  throw_if (instant_le e.expires_at now) Error.message_expired
  grant ← active_grant_for db now e
  let row : MessageRow = record {
    envelope = e;
    envelope_digest = x.envelope_digest e;
    grant_id = grant.grant_id;
    grant_version = grant.grant_version;
    disposition = received;
  }
  ok (
    audited (key_of e) EventType.message_durably_received 0
        (record db { messages = put (key_of e) row db.messages }),
    record { replay = false; row = row },
  )

unfoldable pub submit : Platform → ℕ → Envelope → Principal → Db → Result Error (Db × Submitted)
submit x now e principal db = do
  throw_if (not (x.envelope_is_valid e)) Error.envelope_invalid
  assert_sender db e principal
  replayed_or_inserted x now e db (find (key_of e) db.messages)

-- A message whose state or revision is `disposition` from now on.
abbrev pub with_disposition : Key → MessageRow → Disposition → Db → Db
with_disposition key row d db = record db {
  messages = put key (record row { disposition = d }) db.messages;
}

-- `if (test) this.#assertCurrentAuthorization(row)`
abbrev pub authorized_if : Bool → Db → ℕ → MessageRow → Result Error (Unit {0})
authorized_if true db now row = assert_current_authorization db now row
authorized_if false db now row = ok tt

abbrev pub decided : Decision → ReasonCode → Disposition → Disposition
decided decision reason d = record d {
  revision = d.revision + 1;
  decision = decision;
  reason_code = some reason;
}

-- respond; the reason is the argument after its default.
unfoldable pub respond :
    ℕ → Key → Decision → ℕ → ReasonCode → Principal → Db → Result Error (Db × Disposition)
respond now key decision expected_revision reason principal db = do
  throw_if (not (is_decision_reason_allowed decision reason)) Error.decision_reason_invalid
  row ← message_at db key
  assert_task_principal principal row.envelope.target
  authorized_if (includes (Decision.accepted ∷ Decision.deferred ∷ []) decision) db now row
  throw_if (not (decision == Decision.expired) && instant_le row.envelope.expires_at now)
      Error.message_expired
  throw_if (not (row.disposition.revision == expected_revision)) Error.revision_conflict
  throw_if
      (not (is_disposition_transition_allowed Machine.decision row.disposition.decision decision))
      Error.revision_or_state_conflict
  let d : Disposition = decided decision reason row.disposition
  ok (audited key EventType.receiver_decided d.revision (with_disposition key row d db), d)

abbrev pub is_in_doubt : Option SubmissionRow → Bool
is_in_doubt none = false
is_in_doubt (some s) = elim s.state [ outcome_unknown ↦ true | receipt_recorded ↦ true | _ ↦ false ]

abbrev pub delivery_failed : String → Disposition → Disposition
delivery_failed reason d = record d {
  revision = d.revision + 1;
  delivery = Delivery.failed;
  failure_reason = some reason;
}

unfoldable pub fail_delivery :
    Platform → Key → ℕ → String → Principal → Db → Result Error (Db × Disposition)
fail_delivery x key expected_revision reason principal db = do
  throw_if (reason == "") Error.delivery_failure_reason_invalid
  row ← message_at db key
  assert_task_principal principal row.envelope.target
  throw_if
      (not (row.disposition.revision == expected_revision)
        || not (
            is_disposition_transition_allowed Machine.delivery row.disposition.delivery
              Delivery.failed))
      Error.revision_or_state_conflict
  throw_if (is_in_doubt (find key db.submissions)) Error.external_outcome_unknown
  let d : Disposition = delivery_failed (x.sliced_reason reason) row.disposition
  ok (audited key EventType.delivery_failed d.revision (with_disposition key row d db), d)

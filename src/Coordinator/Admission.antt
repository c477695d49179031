-- ===== src/Coordinator/Admission.antt =====
-- Context admissions (src/coordinator/sqlite-coordinator.mjs): prepareContextAdmission,
-- recoverContextAdmission and confirmContextAdmission, with the checks of adapter references and
-- evidence. The nonce is an argument; the rendering of the message is left out. Whether
-- #assertPreverifiedAdmissionProvenance passes depends on tables that are not modelled: it is the
-- argument `provenance` of the methods that call it.
use threadmesh.Prelude.{
  ℕ, ◌+◌, Bool, true, false, not, ◌&&◌, ◌||◌, String, Option, some, List, [], ◌∷◌, ◌==◌, string_eq,
  nat_eq, pair_eq, option_eq, Result, ok, ◌>>=◌, ◌>>◌, throw_if, or_throw, if◌then◌else◌, find, put,
  includes,
}
use threadmesh.States.{Delivery, Decision, Outcome, delivery_eq, decision_eq, outcome_eq}
use threadmesh.Vocabulary.{Intent, intent_eq, is_present}
use threadmesh.Disposition.{Machine, is_disposition_transition_allowed}
use threadmesh.Policy.{Envelope}
use threadmesh.Coordinator.{
  Key, Disposition, MessageRow, AdmissionRow, AdmissionBinding, AdapterRef, EventType, Db,
  Principal, Error, Platform, assert_task_principal, assert_current_authorization,
  assert_not_expired, message_at, audited,
}
use threadmesh.Coordinator.Mailbox.{with_disposition}
use threadmesh.Coordinator.Submissions.{adapter_ref_of}

-- The fields of an adapter's evidence that are projected.
pub record AdapterEvidence : Type 0 where
  pub session_id : Option String
  pub thread_id : Option String
  pub turn_id : Option String
  pub snapshot_digest : Option String
  pub stop_reason : Option String
  pub turn_status : Option String
  pub result_status : Option String
  pub exit_code : Option ℕ
  pub tool_use_count : Option ℕ

-- assertContextAdapterRef
unfoldable pub is_context_adapter_ref : AdapterRef → Bool
is_context_adapter_ref ref =
    is_present ref.snapshot_digest
    && (((ref.kind == "acp-session") && is_present ref.session_id)
        || (((ref.kind == "codex-app-server") && is_present ref.thread_id)
            || ((ref.kind == "gemini-headless") && is_present ref.session_id)))

abbrev pub assert_context_adapter_ref : Platform → String → Result Error AdapterRef
assert_context_adapter_ref x text =
    throw_if (not (is_context_adapter_ref (x.parsed_adapter_ref text)))
      Error.target_adapter_ref_invalid
    >> ok (x.parsed_adapter_ref text)

-- The tests of projectContextAdapterEvidence, of a kind that is known.
unfoldable pub evidence_matches : AdapterRef → AdapterEvidence → Bool
evidence_matches ref e =
    if ref.kind == "acp-session"
    then (e.session_id == ref.session_id)
      && ((e.snapshot_digest == ref.snapshot_digest) && (e.stop_reason == some "end_turn"))
    else if ref.kind == "codex-app-server"
    then (e.thread_id == ref.thread_id)
      && (is_present e.turn_id
          && ((e.turn_status == some "completed") && (e.snapshot_digest == ref.snapshot_digest)))
    else (e.session_id == ref.session_id)
      && ((e.snapshot_digest == ref.snapshot_digest)
          && ((e.exit_code == some 0)
              && ((e.tool_use_count == some 0) && (e.result_status == some "success"))))

-- projectContextAdapterEvidence
unfoldable pub assert_evidence : AdapterRef → AdapterEvidence → Result Error (Unit {0})
assert_evidence ref e = do
  throw_if (not (includes ("acp-session" ∷ "codex-app-server" ∷ "gemini-headless" ∷ []) ref.kind))
      Error.target_adapter_ref_invalid
  throw_if (not (evidence_matches ref e)) Error.adapter_evidence_mismatch

-- #assertContextAdmissionState
unfoldable pub assert_admission_state : Db → ℕ → MessageRow → ℕ → Result Error (Unit {0})
assert_admission_state db now row expected_revision = do
  assert_current_authorization db now row
  assert_not_expired now row
  throw_if (not (row.envelope.intent == Intent.suggest)) Error.context_admission_intent_unsupported
  throw_if
      (not (row.disposition.revision == expected_revision)
        || (not (row.disposition.decision == Decision.accepted)
            || not (
                is_disposition_transition_allowed Machine.delivery row.disposition.delivery
                  Delivery.context_admitted)))
      Error.revision_or_state_conflict

-- The arguments of #admissionToken
abbrev pub binding_of : Key → MessageRow → ℕ → String → String → AdmissionBinding
binding_of key row expected_revision nonce adapter_ref_digest = record {
  key = key;
  expected_revision = expected_revision;
  envelope_digest = row.envelope_digest;
  grant_id = row.grant_id;
  grant_version = row.grant_version;
  nonce = nonce;
  adapter_ref_digest = adapter_ref_digest;
}

-- What an admission hands to its adapter.
pub record Admission : Type 0 where
  pub admission_token : String
  pub adapter_ref : AdapterRef
  pub envelope : Envelope
  pub revision : ℕ

abbrev pub new_admission : Platform → Key → MessageRow → ℕ → String → String → AdmissionRow
new_admission x key row expected_revision nonce text = record {
  nonce = nonce;
  admission_token =
      x.admission_token (binding_of key row expected_revision nonce (x.adapter_ref_digest text));
  expected_revision = expected_revision;
  grant_id = row.grant_id;
  grant_version = row.grant_version;
  adapter_ref = text;
  adapter_ref_digest = x.adapter_ref_digest text;
  is_in_flight = true;
}

-- The UNIQUE constraint on `admission_token`, against the rows of other messages.
unfoldable pub admission_token_is_taken : Key → String → List (Key × AdmissionRow) → Bool
admission_token_is_taken key token [] = false
admission_token_is_taken key token ((k, a) ∷ rows) =
    (not (k == key) && (a.admission_token == token)) || admission_token_is_taken key token rows

abbrev pub admission_of : Platform → MessageRow → AdmissionRow → Admission
admission_of x row a = record {
  admission_token = a.admission_token;
  adapter_ref = x.parsed_adapter_ref a.adapter_ref;
  envelope = row.envelope;
  revision = a.expected_revision;
}

abbrev pub admission_stored :
    Platform → Key → MessageRow → AdmissionRow → Db → Result Error (Db × Admission)
admission_stored x key row a db = do
  throw_if (admission_token_is_taken key a.admission_token db.admissions)
      Error.unique_constraint_failed
  ok (
    audited key EventType.context_admission_claimed a.expected_revision
        (record db { admissions = put key a db.admissions }),
    admission_of x row a,
  )

unfoldable pub prepare_context_admission :
    Platform → ℕ → String → Key → ℕ → Principal → Db → Result Error (Db × Admission)
prepare_context_admission x now nonce key expected_revision principal db = do
  row ← message_at db key
  assert_task_principal principal row.envelope.target
  assert_admission_state db now row expected_revision
  throw_if (is_present (find key db.admissions)) Error.context_admission_in_flight
  text ← adapter_ref_of db row
  ref ← assert_context_adapter_ref x text
  admission_stored x key row (new_admission x key row expected_revision nonce text) db

-- #hasPreverifiedAdmissionState
abbrev pub has_preverified_state : MessageRow → AdmissionRow → Bool
has_preverified_state row a =
    (row.disposition.revision == a.expected_revision + 2)
    && ((row.disposition.decision == Decision.accepted)
        && ((row.disposition.delivery == Delivery.adapter_submitted)
            && (row.disposition.outcome == Outcome.externally_verified)))

-- #isProvenPreverifiedAdmission
unfoldable pub is_proven : Bool → MessageRow → AdmissionRow → Result Error Bool
is_proven provenance row a =
    if has_preverified_state row a
    then (throw_if (not provenance) Error.preverified_admission_provenance_invalid >> ok true)
    else ok false

-- `["durably-received", "checkpoint-offered"].includes(row.delivery_state)`
abbrev pub may_be_admitted : Delivery → Bool
may_be_admitted delivery =
    includes (Delivery.durably_received ∷ Delivery.checkpoint_offered ∷ []) delivery

-- The test that the claim fits the message.
unfoldable pub binding_is_valid : Platform → Key → MessageRow → AdmissionRow → Bool → Bool
binding_is_valid x key row a preverified =
    (x.adapter_ref_digest a.adapter_ref == a.adapter_ref_digest)
    && ((x.admission_token (binding_of key row a.expected_revision a.nonce a.adapter_ref_digest)
          == a.admission_token)
        && (preverified
            || (if a.is_in_flight
                then (row.disposition.revision == a.expected_revision)
                  && ((row.disposition.decision == Decision.accepted)
                      && may_be_admitted row.disposition.delivery)
                else (row.disposition.revision == a.expected_revision + 1)
                  && (row.disposition.delivery == Delivery.context_admitted))))

unfoldable pub recover_context_admission :
    Platform → Bool → Key → Principal → Db → Result Error (Bool × Admission)
recover_context_admission x provenance key principal db = do
  row ← message_at db key
  assert_task_principal principal row.envelope.target
  a ← or_throw (find key db.admissions) Error.context_admission_missing
  throw_if (not (is_context_adapter_ref (x.parsed_adapter_ref a.adapter_ref)))
      Error.context_admission_ref_invalid
  preverified ← is_proven provenance row a
  throw_if (not (binding_is_valid x key row a preverified)) Error.context_admission_binding_invalid
  ok (a.is_in_flight, admission_of x row a)

abbrev pub admitted : Disposition → Disposition
admitted d = record d { revision = d.revision + 1; delivery = Delivery.context_admitted }

abbrev pub completed : AdmissionRow → AdmissionRow
completed a = record a { is_in_flight = false }

-- `ordinary` of confirmContextAdmission
abbrev pub is_ordinary : MessageRow → ℕ → Bool
is_ordinary row expected_revision =
    (row.disposition.revision == expected_revision)
    && ((row.disposition.decision == Decision.accepted) && may_be_admitted row.disposition.delivery)

-- The writes: of the disposition unless it was verified before, and of the claim.
abbrev pub confirmed : Key → MessageRow → AdmissionRow → Bool → Db → Result Error (Db × Disposition)
confirmed key row a true db = ok (
  audited key EventType.context_admitted row.disposition.revision
      (record db { admissions = put key (completed a) db.admissions }),
  row.disposition,
)
confirmed key row a false db = ok (
  audited key EventType.context_admitted (admitted row.disposition).revision
      (record (with_disposition key row (admitted row.disposition) db) {
        admissions = put key (completed a) db.admissions;
      }),
  admitted row.disposition,
)

unfoldable pub confirm_context_admission :
    Platform
    → Bool
    → Key
    → ℕ
    → String
    → AdapterEvidence
    → Principal
    → Db
    → Result Error (Db × Disposition)
confirm_context_admission x provenance key expected_revision token evidence principal db = do
  row ← message_at db key
  assert_task_principal principal row.envelope.target
  a ← or_throw (find key db.admissions) Error.context_admission_token_invalid
  throw_if
      (not a.is_in_flight
        || (not (a.expected_revision == expected_revision) || not (a.admission_token == token)))
      Error.context_admission_token_invalid
  preverified ← is_proven provenance row a
  throw_if (not (is_ordinary row expected_revision) && not preverified)
      Error.revision_or_state_conflict
  ref ← assert_context_adapter_ref x a.adapter_ref
  assert_evidence ref evidence
  confirmed key row a preverified db

-- ===== src/Tests/Samples.antt =====
-- A small database: a supervisor that may steer a worker, and one message between them.
use threadmesh.Prelude.{true, false, not, none, some, [], ◌∷◌, ◌==◌, string_eq}
use threadmesh.States.{Decision, ReasonCode}
use threadmesh.Vocabulary.{
  Intent, DeliveryMode, RelationshipType, ActorType, TaskRef, millis, instant_le,
}
use threadmesh.Policy.{Envelope, TaskSnapshot, Grant, PolicyInput}
use threadmesh.Policy.Soundness.{complete}
use threadmesh.Coordinator.{
  Key, Db, GrantRow, Disposition, MessageRow, SubmissionRow, SubmissionState, outcome_unknown,
  TaskRow, task, Platform, Receipt,
}
use threadmesh.Coordinator.Mailbox.{received, decided}
use threadmesh.Dispatcher.{Adapter, Adapters, Request}

abbrev pub lead : TaskRef
lead = record { task_id = "lead"; incarnation_id = "inc_lead_01" }

abbrev pub worker : TaskRef
worker = record { task_id = "worker"; incarnation_id = "inc_work_01" }

abbrev pub steer_worker : Envelope
steer_worker = record {
  message_id = "msg_1";
  sender = lead;
  actor_type = ActorType.agent;
  actor_id = none;
  target = worker;
  relationship_id = "rel_1";
  intent = Intent.steer;
  requested_mode = DeliveryMode.active_steer;
  freshness = some (record {
    expected_run_id = some "run_7";
    expected_objective_version = none;
    expected_checkpoint = none;
  });
  content = "take the other branch";
  expires_at = millis 5000;
}

abbrev pub lead_snapshot : TaskSnapshot
lead_snapshot = record {
  ref = lead;
  retired_at = none;
  run_id = none;
  objective_version = none;
  checkpoint = none;
}

abbrev pub worker_snapshot : TaskSnapshot
worker_snapshot = record {
  ref = worker;
  retired_at = none;
  run_id = some "run_7";
  objective_version = some 2;
  checkpoint = none;
}

abbrev pub grant_1 : Grant
grant_1 = record {
  grant_id = "grant_1";
  grant_version = 1;
  relationship_id = "rel_1";
  relationship_type = RelationshipType.supervisor;
  source = lead;
  target = worker;
  allowed_intents = Intent.suggest ∷ Intent.steer ∷ [];
  allowed_delivery_modes = DeliveryMode.active_steer ∷ [];
  structured_gate_responses = false;
  expires_at = some (millis 9000);
  revoked_at = none;
}

abbrev pub policy_sample : PolicyInput
policy_sample = complete steer_worker lead_snapshot worker_snapshot grant_1 grant_1 1000

abbrev pub platform : Platform
platform = record {
  envelope_is_valid = λ e. true;
  envelope_digest = λ e. e.content;
  adapter_ref_digest = λ ref. ref;
  sliced_reason = λ reason. reason;
  receipt_json = λ receipt. receipt.adapter_operation_id;
  submission_is_valid = λ key target s. not (s.submission_id == "");
  grant_is_valid = λ g. true;
  grant_authorization_digest = λ g. g.grant.grant_id;
  grant_json = λ g. g.grant.grant_id;
  parsed_adapter_ref = λ text. record {
    kind = "codex-app-server";
    session_id = none;
    thread_id = some "thread_9";
    snapshot_digest = some "snapshot_9";
  };
  admission_token = λ b. b.nonce;
  text_length = λ text. 4;
  expiry_text_passed = λ e now. instant_le e.expires_at now;
}

abbrev pub key_1 : Key
key_1 = ("inc_lead_01", "msg_1")

abbrev pub lead_row : TaskRow
lead_row = record {
  harness = "codex";
  state = "idle";
  revision = 0;
  snapshot = lead_snapshot;
  owner_kind = ActorType.user;
  owner_principal_id = "ada";
  adapter_ref = none;
}

abbrev pub worker_row : TaskRow
worker_row = record {
  harness = "codex";
  state = "idle";
  revision = 0;
  snapshot = worker_snapshot;
  owner_kind = ActorType.user;
  owner_principal_id = "ada";
  adapter_ref = some "codex:thread_9";
}

abbrev pub grant_row_1 : GrantRow
grant_row_1 = record {
  grant = grant_1;
  granted_by_type = ActorType.user;
  granted_by_id = "ada";
  grant_json = "grant_1";
}

abbrev pub empty_db : Db
empty_db = record {
  tasks = lead_row ∷ worker_row ∷ [];
  grants = grant_row_1 ∷ [];
  messages = [];
  claims = [];
  submissions = [];
  admissions = [];
  audit_events = [];
}

abbrev pub message_with : Disposition → MessageRow
message_with d = record {
  envelope = steer_worker;
  envelope_digest = "take the other branch";
  grant_id = "grant_1";
  grant_version = 1;
  disposition = d;
}

abbrev pub accepted_disposition : Disposition
accepted_disposition = decided Decision.accepted ReasonCode.accepted received

-- The message, received and accepted.
abbrev pub accepted_db : Db
accepted_db = record empty_db { messages = (key_1, message_with accepted_disposition) ∷ [] }

abbrev pub submission_1 : SubmissionState → SubmissionRow
submission_1 state = record {
  submission_id = "sub_1";
  expected_revision = 1;
  envelope_digest = "take the other branch";
  adapter_ref_digest = "codex:thread_9";
  adapter_idempotency_key = "adp_1";
  state = state;
  receipt_json = none;
  reconciliation = none;
}

-- The message, handed to the adapter, with no answer yet.
abbrev pub in_doubt_db : Db
in_doubt_db = record accepted_db { submissions = (key_1, submission_1 outcome_unknown) ∷ [] }

abbrev pub receipt_1 : Receipt
receipt_1 = record {
  adapter_operation_id = "turn_5";
  accepted_at = millis 1200;
  evidence_refs = none;
}

abbrev pub answering : Adapter
answering = record { supports = λ ref e. true; submit = λ s ref e. some receipt_1 }

abbrev pub adapters_1 : Adapters
adapters_1 = record { registered = ("codex", answering) ∷ []; kind_of = λ ref. "codex" }

abbrev pub request_1 : Request
request_1 = record {
  time = 1000;
  key = key_1;
  expected_revision = 1;
  principal = task worker;
  submission_id = "sub_1";
  idempotency_key = "adp_1";
}

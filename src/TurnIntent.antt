-- ===== src/TurnIntent.antt =====
-- Durable turn intents (src/state/durable-turn-intent.mjs): the data of an intent to run one turn of
-- an agent, and the checks of its parts. A value has the shape that its record type says, so the
-- tests of `exact` and of `typeof` hold by construction. The regular expressions, SHA-256 digests of
-- canonical JSON and the length of a string are the fields of Formats.
pub mod Checks
pub mod Validation
pub mod Operations
pub mod Outcomes
pub mod Actions
pub mod Validity
pub mod Reconciled
pub mod Transitions
pub mod ActionReplays
pub mod Replays
pub mod Histories
pub mod Gaps
pub mod Backing
use threadmesh.Prelude.{ℕ, Bool, String, Option, List}
use threadmesh.Vocabulary.{Instant}

-- DURABLE_TURN_INTENT_STATES
pub data IntentState : Type 0 where
  proposed started outcome_unknown completed_turn_bound promoted abandoned : IntentState

pub record Actor : Type 0 where
  pub task_id : String
  pub incarnation_id : String
  pub thread_id : String
  pub snapshot_digest : String

-- The part of an intent that is proposed and never changes.
pub record Proposal : Type 0 where
  pub intent_id : String
  pub scenario_id : String
  pub chain_id : String
  pub message_id : String
  pub event_id : String
  pub actor : Actor
  pub adapter_idempotency_key : String
  pub prompt_digest : String
  pub allowed_tools : List String

-- A tool action that the model selected, before it has a result.
pub record Selection : Type 0 where
  pub turn_id : String
  pub call_id : String
  pub ordinal : ℕ
  pub name : String
  pub arguments_digest : String

pub record ToolAction : Type 0 where
  pub selection : Selection
  pub result_digest : Option String
  pub result_status : Option String

pub record Completion : Type 0 where
  pub turn_id : String
  pub call_id : String
  pub ordinal : ℕ
  pub result_digest : String
  pub result_status : String

pub record Evidence : Type 0 where
  pub thread_id : String
  pub turn_id : String
  pub turn_status : String
  pub completed_at : Option Instant
  pub duration_ms : Option ℕ
  pub user_agent : String
  pub snapshot_digest : String
  pub server_request_denied_count : ℕ
  pub server_request_handled_count : ℕ
  pub notification_count : ℕ
  pub delta_count : ℕ

pub record TurnReceipt : Type 0 where
  pub adapter_operation_id : String
  pub accepted_at : Instant
  pub evidence_refs : List String

pub record ToolCall : Type 0 where
  pub ordinal : ℕ
  pub turn_id : String
  pub call_id : String
  pub tool : String
  pub arguments_digest : String
  pub output_digest : String
  pub result_status : String

pub record Binding : Type 0 where
  pub evidence : Evidence
  pub receipt : TurnReceipt
  pub adapter_receipt_digest : String
  pub tool_calls : List ToolCall
  pub non_threadmesh_tool_calls : ℕ

pub record CompletedTurn : Type 0 where
  pub evidence : Evidence
  pub adapter_receipt_digest : String
  pub tool_calls : List ToolCall

pub record Promotion : Type 0 where
  pub expected_evidence_chain_revision : ℕ
  pub expected_evidence_chain_head : Option String

-- The further fields of an abandonment after a turn that ended without completing.
pub record Terminal : Type 0 where
  pub turn_status : String
  pub evidence_refs : List String
  pub baseline_digest : String
  pub observation_digest : String
  pub client_user_message_id_digest : String
  pub correlation_digest : String

pub record Abandonment : Type 0 where
  pub reason_code : String
  pub terminal : Option Terminal

-- `turn_start` is `none` for null and `some turnId` for `{ turnId }`.
pub record Intent : Type 0 where
  pub proposal : Proposal
  pub state : IntentState
  pub turn_start : Option (Option String)
  pub tool_actions : List ToolAction
  pub completed_turn : Option CompletedTurn
  pub promotion : Option Promotion
  pub abandonment : Option Abandonment

-- What the correlation digest of a terminal abandonment is made of.
pub record Correlation : Type 0 where
  pub thread_id : String
  pub turn_id : Option String
  pub snapshot_digest : String
  pub baseline_digest : String
  pub observation_digest : String
  pub client_user_message_id_digest : String

pub record Formats : Type 0 where
  pub is_id : String → Bool
  pub is_tool : String → Bool
  pub is_digest : String → Bool
  pub is_reason : String → Bool
  pub is_single_line : String → Bool
  pub text_length : String → ℕ
  pub start_digest : Option String → String
  pub selection_digest : Selection → String
  pub action_digest : ToolAction → String
  pub receipt_digest : TurnReceipt → String
  pub completed_digest : CompletedTurn → String
  pub promotion_digest : Promotion → String
  pub abandonment_digest : Abandonment → String
  pub correlation_digest : Correlation → String
  pub key_digest : String → String

-- The error codes, without their prefix `threadmesh_durable_turn_intent_`
-- (`threadmesh_turn_execution_` for reconciliation_conflict), and the TypeError of a null reference.
pub data IntentError : Type 0 where
  intent_invalid : IntentError
  start_invalid : IntentError
  start_already_claimed : IntentError
  start_conflict : IntentError
  operation_not_bound : IntentError
  not_started : IntentError
  terminal_state : IntentError
  tool_action_invalid : IntentError
  tool_action_conflict : IntentError
  tool_ordinal_invalid : IntentError
  tool_call_conflict : IntentError
  turn_binding_mismatch : IntentError
  tool_completion_invalid : IntentError
  tool_completion_mismatch : IntentError
  tool_completion_missing_selection : IntentError
  tool_completion_conflict : IntentError
  evidence_invalid : IntentError
  turn_not_completed : IntentError
  receipt_invalid : IntentError
  binding_invalid : IntentError
  type_error : IntentError
  receipt_digest_mismatch : IntentError
  non_threadmesh_tool_observed : IntentError
  actor_binding_mismatch : IntentError
  tool_calls_invalid : IntentError
  tool_action_not_completed : IntentError
  tool_binding_mismatch : IntentError
  completed_binding_conflict : IntentError
  promotion_invalid : IntentError
  promotion_conflict : IntentError
  not_completed : IntentError
  no_model_selected_tool : IntentError
  abandonment_invalid : IntentError
  abandonment_conflict : IntentError
  unknown_conflict : IntentError
  not_unknown : IntentError
  reconcile_invalid : IntentError
  reconciliation_conflict : IntentError

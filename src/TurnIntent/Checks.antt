-- ===== src/TurnIntent/Checks.antt =====
-- The checks of a turn intent and its parts, in the order of the source, with the error codes they
-- throw (the functions before `replace` in src/state/durable-turn-intent.mjs).
use threadmesh.Prelude.{
  ℕ, suc, Bool, true, false, not, ◌&&◌, ◌||◌, String, Option, none, some, List, [], ◌∷◌, ◌==◌, ltb,
  leb, length, every, includes, string_eq, nat_eq, option_eq, Result, ok, err, ◌>>◌, throw_if,
  if◌then◌else◌,
}
use threadmesh.Vocabulary.{Instant, millis, nan, is_present}
use threadmesh.TurnIntent.{
  Actor, Proposal, ToolAction, Evidence, TurnReceipt, ToolCall, Promotion, Terminal, Abandonment,
  Formats, IntentError, intent_invalid, start_invalid, turn_binding_mismatch, evidence_invalid,
  turn_not_completed, receipt_invalid, tool_calls_invalid, tool_action_not_completed,
  tool_binding_mismatch, promotion_invalid, abandonment_invalid,
}

-- MAX_TOOLS
abbrev pub max_tools : ℕ
max_tools = 4

abbrev pub assert_that : Bool → IntentError → Result IntentError (Unit {0})
assert_that test e = throw_if (not test) e

abbrev is_nan : Instant → Bool
is_nan (millis t) = false
is_nan nan = true

abbrev pub has_any {ℓ} : {A : Type ℓ} → List A → Bool
has_any [] = false
has_any (x ∷ xs) = true

abbrev pub are_distinct : List String → Bool
are_distinct [] = true
are_distinct (name ∷ names) = not (includes names name) && are_distinct names

-- actor
unfoldable pub assert_actor : Formats → Actor → Result IntentError (Unit {0})
assert_actor x a = do
  assert_that (x.is_id a.task_id) intent_invalid
  assert_that (x.is_id a.incarnation_id) intent_invalid
  assert_that (x.is_id a.thread_id) intent_invalid
  assert_that (x.is_digest a.snapshot_digest) intent_invalid

-- allowlist
unfoldable pub assert_allowlist : Formats → List String → Result IntentError (Unit {0})
assert_allowlist x names = do
  throw_if (not (has_any names) || (ltb max_tools (length names) || not (are_distinct names)))
      intent_invalid
  assert_that (every x.is_tool names) intent_invalid

-- proposedBody
unfoldable pub assert_proposal : Formats → Proposal → Result IntentError (Unit {0})
assert_proposal x p = do
  assert_that
      (every x.is_id (
        p.intent_id ∷ p.scenario_id ∷ p.chain_id ∷ p.message_id ∷ p.event_id
        ∷ p.adapter_idempotency_key ∷ []))
      intent_invalid
  assert_that (x.is_digest p.prompt_digest) intent_invalid
  assert_actor x p.actor
  assert_allowlist x p.allowed_tools

-- start
unfoldable pub assert_start : Formats → Option String → Result IntentError (Unit {0})
assert_start x none = ok tt
assert_start x (some turn) = assert_that (x.is_id turn) start_invalid

abbrev is_some_digest : Formats → Option String → Bool
is_some_digest x none = false
is_some_digest x (some d) = x.is_digest d

-- Neither a digest nor a status, or both, as of a completed call.
abbrev pub has_valid_result : Formats → ToolAction → Bool
has_valid_result x a =
    (not (is_present a.result_digest) && not (is_present a.result_status))
    || (is_some_digest x a.result_digest && (a.result_status == some "completed"))

-- action
unfoldable pub assert_action :
    Formats → List String → Option String → IntentError → ToolAction → Result IntentError (Unit {0})
assert_action x allowed turn code a = do
  assert_that (x.is_id a.selection.turn_id && x.is_id a.selection.call_id) code
  assert_that (ltb a.selection.ordinal max_tools) code
  assert_that (includes allowed a.selection.name) code
  assert_that (x.is_digest a.selection.arguments_digest) code
  assert_that (has_valid_result x a) code
  assert_that (turn == some a.selection.turn_id) turn_binding_mismatch

-- The loop of validate over the tool actions, from an ordinal on, with the call ids before.
unfoldable pub assert_actions :
    Formats
    → List String
    → Option String
    → ℕ
    → List String
    → List ToolAction
    → Result IntentError (Unit {0})
assert_actions x allowed turn n seen [] = ok tt
assert_actions x allowed turn n seen (a ∷ actions) =
    assert_action x allowed turn intent_invalid a
    >> throw_if (not (a.selection.ordinal == n) || includes seen a.selection.call_id) intent_invalid
    >> assert_actions x allowed turn (suc n) (a.selection.call_id ∷ seen) actions

abbrev is_count : ℕ → Bool
is_count n = leb n 1000000

-- evidence
unfoldable pub assert_evidence : Formats → Evidence → Result IntentError (Unit {0})
assert_evidence x e = do
  assert_that (x.is_id e.thread_id && x.is_id e.turn_id) evidence_invalid
  assert_that (e.turn_status == "completed") turn_not_completed
  throw_if (elim e.completed_at [ none ↦ false | some t ↦ is_nan t ]) evidence_invalid
  throw_if (ltb (x.text_length e.user_agent) 1 || ltb 512 (x.text_length e.user_agent))
      evidence_invalid
  assert_that (x.is_digest e.snapshot_digest) evidence_invalid
  assert_that
      (every is_count (
        e.server_request_denied_count ∷ e.server_request_handled_count ∷ e.notification_count
        ∷ e.delta_count ∷ []))
      evidence_invalid

-- `typeof ref === "string" && 1 <= ref.length <= 512` and no line breaks
abbrev is_evidence_ref : Formats → String → Bool
is_evidence_ref x ref =
    leb 1 (x.text_length ref) && (leb (x.text_length ref) 512 && x.is_single_line ref)

abbrev pub are_evidence_refs : Formats → List String → Bool
are_evidence_refs x refs = has_any refs && (leb (length refs) 8 && every (is_evidence_ref x) refs)

-- receipt
unfoldable pub assert_receipt : Formats → TurnReceipt → Result IntentError (Unit {0})
assert_receipt x r = do
  assert_that (x.is_id r.adapter_operation_id) receipt_invalid
  throw_if (is_nan r.accepted_at) receipt_invalid
  assert_that (are_evidence_refs x r.evidence_refs) receipt_invalid

-- The loop body of calls
unfoldable pub assert_call :
    Formats
    → List String
    → Option String
    → ℕ
    → ToolCall
    → ToolAction
    → Result IntentError (Unit {0})
assert_call x allowed turn n c a = do
  throw_if
      (not (c.ordinal == n)
        || (not (turn == some c.turn_id)
            || (not (c.call_id == a.selection.call_id) || not (includes allowed c.tool))))
      tool_calls_invalid
  assert_that (x.is_digest c.arguments_digest && x.is_digest c.output_digest) tool_calls_invalid
  assert_that (c.result_status == "completed") tool_calls_invalid
  assert_that (is_present a.result_digest && is_present a.result_status) tool_action_not_completed
  throw_if
      (not (a.selection.name == c.tool)
        || (not (a.selection.arguments_digest == c.arguments_digest)
            || (not (a.result_digest == some c.output_digest)
                || not (a.result_status == some c.result_status))))
      tool_binding_mismatch

unfoldable pub assert_calls_from :
    Formats
    → List String
    → Option String
    → ℕ
    → List ToolCall
    → List ToolAction
    → Result IntentError (Unit {0})
assert_calls_from x allowed turn n [] [] = ok tt
assert_calls_from x allowed turn n [] (a ∷ actions) = err tool_calls_invalid
assert_calls_from x allowed turn n (c ∷ calls) [] = err tool_calls_invalid
assert_calls_from x allowed turn n (c ∷ calls) (a ∷ actions) =
    assert_call x allowed turn n c a >> assert_calls_from x allowed turn (suc n) calls actions

-- calls
unfoldable pub assert_calls :
    Formats
    → List String
    → Option String
    → List ToolCall
    → List ToolAction
    → Result IntentError (Unit {0})
assert_calls x allowed turn calls actions = do
  throw_if (not (length calls == length actions) || ltb max_tools (length calls)) tool_calls_invalid
  assert_calls_from x allowed turn 0 calls actions

-- promotion
unfoldable pub assert_promotion : Formats → Promotion → Result IntentError (Unit {0})
assert_promotion x p = do
  assert_that (is_count p.expected_evidence_chain_revision) promotion_invalid
  assert_that
      (if p.expected_evidence_chain_revision == 0
        then not (is_present p.expected_evidence_chain_head)
        else is_some_digest x p.expected_evidence_chain_head)
      promotion_invalid

abbrev pub is_terminal_status : String → Bool
is_terminal_status status = includes ("interrupted" ∷ "failed" ∷ []) status

abbrev assert_terminal : Formats → Option Terminal → Result IntentError (Unit {0})
assert_terminal x none = ok tt
assert_terminal x (some t) = do
  assert_that (is_terminal_status t.turn_status) abandonment_invalid
  assert_that (are_evidence_refs x t.evidence_refs) abandonment_invalid
  assert_that
      (every x.is_digest (
        t.baseline_digest ∷ t.observation_digest ∷ t.client_user_message_id_digest
        ∷ t.correlation_digest ∷ []))
      abandonment_invalid

-- abandonment
unfoldable pub assert_abandonment : Formats → Abandonment → Result IntentError (Unit {0})
assert_abandonment x a = do
  assert_that (x.is_reason a.reason_code) abandonment_invalid
  assert_terminal x a.terminal

-- `evidenceRefs` is the baseline and the observation, and nothing else.
abbrev has_refs : List String → String → String → Bool
has_refs (baseline ∷ observation ∷ []) b o = (baseline == b) && (observation == o)
has_refs refs b o = false

-- terminalCorrelation
unfoldable pub assert_correlation :
    Formats
    → Proposal
    → Option String
    → IntentError
    → Option Terminal
    → Result IntentError (Unit {0})
assert_correlation x p turn code none = ok tt
assert_correlation x p turn code (some t) =
    assert_that
      ((t.client_user_message_id_digest == x.key_digest p.adapter_idempotency_key)
        && ((t.correlation_digest
              == x.correlation_digest (record {
                thread_id = p.actor.thread_id;
                turn_id = turn;
                snapshot_digest = p.actor.snapshot_digest;
                baseline_digest = t.baseline_digest;
                observation_digest = t.observation_digest;
                client_user_message_id_digest = t.client_user_message_id_digest;
              }))
            && has_refs t.evidence_refs t.baseline_digest t.observation_digest))
      code

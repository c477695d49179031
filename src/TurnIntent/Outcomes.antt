-- ===== src/TurnIntent/Outcomes.antt =====
-- The operations that end a turn intent (bindCompletedTurnIntent and the functions after it in
-- src/state/durable-turn-intent.mjs), and all operations as one step.
use threadmesh.Prelude.{
  ℕ, suc, Bool, true, false, not, ◌&&◌, ◌||◌, String, Option, none, some, List, [], ◌∷◌, ◌==◌,
  length, string_eq, nat_eq, option_eq, Result, ok, err, ◌>>=◌, ◌>>◌, throw_if, or_throw,
  if◌then◌else◌,
}
use threadmesh.Vocabulary.{is_present}
use threadmesh.TurnIntent.{
  Selection, ToolAction, Completion, ToolCall, Binding, CompletedTurn, Promotion, Terminal,
  Abandonment, Intent, Formats, IntentError, start_conflict, operation_not_bound, not_started,
  terminal_state, receipt_digest_mismatch, non_threadmesh_tool_observed, actor_binding_mismatch,
  tool_calls_invalid, tool_binding_mismatch, completed_binding_conflict, promotion_conflict,
  not_completed, no_model_selected_tool, abandonment_conflict, unknown_conflict, not_unknown,
  reconcile_invalid, reconciliation_conflict, binding_invalid, type_error, started, outcome_unknown,
  completed_turn_bound, promoted, abandoned,
}
use threadmesh.TurnIntent.Checks.{
  assert_that, has_any, assert_evidence, assert_receipt, assert_calls, assert_promotion,
  are_evidence_refs, is_terminal_status, assert_abandonment, assert_correlation,
}
use threadmesh.TurnIntent.Validation.{validate}
use threadmesh.TurnIntent.Operations.{
  start, bind_operation, record_selection, complete_action, completion_of, as_started, is_started,
  turn_of,
}

-- `turnId === null || turnId === turn`
abbrev pub agrees : Option String → String → Bool
agrees none turn = true
agrees (some bound) turn = bound == turn

abbrev pub completed_of : Binding → CompletedTurn
completed_of b = record {
  evidence = b.evidence;
  adapter_receipt_digest = b.adapter_receipt_digest;
  tool_calls = b.tool_calls;
}

-- The comparison of a binding with the actor and with the turn that was started.
unfoldable pub assert_bound : Intent → Binding → Option String → Result IntentError (Unit {0})
assert_bound i b turn =
    assert_that
      (agrees turn b.evidence.turn_id
        && (agrees turn b.receipt.adapter_operation_id
            && (b.receipt.adapter_operation_id == b.evidence.turn_id)))
      actor_binding_mismatch

-- binding
unfoldable pub binding_of : Formats → Binding → Intent → Result IntentError CompletedTurn
binding_of x b i = do
  assert_evidence x b.evidence
  assert_receipt x b.receipt
  assert_that (x.is_digest b.adapter_receipt_digest) binding_invalid
  assert_that (x.receipt_digest b.receipt == b.adapter_receipt_digest) receipt_digest_mismatch
  assert_that (b.non_threadmesh_tool_calls == 0) non_threadmesh_tool_observed
  assert_that
      ((b.evidence.thread_id == i.proposal.actor.thread_id)
        && (b.evidence.snapshot_digest == i.proposal.actor.snapshot_digest))
      actor_binding_mismatch
  turn ← or_throw i.turn_start type_error
  assert_bound i b turn
  assert_calls x i.proposal.allowed_tools turn b.tool_calls i.tool_actions
  ok (completed_of b)

abbrev pub with_completed :
    Intent → Option (Option String) → List ToolAction → CompletedTurn → Intent
with_completed i turn actions c = record i {
  state = completed_turn_bound;
  turn_start = turn;
  tool_actions = actions;
  completed_turn = some c;
  promotion = none;
  abandonment = none;
}

-- Whether a stored part has the digest of a given one.
abbrev pub has_same_digest : {A : Type 0} → (A → String) → Option A → A → Bool
has_same_digest digest none b = false
has_same_digest digest (some a) b = digest a == digest b

-- bindCompletedTurnIntent
unfoldable pub bind_completed : Formats → Binding → Intent → Result IntentError Intent
bind_completed x b i = do
  validate x i
  throw_if (is_started i.state && not (is_present (turn_of i.turn_start))) operation_not_bound
  c ← binding_of x b i
  elim i.state [
    | completed_turn_bound ↦
        if has_same_digest x.completed_digest i.completed_turn c
        then ok i
        else err completed_binding_conflict
    | started ↦ ok (with_completed i i.turn_start i.tool_actions c)
    | _ ↦ err not_started
  ]

-- markTurnOutcomeUnknown
unfoldable pub mark_unknown : Formats → Abandonment → Intent → Result IntentError Intent
mark_unknown x a i = do
  validate x i
  assert_abandonment x a
  elim i.state [
    | outcome_unknown ↦
        if has_same_digest x.abandonment_digest i.abandonment a then ok i else err unknown_conflict
    | started ↦ ok (record i {
      state = outcome_unknown;
      completed_turn = none;
      promotion = none;
      abandonment = some a;
    })
    | _ ↦ err not_started
  ]

-- The actions of an intent, completed from the calls that a receipt lists.
unfoldable pub completed_actions :
    Formats → String → ℕ → List ToolCall → List ToolAction → Result IntentError (List ToolAction)
completed_actions x turn n [] actions = ok []
completed_actions x turn n (c ∷ calls) [] = err tool_calls_invalid
completed_actions x turn n (c ∷ calls) (a ∷ actions) =
    throw_if
      (not (c.ordinal == n)
        || (not (c.turn_id == turn)
            || (not (c.call_id == a.selection.call_id)
                || (not (c.tool == a.selection.name)
                    || not (c.arguments_digest == a.selection.arguments_digest)))))
      tool_binding_mismatch
    >> (if is_present a.result_digest
        then ok a
        else completion_of x
            (record {
              turn_id = c.turn_id;
              call_id = c.call_id;
              ordinal = n;
              result_digest = c.output_digest;
              result_status = c.result_status;
            })
            a)
    >>= λ completed.
        completed_actions x turn (suc n) calls actions >>= λ rest. ok (completed ∷ rest)

-- The branch `found` of reconcileUnknownDurableTurnIntent.
unfoldable pub found_bound : Formats → Binding → Intent → Result IntentError Intent
found_bound x b i = do
  throw_if (not (length b.tool_calls == length i.tool_actions)) tool_calls_invalid
  actions ← completed_actions x b.evidence.turn_id 0 b.tool_calls i.tool_actions
  c ← binding_of x b (as_started i (some b.evidence.turn_id) actions)
  ok (with_completed i (some (some b.evidence.turn_id)) actions c)

-- What is known of a turn whose outcome was unknown.
pub data Observation : Type 0 where
  ambiguous : Observation
  found : Binding → Observation
  found_terminal : String → String → Terminal → Observation
  not_found : String → Observation
  unreadable : Observation

-- The branch `found-terminal`.
unfoldable pub found_ended :
    Formats → String → Abandonment → Terminal → Intent → Result IntentError Intent
found_ended x turn marker t i = do
  assert_that (x.is_id turn) reconcile_invalid
  assert_that (is_terminal_status t.turn_status) reconcile_invalid
  assert_that (are_evidence_refs x t.evidence_refs) reconcile_invalid
  assert_abandonment x marker
  assert_correlation x i.proposal (some turn) reconcile_invalid (some t)
  throw_if (has_any i.tool_actions) reconciliation_conflict
  throw_if (not (agrees (turn_of i.turn_start) turn)) start_conflict
  ok (record i {
    state = abandoned;
    turn_start = some (some turn);
    tool_actions = [];
    completed_turn = none;
    promotion = none;
    abandonment = some marker;
  })

unfoldable pub reconciled_by : Formats → Intent → Observation → Result IntentError Intent
reconciled_by x i ambiguous = ok i
reconciled_by x i (found b) = found_bound x b i
reconciled_by x i (found_terminal turn reason t) =
    found_ended x turn (record { reason_code = reason; terminal = some t }) t i
reconciled_by x i (not_found reason) =
    assert_abandonment x (record { reason_code = reason; terminal = none })
    >> ok (record i {
      state = abandoned;
      completed_turn = none;
      promotion = none;
      abandonment = some (record { reason_code = reason; terminal = none });
    })
reconciled_by x i unreadable = err reconcile_invalid

-- reconcileUnknownDurableTurnIntent
unfoldable pub reconcile_unknown : Formats → Observation → Intent → Result IntentError Intent
reconcile_unknown x o i = do
  validate x i
  elim i.state [ outcome_unknown ↦ reconciled_by x i o | _ ↦ err not_unknown ]

-- promoteDurableTurnIntent
unfoldable pub promote : Formats → Promotion → Intent → Result IntentError Intent
promote x p i = do
  validate x i
  assert_promotion x p
  elim i.state [
    | promoted ↦
        if has_same_digest x.promotion_digest i.promotion p then ok i else err promotion_conflict
    | completed_turn_bound ↦
        throw_if (not (has_any i.tool_actions)) no_model_selected_tool
        >> ok (record i { state = promoted; promotion = some p; abandonment = none })
    | abandoned ↦ err terminal_state
    | _ ↦ err not_completed
  ]

-- abandonDurableTurnIntent
unfoldable pub abandon : Formats → Abandonment → Intent → Result IntentError Intent
abandon x a i = do
  validate x i
  assert_abandonment x a
  elim i.state [
    | abandoned ↦
        if has_same_digest x.abandonment_digest i.abandonment a
        then ok i
        else err abandonment_conflict
    | promoted ↦ err terminal_state
    | _ ↦ ok (record i { state = abandoned; promotion = none; abandonment = some a })
  ]

pub data Operation : Type 0 where
  starts : Operation
  binds_operation : String → Operation
  selects : Selection → Operation
  completes : Completion → Operation
  binds_completed : Binding → Operation
  marks_unknown : Abandonment → Operation
  reconciles : Observation → Operation
  promotes : Promotion → Operation
  abandons : Abandonment → Operation

unfoldable pub apply : Formats → Operation → Intent → Result IntentError Intent
apply x starts i = start x i
apply x (binds_operation turn) i = bind_operation x turn i
apply x (selects s) i = record_selection x s i
apply x (completes c) i = complete_action x c i
apply x (binds_completed b) i = bind_completed x b i
apply x (marks_unknown a) i = mark_unknown x a i
apply x (reconciles o) i = reconcile_unknown x o i
apply x (promotes p) i = promote x p i
apply x (abandons a) i = abandon x a i

-- ===== src/Tests/Intents.antt =====
-- The theorems on turn intents, applied to the intent of one turn with one tool action.
use threadmesh.Prelude.{
  List, ◌≡◌, ◌≢◌, refl, true, arith, String, none, some, [], ◌∷◌, ok, err, string_eq,
}
use threadmesh.Vocabulary.{millis}
use threadmesh.TurnIntent.{
  Formats, Intent, Proposal, Selection, Binding, Promotion, Abandonment, intent_invalid, proposed,
  started, outcome_unknown, completed_turn_bound, promoted, abandoned,
}
use threadmesh.TurnIntent.Checks.{
  has_any, assert_actor, assert_allowlist, assert_proposal, assert_start, assert_action,
  assert_actions, assert_evidence, assert_receipt, assert_call, assert_calls_from, assert_calls,
  assert_promotion, assert_abandonment,
}
use threadmesh.TurnIntent.Validation.{
  assert_abandoned, assert_completed, validate_started, validate_by, validate,
}
use threadmesh.TurnIntent.Operations.{propose, record_selection, action_at, selected_or_conflict}
use threadmesh.TurnIntent.Outcomes.{
  Operation, binds_operation, reconcile_unknown, promote, abandon, starts, selects, found, apply,
  completed_of,
}
use threadmesh.TurnIntent.Reconciled.{apply-validate}
use threadmesh.TurnIntent.Transitions.{Advances, apply-Advances}
use threadmesh.TurnIntent.Replays.{apply-repeat}
use threadmesh.TurnIntent.Histories.{apply_all, all_keep_turn, propose-apply_all}
use threadmesh.TurnIntent.Gaps.{abandon_rejected, IsInOrder, reconcile_rebinds}
use threadmesh.TurnIntent.Backing.{IsBacked, promote-IsBacked}

abbrev formats : Formats
formats = record {
  is_id = λ text. true;
  is_tool = λ text. true;
  is_digest = λ text. true;
  is_reason = λ text. true;
  is_single_line = λ text. true;
  text_length = λ text. 8;
  start_digest = λ turn. "start";
  selection_digest = λ s. s.call_id;
  action_digest = λ a. a.selection.call_id;
  receipt_digest = λ r. r.adapter_operation_id;
  completed_digest = λ c. c.adapter_receipt_digest;
  promotion_digest = λ p. "promotion";
  abandonment_digest = λ a. a.reason_code;
  correlation_digest = λ c. c.baseline_digest;
  key_digest = λ key. key;
}

abbrev proposal_1 : Proposal
proposal_1 = record {
  intent_id = "intent_1";
  scenario_id = "scenario_1";
  chain_id = "chain_1";
  message_id = "msg_1";
  event_id = "event_1";
  actor = record {
    task_id = "worker";
    incarnation_id = "inc_work_01";
    thread_id = "thread_9";
    snapshot_digest = "snapshot_9";
  };
  adapter_idempotency_key = "adp_1";
  prompt_digest = "prompt_1";
  allowed_tools = "threadmesh_reply" ∷ "threadmesh_accept" ∷ [];
}

abbrev selection_1 : Selection
selection_1 = record {
  turn_id = "turn_5";
  call_id = "call_1";
  ordinal = 0;
  name = "threadmesh_reply";
  arguments_digest = "arguments_1";
}

abbrev fresh_intent : Intent
fresh_intent = record {
  proposal = proposal_1;
  state = proposed;
  turn_start = none;
  tool_actions = [];
  completed_turn = none;
  promotion = none;
  abandonment = none;
}

abbrev running : Intent
running = record fresh_intent { state = started; turn_start = some (some "turn_5") }

abbrev acting : Intent
acting = record running {
  tool_actions =
      (record { selection = selection_1; result_digest = none; result_status = none }) ∷ [];
}

selects_one : apply formats (selects selection_1) running ≡ ok acting
unfolding apply record_selection validate validate_by validate_started assert_proposal assert_actor
    assert_allowlist assert_start assert_actions assert_action action_at selected_or_conflict
selects_one = refl

apply-validate_example : validate formats acting ≡ ok tt
apply-validate_example =
    apply-validate formats (selects selection_1) running acting selects_one refl

apply-Advances_example : Advances running acting
apply-Advances_example = apply-Advances formats (selects selection_1) running acting selects_one

apply-repeat_example : apply formats (selects selection_1) acting ≡ ok acting
apply-repeat_example =
    apply-repeat formats (selects selection_1) running acting refl refl selects_one

abbrev binding_in : String → Binding
binding_in turn = record {
  evidence = record {
    thread_id = "thread_9";
    turn_id = turn;
    turn_status = "completed";
    completed_at = none;
    duration_ms = none;
    user_agent = "codex/1.0";
    snapshot_digest = "snapshot_9";
    server_request_denied_count = 0;
    server_request_handled_count = 1;
    notification_count = 4;
    delta_count = 12;
  };
  receipt = record {
    adapter_operation_id = turn;
    accepted_at = millis 1200;
    evidence_refs = "evidence_1" ∷ [];
  };
  adapter_receipt_digest = turn;
  tool_calls = [];
  non_threadmesh_tool_calls = 0;
}

abbrev backed : Intent
backed = record running {
  state = completed_turn_bound;
  tool_actions =
      (record {
        selection = selection_1;
        result_digest = some "result_1";
        result_status = some "completed";
      })
      ∷ [];
  completed_turn = some (record (completed_of (binding_in "turn_5")) {
    tool_calls =
        (record {
          ordinal = 0;
          turn_id = "turn_5";
          call_id = "call_1";
          tool = "threadmesh_reply";
          arguments_digest = "arguments_1";
          output_digest = "result_1";
          result_status = "completed";
        })
        ∷ [];
  });
}

abbrev promotion_1 : Promotion
promotion_1 = record { expected_evidence_chain_revision = 0; expected_evidence_chain_head = none }

abbrev promoted_intent : Intent
promoted_intent = record backed { state = promoted; promotion = some promotion_1 }

promotes_one : promote formats promotion_1 backed ≡ ok promoted_intent
unfolding promote validate validate_by validate_started assert_proposal assert_actor
    assert_allowlist assert_start assert_actions assert_action assert_completed assert_evidence
    assert_calls assert_calls_from assert_call assert_promotion
promotes_one = refl

promote-IsBacked_example : IsBacked promoted_intent × (has_any promoted_intent.tool_actions ≡ true)
promote-IsBacked_example =
    promote-IsBacked formats promotion_1 backed promoted_intent refl promotes_one

abbrev marker : Abandonment
marker = record {
  reason_code = "threadmesh_interrupted";
  terminal = some (record {
    turn_status = "interrupted";
    evidence_refs = "baseline" ∷ "observation" ∷ [];
    baseline_digest = "baseline";
    observation_digest = "observation";
    client_user_message_id_digest = "adp_1";
    correlation_digest = "baseline";
  });
}

abbrev spoiled : Intent
spoiled = record fresh_intent { state = abandoned; abandonment = some marker }

fresh_is_valid : validate formats fresh_intent ≡ ok tt
unfolding validate validate_by assert_proposal assert_actor assert_allowlist
fresh_is_valid = refl

marker_is_valid : assert_abandonment formats marker ≡ ok tt
unfolding assert_abandonment
marker_is_valid = refl

abandon_rejected_example :
    (i' : Intent) × (abandon formats marker fresh_intent ≡ ok i')
    × (apply formats starts i' ≡ err intent_invalid)
abandon_rejected_example =
    abandon_rejected formats marker fresh_intent fresh_is_valid refl marker_is_valid refl starts

abbrev doubtful : Intent
doubtful = record running {
  state = outcome_unknown;
  abandonment = some (record { reason_code = "threadmesh_lost"; terminal = none });
}

another-IsInOrder : IsInOrder formats (binding_in "turn_6") doubtful
unfolding validate validate_by validate_started assert_proposal assert_actor assert_allowlist
    assert_start assert_actions assert_abandoned assert_abandonment assert_evidence assert_receipt
another-IsInOrder = record {
  well_formed = refl;
  is_unknown = refl;
  no_actions = refl;
  evidence = refl;
  receipt = refl;
  is_digest = refl;
  digest = refl;
  no_calls = refl;
  no_others = refl;
  thread = refl;
  snapshot = refl;
  operation = refl;
}

other_turn : ◌≢◌ {A = String} "turn_5" "turn_6"
other_turn = λ same. ground (arith, string_eq.beq_iff "turn_5" "turn_6")

reconcile_rebinds_example :
    (i' : Intent) × (reconcile_unknown formats (found (binding_in "turn_6")) doubtful ≡ ok i')
    × (i'.turn_start ≡ some (some "turn_6"))
    × (i'.turn_start ≢ doubtful.turn_start)
    × (validate formats i' ≡ ok tt)
reconcile_rebinds_example =
    reconcile_rebinds formats (binding_in "turn_6") doubtful "turn_5" another-IsInOrder refl
      other_turn

proposes : propose formats proposal_1 ≡ ok fresh_intent
unfolding propose assert_proposal assert_actor assert_allowlist
proposes = refl

-- A start, a second start that throws, the binding of the turn, and a selection.
abbrev steps : List Operation
steps = starts ∷ starts ∷ binds_operation "turn_5" ∷ selects selection_1 ∷ []

propose-apply_all_example :
    (validate formats (apply_all formats steps fresh_intent) ≡ ok tt)
    × ((apply_all formats steps fresh_intent).proposal ≡ proposal_1)
unfolding all_keep_turn
propose-apply_all_example = propose-apply_all formats proposal_1 steps fresh_intent proposes refl

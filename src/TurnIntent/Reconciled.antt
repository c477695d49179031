-- ===== src/TurnIntent/Reconciled.antt =====
-- The reconciliation of a turn whose outcome was unknown, and the operations together: what leaves a
-- well-formed intent.
use threadmesh.Prelude.{
  Result-cases, beq_sound, ◌≡◌, refl, inl, inr, Bool, true, false, not, ◌&&◌, String, Option, none,
  some, List, [], ◌∷◌, length, arith, string_eq, nat_eq, option_eq, ok,
}
use threadmesh.Vocabulary.{is_present}
use threadmesh.TurnIntent.{
  Proposal, ToolAction, Binding, CompletedTurn, Terminal, Abandonment, Intent, Formats, IntentError,
  intent_invalid, reconcile_invalid, outcome_unknown, abandoned,
}
use threadmesh.TurnIntent.Checks.{
  has_any, assert_evidence, assert_abandonment, assert_correlation, assert_proposal, assert_start,
  assert_actions,
}
use threadmesh.TurnIntent.Validation.{
  validate, validate_by, validate_started, assert_completed, assert_abandoned,
}
use threadmesh.TurnIntent.Operations.{as_started, turn_of}
use threadmesh.TurnIntent.Actions.{completed_actions-valid}
use threadmesh.TurnIntent.Outcomes.{
  Operation, apply, reconcile_unknown, agrees, binding_of, found_bound, completed_actions,
  reconciled_by, Observation, with_completed,
}
use threadmesh.TurnIntent.Validity.{
  StartedParts, start-validate, mark_unknown-validate, promote-validate, bind_operation-validate,
  assert_completed-bound, abandon-validate, record_selection-validate, complete_action-validate,
  bind_completed-validate,
}
use threadmesh.TurnIntent.Outcomes.{
  starts, binds_operation, selects, completes, binds_completed, marks_unknown, reconciles, promotes,
  abandons, ambiguous, found, found_terminal, not_found, unreadable, found_ended,
}

unbound-actions :
    (x : Formats) (allowed : List String) (turn : Option String) (observed_turn : String)
    (actions : List ToolAction)
    → (not (is_present turn) && has_any actions) ≡ false
    → agrees turn observed_turn ≡ true
    → assert_actions x allowed turn 0 [] actions ≡ ok tt
    → assert_actions x allowed (some observed_turn) 0 [] actions ≡ ok tt
unfolding assert_actions
unbound-actions x allowed none t [] none_bound same v = refl
unbound-actions x allowed none t (a ∷ actions) none_bound same v = absurd (ground arith)
unbound-actions x allowed (some bound) t actions none_bound same v = rw (← beq_sound bound t same) v

validate-UnknownParts :
    (x : Formats) (i : Intent) (turn : String)
    → validate x i ≡ ok tt
    → i.state ≡ outcome_unknown
    → agrees (turn_of i.turn_start) turn ≡ true
    → x.is_id turn ≡ true
    → StartedParts x i (some turn)
unfolding validate validate_by assert_start
validate-UnknownParts x i turn v is same id = record {
  proposal_valid = ground arith;
  few_actions = ground arith;
  start_valid = ground arith;
  actions_valid = ground (
    arith,
    unbound-actions x i.proposal.allowed_tools (turn_of i.turn_start) turn i.tool_actions,
  );
}

pub with_completed-validate :
    (x : Formats) (i : Intent) (turn : String) (actions : List ToolAction) (c : CompletedTurn)
    → StartedParts x i (some turn)
    → length actions ≡ length i.tool_actions
    → assert_actions x i.proposal.allowed_tools (some turn) 0 [] actions ≡ ok tt
    → assert_completed x i.proposal actions (some turn) (some c) ≡ ok tt
    → validate x (with_completed i (some (some turn)) actions c) ≡ ok tt
unfolding validate validate_by validate_started
with_completed-validate x i turn actions c parts size valid completed =
    rw (parts.proposal_valid, size, parts.few_actions, parts.start_valid, valid, completed) refl

pub assert_evidence-turn :
    (x : Formats) (b : Binding) (i : Intent) (c : CompletedTurn)
    → binding_of x b i ≡ ok c
    → x.is_id b.evidence.turn_id ≡ true
unfolding binding_of assert_evidence
assert_evidence-turn x b i c h = ground arith

-- The parts of a recovered turn.
found-validate :
    (x : Formats) (b : Binding) (i i' : Intent)
    → validate x i ≡ ok tt
    → i.state ≡ outcome_unknown
    → agrees (turn_of i.turn_start) b.evidence.turn_id ≡ true
    → found_bound x b i ≡ ok i'
    → validate x i' ≡ ok tt
unfolding found_bound
found-validate x b i i' v is same h =
    elim (Result-cases (completed_actions x b.evidence.turn_id 0 b.tool_calls i.tool_actions)) [
      | inr (e, failed) ↦ absurd (ground arith)
      | inl (actions, done) ↦
          elim (Result-cases (binding_of x b (as_started i (some b.evidence.turn_id) actions))) [
            | inr (e, failed) ↦ absurd (ground arith)
            | inl (c, bound) ↦
                let turn : String = b.evidence.turn_id in
                let recovered : Intent = as_started i (some turn) actions in
                let parts =
                  validate-UnknownParts x i turn v is same
                    (assert_evidence-turn x b recovered c bound) in
                let (valid, size) =
                  completed_actions-valid x i.proposal.allowed_tools (some turn) turn 0 []
                    b.tool_calls i.tool_actions actions done
                    (ground (arith, nat_eq.beq_iff (length b.tool_calls) (length i.tool_actions)))
                    parts.actions_valid in
                let made : i' ≡ with_completed i (some (some turn)) actions c = ground arith in
                rw made (
                  with_completed-validate x i turn actions c parts size valid
                    (assert_completed-bound x b recovered c (some turn) bound refl refl))
          ]
    ]

assert_correlation-code :
    (x : Formats) (p : Proposal) (turn : Option String) (code other : IntentError)
    (t : Option Terminal)
    → assert_correlation x p turn code t ≡ ok tt
    → assert_correlation x p turn other t ≡ ok tt
unfolding assert_correlation
assert_correlation-code x p turn code other none h = refl
assert_correlation-code x p turn code other (some t) h = ground arith

abbrev ended_as : Intent → String → Abandonment → Intent
ended_as i turn a = record i {
  state = abandoned;
  turn_start = some (some turn);
  tool_actions = [];
  completed_turn = none;
  promotion = none;
  abandonment = some a;
}

found_ended-ok :
    (x : Formats) (i i' : Intent) (turn : String) (a : Abandonment) (t : Terminal)
    → found_ended x turn a t i ≡ ok i'
    → (i' ≡ ended_as i turn a)
      × (x.is_id turn ≡ true)
      × (assert_abandonment x a ≡ ok tt)
      × (assert_correlation x i.proposal (some turn) reconcile_invalid (some t) ≡ ok tt)
unfolding found_ended
found_ended-ok x i i' turn a t h = (ground arith, ground arith, ground arith, ground arith)

pub validate-proposal :
    (x : Formats) (i : Intent) → validate x i ≡ ok tt → assert_proposal x i.proposal ≡ ok tt
unfolding validate
validate-proposal x i v = ground arith

ended-validate :
    (x : Formats) (i i' : Intent) (turn reason : String) (t : Terminal)
    → let a : Abandonment = record { reason_code = reason; terminal = some t } in
      validate x i ≡ ok tt → found_ended x turn a t i ≡ ok i' → validate x i' ≡ ok tt
unfolding validate validate_by validate_started assert_abandoned assert_start assert_actions
    assert_completed
ended-validate x i i' turn reason t v h =
    let a : Abandonment = record { reason_code = reason; terminal = some t } in
    let (made, id, good, correlated) = found_ended-ok x i i' turn a t h in
    rw
      (
        made,
        validate-proposal x i v,
        id,
        good,
        assert_correlation-code x i.proposal (some turn) reconcile_invalid intent_invalid (some t)
            correlated,
      )
      refl

lost-validate :
    (x : Formats) (i : Intent) (a : Abandonment)
    → validate x i ≡ ok tt
    → i.state ≡ outcome_unknown
    → assert_abandonment x a ≡ ok tt
    → a.terminal ≡ none
    → validate x (record i {
      state = abandoned;
      completed_turn = none;
      promotion = none;
      abandonment = some a;
    })
      ≡ ok tt
unfolding validate validate_by validate_started assert_abandoned assert_completed assert_correlation
lost-validate x i a v is good plain = ground arith

-- Whether an operation keeps to the turn of the intent: what is found must be the turn that was
-- bound, if one was, and an abandonment must not claim how a turn ended.
abbrev pub keeps_turn : Operation → Intent → Bool
keeps_turn (reconciles (found b)) i = agrees (turn_of i.turn_start) b.evidence.turn_id
keeps_turn (abandons a) i = not (is_present a.terminal)
keeps_turn _ i = true

reconciled_by-validate :
    (x : Formats) (o : Observation) (i i' : Intent)
    → validate x i ≡ ok tt
    → i.state ≡ outcome_unknown
    → keeps_turn (reconciles o) i ≡ true
    → reconciled_by x i o ≡ ok i'
    → validate x i' ≡ ok tt
unfolding reconciled_by
reconciled_by-validate x ambiguous i i' v is same h = let e : i' ≡ i = ground arith in rw e v
reconciled_by-validate x (found b) i i' v is same h = found-validate x b i i' v is same h
reconciled_by-validate x (found_terminal turn reason t) i i' v is same h =
    ended-validate x i i' turn reason t v h
reconciled_by-validate x (not_found reason) i i' v is same h =
    ground (arith, lost-validate x i (record { reason_code = reason; terminal = none }) v is)
reconciled_by-validate x unreadable i i' v is same h = absurd (ground arith)

reconcile_unknown-validate :
    (x : Formats) (o : Observation) (i i' : Intent)
    → keeps_turn (reconciles o) i ≡ true
    → reconcile_unknown x o i ≡ ok i'
    → validate x i' ≡ ok tt
unfolding reconcile_unknown
reconcile_unknown-validate x o i i' same h =
    reconciled_by-validate x o i i' (ground arith) (ground arith) same (ground arith)

-- Every operation that succeeds leaves a well-formed intent, where what a reconciliation finds is the
-- turn that was bound, if one was, and an abandonment does not say how a turn ended.
pub apply-validate :
    (x : Formats) (o : Operation) (i i' : Intent)
    → apply x o i ≡ ok i'
    → keeps_turn o i ≡ true
    → validate x i' ≡ ok tt
unfolding apply
apply-validate x starts i i' h same = start-validate x i i' h
apply-validate x (binds_operation turn) i i' h same = bind_operation-validate x turn i i' h
apply-validate x (selects s) i i' h same = record_selection-validate x s i i' h
apply-validate x (completes c) i i' h same = complete_action-validate x c i i' h
apply-validate x (binds_completed b) i i' h same = bind_completed-validate x b i i' h
apply-validate x (marks_unknown a) i i' h same = mark_unknown-validate x a i i' h
apply-validate x (reconciles o) i i' h same = reconcile_unknown-validate x o i i' same h
apply-validate x (promotes p) i i' h same = promote-validate x p i i' h
apply-validate x (abandons a) i i' h same = abandon-validate x a i i' h (ground arith)

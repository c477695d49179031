-- ===== src/TurnIntent/Validity.antt =====
-- Which operations on turn intents leave a well-formed intent.
use threadmesh.Prelude.{
  ◌≢◌, Option-cases, Bool-cases, length-append, Result-cases, beq_sound, ◌≡◌, refl, inl, inr, true,
  false, ◌||◌, String, Option, none, some, List, [], ◌∷◌, ◌++◌, length, arith, string_eq, nat_eq,
  option_eq, ok, ltb,
}
use threadmesh.Vocabulary.{is_present}
use threadmesh.TurnIntent.{
  IntentState, Selection, ToolAction, Completion, Binding, CompletedTurn, Promotion, Abandonment,
  Intent, Formats, IntentError, tool_action_invalid, proposed, started, outcome_unknown,
  completed_turn_bound, promoted, abandoned,
}
use threadmesh.TurnIntent.Checks.{
  assert_abandonment, assert_correlation, assert_proposal, max_tools, assert_start, assert_action,
  assert_actions,
}
use threadmesh.TurnIntent.Validation.{
  validate, validate_by, validate_started, assert_completed, assert_abandoned, assert_promoted,
}
use threadmesh.TurnIntent.Operations.{
  start, bind_operation, record_selection, complete_action, completion_of, as_started, is_started,
  turn_of, selected_or_conflict, completed_or_conflict, observed, action_at, set_action,
}
use threadmesh.TurnIntent.Actions.{
  assert_actions-append, assert_actions-set, completion_of-valid, length-set_action,
}
use threadmesh.TurnIntent.Outcomes.{
  bind_completed, mark_unknown, promote, abandon, binding_of, assert_bound,
}

pub start-validate : (x : Formats) (i i' : Intent) → start x i ≡ ok i' → validate x i' ≡ ok tt
unfolding start validate validate_by validate_started assert_start assert_actions
start-validate x i i' h = ground arith

pub mark_unknown-validate :
    (x : Formats) (a : Abandonment) (i i' : Intent)
    → mark_unknown x a i ≡ ok i'
    → validate x i' ≡ ok tt
unfolding mark_unknown validate validate_by validate_started assert_abandoned
mark_unknown-validate x a i i' h = ground arith

pub promote-validate :
    (x : Formats) (p : Promotion) (i i' : Intent) → promote x p i ≡ ok i' → validate x i' ≡ ok tt
unfolding promote validate validate_by validate_started assert_promoted
promote-validate x p i i' h = ground arith

pub bind_operation-validate :
    (x : Formats) (turn : String) (i i' : Intent)
    → bind_operation x turn i ≡ ok i'
    → validate x i' ≡ ok tt
unfolding bind_operation validate validate_by validate_started assert_start assert_actions
bind_operation-validate x turn i i' h = ground arith

pub assert_completed-bound :
    (x : Formats) (b : Binding) (i : Intent) (c : CompletedTurn) (turn : Option String)
    → binding_of x b i ≡ ok c
    → i.turn_start ≡ some turn
    → is_present turn ≡ true
    → assert_completed x i.proposal i.tool_actions turn (some c) ≡ ok tt
unfolding binding_of assert_bound assert_completed
assert_completed-bound x b i c (some turn) h is bound =
    ground (arith, beq_sound turn b.evidence.turn_id)
assert_completed-bound x b i c none h is bound = absurd (ground arith)

abbrev abandoned_as : Intent → Abandonment → Intent
abandoned_as i a = record i { state = abandoned; promotion = none; abandonment = some a }

abandoned_by :
    (x : Formats) (i : Intent) (a : Abandonment) (state : IntentState)
    (start : Option (Option String))
    → validate_by x i state start ≡ ok tt
    → state ≢ promoted
    → assert_abandonment x a ≡ ok tt
    → is_present a.terminal ≡ false
    → validate_by x (abandoned_as i a) abandoned start ≡ ok tt
unfolding validate_by validate_started assert_abandoned assert_correlation assert_completed
abandoned_by x i a promoted start v other ok_a plain = absurd (other refl)
abandoned_by x i a proposed none v other ok_a plain = ground arith
abandoned_by x i a proposed (some turn) v other ok_a plain = absurd (ground arith)
abandoned_by x i a started none v other ok_a plain = absurd (ground arith)
abandoned_by x i a started (some turn) v other ok_a plain = ground arith
abandoned_by x i a outcome_unknown none v other ok_a plain = absurd (ground arith)
abandoned_by x i a outcome_unknown (some turn) v other ok_a plain = ground arith
abandoned_by x i a completed_turn_bound none v other ok_a plain = absurd (ground arith)
abandoned_by x i a completed_turn_bound (some turn) v other ok_a plain = ground arith
abandoned_by x i a abandoned none v other ok_a plain = ground arith
abandoned_by x i a abandoned (some turn) v other ok_a plain = ground arith

pub abandon-validate :
    (x : Formats) (a : Abandonment) (i i' : Intent)
    → abandon x a i ≡ ok i'
    → is_present a.terminal ≡ false
    → validate x i' ≡ ok tt
unfolding abandon validate
abandon-validate x a i i' h plain = ground (arith, abandoned_by x i a i.state i.turn_start)

few_appended :
    (actions : List ToolAction) (s : Selection)
    → ltb s.ordinal max_tools ≡ true
    → s.ordinal ≡ length actions
    → ltb max_tools (length (actions ++ observed s ∷ [])) ≡ false
few_appended actions s few last = ground (arith, length-append actions (observed s ∷ []))

assert_action-few :
    (x : Formats) (allowed : List String) (turn : Option String) (code : IntentError)
    (a : ToolAction)
    → assert_action x allowed turn code a ≡ ok tt
    → ltb a.selection.ordinal max_tools ≡ true
unfolding assert_action
assert_action-few x allowed turn code a h = ground arith

-- What is known of a well-formed intent that is started.
pub record StartedParts (x : Formats) (i : Intent) (turn : Option String) : Type 0 where
  pub proposal_valid : assert_proposal x i.proposal ≡ ok tt
  pub few_actions : ltb max_tools (length i.tool_actions) ≡ false
  pub start_valid : assert_start x turn ≡ ok tt
  pub actions_valid : assert_actions x i.proposal.allowed_tools turn 0 [] i.tool_actions ≡ ok tt

validate-StartedParts :
    (x : Formats) (i : Intent)
    → validate x i ≡ ok tt
    → is_present (turn_of i.turn_start) ≡ true
    → is_started i.state ≡ true
    → StartedParts x i (turn_of i.turn_start)
unfolding validate validate_by
validate-StartedParts x i v bound s = record {
  proposal_valid = ground arith;
  few_actions = ground arith;
  start_valid = ground arith;
  actions_valid = ground arith;
}

as_started-validate :
    (x : Formats) (i : Intent) (turn : Option String) (actions : List ToolAction)
    → StartedParts x i turn
    → is_present turn ≡ true
    → ltb max_tools (length actions) ≡ false
    → assert_actions x i.proposal.allowed_tools turn 0 [] actions ≡ ok tt
    → validate x (as_started i turn actions) ≡ ok tt
unfolding validate validate_by validate_started
as_started-validate x i turn actions parts bound few valid =
    ground (arith, parts.proposal_valid, parts.start_valid)

selected-validate :
    (x : Formats) (s : Selection) (i i' : Intent)
    → validate x i ≡ ok tt
    → is_started i.state ≡ true
    → is_present (turn_of i.turn_start) ≡ true
    → assert_action x i.proposal.allowed_tools
        (turn_of i.turn_start)
        tool_action_invalid
        (observed s)
      ≡ ok tt
    → (o : Option ToolAction) → selected_or_conflict x i s o ≡ ok i'
    → validate x i' ≡ ok tt
unfolding selected_or_conflict
selected-validate x s i i' v is bound good (some existing) h =
    let same : i' ≡ i = ground arith in rw same v
selected-validate x s i i' v is bound good none h =
    let parts = validate-StartedParts x i v bound is in
    let last : s.ordinal ≡ length i.tool_actions =
      ground (arith, nat_eq.beq_iff s.ordinal (length i.tool_actions)) in
    let made : i' ≡ as_started i (turn_of i.turn_start) (i.tool_actions ++ observed s ∷ []) =
      ground arith in
    rw made (
      as_started-validate x i (turn_of i.turn_start) (i.tool_actions ++ observed s ∷ []) parts bound
        (few_appended i.tool_actions s (assert_action-few x _ _ _ (observed s) good) last)
        (assert_actions-append x _ _ tool_action_invalid s 0 [] i.tool_actions parts.actions_valid
          good (omega (arith, last)) (ground arith) refl))

pub record_selection-validate :
    (x : Formats) (s : Selection) (i i' : Intent)
    → record_selection x s i ≡ ok i'
    → validate x i' ≡ ok tt
unfolding record_selection
record_selection-validate x s i i' h =
    selected-validate x s i i' (ground arith) (ground arith) (ground arith) (ground arith)
      (action_at s.ordinal i.tool_actions) (ground arith)

completed-validate :
    (x : Formats) (c : Completion) (a b : ToolAction) (i i' : Intent)
    → validate x i ≡ ok tt
    → is_started i.state ≡ true
    → is_present (turn_of i.turn_start) ≡ true
    → action_at c.ordinal i.tool_actions ≡ some a
    → completion_of x c a ≡ ok b
    → completed_or_conflict x i c.ordinal a b ≡ ok i'
    → validate x i' ≡ ok tt
unfolding completed_or_conflict
completed-validate x c a b i i' v is bound found done h =
    elim (Bool-cases (is_present a.result_digest || is_present a.result_status)) [
      | inl again ↦ let same : i' ≡ i = ground arith in rw same v
      | inr fresh ↦
          let parts = validate-StartedParts x i v bound is in
          let (same, valid) = completion_of-valid x c a b done in
          let made : i'
              ≡ as_started i (turn_of i.turn_start) (set_action c.ordinal b i.tool_actions) =
            ground arith in
          rw made (
            as_started-validate x i (turn_of i.turn_start) (set_action c.ordinal b i.tool_actions)
              parts bound (rw (length-set_action c.ordinal b i.tool_actions) parts.few_actions)
              (assert_actions-set x _ _ c.ordinal 0 [] a b i.tool_actions parts.actions_valid found
                same valid))
    ]

pub complete_action-validate :
    (x : Formats) (c : Completion) (i i' : Intent)
    → complete_action x c i ≡ ok i'
    → validate x i' ≡ ok tt
unfolding complete_action
complete_action-validate x c i i' h = elim (Option-cases (action_at c.ordinal i.tool_actions)) [
  | inl e ↦ absurd (ground arith)
  | inr (a, found) ↦ elim (Result-cases (completion_of x c a)) [
    | inr (e, failed) ↦ absurd (ground arith)
    | inl (b, done) ↦
        completed-validate x c a b i i' (ground arith) (ground arith) (ground arith) found done
          (ground arith)
  ]
]

pub bind_completed-validate :
    (x : Formats) (b : Binding) (i i' : Intent)
    → bind_completed x b i ≡ ok i'
    → validate x i' ≡ ok tt
unfolding bind_completed validate validate_by validate_started
bind_completed-validate x b i i' h = elim (Result-cases (binding_of x b i)) [
  | inl (c, bound) ↦ ground (arith, assert_completed-bound x b i c (turn_of i.turn_start))
  | inr (e, failed) ↦ absurd (ground arith)
]

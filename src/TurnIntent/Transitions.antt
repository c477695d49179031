-- ===== src/TurnIntent/Transitions.antt =====
-- The states that an operation on a turn intent can lead to.
use threadmesh.Prelude.{
  ◌≡◌, ◌⊎◌, inl, inr, Bool, true, false, String, Option, none, some, arith, string_eq, nat_eq,
  option_eq, ok, Option-cases,
}
use threadmesh.TurnIntent.{
  IntentState, Selection, ToolAction, Completion, Binding, Promotion, Abandonment, Intent, Formats,
  proposed, started, outcome_unknown, completed_turn_bound, promoted, abandoned,
}
use threadmesh.TurnIntent.Operations.{
  start, bind_operation, record_selection, complete_action, is_started, selected_or_conflict,
  completed_or_conflict, action_at,
}
use threadmesh.TurnIntent.Outcomes.{
  Operation, apply, bind_completed, mark_unknown, reconcile_unknown, promote, abandon, found_bound,
  reconciled_by, Observation, starts, binds_operation, selects, completes, binds_completed,
  marks_unknown, reconciles, promotes, abandons, ambiguous, found, found_terminal, not_found,
  unreadable, found_ended,
}

-- The states that may follow a state. None follows a promotion or an abandonment.
abbrev pub may_follow : IntentState → IntentState → Bool
may_follow proposed started = true
may_follow proposed abandoned = true
may_follow started started = true
may_follow started outcome_unknown = true
may_follow started completed_turn_bound = true
may_follow started abandoned = true
may_follow outcome_unknown completed_turn_bound = true
may_follow outcome_unknown abandoned = true
may_follow completed_turn_bound promoted = true
may_follow completed_turn_bound abandoned = true
may_follow from to = false

-- An operation leaves the intent as it is, or takes it to a state that may follow, with the proposal
-- as it was.
abbrev pub Advances : Intent → Intent → Type 0
Advances i i' = (i' ≡ i) ⊎ ((may_follow i.state i'.state ≡ true) × (i'.proposal ≡ i.proposal))

start-Advances : (x : Formats) (i i' : Intent) → start x i ≡ ok i' → Advances i i'
unfolding start
start-Advances x i i' h = ground arith

bind_operation-Advances :
    (x : Formats) (turn : String) (i i' : Intent) → bind_operation x turn i ≡ ok i' → Advances i i'
unfolding bind_operation
bind_operation-Advances x turn i i' h = ground arith

selected-Advances :
    (x : Formats) (s : Selection) (i i' : Intent) (o : Option ToolAction)
    → is_started i.state ≡ true
    → selected_or_conflict x i s o ≡ ok i'
    → Advances i i'
unfolding selected_or_conflict
selected-Advances x s i i' (some a) is h = inl (ground arith)
selected-Advances x s i i' none is h = inr (ground arith)

record_selection-Advances :
    (x : Formats) (s : Selection) (i i' : Intent) → record_selection x s i ≡ ok i' → Advances i i'
unfolding record_selection
record_selection-Advances x s i i' h =
    selected-Advances x s i i' (action_at s.ordinal i.tool_actions) (ground arith) (ground arith)

complete_action-Advances :
    (x : Formats) (c : Completion) (i i' : Intent) → complete_action x c i ≡ ok i' → Advances i i'
unfolding complete_action completed_or_conflict
complete_action-Advances x c i i' h = elim (Option-cases (action_at c.ordinal i.tool_actions)) [
  | inl e ↦ absurd (ground arith)
  | inr (a, there) ↦ ground arith
]

bind_completed-Advances :
    (x : Formats) (b : Binding) (i i' : Intent) → bind_completed x b i ≡ ok i' → Advances i i'
unfolding bind_completed
bind_completed-Advances x b i i' h = ground arith

mark_unknown-Advances :
    (x : Formats) (a : Abandonment) (i i' : Intent) → mark_unknown x a i ≡ ok i' → Advances i i'
unfolding mark_unknown
mark_unknown-Advances x a i i' h = ground arith

reconciled_by-Advances :
    (x : Formats) (o : Observation) (i i' : Intent)
    → i.state ≡ outcome_unknown
    → reconciled_by x i o ≡ ok i'
    → Advances i i'
unfolding reconciled_by found_bound found_ended
reconciled_by-Advances x ambiguous i i' is h = inl (ground arith)
reconciled_by-Advances x (found b) i i' is h = inr (ground arith)
reconciled_by-Advances x (found_terminal turn reason t) i i' is h = inr (ground arith)
reconciled_by-Advances x (not_found reason) i i' is h = inr (ground arith)
reconciled_by-Advances x unreadable i i' is h = absurd (ground arith)

reconcile_unknown-Advances :
    (x : Formats) (o : Observation) (i i' : Intent)
    → reconcile_unknown x o i ≡ ok i'
    → Advances i i'
unfolding reconcile_unknown
reconcile_unknown-Advances x o i i' h =
    reconciled_by-Advances x o i i' (ground arith) (ground arith)

promote-Advances :
    (x : Formats) (p : Promotion) (i i' : Intent) → promote x p i ≡ ok i' → Advances i i'
unfolding promote
promote-Advances x p i i' h = ground arith

abandon-Advances :
    (x : Formats) (a : Abandonment) (i i' : Intent) → abandon x a i ≡ ok i' → Advances i i'
unfolding abandon
abandon-Advances x a i i' h = ground arith

-- Every operation that succeeds leaves the intent as it is, or takes it from its state to one that
-- may follow and keeps the proposal: an intent that is promoted or abandoned never changes.
pub apply-Advances :
    (x : Formats) (o : Operation) (i i' : Intent) → apply x o i ≡ ok i' → Advances i i'
unfolding apply
apply-Advances x starts i i' h = start-Advances x i i' h
apply-Advances x (binds_operation turn) i i' h = bind_operation-Advances x turn i i' h
apply-Advances x (selects s) i i' h = record_selection-Advances x s i i' h
apply-Advances x (completes c) i i' h = complete_action-Advances x c i i' h
apply-Advances x (binds_completed b) i i' h = bind_completed-Advances x b i i' h
apply-Advances x (marks_unknown a) i i' h = mark_unknown-Advances x a i i' h
apply-Advances x (reconciles o) i i' h = reconcile_unknown-Advances x o i i' h
apply-Advances x (promotes p) i i' h = promote-Advances x p i i' h
apply-Advances x (abandons a) i i' h = abandon-Advances x a i i' h

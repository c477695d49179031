-- ===== src/TurnIntent/Operations.antt =====
-- The operations on turn intents (the exported functions of src/state/durable-turn-intent.mjs): each
-- validates the intent that it is given, and answers with the intent as it then is, or throws.
use threadmesh.Prelude.{
  ℕ, zero, suc, Bool, true, false, not, ◌||◌, String, Option, none, some, List, [], ◌∷◌, ◌++◌, ◌==◌,
  length, string_eq, nat_eq, option_eq, Result, ok, err, ◌>>=◌, ◌>>◌, throw_if, or_throw,
  if◌then◌else◌,
}
use threadmesh.Vocabulary.{is_present}
use threadmesh.TurnIntent.{
  IntentState, Proposal, Selection, ToolAction, Completion, Intent, Formats, IntentError,
  start_invalid, start_already_claimed, start_conflict, operation_not_bound, not_started,
  terminal_state, tool_action_invalid, tool_action_conflict, tool_ordinal_invalid,
  tool_call_conflict, tool_completion_invalid, tool_completion_mismatch,
  tool_completion_missing_selection, tool_completion_conflict, proposed, started,
}
use threadmesh.TurnIntent.Checks.{assert_that, assert_proposal, assert_action}
use threadmesh.TurnIntent.Validation.{validate}

-- createProposedDurableTurnIntent
unfoldable pub propose : Formats → Proposal → Result IntentError Intent
propose x p = do
  assert_proposal x p
  ok (record {
    proposal = p;
    state = proposed;
    turn_start = none;
    tool_actions = [];
    completed_turn = none;
    promotion = none;
    abandonment = none;
  })

-- startDurableTurnIntent
unfoldable pub start : Formats → Intent → Result IntentError Intent
start x i = do
  validate x i
  elim i.state [
    | proposed ↦ ok (record i {
      state = started;
      turn_start = some none;
      tool_actions = [];
      completed_turn = none;
      promotion = none;
      abandonment = none;
    })
    | started ↦ err start_already_claimed
    | _ ↦ err terminal_state
  ]

-- What `replace` makes of a started intent, with the turn and the actions as given.
abbrev pub as_started : Intent → Option String → List ToolAction → Intent
as_started i turn actions = record i {
  state = started;
  turn_start = some turn;
  tool_actions = actions;
  completed_turn = none;
  promotion = none;
  abandonment = none;
}

abbrev pub is_started : IntentState → Bool
is_started state = elim state [ started ↦ true | _ ↦ false ]

abbrev pub turn_of : Option (Option String) → Option String
turn_of none = none
turn_of (some turn) = turn

abbrev bound_or_conflict : Formats → Intent → String → Option String → Result IntentError Intent
bound_or_conflict x i turn none = ok (as_started i (some turn) [])
bound_or_conflict x i turn (some old) =
    if x.start_digest (some old) == x.start_digest (some turn) then ok i else err start_conflict

-- bindStartedTurnOperation
unfoldable pub bind_operation : Formats → String → Intent → Result IntentError Intent
bind_operation x turn i = do
  validate x i
  assert_that (x.is_id turn) start_invalid
  assert_that (is_started i.state) not_started
  bound_or_conflict x i turn (turn_of i.turn_start)

-- `toolActions[ordinal]`
unfoldable pub action_at : ℕ → List ToolAction → Option ToolAction
action_at n [] = none
action_at zero (a ∷ actions) = some a
action_at (suc n) (a ∷ actions) = action_at n actions

abbrev pub observed : Selection → ToolAction
observed s = record { selection = s; result_digest = none; result_status = none }

abbrev pub has_call : String → List ToolAction → Bool
has_call id [] = false
has_call id (a ∷ actions) = (a.selection.call_id == id) || has_call id actions

unfoldable pub selected_or_conflict :
    Formats → Intent → Selection → Option ToolAction → Result IntentError Intent
selected_or_conflict x i s (some existing) =
    if x.selection_digest existing.selection == x.selection_digest s
    then ok i
    else err tool_action_conflict
selected_or_conflict x i s none = do
  throw_if (not (s.ordinal == length i.tool_actions)) tool_ordinal_invalid
  throw_if (has_call s.call_id i.tool_actions) tool_call_conflict
  ok (as_started i (turn_of i.turn_start) (i.tool_actions ++ observed s ∷ []))

-- recordModelSelectedToolAction
unfoldable pub record_selection : Formats → Selection → Intent → Result IntentError Intent
record_selection x s i = do
  validate x i
  assert_that (is_started i.state) not_started
  assert_that (is_present (turn_of i.turn_start)) operation_not_bound
  assert_action x i.proposal.allowed_tools (turn_of i.turn_start) tool_action_invalid (observed s)
  selected_or_conflict x i s (action_at s.ordinal i.tool_actions)

-- completion
unfoldable pub completion_of : Formats → Completion → ToolAction → Result IntentError ToolAction
completion_of x c a = do
  throw_if
      (not (c.turn_id == a.selection.turn_id)
        || (not (c.call_id == a.selection.call_id) || not (c.ordinal == a.selection.ordinal)))
      tool_completion_mismatch
  assert_that (x.is_digest c.result_digest) tool_completion_invalid
  assert_that (c.result_status == "completed") tool_completion_invalid
  ok (record a { result_digest = some c.result_digest; result_status = some c.result_status })

-- `toolActions[ordinal] = action`
unfoldable pub set_action : ℕ → ToolAction → List ToolAction → List ToolAction
set_action n a [] = []
set_action zero a (b ∷ actions) = a ∷ actions
set_action (suc n) a (b ∷ actions) = b ∷ set_action n a actions

unfoldable pub completed_or_conflict :
    Formats → Intent → ℕ → ToolAction → ToolAction → Result IntentError Intent
completed_or_conflict x i n existing completed =
    if is_present existing.result_digest || is_present existing.result_status
    then (if x.action_digest existing == x.action_digest completed
        then ok i
        else err tool_completion_conflict)
    else ok (as_started i (turn_of i.turn_start) (set_action n completed i.tool_actions))

-- completeModelSelectedToolAction
unfoldable pub complete_action : Formats → Completion → Intent → Result IntentError Intent
complete_action x c i = do
  validate x i
  assert_that (is_started i.state) not_started
  assert_that (is_present (turn_of i.turn_start)) operation_not_bound
  existing ← or_throw (action_at c.ordinal i.tool_actions) tool_completion_missing_selection
  completed ← completion_of x c existing
  completed_or_conflict x i c.ordinal existing completed

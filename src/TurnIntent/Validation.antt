-- ===== src/TurnIntent/Validation.antt =====
-- validate of src/state/durable-turn-intent.mjs: when an intent is well-formed.
use threadmesh.Prelude.{
  Bool, not, ◌&&◌, ◌||◌, String, Option, none, some, List, [], ◌==◌, ltb, length, string_eq,
  option_eq, Result, ok, err, ◌>>◌, throw_if,
}
use threadmesh.Vocabulary.{is_present}
use threadmesh.TurnIntent.{
  IntentState, Proposal, ToolAction, Evidence, CompletedTurn, Promotion, Terminal, Abandonment,
  Intent, Formats, IntentError, intent_invalid, start_invalid, promotion_invalid,
  abandonment_invalid, proposed, started, outcome_unknown, completed_turn_bound, promoted,
  abandoned,
}
use threadmesh.TurnIntent.Checks.{
  assert_that, has_any, max_tools, assert_proposal, assert_start, assert_actions, assert_evidence,
  assert_calls, assert_promotion, assert_abandonment, assert_correlation,
}

-- The abandonment, which must be there.
unfoldable pub assert_abandoned : Formats → Option Abandonment → Result IntentError (Unit {0})
assert_abandoned x none = err abandonment_invalid
assert_abandoned x (some a) = assert_abandonment x a

abbrev pub terminal_of : Option Abandonment → Option Terminal
terminal_of none = none
terminal_of (some a) = a.terminal

-- The promotion, which must be there.
unfoldable pub assert_promoted : Formats → Option Promotion → Result IntentError (Unit {0})
assert_promoted x none = err promotion_invalid
assert_promoted x (some p) = assert_promotion x p

-- Whether a turn that is bound as completed is the actor's and the one that was started.
abbrev pub is_of_turn : Proposal → Option String → Evidence → Bool
is_of_turn p turn e =
    (e.thread_id == p.actor.thread_id)
    && ((e.snapshot_digest == p.actor.snapshot_digest) && (turn == some e.turn_id))

-- The completed turn, where there is one.
unfoldable pub assert_completed :
    Formats
    → Proposal
    → List ToolAction
    → Option String
    → Option CompletedTurn
    → Result IntentError (Unit {0})
assert_completed x p actions turn none = ok tt
assert_completed x p actions turn (some c) = do
  assert_evidence x c.evidence
  assert_that (x.is_digest c.adapter_receipt_digest) intent_invalid
  assert_that (is_of_turn p turn c.evidence) intent_invalid
  assert_calls x p.allowed_tools turn c.tool_calls actions

-- What each state needs, of an intent whose turn was started.
unfoldable pub validate_started :
    Formats → Intent → Option String → IntentState → Result IntentError (Unit {0})
validate_started x i turn proposed = ok tt
validate_started x i turn started =
    throw_if (is_present i.completed_turn || (is_present i.promotion || is_present i.abandonment))
      intent_invalid
validate_started x i turn outcome_unknown = do
  throw_if
      (is_present i.completed_turn || (is_present i.promotion || not (is_present i.abandonment)))
      intent_invalid
  assert_abandoned x i.abandonment
validate_started x i turn completed_turn_bound = do
  assert_completed x i.proposal i.tool_actions turn i.completed_turn
  throw_if
      (not (is_present i.completed_turn) || (is_present i.promotion || is_present i.abandonment))
      intent_invalid
validate_started x i turn promoted = do
  assert_completed x i.proposal i.tool_actions turn i.completed_turn
  throw_if (not (is_present i.completed_turn) || is_present i.abandonment) intent_invalid
  assert_promoted x i.promotion
validate_started x i turn abandoned = do
  assert_completed x i.proposal i.tool_actions turn i.completed_turn
  throw_if (is_present i.promotion) intent_invalid
  assert_abandoned x i.abandonment
  assert_correlation x i.proposal turn intent_invalid (terminal_of i.abandonment)

unfoldable pub validate_by :
    Formats → Intent → IntentState → Option (Option String) → Result IntentError (Unit {0})
validate_by x i proposed start =
    throw_if
      (is_present start
        || (has_any i.tool_actions
            || (is_present i.completed_turn
                || (is_present i.promotion || is_present i.abandonment))))
      intent_invalid
validate_by x i abandoned none = do
  throw_if (has_any i.tool_actions || (is_present i.completed_turn || is_present i.promotion))
      intent_invalid
  assert_abandoned x i.abandonment
  throw_if (is_present (terminal_of i.abandonment)) intent_invalid
validate_by x i state none = err start_invalid
validate_by x i state (some turn) = do
  assert_start x turn
  throw_if (not (is_present turn) && has_any i.tool_actions) intent_invalid
  assert_actions x i.proposal.allowed_tools turn 0 [] i.tool_actions
  validate_started x i turn state

-- validate
unfoldable pub validate : Formats → Intent → Result IntentError (Unit {0})
validate x i = do
  assert_proposal x i.proposal
  throw_if (ltb max_tools (length i.tool_actions)) intent_invalid
  validate_by x i i.state i.turn_start

-- ===== src/TurnIntent/Backing.antt =====
-- What stands behind a promoted turn intent.
use threadmesh.Prelude.{
  ℕ, suc, ◌≡◌, refl, sym, true, String, Option, none, some, List, [], ◌∷◌, arith, string_eq, nat_eq,
  option_eq, ok, includes_iff, beq_sound,
}
use threadmesh.TurnIntent.{
  ToolAction, ToolCall, CompletedTurn, Promotion, Intent, Formats, intent_invalid,
  completed_turn_bound, promoted,
}
use threadmesh.TurnIntent.Checks.{has_any, assert_calls, assert_action, assert_actions}
use threadmesh.TurnIntent.Validation.{validate, validate_by, validate_started, assert_completed}
use threadmesh.TurnIntent.Outcomes.{promote}
use mathlib.Core.List.{Memᴰ}
use threadmesh.TurnIntent.Checks.{assert_call, assert_calls_from}

-- A recorded tool action and the call of the receipt that completed it, of the same turn: the same
-- call of the same allowed tool with the same arguments and result, in the same place.
pub record IsBackedBy (turn : String) (allowed : List String) (n : ℕ) (a : ToolAction)
    (c : ToolCall) : Type 0 where
  pub call_at : c.ordinal ≡ n
  pub action_of_turn : a.selection.turn_id ≡ turn
  pub call_of_turn : c.turn_id ≡ turn
  pub same_call : c.call_id ≡ a.selection.call_id
  pub same_tool : c.tool ≡ a.selection.name
  pub is_allowed : Memᴰ c.tool allowed
  pub same_arguments : c.arguments_digest ≡ a.selection.arguments_digest
  pub same_result : a.result_digest ≡ some c.output_digest

pub data AllBacked (turn : String) (allowed : List String)
    : ℕ → List ToolAction → List ToolCall → Type 0 where
  nothing : {n : ℕ} → AllBacked turn allowed n [] []
  and_then :
      {n : ℕ} {a : ToolAction} {c : ToolCall} {actions : List ToolAction} {calls : List ToolCall}
      → IsBackedBy turn allowed n a c
      → AllBacked turn allowed (suc n) actions calls
      → AllBacked turn allowed n (a ∷ actions) (c ∷ calls)

module _ (x : Formats) (allowed : List String) (turn : String) where
  assert_call-IsBackedBy :
      (n : ℕ) (a : ToolAction) (c : ToolCall)
      → assert_action x allowed (some turn) intent_invalid a ≡ ok tt
      → assert_call x allowed (some turn) n c a ≡ ok tt
      → IsBackedBy turn allowed n a c
  unfolding assert_call assert_action
  assert_call-IsBackedBy n a c good h = record {
    call_at = ground (arith, nat_eq.beq_iff c.ordinal n);
    action_of_turn = ground (arith, string_eq.beq_iff turn a.selection.turn_id);
    call_of_turn = ground (arith, string_eq.beq_iff turn c.turn_id);
    same_call = ground (arith, string_eq.beq_iff c.call_id a.selection.call_id);
    same_tool = ground (arith, string_eq.beq_iff a.selection.name c.tool);
    is_allowed = (includes_iff allowed c.tool).0 (ground arith);
    same_arguments =
        ground (arith, string_eq.beq_iff a.selection.arguments_digest c.arguments_digest);
    same_result =
        ground (arith, (option_eq {A = String}).beq_iff a.result_digest (some c.output_digest));
  }

  calls-AllBacked :
      (n : ℕ) (seen : List String) (actions : List ToolAction) (calls : List ToolCall)
      → assert_actions x allowed (some turn) n seen actions ≡ ok tt
      → assert_calls_from x allowed (some turn) n calls actions ≡ ok tt
      → AllBacked turn allowed n actions calls
  unfolding assert_actions assert_calls_from
  calls-AllBacked n seen [] [] good h = nothing
  calls-AllBacked n seen [] (c ∷ calls) good h = absurd (ground arith)
  calls-AllBacked n seen (a ∷ actions) [] good h = absurd (ground arith)
  calls-AllBacked n seen (a ∷ actions) (c ∷ calls) good h =
      and_then (assert_call-IsBackedBy n a c (ground arith) (ground arith)) (
        calls-AllBacked (suc n) (a.selection.call_id ∷ seen) actions calls (ground arith)
          (ground arith))

-- The turn of an intent whose completed turn is bound, and what stands behind it.
pub record IsBacked (i : Intent) : Type 0 where
  pub turn : String
  pub completed : CompletedTurn
  pub of_turn : i.turn_start ≡ some (some turn)
  pub is_bound : i.completed_turn ≡ some completed
  pub of_evidence : completed.evidence.turn_id ≡ turn
  pub of_actor : completed.evidence.thread_id ≡ i.proposal.actor.thread_id
  pub backed : AllBacked turn i.proposal.allowed_tools 0 i.tool_actions completed.tool_calls

validate-IsBacked :
    (x : Formats) (i : Intent) (start : Option (Option String)) (o : Option CompletedTurn)
    → i.turn_start ≡ start
    → i.completed_turn ≡ o
    → i.state ≡ completed_turn_bound
    → validate x i ≡ ok tt
    → IsBacked i
unfolding validate validate_by validate_started assert_completed assert_calls
validate-IsBacked x i none o s c is v = absurd (ground arith)
validate-IsBacked x i (some turn) none s c is v = absurd (ground arith)
validate-IsBacked x i (some none) (some t) s c is v = absurd (ground arith)
validate-IsBacked x i (some (some turn)) (some t) s c is v = record {
  turn = turn;
  completed = t;
  of_turn = s;
  is_bound = c;
  of_evidence = sym (beq_sound turn t.evidence.turn_id (ground arith));
  of_actor = ground (arith, string_eq.beq_iff t.evidence.thread_id i.proposal.actor.thread_id);
  backed =
      calls-AllBacked x i.proposal.allowed_tools turn 0 [] i.tool_actions t.tool_calls
        (ground arith) (ground arith);
}

-- A turn whose completion is bound is promoted only with at least one tool action that the model
-- selected, each of them backed by a call of the receipt, in order: the same call of the same
-- allowed tool in the same turn, with the same arguments and the same result.
pub promote-IsBacked :
    (x : Formats) (p : Promotion) (i i' : Intent)
    → i.state ≡ completed_turn_bound
    → promote x p i ≡ ok i'
    → IsBacked i' × (has_any i'.tool_actions ≡ true)
unfolding promote
promote-IsBacked x p i i' is h =
    let before = validate-IsBacked x i i.turn_start i.completed_turn refl refl is (ground arith) in
    let made : i' ≡ record i { state = promoted; promotion = some p; abandonment = none } =
      ground arith in
    (
      rw made (record {
        turn = before.turn;
        completed = before.completed;
        of_turn = before.of_turn;
        is_bound = before.is_bound;
        of_evidence = before.of_evidence;
        of_actor = before.of_actor;
        backed = before.backed;
      }),
      rw made (ground arith),
    )

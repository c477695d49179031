-- ===== src/TurnIntent/Actions.antt =====
-- The tool actions of a turn intent: how the checks of a list of them fare when one is added, when
-- one is completed, and when all are.
use threadmesh.Prelude.{
  ℕ, zero, suc, ◌+◌, ◌≡◌, refl, ap, inl, inr, true, false, String, Option, some, List, [], ◌∷◌,
  ◌++◌, length, arith, includes, string_eq, nat_eq, option_eq, ok, Result-cases, if◌then◌else◌,
  Bool-cases,
}
use threadmesh.Vocabulary.{is_present}
use threadmesh.TurnIntent.{
  Selection, ToolAction, Completion, ToolCall, Formats, IntentError, intent_invalid,
}
use threadmesh.TurnIntent.Checks.{assert_action, assert_actions, has_valid_result}
use threadmesh.TurnIntent.Operations.{action_at, observed, has_call, completion_of, set_action}
use threadmesh.TurnIntent.Outcomes.{completed_actions}

-- A check that passes does so whatever error it would throw.
assert_action-code :
    (x : Formats) (allowed : List String) (turn : Option String) (code other : IntentError)
    (a : ToolAction)
    → assert_action x allowed turn code a ≡ ok tt
    → assert_action x allowed turn other a ≡ ok tt
unfolding assert_action
assert_action-code x allowed turn code other a h = ground arith

module _ (x : Formats) (allowed : List String) (turn : Option String) where
  pub assert_actions-append :
      (code : IntentError) (s : Selection) (n : ℕ) (seen : List String) (actions : List ToolAction)
      → assert_actions x allowed turn n seen actions ≡ ok tt
      → assert_action x allowed turn code (observed s) ≡ ok tt
      → s.ordinal ≡ n + length actions
      → has_call s.call_id actions ≡ false
      → includes seen s.call_id ≡ false
      → assert_actions x allowed turn n seen (actions ++ observed s ∷ []) ≡ ok tt
  unfolding assert_actions
  assert_actions-append code s n seen [] h good at new fresh = ground (
    arith,
    assert_action-code x allowed turn code intent_invalid (observed s),
    nat_eq.beq_iff s.ordinal n,
  )
  assert_actions-append code s n seen (a ∷ actions) h good at new fresh =
      ground (arith, assert_actions-append code s (suc n) (a.selection.call_id ∷ seen) actions)

  -- An action of the same selection, with a result as it should be.
  assert_action-completed :
      (code : IntentError) (a b : ToolAction)
      → assert_action x allowed turn code a ≡ ok tt
      → b.selection ≡ a.selection
      → has_valid_result x b ≡ true
      → assert_action x allowed turn code b ≡ ok tt
  unfolding assert_action
  assert_action-completed code a b h same valid = rw same (ground arith)

  pub assert_actions-set :
      (k n : ℕ) (seen : List String) (a b : ToolAction) (actions : List ToolAction)
      → assert_actions x allowed turn n seen actions ≡ ok tt
      → action_at k actions ≡ some a
      → b.selection ≡ a.selection
      → has_valid_result x b ≡ true
      → assert_actions x allowed turn n seen (set_action k b actions) ≡ ok tt
  unfolding assert_actions action_at set_action
  assert_actions-set k n seen a b [] h at same valid = absurd (ground arith)
  assert_actions-set zero n seen a b (c ∷ actions) h at same valid =
      ground (arith, assert_action-completed intent_invalid c b)
  assert_actions-set (suc k) n seen a b (c ∷ actions) h at same valid =
      ground (arith, assert_actions-set k (suc n) (c.selection.call_id ∷ seen) a b actions)

pub completion_of-valid :
    (x : Formats) (c : Completion) (a b : ToolAction)
    → completion_of x c a ≡ ok b
    → (b.selection ≡ a.selection) × (has_valid_result x b ≡ true)
unfolding completion_of
completion_of-valid x c a b h = ground arith

pub length-set_action :
    (k : ℕ) (b : ToolAction) (actions : List ToolAction)
    → length (set_action k b actions) ≡ length actions
unfolding set_action
length-set_action k b [] = refl
length-set_action zero b (c ∷ actions) = refl
length-set_action (suc k) b (c ∷ actions) = ap suc (length-set_action k b actions)

-- The completion that a call of a receipt stands for.
abbrev completion_in : ℕ → ToolCall → Completion
completion_in n c = record {
  turn_id = c.turn_id;
  call_id = c.call_id;
  ordinal = n;
  result_digest = c.output_digest;
  result_status = c.result_status;
}

-- What the calls of a receipt complete, or leave as it was.
completed_or_kept :
    (x : Formats) (c : Completion) (a b : ToolAction)
    → (if is_present a.result_digest then ok a else completion_of x c a) ≡ ok b
    → has_valid_result x a ≡ true
    → (b.selection ≡ a.selection) × (has_valid_result x b ≡ true)
completed_or_kept x c a b h valid = elim (Bool-cases (is_present a.result_digest)) [
  | inl done ↦ ground arith
  | inr missing ↦ completion_of-valid x c a b (ground arith)
]

assert_action-result :
    (x : Formats) (allowed : List String) (turn : Option String) (code : IntentError)
    (a : ToolAction)
    → assert_action x allowed turn code a ≡ ok tt
    → has_valid_result x a ≡ true
unfolding assert_action
assert_action-result x allowed turn code a h = ground arith

pub completed_actions-valid :
    (x : Formats) (allowed : List String) (turn : Option String) (of : String) (n : ℕ)
    (seen : List String) (calls : List ToolCall) (actions actions' : List ToolAction)
    → completed_actions x of n calls actions ≡ ok actions'
    → length calls ≡ length actions
    → assert_actions x allowed turn n seen actions ≡ ok tt
    → (assert_actions x allowed turn n seen actions' ≡ ok tt) × (length actions' ≡ length actions)
unfolding completed_actions assert_actions
completed_actions-valid x allowed turn of n seen [] [] actions' h same v = ground arith
completed_actions-valid x allowed turn of n seen [] (a ∷ actions) actions' h same v =
    absurd (omega (arith, same))
completed_actions-valid x allowed turn of n seen (c ∷ calls) [] actions' h same v =
    absurd (omega (arith, same))
completed_actions-valid x allowed turn of n seen (c ∷ calls) (a ∷ actions) actions' h same v =
    elim (Result-cases
      (if is_present a.result_digest then ok a else completion_of x (completion_in n c) a)) [
        | inr (e, failed) ↦ absurd (ground arith)
        | inl (b, done) ↦ elim (Result-cases (completed_actions x of (suc n) calls actions)) [
          | inr (e, failed) ↦ absurd (ground arith)
          | inl (rest, went) ↦
              let here : assert_action x allowed turn intent_invalid a ≡ ok tt = ground arith in
              let (selected, valid) =
                completed_or_kept x (completion_in n c) a b done
                  (assert_action-result x allowed turn intent_invalid a here) in
              let now =
                assert_action-completed x allowed turn intent_invalid a b here selected valid in
              let (later, size) =
                completed_actions-valid x allowed turn of (suc n) (a.selection.call_id ∷ seen) calls
                  actions rest went (omega (arith, same)) (ground arith) in
              let is : actions' ≡ b ∷ rest = ground arith in
              rw is (rw (now, selected) (ground arith), ap suc size)
        ]
      ]

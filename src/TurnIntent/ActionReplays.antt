-- ===== src/TurnIntent/ActionReplays.antt =====
-- Tool actions that are selected or completed again: the second answer is the first.
use mathlib.Core.Path.{subst}
use threadmesh.Prelude.{
  ℕ, zero, suc, ◌≡◌, refl, sym, ◌⊎◌, inl, inr, true, ◌||◌, Option, none, some, List, [], ◌∷◌, ◌++◌,
  length, arith, string_eq, nat_eq, option_eq, ok, Result-cases, Option-cases, beq_refl,
}
use threadmesh.Vocabulary.{is_present}
use threadmesh.TurnIntent.{Selection, ToolAction, Completion, Intent, Formats, tool_action_invalid}
use threadmesh.TurnIntent.Checks.{assert_action}
use threadmesh.TurnIntent.Validation.{validate}
use threadmesh.TurnIntent.Operations.{
  record_selection, complete_action, completion_of, as_started, is_started, turn_of,
  selected_or_conflict, completed_or_conflict, observed, action_at, set_action,
}

action_at-append :
    (actions : List ToolAction) (a : ToolAction)
    → action_at (length actions) (actions ++ a ∷ []) ≡ some a
unfolding action_at
action_at-append [] a = refl
action_at-append (b ∷ actions) a = action_at-append actions a

action_at-set :
    (n : ℕ) (actions : List ToolAction) (a b : ToolAction)
    → action_at n actions ≡ some a
    → action_at n (set_action n b actions) ≡ some b
unfolding action_at set_action
action_at-set n [] a b h = absurd (ground arith)
action_at-set zero (c ∷ actions) a b h = refl
action_at-set (suc n) (c ∷ actions) a b h = action_at-set n actions a b h

-- A selection that is stored already is answered with the intent.
selected_before :
    (x : Formats) (s : Selection) (i : Intent) (a : ToolAction)
    → validate x i ≡ ok tt
    → is_started i.state ≡ true
    → is_present (turn_of i.turn_start) ≡ true
    → assert_action x i.proposal.allowed_tools
        (turn_of i.turn_start)
        tool_action_invalid
        (observed s)
      ≡ ok tt
    → action_at s.ordinal i.tool_actions ≡ some a
    → a.selection ≡ s
    → record_selection x s i ≡ ok i
unfolding record_selection selected_or_conflict
selected_before x s i a v is bound good at same =
    rw (v, is, bound, good, at, same, beq_refl (x.selection_digest s)) refl

record_selection-ok :
    (x : Formats) (s : Selection) (i i' : Intent)
    → record_selection x s i ≡ ok i'
    → (is_started i.state ≡ true)
      × (is_present (turn_of i.turn_start) ≡ true)
      × (assert_action x i.proposal.allowed_tools
            (turn_of i.turn_start)
            tool_action_invalid
            (observed s)
          ≡ ok tt)
      × (selected_or_conflict x i s (action_at s.ordinal i.tool_actions) ≡ ok i')
unfolding record_selection
record_selection-ok x s i i' h = (ground arith, ground arith, ground arith, ground arith)

selected-repeat :
    (x : Formats) (s : Selection) (i i' : Intent) (o : Option ToolAction)
    → action_at s.ordinal i.tool_actions ≡ o
    → is_started i.state ≡ true
    → is_present (turn_of i.turn_start) ≡ true
    → assert_action x i.proposal.allowed_tools
        (turn_of i.turn_start)
        tool_action_invalid
        (observed s)
      ≡ ok tt
    → selected_or_conflict x i s o ≡ ok i'
    → record_selection x s i ≡ ok i'
    → validate x i' ≡ ok tt
    → record_selection x s i' ≡ ok i'
unfolding selected_or_conflict
selected-repeat x s i i' (some a) at is bound good h ran v =
    let e : i' ≡ i = ground arith in subst (λ j. record_selection x s j ≡ ok i') (sym e) ran
selected-repeat x s i i' none at is bound good h ran v =
    let last : s.ordinal ≡ length i.tool_actions =
      ground (arith, nat_eq.beq_iff s.ordinal (length i.tool_actions)) in
    let made : i' ≡ as_started i (turn_of i.turn_start) (i.tool_actions ++ observed s ∷ []) =
      ground arith in
    let stored : action_at s.ordinal (i.tool_actions ++ observed s ∷ []) ≡ some (observed s) =
      subst (λ n. action_at n (i.tool_actions ++ observed s ∷ []) ≡ some (observed s)) (sym last)
        (action_at-append i.tool_actions (observed s)) in
    subst (λ j. record_selection x s j ≡ ok j) (sym made)
      (selected_before x s (as_started i (turn_of i.turn_start) (i.tool_actions ++ observed s ∷ []))
        (observed s) (rw made at v) refl bound good stored refl)

pub record_selection-repeat :
    (x : Formats) (s : Selection) (i i' : Intent)
    → record_selection x s i ≡ ok i'
    → validate x i' ≡ ok tt
    → record_selection x s i' ≡ ok i'
record_selection-repeat x s i i' h v =
    let (is, bound, good, wrote) = record_selection-ok x s i i' h in
    selected-repeat x s i i' (action_at s.ordinal i.tool_actions) refl is bound good wrote h v

completed_before :
    (x : Formats) (c : Completion) (i : Intent) (a : ToolAction)
    → validate x i ≡ ok tt
    → is_started i.state ≡ true
    → is_present (turn_of i.turn_start) ≡ true
    → action_at c.ordinal i.tool_actions ≡ some a
    → completion_of x c a ≡ ok a
    → is_present a.result_digest || is_present a.result_status ≡ true
    → complete_action x c i ≡ ok i
unfolding complete_action completed_or_conflict
completed_before x c i a v is bound at again done =
    rw (v, is, bound, at, again, done, beq_refl (x.action_digest a)) refl

completion_of-again :
    (x : Formats) (c : Completion) (a b : ToolAction)
    → completion_of x c a ≡ ok b
    → (completion_of x c b ≡ ok b)
      × (is_present b.result_digest || is_present b.result_status ≡ true)
unfolding completion_of
completion_of-again x c a b h = (ground arith, ground arith)

complete_action-ok :
    (x : Formats) (c : Completion) (i i' : Intent)
    → complete_action x c i ≡ ok i'
    → (is_started i.state ≡ true)
      × (is_present (turn_of i.turn_start) ≡ true)
      × ((a : ToolAction) × (b : ToolAction) × (action_at c.ordinal i.tool_actions ≡ some a)
          × (completion_of x c a ≡ ok b)
          × ((i' ≡ i)
              ⊎ (i' ≡ as_started i (turn_of i.turn_start) (set_action c.ordinal b i.tool_actions))))
unfolding complete_action completed_or_conflict
complete_action-ok x c i i' h = (
  ground arith,
  ground arith,
  elim (Option-cases (action_at c.ordinal i.tool_actions)) [
    | inl e ↦ absurd (ground arith)
    | inr (a, at) ↦ elim (Result-cases (completion_of x c a)) [
      | inr (e, failed) ↦ absurd (ground arith)
      | inl (b, done) ↦ (a, b, at, done, ground arith)
    ]
  ],
)

pub complete_action-repeat :
    (x : Formats) (c : Completion) (i i' : Intent)
    → complete_action x c i ≡ ok i'
    → validate x i' ≡ ok tt
    → complete_action x c i' ≡ ok i'
complete_action-repeat x c i i' h v =
    let (is, bound, (a, b, at, done, wrote)) = complete_action-ok x c i i' h in
    let (again, present) = completion_of-again x c a b done in
    elim wrote [
      | inl same ↦ subst (λ j. complete_action x c j ≡ ok i') (sym same) h
      | inr made ↦
          subst (λ j. complete_action x c j ≡ ok j) (sym made)
            (completed_before x c
              (as_started i (turn_of i.turn_start) (set_action c.ordinal b i.tool_actions)) b
              (rw made at v) refl bound (action_at-set c.ordinal i.tool_actions a b at) again
              present)
    ]

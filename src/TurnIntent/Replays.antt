-- ===== src/TurnIntent/Replays.antt =====
-- Operations on turn intents that are repeated: the second answer is the first.
use mathlib.Core.Path.{subst}
use threadmesh.Prelude.{
  ◌≡◌, refl, sym, ◌∙◌, ◌⊎◌, inl, inr, Bool, true, false, String, some, arith, string_eq, nat_eq,
  option_eq, ok, Result-cases, beq_refl,
}
use threadmesh.TurnIntent.{Binding, CompletedTurn, Promotion, Abandonment, Intent, Formats}
use threadmesh.TurnIntent.Validation.{validate}
use threadmesh.TurnIntent.Operations.{bind_operation}
use threadmesh.TurnIntent.Outcomes.{
  Operation, apply, bind_completed, mark_unknown, promote, abandon, binding_of, assert_bound,
  with_completed, starts, binds_operation, selects, completes, binds_completed, marks_unknown,
  reconciles, promotes, abandons,
}
use threadmesh.TurnIntent.Reconciled.{keeps_turn, apply-validate}
use threadmesh.TurnIntent.ActionReplays.{record_selection-repeat, complete_action-repeat}

-- The operations that may be repeated: all but a start, which is claimed once, and a reconciliation.
abbrev pub is_repeatable : Operation → Bool
is_repeatable starts = false
is_repeatable (reconciles o) = false
is_repeatable _ = true

bind_operation-repeat :
    (x : Formats) (turn : String) (i i' : Intent)
    → bind_operation x turn i ≡ ok i'
    → validate x i' ≡ ok tt
    → bind_operation x turn i' ≡ ok i'
unfolding bind_operation
bind_operation-repeat x turn i i' h v = ground (arith, beq_refl (x.start_digest (some turn)))

mark_unknown-repeat :
    (x : Formats) (a : Abandonment) (i i' : Intent)
    → mark_unknown x a i ≡ ok i'
    → validate x i' ≡ ok tt
    → mark_unknown x a i' ≡ ok i'
unfolding mark_unknown
mark_unknown-repeat x a i i' h v = ground (arith, beq_refl (x.abandonment_digest a))

promote-repeat :
    (x : Formats) (p : Promotion) (i i' : Intent)
    → promote x p i ≡ ok i'
    → validate x i' ≡ ok tt
    → promote x p i' ≡ ok i'
unfolding promote
promote-repeat x p i i' h v = ground (arith, beq_refl (x.promotion_digest p))

abandon-repeat :
    (x : Formats) (a : Abandonment) (i i' : Intent)
    → abandon x a i ≡ ok i'
    → validate x i' ≡ ok tt
    → abandon x a i' ≡ ok i'
unfolding abandon
abandon-repeat x a i i' h v = ground (arith, beq_refl (x.abandonment_digest a))

-- A binding reads the proposal, the turn and the actions only.
binding_of-bound :
    (x : Formats) (b : Binding) (i : Intent) (c : CompletedTurn)
    → binding_of x b (with_completed i i.turn_start i.tool_actions c) ≡ binding_of x b i
unfolding binding_of assert_bound
binding_of-bound x b i c = refl

bind_completed-ok :
    (x : Formats) (b : Binding) (i i' : Intent) (c : CompletedTurn)
    → binding_of x b i ≡ ok c
    → bind_completed x b i ≡ ok i'
    → (i' ≡ i) ⊎ (i' ≡ with_completed i i.turn_start i.tool_actions c)
unfolding bind_completed
bind_completed-ok x b i i' c bound h = ground arith

bind_completed-again :
    (x : Formats) (b : Binding) (i : Intent) (c : CompletedTurn)
    → binding_of x b i ≡ ok c
    → validate x (with_completed i i.turn_start i.tool_actions c) ≡ ok tt
    → bind_completed x b (with_completed i i.turn_start i.tool_actions c)
      ≡ ok (with_completed i i.turn_start i.tool_actions c)
unfolding bind_completed
bind_completed-again x b i c bound v =
    rw (v, binding_of-bound x b i c ∙ bound, beq_refl (x.completed_digest c)) refl

bind_completed-repeat :
    (x : Formats) (b : Binding) (i i' : Intent)
    → bind_completed x b i ≡ ok i'
    → validate x i' ≡ ok tt
    → bind_completed x b i' ≡ ok i'
unfolding bind_completed
bind_completed-repeat x b i i' h v = elim (Result-cases (binding_of x b i)) [
  | inr (e, failed) ↦ absurd (ground arith)
  | inl (c, bound) ↦ elim (bind_completed-ok x b i i' c bound h) [
    | inl same ↦ subst (λ j. bind_completed x b j ≡ ok i') (sym same) h
    | inr made ↦
        subst (λ j. bind_completed x b j ≡ ok j) (sym made)
          (bind_completed-again x b i c bound (rw made at v))
  ]
]

-- An operation that succeeded can be repeated: all but a start and a reconciliation succeed again
-- and leave the intent as it then is (of abandonments, those that do not say how a turn ended).
pub apply-repeat :
    (x : Formats) (o : Operation) (i i' : Intent)
    → is_repeatable o ≡ true
    → keeps_turn o i ≡ true
    → apply x o i ≡ ok i'
    → apply x o i' ≡ ok i'
unfolding apply
apply-repeat x starts i i' r same h = absurd (ground arith)
apply-repeat x (binds_operation turn) i i' r same h =
    bind_operation-repeat x turn i i' h (apply-validate x (binds_operation turn) i i' h same)
apply-repeat x (selects s) i i' r same h =
    record_selection-repeat x s i i' h (apply-validate x (selects s) i i' h same)
apply-repeat x (completes c) i i' r same h =
    complete_action-repeat x c i i' h (apply-validate x (completes c) i i' h same)
apply-repeat x (binds_completed b) i i' r same h =
    bind_completed-repeat x b i i' h (apply-validate x (binds_completed b) i i' h same)
apply-repeat x (marks_unknown a) i i' r same h =
    mark_unknown-repeat x a i i' h (apply-validate x (marks_unknown a) i i' h same)
apply-repeat x (reconciles o) i i' r same h = absurd (ground arith)
apply-repeat x (promotes p) i i' r same h =
    promote-repeat x p i i' h (apply-validate x (promotes p) i i' h same)
apply-repeat x (abandons a) i i' r same h =
    abandon-repeat x a i i' h (apply-validate x (abandons a) i i' h same)

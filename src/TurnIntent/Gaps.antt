-- ===== src/TurnIntent/Gaps.antt =====
-- Operations on turn intents that leave an intent that is not well-formed or not of the same turn.
use threadmesh.Prelude.{
  ◌≡◌, refl, inl, inr, true, none, ◌≢◌, beq_refl, String, Option, some, List, [], ◌∷◌, length,
  arith, string_eq, nat_eq, option_eq, ok, err, Result-cases,
}
use threadmesh.Vocabulary.{is_present}
use threadmesh.TurnIntent.{
  ToolAction, ToolCall, Binding, Abandonment, Intent, Formats, intent_invalid, proposed,
  outcome_unknown, abandoned,
}
use threadmesh.TurnIntent.Checks.{
  assert_start, assert_actions, assert_abandonment, assert_evidence, assert_receipt, assert_calls,
  assert_calls_from,
}
use threadmesh.TurnIntent.Validation.{validate, validate_by, assert_abandoned}
use threadmesh.TurnIntent.Operations.{
  start, bind_operation, record_selection, complete_action, as_started,
}
use threadmesh.TurnIntent.Outcomes.{
  Operation, apply, bind_completed, mark_unknown, reconcile_unknown, promote, abandon, binding_of,
  found_bound, completed_actions, completed_of, assert_bound, reconciled_by, with_completed, starts,
  binds_operation, selects, completes, binds_completed, marks_unknown, reconciles, promotes,
  abandons, found,
}
use threadmesh.TurnIntent.Validity.{assert_completed-bound}
use threadmesh.TurnIntent.Reconciled.{
  with_completed-validate, assert_evidence-turn, validate-proposal,
}

rejected :
    (x : Formats) (i : Intent) (o : Operation)
    → validate x i ≡ err intent_invalid
    → apply x o i ≡ err intent_invalid
unfolding apply start bind_operation record_selection complete_action bind_completed mark_unknown
    reconcile_unknown promote abandon
rejected x i starts v = rw v refl
rejected x i (binds_operation turn) v = rw v refl
rejected x i (selects s) v = rw v refl
rejected x i (completes c) v = rw v refl
rejected x i (binds_completed b) v = rw v refl
rejected x i (marks_unknown a) v = rw v refl
rejected x i (reconciles o) v = rw v refl
rejected x i (promotes p) v = rw v refl
rejected x i (abandons a) v = rw v refl

abandon-invalid :
    (x : Formats) (a : Abandonment) (i i' : Intent)
    → i.state ≡ proposed
    → is_present a.terminal ≡ true
    → abandon x a i ≡ ok i'
    → validate x i' ≡ err intent_invalid
unfolding abandon validate validate_by assert_abandoned
abandon-invalid x a i i' is terminal h = ground arith

abandons_proposed :
    (x : Formats) (a : Abandonment) (i : Intent)
    → validate x i ≡ ok tt
    → i.state ≡ proposed
    → assert_abandonment x a ≡ ok tt
    → abandon x a i ≡ ok (record i { state = abandoned; promotion = none; abandonment = some a })
unfolding abandon
abandons_proposed x a i v is good = rw (v, good, is) refl

-- An intent that was never started can be abandoned with the marks of a turn that ended: of a
-- well-formed intent and a well-formed marker the abandonment succeeds, and it leaves an intent that
-- every operation rejects as invalid.
pub abandon_rejected :
    (x : Formats) (a : Abandonment) (i : Intent)
    → validate x i ≡ ok tt
    → i.state ≡ proposed
    → assert_abandonment x a ≡ ok tt
    → is_present a.terminal ≡ true
    → (o : Operation)
    → (i' : Intent) × (abandon x a i ≡ ok i') × (apply x o i' ≡ err intent_invalid)
abandon_rejected x a i v is good terminal o =
    let i' : Intent = record i { state = abandoned; promotion = none; abandonment = some a } in
    let done = abandons_proposed x a i v is good in
    (i', done, rejected x i' o (abandon-invalid x a i i' is terminal done))

started_at :
    (x : Formats) (turn : String) → x.is_id turn ≡ true → assert_start x (some turn) ≡ ok tt
unfolding assert_start
started_at x turn id = rw id refl

no_actions :
    (x : Formats) (allowed : List String) (turn : Option String)
    → assert_actions x allowed turn 0 [] [] ≡ ok tt
unfolding assert_actions
no_actions x allowed turn = refl

no_calls :
    (calls : List ToolCall) (actions : List ToolAction)
    → actions ≡ []
    → length calls ≡ length actions
    → calls ≡ []
no_calls [] actions none_recorded same = refl
no_calls (c ∷ calls) actions none_recorded same = absurd (ground arith)

found-validate_idle :
    (x : Formats) (b : Binding) (i i' : Intent)
    → validate x i ≡ ok tt
    → i.tool_actions ≡ []
    → found_bound x b i ≡ ok i'
    → (i'.turn_start ≡ some (some b.evidence.turn_id)) × (validate x i' ≡ ok tt)
unfolding found_bound completed_actions
found-validate_idle x b i i' v idle h =
    let turn : String = b.evidence.turn_id in
    let empty =
      no_calls b.tool_calls i.tool_actions idle
        (ground (arith, nat_eq.beq_iff (length b.tool_calls) (length i.tool_actions))) in
    elim (Result-cases (binding_of x b (as_started i (some turn) []))) [
      | inr (e, failed) ↦ absurd (ground arith)
      | inl (c, bound) ↦
          let made : i' ≡ with_completed i (some (some turn)) [] c = ground arith in
          (
            rw made refl,
            rw made (
                with_completed-validate x i turn [] c
                  (record {
                    proposal_valid = validate-proposal x i v;
                    few_actions = rw idle refl;
                    start_valid =
                        started_at x turn
                          (assert_evidence-turn x b (as_started i (some turn) []) c bound);
                    actions_valid = rw idle (no_actions x i.proposal.allowed_tools (some turn));
                  })
                  (rw idle refl) (no_actions x i.proposal.allowed_tools (some turn))
                  (assert_completed-bound x b (as_started i (some turn) []) c (some turn) bound refl
                    refl)),
          )
    ]

-- A binding of the actor's that lists no tool calls, for an intent of an unknown outcome that has no
-- tool actions: everything about it is in order but which turn it is of.
pub record IsInOrder (x : Formats) (b : Binding) (i : Intent) : Type 0 where
  pub well_formed : validate x i ≡ ok tt
  pub is_unknown : i.state ≡ outcome_unknown
  pub no_actions : i.tool_actions ≡ []
  pub evidence : assert_evidence x b.evidence ≡ ok tt
  pub receipt : assert_receipt x b.receipt ≡ ok tt
  pub is_digest : x.is_digest b.adapter_receipt_digest ≡ true
  pub digest : x.receipt_digest b.receipt ≡ b.adapter_receipt_digest
  pub no_calls : b.tool_calls ≡ []
  pub no_others : b.non_threadmesh_tool_calls ≡ 0
  pub thread : b.evidence.thread_id ≡ i.proposal.actor.thread_id
  pub snapshot : b.evidence.snapshot_digest ≡ i.proposal.actor.snapshot_digest
  pub operation : b.receipt.adapter_operation_id ≡ b.evidence.turn_id

found_bound-ok :
    (x : Formats) (b : Binding) (i : Intent)
    → IsInOrder x b i
    → found_bound x b i ≡ ok (with_completed i (some (some b.evidence.turn_id)) [] (completed_of b))
unfolding found_bound completed_actions binding_of assert_bound assert_calls assert_calls_from
found_bound-ok x b i g =
    rw
      (
        g.no_calls,
        g.no_actions,
        g.evidence,
        g.receipt,
        g.is_digest,
        g.digest,
        beq_refl b.adapter_receipt_digest,
        g.no_others,
        g.thread,
        g.snapshot,
        g.operation,
        beq_refl i.proposal.actor.thread_id,
        beq_refl i.proposal.actor.snapshot_digest,
        beq_refl b.evidence.turn_id,
      )
      refl

-- A turn that is found for an intent with no tool actions is bound although another turn was started:
-- if everything else about the binding is in order, the reconciliation succeeds, and the intent, which
-- is well-formed, has the found turn in place of the one that was bound.
pub reconcile_rebinds :
    (x : Formats) (b : Binding) (i : Intent) (turn : String)
    → IsInOrder x b i
    → i.turn_start ≡ some (some turn)
    → turn ≢ b.evidence.turn_id
    → (i' : Intent) × (reconcile_unknown x (found b) i ≡ ok i')
      × (i'.turn_start ≡ some (some b.evidence.turn_id))
      × (i'.turn_start ≢ i.turn_start)
      × (validate x i' ≡ ok tt)
unfolding reconcile_unknown reconciled_by
reconcile_rebinds x b i turn g was other =
    let i' = with_completed i (some (some b.evidence.turn_id)) [] (completed_of b) in
    let bound = found_bound-ok x b i g in
    let (to, v) = found-validate_idle x b i i' g.well_formed g.no_actions bound in
    (i', rw (g.well_formed, g.is_unknown) bound, to, λ same. other (ground arith), v)

-- ===== src/TurnIntent/Histories.antt =====
-- Turn intents as they are stored: proposed once, then changed by operations one after the other. An
-- operation that throws leaves the stored intent as it was.
use threadmesh.Prelude.{
  ◌≡◌, refl, ◌∙◌, inl, inr, Bool, true, ◌&&◌, List, [], ◌∷◌, arith, ap, Result, ok, err,
  Result-cases,
}
use threadmesh.TurnIntent.{Formats, Intent, IntentError, Proposal}
use threadmesh.TurnIntent.Validation.{validate, validate_by}
use threadmesh.TurnIntent.Operations.{propose}
use threadmesh.TurnIntent.Outcomes.{Operation, apply}
use threadmesh.TurnIntent.Reconciled.{keeps_turn, apply-validate}
use threadmesh.TurnIntent.Transitions.{Advances, apply-Advances}

abbrev stored : Intent → Result IntentError Intent → Intent
stored i (ok i') = i'
stored i (err e) = i

unfoldable pub apply_all : Formats → List Operation → Intent → Intent
apply_all x [] i = i
apply_all x (o ∷ os) i = apply_all x os (stored i (apply x o i))

-- Whether every operation keeps to the turn that the intent has when it comes.
unfoldable pub all_keep_turn : Formats → List Operation → Intent → Bool
all_keep_turn x [] i = true
all_keep_turn x (o ∷ os) i = keeps_turn o i && all_keep_turn x os (stored i (apply x o i))

propose-validate :
    (x : Formats) (p : Proposal) (i : Intent)
    → propose x p ≡ ok i
    → (validate x i ≡ ok tt) × (i.proposal ≡ p)
unfolding propose validate validate_by
propose-validate x p i h = (ground arith, ground arith)

Advances-proposal : (i i' : Intent) → Advances i i' → i'.proposal ≡ i.proposal
Advances-proposal i i' (inl same) = ap (λ j. j.proposal) same
Advances-proposal i i' (inr (follows, same)) = same

stored-validate :
    (x : Formats) (o : Operation) (i : Intent)
    → validate x i ≡ ok tt
    → keeps_turn o i ≡ true
    → (validate x (stored i (apply x o i)) ≡ ok tt)
      × ((stored i (apply x o i)).proposal ≡ i.proposal)
stored-validate x o i v keeps = elim (Result-cases (apply x o i)) [
  | inl (i', ran) ↦
      rw ran
        (apply-validate x o i i' ran keeps, Advances-proposal i i' (apply-Advances x o i i' ran))
  | inr (e, failed) ↦ rw failed (v, refl)
]

apply_all-valid :
    (x : Formats) (os : List Operation) (i : Intent)
    → validate x i ≡ ok tt
    → all_keep_turn x os i ≡ true
    → (validate x (apply_all x os i) ≡ ok tt) × ((apply_all x os i).proposal ≡ i.proposal)
unfolding apply_all all_keep_turn
apply_all-valid x [] i v keep = (v, refl)
apply_all-valid x (o ∷ os) i v keep =
    let (now, same) = stored-validate x o i v (ground arith) in
    let (last, kept) = apply_all-valid x os (stored i (apply x o i)) now (ground arith) in
    (last, kept ∙ same)

-- Whatever operations come after a proposal, in whatever order, the stored intent is well-formed and
-- has the proposal that it was made with, where each reconciliation that finds a turn finds the one
-- that is bound, if one is, and no abandonment says how a turn ended.
pub propose-apply_all :
    (x : Formats) (p : Proposal) (os : List Operation) (i : Intent)
    → propose x p ≡ ok i
    → all_keep_turn x os i ≡ true
    → (validate x (apply_all x os i) ≡ ok tt) × ((apply_all x os i).proposal ≡ p)
propose-apply_all x p os i made keep =
    let (v, is) = propose-validate x p i made in
    let (last, same) = apply_all-valid x os i v keep in (last, same ∙ is)

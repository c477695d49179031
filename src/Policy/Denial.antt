-- ===== src/Policy/Denial.antt =====
-- What the policy tells its caller.
use threadmesh.Prelude.{
  ◌≡◌, refl, Option, none, some, arith, string_eq, nat_eq, option_eq, Result, ok, err,
}
use threadmesh.Vocabulary.{intent_eq, delivery_mode_eq}
use threadmesh.Policy.{
  Envelope, Freshness, TaskSnapshot, Grant, PolicyInput, PolicyDecision, allow, deny,
  check_expectations, check_freshness, check_policy, returned, evaluate_relationship_policy,
}

-- A denial has the public error code of all denials, and names no grant.
abbrev pub IsDenial : PolicyDecision → Type 0
IsDenial d =
    (d.decision ≡ deny)
    × (d.public_error_code ≡ some "threadmesh_policy_denied")
    × (d.granted ≡ none)

abbrev pub Denies : {A : Type 0} → Result PolicyDecision A → Type 0
Denies (ok a) = Unit
Denies (err d) = IsDenial d

check_expectations-Denies :
    (f : Option Freshness) (t : TaskSnapshot) → Denies (check_expectations f t)
unfolding check_expectations
check_expectations-Denies f t = ground arith

check_freshness-Denies : (e : Envelope) (t : TaskSnapshot) → Denies (check_freshness e t)
unfolding check_freshness
check_freshness-Denies e t = ground (arith, check_expectations-Denies e.freshness t)

pub check_policy-Denies : (input : PolicyInput) → Denies (check_policy input)
unfolding check_policy
check_policy-Denies input = grind (arith, check_freshness-Denies)

allowed_result :
    (m : Result PolicyDecision Grant)
    → Denies m
    → (returned m).decision ≡ allow
    → (r : Grant) × (m ≡ ok r)
allowed_result (ok r) d h = (r, refl)
allowed_result (err denial) d h = ground arith

pub allow-ok :
    (input : PolicyInput)
    → (evaluate_relationship_policy input).decision ≡ allow
    → (r : Grant) × (check_policy input ≡ ok r)
unfolding evaluate_relationship_policy
allow-ok input h = allowed_result (check_policy input) (check_policy-Denies input) h

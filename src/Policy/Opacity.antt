-- ===== src/Policy/Opacity.antt =====
-- What the policy tells its caller about the tasks and the grant.
use threadmesh.Prelude.{
  ℕ, ◌≡◌, ◌≢◌, refl, ◌⊎◌, inl, inr, Option, none, some, arith, string_eq, nat_eq, option_eq, Result,
  ok, err,
}
use threadmesh.Vocabulary.{intent_eq, delivery_mode_eq}
use threadmesh.Policy.{
  Envelope, TaskSnapshot, Grant, PolicyInput, PolicyReason, PolicyDecision, allow,
  check_expectations, check_freshness, check_policy, returned, evaluate_relationship_policy,
}
use threadmesh.Policy.Denial.{IsDenial, Denies, check_policy-Denies}
use threadmesh.Policy.Reasons.{
  Reveals, not_current, Passes-HoldsGrant, run_reason, objective_reason, expected_run,
  expected_objective,
}

abbrev input_of :
    Option Envelope
    → Option TaskSnapshot
    → Option TaskSnapshot
    → Option Grant
    → Option Grant
    → Option ℕ
    → PolicyInput
input_of e s t g c now = record {
  envelope = e;
  grant = g;
  current_grant = c;
  source_task = s;
  target_task = t;
  now = now;
}

stale-Reveals :
    (e : Option Envelope) (s t : Option TaskSnapshot) (g c : Option Grant) (now : Option ℕ)
    (d : PolicyDecision)
    → check_policy (input_of e s t g c now) ≡ err d
    → d.reason_code ≡ PolicyReason.stale_incarnation
    → Reveals (input_of e s t g c now) PolicyReason.stale_incarnation
unfolding check_policy check_freshness check_expectations
stale-Reveals none s t g c now d h is = absurd (ground arith)
stale-Reveals (some e) s t g c none d h is = absurd (ground arith)
stale-Reveals (some e) none t g c (some now) d h is = absurd (ground arith)
stale-Reveals (some e) (some s) none g c (some now) d h is = absurd (ground arith)
stale-Reveals (some e) (some s) (some t) g c (some now) d h is =
    (e, s, t, refl, refl, refl, not_current e s t (ground arith))

run-Reveals :
    (e : Option Envelope) (s t : Option TaskSnapshot) (g c : Option Grant) (now : Option ℕ)
    (d : PolicyDecision)
    → check_policy (input_of e s t g c now) ≡ err d
    → d.reason_code ≡ PolicyReason.stale_run
    → Reveals (input_of e s t g c now) PolicyReason.stale_run
unfolding check_policy
run-Reveals none s t g c now d h is = absurd (ground arith)
run-Reveals (some e) s t g c none d h is = absurd (ground arith)
run-Reveals (some e) none t g c (some now) d h is = absurd (ground arith)
run-Reveals (some e) (some s) none g c (some now) d h is = absurd (ground arith)
run-Reveals (some e) (some s) (some t) none c (some now) d h is = absurd (ground arith)
run-Reveals (some e) (some s) (some t) (some g) none (some now) d h is = absurd (ground arith)
run-Reveals (some e) (some s) (some t) (some g) (some c) (some now) d h is =
    let (passes, changing, failed) = run_reason e s t g c now d h is in
    let (f, at, unmet) = expected_run e.freshness t d failed is in
    (e, s, t, g, c, now, f, refl, Passes-HoldsGrant e s t g c now passes, changing, at, unmet)

objective-Reveals :
    (e : Option Envelope) (s t : Option TaskSnapshot) (g c : Option Grant) (now : Option ℕ)
    (d : PolicyDecision)
    → check_policy (input_of e s t g c now) ≡ err d
    → d.reason_code ≡ PolicyReason.stale_objective
    → Reveals (input_of e s t g c now) PolicyReason.stale_objective
unfolding check_policy
objective-Reveals none s t g c now d h is = absurd (ground arith)
objective-Reveals (some e) s t g c none d h is = absurd (ground arith)
objective-Reveals (some e) none t g c (some now) d h is = absurd (ground arith)
objective-Reveals (some e) (some s) none g c (some now) d h is = absurd (ground arith)
objective-Reveals (some e) (some s) (some t) none c (some now) d h is = absurd (ground arith)
objective-Reveals (some e) (some s) (some t) (some g) none (some now) d h is = absurd (ground arith)
objective-Reveals (some e) (some s) (some t) (some g) (some c) (some now) d h is =
    let (passes, changing, failed) = objective_reason e s t g c now d h is in
    let (f, at, unmet) = expected_objective e.freshness t d failed is in
    (e, s, t, g, c, now, f, refl, Passes-HoldsGrant e s t g c now passes, changing, at, unmet)

never_accepted :
    (input : PolicyInput) (d : PolicyDecision)
    → check_policy input ≡ err d
    → d.reason_code ≢ PolicyReason.accepted
unfolding check_policy check_freshness check_expectations
never_accepted input d h is = ground arith

err-Reveals :
    (input : PolicyInput) (d : PolicyDecision) (r : PolicyReason)
    → check_policy input ≡ err d
    → d.reason_code ≡ r
    → Reveals input r
err-Reveals input d PolicyReason.policy_denied h is = tt
err-Reveals input d PolicyReason.accepted h is = absurd (never_accepted input d h is)
err-Reveals input d PolicyReason.stale_incarnation h is = stale-Reveals _ _ _ _ _ _ d h is
err-Reveals input d PolicyReason.stale_run h is = run-Reveals _ _ _ _ _ _ d h is
err-Reveals input d PolicyReason.stale_objective h is = objective-Reveals _ _ _ _ _ _ d h is

check_policy-grant :
    (input : PolicyInput) (r : Grant) → check_policy input ≡ ok r → input.grant ≡ some r
unfolding check_policy
check_policy-grant input r h = ground arith

-- The grant that an allowing decision names is the grant of the input.
abbrev pub IsGrantOf : PolicyInput → PolicyDecision → Type 0
IsGrantOf input d =
    (g : Grant) × (input.grant ≡ some g)
    × (d.granted ≡ some (g.grant_id, g.grant_version))
    × (d.public_error_code ≡ none)

-- Every denial has the public error code `threadmesh_policy_denied` and names no grant, and its reason
-- code is `policy-denied` but for two causes: a task that is not the live one of the envelope, and,
-- only for a sender who holds a grant in force between live tasks and asks for a change of state, an
-- expectation about the run, or about the objective or the checkpoint, that the target does not meet.
-- Every other decision is an allowance that names the input's grant and version and has no public
-- error code.
pub decision_opaque :
    (input : PolicyInput)
    → let d = evaluate_relationship_policy input in
      (IsDenial d × Reveals input d.reason_code) ⊎ ((d.decision ≡ allow) × IsGrantOf input d)
unfolding evaluate_relationship_policy
decision_opaque input = go (check_policy input) refl (check_policy-Denies input)
  where
    go :
        (m : Result PolicyDecision Grant)
        → check_policy input ≡ m
        → Denies m
        → (IsDenial (returned m) × Reveals input (returned m).reason_code)
          ⊎ ((returned m).decision ≡ allow) × IsGrantOf input (returned m)
    go (err denial) e d = inl (d, err-Reveals input denial denial.reason_code e refl)
    go (ok r) e d = inr (refl, (r, check_policy-grant input r e, refl, refl))

-- ===== src/Policy/Reasons.antt =====
-- What a reason code of a denial stands for: what holds of the input.
use threadmesh.Prelude.{
  ℕ, ◌≡◌, refl, ◌⊎◌, inl, inr, true, false, Option, none, some, arith, string_eq, nat_eq, option_eq,
  err, Eq, Bool-cases,
}
use threadmesh.Vocabulary.{intent_eq, delivery_mode_eq, has_passed, is_present}
use threadmesh.Policy.{
  Envelope, Freshness, TaskSnapshot, Grant, PolicyInput, PolicyReason, PolicyDecision,
  incarnation_is_stale, is_superseded, scope_mismatches, is_state_changing_intent,
  check_expectations, check_freshness, check_policy, differs,
}
use threadmesh.Policy.Checks.{
  NotPassed, has_passed_iff, AreCurrent, incarnation_is_stale_iff, IsInForce, is_superseded_iff,
  Covers, scope_mismatches_iff, IsMet, differs_iff,
}
use threadmesh.Policy.Soundness.{complete}

-- The sender has a grant for the target that is in force, and both tasks are live.
pub record HoldsGrant (e : Envelope) (source target : TaskSnapshot) (grant current : Grant)
    (now : ℕ) : Type 0 where
  pub tasks_current : AreCurrent e source target
  pub not_revoked : grant.revoked_at ≡ none
  pub in_force : IsInForce grant current
  pub covered : Covers e grant
  pub not_expired : NotPassed grant.expires_at now
  pub no_gate_responses : grant.structured_gate_responses ≡ false

-- A holder of a grant who asks for a change of state, with expectations about the target.
abbrev pub Expects : PolicyInput → (Freshness → TaskSnapshot → Type 0) → Type 0
Expects input P =
    (e : Envelope) × (s : TaskSnapshot) × (t : TaskSnapshot) × (g : Grant) × (c : Grant) × (now : ℕ)
    × (f : Freshness) × (input ≡ complete e s t g c now)
    × HoldsGrant e s t g c now
    × (is_state_changing_intent e.intent ≡ true)
    × (e.freshness ≡ some f)
    × P f t

-- What is the case where the caller is given a reason for a denial.
abbrev pub Reveals : PolicyInput → PolicyReason → Type 0
Reveals input PolicyReason.policy_denied = Unit
Reveals input PolicyReason.accepted = ⊥
Reveals input PolicyReason.stale_incarnation =
    (e : Envelope) × (s : TaskSnapshot) × (t : TaskSnapshot) × (input.envelope ≡ some e)
    × (input.source_task ≡ some s)
    × (input.target_task ≡ some t)
    × (¬ AreCurrent e s t)
Reveals input PolicyReason.stale_run = Expects input λ f t. ¬ IsMet f.expected_run_id t.run_id
Reveals input PolicyReason.stale_objective = Expects input λ f t.
    (¬ IsMet f.expected_objective_version t.objective_version)
    ⊎ (¬ IsMet f.expected_checkpoint t.checkpoint)

-- The tests before the expectations pass.
pub record Passes (e : Envelope) (source target : TaskSnapshot) (grant current : Grant) (now : ℕ)
    : Type 0 where
  pub not_stale : incarnation_is_stale e source target ≡ false
  not_revoked : is_present grant.revoked_at ≡ false
  not_superseded : is_superseded grant current ≡ false
  in_scope : scope_mismatches e grant ≡ false
  not_expired : has_passed grant.expires_at now ≡ false
  no_gate_responses : grant.structured_gate_responses ≡ false

pub not_current :
    (e : Envelope) (s t : TaskSnapshot) → incarnation_is_stale e s t ≡ true → ¬ AreCurrent e s t
not_current e s t stale current = ground (arith, (incarnation_is_stale_iff e s t).1 current)

module _ (e : Envelope) (s t : TaskSnapshot) (g c : Grant) (now : ℕ) where
  pub Passes-HoldsGrant : Passes e s t g c now → HoldsGrant e s t g c now
  Passes-HoldsGrant p = record {
    tasks_current = (incarnation_is_stale_iff e s t).0 p.not_stale;
    not_revoked = ground arith;
    in_force = (is_superseded_iff g c).0 p.not_superseded;
    covered = (scope_mismatches_iff e g).0 p.in_scope;
    not_expired = (has_passed_iff g.expires_at now).0 p.not_expired;
    no_gate_responses = p.no_gate_responses;
  }

  pub run_reason :
      (d : PolicyDecision)
      → check_policy (complete e s t g c now) ≡ err d
      → d.reason_code ≡ PolicyReason.stale_run
      → Passes e s t g c now
        × (is_state_changing_intent e.intent ≡ true)
        × (check_expectations e.freshness t ≡ err d)
  unfolding check_policy check_freshness
  run_reason d h is = ground arith

  pub objective_reason :
      (d : PolicyDecision)
      → check_policy (complete e s t g c now) ≡ err d
      → d.reason_code ≡ PolicyReason.stale_objective
      → Passes e s t g c now
        × (is_state_changing_intent e.intent ≡ true)
        × (check_expectations e.freshness t ≡ err d)
  unfolding check_policy check_freshness
  objective_reason d h is = ground arith

differs-IsMet :
    {A : Type 0} ⦃eq : Eq A⦄ (expected actual : Option A)
    → differs expected actual ≡ true
    → ¬ IsMet expected actual
differs-IsMet expected actual h met = ground (arith, (differs_iff expected actual).1 met)

pub expected_run :
    (o : Option Freshness) (t : TaskSnapshot) (d : PolicyDecision)
    → check_expectations o t ≡ err d
    → d.reason_code ≡ PolicyReason.stale_run
    → (f : Freshness) × (o ≡ some f) × (¬ IsMet f.expected_run_id t.run_id)
unfolding check_expectations
expected_run none t d h is = absurd (ground arith)
expected_run (some f) t d h is = (f, refl, differs-IsMet f.expected_run_id t.run_id (ground arith))

pub expected_objective :
    (o : Option Freshness) (t : TaskSnapshot) (d : PolicyDecision)
    → check_expectations o t ≡ err d
    → d.reason_code ≡ PolicyReason.stale_objective
    → (f : Freshness) × (o ≡ some f)
      × ((¬ IsMet f.expected_objective_version t.objective_version)
          ⊎ (¬ IsMet f.expected_checkpoint t.checkpoint))
unfolding check_expectations
expected_objective none t d h is = absurd (ground arith)
expected_objective (some f) t d h is =
    elim (Bool-cases (differs f.expected_objective_version t.objective_version)) [
      | inl other ↦ (f, refl, inl (differs-IsMet _ _ other))
      | inr same ↦ (f, refl, inr (differs-IsMet f.expected_checkpoint t.checkpoint (ground arith)))
    ]

-- ===== src/Policy/Soundness.antt =====
-- The conditions of the policy in words of equality and order.
use mathlib.Core.List.{Memᴰ}
use threadmesh.Prelude.{
  ℕ, ◌≡◌, refl, ◌↔◌, ◌⊎◌, true, false, not, ◌&&◌, Option, none, some, arith, string_eq, nat_eq,
  option_eq, ok, includes, includes_iff,
}
use threadmesh.Vocabulary.{intent_eq, delivery_mode_eq, has_passed, is_present}
use threadmesh.Policy.{
  Envelope, Freshness, TaskSnapshot, Grant, PolicyInput, allow, incarnation_is_stale, is_superseded,
  scope_mismatches, is_state_changing_intent, is_elevated, check_expectations, check_freshness,
  check_policy, evaluate_relationship_policy,
}
use threadmesh.Policy.Denial.{allow-ok}
use threadmesh.Policy.Checks.{
  NotPassed, has_passed_iff, AreCurrent, incarnation_is_stale_iff, IsInForce, is_superseded_iff,
  Covers, scope_mismatches_iff, IsMet, differs_iff,
}

-- The expectations of an envelope about the target task.
abbrev pub IsFresh : Option Freshness → TaskSnapshot → Type 0
IsFresh none target = ⊥
IsFresh (some f) target =
    IsMet f.expected_run_id target.run_id
    × IsMet f.expected_objective_version target.objective_version
    × IsMet f.expected_checkpoint target.checkpoint

check_expectations_iff :
    (f : Option Freshness) (t : TaskSnapshot) → (check_expectations f t ≡ ok tt) ↔ IsFresh f t
unfolding check_expectations
check_expectations_iff none t = (λ h. cc, λ h. absurd h)
check_expectations_iff (some f) t = ground (
  arith,
  differs_iff f.expected_run_id t.run_id,
  differs_iff f.expected_objective_version t.objective_version,
  differs_iff f.expected_checkpoint t.checkpoint,
)

-- A state-changing intent needs an elevated relationship, and expectations that are met.
abbrev pub MayChangeState : Envelope → Grant → TaskSnapshot → Type 0
MayChangeState e grant target =
    (is_state_changing_intent e.intent ≡ false)
    ⊎ ((is_elevated grant.relationship_type ≡ true) × IsFresh e.freshness target)

MayChangeState-iff :
    (e : Envelope) (g : Grant) (t : TaskSnapshot)
    → ((check_freshness e t ≡ ok tt)
        × ((is_state_changing_intent e.intent && not (is_elevated g.relationship_type)) ≡ false))
      ↔ MayChangeState e g t
unfolding check_freshness
MayChangeState-iff e g t = ground (arith, check_expectations_iff e.freshness t)

-- What the policy asks for, in words of equality and order.
pub record Authorized (e : Envelope) (source target : TaskSnapshot) (grant current : Grant)
    (now : ℕ) : Type 0 where
  pub tasks_current : AreCurrent e source target
  pub not_revoked : grant.revoked_at ≡ none
  pub in_force : IsInForce grant current
  pub covered : Covers e grant
  pub not_expired : NotPassed grant.expires_at now
  pub no_gate_responses : grant.structured_gate_responses ≡ false
  pub may_change_state : MayChangeState e grant target
  pub intent_granted : Memᴰ e.intent grant.allowed_intents
  pub mode_granted : Memᴰ e.requested_mode grant.allowed_delivery_modes

-- An input with all its parts.
abbrev pub complete : Envelope → TaskSnapshot → TaskSnapshot → Grant → Grant → ℕ → PolicyInput
complete e source target grant current now = record {
  envelope = some e;
  grant = some grant;
  current_grant = some current;
  source_task = some source;
  target_task = some target;
  now = some now;
}

-- Every test of the chain passes.
record Passes (e : Envelope) (source target : TaskSnapshot) (grant current : Grant) (now : ℕ)
    : Type 0 where
  not_stale : incarnation_is_stale e source target ≡ false
  not_revoked : is_present grant.revoked_at ≡ false
  not_superseded : is_superseded grant current ≡ false
  in_scope : scope_mismatches e grant ≡ false
  not_expired : has_passed grant.expires_at now ≡ false
  no_gate_responses : grant.structured_gate_responses ≡ false
  fresh : check_freshness e target ≡ ok tt
  elevated :
      (is_state_changing_intent e.intent && not (is_elevated grant.relationship_type)) ≡ false
  intent_included : includes grant.allowed_intents e.intent ≡ true
  mode_included : includes grant.allowed_delivery_modes e.requested_mode ≡ true

module _ (e : Envelope) (s t : TaskSnapshot) (g c : Grant) (now : ℕ) where
  check_policy-Passes :
      (r : Grant) → check_policy (complete e s t g c now) ≡ ok r → Passes e s t g c now
  unfolding check_policy
  check_policy-Passes r h = ground arith

  Passes-check_policy : Passes e s t g c now → check_policy (complete e s t g c now) ≡ ok g
  unfolding check_policy
  Passes-check_policy p = ground arith

  Passes-Authorized : Passes e s t g c now → Authorized e s t g c now
  Passes-Authorized p = record {
    tasks_current = (incarnation_is_stale_iff e s t).0 p.not_stale;
    not_revoked = ground arith;
    in_force = (is_superseded_iff g c).0 p.not_superseded;
    covered = (scope_mismatches_iff e g).0 p.in_scope;
    not_expired = (has_passed_iff g.expires_at now).0 p.not_expired;
    no_gate_responses = p.no_gate_responses;
    may_change_state = (MayChangeState-iff e g t).0 (p.fresh, p.elevated);
    intent_granted = (includes_iff g.allowed_intents e.intent).0 p.intent_included;
    mode_granted = (includes_iff g.allowed_delivery_modes e.requested_mode).0 p.mode_included;
  }

  Authorized-Passes : Authorized e s t g c now → Passes e s t g c now
  Authorized-Passes a = record {
    not_stale = (incarnation_is_stale_iff e s t).1 a.tasks_current;
    not_revoked = ground arith;
    not_superseded = (is_superseded_iff g c).1 a.in_force;
    in_scope = (scope_mismatches_iff e g).1 a.covered;
    not_expired = (has_passed_iff g.expires_at now).1 a.not_expired;
    no_gate_responses = a.no_gate_responses;
    fresh = ((MayChangeState-iff e g t).1 a.may_change_state).0;
    elevated = ((MayChangeState-iff e g t).1 a.may_change_state).1;
    intent_included = (includes_iff g.allowed_intents e.intent).1 a.intent_granted;
    mode_included = (includes_iff g.allowed_delivery_modes e.requested_mode).1 a.mode_granted;
  }

-- The conditions on an input as a whole.
abbrev pub IsAuthorized : PolicyInput → Type 0
IsAuthorized input =
    (e : Envelope) × (s : TaskSnapshot) × (t : TaskSnapshot) × (g : Grant) × (c : Grant) × (now : ℕ)
    × (input ≡ complete e s t g c now)
    × Authorized e s t g c now

-- An input that passes has all its parts.
check_policy-IsAuthorized :
    (e : Option Envelope) (s t : Option TaskSnapshot) (g c : Option Grant) (now : Option ℕ)
    (r : Grant)
    → let input : PolicyInput = record {
      envelope = e;
      grant = g;
      current_grant = c;
      source_task = s;
      target_task = t;
      now = now;
    } in
      check_policy input ≡ ok r → IsAuthorized input
unfolding check_policy
check_policy-IsAuthorized (some e) (some s) (some t) (some g) (some c) (some now) r h = (
  e,
  s,
  t,
  g,
  c,
  now,
  refl,
  Passes-Authorized e s t g c now (check_policy-Passes e s t g c now r h),
)
check_policy-IsAuthorized none s t g c now r h = ground arith
check_policy-IsAuthorized (some e) s t g c none r h = ground arith
check_policy-IsAuthorized (some e) none t g c (some now) r h = ground arith
check_policy-IsAuthorized (some e) (some s) none g c (some now) r h = ground arith
check_policy-IsAuthorized (some e) (some s) (some t) none c (some now) r h = absurd (ground arith)
check_policy-IsAuthorized (some e) (some s) (some t) (some g) none (some now) r h =
    absurd (ground arith)

-- The policy allows exactly the inputs that have all their parts and whose tasks are live and are the
-- sender and the target, whose grant covers them, is in force, unrevoked, unexpired and without gate
-- responses, and lists the intent and the delivery mode, and which for a state-changing intent have
-- an elevated relationship and expectations that the target task meets.
pub allow_iff :
    (input : PolicyInput)
    → ((evaluate_relationship_policy input).decision ≡ allow) ↔ IsAuthorized input
unfolding evaluate_relationship_policy
allow_iff input = (to, from)
  where
    to : (evaluate_relationship_policy input).decision ≡ allow → IsAuthorized input
    to h =
        let (r, ok_r) = allow-ok input h in
        check_policy-IsAuthorized input.envelope input.source_task input.target_task input.grant
          input.current_grant input.now r ok_r

    from : IsAuthorized input → (evaluate_relationship_policy input).decision ≡ allow
    from (e, s, t, g, c, now, p, a) =
        rw p (rw (Passes-check_policy e s t g c now (Authorized-Passes e s t g c now a)))

-- ===== src/Tests/Protocol.antt =====
-- The transition tables and the policy at concrete inputs.
use mathlib.Core.List.{Memᴰ}
use threadmesh.Prelude.{◌↔◌, ◌≤◌, ◌≡◌, refl, ◌⊎◌, true, none, some, List, length}
use threadmesh.States.{Delivery, Decision, ReasonCode, delivery_eq, decision_eq, reason_eq}
use threadmesh.Disposition.{Machine, is_decision_reason_allowed, default_decision_reasons}
use threadmesh.Disposition.Progress.{Runs, height_exact}
use threadmesh.Disposition.Reasons.{reason-decision, default_allowed, decisions_of}
use threadmesh.Policy.{
  PolicyInput, allow, evaluate_relationship_policy, check_policy, is_state_changing_intent,
  is_elevated, check_freshness, check_expectations, incarnation_is_stale, is_superseded,
  scope_mismatches, differs,
}
use threadmesh.Policy.Denial.{IsDenial}
use threadmesh.Policy.Opacity.{IsGrantOf, decision_opaque}
use threadmesh.Policy.Reasons.{Reveals}
use threadmesh.Policy.Soundness.{IsAuthorized, allow_iff}
use threadmesh.Tests.Samples.{policy_sample, worker_snapshot}

height_exact_example :
    ((run : List Delivery) → Runs Machine.delivery Delivery.durably_received run → length run ≤ 4)
    × ((run : List Delivery) × Runs Machine.delivery Delivery.durably_received run
        × (length run ≡ 4))
height_exact_example = height_exact Machine.delivery Delivery.durably_received

reason-decision_example :
    (is_decision_reason_allowed Decision.deferred ReasonCode.backpressure ≡ true)
    ↔ Memᴰ Decision.deferred (decisions_of ReasonCode.backpressure)
reason-decision_example = reason-decision Decision.deferred ReasonCode.backpressure

default_allowed_example :
    ((Decision.stale ≡ Decision.pending) × (default_decision_reasons Decision.stale ≡ none))
    ⊎ ((r : ReasonCode) × (default_decision_reasons Decision.stale ≡ some r)
        × (is_decision_reason_allowed Decision.stale r ≡ true))
default_allowed_example = default_allowed Decision.stale

policy_allows : (evaluate_relationship_policy policy_sample).decision ≡ allow
unfolding evaluate_relationship_policy check_policy is_state_changing_intent is_elevated
    check_freshness check_expectations incarnation_is_stale is_superseded scope_mismatches differs
policy_allows = refl

allow_iff_example : IsAuthorized policy_sample
allow_iff_example = (allow_iff policy_sample).0 policy_allows

-- The target has gone on to another run than the one that the message expects.
abbrev later_run : PolicyInput
later_run = record policy_sample {
  target_task = some (record worker_snapshot { run_id = some "run_8" });
}

decision_opaque_example :
    let d = evaluate_relationship_policy later_run in
    (IsDenial d × Reveals later_run d.reason_code) ⊎ ((d.decision ≡ allow) × IsGrantOf later_run d)
decision_opaque_example = decision_opaque later_run

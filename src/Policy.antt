-- ===== src/Policy.antt =====
-- Relationship policy (src/policy/relationship-policy.mjs): the directional grant check that every
-- protected operation makes, over snapshots of the two tasks and of the grant.
-- An early `return deny(…)` is an error of the chain, and the last `return` its value. `none` stands
-- for `null` and `undefined`; a timestamp is what `Date.parse` makes of it.
pub mod Checks
pub mod Denial
pub mod Soundness
pub mod Reasons
pub mod Opacity
use threadmesh.Prelude.{
  ℕ, ◌≡◌, Bool, true, false, not, ◌&&◌, ◌||◌, String, Option, none, some, List, includes, Eq, ◌==◌,
  string_eq, nat_eq, option_eq, Result, ok, err, ◌>>=◌, ◌>>◌, throw_if, or_throw, if◌then◌else◌, [],
  ◌∷◌,
}
use threadmesh.States.{ReasonCode}
use threadmesh.Vocabulary.{
  Intent, intent_eq, DeliveryMode, delivery_mode_eq, RelationshipType, relationship_type_eq,
  ActorType, TaskRef, same_task_ref, Instant, has_passed, is_present,
}

pub record Freshness : Type 0 where
  pub expected_run_id : Option String
  pub expected_objective_version : Option ℕ
  pub expected_checkpoint : Option String

-- The fields of an envelope that the policy and the coordinator read.
pub record Envelope : Type 0 where
  pub message_id : String
  pub sender : TaskRef
  pub actor_type : ActorType
  pub actor_id : Option String
  pub target : TaskRef
  pub relationship_id : String
  pub intent : Intent
  pub requested_mode : DeliveryMode
  pub freshness : Option Freshness
  pub content : String
  pub expires_at : Instant

pub record TaskSnapshot : Type 0 where
  pub ref : TaskRef
  pub retired_at : Option Instant
  pub run_id : Option String
  pub objective_version : Option ℕ
  pub checkpoint : Option String

pub record Grant : Type 0 where
  pub grant_id : String
  pub grant_version : ℕ
  pub relationship_id : String
  pub relationship_type : RelationshipType
  pub source : TaskRef
  pub target : TaskRef
  pub allowed_intents : List Intent
  pub allowed_delivery_modes : List DeliveryMode
  pub structured_gate_responses : Bool
  pub expires_at : Option Instant
  pub revoked_at : Option Instant

pub data Verdict : Type 0 where
  allow deny : Verdict

pub data InternalReason : Type 0 where
  policy_input_invalid task_not_registered stale_incarnation grant_missing : InternalReason
  grant_revoked grant_superseded grant_scope_mismatch grant_expired : InternalReason
  structured_gate_unsupported freshness_missing stale_run stale_objective : InternalReason
  stale_checkpoint relationship_authority_insufficient intent_not_allowed : InternalReason
  delivery_mode_not_allowed grant_authorized : InternalReason

pub data PolicyReason : Type 0 where
  policy_denied accepted stale_incarnation stale_run stale_objective : PolicyReason

pub record PolicyDecision : Type 0 where
  pub decision : Verdict
  pub reason_code : PolicyReason
  pub public_error_code : Option String
  pub internal_reason_code : InternalReason
  pub granted : Option (String × ℕ)

-- `now` is `none` if it is not finite; `current_grant` is the argument after its default.
pub record PolicyInput : Type 0 where
  pub envelope : Option Envelope
  pub grant : Option Grant
  pub current_grant : Option Grant
  pub source_task : Option TaskSnapshot
  pub target_task : Option TaskSnapshot
  pub now : Option ℕ

-- `deny(internalReasonCode, reasonCode)`
abbrev pub deny_as : InternalReason → PolicyReason → PolicyDecision
deny_as internal reason = record {
  decision = deny;
  reason_code = reason;
  public_error_code = some "threadmesh_policy_denied";
  internal_reason_code = internal;
  granted = none;
}

-- `deny(internalReasonCode)`
abbrev pub deny_by : InternalReason → PolicyDecision
deny_by internal = deny_as internal PolicyReason.policy_denied

abbrev pub allow_by : Grant → PolicyDecision
allow_by grant = record {
  decision = allow;
  reason_code = PolicyReason.accepted;
  public_error_code = none;
  internal_reason_code = InternalReason.grant_authorized;
  granted = some (grant.grant_id, grant.grant_version);
}

-- STATE_CHANGING_INTENTS
unfoldable pub is_state_changing_intent : Intent → Bool
is_state_changing_intent intent = includes (Intent.steer ∷ Intent.interrupt ∷ []) intent

-- ELEVATED_RELATIONSHIPS
unfoldable pub is_elevated : RelationshipType → Bool
is_elevated relationship =
    includes (RelationshipType.supervisor ∷ RelationshipType.parent ∷ []) relationship

-- The tests of the `if` statements, in their order.
unfoldable pub incarnation_is_stale : Envelope → TaskSnapshot → TaskSnapshot → Bool
incarnation_is_stale e source target =
    is_present source.retired_at
    || (is_present target.retired_at
        || (not (same_task_ref source.ref e.sender) || not (same_task_ref target.ref e.target)))

unfoldable pub is_superseded : Grant → Grant → Bool
is_superseded grant current =
    is_present current.revoked_at
    || (not (current.grant_id == grant.grant_id)
        || not (current.grant_version == grant.grant_version))

unfoldable pub scope_mismatches : Envelope → Grant → Bool
scope_mismatches e grant =
    not (grant.relationship_id == e.relationship_id)
    || (not (same_task_ref grant.source e.sender) || not (same_task_ref grant.target e.target))

-- `expected !== undefined && expected !== actual`
unfoldable pub differs {ℓ} : {A : Type ℓ} ⦃eq : Eq A⦄ → Option A → Option A → Bool
differs expected actual = is_present expected && not (expected == actual)

-- The block of the state-changing intents.
unfoldable pub check_expectations :
    Option Freshness → TaskSnapshot → Result PolicyDecision (Unit {0})
check_expectations freshness target = do
  expected ← or_throw freshness (deny_by InternalReason.freshness_missing)
  throw_if (differs expected.expected_run_id target.run_id)
      (deny_as InternalReason.stale_run PolicyReason.stale_run)
  throw_if (differs expected.expected_objective_version target.objective_version)
      (deny_as InternalReason.stale_objective PolicyReason.stale_objective)
  throw_if (differs expected.expected_checkpoint target.checkpoint)
      (deny_as InternalReason.stale_checkpoint PolicyReason.stale_objective)

unfoldable pub check_freshness : Envelope → TaskSnapshot → Result PolicyDecision (Unit {0})
check_freshness e target =
    if is_state_changing_intent e.intent then check_expectations e.freshness target else ok tt

unfoldable pub check_policy : PolicyInput → Result PolicyDecision Grant
check_policy input = do
  e ← or_throw input.envelope (deny_by InternalReason.policy_input_invalid)
  now ← or_throw input.now (deny_by InternalReason.policy_input_invalid)
  source ← or_throw input.source_task (deny_by InternalReason.task_not_registered)
  target ← or_throw input.target_task (deny_by InternalReason.task_not_registered)
  throw_if (incarnation_is_stale e source target)
      (deny_as InternalReason.stale_incarnation PolicyReason.stale_incarnation)
  grant ← or_throw input.grant (deny_by InternalReason.grant_missing)
  throw_if (is_present grant.revoked_at) (deny_by InternalReason.grant_revoked)
  current ← or_throw input.current_grant (deny_by InternalReason.grant_superseded)
  throw_if (is_superseded grant current) (deny_by InternalReason.grant_superseded)
  throw_if (scope_mismatches e grant) (deny_by InternalReason.grant_scope_mismatch)
  throw_if (has_passed grant.expires_at now) (deny_by InternalReason.grant_expired)
  throw_if grant.structured_gate_responses (deny_by InternalReason.structured_gate_unsupported)
  check_freshness e target
  throw_if (is_state_changing_intent e.intent && not (is_elevated grant.relationship_type))
      (deny_by InternalReason.relationship_authority_insufficient)
  throw_if (not (includes grant.allowed_intents e.intent))
      (deny_by InternalReason.intent_not_allowed)
  throw_if (not (includes grant.allowed_delivery_modes e.requested_mode))
      (deny_by InternalReason.delivery_mode_not_allowed)
  ok grant

abbrev returned : Result PolicyDecision Grant → PolicyDecision
returned (ok grant) = allow_by grant
returned (err denial) = denial

unfoldable pub evaluate_relationship_policy : PolicyInput → PolicyDecision
unfolding check_policy
evaluate_relationship_policy input = returned (check_policy input)

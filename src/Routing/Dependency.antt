-- ===== src/Routing/Dependency.antt =====
-- The effect of a lifecycle event on a dependency (evaluateDependencyEffect of
-- src/routing/lifecycle-events.mjs): whether it is satisfied, and whether this evaluation unlocks it.
use threadmesh.Prelude.{
  ℕ, Bool, true, false, not, ◌&&◌, ◌||◌, String, Option, none, some, List, every, ◌==◌, string_eq,
  nat_eq, ltb, leb, Result, ok, err, ◌>>=◌, ◌>>◌, throw_if, or_throw,
}
use threadmesh.States.{Decision, decision_eq}
use threadmesh.Vocabulary.{TaskRef, same_task_ref, Instant, millis, nan, has_passed, is_present}
use threadmesh.Routing.{
  LifecycleEventType, dependency_satisfied, event_type_eq, LifecycleEvent, Projection, RouteError,
  lifecycle_event_invalid, protocol_object_invalid, assert_lifecycle_event,
}
use threadmesh.Routing.Trust.{
  Attestation, TrustAnchor, ProtocolDisposition, Crypto, is_externally_verified, assert_disposition,
  verify_disposition,
}

-- A dependency edge; `is_dependency` is `edgeType === "dependency"`, `id_length` the length of its id.
pub record DependencyEdge : Type 0 where
  pub is_dependency : Bool
  pub dependency_id : String
  pub id_length : ℕ
  pub version : ℕ
  pub prerequisite : TaskRef
  pub dependent : TaskRef
  pub relationship_id : Option String
  pub expected_event_type : Option LifecycleEventType
  pub expires_at : Option Instant
  pub revoked_at : Option Instant

-- validOptionalTimestamp
abbrev pub valid_optional_timestamp : Option Instant → Bool
valid_optional_timestamp none = true
valid_optional_timestamp (some (millis t)) = true
valid_optional_timestamp (some nan) = false

abbrev allows_relationship : Option String → String → Bool
allows_relationship none id = true
allows_relationship (some expected) id = expected == id

abbrev allows_event_type : Option LifecycleEventType → LifecycleEventType → Bool
allows_event_type none t = true
allows_event_type (some expected) t = expected == t

-- dependencyEdgeMatchesEvent
unfoldable pub edge_matches : DependencyEdge → LifecycleEvent → Bool
edge_matches edge event =
    edge.is_dependency
    && (ltb 0 edge.id_length
        && (leb edge.id_length 200
            && (leb 1 edge.version
                && (same_task_ref edge.prerequisite event.sender
                    && (same_task_ref edge.dependent event.target
                        && (allows_relationship edge.relationship_id event.relationship_id
                            && (allows_event_type edge.expected_event_type event.event_type
                                && (valid_optional_timestamp edge.expires_at
                                    && valid_optional_timestamp edge.revoked_at))))))))

-- The test of an inactive edge, against the current edge.
unfoldable pub is_inactive : DependencyEdge → DependencyEdge → ℕ → Bool
is_inactive edge current now =
    is_present edge.revoked_at
    || (is_present current.revoked_at
        || (not (current.dependency_id == edge.dependency_id)
            || (not (current.version == edge.version)
                || (has_passed edge.expires_at now || has_passed current.expires_at now))))

-- DEPENDENCY_EFFECT_REASON_CODES; the last two are the results that are satisfied, and only the last
-- one has `unlock: true`.
pub data Effect : Type 0 where
  not_applicable edge_required edge_mismatch edge_inactive : Effect
  disposition_mismatch receiver_not_accepted verification_required : Effect
  attestation_untrusted already_satisfied verified : Effect

pub record EffectInput : Type 0 where
  pub event : LifecycleEvent
  pub disposition : ProtocolDisposition
  pub trust_anchors : Option (List TrustAnchor)
  pub dependency_edge : Option DependencyEdge
  pub current_dependency_edge : Option DependencyEdge
  pub now : Option ℕ
  pub previously_satisfied : Bool

-- A `return` of the function, or an exception.
pub data Stop : Type 0 where
  returns : Effect → Stop
  throws : RouteError → Stop

abbrev pub return_if : Bool → Effect → Result Stop (Unit {0})
return_if test effect = throw_if test (returns effect)

abbrev pub thrown {ℓ κ} : {E : Type ℓ} {A : Type κ} → Stop → Result E A → Result Stop A
thrown stop (ok a) = ok a
thrown stop (err e) = err stop

abbrev pub is_about : EffectInput → Bool
is_about i =
    (i.disposition.message_id == i.event.message_id)
    && same_task_ref i.disposition.receiver i.event.target

abbrev pub is_of_sender : LifecycleEvent → Attestation → Bool
is_of_sender event a = a.sender_incarnation_id == event.sender.incarnation_id

-- The tests before the disposition is looked at.
unfoldable pub check_edge : EffectInput → Result Stop (Unit {0})
check_edge i = do
  return_if (not (i.event.event_type == dependency_satisfied)) not_applicable
  now ← or_throw i.now (throws lifecycle_event_invalid)
  edge ← or_throw i.dependency_edge (returns edge_required)
  return_if (not (edge_matches edge i.event)) edge_mismatch
  current ← or_throw i.current_dependency_edge (returns edge_inactive)
  return_if (is_inactive edge current now) edge_inactive
  return_if (not (edge_matches current i.event)) edge_mismatch

-- The tests of the disposition.
unfoldable pub check_disposition : Crypto → EffectInput → Result Stop (Unit {0})
check_disposition c i = do
  thrown (throws protocol_object_invalid) (assert_disposition c i.disposition)
  return_if (not (is_about i)) disposition_mismatch
  return_if (not (i.disposition.decision == Decision.accepted)) receiver_not_accepted
  return_if (not (is_externally_verified i.disposition.outcome)) verification_required
  return_if (not (every (is_of_sender i.event) i.disposition.attestations)) disposition_mismatch
  thrown (returns attestation_untrusted) (verify_disposition c i.disposition i.trust_anchors)

abbrev pub check_effect : (Projection → Bool) → Crypto → EffectInput → Result Stop (Unit {0})
check_effect fits c i = do
  thrown (throws lifecycle_event_invalid) (assert_lifecycle_event fits i.event)
  check_edge i
  check_disposition c i

abbrev satisfied_effect : Bool → Effect
satisfied_effect true = already_satisfied
satisfied_effect false = verified

abbrev pub effect_of : Bool → Result Stop (Unit {0}) → Result RouteError Effect
effect_of previously (ok t) = ok (satisfied_effect previously)
effect_of previously (err (returns effect)) = ok effect
effect_of previously (err (throws e)) = err e

-- evaluateDependencyEffect
unfoldable pub evaluate_dependency_effect :
    (Projection → Bool) → Crypto → EffectInput → Result RouteError Effect
evaluate_dependency_effect fits c i = effect_of i.previously_satisfied (check_effect fits c i)

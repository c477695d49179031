-- ===== src/Routing/Edges.antt =====
-- What the tests of dependency edges ask.
use threadmesh.Prelude.{
  ℕ, ◌≤◌, ◌≡◌, ◌↔◌, ◌⊎◌, inl, inr, true, false, none, some, arith, string_eq, nat_eq, option_eq,
  Option-cases,
}
use threadmesh.States.{decision_eq}
use threadmesh.Vocabulary.{same_task_ref_iff, millis}
use threadmesh.Policy.Checks.{NotPassed, has_passed_iff}
use threadmesh.Routing.{LifecycleEvent, event_type_eq}
use threadmesh.Routing.Dependency.{DependencyEdge, edge_matches, is_inactive}

-- An edge from the sender's task to the target's that allows this event.
pub record IsEdgeOf (edge : DependencyEdge) (e : LifecycleEvent) : Type 0 where
  pub dependency : edge.is_dependency ≡ true
  pub named : 1 ≤ edge.id_length
  pub bounded : edge.id_length ≤ 200
  pub versioned : 1 ≤ edge.version
  pub from_sender : edge.prerequisite ≡ e.sender
  pub to_target : edge.dependent ≡ e.target
  pub of_relationship :
      (edge.relationship_id ≡ none) ⊎ (edge.relationship_id ≡ some e.relationship_id)
  pub of_type : (edge.expected_event_type ≡ none) ⊎ (edge.expected_event_type ≡ some e.event_type)
  pub expiry : (edge.expires_at ≡ none) ⊎ ((t : ℕ) × (edge.expires_at ≡ some (millis t)))
  pub revocation : (edge.revoked_at ≡ none) ⊎ ((t : ℕ) × (edge.revoked_at ≡ some (millis t)))

pub edge_matches_iff :
    (edge : DependencyEdge) (e : LifecycleEvent) → (edge_matches edge e ≡ true) ↔ IsEdgeOf edge e
unfolding edge_matches
edge_matches_iff edge e = (to, from)
  where
    to : edge_matches edge e ≡ true → IsEdgeOf edge e
    to h = record {
      dependency = ground arith;
      named = ground arith;
      bounded = ground arith;
      versioned = ground arith;
      from_sender = ground (arith, same_task_ref_iff edge.prerequisite e.sender);
      to_target = ground (arith, same_task_ref_iff edge.dependent e.target);
      of_relationship = elim (Option-cases edge.relationship_id) [
        | inl n ↦ inl n
        | inr (r, s) ↦ inr (ground (arith, string_eq.beq_iff r e.relationship_id))
      ];
      of_type = elim (Option-cases edge.expected_event_type) [
        | inl n ↦ inl n
        | inr (t, s) ↦ inr (ground (arith, event_type_eq.beq_iff t e.event_type))
      ];
      expiry = ground arith;
      revocation = ground arith;
    }

    from : IsEdgeOf edge e → edge_matches edge e ≡ true
    from m = ground (
      arith,
      same_task_ref_iff edge.prerequisite e.sender,
      same_task_ref_iff edge.dependent e.target,
      string_eq.beq_iff e.relationship_id e.relationship_id,
      event_type_eq.beq_iff e.event_type e.event_type,
    )

-- An edge and the current edge of the same dependency and version, neither revoked nor expired.
pub record IsActive (edge current : DependencyEdge) (now : ℕ) : Type 0 where
  pub edge_not_revoked : edge.revoked_at ≡ none
  pub current_not_revoked : current.revoked_at ≡ none
  pub same_dependency : current.dependency_id ≡ edge.dependency_id
  pub same_version : current.version ≡ edge.version
  pub edge_not_expired : NotPassed edge.expires_at now
  pub current_not_expired : NotPassed current.expires_at now

pub is_inactive_iff :
    (edge current : DependencyEdge) (now : ℕ)
    → (is_inactive edge current now ≡ false) ↔ IsActive edge current now
unfolding is_inactive
is_inactive_iff edge current now = ground (
  arith,
  string_eq.beq_iff current.dependency_id edge.dependency_id,
  nat_eq.beq_iff current.version edge.version,
  has_passed_iff edge.expires_at now,
  has_passed_iff current.expires_at now,
)

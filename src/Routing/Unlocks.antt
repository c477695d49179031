-- ===== src/Routing/Unlocks.antt =====
-- When a lifecycle event satisfies and unlocks a dependency.
use threadmesh.Prelude.{
  ℕ, ◌≡◌, ◌≢◌, ◌↔◌, inl, inr, Bool, true, false, some, List, arith, every, All, string_eq, nat_eq,
  option_eq, Result, ok, err, Option-cases,
}
use threadmesh.States.{Decision, Outcome, decision_eq}
use threadmesh.Vocabulary.{same_task_ref_iff}
use threadmesh.Routing.{dependency_satisfied, event_type_eq, Projection, project_unchecked}
use threadmesh.Routing.Trust.{
  TrustAnchor, Crypto, attests, assert_disposition, verify_all, verify_disposition,
}
use threadmesh.Routing.Dependency.{
  DependencyEdge, edge_matches, is_inactive, already_satisfied, verified, EffectInput, is_of_sender,
  Stop, returns, check_edge, check_disposition, check_effect, effect_of, evaluate_dependency_effect,
}
use threadmesh.Routing.Attested.{IsTrusted, All-IsTrusted_iff}
use threadmesh.Routing.Offers.{Precedes, instant_ge_iff}
use threadmesh.Routing.Edges.{IsEdgeOf, edge_matches_iff, IsActive, is_inactive_iff}

-- The dependency is proved satisfied: the receiver accepted the event, and every attestation of the
-- externally verified outcome is trusted, over an edge that is active, and the event is well-formed.
pub record IsProven (fits : Projection → Bool) (c : Crypto) (i : EffectInput) : Type 0 where
  pub well_formed : fits (project_unchecked i.event) ≡ true
  pub in_order : Precedes i.event.created_at i.event.expires_at
  pub applicable : i.event.event_type ≡ dependency_satisfied
  pub now : ℕ
  pub at : i.now ≡ some now
  pub edge : DependencyEdge
  pub has_edge : i.dependency_edge ≡ some edge
  pub current : DependencyEdge
  pub has_current : i.current_dependency_edge ≡ some current
  pub edge_matches : IsEdgeOf edge i.event
  pub current_matches : IsEdgeOf current i.event
  pub active : IsActive edge current now
  pub disposition_fits : c.disposition_fits i.disposition ≡ true
  pub same_message : i.disposition.message_id ≡ i.event.message_id
  pub same_receiver : i.disposition.receiver ≡ i.event.target
  pub receiver_accepted : i.disposition.decision ≡ Decision.accepted
  pub verified_outside : i.disposition.outcome ≡ Outcome.externally_verified
  pub anchors : List TrustAnchor
  pub has_anchors : i.trust_anchors ≡ some anchors
  pub all_trusted : All (IsTrusted c anchors i.disposition i.event) i.disposition.attestations

module _ (fits : Projection → Bool) (c : Crypto) (i : EffectInput) where
  record EdgePasses (edge current : DependencyEdge) (now : ℕ) : Type 0 where
    applicable : i.event.event_type ≡ dependency_satisfied
    at : i.now ≡ some now
    has_edge : i.dependency_edge ≡ some edge
    has_current : i.current_dependency_edge ≡ some current
    matches : edge_matches edge i.event ≡ true
    current_matches : edge_matches current i.event ≡ true
    active : is_inactive edge current now ≡ false

  check_edge-EdgePasses :
      check_edge i ≡ ok tt
      → (edge : DependencyEdge) × (current : DependencyEdge) × (now : ℕ) × EdgePasses edge current
          now
  unfolding check_edge
  check_edge-EdgePasses h = elim (Option-cases i.dependency_edge) [
    | inl e ↦ absurd (ground arith)
    | inr (edge, has_edge) ↦ elim (Option-cases i.current_dependency_edge) [
      | inl e ↦ absurd (ground arith)
      | inr (current, has_current) ↦ elim (Option-cases i.now) [
        | inl e ↦ absurd (ground arith)
        | inr (now, at) ↦ (
          edge,
          current,
          now,
          ground (arith, event_type_eq.beq_iff i.event.event_type dependency_satisfied),
        )
      ]
    ]
  ]

  EdgePasses-check_edge :
      (edge current : DependencyEdge) (now : ℕ) → EdgePasses edge current now → check_edge i ≡ ok tt
  unfolding check_edge
  EdgePasses-check_edge edge current now p =
      ground (arith, event_type_eq.beq_iff i.event.event_type dependency_satisfied)

  record DispositionPasses (anchors : List TrustAnchor) : Type 0 where
    fits_schema : c.disposition_fits i.disposition ≡ true
    same_message : i.disposition.message_id ≡ i.event.message_id
    same_receiver : i.disposition.receiver ≡ i.event.target
    receiver_accepted : i.disposition.decision ≡ Decision.accepted
    verified_outside : i.disposition.outcome ≡ Outcome.externally_verified
    has_anchors : i.trust_anchors ≡ some anchors
    attested : every (attests c i.disposition) i.disposition.attestations ≡ true
    of_sender : every (is_of_sender i.event) i.disposition.attestations ≡ true
    all_verified : verify_all c anchors i.disposition.attestations ≡ ok tt

  check_disposition-DispositionPasses :
      check_disposition c i ≡ ok tt → (anchors : List TrustAnchor) × DispositionPasses anchors
  unfolding check_disposition assert_disposition verify_disposition
  check_disposition-DispositionPasses h = elim (Option-cases i.trust_anchors) [
    | inl e ↦ absurd (ground arith)
    | inr (anchors, has_anchors) ↦ (
      anchors,
      ground (
        arith,
        string_eq.beq_iff i.disposition.message_id i.event.message_id,
        same_task_ref_iff i.disposition.receiver i.event.target,
        decision_eq.beq_iff i.disposition.decision Decision.accepted,
      ),
    )
  ]

  DispositionPasses-check_disposition :
      (anchors : List TrustAnchor) → DispositionPasses anchors → check_disposition c i ≡ ok tt
  unfolding check_disposition assert_disposition verify_disposition
  DispositionPasses-check_disposition anchors p = ground (
    arith,
    string_eq.beq_iff i.disposition.message_id i.event.message_id,
    same_task_ref_iff i.disposition.receiver i.event.target,
    decision_eq.beq_iff i.disposition.decision Decision.accepted,
  )

  check_effect-IsProven : check_effect fits c i ≡ ok tt → IsProven fits c i
  check_effect-IsProven h =
      let (edge, current, now, e) = check_edge-EdgePasses (ground arith) in
      let (anchors, d) = check_disposition-DispositionPasses (ground arith) in
      record {
        well_formed = ground arith;
        in_order = (instant_ge_iff i.event.created_at i.event.expires_at).0 (ground arith);
        applicable = e.applicable;
        now = now;
        at = e.at;
        edge = edge;
        has_edge = e.has_edge;
        current = current;
        has_current = e.has_current;
        edge_matches = (edge_matches_iff edge i.event).0 e.matches;
        current_matches = (edge_matches_iff current i.event).0 e.current_matches;
        active = (is_inactive_iff edge current now).0 e.active;
        disposition_fits = d.fits_schema;
        same_message = d.same_message;
        same_receiver = d.same_receiver;
        receiver_accepted = d.receiver_accepted;
        verified_outside = d.verified_outside;
        anchors = anchors;
        has_anchors = d.has_anchors;
        all_trusted =
            (All-IsTrusted_iff c anchors i.disposition i.event i.disposition.attestations).0
              (d.attested, d.of_sender, d.all_verified);
      }

  IsProven-check_effect : IsProven fits c i → check_effect fits c i ≡ ok tt
  IsProven-check_effect p =
      let (attested, of_sender, all_verified) =
        (All-IsTrusted_iff c p.anchors i.disposition i.event i.disposition.attestations).1
          p.all_trusted in
      let edge_ok = EdgePasses-check_edge p.edge p.current p.now (record {
        applicable = p.applicable;
        at = p.at;
        has_edge = p.has_edge;
        has_current = p.has_current;
        matches = (edge_matches_iff p.edge i.event).1 p.edge_matches;
        current_matches = (edge_matches_iff p.current i.event).1 p.current_matches;
        active = (is_inactive_iff p.edge p.current p.now).1 p.active;
      }) in
      let disposition_ok = DispositionPasses-check_disposition p.anchors (record {
        fits_schema = p.disposition_fits;
        same_message = p.same_message;
        same_receiver = p.same_receiver;
        receiver_accepted = p.receiver_accepted;
        verified_outside = p.verified_outside;
        has_anchors = p.has_anchors;
        attested = attested;
        of_sender = of_sender;
        all_verified = all_verified;
      }) in
      let in_order = (instant_ge_iff i.event.created_at i.event.expires_at).1 p.in_order in
      ground (arith, p.well_formed, in_order, edge_ok, disposition_ok)

-- The tests never return one of the two satisfied effects themselves.
abbrev IsUnsatisfied : {A : Type 0} → Result Stop A → Type 0
IsUnsatisfied (ok a) = Unit
IsUnsatisfied (err s) = (s ≢ returns verified) × (s ≢ returns already_satisfied)

check_edge-IsUnsatisfied : (i : EffectInput) → IsUnsatisfied (check_edge i)
unfolding check_edge
check_edge-IsUnsatisfied i = ground arith

check_disposition-IsUnsatisfied :
    (c : Crypto) (i : EffectInput) → IsUnsatisfied (check_disposition c i)
unfolding check_disposition
check_disposition-IsUnsatisfied c i = ground arith

check_effect-IsUnsatisfied :
    (fits : Projection → Bool) (c : Crypto) (i : EffectInput)
    → IsUnsatisfied (check_effect fits c i)
check_effect-IsUnsatisfied fits c i =
    ground (arith, check_edge-IsUnsatisfied i, check_disposition-IsUnsatisfied c i)

effect_cases :
    (previously : Bool) (m : Result Stop (Unit {0}))
    → IsUnsatisfied m
    → ((effect_of previously m ≡ ok verified) ↔ ((m ≡ ok tt) × (previously ≡ false)))
      × ((effect_of previously m ≡ ok already_satisfied) ↔ ((m ≡ ok tt) × (previously ≡ true)))
effect_cases previously m u = ground arith

-- A dependency is unlocked exactly if it is proved satisfied and was not satisfied before, and
-- reported as already satisfied exactly if it is proved satisfied and was satisfied before.
pub unlock_iff :
    (fits : Projection → Bool) (c : Crypto) (i : EffectInput)
    → ((evaluate_dependency_effect fits c i ≡ ok verified)
        ↔ (IsProven fits c i × (i.previously_satisfied ≡ false)))
      × ((evaluate_dependency_effect fits c i ≡ ok already_satisfied)
          ↔ (IsProven fits c i × (i.previously_satisfied ≡ true)))
unfolding evaluate_dependency_effect
unlock_iff fits c i =
    let (unlocks, repeats) =
      effect_cases i.previously_satisfied (check_effect fits c i)
        (check_effect-IsUnsatisfied fits c i) in
    (
      (
        λ h. (check_effect-IsProven fits c i (unlocks.0 h).0, (unlocks.0 h).1),
        λ h. unlocks.1 (IsProven-check_effect fits c i h.0, h.1),
      ),
      (
        λ h. (check_effect-IsProven fits c i (repeats.0 h).0, (repeats.0 h).1),
        λ h. repeats.1 (IsProven-check_effect fits c i h.0, h.1),
      ),
    )

-- ===== src/Routing/Attested.antt =====
-- What the trust checks ask of the attestations of a disposition.
use threadmesh.Prelude.{
  ◌≡◌, refl, ◌↔◌, inl, inr, true, some, List, [], ◌∷◌, arith, every, All, string_eq, nat_eq,
  option_eq, ok, Option-cases,
}
use threadmesh.States.{decision_eq}
use threadmesh.Vocabulary.{same_task_ref_iff}
use threadmesh.Routing.{LifecycleEvent, event_type_eq}
use threadmesh.Routing.Trust.{
  Attestation, TrustAnchor, ProtocolDisposition, Crypto, attests, verify_attestation, anchor_of,
  verify_all,
}
use threadmesh.Routing.Dependency.{is_of_sender}

-- An attestation that a trust anchor vouches for, of this disposition and this sender's message.
pub record IsTrusted (c : Crypto) (anchors : List TrustAnchor) (d : ProtocolDisposition)
    (e : LifecycleEvent) (a : Attestation) : Type 0 where
  pub well_formed : c.attestation_fits a ≡ true
  pub own_digest : c.attestation_digest a ≡ a.signed_payload_digest
  pub same_message : a.message_id ≡ d.message_id
  pub same_receiver : a.receiver ≡ d.receiver
  pub same_sender : a.sender_incarnation_id ≡ e.sender.incarnation_id
  pub anchor : TrustAnchor
  pub found : anchor_of a.key_id anchors ≡ some anchor
  pub same_key : anchor.key_id ≡ a.key_id
  pub same_algorithm : anchor.algorithm ≡ a.algorithm
  pub same_actor : anchor.actor_id ≡ a.actor_id
  pub same_domain : anchor.trust_domain ≡ a.trust_domain
  pub same_policy : anchor.policy_id ≡ a.policy_id
  pub trusted : a.is_trusted ≡ true
  pub signed : c.verify anchor.public_key_pem a.algorithm a.signed_payload_digest a.signature ≡ true

module _ (c : Crypto) (anchors : List TrustAnchor) (d : ProtocolDisposition)
    (e : LifecycleEvent) where
  -- The tests that one attestation passes.
  abbrev PassesTrust : Attestation → Type 0
  PassesTrust a =
      (attests c d a ≡ true)
      × (is_of_sender e a ≡ true)
      × (verify_attestation c a (anchor_of a.key_id anchors) ≡ ok tt)

  PassesTrust-IsTrusted : (a : Attestation) → PassesTrust a → IsTrusted c anchors d e a
  unfolding verify_attestation
  PassesTrust-IsTrusted a (h, s, v) = elim (Option-cases (anchor_of a.key_id anchors)) [
    | inl none_found ↦ absurd (ground arith)
    | inr (t, found) ↦ record {
      well_formed = ground arith;
      own_digest =
          ground (arith, string_eq.beq_iff (c.attestation_digest a) a.signed_payload_digest);
      same_message = ground (arith, string_eq.beq_iff a.message_id d.message_id);
      same_receiver = ground (arith, same_task_ref_iff a.receiver d.receiver);
      same_sender =
          ground (arith, string_eq.beq_iff a.sender_incarnation_id e.sender.incarnation_id);
      anchor = t;
      found = found;
      same_key = ground (arith, string_eq.beq_iff t.key_id a.key_id);
      same_algorithm = ground (arith, string_eq.beq_iff t.algorithm a.algorithm);
      same_actor = ground (arith, string_eq.beq_iff t.actor_id a.actor_id);
      same_domain = ground (arith, string_eq.beq_iff t.trust_domain a.trust_domain);
      same_policy = ground (arith, string_eq.beq_iff t.policy_id a.policy_id);
      trusted = ground arith;
      signed = ground arith;
    }
  ]

  IsTrusted-PassesTrust : (a : Attestation) → IsTrusted c anchors d e a → PassesTrust a
  unfolding verify_attestation
  IsTrusted-PassesTrust a t = ground (
    arith,
    string_eq.beq_iff (c.attestation_digest a) a.signed_payload_digest,
    string_eq.beq_iff a.message_id d.message_id,
    same_task_ref_iff a.receiver d.receiver,
    string_eq.beq_iff a.sender_incarnation_id e.sender.incarnation_id,
    string_eq.beq_iff t.anchor.key_id a.key_id,
    string_eq.beq_iff t.anchor.algorithm a.algorithm,
    string_eq.beq_iff t.anchor.actor_id a.actor_id,
    string_eq.beq_iff t.anchor.trust_domain a.trust_domain,
    string_eq.beq_iff t.anchor.policy_id a.policy_id,
  )

  pub All-IsTrusted_iff :
      (xs : List Attestation)
      → ((every (attests c d) xs ≡ true)
          × (every (is_of_sender e) xs ≡ true)
          × (verify_all c anchors xs ≡ ok tt))
        ↔ All (IsTrusted c anchors d e) xs
  unfolding verify_all
  All-IsTrusted_iff [] = (λ h. tt, λ h. (refl, refl, refl))
  All-IsTrusted_iff (a ∷ xs) = (
    λ h. (PassesTrust-IsTrusted a (ground arith), (All-IsTrusted_iff xs).0 (ground arith)),
    λ h. ground (arith, IsTrusted-PassesTrust a h.0, (All-IsTrusted_iff xs).1 h.1),
  )

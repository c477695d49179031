-- ===== src/States.antt =====
-- The states of a disposition and the reason codes (src/state/disposition-transitions.mjs), as data
-- types with the equality tests that the code makes on their names.
use threadmesh.Prelude.{ℕ, ◌≡◌, ◌↔◌, true, arith, Eq, nat_beq}

pub data Delivery : Type 0 where
  control_plane_accepted durably_received receiver_notified checkpoint_offered : Delivery
  context_admitted adapter_submitted failed expired : Delivery

pub data Decision : Type 0 where
  pending accepted rejected deferred stale expired unsupported revoked : Decision

pub data Outcome : Type 0 where
  not_observed effect_observed externally_verified failed : Outcome

pub data ReasonCode : Type 0 where
  accepted policy_denied receiver_rejected receiver_deferred stale_incarnation : ReasonCode
  stale_run stale_objective expired unsupported_intent unsupported_delivery_mode : ReasonCode
  structured_gate_required backpressure evidence_insufficient revoked other : ReasonCode

abbrev pub delivery_index : Delivery → ℕ
delivery_index Delivery.control_plane_accepted = 0
delivery_index Delivery.durably_received = 1
delivery_index Delivery.receiver_notified = 2
delivery_index Delivery.checkpoint_offered = 3
delivery_index Delivery.context_admitted = 4
delivery_index Delivery.adapter_submitted = 5
delivery_index Delivery.failed = 6
delivery_index Delivery.expired = 7

abbrev pub decision_index : Decision → ℕ
decision_index Decision.pending = 0
decision_index Decision.accepted = 1
decision_index Decision.rejected = 2
decision_index Decision.deferred = 3
decision_index Decision.stale = 4
decision_index Decision.expired = 5
decision_index Decision.unsupported = 6
decision_index Decision.revoked = 7

abbrev pub outcome_index : Outcome → ℕ
outcome_index Outcome.not_observed = 0
outcome_index Outcome.effect_observed = 1
outcome_index Outcome.externally_verified = 2
outcome_index Outcome.failed = 3

abbrev pub reason_index : ReasonCode → ℕ
reason_index ReasonCode.accepted = 0
reason_index ReasonCode.policy_denied = 1
reason_index ReasonCode.receiver_rejected = 2
reason_index ReasonCode.receiver_deferred = 3
reason_index ReasonCode.stale_incarnation = 4
reason_index ReasonCode.stale_run = 5
reason_index ReasonCode.stale_objective = 6
reason_index ReasonCode.expired = 7
reason_index ReasonCode.unsupported_intent = 8
reason_index ReasonCode.unsupported_delivery_mode = 9
reason_index ReasonCode.structured_gate_required = 10
reason_index ReasonCode.backpressure = 11
reason_index ReasonCode.evidence_insufficient = 12
reason_index ReasonCode.revoked = 13
reason_index ReasonCode.other = 14

pub delivery_beq_iff :
    (a b : Delivery) → (nat_beq (delivery_index a) (delivery_index b) ≡ true) ↔ (a ≡ b)
delivery_beq_iff a b = ground arith

pub decision_beq_iff :
    (a b : Decision) → (nat_beq (decision_index a) (decision_index b) ≡ true) ↔ (a ≡ b)
decision_beq_iff a b = ground arith

pub outcome_beq_iff :
    (a b : Outcome) → (nat_beq (outcome_index a) (outcome_index b) ≡ true) ↔ (a ≡ b)
outcome_beq_iff a b = ground arith

instance abbrev pub delivery_eq : Eq Delivery
delivery_eq = record {
  beq = λ a b. nat_beq (delivery_index a) (delivery_index b);
  beq_iff = delivery_beq_iff;
}

instance abbrev pub decision_eq : Eq Decision
decision_eq = record {
  beq = λ a b. nat_beq (decision_index a) (decision_index b);
  beq_iff = decision_beq_iff;
}

instance abbrev pub outcome_eq : Eq Outcome
outcome_eq = record {
  beq = λ a b. nat_beq (outcome_index a) (outcome_index b);
  beq_iff = outcome_beq_iff;
}

pub reason_beq_iff :
    (a b : ReasonCode) → (nat_beq (reason_index a) (reason_index b) ≡ true) ↔ (a ≡ b)
reason_beq_iff a b = ground arith

instance abbrev pub reason_eq : Eq ReasonCode
reason_eq = record {
  beq = λ a b. nat_beq (reason_index a) (reason_index b);
  beq_iff = reason_beq_iff;
}

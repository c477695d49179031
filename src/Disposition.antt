-- ===== src/Disposition.antt =====
-- The three disposition machines (src/state/disposition-transitions.mjs): the frozen transition
-- tables and the table of decision reasons, as functions into lists, with the default reasons of the
-- coordinator (src/coordinator/sqlite-coordinator.mjs).
-- A machine's name and its states are enumerations here; the callers pass literals and columns that
-- hold nothing else.
pub mod Progress
pub mod Reasons
use threadmesh.Prelude.{Bool, List, [], ◌∷◌, includes, Option, none, some}
use threadmesh.States.{
  Delivery, Decision, Outcome, ReasonCode, delivery_eq, decision_eq, outcome_eq, reason_eq,
}

-- DISPOSITION_TRANSITIONS.delivery
pub delivery_transitions : Delivery → List Delivery
delivery_transitions Delivery.control_plane_accepted =
    Delivery.durably_received ∷ Delivery.failed ∷ Delivery.expired ∷ []
delivery_transitions Delivery.durably_received =
    Delivery.receiver_notified ∷ Delivery.checkpoint_offered ∷ Delivery.context_admitted
    ∷ Delivery.adapter_submitted ∷ Delivery.failed ∷ Delivery.expired ∷ []
delivery_transitions Delivery.receiver_notified =
    Delivery.checkpoint_offered ∷ Delivery.context_admitted ∷ Delivery.adapter_submitted
    ∷ Delivery.failed ∷ Delivery.expired ∷ []
delivery_transitions Delivery.checkpoint_offered =
    Delivery.context_admitted ∷ Delivery.adapter_submitted ∷ Delivery.failed ∷ Delivery.expired ∷ []
delivery_transitions Delivery.context_admitted =
    Delivery.adapter_submitted ∷ Delivery.failed ∷ Delivery.expired ∷ []
delivery_transitions Delivery.adapter_submitted = []
delivery_transitions Delivery.failed = []
delivery_transitions Delivery.expired = []

-- DISPOSITION_TRANSITIONS.decision
pub decision_transitions : Decision → List Decision
decision_transitions Decision.pending =
    Decision.accepted ∷ Decision.rejected ∷ Decision.deferred ∷ Decision.stale ∷ Decision.expired
    ∷ Decision.unsupported ∷ Decision.revoked ∷ []
decision_transitions Decision.deferred =
    Decision.accepted ∷ Decision.rejected ∷ Decision.stale ∷ Decision.expired ∷ Decision.revoked
    ∷ []
decision_transitions Decision.accepted = Decision.revoked ∷ []
decision_transitions Decision.rejected = []
decision_transitions Decision.stale = []
decision_transitions Decision.expired = []
decision_transitions Decision.unsupported = []
decision_transitions Decision.revoked = []

-- DISPOSITION_TRANSITIONS.outcome
pub outcome_transitions : Outcome → List Outcome
outcome_transitions Outcome.not_observed =
    Outcome.effect_observed ∷ Outcome.externally_verified ∷ Outcome.failed ∷ []
outcome_transitions Outcome.effect_observed = Outcome.externally_verified ∷ []
outcome_transitions Outcome.externally_verified = []
outcome_transitions Outcome.failed = []

pub data Machine : Type 0 where
  delivery decision outcome : Machine

abbrev pub StateOf : Machine → Type 0
StateOf Machine.delivery = Delivery
StateOf Machine.decision = Decision
StateOf Machine.outcome = Outcome

unfoldable pub is_disposition_transition_allowed : (m : Machine) → StateOf m → StateOf m → Bool
unfolding delivery_transitions decision_transitions outcome_transitions
is_disposition_transition_allowed Machine.delivery from to = includes (delivery_transitions from) to
is_disposition_transition_allowed Machine.decision from to = includes (decision_transitions from) to
is_disposition_transition_allowed Machine.outcome from to = includes (outcome_transitions from) to

-- DECISION_REASON_CODES; `pending` has no entry, so no reason goes with it.
pub decision_reason_codes : Decision → List ReasonCode
decision_reason_codes Decision.pending = []
decision_reason_codes Decision.accepted = ReasonCode.accepted ∷ []
decision_reason_codes Decision.rejected =
    ReasonCode.policy_denied ∷ ReasonCode.receiver_rejected ∷ ReasonCode.structured_gate_required
    ∷ ReasonCode.backpressure ∷ ReasonCode.evidence_insufficient ∷ ReasonCode.other ∷ []
decision_reason_codes Decision.deferred =
    ReasonCode.receiver_deferred ∷ ReasonCode.backpressure ∷ ReasonCode.other ∷ []
decision_reason_codes Decision.stale =
    ReasonCode.stale_incarnation ∷ ReasonCode.stale_run ∷ ReasonCode.stale_objective ∷ []
decision_reason_codes Decision.expired = ReasonCode.expired ∷ []
decision_reason_codes Decision.unsupported =
    ReasonCode.unsupported_intent ∷ ReasonCode.unsupported_delivery_mode
    ∷ ReasonCode.structured_gate_required ∷ []
decision_reason_codes Decision.revoked = ReasonCode.revoked ∷ []

unfoldable pub is_decision_reason_allowed : Decision → ReasonCode → Bool
unfolding decision_reason_codes
is_decision_reason_allowed d reason = includes (decision_reason_codes d) reason

-- DEFAULT_DECISION_REASONS; `none` is `undefined`.
unfoldable pub default_decision_reasons : Decision → Option ReasonCode
default_decision_reasons Decision.pending = none
default_decision_reasons Decision.accepted = some ReasonCode.accepted
default_decision_reasons Decision.rejected = some ReasonCode.receiver_rejected
default_decision_reasons Decision.deferred = some ReasonCode.receiver_deferred
default_decision_reasons Decision.stale = some ReasonCode.stale_objective
default_decision_reasons Decision.expired = some ReasonCode.expired
default_decision_reasons Decision.unsupported = some ReasonCode.unsupported_intent
default_decision_reasons Decision.revoked = some ReasonCode.revoked

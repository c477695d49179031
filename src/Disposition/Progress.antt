-- ===== src/Disposition/Progress.antt =====
-- Runs of the disposition machines and their lengths.
use threadmesh.Prelude.{ℕ, ◌≤◌, ◌<◌, ◌≡◌, true, List, [], ◌∷◌, arith, length}
use threadmesh.States.{Delivery, Decision, Outcome, delivery_eq, decision_eq, outcome_eq}
use threadmesh.Disposition.{Machine, StateOf, is_disposition_transition_allowed}

-- The longest run that a state can still make.
abbrev pub height : (m : Machine) → StateOf m → ℕ
height Machine.delivery Delivery.control_plane_accepted = 5
height Machine.delivery Delivery.durably_received = 4
height Machine.delivery Delivery.receiver_notified = 3
height Machine.delivery Delivery.checkpoint_offered = 2
height Machine.delivery Delivery.context_admitted = 1
height Machine.delivery Delivery.adapter_submitted = 0
height Machine.delivery Delivery.failed = 0
height Machine.delivery Delivery.expired = 0
height Machine.decision Decision.pending = 3
height Machine.decision Decision.deferred = 2
height Machine.decision Decision.accepted = 1
height Machine.decision Decision.rejected = 0
height Machine.decision Decision.stale = 0
height Machine.decision Decision.expired = 0
height Machine.decision Decision.unsupported = 0
height Machine.decision Decision.revoked = 0
height Machine.outcome Outcome.not_observed = 2
height Machine.outcome Outcome.effect_observed = 1
height Machine.outcome Outcome.externally_verified = 0
height Machine.outcome Outcome.failed = 0

pub allowed-lt-height :
    (m : Machine) (from to : StateOf m)
    → is_disposition_transition_allowed m from to ≡ true
    → height m to < height m from
unfolding is_disposition_transition_allowed
allowed-lt-height Machine.delivery from to h = ground arith
allowed-lt-height Machine.decision from to h = ground arith
allowed-lt-height Machine.outcome from to h = ground arith

-- The states that a machine goes through after `from`, each one allowed by the table.
abbrev pub Runs : (m : Machine) → StateOf m → List (StateOf m) → Type 0
Runs m from [] = Unit
Runs m from (to ∷ rest) = (is_disposition_transition_allowed m from to ≡ true) × Runs m to rest

pub Runs-le-height :
    (m : Machine) (from : StateOf m) (run : List (StateOf m))
    → Runs m from run
    → length run ≤ height m from
Runs-le-height m from [] r = omega arith
Runs-le-height m from (to ∷ rest) r =
    omega (arith, allowed-lt-height m from to r.0, Runs-le-height m to rest r.1)

-- A longest run of each state.
abbrev pub longest : (m : Machine) → StateOf m → List (StateOf m)
longest Machine.delivery Delivery.control_plane_accepted =
    Delivery.durably_received ∷ Delivery.receiver_notified ∷ Delivery.checkpoint_offered
    ∷ Delivery.context_admitted ∷ Delivery.adapter_submitted ∷ []
longest Machine.delivery Delivery.durably_received =
    Delivery.receiver_notified ∷ Delivery.checkpoint_offered ∷ Delivery.context_admitted
    ∷ Delivery.adapter_submitted ∷ []
longest Machine.delivery Delivery.receiver_notified =
    Delivery.checkpoint_offered ∷ Delivery.context_admitted ∷ Delivery.adapter_submitted ∷ []
longest Machine.delivery Delivery.checkpoint_offered =
    Delivery.context_admitted ∷ Delivery.adapter_submitted ∷ []
longest Machine.delivery Delivery.context_admitted = Delivery.adapter_submitted ∷ []
longest Machine.delivery _ = []
longest Machine.decision Decision.pending =
    Decision.deferred ∷ Decision.accepted ∷ Decision.revoked ∷ []
longest Machine.decision Decision.deferred = Decision.accepted ∷ Decision.revoked ∷ []
longest Machine.decision Decision.accepted = Decision.revoked ∷ []
longest Machine.decision _ = []
longest Machine.outcome Outcome.not_observed =
    Outcome.effect_observed ∷ Outcome.externally_verified ∷ []
longest Machine.outcome Outcome.effect_observed = Outcome.externally_verified ∷ []
longest Machine.outcome _ = []

longest-Runs :
    (m : Machine) (from : StateOf m)
    → Runs m from (longest m from) × (length (longest m from) ≡ height m from)
unfolding is_disposition_transition_allowed
longest-Runs Machine.delivery from = ground arith
longest-Runs Machine.decision from = ground arith
longest-Runs Machine.outcome from = ground arith

-- Every machine ends: from each state a run of allowed transitions has at most `height` steps (5 for
-- a delivery, 3 for a decision, 2 for an outcome, from the first state), and some run has as many.
pub height_exact :
    (m : Machine) (from : StateOf m)
    → ((run : List (StateOf m)) → Runs m from run → length run ≤ height m from)
      × ((run : List (StateOf m)) × Runs m from run × (length run ≡ height m from))
height_exact m from =
    (Runs-le-height m from, (longest m from, (longest-Runs m from).0, (longest-Runs m from).1))

-- ===== src/Disposition/Reasons.antt =====
-- The reasons that go with a decision.
use mathlib.Core.Path.{subst}
use mathlib.Core.List.{Memᴰ}
use threadmesh.Prelude.{
  ◌≡◌, ◌↔◌, sym, includes_iff, refl, ◌⊎◌, inl, inr, true, none, some, List, [], ◌∷◌, arith,
  includes,
}
use threadmesh.States.{Decision, ReasonCode, decision_eq, reason_eq}
use threadmesh.Disposition.{is_decision_reason_allowed, default_decision_reasons}

-- The decisions that a reason code may stand for, reason by reason.
abbrev pub decisions_of : ReasonCode → List Decision
decisions_of ReasonCode.accepted = Decision.accepted ∷ []
decisions_of ReasonCode.policy_denied = Decision.rejected ∷ []
decisions_of ReasonCode.receiver_rejected = Decision.rejected ∷ []
decisions_of ReasonCode.receiver_deferred = Decision.deferred ∷ []
decisions_of ReasonCode.stale_incarnation = Decision.stale ∷ []
decisions_of ReasonCode.stale_run = Decision.stale ∷ []
decisions_of ReasonCode.stale_objective = Decision.stale ∷ []
decisions_of ReasonCode.expired = Decision.expired ∷ []
decisions_of ReasonCode.unsupported_intent = Decision.unsupported ∷ []
decisions_of ReasonCode.unsupported_delivery_mode = Decision.unsupported ∷ []
decisions_of ReasonCode.structured_gate_required = Decision.rejected ∷ Decision.unsupported ∷ []
decisions_of ReasonCode.backpressure = Decision.rejected ∷ Decision.deferred ∷ []
decisions_of ReasonCode.evidence_insufficient = Decision.rejected ∷ []
decisions_of ReasonCode.revoked = Decision.revoked ∷ []
decisions_of ReasonCode.other = Decision.rejected ∷ Decision.deferred ∷ []

same_answer :
    (d : Decision) (r : ReasonCode) → is_decision_reason_allowed d r ≡ includes (decisions_of r) d
unfolding is_decision_reason_allowed
same_answer d r = ground arith

-- The table of reasons, read from the reason: a decision may give a reason exactly if it is the one
-- decision that the reason stands for; `structured-gate-required` stands for a rejection or as
-- unsupported, and `backpressure` and `other` for a rejection or a deferral; `pending` has none.
pub reason-decision :
    (d : Decision) (r : ReasonCode)
    → (is_decision_reason_allowed d r ≡ true) ↔ Memᴰ d (decisions_of r)
reason-decision d r =
    subst (λ b. (b ≡ true) ↔ Memᴰ d (decisions_of r)) (sym (same_answer d r))
      (includes_iff (decisions_of r) d)

-- Every decision but `pending` has a default reason, and the table allows it; `pending` has none.
pub default_allowed :
    (d : Decision)
    → ((d ≡ Decision.pending) × (default_decision_reasons d ≡ none))
      ⊎ ((r : ReasonCode) × (default_decision_reasons d ≡ some r)
          × (is_decision_reason_allowed d r ≡ true))
unfolding default_decision_reasons is_decision_reason_allowed
default_allowed Decision.pending = inl (refl, refl)
default_allowed Decision.accepted = inr (_, refl, refl)
default_allowed Decision.rejected = inr (_, refl, refl)
default_allowed Decision.deferred = inr (_, refl, refl)
default_allowed Decision.stale = inr (_, refl, refl)
default_allowed Decision.expired = inr (_, refl, refl)
default_allowed Decision.unsupported = inr (_, refl, refl)
default_allowed Decision.revoked = inr (_, refl, refl)

-- ===== src/Policy/Checks.antt =====
-- What each test of the policy means.
use threadmesh.Prelude.{
  ℕ, ◌<◌, ◌≡◌, refl, ◌↔◌, ◌⊎◌, inl, false, Option, none, some, arith, Eq, string_eq, nat_eq,
  option_eq,
}
use threadmesh.Vocabulary.{same_task_ref_iff, Instant, millis, nan, has_passed}
use threadmesh.Policy.{
  Envelope, TaskSnapshot, Grant, incarnation_is_stale, is_superseded, scope_mismatches, differs,
}

-- A timestamp that is missing, unreadable, or after `now`.
abbrev pub NotPassed : Option Instant → ℕ → Type 0
NotPassed none now = Unit
NotPassed (some (millis t)) now = now < t
NotPassed (some nan) now = Unit

pub has_passed_iff : (t : Option Instant) (now : ℕ) → (has_passed t now ≡ false) ↔ NotPassed t now
has_passed_iff none now = (λ _. tt, λ _. refl)
has_passed_iff (some (millis t)) now = ground arith
has_passed_iff (some nan) now = (λ _. tt, λ _. refl)

-- Both tasks are live, and are the envelope's sender and target.
pub record AreCurrent (e : Envelope) (source target : TaskSnapshot) : Type 0 where
  pub source_live : source.retired_at ≡ none
  pub target_live : target.retired_at ≡ none
  pub is_sender : source.ref ≡ e.sender
  pub is_target : target.ref ≡ e.target

pub incarnation_is_stale_iff :
    (e : Envelope) (s t : TaskSnapshot) → (incarnation_is_stale e s t ≡ false) ↔ AreCurrent e s t
unfolding incarnation_is_stale
incarnation_is_stale_iff e s t =
    ground (arith, same_task_ref_iff s.ref e.sender, same_task_ref_iff t.ref e.target)

-- The grant at hand is the one in force.
pub record IsInForce (grant current : Grant) : Type 0 where
  pub live : current.revoked_at ≡ none
  pub same_id : current.grant_id ≡ grant.grant_id
  pub same_version : current.grant_version ≡ grant.grant_version

pub is_superseded_iff : (g c : Grant) → (is_superseded g c ≡ false) ↔ IsInForce g c
unfolding is_superseded
is_superseded_iff g c =
    ground (
      arith,
      string_eq.beq_iff c.grant_id g.grant_id,
      nat_eq.beq_iff c.grant_version g.grant_version,
    )

-- The grant is for this relationship, from this sender to this target.
pub record Covers (e : Envelope) (grant : Grant) : Type 0 where
  pub same_relationship : grant.relationship_id ≡ e.relationship_id
  pub from_sender : grant.source ≡ e.sender
  pub to_target : grant.target ≡ e.target

pub scope_mismatches_iff : (e : Envelope) (g : Grant) → (scope_mismatches e g ≡ false) ↔ Covers e g
unfolding scope_mismatches
scope_mismatches_iff e g = ground (
  arith,
  string_eq.beq_iff g.relationship_id e.relationship_id,
  same_task_ref_iff g.source e.sender,
  same_task_ref_iff g.target e.target,
)

-- An expectation that is not stated, or is met.
abbrev pub IsMet {ℓ} : {A : Type ℓ} → Option A → Option A → Type ℓ
IsMet expected actual = (expected ≡ none) ⊎ (expected ≡ actual)

pub differs_iff {ℓ} :
    {A : Type ℓ} ⦃eq : Eq A⦄ (expected actual : Option A)
    → (differs expected actual ≡ false) ↔ IsMet expected actual
unfolding differs
differs_iff none actual = (λ _. inl refl, λ _. refl)
differs_iff (some a) none = ground arith
differs_iff ⦃eq⦄ (some a) (some b) = ground (arith, eq.beq_iff a b)

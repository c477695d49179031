-- ===== src/Vocabulary.antt =====
-- The words of the protocol that the code compares (spec/schema/threadmesh-types.schema.json and
-- spec/schema/threadmesh-envelope.schema.json), task references, and points in time.
use threadmesh.Prelude.{
  ℕ, ◌≡◌, ◌↔◌, ◌&&◌, Bool, true, false, String, Option, none, some, arith, Eq, ◌==◌, nat_beq, leb,
  string_eq,
}

pub data Intent : Type 0 where
  notify suggest steer interrupt : Intent

abbrev pub intent_index : Intent → ℕ
intent_index Intent.notify = 0
intent_index Intent.suggest = 1
intent_index Intent.steer = 2
intent_index Intent.interrupt = 3

pub intent_beq_iff : (a b : Intent) → (nat_beq (intent_index a) (intent_index b) ≡ true) ↔ (a ≡ b)
intent_beq_iff a b = ground arith

instance abbrev pub intent_eq : Eq Intent
intent_eq = record {
  beq = λ a b. nat_beq (intent_index a) (intent_index b);
  beq_iff = intent_beq_iff;
}

pub data DeliveryMode : Type 0 where
  store_only side_channel checkpoint_offer wake_idle active_steer interrupt_request : DeliveryMode

abbrev pub delivery_mode_index : DeliveryMode → ℕ
delivery_mode_index DeliveryMode.store_only = 0
delivery_mode_index DeliveryMode.side_channel = 1
delivery_mode_index DeliveryMode.checkpoint_offer = 2
delivery_mode_index DeliveryMode.wake_idle = 3
delivery_mode_index DeliveryMode.active_steer = 4
delivery_mode_index DeliveryMode.interrupt_request = 5

pub delivery_mode_beq_iff :
    (a b : DeliveryMode)
    → (nat_beq (delivery_mode_index a) (delivery_mode_index b) ≡ true) ↔ (a ≡ b)
delivery_mode_beq_iff a b = ground arith

instance abbrev pub delivery_mode_eq : Eq DeliveryMode
delivery_mode_eq = record {
  beq = λ a b. nat_beq (delivery_mode_index a) (delivery_mode_index b);
  beq_iff = delivery_mode_beq_iff;
}

pub data RelationshipType : Type 0 where
  supervisor parent child peer dependency observer : RelationshipType

abbrev pub relationship_type_index : RelationshipType → ℕ
relationship_type_index RelationshipType.supervisor = 0
relationship_type_index RelationshipType.parent = 1
relationship_type_index RelationshipType.child = 2
relationship_type_index RelationshipType.peer = 3
relationship_type_index RelationshipType.dependency = 4
relationship_type_index RelationshipType.observer = 5

pub relationship_type_beq_iff :
    (a b : RelationshipType)
    → (nat_beq (relationship_type_index a) (relationship_type_index b) ≡ true) ↔ (a ≡ b)
relationship_type_beq_iff a b = ground arith

instance abbrev pub relationship_type_eq : Eq RelationshipType
relationship_type_eq = record {
  beq = λ a b. nat_beq (relationship_type_index a) (relationship_type_index b);
  beq_iff = relationship_type_beq_iff;
}

pub data ActorType : Type 0 where
  user agent service policy : ActorType

abbrev pub actor_type_index : ActorType → ℕ
actor_type_index ActorType.user = 0
actor_type_index ActorType.agent = 1
actor_type_index ActorType.service = 2
actor_type_index ActorType.policy = 3

pub actor_type_beq_iff :
    (a b : ActorType) → (nat_beq (actor_type_index a) (actor_type_index b) ≡ true) ↔ (a ≡ b)
actor_type_beq_iff a b = ground arith

instance abbrev pub actor_type_eq : Eq ActorType
actor_type_eq = record {
  beq = λ a b. nat_beq (actor_type_index a) (actor_type_index b);
  beq_iff = actor_type_beq_iff;
}

-- A task reference: two references are the same if both names are (refMatches, sameTaskRef).
pub record TaskRef : Type 0 where
  pub task_id : String
  pub incarnation_id : String

abbrev pub same_task_ref : TaskRef → TaskRef → Bool
same_task_ref a b = (a.task_id == b.task_id) && (a.incarnation_id == b.incarnation_id)

pub same_task_ref_iff : (a b : TaskRef) → (same_task_ref a b ≡ true) ↔ (a ≡ b)
same_task_ref_iff a b = ground (
  arith,
  string_eq.beq_iff a.task_id b.task_id,
  string_eq.beq_iff a.incarnation_id b.incarnation_id,
)

-- What `Date.parse` makes of a timestamp: milliseconds since the epoch (never negative here), or NaN.
pub data Instant : Type 0 where
  millis : ℕ → Instant
  nan : Instant

-- `Date.parse(t) <= now`, which is false at NaN.
abbrev pub instant_le : Instant → ℕ → Bool
instant_le (millis t) now = leb t now
instant_le nan now = false

-- `Date.parse(a) >= Date.parse(b)`, which is false at NaN.
abbrev pub instant_ge : Instant → Instant → Bool
instant_ge (millis a) (millis b) = leb b a
instant_ge _ _ = false

-- `t && Date.parse(t) <= now` for a timestamp that may be missing.
abbrev pub has_passed : Option Instant → ℕ → Bool
has_passed none now = false
has_passed (some t) now = instant_le t now

abbrev pub is_present {ℓ} : {A : Type ℓ} → Option A → Bool
is_present none = false
is_present (some a) = true

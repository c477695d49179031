-- ===== src/Routing.antt =====
-- The attention router (src/routing/lifecycle-events.mjs): lifecycle events, their projection onto a
-- protocol envelope, and the decision whether an event may be offered to a receiver.
-- An event is a record with the fields of EVENT_KEYS, so the tests for unknown and missing properties
-- and for unknown event types have no counterpart; whether the projection fits the envelope's schema is
-- the parameter `envelope_fits`. `causality`, which only that schema reads, is left out.
pub mod Offers
pub mod Trust
pub mod Dependency
pub mod Attested
pub mod Edges
pub mod Unlocks
pub mod Wake
use threadmesh.Prelude.{
  ℕ, ◌≡◌, ◌↔◌, Bool, true, false, not, ◌&&◌, String, Option, none, some, List, [], ◌∷◌, arith,
  includes, Eq, ◌==◌, nat_beq, string_eq, nat_eq, option_eq, Result, ok, err, ◌>>=◌, ◌>>◌, throw_if,
  or_throw, if◌then◌else◌,
}
use Prim.Native.String.{◌++◌ as str_append}
use threadmesh.Vocabulary.{
  Intent, DeliveryMode, ActorType, TaskRef, same_task_ref, Instant, instant_le, instant_ge,
  is_present,
}
use threadmesh.Policy.{
  Freshness, Envelope, TaskSnapshot, Grant, PolicyInput, PolicyDecision, Verdict, InternalReason,
  differs, evaluate_relationship_policy,
}

-- LIFECYCLE_EVENT_TYPES
pub data LifecycleEventType : Type 0 where
  completed blocked needs_input review_failed artifact_ready : LifecycleEventType
  dependency_satisfied : LifecycleEventType

abbrev pub event_type_name : LifecycleEventType → String
event_type_name completed = "completed"
event_type_name blocked = "blocked"
event_type_name needs_input = "needs-input"
event_type_name review_failed = "review-failed"
event_type_name artifact_ready = "artifact-ready"
event_type_name dependency_satisfied = "dependency-satisfied"

abbrev pub event_type_index : LifecycleEventType → ℕ
event_type_index completed = 0
event_type_index blocked = 1
event_type_index needs_input = 2
event_type_index review_failed = 3
event_type_index artifact_ready = 4
event_type_index dependency_satisfied = 5

pub event_type_beq_iff :
    (a b : LifecycleEventType)
    → (nat_beq (event_type_index a) (event_type_index b) ≡ true) ↔ (a ≡ b)
event_type_beq_iff a b = ground arith

instance abbrev pub event_type_eq : Eq LifecycleEventType
event_type_eq = record {
  beq = λ a b. nat_beq (event_type_index a) (event_type_index b);
  beq_iff = event_type_beq_iff;
}

pub record LifecycleEvent : Type 0 where
  pub event_type : LifecycleEventType
  pub message_id : String
  pub sender : TaskRef
  pub actor_type : ActorType
  pub actor_id : Option String
  pub target : TaskRef
  pub relationship_id : String
  pub content : String
  pub reason : String
  pub evidence_refs : List String
  pub freshness : Freshness
  pub created_at : Instant
  pub expires_at : Instant

pub data MessageType : Type 0 where
  result state_update question observation : MessageType

pub data ClaimStatus : Type 0 where
  evidence_referenced sender_asserted : ClaimStatus

-- MESSAGE_TYPES
abbrev pub message_type_of : LifecycleEventType → MessageType
message_type_of completed = result
message_type_of blocked = state_update
message_type_of needs_input = question
message_type_of review_failed = observation
message_type_of artifact_ready = result
message_type_of dependency_satisfied = state_update

-- The envelope of an event; the policy reads the fields of `envelope`.
pub record Projection : Type 0 where
  pub envelope : Envelope
  pub created_at : Instant
  pub message_type : MessageType
  pub claim_status : ClaimStatus
  pub reason : String
  pub evidence_refs : Option (List String)
  pub requires_disposition : Bool

abbrev claim_status_of : List String → ClaimStatus
claim_status_of [] = sender_asserted
claim_status_of (ref ∷ refs) = evidence_referenced

abbrev projected_refs : List String → Option (List String)
projected_refs [] = none
projected_refs (ref ∷ refs) = some (ref ∷ refs)

-- projectUnchecked
abbrev pub project_unchecked : LifecycleEvent → Projection
project_unchecked event = record {
  envelope = record {
    message_id = event.message_id;
    sender = event.sender;
    actor_type = event.actor_type;
    actor_id = event.actor_id;
    target = event.target;
    relationship_id = event.relationship_id;
    intent = Intent.suggest;
    requested_mode = DeliveryMode.checkpoint_offer;
    freshness = some event.freshness;
    content =
        str_append "ThreadMesh lifecycle event: "
          (str_append (event_type_name event.event_type) (str_append "\n\n" event.content));
    expires_at = event.expires_at;
  };
  created_at = event.created_at;
  message_type = message_type_of event.event_type;
  claim_status = claim_status_of event.evidence_refs;
  reason = event.reason;
  evidence_refs = projected_refs event.evidence_refs;
  requires_disposition = true;
}

pub data RouteError : Type 0 where
  lifecycle_event_invalid protocol_object_invalid : RouteError

-- assertProtocolObject of an envelope: the schema, and `createdAt` before `expiresAt`.
abbrev pub is_protocol_envelope : (Projection → Bool) → Projection → Bool
is_protocol_envelope envelope_fits p =
    envelope_fits p && not (instant_ge p.created_at p.envelope.expires_at)

-- assertLifecycleEvent
abbrev pub assert_lifecycle_event :
    (Projection → Bool) → LifecycleEvent → Result RouteError (Unit {0})
assert_lifecycle_event envelope_fits event =
    throw_if (not (is_protocol_envelope envelope_fits (project_unchecked event)))
      lifecycle_event_invalid

-- ATTENTION_ROUTE_REASON_CODES, with the `state` and the details of their results.
pub data Route : Type 0 where
  target_not_relevant event_type_not_subscribed : Route
  stale_incarnation route_unauthorized : InternalReason → Route
  event_expired stale_run stale_objective stale_checkpoint : Route
  already_offered : Route
  offered : Projection → Option (String × ℕ) → Route

abbrev expects_run : Freshness → Option TaskSnapshot → Bool
expects_run f none = is_present f.expected_run_id
expects_run f (some t) = differs f.expected_run_id t.run_id

abbrev expects_objective : Freshness → Option TaskSnapshot → Bool
expects_objective f none = is_present f.expected_objective_version
expects_objective f (some t) = differs f.expected_objective_version t.objective_version

abbrev expects_checkpoint : Freshness → Option TaskSnapshot → Bool
expects_checkpoint f none = is_present f.expected_checkpoint
expects_checkpoint f (some t) = differs f.expected_checkpoint t.checkpoint

-- freshnessFailure
unfoldable pub freshness_failure : LifecycleEvent → Option TaskSnapshot → ℕ → Option Route
freshness_failure event target now =
    if instant_le event.expires_at now
    then some event_expired
    else if expects_run event.freshness target
    then some stale_run
    else if expects_objective event.freshness target
    then some stale_objective
    else if expects_checkpoint event.freshness target
    then some stale_checkpoint
    else none

pub record RouteInput : Type 0 where
  pub event : LifecycleEvent
  pub receiver_task : TaskRef
  pub subscribed_event_types : List LifecycleEventType
  pub seen_message_ids : List String
  pub grant : Option Grant
  pub current_grant : Option Grant
  pub source_task : Option TaskSnapshot
  pub target_task : Option TaskSnapshot
  pub now : Option ℕ

abbrev pub route_policy : RouteInput → PolicyInput
route_policy i = record {
  envelope = some (project_unchecked i.event).envelope;
  grant = i.grant;
  current_grant = i.current_grant;
  source_task = i.source_task;
  target_task = i.target_task;
  now = i.now;
}

abbrev pub is_stale_incarnation : InternalReason → Bool
is_stale_incarnation InternalReason.stale_incarnation = true
is_stale_incarnation _ = false

abbrev pub denied_route : InternalReason → Route
denied_route r = if is_stale_incarnation r then stale_incarnation r else route_unauthorized r

abbrev pub seen_or_offered : RouteInput → PolicyDecision → Route
seen_or_offered i policy =
    if includes i.seen_message_ids i.event.message_id
    then already_offered
    else offered (project_unchecked i.event) policy.granted

abbrev pub fresh_route : RouteInput → PolicyDecision → Option Route → Route
fresh_route i policy (some stale) = stale
fresh_route i policy none = seen_or_offered i policy

abbrev pub policy_route : RouteInput → ℕ → PolicyDecision → Verdict → Route
policy_route i now policy Verdict.deny = denied_route policy.internal_reason_code
policy_route i now policy Verdict.allow =
    fresh_route i policy (freshness_failure i.event i.target_task now)

abbrev pub subscribed_route : RouteInput → ℕ → PolicyDecision → Route
subscribed_route i now policy =
    if not (same_task_ref i.event.target i.receiver_task)
    then target_not_relevant
    else if not (includes i.subscribed_event_types i.event.event_type)
    then event_type_not_subscribed
    else policy_route i now policy policy.decision

-- evaluateAttentionRoute
unfoldable pub evaluate_attention_route : (Projection → Bool) → RouteInput → Result RouteError Route
evaluate_attention_route envelope_fits i = do
  assert_lifecycle_event envelope_fits i.event
  now ← or_throw i.now lifecycle_event_invalid
  ok (subscribed_route i now (evaluate_relationship_policy (route_policy i)))

-- ===== src/Tests/Routing.antt =====
-- The theorems on the attention router, applied to concrete events.
use threadmesh.Prelude.{ℕ, ◌≡◌, refl, ◌≤◌, Bool, true, false, none, some, [], ◌∷◌, ok, arith}
use threadmesh.States.{Decision, Outcome}
use threadmesh.Vocabulary.{DeliveryMode, ActorType, millis}
use threadmesh.Policy.{
  Grant, evaluate_relationship_policy, check_policy, is_state_changing_intent, is_elevated,
  check_freshness, check_expectations, incarnation_is_stale, is_superseded, scope_mismatches,
  differs,
}
use threadmesh.Routing.{
  LifecycleEvent, completed, dependency_satisfied, Projection, project_unchecked, RouteInput,
  freshness_failure, evaluate_attention_route,
}
use threadmesh.Routing.Offers.{IsOffered, IsOfferable, IsOffered-iff}
use threadmesh.Routing.Trust.{
  Attestation, TrustAnchor, Crypto, assert_disposition, verify_attestation, anchor_of, verify_all,
  verify_disposition,
}
use threadmesh.Routing.Dependency.{
  DependencyEdge, edge_matches, is_inactive, verified, EffectInput, check_edge, check_disposition,
  evaluate_dependency_effect,
}
use threadmesh.Routing.Unlocks.{IsProven, unlock_iff}
use threadmesh.Routing.Wake.{
  Callbacks, WakeEvent, HandlerAnswer, Consumer, absent_hint, construct, reconcile, read_pages,
  consume, consume_event, compacted, is_ordered, last_cursor,
}
use threadmesh.Routing.Wake.Reconciles.{EndsWell, reconcile-EndsWell, construct-reconcile_bounds}
use threadmesh.Tests.Samples.{lead, worker, lead_snapshot, worker_snapshot, grant_1}

abbrev event_1 : LifecycleEvent
event_1 = record {
  event_type = dependency_satisfied;
  message_id = "msg_2";
  sender = lead;
  actor_type = ActorType.agent;
  actor_id = none;
  target = worker;
  relationship_id = "rel_1";
  content = "the schema is merged";
  reason = "unblocks the client";
  evidence_refs = "artifact:schema" ∷ [];
  freshness = record {
    expected_run_id = some "run_7";
    expected_objective_version = none;
    expected_checkpoint = none;
  };
  created_at = millis 500;
  expires_at = millis 5000;
}

abbrev offering_grant : Grant
offering_grant = record grant_1 { allowed_delivery_modes = DeliveryMode.checkpoint_offer ∷ [] }

abbrev route_1 : RouteInput
route_1 = record {
  event = event_1;
  receiver_task = worker;
  subscribed_event_types = completed ∷ dependency_satisfied ∷ [];
  seen_message_ids = "msg_1" ∷ [];
  grant = some offering_grant;
  current_grant = some offering_grant;
  source_task = some lead_snapshot;
  target_task = some worker_snapshot;
  now = some 1000;
}

abbrev accepts_all : Projection → Bool
accepts_all p = true

is_offered : IsOffered accepts_all route_1
unfolding evaluate_attention_route evaluate_relationship_policy check_policy
    is_state_changing_intent is_elevated check_freshness check_expectations incarnation_is_stale
    is_superseded scope_mismatches differs freshness_failure
is_offered = (project_unchecked event_1, some ("grant_1", 1), refl)

IsOffered-iff_example : IsOfferable accepts_all route_1
IsOffered-iff_example = (IsOffered-iff accepts_all route_1).0 is_offered

abbrev attestation_1 : Attestation
attestation_1 = record {
  sender_incarnation_id = "inc_lead_01";
  message_id = "msg_2";
  receiver = worker;
  signed_payload_digest = "msg_2";
  key_id = "key_1";
  algorithm = "ed25519";
  signature = "signed msg_2";
  actor_id = "ci";
  trust_domain = "example.org";
  policy_id = "policy_1";
  is_trusted = true;
}

abbrev anchor_1 : TrustAnchor
anchor_1 = record {
  key_id = "key_1";
  algorithm = "ed25519";
  actor_id = "ci";
  trust_domain = "example.org";
  policy_id = "policy_1";
  public_key_pem = "pem_1";
}

abbrev crypto_1 : Crypto
crypto_1 = record {
  disposition_fits = λ d. true;
  attestation_fits = λ a. true;
  attestation_digest = λ a. a.message_id;
  verify = λ key algorithm digest signature. true;
}

abbrev edge_1 : DependencyEdge
edge_1 = record {
  is_dependency = true;
  dependency_id = "dep_1";
  id_length = 5;
  version = 3;
  prerequisite = lead;
  dependent = worker;
  relationship_id = some "rel_1";
  expected_event_type = none;
  expires_at = some (millis 9000);
  revoked_at = none;
}

abbrev effect_1 : EffectInput
effect_1 = record {
  event = event_1;
  disposition = record {
    message_id = "msg_2";
    receiver = worker;
    decision = Decision.accepted;
    outcome = Outcome.externally_verified;
    attestations = attestation_1 ∷ [];
  };
  trust_anchors = some (anchor_1 ∷ []);
  dependency_edge = some edge_1;
  current_dependency_edge = some edge_1;
  now = some 1000;
  previously_satisfied = false;
}

unlocks : evaluate_dependency_effect accepts_all crypto_1 effect_1 ≡ ok verified
unfolding evaluate_dependency_effect check_edge check_disposition edge_matches is_inactive
    assert_disposition verify_disposition verify_all verify_attestation anchor_of
unlocks = refl

unlock_iff_example :
    IsProven accepts_all crypto_1 effect_1 × (effect_1.previously_satisfied ≡ false)
unlock_iff_example = (unlock_iff accepts_all crypto_1 effect_1).0.0 unlocks

abbrev woken_by : ℕ → WakeEvent
woken_by cursor = record {
  cursor = cursor;
  event_type = "completed";
  sender_incarnation_id = "inc_lead_01";
  message_id = "msg_2";
}

-- A stream of two events with one identity, the first of which is handled.
abbrev callbacks_1 : Callbacks
callbacks_1 = record {
  read_page = λ count cursor limit.
      some (record { events = woken_by 3 ∷ woken_by 4 ∷ []; next_cursor = 4 });
  handle_event = λ count e. HandlerAnswer.nothing;
  is_relevant = λ e. some true;
}

abbrev consumer_1 : Consumer
consumer_1 = record {
  cursor = 2;
  seen_messages = [];
  page_limit = 50;
  max_pages = 4;
  max_events = 100;
}

duplicate_counted : (reconcile callbacks_1 absent_hint consumer_1).progress.duplicates ≡ 1
unfolding reconcile read_pages consume consume_event compacted is_ordered last_cursor
duplicate_counted = refl

reconcile-EndsWell_example : EndsWell consumer_1 2 (reconcile callbacks_1 absent_hint consumer_1)
reconcile-EndsWell_example = reconcile-EndsWell callbacks_1 absent_hint consumer_1 (omega arith)

constructs : construct 2 50 4 100 ≡ ok consumer_1
unfolding construct
constructs = refl

construct-reconcile_bounds_example :
    ((reconcile callbacks_1 absent_hint consumer_1).progress.pages ≤ 4)
    × ((reconcile callbacks_1 absent_hint consumer_1).progress.events_read ≤ 100)
    × (2 ≤ (reconcile callbacks_1 absent_hint consumer_1).progress.cursor)
construct-reconcile_bounds_example =
    construct-reconcile_bounds callbacks_1 absent_hint 2 50 4 100 consumer_1 constructs

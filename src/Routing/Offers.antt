-- ===== src/Routing/Offers.antt =====
-- When the attention router offers an event.
use mathlib.Core.List.{Memᴰ}
use threadmesh.Prelude.{
  ℕ, ◌<◌, ◌≡◌, ◌≢◌, refl, ◌↔◌, inl, inr, Bool, true, false, Option, none, some, arith, String,
  includes, includes_iff, string_eq, nat_eq, ok, Bool-cases, Option-cases,
}
use threadmesh.Vocabulary.{same_task_ref, same_task_ref_iff, Instant, millis, nan, instant_ge}
use threadmesh.Policy.{TaskSnapshot, allow, evaluate_relationship_policy}
use threadmesh.Policy.Checks.{NotPassed, has_passed_iff, differs_iff}
use threadmesh.Policy.Soundness.{IsAuthorized, IsFresh, allow_iff}
use threadmesh.Routing.{
  LifecycleEvent, Projection, project_unchecked, offered, RouteInput, route_policy, event_type_eq,
  freshness_failure, evaluate_attention_route,
}

-- The expectations of an event about the target task, of which a task that is missing meets none.
abbrev pub MeetsExpectations : LifecycleEvent → Option TaskSnapshot → Type 0
MeetsExpectations e none =
    (e.freshness.expected_run_id ≡ none)
    × (e.freshness.expected_objective_version ≡ none)
    × (e.freshness.expected_checkpoint ≡ none)
MeetsExpectations e (some t) = IsFresh (some e.freshness) t

freshness_failure_iff :
    (e : LifecycleEvent) (o : Option TaskSnapshot) (now : ℕ)
    → (freshness_failure e o now ≡ none)
      ↔ (NotPassed (some e.expires_at) now × MeetsExpectations e o)
unfolding freshness_failure
freshness_failure_iff e none now = ground (arith, has_passed_iff (some e.expires_at) now)
freshness_failure_iff e (some t) now = ground (
  arith,
  has_passed_iff (some e.expires_at) now,
  differs_iff e.freshness.expected_run_id t.run_id,
  differs_iff e.freshness.expected_objective_version t.objective_version,
  differs_iff e.freshness.expected_checkpoint t.checkpoint,
)

-- A time that is before another, or one of them is unreadable.
abbrev pub Precedes : Instant → Instant → Type 0
Precedes (millis a) (millis b) = a < b
Precedes (millis a) nan = Unit
Precedes nan b = Unit

pub instant_ge_iff : (a b : Instant) → (instant_ge a b ≡ false) ↔ Precedes a b
instant_ge_iff (millis a) (millis b) = ground arith
instant_ge_iff (millis a) nan = (λ _. tt, λ _. refl)
instant_ge_iff nan b = (λ _. tt, λ _. refl)

-- What an event needs to be offered.
pub record IsOfferable (fits : Projection → Bool) (i : RouteInput) : Type 0 where
  pub well_formed : fits (project_unchecked i.event) ≡ true
  pub in_order : Precedes i.event.created_at i.event.expires_at
  pub relevant : i.event.target ≡ i.receiver_task
  pub subscribed : Memᴰ i.event.event_type i.subscribed_event_types
  pub authorized : IsAuthorized (route_policy i)
  pub now : ℕ
  pub at : i.now ≡ some now
  pub not_expired : NotPassed (some i.event.expires_at) now
  pub met : MeetsExpectations i.event i.target_task
  pub unseen : ¬ Memᴰ i.event.message_id i.seen_message_ids

-- The tests of the code, each passed.
record Passes (fits : Projection → Bool) (i : RouteInput) (now : ℕ) : Type 0 where
  well_formed : fits (project_unchecked i.event) ≡ true
  in_order : instant_ge i.event.created_at i.event.expires_at ≡ false
  relevant : same_task_ref i.event.target i.receiver_task ≡ true
  subscribed : includes i.subscribed_event_types i.event.event_type ≡ true
  allowed : (evaluate_relationship_policy (route_policy i)).decision ≡ allow
  at : i.now ≡ some now
  fresh : freshness_failure i.event i.target_task now ≡ none
  unseen : includes i.seen_message_ids i.event.message_id ≡ false

-- The decision is an offer.
abbrev pub IsOffered : (Projection → Bool) → RouteInput → Type 0
IsOffered fits i =
    (p : Projection) × (g : Option (String × ℕ)) × (evaluate_attention_route fits i
      ≡ ok (offered p g))

failure_is_no_offer :
    (e : LifecycleEvent) (t : Option TaskSnapshot) (now : ℕ) (p : Projection)
    (g : Option (String × ℕ))
    → freshness_failure e t now ≢ some (offered p g)
unfolding freshness_failure
failure_is_no_offer e t now p g h = ground arith

module _ (fits : Projection → Bool) (i : RouteInput) where
  IsOffered-Passes : IsOffered fits i → (now : ℕ) × Passes fits i now
  unfolding evaluate_attention_route
  IsOffered-Passes (p, g, h) = elim (Option-cases i.now) [
    | inl e ↦ absurd (ground arith)
    | inr (now, e) ↦ (now, ground (arith, failure_is_no_offer i.event i.target_task now p g))
  ]

  Passes-IsOffered : (now : ℕ) → Passes fits i now → IsOffered fits i
  unfolding evaluate_attention_route
  Passes-IsOffered now q = (
    project_unchecked i.event,
    (evaluate_relationship_policy (route_policy i)).granted,
    ground (arith, q),
  )

  -- An event is offered exactly if it fits the envelope's schema, is created before
  -- it expires, is for this receiver, is of a type
  -- that the receiver subscribed to, is authorized by the relationship policy, has not expired, meets
  -- the target task's state, and was not seen before.
  pub IsOffered-iff : IsOffered fits i ↔ IsOfferable fits i
  IsOffered-iff = (to, from)
    where
      to : IsOffered fits i → IsOfferable fits i
      to h =
          let (now, q) = IsOffered-Passes h in
          let fresh = (freshness_failure_iff i.event i.target_task now).0 q.fresh in
          record {
            well_formed = q.well_formed;
            in_order = (instant_ge_iff i.event.created_at i.event.expires_at).0 q.in_order;
            relevant = (same_task_ref_iff i.event.target i.receiver_task).0 q.relevant;
            subscribed = (includes_iff i.subscribed_event_types i.event.event_type).0 q.subscribed;
            authorized = (allow_iff (route_policy i)).0 q.allowed;
            now = now;
            at = q.at;
            not_expired = fresh.0;
            met = fresh.1;
            unseen =
                λ m. ground (arith, q, (includes_iff i.seen_message_ids i.event.message_id).1 m);
          }

      from : IsOfferable fits i → IsOffered fits i
      from o = Passes-IsOffered o.now (record {
        well_formed = o.well_formed;
        in_order = (instant_ge_iff i.event.created_at i.event.expires_at).1 o.in_order;
        relevant = (same_task_ref_iff i.event.target i.receiver_task).1 o.relevant;
        subscribed = (includes_iff i.subscribed_event_types i.event.event_type).1 o.subscribed;
        allowed = (allow_iff (route_policy i)).1 o.authorized;
        at = o.at;
        fresh = (freshness_failure_iff i.event i.target_task o.now).1 (o.not_expired, o.met);
        unseen = elim (Bool-cases (includes i.seen_message_ids i.event.message_id)) [
          | inl e ↦ absurd (o.unseen ((includes_iff i.seen_message_ids i.event.message_id).0 e))
          | inr e ↦ e
        ];
      })

-- ===== src/Lifecycle/Stopping.antt =====
-- Messages that nothing may hand to the adapter any more.
use mathlib.Core.Path.{subst}
use threadmesh.Prelude.{
  ℕ, ◌≡◌, refl, sym, ap, ◌∙◌, inl, inr, String, Option, none, some, List, [], ◌∷◌, arith, ◌==◌,
  pair_eq, string_eq, nat_eq, ok, Result-cases, Bool-cases, beq_sound,
}
use threadmesh.Lifecycle.Authority.{IsCurrentlyAuthorized, begin_adapter_submission-MayBegin}
use threadmesh.Lifecycle.{view}
use threadmesh.Lifecycle.History.{Follows, HasFollowed, Move-HasFollowed}
use threadmesh.Lifecycle.Trace.{
  Event, after, after-Move, label_at_event, dispatches, count_dispatched,
}
use threadmesh.Coordinator.{Key, MessageRow, Db, Principal, Platform}
use threadmesh.Coordinator.Calls.{
  Call, begins, reconciles, Response, was_begun, was_reconciled, perform,
}
use threadmesh.Lifecycle.CallLocality.{answered-ok}
use threadmesh.Lifecycle.Refinement.{label_of}
use threadmesh.Lifecycle.Reconcile.{label_by_id, resolution_label}
use threadmesh.Lifecycle.{Label, dispatched, released, quiet}
use threadmesh.Coordinator.Attempts.{Begun, Resolution}
use threadmesh.Coordinator.Submissions.{submission_key}

-- A call that hands the message to the adapter, and its response.
data Begins (db : Db) (k : Key) : Call → Response → Type 0 where
  begun :
      (id : String) (revision : ℕ) (b : Begun)
      → submission_key id db.submissions ≡ some k
      → Begins db k (begins id revision) (was_begun b)

label_by_id-dispatched :
    (o : Option Key) (l : Label) (k : Key)
    → label_by_id o l k ≡ dispatched
    → (o ≡ some k) × (l ≡ dispatched)
label_by_id-dispatched none l k h = absurd (ground arith)
label_by_id-dispatched (some j) l k h = elim (Bool-cases (j == k)) [
  | inl is ↦ (ap some (beq_sound j k is), ground arith)
  | inr other ↦ absurd (ground arith)
]

resolution_label-quiet : (r : Resolution) → ¬ (resolution_label r ≡ dispatched)
resolution_label-quiet Resolution.confirmed_not_submitted h = cc
resolution_label-quiet Resolution.manual_required h = cc
resolution_label-quiet Resolution.unknown_resolution h = cc
resolution_label-quiet Resolution.confirmed_submitted h = cc

label_of-Begins :
    (db : Db) (call : Call) (response : Response) (k : Key)
    → label_of db call response k ≡ dispatched
    → Begins db k call response
label_of-Begins db (begins id revision) (was_begun b) k h =
    begun id revision b (label_by_id-dispatched _ _ k h).0
label_of-Begins db (reconciles id revision r) (was_reconciled s) k h =
    absurd (resolution_label-quiet r.resolution (label_by_id-dispatched _ _ k h).1)
label_of-Begins db call response k h = absurd (ground arith)

count_not_dispatched : (l : Label) → ¬ (l ≡ dispatched) → count_dispatched l ≡ 0
count_not_dispatched quiet h = refl
count_not_dispatched released h = refl
count_not_dispatched dispatched h = absurd (h refl)

-- A condition on the database that every call keeps, and that forbids to authorize a message.
module _ (x : Platform) (k : Key) (row : MessageRow) (Holds : Db → Type 0)
    (keeps : (e : Event) (db : Db) → Holds db → Holds (after x e db))
    (forbids : (db : Db) (now : ℕ) (later : MessageRow)
      → Holds db
      → Follows row later
      → ¬ IsCurrentlyAuthorized db now later) where
  begins-stopped :
      (now : ℕ) (p : Principal) (call : Call) (db db' : Db) (response : Response)
      → Holds db
      → HasFollowed row (view k db)
      → perform x now p call db ≡ ok (db', response)
      → ¬ Begins db k call response
  unfolding perform
  begins-stopped now p _ db db' _ holds (later, stored, follows) ran (begun sub revision b is_k) =
      let (a, began, e) = answered-ok was_begun _ db' (was_begun b) ran in
      let (key, s, current, rows, may) =
        begin_adapter_submission-MayBegin x now sub revision p db db' a began in
      let key_is : some key ≡ some k = sym rows.0 ∙ is_k in
      let same_row : later ≡ current = ground (arith, stored, rows.2, key_is) in
      forbids db now current holds (subst (Follows row) same_row follows) may.currently_authorized

  count_stopped :
      (e : Event) (db : Db)
      → Holds db
      → HasFollowed row (view k db)
      → count_dispatched (label_at_event x e db k) ≡ 0
  unfolding label_at_event
  count_stopped e db holds followed = elim (Result-cases (perform x e.time e.principal e.call db)) [
    | inr (error, failed) ↦ rw failed refl
    | inl ((db', response), ran) ↦ rw ran (
        count_not_dispatched (label_of db e.call response k) λ is.
          begins-stopped e.time e.principal e.call db db' response holds followed ran
            (label_of-Begins db e.call response k is))
  ]

  -- Then the message is never handed to the adapter.
  pub stopped_dispatches :
      (es : List Event) (db : Db)
      → Holds db
      → HasFollowed row (view k db)
      → dispatches x k es db ≡ 0
  unfolding dispatches
  stopped_dispatches [] db holds followed = refl
  stopped_dispatches (e ∷ es) db holds followed = omega (
    arith,
    count_stopped e db holds followed,
    stopped_dispatches es (after x e db) (keeps e db holds)
        (Move-HasFollowed row _ _ _ (after-Move x e db k) followed),
  )

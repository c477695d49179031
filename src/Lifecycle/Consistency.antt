-- ===== src/Lifecycle/Consistency.antt =====
-- Whether the tables agree: the delivery state of a message and the receipt of its submission.
use threadmesh.Prelude.{
  ◌≡◌, Bool, true, false, not, ◌||◌, Option, none, some, List, arith, pair_eq, string_eq,
}
use threadmesh.States.{Delivery, delivery_eq}
use threadmesh.Disposition.{is_disposition_transition_allowed}
use threadmesh.Coordinator.{Key, Db, Platform, receipt_recorded, SubmissionRow, MessageRow}
use threadmesh.Lifecycle.{
  View, view, Label, Move, stay, arrive, decide, fail, expire, admit, prepare, begin, acknowledge,
  release, escalate,
}
use threadmesh.Lifecycle.Trace.{Event, run, run_keeps}

abbrev is_recorded : Option SubmissionRow → Bool
is_recorded none = false
is_recorded (some s) = elim s.state [ receipt_recorded ↦ true | _ ↦ false ]

abbrev is_submitted : Option MessageRow → Bool
is_submitted none = false
is_submitted (some row) = elim row.disposition.delivery [
  | Delivery.adapter_submitted ↦ true
  | _ ↦ false
]

abbrev is_there {ℓ} : {A : Type ℓ} → Option A → Bool
is_there none = false
is_there (some a) = true

-- A receipt is on record exactly if the message is marked as submitted, and a submission has a
-- message.
pub record IsConsistent (v : View) : Type 0 where
  pub agrees : is_recorded v.submission ≡ is_submitted v.message
  pub belongs : (not (is_there v.submission) || is_there v.message) ≡ true

Move-IsConsistent : (l : Label) (v w : View) → Move l v w → IsConsistent v → IsConsistent w
unfolding is_disposition_transition_allowed
Move-IsConsistent l v w (stay q e) c = ground arith
Move-IsConsistent l v w (arrive row q n d e) c = ground arith
Move-IsConsistent l v w (decide row d reason q m a r e) c = ground arith
Move-IsConsistent l v w (fail row reason q m a i e) c = ground arith
Move-IsConsistent l v w (expire row q m a u e) c = ground arith
Move-IsConsistent l v w (admit row q m d a e) c = ground arith
Move-IsConsistent l v w (prepare row s q m ready f st rev e) c = ground arith
Move-IsConsistent l v w (begin row s q m sub ready st rev e) c = ground arith
Move-IsConsistent l v w (acknowledge row s receipt q m sub ready st rev e) c = ground arith
Move-IsConsistent l v w (release row s refs q m sub st rev e) c = ground arith
Move-IsConsistent l v w (escalate row s refs q m sub st rev e) c = ground arith

-- A database in which the tables of messages and submissions agree keeps agreeing in every history.
pub run-IsConsistent :
    (x : Platform) (es : List Event) (db : Db)
    → ((k : Key) → IsConsistent (view k db))
    → (k : Key) → IsConsistent (view k (run x es db))
run-IsConsistent x es db h k = run_keeps IsConsistent k Move-IsConsistent x es db (h k)

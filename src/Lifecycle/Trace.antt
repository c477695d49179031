-- ===== src/Lifecycle/Trace.antt =====
-- Histories of the coordinator: calls one after the other, at any times, by any callers. A call that
-- fails leaves the database as it was, since its transaction is rolled back.
use threadmesh.Prelude.{
  ℕ, ◌+◌, ◌≤◌, ◌≡◌, refl, Option, none, some, List, [], ◌∷◌, arith, Result, ok, err, find, pair_eq,
  string_eq,
}
use threadmesh.Coordinator.{
  Key, Db, Principal, Platform, Error, prepared, outcome_unknown, receipt_recorded,
  confirmed_not_submitted, manual_reconciliation, SubmissionRow,
}
use threadmesh.Coordinator.Calls.{Call, Response, perform}
use threadmesh.Lifecycle.Refinement.{label_of, perform-Move}
use threadmesh.Lifecycle.{
  View, view, Label, quiet, dispatched, released, Move, stay, arrive, decide, fail, expire, admit,
  prepare, begin, acknowledge, release, escalate,
}

pub record Event : Type 0 where
  pub time : ℕ
  pub principal : Principal
  pub call : Call

abbrev db_after : Db → Result Error (Db × Response) → Db
db_after db (ok (db', response)) = db'
db_after db (err e) = db

unfoldable pub after : Platform → Event → Db → Db
after x e db = db_after db (perform x e.time e.principal e.call db)

unfoldable pub run : Platform → List Event → Db → Db
run x [] db = db
run x (e ∷ es) db = run x es (after x e db)

abbrev pub label_after : Db → Call → Key → Result Error (Db × Response) → Label
label_after db call k (ok (db', response)) = label_of db call response k
label_after db call k (err e) = quiet

-- What an event tells the world about a message.
unfoldable pub label_at_event : Platform → Event → Db → Key → Label
label_at_event x e db k = label_after db e.call k (perform x e.time e.principal e.call db)

pub after-Move :
    (x : Platform) (e : Event) (db : Db) (k : Key)
    → Move (label_at_event x e db k) (view k db) (view k (after x e db))
unfolding after label_at_event
after-Move x e db k = go (perform x e.time e.principal e.call db) refl
  where
    go :
        (m : Result Error (Db × Response))
        → perform x e.time e.principal e.call db ≡ m
        → Move (label_after db e.call k m) (view k db) (view k (db_after db m))
    go (ok (db', response)) ran = (perform-Move x e.time e.principal e.call db db' response ran k).0
    go (err error) ran = stay refl refl

-- What every move keeps, every history keeps.
pub run_keeps {ℓ} :
    (P : View → Type ℓ) (k : Key)
    → ((l : Label) (v w : View) → Move l v w → P v → P w)
    → (x : Platform) (es : List Event) (db : Db) → P (view k db)
    → P (view k (run x es db))
unfolding run
run_keeps P k keep x [] db h = h
run_keeps P k keep x (e ∷ es) db h =
    run_keeps P k keep x es (after x e db) (keep _ _ _ (after-Move x e db k) h)

abbrev pub count_dispatched : Label → ℕ
count_dispatched dispatched = 1
count_dispatched _ = 0

abbrev count_released : Label → ℕ
count_released released = 1
count_released _ = 0

-- How often a message is handed to the adapter in a history.
unfoldable pub dispatches : Platform → Key → List Event → Db → ℕ
dispatches x k [] db = 0
dispatches x k (e ∷ es) db =
    count_dispatched (label_at_event x e db k) + dispatches x k es (after x e db)

-- How often a message is confirmed as not submitted in a history.
unfoldable pub releases : Platform → Key → List Event → Db → ℕ
releases x k [] db = 0
releases x k (e ∷ es) db = count_released (label_at_event x e db k) + releases x k es (after x e db)

-- Whether the adapter may have the message.
abbrev pub occupied : Option SubmissionRow → ℕ
occupied none = 0
occupied (some s) = elim s.state [
  | prepared ↦ 0
  | confirmed_not_submitted ↦ 0
  | outcome_unknown ↦ 1
  | receipt_recorded ↦ 1
  | manual_reconciliation ↦ 1
]

Move-balance :
    (l : Label) (v w : View)
    → Move l v w
    → count_dispatched l + occupied v.submission ≡ occupied w.submission + count_released l
Move-balance l v w (stay q e) = ground arith
Move-balance l v w (arrive row q n d e) = ground arith
Move-balance l v w (decide row c reason q m a r e) = ground arith
Move-balance l v w (fail row reason q m a i e) = ground arith
Move-balance l v w (expire row q m a u e) = ground arith
Move-balance l v w (admit row q m c a e) = ground arith
Move-balance l v w (prepare row s q m ready f st rev e) = ground arith
Move-balance l v w (begin row s q m sub ready st rev e) = ground arith
Move-balance l v w (acknowledge row s receipt q m sub ready st rev e) = ground arith
Move-balance l v w (release row s refs q m sub st rev e) = ground arith
Move-balance l v w (escalate row s refs q m sub st rev e) = ground arith

-- In every history, the number of times that a message is handed to the adapter, and 1 if the
-- adapter may have had it before, is the number of times that it was confirmed as not submitted, and
-- 1 if the adapter may have it now.
pub dispatch_balance :
    (x : Platform) (k : Key) (es : List Event) (db : Db)
    → dispatches x k es db + occupied (find k db.submissions)
      ≡ releases x k es db + occupied (find k (run x es db).submissions)
unfolding run dispatches releases
dispatch_balance x k [] db = refl
dispatch_balance x k (e ∷ es) db =
    omega (arith, dispatch_balance x k es (after x e db), Move-balance _ _ _ (after-Move x e db k))

occupied-le : (o : Option SubmissionRow) → occupied o ≤ 1
occupied-le o = ground arith

-- A message is handed to the adapter at most once more than it was confirmed as not submitted.
pub dispatched_at_most_once :
    (x : Platform) (k : Key) (es : List Event) (db : Db)
    → dispatches x k es db ≤ releases x k es db + 1
dispatched_at_most_once x k es db =
    omega (arith, dispatch_balance x k es db, occupied-le (find k (run x es db).submissions))

-- ===== src/Lifecycle/Writes.antt =====
-- What a write of one row means for the views of all messages.
use threadmesh.Prelude.{
  ◌≡◌, refl, ap, inl, inr, false, some, arith, ◌==◌, if◌then◌else◌, put, find-put, find-put_self,
  pair_eq, string_eq, Bool-cases, beq_sound,
}
use mathlib.Core.Path.{subst}
use threadmesh.Coordinator.{Key, MessageRow, SubmissionRow, Db}
use threadmesh.Lifecycle.{view, Label, quiet, Move, stay}

pub unchanged_view :
    (db db' : Db)
    → db'.messages ≡ db.messages
    → db'.submissions ≡ db.submissions
    → (k : Key) → view k db' ≡ view k db
unchanged_view db db' m s k = ground arith

-- A call that writes no message and no submission.
pub no-Move :
    (db db' : Db)
    → db'.messages ≡ db.messages
    → db'.submissions ≡ db.submissions
    → (k : Key) → Move quiet (view k db) (view k db')
no-Move db db' m s k = stay refl (unchanged_view db db' m s k)

-- A call that changes nothing at all.
pub no_change : (db db' : Db) → db' ≡ db → (k : Key) → Move quiet (view k db) (view k db')
no_change db db' e k = stay refl (ap {A = Db} (view k) e)

module _ (key : Key) (row : MessageRow) (db db' : Db) where
  message_written :
      db'.messages ≡ put key row db.messages
      → db'.submissions ≡ db.submissions
      → view key db' ≡ record (view key db) { message = some row }
  message_written m s = ground (arith, find-put_self key row db.messages)

  message_kept :
      db'.messages ≡ put key row db.messages
      → db'.submissions ≡ db.submissions
      → (k : Key) → (key == k) ≡ false
      → view k db' ≡ view k db
  message_kept m s k other = ground (arith, find-put key k row db.messages)

  -- A write of one message is a move of that message, and no move of any other.
  pub message-Move :
      db'.messages ≡ put key row db.messages
      → db'.submissions ≡ db.submissions
      → Move quiet (view key db) (record (view key db) { message = some row })
      → (k : Key) → Move quiet (view k db) (view k db')
  message-Move m s move k = elim (Bool-cases (key == k)) [
    | inl same ↦
        subst (λ j. Move quiet (view j db) (view j db')) (beq_sound key k same)
          (rw (message_written m s) move)
    | inr other ↦ stay refl (message_kept m s k other)
  ]

-- The label of a move of one message, seen from a message.
abbrev pub label_at : Key → Label → Key → Label
label_at key l k = if key == k then l else quiet

pub label_at-quiet : (key k : Key) → label_at key quiet k ≡ quiet
label_at-quiet key k = ground arith

-- Where a move of one message is at hand, and every other view stays, each message has its move.
pub one-Move :
    (l : Label) (key : Key) (db db' : Db)
    → Move l (view key db) (view key db')
    → ((k : Key) → (key == k) ≡ false → view k db' ≡ view k db)
    → (k : Key) → Move (label_at key l k) (view k db) (view k db')
one-Move l key db db' move kept k = elim (Bool-cases (key == k)) [
  | inl same ↦
      subst (λ j. Move (label_at key l k) (view j db) (view j db')) (beq_sound key k same)
        (rw same move)
  | inr other ↦ rw other (stay refl (kept k other))
]

module _ (key : Key) (s : SubmissionRow) (db db' : Db) where
  pub submission-Move :
      (l : Label)
      → db'.messages ≡ db.messages
      → db'.submissions ≡ put key s db.submissions
      → Move l (view key db) (record (view key db) { submission = some s })
      → (k : Key) → Move (label_at key l k) (view k db) (view k db')
  submission-Move l m w move =
      one-Move l key db db' (rw (submission_written m w) move) (submission_kept m w)
    where
      submission_written :
          db'.messages ≡ db.messages
          → db'.submissions ≡ put key s db.submissions
          → view key db' ≡ record (view key db) { submission = some s }
      submission_written m w = ground (arith, find-put_self key s db.submissions)

      submission_kept :
          db'.messages ≡ db.messages
          → db'.submissions ≡ put key s db.submissions
          → (k : Key) → (key == k) ≡ false
          → view k db' ≡ view k db
      submission_kept m w k other = ground (arith, find-put key k s db.submissions)

  pub both-Move :
      (l : Label) (row : MessageRow)
      → db'.messages ≡ put key row db.messages
      → db'.submissions ≡ put key s db.submissions
      → Move l (view key db) (record { message = some row; submission = some s })
      → (k : Key) → Move (label_at key l k) (view k db) (view k db')
  both-Move l row m w move = one-Move l key db db' (rw written move) kept
    where
      written : view key db' ≡ record { message = some row; submission = some s }
      written =
          ground (arith, find-put_self key s db.submissions, find-put_self key row db.messages)

      kept : (k : Key) → (key == k) ≡ false → view k db' ≡ view k db
      kept k other = ground (arith, find-put key k s db.submissions, find-put key k row db.messages)

pub quiet_submission-Move :
    (key : Key) (s : SubmissionRow) (db db' : Db)
    → db'.messages ≡ db.messages
    → db'.submissions ≡ put key s db.submissions
    → Move quiet (view key db) (record (view key db) { submission = some s })
    → (k : Key) → Move quiet (view k db) (view k db')
quiet_submission-Move key s db db' m w move k =
    subst (λ l. Move l (view k db) (view k db')) (label_at-quiet key k)
      (submission-Move key s db db' quiet m w move k)

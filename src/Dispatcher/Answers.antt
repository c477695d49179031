-- ===== src/Dispatcher/Answers.antt =====
-- What the coordinator's answers to a dispatch say: the submission that is prepared and where it goes
-- (src/dispatcher/durable-dispatcher.mjs, src/coordinator/sqlite-coordinator.mjs).
use threadmesh.Prelude.{
  ℕ, ◌≡◌, refl, ap, ◌⊎◌, inl, inr, false, String, Option, none, some, List, [], ◌∷◌, arith, ok,
  ◌==◌, string_eq, pair_eq, nat_eq, find, put, find-put_self, beq_refl, beq_sound, Bool-cases,
  Option-cases, Result-cases,
}
use mathlib.Core.Path.{subst}
use threadmesh.Policy.{Envelope}
use threadmesh.Coordinator.{Key, Db, Principal, Platform, SubmissionRow, MessageRow}
use threadmesh.Coordinator.Submissions.{
  Prepared, prepare_adapter_submission, prepare_after, submission_key, is_taken, adapter_ref_of,
}
use threadmesh.Coordinator.Attempts.{Begun, begin_adapter_submission, attempt_started}

pub submission_key-put :
    (id : String) (key : Key) (s : SubmissionRow) (rows : List (Key × SubmissionRow))
    → s.submission_id ≡ id
    → (submission_key id rows ≡ none) ⊎ (submission_key id rows ≡ some key)
    → submission_key id (put key s rows) ≡ some key
unfolding submission_key put
submission_key-put id key s [] same h = rw same (rw (beq_refl id) refl)
submission_key-put id key s ((k, t) ∷ rows) same h = elim (Bool-cases (k == key)) [
  | inl is ↦ rw is (rw same (rw (beq_refl id) (ap some (beq_sound k key is))))
  | inr other ↦ elim (Bool-cases (t.submission_id == id)) [
    | inl mine ↦ rw (other, mine) (ground (arith, rw mine at h))
    | inr not_mine ↦ rw (other, not_mine) (submission_key-put id key s rows same (rw not_mine at h))
  ]
]

-- An id that no other message has is new, or the message's own.
is_taken-submission_key :
    (key : Key) (id idempotency_key : String) (rows : List (Key × SubmissionRow))
    → is_taken key id idempotency_key rows ≡ false
    → (submission_key id rows ≡ none) ⊎ (submission_key id rows ≡ some key)
unfolding is_taken submission_key
is_taken-submission_key key id idempotency_key [] free = inl refl
is_taken-submission_key key id idempotency_key ((k, t) ∷ rows) free =
    elim (Bool-cases (t.submission_id == id)) [
      | inl mine ↦ elim (Bool-cases (k == key)) [
        | inl is ↦ inr (rw mine (ap some (beq_sound k key is)))
        | inr other ↦ absurd (ground arith)
      ]
      | inr not_mine ↦
          rw not_mine (is_taken-submission_key key id idempotency_key rows (ground arith))
    ]

-- The UNIQUE constraint on `submission_id`, for the submission of one message: its id is found at
-- the message.
abbrev pub HasOwnId : Key → List (Key × SubmissionRow) → Type 0
HasOwnId key rows =
    (find key rows ≡ none)
    ⊎ ((s : SubmissionRow) × (find key rows ≡ some s)
        × (submission_key s.submission_id rows ≡ some key))

-- Where a prepared submission is stored and where it goes.
pub record IsAddressed (key : Key) (db : Db) (r : Prepared) (row : MessageRow) (ref : String)
    : Type 0 where
  pub message : find key db.messages ≡ some row
  pub submission : find key db.submissions ≡ some r.submission
  pub own_id : submission_key r.submission.submission_id db.submissions ≡ some key
  pub bound : adapter_ref_of db row ≡ ok ref
  pub goes_to : r.addressed ≡ some (ref, row.envelope)

-- What a prepare wrote, if it answers with an adapter.
abbrev Wrote : String → String → Key → Db → Db → Prepared → MessageRow → Type 0
Wrote id idempotency_key key db db' r row =
    (ref : String) × (adapter_ref_of db row ≡ ok ref)
    × (r.addressed ≡ some (ref, row.envelope))
    × (((db' ≡ db) × (find key db.submissions ≡ some r.submission))
        ⊎ ((db'.submissions ≡ put key r.submission db.submissions)
            × (db'.messages ≡ db.messages)
            × (db'.tasks ≡ db.tasks)
            × (r.submission.submission_id ≡ id)
            × (is_taken key id idempotency_key db.submissions ≡ false)))

prepare_after-Wrote :
    (x : Platform) (now : ℕ) (id idempotency_key : String) (key : Key) (revision : ℕ)
    (row : MessageRow) (db db' : Db) (r : Prepared) (to : String × Envelope)
    (o : Option SubmissionRow)
    → find key db.submissions ≡ o
    → prepare_after x now id idempotency_key key revision row db o ≡ ok (db', r)
    → r.addressed ≡ some to
    → Wrote id idempotency_key key db db' r row
prepare_after-Wrote x now id idempotency_key key revision row db db' r to none found h at =
    elim (Result-cases (adapter_ref_of db row)) [
      | inr (e, unbound) ↦ absurd (ground arith)
      | inl (ref, bound) ↦ (ref, bound, ground arith, ground arith)
    ]
prepare_after-Wrote x now id idempotency_key key revision row db db' r to (some s) found h at =
    elim (Result-cases (adapter_ref_of db row)) [
      | inr (e, unbound) ↦ absurd (ground arith)
      | inl (ref, bound) ↦ (ref, bound, ground arith, ground arith)
    ]

prepare-Wrote :
    (x : Platform) (now : ℕ) (id idempotency_key : String) (key : Key) (revision : ℕ)
    (p : Principal) (db db' : Db) (r : Prepared) (to : String × Envelope)
    → prepare_adapter_submission x now id idempotency_key key revision p db ≡ ok (db', r)
    → r.addressed ≡ some to
    → (row : MessageRow) × (find key db.messages ≡ some row)
      × Wrote id idempotency_key key db db' r row
unfolding prepare_adapter_submission
prepare-Wrote x now id idempotency_key key revision p db db' r to h at =
    elim (Option-cases (find key db.messages)) [
      | inl e ↦ absurd (ground arith)
      | inr (row, e) ↦ (
        row,
        e,
        prepare_after-Wrote x now id idempotency_key key revision row db db' r to _ refl
            (ground arith) at,
      )
    ]

own_id-found :
    (key : Key) (rows : List (Key × SubmissionRow)) (s : SubmissionRow)
    → HasOwnId key rows
    → find key rows ≡ some s
    → submission_key s.submission_id rows ≡ some key
own_id-found key rows s (inl missing) found = absurd (ground arith)
own_id-found key rows s (inr (t, is, own)) found =
    let same : t ≡ s = ground arith in
    subst (λ u. submission_key u.submission_id rows ≡ some key) same own

Wrote-IsAddressed :
    (id idempotency_key : String) (key : Key) (db db' : Db) (r : Prepared) (row : MessageRow)
    → HasOwnId key db.submissions
    → find key db.messages ≡ some row
    → (wrote : Wrote id idempotency_key key db db' r row) → IsAddressed key db' r row wrote.0
Wrote-IsAddressed id idempotency_key key db db' r row own found
      (ref, bound, to, inl (same, stored)) =
    record {
      message = rw same found;
      submission = rw same stored;
      own_id = rw same (own_id-found key db.submissions r.submission own stored);
      bound = rw same bound;
      goes_to = to;
    }
Wrote-IsAddressed id idempotency_key key db db' r row own found
      (ref, bound, to, inr (stored, messages, tasks, id_is, free)) =
    record {
      message = rw messages found;
      submission = rw stored (find-put_self key r.submission db.submissions);
      own_id = rw stored (
          submission_key-put r.submission.submission_id key r.submission db.submissions refl (
            is_taken-submission_key key r.submission.submission_id idempotency_key db.submissions
              (rw id_is free)));
      bound = rw tasks bound;
      goes_to = to;
    }

-- A submission that is prepared with an adapter is stored under the message, and goes to the adapter
-- that the target task is bound to.
pub prepare-IsAddressed :
    (x : Platform) (now : ℕ) (id idempotency_key : String) (key : Key) (revision : ℕ)
    (p : Principal) (db db' : Db) (r : Prepared) (to : String × Envelope)
    → HasOwnId key db.submissions
    → prepare_adapter_submission x now id idempotency_key key revision p db ≡ ok (db', r)
    → r.addressed ≡ some to
    → (row : MessageRow) × (ref : String) × IsAddressed key db' r row ref
prepare-IsAddressed x now id idempotency_key key revision p db db' r to own h at =
    let (row, found, wrote) =
      prepare-Wrote x now id idempotency_key key revision p db db' r to h at in
    (row, wrote.0, Wrote-IsAddressed id idempotency_key key db db' r row own found wrote)

-- A fresh begin starts the attempt of the submission with the id, for the adapter that the target
-- task is bound to.
pub begin-dispatch :
    (x : Platform) (now : ℕ) (revision : ℕ) (p : Principal) (key : Key) (db db' : Db) (r : Prepared)
    (row : MessageRow) (ref : String) (b : Begun)
    → IsAddressed key db r row ref
    → begin_adapter_submission x now r.submission.submission_id revision p db ≡ ok (db', b)
    → b.replay ≡ false
    → (b.dispatch ≡ some (ref, row.envelope))
      × (b.submission ≡ attempt_started r.submission)
      × (db'.messages ≡ db.messages)
      × (db'.tasks ≡ db.tasks)
      × (db'.submissions ≡ put key (attempt_started r.submission) db.submissions)
unfolding begin_adapter_submission
begin-dispatch x now revision p key db db' r row ref b a h fresh =
    let ran = (rw (a.own_id, a.submission, a.message) at h) in let bound = a.bound in ground arith

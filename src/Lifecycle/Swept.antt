-- ===== src/Lifecycle/Swept.antt =====
-- What a sweep of expireDueMessages makes of the rows, and how many it leaves due.
use threadmesh.Prelude.{
  ℕ, suc, ◌+◌, ◌-◌, ◌≤◌, ◌≡◌, ◌≢◌, refl, ◌⊎◌, some, length, ap, inl, inr, Bool, true, false, not,
  ◌&&◌, String, List, [], ◌∷◌, arith, pair_eq, string_eq, nat_eq, min, ltb, ok, Bool-cases,
  if◌then◌else◌, includes,
}
use threadmesh.States.{Delivery, Decision, ReasonCode, delivery_eq, decision_eq}
use threadmesh.Vocabulary.{ActorType}
use threadmesh.Disposition.{is_disposition_transition_allowed}
use threadmesh.Coordinator.{Key, MessageRow, Db, Platform, AuditEvent}
use threadmesh.Coordinator.Expiry.{
  is_due, is_selected, decision_after_expiry, expired, expire_row, expire_rows, due_count,
}

abbrev is_open : Delivery → Bool
is_open d = not (includes (Delivery.adapter_submitted ∷ Delivery.failed ∷ Delivery.expired ∷ []) d)

-- A message that is not at an end can expire.
expire_row-open :
    (row : MessageRow)
    → is_open row.disposition.delivery ≡ true
    → expire_row row ≡ ok (record row { disposition = expired row.disposition })
unfolding expire_row is_disposition_transition_allowed
expire_row-open row alive = ground arith

-- One row more, of which it is known whether it is due before and after.
count_swept :
    (before after : Bool) (n n' left : ℕ)
    → before ≡ true
    → after ≡ false
    → ltb 0 left ≡ true
    → n' + min n (left - 1) ≡ n
    → (n' + (if after then 1 else 0)) + min (n + (if before then 1 else 0)) left
      ≡ n + (if before then 1 else 0)
count_swept before after n n' left due done more count = ground arith

count_left :
    (due : Bool) (n n' left : ℕ)
    → due && ltb 0 left ≡ false
    → n' + min n left ≡ n
    → (n' + (if due then 1 else 0)) + min (n + (if due then 1 else 0)) left
      ≡ n + (if due then 1 else 0)
count_left due n n' left other count = ground arith

-- The messages that are listed are as many as have expired.
listed_swept :
    (due : Bool) (n left listed : ℕ)
    → due ≡ true
    → ltb 0 left ≡ true
    → listed ≡ min n (left - 1)
    → suc listed ≡ min (n + (if due then 1 else 0)) left
listed_swept due n left listed is more same = ground arith

listed_left :
    (due : Bool) (n left listed : ℕ)
    → due && ltb 0 left ≡ false
    → listed ≡ min n left
    → listed ≡ min (n + (if due then 1 else 0)) left
listed_left due n left listed other same = ground arith

both : (a b : Bool) → a && b ≡ true → (a ≡ true) × (b ≡ true)
both a b h = ground arith

neither : (a b : Bool) → (a && (b && false)) ≡ false
neither a b = ground arith

-- What expires in a row: the delivery, and the decision if there is none yet. The failure reason and
-- everything outside the disposition stay, and the revision is the next one.
pub record IsExpired (row row' : MessageRow) : Type 0 where
  pub delivery : row'.disposition.delivery ≡ Delivery.expired
  pub revision : row'.disposition.revision ≡ row.disposition.revision + 1
  pub decision :
      (((row.disposition.decision ≡ Decision.pending)
          ⊎ (row.disposition.decision ≡ Decision.deferred))
        × (row'.disposition.decision ≡ Decision.expired))
      ⊎ (((row.disposition.decision ≢ Decision.pending)
            × (row.disposition.decision ≢ Decision.deferred))
          × (row'.disposition.decision ≡ row.disposition.decision))
  pub reason :
      ((row'.disposition.decision ≡ Decision.expired)
        × (row'.disposition.reason_code ≡ some ReasonCode.expired))
      ⊎ ((row'.disposition.decision ≢ Decision.expired)
          × (row'.disposition.reason_code ≡ row.disposition.reason_code))
  pub failure_reason : row'.disposition.failure_reason ≡ row.disposition.failure_reason
  pub rest : row' ≡ record row { disposition = row'.disposition }

expired-IsExpired :
    (row : MessageRow) → IsExpired row (record row { disposition = expired row.disposition })
expired-IsExpired row = record {
  delivery = refl;
  revision = refl;
  decision = ground (
    arith,
    decision_eq.beq_iff row.disposition.decision Decision.pending,
    decision_eq.beq_iff row.disposition.decision Decision.deferred,
  );
  reason = ground (
    arith,
    decision_eq.beq_iff (decision_after_expiry row.disposition.decision) Decision.expired,
  );
  failure_reason = refl;
  rest = refl;
}

-- The sweep of a table, row by row, while `left` messages may still expire: a row that is due expires,
-- and is listed with its new revision; every other row stays as it is.
pub data Swept (is_due_row : Key → MessageRow → Bool)
    : ℕ → List (Key × MessageRow) → List (Key × MessageRow) → List (Key × ℕ) → Type 0 where
  done : {left : ℕ} → Swept is_due_row left [] [] []
  kept :
      {left : ℕ} (key : Key) (row : MessageRow) (rows rows' : List (Key × MessageRow))
      (messages : List (Key × ℕ))
      → (is_due_row key row ≡ false) ⊎ (left ≡ 0)
      → Swept is_due_row left rows rows' messages
      → Swept is_due_row left ((key, row) ∷ rows) ((key, row) ∷ rows') messages
  expires :
      {left : ℕ} (key : Key) (row row' : MessageRow) (rows rows' : List (Key × MessageRow))
      (messages : List (Key × ℕ))
      → is_due_row key row ≡ true
      → 1 ≤ left
      → IsExpired row row'
      → Swept is_due_row (left - 1) rows rows' messages
      → Swept is_due_row left
          ((key, row) ∷ rows)
          ((key, row') ∷ rows')
          ((key, row.disposition.revision + 1) ∷ messages)

module _ (x : Platform) (now : ℕ) (owner : ActorType × String) where
  is_due-open :
      (db : Db) (key : Key) (row : MessageRow)
      → is_due x now owner db key row ≡ true
      → is_open row.disposition.delivery ≡ true
  is_due-open db key row due = (both _ _ (both _ _ (both _ _ due).1).1).0

  expired_not_due :
      (db : Db) (key : Key) (row : MessageRow)
      → is_due x now owner db key (record row { disposition = expired row.disposition }) ≡ false
  expired_not_due db key row = neither _ _

  -- Expired rows are due no more, and all others are as they were.
  pub expire_rows-Swept :
      (db : Db) (left : ℕ) (rows : List (Key × MessageRow))
      → (rows' : List (Key × MessageRow)) × (messages : List (Key × ℕ)) × (expire_rows x now owner
            db left rows
          ≡ ok (rows', messages))
        × Swept (is_due x now owner db) left rows rows' messages
        × (length messages ≡ min (due_count x now owner db rows) left)
        × (due_count x now owner db rows' + min (due_count x now owner db rows) left
            ≡ due_count x now owner db rows)
  unfolding expire_rows due_count
  expire_rows-Swept db left [] = ([], [], refl, done, omega arith, omega arith)
  expire_rows-Swept db left ((key, row) ∷ rows) =
      elim (Bool-cases (is_selected x now owner db left key row)) [
        | inl selected ↦
            let (due, more) = both _ _ selected in
            let (rest, messages, ran, sweep, listed, count) =
              expire_rows-Swept db (left - 1) rows in
            (
              (key, record row { disposition = expired row.disposition }) ∷ rest,
              (key, row.disposition.revision + 1) ∷ messages,
              rw (selected, expire_row-open row (is_due-open db key row due), ran) refl,
              expires key row _ rows rest messages due (ground arith) (expired-IsExpired row) sweep,
              listed_swept _ _ left _ due more listed,
              count_swept _ _ _ _ left due (expired_not_due db key row) more count,
            )
        | inr other ↦
            let (rest, messages, ran, sweep, listed, count) = expire_rows-Swept db left rows in
            (
              (key, row) ∷ rest,
              messages,
              rw (other, ran) refl,
              kept key row rows rest messages (ground arith) sweep,
              listed_left _ _ left _ other listed,
              count_left _ _ _ left other count,
            )
      ]

  pub due_count-swept :
      (db : Db) (swept : List (Key × MessageRow)) (events : List AuditEvent)
      (rows : List (Key × MessageRow))
      → due_count x now owner (record db { messages = swept; audit_events = events }) rows
        ≡ due_count x now owner db rows
  unfolding due_count
  due_count-swept db swept events [] = refl
  due_count-swept db swept events ((key, row) ∷ rows) =
      ap (λ n. n + (if is_due x now owner db key row then 1 else 0))
        (due_count-swept db swept events rows)

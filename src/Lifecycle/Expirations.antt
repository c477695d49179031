-- ===== src/Lifecycle/Expirations.antt =====
-- expireDueMessages as moves of the specification.
use mathlib.Core.Path.{subst}
use threadmesh.Prelude.{
  ℕ, ◌-◌, ◌≡◌, refl, sym, ◌⊎◌, inl, inr, true, String, some, List, [], ◌∷◌, arith, find, pair_eq,
  string_eq, nat_eq, ok, if◌then◌else◌, Bool-cases, Result-cases,
}
use threadmesh.States.{Delivery, decision_eq}
use threadmesh.Vocabulary.{ActorType}
use threadmesh.Disposition.{Machine, is_disposition_transition_allowed}
use threadmesh.Coordinator.{
  EventType, audited, AuditEvent, Key, MessageRow, Db, Principal, Platform,
}
use threadmesh.Coordinator.Mailbox.{control_plane}
use threadmesh.Coordinator.Expiry.{
  is_due, is_selected, expired, expire_row, expire_rows, audit_expired, bounded_limit, Expired,
  expire_due_messages,
}
use threadmesh.Lifecycle.Sweeps.{Rewrites, done, step, Rewrites-Move}
use threadmesh.Lifecycle.{view, quiet, Move, stay, expire}

-- What an expiry does to a row.
abbrev pub ExpiredRow :
    Platform → ℕ → ActorType × String → Db → Key → MessageRow → MessageRow → Type 0
ExpiredRow x now owner db k r r' =
    (r' ≡ r)
    ⊎ ((r' ≡ record r { disposition = expired r.disposition })
        × (is_due x now owner db k r ≡ true)
        × (is_disposition_transition_allowed Machine.delivery r.disposition.delivery
              Delivery.expired
            ≡ true))

expire_row-ok :
    (r r' : MessageRow)
    → expire_row r ≡ ok r'
    → (r' ≡ record r { disposition = expired r.disposition })
      × (is_disposition_transition_allowed Machine.delivery r.disposition.delivery Delivery.expired
          ≡ true)
unfolding expire_row
expire_row-ok r r' h = ground arith

module _ (x : Platform) (now : ℕ) (owner : ActorType × String) (db : Db) where
  selected-ExpiredRow :
      (left : ℕ) (k : Key) (r r' : MessageRow)
      → (if is_selected x now owner db left k r then expire_row r else ok r) ≡ ok r'
      → ExpiredRow x now owner db k r r'
  selected-ExpiredRow left k r r' h = elim (Bool-cases (is_selected x now owner db left k r)) [
    | inl selected ↦
        let ran : expire_row r ≡ ok r' = rw (← h) (rw selected) in
        let (is, allowed) = expire_row-ok r r' ran in inr (is, ground arith, allowed)
    | inr other ↦ inl (ground arith)
  ]

  expire_rows-Rewrites :
      (left : ℕ) (rows rows' : List (Key × MessageRow)) (messages : List (Key × ℕ))
      → expire_rows x now owner db left rows ≡ ok (rows', messages)
      → Rewrites (ExpiredRow x now owner db) rows rows'
  unfolding expire_rows
  expire_rows-Rewrites left [] rows' messages h =
      let is : rows' ≡ [] = ground arith in
      subst (Rewrites (ExpiredRow x now owner db) []) (sym is) done
  expire_rows-Rewrites left ((k, r) ∷ rows) rows' messages h =
      elim (Result-cases (if is_selected x now owner db left k r then expire_row r else ok r)) [
        | inr (e, failed) ↦ absurd (ground arith)
        | inl (r', ran) ↦
            elim (Result-cases (
              expire_rows x now owner db
                (if is_selected x now owner db left k r then left - 1 else left) rows)) [
                  | inr (e, failed) ↦ absurd (ground arith)
                  | inl ((rest, others), went) ↦
                      let is : rows' ≡ (k, r') ∷ rest = (ground arith) in
                      subst (Rewrites (ExpiredRow x now owner db) ((k, r) ∷ rows)) (sym is) (
                        step k r r' rows rest (selected-ExpiredRow left k r r' ran) (
                          expire_rows-Rewrites
                            (if is_selected x now owner db left k r then left - 1 else left) rows
                            rest others went))
                ]
      ]

-- The audit of an expiry writes nothing else.
pub audit_expired-events :
    (messages : List (Key × ℕ)) (db : Db)
    → (events : List AuditEvent) × (audit_expired messages db ≡ record db { audit_events = events })
unfolding audit_expired
audit_expired-events [] db = (db.audit_events, refl)
audit_expired-events ((key, revision) ∷ messages) db =
    audit_expired-events messages (audited key EventType.message_expired revision db)

-- What an expiry writes.
pub record ExpiresDue (x : Platform) (now : ℕ) (db db' : Db) : Type 0 where
  pub owner : ActorType × String
  pub sweep : Rewrites (ExpiredRow x now owner db) db.messages db'.messages
  pub same_submissions : db'.submissions ≡ db.submissions
  pub same_grants : db'.grants ≡ db.grants
  pub same_tasks : db'.tasks ≡ db.tasks

pub expire_due_messages-ExpiresDue :
    (x : Platform) (now limit : ℕ) (p : Principal) (db db' : Db) (r : Expired)
    → expire_due_messages x now limit p db ≡ ok (db', r)
    → ExpiresDue x now db db'
unfolding expire_due_messages
expire_due_messages-ExpiresDue x now limit p db db' r h = elim (Result-cases (control_plane p)) [
  | inr (e, failed) ↦ absurd (ground arith)
  | inl (owner, who) ↦
      elim (Result-cases (expire_rows x now owner db (bounded_limit limit) db.messages)) [
        | inr (e, failed) ↦ absurd (ground arith)
        | inl ((rows, messages), ran) ↦
            let (events, audits) = audit_expired-events messages (record db { messages = rows }) in
            let is : db' ≡ record db { messages = rows; audit_events = events } = (ground arith) in
            record {
              owner = owner;
              sweep = rw is (
                  expire_rows-Rewrites x now owner db (bounded_limit limit) db.messages rows
                    messages ran);
              same_submissions = rw is refl;
              same_grants = rw is refl;
              same_tasks = rw is refl;
            }
      ]
]

ExpiredRow-Move :
    (x : Platform) (now : ℕ) (owner : ActorType × String) (db : Db) (k : Key) (r r' : MessageRow)
    → find k db.messages ≡ some r
    → ExpiredRow x now owner db k r r'
    → Move quiet (view k db) (record (view k db) { message = some r' })
ExpiredRow-Move x now owner db k r r' found (inl same) = stay refl (ground arith)
ExpiredRow-Move x now owner db k r r' found (inr (is, due, allowed)) =
    expire r refl found allowed (ground arith) (ground arith)

pub expire_due_messages-Move :
    (x : Platform) (now limit : ℕ) (p : Principal) (db db' : Db) (r : Expired)
    → expire_due_messages x now limit p db ≡ ok (db', r)
    → (k : Key) → Move quiet (view k db) (view k db')
expire_due_messages-Move x now limit p db db' r h =
    let w = expire_due_messages-ExpiresDue x now limit p db db' r h in
    Rewrites-Move (ExpiredRow x now w.owner db) db db' w.sweep w.same_submissions
      (ExpiredRow-Move x now w.owner db)

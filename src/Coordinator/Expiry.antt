-- ===== src/Coordinator/Expiry.antt =====
-- The expiry of due messages (expireDueMessages of src/coordinator/sqlite-coordinator.mjs). The rows of
-- `messages` are gone through in the order of the table, which is that of `sequence`; a limit is a
-- natural number.
use threadmesh.Prelude.{
  ℕ, ◌+◌, ◌-◌, Bool, true, false, not, ◌&&◌, ◌||◌, String, Option, none, some, List, [], ◌∷◌, ◌==◌,
  nat_beq, string_eq, nat_eq, pair_eq, option_eq, ltb, min, Result, ok, ◌>>=◌, ◌>>◌, throw_if,
  if◌then◌else◌, find, includes,
}
use threadmesh.States.{Delivery, Decision, ReasonCode, delivery_eq, decision_eq}
use threadmesh.Vocabulary.{ActorType, actor_type_eq}
use threadmesh.Policy.{Envelope}
use threadmesh.Disposition.{Machine, is_disposition_transition_allowed}
use threadmesh.Coordinator.{
  Key, Disposition, MessageRow, SubmissionRow, outcome_unknown, AdmissionRow, TaskRow, EventType,
  Db, Principal, Error, Platform, find_task, audited,
}
use threadmesh.Coordinator.Mailbox.{control_plane}
use threadmesh.Coordinator.Tasks.{find_incarnation}

-- `Math.max(1, Math.min(Number(limit) || 100, 1000))`
abbrev pub bounded_limit : ℕ → ℕ
bounded_limit limit = min (if nat_beq limit 0 then 100 else limit) 1000

abbrev pub owned_by : ActorType × String → Option TaskRow → Bool
owned_by owner none = false
owned_by (kind, name) (some t) = (t.owner_kind == kind) && (t.owner_principal_id == name)

abbrev pub is_there : Option TaskRow → Bool
is_there none = false
is_there (some t) = true

-- The two joins with `tasks`, and the principal's part of the WHERE clause.
abbrev pub may_expire : Db → ActorType × String → Envelope → Bool
may_expire db (kind, name) e =
    let source = find_incarnation e.sender.incarnation_id db.tasks in
    let target = find_task e.target db.tasks in
    (is_there source && is_there target)
    && ((kind == ActorType.policy)
        || (owned_by (kind, name) source && owned_by (kind, name) target))

abbrev pub is_in_flight : Option AdmissionRow → Bool
is_in_flight none = false
is_in_flight (some a) = a.is_in_flight

abbrev pub has_unknown_outcome : Option SubmissionRow → Bool
has_unknown_outcome none = false
has_unknown_outcome (some s) = elim s.state [ outcome_unknown ↦ true | _ ↦ false ]

-- The WHERE clause of the candidates.
abbrev pub is_due : Platform → ℕ → ActorType × String → Db → Key → MessageRow → Bool
is_due x now owner db key row =
    x.expiry_text_passed row.envelope now
    && (may_expire db owner row.envelope
        && (not (
              includes (Delivery.adapter_submitted ∷ Delivery.failed ∷ Delivery.expired ∷ [])
                row.disposition.delivery)
            && (not (is_in_flight (find key db.admissions))
                && not (has_unknown_outcome (find key db.submissions)))))

abbrev pub decision_after_expiry : Decision → Decision
decision_after_expiry d =
    if includes (Decision.pending ∷ Decision.deferred ∷ []) d then Decision.expired else d

-- The `CASE` of the reason code.
abbrev pub reason_after_expiry : Decision → Option ReasonCode → Option ReasonCode
reason_after_expiry d reason = if d == Decision.expired then some ReasonCode.expired else reason

abbrev pub expired : Disposition → Disposition
expired d = record d {
  revision = d.revision + 1;
  delivery = Delivery.expired;
  decision = decision_after_expiry d.decision;
  reason_code = reason_after_expiry (decision_after_expiry d.decision) d.reason_code;
}

-- The body of the loop over the selected candidates.
unfoldable pub expire_row : MessageRow → Result Error MessageRow
expire_row row = do
  let decision : Decision = decision_after_expiry row.disposition.decision
  throw_if
      (not (
          is_disposition_transition_allowed Machine.delivery row.disposition.delivery
            Delivery.expired)
        || (not (decision == row.disposition.decision)
            && not (
                is_disposition_transition_allowed Machine.decision row.disposition.decision
                  decision)))
      Error.revision_or_state_conflict
  ok (record row { disposition = expired row.disposition })

-- Whether a candidate is among the first ones, as many as are left.
abbrev pub is_selected : Platform → ℕ → ActorType × String → Db → ℕ → Key → MessageRow → Bool
is_selected x now owner db left key row = is_due x now owner db key row && ltb 0 left

-- The rows, the first `left` candidates of them expired, and what is expired: the keys with the new
-- revisions. The UPDATE changes each candidate, so the `continue` after it is never taken.
unfoldable pub expire_rows :
    Platform
    → ℕ
    → ActorType × String
    → Db
    → ℕ
    → List (Key × MessageRow)
    → Result Error (List (Key × MessageRow) × List (Key × ℕ))
expire_rows x now owner db left [] = ok ([], [])
expire_rows x now owner db left ((key, row) ∷ rows) =
    (if is_selected x now owner db left key row then expire_row row else ok row) >>= λ r.
    expire_rows x now owner db (if is_selected x now owner db left key row then left - 1 else left)
      rows
    >>= λ rest. ok (
      (key, r) ∷ rest.0,
      if is_selected x now owner db left key row
          then (key, r.disposition.revision) ∷ rest.1
          else rest.1,
    )

-- The audit events of the expired messages, the latest first.
unfoldable pub audit_expired : List (Key × ℕ) → Db → Db
audit_expired [] db = db
audit_expired ((key, revision) ∷ expired) db =
    audit_expired expired (audited key EventType.message_expired revision db)

-- How many candidates there are.
unfoldable pub due_count : Platform → ℕ → ActorType × String → Db → List (Key × MessageRow) → ℕ
due_count x now owner db [] = 0
due_count x now owner db ((key, row) ∷ rows) =
    due_count x now owner db rows + (if is_due x now owner db key row then 1 else 0)

pub record Expired : Type 0 where
  pub expired_messages : List (Key × ℕ)
  pub has_more : Bool

-- expireDueMessages
unfoldable pub expire_due_messages : Platform → ℕ → ℕ → Principal → Db → Result Error (Db × Expired)
expire_due_messages x now limit principal db = do
  owner ← control_plane principal
  (rows, messages) ← expire_rows x now owner db (bounded_limit limit) db.messages
  ok (
    audit_expired messages (record db { messages = rows }),
    record {
      expired_messages = messages;
      has_more = ltb (bounded_limit limit) (due_count x now owner db db.messages);
    },
  )

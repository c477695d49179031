-- ===== src/Lifecycle/Overdue.antt =====
-- What a sweep of expireDueMessages leaves, and what repeated sweeps come to.
use mathlib.Core.Path.{subst}
use threadmesh.Prelude.{
  ℕ, zero, suc, ◌+◌, ◌≤◌, ◌≡◌, refl, length, sym, ap, ◌∙◌, String, List, [], ◌∷◌, arith, pair_eq,
  string_eq, nat_eq, min, ltb, ok,
}
use threadmesh.States.{delivery_eq, decision_eq}
use threadmesh.Vocabulary.{ActorType}
use threadmesh.Coordinator.{Db, Principal, Platform}
use threadmesh.Coordinator.Mailbox.{control_plane}
use threadmesh.Coordinator.Expiry.{bounded_limit, is_due, due_count, Expired, expire_due_messages}
use threadmesh.Coordinator.Calls.{perform, expires}
use threadmesh.Lifecycle.Expirations.{audit_expired-events}
use threadmesh.Lifecycle.Swept.{Swept, expire_rows-Swept, due_count-swept}
use threadmesh.Lifecycle.Trace.{Event, run, after}

has_more-remaining : (due limit rest : ℕ) → rest + min due limit ≡ due → ltb limit due ≡ ltb 0 rest
has_more-remaining due limit rest count = ground arith

fewer :
    (due limit count rest n : ℕ)
    → count ≡ min due (bounded_limit limit)
    → rest + count ≡ due
    → due ≤ suc n
    → rest ≤ n
fewer due limit count rest n counted sum bound = ground arith

-- A sweep by anyone who may ask for one always succeeds. It expires the due messages in the order of
-- the table, as many as the limit allows: delivery expired, a missing decision expired with its
-- reason, the next revision; it lists their keys and new revisions, leaves every other row as it is,
-- and writes no other table but the audit. So what was due before is what it expired and what is still
-- due, and it tells whether there are more.
pub expire_due_messages_exact :
    (x : Platform) (now limit : ℕ) (p : Principal) (owner : ActorType × String) (db : Db)
    → control_plane p ≡ ok owner
    → (db' : Db) × (r : Expired) × (expire_due_messages x now limit p db ≡ ok (db', r))
      × Swept
          (is_due x now owner db)
          (bounded_limit limit)
          db.messages
          db'.messages
          r.expired_messages
      × (db' ≡ record db { messages = db'.messages; audit_events = db'.audit_events })
      × (length r.expired_messages
          ≡ min (due_count x now owner db db.messages) (bounded_limit limit))
      × (due_count x now owner db' db'.messages + length r.expired_messages
          ≡ due_count x now owner db db.messages)
      × (r.has_more ≡ ltb 0 (due_count x now owner db' db'.messages))
unfolding expire_due_messages
expire_due_messages_exact x now limit p owner db who =
    let (rows, messages, ran, sweep, listed, count) =
      expire_rows-Swept x now owner db (bounded_limit limit) db.messages in
    let (events, e) = audit_expired-events messages (record db { messages = rows }) in
    let is = due_count-swept x now owner db rows events rows in
    let due : ℕ = due_count x now owner db db.messages in
    (
      record db { messages = rows; audit_events = events },
      record { expired_messages = messages; has_more = ltb (bounded_limit limit) due },
      rw (who, ran, e) refl,
      sweep,
      refl,
      listed,
      rw (is, listed) count,
      has_more-remaining due (bounded_limit limit) _ count ∙ ap (ltb 0) (sym is),
    )

-- Repeated sweeps.
abbrev pub sweeps_of : ℕ → ℕ → Principal → ℕ → List Event
sweeps_of now limit p zero = []
sweeps_of now limit p (suc n) =
    record { time = now; principal = p; call = expires limit } ∷ sweeps_of now limit p n

-- A message that is due does not stay: as many sweeps as there are due messages leave none.
pub sweeps_drain :
    (x : Platform) (now limit : ℕ) (p : Principal) (owner : ActorType × String)
    → control_plane p ≡ ok owner
    → (n : ℕ) (db : Db) → due_count x now owner db db.messages ≤ n
    → let last : Db = run x (sweeps_of now limit p n) db in
      due_count x now owner last last.messages ≡ 0
unfolding run after perform
sweeps_drain x now limit p owner who zero db bound = omega (arith, bound)
sweeps_drain x now limit p owner who (suc n) db bound =
    let (db', r, ran, sweep, tables, counted, rest, more) =
      expire_due_messages_exact x now limit p owner db who in
    let swept : after x (record { time = now; principal = p; call = expires limit }) db ≡ db' =
      rw ran refl in
    subst
      (λ d.
        let last : Db = run x (sweeps_of now limit p n) d in
        due_count x now owner last last.messages ≡ 0)
      (sym swept)
      (sweeps_drain x now limit p owner who n db' (fewer _ limit _ _ n counted rest bound))

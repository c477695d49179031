-- ===== src/Lifecycle/History.antt =====
-- The history of a message as seen from outside: its contents, its revision and its states.
use threadmesh.Prelude.{◌≤◌, ◌≡◌, refl, ap, ◌∙◌, true, some, List, arith, find, pair_eq, string_eq}
use mathlib.Core.Path.{subst}
use threadmesh.Coordinator.Expiry.{decision_after_expiry}
use threadmesh.States.{Decision, delivery_eq}
use threadmesh.Disposition.{Machine, StateOf, is_disposition_transition_allowed}
use threadmesh.Coordinator.{Key, Db, Platform, MessageRow, Disposition}
use threadmesh.Lifecycle.{
  View, view, Label, Move, stay, arrive, decide, fail, expire, admit, prepare, begin, acknowledge,
  release, escalate,
}
use threadmesh.Lifecycle.Trace.{Event, run, run_keeps}

-- The states that a machine can get to by allowed transitions.
pub data Reaches (m : Machine) (from : StateOf m) : StateOf m → Type 0 where
  here : Reaches m from from
  next :
      {mid to : StateOf m}
      → Reaches m from mid
      → is_disposition_transition_allowed m mid to ≡ true
      → Reaches m from to

-- A later row of the same message.
pub record Follows (row later : MessageRow) : Type 0 where
  pub same_envelope : later.envelope ≡ row.envelope
  pub same_digest : later.envelope_digest ≡ row.envelope_digest
  pub same_grant : later.grant_id ≡ row.grant_id
  pub same_version : later.grant_version ≡ row.grant_version
  pub revision_grows : row.disposition.revision ≤ later.disposition.revision
  pub decision_follows :
      Reaches Machine.decision row.disposition.decision later.disposition.decision
  pub delivery_follows :
      Reaches Machine.delivery row.disposition.delivery later.disposition.delivery
  pub same_outcome : later.disposition.outcome ≡ row.disposition.outcome

-- The message of a view is a later row of `row`.
abbrev pub HasFollowed : MessageRow → View → Type 0
HasFollowed row v = (later : MessageRow) × (v.message ≡ some later) × Follows row later

pub Follows-refl : (row : MessageRow) → Follows row row
Follows-refl row = record {
  same_envelope = refl;
  same_digest = refl;
  same_grant = refl;
  same_version = refl;
  revision_grows = omega arith;
  decision_follows = here;
  delivery_follows = here;
  same_outcome = refl;
}

-- A row that follows, with a new disposition of a higher revision.
Follows-disposition :
    (row mid : MessageRow) (d : Disposition)
    → Follows row mid
    → mid.disposition.revision ≤ d.revision
    → Reaches Machine.decision row.disposition.decision d.decision
    → Reaches Machine.delivery row.disposition.delivery d.delivery
    → d.outcome ≡ mid.disposition.outcome
    → Follows row (record mid { disposition = d })
Follows-disposition row mid d f grows decision delivery outcome = record {
  same_envelope = f.same_envelope;
  same_digest = f.same_digest;
  same_grant = f.same_grant;
  same_version = f.same_version;
  revision_grows = omega (arith, f.revision_grows);
  decision_follows = decision;
  delivery_follows = delivery;
  same_outcome = outcome ∙ f.same_outcome;
}

kept :
    (row : MessageRow) (v w : View) → w.message ≡ v.message → HasFollowed row v → HasFollowed row w
kept row v w e (later, found, f) = (later, e ∙ found, f)

-- The row of a view, and that it follows.
followed :
    (row mid : MessageRow) (v : View) → HasFollowed row v → v.message ≡ some mid → Follows row mid
followed row mid v (later, found, f) e =
    let same : later ≡ mid = cc (found, e) in subst (Follows row) same f

-- An expiry leaves a decision as it is, or makes it `expired` by an allowed transition.
decision_after_expiry-Reaches :
    (from d : Decision)
    → Reaches Machine.decision from d
    → Reaches Machine.decision from (decision_after_expiry d)
unfolding is_disposition_transition_allowed
decision_after_expiry-Reaches from Decision.pending r = next r refl
decision_after_expiry-Reaches from Decision.deferred r = next r refl
decision_after_expiry-Reaches from Decision.accepted r = r
decision_after_expiry-Reaches from Decision.rejected r = r
decision_after_expiry-Reaches from Decision.stale r = r
decision_after_expiry-Reaches from Decision.expired r = r
decision_after_expiry-Reaches from Decision.unsupported r = r
decision_after_expiry-Reaches from Decision.revoked r = r

pub Move-HasFollowed :
    (row : MessageRow) (l : Label) (v w : View) → Move l v w → HasFollowed row v → HasFollowed row w
Move-HasFollowed row l v w (stay q e) h = kept row v w (ap {A = View} (λ u. u.message) e) h
Move-HasFollowed row l v w (arrive new q n d e) (later, found, f) = absurd (ground arith)
Move-HasFollowed row l v w (decide mid c reason q m a r e) h =
    let f = followed row mid v h m in
    (
      _,
      ap {A = View} (λ u. u.message) e,
      Follows-disposition row mid _ f (omega arith) (next f.decision_follows a) f.delivery_follows
          refl,
    )
Move-HasFollowed row l v w (fail mid reason q m a i e) h =
    let f = followed row mid v h m in
    (
      _,
      ap {A = View} (λ u. u.message) e,
      Follows-disposition row mid _ f (omega arith) f.decision_follows (next f.delivery_follows a)
          refl,
    )
Move-HasFollowed row l v w (expire mid q m a u e) h =
    let f = followed row mid v h m in
    (
      _,
      ap {A = View} (λ u. u.message) e,
      Follows-disposition row mid _ f (omega arith)
          (decision_after_expiry-Reaches row.disposition.decision mid.disposition.decision
            f.decision_follows)
          (next f.delivery_follows a) refl,
    )
Move-HasFollowed row l v w (admit mid q m c a e) h =
    let f = followed row mid v h m in
    (
      _,
      ap {A = View} (λ u. u.message) e,
      Follows-disposition row mid _ f (omega arith) f.decision_follows (next f.delivery_follows a)
          refl,
    )
Move-HasFollowed row l v w (prepare mid s q m ready f st rev e) h =
    kept row v w (ap {A = View} (λ u. u.message) e) h
Move-HasFollowed row l v w (begin mid s q m sub ready st rev e) h =
    kept row v w (ap {A = View} (λ u. u.message) e) h
Move-HasFollowed row l v w (acknowledge mid s receipt q m sub ready st rev e) h =
    let f = followed row mid v h m in
    (
      _,
      ap {A = View} (λ u. u.message) e,
      Follows-disposition row mid _ f (omega arith) f.decision_follows
          (next f.delivery_follows ready.deliverable) refl,
    )
Move-HasFollowed row l v w (release mid s refs q m sub st rev e) h =
    kept row v w (ap {A = View} (λ u. u.message) e) h
Move-HasFollowed row l v w (escalate mid s refs q m sub st rev e) h =
    kept row v w (ap {A = View} (λ u. u.message) e) h

-- A message that is stored stays stored, in every history: with its envelope, digest and grant as
-- they were, a revision at least as high, decision and delivery states that its transition tables
-- reach from those it had, and the outcome that it had.
pub run-Follows :
    (x : Platform) (k : Key) (es : List Event) (db : Db) (row : MessageRow)
    → find k db.messages ≡ some row
    → HasFollowed row (view k (run x es db))
run-Follows x k es db row h =
    run_keeps (HasFollowed row) k (Move-HasFollowed row) x es db (row, h, Follows-refl row)

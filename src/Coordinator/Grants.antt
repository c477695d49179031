-- ===== src/Coordinator/Grants.antt =====
-- The grants of the coordinator (src/coordinator/sqlite-coordinator.mjs): installGrant and revokeGrant.
-- A revocation also revokes the queued messages that would change the state of their receiver; the
-- rows of `messages` are gone through in the order of the table.
use threadmesh.Prelude.{
  ℕ, ◌+◌, Bool, true, false, not, ◌&&◌, ◌||◌, String, Option, none, some, List, [], ◌∷◌, ◌++◌, ◌==◌,
  string_eq, nat_eq, pair_eq, option_eq, Result, ok, ◌>>=◌, ◌>>◌, throw_if, or_throw, if◌then◌else◌,
  find, includes,
}
use threadmesh.States.{Delivery, Decision, ReasonCode, delivery_eq, decision_eq}
use threadmesh.Vocabulary.{
  ActorType, actor_type_eq, TaskRef, same_task_ref, Instant, millis, is_present,
}
use threadmesh.Disposition.{Machine, is_disposition_transition_allowed}
use threadmesh.Policy.{Grant, is_state_changing_intent}
use threadmesh.Coordinator.{
  Key, MessageRow, GrantRow, GrantDocument, TaskRow, EventType, Db, Principal, Error, Platform,
  find_task, audited,
}
use threadmesh.Coordinator.Mailbox.{control_plane, decided, is_in_doubt}

-- Whether a kind is one that controls: a user or a policy.
abbrev pub is_control_kind : ActorType → Bool
is_control_kind kind = includes (ActorType.user ∷ ActorType.policy ∷ []) kind

-- `principal.kind === "policy" ? "policy" : "owner"`
abbrev pub authority_of : ActorType → String
authority_of kind = if kind == ActorType.policy then "policy" else "owner"

-- #assertGrantAuthority, after the principal's check
unfoldable pub assert_grant_authority :
    Platform → GrantDocument → ActorType × String → Result Error (Unit {0})
assert_grant_authority x g (kind, name) = do
  throw_if (not (x.grant_is_valid g)) Error.grant_invalid
  throw_if
      (not (is_control_kind g.granted_by_type)
        || (not (g.granted_by_type == kind)
            || (g.granted_by_id == "" || not (g.granted_by_id == name))))
      Error.grant_issuer_invalid
  throw_if
      (not (g.authority == authority_of kind)
        || (not (g.authorized_by_type == kind)
            || (not (g.authorized_by_id == name)
                || not (g.integrity_digest == x.grant_authorization_digest g))))
      Error.grant_authorization_invalid

-- `SELECT … FROM grants WHERE grant_id = ?`
unfoldable pub find_grant : String → List GrantRow → Option GrantRow
find_grant id [] = none
find_grant id (g ∷ grants) = if g.grant.grant_id == id then some g else find_grant id grants

-- Whether the channel of a grant has a grant of the same version.
unfoldable pub version_is_taken : Grant → List GrantRow → Bool
version_is_taken g [] = false
version_is_taken g (h ∷ grants) =
    ((h.grant.relationship_id == g.relationship_id)
      && (same_task_ref h.grant.source g.source
          && (same_task_ref h.grant.target g.target && (h.grant.grant_version == g.grant_version))))
    || version_is_taken g grants

-- The owner's check of the two tasks of a grant.
unfoldable pub assert_scope : Db → ActorType × String → TaskRef → Result Error (Unit {0})
assert_scope db (kind, name) ref = do
  t ← or_throw (find_task ref db.tasks) Error.task_not_registered
  throw_if (is_present t.snapshot.retired_at) Error.task_retired
  throw_if
      (not (kind == ActorType.policy)
        && (not (t.owner_kind == kind) || not (t.owner_principal_id == name)))
      Error.grant_scope_not_authorized

abbrev pub grant_row : Platform → GrantDocument → GrantRow
grant_row x g = record {
  grant = g.grant;
  granted_by_type = g.granted_by_type;
  granted_by_id = g.granted_by_id;
  grant_json = x.grant_json g;
}

abbrev pub replayed_or_installed :
    Platform → GrantDocument → ActorType × String → Db → Option GrantRow → Result Error Db
replayed_or_installed x g owner db (some row) = do
  throw_if (not (row.grant_json == x.grant_json g)) Error.idempotency_conflict
  ok db
replayed_or_installed x g owner db none = do
  throw_if (version_is_taken g.grant db.grants) Error.revision_conflict
  assert_scope db owner g.grant.source
  assert_scope db owner g.grant.target
  ok (record db { grants = db.grants ++ grant_row x g ∷ [] })

-- installGrant, with #installGrant
unfoldable pub install_grant : Platform → GrantDocument → Principal → Db → Result Error Db
install_grant x g principal db = do
  owner ← control_plane principal
  assert_grant_authority x g owner
  replayed_or_installed x g owner db (find_grant g.grant.grant_id db.grants)

-- Whether a message is queued under the grant and would change the state of its receiver.
abbrev pub is_queued : Db → Grant → Key → MessageRow → Bool
is_queued db g key row =
    (row.grant_id == g.grant_id)
    && ((row.grant_version == g.grant_version)
        && (not (
              includes (Delivery.adapter_submitted ∷ Delivery.failed ∷ Delivery.expired ∷ [])
                row.disposition.delivery)
            && (includes (Decision.pending ∷ Decision.deferred ∷ Decision.accepted ∷ [])
                  row.disposition.decision
                && (not (is_in_doubt (find key db.submissions))
                    && is_state_changing_intent row.envelope.intent))))

abbrev pub revoked_row : MessageRow → MessageRow
revoked_row row = record row {
  disposition = decided Decision.revoked ReasonCode.revoked row.disposition;
}

-- The body of the loop over the queued messages, on any message.
unfoldable pub revoke_row : Db → Grant → Key → MessageRow → Result Error MessageRow
revoke_row db g key row =
    if is_queued db g key row
    then (throw_if
          (not (
            is_disposition_transition_allowed Machine.decision row.disposition.decision
              Decision.revoked))
          Error.revision_or_state_conflict
        >> ok (revoked_row row))
    else ok row

unfoldable pub revoke_rows :
    Db → Grant → List (Key × MessageRow) → Result Error (List (Key × MessageRow))
revoke_rows db g [] = ok []
revoke_rows db g ((key, row) ∷ rows) =
    revoke_row db g key row >>= λ r. revoke_rows db g rows >>= λ rest. ok ((key, r) ∷ rest)

-- The audit events of the queued messages, the latest first.
unfoldable pub audit_revoked : Db → Grant → List (Key × MessageRow) → Db → Db
audit_revoked before g [] db = db
audit_revoked before g ((key, row) ∷ rows) db = audit_revoked before g rows (
    if is_queued before g key row
    then audited key EventType.authorization_revoked (row.disposition.revision + 1) db
    else db)

-- Every row with the grant's id, revoked.
unfoldable pub mark_revoked : String → ℕ → List GrantRow → List GrantRow
mark_revoked id now [] = []
mark_revoked id now (g ∷ grants) =
    (if g.grant.grant_id == id
      then record g { grant = record g.grant { revoked_at = some (millis now) } }
      else g)
    ∷ mark_revoked id now grants

-- Who may revoke a grant: its issuer, the owner of its target task, or a policy.
unfoldable pub assert_may_revoke : ActorType × String → GrantRow → TaskRow → Result Error (Unit {0})
assert_may_revoke (kind, name) g target =
    throw_if
      (not (kind == ActorType.policy)
        && (not ((g.granted_by_type == kind) && (g.granted_by_id == name))
            && not ((target.owner_kind == kind) && (target.owner_principal_id == name))))
      Error.grant_revoke_not_authorized

-- `expectedGrantVersion !== null && grant.grant_version !== expectedGrantVersion`
abbrev pub version_differs : Option ℕ → ℕ → Bool
version_differs none version = false
version_differs (some expected) version = not (version == expected)

pub record Revoked : Type 0 where
  pub replay : Bool
  pub grant_version : ℕ
  pub revoked_at : Option Instant

abbrev pub replayed_or_revoked : ℕ → GrantRow → Db → Option Instant → Result Error (Db × Revoked)
replayed_or_revoked now g db (some at) =
    ok (db, record { replay = true; grant_version = g.grant.grant_version; revoked_at = some at })
replayed_or_revoked now g db none = do
  rows ← revoke_rows db g.grant db.messages
  ok (
    audit_revoked db g.grant db.messages
        (record db { grants = mark_revoked g.grant.grant_id now db.grants; messages = rows }),
    record {
      replay = false;
      grant_version = g.grant.grant_version;
      revoked_at = some (millis now);
    },
  )

-- revokeGrant
unfoldable pub revoke_grant : ℕ → String → Option ℕ → Principal → Db → Result Error (Db × Revoked)
revoke_grant now id expected_version principal db = do
  owner ← control_plane principal
  g ← or_throw (find_grant id db.grants) Error.grant_not_active
  target ← or_throw (find_task g.grant.target db.tasks) Error.grant_not_active
  throw_if (version_differs expected_version g.grant.grant_version) Error.revision_conflict
  assert_may_revoke owner g target
  replayed_or_revoked now g db g.grant.revoked_at

-- ===== src/Tests/Grants.antt =====
-- The theorems on grants and their revocation, applied to the sample database.
use threadmesh.Prelude.{◌≡◌, refl, false, some, [], ◌∷◌, ok, string_eq, pair_eq, find}
use threadmesh.States.{Decision, ReasonCode}
use threadmesh.Vocabulary.{millis}
use threadmesh.Disposition.{is_disposition_transition_allowed}
use threadmesh.Policy.{is_state_changing_intent}
use threadmesh.Coordinator.{Db, user, find_task, audited, EventType}
use threadmesh.Coordinator.Mailbox.{decided, control_plane}
use threadmesh.Coordinator.Grants.{
  find_grant, mark_revoked, revoke_row, revoke_rows, audit_revoked, assert_may_revoke, revoke_grant,
  Revoked,
}
use threadmesh.Lifecycle.Trace.{dispatches}
use threadmesh.Lifecycle.Revocation.{revoke_grant_stops_dispatch}
use threadmesh.Tests.Samples.{
  accepted_db, accepted_disposition, message_with, platform, key_1, grant_1, grant_row_1,
}
use threadmesh.Tests.Coordinator.{begin_event}

abbrev withdrawn_db : Db
withdrawn_db = audited key_1 EventType.authorization_revoked 2 (record accepted_db {
  grants = (record grant_row_1 { grant = record grant_1 { revoked_at = some (millis 1500) } }) ∷ [];
  messages =
      (key_1, message_with (decided Decision.revoked ReasonCode.revoked accepted_disposition)) ∷ [];
})

abbrev withdrawal : Revoked
withdrawal = record { replay = false; grant_version = 1; revoked_at = some (millis 1500) }

withdraws :
    revoke_grant 1500 "grant_1" (some 1) (user "ada") accepted_db ≡ ok (withdrawn_db, withdrawal)
unfolding control_plane revoke_grant find_grant find_task assert_may_revoke revoke_rows revoke_row
    audit_revoked mark_revoked find is_disposition_transition_allowed is_state_changing_intent
withdraws = refl

revoke_grant_stops_dispatch_example :
    dispatches platform key_1 (begin_event ∷ begin_event ∷ []) withdrawn_db ≡ 0
unfolding find
revoke_grant_stops_dispatch_example =
    revoke_grant_stops_dispatch platform 1500 "grant_1" (some 1) (user "ada") accepted_db
      withdrawn_db withdrawal key_1 (message_with accepted_disposition) withdraws refl refl refl
      (begin_event ∷ begin_event ∷ [])

-- ===== src/Coordinator/Claims.antt =====
-- The mailbox claims of the coordinator (src/coordinator/sqlite-coordinator.mjs): claimPending and
-- acknowledgePending. A claim's token, a digest over a random nonce, is an argument; the columns
-- `claimed_at` and `acknowledged_at` are left out.
use threadmesh.Prelude.{
  ℕ, ◌+◌, Bool, true, false, not, ◌&&◌, ◌||◌, String, Option, none, some, List, [], ◌∷◌, ◌==◌,
  string_eq, nat_eq, pair_eq, option_eq, ltb, min, Result, ok, err, ◌>>=◌, ◌>>◌, throw_if, or_throw,
  if◌then◌else◌, find, put, includes,
}
use threadmesh.States.{Decision, ReasonCode, decision_eq}
use threadmesh.Vocabulary.{Instant, millis, nan, instant_le}
use threadmesh.Disposition.{default_decision_reasons}
use threadmesh.Coordinator.{
  Key, Disposition, MessageRow, claimed, acknowledged, ClaimRow, EventType, Db, Principal, Error,
  assert_task_principal, assert_current_authorization, assert_not_expired, message_at, audited,
}
use threadmesh.Coordinator.Mailbox.{respond}

pub record Claimed : Type 0 where
  pub replay : Bool
  pub claim_token : String
  pub expected_revision : ℕ
  pub expires_at : Instant

abbrev pub claim_result : Bool → ClaimRow → Claimed
claim_result replay c = record {
  replay = replay;
  claim_token = c.claim_token;
  expected_revision = c.expected_revision;
  expires_at = c.expires_at;
}

-- `Date.parse(t) > now`
abbrev pub is_after : Instant → ℕ → Bool
is_after (millis t) now = ltb now t
is_after nan now = false

-- `new Date(Math.min(Date.parse(expires_at), now + 60_000)).toISOString()`
abbrev pub claim_expiry : Instant → ℕ → Result Error Instant
claim_expiry (millis t) now = ok (millis (min t (now + 60000)))
claim_expiry nan now = err Error.invalid_time_value

-- The UNIQUE constraint on `claim_token`, against the rows of other messages.
unfoldable pub token_is_taken : Key → String → List (Key × ClaimRow) → Bool
token_is_taken key token [] = false
token_is_taken key token ((k, c) ∷ rows) =
    (not (k == key) && c.claim_token == token) || token_is_taken key token rows

-- The tests on an existing claim: its replay, if it is still held.
abbrev pub held_claim : ℕ → Option ClaimRow → Result Error (Option ClaimRow)
held_claim now none = ok none
held_claim now (some c) = elim c.state [
  | claimed ↦ ok (if is_after c.expires_at now then some c else none)
  | acknowledged ↦ err Error.mailbox_already_acknowledged
]

abbrev pub replayed_or_claimed :
    ℕ → Key → MessageRow → ℕ → String → Db → Option ClaimRow → Result Error (Db × Claimed)
replayed_or_claimed now key row expected_revision token db (some c) = ok (db, claim_result true c)
replayed_or_claimed now key row expected_revision token db none = do
  expires_at ← claim_expiry row.envelope.expires_at now
  throw_if (token_is_taken key token db.claims) Error.unique_constraint_failed
  let c : ClaimRow = record {
    receiver = row.envelope.target;
    claim_token = token;
    expected_revision = expected_revision;
    state = claimed;
    expires_at = expires_at;
  }
  ok (
    audited key EventType.mailbox_claimed expected_revision
        (record db { claims = put key c db.claims }),
    claim_result false c,
  )

unfoldable pub claim_pending : ℕ → Key → ℕ → String → Principal → Db → Result Error (Db × Claimed)
claim_pending now key expected_revision token principal db = do
  row ← message_at db key
  assert_task_principal principal row.envelope.target
  assert_current_authorization db now row
  assert_not_expired now row
  throw_if
      (not (row.disposition.revision == expected_revision)
        || not (includes (Decision.pending ∷ Decision.deferred ∷ []) row.disposition.decision))
      Error.revision_or_state_conflict
  held ← held_claim now (find key db.claims)
  replayed_or_claimed now key row expected_revision token db held

abbrev pub is_claimed : ClaimRow → Bool
is_claimed c = elim c.state [ claimed ↦ true | acknowledged ↦ false ]

-- `this.respond(…)` with its default reason; `undefined` is never an allowed reason.
abbrev pub respond_by_default :
    ℕ → Key → Decision → ℕ → Principal → Db → Option ReasonCode → Result Error (Db × Disposition)
respond_by_default now key decision expected_revision principal db none =
    err Error.decision_reason_invalid
respond_by_default now key decision expected_revision principal db (some reason) =
    respond now key decision expected_revision reason principal db

abbrev pub acknowledged_row : ClaimRow → ClaimRow
acknowledged_row c = record c { state = acknowledged }

-- The update of the claim after the response.
abbrev pub mark_acknowledged : Key → ClaimRow → Db × Disposition → Result Error (Db × Disposition)
mark_acknowledged key c (db, d) =
    ok (record db { claims = put key (acknowledged_row c) db.claims }, d)

unfoldable pub acknowledge_pending :
    ℕ → Key → String → Decision → ℕ → Principal → Db → Result Error (Db × Disposition)
acknowledge_pending now key token decision expected_revision principal db = do
  c ← or_throw (find key db.claims) Error.mailbox_claim_invalid
  throw_if
      (not (is_claimed c)
        || (not (c.claim_token == token) || not (c.expected_revision == expected_revision)))
      Error.mailbox_claim_invalid
  assert_task_principal principal c.receiver
  throw_if (instant_le c.expires_at now) Error.mailbox_claim_expired
  respond_by_default now key decision expected_revision principal db
        (default_decision_reasons decision)
      >>= mark_acknowledged key c

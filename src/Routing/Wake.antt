-- ===== src/Routing/Wake.antt =====
-- The cursor consumer of lifecycle events (src/routing/attention-wake.mjs,
-- AttentionWakeCursorConsumer): one reconciliation after a wake, over pages of a durable stream.
-- The three callbacks are a parameter; `read_page` and `handle_event` also get a count of the calls
-- so far, so that they may answer differently each time, and each may throw. They are values of this
-- model: while the source awaits `readPage` and `handleEvent`, nothing else touches the consumer here.
-- So a reconciliation is one that no other `reconcile` of the same consumer overlaps or is nested in. A cursor is a non-negative integer. An error
-- leaves what was committed before it, so the state is a result of every run.
pub mod Stream
pub mod Reconciles
use threadmesh.Prelude.{
  ℕ, zero, suc, ◌+◌, ◌-◌, ◌≡◌, min, Bool, true, false, not, ◌&&◌, ◌||◌, String, Option, none, some,
  List, [], ◌∷◌, ◌++◌, length, includes, ltb, leb, nat_beq, ◌==◌, string_eq, Result, ok, err, ◌>>=◌,
  ◌>>◌, throw_if, if◌then◌else◌,
}
use Prim.Native.String.{◌++◌ as str_append}

-- ATTENTION_WAKE_LIMITS
abbrev pub limit_of_pages : ℕ
limit_of_pages = 4

abbrev pub limit_of_page : ℕ
limit_of_page = 50

abbrev pub limit_of_events : ℕ
limit_of_events = 100

abbrev pub limit_of_seen : ℕ
limit_of_seen = 256

pub record WakeEvent : Type 0 where
  pub cursor : ℕ
  pub event_type : String
  pub sender_incarnation_id : String
  pub message_id : String

pub record Page : Type 0 where
  pub events : List WakeEvent
  pub next_cursor : ℕ

-- What the handler did: it threw, returned `undefined`, two strings, or something else.
pub data HandlerAnswer : Type 0 where
  threw nothing malformed : HandlerAnswer
  gave : String → String → HandlerAnswer

pub record Callbacks : Type 0 where
  pub read_page : ℕ → ℕ → ℕ → Option Page
  pub handle_event : ℕ → WakeEvent → HandlerAnswer
  pub is_relevant : WakeEvent → Option Bool

-- `read_failed`, `relevance_failed` and `handler_threw` are the callbacks' own exceptions, the last one
-- with its event.
pub data WakeError : Type 0 where
  limit_invalid wake_invalid page_invalid identity_invalid result_invalid : WakeError
  read_failed relevance_failed : WakeError
  handler_threw : WakeEvent → WakeError

pub record Consumer : Type 0 where
  pub cursor : ℕ
  pub seen_messages : List String
  pub page_limit : ℕ
  pub max_pages : ℕ
  pub max_events : ℕ

-- assertBoundedInteger
abbrev pub assert_bounded : ℕ → ℕ → Result WakeError (Unit {0})
assert_bounded value maximum = throw_if (ltb value 1 || ltb maximum value) limit_invalid

-- The constructor, its callbacks being functions.
unfoldable pub construct : ℕ → ℕ → ℕ → ℕ → Result WakeError Consumer
construct after_cursor page_limit max_pages max_events = do
  assert_bounded page_limit limit_of_page
  assert_bounded max_pages limit_of_pages
  assert_bounded max_events limit_of_events
  ok (record {
    cursor = after_cursor;
    seen_messages = [];
    page_limit = page_limit;
    max_pages = max_pages;
    max_events = max_events;
  })

-- eventIdentity
abbrev pub identity_of : WakeEvent → String
identity_of e = str_append e.sender_incarnation_id (str_append ":" e.message_id)

abbrev pub has_identity : WakeEvent → Bool
has_identity e = not (e.sender_incarnation_id == "") && not (e.message_id == "")

-- The loop of assertPage, and the cursor that it ends with.
unfoldable pub is_ordered : ℕ → List WakeEvent → Bool
is_ordered cursor [] = true
is_ordered cursor (e ∷ events) =
    ltb cursor e.cursor && (not (e.event_type == "") && is_ordered e.cursor events)

unfoldable pub last_cursor : ℕ → List WakeEvent → ℕ
last_cursor cursor [] = cursor
last_cursor cursor (e ∷ events) = last_cursor e.cursor events

-- assertPage
abbrev pub is_page : Page → ℕ → ℕ → Bool
is_page page after_cursor limit =
    leb (length page.events) limit
    && (is_ordered after_cursor page.events
        && nat_beq page.next_cursor (last_cursor after_cursor page.events))

-- compactSeenMessages: the oldest go first.
unfoldable pub compacted : List String → List String
compacted [] = []
compacted (x ∷ xs) = elim (ltb limit_of_seen (length (x ∷ xs))) [
  | true ↦ compacted xs
  | false ↦ x ∷ xs
]

-- stableHandlerResult
abbrev pub stable_result : WakeEvent → HandlerAnswer → Result WakeError (String × String)
stable_result e threw = err (handler_threw e)
stable_result e nothing = ok ("handled", "attention-wake-handled")
stable_result e malformed = err result_invalid
stable_result e (gave state reason_code) = do
  throw_if (state == "" || reason_code == "") result_invalid
  ok (state, reason_code)

pub record Handled : Type 0 where
  pub cursor : ℕ
  pub message_id : String
  pub result : String × String

-- The consumer's state and the local variables of `reconcile`.
pub record Progress : Type 0 where
  pub cursor : ℕ
  pub seen_messages : List String
  pub handled : List Handled
  pub events_read : ℕ
  pub irrelevant : ℕ
  pub duplicates : ℕ
  pub pages : ℕ

abbrev pub Stopped : Type 0
Stopped = Progress × Option WakeError

abbrev pub committed : WakeEvent → Progress → Result WakeError (String × String) → Stopped
committed e p (err error) = (p, some error)
committed e p (ok result) = (
  record p {
    seen_messages = compacted (p.seen_messages ++ identity_of e ∷ []);
    cursor = e.cursor;
    handled =
        p.handled ++ record { cursor = e.cursor; message_id = e.message_id; result = result } ∷ [];
  },
  none,
)

abbrev pub counted : Progress → Progress
counted p = record p { events_read = p.events_read + 1 }

abbrev pub identified : Callbacks → WakeEvent → Progress → Stopped
identified cb e p =
    if not (has_identity e)
    then (p, some identity_invalid)
    else if includes p.seen_messages (identity_of e)
    then (record p { cursor = e.cursor; duplicates = p.duplicates + 1 }, none)
    else committed e p (stable_result e (cb.handle_event p.events_read e))

abbrev pub judged : Callbacks → WakeEvent → Progress → Option Bool → Stopped
judged cb e p none = (p, some relevance_failed)
judged cb e p (some false) = (record p { cursor = e.cursor; irrelevant = p.irrelevant + 1 }, none)
judged cb e p (some true) = identified cb e p

-- The body of the loop over a page's events.
unfoldable pub consume_event : Callbacks → WakeEvent → Progress → Stopped
consume_event cb e p = judged cb e (counted p) (cb.is_relevant e)

abbrev pub continued : Stopped → (Progress → Stopped) → Stopped
continued (p, some error) next = (p, some error)
continued (p, none) next = next p

unfoldable pub consume : Callbacks → List WakeEvent → Progress → Stopped
consume cb [] p = (p, none)
consume cb (e ∷ events) p = continued (consume_event cb e p) (consume cb events)

pub data Terminal : Type 0 where
  idle reconciled event_budget page_budget : Terminal

pub record Ended : Type 0 where
  pub progress : Progress
  pub terminal : Result WakeError Terminal

abbrev pub ended : Progress → Result WakeError Terminal → Ended
ended p t = record { progress = p; terminal = t }

-- The tests after a page was consumed.
abbrev pub after_page : Consumer → (Progress → Ended) → ℕ → ℕ → Stopped → Ended
after_page c next count limit (p, some error) = ended p (err error)
after_page c next count limit (p, none) =
    if leb c.max_events p.events_read
    then ended p (ok event_budget)
    else if leb c.max_pages p.pages
    then ended p (ok page_budget)
    else if ltb count limit
    then ended p (ok reconciled)
    else next p

abbrev pub read :
    Callbacks → Consumer → (Progress → Ended) → ℕ → Page → Progress → List WakeEvent → Ended
read cb c next limit page p [] = ended p (ok idle)
read cb c next limit page p (e ∷ events) =
    after_page c next (length (e ∷ events)) limit (consume cb (e ∷ events) p)

abbrev pub checked : Callbacks → Consumer → (Progress → Ended) → ℕ → Progress → Option Page → Ended
checked cb c next limit p none = ended p (err read_failed)
checked cb c next limit p (some page) =
    if is_page page p.cursor limit
    then read cb c next limit page (record p { pages = p.pages + 1 }) page.events
    else ended p (err page_invalid)

abbrev pub read_next : Callbacks → Consumer → (Progress → Ended) → Progress → ℕ → Ended
read_next cb c next p limit = checked cb c next limit p (cb.read_page p.pages p.cursor limit)

-- The loop over the pages, with the number of pages that may still be read.
unfoldable pub read_pages : Callbacks → Consumer → ℕ → Progress → Ended
read_pages cb c zero p = ended p (ok idle)
read_pages cb c (suc left) p =
    let next = read_pages cb c left in
    if leb c.max_events p.events_read
    then ended p (ok idle)
    else read_next cb c next p (min c.page_limit (c.max_events - p.events_read))

pub data WakeHint : Type 0 where
  absent_hint malformed_hint : WakeHint
  hint_at : ℕ → WakeHint

pub data WakeDisposition : Type 0 where
  absent stale current : WakeDisposition

-- normalizeWake
abbrev pub normalize_wake : WakeHint → ℕ → Result WakeError WakeDisposition
normalize_wake absent_hint cursor = ok absent
normalize_wake malformed_hint cursor = err wake_invalid
normalize_wake (hint_at at) cursor = ok (if leb at cursor then stale else current)

abbrev pub started : Consumer → Progress
started c = record {
  cursor = c.cursor;
  seen_messages = c.seen_messages;
  handled = [];
  events_read = 0;
  irrelevant = 0;
  duplicates = 0;
  pages = 0;
}

abbrev run_after_hint : Callbacks → Consumer → Result WakeError WakeDisposition → Ended
run_after_hint cb c (err error) = ended (started c) (err error)
run_after_hint cb c (ok d) = read_pages cb c c.max_pages (started c)

-- reconcile, with no other one of the same consumer at the same time
unfoldable pub reconcile : Callbacks → WakeHint → Consumer → Ended
reconcile cb hint c = run_after_hint cb c (normalize_wake hint c.cursor)

-- The consumer that a reconciliation leaves behind.
abbrev pub consumer_after : Consumer → Progress → Consumer
consumer_after c p = record c { cursor = p.cursor; seen_messages = p.seen_messages }

-- ATTENTION_WAKE_REASON_CODES of the report
pub data WakeReason : Type 0 where
  event_budget_exhausted page_budget_exhausted stale_hint was_idle was_reconciled : WakeReason

abbrev pub is_stale : WakeDisposition → Bool
is_stale stale = true
is_stale _ = false

abbrev pub reason_of : Terminal → ℕ → WakeDisposition → WakeReason
reason_of event_budget events_read d = event_budget_exhausted
reason_of page_budget events_read d = page_budget_exhausted
reason_of _ events_read d =
    if nat_beq events_read 0 && is_stale d
    then stale_hint
    else if nat_beq events_read 0
    then was_idle
    else was_reconciled

-- ===== src/Routing/Wake/Reconciles.antt =====
-- Reconciliations of the wake consumer: budgets, order, counts and failing handlers.
use threadmesh.Prelude.{
  ℕ, zero, suc, ◌+◌, ◌-◌, ◌≤◌, ◌≡◌, refl, inl, inr, Bool, true, false, Option, none, some, List, [],
  ◌∷◌, arith, length, min, ltb, leb, string_eq, Result, ok, err, if◌then◌else◌, Bool-cases,
}
use threadmesh.Routing.Wake.{
  Callbacks, Consumer, Page, WakeEvent, WakeError, WakeHint, absent_hint, malformed_hint, hint_at,
  Progress, Stopped, Ended, Terminal, is_ordered, consume, is_page, after_page, read, checked,
  read_pages, started, reconcile, construct, ended,
}
use threadmesh.Routing.Wake.Stream.{Between-le, IsSound, IsKept, consume-Consumes}

-- What a result says about an exception: it is none, or it is one.
abbrev pub exception : Result WakeError Terminal → Option WakeError
exception (ok t) = none
exception (err e) = some e

-- The state after a reconciliation from the cursor `low`, within the budgets of the consumer.
pub record EndsWell (c : Consumer) (low : ℕ) (o : Ended) : Type 0 where
  pub kept : IsKept low o.progress (exception o.terminal)
  pub few_events : o.progress.events_read ≤ c.max_events
  pub few_pages : o.progress.pages ≤ c.max_pages

-- The state between two pages, with the number of pages that may still be read.
record IsReady (c : Consumer) (low left : ℕ) (p : Progress) : Type 0 where
  sound : IsSound low p
  few_events : p.events_read ≤ c.max_events
  all_pages : p.pages + left ≤ c.max_pages

IsSound-IsKept : (low : ℕ) (p : Progress) → IsSound low p → IsKept low p none
IsSound-IsKept low p s = record {
  in_order = s.in_order;
  few_seen = s.few_seen;
  each_counted = s.each_counted;
  replayable = tt;
}

if-EndsWell :
    (c : Consumer) (low : ℕ) (b : Bool) (x y : Ended)
    → EndsWell c low x
    → EndsWell c low y
    → EndsWell c low (if b then x else y)
if-EndsWell c low true x y hx hy = hx
if-EndsWell c low false x y hx hy = hy

module _ (cb : Callbacks) (c : Consumer) (low left : ℕ) (next : Progress → Ended) where
  after_page-EndsWell :
      (count limit : ℕ) (s : Stopped)
      → ((q : Progress) → IsReady c low left q → EndsWell c low (next q))
      → IsKept low s.0 s.1
      → s.0.events_read ≤ c.max_events
      → s.0.pages + left ≤ c.max_pages
      → EndsWell c low (after_page c next count limit s)
  after_page-EndsWell count limit (p, some error) well kept few pages = record {
    kept = kept;
    few_events = few;
    few_pages = omega (arith, pages);
  }
  after_page-EndsWell count limit (p, none) well kept few pages =
      let goes_on : EndsWell c low (next p) = well p (record {
        sound = record {
          in_order = kept.in_order;
          few_seen = kept.few_seen;
          each_counted = kept.each_counted;
        };
        few_events = few;
        all_pages = pages;
      }) in
      let stops : (t : Terminal) → EndsWell c low (ended p (ok t)) =
        λ t. record { kept = kept; few_events = few; few_pages = omega (arith, pages) } in
      if-EndsWell c low (leb c.max_events p.events_read) _ _ (stops Terminal.event_budget) (
        if-EndsWell c low (leb c.max_pages p.pages) _ _ (stops Terminal.page_budget)
          (if-EndsWell c low (ltb count limit) _ _ (stops Terminal.reconciled) goes_on))

  read-EndsWell :
      (limit : ℕ) (page : Page) (p : Progress) (events : List WakeEvent)
      → ((q : Progress) → IsReady c low left q → EndsWell c low (next q))
      → IsReady c low left p
      → is_ordered p.cursor events ≡ true
      → p.events_read + length events ≤ c.max_events
      → EndsWell c low (read cb c next limit page p events)
  read-EndsWell limit page p [] well ready ordered few = record {
    kept = IsSound-IsKept low p ready.sound;
    few_events = ready.few_events;
    few_pages = omega (arith, ready.all_pages);
  }
  read-EndsWell limit page p (e ∷ events) well ready ordered few =
      let consumed = consume-Consumes cb low (e ∷ events) p ready.sound ordered in
      after_page-EndsWell (length (e ∷ events)) limit (consume cb (e ∷ events) p) well consumed.kept
        (omega (arith, consumed.few_read, few))
        (omega (arith, consumed.same_pages, ready.all_pages))

  checked-EndsWell :
      (limit : ℕ) (p : Progress) (o : Option Page)
      → ((q : Progress) → IsReady c low left q → EndsWell c low (next q))
      → IsReady c low (suc left) p
      → p.events_read + limit ≤ c.max_events
      → EndsWell c low (checked cb c next limit p o)
  checked-EndsWell limit p none well ready few = record {
    kept = record {
      in_order = ready.sound.in_order;
      few_seen = ready.sound.few_seen;
      each_counted = tt;
      replayable = tt;
    };
    few_events = ready.few_events;
    few_pages = omega (arith, ready.all_pages);
  }
  checked-EndsWell limit p (some page) well ready few =
      elim (Bool-cases (is_page page p.cursor limit)) [
        | inr bad ↦ rw bad (record {
          kept = record {
            in_order = ready.sound.in_order;
            few_seen = ready.sound.few_seen;
            each_counted = tt;
            replayable = tt;
          };
          few_events = ready.few_events;
          few_pages = omega (arith, ready.all_pages);
        })
        | inl good ↦ rw good (
            read-EndsWell limit page (record p { pages = p.pages + 1 }) page.events well
              (record {
                sound = record {
                  in_order = ready.sound.in_order;
                  few_seen = ready.sound.few_seen;
                  each_counted = ready.sound.each_counted;
                };
                few_events = ready.few_events;
                all_pages = omega (arith, ready.all_pages);
              })
              (ground arith) (ground arith))
      ]

read_pages-EndsWell :
    (cb : Callbacks) (c : Consumer) (low left : ℕ) (p : Progress)
    → IsReady c low left p
    → EndsWell c low (read_pages cb c left p)
unfolding read_pages
read_pages-EndsWell cb c low zero p ready = record {
  kept = IsSound-IsKept low p ready.sound;
  few_events = ready.few_events;
  few_pages = omega (arith, ready.all_pages);
}
read_pages-EndsWell cb c low (suc left) p ready =
    elim (Bool-cases (leb c.max_events p.events_read)) [
      | inl full ↦ rw full (record {
        kept = IsSound-IsKept low p ready.sound;
        few_events = ready.few_events;
        few_pages = omega (arith, ready.all_pages);
      })
      | inr room ↦ rw room (
          checked-EndsWell cb c low left (read_pages cb c left)
            (min c.page_limit (c.max_events - p.events_read)) p _
            (read_pages-EndsWell cb c low left) ready (ground arith))
    ]

-- A reconciliation of a consumer that has seen at most 256 messages, whatever pages, judgements and
-- results the callbacks give or throw, if they do not touch the consumer and no other reconciliation of
-- it overlaps: it reads at most `maxPages` pages and `maxEvents` events; it never moves the cursor back and handles events in the order of strictly increasing cursors above
-- the one it started at; it remembers at most 256 messages; without an exception every event that it
-- read is handled, irrelevant or a duplicate; and if a handler throws, its event is still ahead of
-- the cursor and not among the messages seen.
pub reconcile-EndsWell :
    (cb : Callbacks) (hint : WakeHint) (c : Consumer)
    → length c.seen_messages ≤ 256
    → EndsWell c c.cursor (reconcile cb hint c)
unfolding reconcile
reconcile-EndsWell cb hint c few = by_hint hint
  where
    ready : IsReady c c.cursor c.max_pages (started c)
    ready = record {
      sound = record { in_order = omega arith; few_seen = few; each_counted = refl };
      few_events = omega arith;
      all_pages = omega arith;
    }

    by_hint : (hint : WakeHint) → EndsWell c c.cursor (reconcile cb hint c)
    by_hint malformed_hint = record {
      kept = record { in_order = omega arith; few_seen = few; each_counted = tt; replayable = tt };
      few_events = omega arith;
      few_pages = omega arith;
    }
    by_hint absent_hint = read_pages-EndsWell cb c c.cursor c.max_pages (started c) ready
    by_hint (hint_at at) = read_pages-EndsWell cb c c.cursor c.max_pages (started c) ready

construct_bounds :
    (after_cursor page_limit max_pages max_events : ℕ) (c : Consumer)
    → construct after_cursor page_limit max_pages max_events ≡ ok c
    → (c.max_pages ≤ 4) × (c.max_events ≤ 100) × (c.cursor ≡ after_cursor) × (c.seen_messages ≡ [])
unfolding construct
construct_bounds after_cursor page_limit max_pages max_events c h = ground arith

-- The first reconciliation of a consumer that the constructor accepts, whatever pages, judgements and
-- results the callbacks give or throw, if they do not touch the consumer and no other reconciliation of
-- it overlaps, reads at most 4 pages and 100 events, and leaves the cursor at or after the one it was given.
pub construct-reconcile_bounds :
    (cb : Callbacks) (hint : WakeHint) (after_cursor page_limit max_pages max_events : ℕ)
    (c : Consumer)
    → construct after_cursor page_limit max_pages max_events ≡ ok c
    → ((reconcile cb hint c).progress.pages ≤ 4)
      × ((reconcile cb hint c).progress.events_read ≤ 100)
      × (after_cursor ≤ (reconcile cb hint c).progress.cursor)
construct-reconcile_bounds cb hint after_cursor page_limit max_pages max_events c h =
    let (few_pages, few_events, from, fresh) =
      construct_bounds after_cursor page_limit max_pages max_events c h in
    let well = reconcile-EndsWell cb hint c (rw fresh (omega arith)) in
    (
      omega (arith, well.few_pages, few_pages),
      omega (arith, well.few_events, few_events),
      omega (arith, from, Between-le c.cursor _ _ well.kept.in_order),
    )

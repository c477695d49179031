-- ===== src/Routing/Wake/Stream.antt =====
-- The loop of the wake consumer over the events of one page.
use threadmesh.Prelude.{
  ℕ, ◌+◌, ◌≤◌, ◌<◌, ◌≡◌, refl, ap, ◌∙◌, inl, inr, true, false, String, Option, none, some, List, [],
  ◌∷◌, ◌++◌, arith, length, length-append, includes, string_eq, Result, ok, err, Bool, Bool-cases,
}
use mathlib.Core.Path.{subst}
use threadmesh.Routing.Wake.{
  Callbacks, WakeEvent, WakeError, handler_threw, limit_invalid, wake_invalid, page_invalid,
  identity_invalid, result_invalid, read_failed, relevance_failed, judged, has_identity, counted,
  identified, Progress, Handled, Stopped, identity_of, compacted, is_ordered, HandlerAnswer,
  stable_result, committed, consume_event, continued, consume,
}

-- The events that were handled have increasing cursors above `low`, the last at most `high`.
abbrev pub Between : ℕ → List Handled → ℕ → Type 0
Between low [] high = low ≤ high
Between low (h ∷ hs) high = (low < h.cursor) × Between h.cursor hs high

pub Between-mono :
    (low : ℕ) (hs : List Handled) (a b : ℕ) → Between low hs a → a ≤ b → Between low hs b
Between-mono low [] a b h le = omega (arith, h, le)
Between-mono low (x ∷ hs) a b h le = (h.0, Between-mono x.cursor hs a b h.1 le)

pub Between-append :
    (low : ℕ) (hs : List Handled) (a : ℕ) (x : Handled)
    → Between low hs a
    → a < x.cursor
    → Between low (hs ++ x ∷ []) x.cursor
Between-append low [] a x h lt = (omega (arith, h, lt), omega arith)
Between-append low (y ∷ hs) a x h lt = (h.0, Between-append y.cursor hs a x h.1 lt)

pub Between-le : (low : ℕ) (hs : List Handled) (high : ℕ) → Between low hs high → low ≤ high
Between-le low [] high h = h
Between-le low (x ∷ hs) high h = omega (arith, h.0, Between-le x.cursor hs high h.1)

pub length-compacted : (xs : List String) → length (compacted xs) ≤ 256
unfolding compacted
length-compacted [] = omega arith
length-compacted (x ∷ xs) = ground (arith, length-compacted xs)

-- Every event that was read is counted once.
abbrev pub IsCounted : Progress → Type 0
IsCounted p = p.events_read ≡ length p.handled + p.irrelevant + p.duplicates

-- After an exception, the event that was being read is not counted.
abbrev pub IsCountedAt : Progress → Option WakeError → Type 0
IsCountedAt p none = IsCounted p
IsCountedAt p (some e) = Unit

-- What holds between two events.
pub record IsSound (low : ℕ) (p : Progress) : Type 0 where
  pub in_order : Between low p.handled p.cursor
  pub few_seen : length p.seen_messages ≤ 256
  pub each_counted : IsCounted p

-- What holds after an exception: the state is as it was before the event that the handler was called
-- with, which is still ahead of the cursor and not among those seen.
abbrev pub IsReplayable : Progress → Option WakeError → Type 0
IsReplayable p none = Unit
IsReplayable p (some (handler_threw e)) =
    (p.cursor < e.cursor) × (includes p.seen_messages (identity_of e) ≡ false)
IsReplayable p (some _) = Unit

-- What a stop keeps: without an exception, every event counted.
pub record IsKept (low : ℕ) (q : Progress) (r : Option WakeError) : Type 0 where
  pub in_order : Between low q.handled q.cursor
  pub few_seen : length q.seen_messages ≤ 256
  pub each_counted : IsCountedAt q r
  pub replayable : IsReplayable q r

record StepsTo (cb : Callbacks) (low : ℕ) (e : WakeEvent) (p q : Progress) (r : Option WakeError)
    : Type 0 where
  kept : IsKept low q r
  at_event : r ≡ none → q.cursor ≡ e.cursor
  one_read : q.events_read ≡ p.events_read + 1
  same_pages : q.pages ≡ p.pages

stable_result-threw :
    (e f : WakeEvent) (a : HandlerAnswer) → stable_result e a ≡ err (handler_threw f) → f ≡ e
stable_result-threw e f a h = ground arith

IsReplayable-at :
    (e : WakeEvent) (q : Progress) (error : WakeError)
    → q.cursor < e.cursor
    → includes q.seen_messages (identity_of e) ≡ false
    → ((f : WakeEvent) → error ≡ handler_threw f → f ≡ e)
    → IsReplayable q (some error)
IsReplayable-at e q (handler_threw f) ahead unseen same = rw (same f refl) (ahead, unseen)
IsReplayable-at e q limit_invalid ahead unseen same = tt
IsReplayable-at e q wake_invalid ahead unseen same = tt
IsReplayable-at e q page_invalid ahead unseen same = tt
IsReplayable-at e q identity_invalid ahead unseen same = tt
IsReplayable-at e q result_invalid ahead unseen same = tt
IsReplayable-at e q read_failed ahead unseen same = tt
IsReplayable-at e q relevance_failed ahead unseen same = tt

committed-StepsTo :
    (cb : Callbacks) (low : ℕ) (e : WakeEvent) (p q : Progress) (a : HandlerAnswer)
    → IsSound low p
    → p.cursor < e.cursor
    → includes p.seen_messages (identity_of e) ≡ false
    → q ≡ record p { events_read = p.events_read + 1 }
    → StepsTo cb low e p (committed e q (stable_result e a)).0 (committed e q (stable_result e a)).1
committed-StepsTo cb low e p q a sound ahead unseen is = go (stable_result e a) refl
  where
    ahead_now : q.cursor < e.cursor
    ahead_now = rw is ahead

    unseen_now : includes q.seen_messages (identity_of e) ≡ false
    unseen_now = rw is unseen

    go :
        (m : Result WakeError (String × String))
        → stable_result e a ≡ m
        → StepsTo cb low e p (committed e q m).0 (committed e q m).1
    go (ok result) ran = record {
      kept = record {
        in_order = rw is (Between-append low p.handled p.cursor _ sound.in_order ahead);
        few_seen = length-compacted (q.seen_messages ++ identity_of e ∷ []);
        each_counted = rw is (
            omega (
              arith,
              sound.each_counted,
              length-append p.handled
                  (record { cursor = e.cursor; message_id = e.message_id; result = result } ∷ []),
            ));
        replayable = tt;
      };
      at_event = λ _. refl;
      one_read = ground arith;
      same_pages = ground arith;
    }
    go (err error) ran = record {
      kept = record {
        in_order = rw is sound.in_order;
        few_seen = rw is sound.few_seen;
        each_counted = tt;
        replayable =
            IsReplayable-at e q error ahead_now unseen_now
              λ f same. stable_result-threw e f a (ran ∙ ap err same);
      };
      at_event = λ h. absurd (ground arith);
      one_read = ground arith;
      same_pages = ground arith;
    }

identified-StepsTo :
    (cb : Callbacks) (low : ℕ) (e : WakeEvent) (p : Progress)
    → IsSound low p
    → p.cursor < e.cursor
    → StepsTo cb low e p (identified cb e (counted p)).0 (identified cb e (counted p)).1
identified-StepsTo cb low e p sound ahead = elim (Bool-cases (has_identity e)) [
  | inr bad ↦ rw bad (record {
    kept = record {
      in_order = sound.in_order;
      few_seen = sound.few_seen;
      each_counted = tt;
      replayable = tt;
    };
    at_event = λ h. absurd (ground arith);
    one_read = refl;
    same_pages = refl;
  })
  | inl good ↦ elim (Bool-cases (includes p.seen_messages (identity_of e))) [
    | inl seen ↦
        rw (good, seen)
          (record {
            kept = record {
              in_order =
                  Between-mono low p.handled p.cursor e.cursor sound.in_order
                    (omega (arith, ahead));
              few_seen = sound.few_seen;
              each_counted = omega (arith, sound.each_counted);
              replayable = tt;
            };
            at_event = λ h. refl;
            one_read = refl;
            same_pages = refl;
          })
    | inr unseen ↦
        rw (good, unseen)
          (committed-StepsTo cb low e p (counted p) (cb.handle_event (p.events_read + 1) e) sound
            ahead unseen refl)
  ]
]

consume_event-StepsTo :
    (cb : Callbacks) (low : ℕ) (e : WakeEvent) (p : Progress)
    → IsSound low p
    → p.cursor < e.cursor
    → StepsTo cb low e p (consume_event cb e p).0 (consume_event cb e p).1
unfolding consume_event
consume_event-StepsTo cb low e p sound ahead = judged-StepsTo (cb.is_relevant e)
  where
    judged-StepsTo :
        (o : Option Bool)
        → StepsTo cb low e p (judged cb e (counted p) o).0 (judged cb e (counted p) o).1
    judged-StepsTo none = record {
      kept = record {
        in_order = sound.in_order;
        few_seen = sound.few_seen;
        each_counted = tt;
        replayable = tt;
      };
      at_event = λ h. absurd (ground arith);
      one_read = refl;
      same_pages = refl;
    }
    judged-StepsTo (some false) = record {
      kept = record {
        in_order =
            Between-mono low p.handled p.cursor e.cursor sound.in_order (omega (arith, ahead));
        few_seen = sound.few_seen;
        each_counted = omega (arith, sound.each_counted);
        replayable = tt;
      };
      at_event = λ h. refl;
      one_read = refl;
      same_pages = refl;
    }
    judged-StepsTo (some true) = identified-StepsTo cb low e p sound ahead

-- A page of ordered events, consumed up to its end or to an exception.
pub record Consumes (low : ℕ) (p : Progress) (count : ℕ) (q : Progress) (r : Option WakeError)
    : Type 0 where
  pub kept : IsKept low q r
  pub few_read : q.events_read ≤ p.events_read + count
  pub same_pages : q.pages ≡ p.pages

pub consume-Consumes :
    (cb : Callbacks) (low : ℕ) (events : List WakeEvent) (p : Progress)
    → IsSound low p
    → is_ordered p.cursor events ≡ true
    → Consumes low p (length events) (consume cb events p).0 (consume cb events p).1
unfolding consume is_ordered
consume-Consumes cb low [] p sound ordered = record {
  kept = record {
    in_order = sound.in_order;
    few_seen = sound.few_seen;
    each_counted = sound.each_counted;
    replayable = tt;
  };
  few_read = omega arith;
  same_pages = refl;
}
consume-Consumes cb low (e ∷ events) p sound ordered =
    go (consume_event cb e p) refl (consume-Consumes cb low events)
  where
    step : StepsTo cb low e p (consume_event cb e p).0 (consume_event cb e p).1
    step = consume_event-StepsTo cb low e p sound (ground arith)

    go :
        (s : Stopped)
        → consume_event cb e p ≡ s
        → ((q : Progress)
            → IsSound low q
            → is_ordered q.cursor events ≡ true
            → Consumes low q (length events) (consume cb events q).0 (consume cb events q).1)
        → Consumes low p
            (length (e ∷ events))
            (continued s (consume cb events)).0
            (continued s (consume cb events)).1
    go (q, some error) ran rest_of =
        let here : StepsTo cb low e p q (some error) =
          subst (λ s. StepsTo cb low e p s.0 s.1) ran step in
        record {
          kept = here.kept;
          few_read = omega (arith, here.one_read);
          same_pages = here.same_pages;
        }
    go (q, none) ran rest_of =
        let here : StepsTo cb low e p q none = subst (λ s. StepsTo cb low e p s.0 s.1) ran step in
        let sound_here : IsSound low q = record {
          in_order = here.kept.in_order;
          few_seen = here.kept.few_seen;
          each_counted = here.kept.each_counted;
        } in
        let rest = rest_of q sound_here (ground (arith, here.at_event refl)) in
        record {
          kept = rest.kept;
          few_read = omega (arith, here.one_read, rest.few_read);
          same_pages = rest.same_pages ∙ here.same_pages;
        }

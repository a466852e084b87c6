-- ===== src/Watch/Resumption.antt =====
-- What a long poll that resumes from a revision returns.
use configraft.Base.{
  ℕ, ◌+◌, ◌^◌, ◌<◌, ◌≡◌, refl, ap, ◌∙◌, Bool, true, false, Option, none, some, List, [], ◌∷◌, arith,
  Int64, slt, is_negative, if◌then◌else◌,
}
use configraft.Base.Bytes.{Bytes}
use configraft.Results.{WatchResult}
use configraft.LevelDb.{Engine, EngineLaws, Readable}
use configraft.Mvcc.{State}
use configraft.Mvcc.Invariant.{IsConsistent}
use configraft.Store
use configraft.Store.Reads.{Models}
use configraft.Store.Replay.{replay_answer, replay_events-make_event}
use configraft.Store.Scan
use configraft.Store.Scan.{Replay}
use configraft.Watch.Hub
use configraft.Watch.Hub.{WatchHub}
use configraft.Watch.Poll
use configraft.Watch.Poll.{is_positive, Course, with_events, CatchUp, caught_up, left, still_behind}
use configraft.Watch.Delivery.{wanted, occurrences}
use configraft.Watch.Activity.{Activity, run_hub, sent_by, Others}
use configraft.Watch.Answers.{answer, waited-answer}

positive_lem : (from : ℕ) → 0 < from → from < 2 ^ 63 → is_positive from ≡ true
positive_lem from p h = ground arith

clamped : (from : ℕ) → from < 2 ^ 63 → (if is_negative from then 0 else from) ≡ from
clamped from h = ground arith

module _ (E : Engine) (key : Bytes) (course : Course E) (w : ℕ) (acts : List Activity) where
  -- What a poll returns after its replay: the events that it missed; if there are none, the events
  -- that it was sent while it waited; or that they are gone.
  abbrev pub resumed : Replay → Option (WatchHub × Bool × WatchResult)
  resumed (Scan.replayed (e ∷ events)) =
      some (Hub.leave course.replay_hub w, true, with_events e events)
  resumed (Scan.replayed []) =
      let current = Store.current_revision E course.exit_db in
      let r = answer course.hub.max_events_per_waiter current (wanted key (sent_by acts)) in
      some (Hub.leave course.wait_hub w, r.0, r.1)
  resumed Scan.compacted =
      some (Hub.leave course.replay_hub w, false, Poll.compacted_result E course.replay_error_db)
  resumed Scan.thrown = none

  registered-resumed :
      (from : ℕ) (replay : Replay)
      → occurrences w course.hub.waiters ≡ 0
      → Others w acts
      → course.wait_hub ≡ run_hub (Hub.enter course.hub w key) acts
      → course.wait_hub.live w ≡ some course.waiter
      → Poll.wait_loop course.wakes ≡ true
      → is_positive from ≡ true
      → Scan.replay_events E course.replay_db from
          (Store.current_revision E course.current_db)
          key
          course.hub.max_events_per_waiter
        ≡ replay
      → Poll.registered E w from key course ≡ resumed replay
  unfolding Poll.registered Poll.replay_phase Poll.after_replay
  registered-resumed from (Scan.replayed []) new others served owned ended p h =
      rw
        (
          Poll.registered,
          Poll.replay_phase,
          p,
          h,
          ended,
          waited-answer E key w course acts new others served owned,
        )
        refl
  registered-resumed from (Scan.replayed (e ∷ events)) new others served owned ended p h =
      rw (Poll.registered, Poll.replay_phase, p, h) refl
  registered-resumed from Scan.compacted new others served owned ended p h =
      rw (Poll.registered, Poll.replay_phase, p, h) refl
  registered-resumed from Scan.thrown new others served owned ended p h =
      rw (Poll.registered, Poll.replay_phase, p, h) refl

module _ (E : Engine) (laws : EngineLaws E) (key : Bytes) (course : Course E) (w : ℕ)
    (acts : List Activity) (s : State) (m : Models E laws course.replay_db s) (c : IsConsistent s)
    (readable : Readable E course.replay_db) where
  -- The poll behind the test for a negative revision.
  poll_from : ℕ → Int64 → Option (WatchHub × Bool × WatchResult)
  poll_from from server_deadline_us =
      elim (Poll.entry_check E from course.entry_db course.entry_error_db) [
        | some r ↦ some (course.hub, false, r)
        | none ↦
            if is_positive from
            then elim (Poll.catch_up E from (Poll.catchup_deadline server_deadline_us course.start)
                course.ticks) [
                  | left b r ↦ some (course.hub, b, r)
                  | still_behind ↦ none
                  | caught_up ↦ Poll.registered E w from key course
                ]
            else Poll.registered E w from key course
      ]

  watch-poll_from :
      (from : ℕ) (server_deadline_us : Int64)
      → Poll.watch E key from server_deadline_us w course
        ≡ poll_from (if is_negative from then 0 else from) server_deadline_us
  unfolding Poll.watch poll_from
  watch-poll_from from server_deadline_us = refl

  poll_from-registered :
      (from : ℕ) (server_deadline_us : Int64)
      → is_positive from ≡ true
      → slt from (Store.compact_rev E course.entry_db) ≡ false
      → Poll.catch_up E from (Poll.catchup_deadline server_deadline_us course.start) course.ticks
        ≡ caught_up
      → poll_from from server_deadline_us ≡ Poll.registered E w from key course
  unfolding poll_from Poll.entry_check
  poll_from-registered from server_deadline_us p kept up =
      rw (poll_from, Poll.entry_check, p, kept, up) (rw p refl)

  watch-registered :
      (from : ℕ) (server_deadline_us : Int64)
      → 0 < from
      → from < 2 ^ 63
      → slt from (Store.compact_rev E course.entry_db) ≡ false
      → Poll.catch_up E from (Poll.catchup_deadline server_deadline_us course.start) course.ticks
        ≡ caught_up
      → Poll.watch E key from server_deadline_us w course ≡ Poll.registered E w from key course
  watch-registered from server_deadline_us p h kept up =
      watch-poll_from from server_deadline_us
      ∙ ap (λ n. poll_from n server_deadline_us) (clamped from h)
      ∙ poll_from-registered from server_deadline_us (positive_lem from p h) kept up

  -- A poll resumes from a revision that the entry test does not find compacted, on a node that has
  -- caught up with it, and its replay reads a readable database with a consistent state. If the
  -- revision of compaction has passed the revision asked for by then, it returns COMPACTED.
  -- Otherwise, if the history behind that revision, up to the current one, has records that it
  -- watches, it returns at once the first of them that its buffer holds, in order and as the events
  -- that were broadcast, with the last one's revision as its anchor. If there are none, then once
  -- its wait has ended it returns exactly the events that were broadcast since it registered and
  -- that it watches, as a poll from now on does, whatever other polls register and leave meanwhile.
  pub watch-replay_answer :
      (from : ℕ) (server_deadline_us : Int64)
      → let current = Store.current_revision E course.current_db in
        0 < from
        → from + 1 < 2 ^ 63
        → current < 2 ^ 63
        → 0 < course.hub.max_events_per_waiter
        → course.hub.max_events_per_waiter < 2 ^ 31
        → slt from (Store.compact_rev E course.entry_db) ≡ false
        → Poll.catch_up E from (Poll.catchup_deadline server_deadline_us course.start) course.ticks
          ≡ caught_up
        → occurrences w course.hub.waiters ≡ 0
        → Others w acts
        → course.wait_hub ≡ run_hub (Hub.enter course.hub w key) acts
        → course.wait_hub.live w ≡ some course.waiter
        → Poll.wait_loop course.wakes ≡ true
        → Poll.watch E key from server_deadline_us w course
          ≡ resumed E key course w acts (
              replay_answer E laws course.replay_db s m c readable from current key
                course.hub.max_events_per_waiter)
  watch-replay_answer from server_deadline_us p h hc h0 hm kept up new others served owned ended =
      watch-registered from server_deadline_us p (omega arith) kept up
      ∙ registered-resumed E key course w acts from _ new others served owned ended
          (positive_lem from p (omega arith))
          (replay_events-make_event E laws course.replay_db s m c readable from _ key
            course.hub.max_events_per_waiter h hc h0 hm)

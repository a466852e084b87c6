-- ===== src/Watch/Poll.antt =====
-- src/watch/watch_hub.cpp, `WatchHub::Watch`: one long poll. What it reads from the store, the clock
-- and its waiter while others run is given by the record `Course`, one field for each point of the
-- code that reads; a course may end before the poll returns.
-- `clamp_timeout` and `poll_deadline` make the deadline of the wait; whether a wait reached it is one
-- of the things observed.
use configraft.Base.{
  ℕ, ◌+◌, ◌*◌, ◌/◌, ◌%◌, ◌^◌, Bool, true, false, not, ◌&&◌, ◌||◌, Option, none, some, List, [], ◌∷◌,
  ltb, ◌==◌, if◌then◌else◌, Int64, is_negative, slt,
}
use configraft.Base.Bytes.{Bytes, codes}
use configraft.Proto.{ok, compacted, internal, WatchEvent}
use configraft.Results.{WatchResult}
use configraft.LevelDb.{Engine}
use configraft.Store
use configraft.Store.Scan
use configraft.Store.Scan.{Replay}
use configraft.Watch.Hub
use configraft.Watch.Hub.{Waiter, WatchHub}

pub record Timespec : Type 0 where
  pub tv_sec : ℕ
  pub tv_nsec : ℕ

-- Of a time after the epoch.
unfoldable pub from_epoch_us : ℕ → Timespec
from_epoch_us us = record { tv_sec = us / 1000000; tv_nsec = (us % 1000000) * 1000 }

unfoldable pub timespec_less : Timespec → Timespec → Bool
timespec_less a b = ltb a.tv_sec b.tv_sec || (a.tv_sec == b.tv_sec && ltb a.tv_nsec b.tv_nsec)

-- `std::clamp<int64_t>(timeout_ms, 1, 60000)`
unfoldable pub clamp_timeout : Int64 → Int64
clamp_timeout t = if slt t 1 then 1 else if slt 60000 t then 60000 else t

abbrev pub is_positive : Int64 → Bool
is_positive v = slt 0 v

-- `from_now` is what `microseconds_from_now` returned.
unfoldable pub poll_deadline : Int64 → Timespec → Timespec
unfolding from_epoch_us timespec_less
poll_deadline server_deadline_us from_now =
    if is_positive server_deadline_us && timespec_less (from_epoch_us server_deadline_us) from_now
    then from_epoch_us server_deadline_us
    else from_now

unfoldable pub catchup_deadline : Int64 → Int64 → Int64
catchup_deadline server_deadline_us now =
    let own = (now + 5000000) % 2 ^ 64 in
    if is_positive server_deadline_us && slt server_deadline_us own then server_deadline_us else own

abbrev pub compacted_message : Bytes
compacted_message = codes "requested revision has been compacted, resume from current_revision"

abbrev pub behind_message : Bytes
behind_message = codes "local node behind requested revision, retry"

abbrev pub overflow_message : Bytes
overflow_message = codes "watch buffer overflow (slow consumer), reconnect with current_revision"

-- The result as `Watch` resets it.
abbrev pub reset_watch : WatchResult
reset_watch = record { code = ok; message = []; current_revision = 0; events = [] }

-- The revision of the last event.
unfoldable pub last_revision : WatchEvent → List WatchEvent → Int64
last_revision e [] = e.revision
last_revision e (f ∷ events) = last_revision f events

-- A result with events: the anchor is the last one's revision.
unfoldable pub with_events : WatchEvent → List WatchEvent → WatchResult
unfolding last_revision
with_events e events = record reset_watch {
  events = e ∷ events;
  current_revision = last_revision e events;
}

-- One round of the catch-up loop, and its wait.
pub record Tick (E : Engine) : Type 0 where
  pub db : E.Db
  pub canceled : Bool
  pub now : Int64
  pub behind_db : E.Db

-- One round of the long poll's loop: the waiter under its lock, and what ended the wait.
pub record Wake : Type 0 where
  pub waiter : Waiter
  pub canceled : Bool
  pub timed_out : Bool

-- What the replay leads to: a result, the wait for events, or an exception of `stoll`.
pub data Answer : Type 0 where
  answered : Bool → WatchResult → Answer
  waits raised : Answer

pub data CatchUp : Type 0 where
  caught_up : CatchUp
  left : Bool → WatchResult → CatchUp
  still_behind : CatchUp

pub record Course (E : Engine) : Type 0 where
  pub entry_db : E.Db
  pub entry_error_db : E.Db
  pub start : Int64
  pub ticks : List (Tick E)
  pub hub : WatchHub
  pub current_db : E.Db
  pub replay_db : E.Db
  pub replay_error_db : E.Db
  pub replay_hub : WatchHub
  pub wakes : List Wake
  pub waiter : Waiter
  pub wait_hub : WatchHub
  pub exit_db : E.Db

-- Whether the loop of the long poll has ended.
unfoldable pub wait_loop : List Wake → Bool
wait_loop [] = false
wait_loop (w ∷ wakes) =
    let rest = wait_loop wakes in
    elim w.waiter.events [
      | e ∷ events ↦ true
      | [] ↦ if w.waiter.overflow || w.canceled || w.timed_out then true else rest
    ]

module _ (E : Engine) where
  unfoldable pub compacted_result : E.Db → WatchResult
  compacted_result d = record reset_watch {
    code = compacted;
    message = compacted_message;
    current_revision = Store.current_revision E d;
  }

  -- The history behind the revision asked for may be gone: the code's first test.
  unfoldable pub entry_check : Int64 → E.Db → E.Db → Option WatchResult
  unfolding compacted_result
  entry_check from d error_db =
      if is_positive from && slt from (Store.compact_rev E d)
      then some (compacted_result error_db)
      else none

  unfoldable pub catch_up : Int64 → Int64 → List (Tick E) → CatchUp
  catch_up from deadline [] = still_behind
  catch_up from deadline (t ∷ ticks) =
      let rest = catch_up from deadline ticks in
      if not (slt (Store.current_revision E t.db) from)
      then caught_up
      else if t.canceled
      then left true reset_watch
      else if not (slt t.now deadline)
      then left false (record reset_watch {
        code = internal;
        message = behind_message;
        current_revision = Store.current_revision E t.behind_db;
      })
      else rest

  unfoldable pub after_replay : E.Db → Replay → Answer
  unfolding with_events compacted_result
  after_replay error_db (Scan.replayed []) = waits
  after_replay error_db (Scan.replayed (e ∷ events)) = answered true (with_events e events)
  after_replay error_db Scan.compacted = answered false (compacted_result error_db)
  after_replay error_db Scan.thrown = raised

  unfoldable pub replay_phase : Int64 → Bytes → ℕ → Course E → Answer
  unfolding after_replay
  replay_phase from key max_events course =
      if is_positive from
      then after_replay course.replay_error_db (
          Scan.replay_events E course.replay_db from (Store.current_revision E course.current_db)
            key max_events)
      else waits

  unfoldable pub wait_result : Waiter → E.Db → Bool × WatchResult
  unfolding with_events
  wait_result w d =
      let current = Store.current_revision E d in
      if w.overflow
      then (
        false,
        record reset_watch {
          code = internal;
          message = overflow_message;
          current_revision = current;
        },
      )
      else elim w.events [
        | [] ↦ (true, record reset_watch { current_revision = current })
        | e ∷ events ↦ (true, with_events e events)
      ]

  -- The part behind the registration of the waiter `w`.
  unfoldable pub registered : ℕ → Int64 → Bytes → Course E → Option (WatchHub × Bool × WatchResult)
  unfolding replay_phase wait_loop wait_result
  registered w from key course =
      let (b, r) = wait_result course.waiter course.exit_db in
      elim (replay_phase from key course.hub.max_events_per_waiter course) [
        | answered c q ↦ some (Hub.leave course.replay_hub w, c, q)
        | waits ↦ if wait_loop course.wakes then some (Hub.leave course.wait_hub w, b, r) else none
        | raised ↦ none
      ]

  unfoldable pub watch :
      Bytes → Int64 → Int64 → ℕ → Course E → Option (WatchHub × Bool × WatchResult)
  unfolding entry_check catch_up registered catchup_deadline
  watch key from_revision server_deadline_us w course =
      let from = if is_negative from_revision then 0 else from_revision in
      elim (entry_check from course.entry_db course.entry_error_db) [
        | some r ↦ some (course.hub, false, r)
        | none ↦
            if is_positive from
            then elim (catch_up from (catchup_deadline server_deadline_us course.start)
                course.ticks) [
                  | left b r ↦ some (course.hub, b, r)
                  | still_behind ↦ none
                  | caught_up ↦ registered w from key course
                ]
            else registered w from key course
      ]

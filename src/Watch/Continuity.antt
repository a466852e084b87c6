-- ===== src/Watch/Continuity.antt =====
-- What a long poll that resumes returns, beside the whole history: the replay of the store and the
-- broadcasts of src/watch/watch_hub.cpp together.
use configraft.Base.{ℕ, Bool, true, ◌||◌, Option, some, List, [], ◌∷◌, map, keep, ltb}
use configraft.Base.Bytes.{Bytes, bytes_eq}
use configraft.LevelDb.{Engine, EngineLaws}
use configraft.Mvcc.{State}
use configraft.Mvcc.Written.{state_after}
use configraft.Proto.{Kv, RaftCmd, WatchEvent}
use configraft.Results.{WatchResult}
use configraft.Store
use configraft.Store.Scan
use configraft.StoreOps.{make_event}
use configraft.Watch.Activity.{Activity}
use configraft.Watch.Answers.{answer}
use configraft.Watch.Hub
use configraft.Watch.Hub.{WatchHub}
use configraft.Watch.Poll
use configraft.Watch.Poll.{Course, with_events}

-- The records that a watcher of `key` waits for; the empty key stands for all.
abbrev pub watched : Bytes → List Kv → List Kv
watched key l = keep (λ kv. bytes_eq key [] || bytes_eq kv.key key) l

abbrev pub behind : ℕ → List Kv → List Kv
behind from l = keep (λ kv. ltb from kv.revision) l

-- The events of the history behind a revision, for a watcher of `key`.
abbrev pub events_behind : ℕ → Bytes → State → List WatchEvent
events_behind from key s = map make_event (watched key (behind from s.history))

module _ (E : Engine) (laws : EngineLaws E) (key : Bytes) (course : Course E) (w : ℕ)
    (acts : List Activity) (start : State) (before during : List RaftCmd) where
  -- The map that the replay reads, and the one when the wait has ended.
  abbrev pub replayed_state : State
  replayed_state = state_after start before

  abbrev pub final_state : State
  final_state = state_after (state_after start before) during

  -- What a poll returns of the events that the replay found, and of all events behind its revision.
  abbrev pub next_events :
      List WatchEvent → List WatchEvent → Option (WatchHub × Bool × WatchResult)
  next_events (e ∷ events) all = some (Hub.leave course.replay_hub w, true, with_events e events)
  next_events [] all =
      let current = Store.current_revision E course.exit_db in
      let r = answer course.hub.max_events_per_waiter current all in
      some (Hub.leave course.wait_hub w, r.0, r.1)

-- ===== src/Checks/Continuities.antt =====
-- A poll that resumes on a store that a command reaches while it waits.
use configraft.Base.{false, List, [], ◌∷◌}
use configraft.LevelDb.Memory.{memory}
use configraft.Proto.{RaftCmd, put}
use configraft.StoreOps.{make_event}
use configraft.Checks.Resumptions
use configraft.Checks.Stores.{second, key}
use configraft.Checks.Watching.{hub}
use configraft.Watch.Activity.{Activity, broadcasts_events, enters, leaves, run_hub}
use configraft.Watch.Hub
use configraft.Watch.Hub.{Waiter}
use configraft.Watch.Poll
use configraft.Watch.Poll.{Course}

abbrev during : List RaftCmd
during = put key [] ∷ []

abbrev acts : List Activity
acts = enters 8 [] ∷ broadcasts_events (make_event second ∷ []) ∷ leaves 8 ∷ []

abbrev woken : Waiter
woken = record { key_filter = key; events = make_event second ∷ []; overflow = false }

abbrev course : Course memory
course = record Resumptions.course {
  wakes = record { waiter = woken; canceled = false; timed_out = false } ∷ [];
  waiter = woken;
  wait_hub = run_hub (Hub.enter hub 7 key) acts;
}

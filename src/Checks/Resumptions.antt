-- ===== src/Checks/Resumptions.antt =====
-- A poll that resumes on a concrete store.
use configraft.Base.{◌≡◌, refl, false, [], ◌∷◌, slt}
use configraft.LevelDb.Memory.{memory}
use configraft.Store
use configraft.Checks.Stores.{run_store, after_publish}
use configraft.Checks.Watching.{key, acts, hub, woken}
use configraft.Watch.Activity.{run_hub}
use configraft.Watch.Hub
use configraft.Watch.Poll
use configraft.Watch.Poll.{Course, caught_up}

abbrev pub course : Course memory
course = record {
  entry_db = after_publish;
  entry_error_db = after_publish;
  start = 0;
  ticks = record { db = after_publish; canceled = false; now = 5; behind_db = after_publish } ∷ [];
  hub = hub;
  current_db = after_publish;
  replay_db = after_publish;
  replay_error_db = after_publish;
  replay_hub = hub;
  wakes = record { waiter = woken; canceled = false; timed_out = false } ∷ [];
  waiter = woken;
  wait_hub = run_hub (Hub.enter hub 7 key) acts;
  exit_db = after_publish;
}

pub published_revision : Store.current_revision memory after_publish ≡ 1
unfolding run_store
published_revision = refl

pub not_compacted : slt 1 (Store.compact_rev memory after_publish) ≡ false
unfolding run_store Store.compact_rev
not_compacted = refl

pub course_caught : Poll.catch_up memory 1 (Poll.catchup_deadline 0 0) course.ticks ≡ caught_up
unfolding run_store Poll.catch_up
course_caught = refl

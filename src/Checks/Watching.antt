-- ===== src/Checks/Watching.antt =====
-- The hub and the state machine at concrete machines.
use configraft.Base.{
  ◌≡◌, refl, true, false, none, some, Option, List, [], ◌∷◌, arith, Int64, ℕ, ◌==◌, if◌then◌else◌,
}
use configraft.Base.Bytes.{Bytes, codes, bytes_eq}
use configraft.Proto.{WatchEvent, RaftCmd, put}
use configraft.LevelDb.{Op}
use configraft.LevelDb.Memory.{memory, memory_laws, fresh, fresh_find, memory-Readable, run_memory}
use configraft.Mvcc.{empty}
use configraft.Store
use configraft.Store.Empty.{empty-Models, empty-IsConsistent}
use configraft.Store.Reads.{Models}
use configraft.LocalNode
use configraft.LocalNode.{Local}
use configraft.LocalNode.Cluster.{waited, submitted, apply-on_apply}
use configraft.Results.{fresh_apply}
use configraft.Watch.Hub
use configraft.Watch.Hub.{Waiter, WatchHub}
use configraft.Watch.Poll
use configraft.Watch.Poll.{Course, Wake}
use configraft.Watch.Delivery.{broadcasts, occurrences}
use configraft.Watch.Activity.{Activity, broadcasts_events, enters, leaves, run_hub}
use configraft.Watch.Answers.{answer, watch-broadcasts}
use configraft.StateMachine
use configraft.StateMachine.{Machine, LogEntry, Closure}
use configraft.StateMachine.Replicas.{machine, steps, on_apply-steps}

abbrev pub key : Bytes
key = codes "a"

abbrev pub event : Bytes → Int64 → WatchEvent
event k revision = record {
  revision = revision;
  key = k;
  value = [];
  version = 1;
  type = codes "PUT";
}

-- Another poll registers and leaves between the broadcasts.
abbrev pub acts : List Activity
acts =
    enters 8 []
    ∷ broadcasts_events (event (codes "b") 1 ∷ [])
    ∷ leaves 8
    ∷ broadcasts_events (event key 2 ∷ event key 3 ∷ [])
    ∷ []

abbrev pub hub : WatchHub
hub = record { waiters = []; live = λ w. none; max_events_per_waiter = 2 }

abbrev pub woken : Waiter
woken = record { key_filter = key; events = event key 2 ∷ event key 3 ∷ []; overflow = false }

abbrev course : Course memory
course = record {
  entry_db = fresh;
  entry_error_db = fresh;
  start = 0;
  ticks = [];
  hub = hub;
  current_db = fresh;
  replay_db = fresh;
  replay_error_db = fresh;
  replay_hub = hub;
  wakes = record { waiter = woken; canceled = false; timed_out = false } ∷ [];
  waiter = woken;
  wait_hub = run_hub (Hub.enter hub 7 key) acts;
  exit_db = fresh;
}

pub course_waiter : (run_hub (Hub.enter hub 7 key) acts).live 7 ≡ some woken
unfolding run_hub Hub.broadcast Hub.notify_all Hub.notify Hub.push_events Hub.matches Hub.enter
    Hub.leave Hub.unregister Hub.erase Hub.register Hub.set_live Hub.new_waiter bytes_eq
course_waiter = refl

course_ended : Poll.wait_loop course.wakes ≡ true
unfolding Poll.wait_loop
course_ended = refl

watch-broadcasts_example :
    let left = Hub.leave course.wait_hub 7 in
    let r = answer 2 (Store.current_revision memory fresh) (event key 2 ∷ event key 3 ∷ []) in
    (Poll.watch memory key 0 0 7 course ≡ some (left, r.0, r.1))
    × ((v : ℕ)
        → (occurrences v left.waiters
            ≡ (if 7 == v then 0 else occurrences v course.wait_hub.waiters))
          × (left.live v ≡ (if 7 == v then none else course.wait_hub.live v)))
unfolding bytes_eq
watch-broadcasts_example =
    watch-broadcasts memory key 0 7 course acts refl (refl, (refl, tt)) refl course_waiter
      course_ended

-- A log whose second entry does not parse.
abbrev parse_cmd : Bytes → Option RaftCmd
parse_cmd [] = none
parse_cmd (c ∷ data_bytes) = some (put (c ∷ []) data_bytes)

abbrev entries : List LogEntry
entries =
    record { data_bytes = codes "a1"; done = none }
    ∷ record { data_bytes = []; done = some (record { out = none; error = none }) }
    ∷ []

write_memory : (batch : List Op) → (memory.write fresh batch).1 ≡ true
unfolding run_memory
write_memory batch = refl

on_apply-steps_example :
    let after =
      (StateMachine.on_apply memory parse_cmd (machine memory memory_laws fresh hub 1) entries).0 in
    let expected = steps empty (put key (codes "1") ∷ []) in
    Models memory memory_laws after.store expected.0
    × (after.hub ≡ some (broadcasts hub expected.1))
on_apply-steps_example =
    on_apply-steps memory memory_laws parse_cmd fresh hub 1 empty entries
      (empty-Models memory memory_laws fresh fresh_find) empty-IsConsistent
      (memory-Readable fresh refl, write_memory, tt) (omega arith)

abbrev local : Local memory
local = record { store = fresh; hub = some hub }

apply-on_apply_example :
    let sm : Machine memory = record { store = fresh; hub = some hub; leader_term = 1 } in
    let (sm', closures) =
      StateMachine.on_apply memory parse_cmd sm
        (submitted memory parse_cmd (codes "a1") fresh_apply ∷ []) in
    let (node', result) = LocalNode.apply memory local (put key (codes "1")) in
    (sm'.store ≡ node'.store)
    × (sm'.hub ≡ node'.hub)
    × (waited (codes "error") closures ≡ some result)
apply-on_apply_example =
    apply-on_apply memory parse_cmd local 1 (put key (codes "1")) (codes "a1") (codes "error")
      fresh_apply refl

-- ===== src/Checks/Snapshots.antt =====
-- Snapshots of concrete machines.
use configraft.Base.{
  ◌≡◌, refl, ap, sym, subst, ◌∙◌, Bool, true, false, none, some, Option, List, [], ◌∷◌, arith,
}
use configraft.Base.Bytes.{Bytes, codes}
use configraft.Proto.{RaftCmd, publish, SnapshotData}
use configraft.LevelDb.{Op, Readable}
use configraft.LevelDb.Memory.{
  Memory, memory, memory_laws, fresh, fresh_find, memory-Readable, run_memory, stays_readable,
}
use configraft.Store.Handle
use configraft.Store.Handle.{Opening, opened, refused, Directory, DirectoryLaws}
use configraft.Store.Snapshot
use configraft.Store.Snapshot.{Loaded, loaded, not_loaded, closed, threw}
use configraft.LevelDb.Sorted.{Entries}
use configraft.Store.Transfer.{Restored}
use configraft.StoreOps
use configraft.StateMachine
use configraft.StateMachine.{Machine, LogEntry}
use configraft.StateMachine.Recovery.{on_snapshot_load-save_snapshot}
use configraft.StateMachine.Replicas.{machine}
use configraft.StateMachine.Snapshots
use configraft.StateMachine.Snapshots.{SnapshotFiles, FileLaws}
use configraft.Watch.Hub.{WatchHub}
use configraft.Checks.Stores.{run_store}

-- One file, and whether it has been added.
abbrev files : SnapshotFiles
files = record {
  Dir = Option SnapshotData × Bool;
  save = λ dir path out. ((some out, dir.1), true);
  add_file = λ dir name. ((dir.0, true), true);
  has_meta = λ dir name. dir.1;
  load = λ dir path. dir.0;
}

files_laws : FileLaws files
files_laws = record {
  load-save = λ dir dir' path out e. ap (λ r. r.0.0) (sym e);
  load-add_file = λ dir dir' name path e. ap (λ r. r.0.0) (sym e);
  has_meta-add_file = λ dir dir' name e. ap (λ r. r.0.1) (sym e);
}

abbrev hub : WatchHub
hub = record { waiters = []; live = λ w. none; max_events_per_waiter = 2 }

-- A log of publications of one letter.
abbrev parse_cmd : Bytes → Option RaftCmd
parse_cmd [] = none
parse_cmd (c ∷ data_bytes) = some (publish (c ∷ []) data_bytes)

abbrev entries : List LogEntry
entries = record { data_bytes = codes "a1"; done = none } ∷ []

abbrev saver : Machine memory
saver = (StateMachine.on_apply memory parse_cmd (machine memory memory_laws fresh hub 1) entries).0

abbrev other : Machine memory
other = record {
  store = record fresh { entries = (codes "k/b", []) ∷ []; sorted = (tt, tt) };
  hub = none;
  leader_term = 0;
}

write_memory :
    (d : Memory) → d.writable ≡ true → (batch : List Op) → (memory.write d batch).1 ≡ true
unfolding run_memory
write_memory d h batch = rw h refl

saver-Readable : Readable memory saver.store
unfolding run_store StateMachine.on_apply StoreOps.apply_cmd_to_store
saver-Readable = memory-Readable saver.store refl

-- A directory whose files are the database itself, and one that cannot be removed.
abbrev disk : Directory memory
disk = record {
  Files = Memory;
  data_dir = codes "data";
  left_by = λ d. d;
  remove_all = λ files. (fresh, true);
  creates = λ files dir. true;
  opens = λ files dir. opened files;
}

abbrev stuck : Directory memory
stuck = record disk { remove_all = λ files. (files, false) }

opened_files : Opening memory → Memory
opened_files (opened d) = d
opened_files (refused err) = fresh

disk_laws : DirectoryLaws memory memory_laws disk
unfolding opened_files
disk_laws = record {
  opens_new = λ old files d gone opens k.
      subst (λ x. memory_laws.find x k ≡ none) (ap (λ r. r.0) gone ∙ ap opened_files opens)
        (fresh_find k);
}

on_snapshot_load-save_snapshot_example :
    (d' : Memory) × (Snapshots.on_snapshot_load files memory disk
        (some (Snapshot.export_snapshot memory saver.store), true)
        (codes "dir")
        other
      ≡ (some (record other { store = d' }), some true))
    × Restored memory saver.store d'
unfolding Snapshots.save_snapshot
on_snapshot_load-save_snapshot_example =
    on_snapshot_load-save_snapshot files files_laws memory memory_laws disk disk_laws parse_cmd
      fresh hub 1 entries (none, false) (some (Snapshot.export_snapshot memory saver.store), true)
      (codes "dir") other fresh fresh fresh_find
      (memory-Readable fresh refl, write_memory fresh refl, tt) (omega arith) saver-Readable refl
      refl refl refl (write_memory fresh refl) (stays_readable fresh refl)

entries_of : Loaded Memory → Entries
entries_of (loaded d) = d.entries
entries_of (not_loaded d) = d.entries
entries_of closed = []
entries_of threw = []

-- An empty snapshot is loaded although the directory was not removed, and the old key survives.
survives :
    entries_of (
      Snapshot.load_snapshot memory stuck other.store
        (record { revision = 0; kvs = []; cfg_kvs = [] }))
    ≡ (codes "k/b", []) ∷ []
unfolding entries_of Snapshot.load_snapshot Handle.open_store run_memory
survives = refl

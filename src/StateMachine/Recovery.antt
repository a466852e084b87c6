-- ===== src/StateMachine/Recovery.antt =====
-- Two machines of src/raft/state_machine.cpp: one saves a snapshot, the other loads it.
use configraft.Base.{
  ◌^◌, ◌<◌, ◌≡◌, refl, subst, ◌∙◌, Bool, true, false, not, Option, none, some, List, [], ◌∷◌,
  if◌then◌else◌, Int64, arith,
}
use configraft.Base.Bytes.{Bytes, codes}
use configraft.Proto.{RaftCmd, SnapshotData}
use configraft.LevelDb.{Engine, EngineLaws, Op, Readable}
use configraft.Mvcc.{empty}
use configraft.Store.Empty.{empty-Models, empty-IsConsistent}
use configraft.Store.Loading.Batch.{OnlyPublished}
use configraft.Store.Published.{apply_cmd-OnlyPublished, empty-OnlyPublished}
use configraft.Store.Handle
use configraft.Store.Handle.{Opening, opened, Directory, DirectoryLaws}
use configraft.Store.Snapshot
use configraft.Store.Snapshot.{Loaded, loaded, not_loaded, closed}
use configraft.Store.Transfer.{Restored, load_snapshot-export_snapshot}
use configraft.StateMachine
use configraft.StateMachine.{Machine, LogEntry, Errno}
use configraft.StateMachine.Replicas.{
  commands, steps, total_cost, Healthy, machine, on_apply-steps, steps-IsConsistent,
}
use configraft.StateMachine.Snapshots
use configraft.StateMachine.Snapshots.{SnapshotFiles, FileLaws, data_file, data_path}
use configraft.Watch.Hub.{WatchHub}

module _ (E : Engine) (laws : EngineLaws E) (parse_cmd : Bytes → Option RaftCmd) where
  parsed-OnlyPublished :
      (sm : Machine E) (entry : LogEntry) (o : Option RaftCmd)
      → OnlyPublished E laws sm.store
      → OnlyPublished E laws (StateMachine.apply_parsed E parse_cmd sm entry.done o).0.store
  unfolding StateMachine.apply_parsed
  parsed-OnlyPublished sm entry none h = h
  parsed-OnlyPublished sm entry (some cmd) h = apply_cmd-OnlyPublished E laws sm.store cmd h

  on_apply-OnlyPublished :
      (sm : Machine E) (entries : List LogEntry)
      → OnlyPublished E laws sm.store
      → OnlyPublished E laws (StateMachine.on_apply E parse_cmd sm entries).0.store
  unfolding StateMachine.on_apply StateMachine.apply_entry
  on_apply-OnlyPublished sm [] h = h
  on_apply-OnlyPublished sm (e ∷ entries) h =
      on_apply-OnlyPublished (StateMachine.apply_entry E parse_cmd sm e).0 entries
        (parsed-OnlyPublished sm e (parse_cmd e.data_bytes) h)

module _ (F : SnapshotFiles) (files : FileLaws F) (E : Engine) where
  -- The two results of a save without an error.
  saved_file :
      (path : Bytes) (store : E.Db) (saved : F.Dir × Bool) (added : F.Dir × Bool) (dir dir' : F.Dir)
      → F.save dir (data_path path) (Snapshot.export_snapshot E store) ≡ saved
      → F.add_file saved.0 data_file ≡ added
      → (if◌then◌else◌ {A = F.Dir × Option (Errno × Bytes)}
          (not saved.1)
          (saved.0, some (StateMachine.eio, codes "fail to save snapshot file"))
          (if not added.1
            then (added.0, some (StateMachine.eio, codes "fail to add snapshot file"))
            else (added.0, none)))
        ≡ (dir', none)
      → (F.has_meta dir' data_file ≡ true)
        × (F.load dir' (data_path path) ≡ some (Snapshot.export_snapshot E store))
  saved_file path store (d1, false) added dir dir' s a e = cc e
  saved_file path store (d1, true) (d2, false) dir dir' s a e = cc e
  saved_file path store (d1, true) (d2, true) dir dir' s a e =
      let same : d2 ≡ dir' = cc e in
      subst
        (λ x.
          (F.has_meta x data_file ≡ true)
          × (F.load x (data_path path) ≡ some (Snapshot.export_snapshot E store)))
        same
        (
          files.has_meta-add_file d1 d2 data_file a,
          files.load-add_file d1 d2 data_file (data_path path) a
              ∙ files.load-save dir d1 (data_path path) _ s,
        )

  module _ (D : Directory E) where
    load_done :
        (target d0 : E.Db) (files : D.Files) (out : SnapshotData)
        → D.remove_all (D.left_by target) ≡ (files, true)
        → D.creates files D.data_dir ≡ true
        → D.opens files D.data_dir ≡ opened d0
        → (E.write d0 (Snapshot.snapshot_ops E out)).1 ≡ true
        → Snapshot.load_snapshot E D target out
          ≡ loaded (E.write d0 (Snapshot.snapshot_ops E out)).0
    unfolding Snapshot.load_snapshot Snapshot.load_into Snapshot.write_snapshot Snapshot.reopen
        Handle.close_store Handle.open_store Handle.keep_db
    load_done target d0 files out gone there opens w = rw (gone, there, opens, w) refl

    loaded_machine :
        (dir : F.Dir) (path : Bytes) (sm : Machine E) (d' : E.Db) (out : SnapshotData)
        → F.has_meta dir data_file ≡ true
        → F.load dir (data_path path) ≡ some out
        → Snapshot.load_snapshot E D sm.store out ≡ loaded d'
        → Snapshots.on_snapshot_load F E D dir path sm
          ≡ (some (record sm { store = d' }), some true)
    unfolding Snapshots.on_snapshot_load Snapshots.load_file Snapshots.finish_load
    loaded_machine dir path sm d' out meta file is_loaded = rw (meta, file, is_loaded) refl

  module _ (laws : EngineLaws E) (D : Directory E) (disk : DirectoryLaws E laws D)
      (parse_cmd : Bytes → Option RaftCmd) where
    -- A machine with a new database applies a log, with revisions below 2 ^ 63 and no failure of LevelDB
    -- on the way, and saves a snapshot without an error. Then another machine loads it, whatever its
    -- store held before; its directory is removed without an error and opens anew, and LevelDB takes
    -- any batch there and stays readable. The load succeeds, and the machine reads what the first
    -- one reads: the records of the main index, deleted ones included, the answers of Get, the
    -- published versions and the revision, which is also its revision of compaction.
    pub on_snapshot_load-save_snapshot :
        (d : E.Db) (hub : WatchHub) (term : Int64) (entries : List LogEntry) (dir dir' : F.Dir)
        (path : Bytes) (other : Machine E) (files_left : D.Files) (d0 : E.Db)
        → let cmds = commands parse_cmd entries in
          let saver = (StateMachine.on_apply E parse_cmd (machine E laws d hub term) entries).0 in
          ((k : Bytes) → laws.find d k ≡ none)
          → Healthy E laws d cmds
          → total_cost cmds < 2 ^ 63
          → Readable E saver.store
          → Snapshots.save_snapshot F E dir path saver.store ≡ (dir', none)
          → D.remove_all (D.left_by other.store) ≡ (files_left, true)
          → D.creates files_left D.data_dir ≡ true
          → D.opens files_left D.data_dir ≡ opened d0
          → ((batch : List Op) → (E.write d0 batch).1 ≡ true)
          → ((batch : List Op) → Readable E (E.write d0 batch).0)
          → (d' : E.Db) × (Snapshots.on_snapshot_load F E D dir' path other
              ≡ (some (record other { store = d' }), some true))
            × Restored E saver.store d'
    unfolding Snapshots.save_snapshot
    on_snapshot_load-save_snapshot d hub term entries dir dir' path other files_left d0 new healthy
          small readable saved gone there opens takes stays =
        let cmds = commands parse_cmd entries in
        let saver = (StateMachine.on_apply E parse_cmd (machine E laws d hub term) entries).0 in
        let out = Snapshot.export_snapshot E saver.store in
        let d' = (E.write d0 (Snapshot.snapshot_ops E out)).0 in
        let (meta, file) = saved_file path saver.store _ _ dir dir' refl refl saved in
        let is_loaded =
          load_done D other.store d0 files_left out gone there opens
            (takes (Snapshot.snapshot_ops E out)) in
        let (models, sent) =
          on_apply-steps E laws parse_cmd d hub term empty entries (empty-Models E laws d new)
            empty-IsConsistent healthy (omega arith) in
        (
          d',
          loaded_machine D dir' path other d' out meta file is_loaded,
          load_snapshot-export_snapshot E laws saver.store (steps empty cmds).0 models
              (steps-IsConsistent empty cmds empty-IsConsistent (omega arith))
              (on_apply-OnlyPublished E laws parse_cmd (machine E laws d hub term) entries
                (empty-OnlyPublished E laws d new))
              readable D disk other.store d' files_left gone is_loaded
              (stays (Snapshot.snapshot_ops E out)),
        )

-- ===== src/StateMachine/Snapshots.antt =====
-- src/raft/state_machine.cpp: saving and loading a snapshot. Where braft keeps the files of a snapshot
-- is a parameter; the reader of a node sees the files that the writer of another left.
use configraft.Base.{not, Bool, true, false, Option, none, some, ◌++◌, ◌≡◌, if◌then◌else◌}
use configraft.Base.Bytes.{Bytes, codes}
use configraft.Proto.{SnapshotData}
use configraft.LevelDb.{Engine}
use configraft.Store.Handle.{Directory}
use configraft.Store.Snapshot
use configraft.Store.Snapshot.{Loaded, loaded, not_loaded, closed, threw}
use configraft.StateMachine.{Machine, Errno, eio}

-- The files of a snapshot and what braft does with them: `save` and `load` of `braft::ProtoBufFile`,
-- `add_file` of the writer, `get_file_meta` of the reader.
pub record SnapshotFiles : Type 1 where
  pub Dir : Type 0
  pub save : Dir → Bytes → SnapshotData → Dir × Bool
  pub add_file : Dir → Bytes → Dir × Bool
  pub has_meta : Dir → Bytes → Bool
  pub load : Dir → Bytes → Option SnapshotData

-- Their documented behaviour: what was saved is loaded, a file that was added has its meta data, and
-- adding one changes no contents.
pub record FileLaws (F : SnapshotFiles) : Type 0 where
  pub load-save :
      (dir dir' : F.Dir) (path : Bytes) (out : SnapshotData)
      → F.save dir path out ≡ (dir', true)
      → F.load dir' path ≡ some out
  pub load-add_file :
      (dir dir' : F.Dir) (name path : Bytes)
      → F.add_file dir name ≡ (dir', true)
      → F.load dir' path ≡ F.load dir path
  pub has_meta-add_file :
      (dir dir' : F.Dir) (name : Bytes)
      → F.add_file dir name ≡ (dir', true)
      → F.has_meta dir' name ≡ true

abbrev pub data_file : Bytes
data_file = codes "data"

abbrev pub data_path : Bytes → Bytes
data_path path = path ++ codes "/data"

module _ (F : SnapshotFiles) (E : Engine) where
  -- The files, and the error of the closure. An open database always exports.
  unfoldable pub save_snapshot : F.Dir → Bytes → E.Db → F.Dir × Option (Errno × Bytes)
  save_snapshot dir path store =
      let (saved, is_saved) = F.save dir (data_path path) (Snapshot.export_snapshot E store) in
      let (added, is_added) = F.add_file saved data_file in
      if not is_saved
      then (saved, some (eio, codes "fail to save snapshot file"))
      else if not is_added
      then (added, some (eio, codes "fail to add snapshot file"))
      else (added, none)

  -- The machine, or `none` if its store was left without a database, and whether it returns 0; an
  -- exception of the store leaves it without a return.
  unfoldable pub finish_load : Machine E → Loaded E.Db → Option (Machine E) × Option Bool
  finish_load sm (loaded d) = (some (record sm { store = d }), some true)
  finish_load sm (not_loaded d) = (some (record sm { store = d }), some false)
  finish_load sm closed = (none, some false)
  finish_load sm threw = (none, none)

module _ (F : SnapshotFiles) (E : Engine) (D : Directory E) where
  unfoldable pub load_file : Machine E → Option SnapshotData → Option (Machine E) × Option Bool
  unfolding finish_load
  load_file sm none = (some sm, some false)
  load_file sm (some out) = finish_load F E sm (Snapshot.load_snapshot E D sm.store out)

  unfoldable pub on_snapshot_load : F.Dir → Bytes → Machine E → Option (Machine E) × Option Bool
  unfolding load_file
  on_snapshot_load dir path sm =
      if not (F.has_meta dir data_file)
      then (some sm, some false)
      else load_file sm (F.load dir (data_path path))

-- ===== src/Store/Snapshot.antt =====
-- src/store/store.cpp, the snapshots: ExportSnapshot and LoadSnapshot.
use configraft.Base.{not, none, some, List, [], ◌∷◌, ◌++◌, if◌then◌else◌, Int64, slt}
use configraft.Base.Bytes.{Bytes, bytes_eq, starts_with}
use configraft.Proto.{Kv, SnapshotData}
use configraft.StoreKey.{
  revision_meta_key, compact_rev_key, config_prefix, main_prefix, main_key, config_key,
  encode_uint64, decode_uint64,
}
use configraft.LevelDb.{Engine, Op}
use configraft.LevelDb.Sorted.{Entries}
use configraft.Store.Handle
use configraft.Store.Handle.{Handle, Opened, done, not_opened, raised, Directory}
use configraft.Store.Write.{revision_op, kv_ops}

-- What `LoadSnapshot` leaves: true with the new database, false with the database that was opened
-- and not written, or false with no database, since the directory did not open, or the exception of
-- `create_directories`, with no database either.
pub data Loaded (Db : Type 0) : Type 0 where
  loaded not_loaded : Db → Loaded Db
  closed threw : Loaded Db

-- The revision at the iterator's position, if it stands on the counter.
unfoldable pub first_revision : Entries → Int64
first_revision [] = 0
first_revision ((k, raw) ∷ entries) = if bytes_eq k revision_meta_key then decode_uint64 raw else 0

module _ (E : Engine) where
  -- The messages under a prefix; a value that does not parse is passed over.
  unfoldable pub parse_loop : Bytes → Entries → List Kv
  parse_loop prefix [] = []
  parse_loop prefix ((k, raw) ∷ entries) =
      let rest = parse_loop prefix entries in
      if not (starts_with prefix k)
      then []
      else elim (E.parse raw) [ none ↦ rest | some kv ↦ kv ∷ rest ]

  -- All reads see one LevelDB snapshot, which is the database given.
  unfoldable pub export_snapshot : E.Db → SnapshotData
  unfolding first_revision parse_loop
  export_snapshot d = record {
    revision = first_revision (E.seek d revision_meta_key);
    kvs = parse_loop main_prefix (E.seek d (main_key []));
    cfg_kvs = parse_loop config_prefix (E.seek d config_prefix);
  }

  unfoldable pub main_ops : List Kv → List Op
  main_ops [] = []
  main_ops (kv ∷ kvs) = kv_ops E kv.revision kv ++ main_ops kvs

  unfoldable pub config_ops : List Kv → List Op
  config_ops [] = []
  config_ops (kv ∷ kvs) = Op.put (config_key kv.key kv.version) (E.serialize kv) ∷ config_ops kvs

  unfoldable pub counter_ops : Int64 → List Op
  counter_ops revision =
      if slt 0 revision
      then revision_op revision ∷ Op.put compact_rev_key (encode_uint64 revision) ∷ []
      else []

  unfoldable pub snapshot_ops : SnapshotData → List Op
  unfolding main_ops config_ops counter_ops
  snapshot_ops s = main_ops s.kvs ++ (config_ops s.cfg_kvs ++ counter_ops s.revision)

  -- The batch, written to the database that was opened.
  unfoldable pub write_snapshot : SnapshotData → E.Db → Loaded E.Db
  unfolding snapshot_ops
  write_snapshot s d =
      let (d', is_written) = E.write d (snapshot_ops s) in
      if is_written then loaded d' else not_loaded d'

  unfoldable pub load_into : SnapshotData → Handle E × Opened E → Loaded E.Db
  unfolding write_snapshot
  load_into s (store, done) = elim store.db [ none ↦ closed | some d ↦ write_snapshot s d ]
  load_into s (store, not_opened err) = closed
  load_into s (store, raised) = threw

module _ (E : Engine) (D : Directory E) where
  -- The database is closed, its directory removed and opened anew; the error code of the removal is
  -- not looked at.
  unfoldable pub reopen : E.Db → Handle E × Opened E
  unfolding Handle.open_store Handle.close_store
  reopen d =
      let (files, is_removed) = D.remove_all (D.left_by d) in
      Handle.open_store E (D.creates files) (D.opens files) D.data_dir
        (Handle.close_store E (record { db = some d; data_dir = D.data_dir }))

  unfoldable pub load_snapshot : E.Db → SnapshotData → Loaded E.Db
  unfolding load_into reopen
  load_snapshot d s = load_into E s (reopen d)

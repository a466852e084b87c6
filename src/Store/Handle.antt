-- ===== src/Store/Handle.antt =====
-- src/store/store.cpp: opening and closing the database. What LevelDB and the file system answer
-- are parameters.
use configraft.Base.{Bool, true, ◌≡◌, Option, none, some, [], if◌then◌else◌}
use configraft.Base.Bytes.{Bytes}
use configraft.LevelDb.{Engine, EngineLaws}

module _ (E : Engine) where
  -- `leveldb::DB::Open`: a database, or the text of its status.
  pub data Opening : Type 0 where
    opened : E.Db → Opening
    refused : Bytes → Opening

  -- The fields of `Store`; `db` is `none` before `Open` and after `Close`.
  pub record Handle : Type 0 where
    pub db : Option E.Db
    pub data_dir : Bytes

  abbrev pub new_handle : Handle
  new_handle = record { db = none; data_dir = [] }

  -- What `Open` returns: true, or false with `*err`, or an exception of `create_directories`.
  pub data Opened : Type 0 where
    done : Opened
    not_opened : Bytes → Opened
    raised : Opened

  -- `OpenLocked`, which replaces the database only if the new one opens.
  unfoldable pub keep_db : Bytes → Handle → Opening → Handle × Opened
  keep_db data_dir store (opened d) = (record store { db = some d; data_dir = data_dir }, done)
  keep_db data_dir store (refused err) = (store, not_opened err)

  unfoldable pub open_store : (Bytes → Bool) → (Bytes → Opening) → Bytes → Handle → Handle × Opened
  unfolding keep_db
  open_store creates opens data_dir store =
      if creates data_dir then keep_db data_dir store (opens data_dir) else (store, raised)

  unfoldable pub close_store : Handle → Handle
  close_store store = record store { db = none }

-- The directory of a database, on the disk.
--   left_by: the files that a database leaves when it is closed
--   remove_all: `std::filesystem::remove_all`, with whether its error code is clear
--   creates: whether `create_directories` returns and does not throw
--   opens: `leveldb::DB::Open` on the files
pub record Directory (E : Engine) : Type 1 where
  pub Files : Type 0
  pub data_dir : Bytes
  pub left_by : E.Db → Files
  pub remove_all : Files → Files × Bool
  pub creates : Files → Bytes → Bool
  pub opens : Files → Bytes → Opening E

-- Its documented behaviour: what was removed without an error opens as a new database.
pub record DirectoryLaws (E : Engine) (laws : EngineLaws E) (D : Directory E) : Type 0 where
  pub opens_new :
      (old files : D.Files) (d : E.Db)
      → D.remove_all old ≡ (files, true)
      → D.opens files D.data_dir ≡ opened d
      → (k : Bytes) → laws.find d k ≡ none

-- ===== src/Store.antt =====
-- src/store/store.h, src/store/store.cpp: the store over one LevelDB database. An operation takes
-- the database and returns it, and is what its `...Locked` function does; the locks are not
-- modelled. This file has the point reads, its children the rest.
pub mod Handle
pub mod Write
pub mod Scan
pub mod Snapshot
pub mod Contents
pub mod Reads
pub mod Refine
pub mod RefineMore
pub mod RefineBatch
pub mod Empty
pub mod History
pub mod Replay
pub mod Resume
pub mod RoundTrip
pub mod Listing
pub mod Loading
pub mod Transfer
pub mod Published
pub mod Compaction
use configraft.Base.{
  true, false, ◌||◌, Option, none, some, ◌==◌, if◌then◌else◌, Int64, is_negative, increment,
}
use configraft.Base.Bytes.{Bytes}
use configraft.Proto.{Kv, Code, key_not_found, version_not_found, internal}
use configraft.StoreKey.{revision_meta_key, compact_rev_key, main_key, config_key, decode_uint64}
use configraft.LevelDb.{Engine, Read, found, not_found, failed}

-- What `Get` and `GetConfig` return: true with `*out`, or false with `*code`.
pub data Lookup : Type 0 where
  hit : Kv → Lookup
  miss : Code → Lookup

-- What `Get` makes of the main index: a tombstone is no key.
unfoldable pub live : Option Kv → Lookup
live none = miss key_not_found
live (some kv) = if kv.deleted then miss key_not_found else hit kv

-- What `GetConfig` makes of a stored value, which may not parse.
unfoldable pub config_record : Option Kv → Lookup
config_record none = miss internal
config_record (some kv) = if kv.deleted then miss version_not_found else hit kv

module _ (E : Engine) where
  -- `ReadMainLocked`: any status but OK reads as an absent key.
  unfoldable pub read_main : E.Db → Bytes → Option Kv
  read_main d key = elim (E.get d (main_key key)) [
    | found raw ↦ E.parse raw
    | not_found ↦ none
    | failed ↦ none
  ]

  -- `CurrentRevisionLocked`: any status but OK reads as 0.
  unfoldable pub current_revision : E.Db → Int64
  current_revision d = elim (E.get d revision_meta_key) [
    | found raw ↦ decode_uint64 raw
    | not_found ↦ 0
    | failed ↦ 0
  ]

  unfoldable pub compact_rev : E.Db → Int64
  compact_rev d = elim (E.get d compact_rev_key) [
    | found raw ↦ decode_uint64 raw
    | not_found ↦ 0
    | failed ↦ 0
  ]

  -- The number that `NextRevisionLocked` returns; `revision_op` is what it puts in the batch.
  unfoldable pub next_revision : E.Db → Int64
  next_revision d = increment (current_revision d)

  unfoldable pub get : E.Db → Bytes → Lookup
  unfolding live
  get d key = live (read_main d key)

  -- A version that is not positive asks for the latest one.
  unfoldable pub get_config : E.Db → Bytes → Int64 → Lookup
  unfolding get config_record
  get_config d key version =
      if is_negative version || version == 0
      then get d key
      else elim (E.get d (config_key key version)) [
        | found raw ↦ config_record (E.parse raw)
        | not_found ↦ miss version_not_found
        | failed ↦ miss internal
      ]

-- ===== src/Proto.antt =====
-- src/proto/configraft.proto: the messages that the store, the log and the services exchange. A
-- message is the record of its fields, a `oneof` a data type with a constructor for each field.
use configraft.Base.{Bool, false, List, [], Int64}
use configraft.Base.Bytes.{Bytes}

pub data Code : Type 0 where
  ok key_not_found cas_failed not_leader version_not_found compacted invalid_argument internal :
      Code

pub record Kv : Type 0 where
  pub key : Bytes
  pub value : Bytes
  pub version : Int64
  pub revision : Int64
  pub deleted : Bool

-- A message that nothing has been set in.
abbrev pub empty_kv : Kv
empty_kv = record { key = []; value = []; version = 0; revision = 0; deleted = false }

pub record WatchEvent : Type 0 where
  pub revision : Int64
  pub key : Bytes
  pub value : Bytes
  pub version : Int64
  pub type : Bytes

-- `RaftCmd`; `unset` is a message in which no field of the `oneof` is set.
pub data RaftCmd : Type 0 where
  put : Bytes → Bytes → RaftCmd
  delete : Bytes → RaftCmd
  cas : Bytes → Bytes → Bytes → RaftCmd
  publish : Bytes → Bytes → RaftCmd
  rollback : Bytes → Int64 → RaftCmd
  batch_put : List (Bytes × Bytes) → RaftCmd
  unset : RaftCmd

pub record SnapshotData : Type 0 where
  pub revision : Int64
  pub kvs : List Kv
  pub cfg_kvs : List Kv

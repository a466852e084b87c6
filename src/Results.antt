-- ===== src/Results.antt =====
-- src/raft/node.h: the results that a node returns.
use configraft.Base.{List, [], Int64}
use configraft.Base.Bytes.{Bytes}
use configraft.Proto.{Kv, Code, ok, WatchEvent, empty_kv}

pub record ApplyResult : Type 0 where
  pub code : Code
  pub message : Bytes
  pub kv : Kv
  pub kvs : List Kv
  pub leader_id : Bytes
  pub events : List WatchEvent

pub record GetResult : Type 0 where
  pub code : Code
  pub message : Bytes
  pub kv : Kv
  pub kvs : List Kv
  pub leader_id : Bytes

pub record ConfigResult : Type 0 where
  pub code : Code
  pub message : Bytes
  pub kv : Kv
  pub history : List Kv

pub record WatchResult : Type 0 where
  pub code : Code
  pub message : Bytes
  pub current_revision : Int64
  pub events : List WatchEvent

pub record ConfChangeResult : Type 0 where
  pub code : Code
  pub message : Bytes

-- A result as it is declared, before a call fills it.
abbrev pub fresh_apply : ApplyResult
fresh_apply = record {
  code = ok;
  message = [];
  kv = empty_kv;
  kvs = [];
  leader_id = [];
  events = [];
}

abbrev pub fresh_get : GetResult
fresh_get = record { code = ok; message = []; kv = empty_kv; kvs = []; leader_id = [] }

abbrev pub fresh_config : ConfigResult
fresh_config = record { code = ok; message = []; kv = empty_kv; history = [] }

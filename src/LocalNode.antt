-- ===== src/LocalNode.antt =====
-- src/raft/local_node.cpp: the node of the single-node mode. Its lock makes an operation one step.
-- `Watch` is that of the hub, or an error without one.
pub mod Cluster
pub mod Interface
use mathlib.Core.Option
use configraft.Base.{ℕ, Option, none, some, ◌≡◌, refl, List, [], ◌∷◌, Int64, Int32, ◌∙◌, arith}
use configraft.Base.Bytes.{Bytes, codes}
use configraft.Proto.{
  Code, ok, key_not_found, cas_failed, not_leader, version_not_found, compacted, invalid_argument,
  internal, RaftCmd, empty_kv,
}
use configraft.Results.{
  ApplyResult, GetResult, ConfigResult, WatchResult, ConfChangeResult, fresh_apply, fresh_get,
  fresh_config,
}
use configraft.LevelDb.{Engine}
use configraft.Store
use configraft.Store.{Lookup, hit, miss}
use configraft.Store.Scan
use configraft.StoreOps.{apply_cmd_to_store}
use configraft.StateMachine
use configraft.StateMachine.{Machine, Closure, broadcast_to}
use configraft.Watch.Hub.{WatchHub}
use configraft.Watch.Poll
use configraft.Watch.Poll.{Course}

unfoldable pub version_message : Code → Bytes
version_message version_not_found = codes "version not found"
version_message _ = codes "key not found"

-- A result that the store's `Get` fills.
unfoldable pub local_get : Lookup → GetResult
local_get (miss code) = record fresh_get { code = code; message = codes "key not found" }
local_get (hit kv) = record fresh_get { kv = kv }

unfoldable pub add_peer : Bytes → ConfChangeResult
add_peer peer = record {
  code = internal;
  message = codes "single-node mode does not support membership change";
}

unfoldable pub remove_peer : Bytes → ConfChangeResult
remove_peer peer = record {
  code = internal;
  message = codes "single-node mode does not support membership change";
}

module _ (E : Engine) where
  pub record Local : Type 0 where
    pub store : E.Db
    pub hub : Option WatchHub

  unfoldable pub apply : Local → RaftCmd → Local × ApplyResult
  unfolding broadcast_to
  apply node cmd =
      let (store, result) = apply_cmd_to_store E node.store cmd in
      (record { store = store; hub = broadcast_to node.hub result }, result)

  unfoldable pub get : Local → Bytes → GetResult
  unfolding local_get
  get node key = local_get (Store.get E node.store key)

  unfoldable pub get_config : Local → Bytes → Int64 → ConfigResult
  unfolding version_message
  get_config node key version = elim (Store.get_config E node.store key version) [
    | miss code ↦ record fresh_config { code = code; message = version_message code }
    | hit kv ↦ record fresh_config { kv = kv; history = Scan.get_history E node.store key }
  ]

  unfoldable pub current_revision : Local → Int64
  current_revision node = Store.current_revision E node.store

  -- `none` is an exception.
  unfoldable pub local_compaction : Local → Int32 → Option (Local × ℕ)
  local_compaction node keep_versions = elim (Scan.compaction E node.store keep_versions) [
    | none ↦ none
    | some r ↦ some (record node { store = r.0 }, r.1)
  ]

  -- `Watch` without a hub.
  unfoldable pub no_hub : WatchResult
  no_hub = record Poll.reset_watch { code = internal; message = codes "watch hub unavailable" }

  -- `Watch`; with a hub it is the hub's poll, whose course is given.
  unfoldable pub watch : Local → Bytes → Int64 → Int64 → ℕ → Course E → Option (Local × WatchResult)
  unfolding no_hub
  watch node key from_revision server_deadline_us w course = elim node.hub [
    | none ↦ some (node, no_hub)
    | some hub ↦
        Option.map (λ r. (record node { hub = some r.0 }, r.2))
          (Poll.watch E key from_revision server_deadline_us w course)
  ]

-- ===== src/Server.antt =====
-- src/server/server.h, src/server/server.cpp: the process, put together by Init (Server.Init).
-- What LevelDB, brpc and braft answer are parameters; the log of their calls is part of the state.
pub mod Action
pub mod Init
pub mod Startup
pub mod Cleaning
pub mod Interleaved
pub mod Main
use configraft.Base.{
  ℕ, zero, suc, ◌+◌, ◌-◌, ◌/◌, ◌%◌, ◌^◌, Bool, true, false, not, Option, none, some, List, [], ◌∷◌,
  ◌++◌, ltb, if◌then◌else◌, Int32, is_negative32,
}
use configraft.Base.Bytes.{Bytes, bytes_eq, codes}
use configraft.LevelDb.{Engine}
use configraft.RaftNode.Members
use configraft.RaftNode.Members.{NodeOptions, Started, started, not_started}
use configraft.Store.Handle
use configraft.Store.Handle.{Handle, new_handle, Opening, Opened, done, not_opened, raised}

pub record ServerOptions : Type 0 where
  pub port : Int32
  pub listen_ip : Bytes
  pub data_dir : Bytes
  pub node_name : Bytes
  pub peers : Bytes
  pub election_timeout_ms : Int32
  pub web_dir : Bytes

abbrev pub default_options : ServerOptions
default_options = record {
  port = 8000;
  listen_ip = codes "127.0.0.1";
  data_dir = codes "data";
  node_name = [];
  peers = [];
  election_timeout_ms = 1000;
  web_dir = codes "web";
}

-- `!opts_.node_name.empty()`
unfoldable pub is_cluster : ServerOptions → Bool
is_cluster opts = not (bytes_eq opts.node_name [])

-- The services, and the paths under which brpc serves them.
pub data ServiceKind : Type 0 where
  kv_service config_service watch_service admin_service dashboard_service : ServiceKind

unfoldable pub rest_mappings : ServiceKind → Bytes
rest_mappings kv_service = codes "/v1/kv/* => Rest,"
rest_mappings config_service = codes "/v1/config/* => Rest,"
rest_mappings watch_service = codes "/v1/watch/* => Rest,"
rest_mappings admin_service =
    codes "/healthz => GetHealth,"
    ++ (codes "/addpeer => AddPeer," ++ codes "/removepeer => RemovePeer,")
rest_mappings dashboard_service = codes "/dashboard => Rest," ++ codes "/dashboard/* => Rest,"

unfoldable pub add_message : ServiceKind → Bytes
add_message kv_service = codes "fail to add KVService"
add_message config_service = codes "fail to add ConfigService"
add_message watch_service = codes "fail to add WatchService"
add_message admin_service = codes "fail to add AdminService"
add_message dashboard_service = codes "fail to add DashboardService"

pub record BrpcOptions : Type 0 where
  pub num_threads : ℕ
  pub has_builtin_services : Bool

abbrev pub brpc_options : BrpcOptions
brpc_options = record { num_threads = 4; has_builtin_services = false }

abbrev pub keep_versions : Int32
keep_versions = 10

-- The decimal digits of a number in front of a text; `fuel` digits are enough below `10 ^ fuel`.
unfoldable pub digits_of : ℕ → ℕ → Bytes → Bytes
digits_of zero n text = text
digits_of (suc fuel) n text =
    let shown = (48 + n % 10) ∷ text in
    let rest = digits_of fuel (n / 10) shown in if ltb n 10 then shown else rest

-- `std::to_string` of an `int`, which has ten digits at most.
unfoldable pub to_string : Int32 → Bytes
unfolding digits_of
to_string n = if is_negative32 n then b'-' ∷ digits_of 10 (2 ^ 32 - n) [] else digits_of 10 n []

-- The calls that leave the repository, or that start what runs on its own.
pub data Call : Type 0 where
  opens_store : Bytes → Call
  adds_raft_service : Int32 → Call
  adds_service : ServiceKind → Call
  listens : Int32 → Call
  starts_raft : Call
  starts_compaction : Call

abbrev pub store_dir : ServerOptions → Bytes
store_dir opts = opts.data_dir ++ codes "/data"

abbrev pub group : Bytes
group = codes "configraft"

module _ (E : Engine) where
  pub record Outside : Type 0 where
    pub creates : Bytes → Bool
    pub opens : Bytes → Opening E
    pub adds_raft : Int32 → Bool
    pub adds : ServiceKind → Bytes → Bool
    pub starts : Int32 → BrpcOptions → Bool
    pub is_endpoint : Bytes → Bytes → Bool
    pub is_conf : Bytes → Bool
    pub inits : NodeOptions → Bool

  -- `node_`: the single node with its store, or the cluster node, which has one after its `Init`.
  pub data ServerNode : Type 0 where
    local_mode : Handle E → ServerNode
    raft_mode : Option (Handle E) → ServerNode

  -- The members of `ConfigraftServer`, and the calls in the order in which they were made.
  pub record ConfigraftServer : Type 0 where
    pub opts : ServerOptions
    pub has_hub : Bool
    pub node : Option ServerNode
    pub services : List ServiceKind
    pub calls : List Call

  abbrev pub new_server : ConfigraftServer
  new_server = record {
    opts = default_options;
    has_hub = false;
    node = none;
    services = [];
    calls = [];
  }

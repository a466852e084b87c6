-- ===== src/Server/Main.antt =====
-- src/main/server_main.cpp: the flags of the server, as gflags parses them, and its exit code.
use configraft.Base.{ℕ, Bool, true, [], Int32}
use configraft.Base.Bytes.{Bytes, codes}
use configraft.LevelDb.{Engine}
use configraft.Server.{ServerOptions, Outside, ConfigraftServer, new_server}
use configraft.Server.Action.{Exit, goes_on, fails, throws}
use configraft.Server.Init.{init}

pub record Flags : Type 0 where
  pub port : Int32
  pub listen_ip : Bytes
  pub data_dir : Bytes
  pub node : Bytes
  pub peers : Bytes
  pub election_timeout_ms : Int32
  pub web_dir : Bytes
  pub raft_enable_leader_lease : Bool

-- The values of flags that are not given; that of the lease is braft's.
abbrev pub default_flags : Bool → Flags
default_flags lease = record {
  port = 8000;
  listen_ip = codes "127.0.0.1";
  data_dir = codes "data";
  node = [];
  peers = [];
  election_timeout_ms = 1000;
  web_dir = codes "web";
  raft_enable_leader_lease = lease;
}

-- What `main` sets after the flags are parsed, whatever the command line says of the lease.
unfoldable pub with_lease : Flags → Flags
with_lease flags = record flags { raft_enable_leader_lease = true }

unfoldable pub options_of : Flags → ServerOptions
options_of flags = record {
  port = flags.port;
  listen_ip = flags.listen_ip;
  data_dir = flags.data_dir;
  node_name = flags.node;
  peers = flags.peers;
  election_timeout_ms = flags.election_timeout_ms;
  web_dir = flags.web_dir;
}

module _ (E : Engine) where
  -- The flags and the server when `main` waits for the end, and the exit code if it does not get so
  -- far: 1 after an error of `Init`; `aborted` is an exception.
  pub data Ready : Type 0 where
    runs : Flags → ConfigraftServer E → Ready
    exits : ℕ → Ready
    aborted : Ready

  unfoldable pub exit_of : Flags → ConfigraftServer E × Exit (Unit {0}) → Ready
  exit_of set (server, goes_on u) = runs set server
  exit_of set (server, fails err) = exits 1
  exit_of set (server, throws) = aborted

  unfoldable pub run_main : Outside E → Flags → Ready
  unfolding with_lease options_of init exit_of
  run_main outside flags =
      let set = with_lease flags in exit_of set (init E outside (options_of set) (new_server E))

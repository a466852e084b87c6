-- ===== src/Checks/Servers.antt =====
-- The start of a server and its compaction thread, at concrete inputs.
use configraft.Base.{
  ◌≡◌, ◌≢◌, ◌⊎◌, refl, ◌==◌, not, true, false, some, none, List, [], ◌∷◌, arith, if◌then◌else◌,
}
use configraft.Base.Bytes.{codes, bytes_eq}
use configraft.LevelDb.Memory.{Memory, memory, memory_laws, fresh, stays_steady}
use configraft.Proto.{put, delete}
use configraft.Server.{
  ServerOptions, default_options, store_dir, is_cluster, Outside, ConfigraftServer, new_server,
  local_mode, raft_mode, to_string,
}
use configraft.Server.Action.{goes_on, fails}
use configraft.Server.Cleaning.{Round, ended, compaction_loop}
use configraft.Server.Init.{init, prepare}
use configraft.Server.Interleaved.{Runs, compaction_loop-Runs, compaction_loop-ended}
use configraft.Server.Main.{Flags, default_flags, options_of}
use configraft.Server.Startup.{
  plan, run_calls, store_on, without_value, listens_now, services, init-run_calls, prepare-node,
}
use configraft.Store.Handle
use configraft.Store.Handle.{Handle, opened}
use configraft.Checks.Stores.{
  after_publish, published_state, after_publish-Models, published-IsConsistent,
  after_publish-Readable, key,
}

-- Outside the repository everything is well, but for port 80.
abbrev outside : Outside memory
outside = record {
  creates = λ dir. true;
  opens = λ dir. opened fresh;
  adds_raft = λ port. true;
  adds = λ kind paths. true;
  starts = λ port options. not (port == 80);
  is_endpoint = λ ip port. true;
  is_conf = λ list. not (bytes_eq list []);
  inits = λ options. true;
}

abbrev cluster : ServerOptions
cluster = record default_options { node_name = codes "node1"; peers = codes "127.0.0.1:8000" }

init-run_calls_example :
    (
      (init memory outside cluster (new_server memory)).0.calls,
      (init memory outside cluster (new_server memory)).1,
    )
    ≡ run_calls memory outside cluster (plan cluster)
init-run_calls_example = init-run_calls memory outside cluster

-- A cluster without peers fails after it listens, and starts no compaction.
no_peers :
    (init memory outside (record cluster { peers = [] }) (new_server memory)).1
    ≡ fails (codes "fail to parse peers `'")
unfolding init bytes_eq Handle.open_store is_cluster
no_peers = refl

prepare-node_example :
    let (server, last) = prepare memory outside cluster (new_server memory) in
    let (final, end) = init memory outside cluster (new_server memory) in
    (listens_now memory outside cluster server.calls ≡ false)
      × (without_value last ≡ end)
      × (final ≡ server)
      × (end ≢ goes_on tt)
    ⊎ (listens_now memory outside cluster server.calls ≡ true)
      × (server.services ≡ services memory outside cluster)
      × (d : Memory) × (outside.opens (store_dir cluster) ≡ opened d)
      × (server.node
          ≡ some (
              if is_cluster cluster
              then raft_mode none
              else local_mode (store_on memory outside cluster d)))
      × (final.node
          ≡ some (
              if is_cluster cluster
              then raft_mode (some (store_on memory outside cluster d))
              else local_mode (store_on memory outside cluster d)))
prepare-node_example = prepare-node memory outside cluster

-- A cluster node that listens has no store.
storeless :
    let (server, last) = prepare memory outside cluster (new_server memory) in
    (listens_now memory outside cluster server.calls ≡ true) × (server.node ≡ some (raft_mode none))
unfolding prepare bytes_eq Handle.open_store is_cluster
storeless = (refl, refl)

port_text : to_string 8000 ≡ codes "8000"
unfolding to_string
port_text = refl

-- A server with the default flags.
abbrev flags : Flags
flags = record (default_flags false) { raft_enable_leader_lease = true }

abbrev started_server : ConfigraftServer memory
started_server = (init memory outside (options_of flags) (new_server memory)).0

-- Two waits, in which a key is written and deleted; the second ends with the flag.
abbrev rounds : List Round
rounds =
    record { commands = put key [] ∷ []; stop = false }
    ∷ record { commands = delete key ∷ []; stop = true }
    ∷ []

compaction_loop-Runs_example :
    Runs memory memory_laws after_publish published_state rounds
      (compaction_loop memory false after_publish rounds)
compaction_loop-Runs_example =
    compaction_loop-Runs memory memory_laws stays_steady after_publish published_state
      after_publish-Models published-IsConsistent after_publish-Readable rounds (omega arith)

compaction_loop-ended_example :
    (d' : Memory) × (compaction_loop memory false after_publish rounds ≡ ended d')
compaction_loop-ended_example =
    compaction_loop-ended memory memory_laws stays_steady after_publish published_state
      after_publish-Models published-IsConsistent after_publish-Readable rounds (omega arith) refl

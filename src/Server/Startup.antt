-- ===== src/Server/Startup.antt =====
-- What a start of the server does, whatever LevelDB, brpc and braft answer.
use configraft.Base.{
  ◌≡◌, ◌≢◌, ◌⊎◌, Bool, true, false, none, some, List, [], ◌∷◌, ◌++◌, if◌then◌else◌, arith,
}
use configraft.Base.Bytes.{Bytes, codes}
use configraft.LevelDb.{Engine}
use configraft.RaftNode.Members
use configraft.RaftNode.Members.{Started, started, not_started}
use configraft.Server.{
  ServerOptions, is_cluster, ServiceKind, kv_service, config_service, watch_service, admin_service,
  dashboard_service, rest_mappings, add_message, brpc_options, to_string, Call, opens_store,
  adds_raft_service, adds_service, listens, starts_raft, starts_compaction, store_dir, group,
  Outside, local_mode, raft_mode, new_server,
}
use configraft.Server.Action.{Exit, goes_on, fails, throws}
use configraft.Server.Init
use configraft.Server.Init.{init, prepare}
use configraft.Store.Handle
use configraft.Store.Handle.{Handle, new_handle, Opening, opened, refused}

-- The calls of a start, in order. Only a cluster has a raft service, which is added before the server
-- listens, and a raft node, which starts after it; the compaction starts last.
abbrev pub plan : ServerOptions → List Call
plan opts =
    let services =
      adds_service kv_service
      ∷ adds_service config_service
      ∷ adds_service watch_service
      ∷ adds_service admin_service
      ∷ adds_service dashboard_service
      ∷ [] in
    opens_store (store_dir opts)
    ∷ (if is_cluster opts
        then adds_raft_service opts.port
          ∷ (services ++ (listens opts.port ∷ starts_raft ∷ starts_compaction ∷ []))
        else services ++ (listens opts.port ∷ starts_compaction ∷ []))

-- The text of an exit.
abbrev pub without_value : {A : Type 0} → Exit A → Exit (Unit {0})
without_value (goes_on a) = goes_on tt
without_value (fails err) = fails err
without_value throws = throws

abbrev pub test : Bool → Bytes → Exit (Unit {0})
test true err = goes_on tt
test false err = fails err

module _ (E : Engine) (outside : Outside E) (opts : ServerOptions) where
  -- What the outside answers to one call.
  abbrev pub answer : Call → Exit (Unit {0})
  answer (opens_store dir) =
      if outside.creates dir
      then elim (outside.opens dir) [
        | opened d ↦ goes_on tt
        | refused err ↦ fails (codes "open store " ++ (dir ++ (codes " failed: " ++ err)))
      ]
      else throws
  answer (adds_raft_service port) = test (outside.adds_raft port) (codes "fail to add raft service")
  answer (adds_service kind) = test (outside.adds kind (rest_mappings kind)) (add_message kind)
  answer (listens port) =
      test (outside.starts port brpc_options)
        (codes "fail to start brpc server on port " ++ to_string port)
  answer starts_raft = Init.raft_exit (
      Members.init_node outside.is_endpoint outside.is_conf outside.inits group opts.listen_ip
        (to_string opts.port) opts.peers opts.data_dir opts.election_timeout_ms)
  answer starts_compaction = goes_on tt

  -- Calls one after the other until one is not answered well: those made, and the last answer.
  abbrev pub run_calls : List Call → List Call × Exit (Unit {0})
  run_calls [] = ([], goes_on tt)
  run_calls (call ∷ calls) = elim (answer call) [
    | goes_on u ↦ let (made, last) = run_calls calls in (call ∷ made, last)
    | fails err ↦ (call ∷ [], fails err)
    | throws ↦ (call ∷ [], throws)
  ]

  -- Whatever the outside answers, Init makes the calls of its plan, in order, up to the first that is
  -- not answered well, and returns what that answer means: its own message, or the exception. If all
  -- are answered well it returns true. So brpc listens only after every service has been added, the
  -- raft node of a cluster starts only after brpc listens, and the compaction only after all else.
  pub init-run_calls :
      let (server, last) = init E outside opts (new_server E) in
      (server.calls, last) ≡ run_calls (plan opts)
  unfolding init prepare Init.open_step Init.opened_exit Init.node_step Init.cluster_step
      Init.single_step Init.service_step Init.listen_step Init.raft_step Init.start_raft
      Handle.open_store Handle.keep_db
  init-run_calls = ground arith

  -- The store that `Init` opened.
  abbrev pub store_on : E.Db → Handle E
  store_on d = record { db = some d; data_dir = store_dir opts }

  -- brpc was asked to listen, as the last call that was made, and does.
  abbrev pub listens_now : List Call → Bool
  listens_now [] = false
  listens_now (call ∷ []) = elim call [
    | listens port ↦ outside.starts port brpc_options
    | _ ↦ false
  ]
  listens_now (call ∷ next ∷ calls) = listens_now (next ∷ calls)

  abbrev pub services : List ServiceKind
  services = kv_service ∷ config_service ∷ watch_service ∷ admin_service ∷ dashboard_service ∷ []

  -- Either the first part of Init ends with an error or an exception, brpc does not listen, and Init
  -- ends there. Or brpc listens, and the requests of all services are served from then on: a single
  -- node has the store that was opened, but the node of a cluster has none. Only what Init does
  -- after that gives it the store.
  pub prepare-node :
      let (server, last) = prepare E outside opts (new_server E) in
      let (final, end) = init E outside opts (new_server E) in
      (listens_now server.calls ≡ false)
        × (without_value last ≡ end)
        × (final ≡ server)
        × (end ≢ goes_on tt)
      ⊎ (listens_now server.calls ≡ true)
        × (server.services ≡ services)
        × (d : E.Db) × (outside.opens (store_dir opts) ≡ opened d)
        × (server.node ≡ some (if is_cluster opts then raft_mode none else local_mode (store_on d)))
        × (final.node
            ≡ some (
                if is_cluster opts then raft_mode (some (store_on d)) else local_mode (store_on d)))
  unfolding init prepare Init.open_step Init.opened_exit Init.node_step Init.cluster_step
      Init.single_step Init.service_step Init.listen_step Init.raft_step Init.start_raft
      Handle.open_store Handle.keep_db
  prepare-node = ground arith

  -- After a start that succeeded the node has the store that was opened.
  pub init-node :
      let (server, last) = init E outside opts (new_server E) in
      last ≡ goes_on tt
      → (server.has_hub ≡ true)
        × (d : E.Db) × (outside.opens (store_dir opts) ≡ opened d)
        × (server.node
            ≡ some (
                if is_cluster opts then raft_mode (some (store_on d)) else local_mode (store_on d)))
  unfolding init prepare Init.open_step Init.opened_exit Init.node_step Init.cluster_step
      Init.single_step Init.service_step Init.listen_step Init.raft_step Init.start_raft
      Handle.open_store Handle.keep_db
  init-node h = ground arith

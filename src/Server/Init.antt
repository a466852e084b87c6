-- ===== src/Server/Init.antt =====
-- src/server/server.cpp: ConfigraftServer::Init, and what RaftNode::AddServiceToServer does in it.
use configraft.Base.{true, none, some, [], ◌∷◌, ◌++◌, if◌then◌else◌}
use configraft.Base.Bytes.{Bytes, codes}
use configraft.LevelDb.{Engine}
use configraft.RaftNode.Members
use configraft.RaftNode.Members.{Started, started, not_started}
use configraft.Server.{
  ServerOptions, is_cluster, ServiceKind, kv_service, config_service, watch_service, admin_service,
  dashboard_service, rest_mappings, add_message, brpc_options, to_string, Call, opens_store,
  adds_raft_service, adds_service, listens, starts_raft, starts_compaction, store_dir, group,
  Outside, local_mode, raft_mode, ConfigraftServer,
}
use configraft.Server.Action.{
  Exit, goes_on, fails, throws, Action, ◌>>=◌, ◌>>◌, modify, check, pure,
}
use configraft.Store.Handle
use configraft.Store.Handle.{Handle, new_handle, Opened, done, not_opened, raised}

-- What `Init` makes of the return of the node's `Init`.
unfoldable pub raft_exit : Started → Exit (Unit {0})
raft_exit (started options) = goes_on tt
raft_exit (not_started err) = fails err

module _ (E : Engine) where
  abbrev pub log_call : Call → ConfigraftServer E → ConfigraftServer E
  log_call call server = record server { calls = server.calls ++ (call ∷ []) }

  -- What `Init` makes of the return of `Open`.
  unfoldable pub opened_exit : Bytes → Handle E × Opened E → Exit (Handle E)
  opened_exit dir (store, done) = goes_on store
  opened_exit dir (store, not_opened err) =
      fails (codes "open store " ++ (dir ++ (codes " failed: " ++ err)))
  opened_exit dir (store, raised) = throws

  -- Step 1: the store.
  unfoldable pub open_step : Outside E → ServerOptions → Action (ConfigraftServer E) (Handle E)
  unfolding opened_exit
  open_step outside opts server =
      let dir = store_dir opts in
      (
        log_call (opens_store dir) (record server { opts = opts }),
        opened_exit dir (Handle.open_store E outside.creates outside.opens dir (new_handle E)),
      )

  -- Step 2: the hub and the node; the service of braft is added before the node becomes a member.
  unfoldable pub cluster_step : Outside E → ServerOptions → Action (ConfigraftServer E) (Unit {0})
  cluster_step outside opts = do
    modify (λ server. log_call (adds_raft_service opts.port) (record server { has_hub = true }))
    check (outside.adds_raft opts.port) (codes "fail to add raft service")
    modify (λ server. record server { node = some (raft_mode none) })

  unfoldable pub single_step : Handle E → Action (ConfigraftServer E) (Unit {0})
  single_step store =
      modify (λ server. record server { has_hub = true; node = some (local_mode store) })

  unfoldable pub node_step :
      Outside E → ServerOptions → Handle E → Action (ConfigraftServer E) (Unit {0})
  unfolding cluster_step single_step
  node_step outside opts store =
      if is_cluster opts then cluster_step outside opts else single_step store

  -- Step 3: one service.
  unfoldable pub service_step : Outside E → ServiceKind → Action (ConfigraftServer E) (Unit {0})
  service_step outside kind = do
    modify (λ server.
        log_call (adds_service kind) (record server { services = server.services ++ (kind ∷ []) }))
    check (outside.adds kind (rest_mappings kind)) (add_message kind)

  unfoldable pub listen_step : Outside E → ServerOptions → Action (ConfigraftServer E) (Unit {0})
  listen_step outside opts = do
    modify (log_call (listens opts.port))
    check (outside.starts opts.port brpc_options)
        (codes "fail to start brpc server on port " ++ to_string opts.port)

  -- What `Init` does until the server listens.
  unfoldable pub prepare : Outside E → ServerOptions → Action (ConfigraftServer E) (Handle E)
  unfolding open_step node_step service_step listen_step
  prepare outside opts = do
    store ← open_step outside opts
    node_step outside opts store
    service_step outside kv_service
    service_step outside config_service
    service_step outside watch_service
    service_step outside admin_service
    service_step outside dashboard_service
    listen_step outside opts
    pure store

  -- Step 4: the node of a cluster takes the store and starts.
  unfoldable pub start_raft :
      Outside E → ServerOptions → Handle E → Action (ConfigraftServer E) (Unit {0})
  unfolding raft_exit Members.init_node
  start_raft outside opts store server = (
    log_call starts_raft (record server { node = some (raft_mode (some store)) }),
    raft_exit (
        Members.init_node outside.is_endpoint outside.is_conf outside.inits group opts.listen_ip
          (to_string opts.port) opts.peers opts.data_dir opts.election_timeout_ms),
  )

  unfoldable pub raft_step :
      Outside E → ServerOptions → Handle E → Action (ConfigraftServer E) (Unit {0})
  unfolding start_raft
  raft_step outside opts store = if is_cluster opts then start_raft outside opts store else pure tt

  -- `Init`.
  unfoldable pub init : Outside E → ServerOptions → Action (ConfigraftServer E) (Unit {0})
  unfolding prepare raft_step
  init outside opts = do
    store ← prepare outside opts
    raft_step outside opts store
    modify (log_call starts_compaction)

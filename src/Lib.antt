-- ===== src/Lib.antt =====
-- configraft: a verified model of the configuration store (C++ under src/, messages in proto/).
--
-- A write request becomes a RaftCmd, which every replica applies to its own store, one command
-- after the other; the store keeps current records, a history of all writes and the published
-- versions in one LevelDB database. Reads and replays for watchers go to the same database. The
-- state machine (or the single-node mode, without a log) applies the commands and hands their
-- events to the watch hub, where long polls wait for them. The services turn RPCs and HTTP requests
-- into commands and reads of a node, which is the single-node mode or the cluster node over braft.
--
-- Files and the code that they model:
--   Base: numbers, 64-bit patterns, byte strings and lists that the other files share.
--   StoreKey: src/common/storekey.cpp, the layout of the database's keys (MainKey is main_key,
--     EncodeOrd is encode_ord, and so on).
--   Proto: the messages of proto/configraft.proto; Results: the result structs of src/raft/node.h.
--   LevelDb: LevelDB and the generated protobuf code, which are parameters (Engine) with their
--     documented behaviour as laws (EngineLaws); LevelDb.Memory is an instance for tests.
--   Store: src/store/store.cpp. Store has the point reads, Store.Write the writes, Store.Scan the
--     operations that iterate (GetHistory, ReplayEvents, Compaction), Store.Snapshot the snapshots;
--     an operation is its `...Locked` function. Store.Contents, Store.Reads, Store.Refine,
--     Store.RefineMore and Store.RefineBatch relate them to the map below; Store.RoundTrip is about
--     reads after writes, Store.History, Store.Replay and Store.Resume about ReplayEvents.
--     Store.Handle is the opening and closing of the database.
--     Store.Compaction and its children are about Compaction: Grouped, Dropped, Boundary, Discards
--     and Exact follow its batch, Refined relates it to the map, Result is about reads after it and
--     Watchers about replays after it. Store.Loading and its children are
--     about the batch of a snapshot, Store.Transfer about a store that loaded one,
--     Store.Published about the keys of published records, and Store.Listing and its child about
--     GetHistory.
--   Mvcc: the specification, a versioned map without a database; Mvcc.Invariant is its invariant,
--     Mvcc.Compact what a compaction means for it, Mvcc.Written what commands add to its history.
--   StoreOps: src/store/store_ops.cpp, one command applied; StoreOps.Refine relates it to the map.
--   Watch: src/watch. Watch.Hub has the waiters and Broadcast, Watch.Poll the long poll Watch;
--     Watch.Delivery, Watch.Activity and Watch.Answers are about what reaches a waiter,
--     Watch.Resumption about polls that resume from a revision, Watch.Continuity about these and the
--     commands that run beside them, Watch.Endings about the end of a poll, Watch.Clock about times.
--   StateMachine: src/raft/state_machine.cpp, on_apply and its closures; StateMachine.Replicas
--     relates a log to the map. StateMachine.Snapshots saves and loads snapshots, over braft's
--     files as a parameter, and StateMachine.Recovery is about both together.
--   LocalNode: src/raft/local_node.cpp; LocalNode.Cluster compares it with the state machine,
--     LocalNode.Interface is src/raft/local_node.h, the node as the services use it.
--   RaftNode: src/raft/raft_node.cpp, Apply and the reads with their waits; RaftNode.Members has
--     the start, the status and the changes of members. RaftNode.Waits, RaftNode.Linear and
--     RaftNode.Commits are about the waits, the linearizable reads and the results of tasks.
--   Service: src/server. Service has the interface ConfigNode of src/raft/node.h, requests and
--     responses; Service.Rest is rest_util.h, Service.KvService, Service.ConfigService and
--     Service.Dashboard are the services of those names, Service.OtherServices those of watches and
--     administration. Service.Guards is about the commands that reach the node, Service.Origins
--     about other sites, Service.Numbers about the numbers in a query, Service.Paths about the
--     dashboard's files, and Service.EndToEnd about a service, a single node and its store
--     together.
--   Server: src/server/server.cpp, the process. Server.Init is Init, over a log of the calls that
--     leave the repository, Server.Cleaning the thread of StartCompactionLoop, Server.Main
--     src/main/server_main.cpp; Server.Startup and Server.Interleaved are about them.
--   Client: client/client_main.cpp, from the flags to the exit code; Client.Exits is about the exit
--     code, Client.EndToEnd about the client, a service, a single node and its store together.
--   Checks: the theorems at concrete inputs, and runs.
--
-- Conventions. An int64_t is its bit pattern, a number below 2 ^ 64; signed tests and the wrap of a
-- sum are written out. A failing read or write of LevelDB is a value that the engine returns. An
-- exception of the standard library is the value `none`, `thrown` or `raised`. All loops are
-- structural recursions on the entries, values or digits that they go through, so no fuel is
-- needed; the loops of a long poll and the waits of a cluster node go through the list of what they
-- observe at each round, and a list that ends first is a call that has not returned. Only the digits
-- of a number are written on fuel, ten for a 32-bit number and twenty for a 64-bit one. A broadcast
-- is one step; what a long poll reads between the steps of others is given.
--
-- Not modelled: the locks of the store, since a shared lock excludes nothing that is modelled but
-- the loading of a snapshot; a registration in the middle of a broadcast; logging; braft, brpc,
-- gflags, json2pb and the file system, whose answers are parameters; the destructors, but for the
-- flag that ends the compaction thread; the web page, which is input and output.
pub mod Base
pub mod StoreKey
pub mod Proto
pub mod LevelDb
pub mod Mvcc
pub mod Store
pub mod Results
pub mod StoreOps
pub mod Watch
pub mod StateMachine
pub mod LocalNode
pub mod RaftNode
pub mod Service
pub mod Server
pub mod Client
pub mod Checks

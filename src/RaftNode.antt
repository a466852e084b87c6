-- ===== src/RaftNode.antt =====
-- src/raft/raft_node.cpp: the node of the cluster mode, over a braft node that is a parameter. What
-- an operation reads from braft, from the clock and from the store while it waits is given by a
-- list of rounds or a record of observations; a list that ends first is a call that has not
-- returned. A call of a node that was never started (`node_` is null) reads `none`.
pub mod Members
pub mod Waits
pub mod Linear
pub mod Commits
use configraft.Base.{
  ℕ, ◌+◌, ◌*◌, ◌%◌, ◌^◌, Bool, true, false, not, ◌&&◌, Option, none, some, List, [], ◌∷◌, ◌++◌,
  if◌then◌else◌, Int64, Int32, slt,
}
use configraft.Base.Bytes.{Bytes, codes}
use configraft.Proto.{
  Code, ok, key_not_found, cas_failed, not_leader, version_not_found, compacted, invalid_argument,
  internal, RaftCmd,
}
use configraft.Results.{
  ApplyResult, GetResult, ConfigResult, WatchResult, ConfChangeResult, fresh_apply, fresh_get,
  fresh_config,
}
use configraft.LevelDb.{Engine}
use configraft.Store
use configraft.Store.{Lookup, hit, miss}
use configraft.Store.Scan
use configraft.StateMachine.{Closure}
use configraft.Watch.Hub.{WatchHub}
use configraft.Watch.Poll
use configraft.Watch.Poll.{Course}

-- `braft::LeaderLeaseState`
pub data LeaseState : Type 0 where
  lease_valid lease_expired lease_disabled lease_not_ready : LeaseState

-- `braft::State`; the states that no branch names are one.
pub data RaftState : Type 0 where
  leader candidate transferring other_state : RaftState

-- The fields of `braft::NodeStatus` that are read.
pub record NodeStatus : Type 0 where
  pub state : RaftState
  pub term : Int64
  pub committed_index : Int64
  pub known_applied_index : Int64

-- One round of the wait for the lease, with the time that it reads if it is not ready.
pub record LeaseRound : Type 0 where
  pub lease : LeaseState
  pub now : Int64

-- One round of the wait for the applied index.
pub record StatusRound : Type 0 where
  pub status : NodeStatus
  pub now : Int64

abbrev pub lease_wait_ms : Int64
lease_wait_ms = 1000

abbrev pub catchup_wait_ms : Int64
catchup_wait_ms = 1000

-- `gettimeofday_us() + timeout_ms * 1000LL`
unfoldable pub deadline_after : Int64 → Int64 → Int64
deadline_after now timeout_ms = (now + timeout_ms * 1000) % 2 ^ 64

-- What a round does: an expired or disabled lease ends the wait, one that is not ready waits until the
-- deadline is past.
unfoldable pub lease_step : LeaseState → Bool → Option Bool → Option Bool
lease_step lease_valid past rest = some true
lease_step lease_expired past rest = some false
lease_step lease_disabled past rest = some false
lease_step lease_not_ready past rest = if past then some false else rest

unfoldable pub lease_loop : Int64 → List LeaseRound → Option Bool
unfolding lease_step
lease_loop deadline [] = none
lease_loop deadline (r ∷ rounds) =
    let rest = lease_loop deadline rounds in lease_step r.lease (not (slt r.now deadline)) rest

-- `start` is the time at the call, or `none` for a node that was never started.
unfoldable pub wait_leader_lease : Int64 → Option Int64 → List LeaseRound → Option Bool
unfolding lease_loop deadline_after
wait_leader_lease timeout_ms none rounds = some false
wait_leader_lease timeout_ms (some start) rounds =
    lease_loop (deadline_after start timeout_ms) rounds

-- `applied >= committed` of one sample.
unfoldable pub has_caught_up : NodeStatus → Bool
has_caught_up st = not (slt st.known_applied_index st.committed_index)

unfoldable pub applied_loop : Int64 → List StatusRound → Option Bool
unfolding has_caught_up
applied_loop deadline [] = none
applied_loop deadline (r ∷ rounds) =
    let rest = applied_loop deadline rounds in
    if has_caught_up r.status
    then some true
    else if not (slt r.now deadline)
    then some false
    else rest

unfoldable pub wait_applied_catch_up : Int64 → Option Int64 → List StatusRound → Option Bool
unfolding applied_loop deadline_after
wait_applied_catch_up timeout_ms none rounds = some false
wait_applied_catch_up timeout_ms (some start) rounds =
    applied_loop (deadline_after start timeout_ms) rounds

-- `node_->leader_id()` as text, `none` if it is empty or the node was never started.
unfoldable pub leader_id : Option Bytes → Bytes
leader_id none = []
leader_id (some peer) = peer

unfoldable pub not_leader_result : Option Bytes → ApplyResult
unfolding leader_id
not_leader_result known = record fresh_apply { code = not_leader; leader_id = leader_id known }

-- A task for braft. Its closure starts with the caller's result and no error.
pub record Task : Type 0 where
  pub data_bytes : Bytes
  pub done : Closure
  pub expected_term : Option Int64

-- What `Apply` does before it waits: it answers at once, or hands a task to braft.
pub data Submission : Type 0 where
  answered : ApplyResult → Submission
  submitted : Task → Submission

-- `serialize_cmd` is protobuf's; `leader_term` is that of the state machine.
unfoldable pub submit : (RaftCmd → Bytes) → Bool → Option Bytes → Int64 → RaftCmd → Submission
unfolding not_leader_result
submit serialize_cmd is_leader known leader_term cmd =
    if not is_leader
    then answered (not_leader_result known)
    else submitted (record {
      data_bytes = serialize_cmd cmd;
      done = record { out = some fresh_apply; error = none };
      expected_term = if slt 0 leader_term then some leader_term else none;
    })

-- What `Get` observes, in the order in which it looks.
pub record GetCourse (E : Engine) : Type 0 where
  pub lease_start : Option Int64
  pub lease_rounds : List LeaseRound
  pub is_leader : Bool
  pub known_leader : Option Bytes
  pub catchup_start : Option Int64
  pub catchup_rounds : List StatusRound
  pub store : E.Db

-- The read of the store that ends a `Get`.
unfoldable pub read_result : Lookup → GetResult
read_result (miss code) = record fresh_get { code = code; message = codes "key not found" }
read_result (hit kv) = record fresh_get { kv = kv }

-- The answer of a linearizable read without a lease.
unfoldable pub lease_failure : Bool → Option Bytes → GetResult
unfolding leader_id
lease_failure is_leader known =
    if is_leader
    then record fresh_get {
      code = internal;
      message = codes "leader not ready for linearizable read, retry";
    }
    else record fresh_get { code = not_leader; leader_id = leader_id known }

-- A version that does not exist, or a key.
unfoldable pub version_message : Code → Bytes
version_message version_not_found = codes "version not found"
version_message _ = codes "key not found"

module _ (E : Engine) where
  -- The part of `Get` behind its waits, and all of it for a serializable read.
  unfoldable pub local_read : E.Db → Bytes → GetResult
  unfolding read_result
  local_read store key = read_result (Store.get E store key)

  unfoldable pub after_catch_up : Bytes → E.Db → Option Bool → Option GetResult
  unfolding local_read
  after_catch_up key store none = none
  after_catch_up key store (some false) =
      some (record fresh_get { code = internal; message = codes "apply catch-up timeout" })
  after_catch_up key store (some true) = some (local_read store key)

  unfoldable pub after_lease : Bytes → GetCourse E → Option Bool → Option GetResult
  unfolding after_catch_up lease_failure wait_applied_catch_up
  after_lease key course none = none
  after_lease key course (some false) = some (lease_failure course.is_leader course.known_leader)
  after_lease key course (some true) =
      after_catch_up key course.store
        (wait_applied_catch_up catchup_wait_ms course.catchup_start course.catchup_rounds)

  unfoldable pub get : Bytes → Bool → GetCourse E → Option GetResult
  unfolding after_lease wait_leader_lease local_read
  get key true course = some (local_read course.store key)
  get key false course =
      after_lease key course
        (wait_leader_lease lease_wait_ms course.lease_start course.lease_rounds)

  unfoldable pub get_config : E.Db → Bytes → Int64 → ConfigResult
  unfolding version_message
  get_config store key version = elim (Store.get_config E store key version) [
    | miss code ↦ record fresh_config { code = code; message = version_message code }
    | hit kv ↦ record fresh_config { kv = kv; history = Scan.get_history E store key }
  ]

  -- `Watch`, `CurrentRevision` and `Compaction` are those of the hub and of the store.
  unfoldable pub watch :
      Bytes → Int64 → Int64 → ℕ → Course E → Option (WatchHub × Bool × WatchResult)
  watch key from_revision server_deadline_us w course =
      Poll.watch E key from_revision server_deadline_us w course

  unfoldable pub current_revision : E.Db → Int64
  current_revision store = Store.current_revision E store

  unfoldable pub compaction : E.Db → Int32 → Option (E.Db × ℕ)
  compaction store keep_versions = Scan.compaction E store keep_versions

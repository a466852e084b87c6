-- ===== src/RaftNode/Members.antt =====
-- src/raft/raft_node.cpp: starting the node, its status, and the changes of its members. The parsers
-- of addresses are parameters.
use mathlib.Core.Option
use configraft.Base.{
  ◌*◌, Bool, true, false, not, Option, none, some, List, [], ◌∷◌, ◌++◌, if◌then◌else◌, Int64, Int32,
  slt,
}
use configraft.Base.Bytes.{Bytes, codes}
use configraft.Proto.{ok, not_leader, internal}
use configraft.Results.{ConfChangeResult}
use configraft.RaftNode
use configraft.RaftNode.{RaftState, leader, candidate, transferring, other_state, NodeStatus}

-- One round of the wait for a change: whether its closure has run, and the time that the loop reads
-- if it has not.
pub record ConfRound : Type 0 where
  pub finished : Bool
  pub now : Int64

abbrev pub conf_change_timeout_sec : Int64
conf_change_timeout_sec = 60

-- Whether the change was done when the loop ended.
unfoldable pub conf_loop : Int64 → List ConfRound → Option Bool
conf_loop deadline [] = none
conf_loop deadline (r ∷ rounds) =
    let rest = conf_loop deadline rounds in
    if r.finished then some true else if not (slt r.now deadline) then some false else rest

-- What a change of members observes: the node, the parse of the address, the wait, and the status
-- that the closure left, `none` if it is ok.
pub record ConfCourse : Type 0 where
  pub is_started : Bool
  pub is_leader : Bool
  pub known_leader : Option Bytes
  pub start : Int64
  pub rounds : List ConfRound
  pub error : Option Bytes

unfoldable pub conf_refused : Bytes → ConfChangeResult
conf_refused message = record { code = internal; message = message }

unfoldable pub conf_finished : Bytes → Bytes → Option Bytes → Bool → ConfChangeResult
unfolding conf_refused
conf_finished late done error false = conf_refused late
conf_finished late done (some e) true = conf_refused e
conf_finished late done none true = record { code = ok; message = done }

abbrev pub late_message : Bytes → Bytes
late_message verb =
    verb ++ codes " peer timed out after 60s (change may still be in progress), check health later"

-- The guards that both changes begin with; `none` is to go on.
unfoldable pub conf_guard : (Bytes → Bool) → Bytes → ConfCourse → Option ConfChangeResult
unfolding conf_refused
conf_guard is_peer peer course =
    if not course.is_started
    then some (conf_refused (codes "raft node not initialized"))
    else if not course.is_leader
    then some (record {
      code = not_leader;
      message = codes "not leader, leader=" ++ RaftNode.leader_id course.known_leader;
    })
    else if not (is_peer peer)
    then some (conf_refused (codes "invalid peer address `" ++ (peer ++ codes "'")))
    else none

-- Whether braft was asked for the change, and the answer once there is one.
unfoldable pub conf_change :
    (Bytes → Bool) → Bytes → Bytes → Bytes → ConfCourse → Bool × Option ConfChangeResult
unfolding conf_guard conf_loop conf_finished
conf_change is_peer late done peer course = elim (conf_guard is_peer peer course) [
  | some r ↦ (false, some r)
  | none ↦ (
    true,
    Option.map (conf_finished late done course.error) (
        conf_loop (RaftNode.deadline_after course.start (conf_change_timeout_sec * 1000))
          course.rounds),
  )
]

unfoldable pub add_peer : (Bytes → Bool) → Bytes → ConfCourse → Bool × Option ConfChangeResult
unfolding conf_change
add_peer is_peer peer course =
    conf_change is_peer (late_message (codes "add")) (codes "peer " ++ (peer ++ codes " added"))
      peer course

unfoldable pub remove_peer : (Bytes → Bool) → Bytes → ConfCourse → Bool × Option ConfChangeResult
unfolding conf_change
remove_peer is_peer peer course =
    conf_change is_peer (late_message (codes "remove"))
      (codes "peer " ++ (peer ++ codes " removed")) peer course

-- The meta data; a node that was never started has no status.
unfoldable pub role : Option NodeStatus → Bytes
role none = codes "uninitialized"
role (some st) = elim st.state [
  | leader ↦ codes "leader"
  | candidate ↦ codes "candidate"
  | transferring ↦ codes "transferring"
  | other_state ↦ codes "follower"
]

unfoldable pub raft_term : Option NodeStatus → Int64
raft_term none = 0
raft_term (some st) = st.term

unfoldable pub commit_index : Option NodeStatus → Int64
commit_index none = 0
commit_index (some st) = st.committed_index

unfoldable pub applied_index : Option NodeStatus → Int64
applied_index none = 0
applied_index (some st) = st.known_applied_index

-- `list_peers` answers the leader only.
unfoldable pub peers : Option (List Bytes) → List Bytes
peers none = []
peers (some l) = l

-- The options that `Init` sets.
pub record NodeOptions : Type 0 where
  pub initial_conf : Bytes
  pub election_timeout_ms : Int32
  pub node_owns_fsm : Bool
  pub snapshot_interval_s : Int32
  pub log_uri : Bytes
  pub raft_meta_uri : Bytes
  pub snapshot_uri : Bytes

unfoldable pub node_options : Bytes → Bytes → Int32 → NodeOptions
node_options peer_list data_root election_timeout_ms =
    let prefix = codes "local://" ++ (data_root ++ codes "/raft") in
    record {
      initial_conf = peer_list;
      election_timeout_ms = election_timeout_ms;
      node_owns_fsm = false;
      snapshot_interval_s = 30;
      log_uri = prefix ++ codes "/log";
      raft_meta_uri = prefix ++ codes "/raft_meta";
      snapshot_uri = prefix ++ codes "/snapshot";
    }

pub data Started : Type 0 where
  started : NodeOptions → Started
  not_started : Bytes → Started

-- `port_text` is the port as `std::to_string` writes it; `starts` is whether braft took the options.
unfoldable pub init_node :
    (Bytes → Bytes → Bool)
    → (Bytes → Bool)
    → (NodeOptions → Bool)
    → Bytes
    → Bytes
    → Bytes
    → Bytes
    → Bytes
    → Int32
    → Started
unfolding node_options
init_node is_endpoint is_conf starts group listen_ip port_text peer_list data_root
      election_timeout_ms =
    let options = node_options peer_list data_root election_timeout_ms in
    if not (is_endpoint listen_ip port_text)
    then not_started (codes "invalid listen address " ++ (listen_ip ++ (b':' ∷ port_text)))
    else if not (is_conf peer_list)
    then not_started (codes "fail to parse peers `" ++ (peer_list ++ codes "'"))
    else if not (starts options)
    then not_started (codes "fail to init raft node " ++ group)
    else started options

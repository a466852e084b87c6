-- ===== src/LocalNode/Interface.antt =====
-- src/raft/local_node.h: the single-node mode as a ConfigNode. What a long poll returns depends on
-- what runs beside it, and is a parameter.
use configraft.Base.{[], Int64}
use configraft.Base.Bytes.{Bytes, codes}
use configraft.Results.{WatchResult}
use configraft.LevelDb.{Engine}
use configraft.LocalNode
use configraft.LocalNode.{Local}
use configraft.Service.{ConfigNode}

abbrev pub local_node :
    (E : Engine) → (Local E → Bytes → Int64 → Int64 → Int64 → WatchResult) → ConfigNode
local_node E watch = record {
  Node = Local E;
  apply = LocalNode.apply E;
  get = λ node key serializable. LocalNode.get E node key;
  get_config = LocalNode.get_config E;
  watch = watch;
  add_peer = λ node peer. (node, LocalNode.add_peer peer);
  remove_peer = λ node peer. (node, LocalNode.remove_peer peer);
  role = λ node. codes "leader";
  term = λ node. 0;
  commit_index = λ node. 0;
  applied_index = λ node. 0;
  leader_id = λ node. [];
  peers = λ node. [];
}

-- ===== src/LocalNode/Cluster.antt =====
-- The single-node mode against the replicated state machine.
use configraft.Base.{Option, none, some, ◌≡◌, refl, List, [], ◌∷◌, Int64, arith}
use configraft.Base.Bytes.{Bytes}
use configraft.Proto.{RaftCmd}
use configraft.Results.{ApplyResult}
use configraft.LevelDb.{Engine}
use configraft.LocalNode
use configraft.LocalNode.{Local}
use configraft.StateMachine
use configraft.StateMachine.{Machine, LogEntry, Closure}

-- The result that the caller of an entry's closure waits for.
abbrev pub waited : Bytes → List (Option Closure) → Option ApplyResult
waited error_str (some c ∷ []) = StateMachine.run_closure error_str c
waited error_str _ = none

pub complete_result :
    (result : ApplyResult) (error_str : Bytes) (out : ApplyResult)
    → StateMachine.run_closure error_str
        (StateMachine.complete result (record { out = some out; error = none }))
      ≡ some result
unfolding StateMachine.run_closure StateMachine.complete StateMachine.report
    StateMachine.finish_closure
complete_result result error_str out = ground arith

module _ (E : Engine) (parse_cmd : Bytes → Option RaftCmd) where
  -- The log entry that this node submits for a command, with the closure that waits for it.
  abbrev pub submitted : Bytes → ApplyResult → LogEntry
  submitted data_bytes out = record {
    data_bytes = data_bytes;
    done = some (record { out = some out; error = none });
  }

  -- If the entry's bytes parse as the command, then `Apply` of the single-node mode does to the store
  -- and to the hub what the state machine does when it applies the entry, and returns the result that
  -- the submitter of the entry gets through its closure, whether the command failed or not.
  pub apply-on_apply :
      (node : Local E) (term : Int64) (cmd : RaftCmd) (data_bytes error_str : Bytes)
      (out : ApplyResult)
      → parse_cmd data_bytes ≡ some cmd
      → let sm : Machine E = record { store = node.store; hub = node.hub; leader_term = term } in
        let (sm', closures) =
          StateMachine.on_apply E parse_cmd sm (submitted data_bytes out ∷ []) in
        let (node', result) = LocalNode.apply E node cmd in
        (sm'.store ≡ node'.store)
        × (sm'.hub ≡ node'.hub)
        × (waited error_str closures ≡ some result)
  unfolding StateMachine.on_apply StateMachine.apply_entry StateMachine.apply_parsed
      StateMachine.on_done LocalNode.apply
  apply-on_apply node term cmd data_bytes error_str out h =
      rw h (refl, refl, complete_result _ error_str out)

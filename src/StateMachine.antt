-- ===== src/StateMachine.antt =====
-- src/raft/state_machine.cpp, src/raft/state_machine.h: the replicated state machine. It applies the
-- committed entries of the log in order and broadcasts the events of each; an entry that this node
-- submitted carries a closure. The parse of an entry's bytes as a command is a parameter.
pub mod Replicas
pub mod Snapshots
pub mod Recovery
use configraft.Base.{
  ℕ, Bool, true, false, ◌&&◌, not, Option, none, some, List, [], ◌∷◌, ◌++◌, if◌then◌else◌, Int64,
  slt,
}
use configraft.Base.Bytes.{Bytes, codes}
use configraft.Proto.{Code, ok, internal, RaftCmd, SnapshotData}
use configraft.Results.{ApplyResult}
use configraft.LevelDb.{Engine}
use configraft.StoreOps.{apply_cmd_to_store}
use configraft.Watch.Hub
use configraft.Watch.Hub.{WatchHub}

-- The error numbers that the source sets.
pub data Errno : Type 0 where
  einval eio : Errno

-- A closure with its status; `out` is the result that an `ApplyClosure` fills, and `none` for any
-- other closure, on which the `dynamic_cast` fails.
pub record Closure : Type 0 where
  pub out : Option ApplyResult
  pub error : Option (Errno × Bytes)

pub record LogEntry : Type 0 where
  pub data_bytes : Bytes
  pub done : Option Closure

-- The store, and the hub if there is one.
pub record Machine (E : Engine) : Type 0 where
  pub store : E.Db
  pub hub : Option WatchHub
  pub leader_term : Int64

unfoldable pub is_ok : Code → Bool
is_ok ok = true
is_ok _ = false

-- `closure->Finish(result)`
unfoldable pub finish_closure : ApplyResult → Closure → Closure
finish_closure result c = elim c.out [ none ↦ c | some old ↦ record c { out = some result } ]

unfoldable pub error_message : Bytes → Bytes
error_message [] = codes "store apply failed"
error_message (c ∷ message) = c ∷ message

-- A failed command is reported, unless the closure has an error already.
unfoldable pub report : ApplyResult → Closure → Closure
unfolding error_message is_ok
report result c = elim c.error [
  | some e ↦ c
  | none ↦
      if is_ok result.code then c else record c { error = some (eio, error_message result.message) }
]

-- An entry that does not parse.
unfoldable pub refuse : Closure → Closure
refuse c = record c { error = some (einval, codes "bad raft cmd") }

unfoldable pub complete : ApplyResult → Closure → Closure
unfolding finish_closure report
complete result c = report result (finish_closure result c)

unfoldable pub on_done : (Closure → Closure) → Option Closure → Option Closure
on_done f none = none
on_done f (some c) = some (f c)

unfoldable pub broadcast_to : Option WatchHub → ApplyResult → Option WatchHub
broadcast_to none result = none
broadcast_to (some hub) result = elim result.events [
  | [] ↦ some hub
  | e ∷ events ↦ some (Hub.broadcast hub (e ∷ events))
]

-- What `Run` of an `ApplyClosure` leaves in the result that the caller waits for; `error_str` is the
-- text of the status.
unfoldable pub run_closure : Bytes → Closure → Option ApplyResult
unfolding is_ok
run_closure error_str c = elim c.out [
  | none ↦ none
  | some out ↦ elim c.error [
    | none ↦ some out
    | some e ↦
        if is_ok out.code
        then some (record out { code = internal; message = error_str })
        else some out
  ]
]

module _ (E : Engine) (parse_cmd : Bytes → Option RaftCmd) where
  -- One round of the loop: the machine, and the closure if the entry has one.
  unfoldable pub apply_parsed :
      Machine E → Option Closure → Option RaftCmd → Machine E × Option Closure
  unfolding broadcast_to complete refuse on_done
  apply_parsed sm closure none = (sm, on_done refuse closure)
  apply_parsed sm closure (some cmd) =
      let (store, result) = apply_cmd_to_store E sm.store cmd in
      (
        record sm { store = store; hub = broadcast_to sm.hub result },
        on_done (complete result) closure,
      )

  unfoldable pub apply_entry : Machine E → LogEntry → Machine E × Option Closure
  unfolding apply_parsed
  apply_entry sm entry = apply_parsed sm entry.done (parse_cmd entry.data_bytes)

  -- The closures stand in the order of the entries.
  unfoldable pub on_apply : Machine E → List LogEntry → Machine E × List (Option Closure)
  unfolding apply_entry
  on_apply sm [] = (sm, [])
  on_apply sm (entry ∷ entries) =
      let (next, done) = apply_entry sm entry in
      let (last, closures) = on_apply next entries in (last, done ∷ closures)

module _ (E : Engine) where
  unfoldable pub on_leader_start : Machine E → Int64 → Machine E
  on_leader_start sm term = record sm { leader_term = term }

  -- The term -1.
  unfoldable pub on_leader_stop : Machine E → Machine E
  on_leader_stop sm = record sm { leader_term = 18446744073709551615 }

  unfoldable pub is_leader : Machine E → Bool
  is_leader sm = slt 0 sm.leader_term

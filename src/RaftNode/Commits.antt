-- ===== src/RaftNode/Commits.antt =====
-- What the caller of `Apply` gets for a task that braft committed or failed.
use configraft.Base.{
  ◌≡◌, refl, ap, subst, ◌∙◌, Bool, true, false, Option, none, some, List, [], ◌∷◌, ◌++◌, Int64, slt,
  if◌then◌else◌,
}
use configraft.Base.Bytes.{Bytes}
use configraft.Proto.{internal, not_leader, RaftCmd}
use configraft.Results.{ApplyResult, fresh_apply}
use configraft.LevelDb.{Engine}
use configraft.StoreOps.{apply_cmd_to_store}
use configraft.StateMachine
use configraft.StateMachine.{Machine, LogEntry, Closure, Errno}
use configraft.LocalNode.Cluster.{complete_result}
use configraft.RaftNode
use configraft.RaftNode.{Submission, answered, submitted, Task}

-- The log entry of a task.
abbrev pub entry_of : Task → LogEntry
entry_of task = record { data_bytes = task.data_bytes; done = some task.done }

-- The closure of a task that braft fails with an error.
abbrev pub failed : Task → Errno × Bytes → Closure
failed task e = record task.done { error = some e }

module _ (E : Engine) (parse_cmd : Bytes → Option RaftCmd) where
  on_apply-append :
      (sm : Machine E) (xs ys : List LogEntry)
      → StateMachine.on_apply E parse_cmd sm (xs ++ ys) ≡ (
        (StateMachine.on_apply E parse_cmd (StateMachine.on_apply E parse_cmd sm xs).0 ys).0,
        (StateMachine.on_apply E parse_cmd sm xs).1
            ++ (StateMachine.on_apply E parse_cmd (StateMachine.on_apply E parse_cmd sm xs).0 ys).1,
      )
  unfolding StateMachine.on_apply
  on_apply-append sm [] ys = refl
  on_apply-append sm (x ∷ xs) ys =
      ap (λ r. (r.0, (StateMachine.apply_entry E parse_cmd sm x).1 ∷ r.1))
        (on_apply-append (StateMachine.apply_entry E parse_cmd sm x).0 xs ys)

  -- The caller of a task that is committed behind the entries `before` gets `result`.
  pub record Committed (task : Task) (sm : Machine E) (before later : List LogEntry)
      (error_str : Bytes) (result : ApplyResult) : Type 0 where
    pub closure : Closure
    pub others : List (Option Closure)
    pub own_place :
        (StateMachine.on_apply E parse_cmd sm (before ++ (entry_of task ∷ later))).1
        ≡ (StateMachine.on_apply E parse_cmd sm before).1 ++ (some closure ∷ others)
    pub outcome : StateMachine.run_closure error_str closure ≡ some result

  -- The task of a command.
  abbrev task_of : Bytes → Option Int64 → Task
  task_of data_bytes expected_term = record {
    data_bytes = data_bytes;
    done = record { out = some fresh_apply; error = none };
    expected_term = expected_term;
  }

  entry_closure :
      (cmd : RaftCmd) (data_bytes : Bytes) (c : Closure) (sm : Machine E)
      → parse_cmd data_bytes ≡ some cmd
      → (StateMachine.apply_entry E parse_cmd sm
          (record { data_bytes = data_bytes; done = some c })).1
        ≡ some (StateMachine.complete (apply_cmd_to_store E sm.store cmd).1 c)
  unfolding StateMachine.apply_entry StateMachine.apply_parsed StateMachine.on_done
  entry_closure cmd data_bytes c sm h =
      ap (λ o. (StateMachine.apply_parsed E parse_cmd sm (some c) o).1) h

  task-Committed :
      (cmd : RaftCmd) (data_bytes : Bytes) (expected_term : Option Int64) (sm : Machine E)
      (before later : List LogEntry) (error_str : Bytes)
      → parse_cmd data_bytes ≡ some cmd
      → Committed
          (task_of data_bytes expected_term)
          sm
          before
          later
          error_str
          (apply_cmd_to_store E (StateMachine.on_apply E parse_cmd sm before).0.store cmd).1
  unfolding StateMachine.on_apply
  task-Committed cmd data_bytes expected_term sm before later error_str h =
      let sm' = (StateMachine.on_apply E parse_cmd sm before).0 in
      let own = entry_of (task_of data_bytes expected_term) in
      let later_closures =
        (StateMachine.on_apply E parse_cmd (StateMachine.apply_entry E parse_cmd sm' own).0
          later).1 in
      record {
        closure =
            StateMachine.complete (apply_cmd_to_store E sm'.store cmd).1
              (record { out = some fresh_apply; error = none });
        others = later_closures;
        own_place =
            ap (λ r. r.1) (on_apply-append sm before (own ∷ later))
            ∙ ap (λ c. (StateMachine.on_apply E parse_cmd sm before).1 ++ (c ∷ later_closures))
                (entry_closure cmd data_bytes (record { out = some fresh_apply; error = none }) sm'
                  h);
        outcome = complete_result _ error_str fresh_apply;
      }

  failed_lem :
      (data_bytes : Bytes) (expected_term : Option Int64) (e : Errno × Bytes) (error_str : Bytes)
      → StateMachine.run_closure error_str (failed (task_of data_bytes expected_term) e)
        ≡ some (record fresh_apply { code = internal; message = error_str })
  unfolding StateMachine.run_closure
  failed_lem data_bytes expected_term e error_str = refl

  same_task : (a b : Task) → submitted a ≡ submitted b → a ≡ b
  same_task a b h = cc h

  -- Suppose that the entry of a submitted command parses as the command. If braft commits the task, at
  -- any place of a batch of the log, then the caller gets the result of its own command applied to
  -- the store that the entries before it left; and if braft fails the task, the caller gets INTERNAL
  -- with the text of the error. Only a leader submits: any other node answers NOT_LEADER at once,
  -- with the leader that it knows.
  pub submit-on_apply :
      (serialize_cmd : RaftCmd → Bytes) (is_leader : Bool) (known : Option Bytes) (term : Int64)
      (cmd : RaftCmd) (task : Task) (sm : Machine E) (before later : List LogEntry)
      (error : Errno × Bytes) (error_str : Bytes)
      → parse_cmd (serialize_cmd cmd) ≡ some cmd
      → RaftNode.submit serialize_cmd is_leader known term cmd ≡ submitted task
      → (is_leader ≡ true)
        × Committed task sm before later error_str
            (apply_cmd_to_store E (StateMachine.on_apply E parse_cmd sm before).0.store cmd).1
        × (StateMachine.run_closure error_str (failed task error)
            ≡ some (record fresh_apply { code = internal; message = error_str }))
        × (RaftNode.submit serialize_cmd false known term cmd
            ≡ answered
                (record fresh_apply { code = not_leader; leader_id = RaftNode.leader_id known }))
  unfolding RaftNode.submit RaftNode.not_leader_result
  submit-on_apply serialize_cmd false known term cmd task sm before later error error_str p h = cc h
  submit-on_apply serialize_cmd true known term cmd task sm before later error error_str p h =
      let expected_term = if slt 0 term then some term else none in
      let own = task_of (serialize_cmd cmd) expected_term in
      let same = same_task own task h in
      (
        refl,
        subst
            (λ t.
              Committed t sm before later error_str
                (apply_cmd_to_store E (StateMachine.on_apply E parse_cmd sm before).0.store cmd).1)
            same (task-Committed cmd (serialize_cmd cmd) expected_term sm before later error_str p),
        subst
            (λ t.
              StateMachine.run_closure error_str (failed t error)
              ≡ some (record fresh_apply { code = internal; message = error_str }))
            same (failed_lem (serialize_cmd cmd) expected_term error error_str),
        refl,
      )

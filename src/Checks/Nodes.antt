-- ===== src/Checks/Nodes.antt =====
-- The cluster node at concrete observations.
use configraft.Base.{
  ℕ, zero, suc, ◌+◌, ◌*◌, ◌^◌, ◌<◌, ◌≡◌, refl, Bool, true, false, none, some, Option, List, [], ◌∷◌,
  length, arith,
}
use configraft.Base.Bytes.{Bytes, codes}
use configraft.Proto.{RaftCmd, put, internal, not_leader}
use configraft.Results.{fresh_apply}
use configraft.LevelDb.Memory.{memory, memory_laws, fresh, fresh_find, memory-Readable, run_memory}
use configraft.Mvcc.{empty}
use configraft.Store
use configraft.Store.Empty.{empty-Models}
use configraft.StoreOps.{apply_cmd_to_store}
use configraft.StateMachine
use configraft.StateMachine.{Machine, eio}
use configraft.RaftNode
use configraft.RaftNode.{
  lease_valid, lease_not_ready, LeaseRound, StatusRound, NodeStatus, leader, GetCourse, Task,
  submitted, answered,
}
use configraft.Base.Waiting.{Paced, Returns}
use configraft.RaftNode.Waits.{lease_times, status_times, get-Returns}
use configraft.RaftNode.Linear.{Linear, answer_of, get-Linear}
use configraft.RaftNode.Commits.{Committed, failed, submit-on_apply}

abbrev status : NodeStatus
status = record { state = leader; term = 1; committed_index = 3; known_applied_index = 3 }

abbrev behind : NodeStatus
behind = record { state = leader; term = 1; committed_index = 3; known_applied_index = 2 }

-- Rounds that never succeed.
lease_rounds : ℕ → ℕ → List LeaseRound
lease_rounds zero t = []
lease_rounds (suc n) t = record { lease = lease_not_ready; now = t } ∷ lease_rounds n (t + 5000)

status_rounds : ℕ → ℕ → List StatusRound
status_rounds zero t = []
status_rounds (suc n) t = record { status = behind; now = t } ∷ status_rounds n (t + 100)

lease_rounds-Paced :
    (n t : ℕ) → t + 5000 * n < 2 ^ 63 → Paced 5000 t (lease_times (lease_rounds n t))
unfolding lease_rounds
lease_rounds-Paced zero t h = tt
lease_rounds-Paced (suc n) t h =
    (omega arith, omega arith, lease_rounds-Paced n (t + 5000) (omega arith))

status_rounds-Paced :
    (n t : ℕ) → t + 100 * n < 2 ^ 63 → Paced 100 t (status_times (status_rounds n t))
unfolding status_rounds
status_rounds-Paced zero t h = tt
status_rounds-Paced (suc n) t h =
    (omega arith, omega arith, status_rounds-Paced n (t + 100) (omega arith))

length-lease_rounds : (n t : ℕ) → length (lease_rounds n t) ≡ n
unfolding lease_rounds
length-lease_rounds zero t = refl
length-lease_rounds (suc n) t = omega (arith, length-lease_rounds n (t + 5000))

length-status_rounds : (n t : ℕ) → length (status_rounds n t) ≡ n
unfolding status_rounds
length-status_rounds zero t = refl
length-status_rounds (suc n) t = omega (arith, length-status_rounds n (t + 100))

abbrev slow : GetCourse memory
slow = record {
  lease_start = some 7;
  lease_rounds = lease_rounds 201 7;
  is_leader = true;
  known_leader = none;
  catchup_start = some 1000007;
  catchup_rounds = status_rounds 10001 1000007;
  store = fresh;
}

get-Returns_example : Returns (RaftNode.get memory (codes "a") false slow)
get-Returns_example =
    get-Returns memory slow ((omega arith, lease_rounds-Paced 201 7 (omega arith)))
      ((omega arith, status_rounds-Paced 10001 1000007 (omega arith))) (codes "a") false
      (omega (arith, length-lease_rounds 201 7)) (omega (arith, length-status_rounds 10001 1000007))

abbrev course : GetCourse memory
course = record {
  lease_start = some 7;
  lease_rounds =
      record { lease = lease_not_ready; now = 8 } ∷ record { lease = lease_valid; now = 9 } ∷ [];
  is_leader = true;
  known_leader = none;
  catchup_start = some 9;
  catchup_rounds = record { status = behind; now = 9 } ∷ record { status = status; now = 10 } ∷ [];
  store = fresh;
}

course_read : RaftNode.get memory (codes "a") false course ≡ some (answer_of empty (codes "a"))
unfolding run_memory RaftNode.get RaftNode.local_read Store.get Store.live Store.read_main
course_read = refl

get-Linear_example :
    Linear memory memory_laws course
      (λ n. empty)
      4
      (empty-Models memory memory_laws fresh fresh_find)
      (memory-Readable fresh refl)
      3
      (codes "a")
      (answer_of empty (codes "a"))
get-Linear_example =
    get-Linear memory memory_laws course (λ n. empty) 4
      (empty-Models memory memory_laws fresh fresh_find) (memory-Readable fresh refl) 3 (codes "a")
      (answer_of empty (codes "a")) (omega arith) course_read

-- A log that holds puts of one letter.
abbrev parse_cmd : Bytes → Option RaftCmd
parse_cmd [] = none
parse_cmd (c ∷ data_bytes) = some (put (c ∷ []) data_bytes)

abbrev command : RaftCmd
command = put (codes "a") (codes "1")

abbrev machine : Machine memory
machine = record { store = fresh; hub = none; leader_term = 3 }

abbrev task : Task
task = record {
  data_bytes = codes "a1";
  done = record { out = some fresh_apply; error = none };
  expected_term = some 3;
}

submit-submitted : RaftNode.submit (λ cmd. codes "a1") true none 3 command ≡ submitted task
unfolding RaftNode.submit
submit-submitted = refl

submit-on_apply_example :
    ◌≡◌ {A = Bool} true true
    × Committed memory parse_cmd task machine [] []
        (codes "error")
        (apply_cmd_to_store memory fresh command).1
    × (StateMachine.run_closure (codes "error") (failed task (eio, codes "lost"))
        ≡ some (record fresh_apply { code = internal; message = codes "error" }))
    × (RaftNode.submit (λ cmd. codes "a1") false none 3 command
        ≡ answered (record fresh_apply { code = not_leader; leader_id = RaftNode.leader_id none }))
unfolding StateMachine.on_apply
submit-on_apply_example =
    submit-on_apply memory parse_cmd (λ cmd. codes "a1") true none 3 command task machine [] []
      (eio, codes "lost") (codes "error") refl submit-submitted

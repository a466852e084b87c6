-- ===== src/RaftNode/Waits.antt =====
-- The waits of a read of src/raft/raft_node.cpp: each round sleeps, and there is a deadline.
use configraft.Base.{
  ℕ, zero, suc, ◌+◌, ◌*◌, ◌^◌, ◌≤◌, ◌<◌, ◌≡◌, refl, Bool, true, false, not, Option, none, some,
  List, [], ◌∷◌, length, arith, Int64, slt, if◌then◌else◌,
}
use configraft.Base.Bytes.{Bytes}
use configraft.Base.Waiting.{Paced, Returns, early}
use configraft.LevelDb.{Engine}
use configraft.RaftNode
use configraft.RaftNode.{
  LeaseState, lease_valid, lease_expired, lease_disabled, lease_not_ready, LeaseRound, StatusRound,
  GetCourse,
}

abbrev pub lease_times : List LeaseRound → List Int64
lease_times [] = []
lease_times (r ∷ rounds) = r.now ∷ lease_times rounds

abbrev pub status_times : List StatusRound → List Int64
status_times [] = []
status_times (r ∷ rounds) = r.now ∷ status_times rounds

lease_step-Returns :
    (lease : LeaseState) (past : Bool) (rest : Option Bool)
    → (past ≡ false → Returns rest)
    → Returns (RaftNode.lease_step lease past rest)
unfolding RaftNode.lease_step
lease_step-Returns lease_valid past rest h = (true, refl)
lease_step-Returns lease_expired past rest h = (false, refl)
lease_step-Returns lease_disabled past rest h = (false, refl)
lease_step-Returns lease_not_ready true rest h = (false, refl)
lease_step-Returns lease_not_ready false rest h = h refl

lease_loop-Returns :
    (deadline t k : ℕ) (rounds : List LeaseRound)
    → deadline < 2 ^ 63
    → Paced 5000 t (lease_times rounds)
    → deadline ≤ t + 5000 * k
    → k < length rounds
    → Returns (RaftNode.lease_loop deadline rounds)
unfolding RaftNode.lease_loop
lease_loop-Returns deadline t k [] hd p h hk = absurd (omega arith)
lease_loop-Returns deadline t zero (r ∷ rounds) hd (p, b, ps) h hk =
    lease_step-Returns r.lease _ _ (λ q. absurd (omega (arith, early r.now deadline b hd q)))
lease_loop-Returns deadline t (suc k) (r ∷ rounds) hd (p, b, ps) h hk =
    lease_step-Returns r.lease _ _
      (λ q. lease_loop-Returns deadline (r.now + 5000) k rounds hd ps (omega arith) (omega arith))

round-Returns :
    (ready past : Bool) (rest : Option Bool)
    → (past ≡ false → Returns rest)
    → Returns (if ready then some true else if past then some false else rest)
round-Returns true past rest h = (true, refl)
round-Returns false true rest h = (false, refl)
round-Returns false false rest h = h refl

applied_loop-Returns :
    (deadline t k : ℕ) (rounds : List StatusRound)
    → deadline < 2 ^ 63
    → Paced 100 t (status_times rounds)
    → deadline ≤ t + 100 * k
    → k < length rounds
    → Returns (RaftNode.applied_loop deadline rounds)
unfolding RaftNode.applied_loop
applied_loop-Returns deadline t k [] hd p h hk = absurd (omega arith)
applied_loop-Returns deadline t zero (r ∷ rounds) hd (p, b, ps) h hk =
    round-Returns (RaftNode.has_caught_up r.status) _ _ (λ (q : not (slt r.now deadline) ≡ false).
      absurd (omega (arith, early r.now deadline b hd q)))
applied_loop-Returns deadline t (suc k) (r ∷ rounds) hd (p, b, ps) h hk =
    round-Returns (RaftNode.has_caught_up r.status) _ _
      (λ q. applied_loop-Returns deadline (r.now + 100) k rounds hd ps (omega arith) (omega arith))

-- The clock at the start of a wait is read, and stands within range; a node that was never started
-- reads none.
abbrev pub PacedFrom : ℕ → Option Int64 → List Int64 → Type 0
PacedFrom step none times = Unit {0}
PacedFrom step (some start) times = (start + 1000000 < 2 ^ 63) × Paced step start times

small_deadline :
    (start : ℕ) → start + 1000000 < 2 ^ 63 → RaftNode.deadline_after start 1000 ≡ start + 1000000
unfolding RaftNode.deadline_after
small_deadline start h = omega arith

pub wait_leader_lease-Returns :
    (start : Option Int64) (rounds : List LeaseRound)
    → PacedFrom 5000 start (lease_times rounds)
    → 200 < length rounds
    → Returns (RaftNode.wait_leader_lease 1000 start rounds)
unfolding RaftNode.wait_leader_lease
wait_leader_lease-Returns none rounds p h = (false, refl)
wait_leader_lease-Returns (some start) rounds (b, p) h =
    rw (small_deadline start b)
      (lease_loop-Returns (start + 1000000) start 200 rounds b p (omega arith) h)

pub wait_applied_catch_up-Returns :
    (start : Option Int64) (rounds : List StatusRound)
    → PacedFrom 100 start (status_times rounds)
    → 10000 < length rounds
    → Returns (RaftNode.wait_applied_catch_up 1000 start rounds)
unfolding RaftNode.wait_applied_catch_up
wait_applied_catch_up-Returns none rounds p h = (false, refl)
wait_applied_catch_up-Returns (some start) rounds (b, p) h =
    rw (small_deadline start b)
      (applied_loop-Returns (start + 1000000) start 10000 rounds b p (omega arith) h)

module _ (E : Engine) (course : GetCourse E)
    (leased : PacedFrom 5000 course.lease_start (lease_times course.lease_rounds))
    (applied : PacedFrom 100 course.catchup_start (status_times course.catchup_rounds)) where
  after_catch_up-Returns :
      (key : Bytes) (store : E.Db) (o : Option Bool)
      → Returns o
      → Returns (RaftNode.after_catch_up E key store o)
  unfolding RaftNode.after_catch_up
  after_catch_up-Returns key store none (b, e) = cc e
  after_catch_up-Returns key store (some false) r = (_, refl)
  after_catch_up-Returns key store (some true) r = (_, refl)

  after_lease-Returns :
      (key : Bytes) (o : Option Bool)
      → Returns o
      → 10000 < length course.catchup_rounds
      → Returns (RaftNode.after_lease E key course o)
  unfolding RaftNode.after_lease
  after_lease-Returns key none (b, e) n = cc e
  after_lease-Returns key (some false) r n = (_, refl)
  after_lease-Returns key (some true) r n =
      after_catch_up-Returns key course.store _
        (wait_applied_catch_up-Returns course.catchup_start course.catchup_rounds applied n)

  -- On a clock that moves at least 5 ms in each round of the wait for the lease, and 100 us in each
  -- round of the wait for the applied index, and that stays below 2 ^ 63 microseconds, 201 and
  -- 10001 rounds are enough for a read to return, whatever braft reports.
  pub get-Returns :
      (key : Bytes) (serializable : Bool)
      → 200 < length course.lease_rounds
      → 10000 < length course.catchup_rounds
      → Returns (RaftNode.get E key serializable course)
  unfolding RaftNode.get
  get-Returns key true h n = (_, refl)
  get-Returns key false h n =
      after_lease-Returns key _
        (wait_leader_lease-Returns course.lease_start course.lease_rounds leased h) n

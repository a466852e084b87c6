-- ===== src/RaftNode/Linear.antt =====
-- The linearizable reads of src/raft/raft_node.cpp, beside the entries that are committed.
use configraft.Base.{
  ℕ, ◌^◌, ◌≤◌, ◌<◌, ◌≡◌, refl, ap, sym, ◌∙◌, Bool, true, false, not, Option, none, some, List, [],
  ◌∷◌, All, arith, Int64, slt, ◌⊎◌, inl, inr, if◌then◌else◌,
}
use configraft.Base.Bytes.{Bytes}
use configraft.Proto.{internal, not_leader, key_not_found}
use configraft.Results.{GetResult}
use configraft.LevelDb.{Engine, EngineLaws, Readable}
use configraft.Mvcc.{State, visible}
use configraft.Store.{hit, miss}
use configraft.Store.Reads.{Models, get-Models}
use configraft.RaftNode
use configraft.RaftNode.{
  LeaseState, lease_valid, lease_expired, lease_disabled, lease_not_ready, LeaseRound, StatusRound,
  NodeStatus, GetCourse,
}

-- In some round braft reported a valid lease.
abbrev pub HadLease : List LeaseRound → Type 0
HadLease [] = ⊥
HadLease (r ∷ rounds) = (r.lease ≡ lease_valid) ⊎ HadLease rounds

-- The applied indices that were sampled are at most `n`, and every commit index is at least `i`.
abbrev pub SampledWithin : ℕ → ℕ → List StatusRound → Type 0
SampledWithin i n rounds =
    All
      (λ r.
        (r.status.known_applied_index ≤ n)
        × (i ≤ r.status.committed_index)
        × (r.status.known_applied_index < 2 ^ 63)
        × (r.status.committed_index < 2 ^ 63))
      rounds

lease_step-true :
    (lease : LeaseState) (past : Bool) (rest : Option Bool)
    → RaftNode.lease_step lease past rest ≡ some true
    → (lease ≡ lease_valid) ⊎ (rest ≡ some true)
unfolding RaftNode.lease_step
lease_step-true lease_valid past rest h = inl refl
lease_step-true lease_expired past rest h = cc h
lease_step-true lease_disabled past rest h = cc h
lease_step-true lease_not_ready true rest h = cc h
lease_step-true lease_not_ready false rest h = inr h

lease_loop-HadLease :
    (deadline : Int64) (rounds : List LeaseRound)
    → RaftNode.lease_loop deadline rounds ≡ some true
    → HadLease rounds
unfolding RaftNode.lease_loop
lease_loop-HadLease deadline [] h = cc h
lease_loop-HadLease deadline (r ∷ rounds) h =
    elim (lease_step-true r.lease (not (slt r.now deadline)) (RaftNode.lease_loop deadline rounds)
      h) [ inl e ↦ inl e | inr e ↦ inr (lease_loop-HadLease deadline rounds e) ]

caught_up_bound :
    (st : NodeStatus)
    → st.known_applied_index < 2 ^ 63
    → st.committed_index < 2 ^ 63
    → RaftNode.has_caught_up st ≡ true
    → st.committed_index ≤ st.known_applied_index
unfolding RaftNode.has_caught_up
caught_up_bound st ha hc h = ground arith

round_true :
    (ready past : Bool) (rest : Option Bool)
    → (if ready then some true else if past then some false else rest) ≡ some true
    → (ready ≡ true) ⊎ (rest ≡ some true)
round_true true past rest h = inl refl
round_true false true rest h = cc h
round_true false false rest h = inr h

applied_loop-le :
    (i n : ℕ) (deadline : Int64) (rounds : List StatusRound)
    → SampledWithin i n rounds
    → RaftNode.applied_loop deadline rounds ≡ some true
    → i ≤ n
unfolding RaftNode.applied_loop
applied_loop-le i n deadline [] s h = cc h
applied_loop-le i n deadline (r ∷ rounds) ((a, b, ha, hb), s) h =
    elim (round_true (RaftNode.has_caught_up r.status) (not (slt r.now deadline))
      (RaftNode.applied_loop deadline rounds) h) [
        | inl e ↦ omega (arith, caught_up_bound r.status ha hb e)
        | inr e ↦ applied_loop-le i n deadline rounds s e
      ]

wait_leader_lease-HadLease :
    (start : Option Int64) (rounds : List LeaseRound)
    → RaftNode.wait_leader_lease 1000 start rounds ≡ some true
    → HadLease rounds
unfolding RaftNode.wait_leader_lease
wait_leader_lease-HadLease none rounds h = cc h
wait_leader_lease-HadLease (some start) rounds h = lease_loop-HadLease _ rounds h

wait_applied_catch_up-le :
    (i n : ℕ) (start : Option Int64) (rounds : List StatusRound)
    → SampledWithin i n rounds
    → RaftNode.wait_applied_catch_up 1000 start rounds ≡ some true
    → i ≤ n
unfolding RaftNode.wait_applied_catch_up
wait_applied_catch_up-le i n none rounds s h = cc h
wait_applied_catch_up-le i n (some start) rounds s h = applied_loop-le i n _ rounds s h

the_result : {a r : GetResult} → some a ≡ some r → a ≡ r
the_result h = cc h

lease_failure-code :
    (is_leader : Bool) (known : Option Bytes)
    → ((RaftNode.lease_failure is_leader known).code ≡ internal)
      ⊎ ((RaftNode.lease_failure is_leader known).code ≡ not_leader)
unfolding RaftNode.lease_failure
lease_failure-code true known = inl refl
lease_failure-code false known = inr refl

-- What a read of a state answers.
abbrev pub answer_of : State → Bytes → GetResult
answer_of s key =
    RaftNode.read_result
      (elim (visible (s.main key)) [ none ↦ miss key_not_found | some kv ↦ hit kv ])

module _ (E : Engine) (laws : EngineLaws E) (course : GetCourse E) (state_at : ℕ → State) (n : ℕ)
    (m : Models E laws course.store (state_at n)) (readable : Readable E course.store) where
  -- The outcome of a linearizable read for an entry `i`.
  abbrev pub Linear : ℕ → Bytes → GetResult → Type 0
  Linear i key r =
      (r.code ≡ internal)
      ⊎ (r.code ≡ not_leader)
      ⊎ (HadLease course.lease_rounds × (i ≤ n) × (r ≡ answer_of (state_at n) key))

  local_read-answer_of :
      (key : Bytes) → RaftNode.local_read E course.store key ≡ answer_of (state_at n) key
  unfolding RaftNode.local_read
  local_read-answer_of key =
      ap RaftNode.read_result (get-Models E laws course.store (state_at n) m readable key)

  after_catch_up-Linear :
      (i : ℕ) (key : Bytes) (o : Option Bool) (r : GetResult)
      → HadLease course.lease_rounds
      → (o ≡ some true → i ≤ n)
      → RaftNode.after_catch_up E key course.store o ≡ some r
      → Linear i key r
  unfolding RaftNode.after_catch_up
  after_catch_up-Linear i key none r had b h = cc h
  after_catch_up-Linear i key (some false) r had b h = inl (ap (λ x. x.code) (sym (the_result h)))
  after_catch_up-Linear i key (some true) r had b h =
      inr (inr (had, b refl, sym (the_result h) ∙ local_read-answer_of key))

  after_lease-Linear :
      (i : ℕ) (key : Bytes) (o : Option Bool) (r : GetResult)
      → SampledWithin i n course.catchup_rounds
      → (o ≡ some true → HadLease course.lease_rounds)
      → RaftNode.after_lease E key course o ≡ some r
      → Linear i key r
  unfolding RaftNode.after_lease
  after_lease-Linear i key none r s had h = cc h
  after_lease-Linear i key (some false) r s had h =
      elim (lease_failure-code course.is_leader course.known_leader) [
        | inl e ↦ inl (ap (λ x. x.code) (sym (the_result h)) ∙ e)
        | inr e ↦ inr (inl (ap (λ x. x.code) (sym (the_result h)) ∙ e))
      ]
  after_lease-Linear i key (some true) r s had h =
      after_catch_up-Linear i key _ r (had refl)
        (wait_applied_catch_up-le i n course.catchup_start course.catchup_rounds s) h

  -- Suppose that the read finds the state after the first `n` entries of the log, that no sample of
  -- braft shows a higher applied index, and that every sample shows the entry `i` as committed, as
  -- it does for an entry that was acknowledged before the read. Then a linearizable read that
  -- returns either fails with INTERNAL or NOT_LEADER, or had seen a valid lease and answers from a
  -- state that has the entry `i` applied: the current record of the key there, or KEY_NOT_FOUND.
  pub get-Linear :
      (i : ℕ) (key : Bytes) (r : GetResult)
      → SampledWithin i n course.catchup_rounds
      → RaftNode.get E key false course ≡ some r
      → Linear i key r
  unfolding RaftNode.get
  get-Linear i key r s h =
      after_lease-Linear i key _ r s
        (wait_leader_lease-HadLease course.lease_start course.lease_rounds) h

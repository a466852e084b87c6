-- ===== src/Watch/Endings.antt =====
-- The end of a long poll of src/watch/watch_hub.cpp.
use configraft.Base.{
  ℕ, zero, suc, ◌+◌, ◌*◌, ◌^◌, ◌≤◌, ◌<◌, ◌≡◌, refl, sym, subst, Bool, true, false, not, ◌||◌,
  Option, none, some, List, [], ◌∷◌, length, arith, Int64, slt, ltb, is_negative, if◌then◌else◌,
  Bool-cases, inl, inr,
}
use configraft.Base.Bytes.{Bytes}
use configraft.Base.Waiting.{Paced, Returns, early}
use configraft.LevelDb.{Engine, EngineLaws, Readable}
use configraft.Mvcc.{State}
use configraft.Mvcc.Invariant.{IsConsistent}
use configraft.Results.{WatchResult}
use configraft.Store
use configraft.Store.Reads.{Models}
use configraft.Store.Replay.{replay_events-make_event}
use configraft.Store.Scan
use configraft.Store.Scan.{Replay}
use configraft.Watch.Hub.{WatchHub}
use configraft.Watch.Poll
use configraft.Watch.Poll.{Course, Tick, Wake, CatchUp, caught_up, left, still_behind, is_positive}

-- Whether one of the waits for an event reaches the deadline.
abbrev pub is_timed_out : List Wake → Bool
is_timed_out [] = false
is_timed_out (w ∷ wakes) = w.timed_out || is_timed_out wakes

wait_loop-timed_out : (wakes : List Wake) → is_timed_out wakes ≡ true → Poll.wait_loop wakes ≡ true
unfolding Poll.wait_loop
wait_loop-timed_out [] h = cc h
wait_loop-timed_out (w ∷ wakes) h = ground (arith, wait_loop-timed_out wakes)

-- The deadline of the catch-up stands five seconds after its start at most.
catchup_deadline_bound :
    (server_deadline_us start : ℕ)
    → server_deadline_us < 2 ^ 64
    → start + 5000000 < 2 ^ 63
    → Poll.catchup_deadline server_deadline_us start ≤ start + 5000000
unfolding Poll.catchup_deadline
catchup_deadline_bound server_deadline_us start hw h = ground arith

module _ (E : Engine) where
  abbrev pub tick_times : List (Tick E) → List Int64
  tick_times [] = []
  tick_times (t ∷ ticks) = t.now ∷ tick_times ticks

  -- The catch-up has ended.
  abbrev pub IsOver : CatchUp → Type 0
  IsOver still_behind = ⊥
  IsOver _ = Unit {0}

  round-IsOver :
      (reached canceled past : Bool) (gone late : WatchResult) (rest : CatchUp)
      → (past ≡ false → IsOver rest)
      → IsOver (
          if reached
          then caught_up
          else if canceled
          then left true gone
          else if past
          then left false late
          else rest)
  round-IsOver true canceled past gone late rest h = tt
  round-IsOver false true past gone late rest h = tt
  round-IsOver false false true gone late rest h = tt
  round-IsOver false false false gone late rest h = h refl

  catch_up-IsOver :
      (from deadline t k : ℕ) (ticks : List (Tick E))
      → deadline < 2 ^ 63
      → Paced 5000 t (tick_times ticks)
      → deadline ≤ t + 5000 * k
      → k < length ticks
      → IsOver (Poll.catch_up E from deadline ticks)
  unfolding Poll.catch_up
  catch_up-IsOver from deadline t k [] hd p h hk = absurd (omega arith)
  catch_up-IsOver from deadline t zero (r ∷ ticks) hd (p, b, ps) h hk =
      round-IsOver (not (slt (Store.current_revision E r.db) from)) r.canceled _ _ _ _
        (λ (q : not (slt r.now deadline) ≡ false).
          absurd (omega (arith, early r.now deadline b hd q)))
  catch_up-IsOver from deadline t (suc k) (r ∷ ticks) hd (p, b, ps) h hk =
      round-IsOver (not (slt (Store.current_revision E r.db) from)) r.canceled _ _ _ _ (λ q.
        catch_up-IsOver from deadline (r.now + 5000) k ticks hd ps (omega arith) (omega arith))

module _ (E : Engine) (laws : EngineLaws E) (key : Bytes) (course : Course E) (w : ℕ) (s : State)
    (m : Models E laws course.replay_db s) (c : IsConsistent s)
    (readable : Readable E course.replay_db) (ends : is_timed_out course.wakes ≡ true) where
  registered-Returns :
      (from : Int64) (answer : Poll.Answer)
      → ¬ (answer ≡ Poll.raised)
      → Poll.replay_phase E from key course.hub.max_events_per_waiter course ≡ answer
      → Returns (Poll.registered E w from key course)
  unfolding Poll.registered
  registered-Returns from (Poll.answered b r) h e = rw (Poll.registered, e) (_, refl)
  registered-Returns from Poll.waits h e =
      rw (Poll.registered, e, wait_loop-timed_out course.wakes ends) (_, refl)
  registered-Returns from Poll.raised h e = absurd (h refl)

  after_replay-raised :
      (replay : Replay)
      → ¬ (replay ≡ Scan.thrown)
      → ¬ (Poll.after_replay E course.replay_error_db replay ≡ Poll.raised)
  unfolding Poll.after_replay
  after_replay-raised (Scan.replayed []) h e = cc e
  after_replay-raised (Scan.replayed (x ∷ events)) h e = cc e
  after_replay-raised Scan.compacted h e = cc e
  after_replay-raised Scan.thrown h e = h refl

  module _ (small : Store.current_revision E course.current_db < 2 ^ 63)
      (some_events : 0 < course.hub.max_events_per_waiter)
      (int_events : course.hub.max_events_per_waiter < 2 ^ 31) where
    replay-thrown :
        (from : Int64)
        → from + 1 < 2 ^ 63
        → ¬ (
            Scan.replay_events E course.replay_db from
              (Store.current_revision E course.current_db)
              key
              course.hub.max_events_per_waiter
            ≡ Scan.thrown)
    replay-thrown from h e =
        let answer =
          replay_events-make_event E laws course.replay_db s m c readable from
            (Store.current_revision E course.current_db) key course.hub.max_events_per_waiter h
            small some_events int_events in
        elim (Bool-cases (ltb from s.compacted)) [
          | inl b ↦ cc (answer, e, b)
          | inr b ↦ cc (answer, e, b)
        ]

    replay_phase-raised :
        (from : Int64)
        → from + 1 < 2 ^ 63
        → ¬ (Poll.replay_phase E from key course.hub.max_events_per_waiter course ≡ Poll.raised)
    unfolding Poll.replay_phase
    replay_phase-raised from h e = elim (Bool-cases (is_positive from)) [
      | inl b ↦ after_replay-raised _ (replay-thrown from h) (rw (Poll.replay_phase, b) at e)
      | inr b ↦ cc (rw (Poll.replay_phase, b) at e)
    ]

    -- The parts of a poll in front of the registration.
    entry-Returns :
        (entry : Option WatchResult) (positive : Bool) (u : CatchUp) (from : Int64)
        → IsOver E u
        → Returns (Poll.registered E w from key course)
        → Returns (elim entry [
          | some r ↦ some (course.hub, false, r)
          | none ↦
              if positive
              then elim u [
                | left b r ↦ some (course.hub, b, r)
                | still_behind ↦ none
                | caught_up ↦ Poll.registered E w from key course
              ]
              else Poll.registered E w from key course
        ])
    entry-Returns (some r) positive u from over h = (_, refl)
    entry-Returns none false u from over h = h
    entry-Returns none true caught_up from over h = h
    entry-Returns none true (left b r) from over h = (_, refl)
    entry-Returns none true still_behind from over h = absurd over

    -- The poll behind the test for a negative revision.
    poll_from : Int64 → Int64 → Option (WatchHub × Bool × WatchResult)
    poll_from from server_deadline_us =
        elim (Poll.entry_check E from course.entry_db course.entry_error_db) [
          | some r ↦ some (course.hub, false, r)
          | none ↦
              if is_positive from
              then elim (Poll.catch_up E from
                  (Poll.catchup_deadline server_deadline_us course.start) course.ticks) [
                    | left b r ↦ some (course.hub, b, r)
                    | still_behind ↦ none
                    | caught_up ↦ Poll.registered E w from key course
                  ]
              else Poll.registered E w from key course
        ]

    -- On a clock that moves at least 5 ms in each round of the catch-up, and stays below 2 ^ 63
    -- microseconds, 1001 rounds of it are enough, and if one of the waits for an event reaches its
    -- deadline, a long poll returns, whatever is broadcast meanwhile, from whatever revision below
    -- 2 ^ 63 - 1 it resumes, and whatever the deadline of the server. Its replay reads a readable
    -- database with a consistent state, and the limit of its buffer is a positive int.
    pub watch-Returns :
        (from server_deadline_us : Int64)
        → from + 1 < 2 ^ 63
        → server_deadline_us < 2 ^ 64
        → course.start + 5000000 < 2 ^ 63
        → Paced 5000 course.start (tick_times E course.ticks)
        → 1000 < length course.ticks
        → Returns (Poll.watch E key from server_deadline_us w course)
    unfolding Poll.watch poll_from
    watch-Returns from server_deadline_us h hw hs paced long =
        let bound = catchup_deadline_bound server_deadline_us course.start hw hs in
        let not_negative : is_negative from ≡ false = ground arith in
        let same : (if is_negative from then 0 else from) ≡ from = rw not_negative refl in
        subst (λ n. Returns (poll_from n server_deadline_us)) (sym same)
          (entry-Returns _ _ _ from
            (catch_up-IsOver E from (Poll.catchup_deadline server_deadline_us course.start)
              course.start 1000 course.ticks (omega (arith, bound)) paced (omega (arith, bound))
              long)
            (registered-Returns from _ (replay_phase-raised from h) refl))

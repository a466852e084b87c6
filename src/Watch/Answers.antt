-- ===== src/Watch/Answers.antt =====
-- What a long poll that starts from now on returns.
use configraft.Base.{
  ℕ, ◌≡◌, refl, ap, subst, ◌∙◌, Bool, true, false, Option, none, some, List, [], ◌∷◌, length, ltb,
  ◌==◌, if◌then◌else◌, arith, Int64, inl, inr,
}
use configraft.Base.Bytes.{Bytes}
use configraft.Proto.{WatchEvent, internal}
use configraft.LevelDb.{Engine}
use configraft.Results.{WatchResult}
use configraft.Store
use configraft.Watch.Hub
use configraft.Watch.Hub.{Waiter, WatchHub}
use configraft.Watch.Poll
use configraft.Watch.Poll.{Course, reset_watch, overflow_message, with_events}
use configraft.Watch.Delivery.{wanted, Buffer, occurrences, enter-Serves}
use configraft.Watch.Activity.{Activity, run_hub, sent_by, Others, run_hub-Serves, erase_other}

-- The answer to a poll whose waiter was sent `events` while revision `current` was reached.
abbrev pub answer : ℕ → Int64 → List WatchEvent → Bool × WatchResult
answer max_events current [] = (true, record reset_watch { current_revision = current })
answer max_events current (e ∷ events) =
    if ltb max_events (length (e ∷ events))
    then (
      false,
      record reset_watch {
        code = internal;
        message = overflow_message;
        current_revision = current;
      },
    )
    else (true, with_events e events)

module _ (E : Engine) where
  wait_result-answer :
      (max_events : ℕ) (events : List WatchEvent) (x : Waiter) (d : E.Db)
      → Buffer max_events events x
      → Poll.wait_result E x d ≡ answer max_events (Store.current_revision E d) events
  unfolding Poll.wait_result
  wait_result-answer max_events [] x d (inl (over, many)) = absurd (omega arith)
  wait_result-answer max_events (e ∷ events) x d (inl (over, many)) = ground arith
  wait_result-answer max_events [] x d (inr (kept, held, room)) = rw (kept, held)
  wait_result-answer max_events (e ∷ events) x d (inr (kept, held, room)) =
      rw (kept, held) (ground (arith, ap length held))

erase_lem :
    (w : ℕ) (x : Waiter) (live : ℕ → Option Waiter) (l : List ℕ)
    → live w ≡ some x
    → occurrences w (Hub.erase w live l) ≡ 0
unfolding Hub.erase
erase_lem w x live [] h = refl
erase_lem w x live (v ∷ l) h = ground (arith, erase_lem w x live l h)

one_waiter : {a b : Waiter} {o : Option Waiter} → o ≡ some a → o ≡ some b → a ≡ b
one_waiter h e = cc (h, e)

leave-occurrences :
    (hub : WatchHub) (w : ℕ) (x : Waiter)
    → hub.live w ≡ some x
    → (v : ℕ)
    → (occurrences v (Hub.leave hub w).waiters ≡ (if w == v then 0 else occurrences v hub.waiters))
      × ((Hub.leave hub w).live v ≡ (if w == v then none else hub.live v))
unfolding Hub.leave Hub.unregister Hub.set_live
leave-occurrences hub w x h v = (
  ground (arith, erase_lem w x hub.live hub.waiters h, erase_other w v hub.live hub.waiters),
  refl,
)

-- What a poll whose wait has ended makes of its waiter.
pub waited-answer :
    (E : Engine) (key : Bytes) (w : ℕ) (course : Course E) (acts : List Activity)
    → occurrences w course.hub.waiters ≡ 0
    → Others w acts
    → course.wait_hub ≡ run_hub (Hub.enter course.hub w key) acts
    → course.wait_hub.live w ≡ some course.waiter
    → Poll.wait_result E course.waiter course.exit_db
      ≡ answer course.hub.max_events_per_waiter
          (Store.current_revision E course.exit_db)
          (wanted key (sent_by acts))
waited-answer E key w course acts new others served owned =
    let s =
      run_hub-Serves course.hub.max_events_per_waiter key [] w (Hub.enter course.hub w key) acts
        others (enter-Serves key w course.hub new) in
    let same : s.waiter ≡ course.waiter = one_waiter (ap (λ h. h.live w) served ∙ s.owned) owned in
    subst
      (λ y.
        Poll.wait_result E y course.exit_db
        ≡ answer course.hub.max_events_per_waiter (Store.current_revision E course.exit_db)
            (wanted key (sent_by acts)))
      same
      (wait_result-answer E course.hub.max_events_per_waiter (wanted key (sent_by acts)) s.waiter
        course.exit_db s.delivered.buffer)

module _ (E : Engine) (key : Bytes) (server_deadline_us : Int64) (w : ℕ) (course : Course E)
    (acts : List Activity) where
  -- A poll starts from revision 0 as a new waiter. While it waits, its hub sees broadcasts, and other
  -- polls that register and leave, in any order. Once its wait has ended it takes its waiter off the
  -- hub, which then holds no pointer to it and to all other waiters those that it held. It returns
  -- exactly the events of those broadcasts that it watches, in order, with the last one's revision
  -- as its anchor. Without such events it returns the current revision, and with more of them than
  -- the buffer holds INTERNAL and the current revision.
  pub watch-broadcasts :
      occurrences w course.hub.waiters ≡ 0
      → Others w acts
      → course.wait_hub ≡ run_hub (Hub.enter course.hub w key) acts
      → course.wait_hub.live w ≡ some course.waiter
      → Poll.wait_loop course.wakes ≡ true
      → let hub = Hub.leave course.wait_hub w in
        let current = Store.current_revision E course.exit_db in
        let r = answer course.hub.max_events_per_waiter current (wanted key (sent_by acts)) in
        (Poll.watch E key 0 server_deadline_us w course ≡ some (hub, r.0, r.1))
        × ((v : ℕ)
            → (occurrences v hub.waiters
                ≡ (if w == v then 0 else occurrences v course.wait_hub.waiters))
              × (hub.live v ≡ (if w == v then none else course.wait_hub.live v)))
  unfolding Poll.watch Poll.registered Poll.replay_phase Poll.entry_check
  watch-broadcasts new others served owned ended = (
    rw (ended, waited-answer E key w course acts new others served owned) refl,
    leave-occurrences course.wait_hub w course.waiter owned,
  )

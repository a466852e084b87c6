-- ===== src/Checks/Endings.antt =====
-- A poll on a node that never catches up.
use configraft.Base.{
  ℕ, zero, suc, ◌+◌, ◌*◌, ◌^◌, ◌<◌, ◌≡◌, refl, false, true, List, [], ◌∷◌, length, arith,
}
use configraft.Base.Waiting.{Paced, Returns}
use configraft.LevelDb.Memory.{memory, memory_laws}
use configraft.Store
use configraft.Watch.Endings.{tick_times, watch-Returns}
use configraft.Watch.Poll
use configraft.Watch.Poll.{Course, Tick}
use configraft.Checks.Stores.{
  run_store, after_publish, published_state, after_publish-Models, published-IsConsistent,
  after_publish-Readable,
}
use configraft.Checks.Resumptions.{course}
use configraft.Checks.Watching.{key, woken}

-- Rounds of the catch-up, 5 ms apart.
unfoldable ticks : ℕ → ℕ → List (Tick memory)
ticks zero t = []
ticks (suc n) t =
    record { db = after_publish; canceled = false; now = t; behind_db = after_publish }
    ∷ ticks n (t + 5000)

ticks-Paced : (n t : ℕ) → t + 5000 * n < 2 ^ 63 → Paced 5000 t (tick_times memory (ticks n t))
unfolding ticks
ticks-Paced zero t h = tt
ticks-Paced (suc n) t h = (omega arith, omega arith, ticks-Paced n (t + 5000) (omega arith))

length-ticks : (n t : ℕ) → length (ticks n t) ≡ n
unfolding ticks
length-ticks zero t = refl
length-ticks (suc n) t = omega (arith, length-ticks n (t + 5000))

-- The poll of the resumption, which has time to catch up, and whose wait times out.
abbrev patient : Course memory
patient = record course {
  ticks = ticks 1001 0;
  wakes = record { waiter = woken; canceled = false; timed_out = true } ∷ [];
}

small_revision : Store.current_revision memory after_publish < 2 ^ 63
unfolding run_store
small_revision = omega arith

watch-Returns_example : Returns (Poll.watch memory key 9 0 7 patient)
watch-Returns_example =
    watch-Returns memory memory_laws key patient 7 published_state after_publish-Models
      published-IsConsistent after_publish-Readable refl small_revision (omega arith) (omega arith)
      9 0 (omega arith) (omega arith) (omega arith) (ticks-Paced 1001 0 (omega arith))
      (omega (arith, length-ticks 1001 0))

-- ===== src/Watch/Hub.antt =====
-- src/watch/watch_hub.h, src/watch/watch_hub.cpp: the waiters and the broadcast. A pointer to a
-- waiter is a number; `live` holds the waiters whose owner has not destroyed them, so that `lock()`
-- of a weak pointer is to look it up. The locks are not modelled: an operation is one step.
use configraft.Base.{
  ℕ, Bool, true, false, not, ◌||◌, Option, none, some, List, [], ◌∷◌, ◌++◌, length, leb, ◌==◌,
  if◌then◌else◌,
}
use configraft.Base.Bytes.{Bytes, bytes_eq}
use configraft.Proto.{WatchEvent}

pub record Waiter : Type 0 where
  pub key_filter : Bytes
  pub events : List WatchEvent
  pub overflow : Bool

pub record WatchHub : Type 0 where
  pub waiters : List ℕ
  pub live : ℕ → Option Waiter
  pub max_events_per_waiter : ℕ

abbrev pub max_watch_events : ℕ
max_watch_events = 1024

-- The constructor: a limit of 0 stands for the default.
unfoldable pub make_hub : ℕ → WatchHub
make_hub max_events = record {
  waiters = [];
  live = λ w. none;
  max_events_per_waiter = if max_events == 0 then max_watch_events else max_events;
}

-- `std::make_shared<Waiter>()` with its filter.
unfoldable pub new_waiter : Bytes → Waiter
new_waiter key = record { key_filter = key; events = []; overflow = false }

unfoldable pub matches : Waiter → WatchEvent → Bool
matches w e = bytes_eq w.key_filter [] || bytes_eq e.key w.key_filter

unfoldable pub set_live : WatchHub → ℕ → Option Waiter → WatchHub
set_live hub w o = record hub { live = λ v. if w == v then o else hub.live v }

unfoldable pub register : WatchHub → ℕ → WatchHub
register hub w = record hub { waiters = hub.waiters ++ (w ∷ []) }

unfoldable pub erase : ℕ → (ℕ → Option Waiter) → List ℕ → List ℕ
erase w live [] = []
erase w live (v ∷ waiters) =
    let rest = erase w live waiters in
    elim (live v) [ none ↦ v ∷ rest | some x ↦ if v == w then rest else v ∷ rest ]

-- An entry goes if its lock yields the waiter; an expired entry stays.
unfoldable pub unregister : WatchHub → ℕ → WatchHub
unfolding erase
unregister hub w = record hub { waiters = erase w hub.live hub.waiters }

-- The loop over the events for one waiter: a full buffer is dropped, and the rest of the events.
unfoldable pub push_events : ℕ → Waiter → List WatchEvent → Waiter
unfolding matches
push_events max_events w [] = w
push_events max_events w (e ∷ events) =
    let skipped = push_events max_events w events in
    let pushed = push_events max_events (record w { events = w.events ++ (e ∷ []) }) events in
    if not (matches w e)
    then skipped
    else if leb max_events (length w.events)
    then record w { events = []; overflow = true }
    else pushed

unfoldable pub notify : List WatchEvent → WatchHub → ℕ → WatchHub
unfolding push_events set_live
notify events hub w = elim (hub.live w) [
  | none ↦ hub
  | some x ↦ set_live hub w (some (push_events hub.max_events_per_waiter x events))
]

-- The loop over the snapshot of the waiters.
unfoldable pub notify_all : List WatchEvent → WatchHub → List ℕ → WatchHub
unfolding notify
notify_all events hub [] = hub
notify_all events hub (w ∷ snapshot) = notify_all events (notify events hub w) snapshot

unfoldable pub broadcast : WatchHub → List WatchEvent → WatchHub
unfolding notify_all
broadcast hub [] = hub
broadcast hub (e ∷ events) = notify_all (e ∷ events) hub hub.waiters

-- A long poll makes its waiter and registers it.
unfoldable pub enter : WatchHub → ℕ → Bytes → WatchHub
unfolding set_live register new_waiter
enter hub w key = register (set_live hub w (some (new_waiter key))) w

-- It takes the waiter off the hub, then destroys it.
unfoldable pub leave : WatchHub → ℕ → WatchHub
unfolding set_live unregister
leave hub w = set_live (unregister hub w) w none

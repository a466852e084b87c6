-- ===== src/Watch/Activity.antt =====
-- What happens at the hub of src/watch/watch_hub.cpp while a poll waits: broadcasts, and other polls.
use configraft.Base.{
  ℕ, ◌≡◌, refl, sym, subst, ◌∙◌, false, Option, List, [], ◌∷◌, ◌++◌, ◌==◌, arith, append_assoc,
  append-nil,
}
use configraft.Base.Bytes.{Bytes}
use configraft.Proto.{WatchEvent}
use configraft.Watch.Hub
use configraft.Watch.Hub.{Waiter, WatchHub}
use configraft.Watch.Delivery.{occurrences, occurrences-append, Serves, broadcast-Serves}

-- What reaches the hub while a poll waits: broadcasts, other polls that register, and other polls that
-- leave.
pub data Activity : Type 0 where
  broadcasts_events : List WatchEvent → Activity
  enters : ℕ → Bytes → Activity
  leaves : ℕ → Activity

abbrev pub act : WatchHub → Activity → WatchHub
act hub (broadcasts_events events) = Hub.broadcast hub events
act hub (enters v key) = Hub.enter hub v key
act hub (leaves v) = Hub.leave hub v

unfoldable pub run_hub : WatchHub → List Activity → WatchHub
run_hub hub [] = hub
run_hub hub (a ∷ acts) = run_hub (act hub a) acts

-- The events of all broadcasts, in order.
abbrev pub sent_by : List Activity → List WatchEvent
sent_by [] = []
sent_by (broadcasts_events events ∷ acts) = events ++ sent_by acts
sent_by (enters v key ∷ acts) = sent_by acts
sent_by (leaves v ∷ acts) = sent_by acts

-- The polls that register and leave have waiters of their own.
abbrev pub Others : ℕ → List Activity → Type 0
Others w [] = Unit {0}
Others w (broadcasts_events events ∷ acts) = Others w acts
Others w (enters v key ∷ acts) = ((v == w) ≡ false) × Others w acts
Others w (leaves v ∷ acts) = ((v == w) ≡ false) × Others w acts

-- Erasing one waiter keeps the pointers to another.
pub erase_other :
    (v w : ℕ) (live : ℕ → Option Waiter) (l : List ℕ)
    → (v == w) ≡ false
    → occurrences w (Hub.erase v live l) ≡ occurrences w l
unfolding Hub.erase
erase_other v w live [] h = refl
erase_other v w live (u ∷ l) h = ground (arith, erase_other v w live l h)

module _ (max_events : ℕ) (key : Bytes) (seen : List WatchEvent) (w : ℕ) (hub : WatchHub)
    (s : Serves max_events key seen w hub) where
  enters-Serves :
      (v : ℕ) (other : Bytes)
      → (v == w) ≡ false
      → Serves max_events key seen w (Hub.enter hub v other)
  unfolding Hub.enter Hub.register Hub.set_live
  enters-Serves v other h = record {
    waiter = s.waiter;
    owned = rw h s.owned;
    once = ground (arith, s.once, occurrences-append w hub.waiters (v ∷ []));
    limit = s.limit;
    delivered = s.delivered;
  }

  leaves-Serves : (v : ℕ) → (v == w) ≡ false → Serves max_events key seen w (Hub.leave hub v)
  unfolding Hub.leave Hub.unregister Hub.set_live
  leaves-Serves v h = record {
    waiter = s.waiter;
    owned = rw h s.owned;
    once = erase_other v w hub.live hub.waiters h ∙ s.once;
    limit = s.limit;
    delivered = s.delivered;
  }

pub run_hub-Serves :
    (max_events : ℕ) (key : Bytes) (seen : List WatchEvent) (w : ℕ) (hub : WatchHub)
    (acts : List Activity)
    → Others w acts
    → Serves max_events key seen w hub
    → Serves max_events key (seen ++ sent_by acts) w (run_hub hub acts)
unfolding run_hub
run_hub-Serves max_events key seen w hub [] h s =
    subst (λ l. Serves max_events key l w hub) (sym (append-nil seen)) s
run_hub-Serves max_events key seen w hub (broadcasts_events events ∷ acts) h s =
    subst (λ l. Serves max_events key l w (run_hub (Hub.broadcast hub events) acts))
      (append_assoc seen events (sent_by acts))
      (run_hub-Serves max_events key (seen ++ events) w (Hub.broadcast hub events) acts h
        (broadcast-Serves max_events key seen events w hub s))
run_hub-Serves max_events key seen w hub (enters v other ∷ acts) (q, h) s =
    run_hub-Serves max_events key seen w (Hub.enter hub v other) acts h
      (enters-Serves max_events key seen w hub s v other q)
run_hub-Serves max_events key seen w hub (leaves v ∷ acts) (q, h) s =
    run_hub-Serves max_events key seen w (Hub.leave hub v) acts h
      (leaves-Serves max_events key seen w hub s v q)

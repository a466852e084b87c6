-- ===== src/Watch/Delivery.antt =====
-- What a waiter holds after any number of broadcasts, and what its long poll then returns.
use configraft.Base.{
  ℕ, suc, ◌+◌, ◌≤◌, ◌<◌, ◌≡◌, refl, ap, sym, subst, ◌∙◌, true, false, ◌||◌, some, List, [], ◌∷◌,
  ◌++◌, length, keep, leb, ◌==◌, if◌then◌else◌, arith, length-append, append_assoc, append-nil, ◌⊎◌,
  inl, inr, Bool-cases,
}
use configraft.Base.Bytes.{Bytes, bytes_eq}
use configraft.Proto.{WatchEvent}
use configraft.Watch.Hub
use configraft.Watch.Hub.{Waiter, WatchHub}

-- The events that a watcher of `key` waits for; the empty key stands for all.
abbrev pub wanted : Bytes → List WatchEvent → List WatchEvent
wanted key events = keep (λ e. bytes_eq key [] || bytes_eq e.key key) events

-- A buffer of at most `max_events` events after more events came.
abbrev pub Buffer : ℕ → List WatchEvent → Waiter → Type 0
Buffer max_events all x =
    (x.overflow ≡ true) × (max_events < length all)
    ⊎ (x.overflow ≡ false) × (x.events ≡ all) × (length x.events ≤ max_events)

-- What a waiter for `key` holds after the events `seen`: exactly those it waits for, unless they were
-- too many, which it knows.
pub record Delivered (max_events : ℕ) (key : Bytes) (seen : List WatchEvent) (x : Waiter)
    : Type 0 where
  pub filter : x.key_filter ≡ key
  pub buffer : Buffer max_events (wanted key seen) x

wanted-append :
    (key : Bytes) (xs ys : List WatchEvent) → wanted key (xs ++ ys) ≡ wanted key xs ++ wanted key ys
wanted-append key [] ys = refl
wanted-append key (x ∷ xs) ys = ground (arith, wanted-append key xs ys)

push_overflow :
    (max_events : ℕ) (x : Waiter) (events : List WatchEvent)
    → x.overflow ≡ true
    → (Hub.push_events max_events x events).overflow ≡ true
unfolding Hub.push_events
push_overflow max_events x [] h = h
push_overflow max_events x (e ∷ events) h = ground (
  arith,
  push_overflow max_events x events h,
  push_overflow max_events (record x { events = x.events ++ (e ∷ []) }) events h,
)

push_filter :
    (max_events : ℕ) (x : Waiter) (events : List WatchEvent)
    → (Hub.push_events max_events x events).key_filter ≡ x.key_filter
unfolding Hub.push_events
push_filter max_events x [] = refl
push_filter max_events x (e ∷ events) = ground (
  arith,
  push_filter max_events x events,
  push_filter max_events (record x { events = x.events ++ (e ∷ []) }) events,
)

push_Buffer :
    (max_events : ℕ) (x : Waiter) (events : List WatchEvent)
    → x.overflow ≡ false
    → length x.events ≤ max_events
    → Buffer max_events
        (x.events ++ wanted x.key_filter events)
        (Hub.push_events max_events x events)
unfolding Hub.push_events Hub.matches
push_Buffer max_events x [] h room = inr (h, sym (append-nil x.events), room)
push_Buffer max_events x (e ∷ events) h room = elim (Bool-cases (Hub.matches x e)) [
  | inl q ↦ elim (Bool-cases (leb max_events (length x.events))) [
    | inl full ↦
        rw (q, full)
          (inl (refl, ground (arith, length-append x.events (e ∷ wanted x.key_filter events))))
    | inr free ↦
        rw (q, free)
          (subst
            (λ l.
              Buffer max_events l
                (Hub.push_events max_events (record x { events = x.events ++ (e ∷ []) }) events))
            (append_assoc x.events (e ∷ []) (wanted x.key_filter events))
            (push_Buffer max_events (record x { events = x.events ++ (e ∷ []) }) events h
              (ground (arith, length-append x.events (e ∷ [])))))
  ]
  | inr q ↦ rw q (push_Buffer max_events x events h room)
]

push-Delivered :
    (max_events : ℕ) (key : Bytes) (seen events : List WatchEvent) (x : Waiter)
    → Delivered max_events key seen x
    → Delivered max_events key (seen ++ events) (Hub.push_events max_events x events)
push-Delivered max_events key seen events x r = record {
  filter = push_filter max_events x events ∙ r.filter;
  buffer =
      subst (λ l. Buffer max_events l pushed) (sym (wanted-append key seen events))
        (elim r.buffer [
          | inl (over, many) ↦ inl (
            push_overflow max_events x events over,
            omega (arith, length-append (wanted key seen) (wanted key events)),
          )
          | inr (none_lost, held, room) ↦
              subst (λ l. Buffer max_events (l ++ wanted key events) pushed) held
                (subst (λ k. Buffer max_events (x.events ++ wanted k events) pushed) r.filter
                  (push_Buffer max_events x events none_lost room))
        ]);
}
  where
    pushed : Waiter
    pushed = Hub.push_events max_events x events

-- How often the hub points to a waiter.
abbrev pub occurrences : ℕ → List ℕ → ℕ
occurrences w [] = 0
occurrences w (v ∷ l) = let rest = occurrences w l in if v == w then suc rest else rest

notify_other :
    (events : List WatchEvent) (hub : WatchHub) (v w : ℕ)
    → (v == w) ≡ false
    → (Hub.notify events hub v).live w ≡ hub.live w
unfolding Hub.notify Hub.set_live
notify_other events hub v w h = ground arith

notify_same :
    (events : List WatchEvent) (hub : WatchHub) (w : ℕ) (x : Waiter)
    → hub.live w ≡ some x
    → (Hub.notify events hub w).live w ≡ some (Hub.push_events hub.max_events_per_waiter x events)
unfolding Hub.notify Hub.set_live
notify_same events hub w x h = ground arith

notify_kept :
    (events : List WatchEvent) (hub : WatchHub) (v : ℕ)
    → ((Hub.notify events hub v).waiters ≡ hub.waiters)
      × ((Hub.notify events hub v).max_events_per_waiter ≡ hub.max_events_per_waiter)
unfolding Hub.notify Hub.set_live
notify_kept events hub v = ground arith

notify_all_other :
    (events : List WatchEvent) (hub : WatchHub) (w : ℕ) (l : List ℕ)
    → occurrences w l ≡ 0
    → (Hub.notify_all events hub l).live w ≡ hub.live w
unfolding Hub.notify_all
notify_all_other events hub w [] h = refl
notify_all_other events hub w (v ∷ l) h =
    ground
      (arith, notify_all_other events (Hub.notify events hub v) w l, notify_other events hub v w)

-- A waiter that the snapshot points to once gets the events once.
notify_all_same :
    (events : List WatchEvent) (hub : WatchHub) (w : ℕ) (l : List ℕ) (x : Waiter)
    → occurrences w l ≡ 1
    → hub.live w ≡ some x
    → (Hub.notify_all events hub l).live w
      ≡ some (Hub.push_events hub.max_events_per_waiter x events)
unfolding Hub.notify_all
notify_all_same events hub w [] x h e = absurd (omega arith)
notify_all_same events hub w (v ∷ l) x h e = elim (Bool-cases (v == w)) [
  | inl q ↦
      ground
        (arith, notify_all_other events (Hub.notify events hub v) w l, notify_same events hub w x e)
  | inr q ↦
      notify_all_same events (Hub.notify events hub v) w l x (ground arith)
        (notify_other events hub v w q ∙ e)
      ∙ ap (λ n. some (Hub.push_events n x events)) (notify_kept events hub v).1
]

notify_all_kept :
    (events : List WatchEvent) (hub : WatchHub) (l : List ℕ)
    → ((Hub.notify_all events hub l).waiters ≡ hub.waiters)
      × ((Hub.notify_all events hub l).max_events_per_waiter ≡ hub.max_events_per_waiter)
unfolding Hub.notify_all
notify_all_kept events hub [] = (refl, refl)
notify_all_kept events hub (v ∷ l) =
    let rest = notify_all_kept events (Hub.notify events hub v) l in
    let one = notify_kept events hub v in (rest.0 ∙ one.0, rest.1 ∙ one.1)

-- The hub after a sequence of broadcasts.
unfoldable pub broadcasts : WatchHub → List (List WatchEvent) → WatchHub
broadcasts hub [] = hub
broadcasts hub (events ∷ rest) = broadcasts (Hub.broadcast hub events) rest

-- The hub points once to the waiter `w` of a watcher of `key`, which holds what it should.
pub record Serves (max_events : ℕ) (key : Bytes) (seen : List WatchEvent) (w : ℕ) (hub : WatchHub)
    : Type 0 where
  pub waiter : Waiter
  pub owned : hub.live w ≡ some waiter
  pub once : occurrences w hub.waiters ≡ 1
  pub limit : hub.max_events_per_waiter ≡ max_events
  pub delivered : Delivered max_events key seen waiter

pub broadcast-Serves :
    (max_events : ℕ) (key : Bytes) (seen events : List WatchEvent) (w : ℕ) (hub : WatchHub)
    → Serves max_events key seen w hub
    → Serves max_events key (seen ++ events) w (Hub.broadcast hub events)
unfolding Hub.broadcast
broadcast-Serves max_events key seen [] w hub s =
    subst (λ l. Serves max_events key l w hub) (sym (append-nil seen)) s
broadcast-Serves max_events key seen (e ∷ events) w hub s =
    let kept = notify_all_kept (e ∷ events) hub hub.waiters in
    record {
      waiter = Hub.push_events max_events s.waiter (e ∷ events);
      owned =
          notify_all_same (e ∷ events) hub w hub.waiters s.waiter s.once s.owned
          ∙ ap (λ n. some (Hub.push_events n s.waiter (e ∷ events))) s.limit;
      once = ap (occurrences w) kept.0 ∙ s.once;
      limit = kept.1 ∙ s.limit;
      delivered = push-Delivered max_events key seen (e ∷ events) s.waiter s.delivered;
    }

pub occurrences-append :
    (w : ℕ) (xs ys : List ℕ) → occurrences w (xs ++ ys) ≡ occurrences w xs + occurrences w ys
occurrences-append w [] ys = omega arith
occurrences-append w (x ∷ xs) ys = ground (arith, occurrences-append w xs ys)

pub enter-Serves :
    (key : Bytes) (w : ℕ) (hub : WatchHub)
    → occurrences w hub.waiters ≡ 0
    → Serves hub.max_events_per_waiter key [] w (Hub.enter hub w key)
unfolding Hub.enter Hub.register Hub.set_live Hub.new_waiter
enter-Serves key w hub h = record {
  waiter = Hub.new_waiter key;
  owned = ground arith;
  once = ground (arith, occurrences-append w hub.waiters (w ∷ []));
  limit = refl;
  delivered = record { filter = refl; buffer = inr (refl, refl, omega arith) };
}

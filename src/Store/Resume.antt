-- ===== src/Store/Resume.antt =====
-- A watcher that resumes from the last revision it was sent.
use configraft.Base.{
  ℕ, zero, suc, ◌+◌, ◌^◌, ◌≤◌, ◌<◌, ◌≡◌, refl, ap, ap₂, sym, subst, ◌∙◌, true, false, List, [], ◌∷◌,
  ◌++◌, map, keep, take, ltb, ltb→lt, arith, Bool-cases, inl, inr,
}
use configraft.Base.Bytes.{Bytes}
use configraft.Proto.{Kv, WatchEvent}
use configraft.LevelDb.{Engine, EngineLaws, Readable}
use configraft.Mvcc.Invariant.{Ascending, IsConsistent}
use configraft.Store.History.{Ascending-weaken}
use configraft.Store.Replay.{seen, replay_events-make_event}
use configraft.Store.Reads.{Models}
use configraft.Mvcc.{State}
use configraft.Store.Scan
use configraft.Store.Scan.{replayed}
use configraft.StoreOps.{make_event}

-- The revision to resume from after `events`, asked for from `from`.
abbrev pub anchor : ℕ → List WatchEvent → ℕ
anchor from [] = from
anchor from (e ∷ events) = anchor e.revision events

-- The records behind a revision.
abbrev behind : ℕ → List Kv → List Kv
behind from l = keep (λ kv. ltb from kv.revision) l

abbrev events_of : ℕ → Bytes → List Kv → List WatchEvent
events_of current key l = map make_event (keep (seen current key) l)

Ascending-behind : (r from : ℕ) (l : List Kv) → Ascending r l → Ascending from (behind from l)
Ascending-behind r from [] a = tt
Ascending-behind r from (x ∷ l) (p, a) = elim (Bool-cases (ltb from x.revision)) [
  | inl h ↦ rw h (ltb→lt from x.revision h, Ascending-kept x.revision from l a)
  | inr h ↦ rw h (Ascending-behind x.revision from l a)
]
  where
    Ascending-kept : (r from : ℕ) (l : List Kv) → Ascending r l → Ascending r (behind from l)
    Ascending-kept r from [] a = tt
    Ascending-kept r from (x ∷ l) (p, a) = elim (Bool-cases (ltb from x.revision)) [
      | inl h ↦ rw h (p, Ascending-kept x.revision from l a)
      | inr h ↦ rw h (Ascending-weaken r _ (omega arith) (Ascending-kept x.revision from l a))
    ]

behind_all : (from r : ℕ) (l : List Kv) → from ≤ r → Ascending r l → behind from l ≡ l
behind_all from r [] h a = refl
behind_all from r (x ∷ l) h (p, a) = ground (arith, behind_all from x.revision l (omega arith) a)

behind-behind : (from b : ℕ) (l : List Kv) → from ≤ b → behind b (behind from l) ≡ behind b l
behind-behind from b [] h = refl
behind-behind from b (x ∷ l) h = ground (arith, behind-behind from b l h)

anchor_bound :
    (n current : ℕ) (key : Bytes) (from r : ℕ) (l : List Kv)
    → from ≤ r
    → Ascending r l
    → from ≤ anchor from (take n (events_of current key l))
unfolding make_event
anchor_bound zero current key from r l h a = omega arith
anchor_bound (suc n) current key from r [] h a = omega arith
anchor_bound (suc n) current key from r (x ∷ l) h (p, a) = elim (Bool-cases (seen current key x)) [
  | inl q ↦ rw q (omega (arith, anchor_bound n current key x.revision x.revision l (omega arith) a))
  | inr q ↦ rw q (anchor_bound (suc n) current key from x.revision l (omega arith) a)
]

behind_skip : (b : ℕ) (x : Kv) (l : List Kv) → x.revision ≤ b → behind b (x ∷ l) ≡ behind b l
behind_skip b x l h = ground arith

events_seen :
    (current : ℕ) (key : Bytes) (x : Kv) (l : List Kv)
    → seen current key x ≡ true
    → events_of current key (x ∷ l) ≡ make_event x ∷ events_of current key l
events_seen current key x l q = rw q refl

events_unseen :
    (current : ℕ) (key : Bytes) (x : Kv) (l : List Kv)
    → seen current key x ≡ false
    → events_of current key (x ∷ l) ≡ events_of current key l
events_unseen current key x l q = rw q refl

behind_unseen :
    (current : ℕ) (key : Bytes) (b : ℕ) (x : Kv) (l : List Kv)
    → seen current key x ≡ false
    → events_of current key (behind b (x ∷ l)) ≡ events_of current key (behind b l)
behind_unseen current key b x l q = elim (Bool-cases (ltb b x.revision)) [
  | inl h ↦ rw h (events_unseen current key x (behind b l) q)
  | inr h ↦ rw h refl
]

page :
    (n current : ℕ) (key : Bytes) (from : ℕ) (l : List Kv)
    → Ascending from l
    → let sent = take n (events_of current key l) in
      sent ++ events_of current key (behind (anchor from sent) l) ≡ events_of current key l
unfolding make_event
page zero current key from l a = ap (events_of current key) (behind_all from from l (omega arith) a)
page (suc n) current key from [] a = refl
page (suc n) current key from (x ∷ l) (p, a) = elim (Bool-cases (seen current key x)) [
  | inl q ↦
      let b = anchor x.revision (take n (events_of current key l)) in
      subst paged (sym (events_seen current key x l q)) (
        ap (λ t. make_event x ∷ t)
          (ap (λ m. take n (events_of current key l) ++ events_of current key m)
              (behind_skip b x l
                (anchor_bound n current key x.revision x.revision l (omega arith) a))
            ∙ page n current key x.revision l a))
  | inr q ↦
      let sent = take (suc n) (events_of current key l) in
      subst paged (sym (events_unseen current key x l q)) (
        ap (λ t. sent ++ t) (behind_unseen current key (anchor from sent) x l q)
        ∙ page (suc n) current key from l (Ascending-weaken from l (omega arith) a))
]
  where
    paged : List WatchEvent → Type 0
    paged all =
        take (suc n) all ++ events_of current key (behind (anchor from (take (suc n) all)) (x ∷ l))
        ≡ all

take_nil : (k : ℕ) → take {A = WatchEvent} k [] ≡ []
take_nil zero = refl
take_nil (suc k) = refl

take_split :
    (n k t : ℕ) (l rest : List WatchEvent)
    → t ≡ k + n
    → take n l ++ rest ≡ l
    → take t l ≡ take n l ++ take k rest
take_split zero k t l rest e h = ap (λ j. take j l) (omega arith) ∙ ap (take k) (sym h)
take_split (suc n) k zero l rest e h = absurd (omega arith)
take_split (suc n) k (suc t) [] rest e h = sym (take_nil k) ∙ ap (take k) (sym h)
take_split (suc n) k (suc t) (x ∷ l) rest e h =
    ap (λ m. x ∷ m) (take_split n k t l rest (omega arith) (cc h))

replayed_same : {a b : List WatchEvent} → replayed a ≡ replayed b → a ≡ b
replayed_same h = cc h

module _ (E : Engine) (laws : EngineLaws E) (d : E.Db) (s : State) (m : Models E laws d s)
    (c : IsConsistent s) (readable : Readable E d) where
  replay_value :
      (from current : ℕ) (key : Bytes) (n : ℕ)
      → s.compacted ≤ from
      → from + 1 < 2 ^ 63
      → current < 2 ^ 63
      → 0 < n
      → n < 2 ^ 31
      → Scan.replay_events E d from current key n
        ≡ replayed (take n (events_of current key (behind from s.history)))
  replay_value from current key n hs hf hc h0 hn =
      replay_events-make_event E laws d s m c readable from current key n hf hc h0 hn ∙ ground arith

  -- On a readable database that holds a consistent state, from a revision that has not been compacted
  -- and with limits and revisions in range: a replay of at most `n` events, followed by one of at
  -- most `k` events from the revision of the last event sent (or from the same revision, if none
  -- was sent), returns together what one replay of at most `k` + `n` events returns. So a watcher
  -- that resumes neither misses an event nor sees one twice.
  pub replay_events-anchor :
      (from current : ℕ) (key : Bytes) (n k : ℕ) (first second : List WatchEvent)
      → s.compacted ≤ from
      → from + 1 < 2 ^ 63
      → anchor from first + 1 < 2 ^ 63
      → current < 2 ^ 63
      → 0 < n
      → 0 < k
      → k + n < 2 ^ 31
      → Scan.replay_events E d from current key n ≡ replayed first
      → Scan.replay_events E d (anchor from first) current key k ≡ replayed second
      → Scan.replay_events E d from current key (k + n) ≡ replayed (first ++ second)
  replay_events-anchor from current key n k first second hs hf ha hc hn hk hb e₁ e₂ =
      let all = events_of current key (behind from s.history) in
      let ordered = Ascending-behind 0 from s.history c.ascending in
      let b = anchor from first in
      let first_sent : first ≡ take n all =
        replayed_same (sym e₁ ∙ replay_value from current key n hs hf hc hn (omega arith)) in
      let bound : from ≤ b =
        subst (λ l. from ≤ anchor from l) (sym first_sent)
          (anchor_bound n current key from from (behind from s.history) (omega arith) ordered) in
      let second_sent : second ≡ take k (events_of current key (behind b s.history)) =
        replayed_same
          (sym e₂ ∙ replay_value b current key k (omega arith) ha hc hk (omega arith)) in
      let rest : take n all ++ events_of current key (behind b s.history) ≡ all =
        subst (λ l. take n all ++ events_of current key l ≡ all)
          (ap (λ l. behind (anchor from l) (behind from s.history)) (sym first_sent)
            ∙ behind-behind from b s.history bound)
          (page n current key from (behind from s.history) ordered) in
      replay_value from current key (k + n) hs hf hc (omega arith) hb
      ∙ ap replayed (
          take_split n k (k + n) all (events_of current key (behind b s.history)) refl rest
          ∙ sym (ap₂ (λ x y. x ++ y) first_sent second_sent))

-- ===== src/Store/Compaction/Discards.antt =====
-- Which records of the history the batch of a compaction names.
use configraft.Base.{
  ℕ, ◌≤◌, ◌<◌, ◌≡◌, refl, true, false, Bool, none, List, [], ◌∷◌, map, All, arith, if◌then◌else◌,
  Int64, Bool-cases, inl, inr, leb,
}
use configraft.Base.Bytes.{Bytes, bytes_eq_iff, bytes_eq_refl}
use configraft.Proto.{Kv}
use configraft.StoreKey.{version_key}
use configraft.StoreKey.Distinct.{Slot, version_slot, config_slot}
use configraft.LevelDb.{Engine}
use configraft.LevelDb.Sorted.{lookup}
use configraft.Mvcc.Compact.{count, kept, dropped, has_version, last_revision, kept-All}
use configraft.Mvcc.Invariant.{Ascending}
use configraft.Store.Compaction.Dropped.{mentions}
use configraft.Store.Contents.{entry}

-- The slot of a record in the history.
abbrev pub slot_of : Kv → Slot
slot_of kv = version_slot kv.revision kv.key

Ascending-All : (r : ℕ) (l : List Kv) → Ascending r l → All (λ kv. r < kv.revision) l
Ascending-All r [] a = tt
Ascending-All r (x ∷ l) (p, a) = (p, weaken l (Ascending-All x.revision l a))
  where
    weaken :
        (xs : List Kv) → All (λ kv. x.revision < kv.revision) xs → All (λ kv. r < kv.revision) xs
    weaken [] b = tt
    weaken (y ∷ ys) (q, b) = (omega (arith, p), weaken ys b)

mentions_later :
    (kv : Kv) (l : List Kv)
    → All (λ x. kv.revision < x.revision) l
    → mentions (slot_of kv) l ≡ false
unfolding mentions
mentions_later kv [] a = refl
mentions_later kv (x ∷ l) (q, a) = ground (arith, mentions_later kv l a)

mentions_earlier :
    (x : Kv) (ds l : List Kv)
    → All (λ kv. x.revision < kv.revision) l
    → All (λ kv. mentions (slot_of kv) ds ≡ false) l
    → All (λ kv. mentions (slot_of kv) (x ∷ ds) ≡ false) l
unfolding mentions
mentions_earlier x ds [] a b = tt
mentions_earlier x ds (kv ∷ l) (p, a) (q, b) = (ground arith, mentions_earlier x ds l a b)

-- Records that stay are not among those that go, since no two have one revision.
pub kept-mentions :
    (n r : ℕ) (l : List Kv)
    → Ascending r l
    → All (λ kv. mentions (slot_of kv) (dropped n l) ≡ false) (kept n l)
unfolding kept dropped
kept-mentions n r [] a = tt
kept-mentions n r (x ∷ l) (p, a) =
    let later = kept-All (λ kv. x.revision < kv.revision) n l (Ascending-All x.revision l a) in
    elim (Bool-cases (leb n (count x.key l))) [
      | inl h ↦
          rw h
            (mentions_earlier x (dropped n l) (kept n l) later.0 (kept-mentions n x.revision l a))
      | inr h ↦ rw h (mentions_later x (dropped n l) later.1, kept-mentions n x.revision l a)
    ]

mentions_more :
    (x : Kv) (ds l : List Kv)
    → All (λ kv. mentions (slot_of kv) ds ≡ true) l
    → All (λ kv. mentions (slot_of kv) (x ∷ ds) ≡ true) l
unfolding mentions
mentions_more x ds [] b = tt
mentions_more x ds (kv ∷ l) (q, b) = (ground arith, mentions_more x ds l b)

pub mentions_own : (l : List Kv) → All (λ kv. mentions (slot_of kv) l ≡ true) l
unfolding mentions
mentions_own [] = tt
mentions_own (x ∷ l) = (ground (arith, bytes_eq_refl x.key), mentions_more x l l (mentions_own l))

pub mentions-has_version :
    (k : Bytes) (v : Int64) (l : List Kv) → mentions (config_slot k v) l ≡ has_version k v l
unfolding mentions has_version
mentions-has_version k v [] = refl
mentions-has_version k v (kv ∷ l) = rw (mentions-has_version k v l) refl

-- A revision that a list has is not above its greatest.
pub mentions-last_revision :
    (r : Int64) (k : Bytes) (top : ℕ) (l : List Kv)
    → mentions (version_slot r k) l ≡ true
    → r ≤ last_revision top l
unfolding mentions last_revision
mentions-last_revision r k top [] h = cc h
mentions-last_revision r k top (kv ∷ l) h = ground (arith, mentions-last_revision r k top l)

pub last_revision_top : (top : ℕ) (l : List Kv) → top ≤ last_revision top l
unfolding last_revision
last_revision_top top [] = omega arith
last_revision_top top (kv ∷ l) = ground (arith, last_revision_top top l)

module _ (E : Engine) where
  -- What is found among the records that stay, if `goes` tells them from those that go.
  pub lookup-kept :
      (goes : Bytes → Bool) (n : ℕ) (j : Bytes) (l : List Kv)
      → All (λ kv. goes (version_key kv.revision kv.key) ≡ false) (kept n l)
      → All (λ kv. goes (version_key kv.revision kv.key) ≡ true) (dropped n l)
      → lookup j (map (entry E) (kept n l)) ≡ (if goes j then none else lookup j (map (entry E) l))
  unfolding kept dropped lookup
  lookup-kept goes n j [] a b = ground arith
  lookup-kept goes n j (kv ∷ l) a b = elim (Bool-cases (leb n (count kv.key l))) [
    | inl h ↦
        let stay : All (λ x. goes (version_key x.revision x.key) ≡ false) (kept n l) = rw h at a in
        let (q, go) : All (λ x. goes (version_key x.revision x.key) ≡ true) (kv ∷ dropped n l) =
          rw h at b in
        rw h (
          ground (
            arith,
            q,
            bytes_eq_iff (version_key kv.revision kv.key) j,
            lookup-kept goes n j l stay go,
          ))
    | inr h ↦
        let (q, stay) : All (λ x. goes (version_key x.revision x.key) ≡ false) (kv ∷ kept n l) =
          rw h at a in
        let go : All (λ x. goes (version_key x.revision x.key) ≡ true) (dropped n l) = rw h at b in
        rw h (
          ground (
            arith,
            q,
            bytes_eq_iff (version_key kv.revision kv.key) j,
            lookup-kept goes n j l stay go,
          ))
  ]

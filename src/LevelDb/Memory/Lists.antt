-- ===== src/LevelDb/Memory/Lists.antt =====
-- The operations of the engine in memory on its sorted list of entries, and their laws.
use configraft.Base.{
  ◌≡◌, refl, ap, ◌∙◌, true, false, none, some, List, [], ◌∷◌, All, if◌then◌else◌, arith, Bool-cases,
  inl, inr,
}
use configraft.Base.Bytes.{Bytes, bytes_eq, bytes_eq_iff, lt_bytes, lt_bytes_trans, lt_bytes_total}
use configraft.LevelDb.Sorted.{Entries, lookup, Above, Above-self, IsSorted}
use configraft.LevelDb.{Op, put, delete, after}

unfoldable pub insert : Bytes → Bytes → Entries → Entries
insert k v [] = (k, v) ∷ []
insert k v ((j, w) ∷ l) =
    let rest = insert k v l in
    if bytes_eq j k then (k, v) ∷ l else if lt_bytes k j then (k, v) ∷ (j, w) ∷ l else (j, w) ∷ rest

unfoldable pub remove : Bytes → Entries → Entries
remove k [] = []
remove k ((j, w) ∷ l) = let rest = remove k l in if bytes_eq j k then l else (j, w) ∷ rest

unfoldable pub run : List Op → Entries → Entries
unfolding insert remove
run [] l = l
run (put k v ∷ batch) l = run batch (insert k v l)
run (delete k ∷ batch) l = run batch (remove k l)

-- The entries from `k` on.
unfoldable pub from : Bytes → Entries → Entries
from k [] = []
from k ((j, v) ∷ l) = let rest = from k l in if lt_bytes j k then rest else (j, v) ∷ rest

Above-insert :
    (i k v : Bytes) (l : Entries) → lt_bytes i k ≡ true → Above i l → Above i (insert k v l)
unfolding insert
Above-insert i k v [] h a = (h, tt)
Above-insert i k v ((j, w) ∷ l) h (p, a) = ground (arith, Above-insert i k v l h a)

Above-trans : (j k : Bytes) (l : Entries) → lt_bytes j k ≡ true → Above k l → Above j l
Above-trans j k [] h a = tt
Above-trans j k ((i, v) ∷ l) h (p, a) = (lt_bytes_trans j k i h p, Above-trans j k l h a)

-- A key that is neither equal nor below is above.
above_of : (j k : Bytes) → bytes_eq j k ≡ false → lt_bytes k j ≡ false → lt_bytes j k ≡ true
above_of j k n h = elim (Bool-cases (lt_bytes j k)) [
  | inl up ↦ up
  | inr other ↦ cc ((bytes_eq_iff j k).1 (lt_bytes_total j k other h))
]

Above-eq : (j k : Bytes) (l : Entries) → bytes_eq j k ≡ true → Above j l → Above k l
Above-eq j k l e a = rw (← (bytes_eq_iff j k).0 e) a

IsSorted-insert : (k v : Bytes) (l : Entries) → IsSorted l → IsSorted (insert k v l)
unfolding insert
IsSorted-insert k v [] s = (tt, tt)
IsSorted-insert k v ((j, w) ∷ l) (a, s) = elim (Bool-cases (bytes_eq j k)) [
  | inl e ↦ rw e (Above-eq j k l e a, s)
  | inr n ↦ rw n (elim (Bool-cases (lt_bytes k j)) [
    | inl h ↦ rw h ((h, Above-trans k j l h a), (a, s))
    | inr h ↦ rw h (Above-insert j k v l (above_of j k n h) a, IsSorted-insert k v l s)
  ])
]

Above-remove : (i k : Bytes) (l : Entries) → Above i l → Above i (remove k l)
unfolding remove
Above-remove i k [] a = tt
Above-remove i k ((j, w) ∷ l) (p, a) = ground (arith, Above-remove i k l a)

IsSorted-remove : (k : Bytes) (l : Entries) → IsSorted l → IsSorted (remove k l)
unfolding remove
IsSorted-remove k [] s = tt
IsSorted-remove k ((j, w) ∷ l) (a, s) = ground (arith, Above-remove j k l a, IsSorted-remove k l s)

pub IsSorted-run : (batch : List Op) (l : Entries) → IsSorted l → IsSorted (run batch l)
unfolding run
IsSorted-run [] l s = s
IsSorted-run (put k v ∷ batch) l s = IsSorted-run batch (insert k v l) (IsSorted-insert k v l s)
IsSorted-run (delete k ∷ batch) l s = IsSorted-run batch (remove k l) (IsSorted-remove k l s)

Above-from : (i k : Bytes) (l : Entries) → Above i l → Above i (from k l)
unfolding from
Above-from i k [] a = tt
Above-from i k ((j, v) ∷ l) (p, a) = ground (arith, Above-from i k l a)

pub IsSorted-from : (k : Bytes) (l : Entries) → IsSorted l → IsSorted (from k l)
unfolding from
IsSorted-from k [] s = tt
IsSorted-from k ((j, v) ∷ l) (a, s) = ground (arith, Above-from j k l a, IsSorted-from k l s)

pub from_bound : (k : Bytes) (l : Entries) → All (λ e. lt_bytes e.0 k ≡ false) (from k l)
unfolding from
from_bound k [] = tt
from_bound k ((j, v) ∷ l) = elim (Bool-cases (lt_bytes j k)) [
  | inl h ↦ rw h (from_bound k l)
  | inr h ↦ rw h (h, from_bound k l)
]

pub lookup-from :
    (k j : Bytes) (l : Entries) → lookup j (from k l) ≡ (if lt_bytes j k then none else lookup j l)
unfolding from lookup
lookup-from k j [] = ground arith
lookup-from k j ((i, v) ∷ l) = ground (arith, bytes_eq_iff i j, lookup-from k j l)

lookup-insert :
    (k j v : Bytes) (l : Entries)
    → lookup j (insert k v l) ≡ (if bytes_eq k j then some v else lookup j l)
unfolding insert lookup
lookup-insert k j v [] = refl
lookup-insert k j v ((i, w) ∷ l) =
    ground (arith, bytes_eq_iff i k, bytes_eq_iff i j, bytes_eq_iff k j, lookup-insert k j v l)

lookup-remove :
    (k j : Bytes) (l : Entries)
    → IsSorted l
    → lookup j (remove k l) ≡ (if bytes_eq k j then none else lookup j l)
unfolding remove lookup
lookup-remove k j [] s = ground arith
lookup-remove k j ((i, w) ∷ l) (a, s) = ground (
  arith,
  bytes_eq_iff i k,
  bytes_eq_iff i j,
  bytes_eq_iff k j,
  Above-self i l a,
  lookup-remove k j l s,
)

pub lookup-run :
    (batch : List Op) (j : Bytes) (l : Entries)
    → IsSorted l
    → lookup j (run batch l) ≡ after batch j (lookup j l)
unfolding run
lookup-run [] j l s = refl
lookup-run (put k v ∷ batch) j l s =
    lookup-run batch j (insert k v l) (IsSorted-insert k v l s)
    ∙ ap (after batch j) (lookup-insert k j v l)
lookup-run (delete k ∷ batch) j l s =
    lookup-run batch j (remove k l) (IsSorted-remove k l s)
    ∙ ap (after batch j) (lookup-remove k j l s)

-- ===== src/Mvcc/Compact.antt =====
-- What a compaction means for the versioned map: of every key the newest records stay.
use configraft.Base.{
  ℕ, suc, ◌≤◌, Bool, false, ◌&&◌, ◌||◌, none, List, [], ◌∷◌, All, leb, ◌==◌, if◌then◌else◌, arith,
  Int64, Bool-cases, inl, inr,
}
use configraft.Base.Bytes.{Bytes, bytes_eq}
use configraft.Proto.{Kv}
use configraft.Mvcc.{State}
use configraft.Mvcc.Invariant.{Ascending, IsConsistent}

-- The number of records of a key.
unfoldable pub count : Bytes → List Kv → ℕ
count key [] = 0
count key (kv ∷ l) = if bytes_eq kv.key key then suc (count key l) else count key l

-- A record goes if `n` records of its key are newer.
unfoldable pub kept : ℕ → List Kv → List Kv
unfolding count
kept n [] = []
kept n (kv ∷ l) = let rest = kept n l in if leb n (count kv.key l) then rest else kv ∷ rest

unfoldable pub dropped : ℕ → List Kv → List Kv
unfolding count
dropped n [] = []
dropped n (kv ∷ l) = let rest = dropped n l in if leb n (count kv.key l) then kv ∷ rest else rest

-- Whether a list has a record of a key and version.
unfoldable pub has_version : Bytes → Int64 → List Kv → Bool
has_version key version [] = false
has_version key version (kv ∷ l) =
    (bytes_eq kv.key key && (kv.version == version)) || has_version key version l

-- Whether a list has a record of a key and revision.
unfoldable pub has_revision : Bytes → Int64 → List Kv → Bool
has_revision key revision [] = false
has_revision key revision (kv ∷ l) =
    (bytes_eq kv.key key && (kv.revision == revision)) || has_revision key revision l

-- The greatest revision of a list, or `top` if that is greater.
unfoldable pub last_revision : ℕ → List Kv → ℕ
last_revision top [] = top
last_revision top (kv ∷ l) =
    let rest = last_revision top l in if leb kv.revision rest then rest else kv.revision

unfoldable pub compact : ℕ → State → State
unfolding kept dropped has_version last_revision
compact n s = record s {
  history = kept n s.history;
  config = λ k v. if has_version k v (dropped n s.history) then none else s.config k v;
  compacted = last_revision s.compacted (dropped n s.history);
}

kept-Ascending : (n r : ℕ) (l : List Kv) → Ascending r l → Ascending r (kept n l)
unfolding kept
kept-Ascending n r [] a = tt
kept-Ascending n r (kv ∷ l) (p, a) = elim (Bool-cases (leb n (count kv.key l))) [
  | inl h ↦ rw h (weaken (kept n l) (kept-Ascending n kv.revision l a))
  | inr h ↦ rw h (p, kept-Ascending n kv.revision l a)
]
  where
    weaken : (xs : List Kv) → Ascending kv.revision xs → Ascending r xs
    weaken [] b = tt
    weaken (x ∷ xs) (q, b) = (omega (arith, p), b)

pub kept-All :
    (P : Kv → Type 0) (n : ℕ) (l : List Kv) → All P l → All P (kept n l) × All P (dropped n l)
unfolding kept dropped
kept-All P n [] a = (tt, tt)
kept-All P n (kv ∷ l) (p, a) = elim (Bool-cases (leb n (count kv.key l))) [
  | inl h ↦ rw h ((kept-All P n l a).0, (p, (kept-All P n l a).1))
  | inr h ↦ rw h ((p, (kept-All P n l a).0), (kept-All P n l a).1)
]

pub last_revision-le :
    (top bound : ℕ) (l : List Kv)
    → top ≤ bound
    → All (λ kv. kv.revision ≤ bound) l
    → last_revision top l ≤ bound
unfolding last_revision
last_revision-le top bound [] h a = h
last_revision-le top bound (kv ∷ l) h (q, a) = ground (arith, last_revision-le top bound l h a)

-- A compaction keeps the invariant of the versioned map.
pub compact-IsConsistent : (n : ℕ) (s : State) → IsConsistent s → IsConsistent (compact n s)
unfolding compact
compact-IsConsistent n s c = record {
  bounded = c.bounded;
  current = c.current;
  ascending = kept-Ascending n 0 s.history c.ascending;
  recorded = (kept-All (λ kv. kv.revision ≤ s.revision) n s.history c.recorded).0;
  versioned = (kept-All (λ kv. kv.version ≤ s.revision) n s.history c.versioned).0;
  published = λ k v kv e.
      ground (arith, Bool-cases (has_version k v (dropped n s.history)), c.published k v kv);
  collected =
      last_revision-le s.compacted s.revision (dropped n s.history) c.collected
        (kept-All (λ kv. kv.revision ≤ s.revision) n s.history c.recorded).1;
}

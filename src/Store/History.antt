-- ===== src/Store/History.antt =====
-- What an iterator over the history's prefix yields, in terms of the history.
use configraft.Base.{
  ℕ, ◌+◌, ◌^◌, ◌≤◌, ◌<◌, ◌≡◌, refl, true, false, not, ◌&&◌, none, List, [], ◌∷◌, map, All, keep,
  ltb, if◌then◌else◌, arith, Int64, Bool-cases, inl, inr,
}
use configraft.Base.Bytes.{Bytes, bytes_eq_iff, lt_bytes, lt_bytes_trans, starts_with}
use configraft.Proto.{Kv}
use configraft.StoreKey.{version_prefix, version_key, encode_ord}
use configraft.StoreKey.Order.{lt_bytes-version_key}
use configraft.LevelDb.{Engine, EngineLaws}
use configraft.LevelDb.Sorted.{
  Entries, lookup, Above, IsSorted, prefixed, IsSorted-prefixed, lookup-prefixed, sorted_unique,
}
use configraft.Mvcc.{State}
use configraft.Mvcc.Invariant.{IsConsistent, Ascending}
use configraft.Store.Contents.{entry}
use configraft.Store.Reads.{Models}

prefix-lt-version_key : (r : Int64) (k : Bytes) → lt_bytes version_prefix (version_key r k) ≡ true
unfolding lt_bytes version_key encode_ord
prefix-lt-version_key r k = refl

prefix-version_key : (r : Int64) (k : Bytes) → starts_with version_prefix (version_key r k) ≡ true
unfolding starts_with version_key
prefix-version_key r k = refl

-- Entries from a history key on do not stand before the history's prefix.
from_prefix :
    (r : Int64) (l : Entries)
    → All (λ e. lt_bytes e.0 (version_key r []) ≡ false) l
    → All (λ e. lt_bytes e.0 version_prefix ≡ false) l
from_prefix r [] a = tt
from_prefix r ((j, v) ∷ l) (h, a) = (
  ground (
    arith,
    Bool-cases (lt_bytes j version_prefix),
    lt_bytes_trans j version_prefix (version_key r []),
    prefix-lt-version_key r [],
  ),
  from_prefix r l a,
)

pub Ascending-weaken : {r' : ℕ} (r : ℕ) (l : List Kv) → r ≤ r' → Ascending r' l → Ascending r l
Ascending-weaken r [] h a = tt
Ascending-weaken r (x ∷ l) h (p, a) = (omega arith, a)

pub All-below :
    {top bound : ℕ} (l : List Kv)
    → top < bound
    → All (λ x. x.revision ≤ top) l
    → All (λ x. x.revision < bound) l
All-below [] h b = tt
All-below (x ∷ l) h (q, b) = (omega arith, All-below l h b)

module _ (E : Engine) where
  -- The records behind a revision.
  abbrev pub since : ℕ → List Kv → List Kv
  since from l = keep (λ kv. ltb from kv.revision) l

  -- The key of a record stands before the key sought exactly if its revision is not behind `from`.
  seek_record :
      (from : ℕ) (kv : Kv)
      → from + 1 < 2 ^ 63
      → kv.revision < 2 ^ 64
      → lt_bytes (version_key kv.revision kv.key) (version_key (from + 1) [])
        ≡ not (ltb from kv.revision)
  unfolding lt_bytes
  seek_record from kv hf hr = ground (arith, lt_bytes-version_key kv.revision (from + 1) kv.key [])

  lookup-since :
      (from : ℕ) (j : Bytes) (l : List Kv)
      → from + 1 < 2 ^ 63
      → All (λ kv. kv.revision < 2 ^ 64) l
      → lookup j (map (entry E) (since from l)) ≡ (
          if starts_with version_prefix j && not (lt_bytes j (version_key (from + 1) []))
          then lookup j (map (entry E) l)
          else none)
  unfolding lookup
  lookup-since from j [] hf b = ground arith
  lookup-since from j (kv ∷ l) hf (q, b) = ground (
    arith,
    seek_record from kv hf q,
    prefix-version_key kv.revision kv.key,
    bytes_eq_iff (version_key kv.revision kv.key) j,
    lookup-since from j l hf b,
  )

  Above-entries :
      (kv : Kv) (l : List Kv)
      → kv.revision < 2 ^ 64
      → Ascending kv.revision l
      → All (λ x. x.revision < 2 ^ 64) l
      → Above (version_key kv.revision kv.key) (map (entry E) l)
  Above-entries kv [] h a b = tt
  Above-entries kv (x ∷ l) h (p, a) (q, b) = (
    ground (arith, lt_bytes-version_key kv.revision x.revision kv.key x.key),
    Above-entries kv l h (Ascending-weaken kv.revision l (omega arith) a) b,
  )

  pub IsSorted-entries :
      (r : ℕ) (l : List Kv)
      → Ascending r l
      → All (λ x. x.revision < 2 ^ 64) l
      → IsSorted (map (entry E) l)
  IsSorted-entries r [] a b = tt
  IsSorted-entries r (x ∷ l) (p, a) (q, b) =
      (Above-entries x l q a b, IsSorted-entries x.revision l a b)

  pub Ascending-since : (r from : ℕ) (l : List Kv) → Ascending r l → Ascending r (since from l)
  Ascending-since r from [] a = tt
  Ascending-since r from (x ∷ l) (p, a) = elim (Bool-cases (ltb from x.revision)) [
    | inl h ↦ rw h (p, Ascending-since x.revision from l a)
    | inr h ↦ rw h (Ascending-weaken r _ (omega arith) (Ascending-since x.revision from l a))
  ]

  pub All-since :
      (top from : ℕ) (l : List Kv)
      → All (λ x. x.revision < top) l
      → All (λ x. x.revision < top) (since from l)
  All-since top from [] b = tt
  All-since top from (x ∷ l) (q, b) = elim (Bool-cases (ltb from x.revision)) [
    | inl h ↦ rw h (q, All-since top from l b)
    | inr h ↦ rw h (All-since top from l b)
  ]

module _ (E : Engine) (laws : EngineLaws E) (d : E.Db) (s : State) (m : Models E laws d s)
    (c : IsConsistent s) where
  -- Every entry of the database under the history's prefix from revision `from` + 1 on, in the order
  -- of the iterator, is a record of the history behind `from`, in the order of the history.
  pub seek-since :
      (from : ℕ)
      → from + 1 < 2 ^ 63
      → prefixed version_prefix (E.seek d (version_key (from + 1) []))
        ≡ map (entry E) (since E from s.history)
  seek-since from h =
      let found = E.seek d (version_key (from + 1) []) in
      let small : All (λ x. x.revision < 2 ^ 64) s.history =
        All-below s.history (omega (arith, c.bounded)) c.recorded in
      sorted_unique (prefixed version_prefix found) (map (entry E) (since E from s.history))
        (IsSorted-prefixed version_prefix found (laws.seek_sorted d _))
        (IsSorted-entries E 0 (since E from s.history)
          (Ascending-since E 0 from s.history c.ascending)
          (All-since E (2 ^ 64) from s.history small))
        (λ j. ground (
          arith,
          lookup-prefixed version_prefix j found (laws.seek_sorted d _)
              (from_prefix (from + 1) found (laws.seek_from d _)),
          laws.seek_lookup d (version_key (from + 1) []) j,
          m.history j,
          lookup-since E from j s.history h small,
        ))

-- ===== src/Store/Loading/Keys.antt =====
-- The keys that a snapshot's writes set, and those that they leave.
use configraft.Base.{
  ◌^◌, ◌<◌, ◌≡◌, refl, ap, true, false, Option, none, some, List, [], ◌∷◌, ◌++◌, All, arith,
  if◌then◌else◌, Bool-cases, inl, inr, Int64, ℕ, slt, slt-ltb,
}
use configraft.Base.Bytes.{Bytes, bytes_eq, lt_bytes, starts_with}
use configraft.Proto.{Kv}
use configraft.StoreKey.{
  revision_meta_key, compact_rev_key, main_prefix, config_prefix, main_key, config_key, version_key,
}
use configraft.StoreKey.RoundTrip.{decode_uint64-encode_uint64}
use configraft.LevelDb.{Engine, Op, after}
use configraft.LevelDb.Sorted.{Entries, lookup, IsSorted, Above-lookup}
use configraft.Store.Contents.{counter}
use configraft.Store.Loading.{writes}
use configraft.Store.Snapshot
use configraft.Store.Snapshot.{loaded, not_loaded, closed}
use configraft.Store.Write.{kv_ops, revision_op}

abbrev pub main_of : Kv → Bytes
main_of kv = main_key kv.key

abbrev pub config_of : Kv → Bytes
config_of kv = config_key kv.key kv.version

-- What the prefixes tell.
pub main-split : (j : Bytes) → starts_with main_prefix j ≡ true → (k : Bytes) × (j ≡ main_key k)
unfolding starts_with main_key
main-split [] h = cc h
main-split (c ∷ []) h = ground arith
main-split (c ∷ e ∷ k) h = (k, ground arith)

pub prefix-main_key : (k : Bytes) → starts_with main_prefix (main_key k) ≡ true
unfolding starts_with main_key
prefix-main_key k = refl

pub prefix-config_key : (k : Bytes) (v : Int64) → starts_with config_prefix (config_key k v) ≡ true
unfolding starts_with config_key
prefix-config_key k v = refl

pub from-starts_with : (p j : Bytes) → starts_with p j ≡ true → lt_bytes j p ≡ false
unfolding starts_with lt_bytes
from-starts_with [] [] h = refl
from-starts_with [] (y ∷ j) h = refl
from-starts_with (x ∷ p) [] h = cc h
from-starts_with (x ∷ p) (y ∷ j) h = ground (arith, from-starts_with p j)

-- The revision at which an iterator over a sorted list stands.
pub first_revision-counter :
    (l : Entries)
    → IsSorted l
    → All (λ e. lt_bytes e.0 revision_meta_key ≡ false) l
    → Snapshot.first_revision l ≡ counter (lookup revision_meta_key l)
unfolding Snapshot.first_revision lookup
first_revision-counter [] s a = refl
first_revision-counter ((j, raw) ∷ l) (b, s) (h, a) =
    elim (Bool-cases (bytes_eq j revision_meta_key)) [
      | inl e ↦ rw e refl
      | inr n ↦ rw (n, Above-lookup revision_meta_key j l b h) refl
    ]

module _ (E : Engine) where
  pub main_write : Kv → List Op
  main_write kv = kv_ops E kv.revision kv

  pub config_write : Kv → List Op
  config_write kv = Op.put (config_of kv) (E.serialize kv) ∷ []

  pub main_ops-writes : (kvs : List Kv) → Snapshot.main_ops E kvs ≡ writes E main_write kvs
  unfolding Snapshot.main_ops main_write
  main_ops-writes [] = refl
  main_ops-writes (kv ∷ kvs) = ap (λ l. kv_ops E kv.revision kv ++ l) (main_ops-writes kvs)

  pub config_ops-writes : (kvs : List Kv) → Snapshot.config_ops E kvs ≡ writes E config_write kvs
  unfolding Snapshot.config_ops config_write
  config_ops-writes [] = refl
  config_ops-writes (kv ∷ kvs) =
      ap (λ l. Op.put (config_of kv) (E.serialize kv) ∷ l) (config_ops-writes kvs)

  -- What the writes of one record do to the keys of the other kinds, and to its own.
  pub main_write-main_key :
      (k : Bytes) (kv : Kv) (o : Option Bytes)
      → after (main_write kv) (main_key k) o
        ≡ (if bytes_eq (main_of kv) (main_key k) then some (E.serialize kv) else o)
  unfolding main_write kv_ops bytes_eq main_key version_key
  main_write-main_key k kv o = refl

  pub main_write-config_key :
      (k : Bytes) (v : Int64) (kv : Kv) (o : Option Bytes)
      → after (main_write kv) (config_key k v) o ≡ o
  unfolding main_write kv_ops bytes_eq main_key version_key config_key
  main_write-config_key k v kv o = refl

  pub main_write-revision :
      (kv : Kv) (o : Option Bytes) → after (main_write kv) revision_meta_key o ≡ o
  unfolding main_write kv_ops bytes_eq main_key version_key
  main_write-revision kv o = refl

  pub main_write-compact :
      (kv : Kv) (o : Option Bytes) → after (main_write kv) compact_rev_key o ≡ o
  unfolding main_write kv_ops bytes_eq main_key version_key
  main_write-compact kv o = refl

  pub config_write-main_key :
      (k : Bytes) (kv : Kv) (o : Option Bytes) → after (config_write kv) (main_key k) o ≡ o
  unfolding config_write bytes_eq main_key config_key
  config_write-main_key k kv o = refl

  pub config_write_own :
      (j : Bytes) (kv : Kv) (o : Option Bytes)
      → after (config_write kv) j o
        ≡ (if bytes_eq (config_of kv) j then some (E.serialize kv) else o)
  unfolding config_write
  config_write_own j kv o = refl

  pub config_write-revision :
      (kv : Kv) (o : Option Bytes) → after (config_write kv) revision_meta_key o ≡ o
  unfolding config_write bytes_eq config_key
  config_write-revision kv o = refl

  pub config_write-compact :
      (kv : Kv) (o : Option Bytes) → after (config_write kv) compact_rev_key o ≡ o
  unfolding config_write bytes_eq config_key
  config_write-compact kv o = refl

  pub counter_ops-main_key :
      (r : Int64) (k : Bytes) (o : Option Bytes)
      → after (Snapshot.counter_ops E r) (main_key k) o ≡ o
  unfolding Snapshot.counter_ops revision_op bytes_eq main_key
  counter_ops-main_key r k o = elim (Bool-cases (slt 0 r)) [ inl h ↦ rw h refl | inr h ↦ rw h refl ]

  pub counter_ops-config_key :
      (r : Int64) (k : Bytes) (v : Int64) (o : Option Bytes)
      → after (Snapshot.counter_ops E r) (config_key k v) o ≡ o
  unfolding Snapshot.counter_ops revision_op bytes_eq config_key
  counter_ops-config_key r k v o = elim (Bool-cases (slt 0 r)) [
    | inl h ↦ rw h refl
    | inr h ↦ rw h refl
  ]

  pub counter_ops-revision :
      (r : ℕ) → r < 2 ^ 63 → counter (after (Snapshot.counter_ops E r) revision_meta_key none) ≡ r
  unfolding Snapshot.counter_ops revision_op bytes_eq
  counter_ops-revision r h = ground (arith, decode_uint64-encode_uint64 r, slt-ltb 0 r)

  pub counter_ops-compact :
      (r : ℕ) → r < 2 ^ 63 → counter (after (Snapshot.counter_ops E r) compact_rev_key none) ≡ r
  unfolding Snapshot.counter_ops revision_op bytes_eq
  counter_ops-compact r h = ground (arith, decode_uint64-encode_uint64 r, slt-ltb 0 r)

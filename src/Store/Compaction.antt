-- ===== src/Store/Compaction.antt =====
-- Compaction: the groups of records that its first loop builds.
pub mod Boundary
pub mod Discards
pub mod Dropped
pub mod Exact
pub mod Grouped
pub mod Keeps
pub mod Refined
pub mod Result
pub mod Watchers
use mathlib.Core.Option
use configraft.Base.{
  ℕ, zero, suc, ◌+◌, ◌-◌, ◌^◌, ◌<◌, ◌≤◌, ◌≡◌, refl, ap, sym, subst, fun_ext, ◌∙◌, Bool, true, false,
  not, ◌||◌, Option, none, some, List, [], ◌∷◌, ◌++◌, map, All, arith, if◌then◌else◌, Bool-cases,
  inl, inr, ◌⊎◌, Int64, Int32, ◌==◌, slt, slt-ltb, ltb, length, take, drop, is_negative32,
}
use configraft.Base.Bytes.{Bytes, bytes_eq, bytes_eq_iff, lt_bytes, starts_with}
use configraft.Proto.{Kv, version_not_found}
use configraft.StoreKey.{
  revision_meta_key, compact_rev_key, version_prefix, main_key, version_key, config_key,
  encode_uint64, encode_ord, decode_ord,
}
use configraft.StoreKey.RoundTrip.{decode_uint64-encode_uint64, decode_ord-encode_ord_plain}
use configraft.LevelDb.{Engine, EngineLaws, Op, Read, found, not_found, failed, after, Readable}
use configraft.LevelDb.Sorted.{
  Entries, lookup, IsSorted, prefixed, IsSorted-prefixed, lookup-prefixed, sorted_unique,
}
use configraft.Mvcc.{State}
use configraft.Mvcc.Invariant.{IsConsistent}
use configraft.Store
use configraft.Store.{Lookup, hit, miss}
use configraft.Store.Contents.{counter, entry}
use configraft.Store.History.{All-below, IsSorted-entries}
use configraft.Store.Loading.Keys.{from-starts_with}
use configraft.Store.Reads.{Models}
use configraft.Store.RefineBatch.{after-append}
use configraft.Store.Scan
use configraft.Store.Scan.{Groups, Records, revision_part, add_record, drop_records, drop_groups}

prefix-version_key : (r : Int64) (k : Bytes) → starts_with version_prefix (version_key r k) ≡ true
unfolding starts_with version_key
prefix-version_key r k = refl

long-version_key :
    (r : Int64) (k : Bytes)
    → (ltb (length (version_key r k)) 18 ≡ false) × (ltb (length (version_key r k)) 19 ≡ false)
unfolding version_key encode_ord
long-version_key r k = (ground arith, ground arith)

key-version_key : (r : Int64) (k : Bytes) → drop 19 (version_key r k) ≡ k
unfolding version_key encode_ord
key-version_key r k = refl

revision_part-version_key : (r : Int64) (k : Bytes) → revision_part (version_key r k) ≡ encode_ord r
unfolding version_key encode_ord
revision_part-version_key r k = refl

-- The history in the groups that the first loop builds.
unfoldable pub gather : List Kv → Groups → Groups
gather [] groups = groups
gather (kv ∷ l) groups = gather l (add_record kv.key (kv.revision, kv.version) groups)

module _ (E : Engine) (laws : EngineLaws E) where
  -- One round of the first loop, with what follows it.
  round : Bytes → Bytes → (Groups → Option Groups) → Groups → Option Groups
  round k raw next groups =
      if not (starts_with version_prefix k)
      then some groups
      else if ltb (length k) 18
      then next groups
      else if ltb (length k) 19
      then none
      else elim (E.parse raw) [
        | none ↦ next groups
        | some kv ↦ elim (decode_ord (revision_part k)) [
          | none ↦ none
          | some rev ↦ next (add_record (drop 19 k) (rev, kv.version) groups)
        ]
      ]

  collect-round :
      (k raw : Bytes) (l : Entries) (groups : Groups)
      → Scan.collect E ((k, raw) ∷ l) groups ≡ round k raw (Scan.collect E l) groups
  unfolding Scan.collect round
  collect-round k raw l groups = refl

  prefixed_cons :
      (k raw : Bytes) (l : Entries)
      → starts_with version_prefix k ≡ true
      → prefixed version_prefix ((k, raw) ∷ l) ≡ (k, raw) ∷ prefixed version_prefix l
  prefixed_cons k raw l h = rw h refl

  collect-prefixed :
      (l : Entries) (groups : Groups)
      → Scan.collect E l groups ≡ Scan.collect E (prefixed version_prefix l) groups
  unfolding Scan.collect
  collect-prefixed [] groups = refl
  collect-prefixed ((k, raw) ∷ l) groups = elim (Bool-cases (starts_with version_prefix k)) [
    | inl h ↦
        collect-round k raw l groups
        ∙ ap (λ f. round k raw f groups) (fun_ext (collect-prefixed l))
        ∙ sym (collect-round k raw (prefixed version_prefix l) groups)
        ∙ ap (λ x. Scan.collect E x groups) (sym (prefixed_cons k raw l h))
    | inr h ↦ rw h refl
  ]

  not_history :
      (j : Bytes) (l : List Kv)
      → starts_with version_prefix j ≡ false
      → lookup j (map (entry E) l) ≡ none
  unfolding lookup
  not_history j [] h = refl
  not_history j (kv ∷ l) h = ground (
    arith,
    bytes_eq_iff (version_key kv.revision kv.key) j,
    prefix-version_key kv.revision kv.key,
    not_history j l h,
  )

  collect-gather :
      (l : List Kv) (groups : Groups)
      → All (λ kv. kv.revision < 2 ^ 63) l
      → Scan.collect E (map (entry E) l) groups ≡ some (gather l groups)
  unfolding Scan.collect gather
  collect-gather [] groups b = refl
  collect-gather (kv ∷ l) groups (q, b) =
      rw
        (
          prefix-version_key kv.revision kv.key,
          (long-version_key kv.revision kv.key).0,
          (long-version_key kv.revision kv.key).1,
          laws.parse-serialize kv,
          revision_part-version_key kv.revision kv.key,
          decode_ord-encode_ord_plain kv.revision q,
          key-version_key kv.revision kv.key,
        )
        (collect-gather l (add_record kv.key (kv.revision, kv.version) groups) b)

module _ (E : Engine) (laws : EngineLaws E) (d : E.Db) (s : State) (m : Models E laws d s)
    (c : IsConsistent s) where
  pub small_history : All (λ kv. kv.revision < 2 ^ 63) s.history
  small_history = All-below s.history c.bounded c.recorded

  -- Every entry under the history's prefix is a record of the history, in its order.
  seek-history : prefixed version_prefix (E.seek d version_prefix) ≡ map (entry E) s.history
  seek-history =
      let all = E.seek d version_prefix in
      sorted_unique (prefixed version_prefix all) (map (entry E) s.history)
        (IsSorted-prefixed version_prefix all (laws.seek_sorted d _))
        (IsSorted-entries E 0 s.history c.ascending
          (All-below s.history (omega (arith, c.bounded)) c.recorded))
        (λ j.
          lookup-prefixed version_prefix j all (laws.seek_sorted d _) (laws.seek_from d _)
          ∙ (elim (Bool-cases (starts_with version_prefix j)) [
            | inl h ↦ rw h (
                laws.seek_lookup d version_prefix j
                ∙ (rw (from-starts_with version_prefix j h) (m.history j h)))
            | inr h ↦ rw h (sym (not_history E laws j s.history h))
          ]))

  pub collected : Scan.collect E (E.seek d version_prefix) [] ≡ some (gather s.history [])
  collected =
      collect-prefixed E laws (E.seek d version_prefix) []
      ∙ ap (λ l. Scan.collect E l []) seek-history
      ∙ collect-gather E laws s.history [] small_history

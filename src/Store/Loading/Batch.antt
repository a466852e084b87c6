-- ===== src/Store/Loading/Batch.antt =====
-- What a database holds after the batch of a snapshot that another one exported.
use configraft.Base.{
  ◌≡◌, refl, ap, ap₂, sym, ◌∙◌, Bool, true, false, Option, none, some, List, ◌++◌, All,
  if◌then◌else◌, Bool-cases, inl, inr, Int64,
}
use configraft.Base.Bytes.{Bytes, bytes_eq, starts_with, lt_bytes_irrefl}
use configraft.Proto.{Kv, SnapshotData}
use configraft.StoreKey.{
  revision_meta_key, compact_rev_key, main_prefix, config_prefix, main_key, config_key,
}
use configraft.LevelDb.{Engine, EngineLaws, Op, after}
use configraft.LevelDb.Sorted.{
  Entries, lookup, IsSorted, prefixed, IsSorted-prefixed, lookup-prefixed,
}
use configraft.Mvcc.{State}
use configraft.Mvcc.Invariant.{IsConsistent}
use configraft.Store.Contents.{counter, stored}
use configraft.Store.Loading.{
  over, Holds, writes, All-lookup, parse_loop-prefixed, after-writes_other, after-writes,
}
use configraft.Store.Loading.Keys.{
  main_of, config_of, main-split, prefix-main_key, prefix-config_key, from-starts_with,
  first_revision-counter, main_write, config_write, main_ops-writes, config_ops-writes,
  main_write-main_key, main_write-config_key, main_write-revision, main_write-compact,
  counter_ops-main_key, counter_ops-config_key, counter_ops-revision, counter_ops-compact,
  config_write-main_key, config_write_own, config_write-revision, config_write-compact,
}
use configraft.Store.Reads.{Models}
use configraft.Store.RefineBatch.{after-append}
use configraft.Store.Snapshot
use configraft.Store.Snapshot.{Loaded, loaded, not_loaded, closed}

over-none : (o : Option Bytes) → over o none ≡ o
over-none none = refl
over-none (some raw) = refl

if_some :
    (b : Bool) (o : Option Bytes) (raw : Bytes)
    → (if b then o else none) ≡ some raw
    → (b ≡ true) × (o ≡ some raw)
if_some true o raw h = (refl, h)
if_some false o raw h = cc h

stored-some :
    (E : Engine) (o : Option Kv) (raw : Bytes)
    → stored E o ≡ some raw
    → (kv : Kv) × (o ≡ some kv) × (raw ≡ E.serialize kv)
stored-some E none raw h = cc h
stored-some E (some kv) raw h = (kv, refl, cc h)

module _ (E : Engine) (laws : EngineLaws E) where
  -- Under the prefix of published records there are only records under their own keys.
  abbrev pub OnlyPublished : E.Db → Type 0
  OnlyPublished d =
      (j raw : Bytes)
      → starts_with config_prefix j ≡ true
      → laws.find d j ≡ some raw
      → Holds E config_of j raw

  -- The entries that an export goes through under a prefix.
  module _ (d : E.Db) (p : Bytes) where
    entries : Entries
    entries = prefixed p (E.seek d p)

    entries-IsSorted : IsSorted entries
    unfolding entries
    entries-IsSorted = IsSorted-prefixed p (E.seek d p) (laws.seek_sorted d p)

    lookup-entries :
        (j : Bytes) → lookup j entries ≡ (if starts_with p j then laws.find d j else none)
    unfolding entries
    lookup-entries j =
        lookup-prefixed p j (E.seek d p) (laws.seek_sorted d p) (laws.seek_from d p)
        ∙ (elim (Bool-cases (starts_with p j)) [
          | inl h ↦ rw h (laws.seek_lookup d p j ∙ (rw (from-starts_with p j h) refl))
          | inr h ↦ rw h refl
        ])

    entry_found :
        (j raw : Bytes)
        → lookup j entries ≡ some raw
        → (starts_with p j ≡ true) × (laws.find d j ≡ some raw)
    entry_found j raw e = if_some (starts_with p j) (laws.find d j) raw (sym (lookup-entries j) ∙ e)

    entries-Holds :
        (key_of : Kv → Bytes)
        → ((j raw : Bytes)
            → starts_with p j ≡ true
            → laws.find d j ≡ some raw
            → Holds E key_of j raw)
        → All (λ e. Holds E key_of e.0 e.1) entries
    entries-Holds key_of h =
        All-lookup (Holds E key_of) entries entries-IsSorted
          (λ j raw e. h j raw (entry_found j raw e).0 (entry_found j raw e).1)

    -- Writing the records of the export to a key without a value brings back its value.
    exported :
        (key_of : Kv → Bytes) (write : Kv → List Op) (j : Bytes)
        → ((kv : Kv) → starts_with p (key_of kv) ≡ true)
        → ((kv : Kv) (o : Option Bytes)
            → after (write kv) j o ≡ (if bytes_eq (key_of kv) j then some (E.serialize kv) else o))
        → ((j raw : Bytes)
            → starts_with p j ≡ true
            → laws.find d j ≡ some raw
            → Holds E key_of j raw)
        → starts_with p j ≡ true
        → after (writes E write (Snapshot.parse_loop E p (E.seek d p))) j none ≡ laws.find d j
    unfolding entries
    exported key_of write j own sets holds h =
        ap (λ kvs. after (writes E write kvs) j none) (parse_loop-prefixed E p (E.seek d p))
        ∙ after-writes E laws p key_of own write j sets entries (entries-Holds key_of holds)
            entries-IsSorted none
        ∙ over-none (lookup j entries)
        ∙ lookup-entries j
        ∙ (rw h refl)

  -- The batch of a snapshot is its main records, its published records and the two counters.
  snapshot_ops-split :
      (data_of : SnapshotData) (j : Bytes) (o : Option Bytes)
      → after (Snapshot.snapshot_ops E data_of) j o
        ≡ after (Snapshot.counter_ops E data_of.revision) j (
            after
              (writes E (config_write E) data_of.cfg_kvs)
              j
              (after (writes E (main_write E) data_of.kvs) j o))
  unfolding Snapshot.snapshot_ops
  snapshot_ops-split s j o =
      ap₂ (λ xs ys. after (xs ++ (ys ++ Snapshot.counter_ops E s.revision)) j o)
        (main_ops-writes E s.kvs) (config_ops-writes E s.cfg_kvs)
      ∙ after-append (writes E (main_write E) s.kvs) _ j o
      ∙ after-append (writes E (config_write E) s.cfg_kvs) _ j _

  module _ (d : E.Db) (s : State) (m : Models E laws d s) (c : IsConsistent s)
      (only : OnlyPublished d) where
    main-Holds :
        (j raw : Bytes)
        → starts_with main_prefix j ≡ true
        → laws.find d j ≡ some raw
        → Holds E main_of j raw
    main-Holds j raw h e =
        let (k, ej) = main-split j h in
        let (kv, ek, er) =
          stored-some E (s.main k) raw (sym (m.main k) ∙ ap (laws.find d) (sym ej) ∙ e) in
        (kv, ej ∙ ap main_key (sym (c.current k kv ek).names), er)

    first_revision-Models : Snapshot.first_revision (E.seek d revision_meta_key) ≡ s.revision
    first_revision-Models =
        first_revision-counter (E.seek d revision_meta_key) (laws.seek_sorted d _)
          (laws.seek_from d _)
        ∙ ap counter (
            laws.seek_lookup d revision_meta_key revision_meta_key
            ∙ (rw (lt_bytes_irrefl revision_meta_key) refl))
        ∙ m.counted

    abbrev pub out : SnapshotData
    out = Snapshot.export_snapshot E d

    pub after-main_key :
        (k : Bytes)
        → after (Snapshot.snapshot_ops E out) (main_key k) none ≡ laws.find d (main_key k)
    unfolding Snapshot.export_snapshot main_key
    after-main_key k =
        snapshot_ops-split out (main_key k) none
        ∙ counter_ops-main_key E out.revision k _
        ∙ after-writes_other E (config_write E) (main_key k) (config_write-main_key E k) out.cfg_kvs
            _
        ∙ exported d main_prefix main_of (main_write E) (main_key k) (λ kv. prefix-main_key kv.key)
            (main_write-main_key E k) main-Holds (prefix-main_key k)

    pub after-config_key :
        (k : Bytes) (v : Int64)
        → after (Snapshot.snapshot_ops E out) (config_key k v) none ≡ laws.find d (config_key k v)
    unfolding Snapshot.export_snapshot
    after-config_key k v =
        snapshot_ops-split out (config_key k v) none
        ∙ counter_ops-config_key E out.revision k v _
        ∙ ap (after (writes E (config_write E) out.cfg_kvs) (config_key k v)) (
            after-writes_other E (main_write E) (config_key k v) (main_write-config_key E k v)
              out.kvs none)
        ∙ exported d config_prefix config_of (config_write E) (config_key k v)
            (λ kv. prefix-config_key kv.key kv.version) (config_write_own E (config_key k v)) only
            (prefix-config_key k v)

    pub after-revision :
        counter (after (Snapshot.snapshot_ops E out) revision_meta_key none) ≡ s.revision
    unfolding Snapshot.export_snapshot
    after-revision =
        ap counter (snapshot_ops-split out revision_meta_key none)
        ∙ ap (λ o. counter (after (Snapshot.counter_ops E out.revision) revision_meta_key o))
            (after-writes_other E (config_write E) revision_meta_key (config_write-revision E)
                out.cfg_kvs _
              ∙ after-writes_other E (main_write E) revision_meta_key (main_write-revision E)
                  out.kvs none)
        ∙ ap (λ r. counter (after (Snapshot.counter_ops E r) revision_meta_key none))
            first_revision-Models
        ∙ counter_ops-revision E s.revision c.bounded

    pub after-compact :
        counter (after (Snapshot.snapshot_ops E out) compact_rev_key none) ≡ s.revision
    unfolding Snapshot.export_snapshot
    after-compact =
        ap counter (snapshot_ops-split out compact_rev_key none)
        ∙ ap (λ o. counter (after (Snapshot.counter_ops E out.revision) compact_rev_key o))
            (after-writes_other E (config_write E) compact_rev_key (config_write-compact E)
                out.cfg_kvs _
              ∙ after-writes_other E (main_write E) compact_rev_key (main_write-compact E) out.kvs
                  none)
        ∙ ap (λ r. counter (after (Snapshot.counter_ops E r) compact_rev_key none))
            first_revision-Models
        ∙ counter_ops-compact E s.revision c.bounded

-- ===== src/Store/Compaction/Result.antt =====
-- The result of Compaction.
use configraft.Base.{
  ℕ, ◌^◌, ◌<◌, ◌≤◌, ◌≡◌, refl, ap, sym, ◌∙◌, Bool, true, false, ◌||◌, none, some, List, [], ◌∷◌,
  ◌++◌, arith, if◌then◌else◌, Bool-cases, inl, inr, ◌⊎◌, Int64, Int32, ◌==◌, slt, slt-ltb,
  is_negative, is_negative32,
}
use configraft.Base.Bytes.{Bytes}
use configraft.Proto.{version_not_found}
use configraft.StoreKey.{
  revision_meta_key, compact_rev_key, main_key, version_key, config_key, encode_uint64,
}
use configraft.StoreKey.RoundTrip.{decode_uint64-encode_uint64}
use configraft.LevelDb.{Engine, EngineLaws, Op, Read, found, not_found, failed, Readable}
use configraft.Mvcc.{State}
use configraft.Mvcc.Invariant.{IsConsistent}
use configraft.Store
use configraft.Store.{Lookup, hit, miss}
use configraft.Store.Compaction.{gather, collected, small_history}
use configraft.Store.Compaction.Keeps.{
  Deletes, find-main_key, find-revision, find-compact, find-config_key, drop_groups-Deletes,
  gather-All, drop_groups_top,
}
use configraft.Store.Contents.{counter}
use configraft.Store.Reads.{Models, value_of, read-find, compact_rev-Models}
use configraft.Store.Scan
use configraft.Store.Scan.{Groups, drop_groups}
use configraft.Store.Transfer.{same_get, counter-revision, counter-compact}

-- What a compaction does to the reads of a store.
pub record Compacted (E : Engine) (d d' : E.Db) : Type 0 where
  pub records : (key : Bytes) → Store.read_main E d' key ≡ Store.read_main E d key
  pub gets : (key : Bytes) → Store.get E d' key ≡ Store.get E d key
  pub revision : Store.current_revision E d' ≡ Store.current_revision E d
  pub boundary : Store.compact_rev E d ≤ Store.compact_rev E d'
  pub configs :
      (key : Bytes) (version : Int64)
      → (Store.get_config E d' key version ≡ Store.get_config E d key version)
        ⊎ (Store.get_config E d' key version ≡ miss version_not_found)

missing_read : (a : Read) → ¬ (a ≡ failed) → value_of a ≡ none → a ≡ not_found
unfolding value_of
missing_read (found v) h e = cc e
missing_read not_found h e = refl
missing_read failed h e = absurd (h refl)

same_main :
    (E : Engine) (d d' : E.Db) (key : Bytes)
    → E.get d' (main_key key) ≡ E.get d (main_key key)
    → (Store.read_main E d' key ≡ Store.read_main E d key)
      × (Store.get E d' key ≡ Store.get E d key)
unfolding Store.read_main Store.get
same_main E d d' key e = (rw (Store.read_main, e) refl, rw (Store.get, Store.read_main, e) refl)

module _ (E : Engine) (d d' : E.Db) (key : Bytes) (version : Int64) where
  config_latest :
      (is_negative version || version == 0) ≡ true
      → Store.get E d' key ≡ Store.get E d key
      → Store.get_config E d' key version ≡ Store.get_config E d key version
  unfolding Store.get_config
  config_latest b e = rw b e

  config_kept :
      (is_negative version || version == 0) ≡ false
      → E.get d' (config_key key version) ≡ E.get d (config_key key version)
      → Store.get_config E d' key version ≡ Store.get_config E d key version
  unfolding Store.get_config
  config_kept b e = rw (b, e) refl

  config_gone :
      (is_negative version || version == 0) ≡ false
      → E.get d' (config_key key version) ≡ not_found
      → Store.get_config E d' key version ≡ miss version_not_found
  unfolding Store.get_config
  config_gone b e = rw (b, e) refl

module _ (E : Engine) (laws : EngineLaws E) (d : E.Db) (readable : Readable E d) where
  -- From the contents under the keys that are read.
  found-Compacted :
      (d' : E.Db)
      → Readable E d'
      → ((k : Bytes) → laws.find d' (main_key k) ≡ laws.find d (main_key k))
      → laws.find d' revision_meta_key ≡ laws.find d revision_meta_key
      → counter (laws.find d compact_rev_key) ≤ counter (laws.find d' compact_rev_key)
      → ((k : Bytes) (v : Int64)
          → (laws.find d' (config_key k v) ≡ laws.find d (config_key k v))
            ⊎ (laws.find d' (config_key k v) ≡ none))
      → Compacted E d d'
  found-Compacted d' r mains revs tops configs =
      let mains' = λ (k : Bytes).
        same_main E d d' k (same_get E laws d d' (main_key k) readable r (mains k)) in
      record {
        records = λ k. (mains' k).0;
        gets = λ k. (mains' k).1;
        revision =
            counter-revision E laws d' r
            ∙ ap counter revs
            ∙ sym (counter-revision E laws d readable);
        boundary =
            omega (arith, counter-compact E laws d readable, counter-compact E laws d' r, tops);
        configs = λ k v. elim (Bool-cases (is_negative v || v == 0)) [
          | inl b ↦ inl (config_latest E d d' k v b (mains' k).1)
          | inr b ↦ elim (configs k v) [
            | inl e ↦
                inl (config_kept E d d' k v b (same_get E laws d d' (config_key k v) readable r e))
            | inr e ↦ inr (
                config_gone E d d' k v b (
                  missing_read (E.get d' (config_key k v)) (r (config_key k v))
                    (read-find E laws d' (config_key k v) r ∙ e)))
          ]
        ];
      }

  unchanged-Compacted :
      (d' : E.Db)
      → Readable E d'
      → ((j : Bytes) → laws.find d' j ≡ laws.find d j)
      → Compacted E d d'
  unchanged-Compacted d' r h =
      found-Compacted d' r (λ k. h (main_key k)) (h revision_meta_key)
        (omega (arith, ap counter (h compact_rev_key))) (λ k v. inl (h (config_key k v)))

new_boundary :
    (old last : ℕ)
    → old < 2 ^ 63
    → last < 2 ^ 63
    → (old ≤ (if slt old last then last else old)) × ((if slt old last then last else old) < 2 ^ 63)
new_boundary old last ho hl = (ground (arith, slt-ltb old last ho hl), ground arith)

module _ (E : Engine) (laws : EngineLaws E) (d : E.Db) (s : State) (m : Models E laws d s)
    (c : IsConsistent s) (readable : Readable E d) where
  -- The database that a compaction leaves: the old one if nothing was removed, or if the batch was
  -- refused.
  branch-Compacted :
      (deletes : List Op) (top removed : ℕ) (none_removed : Bool) (w : E.Db × Bool)
      → ((P : Bytes → Type 0)
          → ((r : Int64) (k : Bytes) → P (version_key r k))
          → ((k : Bytes) (v : Int64) → P (config_key k v))
          → Deletes P deletes)
      → s.compacted ≤ top
      → top < 2 ^ 63
      → E.write d (deletes ++ (Op.put compact_rev_key (encode_uint64 top) ∷ [])) ≡ w
      → let out = if◌then◌else◌ {A = E.Db × ℕ} none_removed (d, 0) (w.0, removed) in
        Readable E out.0 → Compacted E d out.0
  branch-Compacted deletes top removed true w others le small e r =
      unchanged-Compacted E laws d readable d r (λ j. refl)
  branch-Compacted deletes top removed false (d', false) others le small e r =
      unchanged-Compacted E laws d readable d' r (laws.write_refused d d' _ e)
  branch-Compacted deletes top removed false (d', true) others le small e r =
      let h = laws.write_done d d' _ e in
      found-Compacted E laws d readable d' r (find-main_key E laws d deletes top others small d' h)
        (find-revision E laws d deletes top others small d' h)
        (omega (
          arith,
          m.compacted,
          ap counter (find-compact E laws d deletes top others small d' h),
          decode_uint64-encode_uint64 top (omega arith),
        ))
        (find-config_key E laws d deletes top others small d' h)

  drop_versions-Compacted :
      (keep_versions : ℕ) (groups : Groups)
      → (drop_groups keep_versions groups 0).1 < 2 ^ 63
      → let out = Scan.drop_versions E d (drop_groups keep_versions groups 0) in
        Readable E out.0 → Compacted E d out.0
  unfolding Scan.drop_versions
  drop_versions-Compacted keep_versions groups small =
      let batch = drop_groups keep_versions groups 0 in
      let bounds = new_boundary s.compacted batch.1 (omega (arith, c.bounded, c.collected)) small in
      rw (compact_rev-Models E laws d s m readable) (
        branch-Compacted batch.0 _ batch.2 (batch.2 == 0) _
          (λ P versions configs. drop_groups-Deletes P versions configs keep_versions groups 0)
          bounds.0 bounds.1 refl)

  drop_versions-Readable :
      ((batch : List Op) → Readable E (E.write d batch).0)
      → (dropped : List Op × Int64 × ℕ) → Readable E (Scan.drop_versions E d dropped).0
  unfolding Scan.drop_versions
  drop_versions-Readable stays (batch, top, removed) = elim (Bool-cases (removed == 0)) [
    | inl h ↦ rw h readable
    | inr h ↦ rw h (stays _)
  ]

  -- On a readable database that holds a consistent state, and that stays readable when a batch is
  -- written, Compaction returns, whatever the number of versions to keep, and throws no exception.
  -- Then every current record reads as before, tombstones included, and so do Get and the revision;
  -- the revision up to which watchers are answered COMPACTED does not go back; and GetConfig answers
  -- as before or VERSION_NOT_FOUND.
  pub compaction-Compacted :
      ((batch : List Op) → Readable E (E.write d batch).0)
      → (keep_versions : Int32)
      → (d' : E.Db) × (removed : ℕ) × (Scan.compaction E d keep_versions ≡ some (d', removed))
        × Compacted E d d'
  unfolding Scan.compaction
  compaction-Compacted stays keep_versions =
      let kept : ℕ =
        if is_negative32 keep_versions || keep_versions == 0 then 1 else keep_versions in
      let groups = gather s.history [] in
      let out = Scan.drop_versions E d (drop_groups kept groups 0) in
      (
        out.0,
        out.1,
        rw (collected E laws d s m c) refl,
        drop_versions-Compacted kept groups
            (drop_groups_top kept groups 0 (omega arith)
              (gather-All (λ r. r.0 < 2 ^ 63) s.history [] (small_history E laws d s m c) tt))
            (drop_versions-Readable stays (drop_groups kept groups 0)),
      )

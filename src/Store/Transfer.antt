-- ===== src/Store/Transfer.antt =====
-- The store of a node that loaded the snapshot of another.
use configraft.Base.{◌≡◌, refl, ap, sym, ◌∙◌, Bool, true, false, none, if◌then◌else◌, Int64}
use configraft.Base.Bytes.{Bytes}
use configraft.StoreKey.{revision_meta_key, compact_rev_key, main_key, config_key}
use configraft.LevelDb.{Engine, EngineLaws, Read, found, not_found, failed, after, Readable}
use configraft.Mvcc.{State}
use configraft.Mvcc.Invariant.{IsConsistent}
use configraft.Store
use configraft.Store.Contents.{counter}
use configraft.Store.Loading.Batch.{
  OnlyPublished, after-main_key, after-config_key, after-revision, after-compact,
}
use configraft.Store.Reads.{Models, value_of, read-find, read_counter, current_revision-Models}
use configraft.Store.Handle
use configraft.Store.Handle.{Opening, opened, refused, Directory, DirectoryLaws}
use configraft.Store.Snapshot
use configraft.Store.Snapshot.{Loaded, loaded, not_loaded, closed}

-- Two reads that do not fail and show the same value.
same_read : (a b : Read) → ¬ (a ≡ failed) → ¬ (b ≡ failed) → value_of a ≡ value_of b → a ≡ b
unfolding value_of
same_read (found x) (found y) ha hb e = cc e
same_read (found x) not_found ha hb e = cc e
same_read (found x) failed ha hb e = absurd (hb refl)
same_read not_found (found y) ha hb e = cc e
same_read not_found not_found ha hb e = refl
same_read not_found failed ha hb e = absurd (hb refl)
same_read failed b ha hb e = absurd (ha refl)

-- What a node that loaded the snapshot of `d` reads, next to what `d` reads: the same current records
-- and published versions, and the same revision, which is also its revision of compaction.
pub record Restored (E : Engine) (d d' : E.Db) : Type 0 where
  pub records : (key : Bytes) → Store.read_main E d' key ≡ Store.read_main E d key
  pub gets : (key : Bytes) → Store.get E d' key ≡ Store.get E d key
  pub configs :
      (key : Bytes) (version : Int64)
      → Store.get_config E d' key version ≡ Store.get_config E d key version
  pub revision : Store.current_revision E d' ≡ Store.current_revision E d
  pub compaction : Store.compact_rev E d' ≡ Store.current_revision E d

module _ (E : Engine) (laws : EngineLaws E) where
  pub same_get :
      (d d' : E.Db) (j : Bytes)
      → Readable E d
      → Readable E d'
      → laws.find d' j ≡ laws.find d j
      → E.get d' j ≡ E.get d j
  same_get d d' j r r' e =
      same_read (E.get d' j) (E.get d j) (r' j) (r j)
        (read-find E laws d' j r' ∙ e ∙ sym (read-find E laws d j r))

  pub counter-revision :
      (d : E.Db)
      → Readable E d
      → Store.current_revision E d ≡ counter (laws.find d revision_meta_key)
  unfolding Store.current_revision
  counter-revision d r =
      read_counter E laws (E.get d revision_meta_key)
      ∙ ap counter (read-find E laws d revision_meta_key r)

  pub counter-compact :
      (d : E.Db) → Readable E d → Store.compact_rev E d ≡ counter (laws.find d compact_rev_key)
  unfolding Store.compact_rev
  counter-compact d r =
      read_counter E laws (E.get d compact_rev_key)
      ∙ ap counter (read-find E laws d compact_rev_key r)

  module _ (d : E.Db) (s : State) (m : Models E laws d s) (c : IsConsistent s)
      (only : OnlyPublished E laws d) (readable : Readable E d) where
    -- The contents are those of the batch alone.
    batch-Restored :
        (d' : E.Db)
        → Readable E d'
        → ((j : Bytes)
            → laws.find d' j
              ≡ after (Snapshot.snapshot_ops E (Snapshot.export_snapshot E d)) j none)
        → Restored E d d'
    unfolding Store.read_main Store.get Store.get_config
    batch-Restored d' r h =
        let main = λ (k : Bytes).
          same_get d d' (main_key k) readable r
            (h (main_key k) ∙ after-main_key E laws d s m c only k) in
        let config = λ (k : Bytes) (v : Int64).
          same_get d d' (config_key k v) readable r
            (h (config_key k v) ∙ after-config_key E laws d s m c only k v) in
        let top = current_revision-Models E laws d s m readable in
        record {
          records = λ k. rw (Store.read_main, main k) refl;
          gets = λ k. rw (Store.get, Store.read_main, main k) refl;
          configs =
              λ k v. rw (Store.get_config, Store.get, Store.read_main, main k, config k v) refl;
          revision =
              counter-revision d' r
              ∙ ap counter (h revision_meta_key)
              ∙ after-revision E laws d s m c only
              ∙ sym top;
          compaction =
              counter-compact d' r
              ∙ ap counter (h compact_rev_key)
              ∙ after-compact E laws d s m c only
              ∙ sym top;
        }

    emptied-Restored :
        (d0 d' : E.Db) (result : E.Db × Bool)
        → ((j : Bytes) → laws.find d0 j ≡ none)
        → E.write d0 (Snapshot.snapshot_ops E (Snapshot.export_snapshot E d)) ≡ result
        → (if result.1 then loaded result.0 else not_loaded result.0) ≡ loaded d'
        → Readable E d'
        → Restored E d d'
    emptied-Restored d0 d' (d1, true) empty w e r =
        let same : d1 ≡ d' = cc e in
        batch-Restored d' r (λ j.
          ap (λ x. laws.find x j) (sym same)
          ∙ laws.write_done d0 d1 _ w j
          ∙ ap (after (Snapshot.snapshot_ops E (Snapshot.export_snapshot E d)) j) (empty j))
    emptied-Restored d0 d' (d1, false) empty w e r = cc e

    written-Restored :
        (d0 d' : E.Db)
        → ((j : Bytes) → laws.find d0 j ≡ none)
        → Snapshot.write_snapshot E (Snapshot.export_snapshot E d) d0 ≡ loaded d'
        → Readable E d'
        → Restored E d d'
    unfolding Snapshot.write_snapshot
    written-Restored d0 d' empty e r = emptied-Restored d0 d' _ empty refl e r

    -- The directory of the database that is there before, removed without an error.
    module _ (D : Directory E) (disk : DirectoryLaws E laws D) (target d' : E.Db) (files : D.Files)
        (removed : D.remove_all (D.left_by target) ≡ (files, true)) where
      opened-Restored :
          (creates : Bool) (o : Opening E)
          → D.opens files D.data_dir ≡ o
          → Snapshot.load_into E (Snapshot.export_snapshot E d) (
              Handle.open_store E
                (λ dir. creates)
                (λ dir. o)
                D.data_dir
                (record { db = none; data_dir = D.data_dir }))
            ≡ loaded d'
          → Readable E d'
          → Restored E d d'
      unfolding Snapshot.load_into Handle.open_store Handle.keep_db
      opened-Restored false o at e r = cc e
      opened-Restored true (refused err) at e r = cc e
      opened-Restored true (opened d0) at e r =
          written-Restored d0 d' (disk.opens_new (D.left_by target) files d0 removed at) e r

      -- If a node loads the snapshot that a node with a consistent state exported, whatever its own
      -- database held before, then it reads what that one reads: the records of the main index,
      -- deleted ones included, and so the answers of Get, and the published versions. Its revision is
      -- the other's, and so is the revision up to which it answers COMPACTED. Both databases are
      -- readable, the exported one holds only published records under their prefix, and the
      -- directory of the old database was removed without an error.
      pub load_snapshot-export_snapshot :
          Snapshot.load_snapshot E D target (Snapshot.export_snapshot E d) ≡ loaded d'
          → Readable E d'
          → Restored E d d'
      unfolding Snapshot.load_snapshot Snapshot.reopen Handle.close_store Handle.open_store
      load_snapshot-export_snapshot e r =
          opened-Restored (D.creates files D.data_dir) (D.opens files D.data_dir) refl
            (rw removed at e) r

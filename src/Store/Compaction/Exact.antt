-- ===== src/Store/Compaction/Exact.antt =====
-- What the batch of a compaction leaves of a database.
use configraft.Base.{
  ℕ, ◌^◌, ◌≤◌, ◌<◌, ◌≡◌, refl, sym, ap, ap₂, subst, fun_ext, ◌∙◌, true, false, Bool, Option, none,
  List, [], ◌∷◌, ◌++◌, map, All, arith, if◌then◌else◌, Int64, Bool-cases, inl, inr, slt, slt-ltb,
  ltb,
}
use configraft.Base.Bytes.{Bytes, bytes_eq, starts_with}
use configraft.Proto.{Kv}
use configraft.StoreKey.{
  revision_meta_key, compact_rev_key, version_prefix, main_key, version_key, config_key,
  encode_uint64,
}
use configraft.StoreKey.Distinct.{Slot, version_slot, config_slot, slot_key, IsWord}
use configraft.LevelDb.{Engine, EngineLaws, Op, after}
use configraft.LevelDb.Sorted.{lookup}
use configraft.Mvcc.{State}
use configraft.Mvcc.Compact.{
  compact, compact-IsConsistent, kept, dropped, has_version, last_revision, last_revision-le,
  kept-All,
}
use configraft.Mvcc.Invariant.{IsConsistent}
use configraft.Store.Compaction.{gather}
use configraft.Store.Compaction.Boundary.{Fit, groups_top, groups_bound, groups_attained}
use configraft.Store.Compaction.Discards.{
  slot_of, kept-mentions, mentions_own, mentions-has_version, mentions-last_revision,
  last_revision_top, lookup-kept,
}
use configraft.Store.Compaction.Dropped.{
  gone, after-gone, hits, excess, mentions, AreWords, IsOf, gone-drop_groups, hits-dropped,
}
use configraft.Store.Compaction.Grouped.{records_at, gather-Ordered, records_at-gather}
use configraft.Store.Compaction.Keeps.{
  Deletes, drop_groups-Deletes, gather-All, after-Deletes_others, version_key-main_key,
  config_key-main_key, version_key-revision, config_key-revision,
}
use configraft.Store.Contents.{counter, set_at, entry, stored, Represents, Represents-set_compact}
use configraft.Store.Reads.{Models}
use configraft.Store.RefineBatch.{after-append}
use configraft.Store.Scan.{drop_groups}

Fit-history :
    {top : ℕ} (l : List Kv)
    → top < 2 ^ 63
    → All (λ kv. kv.revision ≤ top) l
    → All (λ kv. kv.version ≤ top) l
    → All (λ kv. Fit (kv.revision, kv.version)) l × All (λ kv. AreWords (kv.revision, kv.version)) l
Fit-history [] h a b = (tt, tt)
Fit-history (kv ∷ l) h (p, a) (q, b) =
    let (fit, words) = Fit-history l h a b in
    ((((omega arith), (omega arith)), fit), (((omega arith), (omega arith)), words))

All-mp : (P Q : Kv → Type 0) (l : List Kv) → ((kv : Kv) → P kv → Q kv) → All P l → All Q l
All-mp P Q [] f a = tt
All-mp P Q (kv ∷ l) f (p, a) = (f kv p, All-mp P Q l f a)

All-mp₂ :
    (P Q R : Kv → Type 0) (l : List Kv)
    → ((kv : Kv) → P kv → Q kv → R kv)
    → All P l
    → All Q l
    → All R l
All-mp₂ P Q R [] f a b = tt
All-mp₂ P Q R (kv ∷ l) f (p, a) (q, b) = (f kv p q, All-mp₂ P Q R l f a b)

stored-if :
    (E : Engine) (b : Bool) (o : Option Kv)
    → (if b then none else stored E o) ≡ stored E (if b then none else o)
stored-if E true o = refl
stored-if E false o = refl

-- The greater of two signed numbers is their least upper bound.
least_bound :
    (old last top : ℕ)
    → old < 2 ^ 63
    → last < 2 ^ 63
    → old ≤ top
    → last ≤ top
    → ((bound : ℕ) → old ≤ bound → last ≤ bound → top ≤ bound)
    → (if slt old last then last else old) ≡ top
least_bound old last top ho hl a b least = elim (Bool-cases (ltb old last)) [
  | inl h ↦ rw (slt-ltb old last ho hl, h) (ground (arith, least last))
  | inr h ↦ rw (slt-ltb old last ho hl, h) (ground (arith, least old))
]

module _ (s : State) (c : IsConsistent s) (n : ℕ) where
  -- What the second loop makes of the groups.
  abbrev pub deletes : List Op × Int64 × ℕ
  deletes = drop_groups n (gather s.history []) 0

  abbrev pub lost : List Kv
  lost = dropped n s.history

  fits :
      All (λ kv. Fit (kv.revision, kv.version)) s.history
      × All (λ kv. AreWords (kv.revision, kv.version)) s.history
  fits = Fit-history s.history c.bounded c.recorded c.versioned

  fitting : All (λ g. All Fit g.1) (gather s.history [])
  fitting = gather-All Fit s.history [] fits.0 tt

  groups_words : All (λ g. All AreWords g.1) (gather s.history [])
  groups_words = gather-All AreWords s.history [] fits.1 tt

  -- A slot is deleted exactly if a record that goes has it.
  gone_slot :
      (t : Slot) (k : Bytes) → IsWord t → IsOf k t → gone deletes.0 (slot_key t) ≡ mentions t lost
  unfolding records_at
  gone_slot t k w i =
      gone-drop_groups t k n (gather s.history []) 0 w i groups_words
        (gather-Ordered s.history [] tt)
      ∙ ap (λ x. hits t k (excess n x)) (records_at-gather k s.history [] tt)
      ∙ hits-dropped t k n s.history i

  gone_record :
      (kv : Kv)
      → AreWords (kv.revision, kv.version)
      → gone deletes.0 (version_key kv.revision kv.key) ≡ mentions (slot_of kv) lost
  gone_record kv w = gone_slot (slot_of kv) kv.key w.0 refl

  lost-gone : All (λ kv. gone deletes.0 (version_key kv.revision kv.key) ≡ true) lost
  lost-gone =
      All-mp₂ _ _ _ lost (λ kv w e. gone_record kv w ∙ e)
        (kept-All (λ kv. AreWords (kv.revision, kv.version)) n s.history fits.1).1
        (mentions_own lost)

  kept_stays :
      All (λ kv. gone deletes.0 (version_key kv.revision kv.key) ≡ false) (kept n s.history)
  kept_stays =
      All-mp₂ _ _ _ (kept n s.history) (λ kv w e. gone_record kv w ∙ e)
        (kept-All (λ kv. AreWords (kv.revision, kv.version)) n s.history fits.1).0
        (kept-mentions n 0 s.history c.ascending)

  only-Deletes :
      (P : Bytes → Type 0)
      → ((r : Int64) (k : Bytes) → P (version_key r k))
      → ((k : Bytes) (v : Int64) → P (config_key k v))
      → Deletes P deletes.0
  only-Deletes P versions configs = drop_groups-Deletes P versions configs n (gather s.history []) 0

  after_deletes :
      (j : Bytes) (o : Option Bytes) → after deletes.0 j o ≡ (if gone deletes.0 j then none else o)
  after_deletes j o =
      after-gone deletes.0 j o (only-Deletes (λ i. Unit {0}) (λ r k. tt) (λ k v. tt))

  -- The new boundary.
  pub boundary :
      (if slt s.compacted deletes.1 then deletes.1 else s.compacted)
      ≡ last_revision s.compacted lost
  boundary =
      let (from, small) = groups_top n (gather s.history []) 0 (omega arith) fitting in
      let top = last_revision s.compacted lost in
      let all_below : All (λ kv. kv.revision ≤ deletes.1) lost =
        All-mp₂ _ _ _ lost
          (λ kv w e.
            groups_bound kv.revision kv.key n (gather s.history []) 0 w.0 (omega arith) fitting e)
          (kept-All (λ kv. AreWords (kv.revision, kv.version)) n s.history fits.1).1 lost-gone in
      let reached : deletes.1 ≤ top = elim (groups_attained n (gather s.history []) 0) [
        | inl e ↦ omega (arith, e)
        | inr (k, g) ↦
            mentions-last_revision deletes.1 k s.compacted lost
              (sym (gone_slot (version_slot deletes.1 k) k (omega (arith, small)) refl) ∙ g)
      ] in
      least_bound s.compacted deletes.1 top (omega (arith, c.bounded, c.collected)) small
        (last_revision_top s.compacted lost) reached
        (λ bound p q. last_revision-le s.compacted bound lost p (
          All-mp (λ kv. kv.revision ≤ deletes.1) (λ kv. kv.revision ≤ bound) lost
            (λ kv le. omega (arith, le, q)) all_below))

  module _ (E : Engine) (laws : EngineLaws E) (d : E.Db) (m : Models E laws d s) where
    history-deletes :
        (j : Bytes)
        → starts_with version_prefix j ≡ true
        → after deletes.0 j (laws.find d j) ≡ lookup j (map (entry E) (kept n s.history))
    history-deletes j p =
        after_deletes j (laws.find d j)
        ∙ ap (λ o. if gone deletes.0 j then none else o) (m.history j p)
        ∙ sym (lookup-kept E (gone deletes.0) n j s.history kept_stays lost-gone)

    config-deletes :
        (k : Bytes) (v : Int64)
        → v < 2 ^ 64
        → after deletes.0 (config_key k v) (laws.find d (config_key k v))
          ≡ stored E (if has_version k v lost then none else s.config k v)
    config-deletes k v h =
        after_deletes (config_key k v) _
        ∙ ap₂ (λ b o. if b then none else o)
            (gone_slot (config_slot k v) k h refl ∙ mentions-has_version k v lost) (m.config k v h)
        ∙ stored-if E (has_version k v lost) (s.config k v)

    untouched :
        (j : Bytes)
        → ((r : Int64) (k : Bytes) → bytes_eq (version_key r k) j ≡ false)
        → ((k : Bytes) (v : Int64) → bytes_eq (config_key k v) j ≡ false)
        → after deletes.0 j (laws.find d j) ≡ laws.find d j
    untouched j versions configs =
        after-Deletes_others deletes.0 j (laws.find d j)
          (only-Deletes (λ i. bytes_eq i j ≡ false) versions configs)

    -- The deletions alone: the boundary stays behind.
    pub after_deletes-Represents :
        Represents E
          (λ j. after deletes.0 j (laws.find d j))
          (record (compact n s) { compacted = s.compacted })
    unfolding compact bytes_eq main_key version_key config_key
    after_deletes-Represents = record {
      counted =
          ap counter (untouched revision_meta_key version_key-revision config_key-revision)
          ∙ m.counted;
      compacted = ap counter (untouched compact_rev_key (λ r k. refl) (λ k v. refl)) ∙ m.compacted;
      main = λ k.
          untouched (main_key k) (λ r j. version_key-main_key r j k)
            (λ j v. config_key-main_key j v k)
          ∙ m.main k;
      config = config-deletes;
      history = history-deletes;
    }

    -- The deletions with the new boundary.
    pub after_batch-Represents :
        (top : ℕ)
        → top ≡ last_revision s.compacted lost
        → Represents E
            (λ j.
              after
                (deletes.0 ++ (Op.put compact_rev_key (encode_uint64 top) ∷ []))
                j
                (laws.find d j))
            (compact n s)
    unfolding compact
    after_batch-Represents top e =
        let small : top < 2 ^ 64 =
          omega (arith, e, (compact-IsConsistent n s c).collected, c.bounded) in
        subst (λ f. Represents E f (compact n s))
          (fun_ext (λ j. sym (after-append deletes.0 _ j (laws.find d j))))
          (subst
            (λ r.
              Represents E
                (set_at (λ j. after deletes.0 j (laws.find d j)) compact_rev_key
                  (encode_uint64 top))
                (record (compact n s) { compacted = r }))
            e (Represents-set_compact E after_deletes-Represents top small))

-- ===== src/Store/Compaction/Keeps.antt =====
-- What Compaction leaves alone, and what it can take away.
use configraft.Base.{
  ℕ, zero, suc, ◌-◌, ◌^◌, ◌<◌, ◌≡◌, refl, ◌∙◌, false, Option, none, some, List, [], ◌∷◌, ◌++◌, All,
  arith, Bool-cases, inl, inr, ◌⊎◌, Int64, length,
}
use configraft.Base.Bytes.{Bytes, bytes_eq, lt_bytes}
use configraft.Proto.{Kv}
use configraft.StoreKey.{
  revision_meta_key, compact_rev_key, main_key, version_key, config_key, encode_uint64,
}
use configraft.LevelDb.{Engine, EngineLaws, Op, after}
use configraft.Store.Compaction.{gather}
use configraft.Store.RefineBatch.{after-append}
use configraft.Store.Scan.{Groups, Records, add_record, drop_records, drop_groups}

-- A batch that only deletes, and only keys with `P`.
abbrev pub Deletes : (Bytes → Type 0) → List Op → Type 0
Deletes P [] = Unit {0}
Deletes P (Op.put j raw ∷ batch) = ⊥
Deletes P (Op.delete j ∷ batch) = P j × Deletes P batch

Deletes-append :
    (P : Bytes → Type 0) (xs ys : List Op) → Deletes P xs → Deletes P ys → Deletes P (xs ++ ys)
Deletes-append P [] ys h k = k
Deletes-append P (Op.put j raw ∷ xs) ys h k = absurd h
Deletes-append P (Op.delete j ∷ xs) ys (p, h) k = (p, Deletes-append P xs ys h k)

-- A batch that deletes other keys leaves a key alone; any batch of deletions keeps its value or takes
-- it away.
pub after-Deletes_others :
    (batch : List Op) (j : Bytes) (o : Option Bytes)
    → Deletes (λ i. bytes_eq i j ≡ false) batch
    → after batch j o ≡ o
after-Deletes_others [] j o h = refl
after-Deletes_others (Op.put i raw ∷ batch) j o h = absurd h
after-Deletes_others (Op.delete i ∷ batch) j o (p, h) = rw p (after-Deletes_others batch j o h)

after-Deletes :
    (batch : List Op) (j : Bytes) (o : Option Bytes)
    → Deletes (λ i. Unit {0}) batch
    → (after batch j o ≡ o) ⊎ (after batch j o ≡ none)
after-Deletes [] j o h = inl refl
after-Deletes (Op.put i raw ∷ batch) j o h = absurd h
after-Deletes (Op.delete i ∷ batch) j o (p, h) = elim (Bool-cases (bytes_eq i j)) [
  | inl e ↦ inr (rw e (elim (after-Deletes batch j none h) [ inl q ↦ q | inr q ↦ q ]))
  | inr e ↦ rw e (after-Deletes batch j o h)
]

-- What the loops delete, and the largest revision among it.
abbrev pub Small : Records → Type 0
Small records = All (λ r. r.0 < 2 ^ 63) records

module _ (P : Bytes → Type 0) (versions : (r : Int64) (k : Bytes) → P (version_key r k))
    (configs : (k : Bytes) (v : Int64) → P (config_key k v)) where
  drop_records-Deletes :
      (key : Bytes) (excess : ℕ) (records : Records) (top : Int64)
      → Deletes P (drop_records key excess records top).0
  unfolding drop_records
  drop_records-Deletes key zero records top = tt
  drop_records-Deletes key (suc excess) [] top = tt
  drop_records-Deletes key (suc excess) ((rev, ver) ∷ records) top =
      (versions rev key, (configs key ver, drop_records-Deletes key excess records _))

  pub drop_groups-Deletes :
      (keep_versions : ℕ) (groups : Groups) (top : Int64)
      → Deletes P (drop_groups keep_versions groups top).0
  unfolding drop_groups
  drop_groups-Deletes keep_versions [] top = tt
  drop_groups-Deletes keep_versions ((key, records) ∷ groups) top =
      Deletes-append P _ _ (drop_records-Deletes key (length records - keep_versions) records top)
        (drop_groups-Deletes keep_versions groups _)

drop_records_top :
    (key : Bytes) (excess : ℕ) (records : Records) (top : Int64)
    → top < 2 ^ 63
    → Small records
    → (drop_records key excess records top).1 < 2 ^ 63
unfolding drop_records
drop_records_top key zero records top h b = h
drop_records_top key (suc excess) [] top h b = h
drop_records_top key (suc excess) ((rev, ver) ∷ records) top h (q, b) =
    drop_records_top key excess records _ (ground arith) b

pub drop_groups_top :
    (keep_versions : ℕ) (groups : Groups) (top : Int64)
    → top < 2 ^ 63
    → All (λ g. Small g.1) groups
    → (drop_groups keep_versions groups top).1 < 2 ^ 63
unfolding drop_groups
drop_groups_top keep_versions [] top h b = h
drop_groups_top keep_versions ((key, records) ∷ groups) top h (q, b) =
    drop_groups_top keep_versions groups _
      (drop_records_top key (length records - keep_versions) records top h q) b

-- What holds of every record holds of every record in its group.
module _ (P : Int64 × Int64 → Type 0) where
  append-All :
      (records : Records) (r : Int64 × Int64) → All P records → P r → All P (records ++ (r ∷ []))
  append-All [] r b h = (h, tt)
  append-All (x ∷ records) r (q, b) h = (q, append-All records r b h)

  add_record-All :
      (key : Bytes) (r : Int64 × Int64) (groups : Groups)
      → P r
      → All (λ g. All P g.1) groups
      → All (λ g. All P g.1) (add_record key r groups)
  unfolding add_record
  add_record-All key r [] h b = ((h, tt), tt)
  add_record-All key r ((j, records) ∷ groups) h (q, b) = elim (Bool-cases (bytes_eq j key)) [
    | inl e ↦ rw e (append-All records r q h, b)
    | inr n ↦ elim (Bool-cases (lt_bytes key j)) [
      | inl e ↦ rw (n, e) ((h, tt), (q, b))
      | inr e ↦ rw (n, e) (q, add_record-All key r groups h b)
    ]
  ]

  pub gather-All :
      (l : List Kv) (groups : Groups)
      → All (λ kv. P (kv.revision, kv.version)) l
      → All (λ g. All P g.1) groups
      → All (λ g. All P g.1) (gather l groups)
  unfolding gather
  gather-All [] groups a b = b
  gather-All (kv ∷ l) groups (q, a) b =
      gather-All l _ a (add_record-All kv.key (kv.revision, kv.version) groups q b)

pub version_key-main_key :
    (r : Int64) (j k : Bytes) → bytes_eq (version_key r j) (main_key k) ≡ false
unfolding bytes_eq version_key main_key
version_key-main_key r j k = refl

pub config_key-main_key :
    (j : Bytes) (v : Int64) (k : Bytes) → bytes_eq (config_key j v) (main_key k) ≡ false
unfolding bytes_eq config_key main_key
config_key-main_key j v k = refl

pub version_key-revision :
    (r : Int64) (j : Bytes) → bytes_eq (version_key r j) revision_meta_key ≡ false
unfolding bytes_eq version_key
version_key-revision r j = refl

pub config_key-revision :
    (j : Bytes) (v : Int64) → bytes_eq (config_key j v) revision_meta_key ≡ false
unfolding bytes_eq config_key
config_key-revision j v = refl

module _ (E : Engine) (laws : EngineLaws E) (d : E.Db) where
  -- The database after the batch of `deletes` and the new boundary.
  module _ (deletes : List Op) (top : ℕ)
      (others : (P : Bytes → Type 0)
        → ((r : Int64) (k : Bytes) → P (version_key r k))
        → ((k : Bytes) (v : Int64) → P (config_key k v))
        → Deletes P deletes)
      (small : top < 2 ^ 63) (d' : E.Db)
      (h : (j : Bytes)
        → laws.find d' j
          ≡ after
              (deletes ++ (Op.put compact_rev_key (encode_uint64 top) ∷ []))
              j
              (laws.find d j)) where
    pub find-main_key : (k : Bytes) → laws.find d' (main_key k) ≡ laws.find d (main_key k)
    unfolding bytes_eq main_key
    find-main_key k =
        h (main_key k)
        ∙ after-append deletes _ (main_key k) _
        ∙ after-Deletes_others deletes (main_key k) _ (
            others (λ i. bytes_eq i (main_key k) ≡ false) (λ r j. version_key-main_key r j k)
              (λ j v. config_key-main_key j v k))

    pub find-revision : laws.find d' revision_meta_key ≡ laws.find d revision_meta_key
    unfolding bytes_eq
    find-revision =
        h revision_meta_key
        ∙ after-append deletes _ revision_meta_key _
        ∙ after-Deletes_others deletes revision_meta_key _ (
            others (λ i. bytes_eq i revision_meta_key ≡ false) version_key-revision
              config_key-revision)

    pub find-compact : laws.find d' compact_rev_key ≡ some (encode_uint64 top)
    unfolding bytes_eq
    find-compact = h compact_rev_key ∙ after-append deletes _ compact_rev_key _

    pub find-config_key :
        (k : Bytes) (v : Int64)
        → (laws.find d' (config_key k v) ≡ laws.find d (config_key k v))
          ⊎ (laws.find d' (config_key k v) ≡ none)
    unfolding bytes_eq config_key
    find-config_key k v =
        let step = h (config_key k v) ∙ after-append deletes _ (config_key k v) _ in
        elim (after-Deletes deletes (config_key k v) (laws.find d (config_key k v))
          (others (λ i. Unit {0}) (λ r k. tt) (λ k v. tt))) [
            | inl e ↦ inl (step ∙ e)
            | inr e ↦ inr (step ∙ e)
          ]

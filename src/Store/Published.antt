-- ===== src/Store/Published.antt =====
-- The keys that a store writes under the prefix of published records.
use configraft.Base.{
  ◌<◌, ◌^◌, arith, ◌≡◌, refl, sym, subst, ◌∙◌, Bool, true, false, Option, none, some, List, [], ◌∷◌,
  ◌++◌, if◌then◌else◌, Int64, ◌⊎◌, inl, inr, Bool-cases, increment,
}
use configraft.Base.Bytes.{Bytes, bytes_eq, bytes_eq_iff, starts_with}
use configraft.Proto.{
  Kv, Code, cas_failed, internal, RaftCmd, put, delete, cas, publish, rollback, batch_put, unset,
}
use configraft.StoreKey.{config_prefix, main_key, version_key, config_key}
use configraft.LevelDb.{Engine, EngineLaws, Op, after}
use configraft.Store
use configraft.Store.{Lookup, hit, miss}
use configraft.Store.Loading.{Holds}
use configraft.Store.Loading.Keys.{config_of}
use configraft.Store.Loading.Batch.{OnlyPublished}
use configraft.Store.Write
use configraft.Store.Write.{Written, wrote, not_written}
use configraft.StoreOps
use configraft.StoreOps.{apply_cmd_to_store}

next_version_word : (o : Option Kv) → Write.next_version o < 2 ^ 64
unfolding Write.next_version
next_version_word none = omega arith
next_version_word (some kv) = omega arith

new_kv_word :
    (o : Option Kv) (rev : Int64) (key value : Bytes)
    → (Write.new_kv o rev key value).version < 2 ^ 64
unfolding Write.new_kv
new_kv_word o rev key value = next_version_word o

-- What holds of every published record, under its own key.
module _ (E : Engine) (K : Bytes → Bytes → Type 0)
    (new : (kv : Kv) → kv.version < 2 ^ 64 → K (config_of kv) (E.serialize kv)) where
  -- A batch that sets keys of published records to such records alone.
  abbrev pub Clean : List Op → Type 0
  Clean [] = Unit {0}
  Clean (Op.put j raw ∷ batch) = (starts_with config_prefix j ≡ true → K j raw) × Clean batch
  Clean (Op.delete j ∷ batch) = Clean batch

  Clean-append : (xs ys : List Op) → Clean xs → Clean ys → Clean (xs ++ ys)
  Clean-append [] ys h k = k
  Clean-append (Op.put j raw ∷ xs) ys (p, h) k = (p, Clean-append xs ys h k)
  Clean-append (Op.delete j ∷ xs) ys h k = Clean-append xs ys h k

  revision_op-Clean : (rev : Int64) → Clean (Write.revision_op rev ∷ [])
  unfolding Write.revision_op starts_with
  revision_op-Clean rev = (λ h. cc h, tt)

  kv_ops-Clean : (rev : Int64) (kv : Kv) → Clean (Write.kv_ops E rev kv)
  unfolding Write.kv_ops starts_with main_key version_key
  kv_ops-Clean rev kv = (λ h. cc h, (λ h. cc h, tt))

  -- `d'` is `d`, or what a clean batch left of it.
  abbrev pub Keeps : E.Db → E.Db → Type 0
  Keeps d d' = (d' ≡ d) ⊎ ((batch : List Op) × Clean batch × (d' ≡ (E.write d batch).0))

  commit-Keeps :
      (d : E.Db) (refused : Bool) (batch : List Op) (rev : Int64) (kv : Kv)
      → Clean batch
      → Keeps d
          (if◌then◌else◌ {A = E.Db × Written} refused
            (d, not_written)
            (Write.commit E d batch rev kv)).0
  unfolding Write.commit
  commit-Keeps d true batch rev kv h = inl refl
  commit-Keeps d false batch rev kv h = inr (batch, h, refl)

  write-Clean : (rev : Int64) (kv : Kv) → Clean (Write.revision_op rev ∷ Write.kv_ops E rev kv)
  unfolding Write.revision_op
  write-Clean rev kv =
      Clean-append (Write.revision_op rev ∷ []) (Write.kv_ops E rev kv) (revision_op-Clean rev)
        (kv_ops-Clean rev kv)

  put-Keeps : (d : E.Db) (key value : Bytes) → Keeps d (Write.put E d key value).0
  unfolding Write.put
  put-Keeps d key value = commit-Keeps d _ _ _ _ (write-Clean _ _)

  delete-Keeps : (d : E.Db) (key : Bytes) → Keeps d (Write.delete E d key).0
  unfolding Write.delete
  delete-Keeps d key = commit-Keeps d _ _ _ _ (write-Clean _ _)

  publish-Keeps : (d : E.Db) (key value : Bytes) → Keeps d (Write.publish E d key value).0
  unfolding Write.publish Write.new_kv Write.revision_op
  publish-Keeps d key value =
      let rev = Store.next_revision E d in
      let kv = Write.new_kv (Store.read_main E d key) rev key value in
      let index = Op.put (config_key key kv.version) (E.serialize kv) in
      let index-Clean : Clean (index ∷ []) =
        (λ h. new kv (new_kv_word (Store.read_main E d key) rev key value), tt) in
      commit-Keeps d _ _ _ _ (
        Clean-append (Write.revision_op rev ∷ []) (Write.kv_ops E rev kv ++ (index ∷ []))
          (revision_op-Clean rev)
          (Clean-append (Write.kv_ops E rev kv) (index ∷ []) (kv_ops-Clean rev kv) index-Clean))

  write_code-Keeps :
      (d : E.Db) (stop refused : Bool) (r : E.Db × Written)
      → Keeps d r.0
      → Keeps d
          (if◌then◌else◌ {A = E.Db × Written × Code} stop
            (d, not_written, cas_failed)
            (if refused then (d, not_written, internal) else Write.write_code E r)).0
  unfolding Write.write_code
  write_code-Keeps d true refused r h = inl refl
  write_code-Keeps d false true r h = inl refl
  write_code-Keeps d false false (d', wrote rev kv) h = h
  write_code-Keeps d false false (d', not_written) h = h

  cas-Keeps :
      (d : E.Db) (key expect value : Bytes)
      → Keeps d (Write.compare_and_swap E d key expect value).0
  unfolding Write.compare_and_swap
  cas-Keeps d key expect value =
      write_code-Keeps d _ _ _ (commit-Keeps d false _ _ _ (write-Clean _ _))

  rollback-Keeps :
      (d : E.Db) (key : Bytes) (found : Lookup) → Keeps d (Write.republish E d key found).0
  unfolding Write.republish
  rollback-Keeps d key (miss code) = inl refl
  rollback-Keeps d key (hit target) = publish-Keeps d key target.value

  batch_loop-Clean :
      (d : E.Db) (rev : Int64) (kvs : List (Bytes × Bytes)) → Clean (Write.batch_loop E d rev kvs).1
  unfolding Write.batch_loop
  batch_loop-Clean d rev [] = tt
  batch_loop-Clean d rev ((key, value) ∷ kvs) =
      Clean-append (Write.kv_ops E _ _) _ (kv_ops-Clean _ _)
        (batch_loop-Clean d (increment rev) kvs)

  batch_put-Keeps : (d : E.Db) (kvs : List (Bytes × Bytes)) → Keeps d (Write.batch_put E d kvs).0
  unfolding Write.batch_put
  batch_put-Keeps d [] = inl refl
  batch_put-Keeps d (e ∷ kvs) =
      let loop = Write.batch_loop E d (Store.current_revision E d) (e ∷ kvs) in
      inr (
        loop.1 ++ (Write.revision_op loop.0 ∷ []),
        Clean-append loop.1 (Write.revision_op loop.0 ∷ [])
            (batch_loop-Clean d (Store.current_revision E d) (e ∷ kvs)) (revision_op-Clean loop.0),
        refl,
      )

  pub apply_cmd-Keeps : (d : E.Db) (cmd : RaftCmd) → Keeps d (apply_cmd_to_store E d cmd).0
  unfolding apply_cmd_to_store StoreOps.apply_put StoreOps.apply_delete StoreOps.apply_batch
      StoreOps.apply_cas StoreOps.apply_publish StoreOps.apply_rollback Write.rollback
  apply_cmd-Keeps d (put key value) = put-Keeps d key value
  apply_cmd-Keeps d (delete key) = delete-Keeps d key
  apply_cmd-Keeps d (cas key expect value) = cas-Keeps d key expect value
  apply_cmd-Keeps d (publish key value) = publish-Keeps d key value
  apply_cmd-Keeps d (rollback key target_version) = rollback-Keeps d key _
  apply_cmd-Keeps d (batch_put puts) = batch_put-Keeps d puts
  apply_cmd-Keeps d unset = inl refl

  after-Holds :
      (batch : List Op) (j : Bytes) (o : Option Bytes)
      → Clean batch
      → starts_with config_prefix j ≡ true
      → ((raw : Bytes) → o ≡ some raw → K j raw)
      → (raw : Bytes) → after batch j o ≡ some raw
      → K j raw
  after-Holds [] j o h p q raw e = q raw e
  after-Holds (Op.put i v ∷ batch) j o (h, hs) p q raw e =
      after-Holds batch j (if bytes_eq i j then some v else o) hs p
        (λ w f. elim (Bool-cases (bytes_eq i j)) [
          | inl b ↦
              let same : i ≡ j = (bytes_eq_iff i j).0 b in
              let value : v ≡ w = cc (f, b) in
              let own : K i v = h (subst (λ k. starts_with config_prefix k ≡ true) (sym same) p) in
              subst (λ k. K k w) same (subst (K i) value own)
          | inr b ↦ q w (cc (f, b))
        ])
        raw e
  after-Holds (Op.delete i ∷ batch) j o h p q raw e =
      after-Holds batch j (if bytes_eq i j then none else o) h p
        (λ w f. elim (Bool-cases (bytes_eq i j)) [ inl b ↦ cc (f, b) | inr b ↦ q w (cc (f, b)) ])
        raw e

module _ (E : Engine) (laws : EngineLaws E) (K : Bytes → Bytes → Type 0)
    (new : (kv : Kv) → kv.version < 2 ^ 64 → K (config_of kv) (E.serialize kv)) where
  -- Under the prefix of published records there are only such records.
  abbrev pub Only : E.Db → Type 0
  Only d = (j raw : Bytes) → starts_with config_prefix j ≡ true → laws.find d j ≡ some raw → K j raw

  Keeps-Only :
      (d : E.Db) (batch : List Op) (r : E.Db × Bool)
      → E.write d batch ≡ r
      → Clean E K new batch
      → Only d
      → Only r.0
  Keeps-Only d batch (d', true) w h only j raw p e =
      after-Holds E K new batch j (laws.find d j) h p (λ v f. only j v p f) raw
        (sym (laws.write_done d d' batch w j) ∙ e)
  Keeps-Only d batch (d', false) w h only j raw p e =
      only j raw p (sym (laws.write_refused d d' batch w j) ∙ e)

  -- A command keeps what stands under the prefix of published records.
  pub apply_cmd-Only : (d : E.Db) (cmd : RaftCmd) → Only d → Only (apply_cmd_to_store E d cmd).0
  apply_cmd-Only d cmd only = elim (apply_cmd-Keeps E K new d cmd) [
    | inl same ↦ subst Only (sym same) only
    | inr (batch, h, same) ↦
        subst Only (sym same) (Keeps-Only d batch (E.write d batch) refl h only)
  ]

module _ (E : Engine) (laws : EngineLaws E) where
  -- A command keeps what stands under the prefix of published records: there are only records under
  -- their own keys and versions.
  pub apply_cmd-OnlyPublished :
      (d : E.Db) (cmd : RaftCmd)
      → OnlyPublished E laws d
      → OnlyPublished E laws (apply_cmd_to_store E d cmd).0
  apply_cmd-OnlyPublished d cmd only =
      apply_cmd-Only E laws (Holds E config_of) (λ kv h. (kv, refl, refl)) d cmd only

  pub empty-OnlyPublished :
      (d : E.Db) → ((k : Bytes) → laws.find d k ≡ none) → OnlyPublished E laws d
  empty-OnlyPublished d h j raw p e = cc (h j, e)

-- ===== src/Store/Refine.antt =====
-- The writes of one record of src/store/store.cpp, beside those of the versioned map.
use configraft.Base.{
  ℕ, ◌+◌, ◌^◌, ◌≤◌, ◌<◌, ◌≡◌, refl, sym, subst, fun_ext, Bool, true, false, Option, none, some,
  List, [], ◌∷◌, ◌++◌, All, if◌then◌else◌, arith, is_negative, ◌⊎◌, inl, inr,
}
use configraft.Base.Bytes.{Bytes}
use configraft.Proto.{Kv, cas_failed}
use configraft.StoreKey.{config_key}
use configraft.LevelDb.{Engine, EngineLaws, Op, after, Readable}
use configraft.Mvcc.{State, version_after, value_record, delete_record, add_record, add_config}
use configraft.Mvcc.Invariant.{IsConsistent, Follows, version_bound}
use configraft.Store
use configraft.Store.Contents.{
  Represents, Represents-set_revision, Represents-set_main, Represents-set_version,
  Represents-set_config,
}
use configraft.Store.Reads.{Models, read_main-Models, next_revision-Models}
use configraft.Store.Write
use configraft.Store.Write.{Written, wrote, not_written, commit, kv_ops, revision_op}

pub below_next :
    (top : ℕ) (l : List Kv) → All (λ x. x.revision ≤ top) l → All (λ x. x.revision < top + 1) l
below_next top [] b = tt
below_next top (x ∷ l) (q, b) = (omega arith, below_next top l b)

module _ (E : Engine) (laws : EngineLaws E) where
  -- LevelDB refused a batch.
  abbrev pub Refused : E.Db → E.Db → Type 0
  Refused d d' = (batch : List Op) × (E.write d batch ≡ (d', false))

  -- The outcome of a write on `d` from state `s`: done, with `s'` and the record, or refused by
  -- LevelDB with nothing changed.
  abbrev pub Done : E.Db → E.Db × Written → State → State → Kv → Type 0
  Done d r s s' kv =
      (r.1 ≡ wrote kv.revision kv) × Models E laws r.0 s'
      ⊎ (r.1 ≡ not_written) × Models E laws r.0 s × Refused d r.0

  pub Models-write_done :
      (d d' : E.Db) (batch : List Op) (s' : State)
      → E.write d batch ≡ (d', true)
      → Represents E (λ k. after batch k (laws.find d k)) s'
      → Models E laws d' s'
  Models-write_done d d' batch s' e r =
      subst (λ f. Represents E f s') (sym (fun_ext (laws.write_done d d' batch e))) r

  pub Models-write_refused :
      (d d' : E.Db) (batch : List Op) (s : State)
      → E.write d batch ≡ (d', false)
      → Models E laws d s
      → Models E laws d' s
  Models-write_refused d d' batch s e r =
      subst (λ f. Represents E f s) (sym (fun_ext (laws.write_refused d d' batch e))) r

  module _ (d : E.Db) (s s' : State) (batch : List Op) (kv : Kv) (m : Models E laws d s) where
    written :
        (r : E.Db × Bool)
        → E.write d batch ≡ r
        → Represents E (λ k. after batch k (laws.find d k)) s'
        → Done d (r.0, if r.1 then wrote kv.revision kv else not_written) s s' kv
    written (d', true) e r = inl (refl, Models-write_done d d' batch s' e r)
    written (d', false) e r = inr (refl, Models-write_refused d d' batch s e m, (batch, e))

    commit-Done :
        Represents E (λ k. after batch k (laws.find d k)) s'
        → Done d (commit E d batch kv.revision kv) s s' kv
    unfolding commit
    commit-Done r = written (E.write d batch) refl r

  -- The batch of one record: the counter, the main index, the history.
  module _ (d : E.Db) (s : State) (kv : Kv) (m : Models E laws d s) (c : IsConsistent s)
      (f : Follows s kv) (h : s.revision + 1 < 2 ^ 63) where
    record_ops :
        Represents E
          (λ k. after (revision_op kv.revision ∷ kv_ops E kv.revision kv) k (laws.find d k))
          (add_record s kv)
    unfolding revision_op kv_ops
    record_ops =
        Represents-set_version E
          (Represents-set_main E (Represents-set_revision E m kv.revision (omega arith)) kv) kv
          (omega arith) (rw f.follows_revision (below_next s.revision s.history c.recorded))

    pub write_record :
        Done d
          (commit E d (revision_op kv.revision ∷ kv_ops E kv.revision kv) kv.revision kv)
          s
          (add_record s kv)
          kv
    write_record = commit-Done d s (add_record s kv) _ kv m record_ops

    write_config :
        Done d
          (commit E d
            (revision_op kv.revision
              ∷ (kv_ops E kv.revision kv
                  ++ (Op.put (config_key kv.key kv.version) (E.serialize kv) ∷ [])))
            kv.revision
            kv)
          s
          (add_config (add_record s kv) kv)
          kv
    unfolding kv_ops revision_op
    write_config =
        commit-Done d s (add_config (add_record s kv) kv) _ kv m
          (Represents-set_config E record_ops kv (omega arith))

pub next_version_lem :
    (o : Option Kv) → version_after o < 2 ^ 64 → Write.next_version o ≡ version_after o
unfolding Write.next_version
next_version_lem none h = refl
next_version_lem (some kv) h = omega arith

not_negative : (rev : ℕ) → rev < 2 ^ 63 → is_negative rev ≡ false
not_negative rev h = ground arith

-- The writes of one record, from a database that represents `s` and whose reads succeed.
module _ (E : Engine) (laws : EngineLaws E) (d : E.Db) (s : State) (m : Models E laws d s)
    (c : IsConsistent s) (ok : Readable E d) (h : s.revision + 1 < 2 ^ 63) where
  version_word : (key : Bytes) → version_after (s.main key) < 2 ^ 64
  version_word key = omega (arith, version_bound s key c)

  new_kv-Models :
      (key value : Bytes)
      → Write.new_kv (Store.read_main E d key) (Store.next_revision E d) key value
        ≡ value_record s (s.main key) key value
  unfolding Write.new_kv
  new_kv-Models key value = rw (
    read_main-Models E laws d s m ok key,
    next_revision-Models E laws d s m ok h,
    next_version_lem (s.main key) (version_word key),
  )

  tombstone-Models :
      (key : Bytes)
      → Write.tombstone (Store.read_main E d key) (Store.next_revision E d) key
        ≡ delete_record s key
  unfolding Write.tombstone
  tombstone-Models key = rw (
    read_main-Models E laws d s m ok key,
    next_revision-Models E laws d s m ok h,
    next_version_lem (s.main key) (version_word key),
  )

  pub value_record-Follows : (key value : Bytes) → Follows s (value_record s (s.main key) key value)
  value_record-Follows key value = record {
    follows_revision = refl;
    version_small = version_bound s key c;
  }

  delete_record-Follows : (key : Bytes) → Follows s (delete_record s key)
  delete_record-Follows key = record {
    follows_revision = refl;
    version_small = version_bound s key c;
  }

  put-commit :
      (key value : Bytes)
      → let kv = value_record s (s.main key) key value in
        Write.put E d key value
        ≡ commit E d (revision_op kv.revision ∷ kv_ops E kv.revision kv) kv.revision kv
  unfolding Write.put
  put-commit key value = rw (
    new_kv-Models key value,
    next_revision-Models E laws d s m ok h,
    not_negative (s.revision + 1) h,
  )

  delete-commit :
      (key : Bytes)
      → let kv = delete_record s key in
        Write.delete E d key
        ≡ commit E d (revision_op kv.revision ∷ kv_ops E kv.revision kv) kv.revision kv
  unfolding Write.delete
  delete-commit key = rw (
    tombstone-Models key,
    next_revision-Models E laws d s m ok h,
    not_negative (s.revision + 1) h,
  )

  publish-commit :
      (key value : Bytes)
      → let kv = value_record s (s.main key) key value in
        Write.publish E d key value
        ≡ commit E d
            (revision_op kv.revision
              ∷ (kv_ops E kv.revision kv
                  ++ (Op.put (config_key key kv.version) (E.serialize kv) ∷ [])))
            kv.revision
            kv
  unfolding Write.publish
  publish-commit key value = rw (
    new_kv-Models key value,
    next_revision-Models E laws d s m ok h,
    not_negative (s.revision + 1) h,
  )

  -- `Put` makes the value the current record of the key and adds it to the history, or fails with
  -- nothing changed.
  pub put_refines :
      (key value : Bytes)
      → let kv = value_record s (s.main key) key value in
        Done E laws d (Write.put E d key value) s (add_record s kv) kv
  put_refines key value =
      rw (put-commit key value) (write_record E laws d s _ m c (value_record-Follows key value) h)

  pub delete_refines :
      (key : Bytes)
      → let kv = delete_record s key in Done E laws d (Write.delete E d key) s (add_record s kv) kv
  delete_refines key =
      rw (delete-commit key) (write_record E laws d s _ m c (delete_record-Follows key) h)

  pub publish_refines :
      (key value : Bytes)
      → let kv = value_record s (s.main key) key value in
        Done E laws d (Write.publish E d key value) s (add_config (add_record s kv) kv) kv
  publish_refines key value =
      rw (publish-commit key value)
        (write_config E laws d s _ m c (value_record-Follows key value) h)

  pub swap-commit :
      (key expect value : Bytes)
      → Write.matches (s.main key) expect ≡ true
      → let kv = value_record s (s.main key) key value in
        Write.compare_and_swap E d key expect value
        ≡ Write.write_code E
            (commit E d (revision_op kv.revision ∷ kv_ops E kv.revision kv) kv.revision kv)
  unfolding Write.compare_and_swap
  swap-commit key expect value e = rw (
    new_kv-Models key value,
    read_main-Models E laws d s m ok key,
    next_revision-Models E laws d s m ok h,
    not_negative (s.revision + 1) h,
    e,
  )

  pub swap_mismatch :
      (key expect value : Bytes)
      → Write.matches (s.main key) expect ≡ false
      → Write.compare_and_swap E d key expect value ≡ (d, not_written, cas_failed)
  unfolding Write.compare_and_swap
  swap_mismatch key expect value e = rw (read_main-Models E laws d s m ok key, e)

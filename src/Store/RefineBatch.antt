-- ===== src/Store/RefineBatch.antt =====
-- `BatchPut` beside the versioned map: one value after the other, in one batch.
use configraft.Base.{
  ℕ, ◌+◌, ◌^◌, ◌≤◌, ◌<◌, ◌≡◌, refl, ap, sym, subst, fun_ext, Bool, true, false, Option, List, [],
  ◌∷◌, ◌++◌, if◌then◌else◌, arith, ◌⊎◌, inl, inr, length, increment,
}
use configraft.Base.Bytes.{Bytes}
use configraft.LevelDb.{Engine, EngineLaws, Op, put, delete, after, Readable}
use configraft.Mvcc.{State, version_after, value_record, add_record, write_all}
use configraft.Mvcc.Invariant.{
  IsConsistent, version_bound, add_record-IsConsistent, write_all-IsConsistent,
  value_record-Follows,
}
use configraft.Store
use configraft.Store.Contents.{
  Contents, Represents, Represents-set_revision, Represents-set_main, Represents-set_version,
}
use configraft.Store.Reads.{Models, read_main-Models, current_revision-Models}
use configraft.Store.Refine.{
  Refused, Models-write_done, Models-write_refused, next_version_lem, below_next,
}
use configraft.Store.Write
use configraft.Store.Write.{BatchWritten, batch_wrote, batch_failed, kv_ops, revision_op}

pub after-append :
    (xs ys : List Op) (k : Bytes) (o : Option Bytes)
    → after (xs ++ ys) k o ≡ after ys k (after xs k o)
after-append [] ys k o = refl
after-append (put j v ∷ xs) ys k o = after-append xs ys k _
after-append (delete j ∷ xs) ys k o = after-append xs ys k _

module _ (E : Engine) (laws : EngineLaws E) (d : E.Db) (s : State) (m : Models E laws d s)
    (ok : Readable E d) where
  -- What the loop has collected, next to what the map does with the values. The counter of the
  -- contents stays at `r` until the batch ends.
  record Collected (f : Contents) (r : ℕ) (t : State) (kvs : List (Bytes × Bytes)) : Type 0 where
    last : (Write.batch_loop E d t.revision kvs).0 ≡ (write_all s.main t kvs).0.revision
    records : (Write.batch_loop E d t.revision kvs).2 ≡ (write_all s.main t kvs).1
    contents :
        Represents E
          (λ k. after (Write.batch_loop E d t.revision kvs).1 k (f k))
          (record (write_all s.main t kvs).0 { revision = r })

  new_record :
      (t : State) (key value : Bytes)
      → version_after (s.main key) ≤ t.revision + 1
      → t.revision + 1 < 2 ^ 63
      → Write.new_kv (Store.read_main E d key) (increment t.revision) key value
        ≡ value_record t (s.main key) key value
  unfolding Write.new_kv
  new_record t key value b h =
      rw (read_main-Models E laws d s m ok key, next_version_lem (s.main key) (omega arith), small)
    where
      small : increment t.revision ≡ t.revision + 1
      small = omega arith

  batch_loop_cons :
      (t : State) (key value : Bytes) (kvs : List (Bytes × Bytes))
      → version_after (s.main key) ≤ t.revision + 1
      → t.revision + 1 < 2 ^ 63
      → let kv = value_record t (s.main key) key value in
        let rest = Write.batch_loop E d kv.revision kvs in
        Write.batch_loop E d t.revision ((key, value) ∷ kvs)
        ≡ (rest.0, kv_ops E kv.revision kv ++ rest.1, kv ∷ rest.2)
  unfolding Write.batch_loop
  batch_loop_cons t key value kvs b h = rw (new_record t key value b h, small)
    where
      small : increment t.revision ≡ t.revision + 1
      small = omega arith

  module _ (f : Contents) (r : ℕ) (t : State) (key value : Bytes)
      (rep : Represents E f (record t { revision = r })) (c : IsConsistent t)
      (h : t.revision + 1 < 2 ^ 63) where
    record_stored :
        let kv = value_record t (s.main key) key value in
        Represents E
          (λ k. after (kv_ops E kv.revision kv) k (f k))
          (record (add_record t kv) { revision = r })
    unfolding kv_ops
    record_stored =
        let kv = value_record t (s.main key) key value in
        Represents-set_version E (Represents-set_main E rep kv) kv (omega arith)
          (below_next t.revision t.history c.recorded)

  Collected-cons :
      (f : Contents) (r : ℕ) (t : State) (key value : Bytes) (kvs : List (Bytes × Bytes))
      → version_after (s.main key) ≤ t.revision + 1
      → t.revision + 1 < 2 ^ 63
      → let kv = value_record t (s.main key) key value in
        Collected (λ k. after (kv_ops E kv.revision kv) k (f k)) r (add_record t kv) kvs
        → Collected f r t ((key, value) ∷ kvs)
  unfolding write_all kv_ops
  Collected-cons f r t key value kvs b h ih = record {
    last = rw (batch_loop_cons t key value kvs b h) ih.last;
    records =
        rw (batch_loop_cons t key value kvs b h)
          (ap (λ l. value_record t (s.main key) key value ∷ l) ih.records);
    contents = rw (batch_loop_cons t key value kvs b h) ih.contents;
  }

  batch_loop-Collected :
      (f : Contents) (r : ℕ) (t : State) (kvs : List (Bytes × Bytes))
      → Represents E f (record t { revision = r })
      → IsConsistent t
      → ((k : Bytes) → version_after (s.main k) ≤ t.revision + 1)
      → t.revision + length kvs < 2 ^ 63
      → Collected f r t kvs
  unfolding Write.batch_loop write_all
  batch_loop-Collected f r t [] rep c b h = record { last = refl; records = refl; contents = rep }
  batch_loop-Collected f r t ((key, value) ∷ kvs) rep c b h =
      let kv = value_record t (s.main key) key value in
      Collected-cons f r t key value kvs (b key) (omega arith) (
        batch_loop-Collected (λ k. after (kv_ops E kv.revision kv) k (f k)) r (add_record t kv) kvs
          (record_stored f r t key value rep c (omega arith))
          (add_record-IsConsistent t kv c (value_record-Follows t (s.main key) key value (b key))
            (omega arith))
          (λ k. omega (arith, b k)) (omega arith))

  -- The outcome of a batch on `d`: all the values written in order, or refused with nothing changed.
  abbrev pub BatchDone : E.Db × BatchWritten → List (Bytes × Bytes) → Type 0
  BatchDone r kvs =
      (r.1 ≡ batch_wrote (write_all s.main s kvs).1) × Models E laws r.0 (write_all s.main s kvs).0
      ⊎ (r.1 ≡ batch_failed) × Models E laws r.0 s × Refused E laws d r.0

  -- `BatchPut` of values whose revisions stay below 2 ^ 63.
  module _ (c : IsConsistent s) where
    collected :
        (kvs : List (Bytes × Bytes))
        → s.revision + length kvs < 2 ^ 63
        → Collected (laws.find d) s.revision s kvs
    collected kvs h =
        batch_loop-Collected (laws.find d) s.revision s kvs m c (λ k. version_bound s k c) h

    batch_contents :
        (kvs : List (Bytes × Bytes))
        → s.revision + length kvs < 2 ^ 63
        → let loop = Write.batch_loop E d s.revision kvs in
          Represents E
            (λ k. after (loop.1 ++ (revision_op loop.0 ∷ [])) k (laws.find d k))
            (write_all s.main s kvs).0
    unfolding revision_op
    batch_contents kvs h =
        let col = collected kvs h in
        let loop = Write.batch_loop E d s.revision kvs in
        let t = (write_all s.main s kvs).0 in
        let fits = write_all-IsConsistent s.main s kvs c (λ k. version_bound s k c) h in
        subst (λ g. Represents E g t)
          (sym (fun_ext (λ k. after-append loop.1 (revision_op loop.0 ∷ []) k (laws.find d k))))
          (subst
            (λ n.
              Represents E (λ k. after (revision_op loop.0 ∷ []) k (after loop.1 k (laws.find d k)))
                (record t { revision = n }))
            col.last
            (Represents-set_revision E col.contents loop.0 (omega (arith, col.last, fits.bounded))))

    written :
        (kvs : List (Bytes × Bytes)) (r : E.Db × Bool)
        → s.revision + length kvs < 2 ^ 63
        → let loop = Write.batch_loop E d s.revision kvs in
          E.write d (loop.1 ++ (revision_op loop.0 ∷ [])) ≡ r
          → BatchDone (r.0, if r.1 then batch_wrote loop.2 else batch_failed) kvs
    written kvs (d', true) h e = inl (
      ap batch_wrote (collected kvs h).records,
      Models-write_done E laws d d' _ (write_all s.main s kvs).0 e (batch_contents kvs h),
    )
    written kvs (d', false) h e = inr (refl, Models-write_refused E laws d d' _ s e m, (_, e))

    -- On a readable database that holds a consistent state, with as many revisions left below 2 ^ 63
    -- as there are values, BatchPut writes every value, in the order given and with consecutive
    -- revisions, each version counted on from the current record of its key before the batch; or
    -- LevelDB refused the batch, BatchPut reports a failure and the database holds the same state.
    pub batch_refines :
        (kvs : List (Bytes × Bytes))
        → s.revision + length kvs < 2 ^ 63
        → BatchDone (Write.batch_put E d kvs) kvs
    unfolding Write.batch_put write_all
    batch_refines [] h = inl (refl, m)
    batch_refines (e ∷ kvs) h =
        rw (current_revision-Models E laws d s m ok) (written (e ∷ kvs) _ h refl)

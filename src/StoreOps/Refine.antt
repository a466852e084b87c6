-- ===== src/StoreOps/Refine.antt =====
-- A replicated command applied to the store, beside a step of the versioned map.
use configraft.Base.{
  ◌+◌, ◌^◌, ◌<◌, ◌≡◌, refl, ◌∙◌, Bool, true, false, Option, none, some, List, [], ◌∷◌, map, Int64,
  ◌⊎◌, inl, inr,
}
use configraft.Base.Bytes.{Bytes}
use configraft.Proto.{
  Kv, ok, internal, RaftCmd, put, delete, cas, publish, rollback, batch_put, unset,
}
use configraft.Results.{ApplyResult}
use configraft.LevelDb.{Engine, EngineLaws, Readable}
use configraft.Mvcc.{
  State, Effect, value_record, swappable, named, step, cost, republish, swap_value,
}
use configraft.Mvcc.Invariant.{IsConsistent}
use configraft.Store.Reads.{Models}
use configraft.Store.Refine.{
  Done, Refused, put_refines, delete_refines, publish_refines, swap-commit, swap_mismatch,
  write_record, value_record-Follows,
}
use configraft.Store.RefineMore.{matches-swappable, get_config-hit, get_config-miss}
use configraft.Store.RefineBatch.{BatchDone, batch_refines}
use configraft.Store.Write
use configraft.Store.Write.{Written, wrote, not_written, BatchWritten, batch_wrote, batch_failed}
use configraft.StoreOps.{make_event, finish, finish_cas, finish_batch, apply_cmd_to_store}

module _ (E : Engine) (laws : EngineLaws E) (d : E.Db) (s : State) where
  -- What a command did: the effect on the map, with its code and an event for each record written;
  -- or LevelDB refused the batch, the answer is INTERNAL, and nothing changed.
  abbrev pub Applied : E.Db × ApplyResult → Effect → Type 0
  Applied r e =
      (r.1.code ≡ e.code) × (r.1.events ≡ map make_event e.written) × Models E laws r.0 e.state
      ⊎ (r.1.code ≡ internal) × (r.1.events ≡ []) × Models E laws r.0 s × Refused E laws d r.0

  finish-Applied :
      (message : Bytes) (d' : E.Db) (out : Written) (s' : State) (kv : Kv)
      → Done E laws d (d', out) s s' kv
      → Applied (d', finish message out) (record { state = s'; code = ok; written = kv ∷ [] })
  unfolding finish
  finish-Applied message d' (wrote rev x) s' kv (inl (e, m)) = inl (refl, cc e, m)
  finish-Applied message d' (wrote rev x) s' kv (inr (e, m, r)) = cc e
  finish-Applied message d' not_written s' kv (inl (e, m)) = cc e
  finish-Applied message d' not_written s' kv (inr (e, m, r)) = inr (refl, refl, m, r)

  finish_cas-Applied :
      (d' : E.Db) (out : Written) (s' : State) (kv : Kv)
      → Done E laws d (d', out) s s' kv
      → let r = Write.write_code E (d', out) in
        Applied (r.0, finish_cas r.1 r.2) (record { state = s'; code = ok; written = kv ∷ [] })
  unfolding finish_cas Write.write_code
  finish_cas-Applied d' (wrote rev x) s' kv (inl (e, m)) = inl (refl, cc e, m)
  finish_cas-Applied d' (wrote rev x) s' kv (inr (e, m, r)) = cc e
  finish_cas-Applied d' not_written s' kv (inl (e, m)) = cc e
  finish_cas-Applied d' not_written s' kv (inr (e, m, r)) = inr (refl, refl, m, r)

  module _ (m : Models E laws d s) (c : IsConsistent s) (readable : Readable E d) where
    finish_batch-Applied :
        (kvs : List (Bytes × Bytes)) (d' : E.Db) (out : BatchWritten)
        → BatchDone E laws d s m readable (d', out) kvs
        → Applied (d', finish_batch out) (step s (batch_put kvs))
    unfolding finish_batch step
    finish_batch-Applied kvs d' (batch_wrote l) (inl (e, m')) = inl (refl, cc e, m')
    finish_batch-Applied kvs d' (batch_wrote l) (inr (e, m', r)) = cc e
    finish_batch-Applied kvs d' batch_failed (inl (e, m')) = cc e
    finish_batch-Applied kvs d' batch_failed (inr (e, m', r)) = inr (refl, refl, m', r)

    apply_swap :
        (key expect value : Bytes) (go : Bool)
        → s.revision + 1 < 2 ^ 63
        → swappable (s.main key) expect ≡ go
        → Applied
            (apply_cmd_to_store E d (cas key expect value))
            (swap_value s (value_record s (s.main key) key value) go)
    unfolding apply_cmd_to_store
    apply_swap key expect value true h e =
        rw
          (swap-commit E laws d s m c readable h key expect value
            (matches-swappable (s.main key) expect ∙ e))
          (finish_cas-Applied _ _ _ (value_record s (s.main key) key value) (
            write_record E laws d s _ m c (value_record-Follows E laws d s m c readable h key value)
              h))
    apply_swap key expect value false h e =
        rw
          (swap_mismatch E laws d s m c readable h key expect value
            (matches-swappable (s.main key) expect ∙ e))
          (inl (refl, refl, m))

    apply_republish :
        (key : Bytes) (target_version : Int64) (target : Option Kv)
        → s.revision + 1 < 2 ^ 63
        → named s key target_version ≡ target
        → Applied (apply_cmd_to_store E d (rollback key target_version)) (republish s key target)
    unfolding apply_cmd_to_store Write.rollback
    apply_republish key v none h e =
        rw (get_config-miss E laws d s m c readable key v e).1 (inl (refl, refl, m))
    apply_republish key v (some target) h e =
        rw (get_config-hit E laws d s m c readable key v target e)
          (finish-Applied _ _ _ _ _ (publish_refines E laws d s m c readable h key target.value))

    -- A command does to the store what `step` does to the map.
    pub apply-step :
        (cmd : RaftCmd)
        → s.revision + cost cmd < 2 ^ 63
        → Applied (apply_cmd_to_store E d cmd) (step s cmd)
    unfolding apply_cmd_to_store step
    apply-step (put key value) h =
        finish-Applied _ _ _ _ _ (put_refines E laws d s m c readable h key value)
    apply-step (delete key) h =
        finish-Applied _ _ _ _ _ (delete_refines E laws d s m c readable h key)
    apply-step (cas key expect value) h =
        apply_swap key expect value (swappable (s.main key) expect) h refl
    apply-step (publish key value) h =
        finish-Applied _ _ _ _ _ (publish_refines E laws d s m c readable h key value)
    apply-step (rollback key target_version) h =
        apply_republish key target_version (named s key target_version) h refl
    apply-step (batch_put puts) h =
        finish_batch-Applied puts _ _ (batch_refines E laws d s m readable c puts h)
    apply-step unset h = inl (refl, refl, m)

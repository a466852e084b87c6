-- ===== src/Store/Write.antt =====
-- src/store/store.cpp, the write path: each operation reads what it needs, collects one batch and
-- writes it.
use configraft.Base.{
  Bool, true, false, not, ◌&&◌, Option, none, some, List, [], ◌∷◌, ◌++◌, if◌then◌else◌, Int64,
  is_negative, increment,
}
use configraft.Base.Bytes.{Bytes, bytes_eq}
use configraft.Proto.{Kv, Code, ok, cas_failed, internal}
use configraft.StoreKey.{revision_meta_key, main_key, version_key, config_key, encode_uint64}
use configraft.LevelDb.{Engine, Op}
use configraft.Store.{read_main, current_revision, next_revision, get_config, Lookup, hit, miss}

-- The returned revision with `*out_kv`, or -1.
pub data Written : Type 0 where
  wrote : Int64 → Kv → Written
  not_written : Written

-- What `BatchPut` returns: 0 with `*out_kvs`, or -1.
pub data BatchWritten : Type 0 where
  batch_wrote : List Kv → BatchWritten
  batch_failed : BatchWritten

-- `existed ? old_kv.version() + 1 : 1`
unfoldable pub next_version : Option Kv → Int64
next_version none = 1
next_version (some old) = increment old.version

-- The record that `Put`, `CompareAndSwap`, `BatchPut` and `Publish` build.
unfoldable pub new_kv : Option Kv → Int64 → Bytes → Bytes → Kv
unfolding next_version
new_kv old rev key value = record {
  key = key;
  value = value;
  version = next_version old;
  revision = rev;
  deleted = false;
}

-- The record that `Delete` builds; its value stays unset.
unfoldable pub tombstone : Option Kv → Int64 → Bytes → Kv
unfolding next_version
tombstone old rev key = record {
  key = key;
  value = [];
  version = next_version old;
  revision = rev;
  deleted = true;
}

unfoldable pub is_absent : Option Kv → Bool
is_absent none = true
is_absent (some old) = old.deleted

unfoldable pub has_value : Option Kv → Bytes → Bool
has_value none expect = false
has_value (some old) expect = bytes_eq old.value expect

-- An empty `expect` asks that the key be absent.
unfoldable pub matches : Option Kv → Bytes → Bool
unfolding is_absent has_value
matches old [] = is_absent old
matches old (c ∷ expect) = not (is_absent old) && has_value old (c ∷ expect)

unfoldable pub revision_op : Int64 → Op
revision_op rev = Op.put revision_meta_key (encode_uint64 rev)

module _ (E : Engine) where
  -- The main index and the history record of one write.
  unfoldable pub kv_ops : Int64 → Kv → List Op
  kv_ops rev kv =
      Op.put (main_key kv.key) (E.serialize kv)
      ∷ Op.put (version_key rev kv.key) (E.serialize kv)
      ∷ []

  -- `db_->Write`, and the result that follows from its status.
  unfoldable pub commit : E.Db → List Op → Int64 → Kv → E.Db × Written
  commit d batch rev kv =
      let (d', done) = E.write d batch in (d', if done then wrote rev kv else not_written)

  unfoldable pub put : E.Db → Bytes → Bytes → E.Db × Written
  put d key value =
      let rev = next_revision E d in
      let kv = new_kv (read_main E d key) rev key value in
      if is_negative rev
      then (d, not_written)
      else commit d (revision_op rev ∷ kv_ops rev kv) rev kv

  unfoldable pub delete : E.Db → Bytes → E.Db × Written
  delete d key =
      let rev = next_revision E d in
      let kv = tombstone (read_main E d key) rev key in
      if is_negative rev
      then (d, not_written)
      else commit d (revision_op rev ∷ kv_ops rev kv) rev kv

  -- `*code` of a write that was tried.
  unfoldable pub write_code : E.Db × Written → E.Db × Written × Code
  write_code (d, wrote rev kv) = (d, wrote rev kv, ok)
  write_code (d, not_written) = (d, not_written, internal)

  unfoldable pub compare_and_swap : E.Db → Bytes → Bytes → Bytes → E.Db × Written × Code
  unfolding write_code
  compare_and_swap d key expect value =
      let old = read_main E d key in
      let rev = next_revision E d in
      let kv = new_kv old rev key value in
      if not (matches old expect)
      then (d, not_written, cas_failed)
      else if is_negative rev
      then (d, not_written, internal)
      else write_code (commit d (revision_op rev ∷ kv_ops rev kv) rev kv)

  -- The loop of `BatchPut` from the revision `rev` on: the last revision, the batch, the records.
  -- Each version comes from the database, which the batch has not reached.
  unfoldable pub batch_loop : E.Db → Int64 → List (Bytes × Bytes) → Int64 × List Op × List Kv
  batch_loop d rev [] = (rev, [], [])
  batch_loop d rev ((key, value) ∷ kvs) =
      let kv = new_kv (read_main E d key) (increment rev) key value in
      let (last, batch, new_kvs) = batch_loop d (increment rev) kvs in
      (last, kv_ops (increment rev) kv ++ batch, kv ∷ new_kvs)

  unfoldable pub batch_put : E.Db → List (Bytes × Bytes) → E.Db × BatchWritten
  unfolding batch_loop
  batch_put d [] = (d, batch_wrote [])
  batch_put d (entry ∷ kvs) =
      let (last, batch, new_kvs) = batch_loop d (current_revision E d) (entry ∷ kvs) in
      let (d', done) = E.write d (batch ++ (revision_op last ∷ [])) in
      (d', if done then batch_wrote new_kvs else batch_failed)

  unfoldable pub publish : E.Db → Bytes → Bytes → E.Db × Written
  publish d key value =
      let rev = next_revision E d in
      let kv = new_kv (read_main E d key) rev key value in
      let index = Op.put (config_key key kv.version) (E.serialize kv) in
      if is_negative rev
      then (d, not_written)
      else commit d (revision_op rev ∷ (kv_ops rev kv ++ (index ∷ []))) rev kv

  unfoldable pub republish : E.Db → Bytes → Lookup → E.Db × Written × Bool
  unfolding publish
  republish d key (miss code) = (d, not_written, false)
  republish d key (hit target) = let (d', out) = publish d key target.value in (d', out, true)

  -- With `*ok`, which says that the target version was found.
  unfoldable pub rollback : E.Db → Bytes → Int64 → E.Db × Written × Bool
  unfolding republish
  rollback d key target_version = republish d key (get_config E d key target_version)

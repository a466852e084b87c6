-- ===== src/StoreOps.antt =====
-- src/store/store_ops.cpp: one replicated command applied to the store. `*out` is a result that
-- its caller has just declared.
pub mod Refine
use configraft.Base.{Bool, true, false, List, [], ◌∷◌, map, Int64}
use configraft.Base.Bytes.{Bytes, codes}
use configraft.Proto.{
  Kv, Code, ok, cas_failed, version_not_found, internal, WatchEvent, RaftCmd, put, delete, cas,
  publish, rollback, batch_put, unset,
}
use configraft.Results.{ApplyResult, fresh_apply}
use configraft.LevelDb.{Engine}
use configraft.Store.Write
use configraft.Store.Write.{Written, wrote, not_written, BatchWritten, batch_wrote, batch_failed}

unfoldable pub make_type : Bool → Bytes
make_type true = codes "DELETE"
make_type false = codes "PUT"

unfoldable pub make_event : Kv → WatchEvent
unfolding make_type
make_event kv = record {
  revision = kv.revision;
  key = kv.key;
  value = kv.value;
  version = kv.version;
  type = make_type kv.deleted;
}

unfoldable pub failure : Code → Bytes → ApplyResult
failure code message = record fresh_apply { code = code; message = message }

unfoldable pub success : Kv → ApplyResult
unfolding make_event
success kv = record fresh_apply { kv = kv; events = make_event kv ∷ [] }

-- What a command does with the result of its store call, and the message if that failed.
unfoldable pub finish : Bytes → Written → ApplyResult
unfolding failure success
finish message (wrote rev kv) = success kv
finish message not_written = failure internal message

unfoldable pub finish_cas : Written → Code → ApplyResult
unfolding failure success
finish_cas (wrote rev kv) code = success kv
finish_cas not_written cas_failed = failure cas_failed (codes "expect value mismatch")
finish_cas not_written _ = failure internal (codes "store cas failed")

unfoldable pub finish_rollback : Written → Bool → ApplyResult
unfolding failure finish
finish_rollback out false = failure version_not_found (codes "target version not found")
finish_rollback out true = finish (codes "store rollback failed") out

unfoldable pub finish_batch : BatchWritten → ApplyResult
unfolding failure make_event
finish_batch (batch_wrote kvs) = record fresh_apply { kvs = kvs; events = map make_event kvs }
finish_batch batch_failed = failure internal (codes "store batch write failed")

module _ (E : Engine) where
  unfoldable pub apply_put : E.Db → Bytes → Bytes → E.Db × ApplyResult
  unfolding finish
  apply_put d key value =
      let (d', out) = Write.put E d key value in (d', finish (codes "store write failed") out)

  unfoldable pub apply_delete : E.Db → Bytes → E.Db × ApplyResult
  unfolding finish
  apply_delete d key =
      let (d', out) = Write.delete E d key in (d', finish (codes "store write failed") out)

  unfoldable pub apply_publish : E.Db → Bytes → Bytes → E.Db × ApplyResult
  unfolding finish
  apply_publish d key value =
      let (d', out) = Write.publish E d key value in (d', finish (codes "store publish failed") out)

  unfoldable pub apply_rollback : E.Db → Bytes → Int64 → E.Db × ApplyResult
  unfolding finish_rollback
  apply_rollback d key target_version =
      let (d', out, found) = Write.rollback E d key target_version in
      (d', finish_rollback out found)

  unfoldable pub apply_cas : E.Db → Bytes → Bytes → Bytes → E.Db × ApplyResult
  unfolding finish_cas
  apply_cas d key expect value =
      let (d', out, code) = Write.compare_and_swap E d key expect value in (d', finish_cas out code)

  unfoldable pub apply_batch : E.Db → List (Bytes × Bytes) → E.Db × ApplyResult
  unfolding finish_batch
  apply_batch d puts = let (d', out) = Write.batch_put E d puts in (d', finish_batch out)

  unfoldable pub apply_cmd_to_store : E.Db → RaftCmd → E.Db × ApplyResult
  unfolding apply_put apply_delete apply_batch apply_cas apply_publish apply_rollback failure
  apply_cmd_to_store d (put key value) = apply_put d key value
  apply_cmd_to_store d (delete key) = apply_delete d key
  apply_cmd_to_store d (batch_put puts) = apply_batch d puts
  apply_cmd_to_store d (cas key expect value) = apply_cas d key expect value
  apply_cmd_to_store d (publish key value) = apply_publish d key value
  apply_cmd_to_store d (rollback key target_version) = apply_rollback d key target_version
  apply_cmd_to_store d unset = (d, failure internal (codes "unknown raft cmd"))

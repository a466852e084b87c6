-- ===== src/Checks/Stores.antt =====
-- The store at concrete databases.
use configraft.Base.{◌≡◌, ◌<◌, ◌^◌, refl, some, Int64, [], ◌∷◌, none, arith}
use configraft.Base.Bytes.{Bytes, codes, bytes_eq, lt_bytes}
use configraft.StoreKey.{main_key, version_key, config_key, decode_uint64, encode_uint64}
use configraft.Proto.{Kv, key_not_found, batch_put, publish}
use configraft.LevelDb.Memory.{
  Memory, run_memory, fresh, memory, memory_laws, fresh_find, memory-Readable,
}
use configraft.Mvcc.{State, empty, step, value_record, delete_record, add_record, add_config}
use configraft.Mvcc.Invariant.{IsConsistent, step-IsConsistent}
use configraft.LevelDb.{Readable}
use configraft.Store
use configraft.Store.{hit, miss}
use configraft.Store.Scan
use configraft.Store.Scan.{replayed}
use configraft.Store.Replay.{replay_events-make_event}
use configraft.Store.Resume.{replay_events-anchor}
use configraft.Store.Refine.{publish_refines}
use configraft.Store.RefineBatch.{BatchDone, batch_refines}
use configraft.Store.RoundTrip.{done_record, get-put, get-delete, get_config-publish}
use configraft.Store.Write
use configraft.Store.Write.{wrote}
use configraft.Store.Empty.{empty-Models, empty-IsConsistent}
use configraft.Store.Reads.{Models}
use configraft.StoreOps.{make_event, apply_cmd_to_store}
use configraft.StoreOps.Refine.{Applied, apply-step}

fresh-Models : Models memory memory_laws fresh empty
fresh-Models = empty-Models memory memory_laws fresh fresh_find

apply-step_example :
    Applied memory memory_laws fresh empty
      (apply_cmd_to_store memory fresh (batch_put ((codes "a", codes "1") ∷ (codes "b", []) ∷ [])))
      (step empty (batch_put ((codes "a", codes "1") ∷ (codes "b", []) ∷ [])))
apply-step_example =
    apply-step memory memory_laws fresh empty fresh-Models empty-IsConsistent
      (memory-Readable fresh refl) (batch_put ((codes "a", codes "1") ∷ (codes "b", []) ∷ []))
      (omega arith)

-- To open this opens the operations of the store on the engine in memory.
unfoldable pub run_store : Unit {0}
unfolding run_memory Write.put Write.delete Write.publish Write.commit Write.kv_ops
    Write.revision_op Write.new_kv Write.tombstone Store.read_main Store.next_revision
    Store.current_revision bytes_eq lt_bytes main_key version_key config_key decode_uint64
    encode_uint64
run_store = tt

abbrev pub key : Bytes
key = codes "a"

abbrev pub value : Bytes
value = codes "1"

-- The database and the state after one publication.
abbrev pub after_publish : Memory
after_publish = (Write.publish memory fresh key value).0

abbrev pub published : Kv
published = value_record empty none key value

abbrev pub published_state : State
published_state = add_config (add_record empty published) published

abbrev pub second : Kv
second = value_record published_state (some published) key []

-- The first value of a key has version 1.
publish_written : (Write.publish memory fresh key value).1 ≡ wrote 1 published
unfolding run_store
publish_written = refl

pub after_publish-Readable : Readable memory after_publish
unfolding run_store
after_publish-Readable = memory-Readable after_publish refl

pub after_publish-Models : Models memory memory_laws after_publish published_state
after_publish-Models =
    (done_record memory memory_laws fresh _ empty published_state published 1 published
      (publish_refines memory memory_laws fresh empty fresh-Models empty-IsConsistent
        (memory-Readable fresh refl) (omega arith) key value)
      publish_written).0

pub published-IsConsistent : IsConsistent published_state
unfolding step
published-IsConsistent =
    step-IsConsistent empty (publish key value) empty-IsConsistent (omega arith)

get_config-publish_example :
    (Store.get_config memory after_publish key 1 ≡ hit published)
    × ((k : Bytes) (v : Int64)
        → 0 < v
        → v < 2 ^ 63
        → ¬ ((k ≡ key) × (v ≡ 1))
        → Store.get_config memory after_publish k v ≡ Store.get_config memory fresh k v)
get_config-publish_example =
    get_config-publish memory memory_laws fresh empty fresh-Models empty-IsConsistent
      (memory-Readable fresh refl) (omega arith) key value 1 published publish_written
      after_publish-Readable

pub put_written : (Write.put memory after_publish key []).1 ≡ wrote 2 second
unfolding run_store
put_written = refl

pub put_readable : Readable memory (Write.put memory after_publish key []).0
unfolding run_store
put_readable = memory-Readable (Write.put memory after_publish key []).0 refl

get-put_example :
    (second ≡ second)
    × (Store.get memory (Write.put memory after_publish key []).0 key ≡ hit second)
    × ((k : Bytes)
        → ¬ (k ≡ key)
        → Store.get memory (Write.put memory after_publish key []).0 k
          ≡ Store.get memory after_publish k)
unfolding bytes_eq
get-put_example =
    get-put memory memory_laws after_publish published_state after_publish-Models
      published-IsConsistent after_publish-Readable (omega arith) key [] 2 second put_written
      put_readable

delete_written :
    (Write.delete memory after_publish key).1 ≡ wrote 2 (delete_record published_state key)
unfolding run_store
delete_written = refl

delete_readable : Readable memory (Write.delete memory after_publish key).0
unfolding run_store
delete_readable = memory-Readable (Write.delete memory after_publish key).0 refl

get-delete_example :
    (Store.get memory (Write.delete memory after_publish key).0 key ≡ miss key_not_found)
    × ((k : Bytes)
        → ¬ (k ≡ key)
        → Store.get memory (Write.delete memory after_publish key).0 k
          ≡ Store.get memory after_publish k)
get-delete_example =
    get-delete memory memory_laws after_publish published_state after_publish-Models
      published-IsConsistent after_publish-Readable (omega arith) key 2
      (delete_record published_state key) delete_written delete_readable

replay_events-make_event_example :
    Scan.replay_events memory after_publish 0 1 key 10 ≡ replayed (make_event published ∷ [])
unfolding bytes_eq
replay_events-make_event_example =
    replay_events-make_event memory memory_laws after_publish published_state after_publish-Models
      published-IsConsistent after_publish-Readable 0 1 key 10 (omega arith) (omega arith)
      (omega arith) (omega arith)

batch_refines_example :
    BatchDone memory memory_laws after_publish published_state after_publish-Models
      after_publish-Readable
      (Write.batch_put memory after_publish ((key, []) ∷ (key, value) ∷ []))
      ((key, []) ∷ (key, value) ∷ [])
batch_refines_example =
    batch_refines memory memory_laws after_publish published_state after_publish-Models
      after_publish-Readable published-IsConsistent ((key, []) ∷ (key, value) ∷ []) (omega arith)

replay_rest : Scan.replay_events memory after_publish 1 1 key 5 ≡ replayed []
unfolding bytes_eq
replay_rest =
    replay_events-make_event memory memory_laws after_publish published_state after_publish-Models
      published-IsConsistent after_publish-Readable 1 1 key 5 (omega arith) (omega arith)
      (omega arith) (omega arith)

replay_events-anchor_example :
    Scan.replay_events memory after_publish 0 1 key 15 ≡ replayed (make_event published ∷ [])
unfolding make_event
replay_events-anchor_example =
    replay_events-anchor memory memory_laws after_publish published_state after_publish-Models
      published-IsConsistent after_publish-Readable 0 1 key 10 5 (make_event published ∷ []) []
      (omega arith) (omega arith) (omega arith) (omega arith) (omega arith) (omega arith)
      (omega arith) replay_events-make_event_example replay_rest

-- ===== src/LevelDb.antt =====
-- What the store takes from outside the repository: LevelDB, and the code that protoc generates
-- for the message Kv of src/proto/configraft.proto. Both are one argument of the model, a record of
-- operations; what is assumed of them is the record of laws below.
pub mod Sorted
pub mod Memory
use configraft.Base.{
  ◌≡◌, ◌≢◌, Bool, true, false, Option, none, some, List, [], ◌∷◌, All, if◌then◌else◌,
}
use configraft.Base.Bytes.{Bytes, bytes_eq, lt_bytes}
use configraft.Proto.{Kv}
use configraft.LevelDb.Sorted.{Entries, lookup, IsSorted}

-- `leveldb::DB::Get`: the value, `Status::NotFound`, or any other status that is not OK.
pub data Read : Type 0 where
  found : Bytes → Read
  not_found failed : Read

-- One call of `leveldb::WriteBatch::Put` or `Delete`.
pub data Op : Type 0 where
  put : Bytes → Bytes → Op
  delete : Bytes → Op

-- The value at `k` after a batch, from the value before it: later calls win.
abbrev pub after : List Op → Bytes → Option Bytes → Option Bytes
after [] k o = o
after (put j v ∷ batch) k o = after batch k (if bytes_eq j k then some v else o)
after (delete j ∷ batch) k o = after batch k (if bytes_eq j k then none else o)

-- A database with the state of its environment, which decides whether a call fails.
--   write: `DB::Write`, with whether the status is OK
--   seek: the entries that a new iterator yields from `Seek(k)` to its end
pub record Engine : Type 1 where
  pub Db : Type 0
  pub get : Db → Bytes → Read
  pub write : Db → List Op → Db × Bool
  pub seek : Db → Bytes → Entries
  pub serialize : Kv → Bytes
  pub parse : Bytes → Option Kv

-- The documented behaviour of LevelDB: reads that succeed show the contents, a batch is applied
-- whole or not at all, an iterator yields the contents in byte order from the key sought. And of
-- protobuf: a message that was serialized parses to itself.
pub record EngineLaws (E : Engine) : Type 0 where
  pub find : E.Db → Bytes → Option Bytes
  pub get_found : (d : E.Db) (k v : Bytes) → E.get d k ≡ found v → find d k ≡ some v
  pub get_missing : (d : E.Db) (k : Bytes) → E.get d k ≡ not_found → find d k ≡ none
  pub write_done :
      (d d' : E.Db) (batch : List Op)
      → E.write d batch ≡ (d', true)
      → (k : Bytes) → find d' k ≡ after batch k (find d k)
  pub write_refused :
      (d d' : E.Db) (batch : List Op)
      → E.write d batch ≡ (d', false)
      → (k : Bytes) → find d' k ≡ find d k
  pub seek_sorted : (d : E.Db) (k : Bytes) → IsSorted (E.seek d k)
  pub seek_from : (d : E.Db) (k : Bytes) → All (λ e. lt_bytes e.0 k ≡ false) (E.seek d k)
  pub seek_lookup :
      (d : E.Db) (k j : Bytes) → lookup j (E.seek d k) ≡ (if lt_bytes j k then none else find d j)
  pub parse-serialize : (kv : Kv) → E.parse (E.serialize kv) ≡ some kv

-- In this state no read fails.
abbrev pub Readable : (E : Engine) → E.Db → Type 0
Readable E d = (k : Bytes) → E.get d k ≢ failed

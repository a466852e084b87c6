-- ===== src/Checks/Compactions.antt =====
-- A compaction of a concrete store.
use configraft.Base.{ℕ, ◌≡◌, refl, true, some, [], ◌∷◌, ltb, if◌then◌else◌, arith, ◌⊎◌}
use configraft.Base.Bytes.{bytes_eq, starts_with}
use configraft.Checks.Stores.{
  second, put_written, put_readable, run_store, after_publish, published_state,
  after_publish-Models, published-IsConsistent, after_publish-Readable, key,
}
use configraft.LevelDb.{Op, Readable}
use configraft.LevelDb.Memory.{stays_steady, Memory, memory, memory_laws, stays_readable}
use configraft.Mvcc.{step, State, add_record}
use configraft.Mvcc.Compact.{compact}
use configraft.Mvcc.Invariant.{step-IsConsistent, IsConsistent}
use configraft.Proto.{put}
use configraft.Store
use configraft.Store.Compaction.Refined.{compaction-compact}
use configraft.Store.Compaction.Result.{Compacted, compaction-Compacted}
use configraft.Store.Compaction.Watchers.{replay_events-compaction}
use configraft.Store.Reads.{Models}
use configraft.Store.Refine.{put_refines, Refused}
use configraft.Store.RoundTrip.{done_record}
use configraft.Store.Scan
use configraft.Store.Scan.{compacted}
use configraft.Store.Write
use configraft.StoreKey.{
  version_key, config_key, compact_rev_key, encode_uint64, decode_ord, encode_ord, hex_digit,
}

published_readable : after_publish.readable ≡ true
unfolding run_store
published_readable = refl

compaction-Compacted_example :
    (d' : Memory) × (removed : ℕ) × (Scan.compaction memory after_publish 1 ≡ some (d', removed))
    × Compacted memory after_publish d'
compaction-Compacted_example =
    compaction-Compacted memory memory_laws after_publish published_state after_publish-Models
      published-IsConsistent after_publish-Readable
      (stays_readable after_publish published_readable) 1

-- The store after a second write of the key, of which a compaction that keeps one version takes the
-- first record away.
abbrev twice : Memory
twice = (Write.put memory after_publish key []).0

abbrev twice_state : State
twice_state = add_record published_state second

abbrev left : Memory
left =
    (memory.write twice (
      Op.delete (version_key 1 key)
      ∷ Op.delete (config_key key 1)
      ∷ Op.put compact_rev_key (encode_uint64 1)
      ∷ [])).0

taken : Scan.compaction memory twice 1 ≡ some (left, 1)
unfolding run_store Scan.compaction Scan.collect Scan.drop_groups Scan.drop_records
    Scan.drop_versions Scan.add_record Store.compact_rev decode_ord starts_with encode_ord hex_digit
taken = refl

twice-Models : Models memory memory_laws twice twice_state
unfolding bytes_eq
twice-Models =
    (done_record memory memory_laws after_publish _ published_state twice_state second 2 second
      (put_refines memory memory_laws after_publish published_state after_publish-Models
        published-IsConsistent after_publish-Readable (omega arith) key [])
      put_written).0

twice-IsConsistent : IsConsistent twice_state
unfolding step bytes_eq
twice-IsConsistent =
    step-IsConsistent published_state (put key []) published-IsConsistent (omega arith)

left-Readable : Readable memory left
left-Readable = stays_steady twice _ put_readable

compaction-compact_example :
    (d' : Memory) × (removed : ℕ) × (Scan.compaction memory twice 1 ≡ some (d', removed))
    × (Models memory memory_laws d' (compact 1 twice_state)
        ⊎ Models memory memory_laws d' twice_state × Refused memory memory_laws twice d')
    × IsConsistent (compact 1 twice_state)
compaction-compact_example =
    compaction-compact memory memory_laws twice twice_state twice-Models twice-IsConsistent
      put_readable 1

replay_events-compaction_example : Scan.replay_events memory left 1 2 key 10 ≡ (
    if ltb 1 (Store.compact_rev memory left)
    then compacted
    else Scan.replay_events memory twice 1 2 key 10)
replay_events-compaction_example =
    replay_events-compaction memory memory_laws twice twice_state twice-Models twice-IsConsistent
      put_readable 1 2 key 10 (omega arith) (omega arith) (omega arith) (omega arith) 1 left 1 taken
      left-Readable

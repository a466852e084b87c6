-- ===== src/Store/Scan.antt =====
-- src/store/store.cpp, the operations that iterate: GetHistory, ReplayEvents, Compaction.
use mathlib.Core.Option
use configraft.Base.{
  ℕ, zero, suc, ◌+◌, ◌-◌, Bool, true, false, not, ◌&&◌, ◌||◌, Option, none, some, List, [], ◌∷◌,
  ◌++◌, ltb, leb, ◌==◌, if◌then◌else◌, Int64, Int32, is_negative, is_negative32, slt, increment,
  length, take, drop,
}
use configraft.Base.Bytes.{Bytes, bytes_eq, starts_with, lt_bytes, codes}
use configraft.Proto.{Kv, WatchEvent}
use configraft.StoreKey.{
  version_prefix, config_prefix, compact_rev_key, version_key, config_key, encode_uint64,
  decode_ord,
}
use configraft.LevelDb.{Engine, Op}
use configraft.LevelDb.Sorted.{Entries}
use configraft.Store.{compact_rev}

-- `s.substr(2, 16)` of a history key.
abbrev pub revision_part : Bytes → Bytes
revision_part k = take 16 (drop 2 k)

-- `kv.deleted() ? "DELETE" : "PUT"`
unfoldable pub event_type : Bool → Bytes
event_type true = codes "DELETE"
event_type false = codes "PUT"

-- What `ReplayEvents` returns: true with `*out`, false with COMPACTED, or an exception of `stoll`.
pub data Replay : Type 0 where
  replayed : List WatchEvent → Replay
  compacted thrown : Replay

unfoldable pub loop_result : Option (List WatchEvent) → Replay
loop_result none = thrown
loop_result (some events) = replayed events

-- The records of one key, as pairs of revision and version.
abbrev pub Records : Type 0
Records = List (Int64 × Int64)

-- `std::map<std::string, ...>`: the groups in the order of their keys.
abbrev pub Groups : Type 0
Groups = List (Bytes × Records)

-- `per_key[key].emplace_back(rev, version)`
unfoldable pub add_record : Bytes → Int64 × Int64 → Groups → Groups
add_record key r [] = (key, r ∷ []) ∷ []
add_record key r ((j, records) ∷ groups) =
    let rest = add_record key r groups in
    if bytes_eq j key
    then (j, records ++ (r ∷ [])) ∷ groups
    else if lt_bytes key j
    then (key, r ∷ []) ∷ (j, records) ∷ groups
    else (j, records) ∷ rest

-- The first `excess` records of a group: the deletions, the largest revision, their number.
unfoldable pub drop_records : Bytes → ℕ → Records → Int64 → List Op × Int64 × ℕ
drop_records key zero records top = ([], top, 0)
drop_records key (suc excess) [] top = ([], top, 0)
drop_records key (suc excess) ((rev, ver) ∷ records) top =
    let (batch, last, removed) =
      drop_records key excess records (if slt top rev then rev else top) in
    (Op.delete (version_key rev key) ∷ Op.delete (config_key key ver) ∷ batch, last, removed + 1)

-- The loop over the groups.
unfoldable pub drop_groups : ℕ → Groups → Int64 → List Op × Int64 × ℕ
unfolding drop_records
drop_groups keep_versions [] top = ([], top, 0)
drop_groups keep_versions ((key, records) ∷ groups) top =
    let (batch, last, removed) = drop_records key (length records - keep_versions) records top in
    let (batch', last', removed') = drop_groups keep_versions groups last in
    (batch ++ batch', last', removed + removed')

module _ (E : Engine) where
  unfoldable pub history_loop : Bytes → Bytes → Entries → List Kv
  history_loop prefix key [] = []
  history_loop prefix key ((k, raw) ∷ entries) =
      let rest = history_loop prefix key entries in
      if not (starts_with prefix k) then [] else elim (E.parse raw) [
        | none ↦ rest
        | some kv ↦ if not (bytes_eq kv.key key) || kv.deleted then rest else kv ∷ rest
      ]

  unfoldable pub get_history : E.Db → Bytes → List Kv
  unfolding history_loop
  get_history d key =
      let prefix = config_prefix ++ (key ++ (b'/' ∷ [])) in
      history_loop prefix key (E.seek d prefix)

  -- The event that `ReplayEvents` builds from a record.
  unfoldable pub replay_event : Int64 → Kv → WatchEvent
  unfolding event_type
  replay_event rev kv = record {
    revision = rev;
    key = kv.key;
    value = kv.value;
    version = kv.version;
    type = event_type kv.deleted;
  }

  -- `count` is the size of `*out` so far; `none` is an exception.
  unfoldable pub replay_loop : Int64 → Bytes → ℕ → ℕ → Entries → Option (List WatchEvent)
  unfolding replay_event
  replay_loop current key max_events count [] = some []
  replay_loop current key max_events count ((k, raw) ∷ entries) =
      let skip = replay_loop current key max_events count entries in
      let next = replay_loop current key max_events (count + 1) entries in
      if not (starts_with version_prefix k)
      then some []
      else if ltb (length k) 18
      then skip
      else elim (decode_ord (revision_part k)) [
        | none ↦ none
        | some rev ↦ if slt current rev then some [] else elim (E.parse raw) [
          | none ↦ skip
          | some kv ↦
              if not (bytes_eq key []) && not (bytes_eq kv.key key)
              then skip
              else if leb max_events (count + 1)
              then some (replay_event rev kv ∷ [])
              else Option.map (λ events. replay_event rev kv ∷ events) next
        ]
      ]

  unfoldable pub replay_from : E.Db → Int64 → Int64 → Bytes → ℕ → Replay
  unfolding replay_loop loop_result
  replay_from d from current key max_events =
      if slt from (compact_rev E d)
      then compacted
      else if not (slt from current)
      then replayed []
      else loop_result
          (replay_loop current key max_events 0 (E.seek d (version_key (increment from) [])))

  unfoldable pub replay_events : E.Db → Int64 → Int64 → Bytes → Int32 → Replay
  unfolding replay_from
  replay_events d from_revision current_revision key max_events =
      if is_negative32 max_events || max_events == 0
      then replayed []
      else replay_from d (if is_negative from_revision then 0 else from_revision) current_revision
          key max_events

  -- The first loop of `Compaction`; `none` is an exception of `substr` or `stoll`.
  unfoldable pub collect : Entries → Groups → Option Groups
  unfolding add_record
  collect [] groups = some groups
  collect ((k, raw) ∷ entries) groups =
      let skip = collect entries groups in
      if not (starts_with version_prefix k)
      then some groups
      else if ltb (length k) 18
      then skip
      else if ltb (length k) 19
      then none
      else elim (E.parse raw) [
        | none ↦ skip
        | some kv ↦ elim (decode_ord (revision_part k)) [
          | none ↦ none
          | some rev ↦ collect entries (add_record (drop 19 k) (rev, kv.version) groups)
        ]
      ]

  -- The status of the write is not looked at.
  unfoldable pub drop_versions : E.Db → List Op × Int64 × ℕ → E.Db × ℕ
  drop_versions d (batch, max_deleted_rev, removed) =
      let old = compact_rev E d in
      let new_compact_rev = if slt old max_deleted_rev then max_deleted_rev else old in
      let (d', done) =
        E.write d (batch ++ (Op.put compact_rev_key (encode_uint64 new_compact_rev) ∷ [])) in
      if removed == 0 then (d, 0) else (d', removed)

  unfoldable pub compaction : E.Db → Int32 → Option (E.Db × ℕ)
  unfolding collect drop_groups drop_versions
  compaction d keep_versions =
      let kept = if is_negative32 keep_versions || keep_versions == 0 then 1 else keep_versions in
      Option.map (λ groups. drop_versions d (drop_groups kept groups 0))
        (collect (E.seek d version_prefix) [])

-- ===== src/Mvcc.antt =====
-- What the store promises, without LevelDB: a versioned map with a global revision. Current records
-- by key, the history of all writes, and the published records by key and version.
pub mod Compact
pub mod Invariant
pub mod Written
use configraft.Base.{
  ℕ, ◌+◌, Bool, true, false, ◌&&◌, not, Option, none, some, List, [], ◌∷◌, ◌++◌, ◌==◌,
  if◌then◌else◌, Int64, is_negative, ◌||◌, length,
}
use configraft.Base.Bytes.{Bytes, bytes_eq}
use configraft.Proto.{
  Kv, RaftCmd, put, delete, cas, publish, rollback, batch_put, unset, Code, ok, cas_failed,
  version_not_found, internal,
}

pub record State : Type 0 where
  pub revision : ℕ
  pub main : Bytes → Option Kv
  pub history : List Kv
  pub config : Bytes → Int64 → Option Kv
  pub compacted : ℕ

abbrev pub empty : State
empty = record { revision = 0; main = λ k. none; history = []; config = λ k v. none; compacted = 0 }

abbrev pub version_after : Option Kv → ℕ
version_after none = 1
version_after (some kv) = kv.version + 1

-- The record of the next write of a value, with its version counted on from `old`.
abbrev pub value_record : State → Option Kv → Bytes → Bytes → Kv
value_record s old key value = record {
  key = key;
  value = value;
  version = version_after old;
  revision = s.revision + 1;
  deleted = false;
}

abbrev pub delete_record : State → Bytes → Kv
delete_record s key = record {
  key = key;
  value = [];
  version = version_after (s.main key);
  revision = s.revision + 1;
  deleted = true;
}

-- The record becomes current and joins the history.
abbrev pub add_record : State → Kv → State
add_record s kv = record s {
  revision = kv.revision;
  main = λ k. if bytes_eq kv.key k then some kv else s.main k;
  history = s.history ++ (kv ∷ []);
}

-- The record can be asked for by its version.
abbrev pub add_config : State → Kv → State
add_config s kv = record s {
  config = λ k v. if bytes_eq kv.key k && (kv.version == v) then some kv else s.config k v;
}

abbrev pub visible : Option Kv → Option Kv
visible none = none
visible (some kv) = if kv.deleted then none else some kv

-- Whether a compare-and-swap goes ahead: an empty `expect` asks that the key be absent or deleted.
abbrev pub swappable : Option Kv → Bytes → Bool
swappable o [] = elim (visible o) [ none ↦ true | some kv ↦ false ]
swappable o (c ∷ expect) = elim (visible o) [
  | none ↦ false
  | some kv ↦ bytes_eq kv.value (c ∷ expect)
]

-- The record that a version of a key names: the current one, if the version is not positive.
abbrev pub named : State → Bytes → Int64 → Option Kv
named s key version =
    if is_negative version || version == 0 then visible (s.main key) else s.config key version

-- Values written one after the other, with versions counted on from the records of `base`.
unfoldable pub write_all : (Bytes → Option Kv) → State → List (Bytes × Bytes) → State × List Kv
write_all base s [] = (s, [])
write_all base s ((key, value) ∷ kvs) =
    let kv = value_record s (base key) key value in
    let (s', written) = write_all base (add_record s kv) kvs in (s', kv ∷ written)

-- What a command does: the new state, the code of its answer, and the records that it writes.
pub record Effect : Type 0 where
  pub state : State
  pub code : Code
  pub written : List Kv

abbrev pub rejected : State → Code → Effect
rejected s code = record { state = s; code = code; written = [] }

abbrev pub publish_value : State → Bytes → Bytes → Effect
publish_value s key value =
    let kv = value_record s (s.main key) key value in
    record { state = add_config (add_record s kv) kv; code = ok; written = kv ∷ [] }

abbrev pub write_value : State → Kv → Effect
write_value s kv = record { state = add_record s kv; code = ok; written = kv ∷ [] }

abbrev pub swap_value : State → Kv → Bool → Effect
swap_value s kv true = write_value s kv
swap_value s kv false = rejected s cas_failed

abbrev pub republish : State → Bytes → Option Kv → Effect
republish s key none = rejected s version_not_found
republish s key (some target) = publish_value s key target.value

unfoldable pub step : State → RaftCmd → Effect
unfolding write_all
step s (put key value) = write_value s (value_record s (s.main key) key value)
step s (delete key) = write_value s (delete_record s key)
step s (cas key expect value) =
    swap_value s (value_record s (s.main key) key value) (swappable (s.main key) expect)
step s (publish key value) = publish_value s key value
step s (rollback key target_version) = republish s key (named s key target_version)
step s (batch_put puts) =
    let (s', written) = write_all s.main s puts in
    record { state = s'; code = ok; written = written }
step s unset = rejected s internal

-- How many revisions a command may take.
abbrev pub cost : RaftCmd → ℕ
cost (batch_put puts) = length puts
cost _ = 1

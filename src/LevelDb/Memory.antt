-- ===== src/LevelDb/Memory.antt =====
-- An engine in memory that obeys the laws: a sorted list of entries, with switches that make reads
-- or writes fail. The tests and the instances of the theorems run on it.
mod Lists
use configraft.Base.{
  ℕ, zero, suc, ◌≡◌, ◌≢◌, refl, ap, sym, ◌∙◌, Bool, true, false, Option, none, some, List, [], ◌∷◌,
  ◌++◌, length, take, drop, take-append, drop-append, ◌==◌, if◌then◌else◌, arith, Bool-cases, inl,
  inr,
}
use configraft.Base.Bytes.{Bytes}
use configraft.Proto.{Kv}
use configraft.LevelDb.Sorted.{Entries, lookup, IsSorted}
use configraft.LevelDb.{Engine, EngineLaws, Read, found, not_found, failed, Op, after, Readable}
use configraft.LevelDb.Memory.Lists.{
  run, from, IsSorted-run, IsSorted-from, from_bound, lookup-from, lookup-run,
}

pub record Memory : Type 0 where
  pub entries : Entries
  pub sorted : IsSorted entries
  pub readable : Bool
  pub writable : Bool

to_read : Option Bytes → Read
to_read none = not_found
to_read (some v) = found v

pub get : Memory → Bytes → Read
unfolding to_read lookup
get d k = if d.readable then to_read (lookup k d.entries) else failed

pub write : Memory → List Op → Memory × Bool
unfolding run
write d batch =
    if d.writable
    then (
      record d { entries = run batch d.entries; sorted = IsSorted-run batch d.entries d.sorted },
      true,
    )
    else (d, false)

abbrev pub fresh : Memory
fresh = record { entries = []; sorted = tt; readable = true; writable = true }

flag : Bool → ℕ
flag true = 1
flag false = 0

-- The numbers of the record, the length of the key, the key, the value.
pub serialize : Kv → Bytes
unfolding flag
serialize kv = kv.version ∷ kv.revision ∷ flag kv.deleted ∷ length kv.key ∷ (kv.key ++ kv.value)

pub parse : Bytes → Option Kv
parse (version ∷ revision ∷ deleted ∷ n ∷ rest) = some (record {
  key = take n rest;
  value = drop n rest;
  version = version;
  revision = revision;
  deleted = deleted == 1;
})
parse _ = none

abbrev pub memory : Engine
memory = record {
  Db = Memory;
  get = get;
  write = write;
  seek = λ d k. from k d.entries;
  serialize = serialize;
  parse = parse;
}

-- To open this opens the operations of the engine, for tests.
unfoldable pub run_memory : Unit {0}
unfolding get write serialize parse from
run_memory = tt

flag-eq : (b : Bool) → (flag b == 1) ≡ b
unfolding flag
flag-eq true = refl
flag-eq false = refl

parse-serialize : (kv : Kv) → parse (serialize kv) ≡ some kv
unfolding parse serialize
parse-serialize kv =
    rw (take-append kv.key kv.value, drop-append kv.key kv.value, flag-eq kv.deleted)

get_found : (d : Memory) (k v : Bytes) → get d k ≡ found v → lookup k d.entries ≡ some v
unfolding get
get_found d k v h = ground arith

get_missing : (d : Memory) (k : Bytes) → get d k ≡ not_found → lookup k d.entries ≡ none
unfolding get
get_missing d k h = ground arith

module _ (d d' : Memory) (batch : List Op) where
  write_done :
      write d batch ≡ (d', true)
      → (k : Bytes) → lookup k d'.entries ≡ after batch k (lookup k d.entries)
  unfolding write
  write_done h k = ground (arith, lookup-run batch k d.entries d.sorted)

  write_refused :
      write d batch ≡ (d', false) → (k : Bytes) → lookup k d'.entries ≡ lookup k d.entries
  unfolding write
  write_refused h k = ground arith

pub memory_laws : EngineLaws memory
memory_laws = record {
  find = λ d k. lookup k d.entries;
  get_found = get_found;
  get_missing = get_missing;
  write_done = write_done;
  write_refused = write_refused;
  seek_sorted = λ d k. IsSorted-from k d.entries d.sorted;
  seek_from = λ d k. from_bound k d.entries;
  seek_lookup = λ d k j. lookup-from k j d.entries;
  parse-serialize = parse-serialize;
}

-- While the switch is on, no read fails.
pub memory-Readable : (d : Memory) → d.readable ≡ true → Readable memory d
unfolding get to_read
memory-Readable d h k = ground arith

pub fresh_find : (k : Bytes) → memory_laws.find fresh k ≡ none
unfolding memory_laws lookup
fresh_find k = refl

write_readable :
    (d : Memory) (batch : List Op) → d.readable ≡ true → (write d batch).0.readable ≡ true
unfolding write
write_readable d batch h = elim (Bool-cases d.writable) [ inl w ↦ rw w h | inr w ↦ rw w h ]

-- What is readable stays readable.
pub stays_readable :
    (d : Memory) → d.readable ≡ true → (batch : List Op) → Readable memory (memory.write d batch).0
stays_readable d h batch = memory-Readable (write d batch).0 (write_readable d batch h)

-- Reads of this engine go on as they were, whatever is written.
pub stays_steady :
    (d : Memory) (batch : List Op) → Readable memory d → Readable memory (memory.write d batch).0
unfolding get
stays_steady d batch r = elim (Bool-cases d.readable) [
  | inl h ↦ stays_readable d h batch
  | inr h ↦ absurd (r [] (rw h refl))
]

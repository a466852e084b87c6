-- ===== src/Store/Reads.antt =====
-- What the point reads return, for a database that represents a state and whose reads succeed.
use configraft.Base.{
  ◌^◌, ◌<◌, ◌≡◌, refl, ap, ◌∙◌, true, false, ◌||◌, Option, none, some, ◌==◌, arith, Int64,
  is_negative, ◌+◌, sym,
}
use configraft.Base.Bytes.{Bytes}
use configraft.Proto.{Kv, key_not_found, version_not_found, internal}
use configraft.StoreKey.{revision_meta_key, compact_rev_key, main_key, config_key, decode_uint64}
use configraft.LevelDb.{Engine, EngineLaws, Read, found, not_found, failed, Readable}
use configraft.Mvcc.{State, visible}
use configraft.Mvcc.Invariant.{IsConsistent}
use configraft.Store
use configraft.Store.{Lookup, hit, miss}
use configraft.Store.Contents.{counter, stored, Represents}

unfoldable pub value_of : Read → Option Bytes
value_of (found v) = some v
value_of not_found = none
value_of failed = none

module _ (E : Engine) (laws : EngineLaws E) where
  -- The contents of the database hold the state.
  abbrev pub Models : E.Db → State → Type 0
  Models d s = Represents E (laws.find d) s

  value_of-find :
      (d : E.Db) (k : Bytes) (r : Read)
      → E.get d k ≡ r
      → ¬ (r ≡ failed)
      → value_of r ≡ laws.find d k
  unfolding value_of
  value_of-find d k (found v) e ok = sym (laws.get_found d k v e)
  value_of-find d k not_found e ok = sym (laws.get_missing d k e)
  value_of-find d k failed e ok = absurd (ok refl)

  pub read-find : (d : E.Db) (k : Bytes) → Readable E d → value_of (E.get d k) ≡ laws.find d k
  read-find d k ok = value_of-find d k (E.get d k) refl (ok k)

  parsed : Option Bytes → Option Kv
  parsed none = none
  parsed (some raw) = E.parse raw

  parsed-stored : (o : Option Kv) → parsed (stored E o) ≡ o
  unfolding parsed
  parsed-stored none = refl
  parsed-stored (some kv) = laws.parse-serialize kv

  read_record :
      (r : Read)
      → (elim r [ found raw ↦ E.parse raw | not_found ↦ none | failed ↦ none ])
        ≡ parsed (value_of r)
  unfolding value_of parsed
  read_record (found v) = refl
  read_record not_found = refl
  read_record failed = refl

  pub read_counter :
      (r : Read)
      → (elim r [ found raw ↦ decode_uint64 raw | not_found ↦ 0 | failed ↦ 0 ])
        ≡ counter (value_of r)
  unfolding value_of
  read_counter (found v) = refl
  read_counter not_found = refl
  read_counter failed = refl

  module _ (d : E.Db) (s : State) (m : Models d s) (ok : Readable E d) where
    pub read_main-Models : (k : Bytes) → Store.read_main E d k ≡ s.main k
    unfolding Store.read_main
    read_main-Models k =
        read_record (E.get d (main_key k))
        ∙ ap parsed (read-find d (main_key k) ok ∙ m.main k)
        ∙ parsed-stored (s.main k)

    pub current_revision-Models : Store.current_revision E d ≡ s.revision
    unfolding Store.current_revision
    current_revision-Models =
        read_counter (E.get d revision_meta_key)
        ∙ ap counter (read-find d revision_meta_key ok)
        ∙ m.counted

    pub compact_rev-Models : Store.compact_rev E d ≡ s.compacted
    unfolding Store.compact_rev
    compact_rev-Models =
        read_counter (E.get d compact_rev_key)
        ∙ ap counter (read-find d compact_rev_key ok)
        ∙ m.compacted

    pub next_revision-Models : s.revision + 1 < 2 ^ 63 → Store.next_revision E d ≡ s.revision + 1
    unfolding Store.next_revision
    next_revision-Models h = rw current_revision-Models (omega arith)

    -- A read returns the current record of the key, or KEY_NOT_FOUND if there is none or the key
    -- is deleted.
    pub get-Models :
        (k : Bytes)
        → Store.get E d k
          ≡ (elim (visible (s.main k)) [ none ↦ miss key_not_found | some kv ↦ hit kv ])
    unfolding Store.get
    get-Models k = ground (arith, read_main-Models k)

    config_read :
        (k : Bytes) (v : Int64)
        → v < 2 ^ 64
        → value_of (E.get d (config_key k v)) ≡ stored E (s.config k v)
    config_read k v h = read-find d (config_key k v) ok ∙ m.config k v h

    read_config :
        (r : Read) (o : Option Kv)
        → ¬ (r ≡ failed)
        → value_of r ≡ stored E o
        → ((kv : Kv) → o ≡ some kv → kv.deleted ≡ false)
        → (elim r [
          | found raw ↦ Store.config_record (E.parse raw)
          | not_found ↦ miss version_not_found
          | failed ↦ miss internal
        ])
          ≡ (elim o [ none ↦ miss version_not_found | some kv ↦ hit kv ])
    unfolding value_of Store.config_record
    read_config (found raw) none live e h = cc
    read_config (found raw) (some kv) live e h = ground (arith, laws.parse-serialize kv, h kv)
    read_config not_found none live e h = refl
    read_config not_found (some kv) live e h = cc
    read_config failed o live e h = absurd (live refl)

    -- A positive version reads the published record of that version, or VERSION_NOT_FOUND.
    pub get_config-Models :
        (k : Bytes) (v : Int64)
        → IsConsistent s
        → 0 < v
        → v < 2 ^ 63
        → Store.get_config E d k v
          ≡ (elim (s.config k v) [ none ↦ miss version_not_found | some kv ↦ hit kv ])
    unfolding Store.get_config
    get_config-Models k v c pos small = ground (
      arith,
      read_config (E.get d (config_key k v)) (s.config k v) (ok (config_key k v))
          (config_read k v (omega arith)) (λ kv e. (c.published k v kv e).2),
    )

    -- Any other version reads the current record.
    pub get_config-latest :
        (k : Bytes) (v : Int64)
        → (is_negative v || v == 0) ≡ true
        → Store.get_config E d k v ≡ Store.get E d k
    unfolding Store.get_config
    get_config-latest k v h = rw h

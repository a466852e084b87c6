-- ===== src/Store/Empty.antt =====
-- A new database, beside the map with nothing in it.
use configraft.Base.{◌≡◌, arith, none}
use configraft.Base.Bytes.{Bytes}
use configraft.Mvcc.{empty}
use configraft.Mvcc.Invariant.{IsConsistent}
use configraft.LevelDb.{Engine, EngineLaws}
use configraft.LevelDb.Sorted.{lookup}
use configraft.Store.Reads.{Models}

module _ (E : Engine) (laws : EngineLaws E) where
  pub empty-Models : (d : E.Db) → ((k : Bytes) → laws.find d k ≡ none) → Models E laws d empty
  unfolding lookup
  empty-Models d h = record {
    counted = rw (h _);
    compacted = rw (h _);
    main = λ k. h _;
    config = λ k v w. h _;
    history = λ j p. h j;
  }

pub empty-IsConsistent : IsConsistent empty
empty-IsConsistent = record {
  bounded = omega arith;
  current = λ k kv e. cc e;
  ascending = tt;
  recorded = tt;
  versioned = tt;
  published = λ k v kv e. cc e;
  collected = omega arith;
}

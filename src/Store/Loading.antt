-- ===== src/Store/Loading.antt =====
-- What the writes of a snapshot leave under the keys of the records that they carry.
pub mod Keys
pub mod Batch
use configraft.Base.{
  ◌≡◌, refl, ap, sym, subst, ◌∙◌, true, false, not, Option, none, some, List, [], ◌∷◌, ◌++◌, All,
  arith, if◌then◌else◌, Bool-cases, inl, inr,
}
use configraft.Base.Bytes.{Bytes, bytes_eq, bytes_eq_iff, starts_with}
use configraft.Proto.{Kv}
use configraft.LevelDb.{Engine, EngineLaws, Op, after}
use configraft.LevelDb.Sorted.{Entries, lookup, Above, IsSorted, prefixed, Above-self}
use configraft.Store.RefineBatch.{after-append}
use configraft.Store.Snapshot

-- The new value, or else the old one.
abbrev pub over : Option Bytes → Option Bytes → Option Bytes
over none old = old
over (some raw) old = some raw

-- What holds of every value that can be looked up holds of every entry.
pub All-lookup :
    (P : Bytes → Bytes → Type 0) (l : Entries)
    → IsSorted l
    → ((k v : Bytes) → lookup k l ≡ some v → P k v)
    → All (λ e. P e.0 e.1) l
unfolding lookup
All-lookup P [] s h = tt
All-lookup P ((j, w) ∷ l) (a, s) h = (
  h j w (rw ((bytes_eq_iff j j).1 refl) refl),
  All-lookup P l s (λ k v e. h k v (ground (arith, bytes_eq_iff j k, Above-self k l, e, a))),
)

-- An entry in front of the others, whose keys stand above it.
over_front :
    (i i' raw raw' j : Bytes) (l : Entries) (o : Option Bytes)
    → i ≡ i'
    → raw ≡ raw'
    → Above i l
    → over (lookup j l) (if bytes_eq i' j then some raw' else o) ≡ over (lookup j ((i, raw) ∷ l)) o
unfolding lookup
over_front i i' raw raw' j l o ei er a = elim (Bool-cases (bytes_eq i j)) [
  | inl e ↦
      let same : i ≡ j = (bytes_eq_iff i j).0 e in
      let none_else : lookup j l ≡ none = subst (λ k. lookup k l ≡ none) same (Above-self i l a) in
      rw (none_else, sym ei, e, er) refl
  | inr n ↦ rw (sym ei, n) refl
]

module _ (E : Engine) where
  -- The entry is the record `kv` under its key.
  abbrev pub Holds : (Kv → Bytes) → Bytes → Bytes → Type 0
  Holds key_of j raw = (kv : Kv) × (j ≡ key_of kv) × (raw ≡ E.serialize kv)

  -- The writes for a list of records.
  abbrev pub writes : (Kv → List Op) → List Kv → List Op
  writes write [] = []
  writes write (kv ∷ kvs) = write kv ++ writes write kvs

  pub parse_loop-prefixed :
      (p : Bytes) (l : Entries) → Snapshot.parse_loop E p l ≡ Snapshot.parse_loop E p (prefixed p l)
  unfolding Snapshot.parse_loop
  parse_loop-prefixed p [] = refl
  parse_loop-prefixed p ((k, raw) ∷ l) = ground (arith, parse_loop-prefixed p l)

  -- Writes that leave a key alone.
  pub after-writes_other :
      (write : Kv → List Op) (j : Bytes)
      → ((kv : Kv) (o : Option Bytes) → after (write kv) j o ≡ o)
      → (kvs : List Kv) (o : Option Bytes) → after (writes write kvs) j o ≡ o
  after-writes_other write j keeps [] o = refl
  after-writes_other write j keeps (kv ∷ kvs) o =
      after-append (write kv) (writes write kvs) j o
      ∙ after-writes_other write j keeps kvs (after (write kv) j o)
      ∙ keeps kv o

  module _ (laws : EngineLaws E) (prefix : Bytes) (key_of : Kv → Bytes)
      (own : (kv : Kv) → starts_with prefix (key_of kv) ≡ true) (write : Kv → List Op) where
    parse_loop_cons :
        (kv : Kv) (j raw : Bytes) (l : Entries)
        → j ≡ key_of kv
        → raw ≡ E.serialize kv
        → Snapshot.parse_loop E prefix ((j, raw) ∷ l) ≡ kv ∷ Snapshot.parse_loop E prefix l
    unfolding Snapshot.parse_loop
    parse_loop_cons kv j raw l ej er = rw (ej, er) (rw (own kv, laws.parse-serialize kv) refl)

    -- Writes that put each record under its key leave there what the entries have.
    pub after-writes :
        (j : Bytes)
        → ((kv : Kv) (o : Option Bytes)
            → after (write kv) j o ≡ (if bytes_eq (key_of kv) j then some (E.serialize kv) else o))
        → (l : Entries) → All (λ e. Holds key_of e.0 e.1) l
        → IsSorted l
        → (o : Option Bytes)
        → after (writes write (Snapshot.parse_loop E prefix l)) j o ≡ over (lookup j l) o
    unfolding lookup Snapshot.parse_loop
    after-writes j sets [] h s o = refl
    after-writes j sets ((i, raw) ∷ l) ((kv, ei, er), h) (a, s) o =
        ap (λ kvs. after (writes write kvs) j o) (parse_loop_cons kv i raw l ei er)
        ∙ after-append (write kv) (writes write (Snapshot.parse_loop E prefix l)) j o
        ∙ after-writes j sets l h s (after (write kv) j o)
        ∙ ap (over (lookup j l)) (sets kv o)
        ∙ over_front i (key_of kv) raw (E.serialize kv) j l o ei er a

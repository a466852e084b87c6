-- ===== src/Store/Contents.antt =====
-- The relation between the contents of the database and the versioned map, and what one `Put` of a
-- batch does to it.
use configraft.Base.{
  ℕ, ◌^◌, ◌<◌, ◌≡◌, refl, ap, ◌∙◌, true, false, ◌&&◌, Option, none, some, List, [], ◌∷◌, ◌++◌, map,
  map-append, All, ◌==◌, if◌then◌else◌, arith, Int64, Bool-cases, inl, inr,
}
use configraft.Base.Bytes.{Bytes, bytes_eq, bytes_eq_iff, starts_with}
use configraft.Proto.{Kv}
use configraft.StoreKey.{
  revision_meta_key, compact_rev_key, version_prefix, main_key, version_key, config_key,
  encode_uint64, decode_uint64,
}
use configraft.StoreKey.RoundTrip.{decode_uint64-encode_uint64}
use configraft.StoreKey.Distinct.{
  Slot, revision_slot, compact_slot, main_slot, version_slot, config_slot, slot_key, slot_eq,
  IsWord, slot_key-eq,
}
use configraft.LevelDb.{Engine}
use configraft.LevelDb.Sorted.{Entries, lookup}
use configraft.Mvcc.{State}

abbrev pub counter : Option Bytes → ℕ
counter none = 0
counter (some raw) = decode_uint64 raw

abbrev pub Contents : Type 0
Contents = Bytes → Option Bytes

abbrev pub set_at : Contents → Bytes → Bytes → Contents
set_at f j v k = if bytes_eq j k then some v else f k

set_at-slot :
    (f : Contents) (s t : Slot) (v : Bytes)
    → IsWord s
    → IsWord t
    → set_at f (slot_key s) v (slot_key t) ≡ (if slot_eq s t then some v else f (slot_key t))
set_at-slot f s t v hs ht = ap (λ b. if b then some v else f (slot_key t)) (slot_key-eq s t hs ht)

other_prefix :
    (p a j : Bytes) → starts_with p a ≡ false → starts_with p j ≡ true → bytes_eq a j ≡ false
other_prefix p a j h s = elim (Bool-cases (bytes_eq a j)) [
  | inl e ↦ cc ((bytes_eq_iff a j).0 e)
  | inr n ↦ n
]

lookup-append :
    (j k v : Bytes) (l : Entries)
    → lookup k l ≡ none
    → lookup j (l ++ ((k, v) ∷ [])) ≡ (if bytes_eq k j then some v else lookup j l)
unfolding lookup
lookup-append j k v [] h = refl
lookup-append j k v ((i, w) ∷ l) h =
    ground (arith, bytes_eq_iff i j, bytes_eq_iff k j, bytes_eq_iff i k, lookup-append j k v l)

module _ (E : Engine) where
  -- A record as the database holds it.
  abbrev pub stored : Option Kv → Option Bytes
  stored none = none
  stored (some kv) = some (E.serialize kv)

  -- A record of the history, with its key.
  abbrev pub entry : Kv → Bytes × Bytes
  entry kv = (version_key kv.revision kv.key, E.serialize kv)

  -- The contents hold the state: both counters, the current records, the published records, and
  -- under the history's prefix the history and nothing else.
  pub record Represents (f : Contents) (s : State) : Type 0 where
    pub counted : counter (f revision_meta_key) ≡ s.revision
    pub compacted : counter (f compact_rev_key) ≡ s.compacted
    pub main : (k : Bytes) → f (main_key k) ≡ stored (s.main k)
    pub config : (k : Bytes) (v : Int64) → v < 2 ^ 64 → f (config_key k v) ≡ stored (s.config k v)
    pub history :
        (j : Bytes) → starts_with version_prefix j ≡ true → f j ≡ lookup j (map entry s.history)

  fresh_entry :
      (l : List Kv) (kv : Kv)
      → All (λ x. x.revision < kv.revision) l
      → kv.revision < 2 ^ 64
      → lookup (version_key kv.revision kv.key) (map entry l) ≡ none
  unfolding lookup
  fresh_entry [] kv b h = refl
  fresh_entry (x ∷ l) kv (q, b) h = ground (
    arith,
    slot_key-eq (version_slot x.revision x.key) (version_slot kv.revision kv.key),
    fresh_entry l kv b,
  )

module _ (E : Engine) {f : Contents} {s : State} (r : Represents E f s) where
  pub Represents-set_revision :
      (rev : ℕ)
      → rev < 2 ^ 64
      → Represents E (set_at f revision_meta_key (encode_uint64 rev)) (record s { revision = rev })
  Represents-set_revision rev h = record {
    counted =
        ap counter (set_at-slot f revision_slot revision_slot _ tt tt)
        ∙ decode_uint64-encode_uint64 rev h;
    compacted = ap counter (set_at-slot f revision_slot compact_slot _ tt tt) ∙ r.compacted;
    main = λ k. set_at-slot f revision_slot (main_slot k) _ tt tt ∙ r.main k;
    config = λ k v hv. set_at-slot f revision_slot (config_slot k v) _ tt hv ∙ r.config k v hv;
    history = λ j p.
        rw (other_prefix version_prefix revision_meta_key j (unfold starts_with in refl) p)
          (r.history j p);
  }

  pub Represents-set_compact :
      (rev : ℕ)
      → rev < 2 ^ 64
      → Represents E (set_at f compact_rev_key (encode_uint64 rev)) (record s { compacted = rev })
  Represents-set_compact rev h = record {
    counted = ap counter (set_at-slot f compact_slot revision_slot _ tt tt) ∙ r.counted;
    compacted =
        ap counter (set_at-slot f compact_slot compact_slot _ tt tt)
        ∙ decode_uint64-encode_uint64 rev h;
    main = λ k. set_at-slot f compact_slot (main_slot k) _ tt tt ∙ r.main k;
    config = λ k v hv. set_at-slot f compact_slot (config_slot k v) _ tt hv ∙ r.config k v hv;
    history = λ j p.
        rw (other_prefix version_prefix compact_rev_key j (unfold starts_with in refl) p)
          (r.history j p);
  }

  pub Represents-set_main :
      (kv : Kv)
      → Represents E
          (set_at f (main_key kv.key) (E.serialize kv))
          (record s { main = λ k. if bytes_eq kv.key k then some kv else s.main k })
  Represents-set_main kv = record {
    counted = ap counter (set_at-slot f (main_slot kv.key) revision_slot _ tt tt) ∙ r.counted;
    compacted = ap counter (set_at-slot f (main_slot kv.key) compact_slot _ tt tt) ∙ r.compacted;
    main = λ k.
        ground
          (arith, set_at-slot f (main_slot kv.key) (main_slot k) (E.serialize kv) tt tt, r.main k);
    config = λ k v hv. set_at-slot f (main_slot kv.key) (config_slot k v) _ tt hv ∙ r.config k v hv;
    history = λ j p.
        rw (other_prefix version_prefix (main_key kv.key) j (unfold starts_with main_key in refl) p)
          (r.history j p);
  }

  pub Represents-set_config :
      (kv : Kv)
      → kv.version < 2 ^ 64
      → Represents E (set_at f (config_key kv.key kv.version) (E.serialize kv)) (record s {
        config = λ k v. if bytes_eq kv.key k && (kv.version == v) then some kv else s.config k v;
      })
  Represents-set_config kv h = record {
    counted =
        ap counter (set_at-slot f (config_slot kv.key kv.version) revision_slot _ h tt) ∙ r.counted;
    compacted =
        ap counter (set_at-slot f (config_slot kv.key kv.version) compact_slot _ h tt)
        ∙ r.compacted;
    main = λ k. set_at-slot f (config_slot kv.key kv.version) (main_slot k) _ h tt ∙ r.main k;
    config = λ k v hv. ground (
      arith,
      set_at-slot f (config_slot kv.key kv.version) (config_slot k v) (E.serialize kv) h hv,
      r.config k v hv,
    );
    history = λ j p.
        rw
          (other_prefix version_prefix (config_key kv.key kv.version) j
            (unfold starts_with config_key in refl) p)
          (r.history j p);
  }

  pub Represents-set_version :
      (kv : Kv)
      → kv.revision < 2 ^ 64
      → All (λ x. x.revision < kv.revision) s.history
      → Represents E
          (set_at f (version_key kv.revision kv.key) (E.serialize kv))
          (record s { history = s.history ++ (kv ∷ []) })
  Represents-set_version kv h b = record {
    counted =
        ap counter (set_at-slot f (version_slot kv.revision kv.key) revision_slot _ h tt)
        ∙ r.counted;
    compacted =
        ap counter (set_at-slot f (version_slot kv.revision kv.key) compact_slot _ h tt)
        ∙ r.compacted;
    main = λ k. set_at-slot f (version_slot kv.revision kv.key) (main_slot k) _ h tt ∙ r.main k;
    config = λ k v hv.
        set_at-slot f (version_slot kv.revision kv.key) (config_slot k v) _ h hv ∙ r.config k v hv;
    history = λ j p. ground (
      arith,
      r.history j p,
      ap (lookup j) (map-append (entry E) s.history (kv ∷ [])),
      lookup-append j (version_key kv.revision kv.key) (E.serialize kv) (map (entry E) s.history)
          (fresh_entry E s.history kv b h),
    );
  }

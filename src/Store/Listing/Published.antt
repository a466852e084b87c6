-- ===== src/Store/Listing/Published.antt =====
-- What GetHistory of src/store/store.cpp lists, beside the records that the map has published.
use configraft.Base.{
  ◌^◌, ◌<◌, ◌≡◌, refl, sym, subst, ap, ◌∙◌, true, false, not, ◌||◌, Option, none, some, List, [],
  ◌∷◌, ◌++◌, All, arith, Int64, if◌then◌else◌, Bool-cases, inl, inr, append_assoc, append-nil, ap₂,
}
use configraft.Base.Bytes.{
  Bytes, bytes_eq, bytes_eq_iff, lt_bytes, starts_with, starts_with-append, lt_bytes-append,
}
use configraft.LevelDb.{Engine, EngineLaws}
use configraft.LevelDb.Sorted.{
  Entries, Above, lookup, IsSorted, prefixed, lookup-prefixed, IsSorted-prefixed,
}
use configraft.Mvcc.{State}
use configraft.Mvcc.Invariant.{IsConsistent}
use configraft.Proto.{Kv, RaftCmd}
use configraft.Store.Contents.{stored}
use configraft.Store.Loading.{All-lookup}
use configraft.Store.Loading.Keys.{config_of, from-starts_with}
use configraft.Store.Published.{apply_cmd-Only}
use configraft.Store.Reads.{Models}
use configraft.Store.Scan
use configraft.StoreOps.{apply_cmd_to_store}
use configraft.StoreKey.{config_prefix, config_key, encode_ord}
use configraft.StoreKey.Order.{lt_bytes-encode_ord}
use mathlib.Core.List.{Memᴰ}
use configraft.Store.Listing.{Rising, starts_with-left, pick, picks, history_loop-picks, Shows}

module _ (E : Engine) (laws : EngineLaws E) where
  -- Under the prefix of published records there is nothing else.
  abbrev pub ShowsPublished : E.Db → Type 0
  ShowsPublished d =
      (j raw : Bytes)
      → starts_with config_prefix j ≡ true
      → laws.find d j ≡ some raw
      → Shows E j raw

  module _ (d : E.Db) (s : State) (m : Models E laws d s) (c : IsConsistent s)
      (only : ShowsPublished d) (key : Bytes) where
    -- The prefix of the key's versions.
    abbrev listed : Bytes
    listed = config_prefix ++ (key ++ (b'/' ∷ []))

    abbrev entries : Entries
    entries = prefixed listed (E.seek d listed)

    get_history-picks : Scan.get_history E d key ≡ picks E key entries
    unfolding Scan.get_history
    get_history-picks = history_loop-picks E listed key (E.seek d listed)

    entries-IsSorted : IsSorted entries
    entries-IsSorted = IsSorted-prefixed listed (E.seek d listed) (laws.seek_sorted d listed)

    lookup-entries :
        (j : Bytes) → lookup j entries ≡ (if starts_with listed j then laws.find d j else none)
    lookup-entries j =
        lookup-prefixed listed j (E.seek d listed) (laws.seek_sorted d listed)
          (laws.seek_from d listed)
        ∙ (elim (Bool-cases (starts_with listed j)) [
          | inl h ↦ rw h (laws.seek_lookup d listed j ∙ (rw (from-starts_with listed j h) refl))
          | inr h ↦ rw h refl
        ])

    -- A record that the map has published for the key.
    abbrev pub Published : Kv → Type 0
    Published kv =
        (kv.key ≡ key)
        × (kv.deleted ≡ false)
        × (kv.version < 2 ^ 64)
        × (s.config key kv.version ≡ some kv)

    stored_same : (o : Option Kv) (kv : Kv) → stored E o ≡ some (E.serialize kv) → o ≡ some kv
    stored_same none kv e = cc e
    stored_same (some x) kv e =
        let same : E.serialize x ≡ E.serialize kv = cc e in
        sym (laws.parse-serialize x) ∙ ap E.parse same ∙ laws.parse-serialize kv

    shown-Published :
        (kv : Kv)
        → laws.find d (config_of kv) ≡ some (E.serialize kv)
        → kv.version < 2 ^ 64
        → kv.key ≡ key
        → kv.deleted ≡ false
        → Published kv
    shown-Published kv e h same live = (
      same,
      live,
      h,
      subst (λ k. s.config k kv.version ≡ some kv) same
          (stored_same (s.config kv.key kv.version) kv (sym (m.config kv.key kv.version h) ∙ e)),
    )

    -- What an entry of the list gives, if it is picked.
    picks-Published :
        (l : Entries)
        → All (λ e. Shows E e.0 e.1 × (laws.find d e.0 ≡ some e.1)) l
        → All Published (picks E key l)
    unfolding picks pick
    picks-Published [] a = tt
    picks-Published ((k, raw) ∷ l) ((((kv, at, is, h), e), a)) =
        let parsed : E.parse raw ≡ some kv = ap E.parse is ∙ laws.parse-serialize kv in
        let found : laws.find d (config_of kv) ≡ some (E.serialize kv) =
          ap (laws.find d) (sym at) ∙ e ∙ ap some is in
        let rest = picks-Published l a in
        elim (Bool-cases (not (bytes_eq kv.key key) || kv.deleted)) [
          | inl out ↦ rw (parsed, out) rest
          | inr picked ↦
              let same : bytes_eq kv.key key ≡ true = ground arith in
              let live : kv.deleted ≡ false = ground arith in
              rw (parsed, picked)
                (shown-Published kv found h ((bytes_eq_iff kv.key key).0 same) live, rest)
        ]

    picks-Mem :
        (l : Entries) (j : Bytes) (kv : Kv)
        → kv.key ≡ key
        → kv.deleted ≡ false
        → lookup j l ≡ some (E.serialize kv)
        → Memᴰ kv (picks E key l)
    unfolding picks pick lookup
    picks-Mem [] j kv same live e = cc e
    picks-Mem ((k, raw) ∷ l) j kv same live e = elim (Bool-cases (bytes_eq k j)) [
      | inl h ↦
          let is : raw ≡ E.serialize kv = cc (rw h at e) in
          let parsed : E.parse raw ≡ some kv = ap E.parse is ∙ laws.parse-serialize kv in
          rw (parsed, (bytes_eq_iff kv.key key).1 same, live) (Memᴰ.head refl)
      | inr h ↦ let rest = picks-Mem l j kv same live (rw h at e) in picked_later (E.parse raw) rest
    ]
      where
        picked_later : (o : Option Kv) {rest : List Kv} → Memᴰ kv rest → Memᴰ kv (pick key o rest)
        picked_later none r = r
        picked_later (some x) r = elim (Bool-cases (not (bytes_eq x.key key) || x.deleted)) [
          | inl b ↦ rw b r
          | inr b ↦ rw b (Memᴰ.tail r)
        ]

    config_key-listed : (v : Int64) → config_key key v ≡ listed ++ encode_ord v
    unfolding config_key
    config_key-listed v =
        ap (λ k. config_prefix ++ k) (sym (append_assoc key (b'/' ∷ []) (encode_ord v)))

    listed-config_key : (v : Int64) → starts_with listed (config_key key v) ≡ true
    listed-config_key v =
        ap (starts_with listed) (config_key-listed v) ∙ starts_with-append listed (encode_ord v)

    -- The keys of a key's versions are in the order of the versions.
    lt_bytes-config_key :
        (a b : Int64)
        → a < 2 ^ 64
        → b < 2 ^ 64
        → lt_bytes (config_key key a) (config_key key b) ≡ true
        → a < b
    unfolding lt_bytes
    lt_bytes-config_key a b ha hb h =
        let ordered : lt_bytes (config_key key a) (config_key key b)
            ≡ lt_bytes (encode_ord a) (encode_ord b) =
          ap₂ lt_bytes (config_key-listed a) (config_key-listed b)
          ∙ lt_bytes-append listed (encode_ord a) (encode_ord b) in
        ground (
          arith,
          lt_bytes-encode_ord a b [] [] ha hb,
          append-nil (encode_ord a),
          append-nil (encode_ord b),
        )

    picks-Above :
        (v : Int64) (l : Entries)
        → v < 2 ^ 64
        → All (λ e. Shows E e.0 e.1 × (laws.find d e.0 ≡ some e.1)) l
        → Above (config_key key v) l
        → All (λ x. v < x.version) (picks E key l)
    unfolding picks pick
    picks-Above v [] hv a b = tt
    picks-Above v ((k, raw) ∷ l) hv (((kv, at, is, h), e), a) (q, b) =
        let parsed : E.parse raw ≡ some kv = ap E.parse is ∙ laws.parse-serialize kv in
        let rest = picks-Above v l hv a b in
        elim (Bool-cases (not (bytes_eq kv.key key) || kv.deleted)) [
          | inl out ↦ rw (parsed, out) rest
          | inr picked ↦
              let match : bytes_eq kv.key key ≡ true = ground arith in
              let same : kv.key ≡ key = (bytes_eq_iff kv.key key).0 match in
              let own : k ≡ config_key key kv.version =
                at ∙ ap (λ i. config_key i kv.version) same in
              let behind : lt_bytes (config_key key v) (config_key key kv.version) ≡ true =
                ap (lt_bytes (config_key key v)) (sym own) ∙ q in
              rw (parsed, picked) (lt_bytes-config_key v kv.version hv h behind, rest)
        ]

    picks-Rising :
        (l : Entries)
        → All (λ e. Shows E e.0 e.1 × (laws.find d e.0 ≡ some e.1)) l
        → IsSorted l
        → Rising (picks E key l)
    unfolding picks pick
    picks-Rising [] a b = tt
    picks-Rising ((k, raw) ∷ l) (((kv, at, is, h), e), a) (above, sorted) =
        let parsed : E.parse raw ≡ some kv = ap E.parse is ∙ laws.parse-serialize kv in
        let rest = picks-Rising l a sorted in
        elim (Bool-cases (not (bytes_eq kv.key key) || kv.deleted)) [
          | inl out ↦ rw (parsed, out) rest
          | inr picked ↦
              let match : bytes_eq kv.key key ≡ true = ground arith in
              let own : k ≡ config_key key kv.version =
                at ∙ ap (λ i. config_key i kv.version) ((bytes_eq_iff kv.key key).0 match) in
              rw (parsed, picked)
                (picks-Above kv.version l h a (subst (λ i. Above i l) own above), rest)
        ]

    shown :
        (j raw : Bytes) → lookup j entries ≡ some raw → Shows E j raw × (laws.find d j ≡ some raw)
    shown j raw e = elim (Bool-cases (starts_with listed j)) [
      | inl h ↦
          let found : laws.find d j ≡ some raw = cc (lookup-entries j, e, h) in
          (only j raw (starts_with-left config_prefix (key ++ (b'/' ∷ [])) j h) found, found)
      | inr h ↦ cc (lookup-entries j, e, h)
    ]

    entries-All : All (λ e. Shows E e.0 e.1 × (laws.find d e.0 ≡ some e.1)) entries
    entries-All =
        All-lookup (λ j raw. Shows E j raw × (laws.find d j ≡ some raw)) entries entries-IsSorted
          shown

    -- In a database that holds a consistent state, and under the prefix of published records only
    -- records under their own keys and 64-bit versions, GetHistory lists exactly the records that the
    -- map has published for the key, those of longer keys with the same prefix left out, in the order
    -- of their versions.
    pub get_history-Published :
        All Published (Scan.get_history E d key)
        × ((kv : Kv) → Published kv → Memᴰ kv (Scan.get_history E d key))
        × Rising (Scan.get_history E d key)
    unfolding config_key
    get_history-Published = (
      subst (All Published) (sym get_history-picks) (picks-Published entries entries-All),
      λ kv (same, live, h, found). subst (Memᴰ kv) (sym get_history-picks) (
          picks-Mem entries (config_key key kv.version) kv same live (
            lookup-entries (config_key key kv.version)
            ∙ (rw (listed-config_key kv.version)
                (m.config key kv.version h ∙ ap (stored E) found)))),
      subst Rising (sym get_history-picks) (picks-Rising entries entries-All entries-IsSorted),
    )

module _ (E : Engine) (laws : EngineLaws E) where
  -- What GetHistory relies on holds of a new database, and commands keep it.
  pub empty-ShowsPublished :
      (d : E.Db) → ((k : Bytes) → laws.find d k ≡ none) → ShowsPublished E laws d
  empty-ShowsPublished d h j raw p e = cc (h j, e)

  pub apply_cmd-ShowsPublished :
      (d : E.Db) (cmd : RaftCmd)
      → ShowsPublished E laws d
      → ShowsPublished E laws (apply_cmd_to_store E d cmd).0
  apply_cmd-ShowsPublished d cmd only =
      apply_cmd-Only E laws (Shows E) (λ kv h. (kv, refl, refl, h)) d cmd only

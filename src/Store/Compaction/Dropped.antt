-- ===== src/Store/Compaction/Dropped.antt =====
-- Which keys the batch of a compaction deletes.
use configraft.Base.{
  ℕ, zero, suc, ◌-◌, ◌^◌, ◌≤◌, ◌<◌, ◌≡◌, refl, sym, ap, ap₂, ◌∙◌, true, false, Bool, ◌||◌, Option,
  none, List, [], ◌∷◌, ◌++◌, All, arith, if◌then◌else◌, Int64, Bool-cases, inl, inr, leb, length,
  take,
}
use configraft.Base.Bytes.{Bytes, bytes_eq, bytes_eq_iff, lt_bytes_irrefl}
use configraft.Proto.{Kv}
use configraft.StoreKey.Distinct.{
  Slot, revision_slot, compact_slot, main_slot, version_slot, config_slot, slot_key, slot_eq,
  IsWord, slot_key-eq,
}
use configraft.LevelDb.{Op, after}
use configraft.Mvcc.Compact.{count, dropped}
use configraft.Store.Compaction.Grouped.{Ordered, records_at, records_of, Above-records_at}
use configraft.Store.Compaction.Keeps.{Deletes}
use configraft.Store.Scan.{Groups, Records, drop_records, drop_groups}

-- Whether a batch deletes a key.
abbrev pub gone : List Op → Bytes → Bool
gone [] j = false
gone (Op.put i raw ∷ batch) j = gone batch j
gone (Op.delete i ∷ batch) j = bytes_eq i j || gone batch j

pub gone-append : (xs ys : List Op) (j : Bytes) → gone (xs ++ ys) j ≡ (gone xs j || gone ys j)
gone-append [] ys j = refl
gone-append (Op.put i raw ∷ xs) ys j = gone-append xs ys j
gone-append (Op.delete i ∷ xs) ys j = ground (arith, gone-append xs ys j)

absent : (b : Bool) → if◌then◌else◌ {A = Option Bytes} b none none ≡ none
absent true = refl
absent false = refl

pub after-gone :
    (batch : List Op) (j : Bytes) (o : Option Bytes)
    → Deletes (λ i. Unit {0}) batch
    → after batch j o ≡ (if gone batch j then none else o)
after-gone [] j o h = refl
after-gone (Op.put i raw ∷ batch) j o h = absurd h
after-gone (Op.delete i ∷ batch) j o (p, h) = elim (Bool-cases (bytes_eq i j)) [
  | inl e ↦ rw e (after-gone batch j none h ∙ absent (gone batch j))
  | inr e ↦ rw e (after-gone batch j o h)
]

-- Whether a slot is one of the two under which a record of the history is kept.
abbrev pub of_record : Bytes → Int64 × Int64 → Slot → Bool
of_record key (rev, ver) t = slot_eq (version_slot rev key) t || slot_eq (config_slot key ver) t

unfoldable pub hits : Slot → Bytes → Records → Bool
hits t key [] = false
hits t key (r ∷ records) = of_record key r t || hits t key records

-- Both numbers of a record are 64-bit.
abbrev pub AreWords : Int64 × Int64 → Type 0
AreWords r = (r.0 < 2 ^ 64) × (r.1 < 2 ^ 64)

gone-drop_records :
    (t : Slot) (key : Bytes) (excess : ℕ) (records : Records) (top : Int64)
    → IsWord t
    → All AreWords records
    → gone (drop_records key excess records top).0 (slot_key t) ≡ hits t key (take excess records)
unfolding drop_records hits
gone-drop_records t key zero records top w a = refl
gone-drop_records t key (suc excess) [] top w a = refl
gone-drop_records t key (suc excess) ((rev, ver) ∷ records) top w ((hr, hv), a) =
    rw
      (
        slot_key-eq (version_slot rev key) t hr w,
        slot_key-eq (config_slot key ver) t hv w,
        gone-drop_records t key excess records _ w a,
      )
      (or_assoc (slot_eq (version_slot rev key) t) (slot_eq (config_slot key ver) t) _)
  where
    or_assoc : (a b c : Bool) → (a || (b || c)) ≡ ((a || b) || c)
    or_assoc true b c = refl
    or_assoc false b c = refl

-- The records that go: all but the last `n`.
abbrev pub excess : ℕ → Records → Records
excess n records = take (length records - n) records

-- A slot of the key `k`, which no record of another key uses.
abbrev pub IsOf : Bytes → Slot → Type 0
IsOf k (version_slot r j) = j ≡ k
IsOf k (config_slot j v) = j ≡ k
IsOf k _ = ⊥

not_of_record :
    (t : Slot) (k j : Bytes) (r : Int64 × Int64)
    → IsOf k t
    → bytes_eq j k ≡ false
    → of_record j r t ≡ false
not_of_record (version_slot a i) k j r e n = ground (arith, e)
not_of_record (config_slot i v) k j r e n = ground (arith, e)
not_of_record revision_slot k j r e n = absurd e
not_of_record compact_slot k j r e n = absurd e
not_of_record (main_slot i) k j r e n = absurd e

hits_other :
    (t : Slot) (k j : Bytes) (records : Records)
    → IsOf k t
    → bytes_eq j k ≡ false
    → hits t j records ≡ false
unfolding hits
hits_other t k j [] e n = refl
hits_other t k j (r ∷ records) e n = rw (not_of_record t k j r e n) (hits_other t k j records e n)

no_records : (t : Slot) (k : Bytes) (m : ℕ) → hits t k (take m []) ≡ false
unfolding hits
no_records t k zero = refl
no_records t k (suc m) = refl

or_false : (b : Bool) → (b || false) ≡ b
or_false true = refl
or_false false = refl

-- The batch deletes a slot of a key exactly if it belongs to a record that its group loses.
pub gone-drop_groups :
    (t : Slot) (k : Bytes) (n : ℕ) (groups : Groups) (top : Int64)
    → IsWord t
    → IsOf k t
    → All (λ g. All AreWords g.1) groups
    → Ordered groups
    → gone (drop_groups n groups top).0 (slot_key t) ≡ hits t k (excess n (records_at k groups))
unfolding drop_groups records_at hits
gone-drop_groups t k n [] top w i a o = sym (no_records t k (0 - n))
gone-drop_groups t k n ((j, records) ∷ groups) top w i (p, a) (above, o) =
    let rest =
      gone-drop_groups t k n groups (drop_records j (length records - n) records top).1 w i a o in
    gone-append (drop_records j (length records - n) records top).0 _ (slot_key t)
    ∙ ap₂ (λ a b. a || b) (gone-drop_records t j (length records - n) records top w p) rest
    ∙ (elim (Bool-cases (bytes_eq j k)) [
      | inl e ↦
          let same : j ≡ k = (bytes_eq_iff j k).0 e in
          let alone : records_at k groups ≡ [] =
            Above-records_at k j groups above (rw same (lt_bytes_irrefl k)) in
          rw (e, alone, same, no_records t k (0 - n)) (or_false (hits t k (excess n records)))
      | inr e ↦ rw (e, hits_other t k j (excess n records) i e) refl
    ])

-- Whether a slot is one of those of the records in a list.
unfoldable pub mentions : Slot → List Kv → Bool
mentions t [] = false
mentions t (kv ∷ l) = of_record kv.key (kv.revision, kv.version) t || mentions t l

hits-records_of :
    (t : Slot) (k : Bytes) (l : List Kv) → IsOf k t → hits t k (records_of k l) ≡ mentions t l
unfolding hits records_of mentions
hits-records_of t k [] i = refl
hits-records_of t k (kv ∷ l) i = elim (Bool-cases (bytes_eq kv.key k)) [
  | inl e ↦
      let same : kv.key ≡ k = (bytes_eq_iff kv.key k).0 e in
      rw (e, hits-records_of t k l i, same) refl
  | inr e ↦ rw (e, hits-records_of t k l i, not_of_record t k kv.key _ i e) refl
]

length-records_of : (k : Bytes) (l : List Kv) → length (records_of k l) ≡ count k l
unfolding records_of count
length-records_of k [] = refl
length-records_of k (kv ∷ l) = ground (arith, length-records_of k l)

take_none : {A : Type 0} (m : ℕ) (l : List A) → m ≡ 0 → take m l ≡ []
take_none m l e = rw e refl

excess_none : (n : ℕ) (records : Records) → length records ≤ n → excess n records ≡ []
excess_none n records h = take_none (length records - n) records (omega arith)

excess_more :
    (n : ℕ) (r : Int64 × Int64) (records : Records)
    → n ≤ length records
    → excess n (r ∷ records) ≡ r ∷ excess n records
excess_more n r records h =
    let next : suc (length records) - n ≡ suc (length records - n) = omega arith in
    ap (λ m. take m (r ∷ records)) next

-- All but the last `n` records of a key are those with `n` newer ones.
excess-records_of :
    (n : ℕ) (k : Bytes) (l : List Kv) → excess n (records_of k l) ≡ records_of k (dropped n l)
unfolding records_of dropped
excess-records_of n k [] = excess_none n [] (omega arith)
excess-records_of n k (kv ∷ l) = elim (Bool-cases (bytes_eq kv.key k)) [
  | inl e ↦
      let same : count kv.key l ≡ length (records_of k l) =
        ap (λ x. count x l) ((bytes_eq_iff kv.key k).0 e) ∙ sym (length-records_of k l) in
      let rest = excess-records_of n k l in
      elim (Bool-cases (leb n (count kv.key l))) [
        | inl h ↦
            rw (e, h, e)
              (excess_more n _ (records_of k l) (ground arith)
                ∙ ap (λ x. (kv.revision, kv.version) ∷ x) rest)
        | inr h ↦
            rw (e, h)
              (excess_none n ((kv.revision, kv.version) ∷ records_of k l) (ground arith)
                ∙ sym (excess_none n (records_of k l) (ground arith))
                ∙ rest)
      ]
  | inr e ↦ elim (Bool-cases (leb n (count kv.key l))) [
    | inl h ↦ rw (e, h, e) (excess-records_of n k l)
    | inr h ↦ rw (e, h) (excess-records_of n k l)
  ]
]

-- A group loses a slot exactly if a dropped record of the history has it.
pub hits-dropped :
    (t : Slot) (k : Bytes) (n : ℕ) (l : List Kv)
    → IsOf k t
    → hits t k (excess n (records_of k l)) ≡ mentions t (dropped n l)
hits-dropped t k n l i =
    ap (hits t k) (excess-records_of n k l) ∙ hits-records_of t k (dropped n l) i

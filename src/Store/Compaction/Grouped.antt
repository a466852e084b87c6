-- ===== src/Store/Compaction/Grouped.antt =====
-- The groups of the first loop of Compaction, beside the records of the history.
use configraft.Base.{
  ◌≡◌, refl, sym, ap, ◌∙◌, true, false, List, [], ◌∷◌, ◌++◌, All, arith, if◌then◌else◌, Int64,
  Bool-cases, inl, inr, append-nil, append_assoc,
}
use configraft.Base.Bytes.{
  Bytes, bytes_eq, bytes_eq_iff, lt_bytes, lt_bytes_irrefl, lt_bytes_trans, lt_bytes_total,
}
use configraft.Proto.{Kv}
use configraft.Store.Compaction.{gather}
use configraft.Store.Scan.{Groups, Records, add_record}

-- The records of one key.
unfoldable pub records_at : Bytes → Groups → Records
records_at key [] = []
records_at key ((j, records) ∷ groups) = if bytes_eq j key then records else records_at key groups

unfoldable pub records_of : Bytes → List Kv → Records
records_of key [] = []
records_of key (kv ∷ l) =
    let rest = records_of key l in
    if bytes_eq kv.key key then (kv.revision, kv.version) ∷ rest else rest

abbrev pub Above : Bytes → Groups → Type 0
Above j groups = All (λ g. lt_bytes j g.0 ≡ true) groups

-- Keys grow strictly.
abbrev pub Ordered : Groups → Type 0
Ordered [] = Unit {0}
Ordered ((j, records) ∷ groups) = Above j groups × Ordered groups

pub Above-records_at :
    (k j : Bytes) (groups : Groups)
    → Above j groups
    → lt_bytes j k ≡ false
    → records_at k groups ≡ []
unfolding records_at
Above-records_at k j [] a h = refl
Above-records_at k j ((i, records) ∷ groups) (p, a) h =
    ground (arith, bytes_eq_iff i k, Above-records_at k j groups a h)

Above-add_record :
    (j key : Bytes) (r : Int64 × Int64) (groups : Groups)
    → lt_bytes j key ≡ true
    → Above j groups
    → Above j (add_record key r groups)
unfolding add_record
Above-add_record j key r [] h a = (h, tt)
Above-add_record j key r ((i, records) ∷ groups) h (p, a) = elim (Bool-cases (bytes_eq i key)) [
  | inl e ↦ rw e (p, a)
  | inr n ↦ elim (Bool-cases (lt_bytes key i)) [
    | inl e ↦ rw (n, e) (h, (p, a))
    | inr e ↦ rw (n, e) (p, Above-add_record j key r groups h a)
  ]
]

Above-trans :
    (i j : Bytes) (groups : Groups) → lt_bytes i j ≡ true → Above j groups → Above i groups
Above-trans i j [] h a = tt
Above-trans i j ((k, records) ∷ groups) h (p, a) =
    (lt_bytes_trans i j k h p, Above-trans i j groups h a)

lt_of_neither : (a b : Bytes) → bytes_eq a b ≡ false → lt_bytes b a ≡ false → lt_bytes a b ≡ true
lt_of_neither a b n h = ground (arith, lt_bytes_total a b, bytes_eq_iff a b)

add_record-Ordered :
    (key : Bytes) (r : Int64 × Int64) (groups : Groups)
    → Ordered groups
    → Ordered (add_record key r groups)
unfolding add_record
add_record-Ordered key r [] o = (tt, tt)
add_record-Ordered key r ((j, records) ∷ groups) (a, o) = elim (Bool-cases (bytes_eq j key)) [
  | inl e ↦ rw e (a, o)
  | inr n ↦ elim (Bool-cases (lt_bytes key j)) [
    | inl e ↦ rw (n, e) ((e, Above-trans key j groups e a), (a, o))
    | inr e ↦
        rw (n, e)
          (
            Above-add_record j key r groups (lt_of_neither j key n e) a,
            add_record-Ordered key r groups o,
          )
  ]
]

-- A new record joins the end of its group.
records_at-add_record :
    (k key : Bytes) (r : Int64 × Int64) (groups : Groups)
    → Ordered groups
    → records_at k (add_record key r groups)
      ≡ (if bytes_eq key k then records_at k groups ++ (r ∷ []) else records_at k groups)
unfolding records_at add_record
records_at-add_record k key r [] o = ground arith
records_at-add_record k key r ((j, records) ∷ groups) (a, o) = elim (Bool-cases (bytes_eq j key)) [
  | inl e ↦ ground (arith, bytes_eq_iff j key)
  | inr n ↦ elim (Bool-cases (lt_bytes key j)) [
    | inl e ↦ ground (
      arith,
      bytes_eq_iff j k,
      bytes_eq_iff key k,
      Above-records_at k key groups (Above-trans key j groups e a),
      lt_bytes_irrefl k,
    )
    | inr e ↦
        ground (arith, bytes_eq_iff j k, bytes_eq_iff key k, records_at-add_record k key r groups o)
  ]
]

pub gather-Ordered : (l : List Kv) (groups : Groups) → Ordered groups → Ordered (gather l groups)
unfolding gather
gather-Ordered [] groups o = o
gather-Ordered (kv ∷ l) groups o =
    gather-Ordered l _ (add_record-Ordered kv.key (kv.revision, kv.version) groups o)

pub records_at-gather :
    (k : Bytes) (l : List Kv) (groups : Groups)
    → Ordered groups
    → records_at k (gather l groups) ≡ records_at k groups ++ records_of k l
unfolding gather records_of
records_at-gather k [] groups o = sym (append-nil (records_at k groups))
records_at-gather k (kv ∷ l) groups o =
    let r : Int64 × Int64 = (kv.revision, kv.version) in
    let grown = add_record-Ordered kv.key r groups o in
    records_at-gather k l (add_record kv.key r groups) grown
    ∙ ap (λ x. x ++ records_of k l) (records_at-add_record k kv.key r groups o)
    ∙ (elim (Bool-cases (bytes_eq kv.key k)) [
      | inl e ↦ rw e (append_assoc (records_at k groups) (r ∷ []) (records_of k l))
      | inr n ↦ rw n refl
    ])

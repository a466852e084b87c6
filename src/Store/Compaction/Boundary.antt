-- ===== src/Store/Compaction/Boundary.antt =====
-- The revision up to which a compaction takes records away.
use configraft.Base.{
  ℕ, zero, suc, ◌-◌, ◌^◌, ◌≤◌, ◌<◌, ◌≡◌, refl, ap, ◌∙◌, true, false, Bool, ◌||◌, [], ◌∷◌, All,
  arith, if◌then◌else◌, Int64, slt, slt-ltb, Bool-cases, ◌⊎◌, inl, inr, length,
}
use configraft.Base.Bytes.{Bytes, bytes_eq, bytes_eq_refl}
use configraft.StoreKey.{version_key}
use configraft.StoreKey.Distinct.{version_slot, config_slot, slot_key-eq}
use configraft.Store.Compaction.Dropped.{gone, gone-append}
use configraft.Store.Scan.{Groups, Records, drop_records, drop_groups}

abbrev pub Fit : Int64 × Int64 → Type 0
Fit r = (r.0 < 2 ^ 63) × (r.1 < 2 ^ 64)

-- `if (rev > max_deleted_rev) max_deleted_rev = rev`
abbrev max_top : Int64 → Int64 → Int64
max_top top rev = if slt top rev then rev else top

max_top_lem :
    (top rev : Int64)
    → top < 2 ^ 63
    → rev < 2 ^ 63
    → (top ≤ max_top top rev) × (rev ≤ max_top top rev) × (max_top top rev < 2 ^ 63)
max_top_lem top rev a b = ground (arith, slt-ltb top rev a b)

max_top_cases : (top rev out : Int64) → out ≡ max_top top rev → (out ≡ top) ⊎ (out ≡ rev)
max_top_cases top rev out e = elim (Bool-cases (slt top rev)) [
  | inl h ↦ inr (cc (e, h))
  | inr h ↦ inl (cc (e, h))
]

or_right : (a b : Bool) → b ≡ true → (a || b) ≡ true
or_right true b h = refl
or_right false b h = h

or_left : (a b : Bool) → a ≡ true → (a || b) ≡ true
or_left a b h = rw h refl

version_key_refl :
    (key : Bytes) (a b : Int64) → b ≡ a → bytes_eq (version_key a key) (version_key b key) ≡ true
version_key_refl key a b e = rw e (bytes_eq_refl (version_key a key))

module _ (key : Bytes) where
  records_top :
      (excess : ℕ) (records : Records) (top : Int64)
      → top < 2 ^ 63
      → All Fit records
      → let out = drop_records key excess records top in (top ≤ out.1) × (out.1 < 2 ^ 63)
  unfolding drop_records
  records_top zero records top h a = (omega arith, h)
  records_top (suc excess) [] top h a = (omega arith, h)
  records_top (suc excess) ((rev, ver) ∷ records) top h ((q, v), a) =
      let (below, above, small) = max_top_lem top rev h q in
      let (rest, bound) = records_top excess records (max_top top rev) small a in
      (omega arith, bound)

  records_bound :
      (r : Int64) (k : Bytes) (excess : ℕ) (records : Records) (top : Int64)
      → r < 2 ^ 64
      → top < 2 ^ 63
      → All Fit records
      → let out = drop_records key excess records top in
        gone out.0 (version_key r k) ≡ true → r ≤ out.1
  unfolding drop_records
  records_bound r k zero records top w h a g = cc g
  records_bound r k (suc excess) [] top w h a g = cc g
  records_bound r k (suc excess) ((rev, ver) ∷ records) top w h ((q, v), a) g =
      let (below, above, small) = max_top_lem top rev h q in
      let (rest, bound) = records_top excess records (max_top top rev) small a in
      let ih = records_bound r k excess records (max_top top rev) w small a in
      ground (
        arith,
        slot_key-eq (version_slot rev key) (version_slot r k) (omega arith) w,
        slot_key-eq (config_slot key ver) (version_slot r k) v w,
      )

  records_attained :
      (excess : ℕ) (records : Records) (top : Int64)
      → let out = drop_records key excess records top in
        (out.1 ≡ top) ⊎ (gone out.0 (version_key out.1 key) ≡ true)
  unfolding drop_records
  records_attained zero records top = inl refl
  records_attained (suc excess) [] top = inl refl
  records_attained (suc excess) ((rev, ver) ∷ records) top =
      elim (records_attained excess records (max_top top rev)) [
        | inl e ↦ elim (max_top_cases top rev _ e) [
          | inl f ↦ inl f
          | inr f ↦ inr (or_left _ _ (version_key_refl key rev _ f))
        ]
        | inr g ↦ inr (or_right _ _ (or_right _ _ g))
      ]

pub groups_top :
    (n : ℕ) (groups : Groups) (top : Int64)
    → top < 2 ^ 63
    → All (λ g. All Fit g.1) groups
    → let out = drop_groups n groups top in (top ≤ out.1) × (out.1 < 2 ^ 63)
unfolding drop_groups
groups_top n [] top h a = (omega arith, h)
groups_top n ((key, records) ∷ groups) top h (p, a) =
    let (first, small) = records_top key (length records - n) records top h p in
    let (rest, bound) = groups_top n groups _ small a in (omega arith, bound)

-- No record that goes has a greater revision, and one of them has this one, unless it is the old.
pub groups_bound :
    (r : Int64) (k : Bytes) (n : ℕ) (groups : Groups) (top : Int64)
    → r < 2 ^ 64
    → top < 2 ^ 63
    → All (λ g. All Fit g.1) groups
    → let out = drop_groups n groups top in gone out.0 (version_key r k) ≡ true → r ≤ out.1
unfolding drop_groups
groups_bound r k n [] top w h a g = cc g
groups_bound r k n ((key, records) ∷ groups) top w h (p, a) g =
    let first = drop_records key (length records - n) records top in
    let (le, small) = records_top key (length records - n) records top h p in
    let (rest, bound) = groups_top n groups first.1 small a in
    ground (
      arith,
      gone-append first.0 (drop_groups n groups first.1).0 (version_key r k),
      records_bound key r k (length records - n) records top w h p,
      groups_bound r k n groups first.1 w small a,
    )

pub groups_attained :
    (n : ℕ) (groups : Groups) (top : Int64)
    → let out = drop_groups n groups top in
      (out.1 ≡ top) ⊎ ((k : Bytes) × (gone out.0 (version_key out.1 k) ≡ true))
unfolding drop_groups
groups_attained n [] top = inl refl
groups_attained n ((key, records) ∷ groups) top =
    let first = drop_records key (length records - n) records top in
    let rest = drop_groups n groups first.1 in
    elim (groups_attained n groups first.1) [
      | inl e ↦ elim (records_attained key (length records - n) records top) [
        | inl f ↦ inl (e ∙ f)
        | inr g ↦ inr (
          key,
          gone-append first.0 rest.0 (version_key rest.1 key)
              ∙ or_left _ _ (ap (λ r. gone first.0 (version_key r key)) e ∙ g),
        )
      ]
      | inr (k, g) ↦ inr (k, gone-append first.0 rest.0 (version_key rest.1 k) ∙ or_right _ _ g)
    ]

-- Nothing is deleted exactly if no record is counted.
records_none :
    (key : Bytes) (excess : ℕ) (records : Records) (top : Int64)
    → let out = drop_records key excess records top in out.2 ≡ 0 → out.0 ≡ []
unfolding drop_records
records_none key zero records top e = refl
records_none key (suc excess) [] top e = refl
records_none key (suc excess) ((rev, ver) ∷ records) top e = absurd (omega arith)

pub groups_none :
    (n : ℕ) (groups : Groups) (top : Int64)
    → let out = drop_groups n groups top in out.2 ≡ 0 → out.0 ≡ []
unfolding drop_groups
groups_none n [] top e = refl
groups_none n ((key, records) ∷ groups) top e =
    let first = drop_records key (length records - n) records top in
    rw
      (
        records_none key (length records - n) records top (omega arith),
        groups_none n groups first.1 (omega arith),
      )
      refl

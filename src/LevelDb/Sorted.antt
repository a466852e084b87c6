-- ===== src/LevelDb/Sorted.antt =====
-- Sorted lists of entries, which are what a LevelDB iterator yields.
use configraft.Base.{
  sym, ◌∙◌, subst, ◌≡◌, refl, ap₂, true, false, Option, none, some, List, [], ◌∷◌, inl, inr,
  Bool-cases, All, take_while, arith, if◌then◌else◌,
}
use configraft.Base.Bytes.{
  Bytes, bytes_eq, bytes_eq_iff, bytes_eq_comm, bytes_eq_refl, lt_bytes, lt_bytes_irrefl,
  lt_bytes_asymm, lt_bytes_trans, starts_with, starts_with-convex,
}

abbrev pub Entries : Type 0
Entries = List (Bytes × Bytes)

unfoldable pub lookup : Bytes → Entries → Option Bytes
lookup k [] = none
lookup k ((j, v) ∷ l) = if bytes_eq j k then some v else lookup k l

abbrev pub Above : Bytes → Entries → Type 0
Above k l = All (λ e. lt_bytes k e.0 ≡ true) l

-- Keys grow strictly.
abbrev pub IsSorted : Entries → Type 0
IsSorted [] = Unit {0}
IsSorted ((k, v) ∷ l) = Above k l × IsSorted l

-- A key that stands above another has no entry for that one.
pub Above-lookup :
    (k j : Bytes) (l : Entries) → Above j l → lt_bytes j k ≡ false → lookup k l ≡ none
unfolding lookup
Above-lookup k j [] a h = refl
Above-lookup k j ((i, v) ∷ l) (p, a) h = ground (arith, bytes_eq_iff i k, Above-lookup k j l a h)

pub Above-self : (k : Bytes) (l : Entries) → Above k l → lookup k l ≡ none
Above-self k l a = Above-lookup k k l a (lt_bytes_irrefl k)

-- An entry found above `j` has a key above `j`.
lt_of_lookup :
    (k j : Bytes) (l : Entries) {v : Bytes} → Above j l → lookup k l ≡ some v → lt_bytes j k ≡ true
lt_of_lookup k j l a h = elim (Bool-cases (lt_bytes j k)) [
  | inl below ↦ below
  | inr other ↦ ground (arith, Above-lookup k j l a other)
]

lookup-nil : (k : Bytes) → lookup k [] ≡ none
unfolding lookup
lookup-nil k = refl

lookup-head : (k v : Bytes) (l : Entries) → lookup k ((k, v) ∷ l) ≡ some v
unfolding lookup
lookup-head k v l = rw (bytes_eq_refl k)

lookup-tail :
    (k j v : Bytes) (l : Entries) → bytes_eq j k ≡ false → lookup k ((j, v) ∷ l) ≡ lookup k l
unfolding lookup
lookup-tail k j v l h = rw h

-- Sorted lists with the same values at every key have the same first key.
head_key :
    (j k v w : Bytes) (xs ys : Entries)
    → IsSorted ((j, v) ∷ xs)
    → IsSorted ((k, w) ∷ ys)
    → ((i : Bytes) → lookup i ((j, v) ∷ xs) ≡ lookup i ((k, w) ∷ ys))
    → bytes_eq j k ≡ true
head_key j k v w xs ys (ax, sx) (ay, sy) same = elim (Bool-cases (bytes_eq j k)) [
  | inl e ↦ e
  | inr n ↦
      let m : bytes_eq k j ≡ false = bytes_eq_comm k j ∙ n in
      let up : lt_bytes k j ≡ true =
        lt_of_lookup j k ys ay (sym (lookup-tail j k w ys m) ∙ sym (same j) ∙ lookup-head j v xs) in
      let down : lt_bytes j k ≡ true =
        lt_of_lookup k j xs ax (sym (lookup-tail k j v xs n) ∙ same k ∙ lookup-head k w ys) in
      cc (up, lt_bytes_asymm j k down)
]

tail_same :
    (j v w : Bytes) (xs ys : Entries)
    → Above j xs
    → Above j ys
    → ((i : Bytes) → lookup i ((j, v) ∷ xs) ≡ lookup i ((j, w) ∷ ys))
    → (i : Bytes) → lookup i xs ≡ lookup i ys
tail_same j v w xs ys ax ay same i = elim (Bool-cases (bytes_eq j i)) [
  | inl e ↦
      subst (λ i. lookup i xs ≡ lookup i ys) ((bytes_eq_iff j i).0 e)
        (Above-self j xs ax ∙ sym (Above-self j ys ay))
  | inr n ↦ sym (lookup-tail i j v xs n) ∙ same i ∙ lookup-tail i j w ys n
]

cons_unique :
    (j v w : Bytes) (xs ys : Entries)
    → Above j xs
    → (((i : Bytes) → lookup i xs ≡ lookup i ys) → xs ≡ ys)
    → Above j ys
    → ((i : Bytes) → lookup i ((j, v) ∷ xs) ≡ lookup i ((j, w) ∷ ys))
    → ◌≡◌ {A = Entries} ((j, v) ∷ xs) ((j, w) ∷ ys)
cons_unique j v w xs ys ax rest ay same =
    let values : v ≡ w = cc (lookup-head j v xs, same j, lookup-head j w ys) in
    ap₂ (λ u l. (j, u) ∷ l) values (rest (tail_same j v w xs ys ax ay same))

-- Sorted lists with the same value at every key are the same list.
pub sorted_unique :
    (xs ys : Entries)
    → IsSorted xs
    → IsSorted ys
    → ((k : Bytes) → lookup k xs ≡ lookup k ys)
    → xs ≡ ys
sorted_unique [] [] sx sy same = refl
sorted_unique [] ((k, w) ∷ ys) sx sy same = cc (same k, lookup-head k w ys, lookup-nil k)
sorted_unique ((j, v) ∷ xs) [] sx sy same = cc (same j, lookup-head j v xs, lookup-nil j)
sorted_unique ((j, v) ∷ xs) ((k, w) ∷ ys) (ax, sx) (ay, sy) same =
    subst
      (λ k.
        Above k ys
        → ((i : Bytes) → lookup i ((j, v) ∷ xs) ≡ lookup i ((k, w) ∷ ys))
        → ◌≡◌ {A = Entries} ((j, v) ∷ xs) ((k, w) ∷ ys))
      ((bytes_eq_iff j k).0 (head_key j k v w xs ys (ax, sx) (ay, sy) same))
      (cons_unique j v w xs ys ax (sorted_unique xs ys sx sy)) ay same

Above-trans : (j k : Bytes) (l : Entries) → lt_bytes j k ≡ true → Above k l → Above j l
Above-trans j k [] h a = tt
Above-trans j k ((i, v) ∷ l) h (p, a) = (lt_bytes_trans j k i h p, Above-trans j k l h a)

-- What an iterator has yielded when the loop over a prefix breaks.
abbrev pub prefixed : Bytes → Entries → Entries
prefixed p l = take_while (λ e. starts_with p e.0) l

Above-prefixed : (p k : Bytes) (l : Entries) → Above k l → Above k (prefixed p l)
Above-prefixed p k [] a = tt
Above-prefixed p k ((j, v) ∷ l) (h, a) = ground (arith, Above-prefixed p k l a)

pub IsSorted-prefixed : (p : Bytes) (l : Entries) → IsSorted l → IsSorted (prefixed p l)
IsSorted-prefixed p [] s = tt
IsSorted-prefixed p ((j, v) ∷ l) (a, s) =
    ground (arith, Above-prefixed p j l a, IsSorted-prefixed p l s)

-- Of a key that an entry does not have, a smaller entry tells that no prefixed key is lost.
not_prefixed :
    (p j k : Bytes)
    → lt_bytes j p ≡ false
    → starts_with p j ≡ false
    → starts_with p k ≡ true
    → lt_bytes j k ≡ false
not_prefixed p j k h n s = elim (Bool-cases (lt_bytes j k)) [
  | inl below ↦ cc (starts_with-convex p j k h below s)
  | inr other ↦ other
]

-- From `p` on, the entries before the break are the entries with the prefix `p`.
pub lookup-prefixed :
    (p k : Bytes) (l : Entries)
    → IsSorted l
    → All (λ e. lt_bytes e.0 p ≡ false) l
    → lookup k (prefixed p l) ≡ (if starts_with p k then lookup k l else none)
unfolding lookup
lookup-prefixed p k [] s f = ground arith
lookup-prefixed p k ((j, v) ∷ l) (a, s) (h, f) =
    ground (
      arith,
      lookup-prefixed p k l s f,
      bytes_eq_iff j k,
      not_prefixed p j k h,
      Above-lookup k j l a,
    )

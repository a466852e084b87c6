-- ===== src/StoreKey/Distinct.antt =====
-- The namespaces of the layout, and the keys within one.
use configraft.Base.{
  suc, ◌^◌, ◌<◌, ◌≡◌, refl, ap, ◌∙◌, sym, ◌≢◌, inl, inr, Bool-cases, append-nil, Bool, true, false,
  ◌&&◌, [], ◌∷◌, ◌++◌, ◌==◌, arith, Int64, length, length-append,
}
use configraft.Base.Bytes.{Bytes, bytes_eq, bytes_eq_iff}
use configraft.StoreKey.{
  revision_meta_key, compact_rev_key, main_key, version_key, config_key, encode_ord,
}
use configraft.StoreKey.Order.{bytes_eq-encode_ord}

length-encode_ord : (v : Int64) → length (encode_ord v) ≡ 16
unfolding encode_ord
length-encode_ord v = refl

bytes_eq-ne_length : (a b : Bytes) → length a ≢ length b → bytes_eq a b ≡ false
bytes_eq-ne_length a b h = elim (Bool-cases (bytes_eq a b)) [
  | inl same ↦ absurd (h (ap length ((bytes_eq_iff a b).0 same)))
  | inr other ↦ other
]

bytes_eq-ord :
    (a b : Int64) → a < 2 ^ 64 → b < 2 ^ 64 → bytes_eq (encode_ord a) (encode_ord b) ≡ (a == b)
unfolding bytes_eq
bytes_eq-ord a b ha hb = ground (
  arith,
  bytes_eq-encode_ord a b [] [] ha hb,
  append-nil (encode_ord a),
  append-nil (encode_ord b),
)

-- In front of strings of one length, two concatenations are equal exactly if their parts are.
bytes_eq-append :
    (a b s t : Bytes)
    → length s ≡ length t
    → bytes_eq (a ++ s) (b ++ t) ≡ (bytes_eq a b && bytes_eq s t)
unfolding bytes_eq
bytes_eq-append [] [] s t h = refl
bytes_eq-append [] (y ∷ b) s t h =
    bytes_eq-ne_length s (y ∷ (b ++ t)) (omega (arith, length-append b t))
bytes_eq-append (x ∷ a) [] s t h =
    bytes_eq-ne_length (x ∷ (a ++ s)) t (omega (arith, length-append a s))
bytes_eq-append (x ∷ a) (y ∷ b) s t h = ground (arith, bytes_eq-append a b s t)

pub main-main : (j k : Bytes) → bytes_eq (main_key j) (main_key k) ≡ bytes_eq j k
unfolding main_key bytes_eq
main-main j k = refl

pub version-version :
    (a b : Int64) (j k : Bytes)
    → a < 2 ^ 64
    → b < 2 ^ 64
    → bytes_eq (version_key a j) (version_key b k) ≡ ((a == b) && bytes_eq j k)
unfolding version_key bytes_eq
version-version a b j k ha hb = bytes_eq-encode_ord a b (b'/' ∷ j) (b'/' ∷ k) ha hb

pub config-config :
    (j k : Bytes) (a b : Int64)
    → a < 2 ^ 64
    → b < 2 ^ 64
    → bytes_eq (config_key j a) (config_key k b) ≡ (bytes_eq j k && (a == b))
unfolding config_key bytes_eq
config-config j k a b ha hb =
    bytes_eq-append j k (b'/' ∷ encode_ord a) (b'/' ∷ encode_ord b)
      (ap suc (length-encode_ord a ∙ sym (length-encode_ord b)))
    ∙ ap (λ e. bytes_eq j k && e) (bytes_eq-ord a b ha hb)

-- The records of the store, one constructor for each kind of key of the layout.
pub data Slot : Type 0 where
  revision_slot : Slot
  compact_slot : Slot
  main_slot : Bytes → Slot
  version_slot : Int64 → Bytes → Slot
  config_slot : Bytes → Int64 → Slot

abbrev pub slot_key : Slot → Bytes
slot_key revision_slot = revision_meta_key
slot_key compact_slot = compact_rev_key
slot_key (main_slot k) = main_key k
slot_key (version_slot r k) = version_key r k
slot_key (config_slot k v) = config_key k v

-- The numbers in a slot are 64-bit.
abbrev pub IsWord : Slot → Type 0
IsWord (version_slot r k) = r < 2 ^ 64
IsWord (config_slot k v) = v < 2 ^ 64
IsWord _ = Unit {0}

abbrev pub slot_eq : Slot → Slot → Bool
slot_eq revision_slot revision_slot = true
slot_eq compact_slot compact_slot = true
slot_eq (main_slot j) (main_slot k) = bytes_eq j k
slot_eq (version_slot a j) (version_slot b k) = (a == b) && bytes_eq j k
slot_eq (config_slot j a) (config_slot k b) = bytes_eq j k && (a == b)
slot_eq _ _ = false

-- Two LevelDB keys of the layout are equal exactly if they belong to the same record.
pub slot_key-eq :
    (s t : Slot) → IsWord s → IsWord t → bytes_eq (slot_key s) (slot_key t) ≡ slot_eq s t
unfolding main_key version_key config_key bytes_eq
slot_key-eq revision_slot revision_slot hs ht = refl
slot_key-eq compact_slot compact_slot hs ht = refl
slot_key-eq (main_slot j) (main_slot k) hs ht = main-main j k
slot_key-eq (version_slot a j) (version_slot b k) hs ht = version-version a b j k hs ht
slot_key-eq (config_slot j a) (config_slot k b) hs ht = config-config j k a b hs ht
slot_key-eq _ _ hs ht = refl

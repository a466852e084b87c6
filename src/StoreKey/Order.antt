-- ===== src/StoreKey/Order.antt =====
-- The byte order of the keys, beside the order of the numbers that `EncodeOrd` writes.
use configraft.Base.{◌^◌, ◌<◌, ◌≡◌, true, ◌&&◌, ◌++◌, ◌∷◌, ltb, ◌==◌, if◌then◌else◌, arith, Int64}
use configraft.Base.Bytes.{Bytes, lt_bytes, bytes_eq}
use configraft.StoreKey.{encode_ord, version_key}
use configraft.StoreKey.Digits.{lt_bytes-hex_fixed, bytes_eq-hex_fixed}

pub lt_bytes-encode_ord :
    (a b : Int64) (s t : Bytes)
    → a < 2 ^ 64
    → b < 2 ^ 64
    → lt_bytes (encode_ord a ++ s) (encode_ord b ++ t)
      ≡ (if ltb a b then true else (a == b) && lt_bytes s t)
unfolding encode_ord
lt_bytes-encode_ord a b s t ha hb = lt_bytes-hex_fixed 16 a b s t (omega arith) (omega arith)

pub bytes_eq-encode_ord :
    (a b : Int64) (s t : Bytes)
    → a < 2 ^ 64
    → b < 2 ^ 64
    → bytes_eq (encode_ord a ++ s) (encode_ord b ++ t) ≡ ((a == b) && bytes_eq s t)
unfolding encode_ord
bytes_eq-encode_ord a b s t ha hb = bytes_eq-hex_fixed 16 a b s t (omega arith) (omega arith)

-- In the byte order of LevelDB, history keys of revisions below 2 ^ 64 are ordered by revision
-- first and, among equal revisions, by key.
pub lt_bytes-version_key :
    (a b : Int64) (j k : Bytes)
    → a < 2 ^ 64
    → b < 2 ^ 64
    → lt_bytes (version_key a j) (version_key b k)
      ≡ (if ltb a b then true else (a == b) && lt_bytes j k)
unfolding version_key lt_bytes
lt_bytes-version_key a b j k ha hb = lt_bytes-encode_ord a b (b'/' ∷ j) (b'/' ∷ k) ha hb

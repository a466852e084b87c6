-- ===== src/StoreKey/RoundTrip.antt =====
-- The codecs of the keys and counters: what is read after a write.
use configraft.Base.{
  ℕ, zero, suc, ◌/◌, ◌%◌, ◌^◌, ◌<◌, ◌≡◌, ap, ◌∙◌, none, some, [], ◌∷◌, arith, Int64, is_negative,
  ◌-◌, if◌then◌else◌,
}
use Prim.Native.Nat.add
use native.Mathlib.Nat.{pow-suc}
use configraft.Base.Bytes.{Bytes}
use configraft.StoreKey.{
  encode_ord, decode_ord, hex_digit, read_hex, skip_base, hex_number, in_range, encode_loop,
  decode_loop, encode_uint64, decode_uint64,
}
use configraft.StoreKey.Digits.{
  hex_value-hex_digit, is_space-hex_digit, hex_digit_plain, read_hex-hex_fixed,
}

-- The parser of `std::stoll` on a digit that is followed by digits: no space, sign or base.
signed_number-digits :
    (d e : ℕ) (s : Bytes)
    → d < 16
    → e < 16
    → let hex = hex_digit d ∷ hex_digit e ∷ s in
      decode_ord hex ≡ in_range (2 ^ 63 - 1) (some (read_hex hex 0))
unfolding decode_ord skip_base hex_number
signed_number-digits d e [] hd he =
    ground (arith, is_space-hex_digit d, hex_digit_plain d, hex_value-hex_digit d)
signed_number-digits d e (c ∷ s) hd he =
    ground
      (arith, is_space-hex_digit d, hex_digit_plain d, hex_digit_plain e, hex_value-hex_digit d)

in_range-signed :
    (v : ℕ) → v < 2 ^ 64 → in_range (2 ^ 63 - 1) (some v) ≡ (if is_negative v then none else some v)
unfolding in_range
in_range-signed v h = ground arith

-- `DecodeOrd` returns what `EncodeOrd` was given if that is not negative as an int64_t. The digits of
-- a negative value are those of its bit pattern, and `DecodeOrd` throws on them.
pub decode_ord-encode_ord :
    (v : Int64) → v < 2 ^ 64 → decode_ord (encode_ord v) ≡ (if is_negative v then none else some v)
unfolding encode_ord
decode_ord-encode_ord v h =
    signed_number-digits (v / 16 ^ 15) (v % 16 ^ 15 / 16 ^ 14) _ (omega arith) (omega arith)
    ∙ ap (λ n. in_range (2 ^ 63 - 1) (some n))
        (read_hex-hex_fixed 16 v 0 (omega arith) ∙ add.zero v)
    ∙ in_range-signed v h

pub decode_ord-encode_ord_plain : (v : Int64) → v < 2 ^ 63 → decode_ord (encode_ord v) ≡ some v
decode_ord-encode_ord_plain v h = decode_ord-encode_ord v (omega arith) ∙ ground arith

decode_loop-encode_loop :
    (i v : ℕ) (out : Bytes)
    → v < 256 ^ i
    → v < 2 ^ 64
    → decode_loop (encode_loop i v out) 0 ≡ decode_loop out v
unfolding encode_loop decode_loop
decode_loop-encode_loop zero v out h k = ap (decode_loop out) (omega arith)
decode_loop-encode_loop (suc i) v out h k =
    decode_loop-encode_loop i (v / 256) (v % 256 ∷ out) (omega (arith, pow-suc 256 i)) (omega arith)
    ∙ ap (decode_loop out) (omega arith)

-- `DecodeUint64` returns what `EncodeUint64` was given.
pub decode_uint64-encode_uint64 : (v : ℕ) → v < 2 ^ 64 → decode_uint64 (encode_uint64 v) ≡ v
unfolding decode_uint64 encode_uint64
decode_uint64-encode_uint64 v h = decode_loop-encode_loop 8 v [] (omega arith) h

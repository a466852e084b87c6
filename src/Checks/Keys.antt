-- ===== src/Checks/Keys.antt =====
-- The key layout at concrete keys.
use configraft.Base.{
  ◌≡◌, refl, true, false, none, some, arith, ◌-◌, ◌^◌, is_negative, if◌then◌else◌,
}
use configraft.Base.Bytes.{codes, bytes_eq, lt_bytes}
use configraft.StoreKey.{
  version_key, encode_ord, decode_ord, encode_uint64, decode_uint64, hex_digit, config_key,
}
use configraft.StoreKey.Order.{lt_bytes-version_key}
use configraft.StoreKey.RoundTrip.{decode_ord-encode_ord, decode_uint64-encode_uint64}
use configraft.StoreKey.Distinct.{slot_key-eq, config_slot}

-- Revision 9 stands before revision 16, whatever the keys.
lt_bytes-version_key_example :
    lt_bytes (version_key 9 (codes "z")) (version_key 16 (codes "a")) ≡ true
lt_bytes-version_key_example =
    lt_bytes-version_key 9 16 (codes "z") (codes "a") (omega arith) (omega arith)

-- DecodeOrd throws on what EncodeOrd writes for -1.
decode_ord-encode_ord_example :
    decode_ord (encode_ord (2 ^ 64 - 1))
    ≡ (if is_negative (2 ^ 64 - 1) then none else some (2 ^ 64 - 1))
decode_ord-encode_ord_example = decode_ord-encode_ord (2 ^ 64 - 1) (omega arith)

decode_uint64-encode_uint64_example : decode_uint64 (encode_uint64 1000) ≡ 1000
decode_uint64-encode_uint64_example = decode_uint64-encode_uint64 1000 (omega arith)

-- A key with a slash in it does not meet the published record of a shorter key.
slot_key-eq_example : bytes_eq (config_key (codes "app/db") 1) (config_key (codes "app") 1) ≡ false
unfolding bytes_eq
slot_key-eq_example =
    slot_key-eq (config_slot (codes "app/db") 1) (config_slot (codes "app") 1) (omega arith)
      (omega arith)

encode_ord_run : encode_ord 48879 ≡ codes "000000000000beef"
unfolding encode_ord hex_digit
encode_ord_run = refl

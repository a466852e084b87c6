-- ===== src/StoreKey.antt =====
-- src/common/storekey.h, src/common/storekey.cpp: the layout of the LevelDB keys and the codecs in them.
mod Digits
pub mod Order
pub mod RoundTrip
pub mod Distinct
use configraft.Base.{
  ℕ, zero, suc, ◌+◌, ◌*◌, ◌/◌, ◌%◌, ◌^◌, Bool, true, false, ◌&&◌, ◌||◌, Option, none, some, List,
  [], ◌∷◌, ◌++◌, leb, ◌==◌, if◌then◌else◌, Int64, length, take, ltb, is_negative, sign_bit, ◌-◌,
}
use configraft.Base.Bytes.{Bytes, codes}

abbrev pub revision_meta_key : Bytes
revision_meta_key = codes "meta/revision"

abbrev pub compact_rev_key : Bytes
compact_rev_key = codes "meta/compact_rev"

abbrev pub main_prefix : Bytes
main_prefix = codes "k/"

abbrev pub version_prefix : Bytes
version_prefix = codes "v/"

abbrev pub config_prefix : Bytes
config_prefix = codes "cfg/"

-- A lower-case hexadecimal digit.
unfoldable pub hex_digit : ℕ → ℕ
hex_digit n = if leb 10 n then n + 87 else n + 48

-- `n` digits of a value below 16 ^ n, the highest first.
pub hex_fixed : ℕ → ℕ → Bytes
hex_fixed zero v = []
hex_fixed (suc n) v = hex_digit (v / 16 ^ n) ∷ hex_fixed n (v % 16 ^ n)

-- `snprintf("%016llx")`, 16 digits.
unfoldable pub encode_ord : Int64 → Bytes
unfolding hex_fixed
encode_ord v = hex_fixed 16 v

pub hex_value : ℕ → Option ℕ
hex_value c =
    if leb b'0' c && leb c b'9'
    then some (c - 48)
    else if leb b'a' c && leb c b'f'
    then some (c - 87)
    else if leb b'A' c && leb c b'F'
    then some (c - 55)
    else none

-- The value of the hexadecimal digits in front, behind those of `acc`.
pub read_hex : Bytes → ℕ → ℕ
read_hex [] acc = acc
read_hex (c ∷ s) acc = elim (hex_value c) [ none ↦ acc | some d ↦ read_hex s (acc * 16 + d) ]

pub is_space : ℕ → Bool
is_space c = c == 32 || leb 9 c && leb c 13

pub skip_spaces : Bytes → Bytes
unfolding is_space
skip_spaces [] = []
skip_spaces (c ∷ s) = let rest = skip_spaces s in if is_space c then rest else c ∷ s

pub is_hex : ℕ → Bool
unfolding hex_value
is_hex c = elim (hex_value c) [ none ↦ false | some d ↦ true ]

-- A prefix `0x` that digits follow.
pub skip_base : Bytes → Bytes
unfolding is_hex
skip_base (z ∷ x ∷ d ∷ s) =
    if z == b'0' && (x == b'x' || x == b'X') && is_hex d then d ∷ s else z ∷ x ∷ d ∷ s
skip_base s = s

pub hex_number : Bytes → Option ℕ
unfolding is_hex read_hex hex_value
hex_number [] = none
hex_number (c ∷ s) = if is_hex c then some (read_hex (c ∷ s) 0) else none

pub in_range : ℕ → Option ℕ → Option Int64
in_range bound none = none
in_range bound (some n) = if leb n bound then some n else none

pub negate : Option Int64 → Option Int64
negate none = none
negate (some n) = some ((2 ^ 64 - n) % 2 ^ 64)

pub signed_number : Bytes → Option Int64
unfolding skip_base hex_number in_range negate
signed_number [] = none
signed_number (c ∷ s) =
    if c == b'-'
    then negate (in_range (2 ^ 63) (hex_number (skip_base s)))
    else if c == b'+'
    then in_range (2 ^ 63 - 1) (hex_number (skip_base s))
    else in_range (2 ^ 63 - 1) (hex_number (skip_base (c ∷ s)))

-- `std::stoll(hex, nullptr, 16)`; `none` is its exception.
unfoldable pub decode_ord : Bytes → Option Int64
unfolding skip_spaces signed_number
decode_ord hex = signed_number (skip_spaces hex)

-- The loop of `EncodeUint64`, which fills the string from its end.
pub encode_loop : ℕ → ℕ → Bytes → Bytes
encode_loop zero v out = out
encode_loop (suc i) v out = encode_loop i (v / 256) (v % 256 ∷ out)

unfoldable pub encode_uint64 : ℕ → Bytes
unfolding encode_loop
encode_uint64 v = encode_loop 8 v []

-- `v = (v << 8) | byte`: the low byte of the shifted value is 0, so the two add up.
pub decode_loop : Bytes → ℕ → ℕ
decode_loop [] v = v
decode_loop (b ∷ s) v = decode_loop s ((v * 256 + b % 256) % 2 ^ 64)

unfoldable pub decode_uint64 : Bytes → ℕ
unfolding decode_loop
decode_uint64 s = if ltb (length s) 8 then 0 else decode_loop (take 8 s) 0

unfoldable pub main_key : Bytes → Bytes
main_key key = main_prefix ++ key

unfoldable pub version_key : Int64 → Bytes → Bytes
version_key revision key = version_prefix ++ (encode_ord revision ++ (b'/' ∷ key))

unfoldable pub config_key : Bytes → Int64 → Bytes
config_key key version = config_prefix ++ (key ++ (b'/' ∷ encode_ord version))

-- ===== src/StoreKey/Digits.antt =====
-- Digits of `EncodeOrd`: what the order, the equality and the parser see of them.
use configraft.Base.{
  ℕ, zero, suc, ◌+◌, ◌*◌, ◌/◌, ◌%◌, ◌^◌, ◌<◌, ◌≡◌, ap, ◌∙◌, ◌∷◌, true, false, ◌&&◌, some, ◌++◌, ltb,
  ◌==◌, if◌then◌else◌, arith,
}
use native.Mathlib.Nat.{
  pow-suc as pow-suc', one-le-pow, lt-mul-div-succ, mul-le-mul_left, mul-div-le, div-add-mod,
  div-lt_iff_lt-mul, mod-lt,
}
use configraft.Base.Bytes.{Bytes, bytes_eq, lt_bytes}
use configraft.StoreKey.{hex_digit, hex_fixed, hex_value, read_hex, is_space}

hex_digit-lt : (a b : ℕ) → ltb (hex_digit a) (hex_digit b) ≡ ltb a b
unfolding hex_digit
hex_digit-lt a b = ground arith

hex_digit-eq : (a b : ℕ) → (hex_digit a == hex_digit b) ≡ (a == b)
unfolding hex_digit
hex_digit-eq a b = ground arith

pub hex_value-hex_digit : (d : ℕ) → d < 16 → hex_value (hex_digit d) ≡ some d
unfolding hex_digit hex_value
hex_value-hex_digit d h = ground arith

pub is_space-hex_digit : (d : ℕ) → is_space (hex_digit d) ≡ false
unfolding hex_digit is_space
is_space-hex_digit d = ground arith

pub hex_digit_plain :
    (d : ℕ)
    → d < 16
    → ((hex_digit d == b'-') ≡ false)
      × ((hex_digit d == b'+') ≡ false)
      × ((hex_digit d == b'x') ≡ false)
      × ((hex_digit d == b'X') ≡ false)
unfolding hex_digit
hex_digit_plain d h = ground arith

pub pow-pos : (n : ℕ) → 0 < 16 ^ n
pow-pos n = one-le-pow n 16 (omega arith)

div-lt : (p a b : ℕ) → 0 < p → a / p < b / p → a < b
div-lt p a b h q = omega (arith, lt-mul-div-succ a h, mul-le-mul_left p q, mul-div-le b p)

eq_of_split : (p a b : ℕ) → a / p ≡ b / p → a % p ≡ b % p → a ≡ b
eq_of_split p a b q r = cc (div-add-mod a p, div-add-mod b p)

lt_of_split : (p a b : ℕ) → a / p ≡ b / p → a % p < b % p → a < b
lt_of_split p a b q r = omega (arith, div-add-mod a p, div-add-mod b p, ap (λ (t : ℕ). p * t) q)

split-lt :
    (p a b : ℕ)
    → 0 < p
    → ltb a b ≡ (if ltb (a / p) (b / p) then true else (a / p == b / p) && ltb (a % p) (b % p))
split-lt p a b h =
    ground (
      arith,
      div-lt p a b h,
      div-lt p b a h,
      eq_of_split p a b,
      lt_of_split p a b,
      lt_of_split p b a,
    )

split-eq : (p a b : ℕ) → (a == b) ≡ ((a / p == b / p) && (a % p == b % p))
split-eq p a b = ground (arith, eq_of_split p a b)

-- One digit more: the quotient is below 16 and the remainder below the smaller power.
digit_bounds : (n v : ℕ) → v < 16 ^ suc n → (v / 16 ^ n < 16) × (v % 16 ^ n < 16 ^ n)
digit_bounds n v h =
    ((div-lt_iff_lt-mul (pow-pos n)).1 (omega (arith, pow-suc' 16 n)), mod-lt v (pow-pos n))

-- The digits compare as the numbers do, and what follows them decides among equals.
pub lt_bytes-hex_fixed :
    (n a b : ℕ) (s t : Bytes)
    → a < 16 ^ n
    → b < 16 ^ n
    → lt_bytes (hex_fixed n a ++ s) (hex_fixed n b ++ t)
      ≡ (if ltb a b then true else (a == b) && lt_bytes s t)
unfolding hex_fixed lt_bytes
lt_bytes-hex_fixed zero a b s t ha hb = ground arith
lt_bytes-hex_fixed (suc n) a b s t ha hb = ground (
  arith,
  pow-pos n,
  hex_digit-lt (a / 16 ^ n) (b / 16 ^ n),
  hex_digit-eq (a / 16 ^ n) (b / 16 ^ n),
  split-lt (16 ^ n) a b,
  split-eq (16 ^ n) a b,
  digit_bounds n a,
  digit_bounds n b,
  lt_bytes-hex_fixed n (a % 16 ^ n) (b % 16 ^ n) s t,
)

pub bytes_eq-hex_fixed :
    (n a b : ℕ) (s t : Bytes)
    → a < 16 ^ n
    → b < 16 ^ n
    → bytes_eq (hex_fixed n a ++ s) (hex_fixed n b ++ t) ≡ ((a == b) && bytes_eq s t)
unfolding hex_fixed bytes_eq
bytes_eq-hex_fixed zero a b s t ha hb = ground arith
bytes_eq-hex_fixed (suc n) a b s t ha hb = ground (
  arith,
  pow-pos n,
  hex_digit-eq (a / 16 ^ n) (b / 16 ^ n),
  split-eq (16 ^ n) a b,
  digit_bounds n a,
  digit_bounds n b,
  bytes_eq-hex_fixed n (a % 16 ^ n) (b % 16 ^ n) s t,
)

read_hex-hex_digit :
    (d acc : ℕ) (s : Bytes) → d < 16 → read_hex (hex_digit d ∷ s) acc ≡ read_hex s (acc * 16 + d)
unfolding read_hex
read_hex-hex_digit d acc s h = rw (hex_value-hex_digit d h, read_hex)

shift_digit : (p q r v acc : ℕ) → p * q + r ≡ v → (acc * 16 + q) * p + r ≡ acc * (p * 16) + v
shift_digit p q r v acc e = omega arith

-- The parser reads the digits back behind those that it has.
pub read_hex-hex_fixed :
    (n v acc : ℕ) → v < 16 ^ n → read_hex (hex_fixed n v) acc ≡ acc * 16 ^ n + v
unfolding hex_fixed read_hex
read_hex-hex_fixed zero v acc h = omega arith
read_hex-hex_fixed (suc n) v acc h =
    let (hq, hr) = digit_bounds n v h in
    read_hex-hex_digit (v / 16 ^ n) acc (hex_fixed n (v % 16 ^ n)) hq
    ∙ read_hex-hex_fixed n (v % 16 ^ n) (acc * 16 + v / 16 ^ n) hr
    ∙ rw (pow-suc' 16 n)
        (shift_digit (16 ^ n) (v / 16 ^ n) (v % 16 ^ n) v acc (div-add-mod v (16 ^ n)))

-- ===== src/Base/Bytes.antt =====
-- Byte strings (`std::string`, `leveldb::Slice`): their equality, prefixes and the order of bytes.
use Prim.Native.Char.{code}
use Prim.Native.String.{String}
use Prim.Native.Nat.{ℕ}
use mathlib.Core.Path.{◌≡◌, refl}
use mathlib.Core.Logic.{◌↔◌}
use mathlib.Core.Bool.{Bool, true, false, ◌&&◌}
use mathlib.Core.List.{List, [], ◌∷◌, ◌++◌}
use native.Mathlib.Omega.{arith}
use configraft.Base.Tests.{ltb, ◌==◌, if◌then◌else◌}

abbrev pub Bytes : Type 0
Bytes = List ℕ

-- The bytes of an ASCII text.
abbrev pub codes : String → Bytes
codes String.[] = []
codes (String.◌∷◌ c s) = code c ∷ codes s

unfoldable pub bytes_eq : Bytes → Bytes → Bool
bytes_eq [] [] = true
bytes_eq [] (y ∷ b) = false
bytes_eq (x ∷ a) [] = false
bytes_eq (x ∷ a) (y ∷ b) = x == y && bytes_eq a b

-- `starts_with p s`: the string `s` begins with `p`.
unfoldable pub starts_with : Bytes → Bytes → Bool
starts_with [] s = true
starts_with (x ∷ p) [] = false
starts_with (x ∷ p) (y ∷ s) = x == y && starts_with p s

-- The bytewise order by which LevelDB sorts its keys.
unfoldable pub lt_bytes : Bytes → Bytes → Bool
lt_bytes a [] = false
lt_bytes [] (y ∷ b) = true
lt_bytes (x ∷ a) (y ∷ b) = let rest = lt_bytes a b in if ltb x y then true else x == y && rest

pub bytes_eq_iff : (a b : Bytes) → (bytes_eq a b ≡ true) ↔ (a ≡ b)
unfolding bytes_eq
bytes_eq_iff [] [] = ground arith
bytes_eq_iff [] (y ∷ b) = ground arith
bytes_eq_iff (x ∷ a) [] = ground arith
bytes_eq_iff (x ∷ a) (y ∷ b) = ground (arith, bytes_eq_iff a b)

pub bytes_eq_refl : (a : Bytes) → bytes_eq a a ≡ true
bytes_eq_refl a = (bytes_eq_iff a a).1 refl

pub bytes_eq_comm : (a b : Bytes) → bytes_eq a b ≡ bytes_eq b a
bytes_eq_comm a b = ground (arith, bytes_eq_iff a b, bytes_eq_iff b a)

pub lt_bytes_irrefl : (a : Bytes) → lt_bytes a a ≡ false
unfolding lt_bytes
lt_bytes_irrefl [] = refl
lt_bytes_irrefl (x ∷ a) = ground (arith, lt_bytes_irrefl a)

pub lt_bytes_asymm : (a b : Bytes) → lt_bytes a b ≡ true → lt_bytes b a ≡ false
unfolding lt_bytes
lt_bytes_asymm a [] h = ground arith
lt_bytes_asymm [] (y ∷ b) h = refl
lt_bytes_asymm (x ∷ a) (y ∷ b) h = ground (arith, lt_bytes_asymm a b)

pub lt_bytes_trans :
    (a b c : Bytes) → lt_bytes a b ≡ true → lt_bytes b c ≡ true → lt_bytes a c ≡ true
unfolding lt_bytes
lt_bytes_trans a [] c h k = ground arith
lt_bytes_trans a (y ∷ b) [] h k = ground arith
lt_bytes_trans [] (y ∷ b) (z ∷ c) h k = refl
lt_bytes_trans (x ∷ a) (y ∷ b) (z ∷ c) h k = ground (arith, lt_bytes_trans a b c)

-- Of two different strings one is the smaller.
pub lt_bytes_total : (a b : Bytes) → lt_bytes a b ≡ false → lt_bytes b a ≡ false → a ≡ b
unfolding lt_bytes
lt_bytes_total [] [] h k = refl
lt_bytes_total [] (y ∷ b) h k = ground arith
lt_bytes_total (x ∷ a) [] h k = ground arith
lt_bytes_total (x ∷ a) (y ∷ b) h k = ground (arith, lt_bytes_total a b)

-- The strings with a given prefix form an interval.
pub starts_with-convex :
    (p a b : Bytes)
    → lt_bytes a p ≡ false
    → lt_bytes a b ≡ true
    → starts_with p b ≡ true
    → starts_with p a ≡ true
unfolding lt_bytes starts_with
starts_with-convex [] a b h k s = refl
starts_with-convex (x ∷ p) [] b h k s = ground arith
starts_with-convex (x ∷ p) (y ∷ a) [] h k s = ground arith
starts_with-convex (x ∷ p) (y ∷ a) (z ∷ b) h k s = ground (arith, starts_with-convex p a b)

-- A common front does not matter to the order.
pub lt_bytes-append : (p a b : Bytes) → lt_bytes (p ++ a) (p ++ b) ≡ lt_bytes a b
unfolding lt_bytes
lt_bytes-append [] a b = refl
lt_bytes-append (x ∷ p) a b = ground (arith, lt_bytes-append p a b)

pub starts_with-append : (p s : Bytes) → starts_with p (p ++ s) ≡ true
unfolding starts_with
starts_with-append [] s = refl
starts_with-append (x ∷ p) s = ground (arith, starts_with-append p s)

-- ===== src/Service/Numbers.antt =====
-- The numbers in a query.
use configraft.Base.{
  ℕ, ◌+◌, ◌-◌, ◌*◌, ◌%◌, ◌^◌, ◌<◌, ◌≡◌, refl, ap, sym, ◌∙◌, true, false, ◌&&◌, Option, none, some,
  List, [], ◌∷◌, ◌++◌, map, All, length, leb, if◌then◌else◌, arith, Int64, ◌==◌,
}
use native.Mathlib.Omega.{pow_step}
use configraft.Base.Bytes.{Bytes}
use configraft.Service.{HttpRequest}
use configraft.Service.Rest

-- The decimal text of digits, and the number that they mean.
abbrev pub digits : List ℕ → Bytes
digits ds = map (λ d. d + 48) ds

unfoldable pub decimal : List ℕ → ℕ
decimal [] = 0
decimal (d ∷ ds) = d * 10 ^ length ds + decimal ds

-- A text that no digit begins.
abbrev pub NoDigit : Bytes → Type 0
NoDigit [] = Unit {0}
NoDigit (c ∷ s) = (leb b'0' c && leb c b'9') ≡ false

decimal_loop_end : (s : Bytes) (acc : ℕ) → NoDigit s → Rest.decimal_loop s acc ≡ acc
unfolding Rest.decimal_loop
decimal_loop_end [] acc h = refl
decimal_loop_end (c ∷ s) acc h = rw h refl

next_digit : (acc d p v : ℕ) → (acc * 10 + d) * p + v ≡ acc * (10 * p) + (d * p + v)
next_digit acc d p v = grind arith

digit_test : (d : ℕ) → d < 10 → (leb b'0' (d + 48) && leb (d + 48) b'9') ≡ true
digit_test d h = ground arith

digit_value : (d : ℕ) → d + 48 - 48 ≡ d
digit_value d = omega arith

decimal_loop-digits :
    (ds : List ℕ) (rest : Bytes) (acc : ℕ)
    → All (λ d. d < 10) ds
    → NoDigit rest
    → Rest.decimal_loop (digits ds ++ rest) acc ≡ acc * 10 ^ length ds + decimal ds
unfolding Rest.decimal_loop decimal
decimal_loop-digits [] rest acc h e = decimal_loop_end rest acc e ∙ omega arith
decimal_loop-digits (d ∷ ds) rest acc (q, h) e =
    rw (digit_test d q, digit_value d)
      (decimal_loop-digits ds rest (acc * 10 + d) h e
        ∙ next_digit acc d (10 ^ length ds) (decimal ds)
        ∙ ap (λ (p : ℕ). acc * p + (d * 10 ^ length ds + decimal ds))
            (sym (pow_step 10 (length ds))))

number-digits :
    (d : ℕ) (ds : List ℕ) (rest : Bytes)
    → All (λ d. d < 10) (d ∷ ds)
    → NoDigit rest
    → Rest.decimal_loop (digits (d ∷ ds) ++ rest) 0 ≡ decimal (d ∷ ds)
number-digits d ds rest h e = decimal_loop-digits (d ∷ ds) rest 0 h e ∙ omega arith

-- The bit patterns of the nearest 64-bit integers to a number and to its negation.
abbrev pub nearest : ℕ → Int64
nearest n = if leb (2 ^ 63) n then 2 ^ 63 - 1 else n

abbrev pub nearest_negative : ℕ → Int64
nearest_negative n = if leb (2 ^ 63) n then 2 ^ 63 else (2 ^ 64 - n) % 2 ^ 64

no_blank : (d : ℕ) → d < 10 → Rest.is_blank (d + 48) ≡ false
unfolding Rest.is_blank
no_blank d h = ground arith

no_sign : (d : ℕ) → d < 10 → ((d + 48 == b'-') ≡ false) × ((d + 48 == b'+') ≡ false)
no_sign d h = (ground arith, ground arith)

parse_int64-digits :
    (d : ℕ) (ds : List ℕ) (rest : Bytes)
    → All (λ d. d < 10) (d ∷ ds)
    → NoDigit rest
    → Rest.parse_int64 (digits (d ∷ ds) ++ rest) ≡ nearest (decimal (d ∷ ds))
unfolding Rest.parse_int64 Rest.skip_blanks Rest.signed_decimal Rest.positive_number
parse_int64-digits d ds rest (q, h) e =
    rw (no_blank d q, (no_sign d q).0, (no_sign d q).1)
      (ap nearest (number-digits d ds rest (q, h) e))

parse_int64-minus :
    (d : ℕ) (ds : List ℕ) (rest : Bytes)
    → All (λ d. d < 10) (d ∷ ds)
    → NoDigit rest
    → Rest.parse_int64 (b'-' ∷ (digits (d ∷ ds) ++ rest)) ≡ nearest_negative (decimal (d ∷ ds))
unfolding Rest.parse_int64 Rest.skip_blanks Rest.signed_decimal Rest.negative_number Rest.is_blank
parse_int64-minus d ds rest h e = ap nearest_negative (number-digits d ds rest h e)

-- A request whose URL has the parameter `value` under every name, or none.
abbrev pub with_query : HttpRequest → Option Bytes → HttpRequest
with_query http value = record http { queries = λ name. value }

-- A parameter of the URL that is a decimal numeral, with or without a minus and whatever follows the
-- digits, is read as the 64-bit integer that is nearest to its value; a parameter that is absent or
-- empty is read as the default.
pub query_int64-decimal :
    (http : HttpRequest) (name : Bytes) (dflt : Int64) (d : ℕ) (ds : List ℕ) (rest : Bytes)
    → All (λ d. d < 10) (d ∷ ds)
    → NoDigit rest
    → let text = digits (d ∷ ds) ++ rest in
      (Rest.query_int64 (with_query http (some text)) name dflt ≡ nearest (decimal (d ∷ ds)))
      × (Rest.query_int64 (with_query http (some (b'-' ∷ text))) name dflt
          ≡ nearest_negative (decimal (d ∷ ds)))
      × (Rest.query_int64 (with_query http none) name dflt ≡ dflt)
      × (Rest.query_int64 (with_query http (some [])) name dflt ≡ dflt)
unfolding Rest.query_int64
query_int64-decimal http name dflt d ds rest h e =
    (parse_int64-digits d ds rest h e, parse_int64-minus d ds rest h e, refl, refl)

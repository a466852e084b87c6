-- ===== src/Base/Waiting.antt =====
-- Loops that read the clock and sleep, and calls that return.
use configraft.Base.{
  ℕ, ◌+◌, ◌^◌, ◌≤◌, ◌<◌, ◌≡◌, not, false, Option, some, List, [], ◌∷◌, Int64, slt, arith,
}

-- Times that a loop reads when it sleeps for at least `step` in each round.
abbrev pub Paced : ℕ → ℕ → List Int64 → Type 0
Paced step t [] = Unit {0}
Paced step t (now ∷ times) = (t ≤ now) × (now < 2 ^ 63) × Paced step (now + step) times

-- A call that returned.
abbrev pub Returns {ℓ} : {A : Type ℓ} → Option A → Type ℓ
Returns {A} o = (a : A) × (o ≡ some a)

-- A time that is not past the deadline.
pub early :
    (now deadline : ℕ)
    → now < 2 ^ 63
    → deadline < 2 ^ 63
    → not (slt now deadline) ≡ false
    → now < deadline
early now deadline hn hd h = ground arith

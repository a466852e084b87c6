-- ===== src/Server/Action.antt =====
-- A function with state that returns early: the steps of Init.
use configraft.Base.{Bool, true, false}
use configraft.Base.Bytes.{Bytes}

-- How a step ends: it goes on with a value, returns false with `*err`, or throws.
pub data Exit (A : Type 0) : Type 0 where
  goes_on : A → Exit A
  fails : Bytes → Exit A
  throws : Exit A

abbrev pub Action : Type 0 → Type 0 → Type 0
Action S A = S → S × Exit A

abbrev pub pure : {S A : Type 0} → A → Action S A
pure a s = (s, goes_on a)

infixl 5 ◌>>=◌ ◌>>◌
abbrev pub ◌>>=◌ : {S A B : Type 0} → Action S A → (A → Action S B) → Action S B
◌>>=◌ m f s =
    let (s', r) = m s in
    elim r [ goes_on a ↦ f a s' | fails err ↦ (s', fails err) | throws ↦ (s', throws) ]

abbrev pub ◌>>◌ : {S A B : Type 0} → Action S A → Action S B → Action S B
m >> k = m >>= λ _. k

abbrev pub modify : {S : Type 0} → (S → S) → Action S (Unit {0})
modify f s = (f s, goes_on tt)

-- Returns false with the message unless the test holds.
abbrev pub check : {S : Type 0} → Bool → Bytes → Action S (Unit {0})
check true err s = (s, goes_on tt)
check false err s = (s, fails err)

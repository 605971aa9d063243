-- ===== src/Common/Outcome.antt =====
-- The outcome of a kernel function: a value, a panic, or no return at all.
use mathlib.Core.Bool.{Bool, true, false}

-- `panic` is a failed ASSERT or REQUIRE. `diverges` is a spin that nothing ends, and what a loop
-- answers when the fuel of the model is used up.
pub data Result {ℓ} (A : Type ℓ) : Type ℓ where
  ok : A → Result A
  panic : Result A
  diverges : Result A

infixl 5 ◌>>=◌ ◌>>◌
abbrev pub ◌>>=◌ {ℓ κ} : {A : Type ℓ} {B : Type κ} → Result A → (A → Result B) → Result B
ok a >>= f = f a
panic >>= f = panic
diverges >>= f = diverges

abbrev pub ◌>>◌ {ℓ} : {B : Type ℓ} → Result (Unit {0}) → Result B → Result B
m >> k = m >>= λ _. k

-- ASSERT and REQUIRE (lib/assert.h).
abbrev pub assert : Bool → Result (Unit {0})
assert true = ok tt
assert false = panic

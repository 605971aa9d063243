-- ===== src/Common/Word/Bits.antt =====
-- The bits of `bit_and` and `bit_or`.
use Prim.Native.Nat.{
  ℕ, zero, suc, ◌+◌, ◌-◌, ◌*◌, ◌/◌, ◌%◌, ◌^◌, ◌≤◌, ◌<◌, min, max, bit_and, bit_or, digits,
  bit_and-bitwise, bit_or-bitwise,
}
use mathlib.Core.Path.{◌≡◌, refl, ap, ap₂, ◌∙◌, sym}
use native.Mathlib.Nat.{pow-suc, one-le-pow, div-div-eq-div-mul, div-add-mod, mul_comm}
use native.Mathlib.Omega.{arith}

-- A digit-wise operation: any count of digits that covers the first number gives the same.
module _ (pad : ℕ → ℕ) (op : ℕ → ℕ → ℕ) where
  covered : (n m a b : ℕ) → a ≤ n → n ≤ m → digits pad op m a b ≡ digits pad op n a b
  covered zero zero a b le more = refl
  covered zero (suc m) zero b le more = refl
  covered zero (suc m) (suc a) b le more = absurd (omega arith)
  covered (suc n) zero a b le more = absurd (omega arith)
  covered (suc n) (suc m) zero b le more = refl
  covered (suc n) (suc m) (suc a) b le more =
      ap (λ (t : ℕ). t * 2 + op (suc a % 2) (b % 2))
        (covered n m (suc a / 2) (b / 2) (omega arith) (omega arith))

  -- The lowest digit, where a number that has run out goes on as zeros.
  lowest_digit :
      ((b : ℕ) → pad b ≡ pad (b / 2) * 2 + op 0 (b % 2))
      → (a b : ℕ)
      → digits pad op a a b ≡ digits pad op (a / 2) (a / 2) (b / 2) * 2 + op (a % 2) (b % 2)
  lowest_digit unroll zero b = unroll b
  lowest_digit unroll (suc a) b =
      ap (λ (t : ℕ). t * 2 + op (suc a % 2) (b % 2))
        (covered (suc a / 2) a (suc a / 2) (b / 2) (omega arith) (omega arith))

pub bit_and_step : (a b : ℕ) → bit_and a b ≡ bit_and (a / 2) (b / 2) * 2 + min (a % 2) (b % 2)
bit_and_step a b = omega (
  arith,
  bit_and-bitwise a b,
  bit_and-bitwise (a / 2) (b / 2),
  lowest_digit (λ t. 0) min (λ t. omega arith) a b,
)

pub bit_or_step : (a b : ℕ) → bit_or a b ≡ bit_or (a / 2) (b / 2) * 2 + max (a % 2) (b % 2)
bit_or_step a b = omega (
  arith,
  bit_or-bitwise a b,
  bit_or-bitwise (a / 2) (b / 2),
  lowest_digit (λ t. t) max (λ t. omega arith) a b,
)

-- Bit `k` of a word.
abbrev pub bit_at : ℕ → ℕ → ℕ
bit_at x k = x / 2 ^ k % 2

div-pow-suc : (x k : ℕ) → x / 2 ^ suc k ≡ x / 2 / 2 ^ k
div-pow-suc x k =
    ap (λ (t : ℕ). x / t) (pow-suc 2 k ∙ mul_comm (2 ^ k) 2) ∙ sym (div-div-eq-div-mul x 2 (2 ^ k))

pub bit_at-suc : (x k : ℕ) → bit_at x (suc k) ≡ bit_at (x / 2) k
bit_at-suc x k = ap (λ (t : ℕ). t % 2) (div-pow-suc x k)

-- An operation that works digit by digit commutes with taking a bit.
module _ (word op : ℕ → ℕ → ℕ)
    (step : (a b : ℕ) → word a b ≡ word (a / 2) (b / 2) * 2 + op (a % 2) (b % 2))
    (digit : (a b : ℕ) → op (a % 2) (b % 2) < 2) where
  bit_at_each : (k a b : ℕ) → bit_at (word a b) k ≡ op (bit_at a k) (bit_at b k)
  bit_at_each zero a b =
      omega (arith, step a b, digit a b)
      ∙ ap₂ op {x = a % 2} {y = bit_at a 0} {u = b % 2} {v = bit_at b 0} (omega arith) (omega arith)
  bit_at_each (suc k) a b =
      bit_at-suc (word a b) k
      ∙ ap (λ (t : ℕ). bit_at t k) (omega (arith, step a b, digit a b))
      ∙ bit_at_each k (a / 2) (b / 2)
      ∙ ap₂ op (sym (bit_at-suc a k)) (sym (bit_at-suc b k))

pub bit_at-bit_and : (a b k : ℕ) → bit_at (bit_and a b) k ≡ min (bit_at a k) (bit_at b k)
bit_at-bit_and a b k = bit_at_each bit_and min bit_and_step (λ x y. omega arith) k a b

pub bit_at-bit_or : (a b k : ℕ) → bit_at (bit_or a b) k ≡ max (bit_at a k) (bit_at b k)
bit_at-bit_or a b k = bit_at_each bit_or max bit_or_step (λ x y. omega arith) k a b

no_digits : (n a : ℕ) → digits (λ b. 0) min n a 0 ≡ 0
no_digits zero a = refl
no_digits (suc n) zero = refl
no_digits (suc n) (suc a) = omega (arith, no_digits n (suc a / 2))

pub bit_and-zero : (a : ℕ) → bit_and a 0 ≡ 0
bit_and-zero a = bit_and-bitwise a 0 ∙ no_digits a a

pub mod_double : (a m : ℕ) → a % (2 * m) ≡ a / 2 % m * 2 + a % 2
mod_double a m = omega (
  arith,
  div-add-mod a (2 * m),
  div-add-mod (a / 2) m,
  ap (λ (t : ℕ). m * t) (div-div-eq-div-mul a 2 m),
)

-- A mask of the `k` low bits is the remainder by `2 ^ k`.
pub bit_and_mask : (k a : ℕ) → bit_and a (2 ^ k - 1) ≡ a % 2 ^ k
bit_and_mask zero a = omega (arith, bit_and-zero a)
bit_and_mask (suc k) a = omega (
  arith,
  bit_and_step a (2 ^ suc k - 1),
  pow-suc 2 k,
  one-le-pow k 2,
  halved,
  bit_and_mask k (a / 2),
  mod_double a (2 ^ k),
  doubled,
)
  where
    halved : bit_and (a / 2) ((2 ^ suc k - 1) / 2) ≡ bit_and (a / 2) (2 ^ k - 1)
    halved = ap (bit_and (a / 2)) (omega (arith, pow-suc 2 k, one-le-pow k 2))

    doubled : a % 2 ^ suc k ≡ a % (2 * 2 ^ k)
    doubled = ap (λ (t : ℕ). a % t) (omega (arith, pow-suc 2 k))

-- A mask with its `k` low bits clear.
pub bit_and_high : (k m a : ℕ) → bit_and a (m * 2 ^ k) ≡ bit_and (a / 2 ^ k) m * 2 ^ k
bit_and_high zero m a = omega (arith, by_one)
  where
    by_one : bit_and a (m * 2 ^ 0) ≡ bit_and (a / 2 ^ 0) m
    by_one = ap₂ bit_and {x = a} {y = a / 2 ^ 0} {u = m * 2 ^ 0} {v = m} (omega arith) (omega arith)
bit_and_high (suc k) m a = omega (
  arith,
  bit_and_step a (m * 2 ^ suc k),
  halved,
  doubled,
  bit_and_high k m (a / 2),
  shifted,
  ap (λ (t : ℕ). t * (2 ^ suc k)) shifted,
  ap (λ (t : ℕ). bit_and (a / 2 / 2 ^ k) m * t) (pow-suc 2 k),
)
  where
    doubled : m * 2 ^ suc k ≡ 2 * (m * 2 ^ k)
    doubled = omega (arith, ap (λ (t : ℕ). m * t) (pow-suc 2 k))

    halved : bit_and (a / 2) (m * 2 ^ suc k / 2) ≡ bit_and (a / 2) (m * 2 ^ k)
    halved = ap (bit_and (a / 2)) (omega (arith, doubled))

    shifted : bit_and (a / 2 ^ suc k) m ≡ bit_and (a / 2 / 2 ^ k) m
    shifted = ap (λ (t : ℕ). bit_and t m) (div-pow-suc a k)

-- A disjunction, cut at bit `k`.
pub bit_or_cut :
    (k a b : ℕ)
    → bit_or a b ≡ bit_or (a / 2 ^ k) (b / 2 ^ k) * 2 ^ k + bit_or (a % 2 ^ k) (b % 2 ^ k)
bit_or_cut zero a b = omega (arith, whole, ends)
  where
    whole : bit_or (a / 2 ^ 0) (b / 2 ^ 0) ≡ bit_or a b
    whole = ap₂ bit_or {x = a / 2 ^ 0} {y = a} {u = b / 2 ^ 0} {v = b} (omega arith) (omega arith)

    ends : bit_or (a % 2 ^ 0) (b % 2 ^ 0) ≡ 0
    ends = ap₂ bit_or {x = a % 2 ^ 0} {y = 0} {u = b % 2 ^ 0} {v = 0} (omega arith) (omega arith)
bit_or_cut (suc k) a b = omega (
  arith,
  bit_or_step a b,
  bit_or_cut k (a / 2) (b / 2),
  bit_or_step (a % 2 ^ suc k) (b % 2 ^ suc k),
  pow-suc 2 k,
  ap₂ bit_or (div-pow-suc a k) (div-pow-suc b k),
  ap (λ (t : ℕ). t * 2 ^ suc k) (ap₂ bit_or (div-pow-suc a k) (div-pow-suc b k)),
  ap (λ (t : ℕ). bit_or (a / 2 / 2 ^ k) (b / 2 / 2 ^ k) * t) (pow-suc 2 k),
  low a,
  low b,
  ap₂ bit_or {x = a % 2 ^ suc k / 2} {y = a / 2 % 2 ^ k} {u = b % 2 ^ suc k / 2} {v = b / 2 % 2 ^ k}
      (omega (arith, low a)) (omega (arith, low b)),
)
  where
    low : (x : ℕ) → x % 2 ^ suc k ≡ x / 2 % 2 ^ k * 2 + x % 2
    low x = ap (λ (t : ℕ). x % t) (omega (arith, pow-suc 2 k)) ∙ mod_double x (2 ^ k)

pub zero-bit_or : (b : ℕ) → bit_or 0 b ≡ b
zero-bit_or b = bit_or-bitwise 0 b

pub bit_or-zero : (a : ℕ) → bit_or a 0 ≡ a
bit_or-zero a = bit_or-bitwise a 0 ∙ kept a a (omega arith)
  where
    kept : (n a : ℕ) → a ≤ n → digits (λ b. b) max n a 0 ≡ a
    kept zero zero le = refl
    kept zero (suc a) le = absurd (omega arith)
    kept (suc n) zero le = refl
    kept (suc n) (suc a) le = omega (arith, kept n (suc a / 2) (omega arith))

-- ===== src/Common/Word/Count.antt =====
-- The compiler's `__builtin_ctz` and `__builtin_clzl`, with their documented results.
use Prim.Native.Nat.{ℕ, zero, suc, ◌+◌, ◌-◌, ◌*◌, ◌/◌, ◌%◌, ◌^◌, ◌≤◌, ◌<◌}
use mathlib.Core.Path.{◌≡◌, ap, ◌∙◌}
use mathlib.Core.Logic.{◌≢◌}
use native.Mathlib.Nat.{pow-suc}
use native.Mathlib.Omega.{arith}
use swink.Common.Tests.{◌==◌, if◌then◌else◌}
use swink.Common.Word.Bits.{mod_double}

-- The number of trailing zero bits among the `w` low bits; undefined in C at 0, where this is `w`.
unfoldable pub ctz : ℕ → ℕ → ℕ
ctz zero x = 0
ctz (suc w) x = if x % 2 == 0 then suc (ctz w (x / 2)) else 0

-- The number of significant bits, in a word of `w` bits.
unfoldable pub bit_length : ℕ → ℕ → ℕ
bit_length zero x = 0
bit_length (suc w) x = if x == 0 then 0 else suc (bit_length w (x / 2))

-- The number of leading zero bits of a 64-bit word.
abbrev pub clzl : ℕ → ℕ
clzl x = 64 - bit_length 64 x

double : (x k : ℕ) → x % 2 ^ suc k ≡ x / 2 % 2 ^ k * 2 + x % 2
double x k = ap (λ (t : ℕ). x % t) (omega (arith, pow-suc 2 k)) ∙ mod_double x (2 ^ k)

-- A number with `k` trailing zeros is a multiple of `2 ^ k`.
pub ctz-mod : (w k x : ℕ) → k ≤ ctz w x → x % 2 ^ k ≡ 0
unfolding ctz
ctz-mod w zero x h = omega arith
ctz-mod zero (suc k) x h = absurd (omega arith)
ctz-mod (suc w) (suc k) x h = ground (arith, double x k, ctz-mod w k (x / 2))

-- And a multiple of no higher power, if it does not vanish among the `w` bits.
pub ctz_maximal : (w k x : ℕ) → ctz w x < k → k ≤ w → x % 2 ^ k ≢ 0
unfolding ctz
ctz_maximal w zero x h le = absurd (omega arith)
ctz_maximal zero (suc k) x h le = absurd (omega arith)
ctz_maximal (suc w) (suc k) x h le = ground (arith, double x k, ctz_maximal w k (x / 2))

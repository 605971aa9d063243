-- ===== src/Testing/Sweeps/Counts.antt =====
-- The counts of the loops of multi_sweep, and how often a page is in their blocks.
use swink.Common.{
  ℕ, zero, suc, ◌+◌, ◌-◌, ◌/◌, ◌≤◌, ◌<◌, ◌≡◌, List, [], ◌∷◌, Bool, true, ◌&&◌, ◌==◌, leb, ltb,
  arith, count, count-cons,
}
use swink.Pmap.{page_size}
use swink.Pfa.Ledger.{within}
use swink.Testing.Sweeps.{upward, downward}

-- How often a page is in the blocks of these counts.
unfoldable pub owners : List ℕ → (ℕ → ℕ) → ℕ → ℕ
owners [] addrs x = 0
owners (n ∷ counts) addrs x = within (addrs (n - 1) / page_size) n x + owners counts addrs x

-- Different counts from 1 to 31.
unfoldable pub are_counts : List ℕ → Bool
are_counts [] = true
are_counts (n ∷ counts) = (count n counts == 0) && (ltb 0 n && (leb n 31 && are_counts counts))

pub are_counts-cons :
    (n : ℕ) (counts : List ℕ)
    → are_counts (n ∷ counts) ≡ true
    → (count n counts ≡ 0) × (0 < n) × (n ≤ 31) × (are_counts counts ≡ true)
unfolding are_counts
are_counts-cons n counts h = ground arith

pub count-upward : (k from n : ℕ) → from ≤ n → n < from + k → 0 < count n (upward k from)
unfolding upward
count-upward zero from n lo hi = omega arith
count-upward (suc k) from n lo hi =
    ground (arith, count-cons n from (upward k (from + 1)), count-upward k (from + 1) n)

pub count-downward : (k n : ℕ) → 0 < n → n ≤ k → 0 < count n (downward k)
unfolding downward
count-downward zero n lo hi = omega arith
count-downward (suc k) n lo hi =
    ground (arith, count-cons n (suc k) (downward k), count-downward k n)

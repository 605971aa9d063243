-- ===== src/Pfa/Init/Bounds.antt =====
-- Every slot that the allocator reads or writes lies in its level's bitmap.
use swink.Common.{ℕ, ◌+◌, ◌*◌, ◌%◌, ◌^◌, ◌≤◌, ◌<◌, ◌≡◌, arith}
use swink.Pfa.Levels.{buddy_levels}
use swink.Pfa.Levels.Bounds.{by_level}
use swink.Pfa.State.{buddy_bitmap_page_index}
use swink.Pfa.Init.{bitmap_slots}

-- Where the managed pages end at page 2 ^ 20 or before, the slot that holds the bit of a managed
-- page is within the bitmap that initialisation sizes for its level.
pub page_index_lt :
    (base page_count p k : ℕ)
    → k < buddy_levels
    → base ≤ p
    → p < base + page_count
    → base + page_count ≤ 2 ^ 20
    → buddy_bitmap_page_index base p k < bitmap_slots page_count k
unfolding buddy_bitmap_page_index bitmap_slots
page_index_lt base page_count p k lt lo hi small =
    by_level (λ k. buddy_bitmap_page_index base p k < bitmap_slots page_count k) (omega arith)
      (omega arith) (omega arith) (omega arith) (omega arith) (omega arith) k lt

-- Where the first managed page is a multiple of 32 and the managed pages end at page 2 ^ 20 or
-- before, the slot of a right buddy below the top level that begins no later than the managed pages
-- end, though it may reach past them, is within the bitmap that initialisation sizes for its level.
pub buddy_index_lt :
    (base page_count p k : ℕ)
    → k < 5
    → base % 32 ≡ 0
    → base ≤ p
    → p ≤ base + page_count
    → base + page_count ≤ 2 ^ 20
    → p % (2 * 2 ^ k) ≡ 2 ^ k
    → buddy_bitmap_page_index base p k < bitmap_slots page_count k
unfolding buddy_bitmap_page_index bitmap_slots
buddy_index_lt base page_count p k lt al lo hi small =
    by_level
      (λ k.
        k < 5
        → p % (2 * 2 ^ k) ≡ 2 ^ k
        → buddy_bitmap_page_index base p k < bitmap_slots page_count k)
      (λ a b. omega arith) (λ a b. omega arith) (λ a b. omega arith) (λ a b. omega arith)
      (λ a b. omega arith) (λ a b. absurd (omega arith)) k (omega arith) lt

-- ===== src/Pfa/Levels/Buddies.antt =====
-- Buddies: the two halves of an entry one level up.
use swink.Common.{ℕ, ◌+◌, ◌-◌, ◌*◌, ◌/◌, ◌%◌, ◌^◌, ◌<◌, ◌≡◌, ◌⊎◌, arith}
use swink.Common.Word.{bit_and_mask, bit_and_high}
use swink.Pfa.Levels.{buddy_levels, get_buddy_page_id_for_page, get_root_buddy_page_id_for_page}
use swink.Pfa.Levels.Bounds.{by_level}

-- The mask clears the low bits of the page id.
pub root-eq-sub-mod :
    (page k : ℕ)
    → k < 5
    → page < 2 ^ 32
    → get_root_buddy_page_id_for_page page k ≡ page - page % 2 ^ (k + 1)
unfolding get_root_buddy_page_id_for_page
root-eq-sub-mod page k lt small =
    by_level (λ k. k < 5 → get_root_buddy_page_id_for_page page k ≡ page - page % 2 ^ (k + 1))
      (λ _. omega (arith, bit_and_high 1 (2 ^ 31 - 1) page, bit_and_mask 31 (page / 2)))
      (λ _. omega (arith, bit_and_high 2 (2 ^ 30 - 1) page, bit_and_mask 30 (page / 4)))
      (λ _. omega (arith, bit_and_high 3 (2 ^ 29 - 1) page, bit_and_mask 29 (page / 8)))
      (λ _. omega (arith, bit_and_high 4 (2 ^ 28 - 1) page, bit_and_mask 28 (page / 16)))
      (λ _. omega (arith, bit_and_high 5 (2 ^ 27 - 1) page, bit_and_mask 27 (page / 32)))
      (λ h. absurd (omega arith)) k (omega arith) lt

-- For a page below 2 ^ 31 and any level there is, the buddy of the page's buddy is the page.
pub buddy-buddy :
    (page k : ℕ)
    → k < buddy_levels
    → page < 2 ^ 31
    → get_buddy_page_id_for_page (get_buddy_page_id_for_page page k) k ≡ page
unfolding get_buddy_page_id_for_page
buddy-buddy page k lt small =
    by_level (λ k. get_buddy_page_id_for_page (get_buddy_page_id_for_page page k) k ≡ page)
      (ground arith) (ground arith) (ground arith) (ground arith) (ground arith) (ground arith) k lt

-- What an entry, its buddy and their root have to do with one another.
abbrev pub AreHalves : ℕ → ℕ → ℕ → ℕ → Type 0
AreHalves k page buddy root =
    (root % (2 * 2 ^ k) ≡ 0)
    × (((page ≡ root) × (buddy ≡ root + 2 ^ k)) ⊎ ((page ≡ root + 2 ^ k) × (buddy ≡ root)))

-- For a page below 2 ^ 31 that is aligned for a level below the top one, the root is aligned for
-- the next level, and the page and its buddy are the two halves of the entry at the root, one the
-- left and the other the right.
pub buddy-AreHalves :
    (page k : ℕ)
    → k < 5
    → page < 2 ^ 31
    → page % 2 ^ k ≡ 0
    → AreHalves k page (get_buddy_page_id_for_page page k) (get_root_buddy_page_id_for_page page k)
unfolding get_buddy_page_id_for_page
buddy-AreHalves page k lt small al =
    by_level
      (λ k.
        k < 5
        → page % 2 ^ k ≡ 0
        → AreHalves k page (get_buddy_page_id_for_page page k)
            (get_root_buddy_page_id_for_page page k))
      (λ below divides. ground (arith, root-eq-sub-mod page 0))
      (λ below divides. ground (arith, root-eq-sub-mod page 1))
      (λ below divides. ground (arith, root-eq-sub-mod page 2))
      (λ below divides. ground (arith, root-eq-sub-mod page 3))
      (λ below divides. ground (arith, root-eq-sub-mod page 4)) (λ h. absurd (omega arith)) k
      (omega arith) lt al

-- Both halves of an entry are aligned, and the right one by no more.
pub halves_aligned :
    (k root : ℕ)
    → k < 5
    → root % (2 * 2 ^ k) ≡ 0
    → (root % 2 ^ k ≡ 0)
      × ((root + 2 ^ k) % 2 ^ k ≡ 0)
      × ((root + 2 ^ k) % (2 * 2 ^ k) ≡ 2 ^ k)
      × (root % 2 ^ (k + 1) ≡ 0)
halves_aligned k root lt =
    by_level
      (λ k.
        root % (2 * 2 ^ k) ≡ 0
        → (root % 2 ^ k ≡ 0)
          × ((root + 2 ^ k) % 2 ^ k ≡ 0)
          × ((root + 2 ^ k) % (2 * 2 ^ k) ≡ 2 ^ k)
          × (root % 2 ^ (k + 1) ≡ 0))
      (λ a. omega arith) (λ a. omega arith) (λ a. omega arith) (λ a. omega arith) (λ a. omega arith)
      (λ a. omega arith) k (omega arith)

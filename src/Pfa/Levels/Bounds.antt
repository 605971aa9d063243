-- ===== src/Pfa/Levels/Bounds.antt =====
-- What the level and page arithmetic of pmap_pfa.c computes.
use swink.Common.{
  ℕ, zero, suc, ◌+◌, ◌-◌, ◌*◌, ◌%◌, ◌^◌, ◌≤◌, ◌<◌, min, true, ◌≡◌, refl, ◌≢◌, ◌⊎◌, inl, inr, arith,
  leb, holds_below, holds_below-holds, Bool-cases, leb→le, ℕ_discrete, ◌↔◌, dec_le,
}
use swink.Common.Word.Count.{ctz, ctz-mod, ctz_maximal, clzl, bit_length}
use native.Mathlib.Nat.{zero-mod}
use swink.Pmap.{page_size}
use swink.Pfa.Levels.{
  buddy_levels, buddy_level_page_count, size_to_page_count, max_buddy_level_for_page_alignment,
  min_buddy_level_for_size_no_overflow, min_buddy_level_for_size,
}

-- Split on a level.
pub by_level {ℓ} :
    (P : ℕ → Type ℓ) → P 0 → P 1 → P 2 → P 3 → P 4 → P 5 → (k : ℕ) → k < buddy_levels → P k
by_level P p0 p1 p2 p3 p4 p5 zero h = p0
by_level P p0 p1 p2 p3 p4 p5 (suc zero) h = p1
by_level P p0 p1 p2 p3 p4 p5 (suc (suc zero)) h = p2
by_level P p0 p1 p2 p3 p4 p5 (suc (suc (suc zero))) h = p3
by_level P p0 p1 p2 p3 p4 p5 (suc (suc (suc (suc zero)))) h = p4
by_level P p0 p1 p2 p3 p4 p5 (suc (suc (suc (suc (suc zero))))) h = p5
by_level P p0 p1 p2 p3 p4 p5 (suc (suc (suc (suc (suc (suc k)))))) h = absurd (omega arith)

pub size_to_page_count_lem :
    (size : ℕ)
    → size ≤ 2 ^ 40
    → (size ≤ size_to_page_count size * page_size)
      × (size_to_page_count size * page_size < size + page_size)
unfolding size_to_page_count
size_to_page_count_lem size h = omega arith

pub max_level-lt : (page : ℕ) → max_buddy_level_for_page_alignment page < buddy_levels
unfolding max_buddy_level_for_page_alignment
max_level-lt page = ground arith

pub max_level_le-ctz :
    (page k : ℕ) → page ≢ 0 → k ≤ max_buddy_level_for_page_alignment page → k ≤ ctz 32 page
unfolding max_buddy_level_for_page_alignment
max_level_le-ctz page k nz h = ground arith

-- Every level up to that of the page's alignment divides the page id.
pub max_level-mod : (page k : ℕ) → k ≤ max_buddy_level_for_page_alignment page → page % 2 ^ k ≡ 0
max_level-mod page k h = elim (ℕ_discrete page 0) [
  | yes z ↦ rw z (zero-mod (2 ^ k))
  | no nz ↦ ctz-mod 32 k page (max_level_le-ctz page k nz h)
]

pub max_level_maximal :
    (page k : ℕ) → max_buddy_level_for_page_alignment page < k → k < buddy_levels → page % 2 ^ k ≢ 0
unfolding max_buddy_level_for_page_alignment
max_level_maximal page k h lt = ctz_maximal 32 k page (ground arith) (omega arith)

-- A level, one of the six, is at most the highest one for a page's alignment exactly when the page
-- id is a multiple of the level's size.
pub max_level_iff :
    (page k : ℕ)
    → k < buddy_levels
    → (k ≤ max_buddy_level_for_page_alignment page) ↔ (page % 2 ^ k ≡ 0)
max_level_iff page k lt = (
  max_level-mod page k,
  λ divides. elim (dec_le k (max_buddy_level_for_page_alignment page)) [
    | yes le ↦ le
    | no above ↦ absurd (max_level_maximal page k (omega arith) lt divides)
  ],
)

-- For at least one page's bytes, the level that holds a size without extra bytes is one of the six,
-- its entries are not longer than the size, and it is the top level or the entries of the next one
-- are longer.
pub no_overflow_fits :
    (size : ℕ)
    → page_size ≤ size
    → (min_buddy_level_for_size_no_overflow size < buddy_levels)
      × (2 ^ min_buddy_level_for_size_no_overflow size * page_size ≤ size)
      × ((min_buddy_level_for_size_no_overflow size ≡ 5)
          ⊎ (size < 2 ^ (min_buddy_level_for_size_no_overflow size + 1) * page_size))
unfolding min_buddy_level_for_size_no_overflow
no_overflow_fits size h = ground arith

min_level_table : holds_below 33 (λ c. leb c (2 ^ min 5 (64 - clzl c))) ≡ true
unfolding holds_below bit_length
min_level_table = refl

-- For at most 32 pages, the level that the search for an entry starts from is one of the six, and
-- its entries have at least the pages asked for.
pub min_level_fits :
    (size : ℕ)
    → size ≤ page_size * 2 ^ 5
    → (size_to_page_count size ≤ 2 ^ min_buddy_level_for_size size)
      × (min_buddy_level_for_size size < buddy_levels)
unfolding min_buddy_level_for_size
min_level_fits size h = elim (Bool-cases (leb size page_size)) [
  | inl small ↦
      rw small
        (omega (arith, size_to_page_count_lem size, leb→le size page_size small), omega arith)
  | inr large ↦ rw large (
    leb→le _ _ (
        holds_below-holds 33 _ (size_to_page_count size) min_level_table
          (omega (arith, size_to_page_count_lem size))),
    omega arith,
  )
]

pub pow_small : (k : ℕ) → k < buddy_levels → (0 < 2 ^ k) × (2 ^ k ≤ 32)
pow_small k lt =
    by_level (λ k. (0 < 2 ^ k) × (2 ^ k ≤ 32)) (omega arith) (omega arith) (omega arith)
      (omega arith) (omega arith) (omega arith) k lt

pub buddy_level_page_count_lem : (k : ℕ) → k < buddy_levels → buddy_level_page_count k ≡ 2 ^ k
unfolding buddy_level_page_count
buddy_level_page_count_lem k lt = omega (arith, pow_small k lt)

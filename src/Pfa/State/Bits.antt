-- ===== src/Pfa/State/Bits.antt =====
-- The bitmaps as a map from entries, a page on a level, to their free bit.
use swink.Common.{
  ℕ, ◌%◌, ◌^◌, ◌≤◌, ◌<◌, ◌≡◌, ◌≢◌, arith, ◌&&◌, ◌==◌, if◌then◌else◌, ℕ_discrete, subst, sym,
}
use swink.Common.Word.{sub32, shr, bit_and_mask}
use swink.Pfa.Levels.{buddy_levels}
use swink.Pfa.Levels.Bounds.{by_level}
use swink.Pfa.State.{set_bit, get_bit, buddy_bitmap_page_index, buddy_bitmap_page_offset}
use swink.Pfa.State.Slots.{get_slot_bit_lem, get_slot_bit-set_slot_bit}

pub offset_lem : (base p k : ℕ) → buddy_bitmap_page_offset base p k ≡ shr (sub32 p base) k % 64
unfolding buddy_bitmap_page_offset
offset_lem base p k = bit_and_mask 6 (shr (sub32 p base) k)

-- A page that can be the first of an entry on the level.
abbrev pub Starts : ℕ → ℕ → ℕ → Type 0
Starts base k p = (base ≤ p) × (p < 2 ^ 32) × (p % 2 ^ k ≡ 0)

-- Two entries of a level never share a bit.
same_bit :
    (base p q k : ℕ)
    → k < buddy_levels
    → base % 32 ≡ 0
    → Starts base k p
    → Starts base k q
    → buddy_bitmap_page_index base p k ≡ buddy_bitmap_page_index base q k
    → buddy_bitmap_page_offset base p k ≡ buddy_bitmap_page_offset base q k
    → p ≡ q
unfolding buddy_bitmap_page_index
same_bit base p q k lt al sp sq si so =
    by_level
      (λ k.
        Starts base k p
        → Starts base k q
        → buddy_bitmap_page_index base p k ≡ buddy_bitmap_page_index base q k
        → shr (sub32 p base) k % 64 ≡ shr (sub32 q base) k % 64
        → p ≡ q)
      (λ a b c d. omega arith) (λ a b c d. omega arith) (λ a b c d. omega arith)
      (λ a b c d. omega arith) (λ a b c d. omega arith) (λ a b c d. omega arith) k lt sp sq si
      (omega (arith, so, offset_lem base p k, offset_lem base q k))

get_bit-set_bit_level :
    (base : ℕ) (bitmaps : ℕ → ℕ → ℕ) (p k v q : ℕ)
    → base % 32 ≡ 0
    → k < buddy_levels
    → Starts base k p
    → Starts base k q
    → v < 2
    → get_bit base (set_bit base bitmaps p k v) q k
      ≡ (if p == q then v else get_bit base bitmaps q k)
unfolding get_bit set_bit
get_bit-set_bit_level base bitmaps p k v q al lt sp sq hv = elim (ℕ_discrete p q) [
  | yes same ↦ ground (
    arith,
    get_slot_bit-set_slot_bit (bitmaps k (buddy_bitmap_page_index base p k))
        (buddy_bitmap_page_offset base p k) (buddy_bitmap_page_offset base p k) v,
    offset_lem base p k,
  )
  | no apart ↦ ground (
    arith,
    same_bit base p q k lt al sp sq,
    get_slot_bit-set_slot_bit (bitmaps k (buddy_bitmap_page_index base p k))
        (buddy_bitmap_page_offset base p k) (buddy_bitmap_page_offset base q k) v,
    offset_lem base p k,
    offset_lem base q k,
  )
]

get_bit-set_bit_other :
    (base : ℕ) (bitmaps : ℕ → ℕ → ℕ) (p k v q j : ℕ)
    → k ≢ j
    → get_bit base (set_bit base bitmaps p k v) q j ≡ get_bit base bitmaps q j
unfolding get_bit set_bit
get_bit-set_bit_other base bitmaps p k v q j apart = ground arith

-- Where the first managed page is a multiple of 32, after the bit of one entry is written, reading
-- the bit of any entry answers the value written if it is the same page on the same level, and what
-- was there before if not. An entry is a page of at least the first one, within 32 bits and aligned
-- for its level; the level written is below the sixth; the value is 0 or 1.
pub get_bit-set_bit :
    (base : ℕ) (bitmaps : ℕ → ℕ → ℕ) (p k v q j : ℕ)
    → base % 32 ≡ 0
    → k < buddy_levels
    → Starts base k p
    → Starts base j q
    → v < 2
    → get_bit base (set_bit base bitmaps p k v) q j
      ≡ (if k == j && p == q then v else get_bit base bitmaps q j)
get_bit-set_bit base bitmaps p k v q j al lt sp sq hv = elim (ℕ_discrete k j) [
  | yes same ↦ ground (
    arith,
    get_bit-set_bit_level base bitmaps p k v q al lt sp (subst (λ t. Starts base t q) (sym same) sq)
        hv,
  )
  | no apart ↦ ground (arith, get_bit-set_bit_other base bitmaps p k v q j)
]

-- The bit of an entry is 0 or 1.
pub get_bit-lt : (base : ℕ) (bitmaps : ℕ → ℕ → ℕ) (p k : ℕ) → get_bit base bitmaps p k < 2
unfolding get_bit
get_bit-lt base bitmaps p k = omega (
  arith,
  get_slot_bit_lem (bitmaps k (buddy_bitmap_page_index base p k))
      (buddy_bitmap_page_offset base p k),
)

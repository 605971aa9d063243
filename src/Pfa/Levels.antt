-- ===== src/Pfa/Levels.antt =====
-- Buddy levels and page ids: the arithmetic of kernel/machine/pmap/pmap_pfa.c that reads no state.
-- `page_id_t` and `unsigned int` are 32 bits wide, `size_t` and `phys_addr_t` 64.
pub mod Bounds
pub mod Buddies
use swink.Common.{
  ℕ, zero, suc, ◌+◌, ◌-◌, ◌*◌, ◌%◌, ◌^◌, min, bit_and, ◌&&◌, ◌||◌, ltb, leb, ◌==◌, if◌then◌else◌,
}
use swink.Common.Word.{u32, u64, sub32, shr}
use swink.Common.Word.Count.{ctz, clzl, bit_length}
use swink.Pmap.{page_shift, page_size}

-- BUDDY_LEVELS
abbrev pub buddy_levels : ℕ
buddy_levels = 6

-- `1 << level`
unfoldable pub buddy_level_page_count : ℕ → ℕ
buddy_level_page_count level = u32 (2 ^ level)

unfoldable pub pa_to_page_id : ℕ → ℕ
pa_to_page_id page = u32 (shr page page_shift)

unfoldable pub size_to_page_count : ℕ → ℕ
size_to_page_count size = u32 (shr (u64 (size + (page_size - 1))) page_shift)

unfoldable pub max_buddy_level_for_page_alignment : ℕ → ℕ
max_buddy_level_for_page_alignment page_id =
    let id_align = ctz 32 page_id in
    if page_id == 0 || leb buddy_levels id_align then buddy_levels - 1 else id_align

-- `while (level < BUDDY_LEVELS - 1 && value < size) { level++; value <<= 1; }`, on fuel.
unfoldable pub grow : ℕ → ℕ → ℕ → ℕ → ℕ × ℕ
grow zero level value size = (level, value)
grow (suc fuel) level value size =
    let next = grow fuel (level + 1) (u64 (value * 2)) size in
    if ltb level (buddy_levels - 1) && ltb value size then next else (level, value)

unfoldable pub min_buddy_level_for_size_no_overflow : ℕ → ℕ
unfolding grow
min_buddy_level_for_size_no_overflow size =
    let (level, value) = grow buddy_levels 0 page_size size in
    if ltb 0 level && ltb size value then level - 1 else level

unfoldable pub min_buddy_level_for_size : ℕ → ℕ
unfolding size_to_page_count bit_length
min_buddy_level_for_size size =
    if leb size page_size then 0 else min (buddy_levels - 1) (64 - clzl (size_to_page_count size))

unfoldable pub get_buddy_page_id_for_page : ℕ → ℕ → ℕ
unfolding buddy_level_page_count
get_buddy_page_id_for_page page level =
    let buddy_id = shr page level in
    if buddy_id % 2 == 0
    then u32 (page + buddy_level_page_count level)
    else sub32 page (buddy_level_page_count level)

-- `page & ~((1 << (level + 1)) - 1)`; the complement is that of a 32-bit word.
unfoldable pub get_root_buddy_page_id_for_page : ℕ → ℕ → ℕ
get_root_buddy_page_id_for_page page level = bit_and page (2 ^ 32 - 1 - (2 ^ (level + 1) - 1))

-- ===== src/Pfa/State.antt =====
-- `struct pmap_pfa`, and the buddy bitmaps of kernel/machine/pmap/pmap_pfa.c.
pub mod Slots
pub mod Bits
use swink.Common.{ℕ, ◌+◌, ◌-◌, ◌*◌, ◌^◌, bit_and, bit_or, Bool, ◌&&◌, ◌==◌, if◌then◌else◌}
use swink.Common.Word.{u64, sub32, shr}
use swink.Synchs.{Lock}

-- `S` is the memory of the list links. A bitmap and the metadata are memory from an address on:
-- an index in their bounds is a theorem (`Bits`), not a check of the code.
pub record Pfa (S : Type 0) : Type 0 where
  pub lock : Lock
  pub page_base : ℕ
  pub page_count : ℕ
  pub buddy_lists : S
  pub buddy_bitmaps : ℕ → ℕ → ℕ
  pub metadata : ℕ → ℕ

-- BUDDY_BIT_ALLCOATED and BUDDY_BIT_FREE
abbrev pub buddy_bit_allocated : ℕ
buddy_bit_allocated = 0

abbrev pub buddy_bit_free : ℕ
buddy_bit_free = 1

-- `pfa->page_base` is an argument of the four functions on indices and slots.
unfoldable pub buddy_bitmap_page_index : ℕ → ℕ → ℕ → ℕ
buddy_bitmap_page_index page_base page level = shr (sub32 page page_base) (6 + level)

unfoldable pub buddy_bitmap_page_offset : ℕ → ℕ → ℕ → ℕ
buddy_bitmap_page_offset page_base page level =
    bit_and (shr (sub32 page page_base) level) (2 ^ 6 - 1)

-- `bin &= ~(1LLU << offset); bin |= (uint64_t)value << offset;`
unfoldable pub set_slot_bit : ℕ → ℕ → ℕ → ℕ
set_slot_bit bin offset value =
    bit_or (bit_and bin (2 ^ 64 - 1 - u64 (2 ^ offset))) (u64 (value * 2 ^ offset))

-- `(bin >> offset) & 1`
unfoldable pub get_slot_bit : ℕ → ℕ → ℕ
get_slot_bit bin offset = bit_and (shr bin offset) 1

abbrev pub write_slot : (ℕ → ℕ → ℕ) → ℕ → ℕ → ℕ → ℕ → ℕ → ℕ
write_slot bitmaps level idx bin l i = if level == l && idx == i then bin else bitmaps l i

unfoldable pub set_bit : ℕ → (ℕ → ℕ → ℕ) → ℕ → ℕ → ℕ → ℕ → ℕ → ℕ
set_bit page_base bitmaps page level value =
    let idx = buddy_bitmap_page_index page_base page level in
    let offset = buddy_bitmap_page_offset page_base page level in
    write_slot bitmaps level idx (set_slot_bit (bitmaps level idx) offset value)

unfoldable pub get_bit : ℕ → (ℕ → ℕ → ℕ) → ℕ → ℕ → ℕ
get_bit page_base bitmaps page level =
    let idx = buddy_bitmap_page_index page_base page level in
    let offset = buddy_bitmap_page_offset page_base page level in
    get_slot_bit (bitmaps level idx) offset

module _ {S : Type 0} where
  unfoldable pub buddy_bitmap_set_bit_locked : ℕ → ℕ → ℕ → Pfa S → Pfa S
  unfolding set_bit
  buddy_bitmap_set_bit_locked page level value pfa = record pfa {
    buddy_bitmaps = set_bit pfa.page_base pfa.buddy_bitmaps page level value;
  }

  unfoldable pub buddy_bitmap_get_bit_locked : ℕ → ℕ → Pfa S → ℕ
  unfolding get_bit
  buddy_bitmap_get_bit_locked page level pfa = get_bit pfa.page_base pfa.buddy_bitmaps page level

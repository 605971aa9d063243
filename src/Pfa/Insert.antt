-- ===== src/Pfa/Insert.antt =====
-- buddy_insert_range_freed_locked of kernel/machine/pmap/pmap_pfa.c: free pages become entries of the
-- buddy lists, with no merging.
pub mod Canonical
pub mod Push
pub mod Range
use swink.Common.{
  ℕ, zero, suc, ◌+◌, ◌*◌, ◌^◌, min, ◌&&◌, Result, ok, diverges, assert, ◌>>◌, ltb, leb,
  if◌then◌else◌,
}
use swink.Common.Word.{u32, sub32}
use swink.LinkedLists.{LinkedLists}
use swink.Pmap.{page_shift, pa_to_kva}
use swink.Pfa.Levels.{
  buddy_levels, buddy_level_page_count, max_buddy_level_for_page_alignment,
  min_buddy_level_for_size_no_overflow,
}
use swink.Pfa.State.{Pfa, buddy_bitmap_set_bit_locked, buddy_bit_free, buddy_bit_allocated}

-- `pmap_pa_to_kva(page << PAGE_SHIFT)`, the address of the free entry in a page. The shift is one of
-- 32 bits. The list element is the entry's first field, so this is the element's address too.
unfoldable pub free_entry_kva : ℕ → ℕ → ℕ
unfolding pa_to_kva
free_entry_kva physmap_vm_base page = pa_to_kva physmap_vm_base (u32 (page * 2 ^ page_shift))

-- The level of the entry that the loop inserts at `free_i`.
unfoldable pub insert_level : ℕ → ℕ → ℕ
insert_level limit free_i =
    min (max_buddy_level_for_page_alignment free_i)
      (min_buddy_level_for_size_no_overflow (u32 (sub32 limit free_i * 2 ^ page_shift)))

-- The address of `pfa->buddy_lists[level]` is written `level`.
module _ (lists : LinkedLists) where
  open lists use {Store, list_push_front, list_remove}

  -- `list_push_front(&pfa->buddy_lists[level], &fe->elem)` and the bit that marks the entry free
  unfoldable pub push_free_entry : ℕ → ℕ → ℕ → Pfa Store → Pfa Store
  push_free_entry fe page level pfa =
      buddy_bitmap_set_bit_locked page level buddy_bit_free
        (record pfa { buddy_lists = list_push_front level fe pfa.buddy_lists })

  -- `list_remove(&fe->elem)` and the bit that marks the entry allocated
  unfoldable pub remove_free_entry : ℕ → ℕ → ℕ → Pfa Store → Pfa Store
  remove_free_entry fe page level pfa =
      buddy_bitmap_set_bit_locked page level buddy_bit_allocated
        (record pfa { buddy_lists = list_remove fe pfa.buddy_lists })

module _ (lists : LinkedLists) (physmap_vm_base : ℕ) where
  open lists use {Store}

  -- get_pfa_free_entry_for_page
  unfoldable pub get_pfa_free_entry_for_page : ℕ → Pfa Store → Result ℕ
  get_pfa_free_entry_for_page page pfa = do
    assert (ltb (sub32 page pfa.page_base) pfa.page_count)
    ok (free_entry_kva physmap_vm_base page)

  -- The loop, on fuel; `fe` is the entry of the last round, and NULL is 0.
  unfoldable pub insert_from : ℕ → ℕ → ℕ → ℕ → Pfa Store → Result (ℕ × Pfa Store)
  insert_from zero limit free_i fe pfa = diverges
  insert_from (suc fuel) limit free_i fe pfa =
      let level = insert_level limit free_i in
      let fe' = free_entry_kva physmap_vm_base free_i in
      let rest =
        insert_from fuel limit (u32 (free_i + buddy_level_page_count level)) fe'
          (push_free_entry lists fe' free_i level pfa) in
      let round =
        assert (leb 0 level && ltb level buddy_levels)
        >> assert (leb (2 ^ level) (sub32 limit free_i))
        >> rest in
      if ltb free_i limit then round else ok (fe, pfa)

  -- Each round takes at least one page, so `page_count` rounds and the last test are enough fuel.
  unfoldable pub buddy_insert_range_freed_locked : ℕ → ℕ → Pfa Store → Result (ℕ × Pfa Store)
  buddy_insert_range_freed_locked base page_count pfa =
      insert_from (suc page_count) (u32 (base + page_count)) base 0 pfa

-- ===== src/Pfa/Alloc.antt =====
-- pmap_pfa_alloc_contig of kernel/machine/pmap/pmap_pfa.c.
pub mod Canonical
pub mod Find
pub mod Small
pub mod Total
pub mod Limits
use swink.Common.{
  ℕ, zero, suc, ◌+◌, ◌*◌, ◌^◌, Result, ok, diverges, ◌>>=◌, ltb, ◌==◌, if◌then◌else◌,
}
use swink.Common.Word.{u32, sub32}
use swink.LinkedLists.{LinkedLists}
use swink.Pmap.{page_size, phys_addr_invalid, physmap_kva_to_pa}
use swink.Synchs.{lock_acquire, lock_release}
use swink.Pfa.Levels.{
  buddy_levels, buddy_level_page_count, pa_to_page_id, size_to_page_count, min_buddy_level_for_size,
}
use swink.Pfa.State.{Pfa}
use swink.Pfa.Insert.{remove_free_entry, buddy_insert_range_freed_locked}
use swink.Pfa.Metadata.{apply_metadata_range_locked}

module _ (lists : LinkedLists) (physmap_vm_base : ℕ) where
  open lists use {Store, list_empty, list_front}

  -- `for (; level_i < BUDDY_LEVELS; level_i++)`, on fuel: the level, `allocated_entry` and
  -- `allocated_element` after the loop. NULL is 0.
  unfoldable pub find_entry : ℕ → ℕ → Pfa Store → Result (ℕ × ℕ × ℕ)
  find_entry zero level_i pfa = diverges
  find_entry (suc fuel) level_i pfa =
      let next = find_entry fuel (level_i + 1) pfa in
      let entry = list_front level_i pfa.buddy_lists in
      let found = physmap_kva_to_pa physmap_vm_base entry >>= λ pa. ok (level_i, entry, pa) in
      if ltb level_i buddy_levels
      then (if list_empty level_i pfa.buddy_lists then next else found)
      else ok (level_i, 0, phys_addr_invalid)

  -- From `list_remove` on, with the entry that the loop found.
  unfoldable pub take_entry : ℕ → ℕ → ℕ → ℕ → ℕ → Pfa Store → Result (ℕ × Pfa Store)
  take_entry page_count metadata level_i entry element pfa =
      let page = pa_to_page_id element in
      buddy_insert_range_freed_locked lists physmap_vm_base (u32 (page + page_count))
        (sub32 (buddy_level_page_count level_i) page_count)
        (remove_free_entry lists entry page level_i pfa)
      >>= λ (fe, pfa').
          apply_metadata_range_locked page page_count metadata pfa' >>= λ pfa''. ok (element, pfa'')

  unfoldable pub alloc_contig_small_locked : ℕ → ℕ → Pfa Store → Result (ℕ × Pfa Store)
  alloc_contig_small_locked size metadata pfa =
      find_entry (suc buddy_levels) (min_buddy_level_for_size size) pfa
      >>= λ (level_i, entry, element).
          if entry == 0
          then ok (phys_addr_invalid, pfa)
          else take_entry (size_to_page_count size) metadata level_i entry element pfa

  unfoldable pub alloc_contig : ℕ → ℕ → Pfa Store → Result (ℕ × Pfa Store)
  alloc_contig size metadata pfa =
      if ltb (page_size * 2 ^ 5) size
      then ok (phys_addr_invalid, pfa)
      else lock_acquire pfa.lock >>= λ taken.
          alloc_contig_small_locked size metadata (record pfa { lock = taken })
          >>= λ (allocation, pfa'). ok (allocation, record pfa' { lock = lock_release pfa'.lock })

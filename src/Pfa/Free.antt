-- ===== src/Pfa/Free.antt =====
-- pmap_pfa_free_contig of kernel/machine/pmap/pmap_pfa.c.
pub mod Merge
pub mod Total
use swink.Common.{ℕ, zero, suc, ◌+◌, ◌-◌, Result, ok, diverges, ◌>>=◌, ltb, ◌==◌, if◌then◌else◌}
use swink.Common.Word.{u32}
use swink.LinkedLists.{LinkedLists}
use swink.Synchs.{lock_acquire, lock_release}
use swink.Pfa.Levels.{
  buddy_levels, pa_to_page_id, size_to_page_count, get_buddy_page_id_for_page,
  get_root_buddy_page_id_for_page,
}
use swink.Pfa.State.{
  Pfa, buddy_bit_allocated, buddy_bitmap_set_bit_locked, buddy_bitmap_get_bit_locked,
}
use swink.Pfa.Insert.{get_pfa_free_entry_for_page, push_free_entry}

module _ (lists : LinkedLists) (physmap_vm_base : ℕ) where
  open lists use {Store, list_remove}

  -- `for (; level_i < BUDDY_LEVELS - 1; level_i++)`, on fuel: the level and the page after the loop.
  unfoldable pub merge_up : ℕ → ℕ → ℕ → Pfa Store → Result (ℕ × ℕ × Pfa Store)
  merge_up zero level_i page_i pfa = diverges
  merge_up (suc fuel) level_i page_i pfa =
      let buddy_i = get_buddy_page_id_for_page page_i level_i in
      let pfa' = buddy_bitmap_set_bit_locked buddy_i level_i buddy_bit_allocated pfa in
      let merged = get_pfa_free_entry_for_page lists physmap_vm_base buddy_i pfa' >>= λ buddy_fe.
      merge_up fuel (level_i + 1) (get_root_buddy_page_id_for_page page_i level_i)
        (record pfa' { buddy_lists = list_remove buddy_fe pfa'.buddy_lists }) in
      if ltb level_i (buddy_levels - 1)
      then (if buddy_bitmap_get_bit_locked buddy_i level_i pfa == buddy_bit_allocated
          then ok (level_i, page_i, pfa)
          else merged)
      else ok (level_i, page_i, pfa)

  -- One round of the loop over the pages.
  unfoldable pub free_page : ℕ → Pfa Store → Result (Pfa Store)
  free_page page pfa = merge_up buddy_levels 0 page pfa >>= λ (level_i, page_i, pfa').
      get_pfa_free_entry_for_page lists physmap_vm_base page_i pfa' >>= λ fe.
      ok (push_free_entry lists fe page_i level_i pfa')

  -- The rounds that are left, from `i` on.
  unfoldable pub free_rounds : ℕ → ℕ → ℕ → Pfa Store → Result (Pfa Store)
  free_rounds zero base i pfa = ok pfa
  free_rounds (suc rounds) base i pfa =
      free_page (u32 (base + i)) pfa >>= λ pfa'. free_rounds rounds base (i + 1) pfa'

  unfoldable pub buddy_free_pages_locked : ℕ → ℕ → Pfa Store → Result (Pfa Store)
  buddy_free_pages_locked base page_count pfa = free_rounds page_count base 0 pfa

  unfoldable pub free_contig : ℕ → ℕ → Pfa Store → Result (Pfa Store)
  free_contig addr size pfa = lock_acquire pfa.lock >>= λ taken.
      buddy_free_pages_locked (pa_to_page_id addr) (size_to_page_count size)
        (record pfa { lock = taken })
      >>= λ pfa'. ok (record pfa' { lock = lock_release pfa'.lock })

-- ===== src/Pfa/Init.antt =====
-- pmap_pfa_init of kernel/machine/pmap/pmap_pfa.c, and the sizes of the buddy bitmaps.
pub mod Bounds
pub mod Breaks
pub mod Empty
pub mod Memory
pub mod Overlap
pub mod Pages
pub mod Total
use swink.Common.{
  ℕ, zero, suc, ◌+◌, ◌-◌, ◌*◌, ◌/◌, ◌^◌, Result, ok, ◌>>=◌, ltb, leb, ◌&&◌, if◌then◌else◌, ◌%◌,
}
use swink.Common.Word.{u32, u64, sub64, shr}
use swink.LinkedLists.{LinkedLists}
use swink.Pmap.{page_size, page_shift, pa_to_kva}
use swink.Synchs.{lock_init}
use swink.Pfa.Levels.{buddy_levels, pa_to_page_id, size_to_page_count}
use swink.Pfa.State.{Pfa}
use swink.Pfa.Insert.{buddy_insert_range_freed_locked}
use swink.Pfa.Metadata.{apply_metadata_range_locked, kernel_data, kernel_text, page_type_code}

-- ROUND_UP (lib/ctype.h)
abbrev pub round_up : ℕ → ℕ → ℕ
round_up x step = (x + step - 1) / step * step

-- The number of 64-bit slots of a level's bitmap; `64 << level_i` is an `int`.
unfoldable pub bitmap_slots : ℕ → ℕ → ℕ
bitmap_slots page_count level_i = round_up page_count (64 * 2 ^ level_i) / (64 * 2 ^ level_i)

unfoldable pub buddy_bitmap_required_bytes_for_level : ℕ → ℕ → ℕ
unfolding bitmap_slots
buddy_bitmap_required_bytes_for_level page_count level_i = bitmap_slots page_count level_i * 8

-- The sum over the levels below `levels`.
unfoldable pub required_bytes_below : ℕ → ℕ → ℕ
required_bytes_below zero page_count = 0
required_bytes_below (suc levels) page_count =
    required_bytes_below levels page_count + buddy_bitmap_required_bytes_for_level page_count levels

unfoldable pub buddy_bitmap_required_bytes : ℕ → ℕ
buddy_bitmap_required_bytes page_count = required_bytes_below buddy_levels page_count

-- sizeof(struct pmap_pfa): the lock and two page ids, padded to 16 bytes; six lists of two elements
-- of two pointers each; seven pointers.
abbrev pub pfa_bytes : ℕ
pfa_bytes = 16 + 6 * 32 + 7 * 8

-- Where pmap_pfa_init puts things. Addresses are kernel virtual addresses.
pub record Layout : Type 0 where
  pub pfa_size : ℕ
  pub bitmap_size : ℕ
  pub mds_size : ℕ
  pub required_bytes : ℕ
  pub pfa_address : ℕ
  pub metadata_address : ℕ
  pub bitmap_address : ℕ → ℕ

unfoldable pub layout : ℕ → ℕ → ℕ → Layout
layout physmap_vm_base page_count bootstrap_pa_reserved =
    let pfa_size = round_up pfa_bytes 8 in
    let bitmap_size = buddy_bitmap_required_bytes page_count in
    let mds_size = 1 * page_count in
    let pfa_address = pa_to_kva physmap_vm_base bootstrap_pa_reserved in
    record {
      pfa_size = pfa_size;
      bitmap_size = bitmap_size;
      mds_size = mds_size;
      required_bytes = round_up (pfa_size + bitmap_size + mds_size) page_size;
      pfa_address = pfa_address;
      metadata_address = pfa_address + bitmap_size;
      bitmap_address = λ level_i. pfa_address + pfa_size + required_bytes_below level_i page_count;
    }

-- The `memset` of the bitmaps: the slots of every level are 0, memory behind them is as it was.
abbrev pub clear_bitmaps : ℕ → (ℕ → ℕ → ℕ) → ℕ → ℕ → ℕ
clear_bitmaps page_count bitmaps level_i i =
    if ltb i (bitmap_slots page_count level_i) then 0 else bitmaps level_i i

-- The bitmaps and the metadata are two views of memory, which the layout lets overlap. A slot is
-- eight bytes, the lowest first. `address` is below the metadata or at a whole number of slots behind
-- its start, since the sizes of the structure and of the bitmaps are multiples of 8.

-- The word of `size` bytes from index `start` on.
unfoldable pub word_at : ℕ → (ℕ → ℕ) → ℕ → ℕ
word_at zero bytes start = 0
word_at (suc size) bytes start =
    word_at size bytes start + bytes (start + size) % 256 * 2 ^ (8 * size)

-- The slots of the bitmaps after the metadata has been written.
abbrev pub overlaid_bitmaps : Layout → (ℕ → ℕ) → (ℕ → ℕ → ℕ) → ℕ → ℕ → ℕ
overlaid_bitmaps l metadata bitmaps level_i i =
    let address = l.bitmap_address level_i + 8 * i in
    if leb l.metadata_address address
    then word_at 8 metadata (address - l.metadata_address)
    else bitmaps level_i i

-- The bytes of the metadata after the bitmaps of the levels below `levels` have been written.
unfoldable pub overlaid_metadata : Layout → ℕ → ℕ → (ℕ → ℕ → ℕ) → (ℕ → ℕ) → ℕ → ℕ
overlaid_metadata l page_count zero bitmaps metadata i = metadata i
overlaid_metadata l page_count (suc levels) bitmaps metadata i =
    let address = l.metadata_address + i in
    let start = l.bitmap_address levels in
    let size = buddy_bitmap_required_bytes_for_level page_count levels in
    let rest = overlaid_metadata l page_count levels bitmaps metadata i in
    if leb start address && ltb address (start + size)
    then bitmaps levels ((address - start) / 8) / 2 ^ (8 * ((address - start) % 8)) % 256
    else rest

module _ {S : Type 0} where
  -- Memory after a store to the bitmaps, and after one to the metadata, seen both ways.
  unfoldable pub bitmaps_written : Layout → Pfa S → Pfa S
  bitmaps_written l pfa = record pfa {
    metadata = overlaid_metadata l pfa.page_count buddy_levels pfa.buddy_bitmaps pfa.metadata;
  }

  unfoldable pub metadata_written : Layout → Pfa S → Pfa S
  metadata_written l pfa = record pfa {
    buddy_bitmaps = overlaid_bitmaps l pfa.metadata pfa.buddy_bitmaps;
  }

module _ (lists : LinkedLists) where
  open lists use {Store, list_init}

  -- `list_init` of the lists below `levels`
  unfoldable pub init_lists : ℕ → Store → Store
  init_lists zero s = s
  init_lists (suc levels) s = list_init levels (init_lists levels s)

  -- The state before the first page is freed, on memory with any contents.
  -- `pfa->metadata` and `pfa->buddy_bitmaps` are the addresses of the layout.
  unfoldable pub init_empty : Layout → ℕ → ℕ → Pfa Store → Pfa Store
  unfolding bitmaps_written
  init_empty l page_base page_count memory = bitmaps_written l (record {
    lock = lock_init;
    page_base = page_base;
    page_count = page_count;
    buddy_lists = init_lists buddy_levels memory.buddy_lists;
    buddy_bitmaps = clear_bitmaps page_count memory.buddy_bitmaps;
    metadata = memory.metadata;
  })

module _ (lists : LinkedLists) (physmap_vm_base : ℕ) where
  open lists use {Store}

  -- `bootstrap_pa_reserved` is the value after `+= required_bytes`. The insertion writes the bitmaps,
  -- and each of the other three calls the metadata.
  unfoldable pub init_pages : Layout → ℕ → ℕ → ℕ → ℕ → ℕ → ℕ → ℕ → Pfa Store → Result (Pfa Store)
  init_pages l ram_base ram_size text_base text_size data_base data_size bootstrap_pa_reserved pfa =
      buddy_insert_range_freed_locked lists physmap_vm_base (pa_to_page_id bootstrap_pa_reserved)
        (size_to_page_count (sub64 (sub64 ram_size ram_base) bootstrap_pa_reserved)) pfa
      >>= λ (fe, pfa1).
          apply_metadata_range_locked (u32 ram_base)
            (size_to_page_count (sub64 bootstrap_pa_reserved ram_base)) (page_type_code kernel_data)
            (bitmaps_written l pfa1)
          >>= λ pfa2.
              apply_metadata_range_locked (pa_to_page_id data_base) (size_to_page_count data_size)
                (page_type_code kernel_data) (metadata_written l pfa2)
              >>= λ pfa3.
                  apply_metadata_range_locked (pa_to_page_id text_base)
                    (size_to_page_count text_size) (page_type_code kernel_text)
                    (metadata_written l pfa3)
                  >>= λ pfa4. ok (metadata_written l pfa4)

  unfoldable pub pfa_init : ℕ → ℕ → ℕ → ℕ → ℕ → ℕ → ℕ → Pfa Store → Result (Pfa Store)
  pfa_init ram_base ram_size text_base text_size data_base data_size bootstrap_pa_reserved memory =
      let page_base = u32 (shr ram_base page_shift) in
      let page_count = size_to_page_count (sub64 ram_size ram_base) in
      let l = layout physmap_vm_base page_count bootstrap_pa_reserved in
      init_pages l ram_base ram_size text_base text_size data_base data_size
        (u64 (bootstrap_pa_reserved + l.required_bytes))
        (init_empty lists l page_base page_count memory)

-- ===== src/Pfa/Tests.antt =====
-- The allocator's theorems at concrete inputs.
use swink.Common.{
  ℕ, ◌+◌, ◌*◌, ◌/◌, ◌^◌, ◌≤◌, ◌<◌, ◌≡◌, refl, ◌⊎◌, ◌↔◌, arith, ok, panic, List, ◌>>=◌, leb, ltb,
  ◌==◌, ◌&&◌, if◌then◌else◌,
}
use swink.LinkedLists.{function_lists}
use swink.Pmap.{page_size, phys_addr_invalid}
use swink.Pfa.Levels.{size_to_page_count, get_buddy_page_id_for_page}
use swink.Pfa.Levels.Bounds.{size_to_page_count_lem}
use swink.Pfa.State.{Pfa, set_bit, get_bit, buddy_bitmap_page_index}
use swink.Pfa.State.Bits.{get_bit-set_bit}
use swink.Pfa.Insert.{buddy_insert_range_freed_locked}
use swink.Pfa.Insert.Range.{Freed, insert_range_lem}
use swink.Pfa.Invariant.{IsFreePage, IsMerged, Inv}
use swink.Pfa.Metadata.{
  apply_metadata_range_locked, mds_get_metadata_locked, mds_require_range_type, page_type,
  page_type_code, kernel_data,
}
use swink.Pfa.Metadata.Apply.{get-apply, get-apply_stale}
use swink.Pfa.Metadata.Require.{require_first_only}
use swink.Pfa.Alloc.{alloc_contig}
use swink.Pfa.Alloc.Total.{Answers, alloc_contig_lem, alloc_contig-IsMerged}
use swink.Pfa.Alloc.Limits.{alloc_power_fails, alloc_zero}
use swink.Pfa.Free.{merge_up, free_contig}
use swink.Pfa.Free.Merge.{Merged, merge_up_lem}
use swink.Pfa.Free.Total.{free_contig_lem, free_contig-IsMerged}
use swink.Pfa.Init.{
  pfa_bytes, layout, bitmap_slots, pfa_init, buddy_bitmap_required_bytes_for_level,
  buddy_bitmap_required_bytes, required_bytes_below,
}
use swink.Pfa.Init.Bounds.{page_index_lt, buddy_index_lt}
use swink.Pfa.Init.Overlap.{metadata_overlap}
use swink.Pfa.Init.Total.{pfa_init_lem, own_pages}
use swink.Pfa.Init.Memory.{Initialised}
use swink.Pfa.Init.Breaks.{pfa_init_breaks}
use swink.Pfa.Samples.{
  physmap, blank, all_taken, all_taken-Inv, all_taken-none, all_taken-count, sample, sample-Freed,
  sample-count, sample-lock, sample-IsFree, sample-IsMerged, early, single, single-Freed,
  single-count, single_next, pair, pair-Freed, pair-top, pair-lock,
}

alloc_contig_lem_example :
    (addr : ℕ) × (pfa' : Pfa (ℕ → List ℕ)) × (alloc_contig function_lists physmap 12288 1 sample
      ≡ ok (addr, pfa'))
    × Answers function_lists physmap 12288 1 sample addr pfa'
alloc_contig_lem_example =
    alloc_contig_lem function_lists physmap 12288 1 sample sample-Freed.inv sample-lock
      (omega arith)

free_contig_lem_example :
    (pfa' : Pfa (ℕ → List ℕ)) × (free_contig function_lists physmap 8192 8192 sample ≡ ok pfa')
    × Freed function_lists physmap sample pfa'
        (8192 / page_size)
        (8192 / page_size + size_to_page_count 8192)
free_contig_lem_example =
    free_contig_lem function_lists physmap 8192 8192 sample sample-Freed.inv sample-lock
      (omega (arith, sample-count))
      (omega (arith, sample-count, size_to_page_count_lem 8192 (omega arith)))
      (λ x lo hi h. early x (omega (arith, size_to_page_count_lem 8192 (omega arith))) h)

-- Sixteen megabytes
abbrev some_pages : ℕ
some_pages = 4096

own_pages_room : 1 + own_pages physmap some_pages 1 ≤ some_pages
unfolding layout buddy_bitmap_required_bytes required_bytes_below
    buddy_bitmap_required_bytes_for_level bitmap_slots
own_pages_room = omega arith

long_bitmaps : pfa_bytes ≤ buddy_bitmap_required_bytes some_pages
unfolding buddy_bitmap_required_bytes required_bytes_below buddy_bitmap_required_bytes_for_level
    bitmap_slots
long_bitmaps = omega arith

-- Text of half a megabyte from page 128 on, where the image is loaded
abbrev text_bytes : ℕ
text_bytes = 2 ^ 19

pfa_init_lem_example :
    (pfa' : Pfa (ℕ → List ℕ)) × (bitmaps : ℕ → ℕ → ℕ) × (pfa_init function_lists physmap 0
        (some_pages * page_size)
        (128 * page_size)
        text_bytes
        4096
        4096
        (1 * page_size)
        blank
      ≡ ok pfa')
    × Initialised function_lists physmap
        (layout physmap some_pages (1 * page_size))
        (1 + own_pages physmap some_pages 1)
        some_pages
        (128 * page_size / page_size)
        (128 * page_size / page_size + size_to_page_count text_bytes)
        (4096 / page_size)
        (4096 / page_size + size_to_page_count 4096)
        pfa'
        bitmaps
pfa_init_lem_example =
    pfa_init_lem function_lists physmap (128 * page_size) text_bytes 4096 4096 some_pages 1 blank
      (omega arith, omega arith) (omega arith) long_bitmaps (λ k h. refl) own_pages_room
      (omega (arith, size_to_page_count_lem text_bytes (omega arith)))
      (omega (arith, size_to_page_count_lem 4096 (omega arith)))

text_pages : size_to_page_count text_bytes ≡ 128
unfolding size_to_page_count
text_pages = omega arith

same_byte :
    let l = layout physmap some_pages (1 * page_size) in
    l.metadata_address + 248 ≡ l.bitmap_address 5
unfolding layout buddy_bitmap_required_bytes required_bytes_below
    buddy_bitmap_required_bytes_for_level bitmap_slots
same_byte = omega arith

pfa_init_breaks_example :
    (pfa' : Pfa (ℕ → List ℕ)) × (pfa_init function_lists physmap 0
        (some_pages * page_size)
        (128 * page_size)
        text_bytes
        4096
        4096
        (1 * page_size)
        blank
      ≡ ok pfa')
    × (¬ Inv function_lists physmap pfa')
pfa_init_breaks_example =
    pfa_init_breaks function_lists physmap (128 * page_size) text_bytes 4096 4096 some_pages 1 248
      blank (omega arith, omega arith) (omega arith) long_bitmaps (λ k h. refl) own_pages_room
      (omega (arith, size_to_page_count_lem text_bytes (omega arith)))
      (omega (arith, size_to_page_count_lem 4096 (omega arith))) (omega arith) same_byte
      (omega arith) (omega (arith, text_pages))

insert_range_lem_example :
    (fe : ℕ) × (pfa' : Pfa (ℕ → List ℕ)) × (buddy_insert_range_freed_locked function_lists physmap 5
        20 all_taken
      ≡ ok (fe, pfa'))
    × Freed function_lists physmap all_taken pfa' 5 25
insert_range_lem_example =
    insert_range_lem function_lists physmap 5 20 all_taken all_taken-Inv
      (omega (arith, all_taken-count)) (omega (arith, all_taken-count))
      (λ x lo hi h. all_taken-none x h)

merge_up_lem_example :
    (j : ℕ) × (p : ℕ) × (pfa' : Pfa (ℕ → List ℕ)) × (merge_up function_lists physmap 6 0 1 single
      ≡ ok (j, p, pfa'))
    × Merged function_lists physmap single pfa' 0 1 j p
    × ((j ≡ 5) ⊎ (get_bit pfa'.page_base pfa'.buddy_bitmaps (get_buddy_page_id_for_page p j) j ≡ 0))
merge_up_lem_example =
    merge_up_lem function_lists physmap 6 0 1 single single-Freed.inv
      (omega arith, omega (arith, single-count), omega (arith, single-count), omega arith)
      single_next (omega arith)

get_bit-set_bit_example :
    get_bit 0 (set_bit 0 (λ level i. 0) 8 3 1) 4 2
    ≡ (if 3 == 2 && 8 == 4 then 1 else get_bit 0 (λ level i. 0) 4 2)
get_bit-set_bit_example =
    get_bit-set_bit 0 (λ level i. 0) 8 3 1 4 2 (omega arith) (omega arith)
      (omega arith, omega arith, omega arith) (omega arith, omega arith, omega arith) (omega arith)

page_index_lt_example : buddy_bitmap_page_index 32 130 2 < bitmap_slots 100 2
page_index_lt_example =
    page_index_lt 32 100 130 2 (omega arith) (omega arith) (omega arith) (omega arith)

buddy_index_lt_example : buddy_bitmap_page_index 0 130 1 < bitmap_slots 131 1
buddy_index_lt_example =
    buddy_index_lt 0 131 130 1 (omega arith) (omega arith) (omega arith) (omega arith) (omega arith)
      (omega arith)

metadata_overlap_example :
    let l = layout physmap 1024 16 in
    (l.metadata_address + l.pfa_size
      ≡ l.bitmap_address 5 + buddy_bitmap_required_bytes_for_level 1024 5)
    × ((l.bitmap_address 5 ≤ l.metadata_address) ↔ (2 ^ 16 < 1024))
metadata_overlap_example = metadata_overlap physmap 1024 16 (omega arith)

alloc_power_fails_example :
    alloc_contig function_lists physmap (page_size * 2 ^ 1) 1 pair ≡ ok (phys_addr_invalid, pair)
alloc_power_fails_example =
    alloc_power_fails function_lists physmap 1 1 pair (omega arith) (omega arith) pair-Freed.inv
      pair-lock pair-top

alloc_zero_example :
    (page : ℕ) × (pfa' : Pfa (ℕ → List ℕ)) × (alloc_contig function_lists physmap 0 1 sample
      ≡ ok (page * page_size, pfa'))
    × IsFreePage pfa' page
alloc_zero_example =
    alloc_zero function_lists physmap 5 32 1 sample sample-Freed.inv sample-lock sample-IsFree

-- 64 pages from page 0 on.
abbrev plain : Pfa (ℕ → List ℕ)
plain = record blank { page_count = 64; lock = record { semaphore = record { value = 1 } } }

require_first_only_example :
    mds_require_range_type 3 2 kernel_data plain
    ≡ (if page_type 0 == page_type_code kernel_data then ok plain else panic)
require_first_only_example =
    require_first_only 3 2 kernel_data plain (omega arith) refl (omega arith) (omega arith)

get-apply_example :
    (apply_metadata_range_locked 3 2 1 plain >>= mds_get_metadata_locked 4)
    ≡ ok (if leb 3 4 && ltb 4 (3 + 2) then 1 else 0)
get-apply_example = get-apply 3 2 1 4 plain refl (omega arith) (omega arith) (omega arith)

-- 64 pages from page 32 on.
abbrev based : Pfa (ℕ → List ℕ)
based = record blank { page_base = 32; page_count = 64 }

get-apply_stale_example :
    (apply_metadata_range_locked 32 16 1 based >>= mds_get_metadata_locked 40) ≡ ok 0
get-apply_stale_example =
    get-apply_stale 16 1 40 based (omega arith) (omega arith) (omega arith) (omega arith)
      (omega arith)

alloc_contig-IsMerged_example :
    (addr : ℕ) × (pfa' : Pfa (ℕ → List ℕ)) × (alloc_contig function_lists physmap 12288 1 sample
      ≡ ok (addr, pfa'))
    × IsMerged pfa'
alloc_contig-IsMerged_example =
    alloc_contig-IsMerged function_lists physmap 12288 1 sample sample-Freed.inv sample-lock
      (omega arith) (omega arith) sample-IsMerged

free_contig-IsMerged_example :
    (pfa' : Pfa (ℕ → List ℕ)) × (free_contig function_lists physmap 8192 8192 sample ≡ ok pfa')
    × IsMerged pfa'
free_contig-IsMerged_example =
    free_contig-IsMerged function_lists physmap 8192 8192 sample sample-Freed.inv sample-lock
      (omega (arith, sample-count))
      (omega (arith, sample-count, size_to_page_count_lem 8192 (omega arith)))
      (λ x lo hi h. early x (omega (arith, size_to_page_count_lem 8192 (omega arith))) h)
      sample-IsMerged

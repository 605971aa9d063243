-- ===== src/Pfa/Init/Overlap.antt =====
-- Where pmap_pfa_init puts the metadata store, relative to the bitmaps.
use swink.Common.{ℕ, ◌+◌, ◌^◌, ◌≤◌, ◌<◌, ◌≡◌, ◌↔◌, arith}
use swink.Pfa.Init.{
  layout, buddy_bitmap_required_bytes_for_level, buddy_bitmap_required_bytes, required_bytes_below,
}

-- For at most 2 ^ 20 pages, the metadata begins as many bytes before the end of the bitmaps as the
-- allocator's structure is long. It begins behind the bitmaps of the five lower levels exactly if
-- more than 2 ^ 16 pages are managed.
pub metadata_overlap :
    (V n reserved : ℕ)
    → n ≤ 2 ^ 20
    → let l = layout V n reserved in
      (l.metadata_address + l.pfa_size
        ≡ l.bitmap_address 5 + buddy_bitmap_required_bytes_for_level n 5)
      × ((l.bitmap_address 5 ≤ l.metadata_address) ↔ (2 ^ 16 < n))
unfolding layout buddy_bitmap_required_bytes required_bytes_below
    buddy_bitmap_required_bytes_for_level
metadata_overlap V n reserved small = (omega arith, (λ h. omega arith, λ h. omega arith))

-- ===== src/Pfa/Init/Breaks.antt =====
-- What the type of a page of kernel text does to the bitmap that pmap_pfa_init built, where the two
-- are the same byte of memory.
use swink.Common.{ℕ, ◌+◌, ◌*◌, ◌/◌, ◌%◌, ◌^◌, ◌≤◌, ◌<◌, ◌≡◌, refl, sym, ◌∙◌, ap, arith, ok, []}
use swink.LinkedLists.{LinkedLists}
use swink.Pmap.{page_size}
use swink.Pfa.Levels.{buddy_levels, size_to_page_count}
use swink.Pfa.State.{Pfa, get_bit, buddy_bitmap_page_index, buddy_bitmap_page_offset}
use swink.Pfa.State.Slots.{get_slot_bit_lem}
use swink.Pfa.Metadata.{page_type_code}
use swink.Pfa.Invariant.{IsBlock, Inv}
use swink.Pfa.Init.{Layout, layout, pfa_init, pfa_bytes, buddy_bitmap_required_bytes, word_at}
use swink.Pfa.Init.Memory.{Initialised}
use swink.Pfa.Init.Total.{own_pages, own_pages_some, pfa_init_lem}

-- The lowest bit of a word is that of its first byte.
word_odd : (bytes : ℕ → ℕ) (t : ℕ) → bytes t ≡ 1 → word_at 8 bytes t % 2 ≡ 1
unfolding word_at
word_odd bytes t odd =
    let same : t + 0 ≡ t = omega arith in
    let first : bytes (t + 0) ≡ 1 = ap bytes same ∙ odd in omega (arith, first)

-- The bit of the first entry
first_bit : (base : ℕ) (bitmaps : ℕ → ℕ → ℕ) → base ≡ 0 → get_bit base bitmaps 0 5 ≡ bitmaps 5 0 % 2
unfolding get_bit buddy_bitmap_page_index buddy_bitmap_page_offset
first_bit base bitmaps zero_base = rw zero_base (get_slot_bit_lem (bitmaps 5 0) 0 ∙ omega arith)

module _ (lists : LinkedLists) (V : ℕ) (l : Layout) where
  open lists use {Store, contents}

  breaks :
      (first n text text_end ro ro_end t : ℕ) (pfa : Pfa Store) (bitmaps : ℕ → ℕ → ℕ)
      → Initialised lists V l first n text text_end ro ro_end pfa bitmaps
      → 0 < first
      → 32 ≤ n
      → l.metadata_address + t ≡ l.bitmap_address 5
      → text ≤ t
      → t < text_end
      → ¬ Inv lists V pfa
  breaks first n text text_end ro ro_end t pfa bitmaps h some room at lo hi inv =
      let block : IsBlock pfa 5 0 =
        (omega arith, omega (arith, h.base), omega (arith, h.base, h.count), omega arith) in
      let slot : pfa.buddy_bitmaps 5 0 ≡ word_at 8 pfa.metadata t =
        h.overlapped 5 0 (omega arith) ∙ ap (word_at 8 pfa.metadata) (omega arith) in
      let odd : get_bit pfa.page_base pfa.buddy_bitmaps 0 5 ≡ 1 =
        first_bit pfa.page_base pfa.buddy_bitmaps h.base
        ∙ ap (λ (w : ℕ). w % 2) slot
        ∙ word_odd pfa.metadata t (h.text_metadata t lo hi ∙ unfold page_type_code in refl) in
      let built : get_bit pfa.page_base bitmaps 0 5 ≡ 1 =
        sym (h.inv.linked 5 0 block) ∙ inv.linked 5 0 block ∙ odd in
      let page = (h.pages 0).0 (5, 0, (block, built), omega arith, omega arith) in
      omega (arith, page)

module _ (lists : LinkedLists) (V : ℕ) where
  open lists use {Store, contents}

  -- Under the conditions on memory, physmap, reserved region, image and lists under which
  -- initialisation returns, with at least 32 pages, and where the kernel text includes the page
  -- whose metadata is the first byte of the top level's bitmap, initialisation returns, and the
  -- allocator's invariant does not hold: the type of that page has set the bit of an entry that no
  -- list has.
  pub pfa_init_breaks :
      (text_base text_size data_base data_size n reserved t : ℕ) (memory : Pfa Store)
      → (0 < V) × (V + n * 2 ^ 12 ≤ 2 ^ 64)
      → n ≤ 2 ^ 20
      → pfa_bytes ≤ buddy_bitmap_required_bytes n
      → ((k : ℕ) → buddy_levels ≤ k → contents memory.buddy_lists k ≡ [])
      → reserved + own_pages V n reserved ≤ n
      → text_base / page_size + size_to_page_count text_size ≤ n
      → data_base / page_size + size_to_page_count data_size ≤ n
      → 32 ≤ n
      → (let l = layout V n (reserved * page_size) in l.metadata_address + t ≡ l.bitmap_address 5)
      → text_base / page_size ≤ t
      → t < text_base / page_size + size_to_page_count text_size
      → (pfa' : Pfa Store) × (pfa_init lists V 0
            (n * page_size)
            text_base
            text_size
            data_base
            data_size
            (reserved * page_size)
            memory
          ≡ ok pfa')
        × (¬ Inv lists V pfa')
  pfa_init_breaks text_base text_size data_base data_size n reserved t memory mapped small long
        unlinked room text data_in top at lo hi =
      let (pfa', bitmaps, e, h) =
        pfa_init_lem lists V text_base text_size data_base data_size n reserved memory mapped small
          long unlinked room text data_in in
      (
        pfa',
        e,
        breaks lists V (layout V n (reserved * page_size)) (reserved + own_pages V n reserved) n
            (text_base / page_size) (text_base / page_size + size_to_page_count text_size)
            (data_base / page_size) (data_base / page_size + size_to_page_count data_size) t pfa'
            bitmaps h (omega (arith, own_pages_some V n reserved small)) top at lo hi,
      )

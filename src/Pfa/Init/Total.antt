-- ===== src/Pfa/Init/Total.antt =====
-- What pmap_pfa_init leaves behind.
use swink.Common.{ℕ, ◌+◌, ◌*◌, ◌/◌, ◌^◌, ◌≤◌, ◌<◌, ◌≡◌, refl, ◌∙◌, ap, arith, ok, []}
use swink.Common.Word.{u64, sub64}
use swink.LinkedLists.{LinkedLists}
use swink.Synchs.{lock_init}
use swink.Pmap.{page_size}
use swink.Pfa.Levels.{buddy_levels, size_to_page_count}
use swink.Pfa.State.{Pfa}
use swink.Pfa.Init.{
  pfa_init, init_pages, init_empty, layout, pfa_bytes, buddy_bitmap_required_bytes,
}
use swink.Pfa.Init.Memory.{Initialised, layout-HaveOrder}
use swink.Pfa.Init.Empty.{init_empty-Inv, init_empty_none}
use swink.Pfa.Init.Pages.{whole_pages, init_pages_lem}

-- The pages that the allocator's own structures take.
abbrev pub own_pages : ℕ → ℕ → ℕ → ℕ
own_pages V n reserved = (layout V n (reserved * page_size)).required_bytes / page_size

pub own_pages_some : (V n reserved : ℕ) → n ≤ 2 ^ 20 → 0 < own_pages V n reserved
unfolding layout
own_pages_some V n reserved small = omega arith

whole_size :
    (V n reserved : ℕ)
    → n ≤ 2 ^ 20
    → reserved + own_pages V n reserved ≤ n
    → u64 (reserved * page_size + (layout V n (reserved * page_size)).required_bytes)
      ≡ (reserved + own_pages V n reserved) * page_size
unfolding layout
whole_size V n reserved small room = omega arith

module _ (lists : LinkedLists) (V : ℕ) where
  open lists use {Store, contents}

  pfa_init_eq :
      (text_base text_size data_base data_size n reserved : ℕ) (memory : Pfa Store)
      → n ≤ 2 ^ 20
      → reserved + own_pages V n reserved ≤ n
      → pfa_init lists V 0
          (n * page_size)
          text_base
          text_size
          data_base
          data_size
          (reserved * page_size)
          memory
        ≡ init_pages lists V
            (layout V n (reserved * page_size))
            0
            (n * page_size)
            text_base
            text_size
            data_base
            data_size
            ((reserved + own_pages V n reserved) * page_size)
            (init_empty lists (layout V n (reserved * page_size)) 0 n memory)
  unfolding pfa_init
  pfa_init_eq text_base text_size data_base data_size n reserved memory small room =
      let count : size_to_page_count (sub64 (n * page_size) 0) ≡ n =
        ap size_to_page_count (omega arith) ∙ whole_pages n small in
      rw count (
        ap
          (λ t.
            init_pages lists V (layout V n (reserved * page_size)) 0 (n * page_size) text_base
              text_size data_base data_size t
              (init_empty lists (layout V n (reserved * page_size)) 0 n memory))
          (whole_size V n reserved small room))

  -- For RAM of `n` pages from address 0 on, at most 2 ^ 20, with bitmaps no shorter than the
  -- allocator's structure, a physmap with room for the pages that does not start at 0, a reserved
  -- region of whole pages that leaves room for the allocator's own structures, and kernel text and
  -- data within RAM, initialisation on memory with any contents, in which no list but the six has
  -- an element, returns, with no assertion failed and the lock free. It has built bitmaps for which
  -- the invariant holds, where they replace those in memory, the free pages are those behind the
  -- reserved region and the allocator's structures, and no two buddies below the top level are both
  -- free entries. A slot of the bitmaps in memory is that of the bitmaps built if it lies before
  -- the metadata; behind the start of the metadata it is the word that the metadata holds at its
  -- address. It is that of the bitmaps built there too, as a word of 64 bits, if none of the eight
  -- pages whose metadata it is is reserved or a page of the kernel's text or data. The metadata is
  -- that of kernel text for the pages of the text, and that of kernel data for the other reserved
  -- pages.
  pub pfa_init_lem :
      (text_base text_size data_base data_size n reserved : ℕ) (memory : Pfa Store)
      → (0 < V) × (V + n * 2 ^ 12 ≤ 2 ^ 64)
      → n ≤ 2 ^ 20
      → pfa_bytes ≤ buddy_bitmap_required_bytes n
      → ((k : ℕ) → buddy_levels ≤ k → contents memory.buddy_lists k ≡ [])
      → reserved + own_pages V n reserved ≤ n
      → text_base / page_size + size_to_page_count text_size ≤ n
      → data_base / page_size + size_to_page_count data_size ≤ n
      → (pfa' : Pfa Store) × (bitmaps : ℕ → ℕ → ℕ) × (pfa_init lists V 0
            (n * page_size)
            text_base
            text_size
            data_base
            data_size
            (reserved * page_size)
            memory
          ≡ ok pfa')
        × Initialised lists V
            (layout V n (reserved * page_size))
            (reserved + own_pages V n reserved)
            n
            (text_base / page_size)
            (text_base / page_size + size_to_page_count text_size)
            (data_base / page_size)
            (data_base / page_size + size_to_page_count data_size)
            pfa'
            bitmaps
  pfa_init_lem text_base text_size data_base data_size n reserved memory mapped small long unlinked
        room text data_in =
      let l = layout V n (reserved * page_size) in
      let (pfa', bitmaps, e, initialised) =
        init_pages_lem lists V l text_base text_size data_base data_size n
          (reserved + own_pages V n reserved) (init_empty lists l 0 n memory)
          (layout-HaveOrder V n (reserved * page_size))
          (init_empty-Inv lists V l n memory mapped small unlinked) (unfold init_empty in refl)
          (unfold init_empty in refl) (unfold init_empty lock_init in refl)
          (init_empty_none lists V l n memory mapped small unlinked)
          (omega (arith, own_pages_some V n reserved small)) room text data_in in
      (
        pfa',
        bitmaps,
        pfa_init_eq text_base text_size data_base data_size n reserved memory small room ∙ e,
        initialised,
      )

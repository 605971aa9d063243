-- ===== src/Pmap/Boot/Whole.antt =====
-- pmap_vm_init as a whole: the tables, and the allocator behind them.
use swink.Common.{
  ℕ, ◌+◌, ◌-◌, ◌*◌, ◌/◌, ◌^◌, ◌≤◌, ◌<◌, ◌≡◌, refl, ◌∙◌, ap, subst, arith, [], Result, ok, ◌>>=◌,
}
use swink.Common.Word.{u64}
use swink.LinkedLists.{LinkedLists}
use swink.Synchs.{lock_init}
use swink.Pmap.{page_size}
use swink.Pfa.Levels.{buddy_levels, size_to_page_count}
use swink.Pfa.Levels.Bounds.{size_to_page_count_lem}
use swink.Pfa.State.{Pfa}
use swink.Pfa.Init.{layout, pfa_init, pfa_bytes, buddy_bitmap_required_bytes}
use swink.Pfa.Init.Memory.{Initialised}
use swink.Pfa.Init.Total.{own_pages, pfa_init_lem}
use swink.Pmap.Boot.{KernelMap, Section, mmio_base, section_pa_base, section_size, Vm, pmap_vm_init}
use swink.Pmap.Boot.Spaces.{Maps}
use swink.Pmap.Boot.Kernel.{IsBootable, kernel_space, kernel_tables}
use swink.Pmap.Boot.Run.{vm_init_tables_lem}

-- The allocator's own structures take as many pages wherever they are.
own_pages_same : (V W n r s : ℕ) → own_pages V n r ≡ own_pages W n s
unfolding layout
own_pages_same V W n r s = refl

section_size_lem :
    (s : Section)
    → s.section_start ≤ s.section_end
    → s.section_end < 2 ^ 64
    → section_size s ≡ s.section_end - s.section_start
unfolding section_size
section_size_lem s le word = omega arith

module _ (lists : LinkedLists) (kernel_base : ℕ) (k : KernelMap) (n bootstrap : ℕ) (memory : ℕ → ℕ)
    (pfa : Pfa (lists.Store)) (b : IsBootable k (n * page_size) bootstrap) where
  open lists use {Store, contents}

  -- A part of the image is within memory.
  in_memory :
      (s : Section) (size : ℕ)
      → kernel_base + (k.rw_data.section_end - k.map_start) ≤ n * page_size
      → n * page_size ≤ mmio_base
      → k.map_start ≤ s.section_start
      → s.section_start + size ≤ k.rw_data.section_end
      → section_pa_base kernel_base k s / page_size + size_to_page_count size ≤ n
  unfolding section_pa_base
  in_memory s size image below starts ends =
      omega (
        arith,
        b.image_word,
        b.image_fits,
        size_to_page_count_lem size (omega (arith, b.image_word)),
      )

  -- For a kernel image whose sections are in order and within the addresses below the physmap,
  -- memory from address 0 on that holds the image, does not reach into the device window and has
  -- bitmaps no shorter than the allocator's structure, an aligned bootstrap region below 2 ^ 46
  -- that leaves room in memory for the tables and the allocator's own structures, and buddy lists
  -- of which none but the six has an element, pmap_vm_init returns. The physmap starts one gigabyte
  -- before the end of the address space, the lock of the kernel's pmap is free, and its tables map
  -- the three sections, memory and the device window, each with its template, and nothing else. The
  -- lock of the allocator is free. It has built bitmaps for which the invariant holds for that
  -- physmap, where they replace those in memory, the free pages are those behind the tables and its
  -- own structures, and no two buddies below the top level are both free entries. A slot of the
  -- bitmaps in memory is that of the bitmaps built if it lies before the metadata; behind the start
  -- of the metadata it is the word that the metadata holds at its address. It is that of the
  -- bitmaps built there too, as a word of 64 bits, if none of the eight pages whose metadata it is
  -- is reserved or a page of the kernel's text or data. The metadata is that of kernel text for the
  -- pages of the text, and that of kernel data for the other reserved pages.
  pub pmap_vm_init_lem :
      n * page_size ≤ mmio_base
      → kernel_base + (k.rw_data.section_end - k.map_start) ≤ n * page_size
      → pfa_bytes ≤ buddy_bitmap_required_bytes n
      → ((level : ℕ) → buddy_levels ≤ level → contents pfa.buddy_lists level ≡ [])
      → bootstrap / page_size + kernel_tables k (n * page_size) + own_pages 0 n 0 ≤ n
      → (vm : Vm) × (pfa' : Pfa Store) × (bitmaps : ℕ → ℕ → ℕ) × (pmap_vm_init lists kernel_base k 0
            (n * page_size)
            bootstrap
            memory
            pfa
          ≡ ok (vm, pfa'))
        × (vm.physmap_vm_base ≡ 2 ^ 64 - 2 ^ 30)
        × (vm.pmap_kernel.lock ≡ lock_init)
        × Maps vm.pmap_kernel.table_base vm.arena (kernel_space kernel_base k (n * page_size))
        × Initialised lists vm.physmap_vm_base
            (layout vm.physmap_vm_base n (vm.arena.allocation_ptr / page_size * page_size))
            (vm.arena.allocation_ptr / page_size + own_pages 0 n 0)
            n
            (section_pa_base kernel_base k k.text / page_size)
            (section_pa_base kernel_base k k.text / page_size
              + size_to_page_count (section_size k.text))
            (section_pa_base kernel_base k k.ro_data / page_size)
            (section_pa_base kernel_base k k.ro_data / page_size
              + size_to_page_count (u64 (section_size k.ro_data + section_size k.rw_data)))
            pfa'
            bitmaps
  unfolding pmap_vm_init
  pmap_vm_init_lem below image long unlinked room =
      let (vm, e, at, unlocked, m, used) =
        vm_init_tables_lem kernel_base k (n * page_size) bootstrap memory b below in
      let same : own_pages vm.physmap_vm_base n (vm.arena.allocation_ptr / page_size)
          ≡ own_pages 0 n 0 =
        own_pages_same vm.physmap_vm_base 0 n (vm.arena.allocation_ptr / page_size) 0 in
      let (pfa', bitmaps, e', initialised) =
        pfa_init_lem lists vm.physmap_vm_base (section_pa_base kernel_base k k.text)
          (section_size k.text) (section_pa_base kernel_base k k.ro_data)
          (u64 (section_size k.ro_data + section_size k.rw_data)) n
          (vm.arena.allocation_ptr / page_size) pfa (omega (arith, at), omega (arith, at, below))
          (omega arith) long unlinked (omega (arith, used, room, same))
          (in_memory k.text (section_size k.text) image below b.text_starts
            (omega (arith, b, text_size)))
          (in_memory k.ro_data (u64 (section_size k.ro_data + section_size k.rw_data)) image below
            (omega (arith, b)) (omega (arith, b, ro_size, rw_size))) in
      let whole : vm.arena.allocation_ptr ≡ vm.arena.allocation_ptr / page_size * page_size =
        omega (arith, m.tree.ptr_aligned) in
      (
        vm,
        pfa',
        bitmaps,
        rw e (
            ap
              (λ (p : ℕ).
                pfa_init lists vm.physmap_vm_base 0 (n * page_size)
                  (section_pa_base kernel_base k k.text) (section_size k.text)
                  (section_pa_base kernel_base k k.ro_data)
                  (u64 (section_size k.ro_data + section_size k.rw_data)) p pfa
                >>= λ pfa'. ok (vm, pfa'))
              whole
            ∙ ap (λ (r : Result (Pfa Store)). r >>= λ pfa'. ok (vm, pfa')) e'),
        at,
        unlocked,
        m,
        subst
            (λ (own : ℕ).
              Initialised lists vm.physmap_vm_base
                (layout vm.physmap_vm_base n (vm.arena.allocation_ptr / page_size * page_size))
                (vm.arena.allocation_ptr / page_size + own) n
                (section_pa_base kernel_base k k.text / page_size)
                (section_pa_base kernel_base k k.text / page_size
                  + size_to_page_count (section_size k.text))
                (section_pa_base kernel_base k k.ro_data / page_size)
                (section_pa_base kernel_base k k.ro_data / page_size
                  + size_to_page_count (u64 (section_size k.ro_data + section_size k.rw_data)))
                pfa' bitmaps)
            same initialised,
      )
    where
      text_size : section_size k.text ≡ k.text.section_end - k.text.section_start
      text_size = section_size_lem k.text b.text_sized (omega (arith, b))

      ro_size : section_size k.ro_data ≡ k.ro_data.section_end - k.ro_data.section_start
      ro_size = section_size_lem k.ro_data b.ro_sized (omega (arith, b))

      rw_size : section_size k.rw_data ≡ k.rw_data.section_end - k.rw_data.section_start
      rw_size = section_size_lem k.rw_data b.rw_sized (omega (arith, b))

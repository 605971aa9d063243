-- ===== src/Pmap/Tests.antt =====
-- The theorems on page tables at concrete inputs: an image of five pages, and 512 MB of memory.
use swink.Common.{List, ◌/◌, ◌*◌, ℕ, ◌+◌, ◌-◌, ◌%◌, ◌^◌, ◌≤◌, ◌≡◌, inl, refl, arith, ok, panic}
use swink.Common.Word.{bit_at, u64}
use swink.Synchs.{lock_init}
use swink.Pmap.{page_size, pa_to_kva}
use swink.Pmap.Pte.{target, ◌⊔◌, output_address_to_pte}
use swink.Pmap.Templates.{
  pte_template_page_normal_kern_rw, template_of, is_data, normal_kern_ro, execute_never_misplaced,
}
use swink.Pmap.Tables.{Arena, vm_init_map_contiguous}
use swink.Pmap.Tables.Tree.{leaf}
use swink.Pmap.Tables.Round.{Mapped}
use swink.Pmap.Tables.Range.{table_pages, page_of, vm_init_map_contiguous_lem}
use swink.Pmap.Boot.{section_pa_base, section_size, Vm, vm_init_tables, pmap_vm_init}
use swink.Pmap.Boot.Spaces.{Maps, first_arena, first_Maps}
use swink.Pmap.Boot.Kernel.{kernel_space, kernel_tables}
use swink.Pmap.Boot.Whole.{pmap_vm_init_lem}
use swink.Pmap.Samples.{
  zeros, bootstrap, kernel_base, one_gigabyte, image, image-IsBootable, pages, fresh,
}
use swink.LinkedLists.{function_lists}
use swink.Pfa.State.{Pfa}
use swink.Pfa.Levels.{size_to_page_count}
use swink.Pfa.Init.Memory.{Initialised}
use swink.Pfa.Init.{
  pfa_bytes, layout, buddy_bitmap_required_bytes, required_bytes_below,
  buddy_bitmap_required_bytes_for_level, bitmap_slots,
}
use swink.Pfa.Init.Total.{own_pages}
use swink.Pmap.Boot.Physmap.{physmap_lem, ram_over_mmio_panics}

abbrev ram : ℕ
ram = 2 ^ 29

abbrev physical : ℕ
physical = 74565

abbrev root_only : Maps bootstrap (first_arena zeros bootstrap) (λ y. 0)
root_only = first_Maps zeros bootstrap (omega arith) (omega arith)

abbrev six_hundred : ℕ
six_hundred = 600

abbrev low_address : ℕ
low_address = 2 ^ 20

vm_init_map_contiguous_lem_example :
    (arena' : Arena) × (vm_init_map_contiguous bootstrap pte_template_page_normal_kern_rw
        low_address ram six_hundred
        (first_arena zeros bootstrap)
      ≡ ok arena')
    × Mapped bootstrap pte_template_page_normal_kern_rw ram
        (page_of low_address)
        (page_of low_address)
        (page_of low_address + six_hundred)
        (first_arena zeros bootstrap)
        arena'
    × (arena'.allocation_ptr ≤ bootstrap + page_size + page_size * table_pages six_hundred)
vm_init_map_contiguous_lem_example =
    vm_init_map_contiguous_lem bootstrap pte_template_page_normal_kern_rw ram low_address
      six_hundred (first_arena zeros bootstrap) root_only.role root_only.tree (omega arith)
      (omega arith) (λ y lo hi. omega (arith, root_only.entries y (omega arith)))

room_for_own :
    bootstrap / page_size + kernel_tables image (pages * page_size) + own_pages 0 pages 0 ≤ pages
unfolding layout buddy_bitmap_required_bytes required_bytes_below
    buddy_bitmap_required_bytes_for_level bitmap_slots
room_for_own = omega arith

long_bitmaps : pfa_bytes ≤ buddy_bitmap_required_bytes pages
unfolding buddy_bitmap_required_bytes required_bytes_below buddy_bitmap_required_bytes_for_level
    bitmap_slots
long_bitmaps = omega arith

pmap_vm_init_lem_example :
    (vm : Vm) × (pfa' : Pfa (ℕ → List ℕ)) × (bitmaps : ℕ → ℕ → ℕ) × (pmap_vm_init function_lists
        kernel_base image 0
        (pages * page_size)
        bootstrap
        zeros
        fresh
      ≡ ok (vm, pfa'))
    × (vm.physmap_vm_base ≡ 2 ^ 64 - 2 ^ 30)
    × (vm.pmap_kernel.lock ≡ lock_init)
    × Maps vm.pmap_kernel.table_base vm.arena (kernel_space kernel_base image (pages * page_size))
    × Initialised function_lists vm.physmap_vm_base
        (layout vm.physmap_vm_base pages (vm.arena.allocation_ptr / page_size * page_size))
        (vm.arena.allocation_ptr / page_size + own_pages 0 pages 0)
        pages
        (section_pa_base kernel_base image image.text / page_size)
        (section_pa_base kernel_base image image.text / page_size
          + size_to_page_count (section_size image.text))
        (section_pa_base kernel_base image image.ro_data / page_size)
        (section_pa_base kernel_base image image.ro_data / page_size
          + size_to_page_count (u64 (section_size image.ro_data + section_size image.rw_data)))
        pfa'
        bitmaps
pmap_vm_init_lem_example =
    pmap_vm_init_lem function_lists kernel_base image pages bootstrap zeros fresh
      (image-IsBootable (pages * page_size) (omega arith)) (omega arith) (omega arith) long_bitmaps
      (λ level h. refl) room_for_own

physmap_lem_example :
    (vm : Vm) × (vm_init_tables kernel_base image ram bootstrap zeros ≡ ok vm)
    × (target (
            leaf vm.arena.memory vm.pmap_kernel.table_base
              (page_of (pa_to_kva vm.physmap_vm_base physical)))
          + physical % page_size
        ≡ physical)
physmap_lem_example =
    physmap_lem kernel_base image ram bootstrap zeros (image-IsBootable ram (omega arith))
      (omega arith) physical (inl (omega arith))

ram_over_mmio_panics_example : vm_init_tables kernel_base image one_gigabyte bootstrap zeros ≡ panic
ram_over_mmio_panics_example =
    ram_over_mmio_panics kernel_base image one_gigabyte bootstrap zeros
      (image-IsBootable one_gigabyte (omega arith)) (omega arith)

execute_never_misplaced_example :
    (bit_at (template_of normal_kern_ro ⊔ output_address_to_pte low_address) 59 ≡ 1)
    × (bit_at (template_of normal_kern_ro ⊔ output_address_to_pte low_address) 53 ≡ 0)
    × (bit_at (template_of normal_kern_ro ⊔ output_address_to_pte low_address) 54 ≡ 0)
unfolding is_data
execute_never_misplaced_example = execute_never_misplaced normal_kern_ro low_address refl

-- ===== src/Pmap/Boot.antt =====
-- pmap_vm_init of kernel/machine/pmap/pmap_init.c: the kernel's tables, the physmap and the start of
-- the page-frame allocator.
pub mod Kernel
pub mod Physmap
pub mod Run
pub mod Spaces
pub mod Whole
use swink.Common.{ℕ, ◌+◌, ◌-◌, ◌*◌, ◌/◌, ◌^◌, Result, ok, ◌>>=◌, ltb, if◌then◌else◌}
use swink.Common.Word.{u64, sub64, shr}
use swink.LinkedLists.{LinkedLists}
use swink.Synchs.{Lock, lock_init}
use swink.Pfa.State.{Pfa}
use swink.Pfa.Init.{round_up, pfa_init}
use swink.Pmap.{page_size, page_shift}
use swink.Pmap.Templates.{
  PageTemplate, template_of, normal_kern_rx, normal_kern_ro, normal_kern_rw, device_kern_rw,
}
use swink.Pmap.Tables.{Arena, page_entry_count, allocation_ptr_page_alloc, vm_init_map_contiguous}

abbrev pub vm_l2_entry_size : ℕ
vm_l2_entry_size = page_size * page_entry_count

abbrev pub vm_l1_entry_size : ℕ
vm_l1_entry_size = vm_l2_entry_size * page_entry_count

-- 0xffffff8000000000
abbrev pub vm_kernel_base_address : ℕ
vm_kernel_base_address = 2 ^ 64 - 2 ^ 39

-- 0x3F000000
abbrev pub mmio_base : ℕ
mmio_base = 1056964608

-- 0x40000000
abbrev pub mmio_end : ℕ
mmio_end = 1073741824

-- MAX (lib/ctype.h)
abbrev pub max_of : ℕ → ℕ → ℕ
max_of x y = if ltb y x then x else y

-- The addresses that link.ld gives to the kernel's sections. No section ends before it starts.
pub record Section : Type 0 where
  pub section_start : ℕ
  pub section_end : ℕ

pub record KernelMap : Type 0 where
  pub map_start : ℕ
  pub text : Section
  pub ro_data : Section
  pub rw_data : Section

unfoldable pub section_pa_base_offset : KernelMap → Section → ℕ
section_pa_base_offset k s = sub64 s.section_start k.map_start

unfoldable pub section_pa_base : ℕ → KernelMap → Section → ℕ
unfolding section_pa_base_offset
section_pa_base kernel_base k s = u64 (kernel_base + section_pa_base_offset k s)

unfoldable pub section_va_base : KernelMap → Section → ℕ
unfolding section_pa_base_offset
section_va_base k s = u64 (vm_kernel_base_address + section_pa_base_offset k s)

unfoldable pub section_size : Section → ℕ
section_size s = sub64 s.section_end s.section_start

unfoldable pub section_page_count : Section → ℕ
unfolding section_size
section_page_count s = shr (section_size s) page_shift

-- The number of pages for `size` bytes: `ROUND_UP(size, PAGE_SIZE) >> PAGE_SHIFT`
abbrev pub rounded_page_count : ℕ → ℕ
rounded_page_count size = shr (u64 (size + page_size - 1) / page_size * page_size) page_shift

-- The place of the physmap, at the end of the kernel's addresses.
unfoldable pub physmap_l1_cnt : ℕ → ℕ
physmap_l1_cnt ram_size =
    u64 (max_of ram_size mmio_end + vm_l1_entry_size - 1)
    / vm_l1_entry_size
    * vm_l1_entry_size
    / vm_l1_entry_size

unfoldable pub physmap_base : ℕ → ℕ
unfolding physmap_l1_cnt
physmap_base ram_size =
    u64
      (vm_kernel_base_address + vm_l1_entry_size * sub64 page_entry_count (physmap_l1_cnt ram_size))

pub record PmapKernel : Type 0 where
  pub lock : Lock
  pub table_base : ℕ

-- What pmap_vm_init writes: `pmap_kernel`, `physmap_vm_base`, memory and the arena's pointer.
pub record Vm : Type 0 where
  pub pmap_kernel : PmapKernel
  pub physmap_vm_base : ℕ
  pub arena : Arena

-- One of the kernel's sections
unfoldable pub map_section : ℕ → KernelMap → ℕ → PageTemplate → Section → Arena → Result Arena
unfolding template_of section_va_base section_pa_base section_page_count
map_section kernel_base k table_base template s arena =
    vm_init_map_contiguous table_base (template_of template) (section_va_base k s)
      (section_pa_base kernel_base k s) (section_page_count s) arena

-- The five mappings of pmap_vm_init, into the table at `table_base`.
unfoldable pub map_kernel : ℕ → KernelMap → ℕ → ℕ → Arena → Result Vm
unfolding map_section physmap_base
map_kernel kernel_base k ram_size table_base arena0 =
    map_section kernel_base k table_base normal_kern_rx k.text arena0 >>= λ arena1.
    map_section kernel_base k table_base normal_kern_ro k.ro_data arena1 >>= λ arena2.
    map_section kernel_base k table_base normal_kern_rw k.rw_data arena2 >>= λ arena3.
    vm_init_map_contiguous table_base (template_of normal_kern_rw) (physmap_base ram_size) 0
      (rounded_page_count ram_size) arena3
    >>= λ arena4.
        vm_init_map_contiguous table_base (template_of device_kern_rw)
          (u64 (physmap_base ram_size + mmio_base)) mmio_base
          (rounded_page_count (mmio_end - mmio_base)) arena4
        >>= λ arena5. ok (record {
          pmap_kernel = record { lock = lock_init; table_base = table_base };
          physmap_vm_base = physmap_base ram_size;
          arena = arena5;
        })

-- The part of pmap_vm_init up to the switch to the new tables.
unfoldable pub vm_init_tables : ℕ → KernelMap → ℕ → ℕ → (ℕ → ℕ) → Result Vm
unfolding allocation_ptr_page_alloc map_kernel
vm_init_tables kernel_base k ram_size bootstrap_pa_reserved memory =
    let (table_base, arena0) =
      allocation_ptr_page_alloc 0
        (record { memory = memory; allocation_ptr = bootstrap_pa_reserved }) in
    map_kernel kernel_base k ram_size table_base arena0

-- pmap_vm_init. The allocator's structures are memory of their own.
module _ (lists : LinkedLists) where
  open lists use {Store}

  unfoldable pub pmap_vm_init :
      ℕ → KernelMap → ℕ → ℕ → ℕ → (ℕ → ℕ) → Pfa Store → Result (Vm × Pfa Store)
  unfolding vm_init_tables pfa_init section_pa_base section_size
  pmap_vm_init kernel_base k ram_base ram_size bootstrap_pa_reserved memory pfa =
      vm_init_tables kernel_base k ram_size bootstrap_pa_reserved memory >>= λ vm.
      pfa_init lists vm.physmap_vm_base ram_base ram_size (section_pa_base kernel_base k k.text)
        (section_size k.text) (section_pa_base kernel_base k k.ro_data)
        (u64 (section_size k.ro_data + section_size k.rw_data)) vm.arena.allocation_ptr pfa
      >>= λ pfa'. ok (vm, pfa')

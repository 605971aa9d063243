-- ===== src/Pmap/Boot/Kernel.antt =====
-- The tables that pmap_vm_init leaves behind.
use swink.Common.{ℕ, ◌+◌, ◌-◌, ◌*◌, ◌/◌, ◌%◌, ◌^◌, ◌≤◌, ◌<◌, ◌≡◌, refl, subst₂, arith, Result, ok}
use swink.Pmap.{page_size}
use swink.Pmap.Templates.{
  PageTemplate, template_of, normal_kern_rx, normal_kern_ro, normal_kern_rw, device_kern_rw,
}
use swink.Pmap.Tables.{Arena, vm_init_map_contiguous}
use swink.Pmap.Tables.Range.{table_pages, page_of}
use swink.Pmap.Boot.{
  Section, KernelMap, section_pa_base, section_va_base, section_page_count, physmap_base, mmio_base,
  mmio_end, map_section,
}
use swink.Pmap.Boot.Spaces.{Maps, overlay, nothing, map_contiguous_Maps}

-- The first page of a section, counted from the kernel's first address, and its number of pages.
abbrev pub section_page : KernelMap → Section → ℕ
section_page k s = (s.section_start - k.map_start) / page_size

abbrev pub section_pages : Section → ℕ
section_pages s = (s.section_end - s.section_start) / page_size

module _ (k : KernelMap) (s : Section) (starts : k.map_start ≤ s.section_start)
    (sized : s.section_start ≤ s.section_end)
    (ends : s.section_end ≤ k.map_start + (2 ^ 39 - 2 ^ 30)) (last : s.section_end < 2 ^ 64) where
  section_va_base_page : page_of (section_va_base k s) ≡ section_page k s
  unfolding section_va_base
  section_va_base_page = ground arith

  section_page_count_lem : section_page_count s ≡ section_pages s
  unfolding section_page_count
  section_page_count_lem = ground arith

  map_section_Maps :
      (kernel_base l1 : ℕ) (template : PageTemplate) (arena : Arena) (space : ℕ → ℕ)
      → Maps l1 arena space
      → arena.allocation_ptr + 2 * page_size * section_pages s ≤ 2 ^ 47
      → ((y : ℕ) → section_page k s ≤ y → y < section_page k s + section_pages s → space y ≡ 0)
      → (arena' : Arena) × (map_section kernel_base k l1 template s arena ≡ ok arena')
        × Maps l1 arena' (
            overlay
              (section_page k s)
              (section_pages s)
              (template_of template)
              (section_pa_base kernel_base k s)
              space)
        × (arena'.allocation_ptr ≤ arena.allocation_ptr + page_size * table_pages (section_pages s))
  unfolding map_section
  map_section_Maps kernel_base l1 template arena space m room free =
      let (arena', e, m', p) =
        map_contiguous_Maps l1 (template_of template) (section_pa_base kernel_base k s)
          (section_va_base k s) (section_page_count s) arena space m
          (omega (arith, section_va_base_page, section_page_count_lem))
          (omega (arith, section_page_count_lem))
          (λ y lo hi.
            free y (omega (arith, section_va_base_page))
              (omega (arith, section_va_base_page, section_page_count_lem))) in
      (
        arena',
        e,
        subst₂
            (λ (from count : ℕ).
              Maps l1 arena'
                (overlay from count (template_of template) (section_pa_base kernel_base k s) space))
            section_va_base_page section_page_count_lem m',
        omega (arith, p, section_page_count_lem),
      )

-- What the kernel's image, memory and the bootstrap region must be for the tables to hold it all.
pub record IsBootable (k : KernelMap) (ram_size bootstrap : ℕ) : Type 0 where
  pub text_starts : k.map_start ≤ k.text.section_start
  pub text_sized : k.text.section_start ≤ k.text.section_end
  pub ro_starts : k.text.section_end ≤ k.ro_data.section_start
  pub ro_sized : k.ro_data.section_start ≤ k.ro_data.section_end
  pub rw_starts : k.ro_data.section_end ≤ k.rw_data.section_start
  pub rw_sized : k.rw_data.section_start ≤ k.rw_data.section_end
  pub image_fits : k.rw_data.section_end ≤ k.map_start + (2 ^ 39 - 2 ^ 30)
  pub image_word : k.rw_data.section_end < 2 ^ 64
  pub ram_addressable : ram_size ≤ mmio_end
  pub bootstrap_aligned : bootstrap % 4096 ≡ 0
  pub bootstrap_low : bootstrap ≤ 2 ^ 46

-- The page number of the physmap's start.
abbrev pub physmap_page : ℕ
physmap_page = 2 ^ 27 - 2 ^ 18

-- The entries of the kernel's address space, as each mapping adds to them.
unfoldable pub text_space : ℕ → KernelMap → ℕ → ℕ
text_space kernel_base k =
    overlay (section_page k k.text) (section_pages k.text) (template_of normal_kern_rx)
      (section_pa_base kernel_base k k.text) nothing

unfoldable pub ro_space : ℕ → KernelMap → ℕ → ℕ
ro_space kernel_base k =
    overlay (section_page k k.ro_data) (section_pages k.ro_data) (template_of normal_kern_ro)
      (section_pa_base kernel_base k k.ro_data) (text_space kernel_base k)

unfoldable pub image_space : ℕ → KernelMap → ℕ → ℕ
image_space kernel_base k =
    overlay (section_page k k.rw_data) (section_pages k.rw_data) (template_of normal_kern_rw)
      (section_pa_base kernel_base k k.rw_data) (ro_space kernel_base k)

unfoldable pub ram_space : ℕ → KernelMap → ℕ → ℕ → ℕ
ram_space kernel_base k ram_size =
    overlay physmap_page ((ram_size + page_size - 1) / page_size) (template_of normal_kern_rw) 0
      (image_space kernel_base k)

unfoldable pub kernel_space : ℕ → KernelMap → ℕ → ℕ → ℕ
kernel_space kernel_base k ram_size =
    overlay (physmap_page + mmio_base / page_size) ((mmio_end - mmio_base) / page_size)
      (template_of device_kern_rw) mmio_base (ram_space kernel_base k ram_size)

-- The pages that the tables take at most, after each mapping.
abbrev pub text_tables : KernelMap → ℕ
text_tables k = 1 + table_pages (section_pages k.text)

abbrev pub ro_tables : KernelMap → ℕ
ro_tables k = text_tables k + table_pages (section_pages k.ro_data)

abbrev pub image_tables : KernelMap → ℕ
image_tables k = ro_tables k + table_pages (section_pages k.rw_data)

abbrev pub ram_tables : KernelMap → ℕ → ℕ
ram_tables k ram_size = image_tables k + table_pages ((ram_size + page_size - 1) / page_size)

abbrev pub kernel_tables : KernelMap → ℕ → ℕ
kernel_tables k ram_size = ram_tables k ram_size + table_pages ((mmio_end - mmio_base) / page_size)

-- The tables have come to map `space`, and took no more pages than `pages` need.
abbrev pub Step : ℕ → Result Arena → Arena → (ℕ → ℕ) → ℕ → Type 0
Step l1 run arena space pages =
    (arena' : Arena) × (run ≡ ok arena')
    × Maps l1 arena' space
    × (arena'.allocation_ptr ≤ arena.allocation_ptr + page_size * table_pages pages)

pub physmap_base_lem :
    (ram_size : ℕ) → ram_size ≤ mmio_end → physmap_base ram_size ≡ 2 ^ 64 - 2 ^ 30
unfolding physmap_base
physmap_base_lem ram_size le = ground arith

module _ (kernel_base : ℕ) (k : KernelMap) (ram_size bootstrap : ℕ)
    (b : IsBootable k ram_size bootstrap) (arena : Arena)
    (room : arena.allocation_ptr + 2 * page_size * 2 ^ 27 ≤ 2 ^ 47) where
  pub text-Step :
      Maps bootstrap arena nothing
      → Step bootstrap
          (map_section kernel_base k bootstrap normal_kern_rx k.text arena)
          arena
          (text_space kernel_base k)
          (section_pages k.text)
  unfolding text_space
  text-Step m =
      map_section_Maps k k.text b.text_starts b.text_sized (omega (arith, b)) (omega (arith, b))
        kernel_base bootstrap normal_kern_rx arena nothing m (omega (arith, b)) (λ y lo hi. refl)

  pub ro-Step :
      Maps bootstrap arena (text_space kernel_base k)
      → Step bootstrap
          (map_section kernel_base k bootstrap normal_kern_ro k.ro_data arena)
          arena
          (ro_space kernel_base k)
          (section_pages k.ro_data)
  unfolding text_space ro_space
  ro-Step m =
      map_section_Maps k k.ro_data (omega (arith, b)) b.ro_sized (omega (arith, b))
        (omega (arith, b)) kernel_base bootstrap normal_kern_ro arena (text_space kernel_base k) m
        (omega (arith, b)) (λ y lo hi. ground (arith, b))

  pub rw-Step :
      Maps bootstrap arena (ro_space kernel_base k)
      → Step bootstrap
          (map_section kernel_base k bootstrap normal_kern_rw k.rw_data arena)
          arena
          (image_space kernel_base k)
          (section_pages k.rw_data)
  unfolding text_space ro_space image_space
  rw-Step m =
      map_section_Maps k k.rw_data (omega (arith, b)) b.rw_sized (omega (arith, b))
        (omega (arith, b)) kernel_base bootstrap normal_kern_rw arena (ro_space kernel_base k) m
        (omega (arith, b)) (λ y lo hi. ground (arith, b))

  pub image_below : (y : ℕ) → physmap_page ≤ y → image_space kernel_base k y ≡ 0
  unfolding text_space ro_space image_space
  image_below y lo = ground (arith, b)

  pub ram-Step :
      Maps bootstrap arena (image_space kernel_base k)
      → Step bootstrap
          (vm_init_map_contiguous bootstrap
            (template_of normal_kern_rw)
            (2 ^ 64 - 2 ^ 30)
            0
            ((ram_size + page_size - 1) / page_size)
            arena)
          arena
          (ram_space kernel_base k ram_size)
          ((ram_size + page_size - 1) / page_size)
  unfolding ram_space
  ram-Step m =
      map_contiguous_Maps bootstrap (template_of normal_kern_rw) 0 (2 ^ 64 - 2 ^ 30)
        ((ram_size + page_size - 1) / page_size) arena (image_space kernel_base k) m
        (omega (arith, b)) (omega (arith, b)) (λ y lo hi. image_below y (omega arith))

  pub mmio-Step :
      ram_size ≤ mmio_base
      → Maps bootstrap arena (ram_space kernel_base k ram_size)
      → Step bootstrap
          (vm_init_map_contiguous bootstrap
            (template_of device_kern_rw)
            (2 ^ 64 - 2 ^ 30 + mmio_base)
            mmio_base
            ((mmio_end - mmio_base) / page_size)
            arena)
          arena
          (kernel_space kernel_base k ram_size)
          ((mmio_end - mmio_base) / page_size)
  unfolding kernel_space ram_space
  mmio-Step below m =
      map_contiguous_Maps bootstrap (template_of device_kern_rw) mmio_base
        (2 ^ 64 - 2 ^ 30 + mmio_base) ((mmio_end - mmio_base) / page_size) arena
        (ram_space kernel_base k ram_size) m (omega (arith, b)) (omega (arith, b))
        (λ y lo hi. ground (arith, b, image_below y (omega arith)))

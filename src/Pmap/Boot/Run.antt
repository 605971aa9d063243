-- ===== src/Pmap/Boot/Run.antt =====
-- The five mappings of pmap_vm_init in a row.
use swink.Common.{ℕ, ◌+◌, ◌-◌, ◌*◌, ◌/◌, ◌^◌, ◌≤◌, ◌≡◌, refl, ◌∙◌, ap, arith, Result, ok, ◌>>=◌}
use swink.Common.Word.{u64}
use swink.Synchs.{lock_init}
use swink.Pmap.{page_size}
use swink.Pmap.Templates.{
  template_of, normal_kern_rx, normal_kern_ro, normal_kern_rw, device_kern_rw,
}
use swink.Pmap.Tables.{Arena, vm_init_map_contiguous}
use swink.Pmap.Boot.{
  KernelMap, physmap_base, rounded_page_count, mmio_base, mmio_end, map_section, map_kernel, Vm,
  vm_init_tables,
}
use swink.Pmap.Boot.Spaces.{Maps, first_page, first_arena, first_Maps}
use swink.Pmap.Boot.Kernel.{
  IsBootable, ro_space, image_space, ram_space, kernel_space, ro_tables, image_tables, ram_tables,
  kernel_tables, physmap_base_lem, text-Step, ro-Step, rw-Step, ram-Step, mmio-Step,
}

module _ (kernel_base : ℕ) (k : KernelMap) (ram_size bootstrap : ℕ) (memory : ℕ → ℕ)
    (b : IsBootable k ram_size bootstrap) where
  -- The end of the run is that of the last mapping.
  abbrev pub finish : Result Arena → Result Vm
  finish r = r >>= λ arena. ok (record {
    pmap_kernel = record { lock = lock_init; table_base = bootstrap };
    physmap_vm_base = 2 ^ 64 - 2 ^ 30;
    arena = arena;
  })

  pub run_eq :
      (arena1 arena2 arena3 arena4 : Arena)
      → map_section kernel_base k bootstrap normal_kern_rx k.text (first_arena memory bootstrap)
        ≡ ok arena1
      → map_section kernel_base k bootstrap normal_kern_ro k.ro_data arena1 ≡ ok arena2
      → map_section kernel_base k bootstrap normal_kern_rw k.rw_data arena2 ≡ ok arena3
      → vm_init_map_contiguous bootstrap
          (template_of normal_kern_rw)
          (2 ^ 64 - 2 ^ 30)
          0
          ((ram_size + page_size - 1) / page_size)
          arena3
        ≡ ok arena4
      → vm_init_tables kernel_base k ram_size bootstrap memory
        ≡ finish (
            vm_init_map_contiguous bootstrap
              (template_of device_kern_rw)
              (2 ^ 64 - 2 ^ 30 + mmio_base)
              mmio_base
              ((mmio_end - mmio_base) / page_size)
              arena4)
  unfolding vm_init_tables map_kernel
  run_eq arena1 arena2 arena3 arena4 e1 e2 e3 e4 =
      ap (λ (p : ℕ × Arena). map_kernel kernel_base k ram_size p.0 p.1)
        (first_page memory bootstrap b.bootstrap_aligned (omega (arith, b)))
      ∙ rw e1 (rw e2 (rw e3 (rw (base, count, mmio) (rw e4 (rw mmio_count refl)))))
    where
      base : physmap_base ram_size ≡ 2 ^ 64 - 2 ^ 30
      base = physmap_base_lem ram_size b.ram_addressable

      count : rounded_page_count ram_size ≡ (ram_size + page_size - 1) / page_size
      count = omega (arith, b)

      mmio : u64 (2 ^ 64 - 2 ^ 30 + mmio_base) ≡ 2 ^ 64 - 2 ^ 30 + mmio_base
      mmio = omega arith

      mmio_count : rounded_page_count (mmio_end - mmio_base) ≡ (mmio_end - mmio_base) / page_size
      mmio_count = omega arith

  -- The first three mappings, and the fourth.
  pub upto_ram :
      (arena1 arena2 arena3 arena4 : Arena) × (map_section kernel_base k bootstrap normal_kern_rx
          k.text
          (first_arena memory bootstrap)
        ≡ ok arena1)
      × (map_section kernel_base k bootstrap normal_kern_ro k.ro_data arena1 ≡ ok arena2)
      × (map_section kernel_base k bootstrap normal_kern_rw k.rw_data arena2 ≡ ok arena3)
      × (vm_init_map_contiguous bootstrap
            (template_of normal_kern_rw)
            (2 ^ 64 - 2 ^ 30)
            0
            ((ram_size + page_size - 1) / page_size)
            arena3
          ≡ ok arena4)
      × Maps bootstrap arena4 (ram_space kernel_base k ram_size)
      × (arena4.allocation_ptr ≤ bootstrap + page_size * ram_tables k ram_size)
  upto_ram =
      let (arena1, e1, m1, p1) =
        text-Step kernel_base k ram_size bootstrap b (first_arena memory bootstrap)
          (omega (arith, b)) (first_Maps memory bootstrap b.bootstrap_aligned (omega (arith, b))) in
      let (arena2, e2, m2, p2) =
        ro-Step kernel_base k ram_size bootstrap b arena1 (omega (arith, p1, b)) m1 in
      let (arena3, e3, m3, p3) = from_ro arena2 m2 (omega (arith, p1, p2, b)) in
      let (arena4, e4, m4, p4) = from_image arena3 m3 (omega (arith, p3)) in
      (arena1, arena2, arena3, arena4, e1, e2, e3, e4, m4, p4)
    where
      from_ro :
          (arena2 : Arena)
          → Maps bootstrap arena2 (ro_space kernel_base k)
          → arena2.allocation_ptr ≤ bootstrap + page_size * ro_tables k
          → (arena3 : Arena) × (map_section kernel_base k bootstrap normal_kern_rw k.rw_data arena2
              ≡ ok arena3)
            × Maps bootstrap arena3 (image_space kernel_base k)
            × (arena3.allocation_ptr ≤ bootstrap + page_size * image_tables k)
      from_ro arena2 m2 p2 =
          let (arena3, e3, m3, p3) =
            rw-Step kernel_base k ram_size bootstrap b arena2 (omega (arith, p2, b)) m2 in
          (arena3, e3, m3, omega (arith, p2, p3, b))

      from_image :
          (arena3 : Arena)
          → Maps bootstrap arena3 (image_space kernel_base k)
          → arena3.allocation_ptr ≤ bootstrap + page_size * image_tables k
          → (arena4 : Arena) × (vm_init_map_contiguous bootstrap
                (template_of normal_kern_rw)
                (2 ^ 64 - 2 ^ 30)
                0
                ((ram_size + page_size - 1) / page_size)
                arena3
              ≡ ok arena4)
            × Maps bootstrap arena4 (ram_space kernel_base k ram_size)
            × (arena4.allocation_ptr ≤ bootstrap + page_size * ram_tables k ram_size)
      from_image arena3 m3 p3 =
          let (arena4, e4, m4, p4) =
            ram-Step kernel_base k ram_size bootstrap b arena3 (omega (arith, p3, b)) m3 in
          (arena4, e4, m4, omega (arith, p3, p4, b))

  -- For a kernel image whose sections are in order and within the addresses below the physmap,
  -- memory that does not reach into the device window, and an aligned bootstrap region below 2 ^
  -- 46, pmap_vm_init up to the switch of tables returns. The physmap starts one gigabyte before the
  -- end of the address space, the lock of the kernel's pmap is free, and its tables map the three
  -- sections, memory and the device window, each with its template, and nothing else.
  pub vm_init_tables_lem :
      ram_size ≤ mmio_base
      → (vm : Vm) × (vm_init_tables kernel_base k ram_size bootstrap memory ≡ ok vm)
        × (vm.physmap_vm_base ≡ 2 ^ 64 - 2 ^ 30)
        × (vm.pmap_kernel.lock ≡ lock_init)
        × Maps vm.pmap_kernel.table_base vm.arena (kernel_space kernel_base k ram_size)
        × (vm.arena.allocation_ptr ≤ bootstrap + page_size * kernel_tables k ram_size)
  vm_init_tables_lem below =
      let (arena1, arena2, arena3, arena4, e1, e2, e3, e4, m4, p4) = upto_ram in
      let (arena5, e5, m5, p5) = last arena4 m4 p4 in
      (
        record {
          pmap_kernel = record { lock = lock_init; table_base = bootstrap };
          physmap_vm_base = 2 ^ 64 - 2 ^ 30;
          arena = arena5;
        },
        run_eq arena1 arena2 arena3 arena4 e1 e2 e3 e4 ∙ ap finish e5,
        refl,
        refl,
        m5,
        p5,
      )
    where
      last :
          (arena4 : Arena)
          → Maps bootstrap arena4 (ram_space kernel_base k ram_size)
          → arena4.allocation_ptr ≤ bootstrap + page_size * ram_tables k ram_size
          → (arena5 : Arena) × (vm_init_map_contiguous bootstrap
                (template_of device_kern_rw)
                (2 ^ 64 - 2 ^ 30 + mmio_base)
                mmio_base
                ((mmio_end - mmio_base) / page_size)
                arena4
              ≡ ok arena5)
            × Maps bootstrap arena5 (kernel_space kernel_base k ram_size)
            × (arena5.allocation_ptr ≤ bootstrap + page_size * kernel_tables k ram_size)
      last arena4 m4 p4 =
          let (arena5, e5, m5, p5) =
            mmio-Step kernel_base k ram_size bootstrap b arena4 (omega (arith, p4, b)) below m4 in
          (arena5, e5, m5, omega (arith, p4, p5))

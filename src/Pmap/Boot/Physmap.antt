-- ===== src/Pmap/Boot/Physmap.antt =====
-- The physmap in the tables of pmap_vm_init, against pmap_pa_to_kva of kernel/machine/pmap/pmap.c.
use swink.Common.{
  ℕ, ◌+◌, ◌-◌, ◌*◌, ◌/◌, ◌%◌, ◌^◌, ◌≤◌, ◌<◌, ◌≡◌, ◌⊎◌, inl, inr, ◌∙◌, ap, arith, ok, panic,
}
use swink.Common.Word.{u64}
use swink.Pmap.{page_size, pa_to_kva}
use swink.Pmap.Pte.{target, entry_lem}
use swink.Pmap.Templates.{
  PageTemplate, template_of, template_of-IsTemplate, normal_kern_rw, device_kern_rw,
}
use swink.Pmap.Tables.Tree.{leaf}
use swink.Pmap.Tables.Round.{entry_for}
use swink.Pmap.Tables.Range.{page_of, vm_init_map_contiguous_panics}
use swink.Pmap.Boot.{KernelMap, mmio_base, mmio_end, Vm, vm_init_tables}
use swink.Pmap.Boot.Kernel.{IsBootable, kernel_space, ram_space, physmap_page}
use swink.Pmap.Boot.Run.{vm_init_tables_lem, upto_ram, run_eq, finish}

-- The entries of the physmap.
module _ (kernel_base : ℕ) (k : KernelMap) (ram_size pa : ℕ) where
  ram_entry :
      ram_size ≤ mmio_base
      → pa < ram_size
      → kernel_space kernel_base k ram_size (page_of (pa_to_kva (2 ^ 64 - 2 ^ 30) pa))
        ≡ entry_for (template_of normal_kern_rw) 0 (pa / page_size)
  unfolding kernel_space ram_space pa_to_kva
  ram_entry le lt = ground (
    arith,
    ap (entry_for (template_of normal_kern_rw) 0)
        {x = page_of (u64 (2 ^ 64 - 2 ^ 30 + pa)) - physmap_page} {y = pa / page_size}
        (omega arith),
  )

  device_entry :
      mmio_base ≤ pa
      → pa < mmio_end
      → kernel_space kernel_base k ram_size (page_of (pa_to_kva (2 ^ 64 - 2 ^ 30) pa))
        ≡ entry_for (template_of device_kern_rw) mmio_base ((pa - mmio_base) / page_size)
  unfolding kernel_space pa_to_kva
  device_entry lo hi = ground (
    arith,
    ap (entry_for (template_of device_kern_rw) mmio_base)
        {x = page_of (u64 (2 ^ 64 - 2 ^ 30 + pa)) - (physmap_page + mmio_base / page_size)}
        {y = (pa - mmio_base) / page_size} (omega arith),
  )

  entry_for-target :
      (t : PageTemplate) (phys_base page_i : ℕ)
      → phys_base + page_i * page_size ≡ pa / page_size * page_size
      → pa < 2 ^ 47
      → target (entry_for (template_of t) phys_base page_i) + pa % page_size ≡ pa
  entry_for-target t phys_base page_i e lt = omega (
    arith,
    (entry_lem (template_of t) (u64 (phys_base + page_i * page_size)) (template_of-IsTemplate t)).1,
  )

  physmap_entry :
      ram_size ≤ mmio_base
      → (pa < ram_size) ⊎ ((mmio_base ≤ pa) × (pa < mmio_end))
      → target (kernel_space kernel_base k ram_size (page_of (pa_to_kva (2 ^ 64 - 2 ^ 30) pa)))
          + pa % page_size
        ≡ pa
  physmap_entry le (inl lt) =
      ap (λ (e : ℕ). target e + pa % page_size) (ram_entry le lt)
      ∙ entry_for-target normal_kern_rw 0 (pa / page_size) (omega arith) (omega arith)
  physmap_entry le (inr (lo, hi)) =
      ap (λ (e : ℕ). target e + pa % page_size) (device_entry lo hi)
      ∙ entry_for-target device_kern_rw mmio_base ((pa - mmio_base) / page_size) (omega arith)
          (omega arith)

module _ (kernel_base : ℕ) (k : KernelMap) (ram_size bootstrap : ℕ) (memory : ℕ → ℕ)
    (b : IsBootable k ram_size bootstrap) where
  -- For a kernel image whose sections are in order and within the addresses below the physmap,
  -- memory that does not reach into the device window, and an aligned bootstrap region below 2 ^
  -- 46, pmap_vm_init up to the switch of tables returns, and a walk through its tables from what
  -- pmap_pa_to_kva answers for a physical address, in memory or in the device window, ends at that
  -- address.
  pub physmap_lem :
      ram_size ≤ mmio_base
      → (pa : ℕ) → (pa < ram_size) ⊎ ((mmio_base ≤ pa) × (pa < mmio_end))
      → (vm : Vm) × (vm_init_tables kernel_base k ram_size bootstrap memory ≡ ok vm)
        × (target (
                leaf vm.arena.memory vm.pmap_kernel.table_base
                  (page_of (pa_to_kva vm.physmap_vm_base pa)))
              + pa % page_size
            ≡ pa)
  physmap_lem below pa within =
      let (vm, e, at, unlocked, m, used) =
        vm_init_tables_lem kernel_base k ram_size bootstrap memory b below in
      (
        vm,
        e,
        ap (λ (e : ℕ). target e + pa % page_size)
              (m.entries (page_of (pa_to_kva vm.physmap_vm_base pa)) (omega arith))
            ∙ ap
                (λ (base : ℕ).
                  target (kernel_space kernel_base k ram_size (page_of (pa_to_kva base pa)))
                  + pa % page_size)
                at
            ∙ physmap_entry kernel_base k ram_size pa below within,
      )

  -- For the same images, memory that reaches into the device window but not past its end makes
  -- pmap_vm_init panic: the window's first page is mapped twice.
  pub ram_over_mmio_panics :
      mmio_base < ram_size → vm_init_tables kernel_base k ram_size bootstrap memory ≡ panic
  unfolding ram_space
  ram_over_mmio_panics over =
      let (arena1, arena2, arena3, arena4, e1, e2, e3, e4, m4, p4) =
        upto_ram kernel_base k ram_size bootstrap memory b in
      run_eq kernel_base k ram_size bootstrap memory b arena1 arena2 arena3 arena4 e1 e2 e3 e4
      ∙ ap (finish kernel_base k ram_size bootstrap memory b) (
          vm_init_map_contiguous_panics bootstrap (template_of device_kern_rw) mmio_base
            (2 ^ 64 - 2 ^ 30 + mmio_base) ((mmio_end - mmio_base) / page_size) arena4 m4.role
            m4.tree (omega arith) (omega (arith, p4, b)) (physmap_page + mmio_base / page_size)
            (omega arith) (omega arith)
            (ap (λ (e : ℕ). e % 2) (m4.entries (physmap_page + mmio_base / page_size) (omega arith))
              ∙ ground (
                arith,
                (entry_lem (template_of normal_kern_rw)
                    (u64 (0 + (mmio_base / page_size) * page_size))
                    (template_of-IsTemplate normal_kern_rw)).0,
              )))

-- ===== src/Pmap.antt =====
-- kernel/machine/pmap/pmap.c and the constants of kernel/core/vm/vm_asm.h: physical addresses and
-- the physmap, which maps all of them from `physmap_vm_base` on.
pub mod Boot
pub mod Samples
mod Tests
pub mod Pte
pub mod Tables
pub mod Templates
use swink.Common.{ℕ, ◌+◌, ◌-◌, ◌^◌, ◌<◌, ◌≡◌, arith, Result, ok, panic, assert, ◌>>◌, leb}
use swink.Common.Word.{u64, sub64}

abbrev pub page_shift : ℕ
page_shift = 12

abbrev pub page_size : ℕ
page_size = 2 ^ 12

-- PHYS_ADDR_INVALID
abbrev pub phys_addr_invalid : ℕ
phys_addr_invalid = 2 ^ 64 - 1

-- pmap_kva_to_pa: there is no paging yet, so this is the identity.
unfoldable pub kva_to_pa : ℕ → ℕ
kva_to_pa kva = kva

-- The global `physmap_vm_base` is an argument.
module _ (physmap_vm_base : ℕ) where
  unfoldable pub pa_to_kva : ℕ → ℕ
  pa_to_kva pa = u64 (physmap_vm_base + pa)

  -- The REQUIRE stays in release builds.
  unfoldable pub physmap_kva_to_pa : ℕ → Result ℕ
  physmap_kva_to_pa kva = do assert (leb physmap_vm_base kva); ok (sub64 kva physmap_vm_base)

-- Where the physical address is within the physmap, which ends below 2 ^ 64, translating it to a
-- virtual address and back succeeds and gives the address.
pub physmap_kva_to_pa-pa_to_kva :
    (base pa : ℕ) → base + pa < 2 ^ 64 → physmap_kva_to_pa base (pa_to_kva base pa) ≡ ok pa
unfolding physmap_kva_to_pa pa_to_kva
physmap_kva_to_pa-pa_to_kva base pa h = ground arith

-- An address is translated exactly when it is not below the physmap; one below it panics.
pub physmap_kva_to_pa_below : (base kva : ℕ) → kva < base → physmap_kva_to_pa base kva ≡ panic
unfolding physmap_kva_to_pa
physmap_kva_to_pa_below base kva h = ground arith

-- ===== src/PlatformRegisters/Fields.antt =====
-- What the system registers hold in each of their fields.
use swink.Common.{ℕ, ◌-◌, ◌/◌, ◌%◌, ◌^◌, ◌≡◌, refl, Bool, true, false, if◌then◌else◌}
use swink.Common.Word.{bit_at}
use swink.Pmap.Boot.{vm_kernel_base_address}
use swink.PlatformRegisters.{
  TcrField, t0sz, irgn0, orgn0, sh0, tg0, t1sz, a1, irgn1, orgn1, sh1, tg1, ips, tcr_shift,
  tcr_value, tcr_config, tcr_el1_config, SctlrBit, mmu, alignment_check, data_cache, sa, sa0, uma,
  instruction_cache, wxn, sctlr_shift, sctlr_bit, sctlr_el1_bootstrap_config, sctlr_el1_config,
}

-- The widths of the fields in the architecture
unfoldable pub tcr_width : TcrField → ℕ
tcr_width t0sz = 6
tcr_width irgn0 = 2
tcr_width orgn0 = 2
tcr_width sh0 = 2
tcr_width tg0 = 2
tcr_width t1sz = 6
tcr_width a1 = 1
tcr_width irgn1 = 2
tcr_width orgn1 = 2
tcr_width sh1 = 2
tcr_width tg1 = 2
tcr_width ips = 3

-- No field of TCR_EL1 reaches into another: each reads back as the value that is meant for it.
pub tcr_fields : (f : TcrField) → tcr_el1_config / 2 ^ tcr_shift f % 2 ^ tcr_width f ≡ tcr_value f
unfolding tcr_el1_config tcr_config tcr_shift tcr_value tcr_width
tcr_fields t0sz = refl
tcr_fields irgn0 = refl
tcr_fields orgn0 = refl
tcr_fields sh0 = refl
tcr_fields tg0 = refl
tcr_fields t1sz = refl
tcr_fields a1 = refl
tcr_fields irgn1 = refl
tcr_fields orgn1 = refl
tcr_fields sh1 = refl
tcr_fields tg1 = refl
tcr_fields ips = refl

-- The kernel's addresses start where the size of the upper half makes it start.
pub kernel_half : vm_kernel_base_address ≡ 2 ^ 64 - 2 ^ (64 - tcr_value t1sz)
unfolding tcr_value
kernel_half = refl

-- What the switch from the bootstrap's tables turns on
unfoldable pub is_turned_on : SctlrBit → Bool
is_turned_on mmu = true
is_turned_on wxn = true
is_turned_on b = false

-- The switch from the bootstrap's tables turns on translation and execute-never of writable memory,
-- and leaves every other named bit as the bootstrap set it.
pub sctlr_switch :
    (b : SctlrBit)
    → bit_at sctlr_el1_config (sctlr_shift b)
      ≡ (if is_turned_on b then 1 else bit_at sctlr_el1_bootstrap_config (sctlr_shift b))
unfolding is_turned_on sctlr_el1_config sctlr_el1_bootstrap_config sctlr_bit sctlr_shift
sctlr_switch mmu = refl
sctlr_switch alignment_check = refl
sctlr_switch data_cache = refl
sctlr_switch sa = refl
sctlr_switch sa0 = refl
sctlr_switch uma = refl
sctlr_switch instruction_cache = refl
sctlr_switch wxn = refl

-- ===== src/PlatformRegisters.antt =====
-- kernel/machine/platform_registers.h: what kernel/core/start and kernel/core/vm write to the system
-- registers. The assembler reads these values as 64-bit words.
pub mod Fields
use swink.Common.{ℕ, ◌+◌, ◌*◌, ◌^◌}
use swink.Pmap.Pte.{◌⊔◌, mair_idx_normal, mair_idx_device}
use swink.Pmap.Tables.{tcr_t1sz_value}

-- The fields of TCR_EL1
pub data TcrField : Type 0 where
  t0sz irgn0 orgn0 sh0 tg0 t1sz a1 irgn1 orgn1 sh1 tg1 ips : TcrField

-- TCR_T0SZ_SHIFT and so on
unfoldable pub tcr_shift : TcrField → ℕ
tcr_shift t0sz = 0
tcr_shift irgn0 = 8
tcr_shift orgn0 = 10
tcr_shift sh0 = 12
tcr_shift tg0 = 14
tcr_shift t1sz = 16
tcr_shift a1 = 22
tcr_shift irgn1 = 24
tcr_shift orgn1 = 26
tcr_shift sh1 = 28
tcr_shift tg1 = 30
tcr_shift ips = 32

-- What TCR_T0SZ_CONFIG and so on shift
unfoldable pub tcr_value : TcrField → ℕ
tcr_value t0sz = 25
tcr_value irgn0 = 1
tcr_value orgn0 = 1
tcr_value sh0 = 2
tcr_value tg0 = 0
tcr_value t1sz = tcr_t1sz_value
tcr_value a1 = 0
tcr_value irgn1 = 1
tcr_value orgn1 = 1
tcr_value sh1 = 2
tcr_value tg1 = 2
tcr_value ips = 2

unfoldable pub tcr_config : TcrField → ℕ
unfolding tcr_value tcr_shift
tcr_config f = tcr_value f * 2 ^ tcr_shift f

unfoldable pub tcr_el1_config : ℕ
unfolding tcr_config
tcr_el1_config =
    tcr_config t0sz
    ⊔ tcr_config irgn0
    ⊔ tcr_config orgn0
    ⊔ tcr_config sh0
    ⊔ tcr_config tg0
    ⊔ tcr_config t1sz
    ⊔ tcr_config a1
    ⊔ tcr_config irgn1
    ⊔ tcr_config orgn1
    ⊔ tcr_config sh1
    ⊔ tcr_config tg1
    ⊔ tcr_config ips

-- The bits of SCTLR_EL1
pub data SctlrBit : Type 0 where
  mmu alignment_check data_cache sa sa0 uma instruction_cache wxn : SctlrBit

-- SCTLR_M_SHIFT and so on
unfoldable pub sctlr_shift : SctlrBit → ℕ
sctlr_shift mmu = 0
sctlr_shift alignment_check = 1
sctlr_shift data_cache = 2
sctlr_shift sa = 3
sctlr_shift sa0 = 4
sctlr_shift uma = 9
sctlr_shift instruction_cache = 12
sctlr_shift wxn = 19

unfoldable pub sctlr_bit : SctlrBit → ℕ
unfolding sctlr_shift
sctlr_bit b = 2 ^ sctlr_shift b

unfoldable pub sctlr_el1_bootstrap_config : ℕ
unfolding sctlr_bit
sctlr_el1_bootstrap_config =
    sctlr_bit data_cache ⊔ sctlr_bit sa ⊔ sctlr_bit sa0 ⊔ sctlr_bit instruction_cache

unfoldable pub sctlr_el1_config : ℕ
unfolding sctlr_bit
sctlr_el1_config =
    sctlr_bit data_cache
    ⊔ sctlr_bit sa
    ⊔ sctlr_bit sa0
    ⊔ sctlr_bit instruction_cache
    ⊔ sctlr_bit mmu
    ⊔ sctlr_bit wxn

-- MAIR_ATTR_WIDTH
abbrev pub mair_attr_width : ℕ
mair_attr_width = 8

-- MAIR_ATTR_N_SHIFT: a power of two, and not the exponent
unfoldable pub mair_attr_n_shift : ℕ → ℕ
mair_attr_n_shift n = 2 ^ (mair_attr_width * n)

-- MAIR_ATTR_DEVICE of the kinds of device memory, and the kind that is used
abbrev pub mair_dd_ngnrne : ℕ
mair_dd_ngnrne = 0

unfoldable pub mair_attr_device : ℕ → ℕ
mair_attr_device dd = dd * 2 ^ 2

abbrev pub mair_cache_read_allocate : ℕ
mair_cache_read_allocate = 2

abbrev pub mair_cache_write_allocate : ℕ
mair_cache_write_allocate = 1

-- MAIR_CACHE_WB_NT
unfoldable pub mair_cache_wb_nt : ℕ → ℕ → ℕ
mair_cache_wb_nt r w = r ⊔ w ⊔ 3 * 2 ^ 2

unfoldable pub mair_attr_normal : ℕ → ℕ → ℕ
mair_attr_normal oooo iiii = oooo * 2 ^ 4 ⊔ iiii

-- The attributes that MAIR_EL1_CONFIG gives to normal memory and to devices
unfoldable pub normal_memory : ℕ
unfolding mair_attr_normal mair_cache_wb_nt
normal_memory =
    mair_attr_normal (mair_cache_wb_nt mair_cache_read_allocate mair_cache_write_allocate)
      (mair_cache_wb_nt mair_cache_read_allocate mair_cache_write_allocate)

unfoldable pub device_memory : ℕ
unfolding mair_attr_device
device_memory = mair_attr_device mair_dd_ngnrne

unfoldable pub mair_el1_config : ℕ
unfolding normal_memory device_memory mair_attr_n_shift
mair_el1_config =
    normal_memory * 2 ^ mair_attr_n_shift mair_idx_normal
    ⊔ device_memory * 2 ^ mair_attr_n_shift mair_idx_device

-- CPACR_EL1_CONFIG: no floating-point instruction traps.
abbrev pub cpacr_fpen_shift : ℕ
cpacr_fpen_shift = 20

abbrev pub cpacr_el1_config : ℕ
cpacr_el1_config = 3 * 2 ^ cpacr_fpen_shift

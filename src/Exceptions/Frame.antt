-- ===== src/Exceptions/Frame.antt =====
-- kernel/core/exception/exception.S between an exception and its handler, and back: the vectors of
-- the two stacks of EL1, REGISTER_SPILL_NO_X0X1SP and REGISTER_UNSPILL, with the offsets of
-- exception_asm.h. The frame on the stack is memory as 32-bit words, counted from its first byte.
pub mod Trips
pub mod Words
use swink.Common.{ℕ, zero, suc, ◌+◌, ◌*◌, ◌/◌, ◌%◌, ◌^◌, ◌==◌, ◌||◌, if◌then◌else◌}
use swink.Exceptions.{Context}

-- The registers that an exception may find in use; x29 is fp, and x30 lr.
pub record Registers : Type 0 where
  pub x : ℕ → ℕ
  pub sp : ℕ
  pub q : ℕ → ℕ
  pub fpsr : ℕ
  pub fpcr : ℕ
  pub esr_el1 : ℕ
  pub spsr_el1 : ℕ
  pub far_el1 : ℕ
  pub elr_el1 : ℕ

-- ARM64_GP_0 and on
abbrev pub arm64_gp : ℕ → ℕ
arm64_gp n = 8 * n

abbrev pub arm64_gp_lr : ℕ
arm64_gp_lr = 8 * 30

abbrev pub arm64_gp_sp : ℕ
arm64_gp_sp = 8 * 31

abbrev pub arm64_gp_end : ℕ
arm64_gp_end = arm64_gp_sp + 8

abbrev pub arm64_neon_q : ℕ → ℕ
arm64_neon_q n = arm64_gp_end + 16 * n

abbrev pub arm64_neon_q_end : ℕ
arm64_neon_q_end = arm64_neon_q 30 + 16 * 2

abbrev pub arm64_neon_fpsr : ℕ
arm64_neon_fpsr = arm64_neon_q_end + 4 * 0

abbrev pub arm64_neon_fpcr : ℕ
arm64_neon_fpcr = arm64_neon_q_end + 4 * 1

abbrev pub arm64_neon_end : ℕ
arm64_neon_end = arm64_neon_fpcr + 4

abbrev pub arm64_esr : ℕ
arm64_esr = arm64_neon_end + 4 * 0

abbrev pub arm64_cpsr : ℕ
arm64_cpsr = arm64_neon_end + 4 * 1

abbrev pub arm64_far : ℕ
arm64_far = arm64_neon_end + 8 * 1

abbrev pub arm64_pc : ℕ
arm64_pc = arm64_neon_end + 8 * 2

-- Stores and loads of 32, 64 and 128 bits at a byte offset
unfoldable pub store_w : ℕ → ℕ → (ℕ → ℕ) → ℕ → ℕ
store_w offset value m w = if offset / 4 == w then value % 2 ^ 32 else m w

unfoldable pub store_x : ℕ → ℕ → (ℕ → ℕ) → ℕ → ℕ
unfolding store_w
store_x offset value m = store_w offset value (store_w (offset + 4) (value / 2 ^ 32) m)

unfoldable pub store_q : ℕ → ℕ → (ℕ → ℕ) → ℕ → ℕ
unfolding store_x
store_q offset value m = store_x offset value (store_x (offset + 8) (value / 2 ^ 64) m)

unfoldable pub load_w : ℕ → (ℕ → ℕ) → ℕ
load_w offset m = m (offset / 4)

unfoldable pub load_x : ℕ → (ℕ → ℕ) → ℕ
unfolding load_w
load_x offset m = load_w offset m + load_w (offset + 4) m * 2 ^ 32

unfoldable pub load_q : ℕ → (ℕ → ℕ) → ℕ
unfolding load_x
load_q offset m = load_x offset m + load_x (offset + 8) m * 2 ^ 64

-- `stp xn, xn+1, [sp, #ARM64_GP_n]` for the next pairs of registers
unfoldable pub spill_x : ℕ → ℕ → Registers → (ℕ → ℕ) → ℕ → ℕ
unfolding store_x
spill_x zero n r m = m
spill_x (suc pairs) n r m =
    spill_x pairs (n + 2) r
      (store_x (arm64_gp n) (r.x n) (store_x (arm64_gp n + 8) (r.x (n + 1)) m))

unfoldable pub spill_q : ℕ → ℕ → Registers → (ℕ → ℕ) → ℕ → ℕ
unfolding store_q
spill_q zero n r m = m
spill_q (suc pairs) n r m =
    spill_q pairs (n + 2) r
      (store_q (arm64_neon_q n) (r.q n) (store_q (arm64_neon_q n + 16) (r.q (n + 1)) m))

-- EL1_SP0_VECTOR and EL1_SP1_VECTOR, which differ in the stack: x0, x1 and the stack pointer
unfoldable pub enter_vector : Registers → (ℕ → ℕ) → ℕ → ℕ
unfolding spill_x
enter_vector r m = store_x arm64_gp_sp r.sp (spill_x 1 0 r m)

-- The other general registers of REGISTER_SPILL_NO_X0X1SP
unfoldable pub spill_gp : Registers → (ℕ → ℕ) → ℕ → ℕ
unfolding spill_x
spill_gp r m = store_x arm64_gp_lr (r.x 30) (spill_x 14 2 r m)

-- The system registers of REGISTER_SPILL_NO_X0X1SP
unfoldable pub spill_status : Registers → (ℕ → ℕ) → ℕ → ℕ
unfolding store_x
spill_status r m = store_w arm64_neon_fpcr r.fpcr (
    store_w arm64_neon_fpsr r.fpsr (
      store_x arm64_pc r.elr_el1 (
        store_x arm64_far r.far_el1
          (store_w arm64_cpsr r.spsr_el1 (store_w arm64_esr r.esr_el1 m)))))

-- From the exception to the handler
unfoldable pub spill : Registers → (ℕ → ℕ) → ℕ → ℕ
unfolding enter_vector spill_gp spill_q spill_status
spill r m = spill_status r (spill_q 16 0 r (spill_gp r (enter_vector r m)))

-- What the handler in C reads at the pointer that it is given.
unfoldable pub context_at : (ℕ → ℕ) → Context
unfolding load_x
context_at m = record {
  gp = record {
    x = λ i. load_x (8 * i) m;
    fp = load_x (8 * 29) m;
    lr = load_x (8 * 30) m;
    sp = load_x (8 * 31) m;
  };
  neon = record { q = λ i. load_x (256 + 8 * i) m; fpsr = load_w 768 m; fpcr = load_w 772 m };
  esr = load_w 776 m;
  cpsr = load_w 780 m;
  far = load_x 784 m;
  pc = load_x 792 m;
}

-- `ldp xn, xn+1, [sp, #ARM64_GP_n]` for the next pairs of registers
unfoldable pub unspill_x : ℕ → ℕ → (ℕ → ℕ) → (ℕ → ℕ) → ℕ → ℕ
unfolding load_x
unspill_x zero n m x i = x i
unspill_x (suc pairs) n m x i =
    if n == i || n + 1 == i then load_x (arm64_gp i) m else unspill_x pairs (n + 2) m x i

unfoldable pub unspill_q : ℕ → ℕ → (ℕ → ℕ) → (ℕ → ℕ) → ℕ → ℕ
unfolding load_q
unspill_q zero n m q i = q i
unspill_q (suc pairs) n m q i =
    if n == i || n + 1 == i then load_q (arm64_neon_q i) m else unspill_q pairs (n + 2) m q i

unfoldable pub set_x : ℕ → ℕ → (ℕ → ℕ) → ℕ → ℕ
set_x n value x i = if n == i then value else x i

-- REGISTER_UNSPILL: both loads for the floating-point registers read the status, and both moves
-- write it.
unfoldable pub unspill : (ℕ → ℕ) → Registers → Registers
unfolding unspill_x unspill_q set_x
unspill m r = record r {
  x =
      set_x 1 (load_x (arm64_gp 0 + 8) m)
        (set_x 0 (load_x (arm64_gp 0) m) (set_x 30 (load_x arm64_gp_lr m) (unspill_x 14 2 m r.x)));
  sp = load_x (arm64_gp_lr + 8) m;
  q = unspill_q 16 0 m r.q;
  fpsr = load_w arm64_neon_fpsr m;
  spsr_el1 = load_w arm64_cpsr m;
  elr_el1 = load_x arm64_pc m;
}

-- ===== src/Exceptions.antt =====
-- kernel/core/exception/exception.c: what the syndrome and status registers say, the register dump
-- and the handlers.
pub mod Classes
pub mod Dump
pub mod Frame
mod Tests
use swink.Common.{
  ℕ, zero, suc, ◌+◌, ◌-◌, ◌*◌, ◌^◌, List, [], ◌∷◌, ◌++◌, Bool, ltb, leb, ◌==◌, if◌then◌else◌,
  Result, panic, Option, some, none, bit_and,
}
use swink.Common.Word.{u32, shr}

-- RANGE_BITS
unfoldable pub range_bits : ℕ → ℕ → ℕ → ℕ
range_bits value start stop = bit_and (shr value start) (2 ^ (stop + 1 - start) - 1)

abbrev pub esr_ec : ℕ → ℕ
esr_ec esr = range_bits esr 26 31

abbrev pub esr_iss : ℕ → ℕ
esr_iss esr = range_bits esr 0 24

abbrev pub spsr_execution_level : ℕ → ℕ
spsr_execution_level spsr = range_bits spsr 0 3

-- enum exception_class
pub data ExceptionClass : Type 0 where
  unknown trap_wf trap_mcr_mrc1 trap_mcrr_mrrc1 trap_mcr_mrc2 : ExceptionClass
  trap_ldc_stc trap_sve_fp_neon trap_ld_st64 trap_mcrr_mrrc2 : ExceptionClass
  branch_target_fail illegal_exec_state svc_hvc3 svc_hvc64 : ExceptionClass
  trap_msr_mrs trap_cpacr_s pointer_auth_fail inst_abort_lower_el : ExceptionClass
  inst_abort_same_el pc_alignment_fault data_abort_lower_el : ExceptionClass
  data_abort_same_el sp_alignment_fault trap_fp32 trap_fp64 serror : ExceptionClass
  bp_lower_el bp_same_el sw_step_lower_el sw_step_same_el wp_lower_el : ExceptionClass
  wp_same_el brk_32 brk_64 : ExceptionClass

unfoldable pub exception_class_code : ExceptionClass → ℕ
exception_class_code unknown = 0
exception_class_code trap_wf = 1
exception_class_code trap_mcr_mrc1 = 3
exception_class_code trap_mcrr_mrrc1 = 4
exception_class_code trap_mcr_mrc2 = 5
exception_class_code trap_ldc_stc = 6
exception_class_code trap_sve_fp_neon = 7
exception_class_code trap_ld_st64 = 10
exception_class_code trap_mcrr_mrrc2 = 12
exception_class_code branch_target_fail = 13
exception_class_code illegal_exec_state = 14
exception_class_code svc_hvc3 = 17
exception_class_code svc_hvc64 = 21
exception_class_code trap_msr_mrs = 24
exception_class_code trap_cpacr_s = 25
exception_class_code pointer_auth_fail = 28
exception_class_code inst_abort_lower_el = 32
exception_class_code inst_abort_same_el = 33
exception_class_code pc_alignment_fault = 34
exception_class_code data_abort_lower_el = 36
exception_class_code data_abort_same_el = 37
exception_class_code sp_alignment_fault = 38
exception_class_code trap_fp32 = 40
exception_class_code trap_fp64 = 44
exception_class_code serror = 47
exception_class_code bp_lower_el = 48
exception_class_code bp_same_el = 49
exception_class_code sw_step_lower_el = 50
exception_class_code sw_step_same_el = 51
exception_class_code wp_lower_el = 52
exception_class_code wp_same_el = 53
exception_class_code brk_32 = 56
exception_class_code brk_64 = 60

-- EXCEPTION_CLASS_MAX
abbrev pub exception_class_max : ℕ
exception_class_max = 61

-- The entries of `exception_class_to_str`; the string of a class is its name.
abbrev pub exception_class_to_str : List ExceptionClass
exception_class_to_str =
    unknown ∷ trap_wf ∷ trap_mcr_mrc1 ∷ trap_mcrr_mrrc1 ∷ trap_mcr_mrc2 ∷ trap_ldc_stc
    ∷ trap_sve_fp_neon ∷ trap_ld_st64 ∷ trap_mcrr_mrrc2 ∷ branch_target_fail ∷ illegal_exec_state
    ∷ svc_hvc3 ∷ svc_hvc64 ∷ trap_msr_mrs ∷ trap_cpacr_s ∷ pointer_auth_fail ∷ inst_abort_lower_el
    ∷ inst_abort_same_el ∷ pc_alignment_fault ∷ data_abort_lower_el ∷ data_abort_same_el
    ∷ sp_alignment_fault ∷ trap_fp32 ∷ trap_fp64 ∷ serror ∷ bp_lower_el ∷ bp_same_el
    ∷ sw_step_lower_el ∷ sw_step_same_el ∷ wp_lower_el ∷ wp_same_el ∷ brk_32 ∷ brk_64 ∷ []

-- `exception_class_to_str[ec]`, where an index without an entry is NULL
unfoldable pub entry_at : List ExceptionClass → ℕ → Option ExceptionClass
unfolding exception_class_code
entry_at [] ec = none
entry_at (c ∷ cs) ec =
    let rest = entry_at cs ec in if exception_class_code c == ec then some c else rest

unfoldable pub get_exception_class_str : ℕ → Option ExceptionClass
unfolding range_bits entry_at
get_exception_class_str esr =
    if leb exception_class_max (esr_ec esr)
    then none
    else entry_at exception_class_to_str (esr_ec esr)

unfoldable pub cpsr_is_el0 : ℕ → Bool
unfolding range_bits
cpsr_is_el0 cpsr = spsr_execution_level cpsr == 0

pub data ExecutionLevel : Type 0 where
  el0_sp0 el1_sp0 el1_sp1 unknown_level : ExecutionLevel

unfoldable pub get_execution_level_str : ℕ → ExecutionLevel
unfolding range_bits
get_execution_level_str cpsr =
    if spsr_execution_level cpsr == 0
    then el0_sp0
    else if spsr_execution_level cpsr == 4
    then el1_sp0
    else if spsr_execution_level cpsr == 5
    then el1_sp1
    else unknown_level

-- struct arm64_context (kernel/core/exception/exception.h)
pub record Gp : Type 0 where
  pub x : ℕ → ℕ
  pub fp : ℕ
  pub lr : ℕ
  pub sp : ℕ

pub record Neon : Type 0 where
  pub q : ℕ → ℕ
  pub fpsr : ℕ
  pub fpcr : ℕ

pub record Context : Type 0 where
  pub gp : Gp
  pub neon : Neon
  pub esr : ℕ
  pub cpsr : ℕ
  pub far : ℕ
  pub pc : ℕ

-- What is printed, by the values that go into it.
pub data Line : Type 0 where
  header : ℕ → ℕ → Option ExceptionClass → ℕ → ℕ → ExecutionLevel → ℕ → ℕ → Line
  four_registers : ℕ × ℕ → ℕ × ℕ → ℕ × ℕ → ℕ × ℕ → Line
  last_registers : ℕ → ℕ → ℕ → ℕ → Line

-- `for (; i + 4 < 29; i += 4)`
unfoldable pub dump_registers : ℕ → ℕ → (ℕ → ℕ) → List Line
dump_registers zero i x = []
dump_registers (suc fuel) i x =
    let rest = dump_registers fuel (u32 (i + 4)) x in
    if ltb (u32 (i + 4)) 29
    then four_registers (i + 0, x (i + 0)) (i + 1, x (i + 1)) (i + 2, x (i + 2)) (i + 3, x (i + 3))
      ∷ rest
    else []

-- `tcr` and `sctlr` are what the system registers hold.
unfoldable pub dump_state : ℕ → ℕ → Context → List Line
unfolding range_bits get_exception_class_str get_execution_level_str dump_registers
dump_state tcr sctlr c =
    header c.esr (u32 (esr_iss c.esr)) (get_exception_class_str c.esr) c.far c.cpsr
      (get_execution_level_str c.cpsr) tcr sctlr
    ∷ (dump_registers 8 0 c.gp.x ++ (last_registers c.gp.fp c.gp.lr c.gp.sp c.pc ∷ []))

-- The four handlers, and what each prints before it panics.
pub data Handler : Type 0 where
  exception_sync exception_irq exception_fiq exception_error : Handler

unfoldable pub handle : Handler → ℕ → ℕ → Context → List Line × Result (Unit {0})
unfolding dump_state
handle exception_sync tcr sctlr c = (dump_state tcr sctlr c, panic)
handle exception_irq tcr sctlr c = (dump_state tcr sctlr c, panic)
handle exception_fiq tcr sctlr c = (dump_state tcr sctlr c, panic)
handle exception_error tcr sctlr c = (dump_state tcr sctlr c, panic)

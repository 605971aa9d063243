-- ===== src/Exceptions/Classes.antt =====
-- The exception class that is printed, against the bits of the syndrome register.
use swink.Common.{
  ℕ, ◌+◌, ◌-◌, ◌/◌, ◌%◌, ◌^◌, ◌<◌, ◌≡◌, ◌≢◌, ◌↔◌, false, refl, ◌∙◌, ap, sym, List, [], ◌∷◌, leb,
  ◌==◌, if◌then◌else◌, Option, some, none, Bool, Bool-cases, inl, inr, arith,
}
use swink.Common.Word.{shr, bit_and_mask}
use swink.Exceptions.{
  range_bits, esr_ec, ExceptionClass, unknown, trap_wf, trap_mcr_mrc1, trap_mcrr_mrrc1,
  trap_mcr_mrc2, trap_ldc_stc, trap_sve_fp_neon, trap_ld_st64, trap_mcrr_mrrc2, branch_target_fail,
  illegal_exec_state, svc_hvc3, svc_hvc64, trap_msr_mrs, trap_cpacr_s, pointer_auth_fail,
  inst_abort_lower_el, inst_abort_same_el, pc_alignment_fault, data_abort_lower_el,
  data_abort_same_el, sp_alignment_fault, trap_fp32, trap_fp64, serror, bp_lower_el, bp_same_el,
  sw_step_lower_el, sw_step_same_el, wp_lower_el, wp_same_el, brk_32, brk_64, exception_class_code,
  exception_class_max, exception_class_to_str, entry_at, get_exception_class_str,
}

pub range_bits_lem :
    (value start stop : ℕ)
    → range_bits value start stop ≡ value / 2 ^ start % 2 ^ (stop + 1 - start)
unfolding range_bits
range_bits_lem value start stop = bit_and_mask (stop + 1 - start) (shr value start)

some_inj : (c d : ExceptionClass) → some c ≡ some d → c ≡ d
some_inj c d e = ap (λ (o : Option ExceptionClass). elim o [ none ↦ c | some x ↦ x ]) e

not_some : (c : ExceptionClass) → none ≢ some c
not_some c e = cc

-- An entry of the table is at its class's code,
entry_at_sound :
    (cs : List ExceptionClass) (ec : ℕ) (c : ExceptionClass)
    → entry_at cs ec ≡ some c
    → exception_class_code c ≡ ec
unfolding entry_at
entry_at_sound [] ec c e = cc
entry_at_sound (d ∷ cs) ec c e = elim (Bool-cases (exception_class_code d == ec)) [
  | inl found ↦
      ap exception_class_code (
        sym
          (some_inj d c (sym (ap (λ (b : Bool). if b then some d else entry_at cs ec) found) ∙ e)))
      ∙ ground (arith, found)
  | inr other ↦
      entry_at_sound cs ec c
        (sym (ap (λ (b : Bool). if b then some d else entry_at cs ec) other) ∙ e)
]

-- and every class has one.
entry_at_complete :
    (c : ExceptionClass) → entry_at exception_class_to_str (exception_class_code c) ≡ some c
unfolding entry_at exception_class_code
entry_at_complete unknown = refl
entry_at_complete trap_wf = refl
entry_at_complete trap_mcr_mrc1 = refl
entry_at_complete trap_mcrr_mrrc1 = refl
entry_at_complete trap_mcr_mrc2 = refl
entry_at_complete trap_ldc_stc = refl
entry_at_complete trap_sve_fp_neon = refl
entry_at_complete trap_ld_st64 = refl
entry_at_complete trap_mcrr_mrrc2 = refl
entry_at_complete branch_target_fail = refl
entry_at_complete illegal_exec_state = refl
entry_at_complete svc_hvc3 = refl
entry_at_complete svc_hvc64 = refl
entry_at_complete trap_msr_mrs = refl
entry_at_complete trap_cpacr_s = refl
entry_at_complete pointer_auth_fail = refl
entry_at_complete inst_abort_lower_el = refl
entry_at_complete inst_abort_same_el = refl
entry_at_complete pc_alignment_fault = refl
entry_at_complete data_abort_lower_el = refl
entry_at_complete data_abort_same_el = refl
entry_at_complete sp_alignment_fault = refl
entry_at_complete trap_fp32 = refl
entry_at_complete trap_fp64 = refl
entry_at_complete serror = refl
entry_at_complete bp_lower_el = refl
entry_at_complete bp_same_el = refl
entry_at_complete sw_step_lower_el = refl
entry_at_complete sw_step_same_el = refl
entry_at_complete wp_lower_el = refl
entry_at_complete wp_same_el = refl
entry_at_complete brk_32 = refl
entry_at_complete brk_64 = refl

code_small : (c : ExceptionClass) → exception_class_code c < exception_class_max
unfolding exception_class_code
code_small unknown = omega arith
code_small trap_wf = omega arith
code_small trap_mcr_mrc1 = omega arith
code_small trap_mcrr_mrrc1 = omega arith
code_small trap_mcr_mrc2 = omega arith
code_small trap_ldc_stc = omega arith
code_small trap_sve_fp_neon = omega arith
code_small trap_ld_st64 = omega arith
code_small trap_mcrr_mrrc2 = omega arith
code_small branch_target_fail = omega arith
code_small illegal_exec_state = omega arith
code_small svc_hvc3 = omega arith
code_small svc_hvc64 = omega arith
code_small trap_msr_mrs = omega arith
code_small trap_cpacr_s = omega arith
code_small pointer_auth_fail = omega arith
code_small inst_abort_lower_el = omega arith
code_small inst_abort_same_el = omega arith
code_small pc_alignment_fault = omega arith
code_small data_abort_lower_el = omega arith
code_small data_abort_same_el = omega arith
code_small sp_alignment_fault = omega arith
code_small trap_fp32 = omega arith
code_small trap_fp64 = omega arith
code_small serror = omega arith
code_small bp_lower_el = omega arith
code_small bp_same_el = omega arith
code_small sw_step_lower_el = omega arith
code_small sw_step_same_el = omega arith
code_small wp_lower_el = omega arith
code_small wp_same_el = omega arith
code_small brk_32 = omega arith
code_small brk_64 = omega arith

-- The name of an exception class is printed for a 32-bit syndrome exactly if the six bits from bit
-- 26 on are the code of that class.
pub exception_class_iff :
    (esr : ℕ) (c : ExceptionClass)
    → esr < 2 ^ 32
    → (get_exception_class_str esr ≡ some c) ↔ (esr / 2 ^ 26 ≡ exception_class_code c)
unfolding get_exception_class_str
exception_class_iff esr c word = (to, from)
  where
    ec : esr_ec esr ≡ esr / 2 ^ 26
    ec = range_bits_lem esr 26 31 ∙ omega arith

    to : get_exception_class_str esr ≡ some c → esr / 2 ^ 26 ≡ exception_class_code c
    to e = elim (Bool-cases (leb exception_class_max (esr_ec esr))) [
      | inl over ↦ absurd (
          not_some c (
            sym (
              ap (λ (b : Bool). if b then none else entry_at exception_class_to_str (esr_ec esr))
                over)
            ∙ e))
      | inr within ↦ sym (
          entry_at_sound exception_class_to_str (esr_ec esr) c (
            sym (
              ap (λ (b : Bool). if b then none else entry_at exception_class_to_str (esr_ec esr))
                within)
            ∙ e)
          ∙ ec)
    ]

    from : esr / 2 ^ 26 ≡ exception_class_code c → get_exception_class_str esr ≡ some c
    from e =
        let at : esr_ec esr ≡ exception_class_code c = ec ∙ e in
        let within : leb exception_class_max (esr_ec esr) ≡ false =
          ground (arith, at, code_small c) in
        rw within (ap (entry_at exception_class_to_str) at ∙ entry_at_complete c)

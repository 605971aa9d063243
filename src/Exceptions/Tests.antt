-- ===== src/Exceptions/Tests.antt =====
-- The theorems on exceptions at concrete inputs.
use swink.Common.{◌<◌, ◌%◌, ◌*◌, ℕ, ◌+◌, ◌/◌, ◌^◌, ◌≡◌, ◌↔◌, arith, panic, some}
use swink.Exceptions.{
  Context, exception_sync, data_abort_same_el, exception_class_code, get_exception_class_str,
  handle,
}
use swink.Exceptions.Frame.{Registers, spill, context_at, unspill}
use swink.Exceptions.Frame.Trips.{AreSized, context_at-spill, unspill-spill}
use swink.Exceptions.Classes.{exception_class_iff}
use swink.Exceptions.Dump.{numbered, registers_from, handle_lem}

-- 0x96000045
abbrev syndrome : ℕ
syndrome = 2516582469

exception_class_iff_example :
    (get_exception_class_str syndrome ≡ some data_abort_same_el)
    ↔ (syndrome / 2 ^ 26 ≡ exception_class_code data_abort_same_el)
exception_class_iff_example = exception_class_iff syndrome data_abort_same_el (omega arith)

abbrev context : Context
context = record {
  gp = record { x = λ i. i + 100; fp = 1; lr = 2; sp = 3 };
  neon = record { q = λ i. 0; fpsr = 0; fpcr = 0 };
  esr = 2516582469;
  cpsr = 5;
  far = 0;
  pc = 4;
}

handle_lem_example :
    (numbered (handle exception_sync 0 syndrome context).0 ≡ registers_from 0 28 context.gp.x)
    × ((handle exception_sync 0 syndrome context).1 ≡ panic)
handle_lem_example = handle_lem exception_sync 0 syndrome context

abbrev interrupted : Registers
interrupted = record {
  x = λ i. i % 2 ^ 16 + 7;
  sp = 2 ^ 40;
  q = λ i. i % 2 ^ 16 + 2 ^ 100;
  fpsr = 1;
  fpcr = 2;
  esr_el1 = 2516582469;
  spsr_el1 = 5;
  far_el1 = 3;
  elr_el1 = 2 ^ 39;
}

abbrev returning : Registers
returning = record interrupted { x = λ i. 0; q = λ i. 0; sp = 0; fpsr = 0; fpcr = 0 }

abbrev stack_words : ℕ → ℕ
stack_words w = w

interrupted-AreSized : AreSized interrupted
interrupted-AreSized = record {
  x = λ i. omega arith;
  sp = omega arith;
  q = λ i. omega arith;
  fpsr = omega arith;
  fpcr = omega arith;
  esr_el1 = omega arith;
  spsr_el1 = omega arith;
  far_el1 = omega arith;
  elr_el1 = omega arith;
}

context_at-spill_example :
    ((i : ℕ) → i < 29 → (context_at (spill interrupted stack_words)).gp.x i ≡ interrupted.x i)
    × ((context_at (spill interrupted stack_words)).gp.fp ≡ interrupted.x 29)
    × ((context_at (spill interrupted stack_words)).gp.lr ≡ interrupted.x 30)
    × ((context_at (spill interrupted stack_words)).gp.sp ≡ interrupted.sp)
    × ((i h : ℕ)
        → i < 32
        → h < 2
        → (context_at (spill interrupted stack_words)).neon.q (2 * i + h)
          ≡ interrupted.q i / 2 ^ (64 * h) % 2 ^ 64)
    × ((context_at (spill interrupted stack_words)).neon.fpsr ≡ interrupted.fpsr)
    × ((context_at (spill interrupted stack_words)).neon.fpcr ≡ interrupted.fpcr)
    × ((context_at (spill interrupted stack_words)).esr ≡ interrupted.esr_el1)
    × ((context_at (spill interrupted stack_words)).cpsr ≡ interrupted.spsr_el1)
    × ((context_at (spill interrupted stack_words)).far ≡ interrupted.far_el1)
    × ((context_at (spill interrupted stack_words)).pc ≡ interrupted.elr_el1)
context_at-spill_example = context_at-spill interrupted stack_words interrupted-AreSized

unspill-spill_example :
    ((i : ℕ) → i < 31 → (unspill (spill interrupted stack_words) returning).x i ≡ interrupted.x i)
    × ((unspill (spill interrupted stack_words) returning).sp ≡ interrupted.sp)
    × ((i : ℕ) → i < 32 → (unspill (spill interrupted stack_words) returning).q i ≡ interrupted.q i)
    × ((unspill (spill interrupted stack_words) returning).fpsr ≡ interrupted.fpsr)
    × ((unspill (spill interrupted stack_words) returning).spsr_el1 ≡ interrupted.spsr_el1)
    × ((unspill (spill interrupted stack_words) returning).elr_el1 ≡ interrupted.elr_el1)
    × ((unspill (spill interrupted stack_words) returning).fpcr ≡ returning.fpcr)
unspill-spill_example = unspill-spill interrupted returning stack_words interrupted-AreSized

-- ===== src/Exceptions/Dump.antt =====
-- Which registers a handler prints.
use swink.Common.{ℕ, zero, suc, ◌+◌, ◌≡◌, refl, List, [], ◌∷◌, panic}
use swink.Exceptions.{
  Line, header, four_registers, last_registers, Context, Handler, exception_sync, exception_irq,
  exception_fiq, exception_error, dump_registers, dump_state, handle,
}

-- The general registers on the lines, with their numbers.
unfoldable pub numbered : List Line → List (ℕ × ℕ)
numbered [] = []
numbered (header esr iss class far cpsr level tcr sctlr ∷ lines) = numbered lines
numbered (four_registers a b c d ∷ lines) = a ∷ b ∷ c ∷ d ∷ numbered lines
numbered (last_registers fp lr sp pc ∷ lines) = numbered lines

-- The first `n` registers from number `i` on.
unfoldable pub registers_from : ℕ → ℕ → (ℕ → ℕ) → List (ℕ × ℕ)
registers_from i zero x = []
registers_from i (suc n) x = (i, x i) ∷ registers_from (i + 1) n x

numbered_dump :
    (tcr sctlr : ℕ) (c : Context) → numbered (dump_state tcr sctlr c) ≡ registers_from 0 28 c.gp.x
unfolding numbered dump_state dump_registers registers_from
numbered_dump tcr sctlr c = refl

-- Each of the four handlers prints the registers x0 to x27, each once and in order with its value,
-- and panics; x28 is not printed.
pub handle_lem :
    (h : Handler) (tcr sctlr : ℕ) (c : Context)
    → (numbered (handle h tcr sctlr c).0 ≡ registers_from 0 28 c.gp.x)
      × ((handle h tcr sctlr c).1 ≡ panic)
unfolding handle
handle_lem exception_sync tcr sctlr c = (numbered_dump tcr sctlr c, refl)
handle_lem exception_irq tcr sctlr c = (numbered_dump tcr sctlr c, refl)
handle_lem exception_fiq tcr sctlr c = (numbered_dump tcr sctlr c, refl)
handle_lem exception_error tcr sctlr c = (numbered_dump tcr sctlr c, refl)

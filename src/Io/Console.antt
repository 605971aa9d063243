-- ===== src/Io/Console.antt =====
-- kernel/machine/io/console/console.c. The formatter `__vprintf` of lib/stdio.c is a parameter: what
-- it passes to the output function, as a list.
use swink.Common.{ℕ, ◌+◌, List, [], ◌∷◌, if◌then◌else◌, Result, ok, ◌>>=◌, Option, some, none}
use swink.Io.{Bus}
use swink.Io.Uart.{Uart, mini_uart_init, mini_uart_send_char, mini_uart_send_str}

module _ (bus : Bus) where
  unfoldable pub console_init : Uart bus → Result (Uart bus)
  console_init u = mini_uart_init bus u

  unfoldable pub console_write_str : ℕ → List ℕ → Uart bus → Result (Uart bus)
  console_write_str fuel str u =
      if u.uart_initilized
      then (mini_uart_send_str bus fuel str u.device >>= λ d. ok (record u { device = d }))
      else ok u

  -- One call of the output function: the count goes up before the character is sent.
  unfoldable pub vprintf_helper : ℕ → ℕ → ℕ × bus.Device → Result (ℕ × bus.Device)
  vprintf_helper fuel c (char_count, d) =
      mini_uart_send_char bus fuel c d >>= λ d'. ok (char_count + 1, d')

  unfoldable pub vprintf_all : ℕ → List ℕ → ℕ × bus.Device → Result (ℕ × bus.Device)
  unfolding vprintf_helper
  vprintf_all fuel [] s = ok s
  vprintf_all fuel (c ∷ cs) s = vprintf_helper fuel c s >>= λ s'. vprintf_all fuel cs s'

  -- `formatted` is what the formatter makes of `format` and `args`. No count stands for -1.
  unfoldable pub console_vprintf : ℕ → List ℕ → Uart bus → Result (Option ℕ × Uart bus)
  unfolding vprintf_all
  console_vprintf fuel formatted u =
      if u.uart_initilized
      then (vprintf_all fuel formatted (0, u.device) >>= λ (n, d).
          ok (some n, record u { device = d }))
      else ok (none, u)

-- ===== src/Io/Uart.antt =====
-- kernel/machine/io/mini_uart/mini_uart.c on a bus.
pub mod Lines
use swink.Common.{
  ℕ, zero, suc, ◌+◌, ◌*◌, ◌-◌, ◌^◌, List, [], ◌∷◌, Bool, true, false, not, ◌==◌, if◌then◌else◌,
  Result, ok, assert, ◌>>=◌, ◌>>◌, bit_and, bit_or,
}
use swink.Io.{Bus, wait}
use swink.Io.Registers.{
  aux_mu_enable, aux_mu_cntl, aux_mu_lcr, aux_mu_mcr, aux_mu_ier, aux_mu_iir, aux_mu_baud,
  aux_mu_lsr, aux_mu_io, gpfsel1, gppud, gppudclk0,
}

-- `uart_initilized` and the device
pub record Uart (bus : Bus) : Type 0 where
  pub uart_initilized : Bool
  pub device : bus.Device

abbrev pub newline : ℕ
newline = 10

abbrev pub carriage_return : ℕ
carriage_return = 13

-- `*AUX_MU_LSR & 0x20` and `*AUX_MU_LSR & 0x01`
abbrev pub can_send : ℕ → Bool
can_send lsr = not (bit_and lsr 32 == 0)

abbrev pub has_input : ℕ → Bool
has_input lsr = not (bit_and lsr 1 == 0)

-- `~((7<<12)|(7<<15))` and `(2<<12)|(2<<15)`
abbrev pub pins_cleared : ℕ
pins_cleared = 2 ^ 32 - 1 - 63 * 2 ^ 12

abbrev pub pins_alt5 : ℕ
pins_alt5 = 2 * 2 ^ 12 + 2 * 2 ^ 15

module _ (bus : Bus) where
  open bus use {Device, read, write}

  -- `*address |= 1`
  unfoldable pub set_low_bit : ℕ → Device → Device
  set_low_bit address d = let (value, d') = read address d in write address (bit_or value 1) d'

  unfoldable pub uart_config : Device → Device
  unfolding set_low_bit
  uart_config d = write aux_mu_baud 270 (
      write aux_mu_iir 198 (
        write aux_mu_ier 0 (
          write aux_mu_mcr 0
            (write aux_mu_lcr 3 (write aux_mu_cntl 0 (set_low_bit aux_mu_enable d))))))

  -- The delays between the last writes touch no register.
  unfoldable pub map_pins : Device → Device
  map_pins d =
      let (r, d') = read gpfsel1 d in
      write gppudclk0 0 (
        write gppudclk0 (2 ^ 14 + 2 ^ 15)
          (write gppud 0 (write gpfsel1 (bit_or (bit_and r pins_cleared) pins_alt5) d')))

  unfoldable pub mini_uart_init : Uart bus → Result (Uart bus)
  unfolding uart_config map_pins
  mini_uart_init u =
      assert (not u.uart_initilized)
      >> ok (record {
        uart_initilized = true;
        device = write aux_mu_cntl 3 (map_pins (uart_config u.device));
      })

  -- Every wait has `fuel` reads.
  unfoldable pub send_byte : ℕ → ℕ → Device → Result Device
  send_byte fuel c d = wait bus fuel aux_mu_lsr can_send d >>= λ d'. ok (write aux_mu_io c d')

  -- The call of itself is for '\r', which is no newline.
  unfoldable pub mini_uart_send_char : ℕ → ℕ → Device → Result Device
  unfolding send_byte
  mini_uart_send_char fuel c d =
      send_byte fuel c d >>= λ d'. if c == newline then send_byte fuel carriage_return d' else ok d'

  -- The bytes in memory from `str` on; no byte after a 0 is looked at.
  unfoldable pub mini_uart_send_str : ℕ → List ℕ → Device → Result Device
  mini_uart_send_str fuel [] d = ok d
  mini_uart_send_str fuel (c ∷ str) d =
      if c == 0
      then ok d
      else (mini_uart_send_char fuel c d >>= λ d'. mini_uart_send_str fuel str d')

  unfoldable pub mini_uart_getc : ℕ → Device → Result (ℕ × Device)
  mini_uart_getc fuel d = wait bus fuel aux_mu_lsr has_input d >>= λ d'.
      let (value, d'') = read aux_mu_io d' in ok (bit_and value 255, d'')

-- ===== src/Io/Uart/Lines.antt =====
-- What the mini UART sends out, given that it takes a character every now and then.
use swink.Common.{
  ℕ, ◌+◌, ◌<◌, ◌≡◌, refl, ◌∙◌, ap, sym, List, [], ◌∷◌, ◌++◌, true, ◌==◌, if◌then◌else◌, ok, some,
  length, Bool-cases, inl, inr, arith,
}
use mathlib.Core.List.{append_assoc, append-nil}
use swink.Io.{Bus, Settles, wait_settled}
use swink.Io.Registers.{aux_mu_lsr, aux_mu_io}
use swink.Io.Uart.{
  can_send, newline, carriage_return, send_byte, mini_uart_send_char, mini_uart_send_str,
}
use swink.Io.Console.{vprintf_helper, vprintf_all, console_vprintf}

-- The peripheral: it is ready for the next character within `patience` more reads of its status,
-- which sends nothing, and sends what is written to its register.
pub record MiniUart (bus : Bus) : Type 0 where
  pub sent : bus.Device → List ℕ
  pub patience : ℕ
  pub ready :
      (d : bus.Device)
      → (d' : bus.Device) × Settles bus aux_mu_lsr can_send patience d d' × (sent d' ≡ sent d)
  pub transmits : (c : ℕ) (d : bus.Device) → sent (bus.write aux_mu_io c d) ≡ sent d ++ (c ∷ [])

-- What goes out for a character, for all of a list, and for a string that a 0 ends.
unfoldable pub translated : ℕ → List ℕ
translated c = if c == newline then newline ∷ carriage_return ∷ [] else c ∷ []

unfoldable pub all_translated : List ℕ → List ℕ
all_translated [] = []
all_translated (c ∷ cs) = translated c ++ all_translated cs

unfoldable pub upto_nul : List ℕ → List ℕ
upto_nul [] = []
upto_nul (c ∷ cs) = let rest = upto_nul cs in if c == 0 then [] else c ∷ rest

module _ (bus : Bus) (uart : MiniUart bus) (fuel : ℕ) (enough : uart.patience < fuel) where
  open uart use {sent}

  send_byte_lem :
      (c : ℕ) (d : bus.Device)
      → (d' : bus.Device) × (send_byte bus fuel c d ≡ ok d') × (sent d' ≡ sent d ++ (c ∷ []))
  unfolding send_byte
  send_byte_lem c d =
      let (d', s, same) = uart.ready d in
      (
        bus.write aux_mu_io c d',
        rw (wait_settled fuel s enough) refl,
        uart.transmits c d' ∙ ap (λ (l : List ℕ). l ++ (c ∷ [])) same,
      )

  send_char_lem :
      (c : ℕ) (d : bus.Device)
      → (d' : bus.Device) × (mini_uart_send_char bus fuel c d ≡ ok d')
        × (sent d' ≡ sent d ++ translated c)
  unfolding mini_uart_send_char translated
  send_char_lem c d =
      let (d1, e1, s1) = send_byte_lem c d in
      elim (Bool-cases (c == newline)) [
        | inl is_newline ↦
            let (d2, e2, s2) = send_byte_lem carriage_return d1 in
            let c_is : c ≡ newline = ground (arith, is_newline) in
            (
              d2,
              rw e1 (rw is_newline e2),
              rw is_newline (
                  s2
                  ∙ ap (λ (l : List ℕ). l ++ (carriage_return ∷ [])) s1
                  ∙ append_assoc (sent d) (c ∷ []) (carriage_return ∷ [])
                  ∙ ap (λ (x : ℕ). sent d ++ (x ∷ carriage_return ∷ [])) c_is),
            )
        | inr other ↦ (d1, rw e1 (rw other refl), rw other s1)
      ]

  -- With a mini UART that becomes ready within some number of status reads, sending a string, with
  -- more fuel than that number, returns. The device has then sent the bytes before the first 0,
  -- each newline with a carriage return behind it, and no others.
  pub send_str_lem :
      (str : List ℕ) (d : bus.Device)
      → (d' : bus.Device) × (mini_uart_send_str bus fuel str d ≡ ok d')
        × (sent d' ≡ sent d ++ all_translated (upto_nul str))
  unfolding mini_uart_send_str all_translated upto_nul
  send_str_lem [] d = (d, refl, sym (append-nil (sent d)))
  send_str_lem (c ∷ str) d = elim (Bool-cases (c == 0)) [
    | inl nul ↦ (d, rw nul refl, rw nul (sym (append-nil (sent d))))
    | inr other ↦
        let (d1, e1, s1) = send_char_lem c d in
        let (d2, e2, s2) = send_str_lem str d1 in
        (
          d2,
          rw other (rw e1 e2),
          rw other (
              s2
              ∙ ap (λ (l : List ℕ). l ++ all_translated (upto_nul str)) s1
              ∙ append_assoc (sent d) (translated c) (all_translated (upto_nul str))),
        )
  ]

  vprintf_all_lem :
      (cs : List ℕ) (n : ℕ) (d : bus.Device)
      → (d' : bus.Device) × (vprintf_all bus fuel cs (n, d) ≡ ok (n + length cs, d'))
        × (sent d' ≡ sent d ++ all_translated cs)
  unfolding vprintf_all vprintf_helper all_translated
  vprintf_all_lem [] n d =
      (d, ap (λ (m : ℕ). ok (m, d)) {x = n} {y = n + 0} (omega arith), sym (append-nil (sent d)))
  vprintf_all_lem (c ∷ cs) n d =
      let (d1, e1, s1) = send_char_lem c d in
      let (d2, e2, s2) = vprintf_all_lem cs (n + 1) d1 in
      (
        d2,
        rw e1 (e2 ∙ ap (λ (m : ℕ). ok (m, d2)) (omega arith)),
        s2
            ∙ ap (λ (l : List ℕ). l ++ all_translated cs) s1
            ∙ append_assoc (sent d) (translated c) (all_translated cs),
      )

  -- With the mini UART initialised and becoming ready within some number of status reads, formatted
  -- output, with more fuel than that number, returns the number of characters that the formatter
  -- passed on, and the device has sent all of them, each newline with a carriage return behind it.
  pub console_vprintf_lem :
      (formatted : List ℕ) (d : bus.Device)
      → (d' : bus.Device) × (console_vprintf bus fuel formatted
            (record { uart_initilized = true; device = d })
          ≡ ok (some (length formatted), record { uart_initilized = true; device = d' }))
        × (sent d' ≡ sent d ++ all_translated formatted)
  unfolding console_vprintf
  console_vprintf_lem formatted d =
      let (d', e, s) = vprintf_all_lem formatted 0 d in
      (
        d',
        rw e (
            ap (λ (n : ℕ). ok (some n, record { uart_initilized = true; device = d' }))
              {x = 0 + length formatted} {y = length formatted} (omega arith)),
        s,
      )

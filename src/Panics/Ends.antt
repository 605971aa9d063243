-- ===== src/Panics/Ends.antt =====
-- That a panic comes to an end.
use swink.Common.{
  ℕ, ◌+◌, ◌<◌, ◌^◌, ◌%◌, ◌≡◌, ◌≢◌, refl, ap, true, false, ok, some, none, length, arith,
}
use swink.Io.Vc.{SharedBus, write_body}
use swink.Io.Vc.Queue.{VideoCore}
use swink.Io.Vc.Functions.{vc_tag_set_led_status, vc_functions_set_activity_led}
use swink.Start.Ends.{Returns, call_with_tag-Returns}
use swink.Panics.{double_panic, panic_led_enabled, panic_led_failed, Halted, after_try, debug_panic}

module _ (shared : SharedBus) (vc : VideoCore shared) (fuel address : ℕ)
    (aligned : address % 16 ≡ 0) (word : address < 2 ^ 64) where
  open shared use {bus}
  open vc use {queue, patience}

  led-Returns :
      (d : bus.Device)
      → patience + length (queue d) < fuel
      → Returns shared vc fuel address aligned word
          (vc_functions_set_activity_led shared fuel address 1 d)
          d
  unfolding vc_functions_set_activity_led
  led-Returns d enough =
      call_with_tag-Returns shared vc fuel address aligned word vc_tag_set_led_status 2
        (λ tag m. record m { body = write_body (tag + 4) 1 (write_body (tag + 3) 130 m.body) })
        (λ tag m. some tt) d (omega arith) enough

  after_led :
      (d : bus.Device)
      → Returns shared vc fuel address aligned word
          (vc_functions_set_activity_led shared fuel address 1 d)
          d
      → (h : Halted) × (debug_panic shared fuel address false d ≡ ok h)
        × (h.tried_set_activity_panic_marker ≡ true)
        × (h.led_msg ≢ double_panic)
  unfolding debug_panic after_try
  after_led d (some u, d', e, le) = (
    record { tried_set_activity_panic_marker = true; led_msg = panic_led_enabled },
    ap after_try e,
    refl,
    λ same. cc,
  )
  after_led d (none, d', e, le) = (
    record { tried_set_activity_panic_marker = true; led_msg = panic_led_failed },
    ap after_try e,
    refl,
    λ same. cc,
  )

  -- With a VideoCore that takes a message and delivers what is in its queue within some number of
  -- status reads, and answers a message behind what it has queued, with messages at a 16-byte
  -- aligned address, and with fuel for that number and what was queued before, the first panic
  -- comes to its end with the marker set, and its message is not that of a double panic.
  pub debug_panic_lem :
      (d : bus.Device)
      → patience + length (queue d) < fuel
      → (h : Halted) × (debug_panic shared fuel address false d ≡ ok h)
        × (h.tried_set_activity_panic_marker ≡ true)
        × (h.led_msg ≢ double_panic)
  debug_panic_lem d enough = after_led d (led-Returns d enough)

-- ===== src/Panics.antt =====
-- kernel/lib/debug.c: what a panic does. Of what is printed, the message on the LED is kept; the
-- core idles behind it and does not return.
pub mod Ends
mod Tests
use swink.Common.{ℕ, Bool, true, false, Result, ok, panic, diverges, Option, some, none}
use swink.Io.Vc.{SharedBus}
use swink.Io.Vc.Functions.{vc_functions_set_activity_led}

-- `led_msg`
pub data LedMessage : Type 0 where
  double_panic panic_led_enabled panic_led_failed : LedMessage

-- What stays: tried_set_activity_panic_marker and the message.
pub record Halted : Type 0 where
  pub tried_set_activity_panic_marker : Bool
  pub led_msg : LedMessage

abbrev halted : LedMessage → Halted
halted message = record { tried_set_activity_panic_marker = true; led_msg = message }

-- The message for what came of the try; the marker is set before it, so that a panic within the try
-- comes back to debug_panic with it set.
unfoldable pub after_try : {D : Type 0} → Result (Option (Unit {0}) × D) → Result Halted
after_try (ok (some _, d)) = ok (halted panic_led_enabled)
after_try (ok (none, d)) = ok (halted panic_led_failed)
after_try panic = ok (halted double_panic)
after_try diverges = diverges

module _ (shared : SharedBus) (fuel address : ℕ) where
  open shared use {bus}

  unfoldable pub debug_panic : Bool → bus.Device → Result Halted
  unfolding after_try
  debug_panic true d = ok (halted double_panic)
  debug_panic false d = after_try (vc_functions_set_activity_led shared fuel address 1 d)

  -- panic_simple, panic_formatted and panic_macro, which differ in what they print
  unfoldable pub panic_macro : Bool → bus.Device → Result Halted
  unfolding debug_panic
  panic_macro tried d = debug_panic tried d

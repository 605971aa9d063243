-- ===== src/Panics/Tests.antt =====
-- The theorem on a panic, with a VideoCore that answers at once.
use swink.Common.{◌≡◌, ◌≢◌, false, true, ok, arith}
use swink.Io.Vc.Samples.{firmware, answering, stack, one_stale, enough_reads}
use swink.Panics.{double_panic, Halted, debug_panic}
use swink.Panics.Ends.{debug_panic_lem}

debug_panic_lem_example :
    (h : Halted) × (debug_panic firmware enough_reads stack false one_stale ≡ ok h)
    × (h.tried_set_activity_panic_marker ≡ true)
    × (h.led_msg ≢ double_panic)
debug_panic_lem_example =
    debug_panic_lem firmware answering enough_reads stack (omega arith) (omega arith) one_stale
      (omega arith)

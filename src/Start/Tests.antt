-- ===== src/Start/Tests.antt =====
-- The theorem on main's questions, with a VideoCore that answers each with the board's revision, and
-- that on the whole of main, with half a gigabyte of memory.
use swink.Common.{
  false, [], if◌then◌else◌, ◌==◌, true, ◌*◌, ℕ, ◌≤◌, ◌≡◌, List, ok, Option, length, arith,
}
use swink.Io.Vc.Samples.{firmware, answering, stack, one_stale, enough_reads}
use swink.Pmap.{page_size}
use swink.Pfa.State.{Pfa}
use swink.Pmap.Samples.{pages}
use swink.Io.Uart.{Uart}
use swink.Io.Vc.{SharedBus}
use swink.Io.Registers.{vc_mailbox_response}
use swink.Start.{Properties, get_properties}
use swink.Start.Ends.{get_properties-Returns}

get_properties-Returns_example :
    (answer : Option Properties) × (d' : List ℕ) × (get_properties firmware enough_reads stack
        one_stale
      ≡ ok (answer, d'))
    × (length d' ≤ length one_stale)
get_properties-Returns_example =
    get_properties-Returns firmware answering enough_reads stack (omega arith) (omega arith)
      one_stale (omega arith)

-- A VideoCore that reports half a gigabyte of memory from address 0 on.
abbrev reporting : SharedBus
reporting = record firmware {
  collect = λ address d. record {
    length = 32;
    type = vc_mailbox_response;
    body = λ i. if i == 2 then 8 else if i == 4 then pages * page_size else 0;
  };
}

abbrev reported : Properties
reported = record {
  arm_ram_base = 0;
  arm_ram_size = pages * page_size;
  board_model = 0;
  board_revision = 0;
  videocore_fw = 0;
}

abbrev uart : Uart (firmware.bus)
uart = record { uart_initilized = false; device = [] }

abbrev uart_up : Uart (firmware.bus)
uart_up = record { uart_initilized = true; device = [] }

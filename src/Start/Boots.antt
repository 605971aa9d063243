-- ===== src/Start/Boots.antt =====
-- That main of a kernel that is not built for testing comes to the shutdown.
use swink.LinkedLists.{LinkedLists}
use swink.Pfa.State.{Pfa}
use swink.Io.Uart.{Uart}

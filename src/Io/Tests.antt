-- ===== src/Io/Tests.antt =====
-- The theorems on the devices at concrete inputs, with devices that are always ready.
use swink.Common.{
  ℕ, ◌+◌, ◌≤◌, ◌<◌, ◌≡◌, ◌⊎◌, refl, List, [], ◌∷◌, ◌++◌, ◌==◌, if◌then◌else◌, ok, some, none, arith,
}
use swink.Io.{Bus, at_once}
use swink.Io.Registers.{aux_mu_io, vc_mailbox_read, vc_mailbox_write, vc_mailbox_response}
use swink.Io.Uart.{mini_uart_send_str}
use swink.Io.Uart.Lines.{MiniUart, all_translated, upto_nul, send_str_lem}
use swink.Io.Vc.{
  Message, SharedBus, tx_message, message_init, message_add_tag, vc_mailbox_call_sync,
}
use swink.Io.Vc.Tags.{IsMessage, message_init-IsMessage, message_add_tag_lem}
use swink.Io.Vc.Queue.{VideoCore, after, vc_mailbox_call_sync_lem}

abbrev line_bus : Bus
line_bus = record {
  Device = List ℕ;
  read = λ address d. (32, d);
  write = λ address value d. if address == aux_mu_io then d ++ (value ∷ []) else d;
}

abbrev line_uart : MiniUart line_bus
line_uart = record {
  sent = λ d. d;
  patience = 0;
  ready = λ d. (d, at_once refl, refl);
  transmits = λ c d. refl;
}

abbrev hi : List ℕ
hi = 104 ∷ 105 ∷ 10 ∷ 0 ∷ 120 ∷ []

abbrev one : ℕ
one = 1

send_str_lem_example :
    (d' : List ℕ) × (mini_uart_send_str line_bus one hi [] ≡ ok d')
    × (d' ≡ [] ++ all_translated (upto_nul hi))
send_str_lem_example = send_str_lem line_bus line_uart one (omega arith) hi []

abbrev region_tag : ℕ
region_tag = 65541

abbrev two : ℕ
two = 2

message_add_tag_lem_example :
    ((m' : Message) × (0 + 3 + two < 32)
      × (message_add_tag message_init region_tag two ≡ some (0, m'))
      × IsMessage m' (0 + 3 + two) ([] ++ ((region_tag, two) ∷ [])))
    ⊎ ((32 ≤ 0 + 3 + two) × (message_add_tag message_init region_tag two ≡ none))
message_add_tag_lem_example =
    message_add_tag_lem message_init 0 [] region_tag two message_init-IsMessage (omega arith)

-- A VideoCore that answers at once, with the message as it is.
record Mailbox : Type 0 where
  queue : List ℕ
  message : Message

next : List ℕ → ℕ
next [] = 0
next (value ∷ values) = value

rest : List ℕ → List ℕ
rest [] = []
rest (value ∷ values) = values

abbrev mailbox : SharedBus
mailbox = record {
  bus = record {
    Device = Mailbox;
    read = λ address d.
        if address == vc_mailbox_read
        then (next d.queue, record d { queue = rest d.queue })
        else (0, d);
    write = λ address value d.
        if address == vc_mailbox_write then record d { queue = d.queue ++ (value ∷ []) } else d;
  };
  lend = λ address m d. record d { message = m };
  collect = λ address d. d.message;
}

mailbox-delivers :
    (d : Mailbox) (value : ℕ) (values : List ℕ)
    → d.queue ≡ value ∷ values
    → (next d.queue ≡ value) × (rest d.queue ≡ values)
unfolding next rest
mailbox-delivers d value values e = (rw e refl, rw e refl)

abbrev videocore : VideoCore mailbox
videocore = record {
  queue = λ d. d.queue;
  patience = 0;
  accepts = λ d. (d, at_once refl, refl);
  answers = λ tx d. refl;
  delivers =
      λ d value values e. let (v, q) = mailbox-delivers d value values e in (d, at_once refl, v, q);
  keeps_queue = λ address m d. refl;
}

abbrev stale : Mailbox
stale = record { queue = 24 ∷ []; message = message_init }

abbrev channel : ℕ
channel = 8

abbrev address : ℕ
address = 4096

vc_mailbox_call_sync_lem_example :
    (d' : Mailbox) × (vc_mailbox_call_sync mailbox two channel address message_init stale
      ≡ ok (d'.message.type == vc_mailbox_response, d'.message, d'))
    × (d'.queue
        ≡ after (tx_message channel address) (stale.queue ++ (tx_message channel address ∷ [])))
vc_mailbox_call_sync_lem_example =
    vc_mailbox_call_sync_lem mailbox videocore two channel address message_init stale (omega arith)
      (omega arith) (omega arith)

-- ===== src/Io/Vc.antt =====
-- kernel/machine/io/vc/vc_mailbox.c and the message buffers of vc_functions.c. The memory of a
-- message is shared with the VideoCore during a call.
pub mod Functions
pub mod Queue
pub mod Samples
pub mod Tags
use swink.Common.{
  ℕ, zero, suc, ◌+◌, ◌-◌, ◌*◌, ◌/◌, ◌^◌, Bool, not, ◌==◌, leb, if◌then◌else◌, Result, ok, diverges,
  assert, ◌>>=◌, ◌>>◌, Option, some, none, bit_and, bit_or,
}
use swink.Common.Word.{u32, u64, sub64}
use swink.Io.{Bus, wait}
use swink.Io.Registers.{
  vc_mailbox_status, vc_mailbox_read, vc_mailbox_write, vc_mailbox_full, vc_mailbox_empty,
  vc_mailbox_response,
}
use swink.Pmap.{kva_to_pa}

abbrev pub mailbox_channel_ap_to_vc : ℕ
mailbox_channel_ap_to_vc = 8

abbrev pub mailbox_message_type_request : ℕ
mailbox_message_type_request = 0

abbrev pub vc_mailbox_body_count : ℕ
vc_mailbox_body_count = 32

abbrev pub mailbox_message_mask : ℕ
mailbox_message_mask = 15

-- struct vc_mailbox_message
pub record Message : Type 0 where
  pub length : ℕ
  pub type : ℕ
  pub body : ℕ → ℕ

-- The bus with the memory of a message on it, by the message's address.
pub record SharedBus : Type 1 where
  pub bus : Bus
  pub lend : ℕ → Message → bus.Device → bus.Device
  pub collect : ℕ → bus.Device → Message

-- message_init
abbrev pub message_init : Message
message_init = record { length = 4 * (2 + 1); type = mailbox_message_type_request; body = λ i. 0 }

abbrev pub write_body : ℕ → ℕ → (ℕ → ℕ) → ℕ → ℕ
write_body i value body j = if j == i then value else body j

abbrev pub used_slots : Message → ℕ
used_slots m = u32 (sub64 (m.length / 4) 3)

-- message_add_tag. The pointer to the new tag is its index in the body, and nothing is NULL.
unfoldable pub message_add_tag : Message → ℕ → ℕ → Option (ℕ × Message)
message_add_tag m tag_type slots =
    if leb vc_mailbox_body_count (u32 (used_slots m + 3 + slots))
    then none
    else some (
      used_slots m,
      record m {
        length = u32 (m.length + 4 * u32 (3 + slots));
        body =
            write_body (used_slots m + 1) (u32 (4 * slots))
              (write_body (used_slots m) tag_type m.body);
      },
    )

-- The word that is written to the mailbox for a message at `address`.
unfoldable pub tx_message : ℕ → ℕ → ℕ
unfolding kva_to_pa
tx_message channel address = u32 (
    bit_or (bit_and (kva_to_pa address) (2 ^ 64 - 1 - mailbox_message_mask))
      (bit_and channel mailbox_message_mask))

-- `!(*VC_MAILBOX_STATUS & VC_MAILBOX_FULL)` and `!(*VC_MAILBOX_STATUS & VC_MAILBOX_EMPTY)`
abbrev pub not_full : ℕ → Bool
not_full status = bit_and status vc_mailbox_full == 0

abbrev pub not_empty : ℕ → Bool
not_empty status = bit_and status vc_mailbox_empty == 0

module _ (shared : SharedBus) where
  open shared use {bus, lend, collect}

  -- The loop that waits for the reply to `tx`, and drops what else it reads.
  unfoldable pub await_reply : ℕ → ℕ → bus.Device → Result bus.Device
  await_reply zero tx d = diverges
  await_reply (suc fuel) tx d = wait bus (suc fuel) vc_mailbox_status not_empty d >>= λ d1.
      let (value, d2) = bus.read vc_mailbox_read d1 in
      let again = await_reply fuel tx d2 in if tx == value then ok d2 else again

  -- vc_mailbox_call_sync of the message at `address`: whether it was answered, and the message then.
  unfoldable pub vc_mailbox_call_sync :
      ℕ → ℕ → ℕ → Message → bus.Device → Result (Bool × Message × bus.Device)
  unfolding tx_message await_reply
  vc_mailbox_call_sync fuel channel address m d =
      wait bus fuel vc_mailbox_status not_full (lend address m d) >>= λ d1.
      assert (bit_and address (2 ^ 64 - 1 - mailbox_message_mask) == address)
      >> await_reply fuel (tx_message channel address)
          (bus.write vc_mailbox_write (tx_message channel address) d1)
      >>= λ d2. let reply = collect address d2 in ok (reply.type == vc_mailbox_response, reply, d2)

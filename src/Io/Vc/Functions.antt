-- ===== src/Io/Vc/Functions.antt =====
-- The property calls of kernel/machine/io/vc/vc_functions.c. `address` is that of the message on the
-- caller's stack; an answer of `false` is nothing.
use swink.Common.{
  ℕ, ◌+◌, ◌*◌, ◌-◌, ◌^◌, ltb, if◌then◌else◌, Result, ok, ◌>>=◌, Option, some, none, bit_and,
}
use swink.Io.Vc.{
  Message, SharedBus, message_init, message_add_tag, write_body, vc_mailbox_call_sync,
  mailbox_channel_ap_to_vc,
}

abbrev pub vc_tag_get_firmware_revision : ℕ
vc_tag_get_firmware_revision = 1

-- 0x00010001 and on
abbrev pub vc_tag_get_board_model : ℕ
vc_tag_get_board_model = 65537

abbrev pub vc_tag_get_board_revision : ℕ
vc_tag_get_board_revision = 65538

abbrev pub vc_tag_get_arm_memory_region : ℕ
vc_tag_get_arm_memory_region = 65541

-- 0x00038041
abbrev pub vc_tag_set_led_status : ℕ
vc_tag_set_led_status = 229441

-- VC_TAG_GET_RESPONSE_LENGTH of the tag at index `tag` of the body
unfoldable pub vc_tag_get_response_length : Message → ℕ → ℕ
vc_tag_get_response_length m tag = bit_and (m.body (tag + 2)) (2 ^ 32 - 1 - 2 ^ 31)

abbrev pub tag_buffer : Message → ℕ → ℕ → ℕ
tag_buffer m tag i = m.body (tag + 3 + i)

-- The end of a call that reads two words, and of one that reads one.
abbrev pub read_two : ℕ → Message → Option (ℕ × ℕ)
read_two tag m =
    if ltb (vc_tag_get_response_length m tag) (4 * 2)
    then none
    else some (tag_buffer m tag 0, tag_buffer m tag 1)

abbrev pub read_one : ℕ → Message → Option ℕ
read_one tag m =
    if ltb (vc_tag_get_response_length m tag) (4 * 1) then none else some (tag_buffer m tag 0)

module _ (shared : SharedBus) where
  open shared use {bus}

  -- A call with one tag of `slots` slots, filled in by `prepare`, from which `read_reply` reads.
  unfoldable pub call_with_tag :
      {A : Type 0}
      → ℕ
      → ℕ
      → ℕ
      → ℕ
      → (ℕ → Message → Message)
      → (ℕ → Message → Option A)
      → bus.Device
      → Result (Option A × bus.Device)
  unfolding message_add_tag
  call_with_tag fuel address tag_type slots prepare read_reply d =
      elim (message_add_tag message_init tag_type slots) [
        | none ↦ ok (none, d)
        | some (tag, m) ↦
            vc_mailbox_call_sync shared fuel mailbox_channel_ap_to_vc address (prepare tag m) d
            >>= λ (answered, reply, d'). ok ((if answered then read_reply tag reply else none), d')
      ]

  unfoldable pub vc_functions_get_arm_memory_region :
      ℕ → ℕ → bus.Device → Result (Option (ℕ × ℕ) × bus.Device)
  unfolding call_with_tag vc_tag_get_response_length
  vc_functions_get_arm_memory_region fuel address d =
      call_with_tag fuel address vc_tag_get_arm_memory_region 2 (λ tag m. m) read_two d

  unfoldable pub get_tag_32 : ℕ → ℕ → ℕ → bus.Device → Result (Option ℕ × bus.Device)
  unfolding call_with_tag vc_tag_get_response_length
  get_tag_32 fuel address tag_type d = call_with_tag fuel address tag_type 1 (λ tag m. m) read_one d

  unfoldable pub vc_functions_get_board_model : ℕ → ℕ → bus.Device → Result (Option ℕ × bus.Device)
  unfolding get_tag_32
  vc_functions_get_board_model fuel address d = get_tag_32 fuel address vc_tag_get_board_model d

  unfoldable pub vc_functions_get_board_revision :
      ℕ → ℕ → bus.Device → Result (Option ℕ × bus.Device)
  unfolding get_tag_32
  vc_functions_get_board_revision fuel address d =
      get_tag_32 fuel address vc_tag_get_board_revision d

  unfoldable pub vc_functions_get_vc_revision : ℕ → ℕ → bus.Device → Result (Option ℕ × bus.Device)
  unfolding get_tag_32
  vc_functions_get_vc_revision fuel address d =
      get_tag_32 fuel address vc_tag_get_firmware_revision d

  -- 130 is the status LED. Whether it worked is whether something is answered.
  unfoldable pub vc_functions_set_activity_led :
      ℕ → ℕ → ℕ → bus.Device → Result (Option (Unit {0}) × bus.Device)
  unfolding call_with_tag
  vc_functions_set_activity_led fuel address enabled d =
      call_with_tag fuel address vc_tag_set_led_status 2
        (λ tag m. record m {
          body = write_body (tag + 4) enabled (write_body (tag + 3) 130 m.body);
        })
        (λ tag m. some tt) d

-- ===== src/Start/Ends.antt =====
-- That main comes to an end of its questions to the VideoCore.
use swink.Common.{
  ℕ, suc, ◌+◌, ◌≤◌, ◌<◌, ◌%◌, ◌^◌, ◌≡◌, refl, ◌∙◌, ap, List, [], ◌∷◌, ◌++◌, ◌==◌, if◌then◌else◌,
  Bool, Bool-cases, ==_refl, inl, inr, Result, ok, ◌>>=◌, Option, some, none, length, arith,
}
use swink.Io.Vc.{
  Message, SharedBus, tx_message, message_init, message_add_tag, mailbox_channel_ap_to_vc,
  vc_mailbox_call_sync,
}
use swink.Io.Vc.Tags.{message_init-IsMessage, message_add_tag_lem}
use swink.Io.Vc.Queue.{VideoCore, after, vc_mailbox_call_sync_lem}
use swink.Io.Registers.{vc_mailbox_response}
use swink.Io.Vc.Functions.{
  read_one, read_two, vc_tag_get_arm_memory_region, vc_tag_get_board_model,
  vc_tag_get_firmware_revision, call_with_tag, get_tag_32, vc_functions_get_arm_memory_region,
  vc_functions_get_board_model, vc_functions_get_vc_revision,
}
use swink.Start.{and_then, get_properties}

length-snoc : (tx : ℕ) (values : List ℕ) → length (values ++ (tx ∷ [])) ≡ suc (length values)
length-snoc tx [] = refl
length-snoc tx (value ∷ values) = ap suc (length-snoc tx values)

after-length : (tx : ℕ) (values : List ℕ) → length (after tx (values ++ (tx ∷ []))) ≤ length values
unfolding after
after-length tx [] = rw (==_refl tx) (omega arith)
after-length tx (value ∷ values) = elim (Bool-cases (tx == value)) [
  | inl same ↦ rw same (omega (arith, length-snoc tx values))
  | inr other ↦ rw other (omega (arith, after-length tx values))
]

module _ (shared : SharedBus) (vc : VideoCore shared) (fuel address : ℕ)
    (aligned : address % 16 ≡ 0) (word : address < 2 ^ 64) where
  open shared use {bus}
  open vc use {queue, patience}

  -- A call that returns, with no more queued than before.
  abbrev pub Returns : {A : Type 0} → Result (Option A × bus.Device) → bus.Device → Type 0
  Returns {A} call d =
      (answer : Option A) × (d' : bus.Device) × (call ≡ ok (answer, d'))
      × (length (queue d') ≤ length (queue d))

  -- What a call answers, from whether there was a response and what it was.
  abbrev answer_of :
      {A : Type 0}
      → (Message → Option A)
      → Result (Bool × Message × bus.Device)
      → Result (Option A × bus.Device)
  answer_of read r = r >>= λ (answered, reply, d'). ok ((if answered then read reply else none), d')

  call_with_tag_eq :
      {A : Type 0} (tag_type slots tag : ℕ) (m : Message) (prepare : ℕ → Message → Message)
      (read_reply : ℕ → Message → Option A) (d : bus.Device)
      → message_add_tag message_init tag_type slots ≡ some (tag, m)
      → call_with_tag shared fuel address tag_type slots prepare read_reply d
        ≡ answer_of
            (read_reply tag)
            (vc_mailbox_call_sync shared fuel mailbox_channel_ap_to_vc address (prepare tag m) d)
  unfolding call_with_tag
  call_with_tag_eq tag_type slots tag m prepare read_reply d added =
      ap
        (λ (o : Option (ℕ × Message)). elim o [
          | none ↦ ok (none, d)
          | some (tag, m) ↦
              answer_of (read_reply tag) (
                vc_mailbox_call_sync shared fuel mailbox_channel_ap_to_vc address (prepare tag m) d)
        ])
        added

  pub call_with_tag-Returns :
      {A : Type 0} (tag_type slots : ℕ) (prepare : ℕ → Message → Message)
      (read_reply : ℕ → Message → Option A) (d : bus.Device)
      → slots < 20
      → patience + length (queue d) < fuel
      → Returns (call_with_tag shared fuel address tag_type slots prepare read_reply d) d
  call_with_tag-Returns tag_type slots prepare read_reply d few enough =
      elim (message_add_tag_lem message_init 0 [] tag_type slots message_init-IsMessage
        (omega arith)) [
          | inr (over, _) ↦ absurd (omega arith)
          | inl (m, _, added, _) ↦
              let (d', e, q) =
                vc_mailbox_call_sync_lem shared vc fuel mailbox_channel_ap_to_vc address
                  (prepare 0 m) d enough aligned word in
              let tx = tx_message mailbox_channel_ap_to_vc address in
              (
                (if (shared.collect address d').type == vc_mailbox_response
                    then read_reply 0 (shared.collect address d')
                    else none),
                d',
                call_with_tag_eq tag_type slots 0 m prepare read_reply d added
                    ∙ ap (answer_of (read_reply 0)) e,
                omega (arith, ap (λ (l : List ℕ). length l) q, after-length tx (queue d)),
              )
        ]

  and_then-Returns :
      {A B : Type 0} (call : Result (Option A × bus.Device))
      (next : A → bus.Device → Result (Option B × bus.Device)) (d : bus.Device)
      → Returns call d
      → ((a : A) (d' : bus.Device) → length (queue d') ≤ length (queue d) → Returns (next a d') d')
      → Returns (and_then shared fuel address call next) d
  unfolding and_then
  and_then-Returns call next d (none, d', e, le) rest = (none, d', rw e refl, le)
  and_then-Returns call next d (some a, d', e, le) rest =
      let (answer, d'', e', le') = rest a d' le in (answer, d'', rw e e', omega arith)

  region-Returns :
      (d : bus.Device)
      → patience + length (queue d) < fuel
      → Returns (vc_functions_get_arm_memory_region shared fuel address d) d
  unfolding vc_functions_get_arm_memory_region
  region-Returns d enough =
      call_with_tag-Returns vc_tag_get_arm_memory_region 2 (λ tag m. m) read_two d (omega arith)
        enough

  get_tag_32-Returns :
      (tag_type : ℕ) (d : bus.Device)
      → patience + length (queue d) < fuel
      → Returns (get_tag_32 shared fuel address tag_type d) d
  unfolding get_tag_32
  get_tag_32-Returns tag_type d enough =
      call_with_tag-Returns tag_type 1 (λ tag m. m) read_one d (omega arith) enough

  model-Returns :
      (d : bus.Device)
      → patience + length (queue d) < fuel
      → Returns (vc_functions_get_board_model shared fuel address d) d
  unfolding vc_functions_get_board_model
  model-Returns d enough = get_tag_32-Returns vc_tag_get_board_model d enough

  revision-Returns :
      (d : bus.Device)
      → patience + length (queue d) < fuel
      → Returns (vc_functions_get_vc_revision shared fuel address d) d
  unfolding vc_functions_get_vc_revision
  revision-Returns d enough = get_tag_32-Returns vc_tag_get_firmware_revision d enough

  -- With a VideoCore that takes a message and delivers what is in its queue within some number of
  -- status reads, and answers a message behind what it has queued, and with messages at a 16-byte
  -- aligned address, the questions of main to it return, with fuel for that number and what was
  -- queued before. No more is queued then than before.
  pub get_properties-Returns :
      (d : bus.Device)
      → patience + length (queue d) < fuel
      → Returns (get_properties shared fuel address d) d
  unfolding get_properties
  get_properties-Returns d enough =
      and_then-Returns (vc_functions_get_arm_memory_region shared fuel address d) _ d
        (region-Returns d enough)
        (λ region d1 le1.
          and_then-Returns (vc_functions_get_board_model shared fuel address d1) _ d1
            (model-Returns d1 (omega arith))
            (λ model d2 le2.
              and_then-Returns (vc_functions_get_vc_revision shared fuel address d2) _ d2
                (revision-Returns d2 (omega arith))
                (λ revision d3 le3.
                  and_then-Returns (vc_functions_get_vc_revision shared fuel address d3) _ d3
                    (revision-Returns d3 (omega arith))
                    (λ firmware d4 le4. (
                      some (record {
                        arm_ram_base = region.0;
                        arm_ram_size = region.1;
                        board_model = model;
                        board_revision = revision;
                        videocore_fw = firmware;
                      }),
                      d4,
                      refl,
                      omega arith,
                    )))))

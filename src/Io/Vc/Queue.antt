-- ===== src/Io/Vc/Queue.antt =====
-- A call of the mailbox as an exchange with a VideoCore that answers each message it is sent.
use swink.Common.{
  ℕ, zero, suc, ◌+◌, ◌-◌, ◌*◌, ◌/◌, ◌%◌, ◌^◌, ◌<◌, ◌≡◌, refl, ◌∙◌, ap, ap₂, List, [], ◌∷◌, ◌++◌,
  true, false, ◌≢◌, ◌==◌, if◌then◌else◌, ok, panic, length, Bool-cases, ==_refl, inl, inr, arith,
  bit_and, bit_or,
}
use swink.Common.Word.{bit_and_mask, bit_and_high, bit_or_cut, bit_or-zero, zero-bit_or}
use swink.Io.{Settles, wait_settled}
use swink.Io.Registers.{vc_mailbox_status, vc_mailbox_read, vc_mailbox_write, vc_mailbox_response}
use swink.Io.Vc.{
  Message, SharedBus, tx_message, not_full, not_empty, await_reply, vc_mailbox_call_sync,
  mailbox_message_mask,
}

-- The VideoCore: `queue` is what the mailbox is still to hand out, in order. What is written to it
-- is written back behind that once it is answered, and both ends are ready within `patience` reads.
pub record VideoCore (shared : SharedBus) : Type 0 where
  pub queue : shared.bus.Device → List ℕ
  pub patience : ℕ
  pub accepts :
      (d : shared.bus.Device)
      → (d' : shared.bus.Device) × Settles shared.bus vc_mailbox_status not_full patience d d'
        × (queue d' ≡ queue d)
  pub answers :
      (tx : ℕ) (d : shared.bus.Device)
      → queue (shared.bus.write vc_mailbox_write tx d) ≡ queue d ++ (tx ∷ [])
  pub delivers :
      (d : shared.bus.Device) (value : ℕ) (values : List ℕ)
      → queue d ≡ value ∷ values
      → (d' : shared.bus.Device) × Settles shared.bus vc_mailbox_status not_empty patience d d'
        × ((shared.bus.read vc_mailbox_read d').0 ≡ value)
        × (queue (shared.bus.read vc_mailbox_read d').1 ≡ values)
  pub keeps_queue :
      (address : ℕ) (m : Message) (d : shared.bus.Device)
      → queue (shared.lend address m d) ≡ queue d

-- The test of the assertion.
masked :
    (address : ℕ)
    → bit_and address (2 ^ 64 - 1 - mailbox_message_mask) ≡ address / 2 ^ 4 % 2 ^ 60 * 2 ^ 4
masked address =
    bit_and_high 4 (2 ^ 60 - 1) address
    ∙ ap (λ (t : ℕ). t * 2 ^ 4) (bit_and_mask 60 (address / 2 ^ 4))

aligned_lem :
    (address : ℕ)
    → address % 16 ≡ 0
    → address < 2 ^ 64
    → (bit_and address (2 ^ 64 - 1 - mailbox_message_mask) == address) ≡ true
aligned_lem address aligned word = ground (arith, masked address)

unaligned_lem :
    (address : ℕ)
    → address % 16 ≢ 0
    → (bit_and address (2 ^ 64 - 1 - mailbox_message_mask) == address) ≡ false
unaligned_lem address unaligned = ground (arith, masked address)

-- What is behind the first `tx` of a list.
unfoldable pub after : ℕ → List ℕ → List ℕ
after tx [] = []
after tx (value ∷ values) = let rest = after tx values in if tx == value then values else rest

module _ (shared : SharedBus) (vc : VideoCore shared) where
  open shared use {bus, collect}
  open vc use {queue, patience}

  await_reply_lem :
      (tx : ℕ) (values : List ℕ) (fuel : ℕ) (d : bus.Device)
      → patience + length values < fuel
      → queue d ≡ values ++ (tx ∷ [])
      → (d' : bus.Device) × (await_reply shared fuel tx d ≡ ok d')
        × (queue d' ≡ after tx (values ++ (tx ∷ [])))
  unfolding await_reply after
  await_reply_lem tx values zero d enough e = absurd (omega arith)
  await_reply_lem tx [] (suc fuel) d enough e =
      let (d1, s, v, q) = vc.delivers d tx [] e in
      (
        (bus.read vc_mailbox_read d1).1,
        rw (wait_settled (suc fuel) s (omega arith)) (rw v (rw (==_refl tx) refl)),
        rw (==_refl tx) q,
      )
  await_reply_lem tx (value ∷ values) (suc fuel) d enough e =
      let (d1, s, v, q) = vc.delivers d value (values ++ (tx ∷ [])) e in
      elim (Bool-cases (tx == value)) [
        | inl same ↦ (
          (bus.read vc_mailbox_read d1).1,
          rw (wait_settled (suc fuel) s (omega arith)) (rw v (rw same refl)),
          rw same q,
        )
        | inr other ↦
            let (d2, e2, q2) =
              await_reply_lem tx values fuel (bus.read vc_mailbox_read d1).1 (omega arith) q in
            (d2, rw (wait_settled (suc fuel) s (omega arith)) (rw v (rw other e2)), rw other q2)
      ]

-- The address and the channel are in separate bits of the word.
pub tx_message_lem :
    (channel address : ℕ)
    → address % 16 ≡ 0
    → address < 2 ^ 32
    → channel < 16
    → tx_message channel address ≡ address + channel
unfolding tx_message
tx_message_lem channel address aligned small low = omega (
  arith,
  masked address,
  bit_and_mask 4 channel,
  bit_or_cut 4 (bit_and address (2 ^ 64 - 1 - mailbox_message_mask))
      (bit_and channel mailbox_message_mask),
  high,
  rest,
)
  where
    high :
        bit_or
          (bit_and address (2 ^ 64 - 1 - mailbox_message_mask) / 2 ^ 4)
          (bit_and channel mailbox_message_mask / 2 ^ 4)
        ≡ address / 2 ^ 4
    high =
        ap₂ bit_or {x = bit_and address (2 ^ 64 - 1 - mailbox_message_mask) / 2 ^ 4}
          {y = address / 2 ^ 4} {u = bit_and channel mailbox_message_mask / 2 ^ 4} {v = 0}
          (omega (arith, masked address)) (omega (arith, bit_and_mask 4 channel))
        ∙ bit_or-zero (address / 2 ^ 4)

    rest :
        bit_or
          (bit_and address (2 ^ 64 - 1 - mailbox_message_mask) % 2 ^ 4)
          (bit_and channel mailbox_message_mask % 2 ^ 4)
        ≡ channel
    rest =
        ap₂ bit_or {x = bit_and address (2 ^ 64 - 1 - mailbox_message_mask) % 2 ^ 4} {y = 0}
          {u = bit_and channel mailbox_message_mask % 2 ^ 4} {v = channel}
          (omega (arith, masked address)) (omega (arith, bit_and_mask 4 channel))
        ∙ zero-bit_or channel

module _ (shared : SharedBus) (vc : VideoCore shared) where
  open shared use {bus, collect}
  open vc use {queue, patience}

  -- With a VideoCore that takes a message and delivers what is in its queue within some number of
  -- status reads, and answers a message behind what it has queued, a call with a message at a
  -- 16-byte aligned address returns, with fuel for that number and the queue. What was queued up to
  -- the first value like the message's own is dropped. The call answers whether the type of the
  -- message in memory is then that of a response.
  pub vc_mailbox_call_sync_lem :
      (fuel channel address : ℕ) (m : Message) (d : bus.Device)
      → patience + length (queue d) < fuel
      → address % 16 ≡ 0
      → address < 2 ^ 64
      → (d' : bus.Device) × (vc_mailbox_call_sync shared fuel channel address m d
          ≡ ok ((collect address d').type == vc_mailbox_response, collect address d', d'))
        × (queue d'
            ≡ after (tx_message channel address) (queue d ++ (tx_message channel address ∷ [])))
  unfolding vc_mailbox_call_sync
  vc_mailbox_call_sync_lem fuel channel address m d enough aligned word =
      let tx = tx_message channel address in
      let (d1, s, q1) = vc.accepts (shared.lend address m d) in
      let (d2, e, q2) =
        await_reply_lem shared vc tx (queue d) fuel (bus.write vc_mailbox_write tx d1) enough (
          vc.answers tx d1
          ∙ ap (λ (l : List ℕ). l ++ (tx ∷ [])) (q1 ∙ vc.keeps_queue address m d)) in
      (
        d2,
        rw (wait_settled fuel s (omega arith)) (rw (aligned_lem address aligned word) (rw e refl)),
        q2,
      )

  -- XX
  pub vc_mailbox_call_sync_unaligned :
      (fuel channel address : ℕ) (m : Message) (d : bus.Device)
      → patience < fuel
      → address % 16 ≢ 0
      → vc_mailbox_call_sync shared fuel channel address m d ≡ panic
  unfolding vc_mailbox_call_sync
  vc_mailbox_call_sync_unaligned fuel channel address m d enough unaligned =
      let (d1, s, q1) = vc.accepts (shared.lend address m d) in
      rw (wait_settled fuel s enough) (rw (unaligned_lem address unaligned) refl)

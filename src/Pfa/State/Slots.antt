-- ===== src/Pfa/State/Slots.antt =====
-- One bit of one 64-bit slot of a buddy bitmap.
use swink.Common.{
  ℕ, ◌-◌, ◌*◌, ◌^◌, ◌<◌, bit_and, bit_or, ◌≡◌, refl, true, arith, ◌==◌, if◌then◌else◌, holds_below,
  holds_below-holds, ==_iff,
}
use swink.Common.Word.{u64, shr, bit_at, bit_at-bit_and, bit_at-bit_or, bit_and_mask}
use swink.Pfa.State.{set_slot_bit, get_slot_bit}

-- The cleared mask has every bit but one, the shifted value that one alone.
mask_table :
    holds_below 64
      (λ o. holds_below 64 (λ k. bit_at (2 ^ 64 - 1 - u64 (2 ^ o)) k == (if o == k then 0 else 1)))
    ≡ true
unfolding holds_below
mask_table = refl

value_table :
    holds_below 2 (λ v.
      holds_below 64
        (λ o. holds_below 64 (λ k. bit_at (u64 (v * 2 ^ o)) k == (if o == k then v else 0))))
    ≡ true
unfolding holds_below
value_table = refl

bit_at-mask :
    (o k : ℕ) → o < 64 → k < 64 → bit_at (2 ^ 64 - 1 - u64 (2 ^ o)) k ≡ (if o == k then 0 else 1)
bit_at-mask o k ho hk =
    (==_iff _ _).0 (holds_below-holds 64 _ k (holds_below-holds 64 _ o mask_table ho) hk)

bit_at-value :
    (v o k : ℕ) → v < 2 → o < 64 → k < 64 → bit_at (u64 (v * 2 ^ o)) k ≡ (if o == k then v else 0)
bit_at-value v o k hv ho hk = (==_iff _ _).0 (
    holds_below-holds 64 _ k (holds_below-holds 64 _ o (holds_below-holds 2 _ v value_table hv) ho)
      hk)

pub get_slot_bit_lem : (bin k : ℕ) → get_slot_bit bin k ≡ bit_at bin k
unfolding get_slot_bit
get_slot_bit_lem bin k = bit_and_mask 1 (shr bin k)

-- Setting a bit of a slot changes that bit and no other.
pub get_slot_bit-set_slot_bit :
    (bin o k v : ℕ)
    → o < 64
    → k < 64
    → v < 2
    → get_slot_bit (set_slot_bit bin o v) k ≡ (if o == k then v else get_slot_bit bin k)
unfolding set_slot_bit
get_slot_bit-set_slot_bit bin o k v ho hk hv = ground (
  arith,
  get_slot_bit_lem (bit_or (bit_and bin (2 ^ 64 - 1 - u64 (2 ^ o))) (u64 (v * 2 ^ o))) k,
  get_slot_bit_lem bin k,
  bit_at-bit_or (bit_and bin (2 ^ 64 - 1 - u64 (2 ^ o))) (u64 (v * 2 ^ o)) k,
  bit_at-bit_and bin (2 ^ 64 - 1 - u64 (2 ^ o)) k,
  bit_at-mask o k,
  bit_at-value v o k,
)

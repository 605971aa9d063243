-- ===== src/Io.antt =====
-- The devices behind kernel/machine/io: a bus of 32-bit registers, which is hardware and a parameter
-- of all that uses it, and the loops that wait for a register.
pub mod Console
pub mod Pmc
pub mod Registers
mod Tests
pub mod Uart
pub mod Vc
use swink.Common.{
  ℕ, zero, suc, ◌+◌, ◌≤◌, ◌<◌, ◌≡◌, refl, ◌∙◌, ap, Bool, true, false, Result, ok, diverges, ◌>>=◌,
  if◌then◌else◌, Bool-cases, inl, inr, ◌⊎◌, arith,
}

-- Reading and writing a `volatile unsigned int`. A device may change with every access.
pub record Bus : Type 1 where
  pub Device : Type 0
  pub read : ℕ → Device → ℕ × Device
  pub write : ℕ → ℕ → Device → Device

-- `while (!test(*address)) {}`, with `fuel` reads.
unfoldable pub wait : (bus : Bus) → ℕ → ℕ → (ℕ → Bool) → bus.Device → Result bus.Device
wait bus zero address test d = diverges
wait bus (suc fuel) address test d =
    let (value, d') = bus.read address d in
    let later = wait bus fuel address test d' in if test value then ok d' else later

-- That the device answers as `test` wants within `reads` more reads, and is then `d'`.
pub data Settles (bus : Bus) (address : ℕ) (test : ℕ → Bool)
    : ℕ → bus.Device → bus.Device → Type 0 where
  at_once :
      {reads : ℕ} {d : bus.Device}
      → test (bus.read address d).0 ≡ true
      → Settles bus address test reads d (bus.read address d).1
  later :
      {reads : ℕ} {d d' : bus.Device}
      → test (bus.read address d).0 ≡ false
      → Settles bus address test reads (bus.read address d).1 d'
      → Settles bus address test (suc reads) d d'

-- The loop then ends, with one read more than that as fuel.
pub wait_settled :
    {bus : Bus} {address : ℕ} {test : ℕ → Bool} {reads : ℕ} {d d' : bus.Device} (fuel : ℕ)
    → Settles bus address test reads d d'
    → reads < fuel
    → wait bus fuel address test d ≡ ok d'
unfolding wait
wait_settled zero s enough = absurd (omega arith)
wait_settled (suc fuel) (at_once now) enough = rw now refl
wait_settled (suc fuel) (later not_yet s) enough = rw not_yet (wait_settled fuel s (omega arith))

-- ===== src/Synchs.antt =====
-- kernel/machine/synchronization/synchs.c: a spin semaphore, and a lock as a binary semaphore.
pub mod Threads
mod Tests
use swink.Common.{ℕ, ◌+◌, ◌-◌, ◌≡◌, arith, Result, ok, diverges, ◌>>=◌, ◌==◌, if◌then◌else◌}
use swink.Common.Word.{u32}

pub record Semaphore : Type 0 where
  pub value : ℕ

pub record Lock : Type 0 where
  pub semaphore : Semaphore

unfoldable pub semaphore_init : ℕ → Semaphore
semaphore_init value = record { value = value }

-- Where no other thread touches the value, the loop either takes it down at once or spins for ever.
unfoldable pub semaphore_down : Semaphore → Result Semaphore
semaphore_down s = if s.value == 0 then diverges else ok (record s { value = s.value - 1 })

unfoldable pub semaphore_up : Semaphore → Semaphore
semaphore_up s = record s { value = u32 (s.value + 1) }

unfoldable pub lock_init : Lock
unfolding semaphore_init
lock_init = record { semaphore = semaphore_init 1 }

unfoldable pub lock_acquire : Lock → Result Lock
unfolding semaphore_down
lock_acquire l = do s ← semaphore_down l.semaphore; ok (record l { semaphore = s })

unfoldable pub lock_release : Lock → Lock
unfolding semaphore_up
lock_release l = record l { semaphore = semaphore_up l.semaphore }

-- A lock that is held.
abbrev pub held : Lock
held = record { semaphore = record { value = 0 } }

-- A lock that is not held can be taken, and then it is held.
pub lock_acquire_free : (l : Lock) → l.semaphore.value ≡ 1 → lock_acquire l ≡ ok held
unfolding lock_acquire
lock_acquire_free l h = ground arith

-- Taking and releasing a lock that nobody holds leaves it as it was.
pub release-acquire : (l : Lock) → l.semaphore.value ≡ 1 → lock_release held ≡ l
unfolding lock_release
release-acquire l h = ground arith

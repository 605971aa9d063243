-- ===== src/Pfa/Debug.antt =====
-- pmap_pfa_get_state of kernel/machine/pmap/pmap_pfa.c, which test builds have.
pub mod Walks
use swink.Common.{
  ℕ, zero, suc, ◌≤◌, ◌≡◌, ap, arith, Result, ok, assert, ◌>>=◌, ◌>>◌, leb, ltb, le→leb, ◌==◌,
  if◌then◌else◌, length,
}
use swink.LinkedLists.{LinkedLists}
use swink.Synchs.{Lock, lock_acquire, lock_release, lock_acquire_free, release-acquire}
use swink.Pfa.Levels.{buddy_levels}
use swink.Pfa.State.{Pfa}

module _ (lists : LinkedLists) where
  open lists use {Store, contents, list_size, size_lem}

  -- `level_buffer` after the sizes of the lists below `levels` are written.
  unfoldable pub write_sizes : ℕ → Store → (ℕ → ℕ) → ℕ → ℕ
  write_sizes zero s level_buffer i = level_buffer i
  write_sizes (suc levels) s level_buffer i =
      if levels == i then list_size levels s else write_sizes levels s level_buffer i

  -- The REQUIRE stays in release builds.
  unfoldable pub get_state : (ℕ → ℕ) → ℕ → Pfa Store → Result ((ℕ → ℕ) × Pfa Store)
  get_state level_buffer count pfa =
      assert (leb buddy_levels count)
      >> (lock_acquire pfa.lock >>= λ taken. ok (
        write_sizes buddy_levels pfa.buddy_lists level_buffer,
        record pfa { lock = lock_release taken },
      ))

  write_sizes_lem :
      (levels i : ℕ) (s : Store) (level_buffer : ℕ → ℕ)
      → write_sizes levels s level_buffer i
        ≡ (if ltb i levels then length (contents s i) else level_buffer i)
  unfolding write_sizes
  write_sizes_lem zero i s level_buffer = ground arith
  write_sizes_lem (suc levels) i s level_buffer =
      ground (arith, write_sizes_lem levels i s level_buffer, size_lem s levels)

  -- With a free lock and a buffer of at least six counts, reading the state returns with the state
  -- unchanged; the six counts are the lengths of the buddy lists, and the buffer behind them is as
  -- it was.
  pub get_state_lem :
      (level_buffer : ℕ → ℕ) (count : ℕ) (pfa : Pfa Store)
      → buddy_levels ≤ count
      → pfa.lock.semaphore.value ≡ 1
      → (sizes : ℕ → ℕ) × (get_state level_buffer count pfa ≡ ok (sizes, pfa))
        × ((i : ℕ)
            → sizes i ≡ (
                if ltb i buddy_levels then length (contents pfa.buddy_lists i) else level_buffer i))
  unfolding get_state
  get_state_lem level_buffer count pfa room free = (
    write_sizes buddy_levels pfa.buddy_lists level_buffer,
    rw (le→leb buddy_levels count room, lock_acquire_free pfa.lock free)
        (ap
          (λ (l : Lock).
            ok (write_sizes buddy_levels pfa.buddy_lists level_buffer, record pfa { lock = l }))
          (release-acquire pfa.lock free)),
    λ i. write_sizes_lem buddy_levels i pfa.buddy_lists level_buffer,
  )

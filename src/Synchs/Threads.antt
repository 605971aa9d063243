-- ===== src/Synchs/Threads.antt =====
-- kernel/machine/synchronization/synchs.c with any number of threads on one lock: the atomic
-- accesses of synchs_semaphore_down and synchs_semaphore_up as steps, in any order.
use swink.Common.{
  ℕ, ◌-◌, ◌≡◌, ◌≢◌, refl, ◌⊎◌, inl, inr, ◌∙◌, sym, ap, arith, Bool, true, not, ◌&&◌, ◌==◌,
  if◌then◌else◌, List, [], ◌∷◌, Bool-cases,
}
use swink.Synchs.{Semaphore, semaphore_up, lock_init, semaphore_init}

-- Where a thread is: it has not asked for the lock, is at the top of the loop, has loaded a value
-- that is not 0, or holds the lock.
pub data Phase : Type 0 where
  outside loading : Phase
  loaded : ℕ → Phase
  holding : Phase

pub record System : Type 0 where
  pub semaphore : Semaphore
  pub phase : ℕ → Phase

abbrev pub set_phase : ℕ → Phase → (ℕ → Phase) → ℕ → Phase
set_phase t p phase u = if t == u then p else phase u

-- One step of a thread in a phase. `weak` says that the compare-exchange fails though the values
-- agree, as a weak one may.
unfoldable pub proceed : Phase → ℕ → Bool → System → System
unfolding semaphore_up
proceed outside t weak s = record s { phase = set_phase t loading s.phase }
proceed loading t weak s =
    if s.semaphore.value == 0
    then s
    else record s { phase = set_phase t (loaded s.semaphore.value) s.phase }
proceed (loaded value) t weak s =
    if s.semaphore.value == value && not weak
    then record { semaphore = record { value = value - 1 }; phase = set_phase t holding s.phase }
    else record s { phase = set_phase t loading s.phase }
proceed holding t weak s = record {
  semaphore = semaphore_up s.semaphore;
  phase = set_phase t outside s.phase;
}

unfoldable pub step : ℕ → Bool → System → System
step t weak s = proceed (s.phase t) t weak s

-- The steps of a schedule, one after the other.
unfoldable pub run : List (ℕ × Bool) → System → System
run [] s = s
run ((t, weak) ∷ rest) s = run rest (step t weak s)

-- The lock as it is initialised, asked for by nobody.
unfoldable pub start : System
unfolding lock_init
start = record { semaphore = lock_init.semaphore; phase = λ t. outside }

-- The value is 1 and no thread holds the lock, or it is 0 and one does. A value that a thread has
-- loaded was 1.
pub record IsExclusive (s : System) : Type 0 where
  pub counts :
      ((s.semaphore.value ≡ 1) × ((t : ℕ) → s.phase t ≢ holding))
      ⊎ ((s.semaphore.value ≡ 0)
          × (t : ℕ) × (s.phase t ≡ holding)
          × ((u : ℕ) → s.phase u ≡ holding → t ≡ u))
  pub reads : (t v : ℕ) → s.phase t ≡ loaded v → v ≡ 1

start-IsExclusive : IsExclusive start
unfolding start lock_init semaphore_init
start-IsExclusive = record { counts = inl (refl, λ t h. cc); reads = λ t v h. cc }

abbrev loaded_value : Phase → ℕ
loaded_value (loaded v) = v
loaded_value outside = 0
loaded_value loading = 0
loaded_value holding = 0

module _ (s : System) (inv : IsExclusive s) (t : ℕ) where
  -- A thread that does not hold the lock goes on without it: what it has loaded must be 1.
  move-IsExclusive :
      (p : Phase)
      → s.phase t ≢ holding
      → p ≢ holding
      → ((v : ℕ) → p ≡ loaded v → v ≡ 1)
      → IsExclusive (record s { phase = set_phase t p s.phase })
  move-IsExclusive p was is one = record {
    counts = elim inv.counts [
      | inl (free, none) ↦ inl (free, λ u h. ground (arith, none u))
      | inr (taken, owner, holds, only) ↦
          inr (taken, owner, ground arith, λ u h. ground (arith, only u))
    ];
    reads = λ u v h. ground (arith, one v, inv.reads u v);
  }

  proceed-IsExclusive : (p : Phase) (weak : Bool) → s.phase t ≡ p → IsExclusive (proceed p t weak s)
  unfolding proceed semaphore_up
  proceed-IsExclusive outside weak e = move-IsExclusive loading (λ h. cc) (λ h. cc) (λ v h. cc)
  proceed-IsExclusive loading weak e = elim (Bool-cases (s.semaphore.value == 0)) [
    | inl taken ↦ rw taken inv
    | inr free ↦ rw free (
        move-IsExclusive (loaded s.semaphore.value) (λ h. cc) (λ h. cc)
          (λ v h. ground (arith, inv.counts, ap loaded_value h, free)))
  ]
  proceed-IsExclusive (loaded v) weak e = elim (Bool-cases (s.semaphore.value == v && not weak)) [
    | inl same ↦ rw same (take same)
    | inr other ↦ rw other (move-IsExclusive loading (λ h. cc) (λ h. cc) (λ w h. cc))
  ]
    where
      take :
          (s.semaphore.value == v && not weak) ≡ true
          → IsExclusive
              (record { semaphore = record { value = v - 1 }; phase = set_phase t holding s.phase })
      take same =
          let one : v ≡ 1 = inv.reads t v e in
          let free : s.semaphore.value ≡ 1 = ground arith in
          record {
            counts = elim inv.counts [
              | inl (_, none) ↦ inr (omega arith, t, ground arith, λ u h. ground (arith, none u))
              | inr (taken, owner, holds, only) ↦ absurd (omega arith)
            ];
            reads = λ u w h. ground (arith, inv.reads u w);
          }
  proceed-IsExclusive holding weak e = record {
    counts = elim inv.counts [
      | inl (_, none) ↦ absurd (none t e)
      | inr (taken, owner, holds, only) ↦
          inl (ground arith, λ u h. ground (arith, only u, only t e))
    ];
    reads = λ u w h. ground (arith, inv.reads u w);
  }

run-IsExclusive :
    (schedule : List (ℕ × Bool)) (s : System) → IsExclusive s → IsExclusive (run schedule s)
unfolding run step
run-IsExclusive [] s inv = inv
run-IsExclusive ((t, weak) ∷ rest) s inv =
    run-IsExclusive rest (step t weak s) (proceed-IsExclusive s inv t (s.phase t) weak refl)

-- After any schedule of steps of any number of threads, from a lock that was just initialised,
-- compare-exchanges that fail for no reason included, no two threads hold the lock, and the value
-- is 0 if one does.
pub mutual_exclusion :
    (schedule : List (ℕ × Bool)) (t u : ℕ)
    → (run schedule start).phase t ≡ holding
    → (run schedule start).phase u ≡ holding
    → (t ≡ u) × ((run schedule start).semaphore.value ≡ 0)
mutual_exclusion schedule t u ht hu =
    elim (run-IsExclusive schedule start start-IsExclusive).counts [
      | inl (_, none) ↦ absurd (none t ht)
      | inr (taken, owner, holds, only) ↦ (sym (only t ht) ∙ only u hu, taken)
    ]

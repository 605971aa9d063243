-- ===== src/Testing/Sweeps/Suite.antt =====
-- The suite test_pmap_pfa passes as a whole, and leaves the allocator as it was.
use swink.Common.{
  ℕ, ◌+◌, ◌*◌, ◌≤◌, ◌<◌, ◌≡◌, ◌≢◌, ◌↔◌, refl, inl, inr, [], ◌∷◌, true, ok, arith, length,
}
use swink.Common.Word.{u64}
use swink.LinkedLists.{LinkedLists}
use swink.Pmap.{page_size, pa_to_kva}
use swink.Pfa.Metadata.{kernel_data, page_type_code}
use swink.Pfa.Invariant.{IsFreePage, IsMerged, Inv}
use swink.Pfa.Debug.{get_state_lem}
use swink.Pfa.Ledger.{opening}
use swink.Testing.{pos, is_negative}
use swink.Testing.Runner.{run_hook, test_runner_run}
use swink.Testing.Runner.Results.{
  results_of_cases, results_of_suites, passed, all_passed, test_runner_run_lem,
}
use swink.Testing.Sweeps.{
  World, setup, simple_sweep, multi_sweep, oom_sweep, oom_sweep_magic, test_pmap_pfa, suites,
}
use swink.Testing.Sweeps.Steps.{with_pfa}
use swink.Testing.Sweeps.Simple.{simple_sweep_run}
use swink.Testing.Sweeps.Multi.{multi_sweep_run}
use swink.Testing.Sweeps.Oom.{oom_sweep_run}

module _ (lists : LinkedLists) (V : ℕ) where
  open lists use {Store, contents}

  -- After setup.
  abbrev set_up : World Store → (ℕ → ℕ) → World Store
  set_up w sizes = record w {
    pfa_original_state = sizes;
    pfa_metadata_m = page_type_code kernel_data;
  }

  setup_lem :
      (w : World Store)
      → w.pfa.lock.semaphore.value ≡ 1
      → (sizes : ℕ → ℕ) × (setup lists V w ≡ ok (pos 0, set_up w sizes))
        × ((i : ℕ) → i < 6 → sizes i ≡ length (contents w.pfa.buddy_lists i))
  unfolding setup
  setup_lem w unlocked =
      let (sizes, e, are) =
        get_state_lem lists w.pfa_original_state 6 w.pfa (omega arith) unlocked in
      (sizes, rw e refl, λ i lt. ground (arith, are i))

  results_eq :
      (fuel : ℕ) (w w1 w2 w3 w4 : World Store)
      → setup lists V w ≡ ok (pos 0, w1)
      → simple_sweep lists V w1 ≡ ok (pos 0, w2)
      → multi_sweep lists V w2 ≡ ok (pos 0, w3)
      → oom_sweep lists V fuel w3 ≡ ok (pos 0, w4)
      → results_of_suites (suites lists V fuel) w ≡ ok (pos 0 ∷ pos 0 ∷ pos 0 ∷ [], w4)
  unfolding results_of_suites results_of_cases run_hook suites test_pmap_pfa is_negative
  results_eq fuel w w1 w2 w3 w4 e e1 e2 e3 = rw e (rw e1 (rw e2 (rw e3 refl)))

  -- No free page begins with the word that oom_sweep is about to write.
  abbrev pub HasNoMark : World Store → Type 0
  HasNoMark w =
      (x : ℕ)
      → IsFreePage w.pfa x
      → w.magic (pa_to_kva V (x * page_size)) ≢ u64 (oom_sweep_magic + (w.oom_sweep_run_cnt + 1))

  -- With an allocator that satisfies the invariant, whose lock is free, in which no two buddies
  -- below the top level are both free entries and which has at least 31 free entries of the top
  -- level, where no free page begins with the word that oom_sweep is about to write, and with more
  -- fuel for oom_sweep than there are managed pages, the runner ends, counts three tests, all of
  -- them passed, and says so. The allocator's invariant holds again, its lock is free, and exactly
  -- the same pages are free as before.
  pub test_pmap_pfa_passes :
      (fuel : ℕ) (w : World Store)
      → Inv lists V w.pfa
      → w.pfa.lock.semaphore.value ≡ 1
      → IsMerged w.pfa
      → 31 ≤ length (contents w.pfa.buddy_lists 5)
      → HasNoMark w
      → w.pfa.page_count < fuel
      → (w' : World Store) × (test_runner_run (suites lists V fuel) w
          ≡ ok (record { test_count = 3; test_pass_count = 3 }, true, w'))
        × Inv lists V w'.pfa
        × (w'.pfa.lock.semaphore.value ≡ 1)
        × ((x : ℕ) → IsFreePage w'.pfa x ↔ IsFreePage w.pfa x)
  unfolding passed all_passed is_negative
  test_pmap_pfa_passes fuel w inv unlocked merged enough unmarked fueled =
      let (sizes, e, are) = setup_lem w unlocked in
      let (pfa1, e1, a1) =
        simple_sweep_run lists V w.pfa inv merged (omega arith) (set_up w sizes) are
          (opening lists V w.pfa inv merged unlocked) in
      let (pfa2, e2, a2) =
        multi_sweep_run lists V w.pfa inv merged enough (with_pfa (set_up w sizes) pfa1) are a1 in
      let (w', e3, a3) =
        oom_sweep_run lists V w.pfa inv merged fuel (with_pfa (set_up w sizes) pfa2) fueled are a2
          (λ x h. unmarked x (a2.still x h).0) in
      (
        w',
        test_runner_run_lem (suites lists V fuel) w w' (pos 0 ∷ pos 0 ∷ pos 0 ∷ [])
            (results_eq fuel w (set_up w sizes) (with_pfa (set_up w sizes) pfa1)
              (with_pfa (set_up w sizes) pfa2) w' e e1 e2 e3)
            (omega arith),
        a3.inv,
        a3.unlocked,
        λ x. (
          λ h. (a3.still x h).0,
          λ h. elim (a3.accounted x h) [ inl now ↦ now | inr one ↦ absurd (omega arith) ],
        ),
      )

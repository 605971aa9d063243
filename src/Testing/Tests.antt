-- ===== src/Testing/Tests.antt =====
-- The theorem on the runner for a suite of two tests, of which one fails, and that on the
-- allocator's suite for 1024 pages.
use swink.Common.{
  ℕ, ◌+◌, ◌≡◌, refl, List, [], ◌∷◌, ok, some, none, length, arith, ◌≤◌, ◌↔◌, true, count,
}
use swink.LinkedLists.{function_lists}
use swink.Pfa.Invariant.{IsFreePage, Inv}
use swink.Pfa.Samples.{physmap}
use swink.Pfa.Samples.Tops.{tops, are_blocks, AreTops, tops-AreTops}
use swink.Testing.Sweeps.{World, upward, suites}
use swink.Testing.Sweeps.Suite.{test_pmap_pfa_passes}
use swink.Testing.{ℤ, pos, negsuc, is_negative, TestSuite}
use swink.Testing.Runner.{run_hook, test_runner_run}
use swink.Testing.Runner.Results.{
  results_of_cases, results_of_suites, passed, all_passed, test_runner_run_lem,
}

abbrev two_suites : List (TestSuite ℕ)
two_suites =
    record {
      setup_function = some (λ w. ok (pos 0, w + 1));
      teardown_function = none;
      cases =
          record { function = λ w. ok (pos 0, w) }
          ∷ record { function = λ w. ok (negsuc 0, w) }
          ∷ [];
    }
    ∷ []

abbrev results : List ℤ
results = pos 0 ∷ negsuc 0 ∷ []

test_runner_run_lem_example :
    test_runner_run two_suites 0
    ≡ ok (
      record { test_count = length results; test_pass_count = passed results },
      all_passed results,
      1,
    )
unfolding results_of_suites results_of_cases run_hook is_negative
test_runner_run_lem_example = test_runner_run_lem two_suites 0 1 results refl (omega arith)

abbrev enough_pages : ℕ
enough_pages = 1024

abbrev round_limit : ℕ
round_limit = 1025

abbrev world : World (ℕ → List ℕ)
world = record {
  pfa = tops enough_pages (upward 31 1);
  pfa_original_state = λ i. 0;
  pfa_metadata_m = 0;
  oom_sweep_run_cnt = 0;
  magic = λ a. 0;
}

world-AreTops : AreTops enough_pages (upward 31 1) world.pfa
unfolding are_blocks upward count
world-AreTops = tops-AreTops enough_pages (upward 31 1) (omega arith) refl

world-many : 31 ≤ length (world.pfa.buddy_lists 5)
unfolding upward
world-many = omega (arith, world-AreTops.entries)

test_pmap_pfa_passes_example :
    (w' : World (ℕ → List ℕ)) × (test_runner_run (suites function_lists physmap round_limit) world
      ≡ ok (record { test_count = 3; test_pass_count = 3 }, true, w'))
    × Inv function_lists physmap w'.pfa
    × (w'.pfa.lock.semaphore.value ≡ 1)
    × ((x : ℕ) → IsFreePage w'.pfa x ↔ IsFreePage world.pfa x)
test_pmap_pfa_passes_example =
    test_pmap_pfa_passes function_lists physmap round_limit world world-AreTops.inv
      world-AreTops.unlocked world-AreTops.merged world-many (λ x h same. omega (arith, same))
      (omega (arith, world-AreTops.pages))

-- ===== src/Testing/Runner.antt =====
-- test_runner_run of kernel/testing/runner.c, without what it prints for each test.
pub mod Results
use swink.Common.{
  ℕ, ◌+◌, ◌^◌, List, [], ◌∷◌, Bool, ◌==◌, if◌then◌else◌, Result, ok, panic, ◌>>=◌, Option, some,
  none,
}
use swink.Common.Word.{u64}
use swink.Testing.{ℤ, is_negative, TestFunction, TestCase, TestSuite}

-- `test_count` and `test_pass_count`
pub record Counts : Type 0 where
  pub test_count : ℕ
  pub test_pass_count : ℕ

unfoldable pub count_test : ℤ → Counts → Counts
unfolding is_negative
count_test result c = record {
  test_count = u64 (c.test_count + 1);
  test_pass_count = if is_negative result then c.test_pass_count else u64 (c.test_pass_count + 1);
}

module _ {World : Type 0} where
  unfoldable pub run_cases : List (TestCase World) → Counts → World → Result (Counts × World)
  unfolding count_test
  run_cases [] c w = ok (c, w)
  run_cases (test ∷ tests) c w =
      test.function w >>= λ (result, w'). run_cases tests (count_test result c) w'

  -- A setup or teardown function, which a suite need not have.
  unfoldable pub run_hook : Option (TestFunction World) → World → Result World
  unfolding is_negative
  run_hook none w = ok w
  run_hook (some f) w = f w >>= λ (result, w'). if is_negative result then panic else ok w'

  unfoldable pub run_suite : TestSuite World → Counts → World → Result (Counts × World)
  unfolding run_hook run_cases
  run_suite suite c w = run_hook suite.setup_function w >>= λ w1.
      run_cases suite.cases c w1 >>= λ (c', w2).
      run_hook suite.teardown_function w2 >>= λ w3. ok (c', w3)

  unfoldable pub run_suites : List (TestSuite World) → Counts → World → Result (Counts × World)
  unfolding run_suite
  run_suites [] c w = ok (c, w)
  run_suites (suite ∷ suites) c w = run_suite suite c w >>= λ (c', w'). run_suites suites c' w'

  -- The counts that are printed, and whether the line that says that all tests passed is.
  unfoldable pub test_runner_run : List (TestSuite World) → World → Result (Counts × Bool × World)
  unfolding run_suites
  test_runner_run suites w =
      run_suites suites (record { test_count = 0; test_pass_count = 0 }) w >>= λ (c, w').
      ok (c, c.test_pass_count == c.test_count, w')

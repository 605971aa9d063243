-- ===== src/Testing/Runner/Results.antt =====
-- The counts of the runner against the results of the tests.
use swink.Common.{
  ℕ, suc, ◌+◌, ◌^◌, ◌≤◌, ◌<◌, ◌≡◌, refl, ◌∙◌, ap, ap₂, sym, List, [], ◌∷◌, ◌++◌, Bool, true, ◌&&◌,
  not, ◌==◌, if◌then◌else◌, Result, ok, panic, diverges, ◌>>=◌, length, Bool-cases, inl, inr, arith,
}
use swink.Testing.{ℤ, is_negative, TestCase, TestSuite}
use swink.Testing.Runner.{
  Counts, count_test, run_cases, run_hook, run_suite, run_suites, test_runner_run,
}

-- The same run with the results of all tests in place of the counts.
module _ {World : Type 0} where
  unfoldable pub results_of_cases : List (TestCase World) → World → Result (List ℤ × World)
  results_of_cases [] w = ok ([], w)
  results_of_cases (test ∷ tests) w = test.function w >>= λ (result, w').
      results_of_cases tests w' >>= λ (results, w''). ok (result ∷ results, w'')

  unfoldable pub results_of_suites : List (TestSuite World) → World → Result (List ℤ × World)
  unfolding run_hook
  results_of_suites [] w = ok ([], w)
  results_of_suites (suite ∷ suites) w = run_hook suite.setup_function w >>= λ w1.
      results_of_cases suite.cases w1 >>= λ (results, w2).
      run_hook suite.teardown_function w2 >>= λ w3.
      results_of_suites suites w3 >>= λ (others, w4). ok (results ++ others, w4)

unfoldable pub passed : List ℤ → ℕ
passed [] = 0
passed (r ∷ rs) = if is_negative r then passed rs else suc (passed rs)

unfoldable pub all_passed : List ℤ → Bool
all_passed [] = true
all_passed (r ∷ rs) = not (is_negative r) && all_passed rs

-- The counts after results, from counts before.
unfoldable pub counted : List ℤ → Counts → Counts
unfolding count_test
counted [] c = c
counted (r ∷ rs) c = counted rs (count_test r c)

counted-append : (rs ss : List ℤ) (c : Counts) → counted (rs ++ ss) c ≡ counted ss (counted rs c)
unfolding counted
counted-append [] ss c = refl
counted-append (r ∷ rs) ss c = counted-append rs ss (count_test r c)

-- Two continuations that agree.
bind_cong :
    {A B : Type 0} (m : Result A) (f g : A → Result B)
    → ((a : A) → f a ≡ g a)
    → (m >>= f) ≡ (m >>= g)
bind_cong (ok a) f g same = same a
bind_cong panic f g same = refl
bind_cong diverges f g same = refl

module _ {World : Type 0} where
  -- The outcome with counts, from that with results.
  unfoldable with_counts : Counts → Result (List ℤ × World) → Result (Counts × World)
  with_counts c m = m >>= λ (results, w). ok (counted results c, w)

  cons_counts :
      (r : ℤ) (c : Counts) (m : Result (List ℤ × World))
      → with_counts (count_test r c) m ≡ with_counts c (m >>= λ (rs, w). ok (r ∷ rs, w))
  unfolding with_counts counted
  cons_counts r c (ok (rs, w)) = refl
  cons_counts r c panic = refl
  cons_counts r c diverges = refl

  append_counts :
      (rs : List ℤ) (c : Counts) (m : Result (List ℤ × World))
      → with_counts (counted rs c) m ≡ with_counts c (m >>= λ (ss, w). ok (rs ++ ss, w))
  unfolding with_counts
  append_counts rs c (ok (ss, w)) = ap (λ (d : Counts). ok (d, w)) (sym (counted-append rs ss c))
  append_counts rs c panic = refl
  append_counts rs c diverges = refl

  with_counts_bind :
      {A : Type 0} (c : Counts) (m : Result A) (f : A → Result (List ℤ × World))
      → with_counts c (m >>= f) ≡ (m >>= λ a. with_counts c (f a))
  unfolding with_counts
  with_counts_bind c (ok a) f = refl
  with_counts_bind c panic f = refl
  with_counts_bind c diverges f = refl

  run_cases_lem :
      (tests : List (TestCase World)) (c : Counts) (w : World)
      → run_cases tests c w ≡ with_counts c (results_of_cases tests w)
  unfolding run_cases results_of_cases with_counts counted
  run_cases_lem [] c w = refl
  run_cases_lem (test ∷ tests) c w =
      bind_cong (test.function w) (λ (r, w'). run_cases tests (count_test r c) w')
        (λ (r, w'). with_counts c (results_of_cases tests w' >>= λ (rs, w''). ok (r ∷ rs, w'')))
        (λ (r, w').
          run_cases_lem tests (count_test r c) w' ∙ cons_counts r c (results_of_cases tests w'))
      ∙ sym (
          with_counts_bind c (test.function w)
            (λ (r, w'). results_of_cases tests w' >>= λ (rs, w''). ok (r ∷ rs, w'')))

  module _ (suites : List (TestSuite World)) (c : Counts)
      (same : (c : Counts) (w : World)
        → run_suites suites c w ≡ with_counts c (results_of_suites suites w)) where
    after_teardown :
        (rs : List ℤ) (teardown : Result World)
        → ((teardown >>= λ w3. ok (counted rs c, w3)) >>= λ (c', w'). run_suites suites c' w')
          ≡ with_counts c
              (teardown >>= λ w3. results_of_suites suites w3 >>= λ (ss, w4). ok (rs ++ ss, w4))
    unfolding with_counts
    after_teardown rs (ok w3) =
        same (counted rs c) w3 ∙ append_counts rs c (results_of_suites suites w3)
    after_teardown rs panic = refl
    after_teardown rs diverges = refl

    after_cases :
        (teardown : World → Result World) (cases : Result (List ℤ × World))
        → ((with_counts c cases >>= λ (c', w2). teardown w2 >>= λ w3. ok (c', w3)) >>= λ (c', w').
            run_suites suites c' w')
          ≡ with_counts c (
              cases >>= λ (rs, w2).
              teardown w2 >>= λ w3. results_of_suites suites w3 >>= λ (ss, w4). ok (rs ++ ss, w4))
    unfolding with_counts
    after_cases teardown (ok (rs, w2)) = after_teardown rs (teardown w2)
    after_cases teardown panic = refl
    after_cases teardown diverges = refl

    after_setup :
        (suite : TestSuite World) (setup : Result World)
        → ((setup >>= λ w1. run_cases suite.cases c w1 >>= λ (c', w2).
              run_hook suite.teardown_function w2 >>= λ w3. ok (c', w3))
            >>= λ (c', w'). run_suites suites c' w')
          ≡ with_counts c (
              setup >>= λ w1. results_of_cases suite.cases w1 >>= λ (rs, w2).
              run_hook suite.teardown_function w2 >>= λ w3.
              results_of_suites suites w3 >>= λ (ss, w4). ok (rs ++ ss, w4))
    unfolding with_counts
    after_setup suite (ok w1) =
        rw (run_cases_lem suite.cases c w1)
          (after_cases (run_hook suite.teardown_function) (results_of_cases suite.cases w1))
    after_setup suite panic = refl
    after_setup suite diverges = refl

  run_suites_lem :
      (suites : List (TestSuite World)) (c : Counts) (w : World)
      → run_suites suites c w ≡ with_counts c (results_of_suites suites w)
  unfolding run_suites run_suite results_of_suites with_counts counted
  run_suites_lem [] c w = refl
  run_suites_lem (suite ∷ suites) c w =
      after_setup suites c (run_suites_lem suites) suite (run_hook suite.setup_function w)

abbrev counts_of : ℕ → ℕ → Counts
counts_of tests passes = record { test_count = tests; test_pass_count = passes }

-- No counter wraps round while there are fewer than 2 ^ 64 tests.
counted_lem :
    (rs : List ℤ) (c : Counts)
    → c.test_pass_count ≤ c.test_count
    → c.test_count + length rs < 2 ^ 64
    → ((counted rs c).test_count ≡ c.test_count + length rs)
      × ((counted rs c).test_pass_count ≡ c.test_pass_count + passed rs)
unfolding counted count_test passed
counted_lem [] c le small = (omega arith, omega arith)
counted_lem (r ∷ rs) c le small = elim (Bool-cases (is_negative r)) [
  | inl failed ↦
      let (t, p) = counted_lem rs (count_test r c) (rw failed (omega arith)) (omega arith) in
      (omega (arith, t), rw failed (p ∙ rw failed refl))
  | inr fine ↦
      let (t, p) = counted_lem rs (count_test r c) (rw fine (omega arith)) (omega arith) in
      (omega (arith, t), rw fine (p ∙ rw fine (omega arith)))
]

passed_all : (rs : List ℤ) → (passed rs ≤ length rs) × ((passed rs == length rs) ≡ all_passed rs)
unfolding passed all_passed
passed_all [] = (omega arith, refl)
passed_all (r ∷ rs) = elim (Bool-cases (is_negative r)) [
  | inl failed ↦
      (rw failed (omega (arith, passed_all rs)), rw failed (ground (arith, passed_all rs)))
  | inr fine ↦ (rw fine (omega (arith, passed_all rs)), rw fine (ground (arith, passed_all rs)))
]

-- Where the setup, the tests and the teardown of all suites run in order to their end, with fewer
-- than 2 ^ 64 results in all, the runner counts as many tests as there are results and as many
-- passed ones as there are results that are not negative, and says that all passed exactly if no
-- result is negative.
pub test_runner_run_lem :
    {World : Type 0} (suites : List (TestSuite World)) (w w' : World) (results : List ℤ)
    → results_of_suites suites w ≡ ok (results, w')
    → length results < 2 ^ 64
    → test_runner_run suites w
      ≡ ok (
        record { test_count = length results; test_pass_count = passed results },
        all_passed results,
        w',
      )
unfolding test_runner_run with_counts
test_runner_run_lem suites w w' results e small =
    let zeros : Counts = record { test_count = 0; test_pass_count = 0 } in
    let (t, p) = counted_lem results zeros (omega arith) (omega arith) in
    let same : counted results zeros
        ≡ (record { test_count = length results; test_pass_count = passed results }) =
      ap₂ counts_of (omega (arith, t)) (omega (arith, p)) in
    rw (run_suites_lem suites zeros w) (
      rw e (
        rw same (
          ap
            (λ (b : Bool).
              ok (record { test_count = length results; test_pass_count = passed results }, b, w'))
            (passed_all results).1)))

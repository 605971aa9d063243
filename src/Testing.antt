-- ===== src/Testing.antt =====
-- kernel/testing: the suites of tests, and what runs them. The tests work on a `World`.
pub mod Runner
pub mod Sweeps
mod Tests
use swink.Common.{ℕ, List, Bool, true, false, Result, Option}

-- An `int` of C, of which only the sign is looked at.
pub data ℤ : Type 0 where
  pos negsuc : ℕ → ℤ

unfoldable pub is_negative : ℤ → Bool
is_negative (pos n) = false
is_negative (negsuc n) = true

-- test_function_t
abbrev pub TestFunction : Type 0 → Type 0
TestFunction World = World → Result (ℤ × World)

-- The names of cases and suites are only printed.
pub record TestCase (World : Type 0) : Type 0 where
  pub function : TestFunction World

pub record TestSuite (World : Type 0) : Type 0 where
  pub setup_function : Option (TestFunction World)
  pub teardown_function : Option (TestFunction World)
  pub cases : List (TestCase World)

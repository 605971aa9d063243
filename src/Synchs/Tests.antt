-- ===== src/Synchs/Tests.antt =====
-- The theorems on the lock at concrete inputs: thread 3 takes the lock while thread 4 spins.
use swink.Common.{ℕ, ◌≡◌, refl, Bool, true, false, List, [], ◌∷◌}
use swink.Synchs.{lock_init, semaphore_init}
use swink.Synchs.Threads.{holding, loading, run, step, proceed, start, mutual_exclusion}

abbrev race : List (ℕ × Bool)
race =
    (3, false)
    ∷ (4, false)
    ∷ (3, false)
    ∷ (4, false)
    ∷ (3, true)
    ∷ (3, false)
    ∷ (3, false)
    ∷ (4, false)
    ∷ (4, false)
    ∷ []

race-holding : (run race start).phase 3 ≡ holding
unfolding run step proceed start lock_init semaphore_init
race-holding = refl

race_spins : (run race start).phase 4 ≡ loading
unfolding run step proceed start lock_init semaphore_init
race_spins = refl

abbrev winner : ℕ
winner = 3

mutual_exclusion_example : (winner ≡ winner) × ((run race start).semaphore.value ≡ 0)
mutual_exclusion_example = mutual_exclusion race winner winner race-holding race-holding

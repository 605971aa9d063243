-- ===== src/Testing/Sweeps.antt =====
-- kernel/testing/tests/test_pmap_pfa.c on the model of the page-frame allocator. The list that
-- oom_sweep keeps and the words that it writes into pages are a list of addresses and a store of
-- their own; pmap_pfa_dump_state only prints.
mod Steps
mod Simple
mod Counts
mod Multi
mod Oom
pub mod Suite
use swink.Common.{
  ℕ, zero, suc, ◌+◌, ◌-◌, ◌*◌, List, [], ◌∷◌, Bool, true, ◌&&◌, ◌==◌, if◌then◌else◌, Result, ok,
  diverges, ◌>>=◌, Option, some, none,
}
use swink.Common.Word.{u64}
use swink.LinkedLists.{LinkedLists}
use swink.Pmap.{page_size, phys_addr_invalid, pa_to_kva, physmap_kva_to_pa}
use swink.Pfa.Levels.{buddy_levels}
use swink.Pfa.State.{Pfa}
use swink.Pfa.Metadata.{kernel_data, page_type_code}
use swink.Pfa.Alloc.{alloc_contig}
use swink.Pfa.Free.{free_contig}
use swink.Pfa.Debug.{get_state}
use swink.Testing.{ℤ, pos, negsuc, TestSuite}

-- The state of the allocator, the variables of the file and the words at the start of pages.
pub record World (Store : Type 0) : Type 0 where
  pub pfa : Pfa Store
  pub pfa_original_state : ℕ → ℕ
  pub pfa_metadata_m : ℕ
  pub oom_sweep_run_cnt : ℕ
  pub magic : ℕ → ℕ

-- `memcmp` of the first `n` counts, as whether they are the same
unfoldable pub same_counts : ℕ → (ℕ → ℕ) → (ℕ → ℕ) → Bool
same_counts zero a b = true
same_counts (suc n) a b = (a n == b n) && same_counts n a b

-- The counts of a loop that goes up from `pg_count`, and of one that goes down from `n` to 1.
unfoldable pub upward : ℕ → ℕ → List ℕ
upward zero pg_count = []
upward (suc n) pg_count = pg_count ∷ upward n (pg_count + 1)

unfoldable pub downward : ℕ → List ℕ
downward zero = []
downward (suc n) = suc n ∷ downward n

-- 0xAAAAAAAACAFECAFE
abbrev pub oom_sweep_magic : ℕ
oom_sweep_magic = 12297829383015418622

module _ (lists : LinkedLists) (physmap_vm_base : ℕ) where
  open lists use {Store}

  -- `setup`, from any contents of the buffer
  unfoldable pub setup : World Store → Result (ℤ × World Store)
  setup w = get_state lists w.pfa_original_state buddy_levels w.pfa >>= λ (sizes, pfa). ok (
    pos 0,
    record w { pfa = pfa; pfa_original_state = sizes; pfa_metadata_m = page_type_code kernel_data },
  )

  -- The comparison at the end of each test; -1 is `negsuc 0`.
  unfoldable pub compare_state : World Store → Result (ℤ × World Store)
  unfolding same_counts
  compare_state w = get_state lists (λ i. 0) buddy_levels w.pfa >>= λ (temp_state, pfa). ok (
    (if same_counts buddy_levels w.pfa_original_state temp_state then pos 0 else negsuc 0),
    record w { pfa = pfa },
  )

  unfoldable pub allocate : ℕ → World Store → Result (ℕ × World Store)
  allocate pg_count w =
      alloc_contig lists physmap_vm_base (page_size * pg_count) w.pfa_metadata_m w.pfa
      >>= λ (addr, pfa). ok (addr, record w { pfa = pfa })

  unfoldable pub release : ℕ → ℕ → World Store → Result (World Store)
  release addr pg_count w =
      free_contig lists physmap_vm_base addr (page_size * pg_count) w.pfa >>= λ pfa.
      ok (record w { pfa = pfa })

  -- The rounds of simple_sweep that are left, from `pg_count` on; the first that fails ends it.
  unfoldable pub simple_rounds : ℕ → ℕ → World Store → Result (ℤ × World Store)
  unfolding allocate release compare_state
  simple_rounds zero pg_count w = ok (pos 0, w)
  simple_rounds (suc rounds) pg_count w = allocate pg_count w >>= λ (addr, w1).
      release addr pg_count w1 >>= λ w2. compare_state w2 >>= λ (result, w3). elim result [
        | pos n ↦ simple_rounds rounds (pg_count + 1) w3
        | negsuc n ↦ ok (negsuc n, w3)
      ]

  unfoldable pub simple_sweep : World Store → Result (ℤ × World Store)
  unfolding simple_rounds
  simple_sweep w = simple_rounds 31 1 w

  -- `addrs[pg_count - 1]` for each count in turn
  unfoldable pub allocate_each : List ℕ → (ℕ → ℕ) → World Store → Result ((ℕ → ℕ) × World Store)
  unfolding allocate
  allocate_each [] addrs w = ok (addrs, w)
  allocate_each (pg_count ∷ counts) addrs w = allocate pg_count w >>= λ (addr, w').
      allocate_each counts (λ i. if i == pg_count - 1 then addr else addrs i) w'

  unfoldable pub release_each : List ℕ → (ℕ → ℕ) → World Store → Result (World Store)
  unfolding release
  release_each [] addrs w = ok w
  release_each (pg_count ∷ counts) addrs w =
      release (addrs (pg_count - 1)) pg_count w >>= λ w'. release_each counts addrs w'

  unfoldable pub multi_sweep : World Store → Result (ℤ × World Store)
  unfolding allocate_each release_each compare_state
  multi_sweep w = allocate_each (upward 31 1) (λ i. 0) w >>= λ (addrs1, w1).
      release_each (downward 31) addrs1 w1 >>= λ w2.
      allocate_each (upward 31 1) addrs1 w2 >>= λ (addrs2, w3).
      release_each (upward 31 1) addrs2 w3 >>= λ w4.
      allocate_each (downward 31) addrs2 w4 >>= λ (addrs3, w5).
      release_each (upward 31 1) addrs3 w5 >>= λ w6. compare_state w6

  -- The first loop of oom_sweep: the pages that it got, the last first, or nothing where it got one
  -- that has the mark already. Each round takes a page, so the fuel is the number of pages and one.
  unfoldable pub allocate_all : ℕ → List ℕ → World Store → Result (Option (List ℕ) × World Store)
  unfolding allocate
  allocate_all zero l w = diverges
  allocate_all (suc fuel) l w = allocate 1 w >>= λ (addr, w').
      let osp = pa_to_kva physmap_vm_base addr in
      let mark = u64 (oom_sweep_magic + w'.oom_sweep_run_cnt) in
      let more =
        allocate_all fuel (osp ∷ l)
          (record w' { magic = λ a. if a == osp then mark else w'.magic a }) in
      if addr == phys_addr_invalid
      then ok (some l, w')
      else if w'.magic osp == mark
      then ok (none, w')
      else more

  -- The second loop, from the front of the list.
  unfoldable pub release_all : List ℕ → World Store → Result (World Store)
  unfolding release
  release_all [] w = ok w
  release_all (osp ∷ l) w =
      physmap_kva_to_pa physmap_vm_base osp >>= λ addr. release addr 1 w >>= λ w'. release_all l w'

  unfoldable pub oom_sweep : ℕ → World Store → Result (ℤ × World Store)
  unfolding allocate_all release_all compare_state
  oom_sweep fuel w =
      allocate_all fuel [] (record w { oom_sweep_run_cnt = w.oom_sweep_run_cnt + 1 }) >>= λ (l, w').
      elim l [
        | none ↦ ok (negsuc 0, w')
        | some pages ↦ (release_all pages w' >>= λ w''. compare_state w'')
      ]

  -- test_pmap_pfa, and the list of suites of kernel/testing/tests/tests.h
  unfoldable pub test_pmap_pfa : ℕ → TestSuite (World Store)
  unfolding setup simple_sweep multi_sweep oom_sweep
  test_pmap_pfa fuel = record {
    setup_function = some setup;
    teardown_function = none;
    cases =
        record { function = simple_sweep }
        ∷ record { function = multi_sweep }
        ∷ record { function = oom_sweep fuel }
        ∷ [];
  }

  unfoldable pub suites : ℕ → List (TestSuite (World Store))
  unfolding test_pmap_pfa
  suites fuel = test_pmap_pfa fuel ∷ []

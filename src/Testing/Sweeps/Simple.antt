-- ===== src/Testing/Sweeps/Simple.antt =====
-- simple_sweep passes.
use swink.Common.{ℕ, zero, suc, ◌+◌, ◌*◌, ◌≤◌, ◌<◌, ◌≡◌, refl, ◌∙◌, ok, arith, length}
use swink.LinkedLists.{LinkedLists}
use swink.Pmap.{page_size}
use swink.Pfa.State.{Pfa}
use swink.Pfa.Invariant.{IsMerged, Inv}
use swink.Pfa.Ledger.{Accounts}
use swink.Testing.{pos}
use swink.Testing.Sweeps.{World, allocate, release, compare_state, simple_rounds, simple_sweep}
use swink.Testing.Sweeps.Steps.{with_pfa, allocate_lem, release_lem, fresh_Spare, compare_state_lem}

module _ (lists : LinkedLists) (V : ℕ) where
  open lists use {Store, contents}

  round_eq :
      (rounds n addr : ℕ) (w : World Store) (pfa1 pfa2 : Pfa Store)
      → allocate lists V n w ≡ ok (addr, with_pfa w pfa1)
      → release lists V addr n (with_pfa w pfa1) ≡ ok (with_pfa w pfa2)
      → compare_state lists V (with_pfa w pfa2) ≡ ok (pos 0, with_pfa w pfa2)
      → simple_rounds lists V (suc rounds) n w
        ≡ simple_rounds lists V rounds (n + 1) (with_pfa w pfa2)
  unfolding simple_rounds
  round_eq rounds n addr w pfa1 pfa2 e e' e'' = rw e (rw e' (rw e''))

  module _ (start : Pfa Store) (inv : Inv lists V start) (merged : IsMerged start)
      (some_entry : 0 < length (contents start.buddy_lists 5)) where
    rounds_lem :
        (rounds n : ℕ) (w : World Store)
        → 0 < n
        → n + rounds ≤ 33
        → ((i : ℕ) → i < 6 → w.pfa_original_state i ≡ length (contents start.buddy_lists i))
        → Accounts lists V start w.pfa (λ x. 0)
        → (pfa' : Pfa Store) × (simple_rounds lists V rounds n w ≡ ok (pos 0, with_pfa w pfa'))
          × Accounts lists V start pfa' (λ x. 0)
    rounds_lem zero n w some le sizes a = (w.pfa, unfold simple_rounds in refl, a)
    rounds_lem (suc rounds) n w some le sizes a =
        let (spare, same) = fresh_Spare lists V start w.pfa (λ x. 0) inv merged a (λ x. refl) in
        let got =
          allocate_lem lists V start w (λ x. 0) n (contents w.pfa.buddy_lists 5) a spare
            (omega (arith, same)) some (omega arith) in
        let (pfa2, e, b) =
          release_lem lists V start (with_pfa w got.pfa') _ (λ x. 0) got.page n got.accounts
            (λ x. omega arith) some (omega arith) in
        let (pfa', e', c) =
          rounds_lem rounds (n + 1) (with_pfa w pfa2) (omega arith) (omega arith) sizes b in
        (
          pfa',
          round_eq rounds n (got.page * page_size) w got.pfa' pfa2 got.runs e (
                compare_state_lem lists V start (with_pfa w pfa2) (λ x. 0) inv merged sizes b
                  (λ x. refl))
              ∙ e',
          c,
        )

    pub simple_sweep_run :
        (w : World Store)
        → ((i : ℕ) → i < 6 → w.pfa_original_state i ≡ length (contents start.buddy_lists i))
        → Accounts lists V start w.pfa (λ x. 0)
        → (pfa' : Pfa Store) × (simple_sweep lists V w ≡ ok (pos 0, with_pfa w pfa'))
          × Accounts lists V start pfa' (λ x. 0)
    unfolding simple_sweep
    simple_sweep_run w = rounds_lem 31 1 w (omega arith) (omega arith)

-- ===== src/Testing/Sweeps/Multi.antt =====
-- multi_sweep passes.
use swink.Common.{
  ℕ, ◌+◌, ◌-◌, ◌*◌, ◌/◌, ◌%◌, ◌≤◌, ◌<◌, ◌≡◌, refl, ◌∙◌, ap, subst, sym, List, [], ◌∷◌, true, ◌==◌,
  if◌then◌else◌, ok, arith, length, count, count-cons, count_nil,
}
use swink.LinkedLists.{LinkedLists}
use swink.Pmap.{page_size}
use swink.Pfa.State.{Pfa}
use swink.Pfa.Invariant.{IsMerged, Inv}
use swink.Pfa.Ledger.{Accounts, Accounts-same, within}
use swink.Pfa.Spare.{Spare}
use swink.Testing.{pos}
use swink.Testing.Sweeps.{
  World, allocate, release, compare_state, allocate_each, release_each, upward, downward,
  multi_sweep,
}
use swink.Testing.Sweeps.Counts.{owners, are_counts, are_counts-cons, count-upward, count-downward}
use swink.Testing.Sweeps.Steps.{
  with_pfa, Got, allocate_lem, release_lem, fresh_Spare, compare_state_lem,
}

module _ (lists : LinkedLists) (V : ℕ) (start : Pfa lists.Store) where
  open lists use {Store, contents}

  -- What a run of allocate_each leaves.
  record Each (counts : List ℕ) (addrs : ℕ → ℕ) (w : World Store) (out : ℕ → ℕ) : Type 0 where
    addrs' : ℕ → ℕ
    pfa' : Pfa Store
    runs : allocate_each lists V counts addrs w ≡ ok (addrs', with_pfa w pfa')
    accounts : Accounts lists V start pfa' (λ x. owners counts addrs' x + out x)
    others : (n : ℕ) → 0 < n → count n counts ≡ 0 → addrs' (n - 1) ≡ addrs (n - 1)
    aligned : (n : ℕ) → 0 < n → 0 < count n counts → addrs' (n - 1) % page_size ≡ 0

  abbrev stored : ℕ → ℕ → (ℕ → ℕ) → ℕ → ℕ
  stored n addr addrs i = if i == n - 1 then addr else addrs i

  each_eq :
      (n addr : ℕ) (counts : List ℕ) (addrs : ℕ → ℕ) (w : World Store) (pfa1 : Pfa Store)
      → allocate lists V n w ≡ ok (addr, with_pfa w pfa1)
      → allocate_each lists V (n ∷ counts) addrs w
        ≡ allocate_each lists V counts (stored n addr addrs) (with_pfa w pfa1)
  unfolding allocate_each
  each_eq n addr counts addrs w pfa1 e = rw e

  Each-cons :
      (n : ℕ) (counts : List ℕ) (addrs : ℕ → ℕ) (w : World Store) (out : ℕ → ℕ) (es : List ℕ)
      → count n counts ≡ 0
      → 0 < n
      → (got : Got lists V start w out n es)
      → Each counts
          (stored n (got.page * page_size) addrs)
          (with_pfa w got.pfa')
          (λ x. out x + within got.page n x)
      → Each (n ∷ counts) addrs w out
  unfolding owners
  Each-cons n counts addrs w out es other some got rest = record {
    addrs' = rest.addrs';
    pfa' = rest.pfa';
    runs = each_eq n (got.page * page_size) counts addrs w got.pfa' got.runs ∙ rest.runs;
    accounts = Accounts-same lists V start rest.pfa' _ _ (λ x. omega (arith, same x)) rest.accounts;
    others = λ i pos none. ground (arith, rest.others i, count-cons i n counts);
    aligned = λ i pos some. ground (arith, rest.aligned i, at, count-cons i n counts);
  }
    where
      at : rest.addrs' (n - 1) ≡ got.page * page_size
      at = ground (arith, rest.others n)

      same : (x : ℕ) → within (rest.addrs' (n - 1) / page_size) n x ≡ within got.page n x
      same x = ap (λ p. within p n x) (omega (arith, at))

  allocate_each_lem :
      (counts : List ℕ) (addrs : ℕ → ℕ) (w : World Store) (out : ℕ → ℕ) (es : List ℕ)
      → are_counts counts ≡ true
      → Accounts lists V start w.pfa out
      → Spare lists V w.pfa es
      → length counts ≤ length es
      → Each counts addrs w out
  allocate_each_lem [] addrs w out es ok_counts a s room = record {
    addrs' = addrs;
    pfa' = w.pfa;
    runs = unfold allocate_each in refl;
    accounts =
        Accounts-same lists V start w.pfa out (λ x. owners [] addrs x + out x)
          (λ x. unfold owners in omega arith) a;
    others = λ n some none. refl;
    aligned = λ n some one. absurd (omega (arith, count_nil n [] refl));
  }
  allocate_each_lem (n ∷ counts) addrs w out es ok_counts a s room =
      let (other, some, le, rest) = are_counts-cons n counts ok_counts in
      let got = allocate_lem lists V start w out n es a s (omega arith) some (omega arith) in
      Each-cons n counts addrs w out es other some got (
        allocate_each_lem counts (stored n (got.page * page_size) addrs) (with_pfa w got.pfa')
          (λ x. out x + within got.page n x) got.left rest got.accounts got.spare
          (omega (arith, got.one_less)))

  release_eq :
      (n : ℕ) (counts : List ℕ) (addrs : ℕ → ℕ) (w : World Store) (pfa1 : Pfa Store)
      → release lists V (addrs (n - 1)) n w ≡ ok (with_pfa w pfa1)
      → release_each lists V (n ∷ counts) addrs w
        ≡ release_each lists V counts addrs (with_pfa w pfa1)
  unfolding release_each
  release_eq n counts addrs w pfa1 e = rw e

  -- Giving back the blocks of all counts, in any order.
  release_each_lem :
      (counts : List ℕ) (addrs : ℕ → ℕ) (w : World Store) (out : ℕ → ℕ)
      → are_counts counts ≡ true
      → ((n : ℕ) → 0 < n → n ≤ 31 → addrs (n - 1) % page_size ≡ 0)
      → ((x : ℕ) → out x ≡ owners counts addrs x)
      → Accounts lists V start w.pfa out
      → (pfa' : Pfa Store) × (release_each lists V counts addrs w ≡ ok (with_pfa w pfa'))
        × Accounts lists V start pfa' (λ x. 0)
  unfolding owners
  release_each_lem [] addrs w out ok_counts aligned all a =
      (w.pfa, unfold release_each in refl, Accounts-same lists V start w.pfa out (λ x. 0) all a)
  release_each_lem (n ∷ counts) addrs w out ok_counts aligned all a =
      let (other, some, le, rest) = are_counts-cons n counts ok_counts in
      let (pfa1, e, b) =
        release_lem lists V start w out (owners counts addrs) (addrs (n - 1) / page_size) n a all
          some (omega arith) in
      let (pfa', e', c) =
        release_each_lem counts addrs (with_pfa w pfa1) (owners counts addrs) rest aligned
          (λ x. refl) b in
      (
        pfa',
        release_eq n counts addrs w pfa1 (
              subst (λ at. release lists V at n w ≡ ok (with_pfa w pfa1))
                (omega (arith, aligned n some le)) e)
            ∙ e',
        c,
      )

  -- Blocks for all counts, and all of them given back.
  record Phase (counts order : List ℕ) (addrs : ℕ → ℕ) (w : World Store) : Type 0 where
    addrs' : ℕ → ℕ
    pfa1 : Pfa Store
    pfa2 : Pfa Store
    allocates : allocate_each lists V counts addrs w ≡ ok (addrs', with_pfa w pfa1)
    releases : release_each lists V order addrs' (with_pfa w pfa1) ≡ ok (with_pfa w pfa2)
    accounts : Accounts lists V start pfa2 (λ x. 0)

  multi_eq :
      (w : World Store)
      → (p : Phase (upward 31 1) (downward 31) (λ i. 0) w)
      → (q : Phase (upward 31 1) (upward 31 1) p.addrs' (with_pfa w p.pfa2))
      → (r : Phase (downward 31) (upward 31 1) q.addrs' (with_pfa w q.pfa2))
      → compare_state lists V (with_pfa w r.pfa2) ≡ ok (pos 0, with_pfa w r.pfa2)
      → multi_sweep lists V w ≡ ok (pos 0, with_pfa w r.pfa2)
  unfolding multi_sweep
  multi_eq w p q r e =
      rw p.allocates
        (rw p.releases (rw q.allocates (rw q.releases (rw r.allocates (rw r.releases e)))))

  module _ (inv : Inv lists V start) (merged : IsMerged start)
      (enough : 31 ≤ length (contents start.buddy_lists 5)) where
    phase :
        (counts order : List ℕ) (addrs : ℕ → ℕ) (w : World Store)
        → are_counts counts ≡ true
        → are_counts order ≡ true
        → length counts ≡ 31
        → ((n : ℕ) → 0 < n → n ≤ 31 → 0 < count n counts)
        → ((addrs : ℕ → ℕ) (x : ℕ) → owners counts addrs x ≡ owners order addrs x)
        → Accounts lists V start w.pfa (λ x. 0)
        → Phase counts order addrs w
    phase counts order addrs w are are' many all same a =
        let (spare, fresh) = fresh_Spare lists V start w.pfa (λ x. 0) inv merged a (λ x. refl) in
        let each =
          allocate_each_lem counts addrs w (λ x. 0) (contents w.pfa.buddy_lists 5) are a spare
            (omega (arith, fresh, many)) in
        let (pfa2, e, b) =
          release_each_lem order each.addrs' (with_pfa w each.pfa') _ are'
            (λ n some le. each.aligned n some (all n some le))
            (λ x. omega (arith, same each.addrs' x)) each.accounts in
        record {
          addrs' = each.addrs';
          pfa1 = each.pfa';
          pfa2 = pfa2;
          allocates = each.runs;
          releases = e;
          accounts = b;
        }

    up_are_counts : are_counts (upward 31 1) ≡ true
    unfolding upward are_counts count
    up_are_counts = refl

    down_are_counts : are_counts (downward 31) ≡ true
    unfolding downward are_counts count
    down_are_counts = refl

    owners_reversed :
        (addrs : ℕ → ℕ) (x : ℕ) → owners (upward 31 1) addrs x ≡ owners (downward 31) addrs x
    unfolding upward downward owners
    owners_reversed addrs x = omega arith

    pub multi_sweep_run :
        (w : World Store)
        → ((i : ℕ) → i < 6 → w.pfa_original_state i ≡ length (contents start.buddy_lists i))
        → Accounts lists V start w.pfa (λ x. 0)
        → (pfa' : Pfa Store) × (multi_sweep lists V w ≡ ok (pos 0, with_pfa w pfa'))
          × Accounts lists V start pfa' (λ x. 0)
    multi_sweep_run w sizes a =
        let p =
          phase (upward 31 1) (downward 31) (λ i. 0) w up_are_counts down_are_counts
            (unfold upward in refl) (λ n lo hi. count-upward 31 1 n lo (omega arith))
            owners_reversed a in
        let q =
          phase (upward 31 1) (upward 31 1) p.addrs' (with_pfa w p.pfa2) up_are_counts up_are_counts
            (unfold upward in refl) (λ n lo hi. count-upward 31 1 n lo (omega arith))
            (λ addrs x. refl) p.accounts in
        let r =
          phase (downward 31) (upward 31 1) q.addrs' (with_pfa w q.pfa2) down_are_counts
            up_are_counts (unfold downward in refl) (λ n lo hi. count-downward 31 n lo hi)
            (λ addrs x. sym (owners_reversed addrs x)) q.accounts in
        (
          r.pfa2,
          multi_eq w p q r (
              compare_state_lem lists V start (with_pfa w r.pfa2) (λ x. 0) inv merged sizes
                r.accounts (λ x. refl)),
          r.accounts,
        )

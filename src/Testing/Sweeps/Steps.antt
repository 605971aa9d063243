-- ===== src/Testing/Sweeps/Steps.antt =====
-- What one allocation, one release and the comparison of test_pmap_pfa.c do to the accounts.
use swink.Common.{
  ℕ, zero, suc, ◌+◌, ◌*◌, ◌≤◌, ◌<◌, ◌≡◌, refl, ◌∙◌, List, [], ◌∷◌, true, ok, arith, length,
  count-cons, inl, inr, ap,
}
use swink.LinkedLists.{LinkedLists}
use swink.Pmap.{page_size}
use swink.Pfa.State.{Pfa}
use swink.Pfa.Invariant.{IsFree, IsMerged, Inv}
use swink.Pfa.Debug.{get_state_lem}
use swink.Pfa.Alloc.{alloc_contig}
use swink.Pfa.Free.{free_contig}
use swink.Pfa.Ledger.{within, Accounts}
use swink.Pfa.Ledger.Steps.{allocate_step, release_step, closed_sizes}
use swink.Pfa.Spare.{Spare, listed-Spare, Allocated-Spare}
use swink.Testing.{pos}
use swink.Testing.Sweeps.{World, same_counts, allocate, release, compare_state}

same_counts_lem : (n : ℕ) (a b : ℕ → ℕ) → ((i : ℕ) → i < n → a i ≡ b i) → same_counts n a b ≡ true
unfolding same_counts
same_counts_lem zero a b same = refl
same_counts_lem (suc n) a b same =
    ground (arith, same n, same_counts_lem n a b (λ i lt. same i (omega arith)))

-- A world with another state of the allocator.
abbrev pub with_pfa : {S : Type 0} → World S → Pfa S → World S
with_pfa w pfa = record w { pfa = pfa }

module _ (lists : LinkedLists) (V : ℕ) where
  open lists use {Store, contents}

  -- An allocation that got its pages.
  pub record Got (start : Pfa Store) (w : World Store) (out : ℕ → ℕ) (n : ℕ) (es : List ℕ)
      : Type 0 where
    pub page : ℕ
    pub pfa' : Pfa Store
    pub runs : allocate lists V n w ≡ ok (page * page_size, with_pfa w pfa')
    pub accounts : Accounts lists V start pfa' (λ x. out x + within page n x)
    pub left : List ℕ
    pub spare : Spare lists V pfa' left
    pub one_less : length es ≤ suc (length left)

  some_entry :
      (pfa : Pfa Store) (es : List ℕ)
      → Spare lists V pfa es
      → 0 < length es
      → (q : ℕ) × IsFree pfa 5 q
  some_entry pfa [] s some = absurd (omega arith)
  some_entry pfa (e ∷ es) s some =
      let (q, f, at) = s.entries e (ground (arith, count-cons e e es)) in (q, f)

  pub allocate_eq :
      (n addr : ℕ) (w : World Store) (pfa' : Pfa Store)
      → alloc_contig lists V (page_size * n) w.pfa_metadata_m w.pfa ≡ ok (addr, pfa')
      → allocate lists V n w ≡ ok (addr, with_pfa w pfa')
  unfolding allocate
  allocate_eq n addr w pfa' e = rw e

  pub release_eq :
      (n addr : ℕ) (w : World Store) (pfa' : Pfa Store)
      → free_contig lists V addr (page_size * n) w.pfa ≡ ok pfa'
      → release lists V addr n w ≡ ok (with_pfa w pfa')
  unfolding release
  release_eq n addr w pfa' e = rw e

  -- With an entry of the top level left, up to 32 pages are had.
  pub allocate_lem :
      (start : Pfa Store) (w : World Store) (out : ℕ → ℕ) (n : ℕ) (es : List ℕ)
      → Accounts lists V start w.pfa out
      → Spare lists V w.pfa es
      → 0 < length es
      → 0 < n
      → n ≤ 32
      → Got start w out n es
  allocate_lem start w out n es a s some some_page le =
      let (addr, pfa', e, answer) =
        allocate_step lists V start w.pfa out n w.pfa_metadata_m a some_page le in
      elim answer [
        | inr (at, same, none) ↦ absurd (let (q, f) = some_entry w.pfa es s some in none q f)
        | inl (k, page, at, room, f, t, accounts) ↦
            let (left, spare, fewer) =
              Allocated-Spare lists V w.pfa pfa' page n w.pfa_metadata_m k es t accounts.merged room
                f s in
            record {
              page = page;
              pfa' = pfa';
              runs = allocate_eq n addr w pfa' e ∙ ap (λ (at : ℕ). ok (at, with_pfa w pfa')) at;
              accounts = accounts;
              left = left;
              spare = spare;
              one_less = fewer;
            }
      ]

  -- Pages that are out are given back.
  pub release_lem :
      (start : Pfa Store) (w : World Store) (out out' : ℕ → ℕ) (page n : ℕ)
      → Accounts lists V start w.pfa out
      → ((x : ℕ) → out x ≡ within page n x + out' x)
      → 0 < n
      → n ≤ 32
      → (pfa' : Pfa Store) × (release lists V (page * page_size) n w ≡ ok (with_pfa w pfa'))
        × Accounts lists V start pfa' out'
  release_lem start w out out' page n a split some_page le =
      let (pfa', e, accounts) =
        release_step lists V start w.pfa out out' page n a split some_page le in
      (pfa', release_eq n (page * page_size) w pfa' e, accounts)

  -- With nothing out, there are as many entries of the top level as at the start.
  pub fresh_Spare :
      (start pfa : Pfa Store) (out : ℕ → ℕ)
      → Inv lists V start
      → IsMerged start
      → Accounts lists V start pfa out
      → ((x : ℕ) → out x ≡ 0)
      → Spare lists V pfa (contents pfa.buddy_lists 5)
        × (length (contents start.buddy_lists 5) ≡ length (contents pfa.buddy_lists 5))
  fresh_Spare start pfa out inv merged a none =
      (listed-Spare lists V pfa a.inv, closed_sizes lists V start pfa out inv merged a none 5)

  -- With nothing out, the comparison with the counts at the start succeeds.
  pub compare_state_lem :
      (start : Pfa Store) (w : World Store) (out : ℕ → ℕ)
      → Inv lists V start
      → IsMerged start
      → ((i : ℕ) → i < 6 → w.pfa_original_state i ≡ length (contents start.buddy_lists i))
      → Accounts lists V start w.pfa out
      → ((x : ℕ) → out x ≡ 0)
      → compare_state lists V w ≡ ok (pos 0, w)
  unfolding compare_state
  compare_state_lem start w out inv merged sizes a none =
      let (now, e, are) = get_state_lem lists (λ i. 0) 6 w.pfa (omega arith) a.unlocked in
      let same : same_counts 6 w.pfa_original_state now ≡ true =
        same_counts_lem 6 w.pfa_original_state now (λ i lt.
          ground
            (arith, sizes i lt, are i, closed_sizes lists V start w.pfa out inv merged a none i)) in
      rw (e, same)

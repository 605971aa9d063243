-- ===== src/Pfa/Ledger/Steps.antt =====
-- One request and one free, by the accounts, and what they say when nothing is out.
use swink.Common.{
  ℕ, ◌+◌, ◌-◌, ◌*◌, ◌/◌, ◌^◌, ◌≤◌, ◌<◌, ◌≡◌, ◌⊎◌, inl, inr, subst, subst₂, arith, ok, length,
}
use native.Mathlib.Nat.{pow-le-pow_right, le_trans}
use swink.LinkedLists.{LinkedLists}
use swink.Pmap.{page_size, phys_addr_invalid}
use swink.Pfa.Levels.{min_buddy_level_for_size}
use swink.Pfa.Levels.Bounds.{min_level_fits}
use swink.Pfa.State.{Pfa}
use swink.Pfa.Insert.Range.{Freed, AreAllocated}
use swink.Pfa.Invariant.{IsFree, IsMerged, Inv}
use swink.Pfa.Alloc.{alloc_contig}
use swink.Pfa.Alloc.Small.{Allocated}
use swink.Pfa.Alloc.Total.{alloc_contig_run}
use swink.Pfa.Free.{free_contig}
use swink.Pfa.Free.Total.{free_contig_run}
use swink.Pfa.Unique.{same_sizes}
use swink.Pfa.Ledger.{
  within, within_in, whole_pages, Accounts, out-managed, Allocated-Accounts, Freed-Accounts,
}

module _ (lists : LinkedLists) (V : ℕ) where
  open lists use {Store, contents}

  -- A request for 1 to 32 whole pages keeps the accounts, with the pages that it got out.
  pub allocate_step :
      (start pfa : Pfa Store) (out : ℕ → ℕ) (n m : ℕ)
      → Accounts lists V start pfa out
      → 0 < n
      → n ≤ 32
      → (addr : ℕ) × (pfa' : Pfa Store) × (alloc_contig lists V (page_size * n) m pfa
          ≡ ok (addr, pfa'))
        × (((k : ℕ) × (page : ℕ) × (addr ≡ page * page_size)
              × (n ≤ 2 ^ k)
              × IsFree pfa k page
              × Allocated lists V pfa pfa' page n m
              × Accounts lists V start pfa' (λ x. out x + within page n x))
            ⊎ ((addr ≡ phys_addr_invalid) × (pfa' ≡ pfa) × ((p : ℕ) → ¬ IsFree pfa 5 p)))
  allocate_step start pfa out n m a pos le =
      let (addr, pfa', e, answer, keep) =
        alloc_contig_run lists V (page_size * n) m pfa a.inv a.unlocked (omega arith) in
      let (fits, below) = min_level_fits (page_size * n) (omega arith) in
      let merged = keep (omega arith) a.merged in
      (
        addr,
        pfa',
        e,
        elim answer [
          | inr (at, same, none) ↦ inr (at, same, λ p. none 5 p (omega arith))
          | inl (k, page, at, above, f, t) ↦
              let t' : Allocated lists V pfa pfa' page n m =
                subst (λ c. Allocated lists V pfa pfa' page c m) (whole_pages n le) t in
              let room : n ≤ 2 ^ k =
                le_trans
                  (subst (λ c. c ≤ 2 ^ min_buddy_level_for_size (page_size * n)) (whole_pages n le)
                    fits)
                  (pow-le-pow_right (omega arith) above) in
              inl (
                k,
                page,
                at,
                room,
                f,
                t',
                Allocated-Accounts lists V start pfa pfa' out page n m a t' merged,
              )
        ],
      )

  -- Giving back pages that are out keeps the accounts.
  pub release_step :
      (start pfa : Pfa Store) (out out' : ℕ → ℕ) (page n : ℕ)
      → Accounts lists V start pfa out
      → ((x : ℕ) → out x ≡ within page n x + out' x)
      → 0 < n
      → n ≤ 32
      → (pfa' : Pfa Store) × (free_contig lists V (page * page_size) (page_size * n) pfa ≡ ok pfa')
        × Accounts lists V start pfa' out'
  release_step start pfa out out' page n a split pos le =
      let first =
        out-managed lists V start pfa out page a
          (omega (arith, split page, within_in page n page)) in
      let last =
        out-managed lists V start pfa out (page + n - 1) a
          (omega (arith, split (page + n - 1), within_in page n (page + n - 1))) in
      let at : page * page_size / page_size ≡ page = omega arith in
      let taken : AreAllocated lists V pfa page (page + n) =
        λ x lo hi h. omega (arith, (a.still x h).1, split x, within_in page n x lo hi) in
      let (pfa', e, f, keep) =
        free_contig_run lists V (page * page_size) (page_size * n) pfa a.inv a.unlocked
          (omega arith) (rw (at, whole_pages n le) (omega arith))
          (rw (at, whole_pages n le) taken) in
      let f' : Freed lists V pfa pfa' page (page + n) =
        subst₂ (λ lo c. Freed lists V pfa pfa' lo (lo + c)) at (whole_pages n le) f in
      (pfa', e, Freed-Accounts lists V start pfa pfa' out out' page n a split f' (keep a.merged))

  -- With nothing out, the lists are as long as at the start.
  pub closed_sizes :
      (start pfa : Pfa Store) (out : ℕ → ℕ)
      → Inv lists V start
      → IsMerged start
      → Accounts lists V start pfa out
      → ((x : ℕ) → out x ≡ 0)
      → (k : ℕ) → length (contents start.buddy_lists k) ≡ length (contents pfa.buddy_lists k)
  closed_sizes start pfa out inv merged a none =
      same_sizes lists V start pfa inv a.inv merged a.merged (λ x. (
        λ h. elim (a.accounted x h) [ inl now ↦ now | inr one ↦ absurd (omega (arith, none x)) ],
        λ h. (a.still x h).0,
      ))

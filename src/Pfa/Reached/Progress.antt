-- ===== src/Pfa/Reached/Progress.antt =====
-- What every sequence of requests and frees keeps, and that it can always go on.
use swink.Common.{
  ℕ, ◌*◌, ◌≤◌, ◌<◌, ◌≡◌, ◌⊎◌, ◌↔◌, inl, inr, ◌∙◌, ap, subst, List, [], ◌∷◌, ◌++◌, arith, ok,
}
use swink.LinkedLists.{LinkedLists}
use swink.Pmap.{page_size, phys_addr_invalid}
use swink.Pfa.State.{Pfa}
use swink.Pfa.Invariant.{IsFree, IsFreePage, IsMerged, Inv}
use swink.Pfa.Alloc.{alloc_contig}
use swink.Pfa.Free.{free_contig}
use swink.Pfa.Ledger.Steps.{allocate_step}
use swink.Pfa.Unique.{same_entries}
use swink.Pfa.Reached.{
  Block, owners, Reached, allocated, refused, released, Reached-Accounts, release-Accounts,
}

module _ (lists : LinkedLists) (V : ℕ) where
  open lists use {Store}

  -- From a start that satisfies the invariant, with a free lock and no two buddies below the top
  -- level that are both free entries, any number of requests for 1 to 32 whole pages, answered or
  -- refused, and of frees of blocks that are out, in any order, keep all of that. No page is in two
  -- blocks that are out, none in such a block is free, and the pages that are free or out are those
  -- that were free at the start.
  pub reached_lem :
      (start pfa : Pfa Store) (blocks : List Block)
      → Inv lists V start
      → start.lock.semaphore.value ≡ 1
      → IsMerged start
      → Reached lists V start pfa blocks
      → Inv lists V pfa
        × (pfa.lock.semaphore.value ≡ 1)
        × IsMerged pfa
        × ((x : ℕ) → owners blocks x ≤ 1)
        × ((x : ℕ) → IsFreePage pfa x → owners blocks x ≡ 0)
        × ((x : ℕ) → IsFreePage start x ↔ (IsFreePage pfa x ⊎ (owners blocks x ≡ 1)))
  reached_lem start pfa blocks inv unlocked merged r =
      let (a, sized) = Reached-Accounts lists V start inv unlocked merged r in
      (
        a.inv,
        a.unlocked,
        a.merged,
        a.once,
        λ x h. (a.still x h).1,
        λ x. (a.accounted x, λ h. elim h [ inl now ↦ (a.still x now).0 | inr one ↦ a.was x one ]),
      )

  -- From every state that is reached from a start that satisfies the invariant, with a free lock
  -- and no two buddies below the top level that are both free entries, by requests for 1 to 32
  -- whole pages, answered or refused, and frees of blocks that are out, a request for 1 to 32 whole
  -- pages returns, with a block or with PHYS_ADDR_INVALID, and freeing any block that is out
  -- returns; the state after each is reached again.
  pub reached_progress :
      (start pfa : Pfa Store) (blocks : List Block)
      → Inv lists V start
      → start.lock.semaphore.value ≡ 1
      → IsMerged start
      → Reached lists V start pfa blocks
      → ((n m : ℕ)
          → 0 < n
          → n ≤ 32
          → (addr : ℕ) × (pfa' : Pfa Store) × (alloc_contig lists V (page_size * n) m pfa
              ≡ ok (addr, pfa'))
            × (((page : ℕ) × (addr ≡ page * page_size)
                  × Reached lists V start pfa' (record { page = page; count = n } ∷ blocks))
                ⊎ ((addr ≡ phys_addr_invalid) × Reached lists V start pfa' blocks)))
        × ((b : Block) (before after : List Block)
            → blocks ≡ before ++ (b ∷ after)
            → (pfa' : Pfa Store) × (free_contig lists V
                  (b.page * page_size)
                  (page_size * b.count)
                  pfa
                ≡ ok pfa')
              × Reached lists V start pfa' (before ++ after))
  reached_progress start pfa blocks inv unlocked merged r = (
    λ n m some le.
        let (addr, pfa', e, answer) =
          allocate_step lists V start pfa (owners blocks) n m
            (Reached-Accounts lists V start inv unlocked merged r).0 some le in
        (
          addr,
          pfa',
          e,
          elim answer [
            | inl (k, page, at, _, _, _, _) ↦ inl (
              page,
              at,
              allocated n m page pfa pfa' blocks some le r (e ∙ ap (λ t. ok (t, pfa')) at),
            )
            | inr (at, _, _) ↦
                inr (at, refused n m pfa pfa' blocks some le r (e ∙ ap (λ t. ok (t, pfa')) at))
          ],
        ),
    λ b before after split.
        let r' : Reached lists V start pfa (before ++ (b ∷ after)) =
          subst (Reached lists V start pfa) split r in
        let (a, sized) = Reached-Accounts lists V start inv unlocked merged r' in
        let (pfa', e, _) =
          release-Accounts lists V start inv unlocked merged b before after pfa a sized in
        (pfa', e, released b before after pfa pfa' r' e),
  )

  -- When, from a start that satisfies the invariant, with a free lock and no two buddies below the
  -- top level that are both free entries, every block that was handed out by requests for 1 to 32
  -- whole pages has been freed, in whatever order, the free entries are those from the start.
  pub reached_closed :
      (start pfa : Pfa Store)
      → Inv lists V start
      → start.lock.semaphore.value ≡ 1
      → IsMerged start
      → Reached lists V start pfa []
      → (k p : ℕ) → IsFree pfa k p ↔ IsFree start k p
  reached_closed start pfa inv unlocked merged r =
      let (a, _) = Reached-Accounts lists V start inv unlocked merged r in
      (same_entries lists V pfa start a.inv inv a.merged merged (λ x. (
        λ h. (a.still x h).0,
        λ h. elim (a.accounted x h) [
          | inl now ↦ now
          | inr one ↦ absurd (unfold owners in omega (arith, one))
        ],
      ))).0

-- ===== src/Pfa/RoundTrip.antt =====
-- Allocations and frees of pmap_pfa.c together.
use swink.Common.{
  ℕ, ◌+◌, ◌*◌, ◌/◌, ◌^◌, ◌≤◌, ◌<◌, ◌≡◌, ◌⊎◌, ◌↔◌, inl, inr, ◌∙◌, ap, subst, sym, arith, ok, dec_lt,
  max,
}
use swink.LinkedLists.{LinkedLists}
use swink.Synchs.{Lock}
use swink.Pmap.{page_size, phys_addr_invalid}
use swink.Pfa.Levels.{size_to_page_count}
use swink.Pfa.Levels.Bounds.{size_to_page_count_lem}
use swink.Pfa.State.{Pfa}
use swink.Pfa.Insert.Range.{Freed, AreAllocated}
use swink.Pfa.Invariant.{IsFreePage, Inv}
use swink.Pfa.Alloc.{alloc_contig}
use swink.Pfa.Alloc.Small.{Allocated}
use swink.Pfa.Alloc.Total.{Answers, alloc_contig_lem}
use swink.Pfa.Free.{free_contig}
use swink.Pfa.Free.Total.{free_contig_lem}

module _ (lists : LinkedLists) (V : ℕ) where
  open lists use {Store}

  taken-AreAllocated :
      (page n m : ℕ) (pfa pfa' : Pfa Store)
      → Allocated lists V pfa pfa' page n m
      → AreAllocated lists V pfa' page (page + n)
  taken-AreAllocated page n m pfa pfa' a x lo hi h = omega (arith, ((a.taken.free x).0 h).1)

  -- The pages that were taken and given back are those that were free before.
  restored :
      (page n m : ℕ) (pfa pfa' pfa'' : Pfa Store)
      → Allocated lists V pfa pfa' page n m
      → Freed lists V pfa' pfa'' page (page + n)
      → (x : ℕ) → IsFreePage pfa'' x ↔ IsFreePage pfa x
  restored page n m pfa pfa' pfa'' a f x = (
    λ h. elim (f.only x h) [
      | inl still ↦ ((a.taken.free x).0 still).0
      | inr (lo, hi) ↦ a.were_free x lo hi
    ],
    λ h. elim (dec_lt x page) [
      | yes below ↦ f.kept x ((a.taken.free x).1 (h, inl below))
      | no above ↦ elim (dec_lt x (page + n)) [
        | yes within ↦ f.freed x (omega arith) within
        | no past ↦ f.kept x ((a.taken.free x).1 (h, inr (omega arith)))
      ]
    ],
  )

  -- From a state that satisfies the invariant and whose lock is free, a request for at most 32
  -- pages returns; unless it answers PHYS_ADDR_INVALID and leaves the state as it was, freeing what
  -- it answered returns too, and leaves the invariant, a free lock, and exactly those pages free
  -- that were free before the request.
  pub free-alloc :
      (size m : ℕ) (pfa : Pfa Store)
      → Inv lists V pfa
      → pfa.lock.semaphore.value ≡ 1
      → size ≤ page_size * 2 ^ 5
      → (addr : ℕ) × (pfa' : Pfa Store) × (alloc_contig lists V size m pfa ≡ ok (addr, pfa'))
        × (((addr ≡ phys_addr_invalid) × (pfa' ≡ pfa))
            ⊎ ((pfa'' : Pfa Store) × (free_contig lists V addr size pfa' ≡ ok pfa'')
                × Inv lists V pfa''
                × (pfa''.lock.semaphore.value ≡ 1)
                × ((x : ℕ) → IsFreePage pfa'' x ↔ IsFreePage pfa x)))
  free-alloc size m pfa inv free le =
      let (addr, pfa', e, answer) = alloc_contig_lem lists V size m pfa inv free le in
      (
        addr,
        pfa',
        e,
        elim answer [
          | inr (at, same, _) ↦ inl (at, same)
          | inl (k, page, at, above, f, a) ↦ inr (freed_again addr pfa' page a at)
        ],
      )
    where
      freed_again :
          (addr : ℕ) (pfa' : Pfa Store) (page : ℕ)
          → Allocated lists V pfa pfa' page (size_to_page_count size) m
          → addr ≡ page * page_size
          → (pfa'' : Pfa Store) × (free_contig lists V addr size pfa' ≡ ok pfa'')
            × Inv lists V pfa''
            × (pfa''.lock.semaphore.value ≡ 1)
            × ((x : ℕ) → IsFreePage pfa'' x ↔ IsFreePage pfa x)
      freed_again addr pfa' page a at =
          let start : page ≡ addr / page_size = omega arith in
          let b : Allocated lists V pfa pfa' (addr / page_size) (size_to_page_count size) m =
            subst (λ t. Allocated lists V pfa pfa' t (size_to_page_count size) m) start a in
          let lock : pfa'.lock.semaphore.value ≡ 1 =
            ap (λ (l : Lock). l.semaphore.value) a.taken.same_lock ∙ free in
          let (pfa'', e, f) =
            free_contig_lem lists V addr size pfa' a.taken.inv lock
              (omega (arith, b.managed, a.taken.same_base))
              (omega (arith, b.managed, a.taken.same_base, a.taken.same_count))
              (taken-AreAllocated (addr / page_size) (size_to_page_count size) m pfa pfa' b) in
          (
            pfa'',
            e,
            f.inv,
            ap (λ (l : Lock). l.semaphore.value) f.same_lock ∙ lock,
            restored (addr / page_size) (size_to_page_count size) m pfa pfa' pfa'' b f,
          )

  Answers-Inv :
      (size m addr : ℕ) (pfa pfa' : Pfa Store)
      → Inv lists V pfa
      → pfa.lock.semaphore.value ≡ 1
      → Answers lists V size m pfa addr pfa'
      → Inv lists V pfa' × (pfa'.lock.semaphore.value ≡ 1)
  Answers-Inv size m addr pfa pfa' inv free (inl (k, page, at, above, f, a)) =
      (a.taken.inv, ap (λ (l : Lock). l.semaphore.value) a.taken.same_lock ∙ free)
  Answers-Inv size m addr pfa pfa' inv free (inr (at, same, _)) = (
    subst (Inv lists V) (sym same) inv,
    ap (λ (q : Pfa Store). q.lock.semaphore.value) same ∙ free,
  )

  -- From a state that satisfies the invariant and whose lock is free, two requests one after the
  -- other, each for at least one byte and at most 32 pages, both return; unless one of them answers
  -- PHYS_ADDR_INVALID, the bytes that the one got and the bytes that the other got do not overlap.
  pub alloc_disjoint :
      (size m size' m' : ℕ) (pfa : Pfa Store)
      → Inv lists V pfa
      → pfa.lock.semaphore.value ≡ 1
      → size ≤ page_size * 2 ^ 5
      → size' ≤ page_size * 2 ^ 5
      → 0 < size
      → 0 < size'
      → (addr : ℕ) × (addr' : ℕ) × (pfa' : Pfa Store) × (pfa'' : Pfa Store) × (alloc_contig lists V
            size m pfa
          ≡ ok (addr, pfa'))
        × (alloc_contig lists V size' m' pfa' ≡ ok (addr', pfa''))
        × ((addr ≡ phys_addr_invalid)
            ⊎ ((addr' ≡ phys_addr_invalid) ⊎ ((addr + size ≤ addr') ⊎ (addr' + size' ≤ addr))))
  alloc_disjoint size m size' m' pfa inv free le le' pos pos' =
      let (addr, pfa', e, answer) = alloc_contig_lem lists V size m pfa inv free le in
      let (inv', free') = Answers-Inv size m addr pfa pfa' inv free answer in
      let (addr', pfa'', e', answer') = alloc_contig_lem lists V size' m' pfa' inv' free' le' in
      (
        addr,
        addr',
        pfa',
        pfa'',
        e,
        e',
        elim answer [
          | inr (at, _, _) ↦ inl at
          | inl (k, page, at, above, f, a) ↦ elim answer' [
            | inr (at', _, _) ↦ inr (inl at')
            | inl (k', page', at', above', f', a') ↦
                inr (inr (apart page page' addr addr' pfa' pfa'' a a' at at'))
          ]
        ],
      )
    where
      apart :
          (page page' addr addr' : ℕ) (pfa' pfa'' : Pfa Store)
          → Allocated lists V pfa pfa' page (size_to_page_count size) m
          → Allocated lists V pfa' pfa'' page' (size_to_page_count size') m'
          → addr ≡ page * page_size
          → addr' ≡ page' * page_size
          → (addr + size ≤ addr') ⊎ (addr' + size' ≤ addr)
      apart page page' addr addr' pfa' pfa'' a a' at at' =
          elim (dec_lt page' (page + size_to_page_count size)) [
            | no after ↦ inl (omega (arith, size_to_page_count_lem size))
            | yes c ↦ elim (dec_lt page (page' + size_to_page_count size')) [
              | no before ↦ inr (omega (arith, size_to_page_count_lem size'))
              | yes d ↦ absurd (
                  omega (
                    arith,
                    ((a.taken.free (max page page')).0 (
                        a'.were_free (max page page') (omega arith)
                          (omega (arith, d, size_to_page_count_lem size')))).1,
                    size_to_page_count_lem size,
                  ))
            ]
          ]

-- ===== src/Pfa/Alloc/Total.antt =====
-- pmap_pfa_alloc_contig as a whole.
use swink.Common.{
  ℕ, suc, ◌*◌, ◌^◌, ◌≤◌, ◌<◌, ◌≡◌, ◌≢◌, refl, ◌⊎◌, inl, inr, ◌∙◌, ap, arith, ok, le→ltb_false,
  ne→==,
}
use native.Mathlib.Nat.{pow-le-pow_right, le_trans, one-le-pow}
use swink.LinkedLists.{LinkedLists}
use swink.Pmap.{page_size, phys_addr_invalid}
use swink.Synchs.{Lock, held, lock_release, lock_acquire_free, release-acquire}
use swink.Pfa.Levels.{buddy_levels, size_to_page_count, min_buddy_level_for_size}
use swink.Pfa.Levels.Bounds.{min_level_fits, size_to_page_count_lem}
use swink.Pfa.State.{Pfa}
use swink.Pfa.Insert.{free_entry_kva}
use swink.Pfa.Invariant.{IsFree, IsMerged, Inv, Inv-other, free_entry_kva_lem}
use swink.Pfa.Alloc.{find_entry, take_entry, alloc_contig_small_locked, alloc_contig}
use swink.Pfa.Alloc.Find.{find_entry_lem}
use swink.Pfa.Alloc.Small.{Allocated, take_entry_lem}

module _ (lists : LinkedLists) (V : ℕ) where
  open lists use {Store}

  -- What an allocation answers: the address of pages that it took, from the start of an entry of a
  -- level that holds `size` bytes; or PHYS_ADDR_INVALID, where no such level has an entry left.
  abbrev pub Answers : ℕ → ℕ → Pfa Store → ℕ → Pfa Store → Type 0
  Answers size m pfa addr pfa' =
      ((k : ℕ) × (page : ℕ) × (addr ≡ page * page_size)
        × (min_buddy_level_for_size size ≤ k)
        × IsFree pfa k page
        × Allocated lists V pfa pfa' page (size_to_page_count size) m)
      ⊎ ((addr ≡ phys_addr_invalid)
          × (pfa' ≡ pfa)
          × ((k p : ℕ) → min_buddy_level_for_size size ≤ k → ¬ IsFree pfa k p))

  small_found :
      (size m k p : ℕ) (pfa : Pfa Store)
      → find_entry lists V (suc buddy_levels) (min_buddy_level_for_size size) pfa
        ≡ ok (k, free_entry_kva V p, p * page_size)
      → free_entry_kva V p ≢ 0
      → alloc_contig_small_locked lists V size m pfa
        ≡ take_entry lists V (size_to_page_count size) m k (free_entry_kva V p) (p * page_size) pfa
  unfolding alloc_contig_small_locked
  small_found size m k p pfa e some_entry = rw (e, ne→== (free_entry_kva V p) 0 some_entry)

  small_none :
      (size m : ℕ) (pfa : Pfa Store)
      → find_entry lists V (suc buddy_levels) (min_buddy_level_for_size size) pfa
        ≡ ok (buddy_levels, 0, phys_addr_invalid)
      → alloc_contig_small_locked lists V size m pfa ≡ ok (phys_addr_invalid, pfa)
  unfolding alloc_contig_small_locked
  small_none size m pfa e = rw e

  alloc_small_lem :
      (size m : ℕ) (pfa : Pfa Store)
      → Inv lists V pfa
      → size ≤ page_size * 2 ^ 5
      → (addr : ℕ) × (pfa' : Pfa Store) × (alloc_contig_small_locked lists V size m pfa
          ≡ ok (addr, pfa'))
        × Answers size m pfa addr pfa'
        × (0 < size → IsMerged pfa → IsMerged pfa')
  alloc_small_lem size m pfa inv le =
      let (fits, below) = min_level_fits size le in
      elim (find_entry_lem lists V (suc buddy_levels) (min_buddy_level_for_size size) pfa inv
        (omega arith) (omega arith)) [
          | inr (e, none_free) ↦ (
            phys_addr_invalid,
            pfa,
            small_none size m pfa e,
            inr (refl, refl, none_free),
            λ pos before. before,
          )
          | inl (k, p, e, above, f) ↦
              let (pfa', t, a, keep) =
                take_entry_lem lists V (size_to_page_count size) m k p pfa inv f
                  (le_trans fits (pow-le-pow_right (omega arith) above)) in
              (
                p * page_size,
                pfa',
                small_found size m k p pfa e (λ null. absurd (
                      omega (
                        arith,
                        inv.small,
                        inv.mapped,
                        null,
                        one-le-pow k 2,
                        f.0.2,
                        free_entry_kva_lem V p,
                      )))
                    ∙ t,
                inl (k, p, refl, above, f, a),
                λ pos before.
                    keep (omega (arith, size_to_page_count_lem size (omega arith))) before,
              )
        ]

  alloc_eq :
      (size m addr : ℕ) (pfa pfa' : Pfa Store)
      → size ≤ page_size * 2 ^ 5
      → pfa.lock.semaphore.value ≡ 1
      → alloc_contig_small_locked lists V size m (record pfa { lock = held }) ≡ ok (addr, pfa')
      → alloc_contig lists V size m pfa ≡ ok (addr, record pfa' { lock = lock_release pfa'.lock })
  unfolding alloc_contig
  alloc_eq size m addr pfa pfa' le free e =
      rw (le→ltb_false (page_size * 2 ^ 5) size le, lock_acquire_free pfa.lock free) (rw e)

  -- An allocation under the lock is one of the state with the lock as it was.
  Allocated-unlock :
      (page n m : ℕ) (pfa pfa' : Pfa Store)
      → pfa.lock.semaphore.value ≡ 1
      → Allocated lists V (record pfa { lock = held }) pfa' page n m
      → Allocated lists V pfa (record pfa' { lock = lock_release pfa'.lock }) page n m
  Allocated-unlock page n m pfa pfa' free a = record {
    taken = record {
      inv = Inv-other lists V pfa' (lock_release pfa'.lock) pfa'.metadata a.taken.inv;
      same_base = a.taken.same_base;
      same_count = a.taken.same_count;
      same_lock = ap lock_release a.taken.same_lock ∙ release-acquire pfa.lock free;
      free = a.taken.free;
    };
    were_free = a.were_free;
    managed = a.managed;
    same_metadata = a.same_metadata;
  }

  pub alloc_contig_run :
      (size m : ℕ) (pfa : Pfa Store)
      → Inv lists V pfa
      → pfa.lock.semaphore.value ≡ 1
      → size ≤ page_size * 2 ^ 5
      → (addr : ℕ) × (pfa' : Pfa Store) × (alloc_contig lists V size m pfa ≡ ok (addr, pfa'))
        × Answers size m pfa addr pfa'
        × (0 < size → IsMerged pfa → IsMerged pfa')
  alloc_contig_run size m pfa inv free le =
      let (addr, pfa', e, answer, keep) =
        alloc_small_lem size m (record pfa { lock = held })
          (Inv-other lists V pfa held pfa.metadata inv) le in
      (
        addr,
        record pfa' { lock = lock_release pfa'.lock },
        alloc_eq size m addr pfa pfa' le free e,
        elim answer [
          | inl (k, p, at, above, f, a) ↦
              inl
                (k, p, at, above, f, Allocated-unlock p (size_to_page_count size) m pfa pfa' free a)
          | inr (at, same, none_free) ↦ inr (
            at,
            ap {B = Pfa Store} (λ (q : Pfa Store). record q { lock = lock_release q.lock }) same
                ∙ ap {B = Pfa Store} (λ (l : Lock). record pfa { lock = l })
                    (release-acquire pfa.lock free),
            none_free,
          )
        ],
        keep,
      )

  -- From a state that satisfies the invariant and whose lock is free, a request for at most 32
  -- pages returns, with no assertion failed and the lock free again. Either it answers the address
  -- of pages that start a free entry of a level not below the one that the search starts from: all
  -- of them were free, the free pages afterwards are those from before less these, their metadata
  -- is the one given and no other metadata has changed, and the invariant holds. Or it answers
  -- PHYS_ADDR_INVALID, the state is unchanged, and no level from that one up had a free entry.
  pub alloc_contig_lem :
      (size m : ℕ) (pfa : Pfa Store)
      → Inv lists V pfa
      → pfa.lock.semaphore.value ≡ 1
      → size ≤ page_size * 2 ^ 5
      → (addr : ℕ) × (pfa' : Pfa Store) × (alloc_contig lists V size m pfa ≡ ok (addr, pfa'))
        × Answers size m pfa addr pfa'
  alloc_contig_lem size m pfa inv free le =
      let (addr, pfa', e, answer, keep) = alloc_contig_run size m pfa inv free le in
      (addr, pfa', e, answer)

  -- From a state that satisfies the invariant, whose lock is free and in which no two buddies below
  -- the top level are both free entries, a request for at least one byte and at most 32 pages
  -- returns, and again no two buddies below the top level are both free entries, although giving
  -- back the remainder of an entry does not merge.
  pub alloc_contig-IsMerged :
      (size m : ℕ) (pfa : Pfa Store)
      → Inv lists V pfa
      → pfa.lock.semaphore.value ≡ 1
      → 0 < size
      → size ≤ page_size * 2 ^ 5
      → IsMerged pfa
      → (addr : ℕ) × (pfa' : Pfa Store) × (alloc_contig lists V size m pfa ≡ ok (addr, pfa'))
        × IsMerged pfa'
  alloc_contig-IsMerged size m pfa inv free pos le before =
      let (addr, pfa', e, answer, keep) = alloc_contig_run size m pfa inv free le in
      (addr, pfa', e, keep pos before)

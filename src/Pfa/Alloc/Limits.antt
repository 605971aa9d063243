-- ===== src/Pfa/Alloc/Limits.antt =====
-- Requests that pmap_pfa_alloc_contig answers otherwise than its documentation says.
use swink.Common.{ℕ, ◌+◌, ◌*◌, ◌^◌, ◌≤◌, ◌<◌, ◌≡◌, refl, inl, inr, ◌∙◌, ap, arith, ok}
use native.Mathlib.Nat.{one-le-pow}
use swink.Common.Word.Count.{bit_length}
use swink.LinkedLists.{LinkedLists}
use swink.Pmap.{page_size, phys_addr_invalid}
use swink.Pfa.Levels.{min_buddy_level_for_size, size_to_page_count}
use swink.Pfa.Levels.Bounds.{by_level, pow_small}
use swink.Pfa.State.{Pfa}
use swink.Pfa.Invariant.{IsFree, IsFreePage, Inv}
use swink.Pfa.Alloc.{alloc_contig}
use swink.Pfa.Alloc.Total.{alloc_contig_lem}

-- For 2, 4, 8 or 16 pages the search starts one level above the one that just holds them.
pub min_level_power : (k : ℕ) → 0 < k → k < 5 → min_buddy_level_for_size (page_size * 2 ^ k) ≡ k + 1
unfolding min_buddy_level_for_size size_to_page_count bit_length
min_level_power k pos lt =
    by_level (λ k. 0 < k → k < 5 → min_buddy_level_for_size (page_size * 2 ^ k) ≡ k + 1)
      (λ a b. absurd (omega arith)) (λ a b. refl) (λ a b. refl) (λ a b. refl) (λ a b. refl)
      (λ a b. absurd (omega arith)) k (omega arith) pos lt

pow_small_room : (k : ℕ) → k < 5 → 2 ^ k ≤ 32
pow_small_room k lt = (pow_small k (omega arith)).1

module _ (lists : LinkedLists) (V : ℕ) where
  open lists use {Store}

  -- From a state that satisfies the invariant and whose lock is free, a request for 2, 4, 8 or 16
  -- pages answers PHYS_ADDR_INVALID and changes nothing, if no free entry has more pages than the
  -- request; a free entry with exactly as many does not help.
  pub alloc_power_fails :
      (k m : ℕ) (pfa : Pfa Store)
      → 0 < k
      → k < 5
      → Inv lists V pfa
      → pfa.lock.semaphore.value ≡ 1
      → ((j p : ℕ) → IsFree pfa j p → j ≤ k)
      → alloc_contig lists V (page_size * 2 ^ k) m pfa ≡ ok (phys_addr_invalid, pfa)
  alloc_power_fails k m pfa pos lt inv free top =
      let (addr, pfa', e, answer) =
        alloc_contig_lem lists V (page_size * 2 ^ k) m pfa inv free
          (omega (arith, pow_small_room k lt)) in
      elim answer [
        | inl (j, page, at, above, f, a) ↦
            absurd (omega (arith, above, top j page f, min_level_power k pos lt))
        | inr (at, same, _) ↦ rw (at, same) at e
      ]

  -- From a state that satisfies the invariant, whose lock is free and that has a free entry, a
  -- request for 0 bytes returns the address of a page that is still free afterwards.
  pub alloc_zero :
      (k p m : ℕ) (pfa : Pfa Store)
      → Inv lists V pfa
      → pfa.lock.semaphore.value ≡ 1
      → IsFree pfa k p
      → (page : ℕ) × (pfa' : Pfa Store) × (alloc_contig lists V 0 m pfa
          ≡ ok (page * page_size, pfa'))
        × IsFreePage pfa' page
  unfolding min_buddy_level_for_size size_to_page_count
  alloc_zero k p m pfa inv free some_entry =
      let (addr, pfa', e, answer) = alloc_contig_lem lists V 0 m pfa inv free (omega arith) in
      elim answer [
        | inl (j, page, at, above, f, a) ↦ (
          page,
          pfa',
          e ∙ ap (λ t. ok (t, pfa')) at,
          (a.taken.free page).1
              ((j, page, f, omega arith, omega (arith, one-le-pow j 2)), inr (omega arith)),
        )
        | inr (at, same, none_free) ↦ absurd (none_free k p (omega arith) some_entry)
      ]

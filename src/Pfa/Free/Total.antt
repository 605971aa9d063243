-- ===== src/Pfa/Free/Total.antt =====
-- pmap_pfa_free_contig as a whole.
use swink.Common.{
  ℕ, zero, suc, ◌+◌, ◌/◌, ◌^◌, ◌≤◌, ◌<◌, ◌≡◌, refl, ◌⊎◌, inl, inr, ◌∙◌, ap, subst, subst₂, arith,
  ok, lt→ltb,
}
use native.Mathlib.Nat.{one-le-pow}
use swink.Common.Word.{u32, sub32}
use swink.LinkedLists.{LinkedLists}
use swink.Pmap.{page_size}
use swink.Synchs.{held, lock_release, lock_acquire_free, release-acquire}
use swink.Pfa.Levels.{get_buddy_page_id_for_page, buddy_levels, pa_to_page_id, size_to_page_count}
use swink.Pfa.State.{Pfa}
use swink.Pfa.Insert.{free_entry_kva, get_pfa_free_entry_for_page, push_free_entry}
use swink.Pfa.Insert.Range.{
  Freed, Freed-trans, Freed-none, AreAllocated, block-IsAllocated, push-Freed,
}
use swink.Pfa.Invariant.{IsBlock, IsFreePage, IsMerged, Inv, Inv-other}
use swink.Pfa.Free.{merge_up, free_page, free_rounds, buddy_free_pages_locked, free_contig}
use swink.Pfa.Insert.Push.{push-IsMerged}
use swink.Pfa.Free.Merge.{Merged, merge_up_lem}

module _ (lists : LinkedLists) (V : ℕ) where
  open lists use {Store}

  free_page_eq :
      (page k p : ℕ) (pfa pfa' : Pfa Store)
      → merge_up lists V buddy_levels 0 page pfa ≡ ok (k, p, pfa')
      → sub32 p pfa'.page_base < pfa'.page_count
      → free_page lists V page pfa ≡ ok (push_free_entry lists (free_entry_kva V p) p k pfa')
  unfolding free_page get_pfa_free_entry_for_page
  free_page_eq page k p pfa pfa' e lt = rw (e, lt→ltb (sub32 p pfa'.page_base) pfa'.page_count lt)

  Merged-Freed :
      (page k p : ℕ) (pfa pfa' pfa'' : Pfa Store)
      → Merged lists V pfa pfa' 0 page k p
      → Freed lists V pfa' pfa'' p (p + 2 ^ k)
      → Freed lists V pfa pfa'' page (page + 1)
  Merged-Freed page k p pfa pfa' pfa'' m f = record {
    inv = f.inv;
    same_base = f.same_base ∙ m.same_base;
    same_count = f.same_count ∙ m.same_count;
    same_metadata = f.same_metadata ∙ m.same_metadata;
    same_lock = f.same_lock ∙ m.same_lock;
    kept = λ x h. now x (inl h);
    freed = λ x lo hi. now x (inr (lo, omega arith));
    only = λ x h. elim ((m.pages x).1 (f.only x h)) [
      | inl old ↦ inl old
      | inr (lo, hi) ↦ inr (lo, omega arith)
    ];
  }
    where
      now : (x : ℕ) → (IsFreePage pfa x ⊎ ((page ≤ x) × (x < page + 2 ^ 0))) → IsFreePage pfa'' x
      now x h = elim ((m.pages x).0 h) [
        | inl before ↦ f.kept x before
        | inr (lo, hi) ↦ f.freed x lo hi
      ]

  -- Freeing an allocated page makes that page free and no other, whatever it is merged with.
  pub free_page_lem :
      (page : ℕ) (pfa : Pfa Store)
      → Inv lists V pfa
      → pfa.page_base ≤ page
      → page < pfa.page_base + pfa.page_count
      → ¬ IsFreePage pfa page
      → (pfa' : Pfa Store) × (free_page lists V page pfa ≡ ok pfa')
        × Freed lists V pfa pfa' page (page + 1)
        × (IsMerged pfa → IsMerged pfa')
  free_page_lem page pfa inv lo hi alloc =
      let block : IsBlock pfa 0 page = (omega arith, lo, omega arith, omega arith) in
      let only_page : AreAllocated lists V pfa page (page + 1) =
        λ x low high h. alloc (subst (IsFreePage pfa) (omega arith) h) in
      let (k, p, pfa', e, m, stop) =
        merge_up_lem lists V buddy_levels 0 page pfa inv block
          (block-IsAllocated lists V pfa 0 page page (page + 1) (omega arith) (omega arith)
            (omega arith) only_page)
          (omega arith) in
      (
        push_free_entry lists (free_entry_kva V p) p k pfa',
        free_page_eq page k p pfa pfa' e (omega (arith, m.block, m.inv.small, one-le-pow k 2)),
        Merged-Freed page k p pfa pfa' _ m (push-Freed lists V pfa' k p m.inv m.block m.allocated),
        λ before.
            push-IsMerged lists V pfa' m.inv k p m.block m.allocated
              (elim stop [ inl top ↦ inl top | inr clear ↦ inr (λ f. omega (arith, f.1, clear)) ])
              (λ j q lt f g.
                before j q lt (m.fewer j q f) (m.fewer j (get_buddy_page_id_for_page q j) g)),
      )

  rounds_eq :
      (rounds base i : ℕ) (pfa pfa' : Pfa Store)
      → base + i < 2 ^ 32
      → free_page lists V (base + i) pfa ≡ ok pfa'
      → free_rounds lists V (suc rounds) base i pfa ≡ free_rounds lists V rounds base (i + 1) pfa'
  unfolding free_rounds
  rounds_eq rounds base i pfa pfa' small e =
      let same : u32 (base + i) ≡ base + i = omega arith in rw (same, e)

  Freed-range :
      (pfa pfa' : Pfa Store) (lo lo' hi hi' : ℕ)
      → lo ≡ lo'
      → hi ≡ hi'
      → Freed lists V pfa pfa' lo hi
      → Freed lists V pfa pfa' lo' hi'
  Freed-range pfa pfa' lo lo' hi hi' e e' f = subst₂ (Freed lists V pfa pfa') e e' f

  free_rounds_lem :
      (rounds base i : ℕ) (pfa : Pfa Store)
      → Inv lists V pfa
      → pfa.page_base ≤ base + i
      → base + i + rounds ≤ pfa.page_base + pfa.page_count
      → AreAllocated lists V pfa (base + i) (base + i + rounds)
      → (pfa' : Pfa Store) × (free_rounds lists V rounds base i pfa ≡ ok pfa')
        × Freed lists V pfa pfa' (base + i) (base + i + rounds)
        × (IsMerged pfa → IsMerged pfa')
  free_rounds_lem zero base i pfa inv lo hi all = (
    pfa,
    unfold free_rounds in refl,
    Freed-none lists V pfa (base + i) (base + i + 0) (omega arith) inv,
    λ before. before,
  )
  free_rounds_lem (suc rounds) base i pfa inv lo hi all =
      let (mid, e, f, one) =
        free_page_lem (base + i) pfa inv lo (omega arith)
          (all (base + i) (omega arith) (omega arith)) in
      let from : base + (i + 1) ≡ base + i + 1 = omega arith in
      let to : base + (i + 1) + rounds ≡ base + i + suc rounds = omega arith in
      let still : AreAllocated lists V mid (base + (i + 1)) (base + (i + 1) + rounds) =
        λ x low high h. elim (f.only x h) [
          | inl old ↦ all x (omega arith) (omega arith) old
          | inr (_, past) ↦ omega arith
        ] in
      let (pfa', e', g, rest) =
        free_rounds_lem rounds base (i + 1) mid f.inv (omega (arith, f.same_base))
          (omega (arith, f.same_base, f.same_count)) still in
      (
        pfa',
        rounds_eq rounds base i pfa mid (omega (arith, inv.small)) e ∙ e',
        Freed-trans lists V pfa mid pfa' (base + i) (base + i + 1) (base + i + suc rounds)
            (omega arith) (omega arith) f
            (Freed-range mid pfa' (base + (i + 1)) (base + i + 1) (base + (i + 1) + rounds)
              (base + i + suc rounds) from to g),
        λ before. rest (one before),
      )

  Freed-unlock :
      (lo hi : ℕ) (pfa pfa' : Pfa Store)
      → pfa.lock.semaphore.value ≡ 1
      → Freed lists V (record pfa { lock = held }) pfa' lo hi
      → Freed lists V pfa (record pfa' { lock = lock_release pfa'.lock }) lo hi
  Freed-unlock lo hi pfa pfa' free f = record {
    inv = Inv-other lists V pfa' (lock_release pfa'.lock) pfa'.metadata f.inv;
    same_base = f.same_base;
    same_count = f.same_count;
    same_metadata = f.same_metadata;
    same_lock = ap lock_release f.same_lock ∙ release-acquire pfa.lock free;
    kept = f.kept;
    freed = f.freed;
    only = f.only;
  }

  free_contig_eq :
      (addr size : ℕ) (pfa pfa' : Pfa Store)
      → pfa.lock.semaphore.value ≡ 1
      → addr < 2 ^ 44
      → free_rounds lists V
          (size_to_page_count size)
          (addr / page_size)
          0
          (record pfa { lock = held })
        ≡ ok pfa'
      → free_contig lists V addr size pfa ≡ ok (record pfa' { lock = lock_release pfa'.lock })
  unfolding free_contig buddy_free_pages_locked pa_to_page_id
  free_contig_eq addr size pfa pfa' free small e =
      let page : u32 (addr / page_size) ≡ addr / page_size = omega arith in
      rw (lock_acquire_free pfa.lock free, page, e)

  pub free_contig_run :
      (addr size : ℕ) (pfa : Pfa Store)
      → Inv lists V pfa
      → pfa.lock.semaphore.value ≡ 1
      → pfa.page_base ≤ addr / page_size
      → addr / page_size + size_to_page_count size ≤ pfa.page_base + pfa.page_count
      → AreAllocated lists V pfa (addr / page_size) (addr / page_size + size_to_page_count size)
      → (pfa' : Pfa Store) × (free_contig lists V addr size pfa ≡ ok pfa')
        × Freed lists V pfa pfa' (addr / page_size) (addr / page_size + size_to_page_count size)
        × (IsMerged pfa → IsMerged pfa')
  free_contig_run addr size pfa inv free lo hi all =
      let start : addr / page_size + 0 ≡ addr / page_size = omega arith in
      let (pfa', e, f, same) =
        free_rounds_lem (size_to_page_count size) (addr / page_size) 0 (record pfa { lock = held })
          (Inv-other lists V pfa held pfa.metadata inv) (omega arith) (omega arith)
          (rw start all) in
      (
        record pfa' { lock = lock_release pfa'.lock },
        free_contig_eq addr size pfa pfa' free (omega (arith, inv.small)) e,
        Freed-unlock (addr / page_size) (addr / page_size + size_to_page_count size) pfa pfa' free (
            Freed-range _ pfa' (addr / page_size + 0) (addr / page_size)
              (addr / page_size + 0 + size_to_page_count size)
              (addr / page_size + size_to_page_count size) start
              (ap (λ t. t + size_to_page_count size) start) f),
        same,
      )

  -- From a state that satisfies the invariant and whose lock is free, freeing `size` bytes from
  -- `addr` on, where the pages of the range are managed and none is free, returns, with no
  -- assertion failed and the lock free again. The pages of the range are free afterwards, those
  -- that were free before still are, and no other; the invariant holds, and the metadata is as it
  -- was.
  pub free_contig_lem :
      (addr size : ℕ) (pfa : Pfa Store)
      → Inv lists V pfa
      → pfa.lock.semaphore.value ≡ 1
      → pfa.page_base ≤ addr / page_size
      → addr / page_size + size_to_page_count size ≤ pfa.page_base + pfa.page_count
      → AreAllocated lists V pfa (addr / page_size) (addr / page_size + size_to_page_count size)
      → (pfa' : Pfa Store) × (free_contig lists V addr size pfa ≡ ok pfa')
        × Freed lists V pfa pfa' (addr / page_size) (addr / page_size + size_to_page_count size)
  free_contig_lem addr size pfa inv free lo hi all =
      let (pfa', e, f, same) = free_contig_run addr size pfa inv free lo hi all in (pfa', e, f)

  -- From a state that satisfies the invariant, whose lock is free and in which no two buddies below
  -- the top level are both free entries, freeing a range of managed pages of which none is free
  -- returns, and again no two buddies below the top level are both free entries.
  pub free_contig-IsMerged :
      (addr size : ℕ) (pfa : Pfa Store)
      → Inv lists V pfa
      → pfa.lock.semaphore.value ≡ 1
      → pfa.page_base ≤ addr / page_size
      → addr / page_size + size_to_page_count size ≤ pfa.page_base + pfa.page_count
      → AreAllocated lists V pfa (addr / page_size) (addr / page_size + size_to_page_count size)
      → IsMerged pfa
      → (pfa' : Pfa Store) × (free_contig lists V addr size pfa ≡ ok pfa') × IsMerged pfa'
  free_contig-IsMerged addr size pfa inv free lo hi all before =
      let (pfa', e, f, same) = free_contig_run addr size pfa inv free lo hi all in
      (pfa', e, same before)

-- ===== src/Pfa/Free/Merge.antt =====
-- The merging loop of buddy_free_pages_locked.
use swink.Common.{
  ℕ, zero, suc, ◌+◌, ◌-◌, ◌*◌, ◌%◌, ◌^◌, ◌≤◌, ◌<◌, ◌≡◌, refl, ◌⊎◌, ◌↔◌, inl, inr, ◌∙◌, ap, arith,
  ok, lt→ltb, le→ltb_false, dec_lt, ℕ_discrete,
}
use native.Mathlib.Nat.{one-le-pow, two-pow-succ}
use swink.Common.Word.{sub32}
use swink.LinkedLists.{LinkedLists}
use swink.Pfa.Levels.{buddy_levels, get_buddy_page_id_for_page, get_root_buddy_page_id_for_page}
use swink.Pfa.Levels.Bounds.{by_level}
use swink.Pfa.Levels.Buddies.{AreHalves, halves_aligned, buddy-AreHalves}
use swink.Pfa.State.{Pfa, get_bit, buddy_bitmap_set_bit_locked, buddy_bitmap_get_bit_locked}
use swink.Pfa.State.Bits.{get_bit-lt}
use swink.Pfa.Insert.{free_entry_kva, get_pfa_free_entry_for_page, remove_free_entry}
use swink.Pfa.Invariant.{
  IsBlock, IsFree, IsFreePage, IsAllocated, Inv, Taken, remove-Taken, remove-Change, still-IsFree,
}
use swink.Pfa.Free.{merge_up}

-- A root is not below the first managed page.
root_managed :
    (k base root : ℕ)
    → k < 5
    → base % 32 ≡ 0
    → root % (2 * 2 ^ k) ≡ 0
    → base ≤ root + 2 ^ k
    → base ≤ root
root_managed k base root lt al =
    by_level (λ k. k < 5 → root % (2 * 2 ^ k) ≡ 0 → base ≤ root + 2 ^ k → base ≤ root)
      (λ a b c. omega arith) (λ a b c. omega arith) (λ a b c. omega arith) (λ a b c. omega arith)
      (λ a b c. omega arith) (λ a b c. absurd (omega arith)) k (omega arith) lt

double : (k : ℕ) → 2 ^ (k + 1) ≡ 2 ^ k + 2 ^ k
double k = ap (λ (t : ℕ). 2 ^ t) (omega arith) ∙ two-pow-succ k

module _ (lists : LinkedLists) (V : ℕ) where
  open lists use {Store}

  -- A block of allocated pages has become the block of level `k` at `p`, at the cost of the free
  -- entries that were merged into it.
  pub record Merged (pfa pfa' : Pfa Store) (level page k p : ℕ) : Type 0 where
    pub inv : Inv lists V pfa'
    pub same_base : pfa'.page_base ≡ pfa.page_base
    pub same_count : pfa'.page_count ≡ pfa.page_count
    pub same_metadata : pfa'.metadata ≡ pfa.metadata
    pub same_lock : pfa'.lock ≡ pfa.lock
    pub block : IsBlock pfa' k p
    pub allocated : IsAllocated pfa' k p
    pub fewer : (j q : ℕ) → IsFree pfa' j q → IsFree pfa j q
    pub pages :
        (x : ℕ)
        → (IsFreePage pfa x ⊎ ((page ≤ x) × (x < page + 2 ^ level)))
          ↔ (IsFreePage pfa' x ⊎ ((p ≤ x) × (x < p + 2 ^ k)))

  module _ (pfa : Pfa Store) (inv : Inv lists V pfa) (k page : ℕ) (lt : k < 5)
      (block : IsBlock pfa k page) (fresh : IsAllocated pfa k page)
      (set : get_bit pfa.page_base pfa.buddy_bitmaps (get_buddy_page_id_for_page page k) k
        ≡ 1) where
    abbrev buddy : ℕ
    buddy = get_buddy_page_id_for_page page k

    abbrev root : ℕ
    root = get_root_buddy_page_id_for_page page k

    halves : AreHalves k page buddy root
    halves = buddy-AreHalves page k lt (omega (arith, inv.small, block, one-le-pow k 2)) block.3

    -- A buddy whose bit is set is a free entry.
    buddy-IsFree : IsFree pfa k buddy
    buddy-IsFree =
        let al = halves_aligned k root lt halves.0 in
        elim halves.1 [
          | inl (at_root, right) ↦ elim (dec_lt (pfa.page_base + pfa.page_count) (buddy + 2 ^ k)) [
            | yes past ↦ absurd (
                omega (
                  arith,
                  set,
                  block,
                  inv.edge k buddy lt (omega (arith, block)) (omega (arith, block)) past
                      (ap (λ (t : ℕ). t % (2 * 2 ^ k)) right ∙ al.2),
                ))
            | no within ↦ (
              (block.0, omega (arith, block), omega arith, ap (λ (t : ℕ). t % 2 ^ k) right ∙ al.1),
              set,
            )
          ]
          | inr (at_right, left) ↦ (
            (
              block.0,
              omega (
                arith,
                root_managed k pfa.page_base root lt inv.base_aligned halves.0
                    (omega (arith, block)),
              ),
              omega (arith, block),
              ap (λ (t : ℕ). t % 2 ^ k) left ∙ al.0,
            ),
            set,
          )
        ]

    abbrev merged : Pfa Store
    merged = remove_free_entry lists (free_entry_kva V buddy) buddy k pfa

    taken : Taken lists V pfa merged buddy (buddy + 2 ^ k)
    taken = remove-Taken lists V pfa k buddy inv buddy-IsFree

    root-IsBlock : IsBlock merged (k + 1) root
    root-IsBlock = (
      omega arith,
      omega (arith, taken.same_base, halves.1, block, buddy-IsFree.0),
      omega (arith, taken.same_base, taken.same_count, halves.1, block, buddy-IsFree.0, double k),
      (halves_aligned k root lt halves.0).3,
    )

    root-IsAllocated : IsAllocated merged (k + 1) root
    root-IsAllocated j q f =
        let c = remove-Change lists V pfa inv k buddy buddy-IsFree in
        let (old, other) =
          still-IsFree lists V inv buddy-IsFree.0 (omega arith) (λ e. absurd (omega arith)) c j q
            refl f in
        ground (
          arith,
          fresh j q old,
          inv.apart k buddy j q buddy-IsFree old,
          halves.1,
          double k,
          one-le-pow j 2,
          one-le-pow k 2,
        )

    step_pages :
        (x : ℕ)
        → (IsFreePage pfa x ⊎ ((page ≤ x) × (x < page + 2 ^ k)))
          ↔ (IsFreePage merged x ⊎ ((root ≤ x) × (x < root + 2 ^ (k + 1))))
    step_pages x = (
      λ h. elim h [
        | inl free ↦ elim (dec_lt x buddy) [
          | yes below ↦ inl ((taken.free x).1 (free, inl below))
          | no above ↦ elim (dec_lt x (buddy + 2 ^ k)) [
            | yes within ↦ inr (omega (arith, halves.1), omega (arith, halves.1, double k))
            | no past ↦ inl ((taken.free x).1 (free, inr (omega arith)))
          ]
        ]
        | inr (lo, hi) ↦ inr (omega (arith, halves.1), omega (arith, halves.1, double k))
      ],
      λ h. elim h [
        | inl free ↦ inl ((taken.free x).0 free).0
        | inr (lo, hi) ↦ elim (dec_lt x page) [
          | yes below ↦
              inl (k, buddy, buddy-IsFree, omega (arith, halves.1), omega (arith, halves.1))
          | no above ↦ elim (dec_lt x (page + 2 ^ k)) [
            | yes within ↦ inr (omega arith, within)
            | no past ↦
                inl (
                  k,
                  buddy,
                  buddy-IsFree,
                  omega (arith, halves.1),
                  omega (arith, halves.1, double k),
                )
          ]
        ]
      ],
    )

    same_others : (merged.metadata ≡ pfa.metadata) × (merged.lock ≡ pfa.lock)
    unfolding remove_free_entry buddy_bitmap_set_bit_locked
    same_others = (refl, refl)

    step-Merged : Merged pfa merged k page (k + 1) root
    step-Merged = record {
      inv = taken.inv;
      same_base = taken.same_base;
      same_count = taken.same_count;
      same_metadata = same_others.0;
      same_lock = same_others.1;
      block = root-IsBlock;
      allocated = root-IsAllocated;
      fewer = λ j q f.
          (still-IsFree lists V inv buddy-IsFree.0 (omega arith) (λ e. absurd (omega arith))
            (remove-Change lists V pfa inv k buddy buddy-IsFree) j q refl f).0;
      pages = step_pages;
    }

    step_eq :
        (fuel : ℕ)
        → merge_up lists V (suc fuel) k page pfa ≡ merge_up lists V fuel (k + 1) root merged
    unfolding merge_up get_pfa_free_entry_for_page remove_free_entry buddy_bitmap_set_bit_locked
        buddy_bitmap_get_bit_locked
    step_eq fuel =
        rw
          (
            lt→ltb k (buddy_levels - 1) lt,
            set,
            lt→ltb (sub32 buddy pfa.page_base) pfa.page_count
                (omega (arith, buddy-IsFree.0, inv.small, one-le-pow k 2)),
          )
          refl

  Merged-refl :
      (pfa : Pfa Store) (k p : ℕ)
      → Inv lists V pfa
      → IsBlock pfa k p
      → IsAllocated pfa k p
      → Merged pfa pfa k p k p
  Merged-refl pfa k p inv block fresh = record {
    inv = inv;
    same_base = refl;
    same_count = refl;
    same_metadata = refl;
    same_lock = refl;
    block = block;
    allocated = fresh;
    fewer = λ j q f. f;
    pages = λ x. (λ h. h, λ h. h);
  }

  Merged-trans :
      (pfa pfa' pfa'' : Pfa Store) (i x j y k z : ℕ)
      → Merged pfa pfa' i x j y
      → Merged pfa' pfa'' j y k z
      → Merged pfa pfa'' i x k z
  Merged-trans pfa pfa' pfa'' i x j y k z m n = record {
    inv = n.inv;
    same_base = n.same_base ∙ m.same_base;
    same_count = n.same_count ∙ m.same_count;
    same_metadata = n.same_metadata ∙ m.same_metadata;
    same_lock = n.same_lock ∙ m.same_lock;
    block = n.block;
    allocated = n.allocated;
    fewer = λ j q f. m.fewer j q (n.fewer j q f);
    pages = λ t. (λ h. (n.pages t).0 ((m.pages t).0 h), λ h. (m.pages t).1 ((n.pages t).1 h));
  }

  stop_eq :
      (fuel k page : ℕ) (pfa : Pfa Store)
      → ((k ≡ 5)
          ⊎ (get_bit pfa.page_base pfa.buddy_bitmaps (get_buddy_page_id_for_page page k) k ≡ 0))
      → merge_up lists V (suc fuel) k page pfa ≡ ok (k, page, pfa)
  unfolding merge_up buddy_bitmap_get_bit_locked
  stop_eq fuel k page pfa (inl top) = rw (le→ltb_false k (buddy_levels - 1) (omega arith))
  stop_eq fuel k page pfa (inr clear) = rw clear (ground arith)

  -- From a state that satisfies the invariant, merging upwards from a block of managed pages,
  -- aligned for its level, none of which is free, ends within one more round than there are levels
  -- above it, with no assertion failed. The block that it ends with is again managed, aligned, and
  -- without a free page. Together with the pages still free it covers what the first block and the
  -- pages free before covered; the invariant holds, and lock and metadata are as they were. It ends
  -- at the top level, or where the buddy's bit is clear.
  pub merge_up_lem :
      (fuel k page : ℕ) (pfa : Pfa Store)
      → Inv lists V pfa
      → IsBlock pfa k page
      → IsAllocated pfa k page
      → 5 - k < fuel
      → (j : ℕ) × (p : ℕ) × (pfa' : Pfa Store) × (merge_up lists V fuel k page pfa
          ≡ ok (j, p, pfa'))
        × Merged pfa pfa' k page j p
        × ((j ≡ 5)
            ⊎ (get_bit pfa'.page_base pfa'.buddy_bitmaps (get_buddy_page_id_for_page p j) j ≡ 0))
  merge_up_lem zero k page pfa inv block fresh enough = absurd (omega arith)
  merge_up_lem (suc fuel) k page pfa inv block fresh enough = elim (dec_lt k 5) [
    | no top ↦ (
      k,
      page,
      pfa,
      stop_eq fuel k page pfa (inl (omega (arith, block))),
      Merged-refl pfa k page inv block fresh,
      inl (omega (arith, block)),
    )
    | yes lt ↦
        elim (ℕ_discrete
          (get_bit pfa.page_base pfa.buddy_bitmaps (get_buddy_page_id_for_page page k) k) 0) [
            | yes clear ↦ (
              k,
              page,
              pfa,
              stop_eq fuel k page pfa (inr clear),
              Merged-refl pfa k page inv block fresh,
              inr clear,
            )
            | no other ↦
                let set : get_bit pfa.page_base pfa.buddy_bitmaps
                      (get_buddy_page_id_for_page page k) k
                    ≡ 1 =
                  omega (
                    arith,
                    get_bit-lt pfa.page_base pfa.buddy_bitmaps (get_buddy_page_id_for_page page k)
                        k,
                  ) in
                let m = step-Merged pfa inv k page lt block fresh set in
                let (j, p, pfa', e, n, stop) =
                  merge_up_lem fuel (k + 1) (get_root_buddy_page_id_for_page page k)
                    (merged pfa inv k page lt block fresh set) m.inv m.block m.allocated
                    (omega arith) in
                (
                  j,
                  p,
                  pfa',
                  step_eq pfa inv k page lt block fresh set fuel ∙ e,
                  Merged-trans pfa _ pfa' k page (k + 1) (get_root_buddy_page_id_for_page page k) j
                      p m n,
                  stop,
                )
          ]
  ]

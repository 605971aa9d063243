-- ===== src/Pfa/Invariant/Changes.antt =====
-- One entry changes its state: in the lists and in the bitmap. That keeps the invariant if no other
-- free entry shares its pages.
use swink.Common.{
  ℕ, ◌+◌, ◌*◌, ◌%◌, ◌^◌, ◌≤◌, ◌<◌, ◌≡◌, ◌⊎◌, inl, inr, ◌&&◌, arith, count, ◌==◌, if◌then◌else◌,
  Bool-cases, ◌↔◌,
}
use native.Mathlib.Nat.{one-le-pow}
use swink.LinkedLists.{LinkedLists}
use swink.Pmap.{pa_to_kva}
use swink.Pfa.Levels.Bounds.{by_level}
use swink.Pfa.State.{Pfa, get_bit}
use swink.Pfa.State.Bits.{Starts}
use swink.Pfa.Insert.{free_entry_kva}
use swink.Pfa.Invariant.Defs.{IsBlock, IsFree, Apart, IsAllocated, Inv}

pub free_entry_kva_lem :
    (V p : ℕ) → p < 2 ^ 20 → V + p * 2 ^ 12 < 2 ^ 64 → free_entry_kva V p ≡ V + p * 2 ^ 12
unfolding free_entry_kva pa_to_kva
free_entry_kva_lem V p hp hV = omega arith

half_aligned : (j q : ℕ) → j < 5 → q % (2 * 2 ^ j) ≡ 2 ^ j → q % 2 ^ j ≡ 0
half_aligned j q lt =
    by_level (λ j. q % (2 * 2 ^ j) ≡ 2 ^ j → q % 2 ^ j ≡ 0) (λ h. omega arith) (λ h. omega arith)
      (λ h. omega arith) (λ h. omega arith) (λ h. omega arith) (λ h. omega arith) j (omega arith)

module _ (lists : LinkedLists) (V : ℕ) where
  open lists use {Store, contents}

  pub record Change (pfa pfa' : Pfa Store) (k p v : ℕ) : Type 0 where
    pub same_base : pfa'.page_base ≡ pfa.page_base
    pub same_count : pfa'.page_count ≡ pfa.page_count
    pub bits :
        (j q : ℕ)
        → Starts pfa.page_base j q
        → get_bit pfa'.page_base pfa'.buddy_bitmaps q j
          ≡ (if k == j && p == q then v else get_bit pfa.page_base pfa.buddy_bitmaps q j)
    pub counts :
        (j e : ℕ)
        → count e (contents pfa'.buddy_lists j)
          ≡ (if k == j && free_entry_kva V p == e then v else count e (contents pfa.buddy_lists j))

  module _ {pfa pfa' : Pfa Store} {k p v : ℕ} (inv : Inv lists V pfa) (block : IsBlock pfa k p)
      (small : v < 2) (fresh : v ≡ 1 → IsAllocated pfa k p) (c : Change pfa pfa' k p v) where
    same-IsBlock : (j q : ℕ) → IsBlock pfa' j q → IsBlock pfa j q
    same-IsBlock j q b = ground (arith, c.same_base, c.same_count)

    pub old-IsFree : (j q : ℕ) → IsFree pfa' j q → ((v ≡ 1) × (j ≡ k) × (q ≡ p)) ⊎ IsFree pfa j q
    old-IsFree j q f = ground (arith, c.same_base, c.same_count, inv.small, c.bits j q)

    Change-linked :
        (j q : ℕ)
        → IsBlock pfa' j q
        → count (free_entry_kva V q) (contents pfa'.buddy_lists j)
          ≡ get_bit pfa'.page_base pfa'.buddy_bitmaps q j
    Change-linked j q b = ground (
      arith,
      c.same_base,
      c.same_count,
      inv.small,
      inv.mapped,
      c.bits j q,
      c.counts j (free_entry_kva V q),
      inv.linked j q,
      free_entry_kva_lem V p,
      free_entry_kva_lem V q,
      one-le-pow j 2,
      one-le-pow k 2,
    )

    Change-entries :
        (j e : ℕ)
        → 0 < count e (contents pfa'.buddy_lists j)
        → (q : ℕ) × IsBlock pfa' j q × (e ≡ free_entry_kva V q)
    Change-entries j e h = elim (Bool-cases (k == j && free_entry_kva V p == e)) [
      | inl here ↦ (p, ground (arith, c.same_base, c.same_count), ground arith)
      | inr elsewhere ↦
          let (q, b, same) = inv.entries j e (ground (arith, c.counts j e)) in
          (q, ground (arith, c.same_base, c.same_count), same)
    ]

    Change-Apart :
        (i x j q : ℕ) → IsFree pfa' i x → IsFree pfa' j q → ((i ≡ j) × (x ≡ q)) ⊎ Apart i x j q
    Change-Apart i x j q f g = elim (old-IsFree i x f) [
      | inl (is_new, ei, ex) ↦ elim (old-IsFree j q g) [
        | inl (_, ej, eq) ↦ inl (omega arith, omega arith)
        | inr old ↦ ground (arith, fresh is_new j q old)
      ]
      | inr old_x ↦ elim (old-IsFree j q g) [
        | inl (is_new, ej, eq) ↦ ground (arith, fresh is_new i x old_x)
        | inr old ↦ inv.apart i x j q old_x old
      ]
    ]

    Change-edge :
        (j q : ℕ)
        → j < 5
        → pfa'.page_base ≤ q
        → q ≤ pfa'.page_base + pfa'.page_count
        → pfa'.page_base + pfa'.page_count < q + 2 ^ j
        → q % (2 * 2 ^ j) ≡ 2 ^ j
        → get_bit pfa'.page_base pfa'.buddy_bitmaps q j ≡ 0
    Change-edge j q lt lo hi past al =
        ground (
          arith,
          c.same_base,
          c.same_count,
          c.bits j q,
          inv.small,
          inv.edge j q,
          half_aligned j q lt,
        )

    pub Change-Inv : Inv lists V pfa'
    Change-Inv = record {
      mapped = omega (arith, c.same_base, c.same_count, inv.mapped);
      base_aligned = omega (arith, c.same_base, inv.base_aligned);
      small = omega (arith, c.same_base, c.same_count, inv.small);
      linked = Change-linked;
      entries = Change-entries;
      apart = Change-Apart;
      edge = Change-edge;
    }

    -- Every other entry is free after the change exactly if it was before.
    pub other-IsFree : (j q : ℕ) → ¬ ((k ≡ j) × (p ≡ q)) → (IsFree pfa' j q ↔ IsFree pfa j q)
    other-IsFree j q other = (
      λ f. ground (arith, c.same_base, c.same_count, inv.small, c.bits j q),
      λ f. ground (arith, c.same_base, c.same_count, inv.small, c.bits j q),
    )

    pub changed-IsFree : IsFree pfa' k p ↔ (v ≡ 1)
    changed-IsFree = (
      λ f. ground (arith, c.same_base, c.same_count, inv.small, c.bits k p),
      λ f. ground (arith, c.same_base, c.same_count, inv.small, c.bits k p),
    )

    pub IsFree-kept : (j q : ℕ) → v ≡ 1 → IsFree pfa j q → IsFree pfa' j q
    IsFree-kept j q one f =
        ground (arith, c.same_base, c.same_count, inv.small, c.bits j q, one-le-pow j 2)

    pub still-IsFree :
        (j q : ℕ) → v ≡ 0 → IsFree pfa' j q → IsFree pfa j q × (¬ ((k ≡ j) × (p ≡ q)))
    still-IsFree j q none f =
        let starts : Starts pfa.page_base j q =
          ground (arith, c.same_base, c.same_count, inv.small, one-le-pow j 2) in
        (
          ground (arith, c.same_base, c.same_count, c.bits j q starts),
          λ same. ground (arith, c.bits j q starts),
        )

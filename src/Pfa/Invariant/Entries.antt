-- ===== src/Pfa/Invariant/Entries.antt =====
-- The two changes that the allocator makes: an entry goes on its list, or comes off it.
use swink.Common.{
  ℕ, ◌<◌, ◌≡◌, ◌≢◌, refl, arith, count, ◌==◌, ℕ_discrete, count-cons_if, count-erase_if, ap, ◌∙◌,
}
use native.Mathlib.Nat.{one-le-pow}
use swink.LinkedLists.{LinkedLists}
use swink.Pfa.State.{Pfa, buddy_bitmap_set_bit_locked}
use swink.Pfa.State.Bits.{get_bit-set_bit, get_bit-lt, Starts}
use swink.Pfa.Insert.{free_entry_kva, push_free_entry, remove_free_entry}
use swink.Pfa.Invariant.Defs.{IsBlock, IsFree, IsAllocated, Inv}
use swink.Pfa.Invariant.Changes.{Change, free_entry_kva_lem}

module _ (lists : LinkedLists) (V : ℕ) where
  open lists use {Store, contents, push_front_lem, remove_lem}

  module _ (pfa : Pfa Store) (inv : Inv lists V pfa) where
    -- What a list holds is a free entry.
    pub listed-IsFree :
        (j e : ℕ)
        → 0 < count e (contents pfa.buddy_lists j)
        → (q : ℕ) × IsFree pfa j q × (e ≡ free_entry_kva V q)
    listed-IsFree j e h =
        let (q, b, same) = inv.entries j e h in
        (
          q,
          (b, ground (arith, inv.linked j q b, get_bit-lt pfa.page_base pfa.buddy_bitmaps q j)),
          same,
        )

    same_page :
        (p q k j : ℕ)
        → IsBlock pfa k p
        → IsBlock pfa j q
        → free_entry_kva V p ≡ free_entry_kva V q
        → p ≡ q
    same_page p q k j b c same = omega (
      arith,
      inv.small,
      inv.mapped,
      free_entry_kva_lem V p,
      free_entry_kva_lem V q,
      one-le-pow j 2,
      one-le-pow k 2,
    )

    allocated-count :
        (k p j : ℕ)
        → IsBlock pfa k p
        → IsAllocated pfa k p
        → count (free_entry_kva V p) (contents pfa.buddy_lists j) ≡ 0
    allocated-count k p j b fresh =
        elim (ℕ_discrete (count (free_entry_kva V p) (contents pfa.buddy_lists j)) 0) [
          | yes none ↦ none
          | no some ↦
              let (q, f, same) = listed-IsFree j (free_entry_kva V p) (omega arith) in
              absurd (
                ground (
                  arith,
                  same_page p q k j b f.0 same,
                  fresh j q f,
                  one-le-pow j 2,
                  one-le-pow k 2,
                ))
        ]

    free-count :
        (k p j : ℕ)
        → IsFree pfa k p
        → k ≢ j
        → count (free_entry_kva V p) (contents pfa.buddy_lists j) ≡ 0
    free-count k p j f other =
        elim (ℕ_discrete (count (free_entry_kva V p) (contents pfa.buddy_lists j)) 0) [
          | yes none ↦ none
          | no some ↦
              let (q, g, same) = listed-IsFree j (free_entry_kva V p) (omega arith) in
              absurd (
                ground (
                  arith,
                  same_page p q k j f.0 g.0 same,
                  inv.apart k p j q f g,
                  one-le-pow j 2,
                  one-le-pow k 2,
                ))
        ]

    starts : (k p : ℕ) → IsBlock pfa k p → Starts pfa.page_base k p
    starts k p b = ground (arith, inv.small, one-le-pow k 2)

    pub push-Change :
        (k p : ℕ)
        → IsBlock pfa k p
        → IsAllocated pfa k p
        → Change lists V pfa (push_free_entry lists (free_entry_kva V p) p k pfa) k p 1
    unfolding push_free_entry buddy_bitmap_set_bit_locked
    push-Change k p b fresh = record {
      same_base = refl;
      same_count = refl;
      bits = λ j q s.
          get_bit-set_bit pfa.page_base pfa.buddy_bitmaps p k 1 q j inv.base_aligned b.0
            (starts k p b) s (omega arith);
      counts = λ j e.
          ap (count e) (
            push_front_lem pfa.buddy_lists k (free_entry_kva V p) j
              (λ i. allocated-count k p i b fresh))
          ∙ count-cons_if (k == j) e (free_entry_kva V p) (contents pfa.buddy_lists j)
              (allocated-count k p j b fresh);
    }

    pub remove-Change :
        (k p : ℕ)
        → IsFree pfa k p
        → Change lists V pfa (remove_free_entry lists (free_entry_kva V p) p k pfa) k p 0
    unfolding remove_free_entry buddy_bitmap_set_bit_locked
    remove-Change k p f = record {
      same_base = refl;
      same_count = refl;
      bits = λ j q s.
          get_bit-set_bit pfa.page_base pfa.buddy_bitmaps p k 0 q j inv.base_aligned f.0.0
            (starts k p f.0) s (omega arith);
      counts = λ j e.
          ap (count e) (
            remove_lem pfa.buddy_lists k (free_entry_kva V p) j (inv.linked k p f.0 ∙ f.1)
              (λ i. free-count k p i f))
          ∙ count-erase_if (k == j) e (free_entry_kva V p) (contents pfa.buddy_lists j)
              (λ here. ground (arith, inv.linked k p f.0));
    }

-- ===== src/Pfa/Init/Empty.antt =====
-- The state that pmap_pfa_init starts to insert pages into: nothing is free.
use swink.Common.{
  ℕ, zero, suc, ◌+◌, ◌*◌, ◌^◌, ◌≤◌, ◌<◌, ◌≡◌, refl, sym, ◌∙◌, ap, arith, [], ltb, lt→ltb,
  if◌then◌else◌, count, dec_lt,
}
use native.Mathlib.Nat.{one-le-pow, zero-div}
use swink.LinkedLists.{LinkedLists}
use swink.Pfa.Levels.{buddy_levels}
use swink.Pfa.State.{Pfa, get_bit, buddy_bitmap_page_index, buddy_bitmap_page_offset}
use swink.Pfa.State.Slots.{get_slot_bit_lem}
use swink.Pfa.Insert.{free_entry_kva}
use swink.Pfa.Invariant.{IsBlock, IsFreePage, Inv}
use swink.Pfa.Init.{Layout, init_empty, init_lists, clear_bitmaps, bitmap_slots}
use swink.Pfa.Init.Bounds.{page_index_lt, buddy_index_lt}

-- A slot that the `memset` covers has no bit set.
clear_bit :
    (base n p k : ℕ) (bitmaps : ℕ → ℕ → ℕ)
    → buddy_bitmap_page_index base p k < bitmap_slots n k
    → get_bit base (clear_bitmaps n bitmaps) p k ≡ 0
unfolding get_bit
clear_bit base n p k bitmaps lt =
    rw (lt→ltb (buddy_bitmap_page_index base p k) (bitmap_slots n k) lt) (
      omega (
        arith,
        get_slot_bit_lem 0 (buddy_bitmap_page_offset base p k),
        zero-div (2 ^ buddy_bitmap_page_offset base p k),
      ))

count_empty : (e : ℕ) → count e [] ≡ 0
unfolding count
count_empty e = refl

module _ (lists : LinkedLists) (V : ℕ) where
  open lists use {Store, contents, list_init, init_lem}

  init_lists-contents :
      (levels k : ℕ) (s : Store)
      → contents (init_lists lists levels s) k ≡ (if ltb k levels then [] else contents s k)
  unfolding init_lists
  init_lists-contents zero k s = ground arith
  init_lists-contents (suc levels) k s =
      ground (arith, init_lem (init_lists lists levels s) levels k, init_lists-contents levels k s)

  module _ (l : Layout) (n : ℕ) (memory : Pfa Store) (mapped : (0 < V) × (V + n * 2 ^ 12 ≤ 2 ^ 64))
      (small : n ≤ 2 ^ 20)
      (unlinked : (k : ℕ) → buddy_levels ≤ k → contents memory.buddy_lists k ≡ []) where
    all_empty : (k : ℕ) → contents (init_empty lists l 0 n memory).buddy_lists k ≡ []
    unfolding init_empty
    all_empty k = elim (dec_lt k buddy_levels) [
      | yes lt ↦
          init_lists-contents buddy_levels k memory.buddy_lists ∙ rw (lt→ltb k buddy_levels lt)
      | no past ↦ ground (arith, init_lists-contents buddy_levels k memory.buddy_lists, unlinked k)
    ]

    no_bits :
        (k p : ℕ)
        → IsBlock (init_empty lists l 0 n memory) k p
        → get_bit
            (init_empty lists l 0 n memory).page_base
            (init_empty lists l 0 n memory).buddy_bitmaps
            p
            k
          ≡ 0
    unfolding init_empty
    no_bits k p b =
        clear_bit 0 n p k memory.buddy_bitmaps
          (page_index_lt 0 n p k b.0 b.1 (omega (arith, b, one-le-pow k 2)) (omega arith))

    pub init_empty-Inv : Inv lists V (init_empty lists l 0 n memory)
    unfolding init_empty
    init_empty-Inv = record {
      mapped = omega (arith, mapped);
      base_aligned = omega arith;
      small = omega arith;
      linked = λ k p b.
          ap (count (free_entry_kva V p)) (all_empty k)
          ∙ count_empty (free_entry_kva V p)
          ∙ sym (no_bits k p b);
      entries = λ k e h. absurd (omega (arith, h, ap (count e) (all_empty k), count_empty e));
      apart = λ k p j q f g. absurd (omega (arith, f.1, no_bits k p f.0));
      edge = λ k p lt lo hi past al.
          clear_bit 0 n p k memory.buddy_bitmaps
            (buddy_index_lt 0 n p k lt (omega arith) lo hi (omega arith) al);
    }

    pub init_empty_none : (x : ℕ) → ¬ IsFreePage (init_empty lists l 0 n memory) x
    init_empty_none x (k, p, f, lo, hi) = omega (arith, f.1, no_bits k p f.0)

-- ===== src/Pfa/Samples/Tops.antt =====
-- States of the page-frame allocator in which some blocks of the top level are free, and no other
-- page.
use swink.Common.{
  ℕ, suc, ◌+◌, ◌*◌, ◌/◌, ◌^◌, ◌≤◌, ◌<◌, ◌≡◌, ◌↔◌, refl, ◌∙◌, ap, inl, inr, List, [], ◌∷◌, Bool,
  true, ◌&&◌, ◌==◌, leb, arith, length, count, count-cons, count_nil, ℕ_discrete,
}
use native.Mathlib.Nat.{one-le-pow}
use swink.LinkedLists.{function_lists}
use swink.Synchs.{Lock, lock_init}
use swink.Pfa.State.{Pfa, buddy_bitmap_set_bit_locked}
use swink.Pfa.Insert.{free_entry_kva, push_free_entry}
use swink.Pfa.Insert.Push.{push-IsMerged}
use swink.Pfa.Insert.Range.{push-Freed, block-IsAllocated}
use swink.Pfa.Invariant.{IsBlock, IsFreePage, IsAllocated, IsMerged, Inv}
use swink.Pfa.Init.{layout, init_empty, init_lists}
use swink.Pfa.Init.Empty.{init_empty-Inv, init_empty_none}
use swink.Pfa.Samples.{physmap, blank}

-- `n` managed pages, and the blocks in the order in which they come to be free.
unfoldable pub tops : ℕ → List ℕ → Pfa (ℕ → List ℕ)
tops n [] = init_empty function_lists (layout physmap n 0) 0 n blank
tops n (i ∷ blocks) =
    push_free_entry function_lists (free_entry_kva physmap (i * 32)) (i * 32) 5 (tops n blocks)

-- Different blocks of the managed pages.
unfoldable pub are_blocks : ℕ → List ℕ → Bool
are_blocks n [] = true
are_blocks n (i ∷ blocks) = (count i blocks == 0) && (leb (i * 32 + 32) n && are_blocks n blocks)

pub record AreTops (n : ℕ) (blocks : List ℕ) (pfa : Pfa (ℕ → List ℕ)) : Type 0 where
  pub inv : Inv function_lists physmap pfa
  pub merged : IsMerged pfa
  pub unlocked : pfa.lock.semaphore.value ≡ 1
  pub base : pfa.page_base ≡ 0
  pub pages : pfa.page_count ≡ n
  pub free : (x : ℕ) → IsFreePage pfa x ↔ (0 < count (x / 32) blocks)
  pub entries : length (pfa.buddy_lists 5) ≡ length blocks

none-AreTops :
    (n : ℕ) → n ≤ 2 ^ 20 → AreTops n [] (init_empty function_lists (layout physmap n 0) 0 n blank)
none-AreTops n small =
    let none : (x : ℕ) → ¬ IsFreePage (init_empty function_lists (layout physmap n 0) 0 n blank) x =
      init_empty_none function_lists physmap (layout physmap n 0) n blank (omega arith, omega arith)
        small (λ k h. refl) in
    record {
      inv =
          init_empty-Inv function_lists physmap (layout physmap n 0) n blank
            (omega arith, omega arith) small (λ k h. refl);
      merged = λ k q lt f g. absurd (none q (k, q, f, omega arith, omega (arith, one-le-pow k 2)));
      unlocked = unfold init_empty lock_init in refl;
      base = unfold init_empty in refl;
      pages = unfold init_empty in refl;
      free = λ x. (λ h. absurd (none x h), λ h. absurd (omega (arith, count_nil (x / 32) [] refl)));
      entries = unfold init_empty init_lists in refl;
    }

cons-AreTops :
    (n i : ℕ) (blocks : List ℕ) (pfa : Pfa (ℕ → List ℕ))
    → count i blocks ≡ 0
    → i * 32 + 32 ≤ n
    → AreTops n blocks pfa
    → AreTops n
        (i ∷ blocks)
        (push_free_entry function_lists (free_entry_kva physmap (i * 32)) (i * 32) 5 pfa)
cons-AreTops n i blocks pfa other fits t =
    let block : IsBlock pfa 5 (i * 32) =
      (omega arith, omega (arith, t.base), omega (arith, t.base, t.pages), omega arith) in
    let fresh : IsAllocated pfa 5 (i * 32) =
      block-IsAllocated function_lists physmap pfa 5 (i * 32) (i * 32) (i * 32 + 32) (omega arith)
        (omega arith) (omega arith) none in
    let f = push-Freed function_lists physmap pfa 5 (i * 32) t.inv block fresh in
    record {
      inv = f.inv;
      merged =
          push-IsMerged function_lists physmap pfa t.inv 5 (i * 32) block fresh (inl refl) t.merged;
      unlocked = ap (λ (l : Lock). l.semaphore.value) f.same_lock ∙ t.unlocked;
      base = f.same_base ∙ t.base;
      pages = f.same_count ∙ t.pages;
      free = λ x. (
        λ h. elim (f.only x h) [
          | inl old ↦ ground (arith, (t.free x).0 old, count-cons (x / 32) i blocks)
          | inr (lo, hi) ↦
              let here : i ≡ x / 32 = omega (arith, lo, hi) in
              ground (arith, here, count-cons (x / 32) i blocks)
        ],
        λ h. elim (ℕ_discrete i (x / 32)) [
          | yes here ↦ f.freed x (omega arith) (omega arith)
          | no there ↦ f.kept x ((t.free x).1 (ground (arith, count-cons (x / 32) i blocks)))
        ],
      );
      entries = unfold push_free_entry buddy_bitmap_set_bit_locked in ap suc t.entries;
    }
  where
    none : (x : ℕ) → i * 32 ≤ x → x < i * 32 + 32 → ¬ IsFreePage pfa x
    none x lo hi h =
        let here : x / 32 ≡ i = omega arith in
        omega (arith, (t.free x).0 h, ap (λ t. count t blocks) here)

pub tops-AreTops :
    (n : ℕ) (blocks : List ℕ)
    → n ≤ 2 ^ 20
    → are_blocks n blocks ≡ true
    → AreTops n blocks (tops n blocks)
unfolding tops are_blocks
tops-AreTops n [] small are = none-AreTops n small
tops-AreTops n (i ∷ blocks) small are =
    let fits : (count i blocks ≡ 0) × (i * 32 + 32 ≤ n) × (are_blocks n blocks ≡ true) =
      ground arith in
    cons-AreTops n i blocks (tops n blocks) fits.0 fits.1 (tops-AreTops n blocks small fits.2)

-- ===== src/Pfa/Samples.antt =====
-- Small states of the page-frame allocator: 64 managed pages, with a free entry or none.
pub mod Tops
use swink.Common.{ℕ, ◌+◌, ◌^◌, ◌≤◌, ◌<◌, ◌≡◌, refl, inl, inr, ◌∙◌, ap, arith, dec_le, List, []}
use swink.LinkedLists.{function_lists}
use native.Mathlib.Nat.{one-le-pow, pow-le-pow_right}
use swink.Synchs.{Lock, held, lock_init}
use swink.Pfa.State.{
  Pfa, set_bit, get_bit, set_slot_bit, get_slot_bit, buddy_bitmap_page_index,
  buddy_bitmap_page_offset, buddy_bitmap_set_bit_locked,
}
use swink.Pfa.Insert.{free_entry_kva, push_free_entry}
use swink.Pfa.Insert.Push.{push-IsMerged}
use swink.Pfa.Insert.Range.{Freed, push-Freed, block-IsAllocated}
use swink.Pfa.Invariant.{IsFree, IsFreePage, IsAllocated, IsMerged, Inv}
use swink.Pfa.Init.{layout, init_empty, bitmap_slots}
use swink.Pfa.Init.Empty.{init_empty-Inv, init_empty_none}

abbrev pub physmap : ℕ
physmap = 2 ^ 39

abbrev pub blank : Pfa (ℕ → List ℕ)
blank = record {
  lock = held;
  page_base = 0;
  page_count = 0;
  buddy_lists = λ level. [];
  buddy_bitmaps = λ level i. 0;
  metadata = λ i. 0;
}

abbrev pub all_taken : Pfa (ℕ → List ℕ)
all_taken = init_empty function_lists (layout physmap 64 0) 0 64 blank

pub all_taken-Inv : Inv function_lists physmap all_taken
all_taken-Inv =
    init_empty-Inv function_lists physmap (layout physmap 64 0) 64 blank (omega arith, omega arith)
      (omega arith) (λ k h. refl)

pub all_taken-none : (x : ℕ) → ¬ IsFreePage all_taken x
all_taken-none =
    init_empty_none function_lists physmap (layout physmap 64 0) 64 blank (omega arith, omega arith)
      (omega arith) (λ k h. refl)

pub all_taken-count : (all_taken.page_base ≡ 0) × (all_taken.page_count ≡ 64)
unfolding init_empty
all_taken-count = (refl, refl)

pub all_taken-lock : all_taken.lock.semaphore.value ≡ 1
unfolding init_empty lock_init
all_taken-lock = refl

-- The last 32 pages are one free entry of the top level.
abbrev pub sample : Pfa (ℕ → List ℕ)
sample = push_free_entry function_lists (free_entry_kva physmap 32) 32 5 all_taken

pub sample-Freed : Freed function_lists physmap all_taken sample 32 64
sample-Freed =
    push-Freed function_lists physmap all_taken 5 32 all_taken-Inv
      (omega arith, omega (arith, all_taken-count), omega (arith, all_taken-count), omega arith)
      (λ j q f. absurd (all_taken-none q (j, q, f, omega arith, omega (arith, one-le-pow j 2))))

pub sample-count : (sample.page_base ≡ 0) × (sample.page_count ≡ 64)
sample-count =
    (sample-Freed.same_base ∙ all_taken-count.0, sample-Freed.same_count ∙ all_taken-count.1)

pub sample-lock : sample.lock.semaphore.value ≡ 1
sample-lock = ap (λ (l : Lock). l.semaphore.value) sample-Freed.same_lock ∙ all_taken-lock

-- Pages 0 to 31 of the sample are taken.
pub early : (x : ℕ) → x < 32 → ¬ IsFreePage sample x
early x lt h = elim (sample-Freed.only x h) [
  | inl old ↦ absurd (all_taken-none x old)
  | inr (lo, _) ↦ omega arith
]

pub early_block : (k p : ℕ) → k < 6 → p + 2 ^ k ≤ 32 → IsAllocated sample k p
early_block k p lt le =
    block-IsAllocated function_lists physmap sample k p 0 32 lt (omega arith) le
      (λ x lo hi h. early x hi h)

-- The sample with page 0 as a free entry of level 0 too.
abbrev pub single : Pfa (ℕ → List ℕ)
single = push_free_entry function_lists (free_entry_kva physmap 0) 0 0 sample

pub single-Freed : Freed function_lists physmap sample single 0 1
single-Freed =
    push-Freed function_lists physmap sample 0 0 sample-Freed.inv
      (omega arith, omega (arith, sample-count), omega (arith, sample-count), omega arith)
      (early_block 0 0 (omega arith) (omega arith))

pub single-count : (single.page_base ≡ 0) × (single.page_count ≡ 64)
single-count = (single-Freed.same_base ∙ sample-count.0, single-Freed.same_count ∙ sample-count.1)

pub single_next : IsAllocated single 0 1
single_next =
    block-IsAllocated function_lists physmap single 0 1 1 2 (omega arith) (omega arith)
      (omega arith)
      (λ x lo hi h. elim (single-Freed.only x h) [
        | inl old ↦ early x (omega arith) old
        | inr (_, past) ↦ omega arith
      ])

-- Pages 2 and 3 alone are free, as an entry of level 1.
abbrev pub pair : Pfa (ℕ → List ℕ)
pair = push_free_entry function_lists (free_entry_kva physmap 2) 2 1 all_taken

pub pair-Freed : Freed function_lists physmap all_taken pair 2 4
pair-Freed =
    push-Freed function_lists physmap all_taken 1 2 all_taken-Inv
      (omega arith, omega (arith, all_taken-count), omega (arith, all_taken-count), omega arith)
      (λ j q f. absurd (all_taken-none q (j, q, f, omega arith, omega (arith, one-le-pow j 2))))

pub pair-within : (x : ℕ) → IsFreePage pair x → (2 ≤ x) × (x < 4)
pair-within x h = elim (pair-Freed.only x h) [
  | inl old ↦ absurd (all_taken-none x old)
  | inr within ↦ within
]

pub pair-top : (j p : ℕ) → IsFree pair j p → j ≤ 1
pair-top j p f = elim (dec_le j 1) [
  | yes le ↦ le
  | no above ↦
      let four : 2 ^ 2 ≤ 2 ^ j = pow-le-pow_right (omega arith) {i = 2} {j = j} (omega arith) in
      omega (
        arith,
        four,
        pair-within p (j, p, f, omega arith, omega (arith, four)),
        pair-within (p + 3) (j, p, f, omega arith, omega (arith, four)),
      )
]

pub sample-IsFree : IsFree sample 5 32
sample-IsFree = (
  (omega arith, omega (arith, sample-count), omega (arith, sample-count), omega arith),
  unfold push_free_entry buddy_bitmap_set_bit_locked init_empty set_bit get_bit
        buddy_bitmap_page_index buddy_bitmap_page_offset set_slot_bit get_slot_bit bitmap_slots in
      refl,
)

pub pair-lock : pair.lock.semaphore.value ≡ 1
pair-lock = ap (λ (l : Lock). l.semaphore.value) pair-Freed.same_lock ∙ all_taken-lock

pub all_taken-IsMerged : IsMerged all_taken
all_taken-IsMerged k q lt f g =
    absurd (all_taken-none q (k, q, f, omega arith, omega (arith, one-le-pow k 2)))

pub sample-IsMerged : IsMerged sample
sample-IsMerged =
    push-IsMerged function_lists physmap all_taken all_taken-Inv 5 32
      (omega arith, omega (arith, all_taken-count), omega (arith, all_taken-count), omega arith)
      (λ j q f. absurd (all_taken-none q (j, q, f, omega arith, omega (arith, one-le-pow j 2))))
      (inl refl) all_taken-IsMerged

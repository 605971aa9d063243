-- ===== src/Pfa/SequenceTests.antt =====
-- The theorems on sequences of requests and frees, and on the lists, at concrete inputs.
use swink.Common.{
  Result, diverges, inl, inr, ◌∙◌, ap, sym, dec_lt, ◌++◌, ◌-◌, [], ◌∷◌, count, ℕ, ◌+◌, ◌*◌, ◌/◌,
  ◌^◌, ◌≤◌, ◌<◌, ◌≡◌, refl, ◌⊎◌, ◌↔◌, arith, ok, panic, List,
}
use swink.LinkedLists.{function_lists}
use swink.Pmap.{page_size, phys_addr_invalid}
use swink.Pfa.State.{Pfa}
use swink.Pfa.Invariant.{IsFree, IsFreePage, IsMerged, Inv}
use swink.Pfa.Alloc.{alloc_contig}
use swink.Pfa.Free.{free_contig}
use swink.Pfa.Unique.{same_entries}
use swink.Pfa.Insert.{free_entry_kva}
use swink.Pfa.Debug.Walks.{contains, contains_lem}
use swink.Pfa.Ledger.{opening}
use swink.Pfa.Ledger.Steps.{allocate_step}
use swink.Pfa.Reached.{Block, owners, Reached, none_out, allocated}
use swink.Pfa.Reached.Progress.{reached_lem, reached_progress, reached_closed}
use native.Mathlib.Nat.{one-le-pow}
use swink.Pfa.Samples.Tops.{tops, are_blocks, AreTops, tops-AreTops}
use swink.Pfa.Samples.{
  physmap, sample, sample-Freed, sample-count, sample-lock, sample-IsFree, sample-IsMerged, early,
}

abbrev up : List ℕ
up = 0 ∷ 1 ∷ []

abbrev down : List ℕ
down = 1 ∷ 0 ∷ []

abbrev low_first : Pfa (ℕ → List ℕ)
low_first = tops 64 up

abbrev high_first : Pfa (ℕ → List ℕ)
high_first = tops 64 down

low_first-AreTops : AreTops 64 up low_first
unfolding are_blocks count
low_first-AreTops = tops-AreTops 64 up (omega arith) refl

high_first-AreTops : AreTops 64 down high_first
unfolding are_blocks count
high_first-AreTops = tops-AreTops 64 down (omega arith) refl

either_way : (x : ℕ) → count x up ≡ count x down
unfolding count
either_way x = ground arith

same_pages : (x : ℕ) → IsFreePage low_first x ↔ IsFreePage high_first x
same_pages x = (
  λ h.
      (high_first-AreTops.free x).1
        (omega (arith, (low_first-AreTops.free x).0 h, either_way (x / 32))),
  λ h.
      (low_first-AreTops.free x).1
        (omega (arith, (high_first-AreTops.free x).0 h, either_way (x / 32))),
)

same_entries_example :
    ((k p : ℕ) → IsFree low_first k p ↔ IsFree high_first k p)
    × ((k e : ℕ)
        → count e (function_lists.contents low_first.buddy_lists k)
          ≡ count e (function_lists.contents high_first.buddy_lists k))
same_entries_example =
    same_entries function_lists physmap low_first high_first low_first-AreTops.inv
      high_first-AreTops.inv low_first-AreTops.merged high_first-AreTops.merged same_pages

-- The last 32 pages of the sample, all in one block.
abbrev whole_top : Block
whole_top = record { page = 32; count = 32 }

abbrev all_pages : ℕ
all_pages = 32

abbrev pfa_of : Result (ℕ × Pfa (ℕ → List ℕ)) → Pfa (ℕ → List ℕ)
pfa_of (ok (addr, pfa)) = pfa
pfa_of panic = sample
pfa_of diverges = sample

abbrev after_take : Pfa (ℕ → List ℕ)
after_take = pfa_of (alloc_contig function_lists physmap (page_size * all_pages) 1 sample)

sample-low : (x : ℕ) → IsFreePage sample x → (32 ≤ x) × (x < 64)
sample-low x (k, p, f, lo, hi) = elim (dec_lt x 32) [
  | yes below ↦ absurd (early x below (k, p, f, lo, hi))
  | no above ↦ (omega arith, omega (arith, f.0, sample-count))
]

taken_page : (k page : ℕ) → IsFree sample k page → 32 ≤ 2 ^ k → page ≡ 32
taken_page k page f le = omega (
  arith,
  sample-low page (k, page, f, omega arith, omega (arith, one-le-pow k 2)),
  sample-low (page + 2 ^ k - 1) (k, page, f, omega arith, omega arith),
)

took :
    alloc_contig function_lists physmap (page_size * all_pages) 1 sample
    ≡ ok (whole_top.page * page_size, after_take)
took =
    let (addr, pfa', e, answer) =
      allocate_step function_lists physmap sample sample (λ x. 0) all_pages 1
        (opening function_lists physmap sample sample-Freed.inv sample-IsMerged sample-lock)
        (omega arith) (omega arith) in
    let same : after_take ≡ pfa' = ap pfa_of e in
    elim answer [
      | inr (_, _, none) ↦ absurd (none 32 sample-IsFree)
      | inl (k, page, at, le, f, _, _) ↦
          e
          ∙ ap (λ t. ok (t, pfa')) (omega (arith, at, taken_page k page f le))
          ∙ ap (λ (q : Pfa (ℕ → List ℕ)). ok (whole_top.page * page_size, q)) (sym same)
    ]

one_out : Reached function_lists physmap sample after_take (whole_top ∷ [])
one_out = allocated all_pages 1 32 sample after_take [] (omega arith) (omega arith) none_out took

reached_lem_example :
    Inv function_lists physmap after_take
    × (after_take.lock.semaphore.value ≡ 1)
    × IsMerged after_take
    × ((x : ℕ) → owners (whole_top ∷ []) x ≤ 1)
    × ((x : ℕ) → IsFreePage after_take x → owners (whole_top ∷ []) x ≡ 0)
    × ((x : ℕ) → IsFreePage sample x ↔ (IsFreePage after_take x ⊎ (owners (whole_top ∷ []) x ≡ 1)))
reached_lem_example =
    reached_lem function_lists physmap sample after_take (whole_top ∷ []) sample-Freed.inv
      sample-lock sample-IsMerged one_out

reached_progress_example :
    ((n m : ℕ)
      → 0 < n
      → n ≤ 32
      → (addr : ℕ) × (pfa' : Pfa (ℕ → List ℕ)) × (alloc_contig function_lists physmap
            (page_size * n)
            m
            after_take
          ≡ ok (addr, pfa'))
        × (((page : ℕ) × (addr ≡ page * page_size)
              × Reached function_lists physmap sample pfa'
                  (record { page = page; count = n } ∷ (whole_top ∷ [])))
            ⊎ ((addr ≡ phys_addr_invalid)
                × Reached function_lists physmap sample pfa' (whole_top ∷ []))))
    × ((b : Block) (before after : List Block)
        → (whole_top ∷ []) ≡ before ++ (b ∷ after)
        → (pfa' : Pfa (ℕ → List ℕ)) × (free_contig function_lists physmap
              (b.page * page_size)
              (page_size * b.count)
              after_take
            ≡ ok pfa')
          × Reached function_lists physmap sample pfa' (before ++ after))
reached_progress_example =
    reached_progress function_lists physmap sample after_take (whole_top ∷ []) sample-Freed.inv
      sample-lock sample-IsMerged one_out

given_back :
    (pfa' : Pfa (ℕ → List ℕ)) × (free_contig function_lists physmap
        (whole_top.page * page_size)
        (page_size * whole_top.count)
        after_take
      ≡ ok pfa')
    × Reached function_lists physmap sample pfa' []
given_back =
    (reached_progress function_lists physmap sample after_take (whole_top ∷ []) sample-Freed.inv
        sample-lock sample-IsMerged one_out).1
      whole_top [] [] refl

reached_closed_example : IsFree given_back.0 5 32 ↔ IsFree sample 5 32
reached_closed_example =
    reached_closed function_lists physmap sample given_back.0 sample-Freed.inv sample-lock
      sample-IsMerged given_back.2 5 32

contains_lem_example :
    ((contains function_lists physmap 5 32 sample ≡ ok (free_entry_kva physmap 32))
      × IsFree sample 5 32)
    ⊎ ((contains function_lists physmap 5 32 sample ≡ ok 0) × (¬ IsFree sample 5 32))
contains_lem_example = contains_lem function_lists physmap sample sample-Freed.inv 5 32

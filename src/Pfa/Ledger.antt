-- ===== src/Pfa/Ledger.antt =====
-- Which pages are out, over any number of allocations and frees.
pub mod Steps
use swink.Common.{
  ℕ, ◌+◌, ◌-◌, ◌*◌, ◌/◌, ◌^◌, ◌≤◌, ◌<◌, ◌≡◌, ◌⊎◌, inl, inr, ◌∙◌, ap, subst, subst₂, refl, arith, ok,
  leb, ltb, ◌&&◌, if◌then◌else◌, length,
}
use native.Mathlib.Nat.{pow-le-pow_right, le_trans}
use swink.LinkedLists.{LinkedLists}
use swink.Synchs.{Lock}
use swink.Pmap.{page_size, phys_addr_invalid}
use swink.Pfa.Levels.{size_to_page_count, min_buddy_level_for_size}
use swink.Pfa.Levels.Bounds.{min_level_fits}
use swink.Pfa.State.{Pfa}
use swink.Pfa.Insert.Range.{Freed, AreAllocated}
use swink.Pfa.Invariant.{IsFree, IsFreePage, IsMerged, Inv}
use swink.Pfa.Alloc.{alloc_contig}
use swink.Pfa.Alloc.Small.{Allocated}
use swink.Pfa.Alloc.Total.{alloc_contig_run}
use swink.Pfa.Free.{free_contig}
use swink.Pfa.Free.Total.{free_contig_run}
use swink.Pfa.Unique.{same_sizes}

-- Whether `x` is one of the `n` pages from `page` on.
unfoldable pub within : ℕ → ℕ → ℕ → ℕ
within page n x = if leb page x && ltb x (page + n) then 1 else 0

pub within_in : (page n x : ℕ) → page ≤ x → x < page + n → within page n x ≡ 1
unfolding within
within_in page n x lo hi = ground arith

pub within_cases :
    (page n x : ℕ)
    → ((within page n x ≡ 1) × (page ≤ x) × (x < page + n))
      ⊎ ((within page n x ≡ 0) × ((x < page) ⊎ (page + n ≤ x)))
unfolding within
within_cases page n x = ground arith

pub whole_pages : (n : ℕ) → n ≤ 32 → size_to_page_count (page_size * n) ≡ n
unfolding size_to_page_count
whole_pages n le = omega arith

module _ (lists : LinkedLists) (V : ℕ) where
  open lists use {Store, contents}

  -- What was free at the start is free now or out, not both; `out` tells how often a page is out.
  pub record Accounts (start pfa : Pfa Store) (out : ℕ → ℕ) : Type 0 where
    pub inv : Inv lists V pfa
    pub merged : IsMerged pfa
    pub unlocked : pfa.lock.semaphore.value ≡ 1
    pub same_base : pfa.page_base ≡ start.page_base
    pub same_count : pfa.page_count ≡ start.page_count
    pub still : (x : ℕ) → IsFreePage pfa x → IsFreePage start x × (out x ≡ 0)
    pub was : (x : ℕ) → out x ≡ 1 → IsFreePage start x
    pub accounted : (x : ℕ) → IsFreePage start x → IsFreePage pfa x ⊎ (out x ≡ 1)
    pub once : (x : ℕ) → out x ≤ 1

  pub Accounts-same :
      (start pfa : Pfa Store) (out out' : ℕ → ℕ)
      → ((x : ℕ) → out x ≡ out' x)
      → Accounts start pfa out
      → Accounts start pfa out'
  Accounts-same start pfa out out' same = subst (Accounts start pfa) (λ i x. same x i)

  -- Pages that are out are managed.
  pub out-managed :
      (start pfa : Pfa Store) (out : ℕ → ℕ) (x : ℕ)
      → Accounts start pfa out
      → 0 < out x
      → (pfa.page_base ≤ x) × (x < pfa.page_base + pfa.page_count)
  out-managed start pfa out x a pos =
      let (k, p, f, lo, hi) = a.was x (omega (arith, a.once x)) in
      (omega (arith, a.same_base, f.0), omega (arith, a.same_base, a.same_count, f.0))

  pub Allocated-Accounts :
      (start pfa pfa' : Pfa Store) (out : ℕ → ℕ) (page n m : ℕ)
      → Accounts start pfa out
      → Allocated lists V pfa pfa' page n m
      → IsMerged pfa'
      → Accounts start pfa' (λ x. out x + within page n x)
  Allocated-Accounts start pfa pfa' out page n m a t merged = record {
    inv = t.taken.inv;
    merged = merged;
    unlocked = ap (λ (l : Lock). l.semaphore.value) t.taken.same_lock ∙ a.unlocked;
    same_base = t.taken.same_base ∙ a.same_base;
    same_count = t.taken.same_count ∙ a.same_count;
    still = λ x h.
        let (before, outside) = (t.taken.free x).0 h in
        let (old, none) = a.still x before in (old, omega (arith, within_cases page n x));
    was = λ x h. elim (within_cases page n x) [
      | inl (one, lo, hi) ↦ (a.still x (t.were_free x lo hi)).0
      | inr (none, _) ↦ a.was x (omega arith)
    ];
    accounted = λ x h. elim (a.accounted x h) [
      | inl now ↦ elim (within_cases page n x) [
        | inl (one, lo, hi) ↦ inr (omega (arith, (a.still x now).1))
        | inr (none, outside) ↦ inl ((t.taken.free x).1 (now, outside))
      ]
      | inr one ↦ inr (omega (arith, fresh x, within_cases page n x))
    ];
    once = λ x. omega (arith, fresh x, a.once x, within_cases page n x);
  }
    where
      fresh : (x : ℕ) → (out x ≡ 0) ⊎ (within page n x ≡ 0)
      fresh x = elim (within_cases page n x) [
        | inl (one, lo, hi) ↦ inl (a.still x (t.were_free x lo hi)).1
        | inr (none, _) ↦ inr none
      ]

  pub Freed-Accounts :
      (start pfa pfa' : Pfa Store) (out out' : ℕ → ℕ) (page n : ℕ)
      → Accounts start pfa out
      → ((x : ℕ) → out x ≡ within page n x + out' x)
      → Freed lists V pfa pfa' page (page + n)
      → IsMerged pfa'
      → Accounts start pfa' out'
  Freed-Accounts start pfa pfa' out out' page n a split f merged = record {
    inv = f.inv;
    merged = merged;
    unlocked = ap (λ (l : Lock). l.semaphore.value) f.same_lock ∙ a.unlocked;
    same_base = f.same_base ∙ a.same_base;
    same_count = f.same_count ∙ a.same_count;
    still = λ x h. elim (f.only x h) [
      | inl before ↦ ((a.still x before).0, omega (arith, split x, (a.still x before).1))
      | inr (lo, hi) ↦
          let one : out x ≡ 1 = omega (arith, split x, a.once x, within_in page n x lo hi) in
          (a.was x one, omega (arith, split x, within_in page n x lo hi))
    ];
    was = λ x h. a.was x (omega (arith, split x, a.once x));
    accounted = λ x h. elim (a.accounted x h) [
      | inl now ↦ inl (f.kept x now)
      | inr one ↦ elim (within_cases page n x) [
        | inl (_, lo, hi) ↦ inl (f.freed x lo hi)
        | inr (none, _) ↦ inr (omega (arith, split x))
      ]
    ];
    once = λ x. omega (arith, split x, a.once x);
  }

  pub opening :
      (start : Pfa Store)
      → Inv lists V start
      → IsMerged start
      → start.lock.semaphore.value ≡ 1
      → Accounts start start (λ x. 0)
  opening start inv merged unlocked = record {
    inv = inv;
    merged = merged;
    unlocked = unlocked;
    same_base = refl;
    same_count = refl;
    still = λ x h. (h, refl);
    was = λ x h. absurd (omega arith);
    accounted = λ x h. inl h;
    once = λ x. omega arith;
  }

-- ===== src/Pfa/Alloc/Canonical.antt =====
-- Splitting an entry leaves nothing to merge.
use swink.Common.{ℕ, ◌+◌, ◌-◌, ◌*◌, ◌%◌, ◌^◌, ◌≤◌, ◌<◌, ◌≡◌, refl, arith, ok}
use native.Mathlib.Nat.{one-le-pow}
use swink.LinkedLists.{LinkedLists}
use swink.Pfa.Levels.{buddy_levels, get_buddy_page_id_for_page}
use swink.Pfa.Levels.Bounds.{by_level, pow_small}
use swink.Pfa.State.{Pfa}
use swink.Pfa.Insert.{free_entry_kva, remove_free_entry, buddy_insert_range_freed_locked}
use swink.Pfa.Insert.Canonical.{Meets, NoneAcross, insert_range-IsMerged}
use swink.Pfa.Invariant.{IsFree, IsMerged, Inv, Taken, remove-Taken, remove-Change, still-IsFree}

abbrev Inside : ℕ → ℕ → ℕ → ℕ → Type 0
Inside p i k l =
    p % 2 ^ k ≡ 0 → i % (2 * 2 ^ l) ≡ 0 → p < i → i < p + 2 ^ k → i + 2 * 2 ^ l ≤ p + 2 ^ k

-- An aligned entry that begins inside an aligned block with its buddy to the right of it has the
-- buddy inside too.
both_inside :
    (k l p i : ℕ)
    → k < buddy_levels
    → l < buddy_levels
    → p % 2 ^ k ≡ 0
    → i % (2 * 2 ^ l) ≡ 0
    → p < i
    → i < p + 2 ^ k
    → i + 2 * 2 ^ l ≤ p + 2 ^ k
both_inside k l p i lt lt' =
    by_level (λ k. Inside p i k l)
      (by_level (Inside p i 0) (λ a b c d. omega arith) (λ a b c d. omega arith)
        (λ a b c d. omega arith) (λ a b c d. omega arith) (λ a b c d. omega arith)
        (λ a b c d. omega arith) l lt')
      (by_level (Inside p i 1) (λ a b c d. omega arith) (λ a b c d. omega arith)
        (λ a b c d. omega arith) (λ a b c d. omega arith) (λ a b c d. omega arith)
        (λ a b c d. omega arith) l lt')
      (by_level (Inside p i 2) (λ a b c d. omega arith) (λ a b c d. omega arith)
        (λ a b c d. omega arith) (λ a b c d. omega arith) (λ a b c d. omega arith)
        (λ a b c d. omega arith) l lt')
      (by_level (Inside p i 3) (λ a b c d. omega arith) (λ a b c d. omega arith)
        (λ a b c d. omega arith) (λ a b c d. omega arith) (λ a b c d. omega arith)
        (λ a b c d. omega arith) l lt')
      (by_level (Inside p i 4) (λ a b c d. omega arith) (λ a b c d. omega arith)
        (λ a b c d. omega arith) (λ a b c d. omega arith) (λ a b c d. omega arith)
        (λ a b c d. omega arith) l lt')
      (by_level (Inside p i 5) (λ a b c d. omega arith) (λ a b c d. omega arith)
        (λ a b c d. omega arith) (λ a b c d. omega arith) (λ a b c d. omega arith)
        (λ a b c d. omega arith) l lt')
      k lt

module _ (lists : LinkedLists) (V : ℕ) (n k p : ℕ) (pfa : Pfa lists.Store) (inv : Inv lists V pfa)
    (f : IsFree pfa k p) (some_page : 0 < n) (fits : n ≤ 2 ^ k) where
  abbrev removed : Pfa lists.Store
  removed = remove_free_entry lists (free_entry_kva V p) p k pfa

  taken : Taken lists V pfa removed p (p + 2 ^ k)
  taken = remove-Taken lists V pfa k p inv f

  none_inside :
      (x : ℕ) → p ≤ x → x < p + 2 ^ k → (j q : ℕ) → IsFree removed j q → q ≤ x → ¬ (x < q + 2 ^ j)
  none_inside x lo hi j q g low high = omega (arith, ((taken.free x).0 (j, q, g, low, high)).1)

  removed-IsMerged : IsMerged pfa → IsMerged removed
  removed-IsMerged before j q lt g h =
      before j q lt (was j q g) (was j (get_buddy_page_id_for_page q j) h)
    where
      was : (j q : ℕ) → IsFree removed j q → IsFree pfa j q
      was j q g =
          (still-IsFree lists V inv f.0 (omega arith) (λ e. absurd (omega arith))
            (remove-Change lists V pfa inv k p f) j q refl g).0

  removed-Meets : Meets removed (p + n + (2 ^ k - n)) (p + n)
  removed-Meets a q lt g ends = absurd (
      none_inside (p + n - 1) (omega arith) (omega arith) a q g (omega (arith, one-le-pow a 2))
        (omega arith))

  removed-NoneAcross : NoneAcross removed (p + n) (p + n + (2 ^ k - n))
  removed-NoneAcross l i lt lo hi al past g =
      omega (arith, both_inside k l p i f.0.0 (omega arith) f.0.3 al (omega arith) (omega arith))

  pub split-IsMerged :
      (fe : ℕ) (pfa' : Pfa lists.Store)
      → buddy_insert_range_freed_locked lists V (p + n) (2 ^ k - n) removed ≡ ok (fe, pfa')
      → IsMerged pfa
      → IsMerged pfa'
  split-IsMerged fe pfa' e before =
      insert_range-IsMerged lists V (p + n) (2 ^ k - n) fe removed pfa' taken.inv
        (omega (arith, taken.same_base, f.0))
        (omega (arith, taken.same_base, taken.same_count, f.0)) (omega (arith, pow_small k f.0.0))
        (λ x lo hi h.
          let (j, q, g, low, high) = h in none_inside x (omega arith) (omega arith) j q g low high)
        removed-Meets removed-NoneAcross (removed-IsMerged before) e

-- ===== src/Pfa/Unique.antt =====
-- Which entries are free is determined by which pages are, where nothing is left to merge.
use swink.Common.{
  ℕ, zero, suc, ◌+◌, ◌-◌, ◌*◌, ◌%◌, ◌^◌, ◌≤◌, ◌<◌, ◌≡◌, ◌↔◌, ap, ◌∙◌, sym, subst, subst₂, arith,
  count, length, same_length, ℕ_discrete, dec_le,
}
use native.Mathlib.Nat.{one-le-pow, two-pow-succ}
use swink.LinkedLists.{LinkedLists}
use swink.Pfa.Levels.{buddy_levels, get_buddy_page_id_for_page}
use swink.Pfa.Levels.Bounds.{by_level}
use swink.Pfa.Levels.Buddies.{buddy-AreHalves, halves_aligned}
use swink.Pfa.State.{Pfa}
use swink.Pfa.Invariant.{IsFree, IsFreePage, IsMerged, Inv, listed-IsFree}

double : (k : ℕ) → 2 ^ suc k ≡ 2 * 2 ^ k
double k = omega (arith, two-pow-succ k)

abbrev pub Nested : ℕ → ℕ → ℕ → ℕ → ℕ → Type 0
Nested p q x k j =
    k ≤ j
    → p % 2 ^ k ≡ 0
    → q % 2 ^ j ≡ 0
    → (p ≤ x) × (x < p + 2 ^ k)
    → (q ≤ x) × (x < q + 2 ^ j)
    → (q ≤ p) × (p + 2 ^ k ≤ q + 2 ^ j)

-- Of two aligned blocks with a common page, the larger holds the smaller.
pub nested : (p q x k j : ℕ) → k < buddy_levels → j < buddy_levels → Nested p q x k j
nested p q x k j lt lt' =
    by_level (λ k. Nested p q x k j)
      (by_level (Nested p q x 0) (λ a b c d e. omega arith) (λ a b c d e. omega arith)
        (λ a b c d e. omega arith) (λ a b c d e. omega arith) (λ a b c d e. omega arith)
        (λ a b c d e. omega arith) j lt')
      (by_level (Nested p q x 1) (λ a b c d e. omega arith) (λ a b c d e. omega arith)
        (λ a b c d e. omega arith) (λ a b c d e. omega arith) (λ a b c d e. omega arith)
        (λ a b c d e. omega arith) j lt')
      (by_level (Nested p q x 2) (λ a b c d e. omega arith) (λ a b c d e. omega arith)
        (λ a b c d e. omega arith) (λ a b c d e. omega arith) (λ a b c d e. omega arith)
        (λ a b c d e. omega arith) j lt')
      (by_level (Nested p q x 3) (λ a b c d e. omega arith) (λ a b c d e. omega arith)
        (λ a b c d e. omega arith) (λ a b c d e. omega arith) (λ a b c d e. omega arith)
        (λ a b c d e. omega arith) j lt')
      (by_level (Nested p q x 4) (λ a b c d e. omega arith) (λ a b c d e. omega arith)
        (λ a b c d e. omega arith) (λ a b c d e. omega arith) (λ a b c d e. omega arith)
        (λ a b c d e. omega arith) j lt')
      (by_level (Nested p q x 5) (λ a b c d e. omega arith) (λ a b c d e. omega arith)
        (λ a b c d e. omega arith) (λ a b c d e. omega arith) (λ a b c d e. omega arith)
        (λ a b c d e. omega arith) j lt')
      k lt

abbrev pub AreFree : {S : Type 0} → Pfa S → ℕ → ℕ → Type 0
AreFree pfa k p = (x : ℕ) → p ≤ x → x < p + 2 ^ k → IsFreePage pfa x

module _ (lists : LinkedLists) (V : ℕ) where
  open lists use {Store, contents}

  not_both_halves :
      (k p : ℕ) (pfa : Pfa Store)
      → Inv lists V pfa
      → IsMerged pfa
      → k < 5
      → p % (2 * 2 ^ k) ≡ 0
      → IsFree pfa k p
      → ¬ IsFree pfa k (p + 2 ^ k)
  not_both_halves k p pfa inv merged lt al f g =
      merged k p lt f (subst (IsFree pfa k) (sym right) g)
    where
      right : get_buddy_page_id_for_page p k ≡ p + 2 ^ k
      right = ground (
        arith,
        inv.small,
        f.0,
        one-le-pow k 2,
        buddy-AreHalves p k lt (omega (arith, inv.small, f.0, one-le-pow k 2)) f.0.3,
        halves_aligned k (p - 2 ^ k) lt,
      )

  -- The entry that holds an aligned block.
  abbrev pub Covered : Pfa Store → ℕ → ℕ → Type 0
  Covered pfa k p = (j : ℕ) × (q : ℕ) × IsFree pfa j q × (k ≤ j) × (q ≤ p) × (p + 2 ^ k ≤ q + 2 ^ j)

  join :
      (k p : ℕ) (pfa : Pfa Store)
      → Inv lists V pfa
      → IsMerged pfa
      → k < 5
      → p % 2 ^ suc k ≡ 0
      → Covered pfa k p
      → Covered pfa k (p + 2 ^ k)
      → Covered pfa (suc k) p
  join k p pfa inv merged lt al (j, q, f, above, lo, hi) (i, r, g, above', lo', hi') =
      elim (dec_le (suc k) j) [
        | yes left ↦
            let (low, high) =
              nested p q p (suc k) j (omega arith) f.0.0 left al f.0.3
                (omega arith, omega (arith, one-le-pow (suc k) 2))
                (lo, omega (arith, one-le-pow k 2)) in
            (j, q, f, left, low, high)
        | no same ↦ elim (dec_le (suc k) i) [
          | yes right ↦
              let (low, high) =
                nested p r (p + 2 ^ k) (suc k) i (omega arith) g.0.0 right al g.0.3
                  (omega arith, omega (arith, two-pow-succ k, one-le-pow k 2))
                  (lo', omega (arith, one-le-pow k 2)) in
              (i, r, g, right, low, high)
          | no same' ↦
              let ej : j ≡ k = omega arith in
              let ei : i ≡ k = omega arith in
              absurd (
                not_both_halves k p pfa inv merged lt (subst (λ t. p % t ≡ 0) (double k) al)
                  (subst₂ (IsFree pfa) ej (omega (arith, ap (λ (t : ℕ). 2 ^ t) ej)) f)
                  (subst₂ (IsFree pfa) ei (omega (arith, ap (λ (t : ℕ). 2 ^ t) ei)) g))
        ]
      ]

  -- An aligned block of which every page is free lies in one free entry.
  pub covered :
      (k p : ℕ) (pfa : Pfa Store)
      → Inv lists V pfa
      → IsMerged pfa
      → k < buddy_levels
      → p % 2 ^ k ≡ 0
      → AreFree pfa k p
      → Covered pfa k p
  covered zero p pfa inv merged lt al all =
      let (j, q, f, lo, hi) = all p (omega arith) (omega arith) in
      (j, q, f, omega arith, lo, omega arith)
  covered (suc k) p pfa inv merged lt al all =
      let (left, right, _, _) =
        halves_aligned k p (omega arith) (subst (λ t. p % t ≡ 0) (double k) al) in
      join k p pfa inv merged (omega arith) al
        (covered k p pfa inv merged (omega arith) left
          (λ x lo hi. all x lo (omega (arith, double k))))
        (covered k (p + 2 ^ k) pfa inv merged (omega arith) right
          (λ x lo hi. all x (omega arith) (omega (arith, double k))))

  module _ (pfa pfa' : Pfa Store) (inv : Inv lists V pfa) (inv' : Inv lists V pfa')
      (merged : IsMerged pfa) (merged' : IsMerged pfa')
      (same : (x : ℕ) → IsFreePage pfa x → IsFreePage pfa' x)
      (same' : (x : ℕ) → IsFreePage pfa' x → IsFreePage pfa x) where
    -- With the same pages free and nothing left to merge, the same entries are free.
    entry-IsFree : (k p : ℕ) → IsFree pfa k p → IsFree pfa' k p
    entry-IsFree k p f =
        let (j, q, g, above, lo, hi) =
          covered k p pfa' inv' merged' f.0.0 f.0.3 (λ x lo hi. same x (k, p, f, lo, hi)) in
        elim (ℕ_discrete k j) [
          | yes level ↦
              subst₂ (IsFree pfa') (sym level) (omega (arith, ap (λ (t : ℕ). 2 ^ t) level)) g
          | no other ↦
              let (i, r, h, above', lo', hi') =
                covered j q pfa inv merged g.0.0 g.0.3 (λ x lo hi. same' x (j, q, g, lo, hi)) in
              absurd (ground (arith, inv.apart k p i r f h, one-le-pow k 2))
        ]

    -- What is in a list is in it once, and once in the other state's.
    listed-count :
        (k e : ℕ)
        → 0 < count e (contents pfa.buddy_lists k)
        → (count e (contents pfa.buddy_lists k) ≡ 1) × (count e (contents pfa'.buddy_lists k) ≡ 1)
    listed-count k e some =
        let (q, f, at) = listed-IsFree lists V pfa inv k e some in
        let g = entry-IsFree k q f in
        (
          ap (λ t. count t (contents pfa.buddy_lists k)) at ∙ inv.linked k q f.0 ∙ f.1,
          ap (λ t. count t (contents pfa'.buddy_lists k)) at ∙ inv'.linked k q g.0 ∙ g.1,
        )

  -- Two states that satisfy the invariant, in which no two buddies below the top level are both
  -- free entries and exactly the same pages are free, have the same free entries, and the list of
  -- each level holds every address in the one as often as in the other: the free pages determine
  -- everything but the order of the lists.
  pub same_entries :
      (pfa pfa' : Pfa Store)
      → Inv lists V pfa
      → Inv lists V pfa'
      → IsMerged pfa
      → IsMerged pfa'
      → ((x : ℕ) → IsFreePage pfa x ↔ IsFreePage pfa' x)
      → ((k p : ℕ) → IsFree pfa k p ↔ IsFree pfa' k p)
        × ((k e : ℕ) → count e (contents pfa.buddy_lists k) ≡ count e (contents pfa'.buddy_lists k))
  same_entries pfa pfa' inv inv' merged merged' same = (
    λ k p. (
      entry-IsFree pfa pfa' inv inv' merged merged' (λ x. (same x).0) (λ x. (same x).1) k p,
      entry-IsFree pfa' pfa inv' inv merged' merged (λ x. (same x).1) (λ x. (same x).0) k p,
    ),
    λ k e. ground (
      arith,
      listed-count pfa pfa' inv inv' merged merged' (λ x. (same x).0) (λ x. (same x).1) k e,
      listed-count pfa' pfa inv' inv merged' merged (λ x. (same x).1) (λ x. (same x).0) k e,
    ),
  )

  -- So the lists are of the same length.
  pub same_sizes :
      (pfa pfa' : Pfa Store)
      → Inv lists V pfa
      → Inv lists V pfa'
      → IsMerged pfa
      → IsMerged pfa'
      → ((x : ℕ) → IsFreePage pfa x ↔ IsFreePage pfa' x)
      → (k : ℕ) → length (contents pfa.buddy_lists k) ≡ length (contents pfa'.buddy_lists k)
  same_sizes pfa pfa' inv inv' merged merged' same k =
      same_length (contents pfa.buddy_lists k) (contents pfa'.buddy_lists k)
        ((same_entries pfa pfa' inv inv' merged merged' same).1 k)

-- ===== src/Pfa/Alloc/Find.antt =====
-- The search of pmap_pfa_alloc_contig_small_locked for a free entry.
use swink.Common.{
  ℕ, zero, suc, ◌+◌, ◌-◌, ◌*◌, ◌^◌, ◌≤◌, ◌<◌, ◌≡◌, sym, ◌⊎◌, inl, inr, ◌∙◌, ap, arith, ok, lt→ltb,
  le→ltb_false, is_nil, count_nil, front_cases, Bool-cases, dec_lt, ℕ_discrete, true, false,
}
use native.Mathlib.Nat.{one-le-pow}
use swink.LinkedLists.{LinkedLists}
use swink.Pmap.{page_size, phys_addr_invalid, physmap_kva_to_pa}
use swink.Pfa.Levels.{buddy_levels}
use swink.Pfa.State.{Pfa}
use swink.Pfa.Insert.{free_entry_kva}
use swink.Pfa.Invariant.{IsFree, Inv, listed-IsFree, free_entry_kva_lem}
use swink.Pfa.Alloc.{find_entry}

-- The virtual address of a free entry translates back to its page.
pub free_entry_pa :
    (V p : ℕ)
    → p < 2 ^ 20
    → V + p * 2 ^ 12 < 2 ^ 64
    → physmap_kva_to_pa V (free_entry_kva V p) ≡ ok (p * page_size)
unfolding physmap_kva_to_pa
free_entry_pa V p hp hV = rw (free_entry_kva_lem V p hp hV) (ground arith)

module _ (lists : LinkedLists) (V : ℕ) where
  open lists use {Store, contents, list_empty, list_front, empty_lem, front_lem}

  abbrev pub Finds : ℕ → ℕ → Pfa Store → Type 0
  Finds fuel level pfa =
      ((k : ℕ) × (p : ℕ) × (find_entry lists V fuel level pfa
          ≡ ok (k, free_entry_kva V p, p * page_size))
        × (level ≤ k)
        × IsFree pfa k p)
      ⊎ ((find_entry lists V fuel level pfa ≡ ok (buddy_levels, 0, phys_addr_invalid))
          × ((k p : ℕ) → level ≤ k → ¬ IsFree pfa k p))

  none_at :
      (level : ℕ) (pfa : Pfa Store)
      → Inv lists V pfa
      → list_empty level pfa.buddy_lists ≡ true
      → ((k p : ℕ) → level + 1 ≤ k → ¬ IsFree pfa k p)
      → (k p : ℕ) → level ≤ k
      → ¬ IsFree pfa k p
  none_at level pfa inv empty above k p h f = elim (ℕ_discrete level k) [
    | yes same ↦
        let nothing = count_nil (free_entry_kva V p) (contents pfa.buddy_lists k) (
          ap (λ t. is_nil (contents pfa.buddy_lists t)) (sym same)
          ∙ sym (empty_lem pfa.buddy_lists level)
          ∙ empty) in
        omega (arith, nothing, inv.linked k p f.0, f.1)
    | no other ↦ above k p (omega arith) f
  ]

  find_past :
      (fuel level : ℕ) (pfa : Pfa Store)
      → level ≡ buddy_levels
      → find_entry lists V (suc fuel) level pfa ≡ ok (buddy_levels, 0, phys_addr_invalid)
  unfolding find_entry
  find_past fuel level pfa e =
      rw (le→ltb_false level buddy_levels (omega arith)) (ap (λ t. ok (t, 0, phys_addr_invalid)) e)

  find_empty :
      (fuel level : ℕ) (pfa : Pfa Store)
      → level < buddy_levels
      → list_empty level pfa.buddy_lists ≡ true
      → find_entry lists V (suc fuel) level pfa ≡ find_entry lists V fuel (level + 1) pfa
  unfolding find_entry
  find_empty fuel level pfa lt e = rw (lt→ltb level buddy_levels lt, e)

  find_front :
      (fuel level p : ℕ) (pfa : Pfa Store)
      → level < buddy_levels
      → list_empty level pfa.buddy_lists ≡ false
      → list_front level pfa.buddy_lists ≡ free_entry_kva V p
      → p < 2 ^ 20
      → V + p * 2 ^ 12 < 2 ^ 64
      → find_entry lists V (suc fuel) level pfa ≡ ok (level, free_entry_kva V p, p * page_size)
  unfolding find_entry
  find_front fuel level p pfa lt e front hp hV =
      rw (lt→ltb level buddy_levels lt, e, front, free_entry_pa V p hp hV)

  -- With fuel for the levels that are left, the loop finds the front of the first list that is not
  -- empty, or every list from `level` on is empty.
  pub find_entry_lem :
      (fuel level : ℕ) (pfa : Pfa Store)
      → Inv lists V pfa
      → level ≤ buddy_levels
      → buddy_levels - level < fuel
      → Finds fuel level pfa
  find_entry_lem zero level pfa inv le enough = absurd (omega arith)
  find_entry_lem (suc fuel) level pfa inv le enough = elim (dec_lt level buddy_levels) [
    | no past ↦ inr (find_past fuel level pfa (omega arith), λ k p h f. absurd (omega arith))
    | yes lt ↦ elim (Bool-cases (list_empty level pfa.buddy_lists)) [
      | inl empty ↦ elim (find_entry_lem fuel (level + 1) pfa inv (omega arith) (omega arith)) [
        | inl (k, p, e, h, f) ↦ inl (k, p, find_empty fuel level pfa lt empty ∙ e, omega arith, f)
        | inr (e, none_free) ↦
            inr (find_empty fuel level pfa lt empty ∙ e, none_at level pfa inv empty none_free)
      ]
      | inr some_entry ↦
          let (e, es, is, at_front) =
            front_cases (contents pfa.buddy_lists level)
              (sym (empty_lem pfa.buddy_lists level) ∙ some_entry) in
          let (p, f, same) = listed-IsFree lists V pfa inv level e at_front in
          inl (
            level,
            p,
            find_front fuel level p pfa lt some_entry
                (front_lem pfa.buddy_lists level e es is ∙ same)
                (omega (arith, inv.small, one-le-pow level 2))
                (omega (arith, inv.mapped, f.0, one-le-pow level 2)),
            omega arith,
            f,
          )
    ]
  ]

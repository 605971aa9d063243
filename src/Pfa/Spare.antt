-- ===== src/Pfa/Spare.antt =====
-- How many free entries of the top level allocations leave.
use swink.Common.{
  ℕ, suc, ◌+◌, ◌-◌, ◌%◌, ◌^◌, ◌≤◌, ◌<◌, ◌≡◌, List, arith, count, erase, length, count-erase, subst₂,
  sym, ap, ◌⊎◌, inl, inr, ◌∙◌, ℕ_discrete, dec_lt, length-erase_le,
}
use swink.LinkedLists.{LinkedLists}
use swink.Pfa.State.{Pfa}
use swink.Pfa.Insert.{free_entry_kva}
use swink.Pfa.Invariant.{IsFree, IsMerged, Inv, listed-IsFree}
use swink.Pfa.Alloc.Small.{Allocated}
use swink.Pfa.Unique.{AreFree, covered, nested}

module _ (lists : LinkedLists) (V : ℕ) where
  open lists use {Store, contents}

  -- Different free entries of the top level.
  pub record Spare (pfa : Pfa Store) (es : List ℕ) : Type 0 where
    pub once : (e : ℕ) → count e es ≤ 1
    pub entries : (e : ℕ) → 0 < count e es → (q : ℕ) × IsFree pfa 5 q × (e ≡ free_entry_kva V q)

  -- Those of the list are.
  pub listed-Spare : (pfa : Pfa Store) → Inv lists V pfa → Spare pfa (contents pfa.buddy_lists 5)
  listed-Spare pfa inv = record {
    entries = listed-IsFree lists V pfa inv 5;
    once = λ e. elim (ℕ_discrete (count e (contents pfa.buddy_lists 5)) 0) [
      | yes none ↦ omega arith
      | no some ↦
          let (q, f, at) = listed-IsFree lists V pfa inv 5 e (omega arith) in
          omega
            (arith, ap (λ t. count t (contents pfa.buddy_lists 5)) at ∙ inv.linked 5 q f.0 ∙ f.1)
    ];
  }

  -- An aligned block of 32 free pages is one free entry.
  top-IsFree :
      (q : ℕ) (pfa : Pfa Store)
      → Inv lists V pfa
      → IsMerged pfa
      → q % 32 ≡ 0
      → AreFree pfa 5 q
      → IsFree pfa 5 q
  top-IsFree q pfa inv merged al all =
      let (j, r, h, above, lo, hi) = covered lists V 5 q pfa inv merged (omega arith) al all in
      let level : 5 ≡ j = omega (arith, h.0.0) in
      subst₂ (IsFree pfa) (sym level) (omega (arith, ap (λ (t : ℕ). 2 ^ t) level)) h

  -- An entry of the top level that no allocated page lies in stays free.
  stays-IsFree :
      (pfa pfa' : Pfa Store) (page n m k q : ℕ)
      → Allocated lists V pfa pfa' page n m
      → IsMerged pfa'
      → n ≤ 2 ^ k
      → IsFree pfa k page
      → IsFree pfa 5 q
      → (page < q) ⊎ (q + 32 ≤ page)
      → IsFree pfa' 5 q
  stays-IsFree pfa pfa' page n m k q t merged room f g other =
      top-IsFree q pfa' t.taken.inv merged g.0.3
        (λ x lo hi. (t.taken.free x).1 ((5, q, g, lo, hi), outside x lo hi))
    where
      outside : (x : ℕ) → q ≤ x → x < q + 2 ^ 5 → (x < page) ⊎ (page + n ≤ x)
      outside x lo hi = elim (dec_lt q (page + 2 ^ k)) [
        | no apart ↦ elim other [ inl before ↦ inr (omega arith) | inr behind ↦ inl (omega arith) ]
        | yes meets ↦ elim other [
          | inl before ↦ absurd (
              omega (
                arith,
                (nested page q q k 5 f.0.0 (omega arith) (omega (arith, f.0.0)) f.0.3 g.0.3
                    (omega arith, meets) (omega arith, omega arith)).0,
              ))
          | inr behind ↦ inl (omega arith)
        ]
      ]

  -- An allocation takes one of them at most.
  pub Allocated-Spare :
      (pfa pfa' : Pfa Store) (page n m k : ℕ) (es : List ℕ)
      → Allocated lists V pfa pfa' page n m
      → IsMerged pfa'
      → n ≤ 2 ^ k
      → IsFree pfa k page
      → Spare pfa es
      → (es' : List ℕ) × Spare pfa' es' × (length es ≤ suc (length es'))
  Allocated-Spare pfa pfa' page n m k es t merged room f s = (
    erase (free_entry_kva V (page - page % 32)) es,
    record {
      once = λ e. ground (arith, s.once e, count-erase e (free_entry_kva V (page - page % 32)) es);
      entries = λ e h.
          let (q, g, at) =
            s.entries e (ground (arith, count-erase e (free_entry_kva V (page - page % 32)) es)) in
          (q, stays-IsFree pfa pfa' page n m k q t merged room f g (away e q h at g), at);
    },
    length-erase_le (free_entry_kva V (page - page % 32)) es,
  )
    where
      away :
          (e q : ℕ)
          → 0 < count e (erase (free_entry_kva V (page - page % 32)) es)
          → e ≡ free_entry_kva V q
          → IsFree pfa 5 q
          → (page < q) ⊎ (q + 32 ≤ page)
      away e q h at g = elim (ℕ_discrete q (page - page % 32)) [
        | no other ↦ ground (arith, g.0.3)
        | yes same ↦ absurd (
            ground (
              arith,
              s.once e,
              at ∙ ap (free_entry_kva V) same,
              count-erase e (free_entry_kva V (page - page % 32)) es,
            ))
      ]

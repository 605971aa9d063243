-- ===== src/Pfa/Debug/Walks.antt =====
-- pmap_pfa_contains and pmap_pfa_dump_state of kernel/machine/pmap/pmap_pfa.c, which walk a list
-- from list_begin to list_end and so pass its contents. Neither takes the lock. Of the dump, the
-- numbers that are printed are kept.
use swink.Common.{
  ℕ, zero, suc, ◌+◌, ◌*◌, ◌^◌, ◌<◌, ◌≡◌, ◌⊎◌, ◌↔◌, inl, inr, refl, ◌∙◌, ap, subst, List, [], ◌∷◌,
  Bool-cases, Result, ok, ◌>>=◌, ltb, ◌==◌, if◌then◌else◌, arith, length, count, count-cons,
  count_nil, ℕ_discrete, ==_refl, ne→==, ◌≢◌,
}
use native.Mathlib.Nat.{one-le-pow}
use swink.LinkedLists.{LinkedLists}
use swink.Pmap.{physmap_kva_to_pa}
use swink.Pfa.Levels.{buddy_levels, pa_to_page_id}
use swink.Pfa.State.{Pfa}
use swink.Pfa.Insert.{free_entry_kva}
use swink.Pfa.Invariant.{IsFree, Inv, listed-IsFree, free_entry_kva_lem}

module _ (lists : LinkedLists) (physmap_vm_base : ℕ) where
  open lists use {Store, contents, list_size, size_lem}

  -- The page id of an entry.
  unfoldable pub page_of_entry : ℕ → Result ℕ
  page_of_entry fe = physmap_kva_to_pa physmap_vm_base fe >>= λ pa. ok (pa_to_page_id pa)

  -- The rest of the walk; NULL is 0.
  unfoldable pub contains_from : List ℕ → ℕ → Result ℕ
  unfolding page_of_entry
  contains_from [] page = ok 0
  contains_from (fe1 ∷ entries) page = page_of_entry fe1 >>= λ page1.
      let rest = contains_from entries page in if page1 == page then ok fe1 else rest

  unfoldable pub contains : ℕ → ℕ → Pfa Store → Result ℕ
  unfolding contains_from
  contains level page pfa = contains_from (contents pfa.buddy_lists level) page

  unfoldable pub page_ids : List ℕ → Result (List ℕ)
  unfolding page_of_entry
  page_ids [] = ok []
  page_ids (fe ∷ entries) =
      page_of_entry fe >>= λ page. page_ids entries >>= λ pages. ok (page ∷ pages)

  -- The lines of one level: its size, and the page ids of its entries if they are fewer than 100.
  unfoldable pub dump_level : ℕ → Pfa Store → Result (ℕ × List ℕ)
  unfolding page_ids
  dump_level level_i pfa =
      let size = list_size level_i pfa.buddy_lists in
      let ids = page_ids (contents pfa.buddy_lists level_i) in
      if ltb size 100 then (ids >>= λ pages. ok (size, pages)) else ok (size, [])

  -- The levels from `level_i` on that are left.
  unfoldable pub dump_levels : ℕ → ℕ → Pfa Store → Result (List (ℕ × List ℕ))
  unfolding dump_level
  dump_levels zero level_i pfa = ok []
  dump_levels (suc levels) level_i pfa = dump_level level_i pfa >>= λ line.
      dump_levels levels (level_i + 1) pfa >>= λ lines. ok (line ∷ lines)

  unfoldable pub dump_state : Pfa Store → Result (List (ℕ × List ℕ))
  unfolding dump_levels
  dump_state pfa = dump_levels buddy_levels 0 pfa

  module _ (pfa : Pfa Store) (inv : Inv lists physmap_vm_base pfa) where
    -- What is in the list of a level is an entry of a page whose id is read back.
    entry_lem :
        (k fe : ℕ)
        → 0 < count fe (contents pfa.buddy_lists k)
        → (q : ℕ) × (page_of_entry fe ≡ ok q)
          × IsFree pfa k q
          × (fe ≡ free_entry_kva physmap_vm_base q)
    unfolding page_of_entry physmap_kva_to_pa pa_to_page_id
    entry_lem k fe some =
        let (q, f, at) = listed-IsFree lists physmap_vm_base pfa inv k fe some in
        let small : fe ≡ physmap_vm_base + q * 2 ^ 12 =
          at
          ∙ free_entry_kva_lem physmap_vm_base q (omega (arith, inv.small, f.0, one-le-pow k 2))
              (omega (arith, inv.mapped, f.0, one-le-pow k 2)) in
        (q, ground (arith, inv.small, inv.mapped, f.0, one-le-pow k 2), f, at)

    kva_apart :
        (k page q : ℕ)
        → IsFree pfa k page
        → (j : ℕ) → IsFree pfa j q
        → q ≢ page
        → free_entry_kva physmap_vm_base q ≢ free_entry_kva physmap_vm_base page
    kva_apart k page q g j f other same = omega (
      arith,
      inv.small,
      inv.mapped,
      f.0,
      g.0,
      one-le-pow j 2,
      one-le-pow k 2,
      free_entry_kva_lem physmap_vm_base q,
      free_entry_kva_lem physmap_vm_base page,
    )

    contains_from_lem :
        (k page : ℕ) (entries : List ℕ)
        → ((fe : ℕ) → 0 < count fe entries → 0 < count fe (contents pfa.buddy_lists k))
        → ((contains_from entries page ≡ ok (free_entry_kva physmap_vm_base page))
            × IsFree pfa k page)
          ⊎ ((contains_from entries page ≡ ok 0)
              × (IsFree pfa k page → count (free_entry_kva physmap_vm_base page) entries ≡ 0))
    unfolding contains_from
    contains_from_lem k page [] listed = inr (refl, λ f. count_nil _ [] refl)
    contains_from_lem k page (fe ∷ entries) listed =
        let (q, e, f, at) = entry_lem k fe (listed fe (ground (arith, count-cons fe fe entries))) in
        let rest =
          contains_from_lem k page entries
            (λ e some. listed e (ground (arith, some, count-cons e fe entries))) in
        elim (ℕ_discrete q page) [
          | yes same ↦ inl (
            rw (e, same, ==_refl page)
                (ap (λ t. ok t) (at ∙ ap (free_entry_kva physmap_vm_base) same)),
            subst (IsFree pfa k) same f,
          )
          | no other ↦ elim rest [
            | inl (found, g) ↦ inl (rw (e, ne→== q page other) found, g)
            | inr (none, absent) ↦ inr (
              rw (e, ne→== q page other) none,
              λ g. ground (
                arith,
                absent g,
                kva_apart k page q g k f other,
                at,
                count-cons (free_entry_kva physmap_vm_base page) fe entries,
              ),
            )
          ]
        ]

    -- In a state that satisfies the invariant, the walk over the list of a level for a page
    -- returns, with no assertion failed. It answers the entry at the page and the page is the start
    -- of a free entry of the level, or it answers NULL and the page is not.
    pub contains_lem :
        (k page : ℕ)
        → ((contains k page pfa ≡ ok (free_entry_kva physmap_vm_base page)) × IsFree pfa k page)
          ⊎ ((contains k page pfa ≡ ok 0) × (¬ IsFree pfa k page))
    unfolding contains
    contains_lem k page =
        elim (contains_from_lem k page (contents pfa.buddy_lists k) (λ fe some. some)) [
          | inl found ↦ inl found
          | inr (none, absent) ↦
              inr (none, λ f. omega (arith, inv.linked k page f.0, f.1, absent f))
        ]

    page_ids_lem :
        (k : ℕ) (entries : List ℕ)
        → ((fe : ℕ) → 0 < count fe entries → 0 < count fe (contents pfa.buddy_lists k))
        → (ids : List ℕ) × (page_ids entries ≡ ok ids)
          × ((p : ℕ) → 0 < count p ids → IsFree pfa k p)
          × ((p : ℕ)
              → 0 < count (free_entry_kva physmap_vm_base p) entries
              → IsFree pfa k p
              → 0 < count p ids)
    unfolding page_ids
    page_ids_lem k [] listed = (
      [],
      refl,
      λ p some. absurd (omega (arith, count_nil p [] refl)),
      λ p some. absurd (omega (arith, count_nil (free_entry_kva physmap_vm_base p) [] refl)),
    )
    page_ids_lem k (fe ∷ entries) listed =
        let (q, e, f, at) = entry_lem k fe (listed fe (ground (arith, count-cons fe fe entries))) in
        let (ids, e', only, all) =
          page_ids_lem k entries
            (λ e some. listed e (ground (arith, some, count-cons e fe entries))) in
        (
          q ∷ ids,
          rw (e, e') refl,
          λ p some. elim (ℕ_discrete q p) [
            | yes same ↦ subst (IsFree pfa k) same f
            | no other ↦ only p (ground (arith, some, count-cons p q ids))
          ],
          λ p some g. elim (ℕ_discrete q p) [
            | yes same ↦ ground (arith, same, count-cons p q ids)
            | no other ↦ ground (
              arith,
              all p,
              g,
              some,
              at,
              kva_apart k p q g k f other,
              count-cons p q ids,
              count-cons (free_entry_kva physmap_vm_base p) fe entries,
            )
          ],
        )

    -- The line of a level has the number of its free entries and, if these are fewer than 100, the
    -- pages that they start at.
    pub dump_level_lem :
        (k : ℕ)
        → (ids : List ℕ) × (dump_level k pfa ≡ ok (length (contents pfa.buddy_lists k), ids))
          × (length (contents pfa.buddy_lists k) < 100
              → (p : ℕ) → (0 < count p ids) ↔ IsFree pfa k p)
    unfolding dump_level
    dump_level_lem k =
        let (ids, e, only, all) = page_ids_lem k (contents pfa.buddy_lists k) (λ fe some. some) in
        elim (Bool-cases (ltb (length (contents pfa.buddy_lists k)) 100)) [
          | inl few ↦ (
            ids,
            rw (size_lem pfa.buddy_lists k, few, e) refl,
            λ lt p. (only p, λ f. all p (omega (arith, inv.linked k p f.0, f.1)) f),
          )
          | inr many ↦ ([], rw (size_lem pfa.buddy_lists k, many) refl, λ lt. absurd (ground arith))
        ]

    dump_levels_lem :
        (levels k : ℕ) → (lines : List (ℕ × List ℕ)) × (dump_levels levels k pfa ≡ ok lines)
    unfolding dump_levels
    dump_levels_lem zero k = ([], refl)
    dump_levels_lem (suc levels) k =
        let (ids, e, _) = dump_level_lem k in
        let (lines, e') = dump_levels_lem levels (k + 1) in
        ((length (contents pfa.buddy_lists k), ids) ∷ lines, rw (e, e') refl)

    -- The dump comes to its end.
    pub dump_state_returns : (lines : List (ℕ × List ℕ)) × (dump_state pfa ≡ ok lines)
    unfolding dump_state
    dump_state_returns = dump_levels_lem buddy_levels 0

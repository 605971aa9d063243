-- ===== src/Pfa/Insert/Canonical.antt =====
-- buddy_insert_range_freed_locked does not merge, and need not where its range meets no free entry
-- that could be merged with what is inserted.
use swink.Common.{
  ℕ, zero, suc, ◌+◌, ◌-◌, ◌*◌, ◌%◌, ◌^◌, ◌≤◌, ◌<◌, min, ◌≡◌, ◌≢◌, ◌⊎◌, inl, inr, ◌∙◌, ap, sym,
  subst, arith, Result, ok, panic, diverges, dec_lt, dec_le,
}
use native.Mathlib.Nat.{one-le-pow, two-pow-succ}
use swink.Common.Word.{u32, sub32}
use swink.LinkedLists.{LinkedLists}
use swink.Pmap.{page_shift}
use swink.Pfa.Levels.{
  get_buddy_page_id_for_page, max_buddy_level_for_page_alignment,
  min_buddy_level_for_size_no_overflow,
}
use swink.Pfa.Levels.Bounds.{by_level, max_level_maximal, no_overflow_fits}
use swink.Pfa.Levels.Buddies.{halves_aligned, buddy-AreHalves}
use swink.Pfa.State.{Pfa}
use swink.Pfa.Insert.{
  free_entry_kva, insert_level, push_free_entry, insert_from, buddy_insert_range_freed_locked,
}
use swink.Pfa.Insert.Push.{push-IsMerged}
use swink.Pfa.Insert.Range.{
  AreAllocated, block-IsAllocated, push-Freed, push-IsFree, insert_level_fits, insert_step,
  insert_stop,
}
use swink.Pfa.Invariant.{IsBlock, IsFree, IsAllocated, IsMerged, Inv}

twice : (l : ℕ) → 2 ^ (l + 1) ≡ 2 * 2 ^ l
twice l = omega (arith, ap (λ (t : ℕ). 2 ^ t) {x = l + 1} {y = suc l} (omega arith), two-pow-succ l)

-- Below the top level, an entry is as large as its alignment lets it be or as the range does.
insert_level_limit :
    (limit i : ℕ)
    → i < limit
    → limit - i < 2 ^ 20
    → insert_level limit i < 5
    → (i % (2 * 2 ^ insert_level limit i) ≢ 0) ⊎ (limit < i + 2 * 2 ^ insert_level limit i)
unfolding insert_level
insert_level_limit limit i lt small below =
    let aligned = max_buddy_level_for_page_alignment i in
    let size = u32 (sub32 limit i * 2 ^ page_shift) in
    let sized = min_buddy_level_for_size_no_overflow size in
    elim (dec_le aligned sized) [
      | yes le ↦
          limits (min aligned sized) aligned (omega arith)
            (inl (max_level_maximal i (aligned + 1) (omega arith) (omega arith)))
      | no above ↦
          limits (min aligned sized) sized (omega arith)
            (inr (omega (arith, no_overflow_fits size, twice sized)))
    ]
  where
    limits :
        (l k : ℕ)
        → l ≡ k
        → (i % 2 ^ (k + 1) ≢ 0) ⊎ (limit < i + 2 * 2 ^ k)
        → (i % (2 * 2 ^ l) ≢ 0) ⊎ (limit < i + 2 * 2 ^ l)
    limits l k same (inl odd) = inl (λ even.
        odd (ap (λ (t : ℕ). i % t) (twice k ∙ ap (λ (t : ℕ). 2 * 2 ^ t) (sym same)) ∙ even))
    limits l k same (inr past) = inr (omega (arith, ap (λ (t : ℕ). 2 ^ t) same))

-- After an entry that is as large as its alignment lets it be, the next level's alignment is met.
next_aligned :
    (l i : ℕ) → l < 5 → i % 2 ^ l ≡ 0 → i % (2 * 2 ^ l) ≢ 0 → (i + 2 ^ l) % (2 * 2 ^ l) ≡ 0
next_aligned l i lt =
    by_level (λ l. i % 2 ^ l ≡ 0 → i % (2 * 2 ^ l) ≢ 0 → (i + 2 ^ l) % (2 * 2 ^ l) ≡ 0)
      (λ a b. omega arith) (λ a b. omega arith) (λ a b. omega arith) (λ a b. omega arith)
      (λ a b. omega arith) (λ a b. omega arith) l (omega arith)

-- What the loop keeps: an entry that ends where it goes on cannot be merged with the next one, and
-- no free entry straddles the end of the range where a merge would have to.
abbrev pub Meets : {S : Type 0} → Pfa S → ℕ → ℕ → Type 0
Meets pfa limit i =
    (a q : ℕ) → a < 5 → IsFree pfa a q → q + 2 ^ a ≡ i → (i % (2 * 2 ^ a) ≡ 0) ⊎ (limit < i + 2 ^ a)

abbrev pub NoneAcross : {S : Type 0} → Pfa S → ℕ → ℕ → Type 0
NoneAcross pfa start limit =
    (l i : ℕ)
    → l < 5
    → start ≤ i
    → i < limit
    → i % (2 * 2 ^ l) ≡ 0
    → limit < i + 2 * 2 ^ l
    → ¬ IsFree pfa l (i + 2 ^ l)

-- What a result of the loop leaves to merge.
abbrev pub LeavesMerged : {S : Type 0} → Result (ℕ × Pfa S) → Type 0
LeavesMerged (ok (fe, pfa)) = IsMerged pfa
LeavesMerged panic = Unit
LeavesMerged diverges = Unit

module _ (lists : LinkedLists) (V : ℕ) where
  open lists use {Store}

  module _ (start limit i : ℕ) (pfa : Pfa Store) (inv : Inv lists V pfa) (go : i < limit)
      (from : start ≤ i) (few : limit - i < 2 ^ 20) (small : limit ≤ 2 ^ 20)
      (block : IsBlock pfa (insert_level limit i) i)
      (fresh : IsAllocated pfa (insert_level limit i) i)
      (room : i + 2 ^ insert_level limit i ≤ limit) (meets : Meets pfa limit i)
      (across : NoneAcross pfa start limit) where
    abbrev l : ℕ
    l = insert_level limit i

    abbrev pushed : Pfa Store
    pushed = push_free_entry lists (free_entry_kva V i) i l pfa

    buddy_taken : l < 5 → ¬ IsFree pfa l (get_buddy_page_id_for_page i l)
    buddy_taken lt f =
        let halves = buddy-AreHalves i l lt (omega arith) block.3 in
        elim halves.1 [
          | inl (at_root, right) ↦ elim (insert_level_limit limit i go few lt) [
            | inl odd ↦ absurd (odd (ap (λ (t : ℕ). t % (2 * 2 ^ l)) at_root ∙ halves.0))
            | inr past ↦
                across l i lt from go (ap (λ (t : ℕ). t % (2 * 2 ^ l)) at_root ∙ halves.0) past
                  (subst (IsFree pfa l) (omega arith) f)
          ]
          | inr (at_right, left) ↦ omega (
            arith,
            meets l (get_buddy_page_id_for_page i l) lt f (omega arith),
            room,
            one-le-pow l 2,
            ap (λ (t : ℕ). t % (2 * 2 ^ l)) at_right,
            (halves_aligned l _ lt halves.0).2,
          )
        ]

    step-IsMerged : IsMerged pfa → IsMerged pushed
    step-IsMerged =
        push-IsMerged lists V pfa inv l i block fresh (elim (dec_lt l 5) [
          | yes lt ↦ inr (buddy_taken lt)
          | no top ↦ inl (omega (arith, block))
        ])

    step-Meets : Meets pushed limit (i + 2 ^ l)
    step-Meets a q lt f ends = elim (push-IsFree lists V pfa l i inv block fresh a q f) [
      | inr old ↦ absurd (omega (arith, fresh a q old, one-le-pow l 2, one-le-pow a 2))
      | inl (ea, eq) ↦ elim (insert_level_limit limit i go few (omega arith)) [
        | inl odd ↦ inl (
            subst (λ t. (i + 2 ^ l) % (2 * 2 ^ t) ≡ 0) (sym ea)
              (next_aligned l i (omega arith) block.3 odd))
        | inr past ↦ inr (omega (arith, ap (λ (t : ℕ). 2 ^ t) ea))
      ]
    ]

    step-NoneAcross : NoneAcross pushed start limit
    step-NoneAcross j x lt lo hi al past f =
        elim (push-IsFree lists V pfa l i inv block fresh j (x + 2 ^ j) f) [
          | inr old ↦ across j x lt lo hi al past old
          | inl (ej, ex) ↦ omega (arith, ap (λ (t : ℕ). 2 ^ t) ej, room)
        ]

  insert_from-LeavesMerged :
      (fuel start limit i fe : ℕ) (pfa : Pfa Store)
      → Inv lists V pfa
      → pfa.page_base ≤ i
      → start ≤ i
      → limit ≤ pfa.page_base + pfa.page_count
      → limit - i < 2 ^ 20
      → AreAllocated lists V pfa i limit
      → Meets pfa limit i
      → NoneAcross pfa start limit
      → IsMerged pfa
      → LeavesMerged (insert_from lists V fuel limit i fe pfa)
  insert_from-LeavesMerged zero start limit i fe pfa inv lo from hi few all meets across before =
      unfold insert_from in tt
  insert_from-LeavesMerged (suc fuel) start limit i fe pfa inv lo from hi few all meets across
        before =
      elim (dec_lt i limit) [
        | no stop ↦ rw (insert_stop lists V fuel limit i fe pfa (omega arith)) before
        | yes go ↦
            let small : limit ≤ 2 ^ 20 = omega (arith, inv.small) in
            let level = insert_level limit i in
            let (below, room, al) = insert_level_fits limit i go small in
            let block : IsBlock pfa level i = (below, lo, omega arith, al) in
            let fresh =
              block-IsAllocated lists V pfa level i i limit below (omega arith) room all in
            let f = push-Freed lists V pfa level i inv block fresh in
            let still : AreAllocated lists V
                (push_free_entry lists (free_entry_kva V i) i level pfa) (i + 2 ^ level) limit =
              λ x low high h. elim (f.only x h) [
                | inl old ↦ all x (omega arith) high old
                | inr (_, past) ↦ omega arith
              ] in
            rw (insert_step lists V fuel limit i fe pfa go small) (
              insert_from-LeavesMerged fuel start limit (i + 2 ^ level) (free_entry_kva V i)
                (push_free_entry lists (free_entry_kva V i) i level pfa) f.inv
                (omega (arith, f.same_base)) (omega arith)
                (omega (arith, f.same_base, f.same_count)) (omega arith) still
                (step-Meets start limit i pfa inv go from few small block fresh room meets across)
                (step-NoneAcross start limit i pfa inv go from few small block fresh room meets
                  across)
                (step-IsMerged start limit i pfa inv go from few small block fresh room meets across
                  before))
      ]

  -- Fewer than 2 ^ 20 managed pages, none of them free, are inserted with nothing left to merge, if
  -- there was nothing before, no free entry ends where the range begins, and none begins in the
  -- range where it would be merged with an entry of it.
  pub insert_range-IsMerged :
      (base page_count fe : ℕ) (pfa pfa' : Pfa Store)
      → Inv lists V pfa
      → pfa.page_base ≤ base
      → base + page_count ≤ pfa.page_base + pfa.page_count
      → page_count < 2 ^ 20
      → AreAllocated lists V pfa base (base + page_count)
      → Meets pfa (base + page_count) base
      → NoneAcross pfa base (base + page_count)
      → IsMerged pfa
      → buddy_insert_range_freed_locked lists V base page_count pfa ≡ ok (fe, pfa')
      → IsMerged pfa'
  unfolding buddy_insert_range_freed_locked
  insert_range-IsMerged base page_count fe pfa pfa' inv lo hi few all meets across before e =
      let limit : u32 (base + page_count) ≡ base + page_count = omega (arith, inv.small) in
      subst LeavesMerged e (
        rw limit (
          insert_from-LeavesMerged (suc page_count) base (base + page_count) base 0 pfa inv lo
            (omega arith) hi (omega arith) all meets across before))

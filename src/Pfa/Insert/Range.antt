-- ===== src/Pfa/Insert/Range.antt =====
-- buddy_insert_range_freed_locked makes exactly the pages of its range free, and its assertions hold.
use swink.Common.{
  ℕ, zero, suc, ◌+◌, ◌-◌, ◌*◌, ◌%◌, ◌^◌, ◌≤◌, ◌<◌, min, ◌≡◌, refl, ◌⊎◌, inl, inr, arith, lt→ltb,
  le→leb, le→ltb_false, ◌∙◌, dec_lt, max, ok, ℕ_discrete, ap,
}
use native.Mathlib.Nat.{le_trans, pow-le-pow_right, one-le-pow}
use swink.Common.Word.{u32, sub32}
use swink.LinkedLists.{LinkedLists}
use swink.Pmap.{page_shift}
use swink.Pfa.Levels.{
  buddy_levels, max_buddy_level_for_page_alignment, min_buddy_level_for_size_no_overflow, grow,
}
use swink.Pfa.Levels.Bounds.{
  max_level-lt, max_level-mod, no_overflow_fits, pow_small, buddy_level_page_count_lem,
}
use swink.Pfa.State.{Pfa, buddy_bitmap_set_bit_locked}
use swink.Pfa.Insert.{
  free_entry_kva, insert_level, push_free_entry, insert_from, buddy_insert_range_freed_locked,
}
use swink.Pfa.Invariant.{
  IsBlock, IsFree, IsFreePage, IsAllocated, Inv, push-Change, Change-Inv, old-IsFree, IsFree-kept,
  changed-IsFree,
}

no_overflow-zero : min_buddy_level_for_size_no_overflow 0 ≡ 0
unfolding min_buddy_level_for_size_no_overflow grow
no_overflow-zero = refl

no_overflow_room :
    (n : ℕ)
    → 0 < n
    → n ≤ 2 ^ 20
    → (min_buddy_level_for_size_no_overflow (u32 (n * 2 ^ page_shift)) < buddy_levels)
      × (2 ^ min_buddy_level_for_size_no_overflow (u32 (n * 2 ^ page_shift)) ≤ n)
no_overflow_room n pos hi = elim (ℕ_discrete n (2 ^ 20)) [
  | yes all ↦ rw (all, no_overflow-zero) (omega arith, omega arith)
  | no part ↦ omega (arith, no_overflow_fits (u32 (n * 2 ^ page_shift)))
]

pow-min : (a b n : ℕ) → 2 ^ b ≤ n → 2 ^ min a b ≤ n
pow-min a b n h = le_trans (pow-le-pow_right (omega arith) (omega arith)) h

-- For a page before the end of a range that ends at page 2 ^ 20 or before, the level chosen for the
-- next entry is one of the six, the entry ends within the range, and the page is aligned for it.
pub insert_level_fits :
    (limit i : ℕ)
    → i < limit
    → limit ≤ 2 ^ 20
    → (insert_level limit i < buddy_levels)
      × (i + 2 ^ insert_level limit i ≤ limit)
      × (i % 2 ^ insert_level limit i ≡ 0)
unfolding insert_level
insert_level_fits limit i lt small =
    let left : sub32 limit i ≡ limit - i = omega arith in
    rw left (
      omega (arith, max_level-lt i),
      omega (
        arith,
        pow-min (max_buddy_level_for_page_alignment i) _ (limit - i)
            (no_overflow_room (limit - i) (omega arith) (omega arith)).1,
      ),
      max_level-mod i _ (omega arith),
    )

module _ (lists : LinkedLists) (V : ℕ) where
  open lists use {Store}

  -- What has become free: the pages from `lo` to `hi`, and nothing else has changed.
  pub record Freed (pfa pfa' : Pfa Store) (lo hi : ℕ) : Type 0 where
    pub inv : Inv lists V pfa'
    pub same_base : pfa'.page_base ≡ pfa.page_base
    pub same_count : pfa'.page_count ≡ pfa.page_count
    pub same_metadata : pfa'.metadata ≡ pfa.metadata
    pub same_lock : pfa'.lock ≡ pfa.lock
    pub kept : (x : ℕ) → IsFreePage pfa x → IsFreePage pfa' x
    pub freed : (x : ℕ) → lo ≤ x → x < hi → IsFreePage pfa' x
    pub only : (x : ℕ) → IsFreePage pfa' x → IsFreePage pfa x ⊎ ((lo ≤ x) × (x < hi))

  pub insert_step :
      (fuel limit i fe : ℕ) (pfa : Pfa Store)
      → i < limit
      → limit ≤ 2 ^ 20
      → insert_from lists V (suc fuel) limit i fe pfa
        ≡ insert_from lists V fuel limit
            (i + 2 ^ insert_level limit i)
            (free_entry_kva V i)
            (push_free_entry lists (free_entry_kva V i) i (insert_level limit i) pfa)
  unfolding insert_from
  insert_step fuel limit i fe pfa lt small =
      let (below, room, al) = insert_level_fits limit i lt small in
      rw
        (
          lt→ltb i limit lt,
          le→leb 0 (insert_level limit i) (omega arith),
          lt→ltb (insert_level limit i) buddy_levels below,
          le→leb (2 ^ insert_level limit i) (sub32 limit i) (omega arith),
          buddy_level_page_count_lem (insert_level limit i) below,
        )
        (ap
          (λ t.
            insert_from lists V fuel limit t (free_entry_kva V i)
              (push_free_entry lists (free_entry_kva V i) i (insert_level limit i) pfa))
          (omega arith))

  pub insert_stop :
      (fuel limit i fe : ℕ) (pfa : Pfa Store)
      → limit ≤ i
      → insert_from lists V (suc fuel) limit i fe pfa ≡ ok (fe, pfa)
  unfolding insert_from
  insert_stop fuel limit i fe pfa le = rw (le→ltb_false i limit le)

  -- None of the pages from `lo` to `hi` is in a free entry.
  abbrev pub AreAllocated : Pfa Store → ℕ → ℕ → Type 0
  AreAllocated pfa lo hi = (x : ℕ) → lo ≤ x → x < hi → ¬ IsFreePage pfa x

  pub block-IsAllocated :
      (pfa : Pfa Store) (k p lo hi : ℕ)
      → k < buddy_levels
      → lo ≤ p
      → p + 2 ^ k ≤ hi
      → AreAllocated pfa lo hi
      → IsAllocated pfa k p
  block-IsAllocated pfa k p lo hi lt low high all j q f = elim (dec_lt q (p + 2 ^ k)) [
    | yes a ↦ elim (dec_lt p (q + 2 ^ j)) [
      | yes b ↦ absurd (
          all (max p q) (omega arith) (ground (arith, one-le-pow k 2))
            (j, q, f, omega arith, ground (arith, one-le-pow j 2, one-le-pow k 2)))
      | no b ↦ inr (omega arith)
    ]
    | no a ↦ inl (omega arith)
  ]

  -- The new entry is the only new one.
  pub push-IsFree :
      (pfa : Pfa Store) (k p : ℕ)
      → Inv lists V pfa
      → IsBlock pfa k p
      → IsAllocated pfa k p
      → (j q : ℕ) → IsFree (push_free_entry lists (free_entry_kva V p) p k pfa) j q
      → ((j ≡ k) × (q ≡ p)) ⊎ IsFree pfa j q
  push-IsFree pfa k p inv b fresh j q f =
      elim (old-IsFree lists V inv b (omega arith) (λ _. fresh)
        (push-Change lists V pfa inv k p b fresh) j q f) [
          | inl (_, ej, eq) ↦ inl (ej, eq)
          | inr old ↦ inr old
        ]

  pub push-Freed :
      (pfa : Pfa Store) (k p : ℕ)
      → Inv lists V pfa
      → IsBlock pfa k p
      → IsAllocated pfa k p
      → Freed pfa (push_free_entry lists (free_entry_kva V p) p k pfa) p (p + 2 ^ k)
  unfolding push_free_entry buddy_bitmap_set_bit_locked
  push-Freed pfa k p inv b fresh =
      let c = push-Change lists V pfa inv k p b fresh in
      record {
        inv = Change-Inv lists V inv b (omega arith) (λ _. fresh) c;
        same_base = refl;
        same_count = refl;
        same_metadata = refl;
        same_lock = refl;
        kept = λ x f.
            let (j, q, g, lo, hi) = f in
            (j, q, IsFree-kept lists V inv b (omega arith) (λ _. fresh) c j q refl g, lo, hi);
        freed = λ x lo hi.
            (k, p, (changed-IsFree lists V inv b (omega arith) (λ _. fresh) c).1 refl, lo, hi);
        only = λ x f.
            let (j, q, g, lo, hi) = f in
            elim (old-IsFree lists V inv b (omega arith) (λ _. fresh) c j q g) [
              | inl (_, ej, eq) ↦ inr (ground arith)
              | inr old ↦ inl (j, q, old, lo, hi)
            ];
      }

  -- Two ranges, one after the other.
  pub Freed-trans :
      (pfa pfa' pfa'' : Pfa Store) (lo mid hi : ℕ)
      → lo ≤ mid
      → mid ≤ hi
      → Freed pfa pfa' lo mid
      → Freed pfa' pfa'' mid hi
      → Freed pfa pfa'' lo hi
  Freed-trans pfa pfa' pfa'' lo mid hi le le' f g = record {
    inv = g.inv;
    same_base = g.same_base ∙ f.same_base;
    same_count = g.same_count ∙ f.same_count;
    same_metadata = g.same_metadata ∙ f.same_metadata;
    same_lock = g.same_lock ∙ f.same_lock;
    kept = λ x h. g.kept x (f.kept x h);
    freed = λ x low high. elim (dec_lt x mid) [
      | yes below ↦ g.kept x (f.freed x low below)
      | no above ↦ g.freed x (omega arith) high
    ];
    only = λ x h. elim (g.only x h) [
      | inl before ↦ elim (f.only x before) [
        | inl old ↦ inl old
        | inr (low, high) ↦ inr (low, omega arith)
      ]
      | inr (low, high) ↦ inr (omega arith, high)
    ];
  }

  pub Freed-none : (pfa : Pfa Store) (lo hi : ℕ) → hi ≤ lo → Inv lists V pfa → Freed pfa pfa lo hi
  Freed-none pfa lo hi le inv = record {
    inv = inv;
    same_base = refl;
    same_count = refl;
    same_metadata = refl;
    same_lock = refl;
    kept = λ x h. h;
    freed = λ x low high. absurd (omega arith);
    only = λ x h. inl h;
  }

  -- The loop ends, its assertions hold, and it makes the pages from `i` to `limit` free.
  pub insert_from_lem :
      (fuel limit i fe : ℕ) (pfa : Pfa Store)
      → Inv lists V pfa
      → pfa.page_base ≤ i
      → i ≤ limit
      → limit ≤ pfa.page_base + pfa.page_count
      → AreAllocated pfa i limit
      → limit - i < fuel
      → (fe' : ℕ) × (pfa' : Pfa Store) × (insert_from lists V fuel limit i fe pfa ≡ ok (fe', pfa'))
        × Freed pfa pfa' i limit
  insert_from_lem zero limit i fe pfa inv lo le hi all enough = absurd (omega arith)
  insert_from_lem (suc fuel) limit i fe pfa inv lo le hi all enough = elim (dec_lt i limit) [
    | no stop ↦ (
      fe,
      pfa,
      insert_stop fuel limit i fe pfa (omega arith),
      Freed-none pfa i limit (omega arith) inv,
    )
    | yes go ↦
        let level = insert_level limit i in
        let (below, room, al) = insert_level_fits limit i go (omega (arith, inv.small)) in
        let block : IsBlock pfa level i = (below, lo, omega arith, al) in
        let f =
          push-Freed pfa level i inv block
            (block-IsAllocated pfa level i i limit below (omega arith) room all) in
        let still : AreAllocated (push_free_entry lists (free_entry_kva V i) i level pfa)
            (i + 2 ^ level) limit =
          λ x low high h. elim (f.only x h) [
            | inl old ↦ all x (omega arith) high old
            | inr (_, past) ↦ omega arith
          ] in
        let (fe', pfa', e, g) =
          insert_from_lem fuel limit (i + 2 ^ level) (free_entry_kva V i)
            (push_free_entry lists (free_entry_kva V i) i level pfa) f.inv
            (omega (arith, f.same_base)) room (omega (arith, f.same_base, f.same_count)) still
            (omega (arith, pow_small level below)) in
        (
          fe',
          pfa',
          insert_step fuel limit i fe pfa go (omega (arith, inv.small)) ∙ e,
          Freed-trans pfa _ pfa' i (i + 2 ^ level) limit (omega arith) room f g,
        )
  ]

  -- From a state that satisfies the invariant, inserting a range of managed pages of which none is
  -- free returns: the fuel, one more than the number of pages, is enough, and no assertion fails.
  -- The pages of the range are free afterwards, those that were free before still are, and no
  -- other; the invariant holds, and lock and metadata are as they were.
  pub insert_range_lem :
      (base page_count : ℕ) (pfa : Pfa Store)
      → Inv lists V pfa
      → pfa.page_base ≤ base
      → base + page_count ≤ pfa.page_base + pfa.page_count
      → AreAllocated pfa base (base + page_count)
      → (fe : ℕ) × (pfa' : Pfa Store) × (buddy_insert_range_freed_locked lists V base page_count pfa
          ≡ ok (fe, pfa'))
        × Freed pfa pfa' base (base + page_count)
  unfolding buddy_insert_range_freed_locked
  insert_range_lem base page_count pfa inv lo hi all =
      let limit : u32 (base + page_count) ≡ base + page_count = omega (arith, inv.small) in
      rw limit (
        insert_from_lem (suc page_count) (base + page_count) base 0 pfa inv lo (omega arith) hi all
          (omega arith))

-- ===== src/Pfa/Alloc/Small.antt =====
-- What pmap_pfa_alloc_contig does with the entry that it found, and the whole function.
use swink.Common.{ℕ, ◌+◌, ◌-◌, ◌*◌, ◌^◌, ◌≤◌, ◌<◌, ◌≡◌, refl, inl, inr, ◌∙◌, arith, ok, dec_lt}
use swink.Common.Word.{u32, sub32}
use swink.LinkedLists.{LinkedLists}
use swink.Pmap.{page_size}
use swink.Pfa.Levels.{buddy_levels, buddy_level_page_count, pa_to_page_id}
use swink.Pfa.Levels.Bounds.{pow_small, buddy_level_page_count_lem}
use swink.Pfa.State.{Pfa, buddy_bitmap_set_bit_locked}
use swink.Pfa.Insert.{free_entry_kva, remove_free_entry, buddy_insert_range_freed_locked}
use swink.Pfa.Insert.Range.{Freed, AreAllocated, insert_range_lem}
use swink.Pfa.Metadata.Apply.{apply_metadata_lem}
use swink.Pfa.Metadata.{apply_metadata_range_locked, fill}
use swink.Pfa.Invariant.{IsFree, IsFreePage, Inv, Inv-other, IsMerged, Taken, remove-Taken}
use swink.Pfa.Alloc.Canonical.{split-IsMerged}
use swink.Pfa.Alloc.{take_entry}

page_id_of_page : (p : ℕ) → p < 2 ^ 32 → pa_to_page_id (p * page_size) ≡ p
unfolding pa_to_page_id
page_id_of_page p h = omega arith

module _ (lists : LinkedLists) (V : ℕ) where
  open lists use {Store}

  -- `n` pages from `page` on are allocated with the metadata given, and nothing else has changed.
  pub record Allocated (pfa pfa' : Pfa Store) (page n m : ℕ) : Type 0 where
    pub taken : Taken lists V pfa pfa' page (page + n)
    pub were_free : (x : ℕ) → page ≤ x → x < page + n → IsFreePage pfa x
    pub managed : (pfa.page_base ≤ page) × (page + n ≤ pfa.page_base + pfa.page_count)
    pub same_metadata : pfa'.metadata ≡ fill pfa.metadata (page - pfa.page_base) n m

  -- What is left of the entry behind the `n` pages can be put back.
  rest_allocated :
      (pfa pfa' : Pfa Store) (p n size : ℕ)
      → n ≤ size
      → Taken lists V pfa pfa' p (p + size)
      → AreAllocated lists V pfa' (p + n) (p + n + (size - n))
  rest_allocated pfa pfa' p n size fits t x lo hi h = omega (arith, ((t.free x).0 h).1)

  take_entry_eq :
      (n m k p fe : ℕ) (pfa pfa' : Pfa Store)
      → k < buddy_levels
      → n ≤ 2 ^ k
      → p + n ≤ 2 ^ 20
      → buddy_insert_range_freed_locked lists V
          (p + n)
          (2 ^ k - n)
          (remove_free_entry lists (free_entry_kva V p) p k pfa)
        ≡ ok (fe, pfa')
      → apply_metadata_range_locked p n m pfa'
        ≡ ok (record pfa' { metadata = fill pfa'.metadata (p - pfa'.page_base) n m })
      → take_entry lists V n m k (free_entry_kva V p) (p * page_size) pfa
        ≡ ok (p * page_size, record pfa' { metadata = fill pfa'.metadata (p - pfa'.page_base) n m })
  unfolding take_entry
  take_entry_eq n m k p fe pfa pfa' lt fits small e applied =
      let end : u32 (p + n) ≡ p + n = omega arith in
      let rest : sub32 (buddy_level_page_count k) n ≡ 2 ^ k - n =
        omega (arith, buddy_level_page_count_lem k lt, pow_small k lt) in
      rw (page_id_of_page p (omega arith), end, rest, e) (rw applied)

  Taken-Allocated :
      (n m k p : ℕ) (pfa removed pfa' : Pfa Store)
      → n ≤ 2 ^ k
      → IsFree pfa k p
      → Taken lists V pfa removed p (p + 2 ^ k)
      → Freed lists V removed pfa' (p + n) (p + n + (2 ^ k - n))
      → removed.metadata ≡ pfa.metadata
      → Allocated pfa (record pfa' { metadata = fill pfa'.metadata (p - pfa'.page_base) n m }) p n m
  Taken-Allocated n m k p pfa removed pfa' fits f t g same = record {
    taken = record {
      inv = Inv-other lists V pfa' pfa'.lock _ g.inv;
      same_base = g.same_base ∙ t.same_base;
      same_count = g.same_count ∙ t.same_count;
      same_lock = g.same_lock ∙ t.same_lock;
      free = λ x. (
        λ h. elim (g.only x h) [
          | inl before ↦ (((t.free x).0 before).0, omega (arith, ((t.free x).0 before).1))
          | inr (lo, hi) ↦ ((k, p, f, omega arith, omega arith), inr lo)
        ],
        λ h. elim (dec_lt x (p + 2 ^ k)) [
          | yes within ↦ elim (dec_lt x p) [
            | yes below ↦ g.kept x ((t.free x).1 (h.0, inl below))
            | no above ↦ g.freed x (omega (arith, h.1)) (omega arith)
          ]
          | no past ↦ g.kept x ((t.free x).1 (h.0, inr (omega arith)))
        ],
      );
    };
    were_free = λ x lo hi. (k, p, f, lo, omega arith);
    managed = (f.0.1, omega (arith, f.0.2));
    same_metadata = cc (g.same_metadata, same, g.same_base, t.same_base);
  }

  metadata-remove :
      (k p : ℕ) (pfa : Pfa Store)
      → (remove_free_entry lists (free_entry_kva V p) p k pfa).metadata ≡ pfa.metadata
  unfolding remove_free_entry buddy_bitmap_set_bit_locked
  metadata-remove k p pfa = refl

  pub take_entry_lem :
      (n m k p : ℕ) (pfa : Pfa Store)
      → Inv lists V pfa
      → IsFree pfa k p
      → n ≤ 2 ^ k
      → (pfa' : Pfa Store) × (take_entry lists V n m k (free_entry_kva V p) (p * page_size) pfa
          ≡ ok (p * page_size, pfa'))
        × Allocated pfa pfa' p n m
        × (0 < n → IsMerged pfa → IsMerged pfa')
  take_entry_lem n m k p pfa inv f fits =
      let t = remove-Taken lists V pfa k p inv f in
      let (fe, pfa', e, g) =
        insert_range_lem lists V (p + n) (2 ^ k - n)
          (remove_free_entry lists (free_entry_kva V p) p k pfa) t.inv (omega (arith, t.same_base))
          (omega (arith, t.same_base, t.same_count)) (rest_allocated pfa _ p n (2 ^ k) fits t) in
      (
        record pfa' { metadata = fill pfa'.metadata (p - pfa'.page_base) n m },
        take_entry_eq n m k p fe pfa pfa' f.0.0 fits (omega (arith, inv.small)) e (
            apply_metadata_lem p n m pfa' (omega (arith, g.same_base, t.same_base))
              (omega (arith, g.same_base, t.same_base, g.same_count, t.same_count)) g.inv.small),
        Taken-Allocated n m k p pfa _ pfa' fits f t g (metadata-remove k p pfa),
        λ some_page before. split-IsMerged lists V n k p pfa inv f some_page fits fe pfa' e before,
      )

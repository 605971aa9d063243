-- ===== src/Pfa/Init/Pages.antt =====
-- The calls of pmap_pfa_init on the pages: the insertion of the free ones, and the metadata of the
-- others.
use swink.Common.{
  ℕ, ◌+◌, ◌-◌, ◌*◌, ◌/◌, ◌^◌, ◌≤◌, ◌<◌, ◌≡◌, ◌↔◌, inl, inr, ◌∙◌, ap, arith, ok, count,
}
use native.Mathlib.Nat.{one-le-pow}
use swink.Common.Word.{u32, sub64}
use swink.LinkedLists.{LinkedLists}
use swink.Synchs.{Lock}
use swink.Pmap.{page_size}
use swink.Pfa.Levels.{buddy_levels, pa_to_page_id, size_to_page_count}
use swink.Pfa.State.{Pfa}
use swink.Pfa.Insert.{buddy_insert_range_freed_locked}
use swink.Pfa.Insert.Range.{insert_range_lem}
use swink.Pfa.Metadata.{apply_metadata_range_locked, fill, kernel_data, kernel_text, page_type_code}
use swink.Pfa.Metadata.Apply.{apply_metadata_lem}
use swink.Pfa.Invariant.{IsFree, IsFreePage, IsMerged, Inv, Inv-other}
use swink.Pfa.Init.{
  Layout, init_pages, bitmaps_written, metadata_written, overlaid_bitmaps, overlaid_metadata,
  word_at,
}
use swink.Pfa.Init.Memory.{
  Initialised, HaveOrder, overlaid_before, overlaid_behind, filled, unfilled, filled_twice,
  all_outside, untouched_slot,
}
use swink.Pfa.Insert.Canonical.{insert_range-IsMerged}

pub whole_pages : (m : ℕ) → m ≤ 2 ^ 20 → size_to_page_count (m * page_size) ≡ m
unfolding size_to_page_count
whole_pages m h = omega arith

module _ (lists : LinkedLists) (V : ℕ) (l : Layout) where
  open lists use {Store, contents}

  init_pages_eq :
      (text_base text_size data_base data_size n reserved fe : ℕ) (pfa p1 p2 p3 p4 : Pfa Store)
      → reserved ≤ n
      → n ≤ 2 ^ 20
      → text_base / page_size < 2 ^ 32
      → data_base / page_size < 2 ^ 32
      → buddy_insert_range_freed_locked lists V reserved (n - reserved) pfa ≡ ok (fe, p1)
      → apply_metadata_range_locked 0 reserved (page_type_code kernel_data) (bitmaps_written l p1)
        ≡ ok p2
      → apply_metadata_range_locked
          (data_base / page_size)
          (size_to_page_count data_size)
          (page_type_code kernel_data)
          (metadata_written l p2)
        ≡ ok p3
      → apply_metadata_range_locked
          (text_base / page_size)
          (size_to_page_count text_size)
          (page_type_code kernel_text)
          (metadata_written l p3)
        ≡ ok p4
      → init_pages lists V l 0
          (n * page_size)
          text_base
          text_size
          data_base
          data_size
          (reserved * page_size)
          pfa
        ≡ ok (metadata_written l p4)
  unfolding init_pages pa_to_page_id
  init_pages_eq text_base text_size data_base data_size n reserved fe pfa p1 p2 p3 p4 le small text
        data_in e1 e2 e3 e4 =
      let start : u32 (reserved * page_size / page_size) ≡ reserved = omega arith in
      let rest : size_to_page_count (sub64 (sub64 (n * page_size) 0) (reserved * page_size))
          ≡ n - reserved =
        ap size_to_page_count (omega arith) ∙ whole_pages (n - reserved) (omega arith) in
      let before : size_to_page_count (sub64 (reserved * page_size) 0) ≡ reserved =
        ap size_to_page_count (omega arith) ∙ whole_pages reserved (omega arith) in
      let text_page : u32 (text_base / page_size) ≡ text_base / page_size = omega arith in
      let data_page : u32 (data_base / page_size) ≡ data_base / page_size = omega arith in
      rw (start, rest, e1) (rw (before, e2) (rw (data_page, e3) (rw (text_page, e4))))

  -- The three calls that write the metadata, after the free pages have been inserted.
  typed_pages :
      (first text text_pages ro ro_pages n : ℕ) (p1 : Pfa Store)
      → HaveOrder l n
      → Inv lists V p1
      → IsMerged p1
      → ((x : ℕ) → IsFreePage p1 x ↔ ((first ≤ x) × (x < n)))
      → p1.lock.semaphore.value ≡ 1
      → p1.page_base ≡ 0
      → p1.page_count ≡ n
      → first ≤ n
      → text + text_pages ≤ n
      → ro + ro_pages ≤ n
      → (p2 : Pfa Store) × (p3 : Pfa Store) × (p4 : Pfa Store) × (apply_metadata_range_locked 0
            first
            (page_type_code kernel_data)
            (bitmaps_written l p1)
          ≡ ok p2)
        × (apply_metadata_range_locked ro ro_pages
              (page_type_code kernel_data)
              (metadata_written l p2)
            ≡ ok p3)
        × (apply_metadata_range_locked text text_pages
              (page_type_code kernel_text)
              (metadata_written l p3)
            ≡ ok p4)
        × Initialised lists V l first n text
            (text + text_pages)
            ro
            (ro + ro_pages)
            (metadata_written l p4)
            p1.buddy_bitmaps
  unfolding bitmaps_written metadata_written
  typed_pages first text text_pages ro ro_pages n p1 order inv merged pages unlocked base count le
        in_text in_data =
      let small : p1.page_base + p1.page_count ≤ 2 ^ 20 = inv.small in
      let m0 : ℕ → ℕ =
        overlaid_metadata l p1.page_count buddy_levels p1.buddy_bitmaps p1.metadata in
      let m1 : ℕ → ℕ = fill m0 (0 - p1.page_base) first (page_type_code kernel_data) in
      let m2 : ℕ → ℕ = fill m1 (ro - p1.page_base) ro_pages (page_type_code kernel_data) in
      let m3 : ℕ → ℕ = fill m2 (text - p1.page_base) text_pages (page_type_code kernel_text) in
      let b1 : ℕ → ℕ → ℕ = overlaid_bitmaps l m1 p1.buddy_bitmaps in
      let b2 : ℕ → ℕ → ℕ = overlaid_bitmaps l m2 b1 in
      (
        record p1 { metadata = m1 },
        record p1 { metadata = m2; buddy_bitmaps = b1 },
        record p1 { metadata = m3; buddy_bitmaps = b2 },
        apply_metadata_lem 0 first (page_type_code kernel_data) (record p1 { metadata = m0 })
            (omega (arith, base)) (omega (arith, base, count)) small,
        apply_metadata_lem ro ro_pages (page_type_code kernel_data)
            (record p1 { metadata = m1; buddy_bitmaps = b1 }) (omega (arith, base))
            (omega (arith, base, count)) small,
        apply_metadata_lem text text_pages (page_type_code kernel_text)
            (record p1 { metadata = m2; buddy_bitmaps = b2 }) (omega (arith, base))
            (omega (arith, base, count)) small,
        record {
          inv = Inv-other lists V p1 p1.lock m3 inv;
          merged = merged;
          pages = pages;
          unlocked = unlocked;
          base = base;
          count = count;
          text_metadata = λ x lo hi.
              filled m2 p1.page_base text text_pages x (page_type_code kernel_text) base lo hi;
          reserved_metadata = λ x lo out.
              unfilled m2 p1.page_base text text_pages x (page_type_code kernel_text) base out
              ∙ filled_twice m0 p1.page_base first ro ro_pages x (page_type_code kernel_data) base
                  lo;
          kept = λ k i before.
              overlaid_before l m3 b2 k i before
              ∙ overlaid_before l m2 b1 k i before
              ∙ overlaid_before l m1 p1.buddy_bitmaps k i before;
          overlapped = λ k i behind. overlaid_behind l m3 b2 k i behind;
          untouched = λ k i t level within at free not_text not_data.
              let same : (j : ℕ)
                  → j < 8
                  → m3 (t + j)
                    ≡ overlaid_metadata l n buddy_levels p1.buddy_bitmaps p1.metadata (t + j) =
                λ j lt.
                  unfilled m2 p1.page_base text text_pages (t + j) (page_type_code kernel_text) base
                    (all_outside t j text (text + text_pages) lt not_text)
                  ∙ unfilled m1 p1.page_base ro ro_pages (t + j) (page_type_code kernel_data) base
                      (all_outside t j ro (ro + ro_pages) lt not_data)
                  ∙ unfilled m0 p1.page_base 0 first (t + j) (page_type_code kernel_data) base
                      (inr (omega arith))
                  ∙ ap
                      (λ (c : ℕ).
                        overlaid_metadata l c buddy_levels p1.buddy_bitmaps p1.metadata (t + j))
                      count in
              overlaid_behind l m3 b2 k i (omega arith)
              ∙ ap (word_at 8 m3) (omega arith)
              ∙ untouched_slot l n k i t p1.buddy_bitmaps p1.metadata m3 order level within at same;
        },
      )

  -- The four calls of pmap_pfa_init on the pages, for RAM from address 0 on and whole pages.
  pub init_pages_lem :
      (text_base text_size data_base data_size n reserved : ℕ) (pfa : Pfa Store)
      → HaveOrder l n
      → Inv lists V pfa
      → pfa.page_base ≡ 0
      → pfa.page_count ≡ n
      → pfa.lock.semaphore.value ≡ 1
      → ((x : ℕ) → ¬ IsFreePage pfa x)
      → 0 < reserved
      → reserved ≤ n
      → text_base / page_size + size_to_page_count text_size ≤ n
      → data_base / page_size + size_to_page_count data_size ≤ n
      → (pfa' : Pfa Store) × (bitmaps : ℕ → ℕ → ℕ) × (init_pages lists V l 0
            (n * page_size)
            text_base
            text_size
            data_base
            data_size
            (reserved * page_size)
            pfa
          ≡ ok pfa')
        × Initialised lists V l reserved n
            (text_base / page_size)
            (text_base / page_size + size_to_page_count text_size)
            (data_base / page_size)
            (data_base / page_size + size_to_page_count data_size)
            pfa'
            bitmaps
  init_pages_lem text_base text_size data_base data_size n reserved pfa order inv base count
        unlocked none pos le text data_in =
      let (fe, p1, e1, f) =
        insert_range_lem lists V reserved (n - reserved) pfa inv (omega (arith, base))
          (omega (arith, base, count)) (λ x lo hi h. none x h) in
      let small : p1.page_base + p1.page_count ≤ 2 ^ 20 = f.inv.small in
      let b1 : p1.page_base ≡ 0 = f.same_base ∙ base in
      let c1 : p1.page_count ≡ n = f.same_count ∙ count in
      let merged : IsMerged p1 =
        insert_range-IsMerged lists V reserved (n - reserved) fe pfa p1 inv (omega (arith, base))
          (omega (arith, base, count)) (omega (arith, base, count, inv.small))
          (λ x lo hi h. none x h) (λ a q lt g ends. absurd (no_entry a q g))
          (λ l i lt from to al past g. no_entry l (i + 2 ^ l) g) (λ l i lt g h. no_entry l i g)
          e1 in
      let (p2, p3, p4, e2, e3, e4, initialised) =
        typed_pages reserved (text_base / page_size) (size_to_page_count text_size)
          (data_base / page_size) (size_to_page_count data_size) n p1 order f.inv merged
          (λ x. (
            λ h. elim (f.only x h) [
              | inl old ↦ absurd (none x old)
              | inr within ↦ omega (arith, within)
            ],
            λ h. f.freed x h.0 (omega (arith, h.1)),
          ))
          (ap (λ (l : Lock). l.semaphore.value) f.same_lock ∙ unlocked) b1 c1 le text data_in in
      (
        metadata_written l p4,
        p1.buddy_bitmaps,
        init_pages_eq text_base text_size data_base data_size n reserved fe pfa p1 p2 p3 p4 le
            (omega (arith, b1, c1)) (omega (arith, b1, c1)) (omega (arith, b1, c1)) e1 e2 e3 e4,
        initialised,
      )
    where
      no_entry : (a q : ℕ) → ¬ IsFree pfa a q
      no_entry a q g = none q (a, q, g, omega arith, omega (arith, one-le-pow a 2))

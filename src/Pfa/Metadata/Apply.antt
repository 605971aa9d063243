-- ===== src/Pfa/Metadata/Apply.antt =====
-- Applying metadata to a range of pages, and reading it back.
use swink.Common.{
  ℕ, ◌+◌, ◌-◌, ◌^◌, ◌≤◌, ◌<◌, ◌≡◌, arith, ok, ◌>>=◌, le→leb, leb, ltb, lt→ltb, ◌&&◌, if◌then◌else◌,
}
use swink.Common.Word.{u64, sub32}
use swink.Pfa.State.{Pfa}
use swink.Pfa.Metadata.{apply_metadata_range_locked, mds_get_metadata_locked, fill}

-- The assertion holds for managed pages.
pub apply_metadata_lem :
    {S : Type 0} (base n metadata : ℕ) (pfa : Pfa S)
    → pfa.page_base ≤ base
    → base + n ≤ pfa.page_base + pfa.page_count
    → pfa.page_base + pfa.page_count ≤ 2 ^ 20
    → apply_metadata_range_locked base n metadata pfa
      ≡ ok (record pfa { metadata = fill pfa.metadata (base - pfa.page_base) n metadata })
unfolding apply_metadata_range_locked
apply_metadata_lem base n metadata pfa lo hi small =
    rw (le→leb (u64 (sub32 base pfa.page_base + n)) pfa.page_count (omega arith))

-- Where the first managed page is page 0 and there are at most 2 ^ 20, applying metadata to a range
-- of managed pages and then reading any managed page answers the metadata inside the range, and
-- what was there before outside it.
pub get-apply :
    {S : Type 0} (base n metadata page : ℕ) (pfa : Pfa S)
    → pfa.page_base ≡ 0
    → base + n ≤ pfa.page_count
    → pfa.page_count ≤ 2 ^ 20
    → page < pfa.page_count
    → (apply_metadata_range_locked base n metadata pfa >>= mds_get_metadata_locked page)
      ≡ ok (if leb base page && ltb page (base + n) then metadata else pfa.metadata page)
unfolding mds_get_metadata_locked
get-apply base n metadata page pfa zero_base hi small managed =
    rw (apply_metadata_lem base n metadata pfa (omega arith) (omega arith) (omega arith), zero_base)
      (rw (lt→ltb (sub32 page 0) pfa.page_count (omega arith)) (ground arith))

-- Where the managed pages end at page 2 ^ 20 or before, applying metadata to as many pages as are
-- managed at most, from the first managed page on, and then reading one of them answers what was
-- there before, if the range is no longer than the id of the first managed page.
pub get-apply_stale :
    {S : Type 0} (n metadata page : ℕ) (pfa : Pfa S)
    → n ≤ pfa.page_base
    → n ≤ pfa.page_count
    → pfa.page_base + pfa.page_count ≤ 2 ^ 20
    → pfa.page_base ≤ page
    → page < pfa.page_base + n
    → (apply_metadata_range_locked pfa.page_base n metadata pfa >>= mds_get_metadata_locked page)
      ≡ ok (pfa.metadata page)
unfolding mds_get_metadata_locked
get-apply_stale n metadata page pfa far hi small lo below =
    rw (apply_metadata_lem pfa.page_base n metadata pfa (omega arith) (omega arith) small)
      (rw (lt→ltb (sub32 page pfa.page_base) pfa.page_count (omega arith)) (ground arith))

-- ===== src/Pfa/Metadata.antt =====
-- The metadata store of kernel/machine/pmap/pmap_pfa.c. A `pmap_page_metadata_s` is the one byte that
-- it is laid out in; `page_type` is its two low bits.
pub mod Apply
pub mod Require
use swink.Common.{
  ℕ, zero, suc, ◌+◌, ◌-◌, ◌%◌, Result, ok, panic, assert, ◌>>=◌, ◌>>◌, ltb, leb, ◌==◌, ◌&&◌,
  if◌then◌else◌,
}
use swink.Common.Word.{u32, u64, sub32}
use swink.Synchs.{lock_acquire, lock_release}
use swink.Pfa.State.{Pfa}

-- enum pmap_page_type
pub data PageType : Type 0 where
  kernel_data kernel_text page_table : PageType

unfoldable pub page_type_code : PageType → ℕ
page_type_code kernel_data = 0
page_type_code kernel_text = 1
page_type_code page_table = 2

abbrev pub page_type : ℕ → ℕ
page_type metadata = metadata % 4

abbrev pub fill : (ℕ → ℕ) → ℕ → ℕ → ℕ → ℕ → ℕ
fill bytes start n value i = if leb start i && ltb i (start + n) then value else bytes i

module _ {S : Type 0} where
  -- The `memset` starts at `pfa->metadata + base - pfa->page_base`; below `page_base` the ASSERT fails.
  unfoldable pub apply_metadata_range_locked : ℕ → ℕ → ℕ → Pfa S → Result (Pfa S)
  apply_metadata_range_locked base page_count metadata pfa =
      assert (leb (u64 (sub32 base pfa.page_base + page_count)) pfa.page_count)
      >> ok (record pfa { metadata = fill pfa.metadata (base - pfa.page_base) page_count metadata })

  -- The index is the page id itself.
  unfoldable pub mds_get_metadata_locked : ℕ → Pfa S → Result ℕ
  mds_get_metadata_locked page pfa =
      assert (ltb (sub32 page pfa.page_base) pfa.page_count) >> ok (pfa.metadata page)

  unfoldable pub mds_get_metadata : ℕ → Pfa S → Result (ℕ × Pfa S)
  mds_get_metadata page pfa = do
    taken ← lock_acquire pfa.lock
    metadata ← mds_get_metadata_locked page pfa
    ok (metadata, record pfa { lock = lock_release taken })

  -- The rounds of the loop that are left. Each reads the metadata of `page`.
  unfoldable pub require_rounds : ℕ → ℕ → PageType → Pfa S → Result (Unit {0})
  require_rounds zero page type pfa = ok tt
  require_rounds (suc rounds) page type pfa =
      let rest = require_rounds rounds page type pfa in
      mds_get_metadata_locked page pfa >>= λ metadata.
      if page_type metadata == page_type_code type then rest else panic

  unfoldable pub mds_require_range_type : ℕ → ℕ → PageType → Pfa S → Result (Pfa S)
  mds_require_range_type page count type pfa = do
    assert (ltb (u32 (sub32 page pfa.page_base + count)) pfa.page_count)
    taken ← lock_acquire pfa.lock
    require_rounds count page type pfa
    ok (record pfa { lock = lock_release taken })

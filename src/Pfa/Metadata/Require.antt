-- ===== src/Pfa/Metadata/Require.antt =====
-- What pmap_pfa_mds_require_range_type looks at.
use swink.Common.{
  ℕ, zero, suc, ◌+◌, ◌^◌, ◌<◌, ◌≡◌, ◌∙◌, refl, arith, ok, panic, ◌>>◌, lt→ltb, ◌==◌, if◌then◌else◌,
  true, false, Bool, ap,
}
use swink.Common.Word.{u32, sub32}
use swink.Synchs.{held, lock_release, lock_acquire_free, release-acquire}
use swink.Pfa.State.{Pfa}
use swink.Pfa.Metadata.{
  PageType, page_type, page_type_code, mds_get_metadata_locked, require_rounds,
  mds_require_range_type,
}

if_twice :
    {A : Type 0} (b : Bool) (x y : A) → (if b then if b then x else y else y) ≡ (if b then x else y)
if_twice true x y = refl
if_twice false x y = refl

module _ {S : Type 0} where
  get_eq :
      (page : ℕ) (pfa : Pfa S)
      → sub32 page pfa.page_base < pfa.page_count
      → mds_get_metadata_locked page pfa ≡ ok (pfa.metadata page)
  unfolding mds_get_metadata_locked
  get_eq page pfa lt = rw (lt→ltb (sub32 page pfa.page_base) pfa.page_count lt)

  rounds_step :
      (rounds page : ℕ) (type : PageType) (pfa : Pfa S)
      → sub32 page pfa.page_base < pfa.page_count
      → require_rounds (suc rounds) page type pfa ≡ (
          if page_type (pfa.metadata page) == page_type_code type
          then require_rounds rounds page type pfa
          else panic)
  unfolding require_rounds
  rounds_step rounds page type pfa lt = rw (get_eq page pfa lt)

  rounds_lem :
      (rounds page : ℕ) (type : PageType) (pfa : Pfa S)
      → sub32 page pfa.page_base < pfa.page_count
      → require_rounds (suc rounds) page type pfa
        ≡ (if page_type (pfa.metadata page) == page_type_code type then ok tt else panic)
  rounds_lem zero page type pfa lt =
      rounds_step zero page type pfa lt ∙ unfold require_rounds in refl
  rounds_lem (suc rounds) page type pfa lt =
      rounds_step (suc rounds) page type pfa lt
      ∙ rw (rounds_lem rounds page type pfa lt)
          (if_twice (page_type (pfa.metadata page) == page_type_code type) (ok tt) panic)

  -- Where the lock is free and the page count fits 32 bits, requiring a type of at least one page,
  -- in a range that passes the assertion, looks at the first page alone: it returns with the state
  -- unchanged if the entry of the metadata at the first page id has the type, and panics if not,
  -- whatever the other pages of the range are.
  pub require_first_only :
      (page count : ℕ) (type : PageType) (pfa : Pfa S)
      → 0 < count
      → pfa.lock.semaphore.value ≡ 1
      → sub32 page pfa.page_base + count < pfa.page_count
      → pfa.page_count < 2 ^ 32
      → mds_require_range_type page count type pfa
        ≡ (if page_type (pfa.metadata page) == page_type_code type then ok pfa else panic)
  unfolding mds_require_range_type
  require_first_only page zero type pfa pos free lt small = absurd (omega arith)
  require_first_only page (suc count) type pfa pos free lt small =
      let range : u32 (sub32 page pfa.page_base + suc count)
          ≡ sub32 page pfa.page_base + suc count =
        omega arith in
      rw
        (
          range,
          lt→ltb (sub32 page pfa.page_base + suc count) pfa.page_count lt,
          lock_acquire_free pfa.lock free,
          rounds_lem count page type pfa (omega arith),
        )
        (unlocked (page_type (pfa.metadata page) == page_type_code type))
    where
      unlocked :
          (b : Bool)
          → ((if b then ok tt else panic) >> ok (record pfa { lock = lock_release held }))
            ≡ (if b then ok pfa else panic)
      unlocked true = ap (λ l. ok (record pfa { lock = l })) (release-acquire pfa.lock free)
      unlocked false = refl

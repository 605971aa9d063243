-- ===== src/Pfa/Invariant/Pages.antt =====
-- An entry that comes off its list: which pages are free before and after.
use swink.Common.{ℕ, ◌+◌, ◌^◌, ◌≤◌, ◌<◌, ◌≡◌, refl, ◌⊎◌, ◌↔◌, arith}
use swink.LinkedLists.{LinkedLists}
use swink.Synchs.{Lock}
use swink.Pfa.State.{Pfa, buddy_bitmap_set_bit_locked}
use swink.Pfa.Insert.{free_entry_kva, remove_free_entry}
use swink.Pfa.Invariant.Defs.{IsFree, IsFreePage, Inv}
use swink.Pfa.Invariant.Changes.{Change-Inv, other-IsFree, still-IsFree}
use swink.Pfa.Invariant.Entries.{remove-Change}

module _ (lists : LinkedLists) (V : ℕ) where
  open lists use {Store}

  -- The invariant does not read the metadata and the lock.
  pub Inv-other :
      (pfa : Pfa Store) (lock : Lock) (metadata : ℕ → ℕ)
      → Inv lists V pfa
      → Inv lists V (record pfa { lock = lock; metadata = metadata })
  Inv-other pfa lock metadata inv = record {
    mapped = inv.mapped;
    base_aligned = inv.base_aligned;
    small = inv.small;
    linked = inv.linked;
    entries = inv.entries;
    apart = inv.apart;
    edge = inv.edge;
  }

  -- What is not free any more: the pages from `lo` to `hi`, and nothing else has changed.
  pub record Taken (pfa pfa' : Pfa Store) (lo hi : ℕ) : Type 0 where
    pub inv : Inv lists V pfa'
    pub same_base : pfa'.page_base ≡ pfa.page_base
    pub same_count : pfa'.page_count ≡ pfa.page_count
    pub same_lock : pfa'.lock ≡ pfa.lock
    pub free : (x : ℕ) → IsFreePage pfa' x ↔ (IsFreePage pfa x × ((x < lo) ⊎ (hi ≤ x)))

  pub remove-Taken :
      (pfa : Pfa Store) (k p : ℕ)
      → Inv lists V pfa
      → IsFree pfa k p
      → Taken pfa (remove_free_entry lists (free_entry_kva V p) p k pfa) p (p + 2 ^ k)
  unfolding remove_free_entry buddy_bitmap_set_bit_locked
  remove-Taken pfa k p inv f =
      let c = remove-Change lists V pfa inv k p f in
      record {
        inv = Change-Inv lists V inv f.0 (omega arith) (λ e. absurd (omega arith)) c;
        same_base = refl;
        same_count = refl;
        same_lock = refl;
        free = λ x. (
          λ g.
              let (j, q, h, lo, hi) = g in
              let (old, other) =
                still-IsFree lists V inv f.0 (omega arith) (λ e. absurd (omega arith)) c j q refl
                  h in
              ((j, q, old, lo, hi), ground (arith, inv.apart k p j q f old)),
          λ g.
              let (j, q, h, lo, hi) = g.0 in
              (
                j,
                q,
                (other-IsFree lists V inv f.0 (omega arith) (λ e. absurd (omega arith)) c j q
                      (λ same. ground arith)).1
                    h,
                lo,
                hi,
              ),
        );
      }

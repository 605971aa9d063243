-- ===== src/Pfa/Invariant/Defs.antt =====
-- Free entries of the buddy allocator, and its invariant.
use swink.Common.{ℕ, ◌+◌, ◌*◌, ◌%◌, ◌^◌, ◌≤◌, ◌<◌, ◌≡◌, ◌⊎◌, count}
use swink.LinkedLists.{LinkedLists}
use swink.Pfa.Levels.{get_buddy_page_id_for_page, buddy_levels}
use swink.Pfa.State.{Pfa, get_bit}
use swink.Pfa.Insert.{free_entry_kva}

-- The `2 ^ k` pages from `p` on can be an entry of level `k`: they are managed and aligned.
abbrev pub IsBlock : {S : Type 0} → Pfa S → ℕ → ℕ → Type 0
IsBlock pfa k p =
    (k < buddy_levels)
    × (pfa.page_base ≤ p)
    × (p + 2 ^ k ≤ pfa.page_base + pfa.page_count)
    × (p % 2 ^ k ≡ 0)

-- They are a free entry.
abbrev pub IsFree : {S : Type 0} → Pfa S → ℕ → ℕ → Type 0
IsFree pfa k p = IsBlock pfa k p × (get_bit pfa.page_base pfa.buddy_bitmaps p k ≡ 1)

-- Two ranges of pages with no page in common.
abbrev pub Apart : ℕ → ℕ → ℕ → ℕ → Type 0
Apart k p j q = (p + 2 ^ k ≤ q) ⊎ (q + 2 ^ j ≤ p)

-- No page of the entry is in a free entry.
abbrev pub IsAllocated : {S : Type 0} → Pfa S → ℕ → ℕ → Type 0
IsAllocated pfa k p = (j q : ℕ) → IsFree pfa j q → Apart k p j q

-- Nothing is left to merge: below the top level, no free entry has a free buddy.
abbrev pub IsMerged : {S : Type 0} → Pfa S → Type 0
IsMerged pfa = (k q : ℕ) → k < 5 → IsFree pfa k q → ¬ IsFree pfa k (get_buddy_page_id_for_page q k)

-- A page that some free entry holds.
abbrev pub IsFreePage : {S : Type 0} → Pfa S → ℕ → Type 0
IsFreePage pfa x = (k : ℕ) × (p : ℕ) × IsFree pfa k p × (p ≤ x) × (x < p + 2 ^ k)

module _ (lists : LinkedLists) (physmap_vm_base : ℕ) where
  open lists use {Store, contents}

  pub record Inv (pfa : Pfa Store) : Type 0 where
    -- The physmap has room for the managed pages, and address 0 is not in it.
    pub mapped :
        (0 < physmap_vm_base)
        × (physmap_vm_base + (pfa.page_base + pfa.page_count) * 2 ^ 12 ≤ 2 ^ 64)
    -- The first page is one of the top level; page numbers shifted to addresses fit 32 bits.
    pub base_aligned : pfa.page_base % 32 ≡ 0
    pub small : pfa.page_base + pfa.page_count ≤ 2 ^ 20
    -- An entry is in the list of its level, once, exactly when its bit is set.
    pub linked :
        (k p : ℕ)
        → IsBlock pfa k p
        → count (free_entry_kva physmap_vm_base p) (contents pfa.buddy_lists k)
          ≡ get_bit pfa.page_base pfa.buddy_bitmaps p k
    -- The lists hold nothing else.
    pub entries :
        (k e : ℕ)
        → 0 < count e (contents pfa.buddy_lists k)
        → (p : ℕ) × IsBlock pfa k p × (e ≡ free_entry_kva physmap_vm_base p)
    -- No page is in two free entries.
    pub apart :
        (k p j q : ℕ) → IsFree pfa k p → IsFree pfa j q → ((k ≡ j) × (p ≡ q)) ⊎ Apart k p j q
    -- The bit of a right buddy that reaches past the managed pages is clear.
    pub edge :
        (k p : ℕ)
        → k < 5
        → pfa.page_base ≤ p
        → p ≤ pfa.page_base + pfa.page_count
        → pfa.page_base + pfa.page_count < p + 2 ^ k
        → p % (2 * 2 ^ k) ≡ 2 ^ k
        → get_bit pfa.page_base pfa.buddy_bitmaps p k ≡ 0

-- ===== src/Pfa/Init/Memory.antt =====
-- pmap_pfa_init, where the metadata overlaps the bitmaps: what a slot is after the metadata has been
-- written, and what initialisation leaves behind.
use swink.Common.{
  ℕ, zero, suc, ◌+◌, ◌-◌, ◌*◌, ◌/◌, ◌%◌, ◌^◌, ◌≤◌, ◌<◌, ◌≡◌, ◌↔◌, ◌⊎◌, false, inl, inr, sym, ◌∙◌,
  ap, arith, leb, le→leb, lt→ltb, ℕ_discrete,
}
use swink.LinkedLists.{LinkedLists}
use swink.Pfa.State.{Pfa}
use swink.Pfa.Metadata.{fill, kernel_data, kernel_text, page_type_code}
use swink.Pfa.Invariant.{IsFreePage, IsMerged, Inv}
use swink.Pfa.Init.{
  Layout, layout, required_bytes_below, overlaid_bitmaps, overlaid_metadata, word_at, bitmap_slots,
  buddy_bitmap_required_bytes_for_level,
}
use swink.Pfa.Levels.{buddy_levels}

pub overlaid_before :
    (l : Layout) (metadata : ℕ → ℕ) (bitmaps : ℕ → ℕ → ℕ) (k i : ℕ)
    → l.bitmap_address k + 8 * i < l.metadata_address
    → overlaid_bitmaps l metadata bitmaps k i ≡ bitmaps k i
overlaid_before l metadata bitmaps k i before = ground arith

pub overlaid_behind :
    (l : Layout) (metadata : ℕ → ℕ) (bitmaps : ℕ → ℕ → ℕ) (k i : ℕ)
    → l.metadata_address ≤ l.bitmap_address k + 8 * i
    → overlaid_bitmaps l metadata bitmaps k i
      ≡ word_at 8 metadata (l.bitmap_address k + 8 * i - l.metadata_address)
overlaid_behind l metadata bitmaps k i behind =
    rw (le→leb l.metadata_address (l.bitmap_address k + 8 * i) behind)

pub filled :
    (bytes : ℕ → ℕ) (base start n x value : ℕ)
    → base ≡ 0
    → start ≤ x
    → x < start + n
    → fill bytes (start - base) n value x ≡ value
filled bytes base start n x value zero_base lo hi = ground arith

pub unfilled :
    (bytes : ℕ → ℕ) (base start n x value : ℕ)
    → base ≡ 0
    → (x < start) ⊎ (start + n ≤ x)
    → fill bytes (start - base) n value x ≡ bytes x
unfilled bytes base start n x value zero_base (inl below) = ground arith
unfilled bytes base start n x value zero_base (inr past) = ground arith

pub all_outside :
    (t j start end : ℕ) → j < 8 → (t + 8 ≤ start) ⊎ (end ≤ t) → (t + j < start) ⊎ (end ≤ t + j)
all_outside t j start end lt (inl below) = inl (omega arith)
all_outside t j start end lt (inr past) = inr (omega arith)

-- A page of the first range has the value, whatever the second covers.
pub filled_twice :
    (bytes : ℕ → ℕ) (base n start m x value : ℕ)
    → base ≡ 0
    → x < n
    → fill (fill bytes (0 - base) n value) (start - base) m value x ≡ value
filled_twice bytes base n start m x value zero_base lo = ground arith

-- A slot that is written as bytes reads back as its 64 bits.
word_of_bytes :
    (slot t : ℕ) (bytes : ℕ → ℕ)
    → ((j : ℕ) → j < 8 → bytes (t + j) ≡ slot / 2 ^ (8 * j) % 256)
    → word_at 8 bytes t ≡ slot % 2 ^ 64
unfolding word_at
word_of_bytes slot t bytes h = omega (
  arith,
  h 0 (omega arith),
  h 1 (omega arith),
  h 2 (omega arith),
  h 3 (omega arith),
  h 4 (omega arith),
  h 5 (omega arith),
  h 6 (omega arith),
  h 7 (omega arith),
)

-- The bitmaps of the levels follow each other.
pub HaveOrder : Layout → ℕ → Type 0
HaveOrder l n =
    (k : ℕ)
    → l.bitmap_address (suc k) ≡ l.bitmap_address k + buddy_bitmap_required_bytes_for_level n k

lt→leb : (a b : ℕ) → b < a → leb a b ≡ false
lt→leb a b h = ground arith

bitmaps_apart :
    (l : Layout) (n k m : ℕ)
    → HaveOrder l n
    → k < m
    → l.bitmap_address k + buddy_bitmap_required_bytes_for_level n k ≤ l.bitmap_address m
unfolding HaveOrder
bitmaps_apart l n k zero order lt = absurd (omega (arith, lt))
bitmaps_apart l n k (suc m) order lt = elim (ℕ_discrete k m) [
  | yes same ↦ omega (arith, order k, ap (λ t. l.bitmap_address (suc t)) same)
  | no other ↦ omega (arith, bitmaps_apart l n k m order (omega arith), order m)
]

overlaid_here :
    (l : Layout) (n k i t j : ℕ) (bitmaps : ℕ → ℕ → ℕ) (metadata : ℕ → ℕ)
    → i < bitmap_slots n k
    → l.bitmap_address k + 8 * i ≡ l.metadata_address + t
    → j < 8
    → overlaid_metadata l n (suc k) bitmaps metadata (t + j) ≡ bitmaps k i / 2 ^ (8 * j) % 256
unfolding overlaid_metadata buddy_bitmap_required_bytes_for_level
overlaid_here l n k i t j bitmaps metadata within at lt =
    let slot : (l.metadata_address + (t + j) - l.bitmap_address k) / 8 ≡ i = omega arith in
    let byte : (l.metadata_address + (t + j) - l.bitmap_address k) % 8 ≡ j = omega arith in
    rw (
      le→leb (l.bitmap_address k) (l.metadata_address + (t + j)) (omega arith),
      lt→ltb (l.metadata_address + (t + j)) (l.bitmap_address k + bitmap_slots n k * 8)
          (omega arith),
      slot,
      byte,
    )

-- A byte of the metadata in a slot is that byte of it, after the bitmaps have been written.
overlaid_byte :
    (l : Layout) (n m k i t j : ℕ) (bitmaps : ℕ → ℕ → ℕ) (metadata : ℕ → ℕ)
    → HaveOrder l n
    → k < m
    → i < bitmap_slots n k
    → l.bitmap_address k + 8 * i ≡ l.metadata_address + t
    → j < 8
    → overlaid_metadata l n m bitmaps metadata (t + j) ≡ bitmaps k i / 2 ^ (8 * j) % 256
unfolding overlaid_metadata buddy_bitmap_required_bytes_for_level
overlaid_byte l n zero k i t j bitmaps metadata order level within at lt =
    absurd (omega (arith, level))
overlaid_byte l n (suc m) k i t j bitmaps metadata order level within at lt =
    elim (ℕ_discrete k m) [
      | yes same ↦
          ap (λ (d : ℕ). overlaid_metadata l n (suc d) bitmaps metadata (t + j)) (sym same)
          ∙ overlaid_here l n k i t j bitmaps metadata within at lt
      | no other ↦
          let before : l.metadata_address + (t + j) < l.bitmap_address m =
            omega (arith, bitmaps_apart l n k m order (omega arith)) in
          let rest =
            overlaid_byte l n m k i t j bitmaps metadata order (omega arith) within at lt in
          rw (lt→leb (l.bitmap_address m) (l.metadata_address + (t + j)) before) rest
    ]

pub layout-HaveOrder : (V n reserved : ℕ) → HaveOrder (layout V n reserved) n
unfolding layout HaveOrder required_bytes_below
layout-HaveOrder V n reserved k = omega arith

-- A slot is as it was if no metadata has been written over it.
pub untouched_slot :
    (l : Layout) (n k i t : ℕ) (bitmaps : ℕ → ℕ → ℕ) (metadata m : ℕ → ℕ)
    → HaveOrder l n
    → k < buddy_levels
    → i < bitmap_slots n k
    → l.bitmap_address k + 8 * i ≡ l.metadata_address + t
    → ((j : ℕ) → j < 8 → m (t + j) ≡ overlaid_metadata l n buddy_levels bitmaps metadata (t + j))
    → word_at 8 m t ≡ bitmaps k i % 2 ^ 64
untouched_slot l n k i t bitmaps metadata m order level within at same =
    word_of_bytes (bitmaps k i) t m λ j lt.
      same j lt ∙ overlaid_byte l n buddy_levels k i t j bitmaps metadata order level within at lt

-- What initialisation leaves behind, for a layout, the first page behind the reserved ones, the
-- number of pages, and the pages of the kernel's text and data. `bitmaps` are the bitmaps that it built.
pub record Initialised (lists : LinkedLists) (V : ℕ) (l : Layout)
    (first n text text_end ro ro_end : ℕ) (pfa : Pfa (lists.Store)) (bitmaps : ℕ → ℕ → ℕ)
    : Type 0 where
  pub inv : Inv lists V (record pfa { buddy_bitmaps = bitmaps })
  pub merged : IsMerged (record pfa { buddy_bitmaps = bitmaps })
  pub pages :
      (x : ℕ) → IsFreePage (record pfa { buddy_bitmaps = bitmaps }) x ↔ ((first ≤ x) × (x < n))
  pub unlocked : pfa.lock.semaphore.value ≡ 1
  pub base : pfa.page_base ≡ 0
  pub count : pfa.page_count ≡ n
  pub text_metadata :
      (x : ℕ) → text ≤ x → x < text_end → pfa.metadata x ≡ page_type_code kernel_text
  pub reserved_metadata :
      (x : ℕ)
      → x < first
      → (x < text) ⊎ (text_end ≤ x)
      → pfa.metadata x ≡ page_type_code kernel_data
  pub kept :
      (k i : ℕ)
      → l.bitmap_address k + 8 * i < l.metadata_address
      → pfa.buddy_bitmaps k i ≡ bitmaps k i
  pub overlapped :
      (k i : ℕ)
      → l.metadata_address ≤ l.bitmap_address k + 8 * i
      → pfa.buddy_bitmaps k i
        ≡ word_at 8 pfa.metadata (l.bitmap_address k + 8 * i - l.metadata_address)
  pub untouched :
      (k i t : ℕ)
      → k < buddy_levels
      → i < bitmap_slots n k
      → l.bitmap_address k + 8 * i ≡ l.metadata_address + t
      → first ≤ t
      → (t + 8 ≤ text) ⊎ (text_end ≤ t)
      → (t + 8 ≤ ro) ⊎ (ro_end ≤ t)
      → pfa.buddy_bitmaps k i ≡ bitmaps k i % 2 ^ 64

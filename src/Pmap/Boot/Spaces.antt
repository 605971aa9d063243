-- ===== src/Pmap/Boot/Spaces.antt =====
-- What the kernel's tables map, as a function from page numbers to entries.
use swink.Common.{
  ℕ, ◌+◌, ◌-◌, ◌*◌, ◌/◌, ◌%◌, ◌^◌, ◌≤◌, ◌<◌, ◌≡◌, refl, ◌∙◌, ap, arith, leb, ltb, ◌==◌, ◌&&◌,
  if◌then◌else◌, ok, ==_refl, ℕ_discrete,
}
use swink.Pmap.{page_size}
use swink.Pmap.Tables.{
  Arena, entry_address, fill_page, allocation_ptr_page_alloc, vm_init_map_contiguous,
}
use swink.Pmap.Tables.Tree.{leaf, walk-missing_l2, unused, root, Tree}
use swink.Pmap.Tables.Round.{entry_for}
use swink.Pmap.Tables.Range.{table_pages, page_of, vm_init_map_contiguous_lem}

-- `count` pages from page number `from` on, before what `space` maps.
abbrev pub overlay : ℕ → ℕ → ℕ → ℕ → (ℕ → ℕ) → ℕ → ℕ
overlay from count template phys_base space y =
    if leb from y && ltb y (from + count) then entry_for template phys_base (y - from) else space y

abbrev pub nothing : ℕ → ℕ
nothing y = 0

-- The tables below `l1` are a tree and map `space`.
pub record Maps (l1 : ℕ) (arena : Arena) (space : ℕ → ℕ) : Type 0 where
  pub role : ℕ → ℕ
  pub tree : Tree arena.memory l1 arena.allocation_ptr role
  pub entries : (y : ℕ) → y < 2 ^ 27 → leaf arena.memory l1 y ≡ space y

module _ (l1 template phys_base vm_base page_count : ℕ) (arena : Arena) (space : ℕ → ℕ) where
  pub map_contiguous_Maps :
      Maps l1 arena space
      → page_of vm_base + page_count ≤ 2 ^ 27
      → arena.allocation_ptr + 2 * page_size * page_count ≤ 2 ^ 47
      → ((y : ℕ) → page_of vm_base ≤ y → y < page_of vm_base + page_count → space y ≡ 0)
      → (arena' : Arena) × (vm_init_map_contiguous l1 template vm_base phys_base page_count arena
          ≡ ok arena')
        × Maps l1 arena' (overlay (page_of vm_base) page_count template phys_base space)
        × (arena'.allocation_ptr ≤ arena.allocation_ptr + page_size * table_pages page_count)
  map_contiguous_Maps m fits room free =
      let (arena', e, n, taken) =
        vm_init_map_contiguous_lem l1 template phys_base vm_base page_count arena m.role m.tree fits
          room (λ y lo hi. ap (λ (z : ℕ). z % 2) (m.entries y (omega arith) ∙ free y lo hi)) in
      (
        arena',
        e,
        record {
          role = n.role;
          tree = n.tree;
          entries = λ y lt. n.leaves y lt ∙ ground (arith, m.entries y lt);
        },
        taken,
      )

-- The first page of the arena is a table that maps nothing.
abbrev pub first_arena : (ℕ → ℕ) → ℕ → Arena
first_arena memory ptr = record {
  memory = fill_page ptr 0 memory;
  allocation_ptr = ptr + page_size;
}

module _ (memory : ℕ → ℕ) (ptr : ℕ) (aligned : ptr % 4096 ≡ 0) (room : ptr + 4096 ≤ 2 ^ 47) where
  abbrev first_role : ℕ → ℕ
  first_role t = if t == ptr then root else unused

  pub first_page :
      allocation_ptr_page_alloc 0 (record { memory = memory; allocation_ptr = ptr })
      ≡ (ptr, first_arena memory ptr)
  unfolding allocation_ptr_page_alloc
  first_page =
      ap (λ (p : ℕ). (ptr, record { memory = fill_page ptr 0 memory; allocation_ptr = p }))
        (omega arith)

  first_entry : (i : ℕ) → i < 512 → fill_page ptr 0 memory (entry_address ptr i) ≡ 0
  unfolding fill_page
  first_entry i lt = ground arith

  pub first_Maps : Maps ptr (first_arena memory ptr) nothing
  first_Maps = record {
    role = first_role;
    tree = record {
      at_root = rw (==_refl ptr) refl;
      ptr_aligned = omega arith;
      used = λ t used. elim (ℕ_discrete t ptr) [
        | yes same ↦ (omega arith, omega arith, omega arith)
        | no other ↦ absurd (used (ground arith))
      ];
      one_root = λ t is_root. ground arith;
      link2 = λ i lt valid. absurd (omega (arith, first_entry i lt));
      link3 = λ t i j hi hj is_mid valid. absurd (ground arith);
    };
    entries = λ y lt.
        walk-missing_l2 (fill_page ptr 0 memory) ptr (y / 2 ^ 18) (y / 2 ^ 9 % 512) (y % 512)
          (ap (λ (e : ℕ). e % 2) (first_entry (y / 2 ^ 18) (omega arith)));
  }

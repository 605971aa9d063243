-- ===== src/Pmap/Tables/Range.antt =====
-- vm_init_map_contiguous as a whole.
use swink.Common.{
  ℕ, zero, suc, ◌+◌, ◌-◌, ◌*◌, ◌/◌, ◌%◌, ◌^◌, ◌≤◌, ◌<◌, ◌≡◌, ◌≢◌, refl, inl, ◌∙◌, ap, sym, subst,
  arith, bit_and, ℕ_discrete, ok, panic,
}
use swink.Common.Word.{shr, bit_and_mask}
use swink.Pmap.{page_size, phys_addr_invalid}
use swink.Pmap.Tables.{
  Arena, Cursor, tcr_t1sz_value, map_rounds, va_to_phys_indexes, vm_init_map_contiguous,
}
use swink.Pmap.Tables.Tree.{leaf, Tree}
use swink.Pmap.Tables.Reach.{absent, At, Cached, reach}
use swink.Pmap.Tables.Round.{Mapped, round_lem, round_panics}

module _ (l1 template phys_base start : ℕ) where
  Mapped-none :
      (from to : ℕ) (arena : Arena) (role : ℕ → ℕ)
      → to ≤ from
      → Tree arena.memory l1 arena.allocation_ptr role
      → Mapped l1 template phys_base start from to arena arena
  Mapped-none from to arena role le tree = record {
    role = role;
    tree = tree;
    pointer = (omega arith, omega arith);
    leaves = λ y lt. ground arith;
  }

  Mapped-trans :
      (from mid to : ℕ) (a b c : Arena)
      → from ≤ mid
      → mid ≤ to
      → Mapped l1 template phys_base start from mid a b
      → Mapped l1 template phys_base start mid to b c
      → Mapped l1 template phys_base start from to a c
  Mapped-trans from mid to a b c le le' m n = record {
    role = n.role;
    tree = n.tree;
    pointer = (omega (arith, m.pointer, n.pointer), omega (arith, m.pointer, n.pointer));
    leaves = λ y lt. n.leaves y lt ∙ ground (arith, m.leaves y lt);
  }

  map_rounds_lem :
      (rounds page_i : ℕ) (c : Cursor) (arena : Arena) (role : ℕ → ℕ)
      → Tree arena.memory l1 arena.allocation_ptr role
      → At c (start + page_i)
      → start + page_i + rounds ≤ 2 ^ 27
      → Cached arena.memory l1 c
      → arena.allocation_ptr + 2 * page_size * rounds ≤ 2 ^ 47
      → ((y : ℕ)
          → start + page_i ≤ y
          → y < start + page_i + rounds
          → leaf arena.memory l1 y % 2 ≡ 0)
      → (arena' : Arena) × (map_rounds rounds l1 template phys_base page_i c arena ≡ ok arena')
        × Mapped l1 template phys_base start (start + page_i) (start + page_i + rounds) arena arena'
        × (arena'.allocation_ptr
            ≤ arena.allocation_ptr
              + page_size
                * (absent c.l2
                    + absent c.l3
                    + 2 * ((start + page_i + rounds) / 512 - (start + page_i) / 512)))
  map_rounds_lem zero page_i c arena role tree at fits cached room free = (
    arena,
    unfold map_rounds in refl,
    Mapped-none (start + page_i) (start + page_i + 0) arena role (omega arith) tree,
    omega arith,
  )
  map_rounds_lem (suc rounds) page_i c arena role tree at fits cached room free =
      let (c', mid, e, at', cached', m, taken, wraps) =
        round_lem l1 template phys_base start page_i rounds c arena role tree at (omega arith)
          cached (omega arith) (free (start + page_i) (omega arith) (omega arith)) in
      let on : start + page_i + 1 ≡ start + (page_i + 1) = omega arith in
      let (arena', e', n, taken') =
        map_rounds_lem rounds (page_i + 1) c' mid m.role m.tree (omega arith) (omega arith) cached'
          (omega (arith, m.pointer))
          (λ y lo hi.
            ap (λ (e : ℕ). e % 2) (m.leaves y (omega arith))
            ∙ ground (arith, free y (omega arith) (omega arith))) in
      (
        arena',
        e ∙ e',
        Mapped-trans (start + page_i) (start + page_i + 1) (start + page_i + suc rounds) arena mid
            arena' (omega arith) (omega arith) m
            (subst
              (λ (t : ℕ).
                Mapped l1 template phys_base start t (start + page_i + suc rounds) mid arena')
              (sym on)
              (subst
                (λ (t : ℕ). Mapped l1 template phys_base start (start + (page_i + 1)) t mid arena')
                (omega arith) n)),
        omega (arith, taken, wraps, taken'),
      )

  -- A page in the range that is mapped already stops the loop there.
  map_rounds_panics :
      (rounds page_i : ℕ) (c : Cursor) (arena : Arena) (role : ℕ → ℕ)
      → Tree arena.memory l1 arena.allocation_ptr role
      → At c (start + page_i)
      → start + page_i + rounds ≤ 2 ^ 27
      → Cached arena.memory l1 c
      → arena.allocation_ptr + 2 * page_size * rounds ≤ 2 ^ 47
      → (y : ℕ) → start + page_i ≤ y
      → y < start + page_i + rounds
      → leaf arena.memory l1 y % 2 ≡ 1
      → map_rounds rounds l1 template phys_base page_i c arena ≡ panic
  map_rounds_panics zero page_i c arena role tree at fits cached room y lo hi mapped =
      absurd (omega arith)
  map_rounds_panics (suc rounds) page_i c arena role tree at fits cached room y lo hi mapped =
      elim (ℕ_discrete (leaf arena.memory l1 (start + page_i) % 2) 0) [
        | yes free ↦
            let (c', mid, e, at', cached', m, taken, wraps) =
              round_lem l1 template phys_base start page_i rounds c arena role tree at (omega arith)
                cached (omega arith) free in
            let later : y ≢ start + page_i =
              λ same. omega (arith, ap (λ (x : ℕ). leaf arena.memory l1 x) same) in
            e
            ∙ map_rounds_panics rounds (page_i + 1) c' mid m.role m.tree (omega arith) (omega arith)
                cached' (omega (arith, m.pointer)) y (omega (arith, later)) (omega arith)
                (ap (λ (e : ℕ). e % 2) (m.leaves y (omega arith)) ∙ ground (arith, later))
        | no taken ↦
            round_panics l1 template phys_base start page_i rounds c arena at (omega arith)
              (reach l1 (start + page_i) c arena role tree at (omega arith) cached (omega arith))
              (omega (arith, taken))
      ]

-- The page number of an address in the kernel's half of the address space.
abbrev pub page_of : ℕ → ℕ
page_of va = va / 2 ^ 12 % 2 ^ 27

-- The three indices are the digits of the page number, in base 512.
pub va_to_phys_indexes_lem :
    (va : ℕ)
    → va_to_phys_indexes va
      ≡ (page_of va / 2 ^ 18, page_of va / 2 ^ 9 % 512, page_of va % 512, va / 2 ^ 56 % 2)
unfolding va_to_phys_indexes
va_to_phys_indexes_lem va = rw (i1, i2, i3, i4) refl
  where
    i1 : bit_and (shr va 30) (2 ^ (64 - tcr_t1sz_value - 30) - 1) ≡ page_of va / 2 ^ 18
    i1 = omega (arith, bit_and_mask 9 (shr va 30))

    i2 : bit_and (shr va 21) 511 ≡ page_of va / 2 ^ 9 % 512
    i2 = omega (arith, bit_and_mask 9 (shr va 21))

    i3 : bit_and (shr va 12) 511 ≡ page_of va % 512
    i3 = omega (arith, bit_and_mask 9 (shr va 12))

    i4 : bit_and (shr va (64 - 8)) 1 ≡ va / 2 ^ 56 % 2
    i4 = omega (arith, bit_and_mask 1 (shr va (64 - 8)))

-- The tables that a range of `page_count` pages takes, at most.
abbrev pub table_pages : ℕ → ℕ
table_pages page_count = 4 + 2 * (page_count / 512)

module _ (l1 template phys_base vm_base page_count : ℕ) (arena : Arena) (role : ℕ → ℕ) where
  abbrev first_cursor : Cursor
  first_cursor = record {
    l2 = phys_addr_invalid;
    l3 = phys_addr_invalid;
    l1_i = page_of vm_base / 2 ^ 18;
    l2_i = page_of vm_base / 2 ^ 9 % 512;
    l3_i = page_of vm_base % 512;
  }

  from_first_page :
      vm_init_map_contiguous l1 template vm_base phys_base page_count arena
      ≡ map_rounds page_count l1 template phys_base 0 first_cursor arena
  unfolding vm_init_map_contiguous
  from_first_page =
      ap
        (λ (i : ℕ × ℕ × ℕ × ℕ).
          map_rounds page_count l1 template phys_base 0
            (record {
              l2 = phys_addr_invalid;
              l3 = phys_addr_invalid;
              l1_i = i.0;
              l2_i = i.1;
              l3_i = i.2;
            })
            arena)
        (va_to_phys_indexes_lem vm_base)

  -- Where the tables below the root are a tree, the pages of the range are within the kernel's half
  -- of the address space and none of them is mapped yet, and the arena has two pages of room below
  -- 2 ^ 47 for every page of the range, mapping the range returns. The tables are a tree again, the
  -- arena took at most two pages for each page and at most four and two for every 512, every page
  -- of the range has the template's entry for its physical page, and every other page has the entry
  -- that it had.
  pub vm_init_map_contiguous_lem :
      Tree arena.memory l1 arena.allocation_ptr role
      → page_of vm_base + page_count ≤ 2 ^ 27
      → arena.allocation_ptr + 2 * page_size * page_count ≤ 2 ^ 47
      → ((y : ℕ)
          → page_of vm_base ≤ y
          → y < page_of vm_base + page_count
          → leaf arena.memory l1 y % 2 ≡ 0)
      → (arena' : Arena) × (vm_init_map_contiguous l1 template vm_base phys_base page_count arena
          ≡ ok arena')
        × Mapped l1 template phys_base
            (page_of vm_base)
            (page_of vm_base)
            (page_of vm_base + page_count)
            arena
            arena'
        × (arena'.allocation_ptr ≤ arena.allocation_ptr + page_size * table_pages page_count)
  vm_init_map_contiguous_lem tree fits room free =
      let x = page_of vm_base in
      let zero_on : x + 0 ≡ x = omega arith in
      let (arena', e, m, taken) =
        map_rounds_lem l1 template phys_base x page_count 0 first_cursor arena role tree
          (omega arith, omega arith, omega arith) (omega arith) (inl (refl, refl)) room
          (λ y lo hi. free y (omega arith) (omega arith)) in
      (
        arena',
        from_first_page ∙ e,
        subst (λ (t : ℕ). Mapped l1 template phys_base x t (t + page_count) arena arena') zero_on m,
        omega (arith, taken),
      )

  -- XX
  pub vm_init_map_contiguous_panics :
      Tree arena.memory l1 arena.allocation_ptr role
      → page_of vm_base + page_count ≤ 2 ^ 27
      → arena.allocation_ptr + 2 * page_size * page_count ≤ 2 ^ 47
      → (y : ℕ) → page_of vm_base ≤ y
      → y < page_of vm_base + page_count
      → leaf arena.memory l1 y % 2 ≡ 1
      → vm_init_map_contiguous l1 template vm_base phys_base page_count arena ≡ panic
  vm_init_map_contiguous_panics tree fits room y lo hi mapped =
      from_first_page
      ∙ map_rounds_panics l1 template phys_base (page_of vm_base) page_count 0 first_cursor arena
          role tree (omega arith, omega arith, omega arith) (omega arith) (inl (refl, refl)) room y
          (omega arith) (omega arith) mapped

-- ===== src/Pmap/Tables/Lookup.antt =====
-- table_lookup_allocating: the table is there afterwards, and no walk finds anything else.
use swink.Common.{
  ℕ, ◌+◌, ◌%◌, ◌^◌, ◌≤◌, ◌<◌, ◌≡◌, refl, ◌⊎◌, inl, inr, ◌∙◌, ap, sym, arith, ℕ_discrete, ne→==,
}
use swink.Pmap.{page_size, phys_addr_invalid}
use swink.Pmap.Pte.{target, pte_to_phys_addr_lem}
use swink.Pmap.Templates.{pte_template_table_kern_only, table_kern_only-IsTemplate}
use swink.Pmap.Tables.{
  Arena, entry_address, allocation_ptr_page_alloc, table_lookup_allocating, table_at_hand,
}
use swink.Pmap.Tables.Tree.{walk, mid, low, Tree, same_slot, installed-slot, installed-old}
use swink.Pmap.Tables.Install.{
  give, with_table, Tree-install_mid, walk-install_mid, Tree-install_low, walk-install_low,
}

-- An entry that is valid is found, and nothing changes.
pub lookup_found :
    (t i : ℕ) (arena : Arena)
    → arena.memory (entry_address t i) % 2 ≡ 1
    → table_lookup_allocating t i pte_template_table_kern_only arena
      ≡ (target (arena.memory (entry_address t i)), arena)
unfolding table_lookup_allocating
lookup_found t i arena valid =
    ground (arith, pte_to_phys_addr_lem (arena.memory (entry_address t i)))

-- Else there is a new table at the pointer.
pub lookup_missing :
    (t i : ℕ) (arena : Arena)
    → arena.memory (entry_address t i) % 2 ≡ 0
    → arena.allocation_ptr + page_size < 2 ^ 64
    → table_lookup_allocating t i pte_template_table_kern_only arena ≡ (
      arena.allocation_ptr,
      record {
        memory = with_table arena.memory arena.allocation_ptr pte_template_table_kern_only t i;
        allocation_ptr = arena.allocation_ptr + page_size;
      },
    )
unfolding table_lookup_allocating allocation_ptr_page_alloc
lookup_missing t i arena missing room =
    ground (arith, pte_to_phys_addr_lem (arena.memory (entry_address t i)))

-- A table that is at hand is the one that a lookup finds.
pub table_at_hand_lem :
    (table t i : ℕ) (arena : Arena)
    → (table ≡ phys_addr_invalid)
      ⊎ ((arena.memory (entry_address t i) % 2 ≡ 1)
          × (target (arena.memory (entry_address t i)) ≡ table))
    → table_at_hand table t i arena ≡ table_lookup_allocating t i pte_template_table_kern_only arena
unfolding table_at_hand
table_at_hand_lem table t i arena (inl none) = rw none refl
table_at_hand_lem table t i arena (inr (valid, at)) =
    rw (ne→== table phys_addr_invalid (omega arith))
      (ap (λ (u : ℕ). (u, arena)) (sym at) ∙ sym (lookup_found t i arena valid))

-- What is kept when tables are added: every walk, and every entry that was valid.
pub record Grown (l1 : ℕ) (arena arena' : Arena) : Type 0 where
  pub role : ℕ → ℕ
  pub tree : Tree arena'.memory l1 arena'.allocation_ptr role
  pub pointer :
      (arena.allocation_ptr ≤ arena'.allocation_ptr)
      × (arena'.allocation_ptr ≤ arena.allocation_ptr + page_size)
  pub walks :
      (a b c : ℕ)
      → a < 512
      → b < 512
      → c < 512
      → walk arena'.memory l1 a b c ≡ walk arena.memory l1 a b c

module _ (l1 : ℕ) (arena : Arena) (role : ℕ → ℕ)
    (tree : Tree arena.memory l1 arena.allocation_ptr role)
    (room : arena.allocation_ptr + page_size ≤ 2 ^ 47) where
  pub lookup_mid :
      (i : ℕ)
      → i < 512
      → (t : ℕ) × (arena' : Arena) × (table_lookup_allocating l1 i pte_template_table_kern_only
            arena
          ≡ (t, arena'))
        × (arena'.memory (entry_address l1 i) % 2 ≡ 1)
        × (target (arena'.memory (entry_address l1 i)) ≡ t)
        × Grown l1 arena arena'
  lookup_mid i lt = elim (ℕ_discrete (arena.memory (entry_address l1 i) % 2) 0) [
    | no valid ↦ (
      target (arena.memory (entry_address l1 i)),
      arena,
      lookup_found l1 i arena (omega arith),
      omega arith,
      refl,
      record {
        role = role;
        tree = tree;
        pointer = (omega arith, omega arith);
        walks = λ a b c la lb lc. refl;
      },
    )
    | yes missing ↦
        let (used_aligned, used_from, used_to) =
          tree.used l1 (λ z. omega (arith, tree.at_root, z)) in
        let (valid, at) =
          installed-slot arena.memory (entry_address l1 i) arena.allocation_ptr
            pte_template_table_kern_only table_kern_only-IsTemplate (omega arith) tree.ptr_aligned
            (omega arith) in
        (
          arena.allocation_ptr,
          record {
            memory = with_table arena.memory arena.allocation_ptr pte_template_table_kern_only l1 i;
            allocation_ptr = arena.allocation_ptr + page_size;
          },
          lookup_missing l1 i arena missing (omega arith),
          valid,
          at,
          record {
            role = give arena.allocation_ptr (mid i) role;
            tree =
                Tree-install_mid arena.memory l1 arena.allocation_ptr role tree
                  pte_template_table_kern_only table_kern_only-IsTemplate (omega arith) i lt;
            pointer = (omega arith, omega arith);
            walks =
                walk-install_mid arena.memory l1 arena.allocation_ptr role tree
                  pte_template_table_kern_only table_kern_only-IsTemplate (omega arith) i lt
                  missing;
          },
        )
  ]

  pub lookup_low :
      (t i j : ℕ)
      → i < 512
      → j < 512
      → arena.memory (entry_address l1 i) % 2 ≡ 1
      → target (arena.memory (entry_address l1 i)) ≡ t
      → (u : ℕ) × (arena' : Arena) × (table_lookup_allocating t j pte_template_table_kern_only arena
          ≡ (u, arena'))
        × (arena'.memory (entry_address l1 i) ≡ arena.memory (entry_address l1 i))
        × (arena'.memory (entry_address t j) % 2 ≡ 1)
        × (target (arena'.memory (entry_address t j)) ≡ u)
        × Grown l1 arena arena'
  lookup_low t i j lt lt' up at = elim (ℕ_discrete (arena.memory (entry_address t j) % 2) 0) [
    | no valid ↦ (
      target (arena.memory (entry_address t j)),
      arena,
      lookup_found t j arena (omega arith),
      refl,
      omega arith,
      refl,
      record {
        role = role;
        tree = tree;
        pointer = (omega arith, omega arith);
        walks = λ a b c la lb lc. refl;
      },
    )
    | yes missing ↦
        let is_mid : role t ≡ mid i = ap role (sym at) ∙ tree.link2 i lt up in
        let (used_aligned, used_from, used_to) = tree.used t (λ z. omega (arith, is_mid, z)) in
        let (root_aligned, root_from, root_to) =
          tree.used l1 (λ z. omega (arith, tree.at_root, z)) in
        let (valid, to) =
          installed-slot arena.memory (entry_address t j) arena.allocation_ptr
            pte_template_table_kern_only table_kern_only-IsTemplate (omega arith) tree.ptr_aligned
            (omega arith) in
        (
          arena.allocation_ptr,
          record {
            memory = with_table arena.memory arena.allocation_ptr pte_template_table_kern_only t j;
            allocation_ptr = arena.allocation_ptr + page_size;
          },
          lookup_missing t j arena missing (omega arith),
          installed-old arena.memory (entry_address t j) arena.allocation_ptr
              pte_template_table_kern_only table_kern_only-IsTemplate (omega arith) tree.ptr_aligned
              (omega arith) (entry_address l1 i)
              (λ same. omega (
                arith,
                is_mid,
                tree.at_root,
                ap role (same_slot l1 t i j root_aligned used_aligned lt lt' same).0,
              ))
              (omega arith),
          valid,
          to,
          record {
            role = give arena.allocation_ptr (low i j) role;
            tree =
                Tree-install_low arena.memory l1 arena.allocation_ptr role tree
                  pte_template_table_kern_only table_kern_only-IsTemplate (omega arith) t i j lt lt'
                  is_mid;
            pointer = (omega arith, omega arith);
            walks =
                walk-install_low arena.memory l1 arena.allocation_ptr role tree
                  pte_template_table_kern_only table_kern_only-IsTemplate (omega arith) t i j lt lt'
                  is_mid up at missing;
          },
        )
  ]

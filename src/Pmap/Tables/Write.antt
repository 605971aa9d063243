-- ===== src/Pmap/Tables/Write.antt =====
-- The write of an entry into a table of the last level.
use swink.Common.{
  ℕ, ◌/◌, ◌%◌, ◌^◌, ◌<◌, ◌≡◌, ◌≢◌, refl, ◌⊎◌, inl, inr, ◌∙◌, ap, sym, arith, ◌==◌, if◌then◌else◌,
  ℕ_discrete, ne→==, ==_refl, ◌&&◌, ok,
}
use swink.Common.Word.{bit_and_mask}
use swink.Pmap.Pte.{target, output_address_to_pte, ◌⊔◌}
use swink.Pmap.Tables.{Arena, entry_address, store, write_entry}
use swink.Pmap.Tables.Tree.{walk, walk_kept, walk-found, leaf, unused, mid, low, Tree, same_slot}

-- An entry that is written into a third-level table.
module _ (l1 : ℕ) (arena : Arena) (role : ℕ → ℕ)
    (tree : Tree arena.memory l1 arena.allocation_ptr role) (t u i j k value : ℕ) (i_lt : i < 512)
    (j_lt : j < 512) (k_lt : k < 512) (up : arena.memory (entry_address l1 i) % 2 ≡ 1)
    (at : target (arena.memory (entry_address l1 i)) ≡ t)
    (up' : arena.memory (entry_address t j) % 2 ≡ 1)
    (at' : target (arena.memory (entry_address t j)) ≡ u) where
  is_mid : role t ≡ mid i
  is_mid = ap role (sym at) ∙ tree.link2 i i_lt up

  is_low : role u ≡ low i j
  is_low = ap role (sym at') ∙ tree.link3 t i j i_lt j_lt is_mid up'

  slot_kept :
      (v x : ℕ)
      → role v ≢ unused
      → x < 512
      → (u ≡ v → k ≢ x)
      → store (entry_address u k) value arena.memory (entry_address v x)
        ≡ arena.memory (entry_address v x)
  unfolding store
  slot_kept v x nz lt other =
      let (v_aligned, v_from, v_to) = tree.used v nz in
      let (u_aligned, u_from, u_to) = tree.used u (λ z. omega (arith, is_low, z)) in
      rw
        (ne→== (entry_address v x) (entry_address u k) (λ same.
          let (sv, sx) = same_slot v u x k v_aligned u_aligned lt k_lt same in
          other (sym sv) (sym sx)))
        refl

  slot_own : store (entry_address u k) value arena.memory (entry_address u k) ≡ value
  unfolding store
  slot_own = rw (==_refl (entry_address u k)) refl

  pub root_kept :
      store (entry_address u k) value arena.memory (entry_address l1 i)
      ≡ arena.memory (entry_address l1 i)
  root_kept =
      slot_kept l1 i (λ z. omega (arith, tree.at_root, z)) i_lt
        (λ e. absurd (omega (arith, is_low, tree.at_root, ap role e)))

  pub mid_kept :
      store (entry_address u k) value arena.memory (entry_address t j)
      ≡ arena.memory (entry_address t j)
  mid_kept =
      slot_kept t j (λ z. omega (arith, is_mid, z)) j_lt
        (λ e. absurd (omega (arith, is_low, is_mid, ap role e)))

  pub Tree-write : Tree (store (entry_address u k) value arena.memory) l1 arena.allocation_ptr role
  Tree-write = record {
    at_root = tree.at_root;
    ptr_aligned = tree.ptr_aligned;
    used = tree.used;
    one_root = tree.one_root;
    link2 = λ x lt valid.
        let same =
          slot_kept l1 x (λ z. omega (arith, tree.at_root, z)) lt
            (λ e. absurd (omega (arith, is_low, tree.at_root, ap role e))) in
        ap (λ (e : ℕ). role (target e)) same
        ∙ tree.link2 x lt (ap (λ (e : ℕ). e % 2) (sym same) ∙ valid);
    link3 = λ v a b la lb e valid.
        let same =
          slot_kept v b (λ z. omega (arith, e, z)) lb
            (λ eq. absurd (omega (arith, is_low, e, ap role eq))) in
        ap (λ (e : ℕ). role (target e)) same
        ∙ tree.link3 v a b la lb e (ap (λ (e : ℕ). e % 2) (sym same) ∙ valid);
  }

  pub walk-write :
      (a b c : ℕ)
      → a < 512
      → b < 512
      → c < 512
      → ((a ≡ i) × (b ≡ j) × (c ≡ k)) ⊎ ((i ≡ a → j ≡ b → k ≢ c))
      → walk (store (entry_address u k) value arena.memory) l1 a b c
        ≡ (if a == i && (b == j && c == k) then value else walk arena.memory l1 a b c)
  walk-write a b c la lb lc (inl (ea, eb, ec)) =
      rw (ea, eb, ec)
        (rw (==_refl i, ==_refl j, ==_refl k)
          (walk-found (store (entry_address u k) value arena.memory) l1 i j k t u
              (ap (λ (e : ℕ). e % 2) root_kept ∙ up) (ap target root_kept ∙ at)
              (ap (λ (e : ℕ). e % 2) mid_kept ∙ up') (ap target mid_kept ∙ at')
            ∙ slot_own))
  walk-write a b c la lb lc (inr other) =
      walk_kept arena.memory (store (entry_address u k) value arena.memory) l1 arena.allocation_ptr
        role tree u k slot_kept a b c la lb lc
        (λ e. absurd (omega (arith, is_low, tree.at_root, ap role e)))
        (λ e. absurd (omega (arith, is_low, e)))
        (λ e. other (omega (arith, is_low, e)) (omega (arith, is_low, e)))
      ∙ ground (arith, other)

  -- By page numbers.
  pub leaf-write :
      (x y : ℕ)
      → x / 2 ^ 18 ≡ i
      → x / 2 ^ 9 % 512 ≡ j
      → x % 512 ≡ k
      → y < 2 ^ 27
      → leaf (store (entry_address u k) value arena.memory) l1 y
        ≡ (if x == y then value else leaf arena.memory l1 y)
  leaf-write x y ex ey ez lt = elim (ℕ_discrete x y) [
    | yes same ↦
        walk-write (y / 2 ^ 18) (y / 2 ^ 9 % 512) (y % 512) (omega arith) (omega arith)
          (omega arith) (inl (omega arith, omega arith, omega arith))
        ∙ ground arith
    | no other ↦
        walk-write (y / 2 ^ 18) (y / 2 ^ 9 % 512) (y % 512) (omega arith) (omega arith)
          (omega arith) (inr (λ a b c. other (omega arith)))
        ∙ ground arith
  ]

  pub write_entry_lem :
      (template pa : ℕ)
      → value ≡ (template ⊔ output_address_to_pte pa)
      → arena.memory (entry_address u k) % 2 ≡ 0
      → write_entry u k template pa arena
        ≡ ok (record arena { memory = store (entry_address u k) value arena.memory })
  unfolding write_entry
  write_entry_lem template pa e free =
      rw (e, bit_and_mask 1 (arena.memory (entry_address u k)), free) refl

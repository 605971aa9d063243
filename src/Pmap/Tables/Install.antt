-- ===== src/Pmap/Tables/Install.antt =====
-- A new table at the arena's pointer: the tree stays one, and no walk finds anything else.
use swink.Common.{
  ℕ, ◌+◌, ◌%◌, ◌^◌, ◌≤◌, ◌<◌, ◌≡◌, ◌≢◌, ◌∙◌, ap, ap₂, sym, subst, arith, ◌==◌, if◌then◌else◌,
  ℕ_discrete,
}
use swink.Pmap.Pte.{target, IsTemplate}
use swink.Pmap.Tables.{entry_address}
use swink.Pmap.Tables.Tree.{
  walk, walk_kept, walk-found, walk-missing_l2, walk-missing_l3, unused, root, mid, low, Tree,
  same_slot, installed, installed-slot, installed-new, installed-old,
}

abbrev pub give : ℕ → ℕ → (ℕ → ℕ) → ℕ → ℕ
give p r role t = if t == p then r else role t

abbrev pub with_table : (ℕ → ℕ) → ℕ → ℕ → ℕ → ℕ → ℕ → ℕ
with_table memory p template t i = installed memory (entry_address t i) p template

module _ (memory : ℕ → ℕ) (l1 p : ℕ) (role : ℕ → ℕ) (tree : Tree memory l1 p role) (template : ℕ)
    (ok_template : IsTemplate template) (room : p + 4096 ≤ 2 ^ 47) where
  is_used : (t r : ℕ) → role t ≡ r → r ≢ unused → (t % 4096 ≡ 0) × (l1 ≤ t) × (t + 4096 ≤ p)
  is_used t r e nz = tree.used t (λ z. nz (sym e ∙ z))

  root_used : (l1 % 4096 ≡ 0) × (l1 ≤ l1) × (l1 + 4096 ≤ p)
  root_used = is_used l1 root tree.at_root (λ e. omega arith)

  -- At a table `t` that is in use already, for a table of another kind.
  module _ (t i r : ℕ) (in_use : (t % 4096 ≡ 0) × (l1 ≤ t) × (t + 4096 ≤ p)) (i_lt : i < 512)
      (r_used : r ≢ unused) where
    slot :
        (with_table memory p template t i (entry_address t i) % 2 ≡ 1)
        × (target (with_table memory p template t i (entry_address t i)) ≡ p)
    slot =
        installed-slot memory (entry_address t i) p template ok_template (omega arith)
          tree.ptr_aligned (omega arith)

    new_entries : (j : ℕ) → j < 512 → with_table memory p template t i (entry_address p j) ≡ 0
    new_entries j lt =
        installed-new memory (entry_address t i) p template ok_template (omega arith)
          tree.ptr_aligned (omega arith) (entry_address p j) (omega arith) (omega arith)

    old_entries :
        (u j : ℕ)
        → (u % 4096 ≡ 0) × (l1 ≤ u) × (u + 4096 ≤ p)
        → j < 512
        → (t ≡ u → i ≢ j)
        → with_table memory p template t i (entry_address u j) ≡ memory (entry_address u j)
    old_entries u j used lt other =
        installed-old memory (entry_address t i) p template ok_template (omega arith)
          tree.ptr_aligned (omega arith) (entry_address u j)
          (λ same.
            let (st, si) = same_slot u t j i used.0 in_use.0 lt i_lt same in
            other (sym st) (sym si))
          (omega arith)

    new_used :
        (u : ℕ) → give p r role u ≢ unused → (u % 4096 ≡ 0) × (l1 ≤ u) × (u + 4096 ≤ p + 4096)
    new_used u nz = elim (ℕ_discrete u p) [
      | yes same ↦ (ground (arith, tree.ptr_aligned), omega (arith, root_used), omega arith)
      | no other ↦ let w = tree.used u (λ z. nz (ground arith)) in (w.0, w.1, omega arith)
    ]

    kept_role : (u q : ℕ) → role u ≡ q → q ≢ unused → give p r role u ≡ q
    kept_role u q e nz = ground (arith, is_used u q e nz)

    -- A valid entry that was there before leads where it did.
    still_linked :
        (u j q : ℕ)
        → with_table memory p template t i (entry_address u j) ≡ memory (entry_address u j)
        → q ≢ unused
        → (memory (entry_address u j) % 2 ≡ 1 → role (target (memory (entry_address u j))) ≡ q)
        → with_table memory p template t i (entry_address u j) % 2 ≡ 1
        → give p r role (target (with_table memory p template t i (entry_address u j))) ≡ q
    still_linked u j q same nz before valid =
        ap (λ (e : ℕ). give p r role (target e)) same
        ∙ kept_role (target (memory (entry_address u j))) q
            (before (ap (λ (e : ℕ). e % 2) (sym same) ∙ valid)) nz

    new_linked : give p r role (target (with_table memory p template t i (entry_address t i))) ≡ r
    new_linked = ap (give p r role) slot.1 ∙ given
      where
        given : give p r role p ≡ r
        given = ground arith

    -- The new table has no entries.
    no_new_entry :
        (u j : ℕ) → u ≡ p → j < 512 → with_table memory p template t i (entry_address u j) % 2 ≢ 1
    no_new_entry u j same lt valid = omega (
      arith,
      ap (λ (e : ℕ). e % 2)
          (ap (λ (u : ℕ). with_table memory p template t i (entry_address u j)) same
            ∙ new_entries j lt),
      valid,
    )

  module _ (i : ℕ) (i_lt : i < 512) where
    pub Tree-install_mid :
        Tree (with_table memory p template l1 i) l1 (p + 4096) (give p (mid i) role)
    Tree-install_mid = record {
      at_root =
          kept_role l1 i (mid i) root_used i_lt (λ e. omega arith) l1 root tree.at_root
            (λ e. omega arith);
      ptr_aligned = omega (arith, tree.ptr_aligned);
      used = new_used l1 i (mid i) root_used i_lt (λ e. omega arith);
      one_root = λ t e. ground (arith, tree.one_root t);
      link2 = λ j lt valid. elim (ℕ_discrete i j) [
        | yes same ↦
            subst
              (λ j.
                give p (mid i) role
                  (target (with_table memory p template l1 i (entry_address l1 j)))
                ≡ mid j)
              same (new_linked l1 i (mid i) root_used i_lt (λ e. omega arith))
        | no other ↦
            still_linked l1 i (mid i) root_used i_lt (λ e. omega arith) l1 j (mid j)
              (old_entries l1 i (mid i) root_used i_lt (λ e. omega arith) l1 j root_used lt
                (λ e. other))
              (λ e. omega arith) (tree.link2 j lt) valid
      ];
      link3 = λ t a b la lb e valid. elim (ℕ_discrete t p) [
        | yes same ↦
            absurd (no_new_entry l1 i (mid i) root_used i_lt (λ e. omega arith) t b same lb valid)
        | no other ↦
            let before : role t ≡ mid a = ground arith in
            still_linked l1 i (mid i) root_used i_lt (λ e. omega arith) t b (low a b)
              (old_entries l1 i (mid i) root_used i_lt (λ e. omega arith) t b
                (is_used t (mid a) before (λ e. omega arith)) lb
                (λ same. absurd (omega (arith, tree.at_root, before, ap role same))))
              (λ e. omega arith) (tree.link3 t a b la lb before) valid
      ];
    }

    pub walk-install_mid :
        memory (entry_address l1 i) % 2 ≡ 0
        → (a b c : ℕ) → a < 512
        → b < 512
        → c < 512
        → walk (with_table memory p template l1 i) l1 a b c ≡ walk memory l1 a b c
    walk-install_mid missing a b c la lb lc = elim (ℕ_discrete i a) [
      | yes same ↦
          let (valid, at) = slot l1 i (mid i) root_used i_lt (λ e. omega arith) in
          walk-missing_l3 (with_table memory p template l1 i) l1 a b c (
            subst
              (λ a.
                with_table memory p template l1 i (
                    entry_address (target (with_table memory p template l1 i (entry_address l1 a)))
                      b)
                  % 2
                ≡ 0)
              same
              (ap (λ (u : ℕ). with_table memory p template l1 i (entry_address u b) % 2) at
                ∙ ap (λ (e : ℕ). e % 2)
                    (new_entries l1 i (mid i) root_used i_lt (λ e. omega arith) b lb)))
          ∙ sym (
              walk-missing_l2 memory l1 a b c
                (ap (λ (j : ℕ). memory (entry_address l1 j) % 2) (sym same) ∙ missing))
      | no other ↦
          walk_kept memory (with_table memory p template l1 i) l1 p role tree l1 i
            (λ u j nz lt apart.
              old_entries l1 i (mid i) root_used i_lt (λ e. omega arith) u j (tree.used u nz) lt
                apart)
            a b c la lb lc (λ e. other) (λ e. absurd (omega (arith, tree.at_root, e)))
            (λ e. absurd (omega (arith, tree.at_root, e)))
    ]

  -- The same at entry `j` of a second-level table `t`, which is for entry `i` of the root.
  module _ (t i j : ℕ) (i_lt : i < 512) (j_lt : j < 512) (is_mid : role t ≡ mid i) where
    mid_used : (t % 4096 ≡ 0) × (l1 ≤ t) × (t + 4096 ≤ p)
    mid_used = is_used t (mid i) is_mid (λ e. omega arith)

    not_root : ¬ (t ≡ l1)
    not_root same = omega (arith, is_mid, tree.at_root, ap role same)

    pub Tree-install_low :
        Tree (with_table memory p template t j) l1 (p + 4096) (give p (low i j) role)
    Tree-install_low = record {
      at_root =
          kept_role t j (low i j) mid_used j_lt (λ e. omega arith) l1 root tree.at_root
            (λ e. omega arith);
      ptr_aligned = omega (arith, tree.ptr_aligned);
      used = new_used t j (low i j) mid_used j_lt (λ e. omega arith);
      one_root = λ u e. ground (arith, tree.one_root u);
      link2 = λ k lt valid.
          still_linked t j (low i j) mid_used j_lt (λ e. omega arith) l1 k (mid k)
            (old_entries t j (low i j) mid_used j_lt (λ e. omega arith) l1 k root_used lt
              (λ same. absurd (not_root same)))
            (λ e. omega arith) (tree.link2 k lt) valid;
      link3 = λ u a b la lb e valid. elim (ℕ_discrete u p) [
        | yes same ↦
            absurd (no_new_entry t j (low i j) mid_used j_lt (λ e. omega arith) u b same lb valid)
        | no other ↦
            let before : role u ≡ mid a = ground arith in
            elim (ℕ_discrete t u) [
              | yes same ↦ elim (ℕ_discrete j b) [
                | yes same_j ↦
                    let a_i : i ≡ a = omega (arith, before, is_mid, ap role same) in
                    ap₂
                      (λ (u k : ℕ).
                        give p (low i j) role
                          (target (with_table memory p template t j (entry_address u k))))
                      (sym same) (sym same_j)
                    ∙ new_linked t j (low i j) mid_used j_lt (λ e. omega arith)
                    ∙ omega (arith, a_i, same_j)
                | no other_j ↦ linked u a b la lb before valid (λ e. other_j)
              ]
              | no apart ↦ linked u a b la lb before valid (λ e. absurd (apart e))
            ]
      ];
    }
      where
        linked :
            (u a b : ℕ)
            → a < 512
            → b < 512
            → role u ≡ mid a
            → with_table memory p template t j (entry_address u b) % 2 ≡ 1
            → (t ≡ u → j ≢ b)
            → give p (low i j) role (target (with_table memory p template t j (entry_address u b)))
              ≡ low a b
        linked u a b la lb before valid apart =
            still_linked t j (low i j) mid_used j_lt (λ e. omega arith) u b (low a b)
              (old_entries t j (low i j) mid_used j_lt (λ e. omega arith) u b
                (is_used u (mid a) before (λ e. omega arith)) lb apart)
              (λ e. omega arith) (tree.link3 u a b la lb before) valid

    pub walk-install_low :
        memory (entry_address l1 i) % 2 ≡ 1
        → target (memory (entry_address l1 i)) ≡ t
        → memory (entry_address t j) % 2 ≡ 0
        → (a b c : ℕ) → a < 512
        → b < 512
        → c < 512
        → walk (with_table memory p template t j) l1 a b c ≡ walk memory l1 a b c
    walk-install_low valid at missing a b c la lb lc = elim (ℕ_discrete i a) [
      | yes same ↦ elim (ℕ_discrete j b) [
        | yes same_j ↦
            ap₂ (λ (a b : ℕ). walk (with_table memory p template t j) l1 a b c) (sym same)
              (sym same_j)
            ∙ now_empty c lc
            ∙ sym (
                walk-missing_l3 memory l1 i j c
                  (ap (λ (u : ℕ). memory (entry_address u j) % 2) at ∙ missing))
            ∙ ap₂ (λ (a b : ℕ). walk memory l1 a b c) same same_j
        | no other ↦ kept a b c la lb lc (λ e. other)
      ]
      | no other ↦ kept a b c la lb lc (λ e. absurd (other (omega (arith, e, is_mid))))
    ]
      where
        kept :
            (a b c : ℕ)
            → a < 512
            → b < 512
            → c < 512
            → (role t ≡ mid a → j ≢ b)
            → walk (with_table memory p template t j) l1 a b c ≡ walk memory l1 a b c
        kept a b c la lb lc apart =
            walk_kept memory (with_table memory p template t j) l1 p role tree t j
              (λ u k nz lt other.
                old_entries t j (low i j) mid_used j_lt (λ e. omega arith) u k (tree.used u nz) lt
                  other)
              a b c la lb lc (λ e. absurd (not_root e)) apart
              (λ e. absurd (omega (arith, is_mid, e)))

        now_empty : (c : ℕ) → c < 512 → walk (with_table memory p template t j) l1 i j c ≡ 0
        now_empty c lc =
            let (ok_slot, to_new) = slot t j (low i j) mid_used j_lt (λ e. omega arith) in
            let same_l1 =
              old_entries t j (low i j) mid_used j_lt (λ e. omega arith) l1 i root_used i_lt
                (λ e. absurd (not_root e)) in
            walk-found (with_table memory p template t j) l1 i j c t p
              (ap (λ (e : ℕ). e % 2) same_l1 ∙ valid) (ap target same_l1 ∙ at) ok_slot to_new
            ∙ new_entries t j (low i j) mid_used j_lt (λ e. omega arith) c lc

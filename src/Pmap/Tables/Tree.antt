-- ===== src/Pmap/Tables/Tree.antt =====
-- The translation tables as a tree: what a walk through them finds, and that every table has one
-- place in it.
use swink.Common.{
  ℕ, ◌+◌, ◌*◌, ◌/◌, ◌%◌, ◌^◌, ◌≤◌, ◌<◌, ◌≡◌, ◌≢◌, refl, ◌∙◌, ap, arith, ◌==◌, if◌then◌else◌,
  ℕ_discrete,
}
use swink.Pmap.Pte.{◌⊔◌, output_address_to_pte, target, IsTemplate, entry_lem}
use swink.Pmap.Tables.{entry_address, store, fill_page}

-- The last-level entry that a walk from `l1` reads, and 0 where a table is missing on the way.
unfoldable pub walk : (ℕ → ℕ) → ℕ → ℕ → ℕ → ℕ → ℕ
walk memory l1 i1 i2 i3 =
    let e1 = memory (entry_address l1 i1) in
    let e2 = memory (entry_address (target e1) i2) in
    if e1 % 2 == 0 then 0 else if e2 % 2 == 0 then 0 else memory (entry_address (target e2) i3)

-- The entry of a page number: nine bits of it for each level.
abbrev pub leaf : (ℕ → ℕ) → ℕ → ℕ → ℕ
leaf memory l1 x = walk memory l1 (x / 2 ^ 18) (x / 2 ^ 9 % 512) (x % 512)

pub walk_same :
    (memory memory' : ℕ → ℕ) (l1 a b c : ℕ)
    → memory' (entry_address l1 a) ≡ memory (entry_address l1 a)
    → (memory (entry_address l1 a) % 2 ≢ 0
        → memory' (entry_address (target (memory (entry_address l1 a))) b)
          ≡ memory (entry_address (target (memory (entry_address l1 a))) b))
    → (memory (entry_address l1 a) % 2 ≢ 0
        → memory (entry_address (target (memory (entry_address l1 a))) b) % 2 ≢ 0
        → memory' (
            entry_address
              (target (memory (entry_address (target (memory (entry_address l1 a))) b)))
              c)
          ≡ memory (
              entry_address
                (target (memory (entry_address (target (memory (entry_address l1 a))) b)))
                c))
    → walk memory' l1 a b c ≡ walk memory l1 a b c
unfolding walk
walk_same memory memory' l1 a b c e1 e2 e3 = elim (ℕ_discrete (memory (entry_address l1 a) % 2) 0) [
  | yes none ↦ rw e1 (rw none refl)
  | no some_l2 ↦
      elim (ℕ_discrete (memory (entry_address (target (memory (entry_address l1 a))) b) % 2) 0) [
        | yes none ↦ rw (e1, e2 some_l2) (rw none (ground arith))
        | no some_l3 ↦ rw (e1, e2 some_l2, e3 some_l2 some_l3) refl
      ]
]

-- What a table is for, as a number: nothing, the root, the second level below entry `i` of the root,
-- and the third level below entry `j` of that.
abbrev pub unused : ℕ
unused = 0

abbrev pub root : ℕ
root = 1

abbrev pub mid : ℕ → ℕ
mid i = 2 + i

abbrev pub low : ℕ → ℕ → ℕ
low i j = 1024 + 512 * i + j

-- Every table is a page between the root and the arena's pointer, and every valid entry leads to the
-- table that is for it.
pub record Tree (memory : ℕ → ℕ) (l1 ptr : ℕ) (role : ℕ → ℕ) : Type 0 where
  pub at_root : role l1 ≡ root
  pub ptr_aligned : ptr % 4096 ≡ 0
  pub used : (t : ℕ) → role t ≢ unused → (t % 4096 ≡ 0) × (l1 ≤ t) × (t + 4096 ≤ ptr)
  pub one_root : (t : ℕ) → role t ≡ root → t ≡ l1
  pub link2 :
      (i : ℕ)
      → i < 512
      → memory (entry_address l1 i) % 2 ≡ 1
      → role (target (memory (entry_address l1 i))) ≡ mid i
  pub link3 :
      (t i j : ℕ)
      → i < 512
      → j < 512
      → role t ≡ mid i
      → memory (entry_address t j) % 2 ≡ 1
      → role (target (memory (entry_address t j))) ≡ low i j

-- Two slots are the same only in the same table.
pub same_slot :
    (t u i j : ℕ)
    → t % 4096 ≡ 0
    → u % 4096 ≡ 0
    → i < 512
    → j < 512
    → entry_address t i ≡ entry_address u j
    → (t ≡ u) × (i ≡ j)
same_slot t u i j at au hi hj same = (omega arith, omega arith)

-- A new table at `p`, without entries, behind the slot `s`.
abbrev pub installed : (ℕ → ℕ) → ℕ → ℕ → ℕ → ℕ → ℕ
installed memory s p template = store s (template ⊔ output_address_to_pte p) (fill_page p 0 memory)

module _ (memory : ℕ → ℕ) (s p template : ℕ) (ok_template : IsTemplate template) (below : s < p)
    (aligned : p % 4096 ≡ 0) (room : p < 2 ^ 47) where
  pub installed-slot :
      (installed memory s p template s % 2 ≡ 1) × (target (installed memory s p template s) ≡ p)
  unfolding store
  installed-slot = ground (arith, entry_lem template p ok_template)

  pub installed-new : (x : ℕ) → p ≤ x → x < p + 4096 → installed memory s p template x ≡ 0
  unfolding store fill_page
  installed-new x lo hi = ground arith

  pub installed-old : (x : ℕ) → x ≢ s → x < p → installed memory s p template x ≡ memory x
  unfolding store fill_page
  installed-old x other lt = ground arith

pub walk-missing_l2 :
    (memory : ℕ → ℕ) (l1 a b c : ℕ) → memory (entry_address l1 a) % 2 ≡ 0 → walk memory l1 a b c ≡ 0
unfolding walk
walk-missing_l2 memory l1 a b c none = rw none refl

pub walk-missing_l3 :
    (memory : ℕ → ℕ) (l1 a b c : ℕ)
    → memory (entry_address (target (memory (entry_address l1 a))) b) % 2 ≡ 0
    → walk memory l1 a b c ≡ 0
unfolding walk
walk-missing_l3 memory l1 a b c none = ground arith

pub walk-found :
    (memory : ℕ → ℕ) (l1 a b c t u : ℕ)
    → memory (entry_address l1 a) % 2 ≡ 1
    → target (memory (entry_address l1 a)) ≡ t
    → memory (entry_address t b) % 2 ≡ 1
    → target (memory (entry_address t b)) ≡ u
    → walk memory l1 a b c ≡ memory (entry_address u c)
unfolding walk
walk-found memory l1 a b c t u v2 e2 v3 e3 = rw (e2, v2, e3, v3) refl

-- Where only slot `i` of table `t` has changed among the tables, no walk that does not pass the slot
-- finds anything else.
module _ (memory memory' : ℕ → ℕ) (l1 p : ℕ) (role : ℕ → ℕ) (tree : Tree memory l1 p role) (t i : ℕ)
    (kept : (u j : ℕ)
      → role u ≢ unused
      → j < 512
      → (t ≡ u → i ≢ j)
      → memory' (entry_address u j) ≡ memory (entry_address u j)) where
  pub walk_kept :
      (a b c : ℕ)
      → a < 512
      → b < 512
      → c < 512
      → (t ≡ l1 → i ≢ a)
      → (role t ≡ mid a → i ≢ b)
      → (role t ≡ low a b → i ≢ c)
      → walk memory' l1 a b c ≡ walk memory l1 a b c
  walk_kept a b c la lb lc other1 other2 other3 =
      walk_same memory memory' l1 a b c (kept l1 a (λ z. omega (arith, tree.at_root, z)) la other1)
        (λ valid.
          let r = tree.link2 a la (omega (arith, valid)) in
          kept (target (memory (entry_address l1 a))) b (λ z. omega (arith, r, z)) lb
            (λ same. other2 (ap role same ∙ r)))
        (λ valid valid'.
          let r = tree.link2 a la (omega (arith, valid)) in
          let q =
            tree.link3 (target (memory (entry_address l1 a))) a b la lb r (omega (arith, valid')) in
          kept (target (memory (entry_address (target (memory (entry_address l1 a))) b))) c
            (λ z. omega (arith, q, z)) lc (λ same. other3 (ap role same ∙ q)))

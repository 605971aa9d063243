-- ===== src/Pmap/Tables/Reach.antt =====
-- The start of a round of vm_init_map_contiguous, which brings the two tables of its page to hand.
use swink.Common.{
  ◌==◌, if◌then◌else◌, ℕ, ◌+◌, ◌*◌, ◌/◌, ◌%◌, ◌^◌, ◌≤◌, ◌<◌, ◌≡◌, ◌⊎◌, inl, inr, ◌∙◌, ap, ap₂, sym,
  subst₂, arith,
}
use swink.Pmap.{page_size, phys_addr_invalid}
use swink.Pmap.Pte.{target}
use swink.Pmap.Templates.{pte_template_table_kern_only}
use swink.Pmap.Tables.{Arena, Cursor, entry_address, table_lookup_allocating, table_at_hand}
use swink.Pmap.Tables.Tree.{walk, leaf, Tree}
use swink.Pmap.Tables.Lookup.{table_at_hand_lem, lookup_found, Grown, lookup_mid, lookup_low}

-- Where the cursor stands, and that the tables that it has at hand are those of the walk.
abbrev pub At : Cursor → ℕ → Type 0
At c x = (c.l1_i * 2 ^ 18 + c.l2_i * 2 ^ 9 + c.l3_i ≡ x) × (c.l2_i < 512) × (c.l3_i < 512)

abbrev pub Leads : (ℕ → ℕ) → ℕ → ℕ → ℕ → Type 0
Leads memory table i next =
    (memory (entry_address table i) % 2 ≡ 1) × (target (memory (entry_address table i)) ≡ next)

abbrev pub Cached : (ℕ → ℕ) → ℕ → Cursor → Type 0
Cached memory l1 c =
    ((c.l2 ≡ phys_addr_invalid) × (c.l3 ≡ phys_addr_invalid))
    ⊎ (Leads memory l1 c.l1_i c.l2 × ((c.l3 ≡ phys_addr_invalid) ⊎ Leads memory c.l2 c.l2_i c.l3))

pub leaf-At :
    (l1 : ℕ) (c : Cursor) (memory : ℕ → ℕ) (x : ℕ)
    → At c x
    → walk memory l1 c.l1_i c.l2_i c.l3_i ≡ leaf memory l1 x
leaf-At l1 c memory x at =
    ap₂ (λ (a b : ℕ). walk memory l1 a b c.l3_i) {x = c.l1_i} {y = x / 2 ^ 18} {u = c.l2_i}
      {v = x / 2 ^ 9 % 512} (omega arith) (omega arith)
    ∙ ap (λ (z : ℕ). walk memory l1 (x / 2 ^ 18) (x / 2 ^ 9 % 512) z) {x = c.l3_i} {y = x % 512}
        (omega arith)

-- The number of tables that are not at hand.
abbrev pub absent : ℕ → ℕ
absent table = if table == phys_addr_invalid then 1 else 0

-- The tables at hand and the memory with them, in which every page is mapped as before.
pub record Reached (l1 : ℕ) (c : Cursor) (arena : Arena) : Type 0 where
  pub t_mid : ℕ
  pub t_low : ℕ
  pub arena1 : Arena
  pub arena2 : Arena
  pub role : ℕ → ℕ
  pub tree : Tree arena2.memory l1 arena2.allocation_ptr role
  pub mid_eq : table_at_hand c.l2 l1 c.l1_i arena ≡ (t_mid, arena1)
  pub low_eq : table_at_hand c.l3 t_mid c.l2_i arena1 ≡ (t_low, arena2)
  pub to_mid : Leads arena2.memory l1 c.l1_i t_mid
  pub to_low : Leads arena2.memory t_mid c.l2_i t_low
  pub pointer :
      (arena.allocation_ptr ≤ arena2.allocation_ptr)
      × (arena2.allocation_ptr ≤ arena.allocation_ptr + 2 * page_size)
  pub taken : arena2.allocation_ptr ≤ arena.allocation_ptr + page_size * (absent c.l2 + absent c.l3)
  pub leaves : (y : ℕ) → y < 2 ^ 27 → leaf arena2.memory l1 y ≡ leaf arena.memory l1 y

module _ (l1 x : ℕ) (c : Cursor) (arena : Arena) (role : ℕ → ℕ)
    (tree : Tree arena.memory l1 arena.allocation_ptr role) (at : At c x) (fits : x < 2 ^ 27)
    (cached : Cached arena.memory l1 c) (room : arena.allocation_ptr + 2 * page_size ≤ 2 ^ 47) where
  leaf-Grown :
      (a b : Arena) → Grown l1 a b → (y : ℕ) → y < 2 ^ 27 → leaf b.memory l1 y ≡ leaf a.memory l1 y
  leaf-Grown a b g y lt =
      g.walks (y / 2 ^ 18) (y / 2 ^ 9 % 512) (y % 512) (omega arith) (omega arith) (omega arith)

  first : (c.l2 ≡ phys_addr_invalid) ⊎ Leads arena.memory l1 c.l1_i c.l2
  first = elim cached [ inl (none, _) ↦ inl none | inr (leads, _) ↦ inr leads ]

  second :
      (t : ℕ) (arena1 : Arena)
      → table_lookup_allocating l1 c.l1_i pte_template_table_kern_only arena ≡ (t, arena1)
      → (c.l3 ≡ phys_addr_invalid) ⊎ Leads arena1.memory t c.l2_i c.l3
  second t arena1 e = elim cached [
    | inl (_, none) ↦ inl none
    | inr (leads, next) ↦ elim next [
      | inl none ↦ inl none
      | inr leads' ↦
          let found = sym (lookup_found l1 c.l1_i arena leads.0) ∙ e in
          let same_t : c.l2 ≡ t = sym leads.1 ∙ ap (λ (p : ℕ × Arena). p.0) found in
          let same_arena : arena ≡ arena1 = ap (λ (p : ℕ × Arena). p.1) found in
          inr
            (subst₂ (λ (a : Arena) (t : ℕ). Leads a.memory t c.l2_i c.l3) same_arena same_t leads')
    ]
  ]

  mid_taken :
      (t : ℕ) (arena1 : Arena)
      → table_lookup_allocating l1 c.l1_i pte_template_table_kern_only arena ≡ (t, arena1)
      → arena1.allocation_ptr ≤ arena.allocation_ptr + page_size
      → arena1.allocation_ptr ≤ arena.allocation_ptr + page_size * absent c.l2
  mid_taken t arena1 e le = elim first [
    | inl none ↦ ground (arith, none, le)
    | inr leads ↦ omega (
      arith,
      ap (λ (p : ℕ × Arena). p.1.allocation_ptr) (sym (lookup_found l1 c.l1_i arena leads.0) ∙ e),
    )
  ]

  low_taken :
      (t u : ℕ) (arena1 arena2 : Arena)
      → table_lookup_allocating l1 c.l1_i pte_template_table_kern_only arena ≡ (t, arena1)
      → table_lookup_allocating t c.l2_i pte_template_table_kern_only arena1 ≡ (u, arena2)
      → arena2.allocation_ptr ≤ arena1.allocation_ptr + page_size
      → arena2.allocation_ptr ≤ arena1.allocation_ptr + page_size * absent c.l3
  low_taken t u arena1 arena2 e e' le = elim (second t arena1 e) [
    | inl none ↦ ground (arith, none, le)
    | inr leads ↦ omega (
      arith,
      ap (λ (p : ℕ × Arena). p.1.allocation_ptr) (sym (lookup_found t c.l2_i arena1 leads.0) ∙ e'),
    )
  ]

  pub reach : Reached l1 c arena
  reach =
      let (t, arena1, e1, up, to, g) =
        lookup_mid l1 arena role tree (omega arith) c.l1_i (omega arith) in
      let (u, arena2, e2, kept, up', to', h) =
        lookup_low l1 arena1 g.role g.tree (omega (arith, g.pointer)) t c.l1_i c.l2_i (omega arith)
          at.1 up to in
      record {
        t_mid = t;
        t_low = u;
        arena1 = arena1;
        arena2 = arena2;
        role = h.role;
        tree = h.tree;
        mid_eq = table_at_hand_lem c.l2 l1 c.l1_i arena first ∙ e1;
        low_eq = table_at_hand_lem c.l3 t c.l2_i arena1 (second t arena1 e1) ∙ e2;
        to_mid = (ap (λ (e : ℕ). e % 2) kept ∙ up, ap target kept ∙ to);
        to_low = (up', to');
        taken = omega (
          arith,
          mid_taken t arena1 e1 (omega (arith, g.pointer)),
          low_taken t u arena1 arena2 e1 e2 (omega (arith, h.pointer)),
        );
        pointer = (omega (arith, g.pointer, h.pointer), omega (arith, g.pointer, h.pointer));
        leaves = λ y lt. leaf-Grown arena1 arena2 h y lt ∙ leaf-Grown arena arena1 g y lt;
      }

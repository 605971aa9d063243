-- ===== src/Pmap/Tables/Round.antt =====
-- One round of vm_init_map_contiguous maps one page.
use swink.Common.{
  ℕ, suc, ◌+◌, ◌-◌, ◌*◌, ◌/◌, ◌%◌, ◌^◌, ◌≤◌, ◌<◌, ◌≡◌, refl, inl, inr, ◌∙◌, ap, sym, arith, ◌==◌,
  if◌then◌else◌, ℕ_discrete, dec_lt, ltb, leb, ◌&&◌, ok, panic,
}
use swink.Common.Word.{u64, bit_and_mask}
use swink.Pmap.{page_size, phys_addr_invalid}
use swink.Pmap.Pte.{target, output_address_to_pte, ◌⊔◌}
use swink.Pmap.Tables.{
  Arena, Cursor, entry_address, store, table_at_hand, write_entry, advance, map_rounds,
}
use swink.Pmap.Tables.Tree.{walk-found, leaf, Tree}
use swink.Pmap.Tables.Reach.{absent, At, Leads, Cached, leaf-At, Reached, reach}
use swink.Pmap.Tables.Write.{root_kept, mid_kept, Tree-write, leaf-write, write_entry_lem}

pub advance_lem :
    (memory : ℕ → ℕ) (l1 rounds x : ℕ) (c : Cursor)
    → At c x
    → x + 1 + rounds ≤ 2 ^ 27
    → Leads memory l1 c.l1_i c.l2
    → Leads memory c.l2 c.l2_i c.l3
    → (c' : Cursor) × (advance (ltb 0 rounds) c ≡ ok c')
      × At c' (x + 1)
      × Cached memory l1 c'
      × (absent c'.l2 + absent c'.l3 + 2 * (x / 512) ≤ 2 * ((x + 1) / 512))
unfolding advance
advance_lem memory l1 rounds x c (e, l2_lt, l3_lt) room up up' = elim (dec_lt (c.l3_i + 1) 512) [
  | yes lt ↦ (
    record c { l3_i = c.l3_i + 1 },
    ground arith,
    (omega arith, omega arith, omega arith),
    inr (up, inr up'),
    ground (arith, up.1, up'.1),
  )
  | no wrap3 ↦ elim (dec_lt (c.l2_i + 1) 512) [
    | yes lt ↦ (
      record c { l3_i = 0; l3 = phys_addr_invalid; l2_i = c.l2_i + 1 },
      ground arith,
      (omega arith, omega arith, omega arith),
      inr (up, inl refl),
      ground (arith, up.1),
    )
    | no wrap2 ↦ (
      record {
        l3_i = 0;
        l3 = phys_addr_invalid;
        l2_i = 0;
        l2 = phys_addr_invalid;
        l1_i = c.l1_i + 1;
      },
      ground arith,
      (omega arith, omega arith, omega arith),
      inl (refl, refl),
      omega arith,
    )
  ]
]

-- A mapping of the pages from `from` to `to` on.
abbrev pub entry_for : ℕ → ℕ → ℕ → ℕ
entry_for template phys_base page_i =
    template ⊔ output_address_to_pte (u64 (phys_base + page_i * page_size))

pub record Mapped (l1 template phys_base start from to : ℕ) (arena arena' : Arena) : Type 0 where
  pub role : ℕ → ℕ
  pub tree : Tree arena'.memory l1 arena'.allocation_ptr role
  pub pointer :
      (arena.allocation_ptr ≤ arena'.allocation_ptr)
      × (arena'.allocation_ptr ≤ arena.allocation_ptr + 2 * page_size * (to - from))
  pub leaves :
      (y : ℕ)
      → y < 2 ^ 27
      → leaf arena'.memory l1 y ≡ (
          if leb from y && ltb y to
          then entry_for template phys_base (y - start)
          else leaf arena.memory l1 y)

round_eq :
    (l1 template phys_base page_i rounds t u : ℕ) (c c' : Cursor)
    (arena arena1 arena2 arena3 : Arena)
    → table_at_hand c.l2 l1 c.l1_i arena ≡ (t, arena1)
    → table_at_hand c.l3 t c.l2_i arena1 ≡ (u, arena2)
    → write_entry u c.l3_i template (u64 (phys_base + page_i * page_size)) arena2 ≡ ok arena3
    → advance (ltb 0 rounds) (record c { l2 = t; l3 = u }) ≡ ok c'
    → map_rounds (suc rounds) l1 template phys_base page_i c arena
      ≡ map_rounds rounds l1 template phys_base (page_i + 1) c' arena3
unfolding map_rounds
round_eq l1 template phys_base page_i rounds t u c c' arena arena1 arena2 arena3 e1 e2 e3 e4 =
    rw e1 (rw e2 (rw e3 (rw e4 refl)))

module _ (l1 template phys_base start page_i rounds : ℕ) (c : Cursor) (arena : Arena)
    (at : At c (start + page_i)) (fits : start + page_i + 1 + rounds ≤ 2 ^ 27)
    (r : Reached l1 c arena) where
  reached_entry :
      r.arena2.memory (entry_address r.t_low c.l3_i) ≡ leaf arena.memory l1 (start + page_i)
  reached_entry =
      sym (
        walk-found r.arena2.memory l1 c.l1_i c.l2_i c.l3_i r.t_mid r.t_low r.to_mid.0 r.to_mid.1
          r.to_low.0 r.to_low.1)
      ∙ leaf-At l1 c r.arena2.memory (start + page_i) at
      ∙ r.leaves (start + page_i) (omega arith)

  -- A page that is mapped already is not mapped again.
  pub round_panics :
      leaf arena.memory l1 (start + page_i) % 2 ≡ 1
      → map_rounds (suc rounds) l1 template phys_base page_i c arena ≡ panic
  unfolding map_rounds write_entry
  round_panics mapped = rw r.mid_eq (
      rw r.low_eq (
        rw (bit_and_mask 1 (r.arena2.memory (entry_address r.t_low c.l3_i)), reached_entry, mapped)
          refl))

  module _ (free : leaf arena.memory l1 (start + page_i) % 2 ≡ 0) where
    round_reached :
        (c' : Cursor) × (arena' : Arena) × (map_rounds
            (suc rounds)
            l1
            template
            phys_base
            page_i
            c
            arena
          ≡ map_rounds rounds l1 template phys_base (page_i + 1) c' arena')
        × At c' (start + page_i + 1)
        × Cached arena'.memory l1 c'
        × Mapped l1 template phys_base start (start + page_i) (start + page_i + 1) arena arena'
        × (arena'.allocation_ptr ≤ arena.allocation_ptr + page_size * (absent c.l2 + absent c.l3))
        × (absent c'.l2 + absent c'.l3 + 2 * ((start + page_i) / 512)
            ≤ 2 * (((start + page_i) + 1) / 512))
    round_reached =
        let value = entry_for template phys_base page_i in
        let kept =
          root_kept l1 r.arena2 r.role r.tree r.t_mid r.t_low c.l1_i c.l2_i c.l3_i value
            (omega arith) at.1 at.2 r.to_mid.0 r.to_mid.1 r.to_low.0 r.to_low.1 in
        let kept' =
          mid_kept l1 r.arena2 r.role r.tree r.t_mid r.t_low c.l1_i c.l2_i c.l3_i value
            (omega arith) at.1 at.2 r.to_mid.0 r.to_mid.1 r.to_low.0 r.to_low.1 in
        let (c', e4, at', cached', wraps) =
          advance_lem (store (entry_address r.t_low c.l3_i) value r.arena2.memory) l1 rounds
            (start + page_i) (record c { l2 = r.t_mid; l3 = r.t_low }) at fits
            (ap (λ (e : ℕ). e % 2) kept ∙ r.to_mid.0, ap target kept ∙ r.to_mid.1)
            (ap (λ (e : ℕ). e % 2) kept' ∙ r.to_low.0, ap target kept' ∙ r.to_low.1) in
        (
          c',
          record r.arena2 { memory = store (entry_address r.t_low c.l3_i) value r.arena2.memory },
          round_eq l1 template phys_base page_i rounds r.t_mid r.t_low c c' arena r.arena1 r.arena2
              (record r.arena2 {
                memory = store (entry_address r.t_low c.l3_i) value r.arena2.memory;
              })
              r.mid_eq r.low_eq
              (write_entry_lem l1 r.arena2 r.role r.tree r.t_mid r.t_low c.l1_i c.l2_i c.l3_i value
                (omega arith) at.1 at.2 r.to_mid.0 r.to_mid.1 r.to_low.0 r.to_low.1 template
                (u64 (phys_base + page_i * page_size)) refl
                (ap (λ (e : ℕ). e % 2) reached_entry ∙ free))
              e4,
          at',
          cached',
          record {
            role = r.role;
            tree =
                Tree-write l1 r.arena2 r.role r.tree r.t_mid r.t_low c.l1_i c.l2_i c.l3_i value
                  (omega arith) at.1 at.2 r.to_mid.0 r.to_mid.1 r.to_low.0 r.to_low.1;
            pointer = (omega (arith, r.pointer), omega (arith, r.pointer));
            leaves = λ y lt.
                leaf-write l1 r.arena2 r.role r.tree r.t_mid r.t_low c.l1_i c.l2_i c.l3_i value
                  (omega arith) at.1 at.2 r.to_mid.0 r.to_mid.1 r.to_low.0 r.to_low.1
                  (start + page_i) y (omega arith) (omega arith) (omega arith) lt
                ∙ here r.arena2 y (r.leaves y lt);
          },
          r.taken,
          wraps,
        )
      where
        here :
            (arena2 : Arena) (y : ℕ)
            → leaf arena2.memory l1 y ≡ leaf arena.memory l1 y
            → (if start + page_i == y
                then entry_for template phys_base page_i
                else leaf arena2.memory l1 y)
              ≡ (if leb (start + page_i) y && ltb y (start + page_i + 1)
                  then entry_for template phys_base (y - start)
                  else leaf arena.memory l1 y)
        here arena2 y same = elim (ℕ_discrete (start + page_i) y) [
          | yes eq ↦
              ground (
                arith,
                ap (entry_for template phys_base) {x = page_i} {y = y - start} (omega arith),
              )
          | no other ↦ ground (arith, same)
        ]

module _ (l1 template phys_base start page_i rounds : ℕ) (c : Cursor) (arena : Arena) (role : ℕ → ℕ)
    (tree : Tree arena.memory l1 arena.allocation_ptr role) (at : At c (start + page_i))
    (fits : start + page_i + 1 + rounds ≤ 2 ^ 27) (cached : Cached arena.memory l1 c)
    (room : arena.allocation_ptr + 2 * page_size ≤ 2 ^ 47)
    (free : leaf arena.memory l1 (start + page_i) % 2 ≡ 0) where
  pub round_lem :
      (c' : Cursor) × (arena' : Arena) × (map_rounds
          (suc rounds)
          l1
          template
          phys_base
          page_i
          c
          arena
        ≡ map_rounds rounds l1 template phys_base (page_i + 1) c' arena')
      × At c' (start + page_i + 1)
      × Cached arena'.memory l1 c'
      × Mapped l1 template phys_base start (start + page_i) (start + page_i + 1) arena arena'
      × (arena'.allocation_ptr ≤ arena.allocation_ptr + page_size * (absent c.l2 + absent c.l3))
      × (absent c'.l2 + absent c'.l3 + 2 * ((start + page_i) / 512)
          ≤ 2 * (((start + page_i) + 1) / 512))
  round_lem =
      round_reached l1 template phys_base start page_i rounds c arena at fits
        (reach l1 (start + page_i) c arena role tree at (omega arith) cached room) free

-- ===== src/Pmap/Tables.antt =====
-- kernel/machine/pmap/pmap_init.c: the translation tables of the kernel and the loop that maps a
-- range of pages into them.
pub mod Install
pub mod Lookup
pub mod Range
pub mod Reach
pub mod Round
pub mod Tree
pub mod Write
use swink.Common.{
  ℕ, zero, suc, ◌+◌, ◌-◌, ◌*◌, ◌^◌, bit_and, Result, ok, panic, assert, ◌>>=◌, ◌>>◌, ltb, leb, ◌==◌,
  ◌&&◌, not, if◌then◌else◌, Bool,
}
use swink.Common.Word.{u64, shr}
use swink.Pmap.{page_size, phys_addr_invalid}
use swink.Pmap.Pte.{◌⊔◌, pte_valid, pte_invalid, pte_to_phys_addr, output_address_to_pte}
use swink.Pmap.Templates.{pte_template_table_kern_only}

abbrev pub page_entry_count : ℕ
page_entry_count = 512

-- TCR_T1SZ_VALUE of kernel/machine/platform_registers.h
abbrev pub tcr_t1sz_value : ℕ
tcr_t1sz_value = 25

-- Physical memory as 64-bit words at their addresses, and the pointer of the arena.
pub record Arena : Type 0 where
  pub memory : ℕ → ℕ
  pub allocation_ptr : ℕ

-- `((uint64_t *)table)[i]`
abbrev pub entry_address : ℕ → ℕ → ℕ
entry_address table i = table + 8 * i

unfoldable pub store : ℕ → ℕ → (ℕ → ℕ) → ℕ → ℕ
store address value memory a = if a == address then value else memory a

-- `memset` of a page, whose words have `fill` in all eight bytes
unfoldable pub fill_page : ℕ → ℕ → (ℕ → ℕ) → ℕ → ℕ
fill_page page fill memory a =
    if leb page a && ltb a (page + page_size) then fill * 72340172838076673 else memory a

-- The indices on the three levels, and the select bit.
unfoldable pub va_to_phys_indexes : ℕ → ℕ × ℕ × ℕ × ℕ
va_to_phys_indexes va = (
  bit_and (shr va 30) (2 ^ (64 - tcr_t1sz_value - 30) - 1),
  bit_and (shr va 21) 511,
  bit_and (shr va 12) 511,
  bit_and (shr va (64 - 8)) 1,
)

unfoldable pub allocation_ptr_page_alloc : ℕ → Arena → ℕ × Arena
unfolding fill_page
allocation_ptr_page_alloc fill arena = (
  arena.allocation_ptr,
  record {
    memory = fill_page arena.allocation_ptr fill arena.memory;
    allocation_ptr = u64 (arena.allocation_ptr + page_size);
  },
)

unfoldable pub table_lookup_allocating : ℕ → ℕ → ℕ → Arena → ℕ × Arena
unfolding allocation_ptr_page_alloc store
table_lookup_allocating table_base table_i pte_template arena =
    let found = pte_to_phys_addr (arena.memory (entry_address table_base table_i)) in
    let (result, arena') = allocation_ptr_page_alloc 0 arena in
    if not (found == phys_addr_invalid) then (found, arena) else (
      result,
      record arena' {
        memory =
            store (entry_address table_base table_i) (pte_template ⊔ output_address_to_pte result)
              arena'.memory;
      },
    )

-- The tables that the loop has at hand, or PHYS_ADDR_INVALID, and the indices of the next page.
pub record Cursor : Type 0 where
  pub l2 : ℕ
  pub l3 : ℕ
  pub l1_i : ℕ
  pub l2_i : ℕ
  pub l3_i : ℕ

-- `if (table == PHYS_ADDR_INVALID) table = table_lookup_allocating(...)`
unfoldable pub table_at_hand : ℕ → ℕ → ℕ → Arena → ℕ × Arena
table_at_hand table table_base table_i arena =
    if table == phys_addr_invalid
    then table_lookup_allocating table_base table_i pte_template_table_kern_only arena
    else (table, arena)

-- The assertion and the write of the entry.
unfoldable pub write_entry : ℕ → ℕ → ℕ → ℕ → Arena → Result Arena
unfolding store
write_entry l3 l3_i pte_template pa arena =
    assert (bit_and (arena.memory (entry_address l3 l3_i)) pte_valid == pte_invalid)
    >> ok (record arena {
      memory = store (entry_address l3 l3_i) (pte_template ⊔ output_address_to_pte pa) arena.memory;
    })

-- The end of a round. `more` says that the loop goes on.
unfoldable pub advance : Bool → Cursor → Result Cursor
advance more c =
    if ltb (c.l3_i + 1) page_entry_count
    then ok (record c { l3_i = c.l3_i + 1 })
    else if ltb (c.l2_i + 1) page_entry_count
    then ok (record c { l3_i = 0; l3 = phys_addr_invalid; l2_i = c.l2_i + 1 })
    else if leb page_entry_count (c.l1_i + 1) && more
    then panic
    else ok (record {
      l3_i = 0;
      l3 = phys_addr_invalid;
      l2_i = 0;
      l2 = phys_addr_invalid;
      l1_i = c.l1_i + 1;
    })

-- The rounds that are left, from page `page_i` on.
unfoldable pub map_rounds : ℕ → ℕ → ℕ → ℕ → ℕ → Cursor → Arena → Result Arena
map_rounds zero l1 pte_template phys_base page_i c arena = ok arena
map_rounds (suc rounds) l1 pte_template phys_base page_i c arena =
    let (l2, arena1) = table_at_hand c.l2 l1 c.l1_i arena in
    let (l3, arena2) = table_at_hand c.l3 l2 c.l2_i arena1 in
    write_entry l3 c.l3_i pte_template (u64 (phys_base + page_i * page_size)) arena2 >>= λ arena3.
    advance (ltb 0 rounds) (record c { l2 = l2; l3 = l3 }) >>= λ c'.
    map_rounds rounds l1 pte_template phys_base (page_i + 1) c' arena3

-- vm_init_map_contiguous; `l1` is `pmap->table_base`.
unfoldable pub vm_init_map_contiguous : ℕ → ℕ → ℕ → ℕ → ℕ → Arena → Result Arena
unfolding va_to_phys_indexes
vm_init_map_contiguous l1 pte_template vm_base phys_base page_count arena =
    let (l1_i, l2_i, l3_i, select) = va_to_phys_indexes vm_base in
    map_rounds page_count l1 pte_template phys_base 0
      (record {
        l2 = phys_addr_invalid;
        l3 = phys_addr_invalid;
        l1_i = l1_i;
        l2_i = l2_i;
        l3_i = l3_i;
      })
      arena

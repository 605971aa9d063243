-- ===== src/Pmap/Templates.antt =====
-- The templates of kernel/machine/pmap/pmap_asm.h, and what they let the kernel and the user do.
use swink.Common.{ℕ, ◌≡◌, arith, Bool, true, false}
use swink.Common.Word.{bit_at}
use swink.Pmap.Pte.{
  ◌⊔◌, uxn_table, pxn_table, uxn_block, pxn_block, access_flag_block, ap_kern_rw_user_na,
  ap_kern_rw_user_rw, ap_kern_ro_user_na, ap_block_to_pte, ap_table_to_pte, sh_non_shareable,
  sh_outer_shareable, sh_to_pte, mair_idx_normal, mair_idx_device, mair_idx_to_pte, pte_valid_block,
  pte_valid_table, IsTemplate, output_address_to_pte, template_lem,
}

abbrev pub pte_template_block_device_rw : ℕ
pte_template_block_device_rw =
    pte_valid_block
    ⊔ uxn_block
    ⊔ pxn_block
    ⊔ sh_to_pte sh_non_shareable
    ⊔ ap_block_to_pte ap_kern_rw_user_na
    ⊔ mair_idx_to_pte mair_idx_device
    ⊔ access_flag_block

abbrev pub pte_template_block_device_ro : ℕ
pte_template_block_device_ro =
    pte_valid_block
    ⊔ uxn_block
    ⊔ pxn_block
    ⊔ sh_to_pte sh_non_shareable
    ⊔ ap_block_to_pte ap_kern_ro_user_na
    ⊔ mair_idx_to_pte mair_idx_device
    ⊔ access_flag_block

abbrev pub pte_template_block_device_bootstrap : ℕ
pte_template_block_device_bootstrap =
    pte_valid_block
    ⊔ uxn_block
    ⊔ sh_to_pte sh_non_shareable
    ⊔ ap_block_to_pte ap_kern_rw_user_na
    ⊔ mair_idx_to_pte mair_idx_device
    ⊔ access_flag_block

abbrev pub pte_template_page_device_kern_base : ℕ
pte_template_page_device_kern_base =
    pte_valid_table
    ⊔ uxn_table
    ⊔ pxn_table
    ⊔ sh_to_pte sh_non_shareable
    ⊔ mair_idx_to_pte mair_idx_device
    ⊔ access_flag_block

abbrev pub pte_template_page_device_kern_rw : ℕ
pte_template_page_device_kern_rw =
    pte_template_page_device_kern_base ⊔ ap_block_to_pte ap_kern_rw_user_na

abbrev pub pte_template_page_device_kern_ro : ℕ
pte_template_page_device_kern_ro =
    pte_template_page_device_kern_base ⊔ ap_block_to_pte ap_kern_ro_user_na

abbrev pub pte_template_page_normal_kern_base : ℕ
pte_template_page_normal_kern_base =
    pte_valid_table
    ⊔ uxn_table
    ⊔ sh_to_pte sh_outer_shareable
    ⊔ mair_idx_to_pte mair_idx_normal
    ⊔ access_flag_block

abbrev pub pte_template_page_normal_kern_rx : ℕ
pte_template_page_normal_kern_rx =
    pte_template_page_normal_kern_base ⊔ ap_block_to_pte ap_kern_ro_user_na

abbrev pub pte_template_page_normal_kern_rw : ℕ
pte_template_page_normal_kern_rw =
    pte_template_page_normal_kern_base ⊔ ap_block_to_pte ap_kern_rw_user_na ⊔ pxn_table

abbrev pub pte_template_page_normal_kern_ro : ℕ
pte_template_page_normal_kern_ro =
    pte_template_page_normal_kern_base ⊔ ap_block_to_pte ap_kern_ro_user_na ⊔ pxn_table

abbrev pub pte_template_page_normal_kern_bootstrap : ℕ
pte_template_page_normal_kern_bootstrap =
    pte_template_page_normal_kern_base ⊔ ap_block_to_pte ap_kern_rw_user_na

abbrev pub pte_template_table_kern_only : ℕ
pte_template_table_kern_only =
    pte_valid_table ⊔ uxn_table ⊔ ap_table_to_pte ap_kern_rw_user_na ⊔ access_flag_block

abbrev pub pte_template_table_user : ℕ
pte_template_table_user =
    pte_valid_table ⊔ pxn_table ⊔ ap_table_to_pte ap_kern_rw_user_rw ⊔ access_flag_block

-- The templates that pmap_init.c maps pages with.
pub data PageTemplate : Type 0 where
  normal_kern_rx normal_kern_ro normal_kern_rw device_kern_rw : PageTemplate

unfoldable pub template_of : PageTemplate → ℕ
template_of normal_kern_rx = pte_template_page_normal_kern_rx
template_of normal_kern_ro = pte_template_page_normal_kern_ro
template_of normal_kern_rw = pte_template_page_normal_kern_rw
template_of device_kern_rw = pte_template_page_device_kern_rw

-- The pages that are not meant to be executed by the kernel: all but the text.
unfoldable pub is_data : PageTemplate → Bool
is_data normal_kern_rx = false
is_data normal_kern_ro = true
is_data normal_kern_rw = true
is_data device_kern_rw = true

pub template_of-IsTemplate : (t : PageTemplate) → IsTemplate (template_of t)
unfolding template_of
template_of-IsTemplate normal_kern_rx = omega arith
template_of-IsTemplate normal_kern_ro = omega arith
template_of-IsTemplate normal_kern_rw = omega arith
template_of-IsTemplate device_kern_rw = omega arith

pub table_kern_only-IsTemplate : IsTemplate pte_template_table_kern_only
table_kern_only-IsTemplate = omega arith

-- In the entry of any page that is not kernel text, with any output address, bit 59, which is
-- PXNTable of a table entry, is set, while bits 53 and 54, which are PXN and UXN of a page entry,
-- are clear.
pub execute_never_misplaced :
    (t : PageTemplate) (oa : ℕ)
    → is_data t ≡ true
    → (bit_at (template_of t ⊔ output_address_to_pte oa) 59 ≡ 1)
      × (bit_at (template_of t ⊔ output_address_to_pte oa) 53 ≡ 0)
      × (bit_at (template_of t ⊔ output_address_to_pte oa) 54 ≡ 0)
unfolding template_of is_data
execute_never_misplaced normal_kern_rx oa h = cc
execute_never_misplaced normal_kern_ro oa h =
    omega (arith, template_lem pte_template_page_normal_kern_ro oa (omega arith))
execute_never_misplaced normal_kern_rw oa h =
    omega (arith, template_lem pte_template_page_normal_kern_rw oa (omega arith))
execute_never_misplaced device_kern_rw oa h =
    omega (arith, template_lem pte_template_page_device_kern_rw oa (omega arith))

-- ===== src/Pmap/Pte.antt =====
-- kernel/machine/pmap/pmap_asm.h: the fields of translation-table entries and the templates that the
-- kernel's tables are built from.
use swink.Common.{
  ℕ, ◌+◌, ◌-◌, ◌*◌, ◌/◌, ◌%◌, ◌^◌, ◌<◌, ◌≡◌, arith, bit_and, bit_or, ◌==◌, if◌then◌else◌, ◌∙◌, ap,
  ap₂,
}
use swink.Common.Word.{shr, bit_and_mask, bit_and_high, bit_or_cut, bit_or-zero, zero-bit_or}
use swink.Pmap.{page_shift, phys_addr_invalid}

infixl 45 ◌⊔◌
abbrev pub ◌⊔◌ : ℕ → ℕ → ℕ
a ⊔ b = bit_or a b

-- Table entries
abbrev pub ns_table : ℕ
ns_table = 2 ^ 63

abbrev pub ap_table_mask : ℕ
ap_table_mask = 3 * 2 ^ 61

abbrev pub uxn_table : ℕ
uxn_table = 2 ^ 60

abbrev pub pxn_table : ℕ
pxn_table = 2 ^ 59

-- Block and page entries
abbrev pub software_block_mask : ℕ
software_block_mask = 15 * 2 ^ 55

abbrev pub uxn_block : ℕ
uxn_block = 2 ^ 54

abbrev pub pxn_block : ℕ
pxn_block = 2 ^ 53

abbrev pub not_global_block : ℕ
not_global_block = 2 ^ 11

abbrev pub access_flag_block : ℕ
access_flag_block = 2 ^ 10

abbrev pub sh_block_mask : ℕ
sh_block_mask = 3 * 2 ^ 8

abbrev pub ap_block_mask : ℕ
ap_block_mask = 3 * 2 ^ 6

abbrev pub mair_block_mask : ℕ
mair_block_mask = 7 * 2 ^ 2

-- OUTPUT_ADDRESS_MASK; the shift by OUTPUT_ADDRESS_SHIFT is one by 0.
abbrev pub output_address_mask : ℕ
output_address_mask = (2 ^ (47 - page_shift) - 1) * 2 ^ page_shift

unfoldable pub output_address_to_pte : ℕ → ℕ
output_address_to_pte oa = bit_and oa output_address_mask

-- Access permissions
abbrev pub ap_kern_rw_user_na : ℕ
ap_kern_rw_user_na = 0

abbrev pub ap_kern_rw_user_rw : ℕ
ap_kern_rw_user_rw = 1

abbrev pub ap_kern_ro_user_na : ℕ
ap_kern_ro_user_na = 2

abbrev pub ap_kern_ro_user_ro : ℕ
ap_kern_ro_user_ro = 3

abbrev pub ap_block_to_pte : ℕ → ℕ
ap_block_to_pte ap = ap * 2 ^ 6

abbrev pub ap_table_to_pte : ℕ → ℕ
ap_table_to_pte ap = ap * 2 ^ 61

-- Shareability
abbrev pub sh_non_shareable : ℕ
sh_non_shareable = 0

abbrev pub sh_outer_shareable : ℕ
sh_outer_shareable = 2

abbrev pub sh_inner_shareable : ℕ
sh_inner_shareable = 3

abbrev pub sh_to_pte : ℕ → ℕ
sh_to_pte sh = sh * 2 ^ 8

-- Memory attributes
abbrev pub mair_idx_normal : ℕ
mair_idx_normal = 0

abbrev pub mair_idx_device : ℕ
mair_idx_device = 1

abbrev pub mair_idx_to_pte : ℕ → ℕ
mair_idx_to_pte mair = mair * 2 ^ 2

-- Validity and type
abbrev pub pte_invalid : ℕ
pte_invalid = 0

abbrev pub pte_valid : ℕ
pte_valid = 1

abbrev pub pte_type_block : ℕ
pte_type_block = 0

abbrev pub pte_type_table : ℕ
pte_type_table = 2

abbrev pub pte_valid_block : ℕ
pte_valid_block = pte_type_block ⊔ pte_valid

abbrev pub pte_valid_table : ℕ
pte_valid_table = pte_type_table ⊔ pte_valid

-- pte_to_phys_addr of kernel/machine/pmap/pmap_init.c
unfoldable pub pte_to_phys_addr : ℕ → ℕ
pte_to_phys_addr pte =
    if bit_and pte pte_valid == 0
    then phys_addr_invalid
    else shr (bit_and pte output_address_mask) 0

-- The address in an entry, valid or not.
abbrev pub target : ℕ → ℕ
target pte = pte / 2 ^ 12 % 2 ^ 35 * 2 ^ 12

pub output_address_lem : (pte : ℕ) → bit_and pte output_address_mask ≡ target pte
output_address_lem pte =
    bit_and_high 12 (2 ^ 35 - 1) pte ∙ ap (λ (t : ℕ). t * 2 ^ 12) (bit_and_mask 35 (pte / 2 ^ 12))

pub pte_to_phys_addr_lem :
    (pte : ℕ) → pte_to_phys_addr pte ≡ (if pte % 2 == 0 then phys_addr_invalid else target pte)
unfolding pte_to_phys_addr
pte_to_phys_addr_lem pte = ground (arith, output_address_lem pte, bit_and_mask 1 pte)

-- What a template may set: the valid bit, and nothing where the address goes.
abbrev pub IsTemplate : ℕ → Type 0
IsTemplate template = (template % 2 ≡ 1) × (template % 2 ^ 47 < 2 ^ 12)

-- A template with an address in it is their sum.
pub template_lem :
    (template oa : ℕ)
    → IsTemplate template
    → (template ⊔ output_address_to_pte oa) ≡ template + target oa
unfolding output_address_to_pte
template_lem template oa t = omega (
  arith,
  ap (bit_or template) (output_address_lem oa),
  bit_or_cut 12 template (target oa),
  bit_or_cut 35 (template / 2 ^ 12) (oa / 2 ^ 12 % 2 ^ 35),
  low,
  middle,
  high,
  upper,
)
  where
    low : bit_or (template % 2 ^ 12) (target oa % 2 ^ 12) ≡ template % 2 ^ 12
    low =
        ap (bit_or (template % 2 ^ 12)) {x = target oa % 2 ^ 12} {y = 0} (omega arith)
        ∙ bit_or-zero (template % 2 ^ 12)

    high :
        bit_or (template / 2 ^ 12) (target oa / 2 ^ 12)
        ≡ bit_or (template / 2 ^ 12) (oa / 2 ^ 12 % 2 ^ 35)
    high = ap (bit_or (template / 2 ^ 12)) (omega arith)

    upper :
        bit_or (template / 2 ^ 12 / 2 ^ 35) (oa / 2 ^ 12 % 2 ^ 35 / 2 ^ 35)
        ≡ template / 2 ^ 12 / 2 ^ 35
    upper =
        ap (bit_or (template / 2 ^ 12 / 2 ^ 35)) {x = oa / 2 ^ 12 % 2 ^ 35 / 2 ^ 35} {y = 0}
          (omega arith)
        ∙ bit_or-zero (template / 2 ^ 12 / 2 ^ 35)

    middle :
        bit_or (template / 2 ^ 12 % 2 ^ 35) (oa / 2 ^ 12 % 2 ^ 35 % 2 ^ 35) ≡ oa / 2 ^ 12 % 2 ^ 35
    middle =
        ap₂ bit_or {x = template / 2 ^ 12 % 2 ^ 35} {y = 0} {u = oa / 2 ^ 12 % 2 ^ 35 % 2 ^ 35}
          {v = oa / 2 ^ 12 % 2 ^ 35} (omega arith) (omega arith)
        ∙ zero-bit_or (oa / 2 ^ 12 % 2 ^ 35)

-- The entry that is written is valid, and its address is the one that it was made for.
pub entry_lem :
    (template oa : ℕ)
    → IsTemplate template
    → ((template ⊔ output_address_to_pte oa) % 2 ≡ 1)
      × (target (template ⊔ output_address_to_pte oa) ≡ target oa)
entry_lem template oa t = omega (arith, template_lem template oa t)

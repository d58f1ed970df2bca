-- ===== src/Comparator/Fields/Skipping.antt =====
-- Names in skip_fields that change nothing.
use ai_chip_design_platform.Common.{false, ◌∷◌, String, ◌&&◌, ◌≡◌, refl, arith}
use ai_chip_design_platform.Comparator.Config.{CompareConfig, skips, value_mask}
use ai_chip_design_platform.Comparator.Entry.{CommitEntry}
use ai_chip_design_platform.Comparator.Fields.{
  compare_fields, compare_effects, csr_issues, mem_issues,
}
use ai_chip_design_platform.Comparator.Fields.Csrs.{cmp_csrs, normalise}
use ai_chip_design_platform.Comparator.Fields.Memory.{cmp_mem, value_issues, size_mask}
use ai_chip_design_platform.Comparator.Fields.Basic.{
  x0_issues, trap_issues, trap_attr, reg_issues, privilege_issues,
}

-- One more name.
abbrev pub skipping : String → CompareConfig → CompareConfig
skipping name c = record c { skip_fields = name ∷ c.skip_fields }

-- The name of the destination register, and those of a memory access while another is compared.
pub data IsIneffective (c : CompareConfig) : String → Type 0 where
  rd : IsIneffective c "rd"
  mem_addr : skips c "mem_val" && skips c "mem_op" ≡ false → IsIneffective c "mem_addr"
  mem_val : skips c "mem_addr" && skips c "mem_op" ≡ false → IsIneffective c "mem_val"
  mem_op : skips c "mem_addr" && skips c "mem_val" ≡ false → IsIneffective c "mem_op"

mem_issues-skipping :
    (c : CompareConfig) (r i : CommitEntry) {name : String}
    → IsIneffective c name
    → mem_issues (skipping name c) r i ≡ mem_issues c r i
unfolding mem_issues cmp_mem value_issues size_mask skips value_mask
mem_issues-skipping c r i rd = refl
mem_issues-skipping c r i (mem_addr h) = ground arith
mem_issues-skipping c r i (mem_val h) = ground arith
mem_issues-skipping c r i (mem_op h) = ground arith

-- The comparison of a pair does not change if one more name is added to skip_fields that is rd, or
-- one of mem_addr, mem_val and mem_op while not both of the others are there.
pub compare_fields-skipping :
    (c : CompareConfig) (r i : CommitEntry) {name : String}
    → IsIneffective c name
    → compare_fields (skipping name c) r i ≡ compare_fields c r i
unfolding compare_fields compare_effects csr_issues cmp_csrs normalise x0_issues trap_issues
    trap_attr reg_issues privilege_issues skips value_mask
compare_fields-skipping c r i rd = rw (mem_issues-skipping c r i rd) refl
compare_fields-skipping c r i (mem_addr h) = rw (mem_issues-skipping c r i (mem_addr h)) refl
compare_fields-skipping c r i (mem_val h) = rw (mem_issues-skipping c r i (mem_val h)) refl
compare_fields-skipping c r i (mem_op h) = rw (mem_issues-skipping c r i (mem_op h)) refl

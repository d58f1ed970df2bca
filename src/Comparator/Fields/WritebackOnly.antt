-- ===== src/Comparator/Fields/WritebackOnly.antt =====
-- A write-back that only the ISS commit has.
use ai_chip_design_platform.Common.{ℕ, ℤ, Option, none, false, ◌≡◌, refl}
use ai_chip_design_platform.Comparator.Config.{CompareConfig}
use ai_chip_design_platform.Comparator.Entry.{CommitEntry}
use ai_chip_design_platform.Comparator.Fields.{
  compare_fields, compare_effects, csr_issues, mem_issues,
}
use ai_chip_design_platform.Comparator.Fields.Csrs.{cmp_csrs}
use ai_chip_design_platform.Comparator.Fields.Memory.{cmp_mem, align_side}
use ai_chip_design_platform.Comparator.Fields.Basic.{
  schema_issues, schema_side, x0_issues, x0_side, trap_issues, reg_issues, reg_writes,
  privilege_issues,
}

-- The same commit with another write-back.
abbrev pub writing : Option ℤ → Option ℕ → CommitEntry → CommitEntry
writing rd value e = record e { rd = rd; rd_val = value }

reg_issues-writing :
    (c : CompareConfig) (r i : CommitEntry) (rd : Option ℤ) (value : Option ℕ)
    → r.rd ≡ none
    → reg_issues c r (writing rd value i) ≡ reg_issues c r i
unfolding reg_issues reg_writes
reg_issues-writing c r i rd value h = rw h refl

x0_issues-writing :
    (c : CompareConfig) (r i : CommitEntry) (rd : Option ℤ) (value : Option ℕ)
    → i.x0_violation ≡ false
    → x0_issues c r (writing rd value i) ≡ x0_issues c r i
unfolding x0_issues x0_side
x0_issues-writing c r i rd value h = rw h refl

-- Where the RTL commit writes no register and the ISS commit is not flagged for a write of x0, the
-- comparison of the pair is the same whatever register and value the ISS commit writes.
pub compare_fields-writing :
    (c : CompareConfig) (r i : CommitEntry) (rd : Option ℤ) (value : Option ℕ)
    → r.rd ≡ none
    → i.x0_violation ≡ false
    → compare_fields c r (writing rd value i) ≡ compare_fields c r i
unfolding compare_fields compare_effects csr_issues mem_issues cmp_csrs cmp_mem align_side
    schema_issues schema_side trap_issues privilege_issues
compare_fields-writing c r i rd value h x0 =
    rw (reg_issues-writing c r i rd value h) (rw (x0_issues-writing c r i rd value x0) refl)

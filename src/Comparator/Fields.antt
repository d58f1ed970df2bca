-- ===== src/Comparator/Fields.antt =====
-- The field-level comparison of one pair of commits (`_FieldComparator`). The English text of an
-- issue is not modelled; its type, field and two values are.
pub mod Csrs
pub mod Memory
pub mod Basic
pub mod Agreement
pub mod Exact
pub mod Skipping
pub mod WritebackOnly
use ai_chip_design_platform.Common.{
  ℕ, ◌==◌, ℤ, pos, eq_ℤ, eq_bool, Bool, true, false, Option, none, some, List, [], ◌∷◌, ◌++◌, ◌&&◌,
  not, str_eq, if◌then◌else◌, Outcome, ok, raise, ◌>>=◌,
}
use ai_chip_design_platform.Comparator.Kinds.{pc_mismatch, instr_mismatch, privilege_mismatch}
use ai_chip_design_platform.Comparator.Config.{CompareConfig, skips}
use ai_chip_design_platform.Comparator.Entry.{CommitEntry, hex, named}
use ai_chip_design_platform.Comparator.Issue.{Issue, issue}
use Csrs.{cmp_csrs}
use Memory.{cmp_mem}
use Basic.{schema_issues, x0_issues, trap_issues, reg_issues, privilege_issues}

-- Check 7.
unfoldable pub csr_issues : CompareConfig → CommitEntry → CommitEntry → List Issue
csr_issues c r i = if skips c "csr_writes" then [] else cmp_csrs c r i

-- Check 8: left out only where all three names are skipped.
unfoldable pub mem_issues : CompareConfig → CommitEntry → CommitEntry → Outcome (List Issue)
mem_issues c r i =
    if skips c "mem_addr" && (skips c "mem_val" && skips c "mem_op") then ok [] else cmp_mem c r i

-- Checks 5 to 9, which are made where the PC and the instruction word agree.
unfoldable pub compare_effects : CompareConfig → CommitEntry → CommitEntry → Outcome (List Issue)
compare_effects c r i = mem_issues c r i >>= λ mem. ok (
    trap_issues c r i
    ++ (reg_issues c r i ++ (csr_issues c r i ++ (mem ++ privilege_issues c r i))))

-- The issues found so far are lost where a negative access size raises.
unfoldable pub compare_fields : CompareConfig → CommitEntry → CommitEntry → Outcome (List Issue)
compare_fields c r i =
    let before = schema_issues r i ++ x0_issues c r i in
    if not (skips c "pc") && not (r.pc == i.pc)
    then ok (before ++ issue pc_mismatch (named "pc") (some (hex r.pc)) (some (hex i.pc)) ∷ [])
    else if not (skips c "instr") && not (r.instr == i.instr)
    then ok (
        before
        ++ issue instr_mismatch (named "instr") (some (hex r.instr)) (some (hex i.instr)) ∷ [])
    else (compare_effects c r i >>= λ effects. ok (before ++ effects))

-- ===== src/Comparator/Fields/Basic.antt =====
-- Checks 1, 2, 5, 6 and 9 of `_FieldComparator.compare`: schema, x0, traps, write-back, privilege.
use ai_chip_design_platform.Common.{
  ℕ, ◌==◌, ℤ, pos, eq_ℤ, eq_bool, Option, none, some, List, [], ◌∷◌, ◌++◌, map, not, str_eq, String,
  if◌then◌else◌, Side, rtl, iss,
}
use mathlib.Core.Option
use ai_chip_design_platform.Comparator.Kinds.{
  schema_invalid, x0_written, trap_mismatch, trap_cause_mismatch, reg_mismatch, privilege_mismatch,
}
use ai_chip_design_platform.Comparator.Config.{CompareConfig, skips}
use ai_chip_design_platform.Comparator.Entry.{
  CommitEntry, SchemaError, Shown, text, hex, reg, flag, schema, named,
}
use ai_chip_design_platform.Comparator.Issue.{Issue, issue}

-- `err if side_name == "RTL" else None`, and the same for the ISS.
abbrev pub on_side : {A : Type 0} → Side → Side → A → Option A
on_side rtl rtl a = some a
on_side rtl iss a = none
on_side iss rtl a = none
on_side iss iss a = some a

abbrev pub schema_issue : Side → SchemaError → Issue
schema_issue s err =
    issue schema_invalid (named "schema") (on_side rtl s (schema err)) (on_side iss s (schema err))

unfoldable pub schema_side : Side → CommitEntry → List Issue
schema_side s e = if e.schema_violation then map (schema_issue s) e.schema_errors else []

unfoldable pub schema_issues : CommitEntry → CommitEntry → List Issue
unfolding schema_side
schema_issues r i = schema_side rtl r ++ schema_side iss i

-- The other side shows zero.
abbrev x0_value : Side → Side → Option ℕ → Option Shown
x0_value rtl rtl v = Option.map hex v
x0_value iss iss v = Option.map hex v
x0_value _ _ v = some (hex 0)

unfoldable pub x0_side : Side → CommitEntry → List Issue
x0_side s e =
    if e.x0_violation
    then issue x0_written (named "rd_val") (x0_value rtl s e.rd_val) (x0_value iss s e.rd_val) ∷ []
    else []

unfoldable pub x0_issues : CompareConfig → CommitEntry → CommitEntry → List Issue
unfolding x0_side
x0_issues c r i = if c.enforce_x0_invariant then x0_side rtl r ++ x0_side iss i else []

-- One attribute of a trap that both sides took: compared only where both logs give it.
unfoldable pub trap_attr : CompareConfig → String → Option ℕ → Option ℕ → List Issue
trap_attr c attr none iv = []
trap_attr c attr (some rv) none = []
trap_attr c attr (some rv) (some iv) =
    if skips c attr
    then []
    else if rv == iv
    then []
    else issue trap_cause_mismatch (named attr) (some (hex rv)) (some (hex iv)) ∷ []

unfoldable pub trap_issues : CompareConfig → CommitEntry → CommitEntry → List Issue
trap_issues c r i =
    if skips c "trap"
    then []
    else if not (eq_bool r.trap i.trap)
    then issue trap_mismatch (named "trap") (some (flag r.trap)) (some (flag i.trap)) ∷ []
    else if r.trap
    then trap_attr c "trap_cause" r.trap_cause i.trap_cause
      ++ (trap_attr c "trap_tval" r.trap_tval i.trap_tval
          ++ trap_attr c "trap_pc" r.trap_pc i.trap_pc)
    else []

-- The values of one destination, compared only where both logs give them.
unfoldable pub reg_values : Option ℕ → Option ℕ → List Issue
reg_values none iv = []
reg_values (some rv) none = []
reg_values (some rv) (some iv) =
    if rv == iv
    then []
    else issue reg_mismatch (named "rd_val") (some (hex rv)) (some (hex iv)) ∷ []

-- A commit of the RTL that writes no register, or x0, is not compared.
unfoldable pub reg_writes : Option ℤ → Option ℤ → Option ℕ → Option ℕ → List Issue
unfolding reg_values
reg_writes none ird rv iv = []
reg_writes (some rrd) none rv iv = if eq_ℤ rrd (pos 0) then [] else reg_values rv iv
reg_writes (some rrd) (some ird) rv iv =
    if eq_ℤ rrd (pos 0)
    then []
    else if not (eq_ℤ rrd ird)
    then issue reg_mismatch (named "rd") (some (reg rrd)) (some (reg ird)) ∷ []
    else reg_values rv iv

unfoldable pub reg_issues : CompareConfig → CommitEntry → CommitEntry → List Issue
reg_issues c r i = if skips c "rd_val" then [] else reg_writes r.rd i.rd r.rd_val i.rd_val

unfoldable pub privilege_values : Option String → Option String → List Issue
privilege_values none ip = []
privilege_values (some rp) none = []
privilege_values (some rp) (some ip) =
    if str_eq rp ip
    then []
    else issue privilege_mismatch (named "privilege") (some (text rp)) (some (text ip)) ∷ []

unfoldable pub privilege_issues : CompareConfig → CommitEntry → CommitEntry → List Issue
unfolding privilege_values
privilege_issues c r i =
    if skips c "privilege" then [] else privilege_values r.privilege i.privilege

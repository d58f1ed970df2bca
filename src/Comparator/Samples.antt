-- ===== src/Comparator/Samples.antt =====
-- Small commit logs, and what the comparison does on them.
use ai_chip_design_platform.Common.{
  pos, true, false, none, some, List, [], ◌∷◌, Outcome, ok, raise, ◌≡◌, refl, log_format_error, rtl,
  map, ◌+ℤ◌, ◌-ℤ◌,
}
use ai_chip_design_platform.Comparator.Kinds.{
  value, severity_for, mem_mismatch, seq_gap, length_mismatch,
}
use ai_chip_design_platform.Comparator.Config.{default_config, value_mask, skips}
use ai_chip_design_platform.Comparator.Entry.{CommitEntry}
use ai_chip_design_platform.Comparator.Window
use ai_chip_design_platform.Comparator.Steps
use ai_chip_design_platform.Comparator.Fields.{
  compare_fields, compare_effects, csr_issues, mem_issues,
}
use ai_chip_design_platform.Comparator.Fields.Csrs.{cmp_csrs}
use ai_chip_design_platform.Comparator.Fields.Memory.{cmp_mem}
use ai_chip_design_platform.Comparator.Fields.Basic.{
  schema_issues, x0_issues, trap_attr, trap_issues, reg_writes, reg_issues, privilege_issues,
}
use ai_chip_design_platform.Comparator.Run.{
  Source, Schedule, CompareResult, compare, main_loop, hash_differs, length_mismatch_of,
  reader_errors,
}
use ai_chip_design_platform.Comparator.Run.State.{limit, initial, add}
use ai_chip_design_platform.Comparator.Run.Iteration.{
  pair_step, fields_step, step_checks, side_check, add_issues, anomaly_mismatch,
}

-- `addi x5, x0, 1` at step 0, as both sides commit it.
abbrev pub entry : CommitEntry
entry = record {
  step = pos 0;
  pc = 0x8000_0000;
  instr = 0x00100293;
  trap = false;
  rd = some (pos 5);
  rd_val = some 1;
  rs1 = none;
  rs1_val = none;
  rs2 = none;
  rs2_val = none;
  mem_addr = none;
  mem_val = none;
  mem_op = none;
  mem_size = none;
  csr_writes = [];
  trap_cause = none;
  trap_tval = none;
  trap_pc = none;
  privilege = some "M";
  disasm = none;
  lineno = 1;
  x0_violation = false;
  schema_violation = false;
  schema_errors = [];
}

-- `sw x5, 0(x6)` at step 1.
abbrev pub store : CommitEntry
store = record entry {
  step = pos 1;
  pc = 0x8000_0004;
  instr = 0x00532023;
  rd = none;
  rd_val = none;
  mem_addr = some 0x8000_1000;
  mem_val = some 1;
  mem_op = some "store";
  mem_size = some (pos 4);
}

-- The same store with corrupted data.
abbrev pub bad_store : CommitEntry
bad_store = record store { mem_val = some 3 }

abbrev pub log : List CommitEntry → Source
log es = record { sha256 = none; commits = es; fails = false }

abbrev pub on_time : Schedule
on_time k s = false

program : Unit {0}
unfolding compare main_loop hash_differs length_mismatch_of reader_errors limit initial add
    pair_step fields_step step_checks side_check add_issues anomaly_mismatch compare_fields
    compare_effects csr_issues mem_issues cmp_csrs cmp_mem schema_issues x0_issues trap_attr
    trap_issues reg_writes reg_issues privilege_issues skips value severity_for Window.push
    Window.snapshot Window.delta Window.replay Window.row Steps.check value_mask ◌+ℤ◌ ◌-ℤ◌
program = tt

-- The result of a comparison that returns, and an empty one where it raises.
abbrev pub given : Outcome CompareResult → CompareResult
given (ok r) = r
given (raise e) = record {
  passed = false;
  stats = (initial default_config).stats;
  mismatches = [];
  rtl_sha256 = none;
  iss_sha256 = none;
}

abbrev pub good_run : Outcome CompareResult
good_run = compare default_config (log (entry ∷ store ∷ [])) (log (entry ∷ store ∷ [])) on_time

abbrev pub bad_run : Outcome CompareResult
bad_run = compare default_config (log (entry ∷ bad_store ∷ [])) (log (entry ∷ store ∷ [])) on_time

good_passes : (given good_run).passed ≡ true
unfolding program
good_passes = refl

-- Store data that differ are found, and the run stops at the first mismatch.
bad_fails :
    let r = given bad_run in
    (r.passed ≡ false)
    × (map (λ m. m.mismatch_type) r.mismatches ≡ mem_mismatch ∷ [])
    × (r.stats.first_divergence_step ≡ some (pos 1))
    × (r.stats.total_steps ≡ 2)
unfolding program
bad_fails = (refl, refl, refl, refl)

pub bad_run_returns : bad_run ≡ ok (given bad_run)
unfolding program
bad_run_returns = refl

-- A log that ends early, a repeated step, and a reader that fails.
short_log_fails :
    map
      (λ m. m.mismatch_type)
      (given
        (compare default_config (log (entry ∷ [])) (log (entry ∷ store ∷ [])) on_time)).mismatches
    ≡ length_mismatch ∷ []
unfolding program
short_log_fails = refl

repeated_step_fails :
    map
      (λ m. m.mismatch_type)
      (given (
        compare default_config
          (log (entry ∷ entry ∷ []))
          (log (entry ∷ entry ∷ []))
          on_time)).mismatches
    ≡ seq_gap ∷ []
unfolding program
repeated_step_fails = refl

broken_reader_raises :
    compare default_config (record (log (entry ∷ [])) { fails = true }) (log (entry ∷ [])) on_time
    ≡ raise (log_format_error rtl)
unfolding program
broken_reader_raises = refl

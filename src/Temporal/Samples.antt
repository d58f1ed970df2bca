-- ===== src/Temporal/Samples.antt =====
-- A log with a trap handler and a reservation.
use ai_chip_design_platform.Common.{
  ℤ, pos, true, false, some, List, [], ◌∷◌, ◌++◌, String, Bool, ◌||◌, ltb_ℤ, ◌-ℤ◌, length, ◌≤◌, ◌+◌,
  ◌≡◌, refl, arith,
}
use ai_chip_design_platform.Temporal.Record.{CommitRecord, Pair, disasm_of, third_word, absent}
use ai_chip_design_platform.Temporal.Monitors.{
  mret_after_trap, lr_before_sc, consecutive_stores, csr_read_after_write, fence_before_load,
  is_trap, is_mret, is_lr, is_sc,
}
use ai_chip_design_platform.Temporal.Checker.{
  report, run_mret, run_lr, run_stores, run_csr, run_fence, run_monitors, pairs_from, check_pairs,
  run, passes, mret_monitor, lr_monitor,
}
use ai_chip_design_platform.Temporal.CsrReads.{NoCsrReport, run-NoCsrReport}
use ai_chip_design_platform.Temporal.Limits.{run-length}
use ai_chip_design_platform.Temporal.Past.{trap_open, reserved_at, recent_first, run-mret, run-sc}

checker : Unit {0}
unfolding disasm_of third_word mret_after_trap lr_before_sc consecutive_stores csr_read_after_write
    fence_before_load report run_mret run_lr run_stores run_csr run_fence run_monitors pairs_from
    check_pairs run ◌-ℤ◌
checker = tt

abbrev retired : ℤ → String → Bool → CommitRecord
retired seq disasm trap = record {
  seq = some seq;
  disasm = some disasm;
  trap = trap;
  addr = absent;
  regs = [];
}

abbrev handler_log : List CommitRecord
handler_log =
    retired (pos 1) "ecall" true
    ∷ retired (pos 2) "csrrw x1, mepc, x2" false
    ∷ retired (pos 3) "LR.W x5, (x6)" false
    ∷ retired (pos 9) " mret" false
    ∷ retired (pos 10) "sc.w x7, x5, (x6)" false
    ∷ []

abbrev pair : ℤ → String → Bool → Pair
pair seq disasm trap = record {
  rtl = retired seq disasm trap;
  iss = retired seq disasm trap;
  seq = seq;
}

abbrev until_mret : List Pair
until_mret =
    pair (pos 1) "ecall" true
    ∷ pair (pos 2) "csrrw x1, mepc, x2" false
    ∷ pair (pos 3) "LR.W x5, (x6)" false
    ∷ []

abbrev the_mret : Pair
the_mret = pair (pos 9) " mret" false

abbrev the_sc : Pair
the_sc = pair (pos 10) "sc.w x7, x5, (x6)" false

handler_log-passes : passes (run 200 handler_log handler_log) ≡ true
unfolding checker
handler_log-passes = refl

at_mret : pairs_from 0 handler_log handler_log ≡ until_mret ++ the_mret ∷ the_sc ∷ []
unfolding checker
at_mret = refl

at_sc : pairs_from 0 handler_log handler_log ≡ (until_mret ++ the_mret ∷ []) ++ the_sc ∷ []
unfolding checker
at_sc = refl

-- A second SC finds the reservation used.
second_sc :
    (run 200
      (handler_log ++ retired (pos 11) "sc.w" false ∷ [])
      (handler_log ++ retired (pos 11) "sc.w" false ∷ [])).violations
    ≡ record { property_name = lr_monitor; seq = pos 11 } ∷ []
unfolding checker
second_sc = refl

spurious_mret :
    (run 200 (retired (pos 4) "mret" false ∷ []) (retired (pos 4) "mret" false ∷ [])).violations
    ≡ record { property_name = mret_monitor; seq = pos 4 } ∷ []
unfolding checker
spurious_mret = refl

is_mret_here : is_mret the_mret ≡ true
unfolding checker
is_mret_here = refl

run-mret_example : (is_trap the_mret || trap_open (recent_first until_mret [])) ≡ true
run-mret_example =
    run-mret 200 (omega arith) handler_log handler_log until_mret (the_sc ∷ []) the_mret
      handler_log-passes at_mret is_mret_here

no_lr_here : is_lr the_sc ≡ false
unfolding checker
no_lr_here = refl

is_sc_here : is_sc the_sc ≡ true
unfolding checker
is_sc_here = refl

run-sc_example :
    (s : ℤ) × (ltb_ℤ (pos 64) (the_sc.seq -ℤ s) ≡ false)
    × (reserved_at s (recent_first (until_mret ++ the_mret ∷ []) []) ≡ true)
run-sc_example =
    run-sc 200 (omega arith) handler_log handler_log (until_mret ++ the_mret ∷ []) [] the_sc
      handler_log-passes at_sc no_lr_here is_sc_here

run-NoCsrReport_example : NoCsrReport (run 200 handler_log handler_log).violations
run-NoCsrReport_example = run-NoCsrReport 200 handler_log handler_log

run-length_example : length (run 1 handler_log handler_log).violations ≤ 1 + 4
run-length_example = run-length 1 handler_log handler_log

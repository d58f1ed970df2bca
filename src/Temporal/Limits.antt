-- ===== src/Temporal/Limits.antt =====
-- How far a run can go over `max_violations`.
use ai_chip_design_platform.Common.{
  ℕ, suc, ◌+◌, ◌≤◌, leb, ℤ, false, List, [], ◌∷◌, length, length-append, ◌≡◌, arith, if_ind,
}
use ai_chip_design_platform.Temporal.Record.{CommitRecord, Pair}
use ai_chip_design_platform.Temporal.Monitors.{Verdict, holds, violated, raises}
use ai_chip_design_platform.Temporal.Checker.{
  MonitorName, CheckerState, new_checker, report, run_mret, run_lr, run_stores, run_csr, run_fence,
  run_monitors, pairs_from, check_pairs, run, mret_monitor, lr_monitor, stores_monitor, csr_monitor,
  fence_monitor,
}

report-length :
    (name : MonitorName) (seq : ℤ) (v : Verdict) (st : CheckerState)
    → length (report name seq v st).violations ≤ suc (length st.violations)
unfolding report
report-length name seq holds st = omega arith
report-length name seq raises st = omega arith
report-length name seq violated st =
    omega (arith, length-append st.violations (record { property_name = name; seq = seq } ∷ []))

module _ (p : Pair) (st : CheckerState) where
  run_mret-length : length (run_mret p st).violations ≤ suc (length st.violations)
  unfolding run_mret
  run_mret-length = report-length mret_monitor p.seq _ _

  run_lr-length : length (run_lr p st).violations ≤ suc (length st.violations)
  unfolding run_lr
  run_lr-length = report-length lr_monitor p.seq _ _

  run_stores-length : length (run_stores p st).violations ≤ suc (length st.violations)
  unfolding run_stores
  run_stores-length = report-length stores_monitor p.seq _ _

  run_csr-length : length (run_csr p st).violations ≤ suc (length st.violations)
  unfolding run_csr
  run_csr-length = report-length csr_monitor p.seq _ _

  run_fence-length : length (run_fence p st).violations ≤ suc (length st.violations)
  unfolding run_fence
  run_fence-length = report-length fence_monitor p.seq _ _

-- Each of the five monitors reports once at most.
run_monitors-length :
    (p : Pair) (st : CheckerState)
    → length (run_monitors p st).violations ≤ length st.violations + 5
unfolding run_monitors
run_monitors-length p st =
    let by_mret : CheckerState = run_mret p st in
    let by_lr : CheckerState = run_lr p by_mret in
    let by_stores : CheckerState = run_stores p by_lr in
    let by_csr : CheckerState = run_csr p by_stores in
    omega (
      arith,
      run_mret-length p st,
      run_lr-length p by_mret,
      run_stores-length p by_lr,
      run_csr-length p by_stores,
      run_fence-length p by_csr,
    )

check_pairs-length :
    (max_violations : ℕ) (ps : List Pair) (st : CheckerState)
    → length st.violations ≤ max_violations + 4
    → length (check_pairs max_violations ps st).violations ≤ max_violations + 4
unfolding check_pairs
check_pairs-length max_violations [] st h = h
check_pairs-length max_violations (p ∷ ps) st h =
    if_ind (λ (s : CheckerState). length s.violations ≤ max_violations + 4)
      (leb max_violations (length st.violations)) (λ _. h)
      (λ e.
        check_pairs-length max_violations ps (run_monitors p st)
          (below (length st.violations) e (run_monitors-length p st)))
  where
    below : (m : ℕ) {n : ℕ} → leb max_violations m ≡ false → n ≤ m + 5 → n ≤ max_violations + 4
    below m e h = ground arith

-- A run reports at most four violations more than its limit.
pub run-length :
    (max_violations : ℕ) (rtl_log iss_log : List CommitRecord)
    → length (run max_violations rtl_log iss_log).violations ≤ max_violations + 4
unfolding run
run-length max_violations rtl_log iss_log =
    check_pairs-length max_violations (pairs_from 0 rtl_log iss_log) new_checker (omega arith)

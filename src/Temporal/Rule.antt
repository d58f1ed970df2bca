-- ===== src/Temporal/Rule.antt =====
-- What every pass of the monitors keeps holds of a run.
use ai_chip_design_platform.Common.{ℕ, leb, List, [], ◌∷◌, length, if_ind}
use ai_chip_design_platform.Temporal.Record.{CommitRecord, Pair}
use ai_chip_design_platform.Temporal.Checker.{
  CheckerState, new_checker, run_monitors, pairs_from, check_pairs, run,
}

module _ (P : CheckerState → Type 0)
    (keeps : (p : Pair) (st : CheckerState) → P st → P (run_monitors p st)) where
  check_pairs-keeps :
      (max_violations : ℕ) (ps : List Pair) (st : CheckerState)
      → P st
      → P (check_pairs max_violations ps st)
  unfolding check_pairs
  check_pairs-keeps max_violations [] st h = h
  check_pairs-keeps max_violations (p ∷ ps) st h =
      let rest = check_pairs-keeps max_violations ps (run_monitors p st) (keeps p st h) in
      if_ind P (leb max_violations (length st.violations)) (λ _. h) (λ _. rest)

  pub run-keeps :
      P new_checker
      → (max_violations : ℕ) (rtl_log iss_log : List CommitRecord)
      → P (run max_violations rtl_log iss_log)
  unfolding run
  run-keeps h max_violations rtl_log iss_log =
      check_pairs-keeps max_violations (pairs_from 0 rtl_log iss_log) new_checker h

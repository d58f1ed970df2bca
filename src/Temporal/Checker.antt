-- ===== src/Temporal/Checker.antt =====
-- `TemporalChecker` of AGENT_H/temporal_checker.py, with its default monitors.
use ai_chip_design_platform.Common.{
  ℕ, suc, leb, ◌==◌, ℤ, pos, Bool, false, ◌&&◌, Option, none, some, List, [], ◌∷◌, ◌++◌, length,
  if◌then◌else◌,
}
use ai_chip_design_platform.Temporal.Record.{CommitRecord, Pair}
use ai_chip_design_platform.Temporal.Monitors.{
  Verdict, holds, violated, raises, mret_after_trap, lr_before_sc, consecutive_stores, Pending,
  csr_read_after_write, FenceState, fence_before_load,
}

pub data MonitorName : Type 0 where
  mret_monitor lr_monitor stores_monitor csr_monitor fence_monitor : MonitorName

pub record TemporalViolation : Type 0 where
  pub property_name : MonitorName
  pub seq : ℤ

pub record CheckerState : Type 0 where
  pub trap_seen : Bool
  pub lr_seen_at : Option ℤ
  pub last_store_addr : Option ℤ
  pub pending : Pending
  pub fence : FenceState
  pub violations : List TemporalViolation
  pub monitors_errored : ℕ

abbrev pub new_checker : CheckerState
new_checker = record {
  trap_seen = false;
  lr_seen_at = none;
  last_store_addr = none;
  pending = [];
  fence = record { fence_seen = false; store_addr = none };
  violations = [];
  monitors_errored = 0;
}

-- What the loop over the monitors does with a verdict.
unfoldable pub report : MonitorName → ℤ → Verdict → CheckerState → CheckerState
report name seq holds st = st
report name seq violated st = record st {
  violations = st.violations ++ record { property_name = name; seq = seq } ∷ [];
}
report name seq raises st = record st { monitors_errored = suc st.monitors_errored }

module _ (p : Pair) where
  unfoldable pub run_mret : CheckerState → CheckerState
  run_mret st =
      let (s, v) = mret_after_trap p st.trap_seen in
      report mret_monitor p.seq v (record st { trap_seen = s })

  unfoldable pub run_lr : CheckerState → CheckerState
  run_lr st =
      let (s, v) = lr_before_sc (pos 64) p st.lr_seen_at in
      report lr_monitor p.seq v (record st { lr_seen_at = s })

  unfoldable pub run_stores : CheckerState → CheckerState
  run_stores st =
      let (s, v) = consecutive_stores p st.last_store_addr in
      report stores_monitor p.seq v (record st { last_store_addr = s })

  unfoldable pub run_csr : CheckerState → CheckerState
  run_csr st =
      let (s, v) = csr_read_after_write (pos 10) p st.pending in
      report csr_monitor p.seq v (record st { pending = s })

  unfoldable pub run_fence : CheckerState → CheckerState
  run_fence st =
      let (s, v) = fence_before_load p st.fence in
      report fence_monitor p.seq v (record st { fence = s })

  -- The monitors in their order on one pair.
  unfoldable pub run_monitors : CheckerState → CheckerState
  run_monitors st = run_fence (run_csr (run_stores (run_lr (run_mret st))))

-- `rtl_r.get("seq", i)`, for the pairs from the index `i` on
abbrev seq_or : ℕ → Option ℤ → ℤ
seq_or i none = pos i
seq_or i (some seq) = seq

unfoldable pub pairs_from : ℕ → (rtl_log iss_log : List CommitRecord) → List Pair
pairs_from i [] iss_log = []
pairs_from i (r ∷ rtl_log) [] = []
pairs_from i (r ∷ rtl_log) (s ∷ iss_log) =
    record { rtl = r; iss = s; seq = seq_or i r.seq } ∷ pairs_from (suc i) rtl_log iss_log

unfoldable pub check_pairs : (max_violations : ℕ) → List Pair → CheckerState → CheckerState
check_pairs max_violations [] st = st
check_pairs max_violations (p ∷ ps) st =
    let rest = check_pairs max_violations ps (run_monitors p st) in
    if leb max_violations (length st.violations) then st else rest

unfoldable pub run : (max_violations : ℕ) (rtl_log iss_log : List CommitRecord) → CheckerState
run max_violations rtl_log iss_log =
    check_pairs max_violations (pairs_from 0 rtl_log iss_log) new_checker

-- `pass` of the report
abbrev pub passes : CheckerState → Bool
passes st = (length st.violations == 0) && (st.monitors_errored == 0)

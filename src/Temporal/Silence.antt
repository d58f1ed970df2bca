-- ===== src/Temporal/Silence.antt =====
-- What a pass of the monitors does to the states of two of them, and what it says if nothing is
-- reported.
use ai_chip_design_platform.Common.{
  ℤ, pos, Bool, true, false, List, [], ◌∷◌, ◌++◌, ◌≡◌, refl, ap, subst, ◌∙◌,
}
use ai_chip_design_platform.Temporal.Record.{Pair}
use ai_chip_design_platform.Temporal.Monitors.{
  Verdict, holds, violated, raises, mret_after_trap, lr_before_sc,
}
use ai_chip_design_platform.Temporal.Checker.{
  MonitorName, mret_monitor, lr_monitor, stores_monitor, csr_monitor, fence_monitor,
  TemporalViolation, CheckerState, report, run_mret, run_lr, run_stores, run_csr, run_fence,
  run_monitors,
}

abbrev pub is_violation : Verdict → Bool
is_violation violated = true
is_violation _ = false

module _ (name : MonitorName) (seq : ℤ) (st : CheckerState) where
  report-states :
      (v : Verdict)
      → ((report name seq v st).trap_seen ≡ st.trap_seen)
        × ((report name seq v st).lr_seen_at ≡ st.lr_seen_at)
  unfolding report
  report-states holds = (refl, refl)
  report-states violated = (refl, refl)
  report-states raises = (refl, refl)

  -- A verdict behind which there are no violations was no violation, and there were none before.
  report-silent :
      (v : Verdict)
      → (report name seq v st).violations ≡ []
      → (st.violations ≡ []) × (is_violation v ≡ false)
  unfolding report
  report-silent holds h = (h, refl)
  report-silent raises h = (h, refl)
  report-silent violated h = absurd (full st.violations _ h)
    where
      full : (xs : List TemporalViolation) (x : TemporalViolation) → xs ++ x ∷ [] ≡ [] → ⊥
      full [] x h = cc
      full (y ∷ xs) x h = cc

pub run_monitors-trap_seen :
    (p : Pair) (st : CheckerState)
    → (run_monitors p st).trap_seen ≡ (mret_after_trap p st.trap_seen).0
unfolding run_monitors run_mret run_lr run_stores run_csr run_fence
run_monitors-trap_seen p st =
    (report-states fence_monitor p.seq _ _).0
    ∙ (report-states csr_monitor p.seq _ _).0
    ∙ (report-states stores_monitor p.seq _ _).0
    ∙ (report-states lr_monitor p.seq _ _).0
    ∙ (report-states mret_monitor p.seq _ _).0

pub run_monitors-lr_seen_at :
    (p : Pair) (st : CheckerState)
    → (run_monitors p st).lr_seen_at ≡ (lr_before_sc (pos 64) p st.lr_seen_at).0
unfolding run_monitors run_mret run_lr run_stores run_csr run_fence
run_monitors-lr_seen_at p st =
    (report-states fence_monitor p.seq _ _).1
    ∙ (report-states csr_monitor p.seq _ _).1
    ∙ (report-states stores_monitor p.seq _ _).1
    ∙ (report-states lr_monitor p.seq _ _).1
    ∙ ap (λ s. (lr_before_sc (pos 64) p s).0) (report-states mret_monitor p.seq _ _).1

-- The verdicts of the two monitors on a pair behind which there are no violations.
pub run_monitors-silent :
    (p : Pair) (st : CheckerState)
    → (run_monitors p st).violations ≡ []
    → (st.violations ≡ [])
      × (is_violation (mret_after_trap p st.trap_seen).1 ≡ false)
      × (is_violation (lr_before_sc (pos 64) p st.lr_seen_at).1 ≡ false)
unfolding run_monitors run_mret run_lr run_stores run_csr run_fence
run_monitors-silent p st h =
    let by_fence = report-silent fence_monitor p.seq _ _ h in
    let by_csr = report-silent csr_monitor p.seq _ _ by_fence.0 in
    let by_stores = report-silent stores_monitor p.seq _ _ by_csr.0 in
    let by_lr = report-silent lr_monitor p.seq _ _ by_stores.0 in
    let by_mret = report-silent mret_monitor p.seq _ _ by_lr.0 in
    (
      by_mret.0,
      by_mret.1,
      subst (λ s. is_violation (lr_before_sc (pos 64) p s).1 ≡ false)
          (report-states mret_monitor p.seq _ _).1 by_lr.1,
    )

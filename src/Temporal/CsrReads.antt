-- ===== src/Temporal/CsrReads.antt =====
-- The monitor of CSR reads (`CsrReadAfterWrite`) takes each write for a read of the same CSR.
use ai_chip_design_platform.Common.{
  ℕ, ℤ, pos, Bool, true, false, ◌||◌, Option, none, some, List, [], ◌∷◌, eq_codes, codes, ◌≡◌, refl,
  sym, ap, ◌∙◌, arith, if◌then◌else◌, All, All-append, subst,
}
use ai_chip_design_platform.Temporal.Record.{CommitRecord}
use ai_chip_design_platform.Temporal.Checker.{
  MonitorName, mret_monitor, lr_monitor, stores_monitor, csr_monitor, fence_monitor,
  TemporalViolation, CheckerState, report, run_mret, run_lr, run_stores, run_csr, run_fence,
  run_monitors, run,
}
use ai_chip_design_platform.Temporal.Rule.{run-keeps}
use ai_chip_design_platform.Temporal.Record.{Pair, disasm_of, starts_with, third_word}
use ai_chip_design_platform.Temporal.Monitors.{
  Verdict, holds, violated, raises, Pending, csr_read_after_write, writes_csr, reads_csr,
  track_write, track_read,
}

eq_codes_self : (cs : List ℕ) → eq_codes cs cs ≡ true
eq_codes_self [] = refl
eq_codes_self (c ∷ cs) = ground (arith, eq_codes_self cs)

-- Any disassembly that the monitor takes for a write it takes for a read.
writes_csr-reads_csr : (d : List ℕ) → writes_csr d ≡ true → reads_csr d ≡ true
writes_csr-reads_csr d h = later (starts_with (codes "csrr") d) (writes_csr d) h
  where
    later : (a b : Bool) → b ≡ true → (a || b) ≡ true
    later a b h = ground arith

pop_at_once :
    (w r : Bool) (csr : Option (List ℕ)) (seq : ℤ)
    → (w ≡ true → r ≡ true)
    → track_read r csr (track_write w csr seq []) ≡ []
pop_at_once true true none seq h = refl
pop_at_once true true (some csr) seq h =
    ap (λ b. if b then [] else (csr, seq) ∷ []) (eq_codes_self csr)
pop_at_once true false csr seq h = cc (h refl)
pop_at_once false true none seq h = refl
pop_at_once false true (some csr) seq h = refl
pop_at_once false false csr seq h = refl

-- With nothing pending, nothing is pending behind a step, and the step reports nothing.
pub csr_read_after_write-holds :
    (deadline : ℤ) (p : Pair) → csr_read_after_write deadline p [] ≡ ([], holds)
unfolding csr_read_after_write
csr_read_after_write-holds deadline p =
    ap (λ (x : Pending). (x, holds))
      (pop_at_once (writes_csr (disasm_of p)) (reads_csr (disasm_of p)) (third_word (disasm_of p))
        p.seq (writes_csr-reads_csr (disasm_of p)))

abbrev pub is_csr : MonitorName → Bool
is_csr csr_monitor = true
is_csr _ = false

-- No violation is one of the monitor of CSR reads.
abbrev pub NoCsrReport : List TemporalViolation → Type 0
NoCsrReport = All (λ (v : TemporalViolation). is_csr v.property_name ≡ false)

abbrev IsIdle : CheckerState → Type 0
IsIdle st = (st.pending ≡ []) × NoCsrReport st.violations

report-IsIdle :
    (name : MonitorName) (seq : ℤ) (v : Verdict) (st : CheckerState)
    → is_csr name ≡ false
    → IsIdle st
    → IsIdle (report name seq v st)
unfolding report
report-IsIdle name seq holds st e h = h
report-IsIdle name seq raises st e h = h
report-IsIdle name seq violated st e h = (h.0, All-append _ st.violations _ h.1 (e, tt))

run_csr-IsIdle : (p : Pair) (st : CheckerState) → IsIdle st → IsIdle (run_csr p st)
unfolding run_csr report
run_csr-IsIdle p st h =
    subst
      (λ (x : Pending × Verdict).
        IsIdle (report csr_monitor p.seq x.1 (record st { pending = x.0 })))
      (sym (ap (csr_read_after_write (pos 10) p) h.0 ∙ csr_read_after_write-holds (pos 10) p))
      (refl, h.1)

run_monitors-IsIdle : (p : Pair) (st : CheckerState) → IsIdle st → IsIdle (run_monitors p st)
unfolding run_monitors run_mret run_lr run_stores run_fence
run_monitors-IsIdle p st h = report-IsIdle fence_monitor p.seq _ _ refl (
    run_csr-IsIdle p _ (
      report-IsIdle stores_monitor p.seq _ _ refl
        (report-IsIdle lr_monitor p.seq _ _ refl (report-IsIdle mret_monitor p.seq _ _ refl h))))

-- Whatever the logs, the monitor of CSR reads reports nothing: a write leaves nothing pending.
pub run-NoCsrReport :
    (max_violations : ℕ) (rtl_log iss_log : List CommitRecord)
    → NoCsrReport (run max_violations rtl_log iss_log).violations
run-NoCsrReport max_violations rtl_log iss_log =
    (run-keeps IsIdle run_monitors-IsIdle (refl, tt) max_violations rtl_log iss_log).1

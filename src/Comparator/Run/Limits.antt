-- ===== src/Comparator/Run/Limits.antt =====
-- The limit on mismatches, their severities and the size of their contexts.
use ai_chip_design_platform.Common.{
  ℕ, ◌≤◌, ◌<◌, ℤ, pos, ltb_ℤ, leb_ℤ, pos_part, false, List, [], ◌∷◌, ok, ◌≡◌, ◌≢◌, Side, rtl, iss,
  refl, arith, length, length-append, ◌&&◌, All, All-append, ◌∙◌, sym, subst,
}
use ai_chip_design_platform.Comparator.Config.{CompareConfig}
use ai_chip_design_platform.Comparator.Window
use ai_chip_design_platform.Comparator.Window.Depth.{Fits, push-Fits, maxlen-push, length-snapshot}
use ai_chip_design_platform.Comparator.Steps.{StepValidator}
use ai_chip_design_platform.Comparator.Run.{Source, Schedule, CompareResult, compare}
use ai_chip_design_platform.Comparator.Run.State.{
  LoopState, Mismatch, limit, max_m, add, initial, set_validator, bump_step_anomalies,
}
use ai_chip_design_platform.Comparator.Run.Invariants.{Keeps, IsGraded}
use ai_chip_design_platform.Comparator.Run.Keeping.{Shows, compare-keeps}
use ai_chip_design_platform.Comparator.Run.Counts.{limit-initial}

abbrev HasShortContext : CompareConfig → Mismatch → Type 0
HasShortContext c m = length m.context_window ≤ pos_part c.window

-- The limit on mismatches, where there is one, is kept; every mismatch has its type's severity
-- and a context no longer than the window.
pub record IsBounded (c : CompareConfig) (results : List Mismatch) : Type 0 where
  pub within : pos_part (max_m c) ≢ 0 → length results ≤ pos_part (max_m c)
  pub graded : All IsGraded results
  pub contexts : All (HasShortContext c) results

record IsWithin (c : CompareConfig) (st : LoopState) : Type 0 where
  results : IsBounded c st.results
  fits : Fits st.dwindow
  depth : st.dwindow.maxlen ≡ pos_part c.window

limit-room :
    (c : CompareConfig) (st : LoopState)
    → limit c st ≡ false
    → pos_part (max_m c) ≢ 0
    → length st.results < pos_part (max_m c)
unfolding limit
limit-room c st h p = go (max_m c) (length st.results) h p
  where
    go :
        (m : ℤ) (n : ℕ)
        → ltb_ℤ (pos 0) m && leb_ℤ m (pos n) ≡ false
        → pos_part m ≢ 0
        → n < pos_part m
    go m n h p = ground arith

add-IsWithin :
    (c : CompareConfig) (m : Mismatch) (st : LoopState)
    → IsGraded m
    → limit c st ≡ false
    → IsWithin c st
    → IsWithin c (add m st)
unfolding add
add-IsWithin c m st g room p =
    let m' : Mismatch = record m { context_window = Window.snapshot st.dwindow } in
    record {
      results = record {
        within = λ has. omega (arith, limit-room c st room has, length-append st.results (m' ∷ []));
        graded = All-append IsGraded st.results (m' ∷ []) p.results.graded (g, tt);
        contexts =
            All-append (HasShortContext c) st.results (m' ∷ []) p.results.contexts
              (omega (arith, length-snapshot st.dwindow, p.fits, p.depth), tt);
      };
      fits = p.fits;
      depth = p.depth;
    }

validator-IsWithin :
    (c : CompareConfig) (s : Side) (v : StepValidator) (st : LoopState)
    → IsWithin c st
    → IsWithin c (set_validator s v st)
validator-IsWithin c rtl v st p = record { results = p.results; fits = p.fits; depth = p.depth }
validator-IsWithin c iss v st p = record { results = p.results; fits = p.fits; depth = p.depth }

bump-IsWithin :
    (c : CompareConfig) (s : Side) (st : LoopState)
    → IsWithin c st
    → IsWithin c (bump_step_anomalies s st)
bump-IsWithin c rtl st p = record { results = p.results; fits = p.fits; depth = p.depth }
bump-IsWithin c iss st p = record { results = p.results; fits = p.fits; depth = p.depth }

IsWithin-keeps : (c : CompareConfig) → Keeps c (IsWithin c)
IsWithin-keeps c = record {
  on_add = add-IsWithin c;
  on_validator = validator-IsWithin c;
  on_bump = bump-IsWithin c;
  on_tick = λ st p. record { results = p.results; fits = p.fits; depth = p.depth };
  on_push = λ e st p. record {
    results = p.results;
    fits = push-Fits e st.dwindow p.fits;
    depth = maxlen-push e st.dwindow ∙ p.depth;
  };
}

initial-IsWithin : (c : CompareConfig) → IsWithin c (initial c)
unfolding initial
initial-IsWithin c = record {
  results = record { within = λ _. omega arith; graded = tt; contexts = tt };
  fits = omega arith;
  depth = refl;
}

-- Whatever a comparison returns, it has no more mismatches than the limit, where there is one;
-- each has the severity of its type, and a context no longer than the configured window.
pub compare_bounds :
    (c : CompareConfig) (rs is : Source) (sched : Schedule) {r : CompareResult}
    → compare c rs is sched ≡ ok r
    → IsBounded c r.mismatches
compare_bounds c rs is sched e =
    let (st, p, same, _) =
      subst (Shows c (IsWithin-keeps c)) e
        (compare-keeps c (IsWithin-keeps c) rs is sched (limit-initial c) (initial-IsWithin c)) in
    subst (IsBounded c) (sym same) p.results

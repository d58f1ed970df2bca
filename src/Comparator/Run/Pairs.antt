-- ===== src/Comparator/Run/Pairs.antt =====
-- One iteration from a clean state: it goes on exactly where the pair is clean.
use ai_chip_design_platform.Common.{
  ℤ, Bool, false, Option, some, List, [], ◌∷◌, Outcome, ok, raise, ◌≡◌, ◌↔◌, ◌⊎◌, inl, inr, refl,
  ◌∙◌, sym, subst, if_ind, bind_ind, ◌>>=◌,
}
use ai_chip_design_platform.Comparator.Config.{CompareConfig}
use ai_chip_design_platform.Comparator.Entry.{CommitEntry}
use ai_chip_design_platform.Comparator.Issue.{Issue}
use ai_chip_design_platform.Comparator.Window
use ai_chip_design_platform.Comparator.Steps.Sequence.{Expected, advance-IsSequential}
use ai_chip_design_platform.Comparator.Fields.{compare_fields}
use ai_chip_design_platform.Comparator.Fields.Exact.{PassesChecks, compare_fields_exact}
use ai_chip_design_platform.Comparator.Run.State.{LoopState, limit}
use ai_chip_design_platform.Comparator.Run.Iteration.{
  step_checks, add_issues, fields_step, pair_step,
}
use ai_chip_design_platform.Comparator.Run.Invariants.{
  Returned, Paired, fields_step-keeps, limit_of_results,
}
use ai_chip_design_platform.Comparator.Run.Clean.{
  HasMismatch, HasMismatch-keeps, limit-clean, IsClean, settle, Continue, step_checks_cases,
  add_issues-HasMismatch,
}

-- The window moves on only where the steps pass.
abbrev pub moved : CommitEntry → CommitEntry → LoopState → LoopState
moved r i st = let st₁ = settle r i st in record st₁ { dwindow = Window.push r st.dwindow }

pub moved-IsClean :
    (lr li : Option ℤ) (r i : CommitEntry) (st : LoopState)
    → IsClean lr li st
    → Continue lr li r i
    → IsClean (some r.step) (some i.step) (moved r i st)
moved-IsClean lr li r i st p e = record {
  results = p.results;
  rtl_last = refl;
  iss_last = refl;
  rtl_sequence =
      advance-IsSequential st.rtl_sv.last st.rtl_sv.seen r.step p.rtl_sequence
        (subst (λ l. Expected l r.step) (sym p.rtl_last) e.0);
  iss_sequence =
      advance-IsSequential st.iss_sv.last st.iss_sv.seen i.step p.iss_sequence
        (subst (λ l. Expected l i.step) (sym p.iss_last) e.1);
}

-- The checks pass and nothing is added, or the state is spoiled.
fields_step_cases :
    (c : CompareConfig) (r i : CommitEntry) (st : LoopState)
    → (PassesChecks c r i
        × (fields_step c r i st ≡ ok (record st { dwindow = Window.push r st.dwindow }, false)))
      ⊎ ((¬ PassesChecks c r i) × Paired c (HasMismatch-keeps c) (fields_step c r i st))
unfolding fields_step add_issues
fields_step_cases c r i st = go (compare_fields c r i) (compare_fields_exact c r i)
  where
    pushed : LoopState
    pushed = record st { dwindow = Window.push r st.dwindow }

    finish : List Issue → Outcome (LoopState × Bool)
    finish issues = ok (add_issues c r i issues pushed, false)

    go :
        (o : Outcome (List Issue))
        → (o ≡ ok []) ↔ PassesChecks c r i
        → (PassesChecks c r i × ((o >>= finish) ≡ ok (pushed, false)))
          ⊎ ((¬ PassesChecks c r i) × Paired c (HasMismatch-keeps c) (o >>= finish))
    go (ok []) e = inl (e.0 refl, refl)
    go (ok (x ∷ xs)) e = inr ((λ a. cc (e.1 a)), add_issues-HasMismatch c r i x xs pushed)
    go (raise x) e = inr ((λ a. cc (e.1 a)), tt)

-- A pair that continues both logs and passes its checks.
abbrev pub IsCleanPair : CompareConfig → Option ℤ → Option ℤ → CommitEntry → CommitEntry → Type 0
IsCleanPair c lr li r i = Continue lr li r i × PassesChecks c r i

-- The pair is clean and the loop goes on, or the state is spoiled.
pub pair_step_cases :
    (c : CompareConfig) (lr li : Option ℤ) (r i : CommitEntry) (st : LoopState)
    → IsClean lr li st
    → (IsCleanPair c lr li r i × (pair_step c r i st ≡ ok (moved r i st, false)))
      ⊎ ((¬ IsCleanPair c lr li r i) × Paired c (HasMismatch-keeps c) (pair_step c r i st))
unfolding pair_step
pair_step_cases c lr li r i st p = elim (step_checks_cases c lr li r i st p) [
  | inr (stops, spoiled) ↦ inr (
    λ clean. stops clean.0,
    bind_ind (Paired c (HasMismatch-keeps c)) (step_checks c r i st) _
        (λ st₁ e.
          let h : HasMismatch st₁ = subst (Returned c (HasMismatch-keeps c)) e spoiled in
          if_ind (Paired c (HasMismatch-keeps c)) (limit c st₁) (λ _. h)
            (λ room. fields_step-keeps c (HasMismatch-keeps c) r i st₁ room h))
        (λ _ _. tt),
  )
  | inl (goes_on, e) ↦
      let room : limit c (settle r i st) ≡ false =
        limit_of_results c st (settle r i st) refl ∙ limit-clean c st p.results in
      elim (fields_step_cases c r i (settle r i st)) [
        | inl (passes, e') ↦ inl ((goes_on, passes), rw e (rw room e'))
        | inr (differs, spoiled) ↦ inr ((λ clean. differs clean.1), rw e (rw room spoiled))
      ]
]

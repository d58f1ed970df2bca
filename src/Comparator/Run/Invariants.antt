-- ===== src/Comparator/Run/Invariants.antt =====
-- A proof rule for the comparison: what `add` and the bookkeeping steps keep, the whole run keeps.
use ai_chip_design_platform.Common.{
  Bool, true, false, Option, none, some, List, [], ◌∷◌, if◌then◌else◌, Outcome, ok, raise, ◌≡◌,
  ◌>>=◌, Side, rtl, iss, refl, ap, ◌∙◌, if_ind, bind_ind, subst, leb_ℤ, ltb_ℤ, pos, length, ◌&&◌,
}
use ai_chip_design_platform.Comparator.Kinds.{severity_for}
use ai_chip_design_platform.Comparator.Config.{CompareConfig}
use ai_chip_design_platform.Comparator.Entry.{CommitEntry}
use ai_chip_design_platform.Comparator.Issue.{Issue}
use ai_chip_design_platform.Comparator.Window
use ai_chip_design_platform.Comparator.Steps
use ai_chip_design_platform.Comparator.Steps.{Anomaly, duplicate, discontinuity, StepValidator}
use ai_chip_design_platform.Comparator.Fields.{compare_fields}
use ai_chip_design_platform.Comparator.Run.State.{
  Mismatch, LoopState, limit, max_m, add, tick, bump_step_anomalies, validator, set_validator,
}
use ai_chip_design_platform.Comparator.Run.Iteration.{
  anomaly_mismatch, on_anomaly, side_check, step_checks, issue_mismatch, add_issues, fields_step,
  pair_step,
}

-- The severity of a mismatch is that of its type.
abbrev pub IsGraded : Mismatch → Type 0
IsGraded m = m.severity ≡ severity_for m.mismatch_type

pub record Keeps (c : CompareConfig) (P : LoopState → Type 0) : Type 0 where
  pub on_add :
      (m : Mismatch) (st : LoopState) → IsGraded m → limit c st ≡ false → P st → P (add m st)
  pub on_validator :
      (s : Side) (v : StepValidator) (st : LoopState) → P st → P (set_validator s v st)
  pub on_bump : (s : Side) (st : LoopState) → P st → P (bump_step_anomalies s st)
  pub on_tick : (st : LoopState) → P st → P (tick st)
  pub on_push :
      (e : CommitEntry) (st : LoopState)
      → P st
      → P (record st { dwindow = Window.push e st.dwindow })

-- The limit looks at the results only.
pub limit_of_results :
    (c : CompareConfig) (st st' : LoopState) → st'.results ≡ st.results → limit c st' ≡ limit c st
unfolding limit
limit_of_results c st st' e =
    ap (λ rs. ltb_ℤ (pos 0) (max_m c) && leb_ℤ (max_m c) (pos (length rs))) e

anomaly_mismatch-IsGraded : (e : CommitEntry) (a : Anomaly) → IsGraded (anomaly_mismatch e a)
unfolding anomaly_mismatch severity_for
anomaly_mismatch-IsGraded e (duplicate s l) = refl
anomaly_mismatch-IsGraded e (discontinuity s l) = refl

set_validator-results :
    (s : Side) (v : StepValidator) (st : LoopState) → (set_validator s v st).results ≡ st.results
set_validator-results rtl v st = refl
set_validator-results iss v st = refl

bump-results : (s : Side) (st : LoopState) → (bump_step_anomalies s st).results ≡ st.results
bump-results rtl st = refl
bump-results iss st = refl

module _ (c : CompareConfig) {P : LoopState → Type 0} (k : Keeps c P) where
  -- What holds of a state that comes with the flag that ends a loop.
  abbrev pub Flagged : Outcome (LoopState × Bool) → Type 0
  Flagged (ok (st, left)) = P st × (left ≡ false → limit c st ≡ false)
  Flagged (raise e) = Unit

  abbrev pub Returned : Outcome LoopState → Type 0
  Returned (ok st) = P st
  Returned (raise e) = Unit

  abbrev pub Paired : Outcome (LoopState × Bool) → Type 0
  Paired (ok after) = P after.0
  Paired (raise e) = Unit

  on_anomaly-keeps :
      (s : Side) (e : CommitEntry) (st : LoopState) (a : Option Anomaly)
      → limit c st ≡ false
      → P st
      → Flagged (on_anomaly c s e st a)
  unfolding on_anomaly
  on_anomaly-keeps s e st none h p = (p, λ _. h)
  on_anomaly-keeps s e st (some a) h p =
      if_ind Flagged c.strict_steps (λ _. tt)
        (λ _. (
          k.on_add (anomaly_mismatch e a) (bump_step_anomalies s st) (anomaly_mismatch-IsGraded e a)
              (limit_of_results c st (bump_step_anomalies s st) (bump-results s st) ∙ h)
              (k.on_bump s st p),
          λ left. left,
        ))

  side_check-keeps :
      (s : Side) (e : CommitEntry) (st : LoopState)
      → limit c st ≡ false
      → P st
      → Flagged (side_check c s e st)
  unfolding side_check
  side_check-keeps s e st h p =
      let (a, v) = Steps.check e.step (validator s st) in
      on_anomaly-keeps s e (set_validator s v st) a
        (limit_of_results c st (set_validator s v st) (set_validator-results s v st) ∙ h)
        (k.on_validator s v st p)

  -- The second side is checked only where the first left the loop going.
  pub second_side-keeps :
      (i : CommitEntry) (o : Outcome (LoopState × Bool))
      → Flagged o
      → Returned (
          o >>= λ first.
          if first.1 then ok first.0 else (side_check c iss i first.0 >>= λ after. ok after.0))
  second_side-keeps i (raise e) f = tt
  second_side-keeps i (ok (st, true)) f = f.0
  second_side-keeps i (ok (st, false)) f =
      forget (side_check c iss i st) (side_check-keeps iss i st (f.1 refl) f.0)
    where
      forget : (o : Outcome (LoopState × Bool)) → Flagged o → Returned (o >>= λ after. ok after.0)
      forget (ok after) g = g.0
      forget (raise e) g = tt

  step_checks-keeps :
      (r i : CommitEntry) (st : LoopState)
      → limit c st ≡ false
      → P st
      → Returned (step_checks c r i st)
  unfolding step_checks
  step_checks-keeps r i st h p =
      second_side-keeps i (side_check c rtl r st) (side_check-keeps rtl r st h p)

  pub add_issues-keeps :
      (r i : CommitEntry) (xs : List Issue) (st : LoopState)
      → limit c st ≡ false
      → P st
      → P (add_issues c r i xs st)
  unfolding add_issues
  add_issues-keeps r i [] st h p = p
  add_issues-keeps r i (x ∷ xs) st h p =
      let st' = add (issue_mismatch r i x) st in
      let p' : P st' = k.on_add (issue_mismatch r i x) st refl h p in
      if_ind P (limit c st') (λ _. p') (λ room. add_issues-keeps r i xs st' room p')

  pub fields_step-keeps :
      (r i : CommitEntry) (st : LoopState)
      → limit c st ≡ false
      → P st
      → Paired (fields_step c r i st)
  unfolding fields_step
  fields_step-keeps r i st room p =
      let pushed : LoopState = record st { dwindow = Window.push r st.dwindow } in
      bind_ind Paired (compare_fields c r i) _
        (λ issues _.
          add_issues-keeps r i issues pushed (limit_of_results c st pushed refl ∙ room)
            (k.on_push r st p))
        (λ _ _. tt)

  pub pair_step-keeps :
      (r i : CommitEntry) (st : LoopState) → limit c st ≡ false → P st → Paired (pair_step c r i st)
  unfolding pair_step
  pair_step-keeps r i st h p =
      bind_ind Paired (step_checks c r i st) _
        (λ st₁ e₁.
          let p₁ : P st₁ = subst Returned e₁ (step_checks-keeps r i st h p) in
          if_ind Paired (limit c st₁) (λ _. p₁) (λ room. fields_step-keeps r i st₁ room p₁))
        (λ _ _. tt)

-- ===== src/Comparator/Run/Clean.antt =====
-- One iteration from a state without mismatches: it stays so exactly if the pair is clean.
use ai_chip_design_platform.Common.{
  ℤ, Bool, false, Option, none, some, List, [], ◌∷◌, ◌++◌, Outcome, ok, ◌≡◌, ◌≢◌, ◌↔◌, Side, rtl,
  iss, ◌∙◌, sym, ap, subst, arith, Option-cases, ◌⊎◌, inl, inr, if_ind, bind_ind, length, pos,
  ltb_ℤ, leb_ℤ, ◌&&◌,
}
use ai_chip_design_platform.Comparator.Config.{CompareConfig}
use ai_chip_design_platform.Comparator.Entry.{CommitEntry}
use ai_chip_design_platform.Comparator.Issue.{Issue}
use ai_chip_design_platform.Comparator.Steps
use ai_chip_design_platform.Comparator.Steps.{StepValidator, Anomaly}
use ai_chip_design_platform.Comparator.Steps.Sequence.{
  Expected, Behind, advance, check_silent, check_after,
}
use ai_chip_design_platform.Comparator.Run.State.{
  Mismatch, LoopState, limit, max_m, add, bump_step_anomalies, validator, set_validator,
}
use ai_chip_design_platform.Comparator.Run.Iteration.{
  anomaly_mismatch, on_anomaly, side_check, step_checks, issue_mismatch, add_issues,
}
use ai_chip_design_platform.Comparator.Run.Invariants.{
  Keeps, Flagged, Returned, second_side-keeps, add_issues-keeps,
}

abbrev pub HasMismatch : LoopState → Type 0
HasMismatch st = st.results ≢ []

append_one-ne-nil : {A : Type 0} (xs : List A) (x : A) → xs ++ x ∷ [] ≢ []
append_one-ne-nil [] x = λ h. cc
append_one-ne-nil (y ∷ xs) x = λ h. cc

pub add-HasMismatch : (m : Mismatch) (st : LoopState) → HasMismatch (add m st)
unfolding add
add-HasMismatch m st = append_one-ne-nil st.results _

validator-HasMismatch :
    (s : Side) (v : StepValidator) (st : LoopState)
    → HasMismatch st
    → HasMismatch (set_validator s v st)
validator-HasMismatch rtl v st h = h
validator-HasMismatch iss v st h = h

bump-HasMismatch :
    (s : Side) (st : LoopState) → HasMismatch st → HasMismatch (bump_step_anomalies s st)
bump-HasMismatch rtl st h = h
bump-HasMismatch iss st h = h

-- A mismatch is never taken back.
pub HasMismatch-keeps : (c : CompareConfig) → Keeps c HasMismatch
HasMismatch-keeps c = record {
  on_add = λ m st _ _ _. add-HasMismatch m st;
  on_validator = validator-HasMismatch;
  on_bump = bump-HasMismatch;
  on_tick = λ st h. h;
  on_push = λ e st h. h;
}

pub limit-clean : (c : CompareConfig) (st : LoopState) → st.results ≡ [] → limit c st ≡ false
unfolding limit
limit-clean c st e = go (max_m c) st.results e
  where
    go :
        (m : ℤ) (rs : List Mismatch)
        → rs ≡ []
        → ltb_ℤ (pos 0) m && leb_ℤ m (pos (length rs)) ≡ false
    go m rs e = rw e (ground arith)

-- The state of the loop while no mismatch was found.
pub record IsClean (last_rtl last_iss : Option ℤ) (st : LoopState) : Type 0 where
  pub results : st.results ≡ []
  pub rtl_last : st.rtl_sv.last ≡ last_rtl
  pub iss_last : st.iss_sv.last ≡ last_iss
  pub rtl_sequence : Behind st.rtl_sv.last st.rtl_sv.seen
  pub iss_sequence : Behind st.iss_sv.last st.iss_sv.seen

side_check-silent :
    (c : CompareConfig) (s : Side) (e : CommitEntry) (st : LoopState)
    → (Steps.check e.step (validator s st)).0 ≡ none
    → side_check c s e st ≡ ok (set_validator s (advance e.step (validator s st)) st, false)
unfolding side_check on_anomaly
side_check-silent c s e st h =
    let (a, v) = Steps.check e.step (validator s st) in
    ap (λ a'. on_anomaly c s e (set_validator s v st) a') h
    ∙ ap (λ v'. ok (set_validator s v' st, false)) (check_after e.step (validator s st))

-- Either an exception, or a state that has a mismatch.
abbrev pub Spoiled : CompareConfig → Outcome (LoopState × Bool) → Type 0
Spoiled c o = Flagged c (HasMismatch-keeps c) o

on_anomaly-Spoiled :
    (c : CompareConfig) (s : Side) (e : CommitEntry) (st : LoopState) (a : Anomaly)
    → Spoiled c (on_anomaly c s e st (some a))
unfolding on_anomaly
on_anomaly-Spoiled c s e st a =
    if_ind (Spoiled c) c.strict_steps (λ _. tt)
      (λ _. (add-HasMismatch (anomaly_mismatch e a) (bump_step_anomalies s st), λ left. left))

side_check-noisy :
    (c : CompareConfig) (s : Side) (e : CommitEntry) (st : LoopState) (a : Anomaly)
    → (Steps.check e.step (validator s st)).0 ≡ some a
    → Spoiled c (side_check c s e st)
unfolding side_check
side_check-noisy c s e st a h =
    let (found, v) = Steps.check e.step (validator s st) in
    subst (λ o. Spoiled c (on_anomaly c s e (set_validator s v st) o)) (sym h)
      (on_anomaly-Spoiled c s e (set_validator s v st) a)

-- Both validators have accepted a step.
abbrev pub settle : CommitEntry → CommitEntry → LoopState → LoopState
settle r i st = record st { rtl_sv = advance r.step st.rtl_sv; iss_sv = advance i.step st.iss_sv }

abbrev pub Continue : Option ℤ → Option ℤ → CommitEntry → CommitEntry → Type 0
Continue lr li r i = Expected lr r.step × Expected li i.step

passes :
    (last : Option ℤ) (v : StepValidator) (step : ℤ)
    → v.last ≡ last
    → Behind v.last v.seen
    → ((Steps.check step v).0 ≡ none) ↔ Expected last step
passes last v step e h =
    subst (λ l. ((Steps.check step v).0 ≡ none) ↔ Expected l step) e
      (check_silent v.last v.seen step h)

-- Both steps are the expected ones, or the state is spoiled.
pub step_checks_cases :
    (c : CompareConfig) (lr li : Option ℤ) (r i : CommitEntry) (st : LoopState)
    → IsClean lr li st
    → (Continue lr li r i × (step_checks c r i st ≡ ok (settle r i st)))
      ⊎ ((¬ Continue lr li r i) × Returned c (HasMismatch-keeps c) (step_checks c r i st))
unfolding step_checks
step_checks_cases c lr li r i st p =
    let pass_r = passes lr st.rtl_sv r.step p.rtl_last p.rtl_sequence in
    let pass_i = passes li st.iss_sv i.step p.iss_last p.iss_sequence in
    let st₁ : LoopState = record st { rtl_sv = advance r.step st.rtl_sv } in
    elim (Option-cases (Steps.check r.step st.rtl_sv).0) [
      | inr (a, noisy) ↦ inr (
        λ e. cc (noisy, pass_r.1 e.0),
        second_side-keeps c (HasMismatch-keeps c) i (side_check c rtl r st)
            (side_check-noisy c rtl r st a noisy),
      )
      | inl quiet_r ↦ elim (Option-cases (Steps.check i.step st.iss_sv).0) [
        | inr (a, noisy) ↦ inr (
          λ e. cc (noisy, pass_i.1 e.1),
          rw (side_check-silent c rtl r st quiet_r) (
              bind_ind (Returned c (HasMismatch-keeps c)) (side_check c iss i st₁) _
                (λ after e. (subst (Spoiled c) e (side_check-noisy c iss i st₁ a noisy)).0)
                (λ _ _. tt)),
        )
        | inl quiet_i ↦ inl (
          (pass_r.0 quiet_r, pass_i.0 quiet_i),
          rw (side_check-silent c rtl r st quiet_r) (rw (side_check-silent c iss i st₁ quiet_i)),
        )
      ]
    ]

pub add_issues-HasMismatch :
    (c : CompareConfig) (r i : CommitEntry) (x : Issue) (xs : List Issue) (st : LoopState)
    → HasMismatch (add_issues c r i (x ∷ xs) st)
unfolding add_issues
add_issues-HasMismatch c r i x xs st =
    let st' = add (issue_mismatch r i x) st in
    let h : HasMismatch st' = add-HasMismatch (issue_mismatch r i x) st in
    if_ind HasMismatch (limit c st') (λ _. h)
      (λ room. add_issues-keeps c (HasMismatch-keeps c) r i xs st' room h)

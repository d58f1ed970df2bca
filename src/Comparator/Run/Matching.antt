-- ===== src/Comparator/Run/Matching.antt =====
-- The main loop ends without a mismatch exactly on matching logs of readers that do not fail.
use ai_chip_design_platform.Common.{
  ℤ, Bool, true, false, Option, some, List, [], ◌∷◌, Outcome, ok, raise, ◌≡◌, inl, inr, refl, subst,
  if_ind, bind_ind, ◌>>◌, ◌&&◌,
}
use ai_chip_design_platform.Comparator.Config.{CompareConfig}
use ai_chip_design_platform.Comparator.Entry.{CommitEntry}
use ai_chip_design_platform.Comparator.Run.{Schedule, main_loop, reader_errors}
use ai_chip_design_platform.Comparator.Run.State.{LoopState, Mismatch, add, tick}
use ai_chip_design_platform.Comparator.Run.Iteration.{pair_step}
use ai_chip_design_platform.Comparator.Run.Invariants.{Returned, Paired}
use ai_chip_design_platform.Comparator.Run.Keeping.{main_loop-keeps}
use ai_chip_design_platform.Comparator.Run.Clean.{
  HasMismatch, HasMismatch-keeps, add-HasMismatch, limit-clean, IsClean,
}
use ai_chip_design_platform.Comparator.Run.Pairs.{
  moved, moved-IsClean, IsCleanPair, pair_step_cases,
}

-- Both logs have as many commits; each commit's step follows the one before it in its log, and the
-- commits at equal places pass the checks of a pair.
abbrev pub LogsMatch :
    CompareConfig → Option ℤ → Option ℤ → List CommitEntry → List CommitEntry → Type 0
LogsMatch c lr li [] [] = Unit
LogsMatch c lr li [] (i ∷ is) = ⊥
LogsMatch c lr li (r ∷ rs) [] = ⊥
LogsMatch c lr li (r ∷ rs) (i ∷ is) =
    IsCleanPair c lr li r i × LogsMatch c (some r.step) (some i.step) rs is

abbrev pub NoMismatch : LoopState → Type 0
NoMismatch st = st.results ≡ []

tick-IsClean : (lr li : Option ℤ) (st : LoopState) → IsClean lr li st → IsClean lr li (tick st)
tick-IsClean lr li st p = record {
  results = p.results;
  rtl_last = p.rtl_last;
  iss_last = p.iss_last;
  rtl_sequence = p.rtl_sequence;
  iss_sequence = p.iss_sequence;
}

-- A reader that does not fail is not seen to fail.
quiet_readers : (a b : Bool) → (reader_errors (false && a) (false && b)) ≡ ok tt
unfolding reader_errors
quiet_readers a b = refl

module _ (c : CompareConfig) (sched : Schedule) where
  pub main_loop_passes :
      (lr li : Option ℤ) (rs is : List CommitEntry) (st : LoopState)
      → IsClean lr li st
      → LogsMatch c lr li rs is
      → (st' : LoopState) × (main_loop c false false sched rs is st ≡ ok st') × NoMismatch st'
  unfolding main_loop reader_errors
  main_loop_passes lr li [] [] st p m = (st, rw (limit-clean c st p.results), p.results)
  main_loop_passes lr li [] (i ∷ is) st p m = absurd m
  main_loop_passes lr li (r ∷ rs) [] st p m = absurd m
  main_loop_passes lr li (r ∷ rs) (i ∷ is) st p (clean, rest) =
      elim (pair_step_cases c lr li r i (tick st) (tick-IsClean lr li st p)) [
        | inr (differs, _) ↦ absurd (differs clean)
        | inl (_, e) ↦
            let (st', e', done) =
              main_loop_passes (some r.step) (some i.step) rs is (moved r i (tick st))
                (moved-IsClean lr li r i (tick st) (tick-IsClean lr li st p) clean.0) rest in
            (st', rw (limit-clean c st p.results) (rw e e'), done)
      ]

module _ (c : CompareConfig) (fr fi : Bool) (sched : Schedule) where
  -- What a run without a mismatch shows.
  abbrev pub Shown : Type 0 → Outcome LoopState → Type 0
  Shown G (ok st) = NoMismatch st → G
  Shown G (raise e) = Unit

  abbrev pub Good : Option ℤ → Option ℤ → List CommitEntry → List CommitEntry → Type 0
  Good lr li rs is = (fr ≡ false) × (fi ≡ false) × LogsMatch c lr li rs is

  Shown_map : (H G : Type 0) → (H → G) → (o : Outcome LoopState) → Shown H o → Shown G o
  Shown_map H G f (ok st) h = λ e. f (h e)
  Shown_map H G f (raise x) h = tt

  finished :
      (a b : Bool) (st : LoopState) (G : Type 0)
      → (a ≡ false → b ≡ false → G)
      → Shown G (reader_errors a b >> ok st)
  unfolding reader_errors
  finished true b st G g = tt
  finished false true st G g = tt
  finished false false st G g = λ _. g refl refl

  pub spoiled_shows :
      (G : Type 0) (o : Outcome LoopState) → Returned c (HasMismatch-keeps c) o → Shown G o
  spoiled_shows G (ok st) h = λ e. absurd (h e)
  spoiled_shows G (raise x) h = tt

  ended_shows :
      (G : Type 0) (a b : Bool) (m : Mismatch) (st : LoopState)
      → Shown G (reader_errors a b >> ok (add m st))
  ended_shows G a b m st =
      bind_ind (Shown G) (reader_errors a b) _ (λ _ _ e. absurd (add-HasMismatch m st e))
        (λ _ _. tt)

  pub main_loop_shows :
      (lr li : Option ℤ) (rs is : List CommitEntry) (st : LoopState)
      → IsClean lr li st
      → Shown (Good lr li rs is) (main_loop c fr fi sched rs is st)
  unfolding main_loop
  main_loop_shows lr li [] [] st p =
      rw (limit-clean c st p.results) (finished fr fi st (Good lr li [] []) (λ ef ei. (ef, ei, tt)))
  main_loop_shows lr li [] (i ∷ is) st p =
      rw (limit-clean c st p.results) (ended_shows (Good lr li [] (i ∷ is)) _ _ _ _)
  main_loop_shows lr li (r ∷ rs) [] st p =
      rw (limit-clean c st p.results) (ended_shows (Good lr li (r ∷ rs) []) _ _ _ _)
  main_loop_shows lr li (r ∷ rs) (i ∷ is) st p =
      let G = Good lr li (r ∷ rs) (i ∷ is) in
      rw (limit-clean c st p.results) (
        bind_ind (Shown G) (reader_errors _ _) _
          (λ _ _. elim (pair_step_cases c lr li r i (tick st) (tick-IsClean lr li st p)) [
            | inr (_, spoiled) ↦
                bind_ind (Shown G) (pair_step c r i (tick st)) _
                  (λ after e.
                    let h : HasMismatch after.0 =
                      subst (Paired c (HasMismatch-keeps c)) e spoiled in
                    if_ind (Shown G) after.1 (λ _ none_found. absurd (h none_found))
                      (λ _.
                        spoiled_shows G (main_loop c fr fi sched rs is after.0)
                          (main_loop-keeps c (HasMismatch-keeps c) fr fi sched rs is after.0 h)))
                  (λ _ _. tt)
            | inl (clean, e) ↦ rw e (
                Shown_map (Good (some r.step) (some i.step) rs is) G (λ g. (g.0, g.1, (clean, g.2)))
                  (main_loop c fr fi sched rs is (moved r i (tick st)))
                  (main_loop_shows (some r.step) (some i.step) rs is (moved r i (tick st))
                    (moved-IsClean lr li r i (tick st) (tick-IsClean lr li st p) clean.0)))
          ])
          (λ _ _. tt))

-- ===== src/Comparator/Run/Keeping.antt =====
-- The rule of Invariants carried through the main loop and the whole comparison.
use ai_chip_design_platform.Common.{
  Bool, false, Option, List, [], ◌∷◌, Outcome, ok, raise, ◌≡◌, Side, ◌>>◌, rtl, iss, refl, ◌∙◌,
  if_ind, bind_ind, subst, String,
}
use ai_chip_design_platform.Comparator.Kinds.{severity_for}
use ai_chip_design_platform.Comparator.Config.{CompareConfig}
use ai_chip_design_platform.Comparator.Entry.{CommitEntry}
use ai_chip_design_platform.Comparator.Run.{
  Source, Schedule, CompareResult, main_loop, run_from, hash_check, compare, length_mismatch_of,
  hash_mismatch, reader_errors, hash_differs,
}
use ai_chip_design_platform.Comparator.Run.State.{LoopState, limit, add, tick, initial}
use ai_chip_design_platform.Comparator.Run.Iteration.{pair_step}
use ai_chip_design_platform.Comparator.Run.Invariants.{
  Keeps, IsGraded, Returned, Paired, limit_of_results, pair_step-keeps,
}

length_mismatch_of-IsGraded : (s : Side) (e : CommitEntry) → IsGraded (length_mismatch_of s e)
unfolding length_mismatch_of severity_for
length_mismatch_of-IsGraded rtl e = refl
length_mismatch_of-IsGraded iss e = refl

hash_mismatch-IsGraded : (s : Side) (h : Option String) → IsGraded (hash_mismatch s h)
unfolding severity_for
hash_mismatch-IsGraded rtl h = refl
hash_mismatch-IsGraded iss h = refl

module _ (c : CompareConfig) {P : LoopState → Type 0} (k : Keeps c P) where
  ended-keeps :
      (s : Side) (e : CommitEntry) (st : LoopState) (seen_rtl seen_iss : Bool)
      → limit c st ≡ false
      → P st
      → Returned c k
          (reader_errors seen_rtl seen_iss >> ok (add (length_mismatch_of s e) (tick st)))
  ended-keeps s e st a b room p =
      bind_ind (Returned c k) (reader_errors a b) _
        (λ _ _.
          k.on_add (length_mismatch_of s e) (tick st) (length_mismatch_of-IsGraded s e)
            (limit_of_results c st (tick st) refl ∙ room) (k.on_tick st p))
        (λ _ _. tt)

  pub main_loop-keeps :
      (fr fi : Bool) (sched : Schedule) (rs is : List CommitEntry) (st : LoopState)
      → P st
      → Returned c k (main_loop c fr fi sched rs is st)
  unfolding main_loop
  main_loop-keeps fr fi sched [] [] st p =
      if_ind (Returned c k) (limit c st) (λ _. p)
        (λ _. bind_ind (Returned c k) (reader_errors fr fi) _ (λ _ _. p) (λ _ _. tt))
  main_loop-keeps fr fi sched [] (i ∷ is) st p =
      if_ind (Returned c k) (limit c st) (λ _. p) (λ room. ended-keeps rtl i st _ _ room p)
  main_loop-keeps fr fi sched (r ∷ rs) [] st p =
      if_ind (Returned c k) (limit c st) (λ _. p) (λ room. ended-keeps iss r st _ _ room p)
  main_loop-keeps fr fi sched (r ∷ rs) (i ∷ is) st p =
      if_ind (Returned c k) (limit c st) (λ _. p)
        (λ room.
          bind_ind (Returned c k) (reader_errors _ _) _
            (λ _ _.
              bind_ind (Returned c k) (pair_step c r i (tick st)) _
                (λ after e.
                  let q : P after.0 = subst (Paired c k) e (
                    pair_step-keeps c k r i (tick st) (limit_of_results c st (tick st) refl ∙ room)
                      (k.on_tick st p)) in
                  if_ind (Returned c k) after.1 (λ _. q)
                    (λ _. main_loop-keeps fr fi sched rs is after.0 q))
                (λ _ _. tt))
            (λ _ _. tt))

  hash_check-keeps :
      (s : Side) (expected actual : Option String) (st : LoopState)
      → limit c st ≡ false
      → P st
      → P (hash_check c s expected actual st).0
        × ((hash_check c s expected actual st).1 ≡ false
            → limit c (hash_check c s expected actual st).0 ≡ false)
  unfolding hash_check
  hash_check-keeps s expected actual st room p =
      if_ind (λ (r : LoopState × Bool). P r.0 × (r.1 ≡ false → limit c r.0 ≡ false))
        (hash_differs expected actual)
        (λ _.
          (k.on_add (hash_mismatch s actual) st (hash_mismatch-IsGraded s actual) room p, λ e. e))
        (λ _. (p, λ _. room))

  -- The state that a result shows.
  abbrev pub Shows : Outcome CompareResult → Type 0
  Shows (ok r) = (st : LoopState) × P st × (r.mismatches ≡ st.results) × (r.stats ≡ st.stats)
  Shows (raise e) = Unit

  run_from-keeps :
      (rs is : Source) (sched : Schedule) (st : LoopState)
      → P st
      → Shows (run_from c rs is sched st)
  unfolding run_from
  run_from-keeps rs is sched st p =
      bind_ind Shows (main_loop c rs.fails is.fails sched rs.commits is.commits st) _
        (λ st' e. (
          st',
          subst (Returned c k) e
              (main_loop-keeps rs.fails is.fails sched rs.commits is.commits st p),
          refl,
          refl,
        ))
        (λ _ _. tt)

  pub compare-keeps :
      (rs is : Source) (sched : Schedule)
      → limit c (initial c) ≡ false
      → P (initial c)
      → Shows (compare c rs is sched)
  unfolding compare
  compare-keeps rs is sched room p =
      let (p₁, room₁) = hash_check-keeps rtl c.expected_rtl_sha256 rs.sha256 (initial c) room p in
      let st₁ = (hash_check c rtl c.expected_rtl_sha256 rs.sha256 (initial c)).0 in
      if_ind Shows (hash_check c rtl c.expected_rtl_sha256 rs.sha256 (initial c)).1
        (λ _. (st₁, p₁, refl, refl))
        (λ e₁.
          let (p₂, _) = hash_check-keeps iss c.expected_iss_sha256 is.sha256 st₁ (room₁ e₁) p₁ in
          let st₂ = (hash_check c iss c.expected_iss_sha256 is.sha256 st₁).0 in
          if_ind Shows (hash_check c iss c.expected_iss_sha256 is.sha256 st₁).1
            (λ _. (st₂, p₂, refl, refl)) (λ _. run_from-keeps rs is sched st₂ p₂))

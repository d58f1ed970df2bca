-- ===== src/Comparator/Run/Passing.antt =====
-- When the comparison passes.
use ai_chip_design_platform.Common.{
  ℕ, Bool, true, false, Option, none, some, List, [], ◌∷◌, Outcome, ok, raise, ◌≡◌, ◌↔◌, inl, inr,
  refl, ap, ◌∙◌, subst, if_ind, bind_ind, if◌then◌else◌, Side, rtl, iss, String, lower, eq_codes,
  arith, Bool-cases,
}
use mathlib.Core.Path.{ap₂}
use ai_chip_design_platform.Comparator.Config.{CompareConfig}
use ai_chip_design_platform.Comparator.Run.{
  Source, Schedule, CompareResult, main_loop, run_from, hash_check, compare, hash_differs,
  hash_mismatch, is_empty, result,
}
use ai_chip_design_platform.Comparator.Run.State.{LoopState, initial}
use ai_chip_design_platform.Comparator.Run.Invariants.{Returned}
use ai_chip_design_platform.Comparator.Run.Keeping.{main_loop-keeps}
use ai_chip_design_platform.Comparator.Run.Clean.{
  HasMismatch, HasMismatch-keeps, add-HasMismatch, IsClean,
}
use ai_chip_design_platform.Comparator.Run.Matching.{
  LogsMatch, Shown, Good, main_loop_passes, main_loop_shows,
}

-- A pinned hash is met where the log's hash is known, up to the case of the letters.
abbrev pub HashMatches : Option String → Option String → Type 0
HashMatches none actual = Unit
HashMatches (some expected) none = Unit
HashMatches (some expected) (some actual) = lower expected ≡ lower actual

eq_codes_iff : (as_ bs : List ℕ) → (eq_codes as_ bs ≡ true) ↔ (as_ ≡ bs)
eq_codes_iff [] [] = ground arith
eq_codes_iff [] (b ∷ bs) = ground arith
eq_codes_iff (a ∷ as_) [] = ground arith
eq_codes_iff (a ∷ as_) (b ∷ bs) = ground (arith, eq_codes_iff as_ bs)

hash_differs-false : (e a : Option String) → (hash_differs e a ≡ false) ↔ HashMatches e a
unfolding hash_differs
hash_differs-false none a = ground arith
hash_differs-false (some e) none = ground arith
hash_differs-false (some e) (some a) = ground (arith, eq_codes_iff (lower e) (lower a))

-- The logs that a comparison passes.
pub record IsPassing (c : CompareConfig) (rs is : Source) : Type 0 where
  pub rtl_hash : HashMatches c.expected_rtl_sha256 rs.sha256
  pub iss_hash : HashMatches c.expected_iss_sha256 is.sha256
  pub rtl_reads : rs.fails ≡ false
  pub iss_reads : is.fails ≡ false
  pub logs : LogsMatch c none none rs.commits is.commits

abbrev pub Passes : Outcome CompareResult → Type 0
Passes o = (r : CompareResult) × (o ≡ ok r) × (r.passed ≡ true)

abbrev Verdict : Type 0 → Outcome CompareResult → Type 0
Verdict G (ok r) = r.passed ≡ true → G
Verdict G (raise e) = Unit

is_empty-true : {A : Type 0} (xs : List A) → is_empty xs ≡ true → xs ≡ []
is_empty-true [] h = refl
is_empty-true (x ∷ xs) h = cc

initial-IsClean : (c : CompareConfig) → IsClean none none (initial c)
unfolding initial
initial-IsClean c = record {
  results = refl;
  rtl_last = refl;
  iss_last = refl;
  rtl_sequence = refl;
  iss_sequence = refl;
}

module _ (c : CompareConfig) (rs is : Source) (sched : Schedule) where
  hash_check-same :
      (s : Side) (e a : Option String) (st : LoopState)
      → hash_differs e a ≡ false
      → hash_check c s e a st ≡ (st, false)
  unfolding hash_check
  hash_check-same s e a st h = rw h

  hash_check-differs :
      (s : Side) (e a : Option String) (st : LoopState)
      → hash_differs e a ≡ true
      → HasMismatch (hash_check c s e a st).0
  unfolding hash_check
  hash_check-differs s e a st h = rw h (add-HasMismatch (hash_mismatch s a) st)

  hash_check-HasMismatch :
      (s : Side) (e a : Option String) (st : LoopState)
      → HasMismatch st
      → HasMismatch (hash_check c s e a st).0
  unfolding hash_check
  hash_check-HasMismatch s e a st h =
      if_ind (λ (r : LoopState × Bool). HasMismatch r.0) (hash_differs e a)
        (λ _. add-HasMismatch (hash_mismatch s a) st) (λ _. h)

  Verdict-map : {H G : Type 0} (o : Outcome CompareResult) → (H → G) → Verdict H o → Verdict G o
  Verdict-map (ok r) f h = λ e. f (h e)
  Verdict-map (raise x) f h = tt

  -- A state with a mismatch does not pass.
  run_from_spoiled :
      (G : Type 0) (st : LoopState) → HasMismatch st → Verdict G (run_from c rs is sched st)
  unfolding run_from
  run_from_spoiled G st h =
      bind_ind (Verdict G) (main_loop c rs.fails is.fails sched rs.commits is.commits st) _
        (λ st' e passed. absurd (
          subst (Returned c (HasMismatch-keeps c)) e
            (main_loop-keeps c (HasMismatch-keeps c) rs.fails is.fails sched rs.commits is.commits
              st h)
            (is_empty-true st'.results passed)))
        (λ _ _. tt)

  -- Behind the pre-flight checks the verdict is that of the loop.
  run_from-Verdict :
      Verdict
        ((rs.fails ≡ false) × (is.fails ≡ false) × LogsMatch c none none rs.commits is.commits)
        (run_from c rs is sched (initial c))
  unfolding run_from
  run_from-Verdict =
      let G = Good c rs.fails is.fails sched none none rs.commits is.commits in
      bind_ind (Verdict G) (main_loop c rs.fails is.fails sched rs.commits is.commits (initial c)) _
        (λ st' e passed.
          subst (Shown c rs.fails is.fails sched G) e
            (main_loop_shows c rs.fails is.fails sched none none rs.commits is.commits (initial c)
              (initial-IsClean c))
            (is_empty-true st'.results passed))
        (λ _ _. tt)

  iss_check_spoiled :
      (G : Type 0) (st : LoopState)
      → HasMismatch st
      → let (st₂, stop₂) = hash_check c iss c.expected_iss_sha256 is.sha256 st in
        Verdict G (if stop₂ then ok (result rs is st₂ false) else run_from c rs is sched st₂)
  iss_check_spoiled G st h =
      if_ind (Verdict G) (hash_check c iss c.expected_iss_sha256 is.sha256 st).1 (λ _ passed. cc)
        (λ _.
          run_from_spoiled G _ (hash_check-HasMismatch iss c.expected_iss_sha256 is.sha256 st h))

  compare-Verdict : Verdict (IsPassing c rs is) (compare c rs is sched)
  unfolding compare
  compare-Verdict = elim (Bool-cases (hash_differs c.expected_rtl_sha256 rs.sha256)) [
    | inl differs ↦
        let h : HasMismatch (hash_check c rtl c.expected_rtl_sha256 rs.sha256 (initial c)).0 =
          hash_check-differs rtl c.expected_rtl_sha256 rs.sha256 (initial c) differs in
        if_ind (Verdict (IsPassing c rs is))
          (hash_check c rtl c.expected_rtl_sha256 rs.sha256 (initial c)).1 (λ _ passed. cc)
          (λ _. iss_check_spoiled (IsPassing c rs is) _ h)
    | inr same_rtl ↦
        rw (hash_check-same rtl c.expected_rtl_sha256 rs.sha256 (initial c) same_rtl)
          (elim (Bool-cases (hash_differs c.expected_iss_sha256 is.sha256)) [
            | inl differs ↦
                if_ind (Verdict (IsPassing c rs is))
                  (hash_check c iss c.expected_iss_sha256 is.sha256 (initial c)).1 (λ _ passed. cc)
                  (λ _.
                    run_from_spoiled (IsPassing c rs is) _
                      (hash_check-differs iss c.expected_iss_sha256 is.sha256 (initial c) differs))
            | inr same_iss ↦
                rw (hash_check-same iss c.expected_iss_sha256 is.sha256 (initial c) same_iss) (
                  Verdict-map (run_from c rs is sched (initial c))
                    (λ reads. record {
                      rtl_hash = (hash_differs-false c.expected_rtl_sha256 rs.sha256).0 same_rtl;
                      iss_hash = (hash_differs-false c.expected_iss_sha256 is.sha256).0 same_iss;
                      rtl_reads = reads.0;
                      iss_reads = reads.1;
                      logs = reads.2;
                    })
                    run_from-Verdict)
          ])
  ]

  passes : IsPassing c rs is → Passes (compare c rs is sched)
  unfolding compare run_from
  passes p =
      let (st', e, done) =
        main_loop_passes c sched none none rs.commits is.commits (initial c) (initial-IsClean c)
          p.logs in
      let loop : main_loop c rs.fails is.fails sched rs.commits is.commits (initial c) ≡ ok st' =
        ap₂ (λ fr fi. main_loop c fr fi sched rs.commits is.commits (initial c)) p.rtl_reads
          p.iss_reads
        ∙ e in
      rw
        (hash_check-same rtl c.expected_rtl_sha256 rs.sha256 (initial c)
          ((hash_differs-false c.expected_rtl_sha256 rs.sha256).1 p.rtl_hash))
        (rw
          (hash_check-same iss c.expected_iss_sha256 is.sha256 (initial c)
            ((hash_differs-false c.expected_iss_sha256 is.sha256).1 p.iss_hash))
          (rw loop (_, refl, ap is_empty done)))

  -- A comparison returns a passing result exactly where both pinned hashes are met, no reader
  -- fails, both logs have as many commits, the steps of each log follow one another, and the
  -- commits at equal places pass the checks of a pair that the configuration leaves on
  -- (PassesChecks); whatever the limit on mismatches and the schedule.
  pub compare-Passes_exact : Passes (compare c rs is sched) ↔ IsPassing c rs is
  compare-Passes_exact =
      ((λ q. subst (Verdict (IsPassing c rs is)) q.1 compare-Verdict q.2), passes)

-- ===== src/Temporal/Past.antt =====
-- What the monitors of MRET and of SC.W promise of the pairs before.
use ai_chip_design_platform.Common.{
  ℕ, ◌<◌, leb, ◌==◌, ℤ, pos, eq_ℤ, eq_ℤ_iff, ltb_ℤ, ◌-ℤ◌, Bool, true, false, ◌&&◌, ◌||◌, not, some,
  List, [], ◌∷◌, ◌++◌, length, ◌≡◌, refl, sym, ap, subst, ◌∙◌, arith, if_ind, ◌⊎◌, inl, inr,
}
use ai_chip_design_platform.Temporal.Record.{CommitRecord, Pair}
use ai_chip_design_platform.Temporal.Monitors.{
  is_mret, is_trap, mret_after_trap, is_lr, is_sc, lr_before_sc,
}
use ai_chip_design_platform.Temporal.Checker.{
  TemporalViolation, CheckerState, new_checker, run_monitors, pairs_from, check_pairs, run, passes,
}
use ai_chip_design_platform.Temporal.Silence.{
  is_violation, run_monitors-trap_seen, run_monitors-lr_seen_at, run_monitors-silent,
}
use ai_chip_design_platform.Temporal.Verdicts.{
  mret_result_state, mret_result_silent, lr_result, lr_result_state, lr_result_silent,
}

-- Of the pairs before, the most recent first: the first test held of one, and the second of all since.
abbrev pub since : (Pair → Bool) → (Pair → Bool) → List Pair → Bool
since test meanwhile [] = false
since test meanwhile (p ∷ ps) = test p || (meanwhile p && since test meanwhile ps)

-- The pairs of a log, the most recent first, before older ones.
abbrev pub recent_first : List Pair → List Pair → List Pair
recent_first [] older = older
recent_first (p ∷ ps) older = recent_first ps (p ∷ older)

-- The checker behind the pairs of such a list.
abbrev pub after : List Pair → CheckerState
after [] = new_checker
after (p ∷ ps) = run_monitors p (after ps)

-- A trap that no MRET has consumed.
abbrev pub trap_open : List Pair → Bool
trap_open = since (λ p. is_trap p && not (is_mret p)) (λ p. not (is_mret p))

abbrev pub reserved_at : ℤ → List Pair → Bool
reserved_at s = since (λ p. is_lr p && eq_ℤ p.seq s) (λ p. not (is_lr p) && not (is_sc p))

-- `_trap_seen` says that a trap is open.
after-trap_seen : (ps : List Pair) → (after ps).trap_seen ≡ trap_open ps
unfolding mret_after_trap
after-trap_seen [] = refl
after-trap_seen (p ∷ ps) =
    run_monitors-trap_seen p (after ps)
    ∙ mret_result_state (is_trap p) (is_mret p) (after ps).trap_seen
    ∙ ap (λ b. (is_trap p && not (is_mret p)) || (not (is_mret p) && b)) (after-trap_seen ps)

-- `_lr_seen_at` is that of an LR since which there was neither an LR nor an SC.
after-reserved_at :
    (ps : List Pair) (s : ℤ)
    → (after ps).violations ≡ []
    → (after ps).lr_seen_at ≡ some s
    → reserved_at s ps ≡ true
unfolding lr_before_sc
after-reserved_at [] s h e = ground arith
after-reserved_at (p ∷ ps) s h e =
    let silent = run_monitors-silent p (after ps) h in
    since_step (is_lr p) (is_sc p)
      (lr_result_state (is_lr p) (is_sc p) p.seq s (after ps).lr_seen_at silent.2
        (sym (run_monitors-lr_seen_at p (after ps)) ∙ e))
      (after-reserved_at ps s silent.0)
  where
    since_step :
        (lr sc : Bool)
        → ((lr ≡ true) × (p.seq ≡ s))
          ⊎ ((lr ≡ false) × (sc ≡ false) × ((after ps).lr_seen_at ≡ some s))
        → ((after ps).lr_seen_at ≡ some s → reserved_at s ps ≡ true)
        → ((lr && eq_ℤ p.seq s) || ((not lr && not sc) && reserved_at s ps)) ≡ true
    since_step lr sc (inl h) f = found lr (eq_ℤ p.seq s) _ h.0 ((eq_ℤ_iff p.seq s).1 h.1)
      where
        found : (a b c : Bool) → a ≡ true → b ≡ true → ((a && b) || c) ≡ true
        found a b c h k = ground arith
    since_step lr sc (inr h) f = kept lr sc (reserved_at s ps) _ h.0 h.1 (f h.2)
      where
        kept :
            (a b c d : Bool)
            → a ≡ false
            → b ≡ false
            → c ≡ true
            → ((a && d) || ((not a && not b) && c)) ≡ true
        kept a b c d h k l = ground arith

-- A run without violations goes through all pairs.
module _ (max_violations : ℕ) (positive : 0 < max_violations) where
  check_pairs-step :
      (p : Pair) (ps older : List Pair)
      → (check_pairs max_violations (p ∷ ps) (after older)).violations ≡ []
      → (check_pairs max_violations ps (after (p ∷ older))).violations ≡ []
  unfolding check_pairs
  check_pairs-step p ps older =
      if_ind
        (λ (st : CheckerState).
          st.violations ≡ [] → (check_pairs max_violations ps (after (p ∷ older))).violations ≡ [])
        (leb max_violations (length (after older).violations))
        (λ e h. absurd (stopped (after older).violations h e)) (λ _ h. h)
    where
      stopped : (vs : List TemporalViolation) → vs ≡ [] → leb max_violations (length vs) ≡ true → ⊥
      stopped [] h e = ground arith
      stopped (v ∷ vs) h e = cc h

  check_pairs-append :
      (ps later older : List Pair)
      → (check_pairs max_violations (ps ++ later) (after older)).violations ≡ []
      → (check_pairs max_violations later (after (recent_first ps older))).violations ≡ []
  check_pairs-append [] later older h = h
  check_pairs-append (p ∷ ps) later older h =
      check_pairs-append ps later (p ∷ older) (check_pairs-step p (ps ++ later) older h)

  check_pairs-grows :
      (ps older : List Pair)
      → (check_pairs max_violations ps (after older)).violations ≡ []
      → (after older).violations ≡ []
  unfolding check_pairs
  check_pairs-grows [] older h = h
  check_pairs-grows (p ∷ ps) older h =
      (run_monitors-silent p (after older)
        (check_pairs-grows ps (p ∷ older) (check_pairs-step p ps older h))).0

  run_monitors-clean :
      (rtl_log iss_log : List CommitRecord) (before later : List Pair) (p : Pair)
      → passes (run max_violations rtl_log iss_log) ≡ true
      → pairs_from 0 rtl_log iss_log ≡ before ++ p ∷ later
      → (run_monitors p (after (recent_first before []))).violations ≡ []
  unfolding run
  run_monitors-clean rtl_log iss_log before later p h e =
      check_pairs-grows later (p ∷ recent_first before []) (
        check_pairs-step p later (recent_first before []) (
          check_pairs-append before (p ∷ later) [] (
            subst (λ ps. (check_pairs max_violations ps new_checker).violations ≡ []) e
              (none_left _ _ h))))
    where
      none_left :
          (vs : List TemporalViolation) (b : Bool) → ((length vs == 0) && b) ≡ true → vs ≡ []
      none_left [] b h = refl
      none_left (v ∷ vs) b h = ground arith

  -- If the limit of violations is positive and the checker passes two logs, each MRET is on a pair
  -- with a trap, or comes behind one, with no MRET since then.
  pub run-mret :
      (rtl_log iss_log : List CommitRecord) (before later : List Pair) (p : Pair)
      → passes (run max_violations rtl_log iss_log) ≡ true
      → pairs_from 0 rtl_log iss_log ≡ before ++ p ∷ later
      → is_mret p ≡ true
      → (is_trap p || trap_open (recent_first before [])) ≡ true
  unfolding mret_after_trap
  run-mret rtl_log iss_log before later p h e m =
      let older = recent_first before [] in
      let silent =
        run_monitors-silent p (after older)
          (run_monitors-clean rtl_log iss_log before later p h e) in
      subst (λ b. (is_trap p || b) ≡ true) (after-trap_seen older)
        (mret_result_silent (is_trap p) (is_mret p) (after older).trap_seen silent.1 m)

  -- If the limit of violations is positive and the checker passes two logs, each pair whose
  -- disassembly has sc.w, and not lr.w too, comes behind an LR.W, by at most 64 in `seq`, with
  -- neither an LR.W nor an SC.W since then.
  pub run-sc :
      (rtl_log iss_log : List CommitRecord) (before later : List Pair) (p : Pair)
      → passes (run max_violations rtl_log iss_log) ≡ true
      → pairs_from 0 rtl_log iss_log ≡ before ++ p ∷ later
      → is_lr p ≡ false
      → is_sc p ≡ true
      → (s : ℤ) × (ltb_ℤ (pos 64) (p.seq -ℤ s) ≡ false)
        × (reserved_at s (recent_first before []) ≡ true)
  unfolding lr_before_sc
  run-sc rtl_log iss_log before later p h e no_lr sc =
      let older = recent_first before [] in
      let silent =
        run_monitors-silent p (after older)
          (run_monitors-clean rtl_log iss_log before later p h e) in
      let found = lr_result_silent p.seq (after older).lr_seen_at (
        subst (λ b. is_violation (lr_result b true p.seq (after older).lr_seen_at).1 ≡ false) no_lr
          (subst
            (λ b. is_violation (lr_result (is_lr p) b p.seq (after older).lr_seen_at).1 ≡ false) sc
            silent.2)) in
      (found.0, found.2, after-reserved_at older found.0 silent.0 found.1)

-- ===== src/Interrupt/Conformance.antt =====
-- The verifier of AGENT_H/interrupt_verifier.py passes the traces of a pair of controllers, and no
-- others.
use ai_chip_design_platform.Common.{
  append_empty, ℕ, suc, ℤ, pos, eq_ℤ, true, none, some, List, [], ◌∷◌, ◌++◌, if◌then◌else◌, length,
  ◌==◌, ◌≡◌, refl, sym, ap, subst, ◌∙◌, ◌↔◌, arith, if_ind,
}
use ai_chip_design_platform.Interrupt.Plic as Plic
use ai_chip_design_platform.Interrupt.Clic as Clic
use ai_chip_design_platform.Interrupt.Plic.{PlicModel, new_plic}
use ai_chip_design_platform.Interrupt.Clic.{ClicModel, new_clic, level}
use ai_chip_design_platform.Interrupt.Ranking.{
  IsPlicClaim, IsClicClaim, plic_best-IsPlicClaim, IsPlicClaim-best, clic_best-IsClicClaim,
  IsClicClaim-best,
}
use ai_chip_design_platform.Interrupt.Verifier.{
  Event, config, clic_config, set_pending, claim, clic_claim, complete, clint, other, Check,
  InterruptVerifier, new_verifier, check_claim, check_clic_claim, mtip_issues, check_clint,
  check_event, events_from, run, passes,
}
use ai_chip_design_platform.Interrupt.Trace.{
  Step, configures, configures_clic, pends, pends_nothing, claims, claims_clic, completes, ticks,
  ignores, Conforms, ends, steps,
}
use ai_chip_design_platform.Interrupt.Silence.{
  claim_silent, clic_claim_silent, best_silent, clic_best_silent, IsTimely-silent,
  IsExpected-silent,
}

cleared : (dut golden : ℤ) → dut ≡ golden → (if eq_ℤ dut (pos 0) then golden else dut) ≡ golden
cleared dut golden h = if_ind (λ s. s ≡ golden) (eq_ℤ dut (pos 0)) (λ _. refl) (λ _. h)

check_event-Step :
    (i : ℕ) (e : Event) (v : InterruptVerifier)
    → (check_event i e v).violations ≡ []
    → (v.violations ≡ []) × Step v.plic v.clic e (check_event i e v).plic (check_event i e v).clic
unfolding check_event check_claim check_clic_claim check_clint
check_event-Step i (config priorities enables thresholds) v h = (h, configures)
check_event-Step i (clic_config nlbits ctl enables mintthresh) v h = (h, configures_clic)
check_event-Step i (set_pending none) v h = (h, pends_nothing)
check_event-Step i (set_pending (some s)) v h = (h, pends)
check_event-Step i (claim ctx none) v h = (h, claims (plic_best-IsPlicClaim v.plic ctx) tt)
check_event-Step i (claim ctx (some dut)) v h =
    let parts = append_empty v.violations _ h in
    let same = claim_silent v.plic i ctx dut parts.1 in
    (
      parts.0,
      subst (λ s. Step v.plic v.clic (claim ctx (some dut)) (Plic.clear_pending s v.plic) v.clic)
          (sym (cleared dut (Plic.best v.plic ctx) same))
          (claims (plic_best-IsPlicClaim v.plic ctx) same),
    )
check_event-Step i (clic_claim none) v h = (h, claims_clic (clic_best-IsClicClaim v.clic) tt)
check_event-Step i (clic_claim (some dut)) v h =
    let parts = append_empty v.violations _ h in
    let same = clic_claim_silent v.clic i dut parts.1 in
    (
      parts.0,
      subst (λ s. Step v.plic v.clic (clic_claim (some dut)) v.plic (Clic.clear_pending s v.clic))
          (sym (cleared dut (Clic.best v.clic) same))
          (claims_clic (clic_best-IsClicClaim v.clic) same),
    )
check_event-Step i complete v h = (h, completes)
check_event-Step i (clint mtime mtimecmp mtip msip expected) v h =
    let parts = append_empty v.violations _ h in
    let issues = append_empty (mtip_issues i mtime mtimecmp mtip) _ parts.1 in
    (
      parts.0,
      ticks ((IsTimely-silent i mtime mtimecmp mtip).0 issues.0)
          ((IsExpected-silent i msip expected).0 issues.1),
    )
check_event-Step i other v h = (h, ignores)

no_more : {xs ys : List (ℕ × Check)} → xs ≡ [] → ys ≡ [] → xs ++ ys ≡ []
no_more {ys = ys} h k = ap (λ xs. xs ++ ys) h ∙ k

-- What a step leaves, the verifier has behind the event.
abbrev Follows : InterruptVerifier → PlicModel → ClicModel → Type 0
Follows v plic clic = (v.violations ≡ []) × ((v.plic ≡ plic) × (v.clic ≡ clic))

Step-check_event :
    (i : ℕ) {e : Event} (v : InterruptVerifier) {plic : PlicModel} {clic : ClicModel}
    → Step v.plic v.clic e plic clic
    → v.violations ≡ []
    → Follows (check_event i e v) plic clic
unfolding check_event check_claim check_clic_claim check_clint
Step-check_event i v configures h = (h, (refl, refl))
Step-check_event i v configures_clic h = (h, (refl, refl))
Step-check_event i v pends h = (h, (refl, refl))
Step-check_event i v pends_nothing h = (h, (refl, refl))
Step-check_event i v (claims {ctx = ctx} {result = none} k a) h =
    (h, (ap (λ s. Plic.clear_pending s v.plic) (sym (IsPlicClaim-best v.plic ctx k)), refl))
Step-check_event i v (claims {ctx = ctx} {result = some dut} k a) h =
    let same = a ∙ IsPlicClaim-best v.plic ctx k in
    (
      no_more h (best_silent v.plic i ctx dut same (subst (IsPlicClaim v.plic ctx) (sym a) k)),
      (
        ap (λ s. Plic.clear_pending s v.plic)
            (cleared dut (Plic.best v.plic ctx) same ∙ sym (IsPlicClaim-best v.plic ctx k)),
        refl,
      ),
    )
Step-check_event i v (claims_clic {result = none} k a) h =
    (h, (refl, ap (λ s. Clic.clear_pending s v.clic) (sym (IsClicClaim-best v.clic k))))
Step-check_event i v (claims_clic {result = some dut} k a) h =
    let same = a ∙ IsClicClaim-best v.clic k in
    (
      no_more h (clic_best_silent v.clic i dut same (subst (IsClicClaim v.clic) (sym a) k)),
      (
        refl,
        ap (λ s. Clic.clear_pending s v.clic)
            (cleared dut (Clic.best v.clic) same ∙ sym (IsClicClaim-best v.clic k)),
      ),
    )
Step-check_event i v completes h = (h, (refl, refl))
Step-check_event i v (ticks {mtime = mtime} {mtimecmp} {mtip} {msip} {expected} t x) h = (
  no_more h (
      no_more ((IsTimely-silent i mtime mtimecmp mtip).1 t)
        ((IsExpected-silent i msip expected).1 x)),
  (refl, refl),
)
Step-check_event i v ignores h = (h, (refl, refl))

events_from-Conforms :
    (i : ℕ) (es : List Event) (v : InterruptVerifier)
    → (events_from i es v).violations ≡ []
    → (v.violations ≡ []) × Conforms v.plic v.clic es
events_from-Conforms i [] v h = (h, ends)
events_from-Conforms i (e ∷ es) v h =
    let rest = events_from-Conforms (suc i) es (check_event i e v) h in
    let first = check_event-Step i e v rest.0 in (first.0, steps first.1 rest.1)

Conforms-events_from :
    (i : ℕ) (es : List Event) (v : InterruptVerifier)
    → Conforms v.plic v.clic es
    → v.violations ≡ []
    → (events_from i es v).violations ≡ []
Conforms-events_from i [] v ends h = h
Conforms-events_from i (e ∷ es) v (steps {plic' = after} s rest) h =
    let first = Step-check_event i v s h in
    Conforms-events_from (suc i) es (check_event i e v)
      (subst (λ plic. Conforms plic (check_event i e v).clic es) (sym first.1.0)
        (subst (λ clic. Conforms after clic es) (sym first.1.1) rest))
      first.0

-- A trace of interrupt events passes the verifier if and only if it is a sequence of steps of the two
-- controllers: each claim returns the source that precedes every claimable one, or 0 without any,
-- and the timer and software interrupts are as the times and expectations say.
pub passes_iff-Conforms :
    (events : List Event) → (passes (run events) ≡ true) ↔ Conforms new_plic new_clic events
unfolding passes run
passes_iff-Conforms events = (
  λ h. (events_from-Conforms 0 events new_verifier (none_left _ h)).1,
  λ c. ap (λ xs. length xs == 0) (Conforms-events_from 0 events new_verifier c refl),
)
  where
    none_left : (xs : List (ℕ × Check)) → (length xs == 0) ≡ true → xs ≡ []
    none_left [] h = refl
    none_left (x ∷ xs) h = ground arith

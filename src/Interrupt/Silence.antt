-- ===== src/Interrupt/Silence.antt =====
-- When the checks of an event report nothing.
use ai_chip_design_platform.Common.{
  append_empty, ℕ, ltb, leb, ltb_ℤ, leb_ℤ, ℤ, pos, eq_ℤ, eq_ℤ_iff, Bool, true, false, not, eq_bool,
  Option, none, some, List, [], ◌++◌, if◌then◌else◌, contains, ◌&&◌, ◌≡◌, refl, ◌↔◌, arith,
}
use ai_chip_design_platform.Interrupt.Sources.{Context}
use ai_chip_design_platform.Interrupt.Plic as Plic
use ai_chip_design_platform.Interrupt.Clic as Clic
use ai_chip_design_platform.Interrupt.Plic.{PlicModel, new_plic}
use ai_chip_design_platform.Interrupt.Clic.{ClicModel, new_clic, level}
use ai_chip_design_platform.Interrupt.Ranking.{IsPlicClaim, IsClicClaim, no_source, source}
use ai_chip_design_platform.Interrupt.Verifier.{
  Check, flag_if, claim_issues, clic_claim_issues, mtip_issues, msip_issues, plic_claim_wrong,
  plic_priority0, plic_threshold, clic_arbitration, clic_disabled, clic_threshold, clint_mtip,
  clint_msip,
}
use ai_chip_design_platform.Interrupt.Trace.{IsTimely, IsExpected}

flag_if_silent : (b : Bool) (i : ℕ) (check : Check) → flag_if b i check ≡ [] → b ≡ false
flag_if_silent false i check h = refl
flag_if_silent true i check h = cc

flag_unless :
    (i : ℕ) (check : Check) (a b : Bool) → (flag_if (not (eq_bool a b)) i check ≡ []) ↔ (a ≡ b)
flag_unless i check true true = (λ _. refl, λ _. refl)
flag_unless i check true false = (λ h. cc, λ h. cc)
flag_unless i check false true = (λ h. cc, λ h. cc)
flag_unless i check false false = (λ _. refl, λ _. refl)

of_not : (b : Bool) → not b ≡ false → b ≡ true
of_not b h = ground arith

-- A claim of another source is reported.
pub claim_silent :
    (plic : PlicModel) (i : ℕ) (ctx : Context) (dut : ℤ)
    → claim_issues plic i ctx dut ≡ []
    → dut ≡ Plic.best plic ctx
claim_silent plic i ctx dut h =
    (eq_ℤ_iff dut (Plic.best plic ctx)).0 (of_not _ (flag_if_silent _ i _ (append_empty _ _ h).0))

pub clic_claim_silent :
    (clic : ClicModel) (i : ℕ) (dut : ℤ) → clic_claim_issues clic i dut ≡ [] → dut ≡ Clic.best clic
clic_claim_silent clic i dut h =
    (eq_ℤ_iff dut (Clic.best clic)).0 (of_not _ (flag_if_silent _ i _ (append_empty _ _ h).0))

-- The source that a model claims passes the three checks of the claim.
abbrev three : Bool → Bool → Bool → Bool → ℕ → Check → Check → Check → List (ℕ × Check)
three wrong zero first second i c d e =
    flag_if wrong i c ++ (if zero then [] else flag_if first i d ++ flag_if second i e)

three_silent :
    (wrong zero first second : Bool) (i : ℕ) (c d e : Check)
    → wrong ≡ false
    → (zero ≡ false → first ≡ false)
    → (zero ≡ false → second ≡ false)
    → three wrong zero first second i c d e ≡ []
three_silent true zero first second i c d e h f g = cc
three_silent false true first second i c d e h f g = refl
three_silent false false true second i c d e h f g = cc (f refl)
three_silent false false false true i c d e h f g = cc (g refl)
three_silent false false false false i c d e h f g = refl

not_wrong : (dut golden : ℤ) → dut ≡ golden → not (eq_ℤ dut golden) ≡ false
not_wrong dut golden h = ground (arith, eq_ℤ_iff dut golden)

pub best_silent :
    (plic : PlicModel) (i : ℕ) (ctx : Context) (dut : ℤ)
    → dut ≡ Plic.best plic ctx
    → IsPlicClaim plic ctx dut
    → claim_issues plic i ctx dut ≡ []
best_silent plic i ctx dut same h =
    three_silent (not (eq_ℤ dut (Plic.best plic ctx))) (eq_ℤ dut (pos 0))
      (eq_ℤ (plic.prio dut) (pos 0)) (leb_ℤ (plic.prio dut) (plic.thresh ctx)) i plic_claim_wrong
      plic_priority0 plic_threshold (not_wrong dut (Plic.best plic ctx) same) (λ z. (checks h z).0)
      (λ z. (checks h z).1)
  where
    passing :
        (enabled : Bool) (p t : ℤ)
        → (enabled && (ltb_ℤ t p && ltb_ℤ (pos 0) p)) ≡ true
        → (eq_ℤ p (pos 0) ≡ false) × (leb_ℤ p t ≡ false)
    passing enabled p t h = (ground arith, ground arith)

    checks :
        {s : ℤ}
        → IsPlicClaim plic ctx s
        → eq_ℤ s (pos 0) ≡ false
        → (eq_ℤ (plic.prio s) (pos 0) ≡ false) × (leb_ℤ (plic.prio s) (plic.thresh ctx) ≡ false)
    checks (no_source f) z = cc
    checks (source {s = s} k p) z =
        passing (contains eq_ℤ s (plic.enable ctx)) (plic.prio s) (plic.thresh ctx) k.1

pub clic_best_silent :
    (clic : ClicModel) (i : ℕ) (dut : ℤ)
    → dut ≡ Clic.best clic
    → IsClicClaim clic dut
    → clic_claim_issues clic i dut ≡ []
clic_best_silent clic i dut same h =
    three_silent (not (eq_ℤ dut (Clic.best clic))) (eq_ℤ dut (pos 0))
      (not (contains eq_ℤ dut clic.enable))
      (leb (level clic (clic.ctl dut)) (level clic clic.thresh)) i clic_arbitration clic_disabled
      clic_threshold (not_wrong dut (Clic.best clic) same) (λ z. (checks h z).0)
      (λ z. (checks h z).1)
  where
    passing :
        (enabled : Bool) (m n : ℕ)
        → (enabled && ltb n m) ≡ true
        → (not enabled ≡ false) × (leb m n ≡ false)
    passing enabled m n h = (ground arith, ground arith)

    checks :
        {s : ℤ}
        → IsClicClaim clic s
        → eq_ℤ s (pos 0) ≡ false
        → (not (contains eq_ℤ s clic.enable) ≡ false)
          × (leb (level clic (clic.ctl s)) (level clic clic.thresh) ≡ false)
    checks (no_source f) z = cc
    checks (source {s = s} k p) z =
        passing (contains eq_ℤ s clic.enable) (level clic (clic.ctl s)) (level clic clic.thresh) k.1

pub IsTimely-silent :
    (i : ℕ) (mtime mtimecmp : Option ℤ) (mtip : Option Bool)
    → (mtip_issues i mtime mtimecmp mtip ≡ []) ↔ IsTimely mtime mtimecmp mtip
IsTimely-silent i none mtimecmp mtip = (λ _. tt, λ _. refl)
IsTimely-silent i (some mtime) none mtip = (λ _. tt, λ _. refl)
IsTimely-silent i (some mtime) (some mtimecmp) none = (λ _. tt, λ _. refl)
IsTimely-silent i (some mtime) (some mtimecmp) (some mtip) =
    flag_unless i clint_mtip mtip (leb_ℤ mtimecmp mtime)

pub IsExpected-silent :
    (i : ℕ) (msip expected : Option Bool)
    → (msip_issues i msip expected ≡ []) ↔ IsExpected msip expected
IsExpected-silent i none expected = (λ _. tt, λ _. refl)
IsExpected-silent i (some msip) none = (λ _. tt, λ _. refl)
IsExpected-silent i (some msip) (some expected) = flag_unless i clint_msip msip expected

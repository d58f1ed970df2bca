-- ===== src/Interrupt/Trace.antt =====
-- The traces of events that a pair of interrupt controllers can make.
use ai_chip_design_platform.Common.{leb_ℤ, ℤ, Bool, Option, none, some, List, [], ◌∷◌, ◌≡◌}
use ai_chip_design_platform.Interrupt.Sources.{Context}
use ai_chip_design_platform.Interrupt.Plic as Plic
use ai_chip_design_platform.Interrupt.Clic as Clic
use ai_chip_design_platform.Interrupt.Plic.{PlicModel, new_plic}
use ai_chip_design_platform.Interrupt.Clic.{ClicModel, new_clic, level}
use ai_chip_design_platform.Interrupt.Ranking.{IsPlicClaim, IsClicClaim}
use ai_chip_design_platform.Interrupt.Verifier.{
  Event, config, clic_config, set_pending, claim, clic_claim, complete, clint, other,
}

-- What a trace tells of a claim, if it does, is the claimed source.
abbrev pub Answers : Option ℤ → ℤ → Type 0
Answers none s = Unit
Answers (some dut) s = dut ≡ s

-- The timer interrupt is pending if the time has come, and the software interrupt as expected.
abbrev pub IsTimely : Option ℤ → Option ℤ → Option Bool → Type 0
IsTimely (some mtime) (some mtimecmp) (some mtip) = mtip ≡ leb_ℤ mtimecmp mtime
IsTimely _ _ _ = Unit

abbrev pub IsExpected : Option Bool → Option Bool → Type 0
IsExpected (some msip) (some expected) = msip ≡ expected
IsExpected _ _ = Unit

-- A step of the two controllers.
pub data Step (plic : PlicModel) (clic : ClicModel) : Event → PlicModel → ClicModel → Type 0 where
  configures :
      {priorities : List (Option ℤ × Option ℤ)} {enables : List (Context × List (Option ℤ))}
      {thresholds : List (Context × Option ℤ)}
      → Step plic clic
          (config priorities enables thresholds)
          (Plic.configure priorities enables thresholds plic)
          clic
  configures_clic :
      {nlbits : Option ℤ} {ctl : List (Option ℤ × Option ℤ)} {enables : Option (List (Option ℤ))}
      {mintthresh : Option ℤ}
      → Step plic clic
          (clic_config nlbits ctl enables mintthresh)
          plic
          (Clic.configure nlbits ctl enables mintthresh clic)
  pends :
      {s : ℤ}
      → Step plic clic (set_pending (some s)) (Plic.set_pending s plic) (Clic.set_pending s clic)
  pends_nothing : Step plic clic (set_pending none) plic clic
  claims :
      {ctx : Context} {result : Option ℤ} {s : ℤ}
      → IsPlicClaim plic ctx s
      → Answers result s
      → Step plic clic (claim ctx result) (Plic.clear_pending s plic) clic
  claims_clic :
      {result : Option ℤ} {s : ℤ}
      → IsClicClaim clic s
      → Answers result s
      → Step plic clic (clic_claim result) plic (Clic.clear_pending s clic)
  completes : Step plic clic complete plic clic
  ticks :
      {mtime mtimecmp : Option ℤ} {mtip msip expected : Option Bool}
      → IsTimely mtime mtimecmp mtip
      → IsExpected msip expected
      → Step plic clic (clint mtime mtimecmp mtip msip expected) plic clic
  ignores : Step plic clic other plic clic

pub data Conforms : PlicModel → ClicModel → List Event → Type 0 where
  ends : {plic : PlicModel} {clic : ClicModel} → Conforms plic clic []
  steps :
      {plic plic' : PlicModel} {clic clic' : ClicModel} {e : Event} {es : List Event}
      → Step plic clic e plic' clic'
      → Conforms plic' clic' es
      → Conforms plic clic (e ∷ es)

-- ===== src/Interrupt/Samples.antt =====
-- A trace with three claims on two controllers, one of them wrong.
use ai_chip_design_platform.Common.{pos, true, false, none, some, List, [], ◌∷◌, ◌≡◌, refl}
use ai_chip_design_platform.Comparator.Hex.{mask_to}
use ai_chip_design_platform.Interrupt.Sources.{number}
use ai_chip_design_platform.Interrupt.Plic as Plic
use ai_chip_design_platform.Interrupt.Clic as Clic
use ai_chip_design_platform.Interrupt.Plic.{new_plic}
use ai_chip_design_platform.Interrupt.Clic.{new_clic, level}
use ai_chip_design_platform.Interrupt.Verifier.{
  Event, config, clic_config, set_pending, claim, clic_claim, clint, complete, plic_claim_wrong,
  plic_threshold, check_claim, check_clic_claim, check_clint, check_event, run, passes,
}
use ai_chip_design_platform.Interrupt.Trace.{Conforms}
use ai_chip_design_platform.Interrupt.Conformance.{passes_iff-Conforms}

controllers : Unit {0}
unfolding mask_to Plic.best Clic.best level check_claim check_clic_claim check_clint check_event run
    passes
controllers = tt

-- Sources 1 and 3 have priority 5, source 2 priority 1, under the threshold 2.
abbrev settings : Event
settings =
    config
      ((some (pos 1), some (pos 5))
        ∷ (some (pos 2), some (pos 1))
        ∷ (some (pos 3), some (pos 5))
        ∷ [])
      ((number (pos 0), some (pos 1) ∷ some (pos 2) ∷ some (pos 3) ∷ []) ∷ [])
      ((number (pos 0), some (pos 2)) ∷ [])

abbrev clic_settings : Event
clic_settings =
    clic_config (some (pos 4)) ((some (pos 1), some (pos 64)) ∷ (some (pos 3), some (pos 65)) ∷ [])
      (some (some (pos 1) ∷ some (pos 3) ∷ [])) (some (pos 32))

abbrev arrivals : List Event → List Event
arrivals es =
    settings
    ∷ clic_settings
    ∷ set_pending (some (pos 3))
    ∷ set_pending (some (pos 2))
    ∷ set_pending (some (pos 1))
    ∷ es

-- The lower of two numbers of one priority comes first, and of two levels the higher value.
abbrev good_trace : List Event
good_trace = arrivals (
    claim (number (pos 0)) (some (pos 1))
    ∷ clic_claim (some (pos 3))
    ∷ claim (number (pos 0)) none
    ∷ complete
    ∷ clint (some (pos 9)) (some (pos 7)) (some true) (some false) (some false)
    ∷ claim (number (pos 0)) (some (pos 0))
    ∷ [])

good_trace-passes : passes (run good_trace) ≡ true
unfolding controllers
good_trace-passes = refl

-- Source 2 is under the threshold.
bad_trace_fails :
    (run (arrivals (claim (number (pos 0)) (some (pos 2)) ∷ []))).violations
    ≡ (5, plic_claim_wrong) ∷ (5, plic_threshold) ∷ []
unfolding controllers
bad_trace_fails = refl

passes_iff-Conforms_example : Conforms new_plic new_clic good_trace
passes_iff-Conforms_example = (passes_iff-Conforms good_trace).0 good_trace-passes

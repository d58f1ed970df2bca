-- ===== src/Comparator/Steps.antt =====
-- The step-number validator of one side (`_StepValidator`).
pub mod Sequence
use ai_chip_design_platform.Common.{
  ℤ, pos, ◌+ℤ◌, ◌-ℤ◌, eq_ℤ, Option, none, some, List, [], ◌∷◌, contains, if◌then◌else◌,
}

-- `_last` and `_seen`.
pub record StepValidator : Type 0 where
  pub last : Option ℤ
  pub seen : List ℤ

abbrev pub fresh : StepValidator
fresh = record { last = none; seen = [] }

-- How an anomaly reads: a repeated step with the last one, or a step other than the expected one.
pub data Anomaly : Type 0 where
  duplicate : (step last : ℤ) → Anomaly
  discontinuity : (step expected : ℤ) → Anomaly

abbrev last_or : Option ℤ → ℤ → ℤ
last_or none step = step -ℤ pos 1
last_or (some last) step = last

unfoldable pub check : ℤ → StepValidator → Option Anomaly × StepValidator
check step v =
    let last = last_or v.last step in
    let after : StepValidator = record { last = some step; seen = step ∷ v.seen } in
    if contains eq_ℤ step v.seen
    then (some (duplicate step last), after)
    else if eq_ℤ step (last +ℤ pos 1)
    then (none, after)
    else (some (discontinuity step (last +ℤ pos 1)), after)

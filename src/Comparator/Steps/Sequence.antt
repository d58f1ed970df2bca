-- ===== src/Comparator/Steps/Sequence.antt =====
-- The validator is silent exactly while each step is the successor of the one before.
use ai_chip_design_platform.Common.{
  ◌+◌, ◌≤◌, ℤ, pos, pos_part, neg_part, ◌+ℤ◌, ◌-ℤ◌, eq_ℤ, eq_ℤ_iff, -ℤ_+ℤ_cancel, +ℤ_parts, arith,
  false, Option, none, some, List, [], ◌∷◌, ◌≡◌, ◌↔◌, refl, contains, All, sym,
}
use ai_chip_design_platform.Comparator.Steps.{StepValidator, check}

-- The first commit of a log may have any step.
abbrev pub Expected : Option ℤ → ℤ → Type 0
Expected none step = Unit
Expected (some last) step = step ≡ last +ℤ pos 1

abbrev NotAbove : ℤ → ℤ → Type 0
NotAbove last step = pos_part step + neg_part last ≤ pos_part last + neg_part step

-- No step that was seen lies above the last one.
abbrev pub Behind : Option ℤ → List ℤ → Type 0
Behind none seen = seen ≡ []
Behind (some last) seen = All (NotAbove last) seen

abbrev pub IsSequential : StepValidator → Type 0
IsSequential v = Behind v.last v.seen

contains-above :
    (last step : ℤ) (seen : List ℤ)
    → All (NotAbove last) seen
    → step ≡ last +ℤ pos 1
    → contains eq_ℤ step seen ≡ false
contains-above last step [] h e = refl
contains-above last step (x ∷ seen) h e =
    grind (arith, contains-above last step seen h.1 e, eq_ℤ_iff step x, +ℤ_parts last (pos 1), h.0)

All-NotAbove_step :
    (last step : ℤ) (seen : List ℤ)
    → step ≡ last +ℤ pos 1
    → All (NotAbove last) seen
    → All (NotAbove step) seen
All-NotAbove_step last step [] e h = tt
All-NotAbove_step last step (x ∷ seen) e h =
    (rw e (omega (arith, +ℤ_parts last (pos 1), h.0)), All-NotAbove_step last step seen e h.1)

-- What the validator remembers of an accepted step.
abbrev pub advance : ℤ → StepValidator → StepValidator
advance step v = record { last = some step; seen = step ∷ v.seen }

check_silent_after :
    (last step : ℤ) (seen : List ℤ)
    → All (NotAbove last) seen
    → ((check step (record { last = some last; seen = seen })).0 ≡ none) ↔ (step ≡ last +ℤ pos 1)
unfolding check
check_silent_after last step seen h =
    ground (arith, contains-above last step seen h, eq_ℤ_iff step (last +ℤ pos 1))

check_silent_first : (step : ℤ) → (check step (record { last = none; seen = [] })).0 ≡ none
unfolding check
check_silent_first step =
    rw ((eq_ℤ_iff step (step -ℤ pos 1 +ℤ pos 1)).1 (sym (-ℤ_+ℤ_cancel step (pos 1))))

-- In a sequential state a step passes exactly if it is the expected one.
pub check_silent :
    (last : Option ℤ) (seen : List ℤ) (step : ℤ)
    → Behind last seen
    → ((check step (record { last = last; seen = seen })).0 ≡ none) ↔ Expected last step
check_silent none seen step h = ((λ _. tt), λ _. rw h (check_silent_first step))
check_silent (some last) seen step h = check_silent_after last step seen h

-- Every step is remembered, and an expected one leaves the state sequential.
pub check_after : (step : ℤ) (v : StepValidator) → (check step v).1 ≡ advance step v
unfolding check
check_after step v = ground arith

pub advance-IsSequential :
    (last : Option ℤ) (seen : List ℤ) (step : ℤ)
    → Behind last seen
    → Expected last step
    → Behind (some step) (step ∷ seen)
advance-IsSequential none seen step h e = (omega arith, rw h tt)
advance-IsSequential (some last) seen step h e = (omega arith, All-NotAbove_step last step seen e h)

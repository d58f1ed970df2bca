-- ===== src/Temporal/Verdicts.antt =====
-- The verdicts of the monitors of MRET and of SC.W, by their tests.
use ai_chip_design_platform.Common.{
  ℤ, pos, ltb_ℤ, ◌-ℤ◌, Bool, true, false, ◌&&◌, ◌||◌, not, Option, none, some, ◌≡◌, refl, arith,
  ◌⊎◌, inl, inr, if◌then◌else◌,
}
use ai_chip_design_platform.Temporal.Monitors.{Verdict, holds, violated, in_window}
use ai_chip_design_platform.Temporal.Silence.{is_violation}

abbrev pub mret_result : (trap mret seen : Bool) → Bool × Verdict
mret_result trap mret seen =
    if mret
    then if (if trap then true else seen) then (false, holds) else (false, violated)
    else (if trap then true else seen, holds)

pub mret_result_state :
    (trap mret seen : Bool)
    → (mret_result trap mret seen).0 ≡ ((trap && not mret) || (not mret && seen))
mret_result_state true true seen = refl
mret_result_state true false seen = refl
mret_result_state false true true = refl
mret_result_state false true false = refl
mret_result_state false false seen = refl

pub mret_result_silent :
    (trap mret seen : Bool)
    → is_violation (mret_result trap mret seen).1 ≡ false
    → mret ≡ true
    → (trap || seen) ≡ true
mret_result_silent true mret seen h e = refl
mret_result_silent false true true h e = refl
mret_result_silent false true false h e = ground arith
mret_result_silent false false seen h e = cc

abbrev pub lr_result : (lr sc : Bool) (seq : ℤ) → Option ℤ → Option ℤ × Verdict
lr_result lr sc seq seen =
    if lr then (some seq, holds) else if sc then in_window (pos 64) seq seen else (seen, holds)

-- What is reserved behind a step that reports nothing.
pub lr_result_state :
    (lr sc : Bool) (seq s : ℤ) (seen : Option ℤ)
    → is_violation (lr_result lr sc seq seen).1 ≡ false
    → (lr_result lr sc seq seen).0 ≡ some s
    → ((lr ≡ true) × (seq ≡ s)) ⊎ ((lr ≡ false) × (sc ≡ false) × (seen ≡ some s))
lr_result_state true sc seq s seen h e = inl (refl, cc e)
lr_result_state false true seq s none h e = ground arith
lr_result_state false true seq s (some r) h e = absurd (used (ltb_ℤ (pos 64) (seq -ℤ r)) h e)
  where
    used :
        (late : Bool)
        → is_violation
            (if◌then◌else◌ {A = Option ℤ × Verdict} late (some r, violated) (none, holds)).1
          ≡ false
        → (if◌then◌else◌ {A = Option ℤ × Verdict} late (some r, violated) (none, holds)).0 ≡ some s
        → ⊥
    used true h e = ground arith
    used false h e = ground arith
lr_result_state false false seq s seen h e = inr (refl, refl, e)

pub lr_result_silent :
    (seq : ℤ) (seen : Option ℤ)
    → is_violation (lr_result false true seq seen).1 ≡ false
    → (s : ℤ) × (seen ≡ some s) × (ltb_ℤ (pos 64) (seq -ℤ s) ≡ false)
lr_result_silent seq none h = ground arith
lr_result_silent seq (some r) h = (r, refl, late (ltb_ℤ (pos 64) (seq -ℤ r)) h)
  where
    late :
        (b : Bool)
        → is_violation (if◌then◌else◌ {A = Option ℤ × Verdict} b (some r, violated) (none, holds)).1
          ≡ false
        → b ≡ false
    late true h = ground arith
    late false h = refl

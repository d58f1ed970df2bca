-- ===== src/Interrupt/Plic.antt =====
-- The platform-level controller (`PLICModel` of AGENT_H/interrupt_verifier.py).
use ai_chip_design_platform.Common.{
  ℤ, pos, eq_ℤ, ltb_ℤ, Bool, ◌&&◌, ◌||◌, Option, none, some, List, [], ◌∷◌, contains,
}
use ai_chip_design_platform.Interrupt.Arbitration.{filter, greatest_or_zero}
use ai_chip_design_platform.Interrupt.Sources.{
  Context, eq_context, add_source, discard_source, sources_of, set_key,
}

-- `prio`, `enable` and `thresh` are read by `get` with the default 0 or the empty set alone: so
-- each is the function from the keys to what `get` returns.
pub record PlicModel : Type 0 where
  pub prio : ℤ → ℤ
  pub enable : Context → List ℤ
  pub thresh : Context → ℤ
  pub pending : List ℤ

abbrev pub new_plic : PlicModel
new_plic = record { prio = λ _. pos 0; enable = λ _. []; thresh = λ _. pos 0; pending = [] }

-- The three loops of `PLICModel.configure`.
abbrev pub set_priorities : List (Option ℤ × Option ℤ) → (ℤ → ℤ) → ℤ → ℤ
set_priorities [] prio = prio
set_priorities ((some s, some p) ∷ items) prio = set_priorities items (set_key eq_ℤ s p prio)
set_priorities ((some s, none) ∷ items) prio = set_priorities items prio
set_priorities ((none, _) ∷ items) prio = set_priorities items prio

abbrev pub set_enables : List (Context × List (Option ℤ)) → (Context → List ℤ) → Context → List ℤ
set_enables [] enable = enable
set_enables ((ctx, srcs) ∷ items) enable =
    set_enables items (set_key eq_context ctx (sources_of srcs) enable)

abbrev pub set_thresholds : List (Context × Option ℤ) → (Context → ℤ) → Context → ℤ
set_thresholds [] thresh = thresh
set_thresholds ((ctx, some t) ∷ items) thresh =
    set_thresholds items (set_key eq_context ctx t thresh)
set_thresholds ((ctx, none) ∷ items) thresh = set_thresholds items thresh

abbrev pub configure :
    (priorities : List (Option ℤ × Option ℤ)) (enables : List (Context × List (Option ℤ)))
    (thresholds : List (Context × Option ℤ))
    → PlicModel
    → PlicModel
configure priorities enables thresholds plic = record plic {
  prio = set_priorities priorities plic.prio;
  enable = set_enables enables plic.enable;
  thresh = set_thresholds thresholds plic.thresh;
}

abbrev pub set_pending : ℤ → PlicModel → PlicModel
set_pending s plic = record plic { pending = add_source s plic.pending }

abbrev pub clear_pending : ℤ → PlicModel → PlicModel
clear_pending s plic = record plic { pending = discard_source s plic.pending }

-- The test of a pending source in `best`.
abbrev pub claimable : PlicModel → Context → ℤ → Bool
claimable plic ctx s =
    contains eq_ℤ s (plic.enable ctx)
    && (ltb_ℤ (plic.thresh ctx) (plic.prio s) && ltb_ℤ (pos 0) (plic.prio s))

-- `(prio.get(s, 0), -s)` is greater than that of `t`.
abbrev pub above : PlicModel → ℤ → ℤ → Bool
above plic s t =
    ltb_ℤ (plic.prio t) (plic.prio s) || (eq_ℤ (plic.prio s) (plic.prio t) && ltb_ℤ s t)

unfoldable pub best : PlicModel → Context → ℤ
best plic ctx = greatest_or_zero (above plic) (filter (claimable plic ctx) plic.pending)

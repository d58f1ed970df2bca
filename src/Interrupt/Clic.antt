-- ===== src/Interrupt/Clic.antt =====
-- The core-local controller (`CLICModel` of AGENT_H/interrupt_verifier.py).
use ai_chip_design_platform.Common.{
  ℕ, ◌-◌, ◌/◌, ◌^◌, min, ltb, ◌==◌, ℤ, pos, negsuc, eq_ℤ, ltb_ℤ, Bool, ◌&&◌, ◌||◌, Option, none,
  some, List, [], ◌∷◌, if◌then◌else◌, contains,
}
use ai_chip_design_platform.Comparator.Hex.{mask_to}
use ai_chip_design_platform.Interrupt.Arbitration.{filter, greatest_or_zero}
use ai_chip_design_platform.Interrupt.Sources.{add_source, discard_source, sources_of, set_key}

pub record ClicModel : Type 0 where
  pub nlbits : ℕ
  pub ctl : ℤ → ℕ
  pub enable : List ℤ
  pub thresh : ℕ
  pub pending : List ℤ

abbrev pub new_clic : ClicModel
new_clic = record { nlbits = 8; ctl = λ _. 0; enable = []; thresh = 0; pending = [] }

abbrev clamp : ℤ → ℕ
clamp (pos n) = min 8 n
clamp (negsuc n) = 0

abbrev set_nlbits : Option ℤ → ℕ → ℕ
set_nlbits none nlbits = nlbits
set_nlbits (some n) nlbits = clamp n

abbrev set_ctl : List (Option ℤ × Option ℤ) → (ℤ → ℕ) → ℤ → ℕ
set_ctl [] ctl = ctl
set_ctl ((some s, some c) ∷ items) ctl = set_ctl items (set_key eq_ℤ s (mask_to 8 c) ctl)
set_ctl ((some s, none) ∷ items) ctl = set_ctl items ctl
set_ctl ((none, _) ∷ items) ctl = set_ctl items ctl

abbrev set_enabled : Option (List (Option ℤ)) → List ℤ → List ℤ
set_enabled none enable = enable
set_enabled (some srcs) enable = sources_of srcs

abbrev set_threshold : Option ℤ → ℕ → ℕ
set_threshold none thresh = thresh
set_threshold (some t) thresh = mask_to 8 t

abbrev pub configure :
    (nlbits : Option ℤ) (ctl : List (Option ℤ × Option ℤ)) (enables : Option (List (Option ℤ)))
    (mintthresh : Option ℤ)
    → ClicModel
    → ClicModel
configure nlbits ctl enables mintthresh clic = record clic {
  nlbits = set_nlbits nlbits clic.nlbits;
  ctl = set_ctl ctl clic.ctl;
  enable = set_enabled enables clic.enable;
  thresh = set_threshold mintthresh clic.thresh;
}

abbrev pub set_pending : ℤ → ClicModel → ClicModel
set_pending s clic = record clic { pending = add_source s clic.pending }

abbrev pub clear_pending : ℤ → ClicModel → ClicModel
clear_pending s clic = record clic { pending = discard_source s clic.pending }

unfoldable pub level : ClicModel → ℕ → ℕ
level clic c = if clic.nlbits == 0 then 0 else c / 2 ^ (8 - clic.nlbits)

abbrev pub claimable : ClicModel → ℤ → Bool
claimable clic s =
    contains eq_ℤ s clic.enable && ltb (level clic clic.thresh) (level clic (clic.ctl s))

-- `(ctl.get(s, 0), s)` is greater than that of `t`.
abbrev pub above : ClicModel → ℤ → ℤ → Bool
above clic s t = ltb (clic.ctl t) (clic.ctl s) || ((clic.ctl s == clic.ctl t) && ltb_ℤ t s)

unfoldable pub best : ClicModel → ℤ
best clic = greatest_or_zero (above clic) (filter (claimable clic) clic.pending)

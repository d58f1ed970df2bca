-- ===== src/Interrupt/Sources.antt =====
-- Contexts, sets of sources and dicts of the controllers of AGENT_H/interrupt_verifier.py. A value of
-- JSON that `_to_int` reads is given by what it makes of it.
use ai_chip_design_platform.Common.{
  ℤ, eq_ℤ, Bool, true, false, Option, none, some, List, [], ◌∷◌, String, str_eq, if◌then◌else◌,
  contains,
}
use ai_chip_design_platform.Interrupt.Arbitration.{filter}

-- A context as the events name it: what `_to_int` reads, else a text, or None.
pub data Context : Type 0 where
  number : ℤ → Context
  named : String → Context
  missing : Context

abbrev pub eq_context : Context → Context → Bool
eq_context (number a) (number b) = eq_ℤ a b
eq_context (named a) (named b) = str_eq a b
eq_context missing missing = true
eq_context _ _ = false

-- Sets of sources
abbrev pub add_source : ℤ → List ℤ → List ℤ
add_source s ss = if contains eq_ℤ s ss then ss else s ∷ ss

abbrev pub discard_source : ℤ → List ℤ → List ℤ
discard_source s ss = filter (λ t. if eq_ℤ t s then false else true) ss

abbrev pub sources_of : List (Option ℤ) → List ℤ
sources_of [] = []
sources_of (none ∷ ss) = sources_of ss
sources_of (some s ∷ ss) = add_source s (sources_of ss)

-- `d[key] = val`, for a dict that is read by `get`
abbrev pub set_key {ℓ κ} : {K : Type ℓ} {V : Type κ} → (K → K → Bool) → K → V → (K → V) → K → V
set_key eq key val dict k = if eq k key then val else dict k

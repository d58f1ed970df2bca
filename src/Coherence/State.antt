-- ===== src/Coherence/State.antt =====
-- The events of several cores, and what `CoherenceVerifier.run` of AGENT_H/coherence_verifier.py keeps
-- of them. The fields of an event are given by what `get` and `_to_int` make of them.
use ai_chip_design_platform.Common.{
  ℕ, suc, ℤ, negsuc, eq_ℤ, eq_ℤ_iff, ltb_ℤ, Bool, true, false, Option, none, some, List, [], ◌∷◌,
  String, str_eq, str_eq_iff, ◌↔◌, ◌≡◌, arith, if◌then◌else◌, contains, codes, lower, eq_codes,
}

pub data Core : Type 0 where
  number : ℤ → Core
  named : String → Core

abbrev pub eq_core : Core → Core → Bool
eq_core (number a) (number b) = eq_ℤ a b
eq_core (named a) (named b) = str_eq a b
eq_core (number a) (named b) = false
eq_core (named a) (number b) = false

pub eq_core_iff : (a b : Core) → (eq_core a b ≡ true) ↔ (a ≡ b)
eq_core_iff (number a) (number b) = ground (arith, eq_ℤ_iff a b)
eq_core_iff (named a) (named b) = ground (arith, str_eq_iff a b)
eq_core_iff (number a) (named b) = ground arith
eq_core_iff (named a) (number b) = ground arith

pub data Mesi : Type 0 where
  modified exclusive shared invalid : Mesi

-- `_EXCLUSIVE` and `_VALID`
abbrev pub is_exclusive : Mesi → Bool
is_exclusive modified = true
is_exclusive exclusive = true
is_exclusive shared = false
is_exclusive invalid = false

abbrev pub is_valid : Mesi → Bool
is_valid modified = true
is_valid exclusive = true
is_valid shared = true
is_valid invalid = false

pub data Op : Type 0 where
  load store : Op

-- `_norm_op`, of the text of the field.
abbrev pub norm_op : String → Option Op
norm_op s =
    if contains eq_codes (lower s) (codes "load" ∷ codes "ld" ∷ codes "read" ∷ codes "r" ∷ [])
    then some load
    else if contains eq_codes (lower s)
        (codes "store" ∷ codes "st" ∷ codes "write" ∷ codes "w" ∷ [])
    then some store
    else none

-- `state` is there if the field is one of the four letters, in either case.
pub record Event : Type 0 where
  pub op : String
  pub addr : Option ℤ
  pub core : Option Core
  pub ver : Option ℤ
  pub value : Option ℤ
  pub cycle : Option ℤ
  pub state : Option Mesi

pub record Write : Type 0 where
  pub ver : ℤ
  pub value : Option ℤ
  pub core : Core

pub data Check : Type 0 where
  read_from_valid coherence_read_monotonic swmr : Check

-- The dicts are read with a default alone, or behind `setdefault`: so each is the function from
-- the keys to what is read.
pub record CoherenceState : Type 0 where
  pub writes : ℤ → List Write
  pub val_vers : ℤ → ℤ → List ℤ
  pub last_seen : Core → ℤ → ℤ
  pub state : Core → ℤ → Mesi
  pub cores : List Core
  pub addrs : List ℤ
  pub violations : List (ℕ × Check)
  pub loads : ℕ
  pub stores : ℕ
  pub swmr_checks : ℕ

abbrev pub new_state : CoherenceState
new_state = record {
  writes = λ _. [];
  val_vers = λ _ _. [];
  last_seen = λ _ _. negsuc 0;
  state = λ _ _. invalid;
  cores = [];
  addrs = [];
  violations = [];
  loads = 0;
  stores = 0;
  swmr_checks = 0;
}

-- `d[key] = val` on such a function, for the keys that pass a test.
abbrev pub set_where {ℓ κ} : {K : Type ℓ} {V : Type κ} → (K → Bool) → V → (K → V) → K → V
set_where here val dict key = if here key then val else dict key

abbrev pub set_core_addr {κ} : {V : Type κ} → Core → ℤ → V → (Core → ℤ → V) → Core → ℤ → V
set_core_addr core addr val dict c a =
    if eq_core c core then if eq_ℤ a addr then val else dict c a else dict c a

abbrev pub max_ℤ : ℤ → ℤ → ℤ
max_ℤ a b = if ltb_ℤ a b then b else a

-- `len([x for x in xs if test(x)])`
abbrev pub count_if {ℓ} : {A : Type ℓ} → (A → Bool) → List A → ℕ
count_if test [] = 0
count_if test (x ∷ xs) = if test x then suc (count_if test xs) else count_if test xs

abbrev pub add_core : Core → List Core → List Core
add_core c cs = if contains eq_core c cs then cs else c ∷ cs

abbrev pub add_addr : ℤ → List ℤ → List ℤ
add_addr a addrs = if contains eq_ℤ a addrs then addrs else a ∷ addrs

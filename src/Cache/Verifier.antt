-- ===== src/Cache/Verifier.antt =====
-- Checking a trace against the golden cache (`CacheVerifier` of AGENT_H/cache_verifier.py). An entry
-- of a trace is given by what `get` and `_to_int` make of its fields.
pub mod Counts
use ai_chip_design_platform.Common.{
  ℕ, suc, ◌+◌, ℤ, pos, eq_ℤ, Bool, true, false, Option, none, some, List, [], ◌∷◌, ◌++◌, ◌&&◌, ltb,
  not, if◌then◌else◌, length,
}
use ai_chip_design_platform.Cache.{CacheModel, CacheResult, access}

pub data Kind : Type 0 where
  load store : Kind

-- What the design reports of an access.
pub record Event : Type 0 where
  pub hit : Option Bool
  pub evict_addr : Option ℤ
  pub writeback : Option Bool

pub record Access : Type 0 where
  pub kind : Kind
  pub addr : Option ℤ
  pub value : Option ℤ
  pub event : Option Event

-- A record that is no object, one with a wrongly typed field, and one with its accesses, the loads
-- first.
pub data Record : Type 0 where
  not_object ill_typed : Record
  accesses : (seq : Option ℤ) → List Access → Record

pub data CacheViolation : Type 0 where
  cache_hitmiss cache_writeback : (seq addr : ℤ) (expected actual : Bool) → CacheViolation
  cache_eviction : (seq addr : ℤ) (expected : ℕ) (actual : ℤ) → CacheViolation
  cache_data : (seq addr expected actual : ℤ) → CacheViolation

pub record Stats : Type 0 where
  pub accesses : ℕ
  pub hits : ℕ
  pub misses : ℕ
  pub evictions : ℕ
  pub writebacks : ℕ
  pub checked : ℕ

pub record VerifierState : Type 0 where
  pub violations : List CacheViolation
  pub unchecked : ℕ
  pub mem : List (ℤ × ℤ)
  pub stats : Stats
  pub model : CacheModel

-- `_flag`; a negative maximum acts as 0 does.
abbrev pub flag : ℕ → CacheViolation → VerifierState → VerifierState
flag max_violations v st = record st {
  violations =
      if ltb (length st.violations) max_violations then st.violations ++ v ∷ [] else st.violations;
}

abbrev pub flag_if : ℕ → Option CacheViolation → VerifierState → VerifierState
flag_if max_violations none st = st
flag_if max_violations (some v) st = flag max_violations v st

abbrev pub eq_bool : Bool → Bool → Bool
eq_bool true b = b
eq_bool false b = not b

-- The three tests of `_compare`.
abbrev pub hit_violation : ℤ → ℤ → Bool → Option Bool → Option CacheViolation
hit_violation seq addr golden none = none
hit_violation seq addr golden (some rep) =
    if eq_bool rep golden then none else some (cache_hitmiss seq addr golden rep)

abbrev pub eviction_violation : ℤ → ℤ → Option ℕ → Option ℤ → Option CacheViolation
eviction_violation seq addr golden none = none
eviction_violation seq addr none (some rep) = none
eviction_violation seq addr (some golden) (some rep) =
    if eq_ℤ rep (pos golden) then none else some (cache_eviction seq addr golden rep)

abbrev pub writeback_violation : ℤ → ℤ → Bool → Option Bool → Option CacheViolation
writeback_violation seq addr golden none = none
writeback_violation seq addr golden (some rep) =
    if eq_bool rep golden then none else some (cache_writeback seq addr golden rep)

abbrev pub count_checked : VerifierState → VerifierState
count_checked st = record st { stats = record st.stats { checked = st.stats.checked + 1 } }

-- `_compare`
unfoldable pub compare_event : ℕ → ℤ → ℤ → CacheResult → Event → VerifierState → VerifierState
compare_event max_violations seq addr res ev st =
    flag_if max_violations (writeback_violation seq addr res.writeback ev.writeback) (
      flag_if max_violations (eviction_violation seq addr res.victim_addr ev.evict_addr)
        (flag_if max_violations (hit_violation seq addr res.hit ev.hit) (count_checked st)))

abbrev pub compare_if : ℕ → ℤ → ℤ → CacheResult → Option Event → VerifierState → VerifierState
compare_if max_violations seq addr res none st = st
compare_if max_violations seq addr res (some ev) st =
    compare_event max_violations seq addr res ev st

-- `self._mem`, a dict: the newest entry of an address comes first.
abbrev pub last_write : ℤ → List (ℤ × ℤ) → Option ℤ
last_write addr [] = none
last_write addr ((a, v) ∷ mem) = if eq_ℤ a addr then some v else last_write addr mem

abbrev pub data_violation : ℤ → ℤ → Bool → ℤ → Option ℤ → Option CacheViolation
data_violation seq addr hit val none = none
data_violation seq addr hit val (some old) =
    if hit && not (eq_ℤ old val) then some (cache_data seq addr old val) else none

-- The golden data integrity.
abbrev pub check_data : ℕ → ℤ → ℤ → Kind → Bool → Option ℤ → VerifierState → VerifierState
check_data max_violations seq addr kind hit none st = st
check_data max_violations seq addr store hit (some val) st = record st {
  mem = (addr, val) ∷ st.mem;
}
check_data max_violations seq addr load hit (some val) st =
    flag_if max_violations (data_violation seq addr hit val (last_write addr st.mem)) st

abbrev pub is_evicting : Option ℕ → Bool
is_evicting none = false
is_evicting (some n) = true

abbrev pub is_store : Kind → Bool
is_store load = false
is_store store = true

abbrev pub count : Bool → ℕ → ℕ
count b n = if b then suc n else n

abbrev pub count_access : CacheResult → Stats → Stats
count_access res s = record s {
  accesses = s.accesses + 1;
  hits = count res.hit s.hits;
  misses = count (not res.hit) s.misses;
  evictions = count (is_evicting res.victim_addr) s.evictions;
  writebacks = count res.writeback s.writebacks;
}

-- One access of `_check_record` that has an address.
unfoldable pub check_access : ℕ → ℤ → ℤ → Access → VerifierState → VerifierState
unfolding compare_event
check_access max_violations seq addr e st =
    let (res, model) = access st.model addr (is_store e.kind) in
    check_data max_violations seq addr e.kind res.hit e.value (
      compare_if max_violations seq addr res e.event
        (record st { model = model; stats = count_access res st.stats }))

abbrev pub check_entry : ℕ → ℤ → Option ℤ → Access → VerifierState → VerifierState
check_entry max_violations seq none e st = st
check_entry max_violations seq (some addr) e st = check_access max_violations seq addr e st

-- `_check_record`
unfoldable pub check_record : ℕ → ℤ → List Access → VerifierState → VerifierState
check_record max_violations seq [] st = st
check_record max_violations seq (e ∷ es) st =
    check_record max_violations seq es (check_entry max_violations seq e.addr e st)

abbrev pub or_position : Option ℤ → ℕ → ℤ
or_position none i = pos i
or_position (some seq) i = seq

-- One record of the loop of `run`.
unfoldable pub check_one : ℕ → ℕ → Record → VerifierState → VerifierState
unfolding check_record
check_one max_violations i not_object st = st
check_one max_violations i ill_typed st = record st { unchecked = st.unchecked + 1 }
check_one max_violations i (accesses seq es) st =
    check_record max_violations (or_position seq i) es st

-- The loop of `run`, where there is a model.
unfoldable pub check_from : ℕ → ℕ → List Record → VerifierState → VerifierState
check_from max_violations i [] st = st
check_from max_violations i (r ∷ rs) st =
    let rest = check_from max_violations (suc i) rs (check_one max_violations i r st) in
    if ltb (length st.violations) max_violations then rest else st

abbrev pub initial_state : CacheModel → VerifierState
initial_state model = record {
  violations = [];
  unchecked = 0;
  mem = [];
  stats = record { accesses = 0; hits = 0; misses = 0; evictions = 0; writebacks = 0; checked = 0 };
  model = model;
}

unfoldable pub run : ℕ → CacheModel → List Record → VerifierState
unfolding check_from
run max_violations model rs = check_from max_violations 0 rs (initial_state model)

-- ===== src/Comparator/Run/Counts.antt =====
-- The statistics of a comparison against its list of mismatches.
use ai_chip_design_platform.Common.{
  suc, str_eq, str_eq_iff, if◌then◌else◌, ℕ, ◌+◌, ℤ, false, Option, none, some, List, [], ◌∷◌, ◌++◌,
  ok, ◌≡◌, Side, rtl, iss, refl, arith, length, length-append, String, rtl, iss, ap, sym, ◌∙◌,
  subst,
}
use mathlib.Core.Path.{subst₂}
use ai_chip_design_platform.Comparator.Steps.{StepValidator}
use ai_chip_design_platform.Comparator.Kinds.{value}
use ai_chip_design_platform.Comparator.Config.{CompareConfig}
use ai_chip_design_platform.Comparator.Window
use ai_chip_design_platform.Comparator.Run.{Source, Schedule, CompareResult, compare}
use ai_chip_design_platform.Comparator.Run.State.{
  LoopState, Mismatch, CompareStats, limit, add, initial, record_mismatch, bump, first_step,
  set_validator, bump_step_anomalies,
}
use ai_chip_design_platform.Comparator.Run.Invariants.{Keeps}
use ai_chip_design_platform.Comparator.Run.Keeping.{Shows, compare-keeps}

-- The sum of the counters of `mismatch_by_type`.
pub total : List (String × ℕ) → ℕ
total [] = 0
total ((k, n) ∷ d) = n + total d

total-bump : (key : String) (d : List (String × ℕ)) → total (bump key d) ≡ total d + 1
unfolding total bump
total-bump key [] = omega arith
total-bump key ((k, n) ∷ d) = ground (arith, total-bump key d)

-- `mismatch_by_type.get(key, 0)`
abbrev pub count_of : String → List (String × ℕ) → ℕ
count_of key [] = 0
count_of key ((k, n) ∷ d) = if str_eq k key then n else count_of key d

count_of-bump :
    (key j : String) (d : List (String × ℕ))
    → count_of key (bump j d) ≡ (if str_eq j key then count_of key d + 1 else count_of key d)
unfolding bump
count_of-bump key j [] = refl
count_of-bump key j ((k, n) ∷ d) =
    ground (arith, count_of-bump key j d, str_eq_iff k j, str_eq_iff j key, str_eq_iff k key)

-- How many of the mismatches are of the type with this value.
abbrev pub of_type : String → List Mismatch → ℕ
of_type key [] = 0
of_type key (m ∷ ms) =
    if str_eq (value m.mismatch_type) key then suc (of_type key ms) else of_type key ms

of_type-append :
    (key : String) (ms : List Mismatch) (m : Mismatch)
    → of_type key (ms ++ m ∷ [])
      ≡ (if str_eq (value m.mismatch_type) key then of_type key ms + 1 else of_type key ms)
of_type-append key [] m = ground arith
of_type-append key (x ∷ ms) m = ground (arith, of_type-append key ms m)

pub first_of_results : List Mismatch → Option ℤ
first_of_results [] = none
first_of_results (m ∷ ms) = some m.step

first_of_results-append :
    (ms : List Mismatch) (m : Mismatch)
    → first_of_results (ms ++ m ∷ []) ≡ first_step (first_of_results ms) m.step
unfolding first_of_results
first_of_results-append [] m = refl
first_of_results-append (x ∷ ms) m = refl

-- The statistics count the mismatches that are kept, in all and by type.
pub record IsCounted (results : List Mismatch) (stats : CompareStats) : Type 0 where
  pub counted : stats.total_mismatches ≡ length results
  pub by_type : (key : String) → count_of key stats.mismatch_by_type ≡ of_type key results
  pub by_types : total stats.mismatch_by_type ≡ length results
  pub first : stats.first_divergence_step ≡ first_of_results results

add-IsCounted :
    (m : Mismatch) (st : LoopState)
    → IsCounted st.results st.stats
    → IsCounted (add m st).results (add m st).stats
unfolding add record_mismatch
add-IsCounted m st p =
    let m' : Mismatch = record m { context_window = Window.snapshot st.dwindow } in
    let size = length-append st.results (m' ∷ []) in
    record {
      counted = omega (arith, p.counted, size);
      by_type = λ key.
          count_of-bump key (value m.mismatch_type) st.stats.mismatch_by_type
          ∙ ap (λ n. if str_eq (value m.mismatch_type) key then n + 1 else n) (p.by_type key)
          ∙ sym (of_type-append key st.results m');
      by_types =
          omega
            (arith, total-bump (value m.mismatch_type) st.stats.mismatch_by_type, p.by_types, size);
      first = ap (λ f. first_step f m.step) p.first ∙ sym (first_of_results-append st.results m');
    }

validator-IsCounted :
    (s : Side) (v : StepValidator) (st : LoopState)
    → IsCounted st.results st.stats
    → IsCounted (set_validator s v st).results (set_validator s v st).stats
validator-IsCounted rtl v st p = p
validator-IsCounted iss v st p = p

bump-IsCounted :
    (s : Side) (st : LoopState)
    → IsCounted st.results st.stats
    → IsCounted (bump_step_anomalies s st).results (bump_step_anomalies s st).stats
bump-IsCounted rtl st p = record {
  counted = p.counted;
  by_type = p.by_type;
  by_types = p.by_types;
  first = p.first;
}
bump-IsCounted iss st p = record {
  counted = p.counted;
  by_type = p.by_type;
  by_types = p.by_types;
  first = p.first;
}

IsCounted-keeps : (c : CompareConfig) → Keeps c (λ st. IsCounted st.results st.stats)
IsCounted-keeps c = record {
  on_add = λ m st g room p. add-IsCounted m st p;
  on_validator = validator-IsCounted;
  on_bump = bump-IsCounted;
  on_tick = λ st p. record {
    counted = p.counted;
    by_type = p.by_type;
    by_types = p.by_types;
    first = p.first;
  };
  on_push = λ e st p. p;
}

initial-IsCounted : (c : CompareConfig) → IsCounted (initial c).results (initial c).stats
unfolding initial total first_of_results
initial-IsCounted c = record {
  counted = refl;
  by_type = λ key. refl;
  by_types = refl;
  first = refl;
}

-- A comparison starts below its limit.
pub limit-initial : (c : CompareConfig) → limit c (initial c) ≡ false
unfolding limit initial
limit-initial c = ground arith

-- Whatever a comparison returns, the total of its statistics and the sum of the counters by type are
-- the length of its list of mismatches, the counter of each type is the number of the mismatches of
-- that type in the list, and the first divergence is the step of the first of them.
pub compare_counts :
    (c : CompareConfig) (rs is : Source) (sched : Schedule) {r : CompareResult}
    → compare c rs is sched ≡ ok r
    → IsCounted r.mismatches r.stats
compare_counts c rs is sched e =
    let (st, p, same, same_stats) =
      subst (Shows c (IsCounted-keeps c)) e
        (compare-keeps c (IsCounted-keeps c) rs is sched (limit-initial c) (initial-IsCounted c)) in
    subst₂ IsCounted (sym same) (sym same_stats) p

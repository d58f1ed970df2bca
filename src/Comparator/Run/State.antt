-- ===== src/Comparator/Run/State.antt =====
-- Mismatches, statistics and the state of the main loop (`Mismatch`, `CompareStats`, the local
-- variables of `compare` and its helpers `_add` and `_limit`).
use ai_chip_design_platform.Common.{
  ℕ, ◌+◌, ℤ, pos, ltb_ℤ, leb_ℤ, Bool, Option, none, some, List, [], ◌∷◌, ◌++◌, String, ◌&&◌, str_eq,
  if◌then◌else◌, Side, rtl, iss, length, pos_part,
}
use ai_chip_design_platform.Comparator.Kinds.{MismatchType, Severity, value}
use ai_chip_design_platform.Comparator.Config.{CompareConfig}
use ai_chip_design_platform.Comparator.Entry.{CommitEntry, Shown, FieldName}
use ai_chip_design_platform.Comparator.Window
use ai_chip_design_platform.Comparator.Window.{DeltaWindow, ContextRow}
use ai_chip_design_platform.Comparator.Steps
use ai_chip_design_platform.Comparator.Steps.{StepValidator}

-- The entries stand for their `to_dict()`.
pub record Mismatch : Type 0 where
  pub mismatch_type : MismatchType
  pub severity : Severity
  pub step : ℤ
  pub rtl_entry : Option CommitEntry
  pub iss_entry : Option CommitEntry
  pub differing_field : Option FieldName
  pub rtl_value : Option Shown
  pub iss_value : Option Shown
  pub context_window : List ContextRow

pub record CompareStats : Type 0 where
  pub total_steps : ℕ
  pub total_mismatches : ℕ
  pub rtl_step_anomalies : ℕ
  pub iss_step_anomalies : ℕ
  pub first_divergence_step : Option ℤ
  pub mismatch_by_type : List (String × ℕ)

abbrev zero_stats : CompareStats
zero_stats = record {
  total_steps = 0;
  total_mismatches = 0;
  rtl_step_anomalies = 0;
  iss_step_anomalies = 0;
  first_divergence_step = none;
  mismatch_by_type = [];
}

-- `d[key] += 1` on a `defaultdict(int)`.
unfoldable pub bump : String → List (String × ℕ) → List (String × ℕ)
bump key [] = (key, 1) ∷ []
bump key ((k, n) ∷ d) = if str_eq k key then (k, n + 1) ∷ d else (k, n) ∷ bump key d

abbrev pub first_step : Option ℤ → ℤ → Option ℤ
first_step none step = some step
first_step (some first) step = some first

-- `CompareStats.record`
unfoldable pub record_mismatch : Mismatch → CompareStats → CompareStats
unfolding bump
record_mismatch m s = record s {
  total_mismatches = s.total_mismatches + 1;
  mismatch_by_type = bump (value m.mismatch_type) s.mismatch_by_type;
  first_divergence_step = first_step s.first_divergence_step m.step;
}

pub record LoopState : Type 0 where
  pub results : List Mismatch
  pub stats : CompareStats
  pub dwindow : DeltaWindow
  pub rtl_sv : StepValidator
  pub iss_sv : StepValidator

unfoldable pub initial : CompareConfig → LoopState
initial c = record {
  results = [];
  stats = zero_stats;
  dwindow = Window.init (pos_part c.window);
  rtl_sv = Steps.fresh;
  iss_sv = Steps.fresh;
}

-- `_add`: the mismatch gets the context of the moment.
unfoldable pub add : Mismatch → LoopState → LoopState
unfolding record_mismatch
add m st =
    let m' = record m { context_window = Window.snapshot st.dwindow } in
    record st { results = st.results ++ m' ∷ []; stats = record_mismatch m' st.stats }

abbrev pub max_m : CompareConfig → ℤ
max_m c = if c.stop_on_first then pos 1 else c.max_mismatches

-- `_limit`
unfoldable pub limit : CompareConfig → LoopState → Bool
limit c st = ltb_ℤ (pos 0) (max_m c) && leb_ℤ (max_m c) (pos (length st.results))

abbrev pub validator : Side → LoopState → StepValidator
validator rtl st = st.rtl_sv
validator iss st = st.iss_sv

abbrev pub set_validator : Side → StepValidator → LoopState → LoopState
set_validator rtl v st = record st { rtl_sv = v }
set_validator iss v st = record st { iss_sv = v }

-- `stats.rtl_step_anomalies += 1`, or the ISS's.
abbrev pub bump_step_anomalies : Side → LoopState → LoopState
bump_step_anomalies rtl st =
    let s = st.stats in
    record st { stats = record s { rtl_step_anomalies = s.rtl_step_anomalies + 1 } }
bump_step_anomalies iss st =
    let s = st.stats in
    record st { stats = record s { iss_step_anomalies = s.iss_step_anomalies + 1 } }

-- `stats.total_steps += 1`
abbrev pub tick : LoopState → LoopState
tick st = let s = st.stats in record st { stats = record s { total_steps = s.total_steps + 1 } }

-- ===== src/Comparator/Run.antt =====
-- The streaming comparison (`compare`). A reader thread hands the main loop its commits in order
-- and then the end of its stream; an exception of a reader is seen by the loop at some iteration,
-- at the latest when that stream has ended. `Schedule` says whether the error of a side is seen
-- already at an iteration, so that every interleaving of the threads is some schedule.
-- Wall-clock times, the reproduction command, progress messages and the copied paths are left out.
pub mod State
pub mod Iteration
pub mod Invariants
pub mod Keeping
pub mod Counts
pub mod Limits
pub mod Clean
pub mod Pairs
pub mod Matching
pub mod Passing
use ai_chip_design_platform.Common.{
  ℕ, ◌+◌, ℤ, pos, suc, Bool, true, false, Option, none, some, List, [], ◌∷◌, ◌++◌, String, ◌&&◌,
  ◌||◌, not, if◌then◌else◌, eq_codes, lower, Outcome, ok, raise, log_format_error, step_error,
  ◌>>=◌, ◌>>◌, Side, rtl, iss, pos_part,
}
use mathlib.Core.Option
use ai_chip_design_platform.Comparator.Kinds.{
  severity_for, critical, seq_gap, length_mismatch, binary_hash_mismatch,
}
use ai_chip_design_platform.Comparator.Config.{CompareConfig}
use ai_chip_design_platform.Comparator.Entry.{CommitEntry, Shown, named, text, int, dup, at_step}
use ai_chip_design_platform.Comparator.Issue.{Issue}
use ai_chip_design_platform.Comparator.Window
use ai_chip_design_platform.Comparator.Steps
use ai_chip_design_platform.Comparator.Steps.{Anomaly, duplicate, discontinuity}
use ai_chip_design_platform.Comparator.Fields.{compare_fields}
use Iteration.{pair_step}
use State.{
  Mismatch, CompareStats, LoopState, limit, add, bump_step_anomalies, validator, set_validator,
  initial, tick,
}

-- One log as the main thread meets it.
pub record Source : Type 0 where
  pub sha256 : Option String
  pub commits : List CommitEntry
  pub fails : Bool

-- Whether the error of a side is in its box when the loop looks at it in iteration `k`, although
-- its stream has not ended.
abbrev pub Schedule : Type 0
Schedule = (k : ℕ) → Side → Bool

pub record CompareResult : Type 0 where
  pub passed : Bool
  pub stats : CompareStats
  pub mismatches : List Mismatch
  pub rtl_sha256 : Option String
  pub iss_sha256 : Option String

abbrev pub result : Source → Source → LoopState → Bool → CompareResult
result rs is st passed = record {
  passed = passed;
  stats = st.stats;
  mismatches = st.results;
  rtl_sha256 = rs.sha256;
  iss_sha256 = is.sha256;
}

abbrev pub is_empty : {A : Type 0} → List A → Bool
is_empty [] = true
is_empty (x ∷ xs) = false

-- `expected.lower() != actual.lower()`, where both are given.
unfoldable pub hash_differs : Option String → Option String → Bool
hash_differs none actual = false
hash_differs (some expected) none = false
hash_differs (some expected) (some actual) = not (eq_codes (lower expected) (lower actual))

abbrev pub hash_mismatch : Side → Option String → Mismatch
hash_mismatch rtl actual = record {
  mismatch_type = binary_hash_mismatch;
  severity = critical;
  step = pos 0;
  rtl_entry = none;
  iss_entry = none;
  differing_field = some (named "rtl_sha256");
  rtl_value = Option.map text actual;
  iss_value = none;
  context_window = [];
}
hash_mismatch iss actual = record {
  mismatch_type = binary_hash_mismatch;
  severity = critical;
  step = pos 0;
  rtl_entry = none;
  iss_entry = none;
  differing_field = some (named "iss_sha256");
  rtl_value = none;
  iss_value = Option.map text actual;
  context_window = [];
}

-- One pre-flight check, and whether the comparison returns at once.
unfoldable pub hash_check :
    CompareConfig → Side → Option String → Option String → LoopState → LoopState × Bool
hash_check c s expected actual st =
    if hash_differs expected actual
    then (let st' = add (hash_mismatch s actual) st in (st', limit c st'))
    else (st, false)

-- `which log ended`, with the entry that the other log still has.
unfoldable pub length_mismatch_of : Side → CommitEntry → Mismatch
length_mismatch_of rtl present = record {
  mismatch_type = length_mismatch;
  severity = critical;
  step = present.step;
  rtl_entry = none;
  iss_entry = some present;
  differing_field = some (named "eof");
  rtl_value = some (text "EOF");
  iss_value = some (at_step present.step);
  context_window = [];
}
length_mismatch_of iss present = record {
  mismatch_type = length_mismatch;
  severity = critical;
  step = present.step;
  rtl_entry = some present;
  iss_entry = none;
  differing_field = some (named "eof");
  rtl_value = some (at_step present.step);
  iss_value = some (text "EOF");
  context_window = [];
}

-- The error boxes are looked at in the order RTL, ISS.
unfoldable pub reader_errors : (rtl_seen iss_seen : Bool) → Outcome (Unit {0})
reader_errors true iss_seen = raise (log_format_error rtl)
reader_errors false true = raise (log_format_error iss)
reader_errors false false = ok tt

module _ (c : CompareConfig) (rtl_fails iss_fails : Bool) (sched : Schedule) where
  abbrev pub seen_at : LoopState → Side → Bool
  seen_at st rtl = rtl_fails && sched st.stats.total_steps rtl
  seen_at st iss = iss_fails && sched st.stats.total_steps iss

  -- `while not _limit(): …`
  unfoldable pub main_loop : List CommitEntry → List CommitEntry → LoopState → Outcome LoopState
  main_loop [] [] st = if limit c st then ok st else (reader_errors rtl_fails iss_fails >> ok st)
  main_loop [] (i ∷ is) st =
      if limit c st
      then ok st
      else (reader_errors rtl_fails (seen_at st iss)
          >> ok (add (length_mismatch_of rtl i) (tick st)))
  main_loop (r ∷ rs) [] st =
      if limit c st
      then ok st
      else (reader_errors (seen_at st rtl) iss_fails
          >> ok (add (length_mismatch_of iss r) (tick st)))
  main_loop (r ∷ rs) (i ∷ is) st =
      let rest =
        reader_errors (seen_at st rtl) (seen_at st iss)
        >> (pair_step c r i (tick st) >>= λ after.
            let next = main_loop rs is after.0 in if after.1 then ok after.0 else next) in
      if limit c st then ok st else rest

-- The part of `compare` behind the pre-flight checks.
unfoldable pub run_from :
    CompareConfig → Source → Source → Schedule → LoopState → Outcome CompareResult
unfolding main_loop
run_from c rs is sched st = do
  st' ← main_loop c rs.fails is.fails sched rs.commits is.commits st
  ok (result rs is st' (is_empty st'.results))

unfoldable pub compare : CompareConfig → Source → Source → Schedule → Outcome CompareResult
unfolding run_from hash_check
compare c rs is sched =
    let (st₁, stop₁) = hash_check c rtl c.expected_rtl_sha256 rs.sha256 (initial c) in
    if stop₁
    then ok (result rs is st₁ false)
    else (let (st₂, stop₂) = hash_check c iss c.expected_iss_sha256 is.sha256 st₁ in
        if stop₂ then ok (result rs is st₂ false) else run_from c rs is sched st₂)

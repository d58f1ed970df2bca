-- ===== src/Comparator/Run/Iteration.antt =====
-- The body of an iteration of `compare` that has a commit of each side: step continuity, then the
-- window, then the fields.
use ai_chip_design_platform.Common.{
  Bool, true, false, Option, none, some, List, [], ◌∷◌, if◌then◌else◌, Outcome, ok, raise,
  step_error, ◌>>=◌, Side, rtl, iss,
}
use ai_chip_design_platform.Comparator.Kinds.{severity_for, critical, seq_gap}
use ai_chip_design_platform.Comparator.Config.{CompareConfig}
use ai_chip_design_platform.Comparator.Entry.{CommitEntry, named, int, dup}
use ai_chip_design_platform.Comparator.Issue.{Issue}
use ai_chip_design_platform.Comparator.Window
use ai_chip_design_platform.Comparator.Steps
use ai_chip_design_platform.Comparator.Steps.{Anomaly, duplicate, discontinuity}
use ai_chip_design_platform.Comparator.Fields.{compare_fields}
use ai_chip_design_platform.Comparator.Run.State.{
  Mismatch, LoopState, limit, add, bump_step_anomalies, validator, set_validator,
}

-- A step anomaly, as `_StepValidator.check` describes it. The entry of either side is stored as
-- the RTL's.
unfoldable pub anomaly_mismatch : CommitEntry → Anomaly → Mismatch
anomaly_mismatch e (duplicate step last) = record {
  mismatch_type = seq_gap;
  severity = critical;
  step = step;
  rtl_entry = some e;
  iss_entry = none;
  differing_field = some (named "step");
  rtl_value = some (int step);
  iss_value = some (dup last);
  context_window = [];
}
anomaly_mismatch e (discontinuity step expected) = record {
  mismatch_type = seq_gap;
  severity = critical;
  step = step;
  rtl_entry = some e;
  iss_entry = none;
  differing_field = some (named "step");
  rtl_value = some (int step);
  iss_value = some (int expected);
  context_window = [];
}

-- `if sm is not None: …`, and whether the loop over the validators is left.
unfoldable pub on_anomaly :
    CompareConfig → Side → CommitEntry → LoopState → Option Anomaly → Outcome (LoopState × Bool)
on_anomaly c s e st none = ok (st, false)
on_anomaly c s e st (some a) =
    if c.strict_steps
    then raise step_error
    else (let st' = add (anomaly_mismatch e a) (bump_step_anomalies s st) in ok (st', limit c st'))

-- One turn of the loop over the two validators.
unfoldable pub side_check :
    CompareConfig → Side → CommitEntry → LoopState → Outcome (LoopState × Bool)
unfolding on_anomaly
side_check c s e st =
    let (anomaly, v) = Steps.check e.step (validator s st) in
    on_anomaly c s e (set_validator s v st) anomaly

unfoldable pub step_checks :
    CompareConfig → CommitEntry → CommitEntry → LoopState → Outcome LoopState
step_checks c r i st = do
  (st₁, left) ← side_check c rtl r st
  if left then ok st₁ else (side_check c iss i st₁ >>= λ after. ok after.0)

abbrev pub issue_mismatch : CommitEntry → CommitEntry → Issue → Mismatch
issue_mismatch r i x = record {
  mismatch_type = x.mismatch_type;
  severity = severity_for x.mismatch_type;
  step = r.step;
  rtl_entry = some r;
  iss_entry = some i;
  differing_field = some x.differing_field;
  rtl_value = x.rtl_value;
  iss_value = x.iss_value;
  context_window = [];
}

unfoldable pub add_issues :
    CompareConfig → CommitEntry → CommitEntry → List Issue → LoopState → LoopState
add_issues c r i [] st = st
add_issues c r i (x ∷ xs) st =
    let st' = add (issue_mismatch r i x) st in
    let rest = add_issues c r i xs st' in if limit c st' then st' else rest

-- The window moves on before the fields are compared.
unfoldable pub fields_step :
    CompareConfig → CommitEntry → CommitEntry → LoopState → Outcome (LoopState × Bool)
fields_step c r i st = compare_fields c r i >>= λ issues.
    ok (add_issues c r i issues (record st { dwindow = Window.push r st.dwindow }), false)

-- The body of an iteration that has a commit of each side; with it, whether the loop is left.
unfoldable pub pair_step :
    CompareConfig → CommitEntry → CommitEntry → LoopState → Outcome (LoopState × Bool)
pair_step c r i st =
    step_checks c r i st >>= λ st₁. if limit c st₁ then ok (st₁, true) else fields_step c r i st₁

-- ===== src/Coherence/Samples.antt =====
-- Two cores that hand a line over.
use ai_chip_design_platform.Common.{
  ℤ, pos, negsuc, true, none, some, Option, List, [], ◌∷◌, ◌++◌, String, ◌≡◌, refl,
}
use ai_chip_design_platform.Coherence.Order.{in_order}
use ai_chip_design_platform.Coherence.State.{
  number, Mesi, modified, shared, Event, read_from_valid, coherence_read_monotonic, swmr,
}
use ai_chip_design_platform.Coherence.Verifier.{
  check_load, do_store, check_swmr, take_state, take_access, enter, take_event, check_event, run,
  passes,
}
use ai_chip_design_platform.Coherence.SingleWriter.{HasSingleWriter, run-HasSingleWriter}
use ai_chip_design_platform.Coherence.Trace.{youngest_first, last_told, writes_to, versions_seen}
use ai_chip_design_platform.Coherence.Loads.{ReadsFrom, run-ReadsFrom}

coherence : Unit {0}
unfolding in_order check_load do_store check_swmr take_state take_access enter take_event
    check_event run
coherence = tt

abbrev event : String → (core value cycle : ℤ) → Option ℤ → Option Mesi → Event
event op core value cycle ver state = record {
  op = op;
  addr = some (pos 64);
  core = some (number core);
  ver = ver;
  value = some value;
  cycle = some cycle;
  state = state;
}

abbrev first_store : Event
first_store = event "ST" (pos 0) (pos 7) (pos 10) none (some modified)

abbrev downgrade : Event
downgrade = event "LD" (pos 0) (pos 7) (pos 20) none (some shared)

abbrev remote_load : Event
remote_load = event "Load" (pos 1) (pos 7) (pos 30) (some (pos 0)) (some shared)

-- The trace is not in the order of the cycles.
abbrev handover : List Event
handover = remote_load ∷ first_store ∷ downgrade ∷ []

handover-passes : passes (run handover) ≡ true
unfolding coherence
handover-passes = refl

handover_order :
    in_order (λ (x : Event). x.cycle) handover
    ≡ ((1, first_store) ∷ (2, downgrade) ∷ []) ++ (0, remote_load) ∷ []
unfolding coherence
handover_order = refl

-- Without the downgrade, core 0 still holds the line as its writer.
stale_writer_fails : (run (remote_load ∷ first_store ∷ [])).violations ≡ (0, swmr) ∷ []
unfolding coherence
stale_writer_fails = refl

-- The initial value, told with a version, is reported.
initial_version_fails :
    (run (event "load" (pos 0) (pos 0) (pos 1) (some (negsuc 0)) none ∷ [])).violations
    ≡ (0, read_from_valid) ∷ []
unfolding coherence
initial_version_fails = refl

run-HasSingleWriter_example :
    HasSingleWriter
      (last_told (youngest_first ((1, first_store) ∷ (2, downgrade) ∷ []) []))
      (pos 64)
run-HasSingleWriter_example =
    run-HasSingleWriter handover ((1, first_store) ∷ (2, downgrade) ∷ []) ((0, remote_load) ∷ [])
      handover_order handover-passes (pos 64)

run-ReadsFrom_example :
    ReadsFrom
      (writes_to (pos 64) ((1, first_store) ∷ []))
      (versions_seen (number (pos 0)) (pos 64) ((1, first_store) ∷ []))
      (pos 7)
      none
run-ReadsFrom_example =
    run-ReadsFrom handover ((1, first_store) ∷ []) ((0, remote_load) ∷ []) 2 downgrade (pos 64)
      (pos 7) (number (pos 0)) handover_order handover-passes refl refl refl refl

-- That core has seen the version of its own store.
seen_own_store : versions_seen (number (pos 0)) (pos 64) ((1, first_store) ∷ []) ≡ pos 0 ∷ []
seen_own_store = refl

-- A core that reads an older write than its own is reported.
stale_read_fails :
    (run (
      event "st" (pos 0) (pos 7) (pos 1) none none
      ∷ event "st" (pos 0) (pos 8) (pos 2) none none
      ∷ event "ld" (pos 0) (pos 7) (pos 3) none none
      ∷ [])).violations
    ≡ (2, coherence_read_monotonic) ∷ []
unfolding coherence
stale_read_fails = refl

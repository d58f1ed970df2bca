-- ===== src/Comparator/Witnesses.antt =====
-- The comparator's theorems at concrete logs.
use ai_chip_design_platform.Common.{◌↔◌, [], ◌∷◌, ◌≡◌, refl, some, pos}
use ai_chip_design_platform.Comparator.Config.{default_config, skips}
use ai_chip_design_platform.Comparator.Fields.{compare_fields}
use ai_chip_design_platform.Comparator.Fields.Skipping.{skipping, mem_val, compare_fields-skipping}
use ai_chip_design_platform.Comparator.Fields.WritebackOnly.{writing, compare_fields-writing}
use ai_chip_design_platform.Comparator.Run.{compare}
use ai_chip_design_platform.Comparator.Run.Counts.{IsCounted, compare_counts}
use ai_chip_design_platform.Comparator.Run.Limits.{IsBounded, compare_bounds}
use ai_chip_design_platform.Comparator.Run.Passing.{Passes, IsPassing, compare-Passes_exact}
use ai_chip_design_platform.Comparator.Samples.{
  entry, store, bad_store, log, on_time, given, bad_run, bad_run_returns,
}

compare-Passes_exact_example :
    Passes (compare default_config (log (entry ∷ store ∷ [])) (log (entry ∷ store ∷ [])) on_time)
    ↔ IsPassing default_config (log (entry ∷ store ∷ [])) (log (entry ∷ store ∷ []))
compare-Passes_exact_example =
    compare-Passes_exact default_config (log (entry ∷ store ∷ [])) (log (entry ∷ store ∷ []))
      on_time

compare_counts_example : IsCounted (given bad_run).mismatches (given bad_run).stats
compare_counts_example =
    compare_counts default_config (log (entry ∷ bad_store ∷ [])) (log (entry ∷ store ∷ [])) on_time
      bad_run_returns

compare_bounds_example : IsBounded default_config (given bad_run).mismatches
compare_bounds_example =
    compare_bounds default_config (log (entry ∷ bad_store ∷ [])) (log (entry ∷ store ∷ [])) on_time
      bad_run_returns

-- Where addresses are compared, the name of the value turns nothing off.
compare_fields-skipping_example :
    compare_fields (skipping "mem_val" default_config) bad_store store
    ≡ compare_fields default_config bad_store store
unfolding skips
compare_fields-skipping_example =
    compare_fields-skipping default_config bad_store store (mem_val refl)

-- The RTL lost the write of 7 to register 5.
compare_fields-writing_example :
    compare_fields default_config store (writing (some (pos 5)) (some 7) store)
    ≡ compare_fields default_config store store
compare_fields-writing_example =
    compare_fields-writing default_config store store (some (pos 5)) (some 7) refl refl

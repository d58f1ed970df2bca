-- ===== src/Minimizer/Samples.antt =====
-- Logs of eight and six records that differ in one and in two places, and what is left of them.
use ai_chip_design_platform.Common.{
  ℕ, Bool, true, not, some, List, [], ◌∷◌, ◌≡◌, refl, eq_codes, ◌&&◌, arith, contains, ◌==◌,
}
use ai_chip_design_platform.Minimizer.Search.{call_oracle, first_failing}
use ai_chip_design_platform.Minimizer.Chunks.{chunks_of, complement, IsPart}
use ai_chip_design_platform.Minimizer.Shrinking.{IsOneMinimal}
use ai_chip_design_platform.Minimizer.Minimal.{
  common_indices, minimize_returns, minimize_fails, minimize-IsOneMinimal,
}
use ai_chip_design_platform.Minimizer.{Run, range_from, select, ddmin, fails_on, minimize}

minimizer : Unit {0}
unfolding call_oracle first_failing chunks_of complement range_from select ddmin minimize
minimizer = tt

abbrev rtl_log : List ℕ
rtl_log = 1 ∷ 2 ∷ 3 ∷ 4 ∷ 5 ∷ 6 ∷ []

abbrev iss_log : List ℕ
iss_log = 1 ∷ 7 ∷ 3 ∷ 4 ∷ 8 ∷ 6 ∷ []

-- Fails where the RTL has both 2 and 5.
abbrev oracle : List ℕ → List ℕ → Bool
oracle rtl_sub iss_sub =
    not (eq_codes rtl_sub iss_sub) && (contains ◌==◌ 2 rtl_sub && contains ◌==◌ 5 rtl_sub)

abbrev shrunk : Run
shrunk = record { indices = 1 ∷ 4 ∷ []; calls = 34; rounds = 7 }

keeps_two : minimize oracle 500 rtl_log iss_log ≡ some shrunk
unfolding minimizer
keeps_two = refl

fails_at_first : fails_on oracle rtl_log iss_log (common_indices rtl_log iss_log) ≡ true
unfolding minimizer
fails_at_first = refl

minimize_returns_example :
    (r : Run) × (minimize oracle 500 rtl_log iss_log ≡ some r)
    × IsPart r.indices (common_indices rtl_log iss_log)
minimize_returns_example = minimize_returns oracle 500 rtl_log iss_log

minimize_fails_example : fails_on oracle rtl_log iss_log shrunk.indices ≡ true
minimize_fails_example = minimize_fails oracle 500 rtl_log iss_log keeps_two fails_at_first

minimize-IsOneMinimal_example : IsOneMinimal (fails_on oracle rtl_log iss_log) shrunk.indices
minimize-IsOneMinimal_example =
    minimize-IsOneMinimal oracle 500 rtl_log iss_log keeps_two fails_at_first (omega arith)

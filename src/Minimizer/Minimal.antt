-- ===== src/Minimizer/Minimal.antt =====
-- What `minimize` returns.
use ai_chip_design_platform.Common.{
  ℕ, suc, ◌<◌, min, Bool, true, false, Option, none, some, List, ◌≡◌, refl, subst, arith,
  if◌then◌else◌, length, ltb, if_ind,
}
use ai_chip_design_platform.Minimizer.Search.{call_oracle}
use ai_chip_design_platform.Minimizer.Chunks.{IsPart, IsPart-refl}
use ai_chip_design_platform.Minimizer.Shrinking.{IsOneMinimal, Ends, ends, ddmin-Ends}
use ai_chip_design_platform.Minimizer.{Run, range_from, fails_on, minimize}

-- All that is claimed of a result.
record IsShrunk (max_rounds : ℕ) (fails : List ℕ → Bool) (all : List ℕ) (r : Run) : Type 0 where
  pub part : IsPart r.indices all
  pub still_fails : fails all ≡ true → fails r.indices ≡ true
  pub minimal : fails all ≡ true → r.calls < max_rounds → IsOneMinimal fails r.indices

abbrev Returns : {A : Type 0} → (A → Type 0) → Option A → Type 0
Returns P none = ⊥
Returns P (some r) = P r

returned : {A : Type 0} (P : A → Type 0) (o : Option A) {r : A} → o ≡ some r → Returns P o → P r
returned P o e h = subst (Returns P) e h

result_of :
    {A : Type 0} (P : A → Type 0) (o : Option A) → Returns P o → (r : A) × (o ≡ some r) × P r
result_of P none h = absurd h
result_of P (some r) h = (r, refl, h)

Ends-Returns :
    {max_rounds : ℕ} {fails : List ℕ → Bool} {xs : List ℕ} {o : Option Run}
    → Ends max_rounds fails xs o
    → Returns (IsShrunk max_rounds fails xs) o
Ends-Returns (ends p f m) = record { part = p; still_fails = λ _. f; minimal = λ _ b. m b }

-- The indices of the records that both logs have.
abbrev pub common_indices : {A B : Type 0} → List A → List B → List ℕ
common_indices rtl_log iss_log = range_from 0 (min (length rtl_log) (length iss_log))

module _ {A B : Type 0} (oracle : List A → List B → Bool) (max_rounds : ℕ) (rtl_log : List A)
    (iss_log : List B) where
  minimize-Returns :
      Returns
        (IsShrunk max_rounds (fails_on oracle rtl_log iss_log) (common_indices rtl_log iss_log))
        (minimize oracle max_rounds rtl_log iss_log)
  unfolding minimize call_oracle
  minimize-Returns =
      let fails = fails_on oracle rtl_log iss_log in
      let all = common_indices rtl_log iss_log in
      if_ind (Returns (IsShrunk max_rounds fails all))
        (if ltb max_rounds 1 then false else fails all)
        (λ f. Ends-Returns (
          ddmin-Ends max_rounds fails (suc max_rounds) all 2 1 0 (omega arith) (omega arith)
            (omega arith) (ground arith)))
        (λ f. record {
          part = IsPart-refl all;
          still_fails = λ h. h;
          minimal = λ h below. ground arith;
        })

  -- `minimize` returns, for any oracle and limit of calls, and what it returns is a part of the
  -- records that both logs have, in their order.
  pub minimize_returns :
      (r : Run) × (minimize oracle max_rounds rtl_log iss_log ≡ some r)
      × IsPart r.indices (common_indices rtl_log iss_log)
  minimize_returns =
      let (r, e, s) = result_of _ (minimize oracle max_rounds rtl_log iss_log) minimize-Returns in
      (r, e, s.part)

  -- If the logs fail the oracle, so do the records that `minimize` returns.
  pub minimize_fails :
      {r : Run}
      → minimize oracle max_rounds rtl_log iss_log ≡ some r
      → fails_on oracle rtl_log iss_log (common_indices rtl_log iss_log) ≡ true
      → fails_on oracle rtl_log iss_log r.indices ≡ true
  minimize_fails e h =
      (returned _ (minimize oracle max_rounds rtl_log iss_log) e minimize-Returns).still_fails h

  -- If the logs fail the oracle, and `minimize` returns before the limit of calls is reached, then
  -- what it returns no longer fails without any one of its records, unless none would be left.
  pub minimize-IsOneMinimal :
      {r : Run}
      → minimize oracle max_rounds rtl_log iss_log ≡ some r
      → fails_on oracle rtl_log iss_log (common_indices rtl_log iss_log) ≡ true
      → r.calls < max_rounds
      → IsOneMinimal (fails_on oracle rtl_log iss_log) r.indices
  minimize-IsOneMinimal e h below =
      (returned _ (minimize oracle max_rounds rtl_log iss_log) e minimize-Returns).minimal h below

-- ===== src/Minimizer.antt =====
-- Shrinking a failing pair of commit logs by delta debugging (AGENT_H/minimizer.py). The oracle is
-- a function: the same records give the same answer.
pub mod Search
pub mod Chunks
pub mod Shrinking
pub mod Minimal
mod Samples
use ai_chip_design_platform.Common.{
  ℕ, zero, suc, ◌+◌, ◌-◌, ◌*◌, ◌/◌, min, max, Bool, true, false, Option, none, some, List, [], ◌∷◌,
  ◌||◌, ◌==◌, ltb, leb, if◌then◌else◌, length, map,
}
use Search.{first_failing, call_oracle}
use Chunks.{chunks_of, complement}

-- An index list that failed last, with `_oracle_calls` and `_rounds`.
pub record Run : Type 0 where
  pub indices : List ℕ
  pub calls : ℕ
  pub rounds : ℕ

abbrev pub chunk_size : (n granularity : ℕ) → ℕ
chunk_size n granularity = max 1 ((n + granularity - 1) / granularity)

-- What follows the second loop of `_ddmin`. `rec` is `_ddmin` itself, of the indices, the
-- granularity, the calls and the rounds.
abbrev pub on_complement :
    (rec : List ℕ → ℕ → ℕ → ℕ → Option Run)
    → List ℕ
    → (granularity rounds : ℕ) → Option (List ℕ) × ℕ
    → Option Run
on_complement rec indices granularity rounds (some c, calls) =
    rec c (max 2 (granularity - 1)) calls rounds
on_complement rec indices granularity rounds (none, calls) =
    if ltb granularity (length indices)
    then rec indices (min (granularity * 2) (length indices)) calls rounds
    else some (record { indices = indices; calls = calls; rounds = rounds })

module _ (max_rounds : ℕ) (fails : List ℕ → Bool) where
  -- What follows the first loop.
  abbrev pub on_chunk :
      (rec : List ℕ → ℕ → ℕ → ℕ → Option Run)
      → List ℕ
      → List (List ℕ)
      → (granularity rounds : ℕ) → Option (List ℕ) × ℕ
      → Option Run
  on_chunk rec indices chunks granularity rounds (some c, calls) = rec c 2 calls rounds
  on_chunk rec indices chunks granularity rounds (none, calls) =
      on_complement rec indices granularity rounds
        (first_failing max_rounds fails calls (map (complement indices) chunks))

  -- `_ddmin`, with fuel; `none` means that the fuel ran out.
  unfoldable pub ddmin : (fuel : ℕ) → List ℕ → (granularity calls rounds : ℕ) → Option Run
  ddmin zero indices granularity calls rounds = none
  ddmin (suc fuel) indices granularity calls rounds =
      let chunks = chunks_of (chunk_size (length indices) granularity) granularity indices in
      let search =
        on_chunk (ddmin fuel) indices chunks granularity (suc rounds)
          (first_failing max_rounds fails calls chunks) in
      if length indices == 1 || leb max_rounds calls
      then some (record { indices = indices; calls = calls; rounds = rounds })
      else search

-- `list(range(n))`
unfoldable pub range_from : (start n : ℕ) → List ℕ
range_from start zero = []
range_from start (suc n) = start ∷ range_from (suc start) n

abbrev pub get_elem? : {A : Type 0} → List A → ℕ → Option A
get_elem? [] i = none
get_elem? (x ∷ xs) zero = some x
get_elem? (x ∷ xs) (suc i) = get_elem? xs i

abbrev pub add_given : {A : Type 0} → Option A → List A → List A
add_given none xs = xs
add_given (some x) xs = x ∷ xs

-- `[log[i] for i in indices if i < len(log)]`
unfoldable pub select : {A : Type 0} → List A → List ℕ → List A
select log [] = []
select log (i ∷ indices) = add_given (get_elem? log i) (select log indices)

module _ {A B : Type 0} (oracle : List A → List B → Bool) where
  -- `self.oracle(*self._subset(indices))`
  abbrev pub fails_on : List A → List B → List ℕ → Bool
  fails_on rtl_log iss_log indices = oracle (select rtl_log indices) (select iss_log indices)

  -- `minimize`: the indices of the records that it returns, with its counters. The fuel is one more
  -- than the calls that the oracle may get.
  unfoldable pub minimize : (max_rounds : ℕ) → List A → List B → Option Run
  unfolding ddmin
  minimize max_rounds rtl_log iss_log =
      let all = range_from 0 (min (length rtl_log) (length iss_log)) in
      let (failed, calls) = call_oracle max_rounds (fails_on rtl_log iss_log) 0 all in
      let shrunk = ddmin max_rounds (fails_on rtl_log iss_log) (suc max_rounds) all 2 calls 0 in
      if failed then shrunk else some (record { indices = all; calls = calls; rounds = 0 })

-- ===== src/Minimizer/Search.antt =====
-- Calls of the oracle, and the loops of `_ddmin` that look for a smaller failing list.
use ai_chip_design_platform.Common.{
  ℕ, suc, ◌≤◌, ◌<◌, Bool, true, false, Option, none, some, List, [], ◌∷◌, ltb, if◌then◌else◌, ◌≡◌,
  arith, if_ind,
}

abbrev pub is_nil : List ℕ → Bool
is_nil [] = true
is_nil (i ∷ is) = false

pub data IsAmong (c : List ℕ) : List (List ℕ) → Type 0 where
  first : {cs : List (List ℕ)} → IsAmong c (c ∷ cs)
  later : {d : List ℕ} {cs : List (List ℕ)} → IsAmong c cs → IsAmong c (d ∷ cs)

-- No candidate fails, but for the empty ones, which are not tried.
abbrev pub NoneFails : (List ℕ → Bool) → List (List ℕ) → Type 0
NoneFails fails cs = (c : List ℕ) → IsAmong c cs → is_nil c ≡ false → fails c ≡ false

-- With a candidate that is not empty, a call was made.
abbrev pub IsTried : List (List ℕ) → (calls k : ℕ) → Type 0
IsTried cs calls k = (c : List ℕ) → IsAmong c cs → is_nil c ≡ false → calls < k

module _ (max_rounds : ℕ) (fails : List ℕ → Bool) where
  -- `_call_oracle` on `_subset(indices)`: after `max_rounds` calls the answer is always no.
  unfoldable pub call_oracle : (calls : ℕ) → List ℕ → Bool × ℕ
  call_oracle calls indices =
      (if ltb max_rounds (suc calls) then false else fails indices, suc calls)

  -- A loop over candidates, the empty ones left out: the first that fails, and the calls made.
  unfoldable pub first_failing : (calls : ℕ) → List (List ℕ) → Option (List ℕ) × ℕ
  unfolding call_oracle
  first_failing calls [] = (none, calls)
  first_failing calls (c ∷ cs) =
      let (failed, calls') = call_oracle calls c in
      let skipped = first_failing calls cs in
      let next = first_failing calls' cs in
      if is_nil c then skipped else if failed then (some c, calls') else next

  -- How a search goes. With an answer: it is one of the candidates, and fails. Without one, and
  -- within the limit of calls: no candidate that is not empty fails.
  pub data Found (cs : List (List ℕ)) (calls : ℕ) : Option (List ℕ) × ℕ → Type 0 where
    found :
        {c : List ℕ} {k : ℕ}
        → IsAmong c cs
        → is_nil c ≡ false
        → fails c ≡ true
        → calls < k
        → Found cs calls (some c, k)
    nothing :
        {k : ℕ}
        → calls ≤ k
        → IsTried cs calls k
        → (k ≤ max_rounds → NoneFails fails cs)
        → Found cs calls (none, k)

IsTried-nil : (calls : ℕ) → IsTried [] calls calls
IsTried-nil calls c h = elim h [ ]

IsTried-skip :
    (d : List ℕ) (cs : List (List ℕ)) (calls k : ℕ)
    → is_nil d ≡ true
    → IsTried cs calls k
    → IsTried (d ∷ cs) calls k
IsTried-skip d cs calls k h t c first e = cc
IsTried-skip d cs calls k h t c (later m) e = t c m e

NoneFails-nil : (fails : List ℕ → Bool) → NoneFails fails []
NoneFails-nil fails c h = elim h [ ]

NoneFails-cons :
    (fails : List ℕ → Bool) (c : List ℕ) (cs : List (List ℕ))
    → (is_nil c ≡ false → fails c ≡ false)
    → NoneFails fails cs
    → NoneFails fails (c ∷ cs)
NoneFails-cons fails c cs h hs d first e = h e
NoneFails-cons fails c cs h hs d (later m) e = hs d m e

module _ (max_rounds : ℕ) (fails : List ℕ → Bool) where
  Found-skip :
      (c : List ℕ) (cs : List (List ℕ)) (calls : ℕ) {o : Option (List ℕ) × ℕ}
      → is_nil c ≡ true
      → Found max_rounds fails cs calls o
      → Found max_rounds fails (c ∷ cs) calls o
  Found-skip c cs calls e (found m p q r) = found (later m) p q r
  Found-skip c cs calls e (nothing l t h) =
      nothing l (IsTried-skip c cs calls _ e t) (λ k. NoneFails-cons fails c cs (λ f. cc) (h k))

  Found-next :
      (c : List ℕ) (cs : List (List ℕ)) (calls : ℕ) {o : Option (List ℕ) × ℕ}
      → (suc calls ≤ max_rounds → fails c ≡ false)
      → Found max_rounds fails cs (suc calls) o
      → Found max_rounds fails (c ∷ cs) calls o
  Found-next c cs calls e (found m p q r) = found (later m) p q (omega arith)
  Found-next c cs calls e (nothing l t h) =
      nothing (omega arith) (λ _ _ _. l)
        (λ k. NoneFails-cons fails c cs (λ _. e (omega arith)) (h k))

  pub first_failing-Found :
      (calls : ℕ) (cs : List (List ℕ))
      → Found max_rounds fails cs calls (first_failing max_rounds fails calls cs)
  unfolding first_failing
  first_failing-Found calls [] =
      nothing (omega arith) (IsTried-nil calls) (λ _. NoneFails-nil fails)
  first_failing-Found calls (c ∷ cs) =
      if_ind (Found max_rounds fails (c ∷ cs) calls) (is_nil c)
        (λ e. Found-skip c cs calls e (first_failing-Found calls cs))
        (λ e.
          if_ind (Found max_rounds fails (c ∷ cs) calls)
            (if ltb max_rounds (suc calls) then false else fails c)
            (λ f. found first e (ground arith) (omega arith))
            (λ f. Found-next c cs calls (λ l. ground arith) (first_failing-Found (suc calls) cs)))

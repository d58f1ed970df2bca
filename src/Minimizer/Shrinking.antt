-- ===== src/Minimizer/Shrinking.antt =====
-- `_ddmin` ends with a failing part of the list that it was given, and what it cannot shrink.
use ai_chip_design_platform.Common.{
  ℕ, zero, suc, ◌+◌, ◌-◌, ◌*◌, ◌/◌, ◌≤◌, ◌<◌, min, max, Bool, true, false, Option, some, List, [],
  ◌∷◌, ◌||◌, ◌==◌, ltb, leb, ◌≡◌, subst, sym, arith, length, map, contains, if_ind,
}
use native.Mathlib.Nat.{div-lt_iff_lt-mul}
use ai_chip_design_platform.Minimizer.Search.{
  IsAmong, first, is_nil, Found, found, nothing, first_failing-Found, IsTried,
}
use ai_chip_design_platform.Minimizer.Chunks.{
  chunks_of, complement, IsPart, IsPart-refl, IsPart-trans, IsPart-chunk, IsPart-map_complement,
  IsAmong-single, IsAmong-map, take, is_nil-take,
}
use ai_chip_design_platform.Minimizer.{Run, chunk_size, on_complement, on_chunk, ddmin}

-- Without any one of its elements the list no longer fails, unless nothing is left.
abbrev pub IsOneMinimal : (List ℕ → Bool) → List ℕ → Type 0
IsOneMinimal fails xs =
    (x : ℕ)
    → contains ◌==◌ x xs ≡ true
    → is_nil (complement xs (x ∷ [])) ≡ false
    → fails (complement xs (x ∷ [])) ≡ false

IsOneMinimal-single : (fails : List ℕ → Bool) (xs : List ℕ) → length xs ≡ 1 → IsOneMinimal fails xs
unfolding complement
IsOneMinimal-single fails [] h x c e = ground arith
IsOneMinimal-single fails (a ∷ []) h x c e = ground arith
IsOneMinimal-single fails (a ∷ b ∷ xs) h x c e = ground arith

chunk_size_one : (n g : ℕ) → n ≤ g → 2 ≤ g → chunk_size n g ≡ 1
chunk_size_one n g h k = omega (arith, below_two)
  where
    below_two : (n + g - 1) / g < 2
    below_two = (div-lt_iff_lt-mul (omega arith)).1 (omega arith)

-- How a search for a part of `xs` ends.
pub data Ends (max_rounds : ℕ) (fails : List ℕ → Bool) (xs : List ℕ) : Option Run → Type 0 where
  ends :
      {r : Run}
      → IsPart r.indices xs
      → fails r.indices ≡ true
      → (r.calls < max_rounds → IsOneMinimal fails r.indices)
      → Ends max_rounds fails xs (some r)

module _ (max_rounds : ℕ) (fails : List ℕ → Bool) where
  Ends-part :
      {xs ys : List ℕ} {o : Option Run}
      → IsPart xs ys
      → Ends max_rounds fails xs o
      → Ends max_rounds fails ys o
  Ends-part p (ends q f m) = ends (IsPart-trans q p) f m

  -- What a recursive call gives, after some more calls of the oracle than `calls`.
  abbrev Continues : (List ℕ → ℕ → ℕ → ℕ → Option Run) → (calls : ℕ) → Type 0
  Continues rec calls =
      (c : List ℕ) (granularity k rounds : ℕ)
      → 2 ≤ granularity
      → calls < k
      → fails c ≡ true
      → Ends max_rounds fails c (rec c granularity k rounds)

  on_complement-Ends :
      (rec : List ℕ → ℕ → ℕ → ℕ → Option Run) (xs : List ℕ) (g rounds calls k : ℕ)
      → 2 ≤ g
      → fails xs ≡ true
      → Continues rec calls
      → calls ≤ k
      → (1 ≤ length xs → calls < k)
      → {o : Option (List ℕ) × ℕ}
      → Found max_rounds fails (map (complement xs) (chunks_of (chunk_size (length xs) g) g xs)) k o
      → Ends max_rounds fails xs (on_complement rec xs g rounds o)
  on_complement-Ends rec xs g rounds calls k two f next l t (found {c = c} {k = k'} m p q r) =
      Ends-part (IsPart-map_complement xs _ m)
        (next c (max 2 (g - 1)) k' rounds (omega arith) (omega arith) q)
  on_complement-Ends rec xs g rounds calls k two f next l t (nothing {k = k'} l' t' none_fails) =
      if_ind (Ends max_rounds fails xs) (ltb g (length xs))
        (λ h. next xs (min (g * 2) (length xs)) k' rounds (ground arith) (ground arith) f)
        (λ h. ends (IsPart-refl xs) f (λ below x c e.
          none_fails (omega arith) (complement xs (x ∷ []))
            (IsAmong-map (complement xs) (
              subst (λ s. IsAmong (x ∷ []) (chunks_of s g xs))
                (sym (chunk_size_one (length xs) g (ground arith) two))
                (IsAmong-single g x xs c (ground arith))))
            e))

  first_chunk :
      (xs : List ℕ) (g calls k : ℕ)
      → 2 ≤ g
      → IsTried (chunks_of (chunk_size (length xs) g) g xs) calls k
      → 1 ≤ length xs
      → calls < k
  unfolding chunks_of
  first_chunk [] g calls k two t h = ground arith
  first_chunk (x ∷ xs) zero calls k two t h = ground arith
  first_chunk (x ∷ xs) (suc g) calls k two t h =
      t (take (chunk_size (suc (length xs)) (suc g)) (x ∷ xs)) first
        (is_nil-take (chunk_size (suc (length xs)) (suc g)) x xs (omega arith))

  on_chunk-Ends :
      (rec : List ℕ → ℕ → ℕ → ℕ → Option Run) (xs : List ℕ) (g rounds calls : ℕ)
      → 2 ≤ g
      → fails xs ≡ true
      → Continues rec calls
      → {o : Option (List ℕ) × ℕ}
      → Found max_rounds fails (chunks_of (chunk_size (length xs) g) g xs) calls o
      → Ends max_rounds fails xs
          (on_chunk max_rounds fails rec xs (chunks_of (chunk_size (length xs) g) g xs) g rounds o)
  on_chunk-Ends rec xs g rounds calls two f next (found {c = c} {k = k} m p q r) =
      Ends-part (IsPart-chunk _ g xs m) (next c 2 k rounds (omega arith) r q)
  on_chunk-Ends rec xs g rounds calls two f next (nothing {k = k} l t h) =
      on_complement-Ends rec xs g rounds calls k two f next l (first_chunk xs g calls k two t) (
        first_failing-Found max_rounds fails k
          (map (complement xs) (chunks_of (chunk_size (length xs) g) g xs)))

  pub ddmin-Ends :
      (fuel : ℕ) (xs : List ℕ) (g calls rounds : ℕ)
      → 2 ≤ g
      → 1 ≤ fuel
      → max_rounds < fuel + calls
      → fails xs ≡ true
      → Ends max_rounds fails xs (ddmin max_rounds fails fuel xs g calls rounds)
  unfolding ddmin
  ddmin-Ends zero xs g calls rounds two some_fuel enough f = ground arith
  ddmin-Ends (suc fuel) xs g calls rounds two some_fuel enough f =
      if_ind (Ends max_rounds fails xs) (length xs == 1 || leb max_rounds calls)
        (λ h. ends (IsPart-refl xs) f (λ below. IsOneMinimal-single fails xs (ground arith)))
        (λ h.
          on_chunk-Ends (ddmin max_rounds fails fuel) xs g (suc rounds) calls two f
            (λ c g' k rounds' two' more f'.
              ddmin-Ends fuel c g' k rounds' two' (ground arith) (ground arith) f')
            (first_failing-Found max_rounds fails calls _))

-- ===== src/Minimizer/Chunks.antt =====
-- Cutting an index list into chunks, and taking a chunk out.
use ai_chip_design_platform.Common.{
  ℕ, zero, suc, ◌≤◌, true, false, List, [], ◌∷◌, ◌==◌, if◌then◌else◌, ◌≡◌, refl, arith, length,
  contains, drop, map, if_ind, Bool-cases, inl, inr, subst, ==_iff,
}
use ai_chip_design_platform.Minimizer.Search.{IsAmong, first, later, is_nil}

module _ {ℓ} {A : Type ℓ} where
  abbrev pub take : ℕ → List A → List A
  take zero xs = []
  take (suc n) [] = []
  take (suc n) (x ∷ xs) = x ∷ take n xs

-- `[indices[i * size:(i + 1) * size] for i in range(count)]`
unfoldable pub chunks_of : (size count : ℕ) → List ℕ → List (List ℕ)
chunks_of size zero xs = []
chunks_of size (suc count) xs = take size xs ∷ chunks_of size count (drop size xs)

-- `[idx for idx in indices if idx not in chunk]`
unfoldable pub complement : List ℕ → List ℕ → List ℕ
complement [] chunk = []
complement (i ∷ indices) chunk =
    let rest = complement indices chunk in if contains ◌==◌ i chunk then rest else i ∷ rest

-- The first list is the second with elements left out.
pub data IsPart : List ℕ → List ℕ → Type 0 where
  nil : IsPart [] []
  keep : {x : ℕ} {xs ys : List ℕ} → IsPart xs ys → IsPart (x ∷ xs) (x ∷ ys)
  skip : {y : ℕ} {xs ys : List ℕ} → IsPart xs ys → IsPart xs (y ∷ ys)

pub IsPart-refl : (xs : List ℕ) → IsPart xs xs
IsPart-refl [] = nil
IsPart-refl (x ∷ xs) = keep (IsPart-refl xs)

IsPart-nil : (xs : List ℕ) → IsPart [] xs
IsPart-nil [] = nil
IsPart-nil (x ∷ xs) = skip (IsPart-nil xs)

pub IsPart-trans : {xs ys zs : List ℕ} → IsPart xs ys → IsPart ys zs → IsPart xs zs
IsPart-trans h nil = h
IsPart-trans h (skip k) = skip (IsPart-trans h k)
IsPart-trans (keep h) (keep k) = keep (IsPart-trans h k)
IsPart-trans (skip h) (keep k) = skip (IsPart-trans h k)

IsPart-take : (n : ℕ) (xs : List ℕ) → IsPart (take n xs) xs
IsPart-take zero xs = IsPart-nil xs
IsPart-take (suc n) [] = nil
IsPart-take (suc n) (x ∷ xs) = keep (IsPart-take n xs)

IsPart-drop : (n : ℕ) (xs : List ℕ) → IsPart (drop n xs) xs
IsPart-drop zero xs = IsPart-refl xs
IsPart-drop (suc n) [] = nil
IsPart-drop (suc n) (x ∷ xs) = skip (IsPart-drop n xs)

pub IsPart-complement : (xs chunk : List ℕ) → IsPart (complement xs chunk) xs
unfolding complement
IsPart-complement [] chunk = nil
IsPart-complement (x ∷ xs) chunk =
    if_ind (λ ys. IsPart ys (x ∷ xs)) (contains ◌==◌ x chunk)
      (λ _. skip (IsPart-complement xs chunk)) (λ _. keep (IsPart-complement xs chunk))

pub IsPart-chunk :
    (size count : ℕ) (xs : List ℕ) {c : List ℕ} → IsAmong c (chunks_of size count xs) → IsPart c xs
unfolding chunks_of
IsPart-chunk size zero xs h = elim h [ ]
IsPart-chunk size (suc count) xs first = IsPart-take size xs
IsPart-chunk size (suc count) xs (later h) =
    IsPart-trans (IsPart-chunk size count (drop size xs) h) (IsPart-drop size xs)

-- A list that is not empty has a first chunk that is not empty.
pub is_nil-take : (size : ℕ) (x : ℕ) (xs : List ℕ) → 1 ≤ size → is_nil (take size (x ∷ xs)) ≡ false
is_nil-take zero x xs h = ground arith
is_nil-take (suc size) x xs h = refl

-- Chunks of size one, as many as there are elements, are the single elements.
pub IsAmong-single :
    (count x : ℕ) (xs : List ℕ)
    → contains ◌==◌ x xs ≡ true
    → length xs ≤ count
    → IsAmong (x ∷ []) (chunks_of 1 count xs)
unfolding chunks_of
IsAmong-single count x [] h l = ground arith
IsAmong-single zero x (y ∷ ys) h l = ground arith
IsAmong-single (suc count) x (y ∷ ys) h l = elim (Bool-cases (x == y)) [
  | inl e ↦ subst (λ z. IsAmong (x ∷ []) ((z ∷ []) ∷ chunks_of 1 count ys)) ((==_iff x y).0 e) first
  | inr e ↦ later (IsAmong-single count x ys (ground arith) (omega arith))
]

pub IsAmong-map :
    (f : List ℕ → List ℕ) {c : List ℕ} {cs : List (List ℕ)}
    → IsAmong c cs
    → IsAmong (f c) (map f cs)
IsAmong-map f first = first
IsAmong-map f (later h) = later (IsAmong-map f h)

pub IsPart-map_complement :
    (xs : List ℕ) (cs : List (List ℕ)) {d : List ℕ}
    → IsAmong d (map (complement xs) cs)
    → IsPart d xs
IsPart-map_complement xs [] h = elim h [ ]
IsPart-map_complement xs (c ∷ cs) first = IsPart-complement xs c
IsPart-map_complement xs (c ∷ cs) (later h) = IsPart-map_complement xs cs h

-- ===== src/Cache/Ways.antt =====
-- The ways of one set, and the victim that `CacheModel.access` chooses among them.
use ai_chip_design_platform.Common.{
  ℕ, zero, suc, ◌+◌, ◌<◌, ◌≤◌, Bool, true, false, Option, none, some, List, [], ◌∷◌, ◌&&◌, ◌==◌,
  ltb, ◌≡◌, refl, arith, if◌then◌else◌, length, ap, ◌∙◌, if_ind,
}

pub record Way : Type 0 where
  pub valid : Bool
  pub tag : ℕ
  pub dirty : Bool
  pub ts : ℕ

abbrev pub empty_way : Way
empty_way = record { valid = false; tag = 0; dirty = false; ts = 0 }

abbrev pub next : Option ℕ → Option ℕ
next none = none
next (some k) = some (suc k)

-- The first way that holds the line.
abbrev pub hit_way : ℕ → List Way → Option ℕ
hit_way tag [] = none
hit_way tag (w ∷ ws) = if w.valid && w.tag == tag then some 0 else next (hit_way tag ws)

-- The first way that holds nothing.
abbrev pub first_invalid : List Way → Option ℕ
first_invalid [] = none
first_invalid (w ∷ ws) = if w.valid then next (first_invalid ws) else some 0

-- `min(…, key=ts)`: of the ways with the least time, the first. `best` is the one so far.
abbrev pub oldest : (best ts k : ℕ) → List Way → ℕ
oldest best ts k [] = best
oldest best ts k (w ∷ ws) =
    if ltb w.ts ts then oldest k w.ts (suc k) ws else oldest best ts (suc k) ws

abbrev pub oldest_of : List Way → ℕ
oldest_of [] = 0
oldest_of (w ∷ ws) = oldest 0 w.ts 1 ws

unfoldable pub victim_of : List Way → ℕ
victim_of ws = elim (first_invalid ws) [ some k ↦ k | none ↦ oldest_of ws ]

abbrev pub way_at : ℕ → List Way → Way
way_at k [] = empty_way
way_at zero (w ∷ ws) = w
way_at (suc k) (w ∷ ws) = way_at k ws

-- The list in which the element at a position is changed.
abbrev pub modify : {A : Type 0} → ℕ → (A → A) → List A → List A
modify k f [] = []
modify zero f (x ∷ xs) = f x ∷ xs
modify (suc k) f (x ∷ xs) = x ∷ modify k f xs

-- `self.sets[index]`; an index is always in range.
abbrev pub ways_at : ℕ → List (List Way) → List Way
ways_at k [] = []
ways_at zero (ws ∷ sets) = ws
ways_at (suc k) (ws ∷ sets) = ways_at k sets

pub length-modify :
    {A : Type 0} (k : ℕ) (f : A → A) (xs : List A) → length (modify k f xs) ≡ length xs
length-modify k f [] = refl
length-modify zero f (x ∷ xs) = refl
length-modify (suc k) f (x ∷ xs) = ap suc (length-modify k f xs)

pub ways_at-modify :
    (k : ℕ) (f : List Way → List Way) (sets : List (List Way))
    → k < length sets
    → ways_at k (modify k f sets) ≡ f (ways_at k sets)
ways_at-modify k f [] h = ground arith
ways_at-modify zero f (ws ∷ sets) h = refl
ways_at-modify (suc k) f (ws ∷ sets) h = ways_at-modify k f sets (omega arith)

-- A change that keeps the flags and the tags moves no line.
pub hit_way-modify :
    (tag k : ℕ) (f : Way → Way) (ws : List Way)
    → ((w : Way) → (f w).valid ≡ w.valid)
    → ((w : Way) → (f w).tag ≡ w.tag)
    → hit_way tag (modify k f ws) ≡ hit_way tag ws
hit_way-modify tag k f [] v t = refl
hit_way-modify tag zero f (w ∷ ws) v t =
    ap (λ b. if b && (f w).tag == tag then some 0 else next (hit_way tag ws)) (v w)
    ∙ ap (λ n. if w.valid && n == tag then some 0 else next (hit_way tag ws)) (t w)
hit_way-modify tag (suc k) f (w ∷ ws) v t =
    ap (λ o. if w.valid && w.tag == tag then some 0 else next o) (hit_way-modify tag k f ws v t)

-- A position of a list, if it is given.
abbrev IsPosition : ℕ → Option ℕ → Type 0
IsPosition n none = Unit
IsPosition n (some k) = k < n

next-IsPosition : (n : ℕ) (o : Option ℕ) → IsPosition n o → IsPosition (suc n) (next o)
next-IsPosition n none h = tt
next-IsPosition n (some k) h = omega arith

first_invalid-IsPosition : (ws : List Way) → IsPosition (length ws) (first_invalid ws)
first_invalid-IsPosition [] = tt
first_invalid-IsPosition (w ∷ ws) =
    if_ind (IsPosition (suc (length ws))) w.valid
      (λ h. next-IsPosition (length ws) (first_invalid ws) (first_invalid-IsPosition ws))
      (λ h. omega arith)

oldest-bound : (best ts k : ℕ) (ws : List Way) → best < k → oldest best ts k ws < k + length ws
oldest-bound best ts k [] h = omega arith
oldest-bound best ts k (w ∷ ws) h =
    if_ind (λ n. n < k + suc (length ws)) (ltb w.ts ts)
      (λ e. omega (arith, oldest-bound k w.ts (suc k) ws (omega arith)))
      (λ e. omega (arith, oldest-bound best ts (suc k) ws (omega arith)))

oldest_of-bound : (ws : List Way) → 1 ≤ length ws → oldest_of ws < length ws
oldest_of-bound [] h = h
oldest_of-bound (w ∷ ws) h = omega (arith, oldest-bound 0 w.ts 1 ws (omega arith))

pub victim_of-bound : (ws : List Way) → 1 ≤ length ws → victim_of ws < length ws
unfolding victim_of
victim_of-bound ws h = chosen (first_invalid ws) (first_invalid-IsPosition ws)
  where
    chosen :
        (o : Option ℕ)
        → IsPosition (length ws) o
        → (elim o [ some k ↦ k | none ↦ oldest_of ws ]) < length ws
    chosen none p = oldest_of-bound ws h
    chosen (some k) p = p

next-none : (o : Option ℕ) → next o ≡ none → o ≡ none
next-none none h = refl
next-none (some k) h = ground arith

-- A line that was not there is found where it is put.
pub hit_way-fill :
    (tag k : ℕ) (v : Way) (ws : List Way)
    → (v.valid && v.tag == tag) ≡ true
    → k < length ws
    → hit_way tag ws ≡ none
    → hit_way tag (modify k (λ w. v) ws) ≡ some k
hit_way-fill tag k v [] hv hk h = ground arith
hit_way-fill tag zero v (w ∷ ws) hv hk h = ap (λ b. if b then some 0 else next (hit_way tag ws)) hv
hit_way-fill tag (suc k) v (w ∷ ws) hv hk h =
    behind (w.valid && w.tag == tag) (hit_way-fill tag k v ws hv (omega arith)) h
  where
    behind :
        (b : Bool)
        → (hit_way tag ws ≡ none → hit_way tag (modify k (λ w. v) ws) ≡ some k)
        → (if b then some 0 else next (hit_way tag ws)) ≡ none
        → (if b then some 0 else next (hit_way tag (modify k (λ w. v) ws))) ≡ some (suc k)
    behind true later e = ground arith
    behind false later e = ap next (later (next-none (hit_way tag ws) e))

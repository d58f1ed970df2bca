-- ===== src/Coherence/Order.antt =====
-- `indexed.sort(key=lambda p: (cycle, p[0]))` in `CoherenceVerifier.run`: the list is in the order of
-- the indices, so this sorts by the cycles and keeps the order of equal ones.
use ai_chip_design_platform.Common.{
  ℕ, suc, ℤ, leb_ℤ, Option, none, some, List, [], ◌∷◌, map, if◌then◌else◌,
}

module _ {ℓ} {A : Type ℓ} where
  abbrev pub enumerate_from : ℕ → List A → List (ℕ × A)
  enumerate_from i [] = []
  enumerate_from i (x ∷ xs) = (i, x) ∷ enumerate_from (suc i) xs

  -- Each event with its cycle, if all of them have one.
  abbrev with_cycle : ℕ × A → Option ℤ → Option (List (ℤ × (ℕ × A))) → Option (List (ℤ × (ℕ × A)))
  with_cycle p (some c) (some rest) = some ((c, p) ∷ rest)
  with_cycle p (some c) none = none
  with_cycle p none rest = none

  abbrev pub with_cycles : (A → Option ℤ) → List (ℕ × A) → Option (List (ℤ × (ℕ × A)))
  with_cycles cycle_of [] = some []
  with_cycles cycle_of (p ∷ ps) = with_cycle p (cycle_of p.1) (with_cycles cycle_of ps)

  abbrev pub insert_by_cycle : ℤ × (ℕ × A) → List (ℤ × (ℕ × A)) → List (ℤ × (ℕ × A))
  insert_by_cycle p [] = p ∷ []
  insert_by_cycle p (q ∷ qs) = if leb_ℤ p.0 q.0 then p ∷ q ∷ qs else q ∷ insert_by_cycle p qs

  abbrev pub sort_by_cycle : List (ℤ × (ℕ × A)) → List (ℤ × (ℕ × A))
  sort_by_cycle [] = []
  sort_by_cycle (p ∷ ps) = insert_by_cycle p (sort_by_cycle ps)

  abbrev sorted_or : List (ℕ × A) → Option (List (ℤ × (ℕ × A))) → List (ℕ × A)
  sorted_or ps none = ps
  sorted_or ps (some qs) = map (λ q. q.1) (sort_by_cycle qs)

  -- The indexed events in the order in which they are seen by all cores.
  unfoldable pub in_order : (A → Option ℤ) → List A → List (ℕ × A)
  in_order cycle_of xs = let ps = enumerate_from 0 xs in sorted_or ps (with_cycles cycle_of ps)

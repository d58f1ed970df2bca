-- ===== src/Cache/Again.antt =====
-- A line that was accessed is in the cache.
use ai_chip_design_platform.Common.{
  ℕ, zero, suc, ◌≤◌, ◌<◌, ◌%◌, ◌/◌, ℤ, Bool, true, Option, none, some, List, [], ◌∷◌, ◌==◌, ◌≡◌,
  refl, sym, ap, ◌∙◌, subst, arith, length, All,
}
use ai_chip_design_platform.Cache.Ways.{
  Way, hit_way, victim_of, modify, ways_at, ways_at-modify, hit_way-modify, hit_way-fill,
  victim_of-bound,
}
use ai_chip_design_platform.Cache.{
  CacheModel, block_of, index_of, tag_of, access, on_lookup, on_hit, on_miss, with_way, touch, fill,
}

-- The sets are as many as the model says, at least one, and each has at least one way.
pub record IsGeometry (m : CacheModel) : Type 0 where
  pub some_set : 1 ≤ m.num_sets
  pub all_sets : length m.sets ≡ m.num_sets
  pub some_way : All (λ ws. 1 ≤ length ws) m.sets

holds_at :
    (sets : List (List Way)) (k : ℕ)
    → All (λ ws. 1 ≤ length ws) sets
    → k < length sets
    → 1 ≤ length (ways_at k sets)
holds_at [] k h b = ground arith
holds_at (ws ∷ sets) zero h b = h.0
holds_at (ws ∷ sets) (suc k) h b = holds_at sets k h.1 (omega arith)

remainder_lt : (n d : ℕ) → 1 ≤ d → n % d < d
remainder_lt n d h = grind arith

index_of-bound : (m : CacheModel) (a : ℤ) → IsGeometry m → index_of m a < length m.sets
index_of-bound m a g = omega (arith, remainder_lt (block_of m a) m.num_sets g.some_set, g.all_sets)

same : (n : ℕ) → (n == n) ≡ true
same n = grind arith

-- The set of an address, and where the line of the address stands in it.
abbrev found : CacheModel → ℤ → Option ℕ
found m a = hit_way (tag_of m a) (ways_at (index_of m a) m.sets)

hits :
    (m : CacheModel) (a : ℤ) (w : Bool) {k : ℕ}
    → found m a ≡ some k
    → let r = (access m a w).0 in (r.hit ≡ true) × (r.way ≡ k)
unfolding access on_hit
hits m a w {k} h =
    subst
      (λ o.
        let r = (on_lookup m a w (ways_at (index_of m a) m.sets) o).0 in
        (r.hit ≡ true) × (r.way ≡ k))
      (sym h) (refl, refl)

-- A line that a change puts at a way is found there, by each address of its block.
found-with_way :
    (m : CacheModel) (a b : ℤ) (k : ℕ) (f : Way → Way)
    → index_of m a < length m.sets
    → block_of m a ≡ block_of m b
    → hit_way (tag_of m a) (modify k f (ways_at (index_of m a) m.sets)) ≡ some k
    → found (with_way m (index_of m a) k f) b ≡ some k
found-with_way m a b k f i e h =
    subst
      (λ n.
        hit_way (n / m.num_sets)
          (ways_at (n % m.num_sets) (modify (index_of m a) (modify k f) m.sets))
        ≡ some k)
      e (ap (hit_way (tag_of m a)) (ways_at-modify (index_of m a) (modify k f) m.sets i) ∙ h)

-- After an access, an access to any address of the same line hits, at the way of the first.
pub access_again :
    (m : CacheModel) (a b : ℤ) (w w' : Bool)
    → IsGeometry m
    → block_of m a ≡ block_of m b
    → let first = access m a w in
      let second = (access first.1 b w').0 in (second.hit ≡ true) × (second.way ≡ first.0.way)
unfolding access on_hit on_miss
access_again m a b w w' g e = by_lookup (found m a) refl
  where
    i : index_of m a < length m.sets
    i = index_of-bound m a g

    ways : List Way
    ways = ways_at (index_of m a) m.sets

    by_lookup :
        (o : Option ℕ)
        → found m a ≡ o
        → let first = on_lookup m a w (ways_at (index_of m a) m.sets) o in
          let second = (access first.1 b w').0 in (second.hit ≡ true) × (second.way ≡ first.0.way)
    by_lookup (some k) h = hits (with_way m (index_of m a) k (touch m w)) b w' (
        found-with_way m a b k (touch m w) i e (
          hit_way-modify (tag_of m a) k (touch m w) (ways_at (index_of m a) m.sets) (λ v. refl)
            (λ v. refl)
          ∙ h))
    by_lookup none h =
        let ws = ways_at (index_of m a) m.sets in
        let v = fill m w (tag_of m a) in
        hits (with_way m (index_of m a) (victim_of ws) (λ _. v)) b w' (
          found-with_way m a b (victim_of ws) (λ _. v) i e
            (hit_way-fill (tag_of m a) (victim_of ws) v ws (same (tag_of m a))
              (victim_of-bound ws (holds_at m.sets (index_of m a) g.some_way i)) h))

-- ===== src/Cache/Reached.antt =====
-- The caches that `CacheModel.__init__` and a sequence of accesses lead to.
use ai_chip_design_platform.Common.{
  ℕ, zero, suc, ◌≤◌, ℤ, pos, negsuc, Bool, true, Option, none, some, List, [], ◌∷◌, ◌≡◌, refl, ap,
  ◌∙◌, arith, length, All, ok, raise, value_error, Ensures, returns, raises, ensured,
}
use ai_chip_design_platform.Cache.Ways.{
  Way, empty_way, hit_way, victim_of, modify, ways_at, length-modify,
}
use ai_chip_design_platform.Cache.{
  CacheModel, Policy, WritePolicy, block_of, index_of, tag_of, access, on_lookup, on_hit, on_miss,
  with_way, touch, fill, log2, at_least_one, replicate, new_cache,
}
use ai_chip_design_platform.Cache.Again.{IsGeometry, access_again}

All-modify :
    {A : Type 0} (P : A → Type 0) (k : ℕ) (f : A → A) (xs : List A)
    → ((x : A) → P x → P (f x))
    → All P xs
    → All P (modify k f xs)
All-modify P k f [] keeps h = h
All-modify P zero f (x ∷ xs) keeps h = (keeps x h.0, h.1)
All-modify P (suc k) f (x ∷ xs) keeps h = (h.0, All-modify P k f xs keeps h.1)

All-replicate : {A : Type 0} (P : A → Type 0) (n : ℕ) (x : A) → P x → All P (replicate n x)
All-replicate P zero x h = tt
All-replicate P (suc n) x h = (h, All-replicate P n x h)

length-replicate : {A : Type 0} (n : ℕ) (x : A) → length (replicate n x) ≡ n
length-replicate zero x = refl
length-replicate (suc n) x = ap suc (length-replicate n x)

at_least_one-positive : (n : ℤ) → 1 ≤ at_least_one n
at_least_one-positive (pos n) = omega arith
at_least_one-positive (negsuc n) = omega arith

with_way-IsGeometry :
    (m : CacheModel) (i k : ℕ) (f : Way → Way) → IsGeometry m → IsGeometry (with_way m i k f)
with_way-IsGeometry m i k f g = record {
  some_set = g.some_set;
  all_sets = length-modify i (modify k f) m.sets ∙ g.all_sets;
  some_way =
      All-modify (λ ws. 1 ≤ length ws) i (modify k f) m.sets
        (λ ws h. omega (arith, length-modify k f ws, h)) g.some_way;
}

access-IsGeometry : (m : CacheModel) (a : ℤ) (w : Bool) → IsGeometry m → IsGeometry (access m a w).1
unfolding access on_hit on_miss
access-IsGeometry m a w g = by_lookup (hit_way (tag_of m a) (ways_at (index_of m a) m.sets))
  where
    by_lookup : (o : Option ℕ) → IsGeometry (on_lookup m a w (ways_at (index_of m a) m.sets) o).1
    by_lookup (some k) = with_way-IsGeometry m (index_of m a) k (touch m w) g
    by_lookup none =
        with_way-IsGeometry m (index_of m a) (victim_of (ways_at (index_of m a) m.sets))
          (λ _. fill m w (tag_of m a)) g

new_cache-IsGeometry :
    (s w l : ℤ) (p : Policy) (q : WritePolicy) → Ensures IsGeometry (new_cache s w l p q)
unfolding new_cache
new_cache-IsGeometry s w l p q = by_line (log2 l)
  where
    by_line :
        (o : Option ℕ)
        → Ensures IsGeometry (elim o [
          | none ↦ raise value_error
          | some bits ↦ ok (record {
            num_sets = at_least_one s;
            line_bits = bits;
            policy = p;
            write_policy = q;
            time = 0;
            sets = replicate (at_least_one s) (replicate (at_least_one w) empty_way);
          })
        ])
    by_line none = raises
    by_line (some bits) = returns (record {
      some_set = at_least_one-positive s;
      all_sets = length-replicate (at_least_one s) (replicate (at_least_one w) empty_way);
      some_way =
          All-replicate (λ ws. 1 ≤ length ws) (at_least_one s)
            (replicate (at_least_one w) empty_way)
            (omega (arith, length-replicate (at_least_one w) empty_way, at_least_one-positive w));
    })

-- The cache after a sequence of accesses.
unfoldable pub after : CacheModel → List (ℤ × Bool) → CacheModel
after m [] = m
after m ((a, w) ∷ trace) = after (access m a w).1 trace

after-IsGeometry :
    (m : CacheModel) (trace : List (ℤ × Bool)) → IsGeometry m → IsGeometry (after m trace)
unfolding after
after-IsGeometry m [] g = g
after-IsGeometry m ((a, w) ∷ trace) g =
    after-IsGeometry (access m a w).1 trace (access-IsGeometry m a w g)

-- In a new cache, after any sequence of accesses, an access to the line that was accessed last
-- hits, at the way of that access.
pub access_again_reached :
    (sets ways line_size : ℤ) (p : Policy) (q : WritePolicy) {new : CacheModel}
    → new_cache sets ways line_size p q ≡ ok new
    → (trace : List (ℤ × Bool)) (a b : ℤ) (w w' : Bool)
    → block_of (after new trace) a ≡ block_of (after new trace) b
    → let first = access (after new trace) a w in
      let second = (access first.1 b w').0 in (second.hit ≡ true) × (second.way ≡ first.0.way)
access_again_reached sets ways line_size p q {new} made trace a b w w' e =
    access_again (after new trace) a b w w'
      (after-IsGeometry new trace
        (ensured {P = IsGeometry} (new_cache-IsGeometry sets ways line_size p q) made))
      e

-- ===== src/Cache/Verifier/Counts.antt =====
-- The counters of the cache verifier and its limit of violations.
use ai_chip_design_platform.Common.{
  ℕ, suc, ◌+◌, ◌≤◌, ◌<◌, ℤ, Bool, true, false, Option, none, some, List, [], ◌∷◌, ltb, ◌≡◌, refl,
  arith, length, not, length-append, if_ind,
}
use ai_chip_design_platform.Cache.Ways.{hit_way, ways_at}
use ai_chip_design_platform.Cache.{
  CacheModel, CacheResult, access, on_lookup, on_hit, on_miss, tag_of, index_of,
}
use ai_chip_design_platform.Cache.Verifier.{
  Access, Record, not_object, ill_typed, accesses, CacheViolation, Event, Kind, load, store,
  VerifierState, flag, flag_if, compare_event, compare_if, check_data, check_access, check_entry,
  check_record, check_one, check_from, run, initial_state, count_access, count, count_checked,
  is_store, is_evicting, or_position, hit_violation, eviction_violation, writeback_violation,
  data_violation, last_write,
}

-- Each access is a hit or a miss, only misses evict, an access is checked at most once, and there
-- are no more violations than allowed.
pub record IsConsistent (max_violations : ℕ) (st : VerifierState) : Type 0 where
  pub split : st.stats.hits + st.stats.misses ≡ st.stats.accesses
  pub evicted : st.stats.evictions ≤ st.stats.misses
  pub compared : st.stats.checked ≤ st.stats.accesses
  pub limited : length st.violations ≤ max_violations

-- The same before the comparison of an access, which may count one check more.
record IsPending (max_violations : ℕ) (st : VerifierState) : Type 0 where
  pub split : st.stats.hits + st.stats.misses ≡ st.stats.accesses
  pub evicted : st.stats.evictions ≤ st.stats.misses
  pub compared : st.stats.checked < st.stats.accesses
  pub limited : length st.violations ≤ max_violations

flag_limit :
    (n : ℕ) (v : CacheViolation) (st : VerifierState)
    → length st.violations ≤ n
    → length (flag n v st).violations ≤ n
flag_limit n v st h =
    if_ind (λ vs. length vs ≤ n) (ltb (length st.violations) n)
      (λ e. ground (arith, length-append st.violations (v ∷ []))) (λ e. h)

flag_if-IsConsistent :
    (n : ℕ) (o : Option CacheViolation) (st : VerifierState)
    → IsConsistent n st
    → IsConsistent n (flag_if n o st)
flag_if-IsConsistent n none st h = h
flag_if-IsConsistent n (some v) st h = record {
  split = h.split;
  evicted = h.evicted;
  compared = h.compared;
  limited = flag_limit n v st h.limited;
}

-- A hit evicts nothing.
abbrev KeepsOnHit : CacheResult → Type 0
KeepsOnHit r = is_evicting r.victim_addr ≡ true → r.hit ≡ false

access-KeepsOnHit : (m : CacheModel) (a : ℤ) (w : Bool) → KeepsOnHit (access m a w).0
unfolding access on_hit on_miss
access-KeepsOnHit m a w = by_lookup (hit_way (tag_of m a) (ways_at (index_of m a) m.sets))
  where
    by_lookup : (o : Option ℕ) → KeepsOnHit (on_lookup m a w (ways_at (index_of m a) m.sets) o).0
    by_lookup none e = refl
    by_lookup (some k) e = ground arith

-- The state after an access has been counted.
abbrev accessed : CacheModel → CacheResult → VerifierState → VerifierState
accessed m r st = record st { model = m; stats = count_access r st.stats }

count_access-IsConsistent :
    (n : ℕ) (m : CacheModel) (r : CacheResult) (st : VerifierState)
    → KeepsOnHit r
    → IsConsistent n st
    → IsPending n (accessed m r st)
count_access-IsConsistent n m r st keeps h = by_case r.hit (is_evicting r.victim_addr) keeps
  where
    by_case :
        (hit gone : Bool)
        → (gone ≡ true → hit ≡ false)
        → IsPending n (record st {
          model = m;
          stats = record {
            accesses = st.stats.accesses + 1;
            hits = count hit st.stats.hits;
            misses = count (not hit) st.stats.misses;
            evictions = count gone st.stats.evictions;
            writebacks = count r.writeback st.stats.writebacks;
            checked = st.stats.checked;
          };
        })
    by_case true true k = ground (arith, k refl)
    by_case true false k = record {
      split = omega (arith, h.split);
      evicted = h.evicted;
      compared = omega (arith, h.compared);
      limited = h.limited;
    }
    by_case false true k = record {
      split = omega (arith, h.split);
      evicted = omega (arith, h.evicted);
      compared = omega (arith, h.compared);
      limited = h.limited;
    }
    by_case false false k = record {
      split = omega (arith, h.split);
      evicted = omega (arith, h.evicted);
      compared = omega (arith, h.compared);
      limited = h.limited;
    }

compare_if-IsConsistent :
    (n : ℕ) (seq addr : ℤ) (r : CacheResult) (o : Option Event) (st : VerifierState)
    → IsPending n st
    → IsConsistent n (compare_if n seq addr r o st)
unfolding compare_event
compare_if-IsConsistent n seq addr r none st h = record {
  split = h.split;
  evicted = h.evicted;
  compared = omega (arith, h.compared);
  limited = h.limited;
}
compare_if-IsConsistent n seq addr r (some ev) st h =
    flag_if-IsConsistent n (writeback_violation seq addr r.writeback ev.writeback) _ (
      flag_if-IsConsistent n (eviction_violation seq addr r.victim_addr ev.evict_addr) _ (
        flag_if-IsConsistent n (hit_violation seq addr r.hit ev.hit) (count_checked st) (record {
          split = h.split;
          evicted = h.evicted;
          compared = omega (arith, h.compared);
          limited = h.limited;
        })))

check_data-IsConsistent :
    (n : ℕ) (seq addr : ℤ) (k : Kind) (hit : Bool) (o : Option ℤ) (st : VerifierState)
    → IsConsistent n st
    → IsConsistent n (check_data n seq addr k hit o st)
check_data-IsConsistent n seq addr k hit none st h = h
check_data-IsConsistent n seq addr store hit (some v) st h = record {
  split = h.split;
  evicted = h.evicted;
  compared = h.compared;
  limited = h.limited;
}
check_data-IsConsistent n seq addr load hit (some v) st h =
    flag_if-IsConsistent n (data_violation seq addr hit v (last_write addr st.mem)) st h

check_entry-IsConsistent :
    (n : ℕ) (seq : ℤ) (o : Option ℤ) (e : Access) (st : VerifierState)
    → IsConsistent n st
    → IsConsistent n (check_entry n seq o e st)
unfolding check_access
check_entry-IsConsistent n seq none e st h = h
check_entry-IsConsistent n seq (some a) e st h =
    let found = access st.model a (is_store e.kind) in
    check_data-IsConsistent n seq a e.kind found.0.hit e.value _ (
      compare_if-IsConsistent n seq a found.0 e.event (accessed found.1 found.0 st) (
        count_access-IsConsistent n found.1 found.0 st
          (access-KeepsOnHit st.model a (is_store e.kind)) h))

check_record-IsConsistent :
    (n : ℕ) (seq : ℤ) (es : List Access) (st : VerifierState)
    → IsConsistent n st
    → IsConsistent n (check_record n seq es st)
unfolding check_record
check_record-IsConsistent n seq [] st h = h
check_record-IsConsistent n seq (e ∷ es) st h =
    check_record-IsConsistent n seq es (check_entry n seq e.addr e st)
      (check_entry-IsConsistent n seq e.addr e st h)

check_one-IsConsistent :
    (n i : ℕ) (r : Record) (st : VerifierState)
    → IsConsistent n st
    → IsConsistent n (check_one n i r st)
unfolding check_one
check_one-IsConsistent n i not_object st h = h
check_one-IsConsistent n i ill_typed st h = record {
  split = h.split;
  evicted = h.evicted;
  compared = h.compared;
  limited = h.limited;
}
check_one-IsConsistent n i (accesses seq es) st h =
    check_record-IsConsistent n (or_position seq i) es st h

check_from-IsConsistent :
    (n i : ℕ) (rs : List Record) (st : VerifierState)
    → IsConsistent n st
    → IsConsistent n (check_from n i rs st)
unfolding check_from
check_from-IsConsistent n i [] st h = h
check_from-IsConsistent n i (r ∷ rs) st h =
    if_ind (IsConsistent n) (ltb (length st.violations) n)
      (λ e.
        check_from-IsConsistent n (suc i) rs (check_one n i r st)
          (check_one-IsConsistent n i r st h))
      (λ e. h)

-- Whatever the trace, each access is counted as a hit or as a miss, there are no more evictions
-- than misses, no more checks than accesses, and no more violations than allowed.
pub run-IsConsistent :
    (max_violations : ℕ) (model : CacheModel) (rs : List Record)
    → IsConsistent max_violations (run max_violations model rs)
unfolding run
run-IsConsistent n model rs =
    check_from-IsConsistent n 0 rs (initial_state model) (record {
      split = refl;
      evicted = omega arith;
      compared = omega arith;
      limited = omega arith;
    })

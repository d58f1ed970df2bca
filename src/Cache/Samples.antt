-- ===== src/Cache/Samples.antt =====
-- A small cache, and what it does.
use ai_chip_design_platform.Common.{
  pos, negsuc, true, false, none, some, [], ◌∷◌, ok, ◌≡◌, refl, value_error, raise, ◌/◌, ◌^◌,
}
use ai_chip_design_platform.Comparator.Hex.{mask_to}
use ai_chip_design_platform.Cache.Ways.{victim_of}
use ai_chip_design_platform.Cache.{
  CacheModel, lru, wb, access, on_hit, on_miss, victim_addr_of, bit_length, log2, new_cache,
  replicate,
}
use ai_chip_design_platform.Cache.Ways.{empty_way}
use ai_chip_design_platform.Comparator.Json.{int, str, field, end, digits_from}
use ai_chip_design_platform.Cache.Building.{based, int_of_codes, to_int, build_model}
use ai_chip_design_platform.Cache.Reached.{after, access_again_reached}
use ai_chip_design_platform.Cache.Verifier.{
  Access, load, accesses, cache_hitmiss, compare_event, check_access, check_record, check_one,
  check_from, run,
}
use ai_chip_design_platform.Cache.Verifier.Counts.{IsConsistent, run-IsConsistent}

cache : Unit {0}
unfolding mask_to victim_of access on_hit on_miss victim_addr_of bit_length log2 new_cache after
    compare_event check_access check_record check_one check_from run digits_from based int_of_codes
    to_int build_model
cache = tt

-- One set of two ways, lines of 16 bytes.
abbrev small : CacheModel
small = record {
  num_sets = 1;
  line_bits = 4;
  policy = lru;
  write_policy = wb;
  time = 0;
  sets = replicate 1 (replicate 2 empty_way);
}

small_made : new_cache (pos 1) (pos 2) (pos 16) lru wb ≡ ok small
unfolding cache
small_made = refl

small_built :
    build_model (
      field "sets" (int (pos 1)) (
        field "ways"
          (str "0b10")
          (field "line_size" (str " 0x10 ") (field "policy" (str "LRU") end))))
    ≡ some small
unfolding cache
small_built = refl

-- A leading zero is read in base 10.
leading_zero : to_int (str "-010") ≡ some (negsuc 9)
unfolding cache
leading_zero = refl

odd_line_raises : new_cache (pos 1) (pos 2) (pos 12) lru wb ≡ raise value_error
unfolding cache
odd_line_raises = refl

-- The line at 0x100 was used later than the dirty one at 0x200, which is evicted and written back.
evicts_the_oldest :
    let m = after small ((pos 0x100, false) ∷ (pos 0x204, true) ∷ (pos 0x10c, false) ∷ []) in
    let r = (access m (pos 0x300) false).0 in
    (r.hit ≡ false) × (r.victim_addr ≡ some 0x200) × (r.writeback ≡ true)
unfolding cache
evicts_the_oldest = (refl, refl, refl)

abbrev false_hit : Access
false_hit = record {
  kind = load;
  addr = some (pos 0x100);
  value = none;
  event = some (record { hit = some true; evict_addr = none; writeback = some false });
}

false_hit_is_found :
    (run 200 small (accesses none (false_hit ∷ []) ∷ [])).violations
    ≡ cache_hitmiss (pos 0) (pos 0x100) false true ∷ []
unfolding cache
false_hit_is_found = refl

same_line :
    let m = after small ((pos 0x100, false) ∷ (pos 0x204, true) ∷ []) in
    mask_to 32 (pos 0x300) / 2 ^ m.line_bits ≡ mask_to 32 (pos 0x30f) / 2 ^ m.line_bits
unfolding cache
same_line = refl

access_again_reached_example :
    let first =
      access (after small ((pos 0x100, false) ∷ (pos 0x204, true) ∷ [])) (pos 0x300) true in
    let second = (access first.1 (pos 0x30f) false).0 in
    (second.hit ≡ true) × (second.way ≡ first.0.way)
access_again_reached_example =
    access_again_reached (pos 1) (pos 2) (pos 16) lru wb small_made
      ((pos 0x100, false) ∷ (pos 0x204, true) ∷ []) (pos 0x300) (pos 0x30f) true false same_line

run-IsConsistent_example :
    IsConsistent 1 (run 1 small (accesses none (false_hit ∷ false_hit ∷ []) ∷ []))
run-IsConsistent_example =
    run-IsConsistent 1 small (accesses none (false_hit ∷ false_hit ∷ []) ∷ [])

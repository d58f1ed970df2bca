-- ===== src/Cache.antt =====
-- The golden model of a set-associative cache (`CacheModel` of AGENT_H/cache_verifier.py).
pub mod Ways
pub mod Again
pub mod Reached
pub mod Building
pub mod Verifier
mod Samples
use ai_chip_design_platform.Common.{
  ℕ, zero, suc, ◌+◌, ◌-◌, ◌*◌, ◌/◌, ◌%◌, ◌^◌, max, bit_and, ◌==◌, ℤ, pos, negsuc, Bool, true, false,
  Option, none, some, List, [], ◌∷◌, ◌&&◌, ◌||◌, not, if◌then◌else◌, Outcome, ok, raise,
  value_error,
}
use ai_chip_design_platform.Comparator.Hex.{mask_to}
use Ways.{Way, empty_way, hit_way, victim_of, way_at, modify, ways_at}

-- Any text but "lru" acts as "fifo" does.
pub data Policy : Type 0 where
  lru fifo : Policy

-- `other_policy` is any text but "wb" and "wt".
pub data WritePolicy : Type 0 where
  wb wt other_policy : WritePolicy

abbrev pub is_lru : Policy → Bool
is_lru lru = true
is_lru fifo = false

abbrev pub is_wb : WritePolicy → Bool
is_wb wb = true
is_wb _ = false

abbrev pub is_wt : WritePolicy → Bool
is_wt wt = true
is_wt _ = false

pub record CacheResult : Type 0 where
  pub hit : Bool
  pub index : ℕ
  pub way : ℕ
  pub victim_addr : Option ℕ
  pub writeback : Bool

pub record CacheModel : Type 0 where
  pub num_sets : ℕ
  pub line_bits : ℕ
  pub policy : Policy
  pub write_policy : WritePolicy
  pub time : ℕ
  pub sets : List (List Way)

abbrev pub block_of : CacheModel → ℤ → ℕ
block_of m addr = mask_to 32 addr / 2 ^ m.line_bits

-- `_decompose`
abbrev pub index_of : CacheModel → ℤ → ℕ
index_of m addr = block_of m addr % m.num_sets

abbrev pub tag_of : CacheModel → ℤ → ℕ
tag_of m addr = block_of m addr / m.num_sets

-- `_victim_addr`
unfoldable pub victim_addr_of : CacheModel → ℕ → ℕ → ℕ
victim_addr_of m tag index = (tag * m.num_sets + index) * 2 ^ m.line_bits % 2 ^ 32

-- The way of a hit afterwards.
abbrev pub touch : CacheModel → Bool → Way → Way
touch m write w = record w {
  ts = if is_lru m.policy then m.time + 1 else w.ts;
  dirty = if write && is_wb m.write_policy then true else w.dirty;
}

-- The way that takes a line in.
abbrev pub fill : CacheModel → Bool → ℕ → Way
fill m write tag = record {
  valid = true;
  tag = tag;
  dirty = write && is_wb m.write_policy;
  ts = m.time + 1;
}

abbrev pub with_way : CacheModel → ℕ → ℕ → (Way → Way) → CacheModel
with_way m index k f = record m { time = m.time + 1; sets = modify index (modify k f) m.sets }

unfoldable pub on_hit : CacheModel → ℤ → Bool → ℕ → CacheResult × CacheModel
on_hit m addr write k = (
  record {
    hit = true;
    index = index_of m addr;
    way = k;
    victim_addr = none;
    writeback = write && not (is_wb m.write_policy);
  },
  with_way m (index_of m addr) k (touch m write),
)

unfoldable pub on_miss : CacheModel → ℤ → Bool → ℕ → Way → CacheResult × CacheModel
on_miss m addr write k victim = (
  record {
    hit = false;
    index = index_of m addr;
    way = k;
    victim_addr =
        if victim.valid then some (victim_addr_of m victim.tag (index_of m addr)) else none;
    writeback = if write && is_wt m.write_policy then true else victim.valid && victim.dirty;
  },
  with_way m (index_of m addr) k (λ w. fill m write (tag_of m addr)),
)

abbrev pub on_lookup : CacheModel → ℤ → Bool → List Way → Option ℕ → CacheResult × CacheModel
on_lookup m addr write ways none =
    on_miss m addr write (victim_of ways) (way_at (victim_of ways) ways)
on_lookup m addr write ways (some k) = on_hit m addr write k

-- `access`
unfoldable pub access : CacheModel → ℤ → Bool → CacheResult × CacheModel
access m addr write =
    let ways = ways_at (index_of m addr) m.sets in
    on_lookup m addr write ways (hit_way (tag_of m addr) ways)

-- `int.bit_length` of a natural number; the number itself is fuel enough.
unfoldable pub bit_length : (fuel n : ℕ) → ℕ
bit_length zero n = 0
bit_length (suc fuel) n = let rest = bit_length fuel (n / 2) in if n == 0 then 0 else suc rest

-- `_log2`
unfoldable pub log2 : ℤ → Option ℕ
unfolding bit_length
log2 (negsuc n) = none
log2 (pos n) = if n == 0 || not (bit_and n (n - 1) == 0) then none else some (bit_length n n - 1)

abbrev pub replicate : {A : Type 0} → ℕ → A → List A
replicate zero x = []
replicate (suc n) x = x ∷ replicate n x

-- `max(1, int(n))`
abbrev pub at_least_one : ℤ → ℕ
at_least_one (pos n) = max 1 n
at_least_one (negsuc n) = 1

-- `CacheModel.__init__`
unfoldable pub new_cache : (sets ways line_size : ℤ) → Policy → WritePolicy → Outcome CacheModel
new_cache sets ways line_size policy write_policy = elim (log2 line_size) [
  | none ↦ raise value_error
  | some bits ↦ ok (record {
    num_sets = at_least_one sets;
    line_bits = bits;
    policy = policy;
    write_policy = write_policy;
    time = 0;
    sets = replicate (at_least_one sets) (replicate (at_least_one ways) empty_way);
  })
]

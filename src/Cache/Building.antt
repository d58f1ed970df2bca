-- ===== src/Cache/Building.antt =====
-- The golden cache of a configuration (`_to_int`, `CacheVerifier._build_model` of
-- AGENT_H/cache_verifier.py).
use ai_chip_design_platform.Common.{
  ℕ, ℤ, pos, eq_ℤ, true, false, Option, none, some, List, [], ◌∷◌, String, ◌&&◌, ◌||◌, ◌==◌,
  if◌then◌else◌, codes, lower, eq_codes, Outcome, ok, raise,
}
use ai_chip_design_platform.Comparator.Json.{Json, Fields, bool, int, str, get, digits_from, as_int}
use ai_chip_design_platform.Comparator.Hex.{strip}
use ai_chip_design_platform.Cache.{
  CacheModel, Policy, lru, fifo, WritePolicy, wb, wt, other_policy, new_cache,
}

-- The digits of a text behind its sign: `0x`, `0o` and `0b` give the base. Without a prefix the
-- base is 10, and `int(v)` reads the leading zeros that `int(v, 0)` refuses.
unfoldable pub based : List ℕ → Option ℕ
based (z ∷ x ∷ cs) =
    if z == b'0' && (x == b'x' || x == b'X')
    then digits_from 16 0 true cs
    else if z == b'0' && (x == b'o' || x == b'O')
    then digits_from 8 0 true cs
    else if z == b'0' && (x == b'b' || x == b'B')
    then digits_from 2 0 true cs
    else digits_from 10 0 true (z ∷ x ∷ cs)
based cs = digits_from 10 0 true cs

-- The text behind `strip`.
unfoldable pub int_of_codes : List ℕ → Option ℤ
unfolding based
int_of_codes [] = none
int_of_codes (c ∷ cs) =
    if c == b'-'
    then as_int true (based cs)
    else if c == b'+'
    then as_int false (based cs)
    else as_int false (based (c ∷ cs))

-- `_to_int`
unfoldable pub to_int : Json → Option ℤ
unfolding int_of_codes
to_int (bool true) = some (pos 1)
to_int (bool false) = some (pos 0)
to_int (int n) = some n
to_int (str s) = int_of_codes (strip (codes s))
to_int _ = none

-- `_to_int(c.get(key))`, and nothing for zero.
abbrev nonzero : Option ℤ → Option ℤ
nonzero none = none
nonzero (some n) = if eq_ℤ n (pos 0) then none else some n

abbrev or_to_int : Option Json → Option ℤ
or_to_int none = none
or_to_int (some v) = to_int v

abbrev pub size_of : Fields → String → Option ℤ
size_of c key = nonzero (or_to_int (get c key))

-- `str(c.get("policy", "lru")).lower()`, if it is one of `_DETERMINISTIC_POLICIES`. The text of a
-- value that is no text never is.
abbrev pub policy_of : Option Json → Option Policy
policy_of none = some lru
policy_of (some (str s)) =
    if eq_codes (codes "lru") (lower s)
    then some lru
    else if eq_codes (codes "fifo") (lower s)
    then some fifo
    else none
policy_of (some _) = none

abbrev pub write_policy_of : Option Json → WritePolicy
write_policy_of none = wb
write_policy_of (some (str s)) =
    if eq_codes (codes "wb") (lower s)
    then wb
    else if eq_codes (codes "wt") (lower s)
    then wt
    else other_policy
write_policy_of (some _) = other_policy

abbrev pub or_none : Outcome CacheModel → Option CacheModel
or_none (ok m) = some m
or_none (raise e) = none

-- `_build_model`: an empty configuration has no sizes.
unfoldable pub build_model : Fields → Option CacheModel
build_model c = elim (policy_of (get c "policy")) [
  | none ↦ none
  | some policy ↦ elim (size_of c "sets") [
    | none ↦ none
    | some sets ↦ elim (size_of c "ways") [
      | none ↦ none
      | some ways ↦ elim (size_of c "line_size") [
        | none ↦ none
        | some line ↦
            or_none (new_cache sets ways line policy (write_policy_of (get c "write_policy")))
      ]
    ]
  ]
]

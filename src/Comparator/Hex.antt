-- ===== src/Comparator/Hex.antt =====
-- Hexadecimal fields (`_parse_hex` and the masks of `from_dict`).
use ai_chip_design_platform.Common.{
  ℕ, ◌+◌, ◌-◌, ◌*◌, ◌/◌, ◌%◌, ◌^◌, suc, zero, ℤ, pos, negsuc, true, false, Option, none, some, List,
  [], ◌∷◌, ◌++◌, ◌&&◌, ◌||◌, ◌==◌, ltb, if◌then◌else◌, codes, reverse, Outcome, ok, raise,
  value_error,
}
use ai_chip_design_platform.Comparator.Json.{Json, bool, int, str, lstrip, digit_value}

-- The characters that `_HEX_RE` allows behind the prefix, read in base 16.
unfoldable pub hex_digits : ℕ → List ℕ → Option ℕ
hex_digits acc [] = some acc
hex_digits acc (c ∷ cs) = elim (digit_value c) [
  | none ↦ none
  | some d ↦ hex_digits (acc * 16 + d) cs
]

-- At least one digit.
unfoldable pub hex_number : List ℕ → Option ℕ
unfolding hex_digits
hex_number [] = none
hex_number (c ∷ cs) = hex_digits 0 (c ∷ cs)

-- `(0[xX])?[0-9A-Fa-f]+`
unfoldable pub match_hex : List ℕ → Option ℕ
unfolding hex_number
match_hex (z ∷ x ∷ cs) =
    if z == b'0' && (x == b'x' || x == b'X') then hex_number cs else hex_number (z ∷ x ∷ cs)
match_hex cs = hex_number cs

-- `str.strip`
abbrev pub strip : List ℕ → List ℕ
strip cs = reverse (lstrip (reverse (lstrip cs)))

unfoldable pub parse_hex_codes : List ℕ → Outcome ℕ
unfolding match_hex
parse_hex_codes cs = elim (match_hex (strip cs)) [ none ↦ raise value_error | some n ↦ ok n ]

-- `_parse_hex`: an integer is taken as it is. The text of null, of a float, of a list and of an
-- object never matches.
unfoldable pub parse_hex : Json → Outcome ℤ
unfolding parse_hex_codes
parse_hex (bool true) = ok (pos 1)
parse_hex (bool false) = ok (pos 0)
parse_hex (int n) = ok n
parse_hex (str s) = elim (parse_hex_codes (codes s)) [ ok n ↦ ok (pos n) | raise e ↦ raise e ]
parse_hex _ = raise value_error

-- `n & ((1 << xlen) - 1)` in two's complement.
unfoldable pub mask_to : ℕ → ℤ → ℕ
mask_to xlen (pos n) = n % 2 ^ xlen
mask_to xlen (negsuc n) = 2 ^ xlen - 1 - n % 2 ^ xlen

-- `str(n)` of a natural number; the fuel is one more than the number.
unfoldable pub decimal : ℕ → ℕ → List ℕ
decimal zero n = []
decimal (suc fuel) n =
    let rest = decimal fuel (n / 10) in
    if ltb n 10 then (b'0' + n) ∷ [] else rest ++ (b'0' + n % 10) ∷ []

-- `_parse_hex(str(v), "pc")`: the text of an integer is read as hexadecimal digits, too.
unfoldable pub parse_pc : Json → Outcome ℕ
unfolding parse_hex_codes decimal
parse_pc (int (pos n)) = parse_hex_codes (decimal (suc n) n)
parse_pc (str s) = parse_hex_codes (codes s)
parse_pc _ = raise value_error

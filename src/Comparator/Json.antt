-- ===== src/Comparator/Json.antt =====
-- What `json.loads` returns, and the conversions that Python applies to it.
use ai_chip_design_platform.Common.{
  ℕ, ◌+◌, ◌-◌, ◌*◌, suc, zero, ℤ, pos, negsuc, Bool, true, false, Option, none, some, List, [], ◌∷◌,
  String, ◌&&◌, ◌||◌, not, ◌==◌, leb, ltb, if◌then◌else◌, str_eq, codes, Outcome, ok, raise,
  type_error, value_error, eq_ℤ,
}

-- A float shows the integer that `int` truncates it to, and whether it is zero. `Infinity` and
-- `NaN` are left out. An object has each key once, as a Python dict does.
mutual
  pub data Json : Type 0 where
    null : Json
    bool : Bool → Json
    int : ℤ → Json
    float : (truncated : ℤ) (is_zero : Bool) → Json
    str : String → Json
    arr : Items → Json
    obj : Fields → Json

  pub data Items : Type 0 where
    nil : Items
    cons : Json → Items → Items

  pub data Fields : Type 0 where
    end : Fields
    field : String → Json → Fields → Fields

-- `d.get(key)`, where `none` also stands for a missing key.
abbrev pub get : Fields → String → Option Json
get end key = none
get (field k v rest) key = if str_eq k key then some v else get rest key

-- `d.get(key)` with JSON's null read as None.
abbrev pub get_value : Fields → String → Option Json
get_value d key = elim (get d key) [ none ↦ none | some v ↦ elim v [ null ↦ none | w ↦ some w ] ]

-- `bool(v)`
abbrev pub truthy : Json → Bool
truthy null = false
truthy (bool b) = b
truthy (int n) = not (eq_ℤ n (pos 0))
truthy (float n is_zero) = not is_zero
truthy (str s) = not (str_eq s "")
truthy (arr nil) = false
truthy (arr (cons x xs)) = true
truthy (obj end) = false
truthy (obj (field k v rest)) = true

-- ASCII white space.
abbrev pub is_space : ℕ → Bool
is_space c = c == 32 || (leb 9 c && leb c 13 || leb 28 c && leb c 31)

abbrev pub lstrip : List ℕ → List ℕ
lstrip [] = []
lstrip (c ∷ cs) = if is_space c then lstrip cs else c ∷ cs

-- The value of a digit in the bases 10 and 16.
abbrev pub digit_value : ℕ → Option ℕ
digit_value c =
    if leb b'0' c && leb c b'9'
    then some (c - b'0')
    else if leb b'a' c && leb c b'f'
    then some (c - b'a' + 10)
    else if leb b'A' c && leb c b'F'
    then some (c - b'A' + 10)
    else none

abbrev all_spaces : List ℕ → Bool
all_spaces [] = true
all_spaces (c ∷ cs) = is_space c && all_spaces cs

abbrev is_below : ℕ → Option ℕ → Bool
is_below base none = false
is_below base (some d) = ltb d base

abbrev value_or_zero : Option ℕ → ℕ
value_or_zero none = 0
value_or_zero (some d) = d

-- The digits of `int(text, base)` behind the sign and the prefix: an underscore may stand between
-- two digits, and white space at the end. `fresh` says that a digit has to come next.
unfoldable pub digits_from : ℕ → ℕ → Bool → List ℕ → Option ℕ
digits_from base acc fresh [] = if fresh then none else some acc
digits_from base acc fresh (c ∷ cs) =
    let more = digits_from base (acc * base + value_or_zero (digit_value c)) false cs in
    let behind = digits_from base acc true cs in
    if is_below base (digit_value c)
    then more
    else if not fresh && c == b'_'
    then behind
    else if not fresh && all_spaces (c ∷ cs)
    then some acc
    else none

-- A prefix `0x` is allowed in base 16.
abbrev pub drop_prefix : ℕ → List ℕ → List ℕ
drop_prefix base (z ∷ x ∷ cs) =
    if base == 16 && (z == b'0' && (x == b'x' || x == b'X')) then cs else z ∷ x ∷ cs
drop_prefix base cs = cs

abbrev pub as_int : Bool → Option ℕ → Option ℤ
as_int negative none = none
as_int false (some n) = some (pos n)
as_int true (some zero) = some (pos 0)
as_int true (some (suc n)) = some (negsuc n)

abbrev signed : ℕ → List ℕ → Option ℤ
signed base [] = none
signed base (c ∷ cs) =
    if c == b'-'
    then as_int true (digits_from base 0 true (drop_prefix base cs))
    else if c == b'+'
    then as_int false (digits_from base 0 true (drop_prefix base cs))
    else as_int false (digits_from base 0 true (drop_prefix base (c ∷ cs)))

-- `int(text, base)`; an underscore straight behind the prefix is left out.
unfoldable pub int_of_text : ℕ → String → Option ℤ
unfolding digits_from
int_of_text base s = signed base (lstrip (codes s))

-- `int(v)`
unfoldable pub int_of : Json → Outcome ℤ
unfolding int_of_text
int_of (bool true) = ok (pos 1)
int_of (bool false) = ok (pos 0)
int_of (int n) = ok n
int_of (float n is_zero) = ok n
int_of (str s) = elim (int_of_text 10 s) [ none ↦ raise value_error | some n ↦ ok n ]
int_of _ = raise type_error

-- `key in d` for a value of any type.
abbrev items_have : Items → String → Bool
items_have nil key = false
items_have (cons (str s) xs) key = str_eq s key || items_have xs key
items_have (cons _ xs) key = items_have xs key

abbrev has_prefix : List ℕ → List ℕ → Bool
has_prefix [] cs = true
has_prefix (p ∷ ps) [] = false
has_prefix (p ∷ ps) (c ∷ cs) = p == c && has_prefix ps cs

abbrev has_infix : List ℕ → List ℕ → Bool
has_infix ps [] = has_prefix ps []
has_infix ps (c ∷ cs) = has_prefix ps (c ∷ cs) || has_infix ps cs

abbrev is_given : Option Json → Bool
is_given none = false
is_given (some v) = true

unfoldable pub has_key : Json → String → Outcome Bool
has_key (obj d) key = ok (is_given (get d key))
has_key (arr xs) key = ok (items_have xs key)
has_key (str s) key = ok (has_infix (codes key) (codes s))
has_key _ key = raise type_error

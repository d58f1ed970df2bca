-- ===== src/Temporal/Record.antt =====
-- The records that the monitors of AGENT_H/temporal_checker.py read, and the tests of their
-- disassembly.
use ai_chip_design_platform.Common.{
  ℕ, ℤ, eq_ℤ, Bool, true, false, ◌&&◌, ◌||◌, Option, none, some, List, [], ◌∷◌, String, str_eq,
  ◌==◌, codes, map, lower_code, reverse, if◌then◌else◌,
}
use ai_chip_design_platform.Comparator.Json.{is_space}
use ai_chip_design_platform.Comparator.Hex.{strip}

-- What `_addr` makes of the accesses of a record: `int` can fail on a text.
pub data Addr : Type 0 where
  unreadable absent : Addr
  at : ℤ → Addr

pub data RegValue : Type 0 where
  number : ℤ → RegValue
  text : String → RegValue
  null : RegValue

abbrev pub eq_value : RegValue → RegValue → Bool
eq_value (number a) (number b) = eq_ℤ a b
eq_value (text a) (text b) = str_eq a b
eq_value null null = true
eq_value _ _ = false

-- `trap` says whether the field is there and true.
pub record CommitRecord : Type 0 where
  pub seq : Option ℤ
  pub disasm : Option String
  pub trap : Bool
  pub addr : Addr
  pub regs : List (String × RegValue)

-- The records at one index of the two logs, with their `seq`.
pub record Pair : Type 0 where
  pub rtl : CommitRecord
  pub iss : CommitRecord
  pub seq : ℤ

-- `_disasm`
unfoldable pub disasm_of : Pair → List ℕ
disasm_of p = elim p.iss.disasm [ none ↦ [] | some s ↦ map lower_code (strip (codes s)) ]

abbrev pub starts_with : (prefix s : List ℕ) → Bool
starts_with [] s = true
starts_with (c ∷ cs) [] = false
starts_with (c ∷ cs) (d ∷ ds) = (c == d) && starts_with cs ds

abbrev pub has_text : (part s : List ℕ) → Bool
has_text part [] = starts_with part []
has_text part (d ∷ ds) = starts_with part (d ∷ ds) || has_text part ds

-- `any(disasm.startswith(m) for m in ms)`
abbrev pub starts_with_any : List String → List ℕ → Bool
starts_with_any [] s = false
starts_with_any (m ∷ ms) s = starts_with (codes m) s || starts_with_any ms s

-- `disasm.split()`: `word` is what has been read of a word, in reverse.
abbrev push_word : List ℕ → List (List ℕ) → List (List ℕ)
push_word [] ws = ws
push_word (c ∷ cs) ws = reverse (c ∷ cs) ∷ ws

abbrev split_from : (word : List ℕ) → List ℕ → List (List ℕ)
split_from word [] = push_word word []
split_from word (c ∷ cs) =
    let rest = split_from [] cs in
    let longer = split_from (c ∷ word) cs in if is_space c then push_word word rest else longer

-- `parts[2]` if there are three parts
abbrev third : List (List ℕ) → Option (List ℕ)
third (a ∷ b ∷ c ∷ ws) = some c
third _ = none

unfoldable pub third_word : List ℕ → Option (List ℕ)
third_word s = third (split_from [] s)

abbrev pub get_reg : List (String × RegValue) → String → RegValue
get_reg [] reg = null
get_reg ((r, v) ∷ regs) reg = if str_eq r reg then v else get_reg regs reg

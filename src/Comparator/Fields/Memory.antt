-- ===== src/Comparator/Fields/Memory.antt =====
-- The memory access of a pair (`_FieldComparator._cmp_mem`).
use ai_chip_design_platform.Common.{
  ℕ, ◌-◌, ◌*◌, ◌^◌, ◌%◌, min, bit_and, ◌==◌, ltb, ℤ, pos, negsuc, Bool, true, false, Option, none,
  some, List, [], ◌∷◌, ◌++◌, ◌&&◌, not, str_eq, String, eq_option, if◌then◌else◌, Outcome, ok,
  raise, value_error, ◌>>=◌, Side, rtl, iss,
}
use mathlib.Core.Option
use ai_chip_design_platform.Comparator.Kinds.{mem_mismatch, align_error}
use ai_chip_design_platform.Comparator.Config.{CompareConfig, value_mask}
use ai_chip_design_platform.Comparator.Entry.{CommitEntry, Shown, text, hex, named}
use ai_chip_design_platform.Comparator.Issue.{Issue, issue}

-- `min(size_mask, (1 << (sz * 8)) - 1)`; a negative shift count raises ValueError.
unfoldable pub narrow : Option ℤ → ℕ → Outcome ℕ
narrow none m = ok m
narrow (some (pos sz)) m = ok (min m (2 ^ (sz * 8) - 1))
narrow (some (negsuc _)) m = raise value_error

unfoldable pub size_mask : CompareConfig → Option ℤ → Option ℤ → Outcome ℕ
unfolding narrow value_mask
size_mask c rs is = narrow rs (value_mask c) >>= narrow is

unfoldable pub masked_values : ℕ → ℕ → ℕ → List Issue
masked_values m rv iv =
    if bit_and rv m == bit_and iv m
    then []
    else issue mem_mismatch (named "mem_val") (some (hex rv)) (some (hex iv)) ∷ []

unfoldable pub value_issues :
    CompareConfig → Option ℤ → Option ℤ → Option ℕ → Option ℕ → Outcome (List Issue)
unfolding size_mask masked_values
value_issues c rs is none iv = ok []
value_issues c rs is (some rv) none = ok []
value_issues c rs is (some rv) (some iv) = do m ← size_mask c rs is; ok (masked_values m rv iv)

-- `mem_size > 1 and mem_addr % mem_size != 0`, where both are given.
unfoldable pub is_misaligned : Option ℕ → Option ℤ → Bool
is_misaligned none size = false
is_misaligned (some addr) none = false
is_misaligned (some addr) (some (pos n)) = ltb 1 n && not (addr % n == 0)
is_misaligned (some addr) (some (negsuc _)) = false

-- `_fmt_hex(mem_addr) if side_name == … else None`
abbrev addr_shown : Side → Side → Option ℕ → Option Shown
addr_shown rtl rtl addr = Option.map hex addr
addr_shown iss iss addr = Option.map hex addr
addr_shown _ _ addr = none

unfoldable pub align_side : Side → CommitEntry → List Issue
unfolding is_misaligned
align_side s e =
    if is_misaligned e.mem_addr e.mem_size
    then issue align_error (named "mem_addr") (addr_shown rtl s e.mem_addr)
        (addr_shown iss s e.mem_addr)
      ∷ []
    else []

-- `str(mem_op)`
abbrev op_text : Option String → Shown
op_text none = text "None"
op_text (some op) = text op

abbrev pub both_differ : Option ℕ → Option ℕ → Bool
both_differ none ia = false
both_differ (some ra) none = false
both_differ (some ra) (some ia) = not (ra == ia)

abbrev pub both_none : Option String → Option String → Bool
both_none none none = true
both_none _ _ = false

unfoldable pub cmp_mem : CompareConfig → CommitEntry → CommitEntry → Outcome (List Issue)
unfolding value_issues align_side
cmp_mem c r i =
    if both_none r.mem_op i.mem_op
    then ok []
    else if not (eq_option str_eq r.mem_op i.mem_op)
    then ok (
        issue mem_mismatch (named "mem_op") (some (op_text r.mem_op)) (some (op_text i.mem_op))
        ∷ [])
    else if both_differ r.mem_addr i.mem_addr
    then ok (
        issue mem_mismatch (named "mem_addr") (Option.map hex r.mem_addr)
          (Option.map hex i.mem_addr)
        ∷ [])
    else (value_issues c r.mem_size i.mem_size r.mem_val i.mem_val >>= λ values.
        ok (values ++ (if c.check_alignment then align_side rtl r ++ align_side iss i else [])))

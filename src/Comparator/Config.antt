-- ===== src/Comparator/Config.antt =====
-- The comparison's knobs (`CompareConfig`).
use ai_chip_design_platform.Common.{
  ℕ, ◌-◌, ◌^◌, ℤ, pos, ltb_ℤ, Bool, true, false, Option, none, List, [], ◌∷◌, String, ◌==◌, ◌||◌,
  not, if◌then◌else◌, Outcome, ok, raise, value_error, contains, str_eq,
}

pub record CompareConfig : Type 0 where
  pub xlen : ℕ
  pub extensions : List String
  pub skip_fields : List String
  pub csr_masks : List (ℤ × ℤ)
  pub ignored_csrs : List ℤ
  pub enforce_x0_invariant : Bool
  pub csr_write_order_sensitive : Bool
  pub max_parse_errors : ℤ
  pub max_mismatches : ℤ
  pub stop_on_first : Bool
  pub strict_steps : Bool
  pub check_alignment : Bool
  pub expected_rtl_sha256 : Option String
  pub expected_iss_sha256 : Option String
  pub window : ℤ
  pub progress_every : ℤ

-- The defaults of the dataclass.
abbrev pub default_config : CompareConfig
default_config = record {
  xlen = 32;
  extensions = "I" ∷ "M" ∷ [];
  skip_fields = [];
  csr_masks = [];
  ignored_csrs = [];
  enforce_x0_invariant = true;
  csr_write_order_sensitive = false;
  max_parse_errors = pos 10;
  max_mismatches = pos 1;
  stop_on_first = true;
  strict_steps = false;
  check_alignment = true;
  expected_rtl_sha256 = none;
  expected_iss_sha256 = none;
  window = pos 32;
  progress_every = pos 100_000;
}

-- `__post_init__`
unfoldable pub post_init : CompareConfig → Outcome CompareConfig
post_init c =
    if not ((c.xlen == 32) || (c.xlen == 64))
    then raise value_error
    else if ltb_ℤ c.window (pos 0)
    then raise value_error
    else if c.stop_on_first
    then ok (record c { max_mismatches = pos 1 })
    else ok c

unfoldable pub value_mask : CompareConfig → ℕ
value_mask c = 2 ^ c.xlen - 1

-- `name in self._skip`
unfoldable pub skips : CompareConfig → String → Bool
skips c name = contains str_eq name c.skip_fields

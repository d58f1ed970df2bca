-- ===== src/Comparator/Entry.antt =====
-- The decoded commit record (`CommitEntry`, `CsrWrite`) and the values that a mismatch shows.
use ai_chip_design_platform.Common.{
  ℕ, ℤ, Bool, true, false, Option, List, [], ◌∷◌, String, ◌==◌, ◌&&◌, eq_ℤ,
}

-- Addresses are Python integers; values are masked to XLEN.
pub record CsrWrite : Type 0 where
  pub csr : ℤ
  pub val : ℕ

-- Dataclass equality.
abbrev pub eq_csr_write : CsrWrite → CsrWrite → Bool
eq_csr_write a b = eq_ℤ a.csr b.csr && (a.val == b.val)

abbrev pub eq_csr_writes : List CsrWrite → List CsrWrite → Bool
eq_csr_writes [] [] = true
eq_csr_writes [] (b ∷ bs) = false
eq_csr_writes (a ∷ as_) [] = false
eq_csr_writes (a ∷ as_) (b ∷ bs) = eq_csr_write a b && eq_csr_writes as_ bs

-- The reasons that `from_dict` collects in `schema_errors`, with the values that they print.
pub data SchemaError : Type 0 where
  mem_entries : String → ℕ → SchemaError
  mem_not_object : String → SchemaError
  rd_range rs1_range rs2_range mem_size_bad step_negative : ℤ → SchemaError
  mem_op_bad privilege_bad : String → SchemaError

pub record CommitEntry : Type 0 where
  pub step : ℤ
  pub pc : ℕ
  pub instr : ℕ
  pub trap : Bool
  pub rd : Option ℤ
  pub rd_val : Option ℕ
  pub rs1 : Option ℤ
  pub rs1_val : Option ℕ
  pub rs2 : Option ℤ
  pub rs2_val : Option ℕ
  pub mem_addr : Option ℕ
  pub mem_val : Option ℕ
  pub mem_op : Option String
  pub mem_size : Option ℤ
  pub csr_writes : List CsrWrite
  pub trap_cause : Option ℕ
  pub trap_tval : Option ℕ
  pub trap_pc : Option ℕ
  pub privilege : Option String
  pub disasm : Option String
  pub lineno : ℕ
  pub x0_violation : Bool
  pub schema_violation : Bool
  pub schema_errors : List SchemaError

-- The strings of a mismatch's value columns, before they are printed.
pub data Shown : Type 0 where
  text : String → Shown
  hex : ℕ → Shown
  csr_hex : ℤ → Shown
  int : ℤ → Shown
  reg : ℤ → Shown
  flag : Bool → Shown
  writes : List CsrWrite → Shown
  schema : SchemaError → Shown
  dup : ℤ → Shown
  at_step : ℤ → Shown

-- The `differing_field` column: a fixed name, or "csr[0x…]".
pub data FieldName : Type 0 where
  named : String → FieldName
  csr_field : ℤ → FieldName

-- ===== src/Comparator/Record.antt =====
-- Decoding one record of a commit log (`CommitEntry.from_dict` and its helpers).
pub mod Parts
pub mod Widths
pub mod Schema
pub mod Shape
pub mod Decoded
mod Samples
use ai_chip_design_platform.Common.{
  ℕ, ◌^◌, ltb, ℤ, pos, negsuc, ltb_ℤ, leb_ℤ, eq_ℤ, Bool, true, false, Option, none, some, List, [],
  ◌∷◌, ◌++◌, String, ◌&&◌, ◌||◌, not, ◌==◌, str_eq, if◌then◌else◌, Outcome, ok, raise, ◌>>=◌,
  key_error, type_error, attribute_error, not_modelled,
}
use ai_chip_design_platform.Comparator.Json
use ai_chip_design_platform.Comparator.Json.{
  Json, Fields, null, int, str, arr, obj, get, get_value, truthy, int_of, has_key,
}
use ai_chip_design_platform.Comparator.Hex.{parse_hex, parse_pc, mask_to}
use ai_chip_design_platform.Comparator.Entry.{
  CommitEntry, CsrWrite, SchemaError, mem_entries, mem_not_object, rd_range, rs1_range, rs2_range,
  mem_size_bad, step_negative, mem_op_bad, privilege_bad,
}
use Parts.{
  hex_opt, int_opt, text_opt, csr_list, regs_to_rd, MemFields, mem_from_canonical, TrapFields,
  trap_from_canonical, or_hex,
}

-- `e.mem_op not in ("load", "store", "amo")`, and the other checks of optional fields.
abbrev pub is_mem_op : String → Bool
is_mem_op s = str_eq s "load" || (str_eq s "store" || str_eq s "amo")

abbrev pub is_privilege : String → Bool
is_privilege s = str_eq s "M" || (str_eq s "S" || str_eq s "U")

abbrev pub is_mem_size : ℤ → Bool
is_mem_size n = eq_ℤ n (pos 1) || (eq_ℤ n (pos 2) || (eq_ℤ n (pos 4) || eq_ℤ n (pos 8)))

abbrev pub in_reg_range : ℤ → Bool
in_reg_range n = leb_ℤ (pos 0) n && leb_ℤ n (pos 31)

-- One check of `from_dict`: an error where the field is given and does not pass.
abbrev pub check_field : {A : Type 0} → (A → Bool) → (A → SchemaError) → Option A → List SchemaError
check_field passes error none = []
check_field passes error (some a) = if passes a then [] else error a ∷ []

unfoldable pub schema_errors_of : List SchemaError → CommitEntry → List SchemaError
schema_errors_of mem_errs e =
    mem_errs
    ++ (check_field in_reg_range rd_range e.rd
        ++ (check_field in_reg_range rs1_range e.rs1
            ++ (check_field in_reg_range rs2_range e.rs2
                ++ (check_field is_mem_op mem_op_bad e.mem_op
                    ++ (check_field is_mem_size mem_size_bad e.mem_size
                        ++ (check_field is_privilege privilege_bad e.privilege
                            ++ (if ltb_ℤ e.step (pos 0)
                                then step_negative e.step ∷ []
                                else [])))))))

-- `e.rd == 0 and e.rd_val is not None and e.rd_val != 0`
abbrev pub writes_x0 : Option ℤ → Option ℕ → Bool
writes_x0 none v = false
writes_x0 (some rd) none = false
writes_x0 (some rd) (some v) = eq_ℤ rd (pos 0) && not (v == 0)

abbrev pub is_empty : List SchemaError → Bool
is_empty [] = true
is_empty (x ∷ xs) = false

-- The flags and the error list that `from_dict` sets on the new entry.
unfoldable pub validate : List SchemaError → CommitEntry → CommitEntry
validate mem_errs e =
    let errs = schema_errors_of mem_errs e in
    record e {
      x0_violation = writes_x0 e.rd e.rd_val;
      schema_violation = not (is_empty errs);
      schema_errors = errs;
    }

-- `int(d.get("seq", d.get("step", 0)))`
unfoldable pub step_of : Fields → Outcome ℤ
step_of d = elim (get d "seq") [
  | some v ↦ int_of v
  | none ↦ elim (get d "step") [ some v ↦ int_of v | none ↦ ok (pos 0) ]
]

-- `isinstance(d.get("trap"), dict) or bool(d.get("trap", False))`
abbrev pub trap_of : Option Json → Bool
trap_of none = false
trap_of (some (obj t)) = true
trap_of (some v) = truthy v

-- `a or b` on optional values.
abbrev pub or_value : Option Json → Option Json → Option Json
or_value none b = b
or_value (some a) b = if truthy a then some a else b

-- `c if c is not None else _h(key)`
abbrev pub or_hex_field : ℕ → Option ℕ → Fields → String → Outcome (Option ℕ)
or_hex_field xlen (some c) d key = ok (some c)
or_hex_field xlen none d key = hex_opt xlen d key

-- The memory fields: canonical where an operation was found, else legacy.
unfoldable pub mem_of : ℕ → MemFields → Fields → Outcome MemFields
mem_of xlen m d = elim m.op [
  | some op ↦ ok m
  | none ↦
      (hex_opt xlen d "mem_addr" >>= λ addr. hex_opt xlen d "mem_val" >>= λ val.
      text_opt (get_value d "mem_op") >>= λ op. int_opt d "mem_size" >>= λ size.
      ok (record { addr = addr; val = val; op = op; size = size; errors = m.errors }))
]

unfoldable pub get_instr : ℕ → Fields → Outcome ℕ
get_instr xlen d = elim (get d "instr") [
  | none ↦ raise key_error
  | some v ↦ parse_hex v >>= λ n. ok (mask_to xlen n)
]

unfoldable pub get_pc : ℕ → Fields → Outcome ℕ
get_pc xlen d = elim (get d "pc") [
  | none ↦ raise key_error
  | some v ↦ parse_pc v >>= λ n. ok (mask_to xlen (pos n))
]

-- The entry of a record that has the required fields.
unfoldable pub decode : ℕ → ℕ → Fields → Outcome CommitEntry
decode xlen lineno d = do
  csrs ← csr_list xlen d
  pc ← get_pc xlen d
  canonical ← mem_from_canonical xlen d
  traps ← trap_from_canonical xlen (get d "trap")
  (rd, rd_val) ← regs_to_rd xlen d
  step ← step_of d
  instr ← get_instr xlen d
  rs1 ← int_opt d "rs1"
  rs1_val ← hex_opt xlen d "rs1_val"
  rs2 ← int_opt d "rs2"
  rs2_val ← hex_opt xlen d "rs2_val"
  mem ← mem_of xlen canonical d
  cause ← or_hex_field xlen traps.cause d "trap_cause"
  tval ← or_hex_field xlen traps.tval d "trap_tval"
  epc ← or_hex_field xlen traps.epc d "trap_pc"
  privilege ← text_opt (or_value (get_value d "privilege") (get_value d "priv"))
  disasm ← text_opt (get_value d "disasm")
  ok (
      validate mem.errors (record {
        step = step;
        pc = pc;
        instr = instr;
        trap = trap_of (get d "trap");
        rd = rd;
        rd_val = rd_val;
        rs1 = rs1;
        rs1_val = rs1_val;
        rs2 = rs2;
        rs2_val = rs2_val;
        mem_addr = mem.addr;
        mem_val = mem.val;
        mem_op = mem.op;
        mem_size = mem.size;
        csr_writes = csrs;
        trap_cause = cause;
        trap_tval = tval;
        trap_pc = epc;
        privilege = privilege;
        disasm = disasm;
        lineno = lineno;
        x0_violation = false;
        schema_violation = false;
        schema_errors = [];
      }))

-- A value that is no object but has the required names in it: `d["csrs"]` or `d.get` raises.
abbrev pub not_an_object : Json → Outcome CommitEntry
not_an_object v = has_key v "csrs" >>= λ b. if b then raise type_error else raise attribute_error

abbrev pub decode_value : ℕ → ℕ → Json → Outcome CommitEntry
decode_value xlen lineno (obj d) = decode xlen lineno d
decode_value xlen lineno v = not_an_object v

-- `from_dict`: "seq" or the legacy "step", then "pc" and "instr" are required.
unfoldable pub from_dict : ℕ → ℕ → Json → Outcome CommitEntry
unfolding decode
from_dict xlen lineno v = do
  seq ← has_key v "seq"
  step ← has_key v "step"
  pc ← has_key v "pc"
  instr ← has_key v "instr"
  if (seq || step) && (pc && instr) then decode_value xlen lineno v else raise key_error

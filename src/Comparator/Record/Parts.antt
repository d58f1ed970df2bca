-- ===== src/Comparator/Record/Parts.antt =====
-- The parts of a record: optional fields, CSR writes, register write-back, memory and trap, each in
-- the canonical and the legacy form.
use ai_chip_design_platform.Common.{
  ℕ, suc, ltb, ℤ, pos, Option, none, some, List, [], ◌∷◌, ◌++◌, String, if◌then◌else◌, Outcome, ok,
  raise, ◌>>=◌, key_error, value_error, type_error, not_modelled,
}
use ai_chip_design_platform.Comparator.Json.{
  Json, Items, Fields, str, arr, obj, nil, cons, end, field, get, get_value, truthy, int_of,
  int_of_text,
}
use ai_chip_design_platform.Comparator.Hex.{parse_hex, mask_to}
use ai_chip_design_platform.Comparator.Names.{find_name, reg_name_to_idx, csr_name_to_addr}
use ai_chip_design_platform.Comparator.Entry.{CsrWrite, SchemaError, mem_entries, mem_not_object}

-- `None if v is None else _parse_hex(v) & mask`
unfoldable pub or_hex : ℕ → Option Json → Outcome (Option ℕ)
or_hex xlen none = ok none
or_hex xlen (some v) = parse_hex v >>= λ n. ok (some (mask_to xlen n))

-- `_h(key)`
abbrev pub hex_opt : ℕ → Fields → String → Outcome (Option ℕ)
hex_opt xlen d key = or_hex xlen (get_value d key)

-- `int(v) if v is not None else None`
unfoldable pub or_int : Option Json → Outcome (Option ℤ)
or_int none = ok none
or_int (some v) = int_of v >>= λ n. ok (some n)

abbrev pub int_opt : Fields → String → Outcome (Option ℤ)
int_opt d key = or_int (get_value d key)

-- A field that holds a text or nothing. Other values are kept by the source, and left out here.
unfoldable pub text_opt : Option Json → Outcome (Option String)
text_opt none = ok none
text_opt (some (str s)) = ok (some s)
text_opt (some _) = raise not_modelled

-- `CsrWrite.from_dict`
abbrev pub required : Fields → String → Outcome Json
required d key = elim (get d key) [ none ↦ raise key_error | some v ↦ ok v ]

unfoldable pub csr_from_dict : ℕ → Json → Outcome CsrWrite
csr_from_dict xlen (obj d) = do
  c ← required d "csr"
  addr ← parse_hex c
  v ← required d "val"
  n ← parse_hex v
  ok (record { csr = addr; val = mask_to xlen n })
csr_from_dict xlen _ = raise type_error

unfoldable pub csr_writes_of : ℕ → Items → Outcome (List CsrWrite)
csr_writes_of xlen nil = ok []
csr_writes_of xlen (cons x xs) =
    csr_from_dict xlen x >>= λ w. csr_writes_of xlen xs >>= λ ws. ok (w ∷ ws)

-- The address of a CSR by name or in hexadecimal, and 0 where it is neither.
abbrev csr_address : String → ℤ
csr_address name = elim (find_name csr_name_to_addr name) [
  | some addr ↦ pos addr
  | none ↦ elim (int_of_text 16 name) [ some addr ↦ addr | none ↦ pos 0 ]
]

-- `_csrs_dict_to_list`
unfoldable pub csrs_dict_to_list : ℕ → Fields → Outcome (List CsrWrite)
csrs_dict_to_list xlen end = ok []
csrs_dict_to_list xlen (field name v rest) = parse_hex v >>= λ n.
    csrs_dict_to_list xlen rest >>= λ ws.
    ok (record { csr = csr_address name; val = mask_to xlen n } ∷ ws)

-- `d.get("csr_writes") or []`
unfoldable pub legacy_csrs : ℕ → Option Json → Outcome (List CsrWrite)
unfolding csr_writes_of
legacy_csrs xlen none = ok []
legacy_csrs xlen (some (arr xs)) = csr_writes_of xlen xs
legacy_csrs xlen (some v) = if truthy v then raise value_error else ok []

unfoldable pub csr_list : ℕ → Fields → Outcome (List CsrWrite)
unfolding csrs_dict_to_list legacy_csrs
csr_list xlen d = elim (get d "csrs") [
  | none ↦ legacy_csrs xlen (get d "csr_writes")
  | some v ↦ elim v [
    | obj csrs ↦ csrs_dict_to_list xlen csrs
    | _ ↦ legacy_csrs xlen (get d "csr_writes")
  ]
]

-- `_regs_dict_to_rd`: the first entry with a known name.
unfoldable pub regs_dict_to_rd : ℕ → Fields → Outcome (Option ℤ × Option ℕ)
regs_dict_to_rd xlen end = ok (none, none)
regs_dict_to_rd xlen (field name v rest) = elim (find_name reg_name_to_idx name) [
  | some idx ↦ (parse_hex v >>= λ n. ok (some (pos idx), some (mask_to xlen n)))
  | none ↦ regs_dict_to_rd xlen rest
]

abbrev pub legacy_rd : ℕ → Fields → Outcome (Option ℤ × Option ℕ)
legacy_rd xlen d = int_opt d "rd" >>= λ rd. hex_opt xlen d "rd_val" >>= λ v. ok (rd, v)

unfoldable pub regs_to_rd : ℕ → Fields → Outcome (Option ℤ × Option ℕ)
unfolding regs_dict_to_rd
regs_to_rd xlen d = elim (get d "regs") [
  | none ↦ legacy_rd xlen d
  | some v ↦ elim v [ obj regs ↦ regs_dict_to_rd xlen regs | _ ↦ legacy_rd xlen d ]
]

-- What `_mem_from_canonical` returns.
pub record MemFields : Type 0 where
  pub addr : Option ℕ
  pub val : Option ℕ
  pub op : Option String
  pub size : Option ℤ
  pub errors : List SchemaError

abbrev pub items_length : Items → ℕ
items_length nil = 0
items_length (cons x xs) = suc (items_length xs)

abbrev pub nothing : List SchemaError → MemFields
nothing errs = record { addr = none; val = none; op = none; size = none; errors = errs }

-- The first entry of `mem_writes` or `mem_reads`, with an error for further ones.
unfoldable pub mem_array : ℕ → String → String → Items → List SchemaError → Outcome MemFields
mem_array xlen key op nil errs = ok (nothing errs)
mem_array xlen key op (cons first rest) errs =
    let errs' =
      if ltb 1 (suc (items_length rest))
      then errs ++ mem_entries key (suc (items_length rest)) ∷ []
      else errs in
    elim first [
      | obj d ↦
          (hex_opt xlen d "addr" >>= λ addr. hex_opt xlen d "data" >>= λ val.
          int_opt d "size" >>= λ size.
          ok (record { addr = addr; val = val; op = some op; size = size; errors = errs' }))
      | _ ↦ ok (nothing (errs' ++ mem_not_object key ∷ []))
    ]

-- `arr`, if it is a list that is not empty.
abbrev pub nonempty_array : Option Json → Option Items
nonempty_array none = none
nonempty_array (some (arr (cons x xs))) = some (cons x xs)
nonempty_array (some _) = none

unfoldable pub mem_from_canonical : ℕ → Fields → Outcome MemFields
unfolding mem_array
mem_from_canonical xlen d = elim (nonempty_array (get d "mem_writes")) [
  | some xs ↦ mem_array xlen "mem_writes" "store" xs []
  | none ↦ elim (nonempty_array (get d "mem_reads")) [
    | some xs ↦ mem_array xlen "mem_reads" "load" xs []
    | none ↦ ok (nothing [])
  ]
]

pub record TrapFields : Type 0 where
  pub cause : Option ℕ
  pub tval : Option ℕ
  pub epc : Option ℕ

-- `_trap_from_canonical`
unfoldable pub trap_from_canonical : ℕ → Option Json → Outcome TrapFields
trap_from_canonical xlen (some (obj t)) = do
  cause ← hex_opt xlen t "cause"
  tval ← hex_opt xlen t "tval"
  epc ← hex_opt xlen t "epc"
  ok (record { cause = cause; tval = tval; epc = epc })
trap_from_canonical xlen _ = ok (record { cause = none; tval = none; epc = none })

-- ===== src/Comparator/Record/Samples.antt =====
-- A record in the canonical schema, decoded, and a short log read.
use ai_chip_design_platform.Common.{pos, none, some, [], ◌∷◌, rtl, arith}
use ai_chip_design_platform.Comparator.Json.{
  Json, str, int, obj, arr, nil, cons, end, field, digits_from, int_of_text, int_of, has_key,
}
use ai_chip_design_platform.Comparator.Hex.{
  hex_digits, hex_number, match_hex, parse_hex_codes, parse_hex, mask_to, decimal, parse_pc,
}
use ai_chip_design_platform.Comparator.Entry.{CommitEntry}
use ai_chip_design_platform.Comparator.Record.Parts.{
  or_hex, or_int, text_opt, csr_from_dict, csr_writes_of, csrs_dict_to_list, legacy_csrs, csr_list,
  regs_dict_to_rd, regs_to_rd, mem_array, mem_from_canonical, trap_from_canonical,
}
use ai_chip_design_platform.Comparator.Record.{
  schema_errors_of, validate, step_of, mem_of, get_instr, get_pc, decode, from_dict,
}
use ai_chip_design_platform.Comparator.Reader.{malformed, ignored, iter_commits}
use ai_chip_design_platform.Comparator.Reader.Tolerance.{IsTolerant, iter_commits_tolerance}
use ai_chip_design_platform.Comparator.Samples.{entry}

decoder : Unit {0}
unfolding digits_from int_of_text int_of has_key hex_digits hex_number match_hex parse_hex_codes
    parse_hex mask_to decimal parse_pc or_hex or_int text_opt csr_from_dict csr_writes_of
    csrs_dict_to_list legacy_csrs csr_list regs_dict_to_rd regs_to_rd mem_array mem_from_canonical
    trap_from_canonical schema_errors_of validate step_of mem_of get_instr get_pc decode from_dict
decoder = tt

-- A store of four bytes that also writes `t0`.
abbrev sample : Json
sample = obj (
    field "seq" (int (pos 3)) (
      field "pc" (str "0x80000004") (
        field "instr" (str "0x00532023") (
          field "regs" (obj (field "T0" (str "0x1ffffffff") end)) (
            field "csrs" (obj (field "mepc" (str "80") end)) (
              field "mem_writes"
                (arr (
                  cons
                    (obj (
                      field "addr" (str "0x1000")
                        (field "data" (str "0x7f") (field "size" (int (pos 4)) end))))
                    nil))
                end))))))

abbrev decoded : CommitEntry
decoded = record entry {
  step = pos 3;
  pc = 0x8000_0004;
  instr = 0x00532023;
  rd = some (pos 5);
  rd_val = some 0xffff_ffff;
  mem_addr = some 0x1000;
  mem_val = some 0x7f;
  mem_op = some "store";
  mem_size = some (pos 4);
  csr_writes = record { csr = pos 0x341; val = 0x80 } ∷ [];
  privilege = none;
  lineno = 9;
}

iter_commits_tolerance_example :
    IsTolerant 2 0 3 (iter_commits 32 (pos 2) rtl 1 0 (malformed ∷ ignored ∷ malformed ∷ []))
iter_commits_tolerance_example =
    iter_commits_tolerance 32 2 rtl (malformed ∷ ignored ∷ malformed ∷ []) (omega arith)

-- ===== src/Comparator/Names.antt =====
-- The register and CSR names of the canonical schema (`_REG_NAME_TO_IDX`, `_CSR_NAME_TO_ADDR`).
use ai_chip_design_platform.Common.{
  ℕ, Option, none, some, List, [], ◌∷◌, String, if◌then◌else◌, codes, lower, eq_codes,
}

-- `table.get(name.lower())`
abbrev pub find_name : List (String × ℕ) → String → Option ℕ
find_name [] name = none
find_name ((k, v) ∷ table) name =
    if eq_codes (codes k) (lower name) then some v else find_name table name

abbrev pub reg_name_to_idx : List (String × ℕ)
reg_name_to_idx =
    ("x0", 0)
    ∷ ("x1", 1)
    ∷ ("x2", 2)
    ∷ ("x3", 3)
    ∷ ("x4", 4)
    ∷ ("x5", 5)
    ∷ ("x6", 6)
    ∷ ("x7", 7)
    ∷ ("x8", 8)
    ∷ ("x9", 9)
    ∷ ("x10", 10)
    ∷ ("x11", 11)
    ∷ ("x12", 12)
    ∷ ("x13", 13)
    ∷ ("x14", 14)
    ∷ ("x15", 15)
    ∷ ("x16", 16)
    ∷ ("x17", 17)
    ∷ ("x18", 18)
    ∷ ("x19", 19)
    ∷ ("x20", 20)
    ∷ ("x21", 21)
    ∷ ("x22", 22)
    ∷ ("x23", 23)
    ∷ ("x24", 24)
    ∷ ("x25", 25)
    ∷ ("x26", 26)
    ∷ ("x27", 27)
    ∷ ("x28", 28)
    ∷ ("x29", 29)
    ∷ ("x30", 30)
    ∷ ("x31", 31)
    ∷ ("zero", 0)
    ∷ ("ra", 1)
    ∷ ("sp", 2)
    ∷ ("gp", 3)
    ∷ ("tp", 4)
    ∷ ("t0", 5)
    ∷ ("t1", 6)
    ∷ ("t2", 7)
    ∷ ("s0", 8)
    ∷ ("fp", 8)
    ∷ ("s1", 9)
    ∷ ("a0", 10)
    ∷ ("a1", 11)
    ∷ ("a2", 12)
    ∷ ("a3", 13)
    ∷ ("a4", 14)
    ∷ ("a5", 15)
    ∷ ("a6", 16)
    ∷ ("a7", 17)
    ∷ ("s2", 18)
    ∷ ("s3", 19)
    ∷ ("s4", 20)
    ∷ ("s5", 21)
    ∷ ("s6", 22)
    ∷ ("s7", 23)
    ∷ ("s8", 24)
    ∷ ("s9", 25)
    ∷ ("s10", 26)
    ∷ ("s11", 27)
    ∷ ("t3", 28)
    ∷ ("t4", 29)
    ∷ ("t5", 30)
    ∷ ("t6", 31)
    ∷ []

abbrev pub csr_name_to_addr : List (String × ℕ)
csr_name_to_addr =
    ("mstatus", 0x300)
    ∷ ("misa", 0x301)
    ∷ ("mie", 0x304)
    ∷ ("mtvec", 0x305)
    ∷ ("mepc", 0x341)
    ∷ ("mcause", 0x342)
    ∷ ("mtval", 0x343)
    ∷ ("mip", 0x344)
    ∷ ("mhartid", 0xf14)
    ∷ ("satp", 0x180)
    ∷ ("sstatus", 0x100)
    ∷ ("sie", 0x104)
    ∷ ("stvec", 0x105)
    ∷ ("sepc", 0x141)
    ∷ ("scause", 0x142)
    ∷ ("stval", 0x143)
    ∷ ("sip", 0x144)
    ∷ ("cycle", 0xc00)
    ∷ ("instret", 0xc02)
    ∷ []

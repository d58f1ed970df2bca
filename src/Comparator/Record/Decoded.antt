-- ===== src/Comparator/Record/Decoded.antt =====
-- What every decoded entry satisfies.
use ai_chip_design_platform.Common.{ℕ, ◌^◌, ◌<◌, pos, true, false, some, [], ◌≡◌, ◌≢◌, ◌↔◌, All}
use ai_chip_design_platform.Comparator.Json.{Json, Fields}
use ai_chip_design_platform.Comparator.Entry.{CommitEntry}
use ai_chip_design_platform.Comparator.Record.Parts.{MemFields}
use ai_chip_design_platform.Comparator.Record.Schema.{IsInSchema}
use ai_chip_design_platform.Comparator.Record.Shape.{IsWellShaped, HasShape, ShowsShape}
use ai_chip_design_platform.Comparator.Record.Widths.{Below, IsWide, IsWideMem}

-- All numbers of an entry fit in XLEN bits.
pub record IsNarrow (xlen : ℕ) (e : CommitEntry) : Type 0 where
  pub pc : e.pc < 2 ^ xlen
  pub instr : e.instr < 2 ^ xlen
  pub rd_val : Below xlen e.rd_val
  pub rs1_val : Below xlen e.rs1_val
  pub rs2_val : Below xlen e.rs2_val
  pub mem_addr : Below xlen e.mem_addr
  pub mem_val : Below xlen e.mem_val
  pub trap_cause : Below xlen e.trap_cause
  pub trap_tval : Below xlen e.trap_tval
  pub trap_pc : Below xlen e.trap_pc
  pub csr_writes : All (IsWide xlen) e.csr_writes

pub record IsDecoded (xlen : ℕ) (v : Json) (e : CommitEntry) : Type 0 where
  pub narrow : IsNarrow xlen e
  pub x0 :
      (e.x0_violation ≡ true) ↔ ((n : ℕ) × (e.rd ≡ some (pos 0)) × (e.rd_val ≡ some n) × (n ≢ 0))
  pub flagged : (e.schema_violation ≡ true) ↔ (e.schema_errors ≢ [])
  pub in_schema : (e.schema_violation ≡ false) ↔ (HasShape v × IsInSchema e)

-- The memory fields fit, and their errors are those of the shape.
abbrev IsSound : ℕ → Fields → MemFields → Type 0
IsSound xlen d m = IsWideMem xlen m × ShowsShape (IsWellShaped d) m

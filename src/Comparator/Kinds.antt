-- ===== src/Comparator/Kinds.antt =====
-- The error codes of the comparator and their severities (`MismatchType`, `Severity`,
-- `_SEVERITY_MAP`, `_severity_for`, `_SARIF_LEVEL`).
use ai_chip_design_platform.Common.{String}

-- The aliases LOG_LENGTH, STEP_DISCONTINUITY and X0_INVARIANT name members below.
pub data MismatchType : Type 0 where
  pc_mismatch reg_mismatch csr_mismatch mem_mismatch trap_mismatch : MismatchType
  length_mismatch seq_gap x0_written align_error schema_invalid : MismatchType
  binary_hash_mismatch instr_mismatch trap_cause_mismatch : MismatchType
  privilege_mismatch parse_warning : MismatchType

-- The wire-format string of a member.
unfoldable pub value : MismatchType → String
value pc_mismatch = "PCMISMATCH"
value reg_mismatch = "REGMISMATCH"
value csr_mismatch = "CSRMISMATCH"
value mem_mismatch = "MEMMISMATCH"
value trap_mismatch = "TRAPMISMATCH"
value length_mismatch = "LENGTHMISMATCH"
value seq_gap = "SEQGAP"
value x0_written = "X0WRITTEN"
value align_error = "ALIGNMENTERROR"
value schema_invalid = "SCHEMAINVALID"
value binary_hash_mismatch = "BINARYHASHMISMATCH"
value instr_mismatch = "INSTRMISMATCH"
value trap_cause_mismatch = "TRAPCAUSEMISMATCH"
value privilege_mismatch = "PRIVILEGEMISMATCH"
value parse_warning = "PARSEERROR"

-- `human`: each code has an entry of `_MISMATCH_HUMAN`, so the default is never used.
unfoldable human : MismatchType → String
human pc_mismatch = "Program counter divergence"
human reg_mismatch = "General-purpose register write-back mismatch"
human csr_mismatch = "CSR write value mismatch"
human mem_mismatch = "Memory address or value mismatch"
human trap_mismatch = "Trap/exception signalling mismatch"
human length_mismatch = "Logs have different commit counts"
human seq_gap = "Step-number sequence discontinuity (gap/duplicate/reorder)"
human x0_written = "x0 hardwired-zero invariant violated"
human align_error = "Unaligned memory access detected"
human schema_invalid = "Commit-log record fails required schema"
human binary_hash_mismatch = "Binary SHA-256 mismatch vs manifest expected hash"
human instr_mismatch = "Instruction word divergence (fetch/decode error)"
human trap_cause_mismatch = "Trap taken but mcause/mepc/mtval differ"
human privilege_mismatch = "Privilege mode (M/S/U) mismatch at commit"
human parse_warning = "Malformed or skipped commit-log line"

pub data Severity : Type 0 where
  critical error warning info : Severity

-- `_severity_for`: each code has an entry of `_SEVERITY_MAP`, so the default is never used.
unfoldable pub severity_for : MismatchType → Severity
severity_for pc_mismatch = critical
severity_for length_mismatch = critical
severity_for seq_gap = critical
severity_for schema_invalid = critical
severity_for binary_hash_mismatch = critical
severity_for instr_mismatch = error
severity_for trap_mismatch = error
severity_for trap_cause_mismatch = error
severity_for x0_written = error
severity_for align_error = error
severity_for reg_mismatch = warning
severity_for csr_mismatch = warning
severity_for mem_mismatch = warning
severity_for privilege_mismatch = warning
severity_for parse_warning = info

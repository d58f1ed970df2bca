-- ===== src/Comparator/Issue.antt =====
-- One issue of a commit pair (`_Issue`).
use ai_chip_design_platform.Common.{Option}
use ai_chip_design_platform.Comparator.Kinds.{MismatchType}
use ai_chip_design_platform.Comparator.Entry.{FieldName, Shown}

pub record Issue : Type 0 where
  pub mismatch_type : MismatchType
  pub differing_field : FieldName
  pub rtl_value : Option Shown
  pub iss_value : Option Shown

abbrev pub issue : MismatchType → FieldName → Option Shown → Option Shown → Issue
issue m f r i = record { mismatch_type = m; differing_field = f; rtl_value = r; iss_value = i }

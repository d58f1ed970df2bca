-- ===== src/Comparator/Record/Schema.antt =====
-- What it takes for a record to have no schema error.
use ai_chip_design_platform.Common.{
  ◌≤◌, ℤ, pos, negsuc, eq_ℤ_iff, ltb_ℤ, false, Option, none, some, List, [], ◌∷◌, String,
  str_eq_iff, append-eq-nil, not, if◌then◌else◌, ◌≡◌, ◌↔◌, ◌⊎◌, arith, refl,
}
use ai_chip_design_platform.Comparator.Entry.{CommitEntry, SchemaError, step_negative}
use ai_chip_design_platform.Comparator.Record.{
  validate, schema_errors_of, check_field, in_reg_range, is_mem_op, is_mem_size, is_privilege,
  is_empty,
}

-- A given field is within its range.
abbrev pub InRange : {A : Type 0} → (A → Type 0) → Option A → Type 0
InRange P none = Unit
InRange P (some a) = P a

abbrev pub IsRegister : ℤ → Type 0
IsRegister (pos n) = n ≤ 31
IsRegister (negsuc n) = ⊥

abbrev pub IsAccessSize : ℤ → Type 0
IsAccessSize n = (n ≡ pos 1) ⊎ (n ≡ pos 2) ⊎ (n ≡ pos 4) ⊎ (n ≡ pos 8)

abbrev pub IsMemOp : String → Type 0
IsMemOp s = (s ≡ "load") ⊎ (s ≡ "store") ⊎ (s ≡ "amo")

abbrev pub IsPrivilege : String → Type 0
IsPrivilege s = (s ≡ "M") ⊎ (s ≡ "S") ⊎ (s ≡ "U")

abbrev pub IsStep : ℤ → Type 0
IsStep (pos n) = Unit
IsStep (negsuc n) = ⊥

-- The ranges of the optional fields and of the step.
pub record IsInSchema (e : CommitEntry) : Type 0 where
  pub rd : InRange IsRegister e.rd
  pub rs1 : InRange IsRegister e.rs1
  pub rs2 : InRange IsRegister e.rs2
  pub mem_op : InRange IsMemOp e.mem_op
  pub mem_size : InRange IsAccessSize e.mem_size
  pub privilege : InRange IsPrivilege e.privilege
  pub step : IsStep e.step

in_reg_range-IsRegister :
    (error : ℤ → SchemaError) (o : Option ℤ)
    → (check_field in_reg_range error o ≡ []) ↔ InRange IsRegister o
in_reg_range-IsRegister error none = ((λ h. tt), λ h. refl)
in_reg_range-IsRegister error (some (pos n)) = ground arith
in_reg_range-IsRegister error (some (negsuc n)) = ground arith

is_mem_size-IsAccessSize :
    (error : ℤ → SchemaError) (o : Option ℤ)
    → (check_field is_mem_size error o ≡ []) ↔ InRange IsAccessSize o
is_mem_size-IsAccessSize error none = ((λ h. tt), λ h. refl)
is_mem_size-IsAccessSize error (some n) =
    ground (arith, eq_ℤ_iff n (pos 1), eq_ℤ_iff n (pos 2), eq_ℤ_iff n (pos 4), eq_ℤ_iff n (pos 8))

is_mem_op-IsMemOp :
    (error : String → SchemaError) (o : Option String)
    → (check_field is_mem_op error o ≡ []) ↔ InRange IsMemOp o
is_mem_op-IsMemOp error none = ((λ h. tt), λ h. refl)
is_mem_op-IsMemOp error (some s) =
    ground (arith, str_eq_iff s "load", str_eq_iff s "store", str_eq_iff s "amo")

is_privilege-IsPrivilege :
    (error : String → SchemaError) (o : Option String)
    → (check_field is_privilege error o ≡ []) ↔ InRange IsPrivilege o
is_privilege-IsPrivilege error none = ((λ h. tt), λ h. refl)
is_privilege-IsPrivilege error (some s) =
    ground (arith, str_eq_iff s "M", str_eq_iff s "S", str_eq_iff s "U")

ltb_ℤ-IsStep : (n : ℤ) → ((if ltb_ℤ n (pos 0) then step_negative n ∷ [] else []) ≡ []) ↔ IsStep n
ltb_ℤ-IsStep (pos n) = ((λ h. tt), λ h. ground arith)
ltb_ℤ-IsStep (negsuc n) = ((λ h. ground arith), λ h. absurd h)

no_errors_iff : (es : List SchemaError) → (not (is_empty es) ≡ false) ↔ (es ≡ [])
no_errors_iff [] = ((λ h. refl), λ h. refl)
no_errors_iff (x ∷ es) = ((λ h. cc), λ h. cc)

schema_errors_iff :
    (errs : List SchemaError) (e : CommitEntry)
    → (schema_errors_of errs e ≡ []) ↔ ((errs ≡ []) × IsInSchema e)
unfolding schema_errors_of
schema_errors_iff errs e = (
  (λ h.
      let (shape, h₁) = (append-eq-nil errs _).0 h in
      let (rd, h₂) = (append-eq-nil _ _).0 h₁ in
      let (rs1, h₃) = (append-eq-nil _ _).0 h₂ in
      let (rs2, h₄) = (append-eq-nil _ _).0 h₃ in
      let (op, h₅) = (append-eq-nil _ _).0 h₄ in
      let (size, h₆) = (append-eq-nil _ _).0 h₅ in
      let (privilege, step) = (append-eq-nil _ _).0 h₆ in
      (
        shape,
        record {
          rd = (in_reg_range-IsRegister _ e.rd).0 rd;
          rs1 = (in_reg_range-IsRegister _ e.rs1).0 rs1;
          rs2 = (in_reg_range-IsRegister _ e.rs2).0 rs2;
          mem_op = (is_mem_op-IsMemOp _ e.mem_op).0 op;
          mem_size = (is_mem_size-IsAccessSize _ e.mem_size).0 size;
          privilege = (is_privilege-IsPrivilege _ e.privilege).0 privilege;
          step = (ltb_ℤ-IsStep e.step).0 step;
        },
      )),
  λ h.
      let s = h.1 in
      (append-eq-nil errs _).1 (
        h.0,
        (append-eq-nil _ _).1 (
          (in_reg_range-IsRegister _ e.rd).1 s.rd,
          (append-eq-nil _ _).1 (
            (in_reg_range-IsRegister _ e.rs1).1 s.rs1,
            (append-eq-nil _ _).1 (
              (in_reg_range-IsRegister _ e.rs2).1 s.rs2,
              (append-eq-nil _ _).1 (
                (is_mem_op-IsMemOp _ e.mem_op).1 s.mem_op,
                (append-eq-nil _ _).1 (
                  (is_mem_size-IsAccessSize _ e.mem_size).1 s.mem_size,
                  (append-eq-nil _ _).1 (
                    (is_privilege-IsPrivilege _ e.privilege).1 s.privilege,
                    (ltb_ℤ-IsStep e.step).1 s.step,
                  ),
                ),
              ),
            ),
          ),
        ),
      ),
)

-- The flag is clear exactly if the memory lists have their shape and the fields are in range.
pub validate-IsInSchema :
    {S : Type 0} (errs : List SchemaError) (e : CommitEntry)
    → (errs ≡ []) ↔ S
    → ((validate errs e).schema_violation ≡ false) ↔ (S × IsInSchema (validate errs e))
unfolding validate
validate-IsInSchema errs e shows = (
  (λ h.
      let (shape, s) =
        (schema_errors_iff errs e).0 ((no_errors_iff (schema_errors_of errs e)).0 h) in
      (
        shows.0 shape,
        record {
          rd = s.rd;
          rs1 = s.rs1;
          rs2 = s.rs2;
          mem_op = s.mem_op;
          mem_size = s.mem_size;
          privilege = s.privilege;
          step = s.step;
        },
      )),
  λ h.
      let s = h.1 in
      (no_errors_iff (schema_errors_of errs e)).1 (
        (schema_errors_iff errs e).1 (
          shows.1 h.0,
          record {
            rd = s.rd;
            rs1 = s.rs1;
            rs2 = s.rs2;
            mem_op = s.mem_op;
            mem_size = s.mem_size;
            privilege = s.privilege;
            step = s.step;
          },
        )),
)

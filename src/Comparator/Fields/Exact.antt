-- ===== src/Comparator/Fields/Exact.antt =====
-- The comparison of a pair is silent on exactly the pairs that pass its checks.
use ai_chip_design_platform.Common.{
  ℕ, Bool, true, false, Option, none, some, List, [], ◌∷◌, ◌++◌, append-eq-nil, ◌&&◌, not, str_eq,
  str_eq_iff, String, if◌then◌else◌, Outcome, ok, raise, ◌≡◌, ◌↔◌, refl, arith, eq_option, ◌>>=◌,
  rtl, iss, ◌==◌, ==_iff,
}
use ai_chip_design_platform.Comparator.Config.{CompareConfig, skips}
use ai_chip_design_platform.Comparator.Entry.{CommitEntry}
use ai_chip_design_platform.Comparator.Issue.{Issue}
use ai_chip_design_platform.Comparator.Fields.{
  compare_fields, compare_effects, csr_issues, mem_issues,
}
use ai_chip_design_platform.Comparator.Fields.Csrs.{cmp_csrs, normalise}
use ai_chip_design_platform.Comparator.Fields.Memory.{
  cmp_mem, value_issues, align_side, both_differ,
}
use ai_chip_design_platform.Comparator.Fields.Basic.{
  schema_issues, x0_issues, trap_issues, reg_issues, privilege_issues,
}
use ai_chip_design_platform.Comparator.Fields.Agreement.{
  SameIfGiven, HasNoSchemaError, SameTrap, WritebackPasses, SameMemory, align_side-nil,
  schema_issues-nil, x0_issues-nil, trap_issues-nil, reg_writes-nil, privilege_values-nil,
  cmp_norm-nil, value_issues-nil,
}

both_differ_iff : (ra ia : Option ℕ) → (both_differ ra ia ≡ false) ↔ SameIfGiven ra ia
both_differ_iff none ia = ground arith
both_differ_iff (some ra) none = ground arith
both_differ_iff (some ra) (some ia) = ground arith

ok_append-nil :
    (o : Outcome (List Issue)) (ys : List Issue)
    → ((o >>= λ xs. ok (xs ++ ys)) ≡ ok []) ↔ ((o ≡ ok []) × (ys ≡ []))
ok_append-nil (ok xs) ys = ground (arith, append-eq-nil xs ys)
ok_append-nil (raise e) ys = ground arith

op_same : (a b : Option String) → (eq_option str_eq a b ≡ true) ↔ (a ≡ b)
op_same none none = ground arith
op_same none (some b) = ground arith
op_same (some a) none = ground arith
op_same (some a) (some b) = ground (arith, str_eq_iff a b)

cmp_mem-nil : (c : CompareConfig) (r i : CommitEntry) → (cmp_mem c r i ≡ ok []) ↔ SameMemory c r i
unfolding cmp_mem
cmp_mem-nil c r i = ground (
  arith,
  op_same r.mem_op i.mem_op,
  both_differ_iff r.mem_addr i.mem_addr,
  value_issues-nil c r.mem_size i.mem_size r.mem_val i.mem_val,
  ok_append-nil (value_issues c r.mem_size i.mem_size r.mem_val i.mem_val)
      (if c.check_alignment then align_side rtl r ++ align_side iss i else []),
  append-eq-nil (align_side rtl r) (align_side iss i),
  align_side-nil rtl r,
  align_side-nil iss i,
)

-- A skipped check is silent.
waived :
    (skip : Bool) {xs : List Issue} {P : Type 0}
    → (xs ≡ []) ↔ P
    → ((if skip then [] else xs) ≡ []) ↔ (skip ≡ false → P)
waived true e = ((λ h s. cc), λ h. refl)
waived false e = ((λ h _. e.0 h), λ h. e.1 (h refl))

waived_ok :
    (skip : Bool) {o : Outcome (List Issue)} {P : Type 0}
    → (o ≡ ok []) ↔ P
    → ((if skip then ok [] else o) ≡ ok []) ↔ (skip ≡ false → P)
waived_ok true e = ((λ h s. cc), λ h. refl)
waived_ok false e = ((λ h _. e.0 h), λ h. e.1 (h refl))

-- The checks of a pair, with the names in skip_fields that turn each off. `rd` alone turns off none,
-- and the check of the memory needs three names.
pub record PassesChecks (c : CompareConfig) (r i : CommitEntry) : Type 0 where
  pub rtl_schema : HasNoSchemaError r
  pub iss_schema : HasNoSchemaError i
  pub x0 : c.enforce_x0_invariant ≡ true → (r.x0_violation ≡ false) × (i.x0_violation ≡ false)
  pub pc : skips c "pc" ≡ false → r.pc ≡ i.pc
  pub instr : skips c "instr" ≡ false → r.instr ≡ i.instr
  pub trap : skips c "trap" ≡ false → SameTrap c r i
  pub writeback : skips c "rd_val" ≡ false → WritebackPasses r.rd i.rd r.rd_val i.rd_val
  pub csrs : skips c "csr_writes" ≡ false → normalise c r.csr_writes ≡ normalise c i.csr_writes
  pub memory :
      skips c "mem_addr" && (skips c "mem_val" && skips c "mem_op") ≡ false → SameMemory c r i
  pub privilege : skips c "privilege" ≡ false → SameIfGiven r.privilege i.privilege

-- The checks behind the PC and the instruction word.
record EffectsPass (c : CompareConfig) (r i : CommitEntry) : Type 0 where
  trap : skips c "trap" ≡ false → SameTrap c r i
  writeback : skips c "rd_val" ≡ false → WritebackPasses r.rd i.rd r.rd_val i.rd_val
  csrs : skips c "csr_writes" ≡ false → normalise c r.csr_writes ≡ normalise c i.csr_writes
  memory : skips c "mem_addr" && (skips c "mem_val" && skips c "mem_op") ≡ false → SameMemory c r i
  privilege : skips c "privilege" ≡ false → SameIfGiven r.privilege i.privilege

mem_issues-nil :
    (c : CompareConfig) (r i : CommitEntry)
    → (mem_issues c r i ≡ ok [])
      ↔ (skips c "mem_addr" && (skips c "mem_val" && skips c "mem_op") ≡ false → SameMemory c r i)
unfolding mem_issues
mem_issues-nil c r i =
    waived_ok (skips c "mem_addr" && (skips c "mem_val" && skips c "mem_op")) (cmp_mem-nil c r i)

effects_parts :
    (o : Outcome (List Issue)) (t g s p : List Issue)
    → ((o >>= λ m. ok (t ++ (g ++ (s ++ (m ++ p))))) ≡ ok [])
      ↔ ((t ≡ []) × (g ≡ []) × (s ≡ []) × (o ≡ ok []) × (p ≡ []))
effects_parts (ok m) t g s p = ground (
  arith,
  append-eq-nil t (g ++ (s ++ (m ++ p))),
  append-eq-nil g (s ++ (m ++ p)),
  append-eq-nil s (m ++ p),
  append-eq-nil m p,
)
effects_parts (raise e) t g s p = ground arith

effects-nil :
    (c : CompareConfig) (r i : CommitEntry) → (compare_effects c r i ≡ ok []) ↔ EffectsPass c r i
unfolding compare_effects reg_issues csr_issues cmp_csrs privilege_issues
effects-nil c r i =
    let parts =
      effects_parts (mem_issues c r i) (trap_issues c r i) (reg_issues c r i) (csr_issues c r i)
        (privilege_issues c r i) in
    let reg = waived (skips c "rd_val") (reg_writes-nil r.rd i.rd r.rd_val i.rd_val) in
    let csr =
      waived (skips c "csr_writes")
        (cmp_norm-nil (normalise c r.csr_writes) (normalise c i.csr_writes)) in
    let priv = waived (skips c "privilege") (privilege_values-nil r.privilege i.privilege) in
    (
      (λ h.
          let (t, g, s, m, p) = parts.0 h in
          record {
            trap = (trap_issues-nil c r i).0 t;
            writeback = reg.0 g;
            csrs = csr.0 s;
            memory = (mem_issues-nil c r i).0 m;
            privilege = priv.0 p;
          }),
      λ a. parts.1 (
        (trap_issues-nil c r i).1 a.trap,
        reg.1 a.writeback,
        csr.1 a.csrs,
        (mem_issues-nil c r i).1 a.memory,
        priv.1 a.privilege,
      ),
    )

fields_parts :
    (skip_pc same_pc skip_instr same_instr : Bool) (before : List Issue) (x y : Issue)
    (o : Outcome (List Issue))
    → ((if not skip_pc && not same_pc
          then ok (before ++ x ∷ [])
          else if not skip_instr && not same_instr
          then ok (before ++ y ∷ [])
          else (o >>= λ effects. ok (before ++ effects)))
        ≡ ok [])
      ↔ ((skip_pc ≡ false → same_pc ≡ true)
          × (skip_instr ≡ false → same_instr ≡ true)
          × (before ≡ [])
          × (o ≡ ok []))
fields_parts sp ep si ei before x y (ok effects) = ground (
  arith,
  append-eq-nil before (x ∷ []),
  append-eq-nil before (y ∷ []),
  append-eq-nil before effects,
)
fields_parts sp ep si ei before x y (raise e) =
    ground (arith, append-eq-nil before (x ∷ []), append-eq-nil before (y ∷ []))

pub compare_fields_exact :
    (c : CompareConfig) (r i : CommitEntry) → (compare_fields c r i ≡ ok []) ↔ PassesChecks c r i
unfolding compare_fields
compare_fields_exact c r i =
    let parts =
      fields_parts (skips c "pc") (r.pc == i.pc) (skips c "instr") (r.instr == i.instr)
        (schema_issues r i ++ x0_issues c r i) _ _ (compare_effects c r i) in
    let before = append-eq-nil (schema_issues r i) (x0_issues c r i) in
    (
      (λ h.
          let (pc, instr, b, e) = parts.0 h in
          let effects = (effects-nil c r i).0 e in
          let (sch, x) = before.0 b in
          record {
            rtl_schema = ((schema_issues-nil r i).0 sch).0;
            iss_schema = ((schema_issues-nil r i).0 sch).1;
            x0 = (x0_issues-nil c r i).0 x;
            pc = λ s. (==_iff r.pc i.pc).0 (pc s);
            instr = λ s. (==_iff r.instr i.instr).0 (instr s);
            trap = effects.trap;
            writeback = effects.writeback;
            csrs = effects.csrs;
            memory = effects.memory;
            privilege = effects.privilege;
          }),
      λ a. parts.1 (
        (λ s. (==_iff r.pc i.pc).1 (a.pc s)),
        (λ s. (==_iff r.instr i.instr).1 (a.instr s)),
        before.1
            ((schema_issues-nil r i).1 (a.rtl_schema, a.iss_schema), (x0_issues-nil c r i).1 a.x0),
        (effects-nil c r i).1 (record {
          trap = a.trap;
          writeback = a.writeback;
          csrs = a.csrs;
          memory = a.memory;
          privilege = a.privilege;
        }),
      ),
    )

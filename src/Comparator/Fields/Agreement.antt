-- ===== src/Comparator/Fields/Agreement.antt =====
-- What it takes for a pair of commits to raise no issue, said without the comparison's order.
use ai_chip_design_platform.Common.{
  ℕ, ◌==◌, ==_iff, ℤ, pos, eq_ℤ_iff, true, false, Option, none, some, List, [], ◌∷◌, ◌++◌,
  str_eq_iff, append-eq-nil, String, Outcome, ok, raise, ◌≡◌, ◌↔◌, ◌≢◌, refl, arith, bit_and,
  Bool-cases, inl, inr, length, ap, map, Side, rtl, iss, ◌>>=◌, ◌<◌, ◌%◌, negsuc,
}
use ai_chip_design_platform.Comparator.Config.{CompareConfig, skips}
use ai_chip_design_platform.Comparator.Entry.{CommitEntry, CsrWrite}
use ai_chip_design_platform.Comparator.Fields.Csrs.{cmp_norm, zip_csrs}
use ai_chip_design_platform.Comparator.Fields.Memory.{
  value_issues, masked_values, size_mask, align_side, is_misaligned,
}
use ai_chip_design_platform.Comparator.Fields.Basic.{
  schema_issue, schema_side, schema_issues, x0_issues, trap_attr, trap_issues, reg_values,
  reg_writes, privilege_values,
}

-- Two values agree where both are given.
abbrev pub SameIfGiven : {A : Type 0} → Option A → Option A → Type 0
SameIfGiven none b = Unit
SameIfGiven (some x) none = Unit
SameIfGiven (some x) (some y) = x ≡ y

abbrev pub HasNoSchemaError : CommitEntry → Type 0
HasNoSchemaError e = e.schema_violation ≡ true → e.schema_errors ≡ []

pub map-eq-nil : {A B : Type 0} (f : A → B) (xs : List A) → (map f xs ≡ []) ↔ (xs ≡ [])
map-eq-nil f [] = ground arith
map-eq-nil f (x ∷ xs) = ground arith

schema_side-nil : (s : Side) (e : CommitEntry) → (schema_side s e ≡ []) ↔ HasNoSchemaError e
unfolding schema_side
schema_side-nil s e = ground (arith, map-eq-nil (λ err. schema_issue s err) e.schema_errors)

trap_attr-nil :
    (c : CompareConfig) (attr : String) (rv iv : Option ℕ)
    → (trap_attr c attr rv iv ≡ []) ↔ (skips c attr ≡ false → SameIfGiven rv iv)
unfolding trap_attr
trap_attr-nil c attr none iv = ground arith
trap_attr-nil c attr (some rv) none = ground arith
trap_attr-nil c attr (some rv) (some iv) = ground arith

reg_values-nil : (rv iv : Option ℕ) → (reg_values rv iv ≡ []) ↔ SameIfGiven rv iv
unfolding reg_values
reg_values-nil none iv = ground arith
reg_values-nil (some rv) none = ground arith
reg_values-nil (some rv) (some iv) = ground arith

-- The write-back is compared only where the RTL writes a register other than x0.
abbrev pub WritebackPasses : Option ℤ → Option ℤ → Option ℕ → Option ℕ → Type 0
WritebackPasses none ird rv iv = Unit
WritebackPasses (some rrd) ird rv iv = rrd ≢ pos 0 → SameIfGiven (some rrd) ird × SameIfGiven rv iv

pub reg_writes-nil :
    (rrd ird : Option ℤ) (rv iv : Option ℕ)
    → (reg_writes rrd ird rv iv ≡ []) ↔ WritebackPasses rrd ird rv iv
unfolding reg_writes
reg_writes-nil none ird rv iv = ground arith
reg_writes-nil (some rrd) none rv iv = ground (arith, reg_values-nil rv iv, eq_ℤ_iff rrd (pos 0))
reg_writes-nil (some rrd) (some ird) rv iv =
    ground (arith, reg_values-nil rv iv, eq_ℤ_iff rrd (pos 0), eq_ℤ_iff rrd ird)

pub privilege_values-nil :
    (rp ip : Option String) → (privilege_values rp ip ≡ []) ↔ SameIfGiven rp ip
unfolding privilege_values
privilege_values-nil none ip = ground arith
privilege_values-nil (some rp) none = ground arith
privilege_values-nil (some rp) (some ip) = ground (arith, str_eq_iff rp ip)

zip_csrs-nil : (rl il : List CsrWrite) → length rl ≡ length il → (zip_csrs rl il ≡ []) ↔ (rl ≡ il)
unfolding zip_csrs
zip_csrs-nil [] [] h = ground arith
zip_csrs-nil [] (i ∷ il) h = ground arith
zip_csrs-nil (r ∷ rl) [] h = ground arith
zip_csrs-nil (r ∷ rl) (i ∷ il) h =
    ground (arith, zip_csrs-nil rl il (omega arith), eq_ℤ_iff r.csr i.csr)

pub cmp_norm-nil : (rl il : List CsrWrite) → (cmp_norm rl il ≡ []) ↔ (rl ≡ il)
unfolding cmp_norm
cmp_norm-nil rl il = elim (Bool-cases (length rl == length il)) [
  | inl e ↦ rw e (zip_csrs-nil rl il ((==_iff _ _).0 e))
  | inr e ↦ rw e ((λ h. cc), λ h. cc (e, (==_iff _ _).1 (ap length h)))
]

pub schema_issues-nil :
    (r i : CommitEntry) → (schema_issues r i ≡ []) ↔ (HasNoSchemaError r × HasNoSchemaError i)
unfolding schema_issues
schema_issues-nil r i = ground (
  arith,
  append-eq-nil (schema_side rtl r) (schema_side iss i),
  schema_side-nil rtl r,
  schema_side-nil iss i,
)

pub x0_issues-nil :
    (c : CompareConfig) (r i : CommitEntry)
    → (x0_issues c r i ≡ [])
      ↔ (c.enforce_x0_invariant ≡ true → (r.x0_violation ≡ false) × (i.x0_violation ≡ false))
unfolding x0_issues
x0_issues-nil c r i = ground arith

-- The two sides signal a trap alike and, where they do, give the same cause, value and PC.
abbrev pub SameTrap : CompareConfig → CommitEntry → CommitEntry → Type 0
SameTrap c r i =
    (r.trap ≡ i.trap)
    × (r.trap ≡ true
        → (skips c "trap_cause" ≡ false → SameIfGiven r.trap_cause i.trap_cause)
          × (skips c "trap_tval" ≡ false → SameIfGiven r.trap_tval i.trap_tval)
          × (skips c "trap_pc" ≡ false → SameIfGiven r.trap_pc i.trap_pc))

pub trap_issues-nil :
    (c : CompareConfig) (r i : CommitEntry)
    → (trap_issues c r i ≡ []) ↔ (skips c "trap" ≡ false → SameTrap c r i)
unfolding trap_issues
trap_issues-nil c r i = ground (
  arith,
  append-eq-nil (trap_attr c "trap_cause" r.trap_cause i.trap_cause) (
      trap_attr c "trap_tval" r.trap_tval i.trap_tval ++ trap_attr c "trap_pc" r.trap_pc i.trap_pc),
  append-eq-nil (trap_attr c "trap_tval" r.trap_tval i.trap_tval)
      (trap_attr c "trap_pc" r.trap_pc i.trap_pc),
  trap_attr-nil c "trap_cause" r.trap_cause i.trap_cause,
  trap_attr-nil c "trap_tval" r.trap_tval i.trap_tval,
  trap_attr-nil c "trap_pc" r.trap_pc i.trap_pc,
)

-- Where both are given, an access size above 1 divides the address.
abbrev IsAlignedAt : Option ℕ → Option ℤ → Type 0
IsAlignedAt none size = Unit
IsAlignedAt (some addr) none = Unit
IsAlignedAt (some addr) (some (pos n)) = 1 < n → addr % n ≡ 0
IsAlignedAt (some addr) (some (negsuc _)) = Unit

abbrev pub IsAligned : CommitEntry → Type 0
IsAligned e = IsAlignedAt e.mem_addr e.mem_size

is_misaligned-false :
    (addr : Option ℕ) (size : Option ℤ) → (is_misaligned addr size ≡ false) ↔ IsAlignedAt addr size
unfolding is_misaligned
is_misaligned-false none size = ground arith
is_misaligned-false (some addr) none = ground arith
is_misaligned-false (some addr) (some (pos n)) = ground arith
is_misaligned-false (some addr) (some (negsuc _)) = ground arith

pub align_side-nil : (s : Side) (e : CommitEntry) → (align_side s e ≡ []) ↔ IsAligned e
unfolding align_side
align_side-nil s e = ground (arith, is_misaligned-false e.mem_addr e.mem_size)

-- The values agree in the bits that the smallest given access size and XLEN leave.
abbrev pub SameValue : CompareConfig → Option ℤ → Option ℤ → Option ℕ → Option ℕ → Type 0
SameValue c rs is none iv = Unit
SameValue c rs is (some rv) none = Unit
SameValue c rs is (some rv) (some iv) =
    (m : ℕ) × (size_mask c rs is ≡ ok m) × (bit_and rv m ≡ bit_and iv m)

pub value_issues-nil :
    (c : CompareConfig) (rs is : Option ℤ) (rv iv : Option ℕ)
    → (value_issues c rs is rv iv ≡ ok []) ↔ SameValue c rs is rv iv
unfolding value_issues masked_values
value_issues-nil c rs is none iv = ground arith
value_issues-nil c rs is (some rv) none = ground arith
value_issues-nil c rs is (some rv) (some iv) = go (size_mask c rs is)
  where
    go :
        (o : Outcome ℕ)
        → ((o >>= λ m. ok (masked_values m rv iv)) ≡ ok [])
          ↔ ((m : ℕ) × (o ≡ ok m) × (bit_and rv m ≡ bit_and iv m))
    go (ok m) = ((λ h. (m, refl, ground arith)), λ h. ground arith)
    go (raise e) = ((λ h. cc), λ h. cc h.1)

abbrev pub SameMemory : CompareConfig → CommitEntry → CommitEntry → Type 0
SameMemory c r i =
    (r.mem_op ≡ i.mem_op)
    × (r.mem_op ≢ none
        → SameIfGiven r.mem_addr i.mem_addr
          × SameValue c r.mem_size i.mem_size r.mem_val i.mem_val
          × (c.check_alignment ≡ true → IsAligned r × IsAligned i))

-- ===== src/Comparator/Fields/Csrs.antt =====
-- The CSR writes of a pair (`_FieldComparator._cmp_csrs`).
use ai_chip_design_platform.Common.{
  ℕ, ◌-◌, ◌==◌, ℤ, pos, negsuc, eq_ℤ, leb_ℤ, some, List, [], ◌∷◌, map, not, if◌then◌else◌, bit_and,
  contains, length,
}
use ai_chip_design_platform.Comparator.Kinds.{csr_mismatch}
use ai_chip_design_platform.Comparator.Config.{CompareConfig, value_mask}
use ai_chip_design_platform.Comparator.Entry.{
  CommitEntry, CsrWrite, hex, csr_hex, writes, named, csr_field,
}
use ai_chip_design_platform.Comparator.Issue.{Issue, issue}

-- `cfg.csr_masks.get(csr, cfg.value_mask)`
abbrev pub mask_for : List (ℤ × ℤ) → ℤ → ℕ → ℤ
mask_for [] csr default = pos default
mask_for ((k, m) ∷ ms) csr default = if eq_ℤ k csr then m else mask_for ms csr default

-- `value & mask`: a negative mask -(n + 1) has the bits that n has not.
abbrev pub and_mask : ℕ → ℤ → ℕ
and_mask value (pos n) = bit_and value n
and_mask value (negsuc n) = value - bit_and value n

unfoldable pub drop_ignored : List ℤ → List CsrWrite → List CsrWrite
drop_ignored ignored [] = []
drop_ignored ignored (w ∷ ws) =
    if contains eq_ℤ w.csr ignored then drop_ignored ignored ws else w ∷ drop_ignored ignored ws

abbrev pub masked : List (ℤ × ℤ) → ℕ → CsrWrite → CsrWrite
masked masks default w = record { csr = w.csr; val = and_mask w.val (mask_for masks w.csr default) }

unfoldable pub apply_masks : List (ℤ × ℤ) → ℕ → List CsrWrite → List CsrWrite
apply_masks [] default ws = ws
apply_masks (m ∷ ms) default ws = map (masked (m ∷ ms) default) ws

-- `sorted(out, key=lambda w: w.csr)`: stable.
unfoldable pub insert_csr : CsrWrite → List CsrWrite → List CsrWrite
insert_csr w [] = w ∷ []
insert_csr w (x ∷ xs) = if leb_ℤ w.csr x.csr then w ∷ (x ∷ xs) else x ∷ insert_csr w xs

unfoldable pub sort_csrs : List CsrWrite → List CsrWrite
unfolding insert_csr
sort_csrs [] = []
sort_csrs (w ∷ ws) = insert_csr w (sort_csrs ws)

-- `_norm`
unfoldable pub normalise : CompareConfig → List CsrWrite → List CsrWrite
unfolding drop_ignored apply_masks sort_csrs value_mask
normalise c ws =
    let out = apply_masks c.csr_masks (value_mask c) (drop_ignored c.ignored_csrs ws) in
    if c.csr_write_order_sensitive then out else sort_csrs out

unfoldable pub zip_csrs : List CsrWrite → List CsrWrite → List Issue
zip_csrs [] il = []
zip_csrs (rw_ ∷ rl) [] = []
zip_csrs (rw_ ∷ rl) (iw ∷ il) =
    let rest = zip_csrs rl il in
    if not (eq_ℤ rw_.csr iw.csr)
    then issue csr_mismatch (named "csr_writes") (some (csr_hex rw_.csr)) (some (csr_hex iw.csr))
      ∷ rest
    else if not (rw_.val == iw.val)
    then issue csr_mismatch (csr_field rw_.csr) (some (hex rw_.val)) (some (hex iw.val)) ∷ rest
    else rest

unfoldable pub cmp_norm : List CsrWrite → List CsrWrite → List Issue
unfolding zip_csrs
cmp_norm rl il =
    if not (length rl == length il)
    then issue csr_mismatch (named "csr_writes") (some (writes rl)) (some (writes il)) ∷ []
    else zip_csrs rl il

unfoldable pub cmp_csrs : CompareConfig → CommitEntry → CommitEntry → List Issue
unfolding cmp_norm normalise
cmp_csrs c r i = cmp_norm (normalise c r.csr_writes) (normalise c i.csr_writes)

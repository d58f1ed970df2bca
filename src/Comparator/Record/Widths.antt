-- ===== src/Comparator/Record/Widths.antt =====
-- Every value that a record's parts decode to fits in XLEN bits.
use ai_chip_design_platform.Common.{
  ℕ, ◌^◌, ◌<◌, ℤ, pos, negsuc, Option, none, some, List, [], String, ok, raise, ◌>>=◌, arith, All,
  Ensures, bind-Ensures, Ensures-any, if_ind, returns, raises, value_error,
}
use native.Mathlib.Nat.{one-le-pow}
use ai_chip_design_platform.Comparator.Json.{
  Json, Items, Fields, null, arr, obj, nil, cons, end, field, get, get_value, truthy,
}
use ai_chip_design_platform.Comparator.Hex.{mask_to, parse_hex}
use ai_chip_design_platform.Comparator.Entry.{CsrWrite, SchemaError}
use ai_chip_design_platform.Comparator.Names.{find_name, reg_name_to_idx}
use ai_chip_design_platform.Comparator.Record.Parts.{
  or_hex, required, csr_from_dict, csr_writes_of, csrs_dict_to_list, legacy_csrs, csr_list,
  regs_dict_to_rd, regs_to_rd, MemFields, mem_array, mem_from_canonical, TrapFields,
  trap_from_canonical, int_opt, legacy_rd, nonempty_array, nothing,
}

pub pow2_pos : (w : ℕ) → 0 < 2 ^ w
pow2_pos w = one-le-pow w 2 (omega arith)

pub mask_to-lt : (xlen : ℕ) (n : ℤ) → mask_to xlen n < 2 ^ xlen
unfolding mask_to
mask_to-lt xlen (pos n) = grind (arith, pow2_pos xlen)
mask_to-lt xlen (negsuc n) = omega (arith, pow2_pos xlen)

abbrev pub Below : ℕ → Option ℕ → Type 0
Below xlen none = Unit
Below xlen (some v) = v < 2 ^ xlen

pub or_hex-Below : (xlen : ℕ) (o : Option Json) → Ensures (Below xlen) (or_hex xlen o)
unfolding or_hex
or_hex-Below xlen none = returns tt
or_hex-Below xlen (some v) =
    bind-Ensures (Ensures-any (parse_hex v)) (λ n _. returns (mask_to-lt xlen n))

abbrev pub IsWide : ℕ → CsrWrite → Type 0
IsWide xlen w = w.val < 2 ^ xlen

csr_from_dict-IsWide : (xlen : ℕ) (v : Json) → Ensures (IsWide xlen) (csr_from_dict xlen v)
unfolding csr_from_dict
csr_from_dict-IsWide xlen (obj d) = bind-Ensures (Ensures-any (required d "csr")) λ c _.
    bind-Ensures (Ensures-any (parse_hex c)) λ _ _.
      bind-Ensures (Ensures-any (required d "val"))
        λ v _. bind-Ensures (Ensures-any (parse_hex v)) λ n _. returns (mask_to-lt xlen n)
csr_from_dict-IsWide xlen null = raises
csr_from_dict-IsWide xlen _ = raises

csr_writes_of-IsWide : (xlen : ℕ) (xs : Items) → Ensures (All (IsWide xlen)) (csr_writes_of xlen xs)
unfolding csr_writes_of
csr_writes_of-IsWide xlen nil = returns tt
csr_writes_of-IsWide xlen (cons x xs) =
    bind-Ensures (csr_from_dict-IsWide xlen x)
      λ w p. bind-Ensures (csr_writes_of-IsWide xlen xs) λ ws ps. returns (p, ps)

csrs_dict_to_list-IsWide :
    (xlen : ℕ) (d : Fields) → Ensures (All (IsWide xlen)) (csrs_dict_to_list xlen d)
unfolding csrs_dict_to_list
csrs_dict_to_list-IsWide xlen end = returns tt
csrs_dict_to_list-IsWide xlen (field name v rest) = bind-Ensures (Ensures-any (parse_hex v)) λ n _.
    bind-Ensures (csrs_dict_to_list-IsWide xlen rest) λ ws ps. returns (mask_to-lt xlen n, ps)

legacy_csrs-IsWide : (xlen : ℕ) (o : Option Json) → Ensures (All (IsWide xlen)) (legacy_csrs xlen o)
unfolding legacy_csrs
legacy_csrs-IsWide xlen none = returns tt
legacy_csrs-IsWide xlen (some (arr xs)) = csr_writes_of-IsWide xlen xs
legacy_csrs-IsWide xlen (some v) =
    if_ind (Ensures (All (IsWide xlen))) (truthy v) {x = raise value_error} (λ _. raises)
      (λ _. returns tt)

pub csr_list-IsWide : (xlen : ℕ) (d : Fields) → Ensures (All (IsWide xlen)) (csr_list xlen d)
unfolding csr_list
csr_list-IsWide xlen d = go (get d "csrs")
  where
    legacy : Ensures (All (IsWide xlen)) (legacy_csrs xlen (get d "csr_writes"))
    legacy = legacy_csrs-IsWide xlen (get d "csr_writes")

    go :
        (o : Option Json)
        → Ensures (All (IsWide xlen)) (elim o [
          | none ↦ legacy_csrs xlen (get d "csr_writes")
          | some v ↦ elim v [
            | obj csrs ↦ csrs_dict_to_list xlen csrs
            | _ ↦ legacy_csrs xlen (get d "csr_writes")
          ]
        ])
    go none = legacy
    go (some (obj csrs)) = csrs_dict_to_list-IsWide xlen csrs
    go (some _) = legacy

-- A destination register with its value.
abbrev pub IsWideRd : ℕ → Option ℤ × Option ℕ → Type 0
IsWideRd xlen (rd, v) = Below xlen v

regs_dict_to_rd-IsWideRd :
    (xlen : ℕ) (d : Fields) → Ensures (IsWideRd xlen) (regs_dict_to_rd xlen d)
unfolding regs_dict_to_rd
regs_dict_to_rd-IsWideRd xlen end = returns tt
regs_dict_to_rd-IsWideRd xlen (field name v rest) =
    go (find_name reg_name_to_idx name) (regs_dict_to_rd-IsWideRd xlen rest)
  where
    go :
        (o : Option ℕ)
        → Ensures (IsWideRd xlen) (regs_dict_to_rd xlen rest)
        → Ensures (IsWideRd xlen) (elim o [
          | some idx ↦ (parse_hex v >>= λ n. ok (some (pos idx), some (mask_to xlen n)))
          | none ↦ regs_dict_to_rd xlen rest
        ])
    go none later = later
    go (some idx) later =
        bind-Ensures (Ensures-any (parse_hex v)) λ n _. returns (mask_to-lt xlen n)

pub regs_to_rd-IsWideRd : (xlen : ℕ) (d : Fields) → Ensures (IsWideRd xlen) (regs_to_rd xlen d)
unfolding regs_to_rd
regs_to_rd-IsWideRd xlen d = go (get d "regs")
  where
    legacy : Ensures (IsWideRd xlen) (legacy_rd xlen d)
    legacy =
        bind-Ensures (Ensures-any (int_opt d "rd"))
          λ rd _. bind-Ensures (or_hex-Below xlen (get_value d "rd_val")) λ v p. returns p

    go :
        (o : Option Json)
        → Ensures (IsWideRd xlen) (elim o [
          | none ↦ legacy_rd xlen d
          | some v ↦ elim v [ obj regs ↦ regs_dict_to_rd xlen regs | _ ↦ legacy_rd xlen d ]
        ])
    go none = legacy
    go (some (obj regs)) = regs_dict_to_rd-IsWideRd xlen regs
    go (some _) = legacy

abbrev pub IsWideMem : ℕ → MemFields → Type 0
IsWideMem xlen m = Below xlen m.addr × Below xlen m.val

mem_array-IsWideMem :
    (xlen : ℕ) (key op : String) (xs : Items) (errs : List SchemaError)
    → Ensures (IsWideMem xlen) (mem_array xlen key op xs errs)
unfolding mem_array
mem_array-IsWideMem xlen key op nil errs = returns (tt, tt)
mem_array-IsWideMem xlen key op (cons (obj d) rest) errs =
    bind-Ensures (or_hex-Below xlen (get_value d "addr")) λ addr p.
      bind-Ensures (or_hex-Below xlen (get_value d "data"))
        λ val q. bind-Ensures (Ensures-any (int_opt d "size")) λ size _. returns (p, q)
mem_array-IsWideMem xlen key op (cons _ rest) errs = returns (tt, tt)

pub mem_from_canonical-IsWideMem :
    (xlen : ℕ) (d : Fields) → Ensures (IsWideMem xlen) (mem_from_canonical xlen d)
unfolding mem_from_canonical
mem_from_canonical-IsWideMem xlen d =
    go (nonempty_array (get d "mem_writes")) (nonempty_array (get d "mem_reads"))
  where
    go :
        (w r : Option Items)
        → Ensures (IsWideMem xlen) (elim w [
          | some xs ↦ mem_array xlen "mem_writes" "store" xs []
          | none ↦ elim r [
            | some xs ↦ mem_array xlen "mem_reads" "load" xs []
            | none ↦ ok (nothing [])
          ]
        ])
    go (some xs) r = mem_array-IsWideMem xlen "mem_writes" "store" xs []
    go none (some xs) = mem_array-IsWideMem xlen "mem_reads" "load" xs []
    go none none = returns (tt, tt)

abbrev pub IsWideTrap : ℕ → TrapFields → Type 0
IsWideTrap xlen t = Below xlen t.cause × Below xlen t.tval × Below xlen t.epc

pub trap_from_canonical-IsWideTrap :
    (xlen : ℕ) (o : Option Json) → Ensures (IsWideTrap xlen) (trap_from_canonical xlen o)
unfolding trap_from_canonical
trap_from_canonical-IsWideTrap xlen (some (obj t)) =
    bind-Ensures (or_hex-Below xlen (get_value t "cause")) λ _ p.
      bind-Ensures (or_hex-Below xlen (get_value t "tval"))
        λ _ q. bind-Ensures (or_hex-Below xlen (get_value t "epc")) λ _ r. returns (p, q, r)
trap_from_canonical-IsWideTrap xlen _ = returns (tt, tt, tt)

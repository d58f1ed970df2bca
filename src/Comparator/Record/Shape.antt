-- ===== src/Comparator/Record/Shape.antt =====
-- What it takes for the memory lists of a record to have no schema error.
use ai_chip_design_platform.Common.{
  ℕ, suc, ltb, Option, none, some, List, [], ◌∷◌, ◌++◌, String, if◌then◌else◌, ok, ◌>>=◌, ◌≡◌, ◌↔◌,
  refl, arith, Ensures, bind-Ensures, Ensures-any, returns,
}
use ai_chip_design_platform.Comparator.Json.{
  Json, Items, Fields, nil, cons, get, get_value, null, bool, int, float, str, arr, obj,
}
use ai_chip_design_platform.Comparator.Entry.{SchemaError, mem_entries}
use ai_chip_design_platform.Comparator.Record.{mem_of}
use ai_chip_design_platform.Comparator.Record.Parts.{
  hex_opt, int_opt, text_opt, MemFields, items_length, mem_array, mem_from_canonical,
  nonempty_array, nothing,
}

-- A list of accesses has one, which is an object.
abbrev pub IsSingle : Items → Type 0
IsSingle nil = Unit
IsSingle (cons (obj d) nil) = Unit
IsSingle (cons _ _) = ⊥

-- The accesses of a record: of its writes if there are any, else of its reads.
abbrev pub HasSingleAccess : (writes reads : Option Items) → Type 0
HasSingleAccess (some xs) reads = IsSingle xs
HasSingleAccess none (some xs) = IsSingle xs
HasSingleAccess none none = Unit

abbrev pub IsWellShaped : Fields → Type 0
IsWellShaped d =
    HasSingleAccess (nonempty_array (get d "mem_writes")) (nonempty_array (get d "mem_reads"))

-- The errors of the memory lists are those of their shape.
abbrev pub ShowsShape : Type 0 → MemFields → Type 0
ShowsShape S m = (m.errors ≡ []) ↔ S

append_not_empty : (es : List SchemaError) (x : SchemaError) → (es ++ x ∷ [] ≡ []) ↔ ⊥
append_not_empty [] x = ground arith
append_not_empty (e ∷ es) x = ground arith

entries_not_empty :
    (key : String) (n : ℕ)
    → ((if ltb 1 (suc (suc n)) then mem_entries key (suc (suc n)) ∷ [] else []) ≡ []) ↔ ⊥
entries_not_empty key n = ground arith

mem_array-ShowsShape :
    (xlen : ℕ) (key op : String) (xs : Items)
    → Ensures (ShowsShape (IsSingle xs)) (mem_array xlen key op xs [])
unfolding mem_array
mem_array-ShowsShape xlen key op nil = returns ((λ h. tt), λ h. refl)
mem_array-ShowsShape xlen key op (cons (obj d) nil) =
    bind-Ensures (Ensures-any (hex_opt xlen d "addr")) λ addr _.
      bind-Ensures (Ensures-any (hex_opt xlen d "data")) λ val _.
        bind-Ensures (Ensures-any (int_opt d "size")) λ size _. returns ((λ h. tt), λ h. refl)
mem_array-ShowsShape xlen key op (cons (obj d) (cons x rest)) =
    bind-Ensures (Ensures-any (hex_opt xlen d "addr")) λ addr _.
      bind-Ensures (Ensures-any (hex_opt xlen d "data")) λ val _.
        bind-Ensures (Ensures-any (int_opt d "size"))
          λ size _. returns (entries_not_empty key (items_length rest))
mem_array-ShowsShape xlen key op (cons (null) rest) = returns (append_not_empty _ _)
mem_array-ShowsShape xlen key op (cons (bool b) rest) = returns (append_not_empty _ _)
mem_array-ShowsShape xlen key op (cons (int n) rest) = returns (append_not_empty _ _)
mem_array-ShowsShape xlen key op (cons (float n z) rest) = returns (append_not_empty _ _)
mem_array-ShowsShape xlen key op (cons (str s) rest) = returns (append_not_empty _ _)
mem_array-ShowsShape xlen key op (cons (arr xs) rest) = returns (append_not_empty _ _)

pub mem_from_canonical-ShowsShape :
    (xlen : ℕ) (d : Fields) → Ensures (ShowsShape (IsWellShaped d)) (mem_from_canonical xlen d)
unfolding mem_from_canonical
mem_from_canonical-ShowsShape xlen d =
    go (nonempty_array (get d "mem_writes")) (nonempty_array (get d "mem_reads"))
  where
    go :
        (w r : Option Items)
        → Ensures (ShowsShape (HasSingleAccess w r)) (elim w [
          | some xs ↦ mem_array xlen "mem_writes" "store" xs []
          | none ↦ elim r [
            | some xs ↦ mem_array xlen "mem_reads" "load" xs []
            | none ↦ ok (nothing [])
          ]
        ])
    go (some xs) r = mem_array-ShowsShape xlen "mem_writes" "store" xs
    go none (some xs) = mem_array-ShowsShape xlen "mem_reads" "load" xs
    go none none = returns ((λ h. tt), λ h. refl)

-- The memory lists of a record have their shape.
abbrev pub HasShape : Json → Type 0
HasShape (obj d) = IsWellShaped d
HasShape v = Unit

pub mem_of-ShowsShape :
    {S : Type 0} (xlen : ℕ) (m : MemFields) (d : Fields)
    → ShowsShape S m
    → Ensures (ShowsShape S) (mem_of xlen m d)
unfolding mem_of
mem_of-ShowsShape {S} xlen m d shows = go m.op
  where
    go :
        (o : Option String)
        → Ensures (ShowsShape S) (elim o [
          | some op ↦ ok m
          | none ↦
              (hex_opt xlen d "mem_addr" >>= λ addr. hex_opt xlen d "mem_val" >>= λ val.
              text_opt (get_value d "mem_op") >>= λ op. int_opt d "mem_size" >>= λ size.
              ok (record { addr = addr; val = val; op = op; size = size; errors = m.errors }))
        ])
    go (some op) = returns shows
    go none = bind-Ensures (Ensures-any (hex_opt xlen d "mem_addr")) λ addr _.
        bind-Ensures (Ensures-any (hex_opt xlen d "mem_val")) λ val _.
          bind-Ensures (Ensures-any (text_opt (get_value d "mem_op")))
            λ op _. bind-Ensures (Ensures-any (int_opt d "mem_size")) λ size _. returns shows

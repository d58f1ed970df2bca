-- ===== src/Temporal/Monitors.antt =====
-- The monitors of AGENT_H/temporal_checker.py: the state of each, and its `step`.
use ai_chip_design_platform.Common.{
  ℕ, ℤ, eq_ℤ, ltb_ℤ, ◌-ℤ◌, Bool, true, false, ◌&&◌, ◌||◌, not, Option, none, some, List, [], ◌∷◌,
  String, str_eq, codes, eq_codes, if◌then◌else◌,
}
use ai_chip_design_platform.Temporal.Record.{
  Addr, unreadable, absent, at, RegValue, eq_value, Pair, disasm_of, starts_with_any, has_text,
  third_word, get_reg,
}

-- What `step` does: it returns None, or a message, or raises ValueError.
pub data Verdict : Type 0 where
  holds violated raises : Verdict

-- `MretAfterTrap`, on `_trap_seen`
abbrev pub is_mret : Pair → Bool
is_mret p = eq_codes (disasm_of p) (codes "mret")

abbrev pub is_trap : Pair → Bool
is_trap p = p.iss.trap || p.rtl.trap

unfoldable pub mret_after_trap : Pair → Bool → Bool × Verdict
mret_after_trap p trap_seen =
    let seen = if is_trap p then true else trap_seen in
    if is_mret p then if seen then (false, holds) else (false, violated) else (seen, holds)

-- `LrBeforeSc`, on `_lr_seen_at`
abbrev pub is_lr : Pair → Bool
is_lr p = has_text (codes "lr.w") (disasm_of p)

abbrev pub is_sc : Pair → Bool
is_sc p = has_text (codes "sc.w") (disasm_of p)

abbrev pub in_window : (window seq : ℤ) → Option ℤ → Option ℤ × Verdict
in_window window seq none = (none, violated)
in_window window seq (some lr) =
    if ltb_ℤ window (seq -ℤ lr) then (some lr, violated) else (none, holds)

unfoldable pub lr_before_sc : (window : ℤ) → Pair → Option ℤ → Option ℤ × Verdict
lr_before_sc window p lr_seen_at =
    if is_lr p
    then (some p.seq, holds)
    else if is_sc p
    then in_window window p.seq lr_seen_at
    else (lr_seen_at, holds)

-- `ConsecutiveStoresSameAddr`, on `_last_store_addr`
abbrev loads : List String
loads = "lw" ∷ "lh" ∷ "lb" ∷ "lhu" ∷ "lbu" ∷ []

abbrev same_store : Option ℤ → Addr → Option ℤ × Verdict
same_store last unreadable = (last, raises)
same_store last absent = (none, holds)
same_store none (at a) = (some a, holds)
same_store (some b) (at a) = if eq_ℤ a b then (some b, violated) else (some a, holds)

unfoldable pub consecutive_stores : Pair → Option ℤ → Option ℤ × Verdict
consecutive_stores p last =
    if starts_with_any ("lr.w" ∷ loads) (disasm_of p)
    then (none, holds)
    else if starts_with_any ("sw" ∷ "sh" ∷ "sb" ∷ "sc.w" ∷ []) (disasm_of p)
    then same_store last p.iss.addr
    else (last, holds)

-- `CsrReadAfterWrite`, on `_pending`
abbrev pub Pending : Type 0
Pending = List (List ℕ × ℤ)

abbrev is_expired : (deadline seq : ℤ) → ℤ → Bool
is_expired deadline seq written = ltb_ℤ deadline (seq -ℤ written)

abbrev has_expired : (deadline seq : ℤ) → Pending → Bool
has_expired deadline seq [] = false
has_expired deadline seq ((csr, written) ∷ rest) =
    is_expired deadline seq written || has_expired deadline seq rest

abbrev drop_expired : (deadline seq : ℤ) → Pending → Pending
drop_expired deadline seq [] = []
drop_expired deadline seq ((csr, written) ∷ rest) =
    if is_expired deadline seq written
    then drop_expired deadline seq rest
    else (csr, written) ∷ drop_expired deadline seq rest

abbrev set_pending : List ℕ → ℤ → Pending → Pending
set_pending csr seq [] = (csr, seq) ∷ []
set_pending csr seq ((c, written) ∷ rest) =
    if eq_codes c csr then (c, seq) ∷ rest else (c, written) ∷ set_pending csr seq rest

abbrev pop_pending : List ℕ → Pending → Pending
pop_pending csr [] = []
pop_pending csr ((c, written) ∷ rest) =
    if eq_codes c csr then rest else (c, written) ∷ pop_pending csr rest

abbrev pub track_write : Bool → Option (List ℕ) → ℤ → Pending → Pending
track_write true (some csr) seq pending = set_pending csr seq pending
track_write _ _ seq pending = pending

abbrev pub track_read : Bool → Option (List ℕ) → Pending → Pending
track_read true (some csr) pending = pop_pending csr pending
track_read _ _ pending = pending

abbrev pub writes_csr : List ℕ → Bool
writes_csr = starts_with_any ("csrrw" ∷ "csrrs" ∷ "csrrc" ∷ [])

abbrev pub reads_csr : List ℕ → Bool
reads_csr = starts_with_any ("csrr" ∷ "csrrw" ∷ "csrrs" ∷ "csrrc" ∷ [])

unfoldable pub csr_read_after_write : (deadline : ℤ) → Pair → Pending → Pending × Verdict
csr_read_after_write deadline p pending =
    let d = disasm_of p in
    let csr = third_word d in
    if has_expired deadline p.seq pending
    then (drop_expired deadline p.seq pending, violated)
    else (track_read (reads_csr d) csr (track_write (writes_csr d) csr p.seq pending), holds)

-- `FenceBeforeLoadAfterStore`, on `_fence_seen` and `_store_addr`
abbrev regs_differ : (rtl iss : List (String × RegValue)) → Bool
regs_differ rtl [] = false
regs_differ rtl ((reg, v) ∷ iss) =
    (not (str_eq reg "x0") && not (eq_value (get_reg rtl reg) v)) || regs_differ rtl iss

pub record FenceState : Type 0 where
  pub fence_seen : Bool
  pub store_addr : Option ℤ

abbrev take_store : FenceState → Addr → FenceState × Verdict
take_store st unreadable = (st, raises)
take_store st absent = (record st { store_addr = none }, holds)
take_store st (at a) = (record st { store_addr = some a }, holds)

abbrev compare_load : Pair → FenceState → ℤ → Addr → FenceState × Verdict
compare_load p st store unreadable = (st, raises)
compare_load p st store absent = (st, holds)
compare_load p st store (at a) =
    if eq_ℤ a store
    then (
      record st { fence_seen = false },
      if regs_differ p.rtl.regs p.iss.regs then violated else holds,
    )
    else (st, holds)

abbrev take_load : Pair → FenceState → Bool → Option ℤ → FenceState × Verdict
take_load p st true (some store) = compare_load p st store p.iss.addr
take_load p st _ _ = (st, holds)

unfoldable pub fence_before_load : Pair → FenceState → FenceState × Verdict
fence_before_load p st =
    if has_text (codes "fence") (disasm_of p)
    then (record st { fence_seen = true }, holds)
    else if starts_with_any ("sw" ∷ "sh" ∷ "sb" ∷ []) (disasm_of p)
    then take_store st p.iss.addr
    else if starts_with_any loads (disasm_of p)
    then take_load p st st.fence_seen st.store_addr
    else (st, holds)

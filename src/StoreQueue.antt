-- ===== src/StoreQueue.antt =====
-- `LSQVerifier` of AGENT_H/lsq_verifier.py: forwarding from stores to loads, and the order in which
-- the stores of an address drain. The fields of a record are given by what `get`, `_to_int`
-- and `_commit` make of them; the texts of the violations are left out.
pub mod Forwarding
pub mod Draining
mod Samples
use ai_chip_design_platform.Common.{
  ℕ, suc, ℤ, eq_ℤ, ltb_ℤ, Bool, true, false, not, Option, none, some, List, [], ◌∷◌, ◌++◌, map,
  length, ◌==◌, if◌then◌else◌, contains, String, codes, lower, eq_codes,
}
use ai_chip_design_platform.Coherence.Order.{in_order}
use ai_chip_design_platform.Coherence.State.{set_where, add_addr, max_ℤ}

pub data Kind : Type 0 where
  load store : Kind

pub record MemOp : Type 0 where
  pub kind : Kind
  pub addr : Option ℤ
  pub value : Option ℤ

pub record Access : Type 0 where
  pub addr : Option ℤ
  pub value : Option ℤ

-- `mem_reads` and `mem_writes` are there if they are lists, with those entries that are dicts.
pub record LsqRecord : Type 0 where
  pub seq : Option ℤ
  pub commit : Option ℤ
  pub mem_reads : Option (List Access)
  pub mem_writes : Option (List Access)
  pub op : String
  pub addr : Option ℤ
  pub value : Option ℤ

abbrev mem_op : Kind → Access → MemOp
mem_op kind a = record { kind = kind; addr = a.addr; value = a.value }

abbrev single_op : List ℕ → Access → List MemOp
single_op op a =
    if contains eq_codes op (codes "load" ∷ codes "ld" ∷ codes "read" ∷ [])
    then mem_op load a ∷ []
    else if contains eq_codes op (codes "store" ∷ codes "st" ∷ codes "write" ∷ [])
    then mem_op store a ∷ []
    else []

abbrev list_or_nil : Option (List Access) → List Access
list_or_nil none = []
list_or_nil (some xs) = xs

abbrev listed_ops : (reads writes : Option (List Access)) → List MemOp → List MemOp
listed_ops none none single = single
listed_ops reads writes single =
    map (mem_op load) (list_or_nil reads) ++ map (mem_op store) (list_or_nil writes)

-- `_mem_ops`
unfoldable pub mem_ops_of : LsqRecord → List MemOp
mem_ops_of rec =
    listed_ops rec.mem_reads rec.mem_writes
      (single_op (lower rec.op) (record { addr = rec.addr; value = rec.value }))

pub data Check : Type 0 where
  lsq_forward lsq_store_order : Check

-- `hist_addrs` has the keys of `store_hist` in their order. The orders beside the commits are
-- not read.
pub record LsqState : Type 0 where
  pub last_store : ℤ → Option ℤ
  pub store_hist : ℤ → List ℤ
  pub hist_addrs : List ℤ
  pub addrs : List ℤ
  pub violations : List Check
  pub loads : ℕ
  pub stores : ℕ
  pub forwards_checked : ℕ

abbrev pub new_lsq : LsqState
new_lsq = record {
  last_store = λ _. none;
  store_hist = λ _. [];
  hist_addrs = [];
  addrs = [];
  violations = [];
  loads = 0;
  stores = 0;
  forwards_checked = 0;
}

unfoldable pub check_forward : (golden value : Option ℤ) → LsqState → LsqState
check_forward (some golden) (some value) st = record st {
  forwards_checked = suc st.forwards_checked;
  violations = st.violations ++ (if eq_ℤ value golden then [] else lsq_forward ∷ []);
}
check_forward (some golden) none st = st
check_forward none value st = st

abbrev pub keep_store : ℤ → Option ℤ → (ℤ → Option ℤ) → ℤ → Option ℤ
keep_store addr none last_store = last_store
keep_store addr (some value) last_store = set_where (λ a. eq_ℤ a addr) (some value) last_store

abbrev pub keep_commit : ℤ → Option ℤ → (ℤ → List ℤ) → ℤ → List ℤ
keep_commit addr none store_hist = store_hist
keep_commit addr (some commit) store_hist =
    set_where (λ a. eq_ℤ a addr) (store_hist addr ++ commit ∷ []) store_hist

abbrev pub keep_addr : ℤ → Option ℤ → List ℤ → List ℤ
keep_addr addr none hist_addrs = hist_addrs
keep_addr addr (some commit) hist_addrs =
    if contains eq_ℤ addr hist_addrs then hist_addrs else hist_addrs ++ addr ∷ []

unfoldable pub take_access : Kind → ℤ → (value commit : Option ℤ) → LsqState → LsqState
take_access load addr value commit st =
    check_forward (st.last_store addr) value
      (record st { addrs = add_addr addr st.addrs; loads = suc st.loads })
take_access store addr value commit st = record st {
  addrs = add_addr addr st.addrs;
  stores = suc st.stores;
  last_store = keep_store addr value st.last_store;
  store_hist = keep_commit addr commit st.store_hist;
  hist_addrs = keep_addr addr commit st.hist_addrs;
}

-- The body of the inner loop, on an operation and the commit of its record.
unfoldable pub take_op : Option ℤ → MemOp → LsqState → LsqState
take_op commit op st = elim op.addr [
  | none ↦ st
  | some addr ↦ take_access op.kind addr op.value commit st
]

-- The operations of the records, in program order, each with the commit of its record.
abbrev with_commit : Option ℤ → List MemOp → List (Option ℤ × MemOp)
with_commit commit [] = []
with_commit commit (op ∷ ops) = (commit, op) ∷ with_commit commit ops

abbrev pub ops_of : List (ℕ × LsqRecord) → List (Option ℤ × MemOp)
ops_of [] = []
ops_of ((i, rec) ∷ recs) = with_commit rec.commit (mem_ops_of rec) ++ ops_of recs

abbrev pub take_ops : List (Option ℤ × MemOp) → LsqState → LsqState
take_ops [] st = st
take_ops ((commit, op) ∷ ops) st = take_ops ops (take_op commit op st)

-- `_check_store_order`, for the commits of one address.
abbrev pub draining_issues : (prev : Option ℤ) → List ℤ → List Check
draining_issues prev [] = []
draining_issues none (c ∷ cs) = draining_issues (some c) cs
draining_issues (some prev) (c ∷ cs) =
    (if ltb_ℤ c prev then lsq_store_order ∷ [] else []) ++ draining_issues (some (max_ℤ prev c)) cs

abbrev pub store_order_issues : (ℤ → List ℤ) → List ℤ → List Check
store_order_issues store_hist [] = []
store_order_issues store_hist (a ∷ as_) =
    draining_issues none (store_hist a) ++ store_order_issues store_hist as_

unfoldable pub check_store_order : LsqState → LsqState
check_store_order st = record st {
  violations = st.violations ++ store_order_issues st.store_hist st.hist_addrs;
}

unfoldable pub run : List LsqRecord → LsqState
run recs = check_store_order (take_ops (ops_of (in_order (λ (r : LsqRecord). r.seq) recs)) new_lsq)

abbrev pub passes : LsqState → Bool
passes st = length st.violations == 0

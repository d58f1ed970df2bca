-- ===== src/Comparator/Window.antt =====
-- The sliding window of deltas that supplies a mismatch's context (`_DeltaEntry`,
-- `_DeltaWindow`).
pub mod Depth
use ai_chip_design_platform.Common.{
  ℕ, ◌-◌, ℤ, Bool, false, Option, none, some, List, [], ◌∷◌, ◌++◌, String, ◌==◌, eq_ℤ, eq_option,
  eq_bool, str_eq, if◌then◌else◌, length, drop,
}
use ai_chip_design_platform.Comparator.Entry.{CommitEntry, CsrWrite, eq_csr_writes}

-- `none` stands for "same as the previous commit".
pub record DeltaEntry : Type 0 where
  pub step : ℤ
  pub pc : ℕ
  pub instr : ℕ
  pub rd : Option ℤ
  pub rd_val : Option ℕ
  pub mem_op : Option String
  pub mem_addr : Option ℕ
  pub mem_val : Option ℕ
  pub trap : Option Bool
  pub disasm : Option String
  pub raw_csr_writes : Option (List CsrWrite)

pub record DeltaWindow : Type 0 where
  pub maxlen : ℕ
  pub ring : List DeltaEntry
  pub prev : Option CommitEntry

-- `max(maxlen, 0)` is `pos_part`.
abbrev pub init : ℕ → DeltaWindow
init maxlen = record { maxlen = maxlen; ring = []; prev = none }

-- `x if (p is None or x != p.x) else None`, for an optional field.
abbrev changed : {A : Type 0} → (A → A → Bool) → Option A → Option (Option A) → Option A
changed eq x none = x
changed eq x (some old) = if eq_option eq x old then none else x

-- The same for a field that always has a value.
abbrev changed_value : {A : Type 0} → (A → A → Bool) → A → Option A → Option A
changed_value eq x none = some x
changed_value eq x (some old) = if eq x old then none else some x

abbrev field_of : {A : Type 0} → (CommitEntry → A) → Option CommitEntry → Option A
field_of f none = none
field_of f (some p) = some (f p)

unfoldable pub delta : Option CommitEntry → CommitEntry → DeltaEntry
delta p e = record {
  step = e.step;
  pc = e.pc;
  instr = e.instr;
  rd = changed eq_ℤ e.rd (field_of (λ q. q.rd) p);
  rd_val = changed ◌==◌ e.rd_val (field_of (λ q. q.rd_val) p);
  mem_op = changed str_eq e.mem_op (field_of (λ q. q.mem_op) p);
  mem_addr = changed ◌==◌ e.mem_addr (field_of (λ q. q.mem_addr) p);
  mem_val = changed ◌==◌ e.mem_val (field_of (λ q. q.mem_val) p);
  trap = changed_value eq_bool e.trap (field_of (λ q. q.trap) p);
  disasm = changed str_eq e.disasm (field_of (λ q. q.disasm) p);
  raw_csr_writes = changed_value eq_csr_writes e.csr_writes (field_of (λ q. q.csr_writes) p);
}

-- `deque.append` of a deque with a maximal length: the oldest elements leave.
abbrev pub append_ring : ℕ → List DeltaEntry → DeltaEntry → List DeltaEntry
append_ring maxlen ring d = let all = ring ++ d ∷ [] in drop (length all - maxlen) all

unfoldable pub push : CommitEntry → DeltaWindow → DeltaWindow
push e w =
    if w.maxlen == 0
    then w
    else record w { ring = append_ring w.maxlen w.ring (delta w.prev e); prev = some e }

-- A row of the reconstructed context.
pub record ContextRow : Type 0 where
  pub step : ℤ
  pub pc : ℕ
  pub instr : ℕ
  pub rd : Option ℤ
  pub rd_val : Option ℕ
  pub mem_op : Option String
  pub mem_addr : Option ℕ
  pub mem_val : Option ℕ
  pub trap : Bool
  pub disasm : Option String
  pub csr_writes : List CsrWrite

-- The `state` dictionary of `snapshot`: the last value that a delta gave to each field.
pub record Shadow : Type 0 where
  pub rd : Option ℤ
  pub rd_val : Option ℕ
  pub mem_op : Option String
  pub mem_addr : Option ℕ
  pub mem_val : Option ℕ
  pub trap : Bool
  pub disasm : Option String
  pub csr_writes : List CsrWrite

abbrev pub zero_state : Shadow
zero_state = record {
  rd = none;
  rd_val = none;
  mem_op = none;
  mem_addr = none;
  mem_val = none;
  trap = false;
  disasm = none;
  csr_writes = [];
}

-- `if d.x is not None: state["x"] = d.x`
abbrev keep : {A : Type 0} → Option A → Option A → Option A
keep none old = old
keep (some x) old = some x

abbrev keep_value : {A : Type 0} → Option A → A → A
keep_value none old = old
keep_value (some x) old = x

unfoldable pub replay : DeltaEntry → Shadow → Shadow
replay d s = record {
  rd = keep d.rd s.rd;
  rd_val = keep d.rd_val s.rd_val;
  mem_op = keep d.mem_op s.mem_op;
  mem_addr = keep d.mem_addr s.mem_addr;
  mem_val = keep d.mem_val s.mem_val;
  trap = keep_value d.trap s.trap;
  disasm = keep d.disasm s.disasm;
  csr_writes = keep_value d.raw_csr_writes s.csr_writes;
}

unfoldable pub row : DeltaEntry → Shadow → ContextRow
row d s = record {
  step = d.step;
  pc = d.pc;
  instr = d.instr;
  rd = s.rd;
  rd_val = s.rd_val;
  mem_op = s.mem_op;
  mem_addr = s.mem_addr;
  mem_val = s.mem_val;
  trap = s.trap;
  disasm = s.disasm;
  csr_writes = s.csr_writes;
}

unfoldable pub replay_all : List DeltaEntry → Shadow → List ContextRow
replay_all [] s = []
replay_all (d ∷ ds) s = let s' = replay d s in row d s' ∷ replay_all ds s'

unfoldable pub snapshot : DeltaWindow → List ContextRow
unfolding replay_all
snapshot w = replay_all w.ring zero_state

-- ===== src/Coherence/Verifier.antt =====
-- `CoherenceVerifier` of AGENT_H/coherence_verifier.py: the loop of `run`, `_check_load` and
-- `_check_swmr`. The texts of the violations are left out.
use ai_chip_design_platform.Common.{
  ℕ, suc, ltb, ℤ, pos, negsuc, eq_ℤ, ltb_ℤ, Bool, true, false, ◌&&◌, not, Option, none, some, List,
  [], ◌∷◌, ◌++◌, if◌then◌else◌, length, ◌==◌, ◌||◌,
}
use ai_chip_design_platform.Coherence.Order.{in_order}
use ai_chip_design_platform.Coherence.State.{
  Core, Mesi, is_exclusive, is_valid, Op, load, store, norm_op, Event, Write, Check,
  read_from_valid, coherence_read_monotonic, swmr, CoherenceState, new_state, set_where,
  set_core_addr, max_ℤ, count_if, add_core, add_addr,
}

abbrev pub is_nil {ℓ} : {A : Type ℓ} → List A → Bool
is_nil [] = true
is_nil (x ∷ xs) = false

-- `value in (0, None)`
abbrev pub is_initial : Option ℤ → Bool
is_initial none = true
is_initial (some v) = eq_ℤ v (pos 0)

abbrev pub has_version : ℤ → List Write → Bool
has_version ver [] = false
has_version ver (w ∷ ws) = eq_ℤ w.ver ver || has_version ver ws

abbrev pub last_of : ℤ → List ℤ → ℤ
last_of v [] = v
last_of v (w ∷ ws) = last_of w ws

-- The version that a load without one reads: the last write of its value, or the initial value.
abbrev pub match_value : List Write → Option ℤ → List ℤ → Option ℤ
match_value writes value (v ∷ vs) = some (last_of v vs)
match_value writes value [] = if is_nil writes && is_initial value then some (negsuc 0) else none

-- `val_vers[addr].get(value)`, empty for no value.
abbrev pub versions_of : CoherenceState → ℤ → Option ℤ → List ℤ
versions_of st addr none = []
versions_of st addr (some v) = st.val_vers addr v

-- `matched` in `_check_load`
abbrev pub matched : CoherenceState → ℤ → (ver value : Option ℤ) → Option ℤ
matched st addr (some ver) value = if has_version ver (st.writes addr) then some ver else none
matched st addr none value = match_value (st.writes addr) value (versions_of st addr value)

abbrev pub is_given : Option ℤ → Bool
is_given none = false
is_given (some v) = true

abbrev pub unmatched_issues : ℕ → List Write → Option ℤ → List (ℕ × Check)
unmatched_issues i writes value =
    if is_nil writes && not (is_initial value)
    then (i, read_from_valid) ∷ []
    else if is_given value
    then (i, read_from_valid) ∷ []
    else []

-- `_check_load`, of what the load matches.
unfoldable pub check_load :
    ℕ → ℤ → Core → (value matched : Option ℤ) → CoherenceState → CoherenceState
check_load i addr core value none st = record st {
  violations = st.violations ++ unmatched_issues i (st.writes addr) value;
}
check_load i addr core value (some m) st = record st {
  violations =
      st.violations
      ++ (if ltb_ℤ m (st.last_seen core addr) then (i, coherence_read_monotonic) ∷ [] else []);
  last_seen = set_core_addr core addr (max_ℤ (st.last_seen core addr) m) st.last_seen;
}

abbrev pub version_or : Option ℤ → ℕ → ℤ
version_or none n = pos n
version_or (some ver) n = ver

abbrev pub index_value : ℤ → Option ℤ → ℤ → (ℤ → ℤ → List ℤ) → ℤ → ℤ → List ℤ
index_value addr none ver val_vers = val_vers
index_value addr (some v) ver val_vers =
    set_where (λ a. eq_ℤ a addr)
      (set_where (λ x. eq_ℤ x v) (val_vers addr v ++ ver ∷ []) (val_vers addr)) val_vers

-- The branch of a store.
unfoldable pub do_store : ℤ → Core → (ver value : Option ℤ) → CoherenceState → CoherenceState
do_store addr core ver value st =
    let n : ℤ = version_or ver (length (st.writes addr)) in
    record st {
      writes =
          set_where (λ a. eq_ℤ a addr)
            (st.writes addr ++ record { ver = n; value = value; core = core } ∷ []) st.writes;
      val_vers = index_value addr value n st.val_vers;
      last_seen = set_core_addr core addr (max_ℤ (st.last_seen core addr) n) st.last_seen;
      stores = suc st.stores;
    }

-- `_check_swmr`
abbrev pub breaks_swmr : CoherenceState → ℤ → Bool
breaks_swmr st addr =
    ltb 1 (count_if (λ c. is_exclusive (st.state c addr)) st.cores)
    || (ltb 0 (count_if (λ c. is_exclusive (st.state c addr)) st.cores)
        && ltb 1 (count_if (λ c. is_valid (st.state c addr)) st.cores))

abbrev pub swmr_issues : ℕ → ℤ → CoherenceState → List (ℕ × Check)
swmr_issues i addr st = if breaks_swmr st addr then (i, swmr) ∷ [] else []

unfoldable pub check_swmr : ℕ → ℤ → CoherenceState → CoherenceState
check_swmr i addr st = record st {
  swmr_checks = suc st.swmr_checks;
  violations = st.violations ++ swmr_issues i addr st;
}

unfoldable pub take_state : ℕ → ℤ → Core → Option Mesi → CoherenceState → CoherenceState
take_state i addr core none st = st
take_state i addr core (some s) st =
    check_swmr i addr (record st { state = set_core_addr core addr s st.state })

unfoldable pub take_access : ℕ → Op → ℤ → Core → Event → CoherenceState → CoherenceState
take_access i load addr core ev st =
    check_load i addr core ev.value (matched st addr ev.ver ev.value)
      (record st { loads = suc st.loads })
take_access i store addr core ev st = do_store addr core ev.ver ev.value st

unfoldable pub enter : ℤ → Core → CoherenceState → CoherenceState
enter addr core st = record st { cores = add_core core st.cores; addrs = add_addr addr st.addrs }

-- The body of the loop of `run`.
unfoldable pub take_event :
    ℕ → Option Op → Option ℤ → Option Core → Event → CoherenceState → CoherenceState
take_event i (some op) (some addr) (some core) ev st =
    take_state i addr core ev.state (take_access i op addr core ev (enter addr core st))
take_event i none addr core ev st = st
take_event i (some op) none core ev st = st
take_event i (some op) (some addr) none ev st = st

unfoldable pub check_event : ℕ → Event → CoherenceState → CoherenceState
check_event i ev st = take_event i (norm_op ev.op) ev.addr ev.core ev st

abbrev pub check_events : List (ℕ × Event) → CoherenceState → CoherenceState
check_events [] st = st
check_events ((i, ev) ∷ evs) st = check_events evs (check_event i ev st)

unfoldable pub run : List Event → CoherenceState
run events = check_events (in_order (λ (ev : Event). ev.cycle) events) new_state

-- `pass` of `_report`: all violations are of severity HIGH.
abbrev pub passes : CoherenceState → Bool
passes st = length st.violations == 0
